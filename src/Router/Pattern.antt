-- ===== src/Router/Pattern.antt =====
-- The patterns of routes: `part_t`, `pattern_t` and the functions on them in
-- src/url_router/url_router.cc. A text is the list of its bytes; lengths stay far below 2 ^ 32, so
-- `uint32_t` sums of lengths are sums.
use is.Prelude.{
  ℕ, suc, ◌+◌, List, [], ◌∷◌, ◌++◌, Option, none, some, Bool, true, false, not, ◌&&◌, ◌||◌,
  if◌then◌else◌, ltb, leb, ◌==◌, length, str_eq,
}

pub data PartType : Type 0 where
  string parameter terminal untyped : PartType

pub record Part : Type 0 where
  pub type : PartType
  pub str : List ℕ

abbrev pub Pattern : Type 0
Pattern = List Part

abbrev pub type_eq : PartType → PartType → Bool
type_eq string string = true
type_eq parameter parameter = true
type_eq terminal terminal = true
type_eq untyped untyped = true
type_eq string _ = false
type_eq parameter _ = false
type_eq terminal _ = false
type_eq untyped _ = false

unfoldable pub part_str : Part → List ℕ
part_str p = elim p.type [
  | string ↦ p.str
  | parameter ↦ b'<' ∷ (p.str ++ b'>' ∷ [])
  | terminal ↦ b'*' ∷ []
  | untyped ↦ []
]

unfoldable pub pattern_str : Pattern → List ℕ
unfolding part_str
pattern_str [] = []
pattern_str (p ∷ ps) = part_str p ++ pattern_str ps

unfoldable pub part_len : Part → ℕ
part_len p = elim p.type [
  | string ↦ length p.str
  | parameter ↦ 2 + length p.str
  | terminal ↦ 1
  | untyped ↦ 0
]

unfoldable pub pattern_len : Pattern → ℕ
unfolding part_len
pattern_len [] = 0
pattern_len (p ∷ ps) = part_len p + pattern_len ps

-- A byte of a text that ends with NUL.
abbrev pub byte : List ℕ → ℕ
byte [] = 0
byte (c ∷ cs) = c

abbrev pub rest : List ℕ → List ℕ
rest [] = []
rest (c ∷ cs) = cs

-- The first list is `a1` from `l_d1` on, the second `a2` from `l_d2` on, whose length is the count
-- `l_d2_len`; the bytes are compared before the count is.
unfoldable pub string_diff : List ℕ → List ℕ → ℕ
string_diff d1 [] = 0
string_diff d1 (c ∷ d2) =
    let more = string_diff (rest d1) d2 in if byte d1 == c then suc more else 0

-- `none` is the result -1.
unfoldable pub pattern_diff : Pattern → Pattern → ℕ → Option ℕ
unfolding string_diff
pattern_diff [] a2 len = some len
pattern_diff (p ∷ a1) [] len = some len
pattern_diff (p ∷ a1) (r ∷ a2) len =
    let diff = string_diff p.str r.str in
    let onward = pattern_diff a1 a2 (len + diff + (if type_eq p.type parameter then 2 else 0)) in
    if ltb 0 diff && not (diff == length p.str)
    then some (len + diff)
    else if diff == 0
    then some len
    else if not (type_eq p.type r.type)
    then none
    else onward

-- The loop over the bytes of a part: whether the offset is reached, the offset so far, the length
-- taken, and the bytes taken.
unfoldable pub sub_chars : ℕ → ℕ → List ℕ → Bool → ℕ → ℕ → List ℕ → Bool × ℕ × ℕ × List ℕ
sub_chars offset len [] found off taken out = (found, off, taken, out)
sub_chars offset len (c ∷ cs) found off taken out =
    let now = found || leb offset off in
    let hit = sub_chars offset len cs true (suc off) (suc taken) (out ++ c ∷ []) in
    let miss = sub_chars offset len cs false (suc off) taken out in
    if ltb taken len then (if now then hit else miss) else (found, off, taken, out)

-- The byte `<` or `>` of a parameter.
abbrev pub sub_mark : Part → Bool → ℕ → ℕ → ℕ × ℕ
sub_mark p found off taken =
    if type_eq p.type parameter then (suc off, if found then suc taken else taken) else (off, taken)

unfoldable pub sub_loop : ℕ → ℕ → Pattern → Bool → ℕ → ℕ → Pattern
unfolding sub_chars
sub_loop offset len [] found off taken = []
sub_loop offset len (p ∷ ps) found off taken =
    let (off1, taken1) = sub_mark p found off taken in
    let (found2, off2, taken2, out) = sub_chars offset len p.str found off1 taken1 [] in
    let (off3, taken3) = sub_mark p found2 off2 taken2 in
    let more = sub_loop offset len ps found2 off3 taken3 in
    let tail = if leb len taken3 then [] else more in
    if found2 then record { type = p.type; str = out } ∷ tail else tail

unfoldable pub pattern_sub : Pattern → ℕ → ℕ → Pattern
unfolding sub_loop
pattern_sub p offset len = sub_loop offset len p (offset == 0) 0 0

unfoldable pub pattern_match : Pattern → Pattern → Bool
unfolding str_eq
pattern_match [] [] = true
pattern_match [] (r ∷ a2) = false
pattern_match (p ∷ a1) [] = false
pattern_match (p ∷ a1) (r ∷ a2) = type_eq p.type r.type && str_eq p.str r.str && pattern_match a1 a2
