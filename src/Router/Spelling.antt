-- ===== src/Router/Spelling.antt =====
-- The print of a pattern, its length, and the route that it was made of.
use is.Prelude.{
  ℕ, ◌≡◌, refl, sym, ap, ◌∙◌, List, [], ◌∷◌, ◌++◌, some, arith, Bool-cases, inl, inr, ◌≢◌, length,
  length-append, append_assoc, append-nil, if◌then◌else◌, ◌==◌, ==_iff,
}
use is.Router.Pattern.{
  Pattern, Part, PartType, string, parameter, terminal, untyped, part_str, part_len, pattern_str,
  pattern_len, type_eq,
}
use is.Router.Convert.{part, convert_loop, convert_path_to_pattern, normal_path}

length-part_str : (p : Part) (t : PartType) → p.type ≡ t → length (part_str p) ≡ part_len p
unfolding part_str part_len
length-part_str p string e = rw e
length-part_str p parameter e = rw e (omega (arith, length-append p.str (b'>' ∷ [])))
length-part_str p terminal e = rw e
length-part_str p untyped e = rw e

-- `pattern_len` is the length of what `pattern_str` prints.
length-pattern_str : (p : Pattern) → length (pattern_str p) ≡ pattern_len p
unfolding pattern_str pattern_len
length-pattern_str [] = refl
length-pattern_str (p ∷ ps) = omega (
  arith,
  length-append (part_str p) (pattern_str ps),
  length-part_str p p.type refl,
  length-pattern_str ps,
)

pattern_str-append : (p q : Pattern) → pattern_str (p ++ q) ≡ pattern_str p ++ pattern_str q
unfolding pattern_str
pattern_str-append [] q = refl
pattern_str-append (p ∷ ps) q = rw (pattern_str-append ps q, append_assoc)

-- What is left of a path, read inside a part of this type: all up to the first `*`, which closes a
-- parameter that it stands in.
abbrev pub echo : PartType → List ℕ → List ℕ
echo type [] = []
echo type (c ∷ cs) =
    if c == b'*'
    then (if type_eq type parameter then b'>' ∷ b'*' ∷ [] else b'*' ∷ [])
    else c ∷ echo (if c == b'<' then parameter else if c == b'>' then string else type) cs

-- The open part: its text so far.
abbrev opened : PartType → List ℕ → List ℕ
opened type str = if type_eq type parameter then b'<' ∷ str else str

abbrev IsOpen : PartType → Type 0
IsOpen string = Unit {0}
IsOpen parameter = Unit {0}
IsOpen terminal = ⊥
IsOpen untyped = ⊥

spelled_push :
    (type : PartType) (str : List ℕ) (out : Pattern)
    → IsOpen type
    → pattern_str (out ++ part type str ∷ [])
      ≡ pattern_str out ++ (opened type str ++ (if type_eq type parameter then b'>' ∷ [] else []))
unfolding pattern_str
spelled_push string str out o = rw pattern_str-append (unfold pattern_str in refl)
spelled_push parameter str out o = rw pattern_str-append (unfold pattern_str in rw append-nil)
spelled_push terminal str out o = elim o [ ]
spelled_push untyped str out o = elim o [ ]

-- The equations between prints that the rounds of the loop need.
push_string :
    (str : List ℕ) (out : Pattern) (more : List ℕ)
    → pattern_str (out ++ part string str ∷ []) ++ more ≡ pattern_str out ++ (str ++ more)
push_string str out more =
    rw (spelled_push string str out tt, append-nil) (append_assoc (pattern_str out) str more)

push_parameter :
    (str : List ℕ) (out : Pattern) (more : List ℕ)
    → pattern_str (out ++ part parameter str ∷ []) ++ more
      ≡ pattern_str out ++ (b'<' ∷ str ++ b'>' ∷ more)
push_parameter str out more =
    rw (spelled_push parameter str out tt, append_assoc)
      (ap (λ x. pattern_str out ++ b'<' ∷ x) (append_assoc str (b'>' ∷ []) more))

push_two :
    (type : PartType) (str : List ℕ) (out : Pattern)
    → pattern_str (out ++ part type str ∷ part terminal [] ∷ [])
      ≡ pattern_str (out ++ part type str ∷ []) ++ b'*' ∷ []
push_two type str out =
    ap pattern_str (sym (append_assoc out (part type str ∷ []) (part terminal [] ∷ [])))
    ∙ pattern_str-append (out ++ part type str ∷ []) (part terminal [] ∷ [])
    ∙ (unfold pattern_str in refl)

pub spelled :
    (prev : ℕ) (cs : List ℕ) (type : PartType) (str : List ℕ) (out p : Pattern)
    → IsOpen type
    → convert_loop prev cs type str out ≡ some p
    → pattern_str p ≡ pattern_str out ++ (opened type str ++ echo type cs)
unfolding convert_loop
spelled prev [] string [] out p o h = let e : out ≡ p = ground arith in rw (append-nil, e)
spelled prev [] string (x ∷ str) out p o h =
    let e : out ++ part string (x ∷ str) ∷ [] ≡ p = ground arith in
    rw (← e) (spelled_push string (x ∷ str) out tt)
spelled prev [] parameter str out p o h = cc
spelled prev cs terminal str out p o h = elim o [ ]
spelled prev cs untyped str out p o h = elim o [ ]
spelled prev (c ∷ cs) string str out p o h = elim (Bool-cases (c == b'<')) [
  | inl t ↦
      let e : convert_loop c cs parameter [] (out ++ part string str ∷ []) ≡ some p =
        ground arith in
      let ec : c ≡ b'<' = (==_iff c b'<').0 t in
      rw ec (
        spelled c cs parameter [] (out ++ part string str ∷ []) p tt e
        ∙ push_string str out (b'<' ∷ echo parameter cs))
  | inr f ↦ elim (Bool-cases (c == b'*')) [
    | inl t ↦
        let e : out ++ part string str ∷ part terminal [] ∷ [] ≡ p = ground arith in
        let ec : c ≡ b'*' = (==_iff c b'*').0 t in
        rw (ec, ← e) (push_two string str out ∙ push_string str out (b'*' ∷ []))
    | inr g ↦
        let e : (c ≢ b'>') × (convert_loop c cs string (str ++ c ∷ []) out ≡ some p) =
          ground arith in
        ground (
          arith,
          e.0,
          spelled c cs string (str ++ c ∷ []) out p tt e.1,
          append_assoc str (c ∷ []) (echo string cs),
        )
  ]
]
spelled prev (c ∷ cs) parameter str out p o h = elim (Bool-cases (c == b'>')) [
  | inl t ↦
      let e : convert_loop c cs string [] (out ++ part parameter str ∷ []) ≡ some p =
        ground arith in
      let ec : c ≡ b'>' = (==_iff c b'>').0 t in
      rw ec (
        spelled c cs string [] (out ++ part parameter str ∷ []) p tt e
        ∙ push_parameter str out (echo string cs))
  | inr f ↦ elim (Bool-cases (c == b'*')) [
    | inl t ↦
        let e : out ++ part parameter str ∷ part terminal [] ∷ [] ≡ p = ground arith in
        let ec : c ≡ b'*' = (==_iff c b'*').0 t in
        rw (ec, ← e) (push_two parameter str out ∙ push_parameter str out (b'*' ∷ []))
    | inr g ↦
        let e : (c ≢ b'<') × (convert_loop c cs parameter (str ++ c ∷ []) out ≡ some p) =
          ground arith in
        ground (
          arith,
          e.0,
          spelled c cs parameter (str ++ c ∷ []) out p tt e.1,
          append_assoc str (c ∷ []) (echo parameter cs),
        )
  ]
]

-- The pattern of an accepted route spells the route: `pattern_str` prints the normalised path back,
-- up to its first `*`, where a parameter that the `*` stands in is closed by a `>`.
pub pattern_str-convert :
    (route : List ℕ) (p : Pattern)
    → convert_path_to_pattern route ≡ some p
    → pattern_str p ≡ echo string (normal_path route)
unfolding convert_path_to_pattern
pattern_str-convert route p h =
    spelled 0 (normal_path route) string [] [] p tt h ∙ (unfold pattern_str in refl)
