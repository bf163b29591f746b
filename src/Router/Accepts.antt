-- ===== src/Router/Accepts.antt =====
-- What `match_route` accepts, described without its cursors and lengths.
use is.Prelude.{
  ℕ, ◌+◌, ◌-◌, ◌^◌, ◌≤◌, ◌<◌, ◌≡◌, ◌≢◌, ◌⊎◌, inl, inr, refl, sym, ap, subst, ◌∙◌, List, [], ◌∷◌,
  ◌++◌, Option, none, some, true, false, arith, length, take, drop, length-append, length-drop,
  take-append-drop, Bool-cases, sub32, sub32_lem, drop-append_self, take_all,
}
use is.Router.Pattern.{Pattern, Part, PartType, string, parameter, terminal, untyped, byte}
use is.Router.Match.{UrlPmap, pmap_set, strncmp_eq, scan_to_slash, assign, match_loop, match_route}

abbrev pub All {ℓ κ} : {A : Type ℓ} → (A → Type κ) → List A → Type κ
All P [] = Unit
All P (x ∷ xs) = P x × All P xs

-- No byte of the texts in a pattern is NUL.
abbrev pub HasNoNul : Pattern → Type 0
HasNoNul = All (λ p. All (λ c. c ≢ 0) p.str)

-- How a pattern takes a text apart: a string is a prefix, a parameter is all up to the next slash,
-- a terminal is all that is left. The last argument is the suffix behind the pattern.
pub data Matches : Pattern → List ℕ → List ℕ → Type 0 where
  done : (text : List ℕ) → Matches [] text text
  literal :
      {p : Part} {ps : Pattern} (text suffix : List ℕ)
      → p.type ≡ string
      → Matches ps text suffix
      → Matches (p ∷ ps) (p.str ++ text) suffix
  capture :
      {p : Part} {ps : Pattern} (value text suffix : List ℕ)
      → p.type ≡ parameter
      → All (λ c. c ≢ b'/') value
      → ((text ≡ []) ⊎ (byte text ≡ b'/'))
      → Matches ps text suffix
      → Matches (p ∷ ps) (value ++ text) suffix
  everything :
      {p : Part} {ps : Pattern} (text : List ℕ) → p.type ≡ terminal → Matches (p ∷ ps) text []
  skip :
      {p : Part} {ps : Pattern} (text suffix : List ℕ)
      → p.type ≡ untyped
      → Matches ps text suffix
      → Matches (p ∷ ps) text suffix

strncmp_eq-prefix :
    (a mem : List ℕ)
    → All (λ c. c ≢ 0) a
    → strncmp_eq a mem (length a) ≡ true
    → (text : List ℕ) × (mem ≡ a ++ text)
unfolding strncmp_eq
strncmp_eq-prefix [] mem z h = (mem, refl)
strncmp_eq-prefix (c ∷ a) [] (z, zs) h = absurd (ground arith)
strncmp_eq-prefix (c ∷ a) (d ∷ mem) (z, zs) h =
    let e : (c ≡ d) × (strncmp_eq a mem (length a) ≡ true) = ground arith in
    let (text, et) = strncmp_eq-prefix a mem zs e.1 in (text, rw (e.0, et))

prefix-strncmp_eq : (a text : List ℕ) → strncmp_eq a (a ++ text) (length a) ≡ true
unfolding strncmp_eq
prefix-strncmp_eq [] text = refl
prefix-strncmp_eq (c ∷ a) text = ground (arith, prefix-strncmp_eq a text)

scan_to_slash_lem :
    (mem : List ℕ)
    → (scan_to_slash (length mem) mem ≤ length mem)
      × All (λ c. c ≢ b'/') (take (scan_to_slash (length mem) mem) mem)
      × ((drop (scan_to_slash (length mem) mem) mem ≡ [])
          ⊎ (byte (drop (scan_to_slash (length mem) mem) mem) ≡ b'/'))
unfolding scan_to_slash
scan_to_slash_lem [] = (omega arith, tt, inl refl)
scan_to_slash_lem (c ∷ mem) = let ih = scan_to_slash_lem mem in ground (arith, ih.0, ih.1, ih.2)

scan_value :
    (value text : List ℕ)
    → All (λ c. c ≢ b'/') value
    → ((text ≡ []) ⊎ (byte text ≡ b'/'))
    → scan_to_slash (length (value ++ text)) (value ++ text) ≡ length value
unfolding scan_to_slash
scan_value [] [] a b = refl
scan_value [] (c ∷ text) a b = ground arith
scan_value (c ∷ value) text (z, a) b = ground (arith, scan_value value text a b)

invert_string :
    (p : Part) (ps : Pattern) (mem suffix : List ℕ)
    → p.type ≡ string
    → Matches (p ∷ ps) mem suffix
    → (text : List ℕ) × (mem ≡ p.str ++ text) × Matches ps text suffix
invert_string p ps mem suffix e (literal text _ _ m) = (text, refl, m)
invert_string p ps mem suffix e (capture _ _ _ f _ _ _) = cc
invert_string p ps mem suffix e (everything _ f) = cc
invert_string p ps mem suffix e (skip _ _ f _) = cc

invert_parameter :
    (p : Part) (ps : Pattern) (mem suffix : List ℕ)
    → p.type ≡ parameter
    → Matches (p ∷ ps) mem suffix
    → Matches ps (drop (scan_to_slash (length mem) mem) mem) suffix
invert_parameter p ps mem suffix e (literal _ _ f _) = cc
invert_parameter p ps mem suffix e (capture value text _ _ a b m) =
    rw (scan_value value text a b, drop-append_self) m
invert_parameter p ps mem suffix e (everything _ f) = cc
invert_parameter p ps mem suffix e (skip _ _ f _) = cc

invert_untyped :
    (p : Part) (ps : Pattern) (mem suffix : List ℕ)
    → p.type ≡ untyped
    → Matches (p ∷ ps) mem suffix
    → Matches ps mem suffix
invert_untyped p ps mem suffix e (literal _ _ f _) = cc
invert_untyped p ps mem suffix e (capture _ _ _ f _ _ _) = cc
invert_untyped p ps mem suffix e (everything _ f) = cc
invert_untyped p ps mem suffix e (skip _ _ _ m) = m

-- A result is defined, and says exactly whether the text matches.
abbrev pub Decided : Pattern → List ℕ → Option (Option (UrlPmap × List ℕ)) → Type 0
Decided p mem r =
    ((m : UrlPmap) × (suffix : List ℕ) × (r ≡ some (some (m, suffix))) × Matches p mem suffix)
    ⊎ ((r ≡ some none) × ((suffix : List ℕ) → ¬ Matches p mem suffix))

abbrev Decides : Pattern → Type 0
Decides p =
    (mem : List ℕ) (len : ℕ) (m : UrlPmap)
    → length mem < 2 ^ 32
    → Decided p mem (match_loop p (len + length mem) mem (length mem) len m)

assign_all : (mem : List ℕ) → assign mem (length mem) ≡ some mem
unfolding assign
assign_all mem = ground (arith, take_all (length mem) mem)

match_nil : Decides []
unfolding match_loop
match_nil [] len m l = inl (m, [], ground arith, done [])
match_nil (c ∷ mem) len m l = inl (m, c ∷ mem, ground (arith, assign_all (c ∷ mem)), done (c ∷ mem))

module _ (p : Part) (ps : Pattern) (ih : Decides ps) where
  match_terminal : p.type ≡ terminal → Decides (p ∷ ps)
  unfolding match_loop
  match_terminal e mem len m l =
      inl (pmap_set (b'*' ∷ []) mem m, [], ground (arith, assign_all mem), everything mem e)

  match_untyped : p.type ≡ untyped → Decides (p ∷ ps)
  unfolding match_loop
  match_untyped e mem len m l = elim (ih mem len m l) [
    | inl (m', suffix, r, h) ↦ inl (m', suffix, ground arith, skip mem suffix e h)
    | inr (r, h) ↦ inr (ground arith, λ suffix x. h suffix (invert_untyped p ps mem suffix e x))
  ]

  parameter_eq :
      (mem : List ℕ) (len n : ℕ) (m : UrlPmap)
      → p.type ≡ parameter
      → length mem < 2 ^ 32
      → scan_to_slash (length mem) mem ≡ n
      → n ≤ length mem
      → match_loop (p ∷ ps) (len + length mem) mem (length mem) len m
        ≡ match_loop ps
            (len + n + length (drop n mem))
            (drop n mem)
            (length (drop n mem))
            (len + n)
            (pmap_set p.str (take n mem) m)
  unfolding match_loop
  parameter_eq mem len n m e l es le =
      let budget : len + length mem - len ≡ length mem = omega arith in
      let left : sub32 (length mem) n ≡ length (drop n mem) =
        omega (arith, sub32_lem (length mem) n le l, length-drop n mem) in
      let total : len + n + length (drop n mem) ≡ len + length mem =
        omega (arith, length-drop n mem) in
      ground (arith, e, budget, es, left, total)

  match_parameter : p.type ≡ parameter → Decides (p ∷ ps)
  match_parameter e mem len m l =
      let n : ℕ = scan_to_slash (length mem) mem in
      let s = scan_to_slash_lem mem in
      let eq = parameter_eq mem len n m e l refl s.0 in
      let split : take n mem ++ drop n mem ≡ mem = take-append-drop n mem in
      elim (ih (drop n mem) (len + n) (pmap_set p.str (take n mem) m)
        (omega (arith, length-drop n mem))) [
          | inl (m', suffix, r, h) ↦ inl (
            m',
            suffix,
            eq ∙ r,
            subst (λ t. Matches (p ∷ ps) t suffix) split
                (capture (take n mem) (drop n mem) suffix e s.1 s.2 h),
          )
          | inr (r, h) ↦ inr (eq ∙ r, λ suffix x. h suffix (invert_parameter p ps mem suffix e x))
        ]

  string_eq :
      (text : List ℕ) (len : ℕ) (m : UrlPmap)
      → p.type ≡ string
      → length (p.str ++ text) < 2 ^ 32
      → match_loop
          (p ∷ ps)
          (len + length (p.str ++ text))
          (p.str ++ text)
          (length (p.str ++ text))
          len
          m
        ≡ match_loop ps (len + length p.str + length text) text (length text) (len + length p.str) m
  unfolding match_loop
  string_eq text len m e l =
      let left : sub32 (length (p.str ++ text)) (length p.str) ≡ length text =
        omega
          (arith, sub32_lem (length (p.str ++ text)) (length p.str), length-append p.str text) in
      let total : len + length p.str + length text ≡ len + length (p.str ++ text) =
        omega (arith, length-append p.str text) in
      ground (arith, e, prefix-strncmp_eq p.str text, drop-append_self p.str text, left, total)

  match_prefix :
      (text : List ℕ) (len : ℕ) (m : UrlPmap)
      → p.type ≡ string
      → length (p.str ++ text) < 2 ^ 32
      → Decided (p ∷ ps) (p.str ++ text) (
          match_loop
            (p ∷ ps)
            (len + length (p.str ++ text))
            (p.str ++ text)
            (length (p.str ++ text))
            len
            m)
  match_prefix text len m e l =
      let eq = string_eq text len m e l in
      elim (ih text (len + length p.str) m (omega (arith, length-append p.str text))) [
        | inl (m', suffix, r, h) ↦ inl (m', suffix, eq ∙ r, literal text suffix e h)
        | inr (r, h) ↦ inr (
          eq ∙ r,
          λ suffix x.
              let (text', et, h') = invert_string p ps (p.str ++ text) suffix e x in
              let same : text' ≡ text =
                sym (drop-append_self p.str text')
                ∙ ap (drop (length p.str)) (sym et)
                ∙ drop-append_self p.str text in
              h suffix (rw same at h'),
        )
      ]

  mismatch_eq :
      (mem : List ℕ) (len : ℕ) (m : UrlPmap)
      → p.type ≡ string
      → strncmp_eq p.str mem (length p.str) ≡ false
      → match_loop (p ∷ ps) (len + length mem) mem (length mem) len m ≡ some none
  unfolding match_loop
  mismatch_eq mem len m e f = ground (arith, e, f)

  match_string : All (λ c. c ≢ 0) p.str → p.type ≡ string → Decides (p ∷ ps)
  match_string z e mem len m l = elim (Bool-cases (strncmp_eq p.str mem (length p.str))) [
    | inl t ↦
        let (text, et) = strncmp_eq-prefix p.str mem z t in
        subst (λ x. Decided (p ∷ ps) x (match_loop (p ∷ ps) (len + length x) x (length x) len m))
          (sym et) (match_prefix text len m e (rw et at l))
    | inr f ↦ inr (
      mismatch_eq mem len m e f,
      λ suffix x.
          let (text, et, h) = invert_string p ps mem suffix e x in
          cc (f, ap (λ y. strncmp_eq p.str y (length p.str)) et, prefix-strncmp_eq p.str text),
    )
  ]

  match_part : (t : PartType) → p.type ≡ t → All (λ c. c ≢ 0) p.str → Decides (p ∷ ps)
  match_part string e z = match_string z e
  match_part parameter e z = match_parameter e
  match_part terminal e z = match_terminal e
  match_part untyped e z = match_untyped e

match_loop-Decides : (p : Pattern) → HasNoNul p → Decides p
match_loop-Decides [] h = match_nil
match_loop-Decides (p ∷ ps) (z, h) = match_part p ps (match_loop-Decides ps h) p.type refl z

-- For a pattern without a NUL byte and a text shorter than 2^32 bytes that is given with its length,
-- `match_route` reads nothing past the text's end, and
-- decides whether the pattern matches: it hands out the suffix of a match, or there is none.
pub match_route_decides :
    (p : Pattern) (text : List ℕ)
    → HasNoNul p
    → length text < 2 ^ 32
    → Decided p text (match_route p text (length text))
unfolding match_route
match_route_decides p text h l =
    subst (λ n. Decided p text (match_loop p n text (length text) 0 [])) {x = 0 + length text}
      (omega arith) (match_loop-Decides p h text 0 [] l)
