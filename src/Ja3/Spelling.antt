-- ===== src/Ja3/Spelling.antt =====
-- The string of a fingerprint, by its definition: the lists without the reserved values, joined.
use is.Prelude.{
  ℕ, ◌≡◌, refl, sym, ap, ◌∙◌, List, [], ◌∷◌, ◌++◌, append_assoc, append-nil, Bool, true, false,
  if◌then◌else◌, arith, Bool-cases, inl, inr, ◌&&◌, not,
}
use is.Ja3.Print.{is_grease, to_string, print_list, is_empty}

unfoldable pub ungreased : List ℕ → List ℕ
ungreased [] = []
ungreased (v ∷ vs) = if is_grease v then ungreased vs else v ∷ ungreased vs

-- With a dash between two.
unfoldable pub join : List ℕ → List ℕ
join [] = []
join (v ∷ []) = to_string v
join (v ∷ (w ∷ vs)) = to_string v ++ 45 ∷ join (w ∷ vs)

abbrev pub joined : List ℕ → List ℕ
joined vs = join (ungreased vs)

unfoldable pub ends_greased : List ℕ → Bool
ends_greased [] = false
ends_greased (v ∷ []) = is_grease v
ends_greased (v ∷ (w ∷ vs)) = ends_greased (w ∷ vs)

-- A dash that no value follows.
abbrev pub dangling : List ℕ → List ℕ
dangling vs = if ends_greased vs && not (is_empty (ungreased vs)) then 45 ∷ [] else []

all_greased : (v : ℕ) (vs : List ℕ) → ungreased (v ∷ vs) ≡ [] → ends_greased (v ∷ vs) ≡ true
unfolding ungreased ends_greased
all_greased v [] h = elim (Bool-cases (is_grease v)) [
  | inl y ↦ y
  | inr y ↦ absurd (ground (arith, y, h))
]
all_greased v (w ∷ vs) h = elim (Bool-cases (is_grease v)) [
  | inl y ↦ all_greased w vs (ground (arith, y, h))
  | inr y ↦ absurd (ground (arith, y, h))
]

-- The lists are of a list whose first value is printed, and of the rest of it.
join-plain :
    (v : ℕ) (us : List ℕ) (e : Bool)
    → (us ≡ [] → e ≡ true)
    → to_string v ++ 45 ∷ (join us ++ (if e && not (is_empty us) then 45 ∷ [] else []))
      ≡ join (v ∷ us) ++ (if e && not (is_empty (v ∷ us)) then 45 ∷ [] else [])
unfolding join
join-plain v [] e h = rw (h refl) refl
join-plain v (u ∷ us) e h =
    sym (append_assoc (to_string v) (45 ∷ join (u ∷ us)) (if e && true then 45 ∷ [] else []))

-- A list is printed as the values of it that are not reserved, joined by dashes; where the last value
-- of it is reserved, and another one is not, a dash follows.
pub print_list-joined : (vs : List ℕ) → print_list vs ≡ joined vs ++ dangling vs
unfolding print_list ungreased ends_greased join
print_list-joined [] = refl
print_list-joined (v ∷ []) = elim (Bool-cases (is_grease v)) [
  | inl y ↦ rw y refl
  | inr y ↦ rw y (sym (append-nil (to_string v)))
]
print_list-joined (v ∷ (w ∷ vs)) = elim (Bool-cases (is_grease v)) [
  | inl y ↦ rw y (print_list-joined (w ∷ vs))
  | inr y ↦ rw y (
      ap (λ u. to_string v ++ 45 ∷ u) (print_list-joined (w ∷ vs))
      ∙ join-plain v (ungreased (w ∷ vs)) (ends_greased (w ∷ vs)) (all_greased w vs))
]
