-- ===== src/Http/Lookup.antt =====
-- What is found in the map of a message: the values of the keys that are the same text, in their order.
use is.Prelude.{
  ℕ, ◌≡◌, refl, sym, ap, ◌∙◌, List, [], ◌∷◌, ◌++◌, append_assoc, append-nil, map, ◌>>=◌, Bool, true,
  false, if◌then◌else◌, Option, none, some, Bool-cases, inl, inr, ◌⊎◌, str_eq, str_eq_iff, arith,
}
use is.Args.Parse.{Arg}
use is.Http.State.{DataMap, Msg}
use is.Http.Parts.{get_header_list}
use is.Http.Calls.{tolower, strncasecmp_eq}
use is.Http.Group.{text_of, same_key, add_arg, group, find, get_header_map}

abbrev Key : Type 0
Key = Option (List ℕ)

abbrev pub lower : Option (List ℕ) → List ℕ
lower k = map tolower (text_of k)

-- The whole texts are the same but for the case of their letters.
abbrev pub eq_key : Option (List ℕ) → Option (List ℕ) → Bool
eq_key a b = str_eq (lower a) (lower b)

unfoldable pub values_of : Option (List ℕ) → List Arg → List (Option (List ℕ))
values_of k [] = []
values_of k (a ∷ as') = if eq_key a.key k then a.val ∷ values_of k as' else values_of k as'

eq_left : (a b c : Key) → eq_key a b ≡ true → eq_key a c ≡ eq_key b c
eq_left a b c h = ap (λ x. str_eq x (lower c)) ((str_eq_iff (lower a) (lower b)).0 h)

eq_apart : (a b c : Key) → eq_key a c ≡ true → eq_key a b ≡ false → eq_key b c ≡ false
eq_apart a b c h k = elim (Bool-cases (eq_key b c)) [
  | inl y ↦ absurd (
      ground (
        arith,
        k,
        (str_eq_iff (lower a) (lower b)).1
            ((str_eq_iff (lower a) (lower c)).0 h ∙ sym ((str_eq_iff (lower b) (lower c)).0 y)),
      ))
  | inr y ↦ y
]

abbrev push : Option (List Key) → List Key → Option (List Key)
push none [] = none
push none (v ∷ vs) = some (v ∷ vs)
push (some us) vs = some (us ++ vs)

push_nil : (o : Option (List Key)) → push o [] ≡ o
push_nil none = refl
push_nil (some us) = ap some (append-nil us)

push_one :
    (o : Option (List Key)) (v : Key) (vs : List Key) → push (push o (v ∷ [])) vs ≡ push o (v ∷ vs)
push_one none v vs = refl
push_one (some us) v vs = ap some (append_assoc us (v ∷ []) vs)

abbrev Keys : (Key → Type 0) → DataMap → Type 0
Keys P [] = Unit {0}
Keys P ((k, vs) ∷ m) = P k × Keys P m

abbrev ArgKeys : (Key → Type 0) → List Arg → Type 0
ArgKeys P [] = Unit {0}
ArgKeys P (a ∷ as') = P a.key × ArgKeys P as'

module _ (P : Key → Type 0) (agree : (a b : Key) → P a → P b → same_key a b ≡ eq_key a b) where
  add_arg-Keys : (m : DataMap) (a : Arg) → P a.key → Keys P m → Keys P (add_arg m a)
  unfolding add_arg
  add_arg-Keys [] a p h = (p, tt)
  add_arg-Keys ((k, vs) ∷ m) a p (q, h) = elim (Bool-cases (same_key k a.key)) [
    | inl y ↦ rw y (q, h)
    | inr y ↦ rw y (q, add_arg-Keys m a p h)
  ]

  find-add_arg :
      (m : DataMap) (a : Arg) (k : Key)
      → P a.key
      → P k
      → Keys P m
      → find k (add_arg m a) ≡ (if eq_key a.key k then push (find k m) (a.val ∷ []) else find k m)
  unfolding find add_arg
  find-add_arg [] a k p q h = rw (agree a.key k p q) refl
  find-add_arg ((k', vs) ∷ m) a k p q (r, h) =
      let e1 = agree k' a.key r p in
      let e2 = agree k' k r q in
      elim (Bool-cases (eq_key k' a.key)) [
        | inl y ↦ elim (Bool-cases (eq_key k' k)) [
          | inl z ↦ rw (e1, y, e2, z, sym (eq_left k' a.key k y), z) refl
          | inr z ↦ rw (e1, y, e2, z, sym (eq_left k' a.key k y), z) refl
        ]
        | inr y ↦ elim (Bool-cases (eq_key k' k)) [
          | inl z ↦ rw (e1, y, e2, z, eq_apart k' a.key k z y) refl
          | inr z ↦ rw (e1, y, e2, z) (find-add_arg m a k p q h)
        ]
      ]

  find-group_from :
      (m : DataMap) (as' : List Arg) (k : Key)
      → P k
      → Keys P m
      → ArgKeys P as'
      → find k (group m as') ≡ push (find k m) (values_of k as')
  unfolding group values_of
  find-group_from m [] k q h l = sym (push_nil (find k m))
  find-group_from m (a ∷ as') k q h (p, l) =
      find-group_from (add_arg m a) as' k q (add_arg-Keys m a p h) l
      ∙ ap (λ o. push o (values_of k as')) (find-add_arg m a k p q h)
      ∙ elim (Bool-cases (eq_key a.key k)) [
        | inl y ↦ rw y (push_one (find k m) a.val (values_of k as'))
        | inr y ↦ rw y refl
      ]

abbrev pub In : Option (List ℕ) → List (Option (List ℕ)) → Type 0
In a [] = ⊥
In a (k ∷ ks) = (a ≡ k) ⊎ In a ks

-- Two keys that agree as far as the shorter one goes are the same text.
abbrev pub Separate : List (Option (List ℕ)) → Type 0
Separate ks = (a b : Option (List ℕ)) → In a ks → In b ks → same_key a b ≡ true → eq_key a b ≡ true

abbrev pub arg_keys : List Arg → List (Option (List ℕ))
arg_keys as' = map (λ a. a.key) as'

-- An entry has a value.
abbrev pub found : List (Option (List ℕ)) → Option (List (Option (List ℕ)))
found [] = none
found (v ∷ vs) = some (v ∷ vs)

push_found : (vs : List Key) → push none vs ≡ found vs
push_found [] = refl
push_found (v ∷ vs) = refl

same_text :
    (xs ys : List ℕ) → str_eq (map tolower xs) (map tolower ys) ≡ true → strncasecmp_eq xs ys ≡ true
unfolding str_eq strncasecmp_eq
same_text [] ys h = refl
same_text (x ∷ xs) [] h = refl
same_text (x ∷ xs) (y ∷ ys) h = ground (arith, h, same_text xs ys)

agreement :
    (ks : List Key) → Separate ks → (a b : Key) → In a ks → In b ks → same_key a b ≡ eq_key a b
agreement ks s a b p q = elim (Bool-cases (same_key a b)) [
  | inl y ↦ y ∙ sym (s a b p q y)
  | inr y ↦ elim (Bool-cases (eq_key a b)) [
    | inl z ↦ same_text (text_of a) (text_of b) z ∙ sym z
    | inr z ↦ y ∙ sym z
  ]
]

keys-In :
    (ks : List Key) (as' : List Arg)
    → ((a : Key) → In a (arg_keys as') → In a ks)
    → ArgKeys (λ a. In a ks) as'
keys-In ks [] h = tt
keys-In ks (a ∷ as') h = (h a.key (inl refl), keys-In ks as' (λ b p. h b (inr p)))

pub find-group :
    (as' : List Arg) (k : Option (List ℕ))
    → Separate (k ∷ arg_keys as')
    → find k (group [] as') ≡ found (values_of k as')
unfolding find
find-group as' k s =
    let ks = k ∷ arg_keys as' in
    find-group_from (λ a. In a ks) (agreement ks s) [] as' k (inl refl) tt
      (keys-In ks as' (λ b p. inr p))
    ∙ push_found (values_of k as')

-- Where the keys of a message's headers and a key that is looked up are the same texts where they agree
-- as far as the shorter one goes, `get_header_map` returns a map that has under that key the values of all the
-- headers with that name, in their order, and no entry where there is none.
pub get_header_map-finds :
    (m m' : Msg) (as' : List Arg) (k : Option (List ℕ))
    → m.header_map ≡ none
    → get_header_list m ≡ some (m', as')
    → Separate (k ∷ arg_keys as')
    → (m2 : Msg) × (d : DataMap) × (get_header_map m ≡ some (m2, d))
      × (find k d ≡ found (values_of k as'))
unfolding get_header_map
get_header_map-finds m m' as' k e h s = (
  record m' { header_map = some (group [] as') },
  group [] as',
  (ap
        (λ o. elim o as (λ x. Option (Msg × DataMap)) [
          | some d ↦ some (m, d)
          | none ↦
              (get_header_list m >>= (λ (m1, args).
                some (record m1 { header_map = some (group [] args) }, group [] args)))
        ])
        e
      ∙ rw h refl),
  find-group as' k s,
)
