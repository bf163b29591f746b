-- ===== src/Lru/Entries.antt =====
-- What a least recently used list promises: a list of entries, the newest first, with ascending ids.
use is.Prelude.{
  ℕ, ◌+◌, ◌-◌, ◌≤◌, ◌<◌, ◌≡◌, ◌≢◌, refl, List, [], ◌∷◌, ◌++◌, map, Option, none, some, true,
  if◌then◌else◌, ◌==◌, arith, length, str_eq, str_eq_iff, Bool-cases, Option-cases, inl, inr,
}
use is.Lru.State.{set_insert, set_erase, set_has, list_erase, list_read, back}

pub record Entry {ℓ} (A : Type ℓ) : Type ℓ where
  pub id : ℕ
  pub label : List ℕ
  pub item : A

-- Sets of ids below a bound.
abbrev pub AllBelow : ℕ → List ℕ → Type 0
AllBelow n [] = Unit {0}
AllBelow n (i ∷ is) = (i < n) × AllBelow n is

pub set_insert-last : (n : ℕ) (is : List ℕ) → AllBelow n is → set_insert n is ≡ is ++ n ∷ []
unfolding set_insert
set_insert-last n [] h = refl
set_insert-last n (i ∷ is) (h, hs) = ground (arith, set_insert-last n is hs)

set_erase-last : (n : ℕ) (is : List ℕ) → AllBelow n is → set_erase n (is ++ n ∷ []) ≡ is
unfolding set_erase
set_erase-last n [] h = ground arith
set_erase-last n (i ∷ is) (h, hs) = ground (arith, set_erase-last n is hs)

set_erase-append :
    (i j : ℕ) (is : List ℕ) → i ≢ j → set_erase i (is ++ j ∷ []) ≡ set_erase i is ++ j ∷ []
unfolding set_erase
set_erase-append i j [] h = ground arith
set_erase-append i j (k ∷ is) h = ground (arith, set_erase-append i j is h)

set_has-last : (i : ℕ) (is : List ℕ) → set_has i (is ++ i ∷ []) ≡ true
unfolding set_has
set_has-last i [] = ground arith
set_has-last i (k ∷ is) = ground (arith, set_has-last i is)

set_has-append : (i j : ℕ) (is : List ℕ) → set_has i is ≡ true → set_has i (is ++ j ∷ []) ≡ true
unfolding set_has
set_has-append i j [] h = cc
set_has-append i j (k ∷ is) h = ground (arith, set_has-append i j is)

AllBelow-append : (n i : ℕ) (is : List ℕ) → AllBelow n is → i < n → AllBelow n (is ++ i ∷ [])
AllBelow-append n i [] h l = (l, tt)
AllBelow-append n i (j ∷ is) (h, hs) l = (h, AllBelow-append n i is hs l)

AllBelow-le : (m n : ℕ) (is : List ℕ) → m ≤ n → AllBelow m is → AllBelow n is
AllBelow-le m n [] l h = tt
AllBelow-le m n (i ∷ is) l (h, hs) = (omega arith, AllBelow-le m n is l hs)

module _ {ℓ} {A : Type ℓ} where
  abbrev pub node : Entry A → ℕ × A
  node e = (e.id, e.item)

  -- The ids fall from the front on, from below a bound.
  abbrev pub Below : ℕ → List (Entry A) → Type 0
  Below n [] = Unit {0}
  Below n (e ∷ es) = (e.id < n) × Below e.id es

  unfoldable pub label_at : ℕ → List (Entry A) → Option (List ℕ)
  label_at i [] = none
  label_at i (e ∷ es) = if e.id == i then some e.label else label_at i es

  unfoldable pub place_at : ℕ → List (Entry A) → Option ℕ
  place_at i [] = none
  place_at i (e ∷ es) = if e.id == i then some i else place_at i es

  -- The ids with a label, the oldest first.
  unfoldable pub ids_of : List ℕ → List (Entry A) → List ℕ
  ids_of l [] = []
  ids_of l (e ∷ es) = if str_eq e.label l then ids_of l es ++ e.id ∷ [] else ids_of l es

  unfoldable pub drop_id : ℕ → List (Entry A) → List (Entry A)
  drop_id i [] = []
  drop_id i (e ∷ es) = if e.id == i then es else e ∷ drop_id i es

  -- The oldest entry with a label.
  unfoldable pub oldest : List ℕ → List (Entry A) → Option (Entry A)
  oldest l [] = none
  oldest l (e ∷ es) = elim (oldest l es) [
    | some d ↦ some d
    | none ↦ if str_eq e.label l then some e else none
  ]

  -- The oldest entry of all.
  unfoldable pub last_entry : List (Entry A) → Option (Entry A)
  last_entry [] = none
  last_entry (e ∷ []) = some e
  last_entry (e ∷ (d ∷ es)) = last_entry (d ∷ es)

  pub Below-le : (m n : ℕ) (es : List (Entry A)) → m ≤ n → Below m es → Below n es
  Below-le m n [] l h = tt
  Below-le m n (e ∷ es) l (h, hs) = (omega arith, hs)

  pub ids_of-AllBelow :
      (l : List ℕ) (n : ℕ) (es : List (Entry A)) → Below n es → AllBelow n (ids_of l es)
  unfolding ids_of
  ids_of-AllBelow l n [] h = tt
  ids_of-AllBelow l n (e ∷ es) (h, hs) = elim (Bool-cases (str_eq e.label l)) [
    | inl y ↦ rw y (
        AllBelow-append n e.id (ids_of l es)
          (AllBelow-le e.id n (ids_of l es) (omega arith) (ids_of-AllBelow l e.id es hs)) h)
    | inr y ↦ rw y (AllBelow-le e.id n (ids_of l es) (omega arith) (ids_of-AllBelow l e.id es hs))
  ]

  label_at_lt :
      (i n : ℕ) (es : List (Entry A)) (l : List ℕ) → Below n es → label_at i es ≡ some l → i < n
  unfolding label_at
  label_at_lt i n [] l h e = cc
  label_at_lt i n (d ∷ es) l (h, hs) e = ground (arith, label_at_lt i d.id es l hs)

  label_at-Below : (i n : ℕ) (es : List (Entry A)) → Below n es → n ≤ i → label_at i es ≡ none
  unfolding label_at
  label_at-Below i n [] h l = refl
  label_at-Below i n (d ∷ es) (h, hs) l = ground (arith, label_at-Below i d.id es hs)

  place_at-Below : (i n : ℕ) (es : List (Entry A)) → Below n es → n ≤ i → place_at i es ≡ none
  unfolding place_at
  place_at-Below i n [] h l = refl
  place_at-Below i n (d ∷ es) (h, hs) l = ground (arith, place_at-Below i d.id es hs)

  pub set_has-ids_of :
      (i : ℕ) (es : List (Entry A)) (l : List ℕ)
      → label_at i es ≡ some l
      → set_has i (ids_of l es) ≡ true
  unfolding label_at ids_of
  set_has-ids_of i [] l e = cc
  set_has-ids_of i (d ∷ es) l e = ground (
    arith,
    e,
    str_eq_iff d.label l,
    set_has-last i (ids_of l es),
    set_has-append i d.id (ids_of l es),
    set_has-ids_of i es l,
  )

  pub ids_of-drop_id :
      (i n : ℕ) (es : List (Entry A)) (k l : List ℕ)
      → Below n es
      → label_at i es ≡ some k
      → ids_of l (drop_id i es) ≡ (if str_eq k l then set_erase i (ids_of l es) else ids_of l es)
  unfolding label_at ids_of drop_id
  ids_of-drop_id i n [] k l h e = cc
  ids_of-drop_id i n (d ∷ es) k l (h, hs) e = elim (Bool-cases (d.id == i)) [
    | inl y ↦ ground (arith, e, y, set_erase-last d.id (ids_of l es) (ids_of-AllBelow l d.id es hs))
    | inr y ↦
        let ih = ids_of-drop_id i d.id es k l hs (rw y at e) in
        ground (arith, y, ih, set_erase-append i d.id (ids_of l es))
  ]

  pub label_at-drop_id :
      (i j n : ℕ) (es : List (Entry A))
      → Below n es
      → label_at j (drop_id i es) ≡ (if i == j then none else label_at j es)
  unfolding label_at drop_id
  label_at-drop_id i j n [] h = ground arith
  label_at-drop_id i j n (d ∷ es) (h, hs) =
      ground (arith, label_at-drop_id i j d.id es hs, label_at-Below j d.id es hs)

  pub place_at-drop_id :
      (i j n : ℕ) (es : List (Entry A))
      → Below n es
      → place_at j (drop_id i es) ≡ (if i == j then none else place_at j es)
  unfolding place_at drop_id
  place_at-drop_id i j n [] h = ground arith
  place_at-drop_id i j n (d ∷ es) (h, hs) =
      ground (arith, place_at-drop_id i j d.id es hs, place_at-Below j d.id es hs)

  pub Below-drop_id : (i n : ℕ) (es : List (Entry A)) → Below n es → Below n (drop_id i es)
  unfolding drop_id
  Below-drop_id i n [] h = tt
  Below-drop_id i n (d ∷ es) (h, hs) = elim (Bool-cases (d.id == i)) [
    | inl y ↦ rw y (Below-le d.id n es (omega arith) hs)
    | inr y ↦ rw y (h, Below-drop_id i d.id es hs)
  ]

  pub length-drop_id :
      (i : ℕ) (es : List (Entry A)) (l : List ℕ)
      → label_at i es ≡ some l
      → length (drop_id i es) + 1 ≡ length es
  unfolding label_at drop_id
  length-drop_id i [] l e = cc
  length-drop_id i (d ∷ es) l e = ground (arith, e, length-drop_id i es l)

  pub length-drop_id-le : (i : ℕ) (es : List (Entry A)) → length (drop_id i es) ≤ length es
  unfolding drop_id
  length-drop_id-le i [] = omega arith
  length-drop_id-le i (d ∷ es) = ground (arith, length-drop_id-le i es)

  pub place_at-label_at :
      (i : ℕ) (es : List (Entry A)) (l : List ℕ) → label_at i es ≡ some l → place_at i es ≡ some i
  unfolding label_at place_at
  place_at-label_at i [] l e = cc
  place_at-label_at i (d ∷ es) l e = ground (arith, e, place_at-label_at i es l)

  pub list_erase-map :
      (i : ℕ) (es : List (Entry A)) (l : List ℕ)
      → label_at i es ≡ some l
      → list_erase i (map node es) ≡ some (map node (drop_id i es))
  unfolding label_at drop_id list_erase
  list_erase-map i [] l e = cc
  list_erase-map i (d ∷ es) l e = ground (arith, e, list_erase-map i es l)

  pub label_at-none-drop_id :
      (i : ℕ) (es : List (Entry A)) → label_at i es ≡ none → drop_id i es ≡ es
  unfolding label_at drop_id
  label_at-none-drop_id i [] e = refl
  label_at-none-drop_id i (d ∷ es) e = ground (arith, e, label_at-none-drop_id i es)

  -- The last entry is in the list, under its id.
  pub back-map :
      (es : List (Entry A))
      → back (map node es) ≡ elim (last_entry es) [ none ↦ none | some e ↦ some (node e) ]
  unfolding back last_entry
  back-map [] = refl
  back-map (e ∷ []) = refl
  back-map (e ∷ (d ∷ es)) = back-map (d ∷ es)

  pub label_at-last_entry :
      (n : ℕ) (es : List (Entry A)) (e : Entry A)
      → Below n es
      → last_entry es ≡ some e
      → label_at e.id es ≡ some e.label
  unfolding label_at last_entry
  label_at-last_entry n [] e h x = cc
  label_at-last_entry n (d ∷ []) e h x = ground (arith, x)
  label_at-last_entry n (d ∷ (c ∷ es)) e (h, hs) x =
      let ih = label_at-last_entry d.id (c ∷ es) e hs x in
      ground (arith, ih, label_at_lt e.id d.id (c ∷ es) e.label hs ih)

  pub ids_of-none : (l : List ℕ) (es : List (Entry A)) → oldest l es ≡ none → ids_of l es ≡ []
  unfolding ids_of oldest
  ids_of-none l [] e = refl
  ids_of-none l (d ∷ es) e = ground (arith, e, ids_of-none l es)

  -- All but the oldest.
  unfoldable pub drop_last : List (Entry A) → List (Entry A)
  drop_last [] = []
  drop_last (e ∷ []) = []
  drop_last (e ∷ (d ∷ es)) = e ∷ drop_last (d ∷ es)

  pub last_entry-cons :
      (e : Entry A) (es : List (Entry A)) → (d : Entry A) × (last_entry (e ∷ es) ≡ some d)
  unfolding last_entry
  last_entry-cons e [] = (e, refl)
  last_entry-cons e (d ∷ es) = last_entry-cons d es

  pub drop_id-last_entry :
      (n : ℕ) (es : List (Entry A)) (e : Entry A)
      → Below n es
      → last_entry es ≡ some e
      → drop_id e.id es ≡ drop_last es
  unfolding last_entry drop_id drop_last
  drop_id-last_entry n [] e h x = refl
  drop_id-last_entry n (d ∷ []) e h x = ground (arith, x)
  drop_id-last_entry n (d ∷ (c ∷ es)) e (h, hs) x =
      let lt =
        label_at_lt e.id d.id (c ∷ es) e.label hs (label_at-last_entry d.id (c ∷ es) e hs x) in
      ground (arith, lt, drop_id-last_entry d.id (c ∷ es) e hs x)

  pub length-drop_last : (es : List (Entry A)) → length (drop_last es) ≡ length es - 1
  unfolding drop_last
  length-drop_last [] = omega arith
  length-drop_last (e ∷ []) = omega arith
  length-drop_last (e ∷ (d ∷ es)) = omega (arith, length-drop_last (d ∷ es))

  -- The oldest entry with a label is the first of its set.
  pub ids_of-oldest :
      (n : ℕ) (l : List ℕ) (es : List (Entry A)) (e : Entry A)
      → Below n es
      → oldest l es ≡ some e
      → (is : List ℕ) × (ids_of l es ≡ e.id ∷ is)
        × (label_at e.id es ≡ some l)
        × (list_read e.id (map node es) ≡ some e.item)
  unfolding ids_of oldest label_at list_read
  ids_of-oldest n l [] e h x = cc
  ids_of-oldest n l (d ∷ es) e (h, hs) x = elim (Option-cases (oldest l es)) [
    | inl z ↦
        let y : str_eq d.label l ≡ true = ground (arith, x, z) in
        let same : d ≡ e = ground (arith, x, z, y) in
        let empty = ids_of-none l es z in
        (
          [],
          ground (arith, y, empty, same),
          ground (arith, y, str_eq_iff d.label l, same),
          ground (arith, same),
        )
    | inr (c, ec) ↦
        let same : c ≡ e = ground (arith, x, ec) in
        let (is, e1, e2, e3) = ids_of-oldest d.id l es e hs (ground (arith, ec, same)) in
        let lt = label_at_lt e.id d.id es l hs e2 in
        (
          if str_eq d.label l then is ++ d.id ∷ [] else is,
          ground (arith, e1),
          ground (arith, e2, lt),
          ground (arith, e3, lt),
        )
  ]
