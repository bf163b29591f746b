-- ===== src/Lru/State.antt =====
-- The class `nlru` of src/support/nlru.h. Its maps are functions, its sets of ids ascending lists,
-- and an iterator into `m_item_list` is the id in its node. `none` as the result of a method is an
-- iterator that dangles.
use is.Prelude.{
  ℕ, List, [], ◌∷◌, Option, none, some, Bool, true, false, ◌||◌, ◌>>=◌, if◌then◌else◌, ltb, ◌==◌,
  add64, sub64, str_eq,
}

-- Changes of `std::map`.
abbrev pub put_id {ℓ} : {B : Type ℓ} → (ℕ → Option B) → ℕ → Option B → ℕ → Option B
put_id f k v j = if k == j then v else f j

unfoldable pub put_label {ℓ} :
    {B : Type ℓ} → (List ℕ → Option B) → List ℕ → Option B → List ℕ → Option B
put_label f k v j = if str_eq k j then v else f j

-- `std::set`: insert, erase, and whether an id is found.
unfoldable pub set_insert : ℕ → List ℕ → List ℕ
set_insert i [] = i ∷ []
set_insert i (j ∷ js) =
    if ltb i j then i ∷ j ∷ js else if i == j then j ∷ js else j ∷ set_insert i js

unfoldable pub set_erase : ℕ → List ℕ → List ℕ
set_erase i [] = []
set_erase i (j ∷ js) = if i == j then js else j ∷ set_erase i js

unfoldable pub set_has : ℕ → List ℕ → Bool
set_has i [] = false
set_has i (j ∷ js) = i == j || set_has i js

-- A label whose set is empty is taken out of the map.
abbrev pub non_empty : List ℕ → Option (List ℕ)
non_empty [] = none
non_empty (i ∷ is) = some (i ∷ is)

module _ {ℓ} {A : Type ℓ} where
  -- `std::list`: erase the node of an iterator, and read it.
  unfoldable pub list_erase : ℕ → List (ℕ × A) → Option (List (ℕ × A))
  list_erase i [] = none
  list_erase i ((j, x) ∷ l) =
      if i == j then some l else (do rest ← list_erase i l; some ((j, x) ∷ rest))

  unfoldable pub list_read : ℕ → List (ℕ × A) → Option A
  list_read i [] = none
  list_read i ((j, x) ∷ l) = if i == j then some x else list_read i l

  unfoldable pub back : List (ℕ × A) → Option (ℕ × A)
  back [] = none
  back (p ∷ []) = some p
  back (p ∷ (q ∷ l)) = back (q ∷ l)

pub record Lru {ℓ} (A : Type ℓ) : Type ℓ where
  pub label_id_set_map : List ℕ → Option (List ℕ)
  pub item_list_map : ℕ → Option ℕ
  pub item_list : List (ℕ × A)
  pub item_list_size : ℕ
  pub id_label_map : ℕ → Option (List ℕ)
  pub max_entries : ℕ
  pub next_id : ℕ

module _ {ℓ} {A : Type ℓ} where
  unfoldable pub new_lru : ℕ → Lru A
  new_lru n = record {
    label_id_set_map = λ l. none;
    item_list_map = λ i. none;
    item_list = [];
    item_list_size = 0;
    id_label_map = λ i. none;
    max_entries = n;
    next_id = 0;
  }

  unfoldable pub remove : ℕ → Lru A → Option (Lru A)
  remove i s = elim (s.id_label_map i) [
    | none ↦ some s
    | some l ↦ elim (s.label_id_set_map l) [
      | none ↦ some s
      | some ids ↦ elim (set_has i ids) [
        | false ↦ some s
        | true ↦ elim (s.item_list_map i) [
          | none ↦ some s
          | some it ↦ do
            rest ← list_erase it s.item_list
            some (record s {
              label_id_set_map = put_label s.label_id_set_map l (non_empty (set_erase i ids));
              item_list_size = sub64 s.item_list_size 1;
              item_list = rest;
              item_list_map = put_id s.item_list_map i none;
              id_label_map = put_id s.id_label_map i none;
            })
        ]
      ]
    ]
  ]

  -- With the item that the delete callback is called for. The callbacks do not touch the list.
  unfoldable pub evict : Lru A → Option (Lru A × Option A)
  evict s = elim (back s.item_list) [
    | none ↦ some (s, none)
    | some (i, x) ↦ do t ← remove i s; some (t, some x)
  ]

  -- The entry at the front, before the size is tested.
  unfoldable pub push : List ℕ → A → Lru A → Lru A
  push l x s = record s {
    next_id = add64 s.next_id 1;
    item_list_size = add64 s.item_list_size 1;
    item_list = (s.next_id, x) ∷ s.item_list;
    label_id_set_map = put_label s.label_id_set_map l (
        some (elim (s.label_id_set_map l) [
          | none ↦ s.next_id ∷ []
          | some ids ↦ set_insert s.next_id ids
        ]));
    item_list_map = put_id s.item_list_map s.next_id (some s.next_id);
    id_label_map = put_id s.id_label_map s.next_id (some l);
  }

  -- The new list, the id, and the item that is evicted.
  unfoldable pub insert : List ℕ → A → Lru A → Option (Lru A × ℕ × Option A)
  insert l x s = elim (ltb s.max_entries (push l x s).item_list_size) [
    | true ↦ do (t, out) ← evict (push l x s); some (t, s.next_id, out)
    | false ↦ some (push l x s, s.next_id, none)
  ]

  unfoldable pub get : List ℕ → Lru A → Option (Lru A × Option A)
  get l s = elim (s.label_id_set_map l) [
    | none ↦ some (s, none)
    | some [] ↦ some (s, none)
    | some (i ∷ is) ↦ elim (s.item_list_map i) [
      | none ↦ some (s, none)
      | some it ↦ do x ← list_read it s.item_list; t ← remove i s; some (t, some x)
    ]
  ]
