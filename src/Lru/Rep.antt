-- ===== src/Lru/Rep.antt =====
-- The containers of `nlru` against one list of entries: each method is the plain change of the list.
use is.Prelude.{
  ℕ, ◌+◌, ◌^◌, ◌<◌, ◌≡◌, refl, ap, ◌∙◌, List, [], ◌∷◌, ◌++◌, map, none, some, true, arith, length,
  str_eq_iff, Option-cases, inl, inr, add64, sub64, add64_lem, sub64_lem,
}
use is.Lru.State.{
  Lru, put_id, put_label, set_insert, set_erase, set_has, non_empty, remove, evict, push,
}
use is.Lru.Entries.{
  Entry, node, Below, AllBelow, label_at, place_at, ids_of, drop_id, last_entry, ids_of-AllBelow,
  set_has-ids_of, ids_of-drop_id, label_at-drop_id, place_at-drop_id, Below-drop_id, length-drop_id,
  place_at-label_at, list_erase-map, back-map, label_at-none-drop_id, set_insert-last,
}

has-non_empty : (i : ℕ) (is : List ℕ) → set_has i is ≡ true → non_empty is ≡ some is
unfolding set_has
has-non_empty i [] e = cc
has-non_empty i (j ∷ is) e = refl

non_empty-last : (n : ℕ) (is : List ℕ) → non_empty (is ++ n ∷ []) ≡ some (is ++ n ∷ [])
non_empty-last n [] = refl
non_empty-last n (i ∷ is) = refl

add_to :
    (n : ℕ) (is : List ℕ)
    → AllBelow n is
    → elim (non_empty is) as (λ x. List ℕ) [ none ↦ n ∷ [] | some ids ↦ set_insert n ids ]
      ≡ is ++ n ∷ []
add_to n [] h = refl
add_to n (i ∷ is) h = set_insert-last n (i ∷ is) h

module _ {ℓ} {A : Type ℓ} where
  pub record Rep (s : Lru A) (es : List (Entry A)) : Type ℓ where
    pub items : s.item_list ≡ map node es
    pub size : s.item_list_size ≡ length es
    pub labels : (i : ℕ) → s.id_label_map i ≡ label_at i es
    pub places : (i : ℕ) → s.item_list_map i ≡ place_at i es
    pub sets : (l : List ℕ) → s.label_id_set_map l ≡ non_empty (ids_of l es)
    pub below : Below s.next_id es
    pub next_small : s.next_id < 2 ^ 64
    pub size_small : length es < 2 ^ 64

  removed : (s : Lru A) (i : ℕ) (l : List ℕ) (es : List (Entry A)) → Lru A
  removed s i l es = record s {
    label_id_set_map = put_label s.label_id_set_map l (non_empty (set_erase i (ids_of l es)));
    item_list_size = sub64 s.item_list_size 1;
    item_list = map node (drop_id i es);
    item_list_map = put_id s.item_list_map i none;
    id_label_map = put_id s.id_label_map i none;
  }

  remove_eq :
      (s : Lru A) (es : List (Entry A)) (i : ℕ) (l : List ℕ)
      → Rep s es
      → label_at i es ≡ some l
      → remove i s ≡ some (removed s i l es)
  unfolding remove removed
  remove_eq s es i l r e =
      let h = set_has-ids_of i es l e in
      ground (
        arith,
        r.labels i ∙ e,
        r.sets l ∙ has-non_empty i (ids_of l es) h,
        h,
        r.places i ∙ place_at-label_at i es l e,
        r.items,
        list_erase-map i es l e,
      )

  removed-Rep :
      (s : Lru A) (es : List (Entry A)) (i : ℕ) (l : List ℕ)
      → Rep s es
      → label_at i es ≡ some l
      → Rep (removed s i l es) (drop_id i es)
  unfolding removed put_label
  removed-Rep s es i l r e = record {
    items = refl;
    size = omega (
      arith,
      length-drop_id i es l e,
      sub64_lem s.item_list_size 1 (omega (arith, length-drop_id i es l e, r.size))
          (omega (arith, r.size, r.size_small)),
      r.size,
    );
    labels = λ j. ground (arith, r.labels j, label_at-drop_id i j s.next_id es r.below);
    places = λ j. ground (arith, r.places j, place_at-drop_id i j s.next_id es r.below);
    sets =
        λ k. ground (arith, r.sets k, str_eq_iff l k, ids_of-drop_id i s.next_id es l k r.below e);
    below = Below-drop_id i s.next_id es r.below;
    next_small = r.next_small;
    size_small = omega (arith, length-drop_id i es l e, r.size_small);
  }

  abbrev pub Alike : Lru A → Lru A → Type 0
  Alike s t = (t.max_entries ≡ s.max_entries) × (t.next_id ≡ s.next_id)

  removed-Alike :
      (s : Lru A) (i : ℕ) (l : List ℕ) (es : List (Entry A)) → Alike s (removed s i l es)
  unfolding removed
  removed-Alike s i l es = (refl, refl)

  remove-none :
      (s : Lru A) (es : List (Entry A)) (i : ℕ)
      → Rep s es
      → label_at i es ≡ none
      → remove i s ≡ some s
  unfolding remove
  remove-none s es i r e = ground (arith, r.labels i, e)

  -- `remove` of an id that the list has takes out its entry, and of another one does nothing.
  pub remove-Rep :
      (s : Lru A) (es : List (Entry A)) (i : ℕ)
      → Rep s es
      → (t : Lru A) × (remove i s ≡ some t) × Rep t (drop_id i es) × Alike s t
  remove-Rep s es i r = elim (Option-cases (label_at i es)) [
    | inl e ↦ (s, remove-none s es i r e, rw (label_at-none-drop_id i es e) r, (refl, refl))
    | inr (l, e) ↦
        (removed s i l es, remove_eq s es i l r e, removed-Rep s es i l r e, removed-Alike s i l es)
  ]

  -- `evict` takes out the oldest entry.
  pub evict-Rep :
      (s : Lru A) (es : List (Entry A)) (e : Entry A)
      → Rep s es
      → last_entry es ≡ some e
      → (t : Lru A) × (evict s ≡ some (t, some e.item)) × Rep t (drop_id e.id es) × Alike s t
  unfolding evict
  evict-Rep s es e r x =
      let (t, et, rt, a) = remove-Rep s es e.id r in
      (t, ground (arith, r.items, back-map es, x, et), rt, a)

  abbrev pub new_entry : Lru A → List ℕ → A → Entry A
  new_entry s l x = record { id = s.next_id; label = l; item = x }

  pub push-Alike :
      (s : Lru A) (l : List ℕ) (x : A)
      → ((push l x s).max_entries ≡ s.max_entries) × ((push l x s).next_id ≡ add64 s.next_id 1)
  unfolding push
  push-Alike s l x = (refl, refl)

  pub push-Rep :
      (s : Lru A) (es : List (Entry A)) (l : List ℕ) (x : A)
      → Rep s es
      → s.next_id + 1 < 2 ^ 64
      → length es + 1 < 2 ^ 64
      → Rep (push l x s) (new_entry s l x ∷ es)
  unfolding push put_label label_at place_at ids_of
  push-Rep s es l x r hn hl =
      let en = add64_lem s.next_id 1 hn in
      let is = ids_of l es in
      let lt = ids_of-AllBelow l s.next_id es r.below in
      record {
        items = ap (λ m. (s.next_id, x) ∷ m) r.items;
        size = omega (arith, r.size, add64_lem s.item_list_size 1 (omega (arith, r.size)));
        labels = λ j. ground (arith, r.labels j);
        places = λ j. ground (arith, r.places j);
        sets = λ k. ground (
          arith,
          r.sets k,
          r.sets l,
          str_eq_iff l k,
          add_to s.next_id (ids_of l es) lt,
          non_empty-last s.next_id (ids_of l es),
        );
        below = (omega arith, r.below);
        next_small = omega arith;
        size_small = omega arith;
      }
