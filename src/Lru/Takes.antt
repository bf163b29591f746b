-- ===== src/Lru/Takes.antt =====
-- What `get` and `insert` take out of the list, for the code that uses it.
use is.Prelude.{
  ℕ, suc, ◌+◌, ◌^◌, ◌≤◌, ◌<◌, ◌≡◌, refl, ap, subst, List, [], ◌∷◌, map, Option, none, some, ltb,
  arith, length, Bool-cases, Option-cases, inl, inr, ◌⊎◌,
}
use is.Lru.State.{evict, Lru, insert, get, list_read}
use is.Lru.Entries.{
  length-drop_last, Entry, node, Below, drop_id, oldest, last_entry, ids_of-oldest,
  drop_id-last_entry, last_entry-cons,
}
use is.Lru.Rep.{evict-Rep, Rep, new_entry}
use is.Lru.Ideal.{
  Ideal, add, take_one, ideal_step, step, view, newest, take_one-Follows, add-Follows,
}

module _ {ℓ} {A : Type ℓ} where
  -- Nothing is taken out, or an entry is, with its item.
  abbrev pub Taken : List (Entry A) → List (Entry A) → Option A → Type ℓ
  Taken es fs out =
      ((fs ≡ es) × (out ≡ none))
      ⊎ ((i : ℕ) × (x : A) × (list_read i (map node es) ≡ some x)
          × (fs ≡ drop_id i es)
          × (out ≡ some x))

  list_read-Below :
      (i n : ℕ) (es : List (Entry A)) (x : A)
      → Below n es
      → list_read i (map node es) ≡ some x
      → i < n
  unfolding list_read
  list_read-Below i n [] x h e = cc
  list_read-Below i n (d ∷ es) x (h, hs) e = ground (arith, e, list_read-Below i d.id es x hs)

  list_read-last_entry :
      (n : ℕ) (es : List (Entry A)) (e : Entry A)
      → Below n es
      → last_entry es ≡ some e
      → list_read e.id (map node es) ≡ some e.item
  unfolding list_read last_entry
  list_read-last_entry n [] e h x = cc
  list_read-last_entry n (d ∷ []) e h x = ground (arith, x)
  list_read-last_entry n (d ∷ (c ∷ es)) e (h, hs) x =
      let ih = list_read-last_entry d.id (c ∷ es) e hs x in
      ground (arith, ih, list_read-Below e.id d.id (c ∷ es) e.item hs ih)

  pub drop_id-list_read :
      (i : ℕ) (es : List (Entry A)) → list_read i (map node es) ≡ none → drop_id i es ≡ es
  unfolding list_read drop_id
  drop_id-list_read i [] e = refl
  drop_id-list_read i (d ∷ es) e = ground (arith, e, drop_id-list_read i es)

  take_one-Taken :
      (n : ℕ) (l : List ℕ) (m : Ideal A)
      → Below n m.entries
      → Taken m.entries (ideal_step (take_one l) m).0.entries (ideal_step (take_one l) m).1
  unfolding ideal_step
  take_one-Taken n l m h = elim (Option-cases (oldest l m.entries)) [
    | inl z ↦ inl (ground (arith, z), ground (arith, z))
    | inr (e, z) ↦
        let (is, e1, e2, e3) = ids_of-oldest n l m.entries e h z in
        inr (e.id, e.item, e3, ground (arith, z), ground (arith, z))
  ]

  add-Taken :
      (n : ℕ) (l : List ℕ) (x : A) (m : Ideal A)
      → Below n (newest m l x ∷ m.entries)
      → Taken
          (newest m l x ∷ m.entries)
          (ideal_step (add l x) m).0.entries
          (ideal_step (add l x) m).1
  unfolding ideal_step
  add-Taken n l x m h = elim (Bool-cases (ltb m.limit (suc (length m.entries)))) [
    | inl y ↦
        let es = newest m l x ∷ m.entries in
        let (d, z) = last_entry-cons (newest m l x) m.entries in
        inr (
          d.id,
          d.item,
          list_read-last_entry n es d h z,
          ground (arith, y, drop_id-last_entry n es d h z),
          ground (arith, y, z),
        )
    | inr y ↦ inl (ground (arith, y), ground (arith, y))
  ]

  -- The list after a call, its entries, and what the call took out of the entries `es`.
  pub record Took (s : Lru A) (es : List (Entry A)) (t : Lru A) (out : Option A) : Type ℓ where
    pub fs : List (Entry A)
    pub rep : Rep t fs
    pub within : length fs ≤ t.max_entries
    pub counted : t.next_id ≤ s.next_id + 1
    pub limited : t.max_entries ≡ s.max_entries
    pub taken : Taken es fs out

  pub get-Took :
      (s : Lru A) (es : List (Entry A)) (l : List ℕ)
      → Rep s es
      → length es ≤ s.max_entries
      → (t : Lru A) × (out : Option A) × (get l s ≡ some (t, out)) × Took s es t out
  unfolding step
  get-Took s es l r w =
      let f = take_one-Follows s es l r w in
      let k = take_one-Taken s.next_id l (view s es) r.below in
      let out = (ideal_step (take_one l) (view s es)).1 in
      (
        f.t,
        out,
        f.result,
        record {
          fs = f.fs;
          rep = f.rep;
          within = f.within;
          counted = f.counted;
          limited = f.limited;
          taken = subst (λ gs. Taken es gs out) (ap (λ m. m.entries) f.same) k;
        },
      )

  -- The id of an insertion is the next one.
  insert_id :
      (s t : Lru A) (l : List ℕ) (x : A) (out : Option A)
      → step (add l x) s ≡ some (t, out)
      → insert l x s ≡ some (t, s.next_id, out)
  unfolding step insert
  insert_id s t l x out e = ground (arith, e)

  pub insert-Took :
      (s : Lru A) (es : List (Entry A)) (l : List ℕ) (x : A)
      → Rep s es
      → length es ≤ s.max_entries
      → s.next_id + 1 < 2 ^ 64
      → s.max_entries + 1 < 2 ^ 64
      → (t : Lru A) × (out : Option A) × (insert l x s ≡ some (t, s.next_id, out))
        × Took s (new_entry s l x ∷ es) t out
  insert-Took s es l x r w hn hm =
      let f = add-Follows s es l x r w hn hm in
      let k = add-Taken (suc s.next_id) l x (view s es) (omega arith, r.below) in
      let out = (ideal_step (add l x) (view s es)).1 in
      (
        f.t,
        out,
        insert_id s f.t l x out f.result,
        record {
          fs = f.fs;
          rep = f.rep;
          within = f.within;
          counted = f.counted;
          limited = f.limited;
          taken = subst (λ gs. Taken (new_entry s l x ∷ es) gs out) (ap (λ m. m.entries) f.same) k;
        },
      )

  pub evict-Took :
      (s : Lru A) (e : Entry A) (es : List (Entry A))
      → Rep s (e ∷ es)
      → length (e ∷ es) ≤ s.max_entries
      → (t : Lru A) × (d : Entry A) × (evict s ≡ some (t, some d.item))
        × Rep t (drop_id d.id (e ∷ es))
        × Taken (e ∷ es) (drop_id d.id (e ∷ es)) (some d.item)
        × (length (drop_id d.id (e ∷ es)) ≡ length es)
        × (t.max_entries ≡ s.max_entries)
  evict-Took s e es r w =
      let (d, z) = last_entry-cons e es in
      let (t, et, rt, (a, b)) = evict-Rep s (e ∷ es) d r z in
      let n : length (drop_id d.id (e ∷ es)) ≡ length es = omega (
        arith,
        ap length (drop_id-last_entry s.next_id (e ∷ es) d r.below z),
        length-drop_last (e ∷ es),
      ) in
      (
        t,
        d,
        et,
        rt,
        inr (d.id, d.item, list_read-last_entry s.next_id (e ∷ es) d r.below z, refl, refl),
        n,
        a,
      )
