-- ===== src/Lru/Ideal.antt =====
-- Runs of the list against an ideal one, which is just its entries with a limit and the next id.
use is.Prelude.{
  ℕ, suc, ◌+◌, ◌^◌, ◌≤◌, ◌<◌, ◌≡◌, refl, ◌∙◌, List, [], ◌∷◌, Option, none, some, ◌>>=◌,
  if◌then◌else◌, ltb, arith, length, Bool-cases, Option-cases, inl, inr, add64_lem, subst,
}
use is.Lru.State.{Lru, new_lru, push, remove, insert, get}
use is.Lru.Entries.{
  label_at, place_at, ids_of, Entry, label_at, ids_of, drop_id, drop_last, oldest, last_entry,
  last_entry-cons, drop_id-last_entry, length-drop_last, length-drop_id-le, ids_of-oldest,
  ids_of-none, place_at-label_at,
}
use is.Lru.Rep.{Rep, new_entry, push-Alike, remove-Rep, evict-Rep, push-Rep}

pub data Call {ℓ} (A : Type ℓ) : Type ℓ where
  add : List ℕ → A → Call A
  take_one : List ℕ → Call A
  forget : ℕ → Call A

pub record Ideal {ℓ} (A : Type ℓ) : Type ℓ where
  pub entries : List (Entry A)
  pub limit : ℕ
  pub next : ℕ

module _ {ℓ} {A : Type ℓ} where
  abbrev pub newest : Ideal A → List ℕ → A → Entry A
  newest m l x = record { id = m.next; label = l; item = x }

  abbrev pub item_of : Option (Entry A) → Option A
  item_of none = none
  item_of (some e) = some e.item

  -- What a call does, and the item that it hands out: an added entry is the newest, and the oldest
  -- of all goes where there are too many; of a label's entries the oldest is taken.
  unfoldable pub ideal_step : Call A → Ideal A → Ideal A × Option A
  ideal_step (add l x) m =
      if ltb m.limit (suc (length m.entries))
      then (
        record m { entries = drop_last (newest m l x ∷ m.entries); next = m.next + 1 },
        item_of (last_entry (newest m l x ∷ m.entries)),
      )
      else (record m { entries = newest m l x ∷ m.entries; next = m.next + 1 }, none)
  ideal_step (take_one l) m = elim (oldest l m.entries) [
    | none ↦ (m, none)
    | some e ↦ (record m { entries = drop_id e.id m.entries }, some e.item)
  ]
  ideal_step (forget i) m = (record m { entries = drop_id i m.entries }, none)

  -- The same calls of the code.
  unfoldable pub step : Call A → Lru A → Option (Lru A × Option A)
  step (add l x) s = do (t, id, out) ← insert l x s; some (t, out)
  step (take_one l) s = get l s
  step (forget i) s = do t ← remove i s; some (t, none)

  unfoldable pub ideal_run : List (Call A) → Ideal A → Ideal A × List (Option A)
  ideal_run [] m = (m, [])
  ideal_run (c ∷ cs) m =
      let (m1, out) = ideal_step c m in let (m2, outs) = ideal_run cs m1 in (m2, out ∷ outs)

  unfoldable pub run : List (Call A) → Lru A → Option (Lru A × List (Option A))
  run [] s = some (s, [])
  run (c ∷ cs) s = do (t, out) ← step c s; (u, outs) ← run cs t; some (u, out ∷ outs)

  -- The ideal list of a list and its entries.
  abbrev pub view : Lru A → List (Entry A) → Ideal A
  view s es = record { entries = es; limit = s.max_entries; next = s.next_id }

  -- A call of the code does what the ideal call does, and the entries still stand for the list.
  pub record Follows (s : Lru A) (es : List (Entry A)) (c : Call A) : Type ℓ where
    pub t : Lru A
    pub fs : List (Entry A)
    pub result : step c s ≡ some (t, (ideal_step c (view s es)).1)
    pub same : (ideal_step c (view s es)).0 ≡ view t fs
    pub rep : Rep t fs
    pub within : length fs ≤ t.max_entries
    pub counted : t.next_id ≤ s.next_id + 1
    pub limited : t.max_entries ≡ s.max_entries

  view-eq :
      (s t : Lru A) (es fs : List (Entry A)) (n : ℕ)
      → es ≡ fs
      → t.max_entries ≡ s.max_entries
      → t.next_id ≡ n
      → record (view s es) { next = n } ≡ view t fs
  view-eq s t es fs n e a b = cc

  ideal_take :
      (m : Ideal A) (l : List ℕ) (e : Entry A)
      → oldest l m.entries ≡ some e
      → (ideal_step (take_one l) m).0 ≡ record m { entries = drop_id e.id m.entries }
  unfolding ideal_step
  ideal_take m l e h = ground (arith, h)

  pub take_one-Follows :
      (s : Lru A) (es : List (Entry A)) (l : List ℕ)
      → Rep s es
      → length es ≤ s.max_entries
      → Follows s es (take_one l)
  unfolding step ideal_step get
  take_one-Follows s es l r w = elim (Option-cases (oldest l es)) [
    | inl e ↦ record {
      t = s;
      fs = es;
      result = ground (arith, e, r.sets l, ids_of-none l es e);
      same = ground (arith, e);
      rep = r;
      within = w;
      counted = omega arith;
      limited = refl;
    }
    | inr (e, eo) ↦
        let (is, e1, e2, e3) = ids_of-oldest s.next_id l es e r.below eo in
        let (t, et, rt, (a, b)) = remove-Rep s es e.id r in
        record {
          t = t;
          fs = drop_id e.id es;
          result = ground (
            arith,
            eo,
            r.sets l,
            e1,
            r.places e.id,
            place_at-label_at e.id es l e2,
            r.items,
            e3,
            et,
          );
          same =
              ideal_take (view s es) l e eo
              ∙ view-eq s t (drop_id e.id es) (drop_id e.id es) s.next_id refl a b;
          rep = rt;
          within = omega (arith, length-drop_id-le e.id es);
          counted = omega arith;
          limited = a;
        }
  ]

  forget-Follows :
      (s : Lru A) (es : List (Entry A)) (i : ℕ)
      → Rep s es
      → length es ≤ s.max_entries
      → Follows s es (forget i)
  unfolding step ideal_step
  forget-Follows s es i r w =
      let (t, et, rt, (a, b)) = remove-Rep s es i r in
      record {
        t = t;
        fs = drop_id i es;
        result = ground (arith, et);
        same = view-eq s t (drop_id i es) (drop_id i es) s.next_id refl a b;
        rep = rt;
        within = omega (arith, length-drop_id-le i es);
        counted = omega arith;
        limited = a;
      }

  pub add-Follows :
      (s : Lru A) (es : List (Entry A)) (l : List ℕ) (x : A)
      → Rep s es
      → length es ≤ s.max_entries
      → s.next_id + 1 < 2 ^ 64
      → s.max_entries + 1 < 2 ^ 64
      → Follows s es (add l x)
  unfolding step ideal_step insert
  add-Follows s es l x r w hn hm =
      let rp = push-Rep s es l x r hn (omega arith) in
      let en : (push l x s).next_id ≡ s.next_id + 1 =
        (push-Alike s l x).1 ∙ add64_lem s.next_id 1 hn in
      let e : Entry A = new_entry s l x in
      elim (Bool-cases (ltb s.max_entries (suc (length es)))) [
        | inl y ↦
            let (d, ed) = last_entry-cons e es in
            let (t, et, rt, (a, b)) = evict-Rep (push l x s) (e ∷ es) d rp ed in
            let ef = drop_id-last_entry (push l x s).next_id (e ∷ es) d rp.below ed in
            record {
              t = t;
              fs = drop_last (e ∷ es);
              result = ground (arith, y, rp.size, et, ed);
              same = rw y (
                  view-eq s t (drop_last (e ∷ es)) _ (s.next_id + 1) refl (a ∙ (push-Alike s l x).0)
                    (b ∙ en));
              rep = subst (Rep t) ef rt;
              within = omega (arith, length-drop_last (e ∷ es), a, (push-Alike s l x).0);
              counted = omega (arith, b, en);
              limited = a ∙ (push-Alike s l x).0;
            }
        | inr y ↦ record {
          t = push l x s;
          fs = e ∷ es;
          result = ground (arith, y, rp.size);
          same =
              rw y (view-eq s (push l x s) (e ∷ es) _ (s.next_id + 1) refl (push-Alike s l x).0 en);
          rep = rp;
          within = ground (arith, y, (push-Alike s l x).0);
          counted = omega (arith, en);
          limited = (push-Alike s l x).0;
        }
      ]

  step-Follows :
      (c : Call A) (s : Lru A) (es : List (Entry A))
      → Rep s es
      → length es ≤ s.max_entries
      → s.next_id + 1 < 2 ^ 64
      → s.max_entries + 1 < 2 ^ 64
      → Follows s es c
  step-Follows (add l x) s es r w hn hm = add-Follows s es l x r w hn hm
  step-Follows (take_one l) s es r w hn hm = take_one-Follows s es l r w
  step-Follows (forget i) s es r w hn hm = forget-Follows s es i r w

  -- A list whose containers stand for entries, within the limit, does in any sequence of calls what
  -- the ideal list does, hands out the same items, and stands for the entries the ideal list has,
  -- where the ids and the limit stay below 2^64.
  pub run-Follows :
      (cs : List (Call A)) (s : Lru A) (es : List (Entry A))
      → Rep s es
      → length es ≤ s.max_entries
      → s.next_id + length cs < 2 ^ 64
      → s.max_entries + 1 < 2 ^ 64
      → (t : Lru A) × (fs : List (Entry A)) × (run cs s ≡ some (t, (ideal_run cs (view s es)).1))
        × ((ideal_run cs (view s es)).0 ≡ view t fs)
        × Rep t fs
        × (length fs ≤ t.max_entries)
  unfolding run ideal_run
  run-Follows [] s es r w hn hm = (s, es, refl, refl, r, w)
  run-Follows (c ∷ cs) s es r w hn hm =
      let f = step-Follows c s es r w (omega arith) hm in
      let (t, fs, et, ef, rt, wt) =
        run-Follows cs f.t f.fs f.rep f.within (omega (arith, f.counted))
          (omega (arith, f.limited)) in
      (t, fs, ground (arith, f.result, f.same, et), ground (arith, f.same, ef), rt, wt)

pub new_lru-Rep {ℓ} : {A : Type ℓ} → (n : ℕ) → Rep (new_lru {A = A} n) []
unfolding new_lru label_at place_at ids_of
new_lru-Rep n = record {
  items = refl;
  size = refl;
  labels = λ i. refl;
  places = λ i. refl;
  sets = λ l. refl;
  below = tt;
  next_small = omega arith;
  size_small = omega arith;
}
