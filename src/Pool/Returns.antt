-- ===== src/Pool/Returns.antt =====
-- The methods that take a connection back: `add_idle` and `release`.
use is.Prelude.{
  count, drop_one, length-drop_one, ℕ, ◌+◌, ◌^◌, ◌<◌, ◌≡◌, refl, sym, ap, subst, ◌∙◌, List, [], ◌∷◌,
  map, Option, none, some, ltb, ◌==◌, arith, length, Bool-cases, Option-cases, inl, inr,
}
use is.Lru.State.{Lru, list_read}
use is.Lru.Entries.{Entry, node, drop_id, length-drop_id-le}
use is.Lru.Rep.{Rep, remove-Rep}
use is.Lru.Takes.{Taken, drop_id-list_read, insert-Took}
use is.Pool.State.{Pool, cleanup, delete_cb, set_id, remove_idle, insert_idle, add_idle, release}
use is.Pool.Counts.{items, listed, listed-map, count-Taken, Labelled-list_read}
use is.Pool.Active.{own_set, remove_active_hit, remove_active_miss, removed}
use is.Pool.Ledger.{
  Ledger, removed-Ledger, cleanup-Ledger, delete_cb-Ledger, take_out-Ledger, inserted-Ledger,
  same_idle-Ledger,
}
use is.Pool.Calls.{IsOwned, give_back, let_go, step, Steps, same-Next}

set_id-delete_cb :
    (c i : ℕ) (out : Option ℕ) (p : Pool)
    → delete_cb out (set_id c i p) ≡ set_id c i (delete_cb out p)
unfolding set_id delete_cb cleanup
set_id-delete_cb c i none p = refl
set_id-delete_cb c i (some d) p = refl

delete_cb-counted :
    (c i : ℕ) (out : Option ℕ) (p : Pool)
    → (delete_cb out (set_id c i p)).idle_conn_lru.next_id ≡ p.idle_conn_lru.next_id
unfolding set_id delete_cb cleanup
delete_cb-counted c i none p = refl
delete_cb-counted c i (some d) p = refl

pub give_back-Steps :
    (p : Pool) (es : List (Entry ℕ)) (held made : List ℕ) (c : ℕ)
    → Ledger p es held none made
    → p.idle_conn_lru.next_id + 1 < 2 ^ 64
    → Steps (give_back c) p held made
unfolding step add_idle insert_idle
give_back-Steps p es held made c g h = elim (Bool-cases (ltb 0 (count c held))) [
  | inl y ↦
      let z : 0 < count c held = ground (arith, y) in
      let p1 = removed c p in
      let g1 = removed-Ledger p es held c made g z in
      let (t, out, e, k) =
        insert-Took p.idle_conn_lru es (p.conns c).label c g.idle g.within h g.small in
      let p2 = set_id c p.idle_conn_lru.next_id (record p1 { idle_conn_lru = t }) in
      let g2 = inserted-Ledger p1 es (drop_one c held) c out made t g1 k in
      (
        delete_cb out p2,
        [],
        ground (
          arith,
          remove_active_hit c p held g.active z,
          e,
          set_id-delete_cb c p.idle_conn_lru.next_id out (record p1 { idle_conn_lru = t }),
        ),
        record {
          es = k.fs;
          now = drop_one c held;
          ledger = delete_cb-Ledger p2 k.fs (drop_one c held) out made g2;
          grown = omega (arith, length-drop_one c held z);
          counted = omega (
            arith,
            k.counted,
            delete_cb-counted c p.idle_conn_lru.next_id out (record p1 { idle_conn_lru = t }),
          );
        },
      )
  | inr y ↦
      (p, [], ground (arith, y, remove_active_miss c p held g.active), same-Next p es held made g)
]

-- The idle list without the connection in it that has the id.
pub record Without (p : Pool) (es : List (Entry ℕ)) (c : ℕ) : Type 0 where
  pub t : Lru ℕ
  pub result : remove_idle c p ≡ some (record p { idle_conn_lru = t })
  pub rep : Rep t (drop_id (p.conns c).id es)
  pub limited : t.max_entries ≡ p.idle_conn_lru.max_entries
  pub counted : t.next_id ≡ p.idle_conn_lru.next_id

drop_id-empty : (i : ℕ) (es : List (Entry ℕ)) → length es ≡ 0 → drop_id i es ≡ es
unfolding drop_id
drop_id-empty i [] e = refl
drop_id-empty i (x ∷ es) e = absurd (omega arith)

pub remove_idle-Without :
    (p : Pool) (es : List (Entry ℕ)) (c : ℕ) → Rep p.idle_conn_lru es → Without p es c
unfolding remove_idle
remove_idle-Without p es c r = elim (Bool-cases (p.idle_conn_lru.item_list_size == 0)) [
  | inl y ↦ record {
    t = p.idle_conn_lru;
    result = ground (arith, y);
    rep = rw (drop_id-empty (p.conns c).id es (ground (arith, y, r.size))) r;
    limited = refl;
    counted = refl;
  }
  | inr y ↦
      let (t, e, rt, (a, b)) = remove-Rep p.idle_conn_lru es (p.conns c).id r in
      record { t = t; result = ground (arith, y, e); rep = rt; limited = a; counted = b }
]

-- What `drop_id` takes is what stands under the id.
read-Taken : (i : ℕ) (es : List (Entry ℕ)) → Taken es (drop_id i es) (list_read i (map node es))
read-Taken i es = elim (Option-cases (list_read i (map node es))) [
  | inl e ↦ inl (drop_id-list_read i es e, e)
  | inr (d, e) ↦ inr (i, d, e, refl, e)
]

-- A released connection that is active is not in the idle list.
active-unlisted :
    (p : Pool) (es : List (Entry ℕ)) (held made : List ℕ) (c : ℕ)
    → Ledger p es held none made
    → IsOwned p c
    → 0 < count c held
    → list_read (p.conns c).id (map node es) ≡ none
active-unlisted p es held made c g o z =
    let i = (p.conns c).id in
    elim (Option-cases (list_read i (map node es))) [
      | inl e ↦ e
      | inr (d, e) ↦
          let same : d ≡ c = o.mine d (ap (list_read i) g.idle.items ∙ e) in
          let k = count-Taken c es (drop_id i es) (some d) (inr (i, d, e, refl, refl)) in
          absurd (ground (arith, same, k, g.once c, z))
    ]

-- A released connection that is not active is found in the idle list.
idle-listed :
    (p : Pool) (es : List (Entry ℕ)) (held made : List ℕ) (c : ℕ)
    → Ledger p es held none made
    → IsOwned p c
    → count c held ≡ 0
    → list_read (p.conns c).id (map node es) ≡ some c
idle-listed p es held made c g o z =
    let i = (p.conns c).id in
    let own = own_set p.conns p.active_conn_map held c g.active in
    let n : count c (items es) ≡ 1 =
      sym (ap (count c) (ap listed g.idle.items ∙ listed-map es)) ∙ omega (arith, o.live, own) in
    elim (Option-cases (list_read i (map node es))) [
      | inl e ↦ absurd (Labelled-list_read p.conns c es g.labelled (omega arith) e)
      | inr (d, e) ↦ e ∙ ap some (o.mine d (ap (list_read i) g.idle.items ∙ e))
    ]

pub let_go-Steps :
    (p : Pool) (es : List (Entry ℕ)) (held made : List ℕ) (c : ℕ)
    → Ledger p es held none made
    → IsOwned p c
    → Steps (let_go c) p held made
unfolding step release cleanup
let_go-Steps p es held made c g o = elim (Bool-cases (ltb 0 (count c held))) [
  | inl y ↦
      let z : 0 < count c held = ground (arith, y) in
      let p1 = removed c p in
      let w = remove_idle-Without p1 es c g.idle in
      let p2 = record p1 { idle_conn_lru = w.t } in
      let g1 = removed-Ledger p es held c made g z in
      let k = drop_id-list_read (p.conns c).id es (active-unlisted p es held made c g o z) in
      (
        cleanup c p2,
        [],
        ground (arith, remove_active_hit c p held g.active z, w.result),
        record {
          es = es;
          now = drop_one c held;
          ledger = cleanup-Ledger p2 es (drop_one c held) c made (
              same_idle-Ledger p1 es (drop_one c held) (some c) made w.t g1
                (subst (Rep w.t) k w.rep) w.limited);
          grown = omega (arith, length-drop_one c held z);
          counted = omega (arith, w.counted);
        },
      )
  | inr y ↦
      let z : count c held ≡ 0 = ground (arith, y) in
      let w = remove_idle-Without p es c g.idle in
      let p2 = record p { idle_conn_lru = w.t } in
      let i = (p.conns c).id in
      let k =
        subst (Taken es (drop_id i es)) (idle-listed p es held made c g o z) (read-Taken i es) in
      (
        cleanup c p2,
        [],
        ground (arith, remove_active_miss c p held g.active z, w.result),
        record {
          es = drop_id i es;
          now = held;
          ledger = cleanup-Ledger p2 (drop_id i es) held c made (
              take_out-Ledger p es (drop_id i es) held (some c) made w.t g k w.rep
                (omega (arith, length-drop_id-le i es, g.within, w.limited)) w.limited);
          grown = omega arith;
          counted = omega (arith, w.counted);
        },
      )
]
