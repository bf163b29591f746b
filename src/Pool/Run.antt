-- ===== src/Pool/Run.antt =====
-- The ledger through every run of calls, and what is lost where a released connection is not owned.
use is.Prelude.{
  count, count-append, count-drop_one, ℕ, ◌+◌, ◌%◌, ◌^◌, ◌≤◌, ◌<◌, ◌≡◌, ◌≢◌, refl, sym, ap, ◌∙◌,
  List, [], ◌∷◌, ◌++◌, Option, none, some, arith, length, inr, ◌>>=◌,
}
use is.Lru.State.{new_lru, list_read}
use is.Lru.Entries.{Entry, drop_id}
use is.Lru.Ideal.{new_lru-Rep}
use is.Pool.State.{Pool, status_ok, new_pool, cleanup, release, reap}
use is.Pool.Counts.{items, listed, listed-map, count-Taken, Labelled}
use is.Pool.Active.{set_at, own_set, remove_active_hit, removed, removed-IsActive}
use is.Pool.Ledger.{Ledger, reap-Ledger}
use is.Pool.Calls.{
  IsFree, Call, new_active, take_idle, give_back, let_go, reap_all, Allowed, step, Steps,
  new_active-Steps, take_idle-Steps,
}
use is.Pool.Returns.{give_back-Steps, let_go-Steps, remove_idle-Without}

step-Steps :
    (k : Call) (p : Pool) (es : List (Entry ℕ)) (held made : List ℕ)
    → Ledger p es held none made
    → Allowed k p
    → length held + 1 < 2 ^ 64
    → p.idle_conn_lru.next_id + 1 < 2 ^ 64
    → Steps k p held made
unfolding Allowed step reap
step-Steps (new_active l s c) p es held made g (n, f) h i =
    new_active-Steps p es held made l s c g h n f
step-Steps (take_idle l) p es held made g a h i = take_idle-Steps p es held made l g h
step-Steps (give_back c) p es held made g a h i = give_back-Steps p es held made c g i
step-Steps (let_go c) p es held made g a h i = let_go-Steps p es held made c g a
step-Steps reap_all p es held made g a h i = (
  reap p,
  [],
  refl,
  record {
    es = es;
    now = held;
    ledger = reap-Ledger p es held made g;
    grown = omega arith;
    counted = omega arith;
  },
)

-- The calls one after the other, and all connections that they make, the last one first.
unfoldable pub run : List Call → Pool → List ℕ → Option (Pool × List ℕ)
run [] p made = some (p, made)
run (k ∷ ks) p made = do (q, new) ← step k p; run ks q (new ++ made)

-- Each call is allowed in the state that it is made in.
unfoldable pub AllowedRun : List Call → Pool → Type 0
AllowedRun [] p = Unit {0}
AllowedRun (k ∷ ks) p =
    Allowed k p × ((q : Pool) (new : List ℕ) → step k p ≡ some (q, new) → AllowedRun ks q)

-- Every run of allowed calls from a pool with a ledger returns, and the pool has a ledger again, where
-- the active connections, the ids and the calls together stay below 2^64.
pub run-Ledger :
    (ks : List Call) (p : Pool) (es : List (Entry ℕ)) (held made : List ℕ)
    → Ledger p es held none made
    → AllowedRun ks p
    → length held + length ks < 2 ^ 64
    → p.idle_conn_lru.next_id + length ks < 2 ^ 64
    → (q : Pool) × (all : List ℕ) × (fs : List (Entry ℕ)) × (now : List ℕ) × (run ks p made
        ≡ some (q, all))
      × Ledger q fs now none all
unfolding run AllowedRun
run-Ledger [] p es held made g a h i = (p, made, es, held, refl, g)
run-Ledger (k ∷ ks) p es held made g (a, b) h i =
    let (q, new, e, n) = step-Steps k p es held made g a (omega arith) (omega arith) in
    let (r, all, fs, now, er, gr) =
      run-Ledger ks q n.es n.now (new ++ made) n.ledger (b q new e) (omega (arith, n.grown))
        (omega (arith, n.counted)) in
    (r, all, fs, now, ground (arith, e, er), gr)

pub new_pool-Ledger : (a b : ℕ) → Ledger (new_pool a b) [] [] none []
unfolding new_pool new_lru Labelled items count
new_pool-Ledger a b = record {
  idle = new_lru-Rep (b % 2 ^ 32);
  within = omega arith;
  small = omega arith;
  labelled = tt;
  active = λ l c. ground arith;
  size = refl;
  room = omega arith;
  places = λ c. omega arith;
  once = λ c. omega arith;
}

abbrev pub active_times : ℕ → Pool → ℕ
active_times c p = count c (set_at (p.active_conn_map (p.conns c).label))

abbrev pub idle_times : ℕ → Pool → ℕ
idle_times c p = count c (listed p.idle_conn_lru.item_list)

-- After every run of allowed calls from a new pool, of fewer than 2^64 calls, each connection that
-- was made stands exactly once among the active, the idle, the ones to be reaped and the deleted
-- (as often as it was made, where its memory was used again), and no other one does; of the first
-- three it stands in one at most.
pub run-places :
    (ks : List Call) (max_active max_idle : ℕ)
    → AllowedRun ks (new_pool max_active max_idle)
    → length ks < 2 ^ 64
    → (q : Pool) × (all : List ℕ) × (run ks (new_pool max_active max_idle) [] ≡ some (q, all))
      × ((c : ℕ)
          → (count c all
              ≡ active_times c q + idle_times c q + count c q.reap_list + count c q.deleted)
            × (active_times c q + idle_times c q + count c q.reap_list ≤ 1))
unfolding new_pool new_lru
run-places ks a b h n =
    let (q, all, es, held, e, g) =
      run-Ledger ks (new_pool a b) [] [] [] (new_pool-Ledger a b) h (omega arith) (omega arith) in
    (
      q,
      all,
      e,
      λ c.
          let x = own_set q.conns q.active_conn_map held c g.active in
          let y = ap (count c) (ap listed g.idle.items ∙ listed-map es) in
          (omega (arith, x, y, g.places c), omega (arith, x, y, g.once c)),
    )

-- On a pool with a ledger the release of an active connection under whose id the idle list has another one takes the other
-- one out of the pool: it is not active, not idle, not to be reaped, and not deleted.
pub release_loses :
    (p : Pool) (es : List (Entry ℕ)) (held made : List ℕ) (c d : ℕ)
    → Ledger p es held none made
    → 0 < count c held
    → list_read (p.conns c).id p.idle_conn_lru.item_list ≡ some d
    → (q : Pool) × (release (some c) p ≡ some (q, status_ok))
      × IsFree q d
      × (count d made ≡ 1 + count d q.deleted)
unfolding release cleanup count
release_loses p es held made c d g z r =
    let i = (p.conns c).id in
    let p1 = removed c p in
    let w = remove_idle-Without p1 es c g.idle in
    let q = cleanup c (record p1 { idle_conn_lru = w.t }) in
    let k =
      count-Taken d es (drop_id i es) (some d)
        (inr (i, d, sym (ap (list_read i) g.idle.items) ∙ r, refl, refl)) in
    let k1 : 1 + count d (items (drop_id i es)) ≡ count d (items es) = ground (arith, k) in
    let a : count d held ≡ 0 = omega (arith, g.once d, k1) in
    let n : c ≢ d = λ e. ground (arith, e, a, z) in
    let b = count-drop_one d c held z in
    (
      q,
      ground (arith, remove_active_hit c p held g.active z, w.result),
      record {
        inactive = λ l. ground (arith, removed-IsActive c p held g.active z l d, b, a);
        unlisted =
            ap (count d) (ap listed w.rep.items ∙ listed-map (drop_id i es))
            ∙ omega (arith, g.once d, k1);
        unreaped = ground (arith, count-append d p.reap_list (c ∷ []), g.once d, k1, n);
      },
      omega (arith, g.places d, g.once d, k1),
    )
