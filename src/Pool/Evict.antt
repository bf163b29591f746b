-- ===== src/Pool/Evict.antt =====
-- The loop of `evict_all_idle`.
use is.Prelude.{ℕ, zero, suc, ◌≤◌, ◌≡◌, List, [], ◌∷◌, none, some, arith, length}
use is.Lru.Entries.{Entry, drop_id}
use is.Lru.Takes.{evict-Took}
use is.Pool.State.{Pool, delete_cb, evict_all_idle}
use is.Pool.Ledger.{Ledger, take_out-Ledger, delete_cb-Ledger}

-- Where a pool with a ledger has no more idle connections than there is fuel, the loop ends with an
-- empty idle list, and the ledger of the pool has the same active connections and the same ones made.
evict_all_idle-ends :
    (fuel : ℕ) (p : Pool) (es : List (Entry ℕ)) (held made : List ℕ)
    → Ledger p es held none made
    → length es ≤ fuel
    → (q : Pool) × (evict_all_idle fuel p ≡ some q) × Ledger q [] held none made
unfolding evict_all_idle
evict_all_idle-ends zero p [] held made g h = (p, ground (arith, g.idle.size), g)
evict_all_idle-ends (suc fuel) p [] held made g h = (p, ground (arith, g.idle.size), g)
evict_all_idle-ends zero p (e ∷ es) held made g h = absurd (omega arith)
evict_all_idle-ends (suc fuel) p (e ∷ es) held made g h =
    let (t, d, et, rt, k, n, m) = evict-Took p.idle_conn_lru e es g.idle g.within in
    let fs = drop_id d.id (e ∷ es) in
    let p1 : Pool = record p { idle_conn_lru = t } in
    let g1 =
      take_out-Ledger p (e ∷ es) fs held (some d.item) made t g k rt (omega (arith, n, m, g.within))
        m in
    let (q, eq, gq) =
      evict_all_idle-ends fuel (delete_cb (some d.item) p1) fs held made
        (delete_cb-Ledger p1 fs held (some d.item) made g1) (omega (arith, n)) in
    (q, ground (arith, g.idle.size, et, eq), gq)
