-- ===== src/Pool/Tests.antt =====
-- Two connections to one host: the first goes idle, the second has never been idle.
use is.Prelude.{
  count, ℕ, ◌+◌, ◌≤◌, ◌<◌, ◌≡◌, ◌≢◌, refl, subst, List, [], ◌∷◌, Option, some, none, arith, codes,
  str_eq, str_eq_iff,
}
use is.Lru.State.{new_lru, list_read, put_label, push}
use is.Lru.Entries.{Entry}
use is.Lru.Rep.{new_entry, push-Rep}
use is.Lru.Ideal.{new_lru-Rep}
use is.Pool.State.{
  Pool, scheme_tcp, scheme_none, status_ok, new_pool, release, get_idle, get_new_active,
  create_new_conn, add_active, put_conn,
}
use is.Pool.Counts.{items, listed, Labelled}
use is.Pool.Ledger.{Ledger}
use is.Pool.Calls.{
  IsFree, IsOwned, Call, new_active, take_idle, give_back, let_go, reap_all, Allowed, step,
}
use is.Pool.Run.{run, AllowedRun, run-places, release_loses, active_times, idle_times}
use is.Pool.Reuse.{get_idle-label}

abbrev host : List ℕ
host = codes "a"

abbrev calls : List Call
calls = new_active host scheme_tcp 100 ∷ let_go 100 ∷ take_idle host ∷ give_back 100 ∷ reap_all ∷ []

abbrev first_state : Pool
first_state = add_active 100 (record (new_pool 2 1) {
  conns = put_conn 100 (record { label = host; id = 0 }) (new_pool 2 1).conns;
})

first_step :
    (q : Pool) (new : List ℕ)
    → step (new_active host scheme_tcp 100) (new_pool 2 1) ≡ some (q, new)
    → first_state ≡ q
unfolding step get_new_active create_new_conn new_pool
first_step q new e = cc

first_state-IsOwned : IsOwned first_state 100
unfolding add_active put_conn put_label new_pool new_lru count str_eq listed list_read
first_state-IsOwned = record { live = refl; mine = λ d e. cc }

first-IsFree : IsFree (new_pool 2 1) 100
unfolding new_pool new_lru count listed
first-IsFree = record { inactive = λ l. refl; unlisted = refl; unreaped = refl }

scheme_tcp-known : scheme_tcp ≢ scheme_none
scheme_tcp-known = λ e. cc

calls-AllowedRun : AllowedRun calls (new_pool 2 1)
unfolding AllowedRun Allowed
calls-AllowedRun = (
  (scheme_tcp-known, first-IsFree),
  λ q new e. (
    subst (λ p. IsOwned p 100) (first_step q new e) first_state-IsOwned,
    λ q1 n1 e1. (tt, λ q2 n2 e2. (tt, λ q3 n3 e3. (tt, λ q4 n4 e4. tt))),
  ),
)

run-places_example :
    (q : Pool) × (all : List ℕ) × (run calls (new_pool 2 1) [] ≡ some (q, all))
    × ((c : ℕ)
        → (count c all
            ≡ active_times c q + idle_times c q + count c q.reap_list + count c q.deleted)
          × (active_times c q + idle_times c q + count c q.reap_list ≤ 1))
run-places_example = run-places calls 2 1 calls-AllowedRun (omega arith)

-- The idle list has connection 100 under the id 0, which connection 200 has too.
abbrev shared_id : Pool
shared_id = record {
  conns = λ c. record { label = host; id = 0 };
  active_conn_map = put_label (λ l. none) host (some (200 ∷ []));
  active_conn_map_size = 1;
  active_conn_map_max_size = 2;
  idle_conn_lru = push host 100 (new_lru 1);
  reap_list = [];
  deleted = [];
}

abbrev entries : List (Entry ℕ)
entries = new_entry (new_lru 1) host 100 ∷ []

shared_id-Ledger : Ledger shared_id entries (200 ∷ []) none (200 ∷ 100 ∷ [])
unfolding new_lru push put_label count items Labelled
shared_id-Ledger = record {
  idle = push-Rep (new_lru 1) [] host 100 (new_lru-Rep 1) (omega arith) (omega arith);
  within = omega arith;
  small = omega arith;
  labelled = (refl, refl, tt);
  active = λ l c. ground (arith, str_eq_iff host l);
  size = refl;
  room = omega arith;
  places = λ c. omega arith;
  once = λ c. ground arith;
}

release_loses_example :
    (q : Pool) × (release (some 200) shared_id ≡ some (q, status_ok))
    × IsFree q 100
    × (count 100 (200 ∷ 100 ∷ []) ≡ 1 + count 100 q.deleted)
unfolding count list_read push new_lru
release_loses_example =
    release_loses shared_id entries (200 ∷ []) (200 ∷ 100 ∷ []) 200 100 shared_id-Ledger
      (ground arith) (ground arith)

get_idle-label_example :
    (q : Pool) × (out : Option ℕ) × (get_idle host shared_id ≡ some (q, out))
    × ((c : ℕ) → out ≡ some c → (host ≡ host) × (0 < count c (items entries)))
    × (out ≡ none → (c : ℕ) → 0 < count c (items entries) → host ≢ host)
get_idle-label_example =
    get_idle-label host shared_id entries (200 ∷ []) (200 ∷ 100 ∷ []) shared_id-Ledger
