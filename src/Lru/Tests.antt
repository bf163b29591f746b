-- ===== src/Lru/Tests.antt =====
-- A run on a list that holds two items at most: the oldest is evicted, and a label's oldest is taken.
use is.Prelude.{ℕ, ◌≡◌, ◌≤◌, length, refl, List, [], ◌∷◌, some, none, arith, codes, str_eq}
use is.Lru.State.{Lru, new_lru}
use is.Lru.Entries.{Entry, last_entry, oldest, drop_id, drop_last}
use is.Lru.Rep.{Rep}
use is.Lru.Ideal.{
  Call, add, take_one, forget, ideal_step, ideal_run, run, view, run-Follows, new_lru-Rep,
}

abbrev calls : List (Call ℕ)
calls =
    add (codes "a") 10
    ∷ add (codes "b") 20
    ∷ add (codes "a") 30
    ∷ forget 1
    ∷ take_one (codes "a")
    ∷ take_one (codes "b")
    ∷ []

run_test :
    (ideal_run calls (view (new_lru 2) [])).1 ≡ none ∷ none ∷ some 10 ∷ none ∷ some 30 ∷ none ∷ []
unfolding ideal_run ideal_step new_lru last_entry oldest drop_id drop_last str_eq
run_test = refl

run-Follows_example :
    (t : Lru ℕ) × (fs : List (Entry ℕ)) × (run calls (new_lru 2)
      ≡ some (t, (ideal_run calls (view (new_lru 2) [])).1))
    × ((ideal_run calls (view (new_lru 2) [])).0 ≡ view t fs)
    × Rep t fs
    × (length fs ≤ t.max_entries)
unfolding new_lru
run-Follows_example =
    run-Follows calls (new_lru 2) [] (new_lru-Rep 2) (omega arith) (omega arith) (omega arith)
