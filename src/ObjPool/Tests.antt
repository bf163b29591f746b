-- ===== src/ObjPool/Tests.antt =====
-- An object that is added, released and taken again.
use is.Prelude.{ℕ, ◌≡◌, ◌≢◌, ◌<◌, ◌^◌, subst, List, [], ◌∷◌, some, arith, length, get_elem?}
use is.ObjPool.State.{ObjPool, new_obj_pool, add}
use is.ObjPool.Places.{IsPool, IsUsed, add-IsPool}
use is.ObjPool.Run.{
  Call, take_free, put_new, let_go, Allowed, AllowedRun, step, run, new_obj_pool-IsPool, run-IsPool,
}

abbrev calls : List Call
calls = put_new 100 ∷ let_go 100 ∷ take_free ∷ take_free ∷ []

abbrev one_object : ObjPool
one_object = add (some 100) new_obj_pool

unused : (i : ℕ) → get_elem? new_obj_pool.obj_vec i ≢ some 100
unfolding new_obj_pool
unused i e = cc

few : length new_obj_pool.obj_vec < 2 ^ 32
unfolding new_obj_pool
few = omega arith

one_object-IsPool : IsPool one_object × IsUsed one_object 100
one_object-IsPool = add-IsPool new_obj_pool 100 new_obj_pool-IsPool unused few

first_step : (q : ObjPool) → step (put_new 100) new_obj_pool ≡ some q → one_object ≡ q
unfolding step
first_step q e = cc

calls-AllowedRun : AllowedRun calls new_obj_pool
unfolding AllowedRun Allowed
calls-AllowedRun = (
  (unused, few),
  λ q e. (
    subst (λ p. IsUsed p 100) (first_step q e) one_object-IsPool.1,
    λ q1 e1. (tt, λ q2 e2. (tt, λ q3 e3. tt)),
  ),
)

run-IsPool_example : (q : ObjPool) × (run calls new_obj_pool ≡ some q) × IsPool q
run-IsPool_example = run-IsPool calls new_obj_pool new_obj_pool-IsPool calls-AllowedRun
