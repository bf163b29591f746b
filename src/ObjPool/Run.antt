-- ===== src/ObjPool/Run.antt =====
-- Runs of the pool of objects.
use is.Prelude.{
  ℕ, ◌^◌, ◌<◌, ◌≡◌, ◌≢◌, refl, List, [], ◌∷◌, Option, some, arith, length, get_elem?, ◌>>=◌, count,
}
use is.ObjPool.State.{ObjPool, new_obj_pool, get_free, add, release}
use is.ObjPool.Places.{IsPool, IsUsed, get_free-IsPool, add-IsPool, release-IsPool}

pub data Call : Type 0 where
  take_free : Call
  put_new : ℕ → Call
  let_go : ℕ → Call

-- An object is added once, while there are fewer than 2^32, and one that is released is in use.
unfoldable pub Allowed : Call → ObjPool → Type 0
Allowed take_free p = Unit {0}
Allowed (put_new c) p = ((i : ℕ) → get_elem? p.obj_vec i ≢ some c) × (length p.obj_vec < 2 ^ 32)
Allowed (let_go c) p = IsUsed p c

unfoldable pub step : Call → ObjPool → Option ObjPool
step take_free p = do (q, c) ← get_free p; some q
step (put_new c) p = some (add (some c) p)
step (let_go c) p = some (release (some c) p)

unfoldable pub run : List Call → ObjPool → Option ObjPool
run [] p = some p
run (k ∷ ks) p = do q ← step k p; run ks q

unfoldable pub AllowedRun : List Call → ObjPool → Type 0
AllowedRun [] p = Unit {0}
AllowedRun (k ∷ ks) p = Allowed k p × ((q : ObjPool) → step k p ≡ some q → AllowedRun ks q)

step-IsPool :
    (k : Call) (p : ObjPool)
    → IsPool p
    → Allowed k p
    → (q : ObjPool) × (step k p ≡ some q) × IsPool q
unfolding step Allowed
step-IsPool take_free p h a =
    let (q, out, e, hq, w) = get_free-IsPool p h in (q, ground (arith, e), hq)
step-IsPool (put_new c) p h (n, l) = (add (some c) p, refl, (add-IsPool p c h n l).0)
step-IsPool (let_go c) p h a = (release (some c) p, refl, (release-IsPool p c h a).0)

pub new_obj_pool-IsPool : IsPool new_obj_pool
unfolding new_obj_pool count
new_obj_pool-IsPool = record {
  places = λ i. ground arith;
  indexed = λ i c e. cc;
  small = omega arith;
}

-- Every run of allowed calls on a sound pool returns a sound pool: each object stands in one of the
-- two sets, under its own index.
pub run-IsPool :
    (ks : List Call) (p : ObjPool)
    → IsPool p
    → AllowedRun ks p
    → (q : ObjPool) × (run ks p ≡ some q) × IsPool q
unfolding run AllowedRun
run-IsPool [] p h a = (p, refl, h)
run-IsPool (k ∷ ks) p h (a, b) =
    let (q, e, hq) = step-IsPool k p h a in
    let (r, er, hr) = run-IsPool ks q hq (b q e) in (r, ground (arith, e, er), hr)
