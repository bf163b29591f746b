-- ===== src/ObjPool/State.antt =====
-- The class `obj_pool` of src/support/obj_pool.h. An object is named by its address, a null pointer is `none`, and
-- `idx` is the index that each object keeps in 32 bits. `none` as a result is a read past the vector.
use is.Prelude.{ℕ, ◌%◌, ◌^◌, List, [], ◌∷◌, ◌++◌, Option, none, some, length, get_elem?, ◌>>=◌}
use is.Lru.State.{set_insert, set_erase}
use is.Prelude.{if◌then◌else◌, ◌==◌}

pub record ObjPool : Type 0 where
  pub obj_vec : List ℕ
  pub used_idx_set : List ℕ
  pub free_idx_set : List ℕ
  pub idx : ℕ → ℕ

unfoldable pub new_obj_pool : ObjPool
new_obj_pool = record { obj_vec = []; used_idx_set = []; free_idx_set = []; idx = λ c. 0 }

unfoldable pub get_free : ObjPool → Option (ObjPool × Option ℕ)
get_free p = elim p.free_idx_set [
  | [] ↦ some (p, none)
  | i ∷ is ↦ do
    c ← get_elem? p.obj_vec i
    some (
      record p { free_idx_set = set_erase i (i ∷ is); used_idx_set = set_insert i p.used_idx_set },
      some c,
    )
]

unfoldable pub add : Option ℕ → ObjPool → ObjPool
add none p = p
add (some c) p = record p {
  obj_vec = p.obj_vec ++ c ∷ [];
  idx = λ d. if c == d then length p.obj_vec % 2 ^ 32 else p.idx d;
  used_idx_set = set_insert (length p.obj_vec) p.used_idx_set;
}

unfoldable pub release : Option ℕ → ObjPool → ObjPool
release none p = p
release (some c) p = record p {
  used_idx_set = set_erase (p.idx c) p.used_idx_set;
  free_idx_set = set_insert (p.idx c) p.free_idx_set;
}
