-- ===== src/ObjPool/Places.antt =====
-- Every object of the pool is either in use or free.
use is.Prelude.{
  ℕ, zero, suc, ◌+◌, ◌^◌, ◌≤◌, ◌<◌, ◌≡◌, ◌≢◌, refl, ap, List, [], ◌∷◌, ◌++◌, Option, none, some,
  true, ltb, ◌==◌, if◌then◌else◌, arith, length, length-append, get_elem?, inl, inr, ◌⊎◌, one,
  count,
}
use is.Lru.State.{set_insert, set_erase, set_has}
use is.Pool.Counts.{count-set_insert, count-set_erase, set_has-count}
use is.ObjPool.State.{ObjPool, get_free, add, release}

-- Each index of the vector stands once in one of the sets, and each object has its index.
pub record IsPool (p : ObjPool) : Type 0 where
  pub places :
      (i : ℕ)
      → count i p.used_idx_set + count i p.free_idx_set
        ≡ (if ltb i (length p.obj_vec) then 1 else 0)
  pub indexed : (i c : ℕ) → get_elem? p.obj_vec i ≡ some c → p.idx c ≡ i
  pub small : length p.obj_vec ≤ 2 ^ 32

abbrev pub IsUsed : ObjPool → ℕ → Type 0
IsUsed p c = (get_elem? p.obj_vec (p.idx c) ≡ some c) × (count (p.idx c) p.used_idx_set ≡ 1)

abbrev pub IsFree : ObjPool → ℕ → Type 0
IsFree p c = (get_elem? p.obj_vec (p.idx c) ≡ some c) × (count (p.idx c) p.free_idx_set ≡ 1)

get_elem_some : (xs : List ℕ) (i : ℕ) → i < length xs → (c : ℕ) × (get_elem? xs i ≡ some c)
get_elem_some [] i l = absurd (omega arith)
get_elem_some (x ∷ xs) zero l = (x, refl)
get_elem_some (x ∷ xs) (suc i) l = get_elem_some xs i (omega arith)

get_elem_lt : (xs : List ℕ) (i c : ℕ) → get_elem? xs i ≡ some c → i < length xs
get_elem_lt [] i c e = cc
get_elem_lt (x ∷ xs) zero c e = omega arith
get_elem_lt (x ∷ xs) (suc i) c e = omega (arith, get_elem_lt xs i c e)

get_elem-append :
    (xs : List ℕ) (i c : ℕ)
    → get_elem? (xs ++ c ∷ []) i ≡ (if i == length xs then some c else get_elem? xs i)
get_elem-append [] zero c = ground arith
get_elem-append [] (suc i) c = ground arith
get_elem-append (x ∷ xs) zero c = ground arith
get_elem-append (x ∷ xs) (suc i) c = ground (arith, get_elem-append xs i c)

List-cases {ℓ} :
    {A : Type ℓ} → (xs : List A) → (xs ≡ []) ⊎ ((x : A) × (ys : List A) × (xs ≡ x ∷ ys))
List-cases [] = inl refl
List-cases (x ∷ ys) = inr (x, ys, refl)

has_head : (i : ℕ) (is : List ℕ) → set_has i (i ∷ is) ≡ true
unfolding set_has
has_head i is = ground arith

count_head : (i : ℕ) (is : List ℕ) → 0 < count i (i ∷ is)
unfolding count
count_head i is = ground arith

in_range :
    (i : ℕ) (p : ObjPool)
    → IsPool p
    → i < length p.obj_vec
    → count i p.used_idx_set + count i p.free_idx_set ≡ 1
in_range i p h l = ground (arith, h.places i)

-- get_free on a sound pool always returns and leaves it sound: an object that was free and is then in
-- use, or none, and then no object was free.
pub get_free-IsPool :
    (p : ObjPool)
    → IsPool p
    → (q : ObjPool) × (out : Option ℕ) × (get_free p ≡ some (q, out))
      × IsPool q
      × (((out ≡ none) × (p.free_idx_set ≡ []))
          ⊎ ((c : ℕ) × (out ≡ some c) × IsFree p c × IsUsed q c))
unfolding get_free
get_free-IsPool p h = elim (List-cases p.free_idx_set) [
  | inl e ↦ (p, none, ground (arith, e), h, inl (refl, e))
  | inr (i, is, e) ↦
      let k : count i p.free_idx_set ≡ count i (i ∷ is) = ap (count i) e in
      let pos = count_head i is in
      let l : i < length p.obj_vec = ground (arith, h.places i, k, pos) in
      let (c, ec) = get_elem_some p.obj_vec i l in
      let z : count i p.used_idx_set ≡ 0 = ground (arith, h.places i, k, pos) in
      let ic : p.idx c ≡ i = h.indexed i c ec in
      let q : ObjPool = record p {
        free_idx_set = set_erase i (i ∷ is);
        used_idx_set = set_insert i p.used_idx_set;
      } in
      let ins = λ (j : ℕ). count-set_insert j i p.used_idx_set z in
      let del = λ (j : ℕ). count-set_erase j i (i ∷ is) (has_head i is) in
      let own : one i i ≡ 1 = ground arith in
      (
        q,
        some c,
        ground (arith, e, ec),
        record {
          places = λ j. omega (arith, h.places j, ins j, del j, ap (count j) e);
          indexed = h.indexed;
          small = h.small;
        },
        inr (
          c,
          refl,
          (rw ic ec, rw ic (omega (arith, z, in_range i p h l))),
          (rw ic ec, rw ic (omega (arith, ins i, z, own))),
        ),
      )
]

-- add of an object that the pool does not have, below 2^32 objects, keeps the pool sound, and the
-- object is in use.
pub add-IsPool :
    (p : ObjPool) (c : ℕ)
    → IsPool p
    → ((i : ℕ) → get_elem? p.obj_vec i ≢ some c)
    → length p.obj_vec < 2 ^ 32
    → IsPool (add (some c) p) × IsUsed (add (some c) p) c
unfolding add
add-IsPool p c h n l =
    let m = length p.obj_vec in
    let z : count m p.used_idx_set ≡ 0 = ground (arith, h.places m) in
    let ins = λ (j : ℕ). count-set_insert j m p.used_idx_set z in
    let own : one m m ≡ 1 = ground arith in
    (
      record {
        places = λ j. ground (arith, h.places j, ins j, length-append p.obj_vec (c ∷ []));
        indexed = λ i d e. ground (arith, get_elem-append p.obj_vec i c, e, n i, h.indexed i d);
        small = omega (arith, length-append p.obj_vec (c ∷ []));
      },
      (ground (arith, get_elem-append p.obj_vec m c), ground (arith, ins m, z, own)),
    )

-- release of an object that is in use keeps the pool sound, and the object is free.
pub release-IsPool :
    (p : ObjPool) (c : ℕ)
    → IsPool p
    → IsUsed p c
    → IsPool (release (some c) p) × IsFree (release (some c) p) c
unfolding release
release-IsPool p c h (e, u) =
    let i = p.idx c in
    let l = get_elem_lt p.obj_vec i c e in
    let z : count i p.free_idx_set ≡ 0 = ground (arith, h.places i, u) in
    let has : set_has i p.used_idx_set ≡ true = ground (arith, set_has-count i p.used_idx_set, u) in
    let ins = λ (j : ℕ). count-set_insert j i p.free_idx_set z in
    let del = λ (j : ℕ). count-set_erase j i p.used_idx_set has in
    let own : one i i ≡ 1 = ground arith in
    (
      record {
        places = λ j. omega (arith, h.places j, ins j, del j);
        indexed = h.indexed;
        small = h.small;
      },
      (e, omega (arith, ins i, z, own)),
    )
