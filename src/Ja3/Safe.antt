-- ===== src/Ja3/Safe.antt =====
-- What the parts of `extract_bytes` read: the memory behind the bytes that are left.
use is.Prelude.{
  ℕ, suc, ◌+◌, ◌≤◌, ◌<◌, List, [], ◌∷◌, leb, length, length-drop, arith, Bool-cases, inl, inr,
}
use is.Ja3.State.{Cur, Run, next, leave, done, fault, ◌>>=◌, u8, u16, incr_by, incr_ext_by}

-- The memory goes on for two bytes after those that are left, of which there are fewer than `n`.
pub record Within (n : ℕ) (c : Cur) : Type 0 where
  pub room : c.left + 2 ≤ length c.mem
  pub bound : c.left < n

-- A part of the code does not fault; where it goes on, and where it leaves a loop, the result has a
-- property.
abbrev pub Safe {ℓ} : {A : Type ℓ} → (Cur → Type 0) → (A → Type 0) → Run A → Type 0
Safe L P (next a) = P a
Safe L P (leave c) = L c
Safe L P (done s p) = Unit {0}
Safe L P fault = ⊥

pub Safe-bind {ℓ κ} :
    {A : Type ℓ} {B : Type κ} (L : Cur → Type 0) (P : A → Type 0) (Q : B → Type 0) (r : Run A)
    (f : A → Run B)
    → Safe L P r
    → ((a : A) → P a → Safe L Q (f a))
    → Safe L Q (r >>= f)
Safe-bind L P Q (next a) f h k = k a h
Safe-bind L P Q (leave c) f h k = h
Safe-bind L P Q (done s p) f h k = tt
Safe-bind L P Q fault f h k = absurd h

abbrev pub Any : ℕ → Type 0
Any x = Unit {0}

pub u8-Safe : (L : Cur → Type 0) (xs : List ℕ) → 0 < length xs → Safe L Any (u8 xs)
unfolding u8
u8-Safe L [] h = omega arith
u8-Safe L (x ∷ xs) h = tt

pub u16-Safe : (L : Cur → Type 0) (xs : List ℕ) → 1 < length xs → Safe L Any (u16 xs)
unfolding u16
u16-Safe L [] h = omega arith
u16-Safe L (x ∷ []) h = omega arith
u16-Safe L (x ∷ (y ∷ xs)) h = tt

pub incr_by-Safe :
    (L : Cur → Type 0) (n k : ℕ) (c : Cur) → Within n c → Safe L (Within n) (incr_by k c)
unfolding incr_by
incr_by-Safe L n k c w = elim (Bool-cases (leb c.left k)) [
  | inl y ↦ rw y tt
  | inr y ↦ rw y (record {
    room = ground (arith, y, w.room, length-drop k c.mem);
    bound = ground (arith, y, w.bound);
  })
]

-- With the room for the extensions, and what is left after a step of some bytes.
abbrev pub Inside : ℕ → Cur × ℕ → Type 0
Inside n (c, ext_left) = Within n c

pub incr_ext_by-Safe :
    (n k m : ℕ) (c : Cur) (e : ℕ)
    → Within n c
    → n ≤ m + k
    → m ≤ n
    → Safe (Within n) (Inside m) (incr_ext_by k (c, e))
unfolding incr_ext_by
incr_ext_by-Safe n k m c e w h l = ground (arith, w.room, w.bound, length-drop k c.mem)

-- The bound of what is left is only needed where the code goes on.
pub weaken :
    (n : ℕ) (r : Run (Cur × ℕ)) → Safe (Within n) (Inside n) r → Safe (Within (suc n)) (Inside n) r
weaken n (next p) h = h
weaken n (leave c) h = record { room = h.room; bound = omega (arith, h.bound) }
weaken n (done s p) h = tt
weaken n fault h = h

pub incr_same :
    (n k : ℕ) (c : Cur) (e : ℕ) → Within n c → Safe (Within n) (Inside n) (incr_ext_by k (c, e))
incr_same n k c e w = incr_ext_by-Safe n k n c e w (omega arith) (omega arith)

pub first-Safe : (L : Cur → Type 0) (n : ℕ) (c : Cur) → Within n c → Safe L Any (u8 c.mem)
first-Safe L n c w = u8-Safe L c.mem (omega (arith, w.room))

pub word-Safe : (L : Cur → Type 0) (n : ℕ) (c : Cur) → Within n c → Safe L Any (u16 c.mem)
word-Safe L n c w = u16-Safe L c.mem (omega (arith, w.room))
