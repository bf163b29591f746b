-- ===== src/Ja3/Rounds.antt =====
-- The loop of `extract_bytes` over the extensions ends, and where it reads.
use is.Prelude.{
  ℕ, zero, suc, ◌/◌, ◌≤◌, ◌≡◌, refl, sym, subst, true, false, ◌==◌, arith, Bool-cases, inl, inr,
}
use is.Ja3.State.{
  status_ok, Cur, Run, next, leave, done, fault, u8, u16, incr_ext_by, push_ext, push_curve,
  push_format,
}
use is.Ja3.Parse.{formats, curves, after_formats, extension, round, extensions}
use is.Ja3.Safe.{
  Within, Safe, Safe-bind, Any, Inside, u16-Safe, incr_ext_by-Safe, weaken, incr_same, first-Safe,
  word-Safe,
}

formats-Safe :
    (n k : ℕ) (c : Cur) (e : ℕ) → Within n c → Safe (Within n) (Inside n) (formats k (c, e))
unfolding formats
formats-Safe n zero c e w = w
formats-Safe n (suc k) c e w =
    Safe-bind (Within n) Any (Inside n) (u8 c.mem) _ (first-Safe (Within n) n c w) (λ v x.
      Safe-bind (Within n) (Inside n) (Inside n) (incr_ext_by 1 (c, e)) _ (incr_same n 1 c e w)
        (λ (d, f) y.
          formats-Safe n k (push_format v d) f (record { room = y.room; bound = y.bound })))

curves-Safe :
    (n k : ℕ) (c : Cur) (e : ℕ) → Within n c → Safe (Within n) (Inside n) (curves k (c, e))
unfolding curves
curves-Safe n zero c e w = w
curves-Safe n (suc k) c e w =
    Safe-bind (Within n) Any (Inside n) (u16 c.mem) _ (word-Safe (Within n) n c w) (λ v x.
      Safe-bind (Within n) (Inside n) (Inside n) (incr_ext_by 2 (c, e)) _ (incr_same n 2 c e w)
        (λ (d, f) y.
          curves-Safe n k (push_curve v d) f (record { room = y.room; bound = y.bound })))

after_formats-Safe :
    (n : ℕ) (c : Cur) (e : ℕ) → Within n c → Safe (Within n) (Inside n) (after_formats (c, e))
unfolding after_formats
after_formats-Safe n c e w = ground (arith, w.room, w.bound)

extension-Safe :
    (n t k : ℕ) (c : Cur) (e : ℕ) → Within n c → Safe (Within n) (Inside n) (extension t k (c, e))
unfolding extension
extension-Safe n t k c e w = elim (Bool-cases (t == 0x000b)) [
  | inl y ↦ rw y (
      Safe-bind (Within n) Any (Inside n) (u8 c.mem) _ (first-Safe (Within n) n c w) (λ v x.
        Safe-bind (Within n) (Inside n) (Inside n) (incr_ext_by 1 (c, e)) _ (incr_same n 1 c e w)
          (λ (d, f) z.
            Safe-bind (Within n) (Inside n) (Inside n) (formats v (d, f)) _ (formats-Safe n v d f z)
              (λ (d2, f2) u. after_formats-Safe n d2 f2 u))))
  | inr y ↦ elim (Bool-cases (t == 0x000a)) [
    | inl z ↦
        rw (y, z)
          (Safe-bind (Within n) Any (Inside n) (u16 c.mem) _ (word-Safe (Within n) n c w) (λ v x.
            Safe-bind (Within n) (Inside n) (Inside n) (incr_ext_by 2 (c, e)) _
              (incr_same n 2 c e w) (λ (d, f) u. curves-Safe n (v / 2) d f u)))
    | inr z ↦ elim (Bool-cases (t == 0x0015)) [
      | inl u ↦ rw (y, z, u) w
      | inr u ↦ rw (y, z, u) (incr_same n k c e w)
    ]
  ]
]

-- A round takes two bytes at least.
round-Safe :
    (n : ℕ) (c : Cur) (e : ℕ) → Within (suc n) c → Safe (Within (suc n)) (Inside n) (round (c, e))
unfolding round
round-Safe n c e w =
    let k = suc n in
    Safe-bind (Within k) Any (Inside n) (u16 c.mem) _ (word-Safe (Within k) k c w) (λ t x.
      Safe-bind (Within k) (Inside n) (Inside n) (incr_ext_by 2 (c, e)) _
        (incr_ext_by-Safe k 2 n c e w (omega arith) (omega arith))
        (λ (c1, e1) w1.
          Safe-bind (Within k) Any (Inside n) (u16 c1.mem) _
            (u16-Safe (Within k) c1.mem (omega (arith, w1.room)))
            (λ m y.
              Safe-bind (Within k) (Inside n) (Inside n) (incr_ext_by 2 (c1, e1)) _
                (weaken n (incr_ext_by 2 (c1, e1)) (incr_same n 2 c1 e1 w1))
                (λ (c2, e2) w2. weaken n (extension t m (push_ext t c2, e2)) (
                  extension-Safe n t m (push_ext t c2) e2
                    (record { room = w2.room; bound = w2.bound }))))))

pub extensions_end :
    (fuel : ℕ) (c : Cur) (e : ℕ)
    → (e == 0) ≡ true
    → extensions (suc fuel) (c, e) ≡ done status_ok c.fp
unfolding extensions
extensions_end fuel c e y = ground (arith, y)

pub extensions-round :
    (fuel : ℕ) (c : Cur) (e : ℕ) (r : Run (Cur × ℕ))
    → (e == 0) ≡ false
    → round (c, e) ≡ r
    → extensions (suc fuel) (c, e) ≡ elim r as (λ x. Run Cur) [
      | next p ↦ extensions fuel p
      | leave d ↦ done status_ok d.fp
      | done s p ↦ done s p
      | fault ↦ fault
    ]
unfolding extensions
extensions-round fuel c e r y h = ground (arith, y, h)

-- No more code follows, and there is no loop around.
abbrev pub No : Cur → Type 0
No c = ⊥

round_on :
    (fuel n : ℕ) (r : Run (Cur × ℕ))
    → Safe (Within (suc n)) (Inside n) r
    → ((d : Cur) (f : ℕ) → Within n d → Safe No No (extensions fuel (d, f)))
    → Safe No No (elim r as (λ x. Run Cur) [
      | next p ↦ extensions fuel p
      | leave d ↦ done status_ok d.fp
      | done s p ↦ done s p
      | fault ↦ fault
    ])
round_on fuel n (next (d, f)) h k = k d f h
round_on fuel n (leave c) h k = tt
round_on fuel n (done s p) h k = tt
round_on fuel n fault h k = h

pub extensions-Safe :
    (fuel n : ℕ) (c : Cur) (e : ℕ) → Within n c → n ≤ fuel → Safe No No (extensions fuel (c, e))
extensions-Safe zero n c e w l = absurd (omega (arith, w.bound))
extensions-Safe (suc fuel) zero c e w l = absurd (omega (arith, w.bound))
extensions-Safe (suc fuel) (suc n) c e w l = elim (Bool-cases (e == 0)) [
  | inl y ↦ subst (Safe No No) (sym (extensions_end fuel c e y)) tt
  | inr y ↦ subst (Safe No No) (sym (extensions-round fuel c e (round (c, e)) y refl)) (
      round_on fuel n (round (c, e)) (round-Safe n c e w)
        (λ d f v. extensions-Safe fuel n d f v (omega arith)))
]
