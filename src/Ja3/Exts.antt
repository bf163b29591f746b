-- ===== src/Ja3/Exts.antt =====
-- The loop of `extract_bytes` over the extensions of a client hello.
use is.Prelude.{
  ℕ, zero, suc, ◌+◌, ◌*◌, ◌/◌, ◌^◌, ◌≤◌, ◌<◌, ◌≡◌, ◌≢◌, refl, ap, ◌∙◌, List, [], ◌∷◌, ◌++◌,
  append_assoc, ◌==◌, length, length-append, arith, Bool-cases, inl, inr,
}
use is.Ja3.State.{
  Ja3, Cur, Run, next, leave, done, fault, u8, u16, incr_ext_by, status_ok, push_ext,
}
use is.Ja3.Parse.{after_formats, extension, round, extensions, formats, curves}
use is.Ja3.Rounds.{extensions_end, extensions-round}
use is.Ja3.Hello.{
  Ext, other, groups, points, word, words, ext_body, ext_type, ext_bytes, exts_bytes, IsExt,
  AllExts, seen_one, seen,
}
use is.Ja3.Steps.{
  at, bind-next, incr_ext-at, u16-word, add_curves, add_formats, formats-at, length-words,
  curves-at,
}

-- After the point formats the code tests whether anything is left.
abbrev settle : Ext → Cur × ℕ → Run (Cur × ℕ)
settle (other t b) c = next c
settle (groups gs) c = next c
settle (points fs) c = after_formats c

abbrev add_body : Ext → Ja3 → Ja3
add_body (other t b) p = p
add_body (groups gs) p = add_curves gs p
add_body (points fs) p = add_formats fs p

extension-other :
    (t n : ℕ) (c : Cur) (e : ℕ)
    → t ≢ 0x000a
    → t ≢ 0x000b
    → t ≢ 0x0015
    → extension t n (c, e) ≡ incr_ext_by n (c, e)
unfolding extension
extension-other t n c e x y z = ground (arith, x, y, z)

pub half : (n : ℕ) → 2 * n / 2 ≡ n
half n = omega arith

extension-at :
    (x : Ext) (t : List ℕ) (n e : ℕ) (p : Ja3)
    → IsExt x
    → n ≡ length (ext_body x) + e
    → n < 2 ^ 16
    → extension (ext_type x) (length (ext_body x)) (at (ext_body x ++ t) p, n)
      ≡ settle x (at t (add_body x p), e)
unfolding extension u8
extension-at (other y b) t n e p (q, r, u, v, w) z h =
    extension-other y (length b) (at (b ++ t) p) n u v w ∙ incr_ext-at b t (length b) n e p refl z h
extension-at (groups gs) t n e p (q, r) z h =
    let m = 2 * length gs + e in
    let k = 2 * length gs in
    bind-next (u16 (word k ++ (words gs ++ t))) k _ _ (u16-word k (words gs ++ t)) (
      bind-next (incr_ext_by 2 (at (word k ++ (words gs ++ t)) p, n)) (at (words gs ++ t) p, m) _ _
        (incr_ext-at (word k) (words gs ++ t) 2 n m p refl (omega (arith, z, length-words gs)) h)
        (ap (λ j. curves j (at (words gs ++ t) p, m)) (half (length gs))
          ∙ curves-at gs t m e p refl (omega (arith, z, h, length-words gs))))
extension-at (points fs) t n e p q z h =
    bind-next (incr_ext_by 1 (at (length fs ∷ (fs ++ t)) p, n)) (at (fs ++ t) p, length fs + e) _ _
      (incr_ext-at (length fs ∷ []) (fs ++ t) 1 n (length fs + e) p refl (omega (arith, z)) h)
      (bind-next (formats (length fs) (at (fs ++ t) p, length fs + e)) (at t (add_formats fs p), e)
        _ _ (formats-at fs t (length fs + e) e p refl (omega (arith, z, h))) refl)

seen_one-add_body :
    (x : Ext) (t : List ℕ) (e : ℕ) (p : Ja3)
    → settle x (at t (add_body x (push_ext (ext_type x) (at t p)).fp), e)
      ≡ settle x (at t (seen_one x p), e)
unfolding seen_one
seen_one-add_body (other y b) t e p = refl
seen_one-add_body (groups gs) t e p = refl
seen_one-add_body (points fs) t e p = refl

round-at :
    (x : Ext) (t : List ℕ) (n e : ℕ) (p : Ja3)
    → IsExt x
    → n ≡ length (ext_bytes x) + e
    → n < 2 ^ 16
    → round (at (ext_bytes x ++ t) p, n) ≡ settle x (at t (seen_one x p), e)
unfolding round
round-at x t n e p w z h =
    let ty = ext_type x in
    let k = length (ext_body x) in
    let u = ext_body x ++ t in
    bind-next (u16 (word ty ++ (word k ++ u))) ty _ _ (u16-word ty (word k ++ u)) (
      bind-next (incr_ext_by 2 (at (word ty ++ (word k ++ u)) p, n))
        (at (word k ++ u) p, 2 + (k + e)) _ _
        (incr_ext-at (word ty) (word k ++ u) 2 n (2 + (k + e)) p refl (omega (arith, z)) h)
        (bind-next (u16 (word k ++ u)) k _ _ (u16-word k u) (
          bind-next (incr_ext_by 2 (at (word k ++ u) p, 2 + (k + e))) (at u p, k + e) _ _
            (incr_ext-at (word k) u 2 (2 + (k + e)) (k + e) p refl refl (omega (arith, z, h)))
            (extension-at x t (k + e) e (push_ext ty (at u p)).fp w refl (omega (arith, z, h))
              ∙ seen_one-add_body x t e p))))

-- What the loop does with the result of a round.
abbrev on : ℕ → Run (Cur × ℕ) → Run Cur
on fuel r = elim r [
  | next p ↦ extensions fuel p
  | leave d ↦ done status_ok d.fp
  | done s p ↦ done s p
  | fault ↦ fault
]

-- The tests after the point formats only end the loop where it ends.
on-settle :
    (fuel : ℕ) (x : Ext) (c : Cur) (e : ℕ)
    → e ≤ c.left
    → on (suc fuel) (settle x (c, e)) ≡ extensions (suc fuel) (c, e)
unfolding after_formats
on-settle fuel (other t b) c e h = refl
on-settle fuel (groups gs) c e h = refl
on-settle fuel (points fs) c e h = elim (Bool-cases (e == 0)) [
  | inl y ↦ ground (arith, y, extensions_end fuel c e y)
  | inr y ↦ ground (arith, y, h)
]

pub extensions-at :
    (xs : List Ext) (rest : List ℕ) (fuel n : ℕ) (p : Ja3)
    → AllExts xs
    → n ≡ length (exts_bytes xs)
    → n < 2 ^ 16
    → n < fuel
    → extensions fuel (at (exts_bytes xs ++ rest) p, n) ≡ done status_ok (seen xs p)
unfolding exts_bytes seen
extensions-at xs rest zero n p w z h l = absurd (omega (arith, l))
extensions-at [] rest (suc fuel) n p w z h l = extensions_end fuel (at rest p) n (ground (arith, z))
extensions-at (x ∷ xs) rest (suc zero) n p (w, ws) z h l = absurd (omega (arith, l, z))
extensions-at (x ∷ xs) rest (suc (suc fuel)) n p (w, ws) z h l =
    let t = exts_bytes xs ++ rest in
    let m = length (exts_bytes xs) in
    let e : n ≡ length (ext_bytes x) + m =
      omega (arith, z, length-append (ext_bytes x) (exts_bytes xs)) in
    ap (λ u. extensions (suc (suc fuel)) (at u p, n))
      (append_assoc (ext_bytes x) (exts_bytes xs) rest)
    ∙ extensions-round (suc fuel) (at (ext_bytes x ++ t) p) n _ (ground (arith, e))
        (round-at x t n m p w e h)
    ∙ on-settle fuel x (at t (seen_one x p)) m (omega (arith, length-append (exts_bytes xs) rest))
    ∙ extensions-at xs rest (suc fuel) m (seen_one x p) ws refl (omega (arith, h, e))
        (omega (arith, l, e))
