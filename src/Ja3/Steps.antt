-- ===== src/Ja3/Steps.antt =====
-- The steps of `extract_bytes` over bytes that the code expects: a field, a list of fields.
use is.Prelude.{
  ℕ, ◌+◌, ◌*◌, ◌^◌, ◌<◌, ◌≡◌, refl, sym, ap, ◌∙◌, List, [], ◌∷◌, ◌++◌, append_assoc, append-nil,
  length, length-append, drop-append_self, arith,
}
use is.Ja3.State.{Ja3, Cur, Run, next, ◌>>=◌, u8, u16, incr_by, incr_ext_by, sub16}
use is.Ja3.Parse.{ciphers, formats, curves}
use is.Ja3.Hello.{word, words}

-- All of the memory is left.
abbrev pub at : List ℕ → Ja3 → Cur
at mem p = record { mem = mem; left = length mem; fp = p }

pub bind-next {ℓ κ} :
    {A : Type ℓ} {B : Type κ} (r : Run A) (a : A) (f : A → Run B) (s : Run B)
    → r ≡ next a
    → f a ≡ s
    → (r >>= f) ≡ s
bind-next r a f s e h = ap (λ x. x >>= f) e ∙ h

pub incr_by-at :
    (xs t : List ℕ) (p : Ja3) → 0 < length t → incr_by (length xs) (at (xs ++ t) p) ≡ next (at t p)
unfolding incr_by
incr_by-at xs t p h = ground (arith, h, length-append xs t, drop-append_self xs t)

sub16-add : (n e : ℕ) → n + e < 2 ^ 16 → sub16 (n + e) n ≡ e
unfolding sub16
sub16-add n e h = omega (arith, h)

pub incr_ext-at :
    (xs t : List ℕ) (k n e : ℕ) (p : Ja3)
    → k ≡ length xs
    → n ≡ k + e
    → n < 2 ^ 16
    → incr_ext_by k (at (xs ++ t) p, n) ≡ next (at t p, e)
unfolding incr_ext_by
incr_ext-at xs t k n e p y z h = ground (
  arith,
  y,
  z,
  length-append xs t,
  drop-append_self xs t,
  sub16-add (length xs) e (omega (arith, y, z, h)),
)

pub u16-word : (v : ℕ) (t : List ℕ) → u16 (word v ++ t) ≡ next v
unfolding u16
u16-word v t = ap next (omega arith)

-- What a loop adds to its list.
abbrev pub add_ciphers : List ℕ → Ja3 → Ja3
add_ciphers vs p = record p { fp_cipher_list = p.fp_cipher_list ++ vs }

abbrev pub add_curves : List ℕ → Ja3 → Ja3
add_curves vs p = record p { fp_ec_curve_list = p.fp_ec_curve_list ++ vs }

abbrev pub add_formats : List ℕ → Ja3 → Ja3
add_formats vs p = record p { fp_ec_pt_format_list = p.fp_ec_pt_format_list ++ vs }

pub ciphers-at :
    (vs t : List ℕ) (p : Ja3)
    → 0 < length t
    → ciphers (length vs) (at (words vs ++ t) p) ≡ next (at t (add_ciphers vs p))
unfolding ciphers words
ciphers-at [] t p h =
    ap (λ l. next (at t (record p { fp_cipher_list = l }))) (sym (append-nil p.fp_cipher_list))
ciphers-at (v ∷ vs) t p h =
    bind-next (u16 (word v ++ (words vs ++ t))) v _ _ (u16-word v (words vs ++ t)) (
      bind-next (incr_by 2 (at (word v ++ (words vs ++ t)) p)) (at (words vs ++ t) p) _ _
        (incr_by-at (word v) (words vs ++ t) p (omega (arith, h, length-append (words vs) t)))
        (ciphers-at vs t (add_ciphers (v ∷ []) p) h
          ∙ ap (λ l. next (at t (record p { fp_cipher_list = l })))
              (append_assoc p.fp_cipher_list (v ∷ []) vs)))

pub formats-at :
    (vs t : List ℕ) (n e : ℕ) (p : Ja3)
    → n ≡ length vs + e
    → n < 2 ^ 16
    → formats (length vs) (at (vs ++ t) p, n) ≡ next (at t (add_formats vs p), e)
unfolding formats u8
formats-at [] t n e p y h =
    ap (λ x. next (at t p, x)) (omega (arith, y))
    ∙ ap (λ l. next (at t (record p { fp_ec_pt_format_list = l }), e))
        (sym (append-nil p.fp_ec_pt_format_list))
formats-at (v ∷ vs) t n e p y h =
    bind-next (incr_ext_by 1 (at (v ∷ (vs ++ t)) p, n)) (at (vs ++ t) p, length vs + e) _ _
      (incr_ext-at (v ∷ []) (vs ++ t) 1 n (length vs + e) p refl (omega (arith, y)) h)
      (formats-at vs t (length vs + e) e (add_formats (v ∷ []) p) refl (omega (arith, y, h))
        ∙ ap (λ l. next (at t (record p { fp_ec_pt_format_list = l }), e))
            (append_assoc p.fp_ec_pt_format_list (v ∷ []) vs))

pub length-words : (vs : List ℕ) → length (words vs) ≡ 2 * length vs
unfolding words
length-words [] = refl
length-words (v ∷ vs) = omega (arith, length-words vs)

pub curves-at :
    (vs t : List ℕ) (n e : ℕ) (p : Ja3)
    → n ≡ 2 * length vs + e
    → n < 2 ^ 16
    → curves (length vs) (at (words vs ++ t) p, n) ≡ next (at t (add_curves vs p), e)
unfolding curves words
curves-at [] t n e p y h =
    ap (λ x. next (at t p, x)) (omega (arith, y))
    ∙ ap (λ l. next (at t (record p { fp_ec_curve_list = l }), e))
        (sym (append-nil p.fp_ec_curve_list))
curves-at (v ∷ vs) t n e p y h =
    let m = 2 * length vs + e in
    bind-next (u16 (word v ++ (words vs ++ t))) v _ _ (u16-word v (words vs ++ t)) (
      bind-next (incr_ext_by 2 (at (word v ++ (words vs ++ t)) p, n)) (at (words vs ++ t) p, m) _ _
        (incr_ext-at (word v) (words vs ++ t) 2 n m p refl (omega (arith, y)) h)
        (curves-at vs t m e (add_curves (v ∷ []) p) refl (omega (arith, y, h))
          ∙ ap (λ l. next (at t (record p { fp_ec_curve_list = l }), e))
              (append_assoc p.fp_ec_curve_list (v ∷ []) vs)))
