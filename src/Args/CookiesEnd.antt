-- ===== src/Args/CookiesEnd.antt =====
-- The loop of `parse_cookies` ends: every round moves `i_p` on.
use is.Prelude.{
  ℕ, zero, suc, ◌≤◌, ◌<◌, ◌≡◌, refl, List, [], ◌∷◌, Option, none, some, Bool, ◌==◌, length,
  Bool-cases, inl, inr, arith,
}
use is.Args.Parse.{Arg}
use is.Args.Cookies.{
  in_valdel_set, in_del_set, skip, scan, Round, cookie_round, cookie_loop, value_start, next_cookie,
  parse_cookies,
}

-- The loop goes on with less than `n` of the text, if it does.
abbrev Shorter : ℕ → Round → Type 0
Shorter n (out, none) = Unit {0}
Shorter n (out, some s) = length s.p < n

skip-le : (del : ℕ → Bool) (cs : List ℕ) → length (skip del cs) ≤ length cs
unfolding skip
skip-le del [] = omega arith
skip-le del (c ∷ cs) = ground (arith, skip-le del cs)

next_cookie-Shorter :
    (out : List Arg) (ks : List ℕ) (n : ℕ) → length ks ≤ n → Shorter n (next_cookie out ks)
unfolding next_cookie
next_cookie-Shorter out [] n h = tt
next_cookie-Shorter out (k ∷ ks) n h = elim (Bool-cases (k == 0)) [
  | inl y ↦ rw y tt
  | inr y ↦ rw y (omega (arith, h))
]

value_start-Shorter :
    (key keyend : List ℕ) (out : List Arg) (ds : List ℕ) (n : ℕ)
    → length ds ≤ n
    → Shorter n (value_start key keyend out ds)
unfolding value_start
value_start-Shorter key keyend out [] n h = tt
value_start-Shorter key keyend out (d ∷ ds) n h = elim (Bool-cases (d == 0)) [
  | inl x ↦ rw x tt
  | inr x ↦ rw x (elim (Bool-cases (d == b';')) [
    | inl y ↦
        rw y
          (next_cookie-Shorter _ (skip in_del_set ds) n (omega (arith, h, skip-le in_del_set ds)))
    | inr y ↦ rw y (omega (arith, h))
  ])
]

cookie_round-Shorter :
    (out : List Arg) (key keyend : List ℕ) (val : Option (List ℕ)) (p : List ℕ)
    → Shorter (length p) (cookie_round out key val keyend p)
unfolding cookie_round
cookie_round-Shorter out key keyend val [] = tt
cookie_round-Shorter out key keyend val (c ∷ cs) = elim (Bool-cases (c == 0)) [
  | inl x ↦ rw x tt
  | inr x ↦ rw x (elim (Bool-cases (c == b'=')) [
    | inl y ↦ rw y (at_equals val)
    | inr y ↦ rw y (elim (Bool-cases (c == b';')) [
      | inl z ↦ rw z (
          next_cookie-Shorter _ (skip in_del_set cs) (suc (length cs))
            (omega (arith, skip-le in_del_set cs)))
      | inr z ↦ rw z (omega arith)
    ])
  ])
]
  where
    at_equals :
        (v : Option (List ℕ))
        → Shorter (suc (length cs)) (elim v as (λ x. Round) [
          | some w ↦ (out, some (scan key (some w) keyend cs))
          | none ↦ value_start key (c ∷ cs) out (skip in_valdel_set cs)
        ])
    at_equals none =
        value_start-Shorter key (c ∷ cs) out (skip in_valdel_set cs) (suc (length cs))
          (omega (arith, skip-le in_valdel_set cs))
    at_equals (some w) = omega arith

cookie_loop-ends :
    (fuel : ℕ) (r : Round) → Shorter fuel r → (out : List Arg) × (cookie_loop fuel r ≡ some out)
unfolding cookie_loop
cookie_loop-ends fuel (out, none) h = (out, refl)
cookie_loop-ends zero (out, some s) h = absurd (omega (arith, h))
cookie_loop-ends (suc fuel) (out, some s) h =
    cookie_loop-ends fuel (cookie_round out s.key s.val s.keyend s.p) (
      Shorter_le (length s.p) fuel (cookie_round out s.key s.val s.keyend s.p) (omega (arith, h))
        (cookie_round-Shorter out s.key s.keyend s.val s.p))
  where
    Shorter_le : (m n : ℕ) (r : Round) → m ≤ n → Shorter m r → Shorter n r
    Shorter_le m n (out, none) l k = tt
    Shorter_le m n (out, some s) l k = omega (arith, l, k)

-- On every text `parse_cookies` returns.
parse_cookies-ends :
    (out : List Arg) (buf : List ℕ) → (args : List Arg) × (parse_cookies out buf ≡ some args)
unfolding parse_cookies
parse_cookies-ends out buf =
    cookie_loop-ends (suc (length buf)) (next_cookie out (skip in_del_set buf)) (
      next_cookie-Shorter out (skip in_del_set buf) (suc (length buf))
        (omega (arith, skip-le in_del_set buf)))
