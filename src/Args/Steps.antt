-- ===== src/Args/Steps.antt =====
-- The rounds of `parse_cookies`.
use is.Prelude.{
  ℕ, zero, suc, ◌+◌, ◌≡◌, refl, ap, ◌∙◌, List, [], ◌∷◌, ◌++◌, Option, none, some, Bool, false, ◌||◌,
  ◌==◌, length, take, length-append, take-append_self, arith,
}
use is.Args.Parse.{Arg}
use is.Args.Cookies.{
  in_valdel_set, in_del_set, skip, between, cookie, scan, cookie_round, cookie_loop, value_start,
  next_cookie,
}

abbrev pub AllChars : (ℕ → Bool) → List ℕ → Type 0
AllChars f [] = Unit {0}
AllChars f (c ∷ cs) = (f c ≡ false) × AllChars f cs

abbrev pub ends_key : ℕ → Bool
ends_key c = c == 0 || (c == b'=' || c == b';')

abbrev pub ends_value : ℕ → Bool
ends_value c = c == 0 || c == b';'

-- A byte that begins no name and no value.
abbrev pub no_start : ℕ → Bool
no_start c = c == 0 || in_del_set c

pub between-append : (xs t : List ℕ) → between (xs ++ t) t ≡ xs
between-append xs t =
    ap (λ n. take n (xs ++ t)) (omega (arith, length-append xs t)) ∙ take-append_self xs t

round_key :
    (c : ℕ) (t key keyend : List ℕ) (out : List Arg)
    → ends_key c ≡ false
    → cookie_round out key none keyend (c ∷ t) ≡ (out, some (scan key none keyend t))
unfolding cookie_round
round_key c t key keyend out h = ground (arith, h)

round_value :
    (c : ℕ) (t key v keyend : List ℕ) (out : List Arg)
    → ends_value c ≡ false
    → cookie_round out key (some v) keyend (c ∷ t) ≡ (out, some (scan key (some v) keyend t))
unfolding cookie_round
round_value c t key v keyend out h = ground (arith, h)

-- The rounds over characters that end neither the key nor the value.
pub over_key :
    (xs t key keyend : List ℕ) (out : List Arg) (m n : ℕ)
    → AllChars ends_key xs
    → m ≡ length xs + n
    → cookie_loop m (out, some (scan key none keyend (xs ++ t)))
      ≡ cookie_loop n (out, some (scan key none keyend t))
unfolding cookie_loop
over_key [] t key keyend out m n h e =
    ap (λ x. cookie_loop x (out, some (scan key none keyend t))) (omega (arith, e))
over_key (c ∷ xs) t key keyend out zero n h e = absurd (omega (arith, e))
over_key (c ∷ xs) t key keyend out (suc m) n (h, hs) e =
    ap (cookie_loop m) (round_key c (xs ++ t) key keyend out h)
    ∙ over_key xs t key keyend out m n hs (omega (arith, e))

pub over_value :
    (xs t key v keyend : List ℕ) (out : List Arg) (m n : ℕ)
    → AllChars ends_value xs
    → m ≡ length xs + n
    → cookie_loop m (out, some (scan key (some v) keyend (xs ++ t)))
      ≡ cookie_loop n (out, some (scan key (some v) keyend t))
unfolding cookie_loop
over_value [] t key v keyend out m n h e =
    ap (λ x. cookie_loop x (out, some (scan key (some v) keyend t))) (omega (arith, e))
over_value (c ∷ xs) t key v keyend out zero n h e = absurd (omega (arith, e))
over_value (c ∷ xs) t key v keyend out (suc m) n (h, hs) e =
    ap (cookie_loop m) (round_value c (xs ++ t) key v keyend out h)
    ∙ over_value xs t key v keyend out m n hs (omega (arith, e))

-- At the '=' of a key, where a value follows.
pub round_equals :
    (v : ℕ) (t key keyend : List ℕ) (out : List Arg)
    → no_start v ≡ false
    → cookie_round out key none keyend (b'=' ∷ v ∷ t)
      ≡ (out, some (scan key (some (v ∷ t)) (b'=' ∷ v ∷ t) t))
unfolding cookie_round value_start skip in_del_set in_valdel_set
round_equals v t key keyend out h = ground (arith, h)

-- Where a cookie ends the text, and where another one follows.
pub round_end :
    (key keyend : List ℕ) (val : Option (List ℕ)) (out : List Arg)
    → cookie_round out key val keyend [] ≡ (out ++ cookie key val keyend [] ∷ [], none)
unfolding cookie_round
round_end key keyend val out = refl

pub round_more :
    (k : ℕ) (t key keyend : List ℕ) (val : Option (List ℕ)) (out : List Arg)
    → no_start k ≡ false
    → cookie_round out key val keyend (b';' ∷ 32 ∷ k ∷ t)
      ≡ (out ++ cookie key val keyend (b';' ∷ 32 ∷ k ∷ t) ∷ [], some (scan (k ∷ t) none [] t))
unfolding cookie_round next_cookie skip in_del_set in_valdel_set
round_more k t key keyend val out h = ground (arith, h)
