-- ===== src/Args/Pairs.antt =====
-- `parse_cookies` over cookies that are written out.
use is.Prelude.{
  ℕ, suc, ◌+◌, ◌-◌, ◌^◌, ◌<◌, ◌≤◌, ◌≡◌, refl, ap, ◌∙◌, List, [], ◌∷◌, ◌++◌, append_assoc, map,
  Option, none, some, false, ◌==◌, length, length-append, arith, Bool-cases, inl, inr,
}
use is.Args.Parse.{Arg, arg}
use is.Args.Cookies.{
  in_del_set, skip, trim, cookie, Scan, scan, cookie_round, cookie_loop, next_cookie, parse_cookies,
}
use is.Args.Steps.{
  AllChars, ends_key, ends_value, no_start, between-append, over_key, over_value, round_equals,
  round_end, round_more,
}

-- A cookie with a name that is not empty, and a value that is absent or not empty.
pub record Cookie : Type 0 where
  pub first : ℕ
  pub more : List ℕ
  pub value : Option (ℕ × List ℕ)

abbrev pub value_text : Option (ℕ × List ℕ) → List ℕ → List ℕ
value_text none rest = rest
value_text (some (v, vs)) rest = b'=' ∷ v ∷ (vs ++ rest)

-- The cookies as a client writes them, "a=b; c; d=e".
unfoldable pub print_more : List Cookie → List ℕ
print_more [] = []
print_more (c ∷ cs) = b';' ∷ 32 ∷ c.first ∷ (c.more ++ value_text c.value (print_more cs))

abbrev pub print_cookies : Cookie → List Cookie → List ℕ
print_cookies c cs = c.first ∷ (c.more ++ value_text c.value (print_more cs))

abbrev IsCookieValue : Option (ℕ × List ℕ) → Type 0
IsCookieValue none = Unit {0}
IsCookieValue (some (v, vs)) =
    (no_start v ≡ false) × AllChars ends_value vs × (trim (v ∷ vs) ≡ v ∷ vs)

-- No byte is NUL. The name begins with no delimiter and holds no '=' and no ';'; the value begins with
-- no delimiter, holds no ';' and does not end with a space.
pub record IsCookie (c : Cookie) : Type 0 where
  pub first : no_start c.first ≡ false
  pub more : AllChars ends_key c.more
  pub value : IsCookieValue c.value

abbrev pub AllCookies : List Cookie → Type 0
AllCookies [] = Unit {0}
AllCookies (c ∷ cs) = IsCookie c × AllCookies cs

abbrev pub cookie_arg : Cookie → Arg
cookie_arg c = elim c.value as (λ x. Arg) [
  | none ↦ arg (some (c.first ∷ c.more)) none
  | some (v, vs) ↦ arg (some (c.first ∷ c.more)) (some (v ∷ vs))
]

module _ (k : ℕ) (ks : List ℕ) where
  -- Where the loop stands at the end of a cookie.
  abbrev ended : Option (ℕ × List ℕ) → List ℕ → Scan
  ended none t = scan (k ∷ (ks ++ t)) none [] t
  ended (some (v, vs)) t =
      scan (k ∷ (ks ++ (b'=' ∷ v ∷ (vs ++ t)))) (some (v ∷ (vs ++ t))) (b'=' ∷ v ∷ (vs ++ t)) t

  -- The rounds that a value takes.
  abbrev rounds : Option (ℕ × List ℕ) → ℕ
  rounds none = 0
  rounds (some (v, vs)) = 1 + length vs

  to_end :
      (val : Option (ℕ × List ℕ)) (t : List ℕ) (out : List Arg) (m n : ℕ)
      → AllChars ends_key ks
      → IsCookieValue val
      → m ≡ length ks + (rounds val + n)
      → cookie_loop m
          (out, some (scan (k ∷ (ks ++ value_text val t)) none [] (ks ++ value_text val t)))
        ≡ cookie_loop n (out, some (ended val t))
  unfolding cookie_loop
  to_end none t out m n h w e = over_key ks t (k ∷ (ks ++ t)) [] out m n h (omega (arith, e))
  to_end (some (v, vs)) t out m n h (w, ws, wt) e =
      let u = b'=' ∷ v ∷ (vs ++ t) in
      let key = k ∷ (ks ++ u) in
      over_key ks u key [] out m (suc (length vs + n)) h (omega (arith, e))
      ∙ ap (cookie_loop (length vs + n)) (round_equals v (vs ++ t) key [] out w)
      ∙ over_value vs t key (v ∷ (vs ++ t)) u out (length vs + n) n ws refl

  cookie-ended :
      (val : Option (ℕ × List ℕ)) (t : List ℕ)
      → IsCookieValue val
      → cookie (ended val t).key (ended val t).val (ended val t).keyend t
        ≡ cookie_arg (record { first = k; more = ks; value = val })
  cookie-ended none t w = ap (λ x. arg (some x) none) (between-append (k ∷ ks) t)
  cookie-ended (some (v, vs)) t (w, ws, wt) =
      rw (between-append (k ∷ ks) (b'=' ∷ v ∷ (vs ++ t)), between-append (v ∷ vs) t, wt) refl

  ended_p : (val : Option (ℕ × List ℕ)) (t : List ℕ) → (ended val t).p ≡ t
  ended_p none t = refl
  ended_p (some (v, vs)) t = refl

  length-value_text :
      (val : Option (ℕ × List ℕ)) (t : List ℕ) → rounds val + length t ≤ length (value_text val t)
  length-value_text none t = omega arith
  length-value_text (some (v, vs)) t = omega (arith, length-append vs t)

  -- The round at the end of a cookie, and what it adds.
  to_round :
      (val : Option (ℕ × List ℕ)) (t : List ℕ) (out : List Arg) (m : ℕ)
      → AllChars ends_key ks
      → IsCookieValue val
      → length (k ∷ (ks ++ value_text val t)) ≤ m
      → (n : ℕ) × (length t ≤ n)
        × (cookie_loop m
              (out, some (scan (k ∷ (ks ++ value_text val t)) none [] (ks ++ value_text val t)))
            ≡ cookie_loop n
                (cookie_round out (ended val t).key (ended val t).val (ended val t).keyend t))
  unfolding cookie_loop
  to_round val t out m h w l =
      let n = m - (length ks + (rounds val + 1)) in
      let le = length-append ks (value_text val t) in
      let lv = length-value_text val t in
      (
        n,
        omega (arith, l, le, lv),
        to_end val t out m (suc n) h w (omega (arith, l, le, lv))
            ∙ ap
                (λ p.
                  cookie_loop n
                    (cookie_round out (ended val t).key (ended val t).val (ended val t).keyend p))
                (ended_p val t),
      )

cookie_loop-all :
    (c : Cookie) (cs : List Cookie) (out : List Arg) (m : ℕ)
    → AllCookies (c ∷ cs)
    → length (print_cookies c cs) ≤ m
    → cookie_loop m (
      out,
      some (scan (print_cookies c cs) none [] (c.more ++ value_text c.value (print_more cs))),
    )
      ≡ some (out ++ map cookie_arg (c ∷ cs))
unfolding print_more cookie_loop
cookie_loop-all c [] out m (w, ws) l =
    let (n, b, e) = to_round c.first c.more c.value [] out m w.more w.value l in
    let s = ended c.first c.more c.value [] in
    e
    ∙ ap (cookie_loop n) (round_end s.key s.keyend s.val out)
    ∙ ap (λ a. some (out ++ a ∷ [])) (cookie-ended c.first c.more c.value [] w.value)
cookie_loop-all c (d ∷ cs) out m (w, ws) l =
    let t = print_more (d ∷ cs) in
    let (n, b, e) = to_round c.first c.more c.value t out m w.more w.value l in
    let s = ended c.first c.more c.value t in
    e
    ∙ ap (cookie_loop n) (
        round_more d.first (d.more ++ value_text d.value (print_more cs)) s.key s.keyend s.val out
          ws.0.first)
    ∙ cookie_loop-all d cs (out ++ cookie s.key s.val s.keyend t ∷ []) n ws (omega (arith, b))
    ∙ ap some (append_assoc out (cookie s.key s.val s.keyend t ∷ []) (map cookie_arg (d ∷ cs)))
    ∙ ap (λ a. some (out ++ a ∷ map cookie_arg (d ∷ cs)))
        (cookie-ended c.first c.more c.value t w.value)

no_start_lem : (c : ℕ) → no_start c ≡ false → ((c == 0) ≡ false) × (in_del_set c ≡ false)
no_start_lem c h = elim (Bool-cases (c == 0)) [ inl y ↦ cc | inr y ↦ (y, ground (arith, h, y)) ]

-- Cookies without a NUL, whose names begin with no delimiter and hold no '=' and no ';', and whose
-- values, where they have one, begin with no delimiter, hold no ';' and do not end with a space, are written out in
-- fewer than 2^31 bytes: `parse_cookies` adds exactly these, in order.
pub parse_cookies-print :
    (c : Cookie) (cs : List Cookie) (out : List Arg)
    → AllCookies (c ∷ cs)
    → length (print_cookies c cs) < 2 ^ 31
    → parse_cookies out (print_cookies c cs) ≡ some (out ++ map cookie_arg (c ∷ cs))
unfolding parse_cookies next_cookie skip
parse_cookies-print c cs out (w, ws) fits =
    let (not_nul, no_del) = no_start_lem c.first w.first in
    rw (no_del, not_nul)
      (cookie_loop-all c cs out (suc (length (print_cookies c cs))) (w, ws) (omega (arith, fits)))
