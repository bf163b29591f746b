-- ===== src/Args/Cookies.antt =====
-- `parse_cookies` of src/support/string_util.cc. A pointer is the text from it on. The text
-- ends at a byte 0 or at the end of the list, where the NUL of the string is; `none` is fuel that ran out.
use is.Prelude.{
  ℕ, zero, suc, ◌-◌, List, [], ◌∷◌, ◌++◌, Option, none, some, Bool, true, false, ◌&&◌, ◌||◌,
  if◌then◌else◌, ◌==◌, length, take,
}
use is.Args.Parse.{Arg, arg}

-- `is_char_in_set` of `l_valdel_set`, and of `l_del_set`.
unfoldable pub in_valdel_set : ℕ → Bool
in_valdel_set c = c == b'=' || c == 32 || c == 9 || c == 12 || c == 13 || c == 10

unfoldable pub in_del_set : ℕ → Bool
in_del_set c = c == b';' || in_valdel_set c

unfoldable pub skip : (ℕ → Bool) → List ℕ → List ℕ
skip del [] = []
skip del (c ∷ cs) = let rest = skip del cs in if del c then rest else c ∷ cs

-- The text between two pointers.
abbrev pub between : List ℕ → List ℕ → List ℕ
between from to = take (length from - length to) from

abbrev pub no_text : List ℕ → Bool
no_text [] = true
no_text (c ∷ cs) = false

-- The loop that takes the spaces off the end of a value.
unfoldable pub trim : List ℕ → List ℕ
trim [] = []
trim (c ∷ cs) = let rest = trim cs in if no_text rest && c == 32 then [] else c ∷ rest

-- The cookie that is pushed at `i_p`.
abbrev pub cookie : List ℕ → Option (List ℕ) → List ℕ → List ℕ → Arg
cookie key none keyend p = arg (some (between key p)) none
cookie key (some val) keyend p = arg (some (between key keyend)) (some (trim (between val p)))

-- `l_key`, `l_val`, `l_keyend` and `i_p`.
pub record Scan : Type 0 where
  pub key : List ℕ
  pub val : Option (List ℕ)
  pub keyend : List ℕ
  pub p : List ℕ

abbrev pub scan : List ℕ → Option (List ℕ) → List ℕ → List ℕ → Scan
scan key val keyend p = record { key = key; val = val; keyend = keyend; p = p }

-- After a round: the cookies so far, and where the loop goes on, if it does.
abbrev pub Round : Type 0
Round = List Arg × Option Scan

-- The end of the case of ';', with the delimiters skipped.
unfoldable pub next_cookie : List Arg → List ℕ → Round
next_cookie out [] = (out, none)
next_cookie out (k ∷ ks) = if k == 0 then (out, none) else (out, some (scan (k ∷ ks) none [] ks))

-- The case of '=' for a key, with what is skipped there; a ';' falls through to its own case.
unfoldable pub value_start : List ℕ → List ℕ → List Arg → List ℕ → Round
value_start key keyend out [] = (out, none)
value_start key keyend out (d ∷ ds) =
    if d == 0
    then (out, none)
    else if d == b';'
    then next_cookie (out ++ cookie key none keyend (d ∷ ds) ∷ []) (skip in_del_set ds)
    else (out, some (scan key (some (d ∷ ds)) keyend ds))

-- The body of the loop, with the `++i_p` after it.
unfoldable pub cookie_round : List Arg → List ℕ → Option (List ℕ) → List ℕ → List ℕ → Round
cookie_round out key val keyend [] = (out ++ cookie key val keyend [] ∷ [], none)
cookie_round out key val keyend (c ∷ cs) =
    if c == 0
    then (out ++ cookie key val keyend (c ∷ cs) ∷ [], none)
    else if c == b'='
    then elim val as (λ x. Round) [
      | some v ↦ (out, some (scan key (some v) keyend cs))
      | none ↦ value_start key (c ∷ cs) out (skip in_valdel_set cs)
    ]
    else if c == b';'
    then next_cookie (out ++ cookie key val keyend (c ∷ cs) ∷ []) (skip in_del_set cs)
    else (out, some (scan key val keyend cs))

unfoldable pub cookie_loop : ℕ → Round → Option (List Arg)
cookie_loop fuel (out, none) = some out
cookie_loop zero (out, some s) = none
cookie_loop (suc fuel) (out, some s) = cookie_loop fuel (cookie_round out s.key s.val s.keyend s.p)

unfoldable pub parse_cookies : List Arg → List ℕ → Option (List Arg)
parse_cookies out buf = cookie_loop (suc (length buf)) (next_cookie out (skip in_del_set buf))
