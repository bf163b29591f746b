-- ===== src/Args/Rounds.antt =====
-- The rounds of the loop of `parse_args`, and its end.
use is.Prelude.{
  ℕ, zero, suc, ◌+◌, ◌-◌, ◌^◌, ◌<◌, ◌≤◌, ◌≡◌, ◌∙◌, refl, List, [], ◌∷◌, ◌++◌, Option, none, some,
  Bool, true, false, ◌==◌, arith, length, drop, Bool-cases, inl, inr,
}
use is.Args.Parse.{Arg, arg, span, is_sep, is_key_end, decoded, at_sep, parse_loop, parse_args}

length-span : (stop : ℕ → Bool) (cs : List ℕ) → length (span stop cs).1 ≤ length cs
unfolding span
length-span stop [] = omega arith
length-span stop (c ∷ cs) = elim (Bool-cases (stop c)) [
  | inl e ↦ rw e (omega arith)
  | inr e ↦ rw e (omega (arith, length-span stop cs))
]

pub length-drop_one : (cs : List ℕ) → length (drop 1 cs) ≡ length cs - 1
length-drop_one [] = omega arith
length-drop_one (c ∷ cs) = omega arith

span_first :
    (stop : ℕ → Bool) (c : ℕ) (cs : List ℕ) → length (drop 1 (span stop (c ∷ cs)).1) ≤ length cs
span_first stop c cs =
    omega (arith, length-span stop (c ∷ cs), length-drop_one (span stop (c ∷ cs)).1)

-- The rounds of the loop.
module _ (fuel sep bad bad' c : ℕ) (key key' : Option (List ℕ)) (out : List Arg)
    (cs raw rest : List ℕ) where
  pub parse_sep :
      (c == sep) ≡ true
      → parse_loop (suc fuel) sep false key bad out (c ∷ cs)
        ≡ parse_loop fuel sep false key bad out cs
  unfolding parse_loop
  parse_sep e = ground (arith, e)

  pub parse_key :
      (c == sep) ≡ false
      → span (is_key_end sep) (c ∷ cs) ≡ (raw, rest)
      → decoded raw bad ≡ (key', bad')
      → at_sep sep rest ≡ true
      → parse_loop (suc fuel) sep false key bad out (c ∷ cs)
        ≡ parse_loop fuel sep false none bad' (out ++ arg key' none ∷ []) (drop 1 rest)
  unfolding parse_loop
  parse_key e es ed ea = ground (arith, e, es, ed, ea)

  pub parse_open :
      (c == sep) ≡ false
      → span (is_key_end sep) (c ∷ cs) ≡ (raw, rest)
      → decoded raw bad ≡ (key', bad')
      → at_sep sep rest ≡ false
      → parse_loop (suc fuel) sep false key bad out (c ∷ cs)
        ≡ parse_loop fuel sep true key' bad' out (drop 1 rest)
  unfolding parse_loop
  parse_open e es ed ea = ground (arith, e, es, ed, ea)

  pub parse_value :
      span (is_sep sep) (c ∷ cs) ≡ (raw, rest)
      → decoded raw bad ≡ (key', bad')
      → parse_loop (suc fuel) sep true key bad out (c ∷ cs)
        ≡ parse_loop fuel sep false none bad' (out ++ arg key key' ∷ []) (drop 1 rest)
  unfolding parse_loop
  parse_value es ed = ground (arith, es, ed)

abbrev Ends : Option (List Arg × ℕ) → Type 0
Ends x = (r : List Arg × ℕ) × (x ≡ some r)

Ends-same : (x y : Option (List Arg × ℕ)) → x ≡ y → Ends y → Ends x
Ends-same x y e (r, h) = (r, e ∙ h)

parse_loop-Ends :
    (fuel sep : ℕ) (in_val : Bool) (key : Option (List ℕ)) (bad : ℕ) (out : List Arg) (cs : List ℕ)
    → length cs ≤ fuel
    → Ends (parse_loop fuel sep in_val key bad out cs)
parse_loop-Ends fuel sep v key bad out [] h = unfold parse_loop in (_, refl)
parse_loop-Ends zero sep v key bad out (c ∷ cs) h = absurd (omega arith)
parse_loop-Ends (suc fuel) sep true key bad out (c ∷ cs) h =
    let (raw, rest) = span (is_sep sep) (c ∷ cs) in
    let (val, bad') = decoded raw bad in
    Ends-same _ _ (parse_value fuel sep bad bad' c key val out cs raw rest refl refl) (
      parse_loop-Ends fuel sep false none bad' (out ++ arg key val ∷ []) (drop 1 rest)
        (omega (arith, span_first (is_sep sep) c cs)))
parse_loop-Ends (suc fuel) sep false key bad out (c ∷ cs) h = elim (Bool-cases (c == sep)) [
  | inl e ↦
      Ends-same _ _ (parse_sep fuel sep bad bad c key key out cs [] [] e)
        (parse_loop-Ends fuel sep false key bad out cs (omega arith))
  | inr e ↦
      let (raw, rest) = span (is_key_end sep) (c ∷ cs) in
      let (key', bad') = decoded raw bad in
      elim (Bool-cases (at_sep sep rest)) [
        | inl a ↦
            Ends-same _ _ (parse_key fuel sep bad bad' c key key' out cs raw rest e refl refl a) (
              parse_loop-Ends fuel sep false none bad' (out ++ arg key' none ∷ []) (drop 1 rest)
                (omega (arith, span_first (is_key_end sep) c cs)))
        | inr a ↦
            Ends-same _ _ (parse_open fuel sep bad bad' c key key' out cs raw rest e refl refl a) (
              parse_loop-Ends fuel sep true key' bad' out (drop 1 rest)
                (omega (arith, span_first (is_key_end sep) c cs)))
      ]
]

-- On every buffer of fewer than 2^32 - 1 bytes, with any separator, `parse_args` ends: the fuel is
-- enough.
pub parse_args-ends :
    (out : List Arg) (bad : ℕ) (buf : List ℕ) (sep : ℕ)
    → length buf + 1 < 2 ^ 32
    → (r : List Arg × ℕ) × (parse_args out bad buf sep ≡ some r)
unfolding parse_args
parse_args-ends out bad [] sep fits = (_, refl)
parse_args-ends out bad (c ∷ cs) sep fits =
    parse_loop-Ends (suc (length cs)) sep false none 0 out (c ∷ cs) (omega arith)
