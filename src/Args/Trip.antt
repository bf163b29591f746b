-- ===== src/Args/Trip.antt =====
-- `parse_args` on the print of a list of arguments.
use is.Prelude.{
  ℕ, zero, suc, ◌*◌, ◌^◌, ◌<◌, ◌≤◌, ◌≡◌, ◌≢◌, ◌∙◌, refl, sym, ap, subst, List, [], ◌∷◌, ◌++◌, map,
  Option, none, some, Bool, true, false, ◌==◌, arith, length, drop, Bool-cases, inl, inr,
  length-append, append_assoc, append-nil, ◌⊎◌,
}
use is.Uri.Codec.{safe, encode_loop}
use is.Uri.Trip.{Bytes, Encoded, encode_loop-Encoded}
use is.Args.Decode.{urldecode_ns, urldecode_ns-encode_loop, encode_loop-cons}
use is.Args.Parse.{Arg, arg, span, is_sep, is_key_end, decoded, at_sep, parse_loop, parse_args}
use is.Args.Rounds.{length-drop_one, parse_key, parse_open, parse_value}

-- An argument with a key that is not empty, and a value that is absent or not empty.
pub record Given : Type 0 where
  pub first : ℕ
  pub more : List ℕ
  pub value : Option (ℕ × List ℕ)

abbrev pub Value : Type 0
Value = Option (ℕ × List ℕ)

abbrev pub IsValue : Value → Type 0
IsValue none = Unit {0}
IsValue (some (c, cs)) = Bytes (c ∷ cs)

abbrev pub AllGiven : List Given → Type 0
AllGiven [] = Unit {0}
AllGiven (g ∷ gs) = (Bytes (g.first ∷ g.more) × IsValue g.value) × AllGiven gs

abbrev pub value_arg : Value → Option (List ℕ)
value_arg none = none
value_arg (some (c, cs)) = some (c ∷ cs)

abbrev pub given_arg : Given → Arg
given_arg g = arg (some (g.first ∷ g.more)) (value_arg g.value)

abbrev pub print_value : Value → List ℕ → List ℕ
print_value none rest = rest
print_value (some (c, cs)) rest = b'=' ∷ (encode_loop (c ∷ cs) ++ rest)

-- The arguments as a client writes them, with the separator before each, and between them.
unfoldable pub print_all : ℕ → List Given → List ℕ
print_all sep [] = []
print_all sep (g ∷ gs) =
    sep ∷ encode_loop (g.first ∷ g.more) ++ print_value g.value (print_all sep gs)

unfoldable pub print : ℕ → List Given → List ℕ
unfolding print_all
print sep gs = drop 1 (print_all sep gs)

-- A separator that no encoded text contains.
pub record IsSep (sep : ℕ) : Type 0 where
  pub not_safe : safe sep ≡ false
  pub not_percent : sep ≢ b'%'
  pub not_equals : sep ≢ b'='

-- An encoded key or value.
record Raw (k : List ℕ) : Type 0 where
  d : ℕ
  ds : List ℕ
  eq : encode_loop k ≡ d ∷ ds
  enc : Encoded (d ∷ ds)
  dec : (bad : ℕ) → decoded (d ∷ ds) bad ≡ (some k, bad)

decoded_lem :
    (raw k : List ℕ) (bad : ℕ) → urldecode_ns raw ≡ some (k, 0) → decoded raw bad ≡ (some k, bad)
unfolding decoded
decoded_lem raw k bad e = ground (arith, e)

no_equals : (c : ℕ) → (safe c ≡ true) ⊎ (c ≡ b'%') → (c == b'=') ≡ false
unfolding safe
no_equals c (inl h) = ground arith
no_equals c (inr h) = ground arith

encode_loop-Raw : (c : ℕ) (cs : List ℕ) → Bytes (c ∷ cs) → Raw (c ∷ cs)
encode_loop-Raw c cs h =
    let (d, ds, e) = encode_loop-cons c cs in
    record {
      d = d;
      ds = ds;
      eq = e;
      enc = subst Encoded e (encode_loop-Encoded (c ∷ cs) h);
      dec = λ bad.
          decoded_lem (d ∷ ds) (c ∷ cs) bad
            (ap urldecode_ns (sym e) ∙ urldecode_ns-encode_loop c cs h);
    }

span-Encoded :
    (stop : ℕ → Bool) (xs t : List ℕ)
    → ((c : ℕ) → (safe c ≡ true) ⊎ (c ≡ b'%') → stop c ≡ false)
    → Encoded xs
    → span stop t ≡ ([], t)
    → span stop (xs ++ t) ≡ (xs, t)
unfolding span
span-Encoded stop [] t ok h e = e
span-Encoded stop (c ∷ xs) t ok (h, hs) e = rw (ok c h, span-Encoded stop xs t ok hs e)

module _ (sep : ℕ) (s : IsSep sep) where
  no_sep : (c : ℕ) → (safe c ≡ true) ⊎ (c ≡ b'%') → is_sep sep c ≡ false
  no_sep c (inl e) = elim (Bool-cases (c == sep)) [
    | inl t ↦ (let same : c ≡ sep = ground arith in cc (e, s.not_safe, same))
    | inr f ↦ f
  ]
  no_sep c (inr e) = ground (arith, s.not_percent)

  no_key_end : (c : ℕ) → (safe c ≡ true) ⊎ (c ≡ b'%') → is_key_end sep c ≡ false
  no_key_end c h = rw (no_equals c h, no_sep c h)

  module _ (fuel bad : ℕ) (k : List ℕ) (r : Raw k) (key : Option (List ℕ)) (out : List Arg)
      (t : List ℕ) where
    key_closed :
        span (is_key_end sep) t ≡ ([], t)
        → at_sep sep t ≡ true
        → parse_loop (suc fuel) sep false key bad out (encode_loop k ++ t)
          ≡ parse_loop fuel sep false none bad (out ++ arg (some k) none ∷ []) (drop 1 t)
    key_closed e a = rw r.eq (
        parse_key fuel sep bad bad r.d key (some k) out (r.ds ++ t) (r.d ∷ r.ds) t
          (no_sep r.d r.enc.0) (span-Encoded (is_key_end sep) (r.d ∷ r.ds) t no_key_end r.enc e)
          (r.dec bad) a)

    key_open :
        span (is_key_end sep) t ≡ ([], t)
        → at_sep sep t ≡ false
        → parse_loop (suc fuel) sep false key bad out (encode_loop k ++ t)
          ≡ parse_loop fuel sep true (some k) bad out (drop 1 t)
    key_open e a = rw r.eq (
        parse_open fuel sep bad bad r.d key (some k) out (r.ds ++ t) (r.d ∷ r.ds) t
          (no_sep r.d r.enc.0) (span-Encoded (is_key_end sep) (r.d ∷ r.ds) t no_key_end r.enc e)
          (r.dec bad) a)

    value_closed :
        span (is_sep sep) t ≡ ([], t)
        → parse_loop (suc fuel) sep true key bad out (encode_loop k ++ t)
          ≡ parse_loop fuel sep false none bad (out ++ arg key (some k) ∷ []) (drop 1 t)
    value_closed e = rw r.eq (
        parse_value fuel sep bad bad r.d key (some k) out (r.ds ++ t) (r.d ∷ r.ds) t
          (span-Encoded (is_sep sep) (r.d ∷ r.ds) t no_sep r.enc e) (r.dec bad))

  -- What is left begins with the separator, or is empty.
  span-print_all :
      (stop : ℕ → Bool) (gs : List Given)
      → stop sep ≡ true
      → span stop (print_all sep gs) ≡ ([], print_all sep gs)
  unfolding span print_all
  span-print_all stop [] e = refl
  span-print_all stop (g ∷ gs) e = rw e

  is_sep_self : is_sep sep sep ≡ true
  is_sep_self = ground arith

  key_end_sep : is_key_end sep sep ≡ true
  key_end_sep = ground arith

  abbrev Parses : List Given → Type 0
  Parses gs =
      (fuel bad : ℕ) (out : List Arg)
      → length (drop 1 (print_all sep gs)) ≤ fuel
      → parse_loop fuel sep false none bad out (drop 1 (print_all sep gs))
        ≡ some (out ++ map given_arg gs, bad)

  -- One argument: its key alone, or with a value.
  module _ (k : List ℕ) (r : Raw k) (bad : ℕ) (out : List Arg) where
    parse_key_only :
        (fuel : ℕ) (gs : List Given)
        → Parses gs
        → length (encode_loop k ++ print_all sep gs) ≤ suc fuel
        → parse_loop (suc fuel) sep false none bad out (encode_loop k ++ print_all sep gs)
          ≡ some (out ++ arg (some k) none ∷ map given_arg gs, bad)
    unfolding print_all
    parse_key_only fuel [] ih l =
        key_open fuel bad k r none out [] (unfold span in refl) refl ∙ (unfold parse_loop in refl)
    parse_key_only fuel (g ∷ gs) ih l =
        key_closed fuel bad k r none out (print_all sep (g ∷ gs))
          (span-print_all (is_key_end sep) (g ∷ gs) key_end_sep) is_sep_self
        ∙ ih fuel bad (out ++ arg (some k) none ∷ [])
            (omega (arith, length-append (encode_loop k) (print_all sep (g ∷ gs)), ap length r.eq))
        ∙ ap (λ o. some (o, bad))
            (append_assoc out (arg (some k) none ∷ []) (map given_arg (g ∷ gs)))

    parse_key_value :
        (fuel : ℕ) (v : List ℕ) (u : Raw v) (gs : List Given)
        → Parses gs
        → length (encode_loop k ++ b'=' ∷ (encode_loop v ++ print_all sep gs)) ≤ suc fuel
        → parse_loop
            (suc fuel)
            sep
            false
            none
            bad
            out
            (encode_loop k ++ b'=' ∷ (encode_loop v ++ print_all sep gs))
          ≡ some (out ++ arg (some k) (some v) ∷ map given_arg gs, bad)
    parse_key_value zero v u gs ih l = absurd (
        omega (
          arith,
          length-append (encode_loop k) (b'=' ∷ (encode_loop v ++ print_all sep gs)),
          ap length r.eq,
        ))
    parse_key_value (suc fuel) v u gs ih l =
        key_open (suc fuel) bad k r none out (b'=' ∷ (encode_loop v ++ print_all sep gs))
          (unfold span in refl) (ground (arith, s.not_equals))
        ∙ value_closed fuel bad v u (some k) out (print_all sep gs)
            (span-print_all (is_sep sep) gs is_sep_self)
        ∙ ih fuel bad (out ++ arg (some k) (some v) ∷ []) (
            omega (
              arith,
              length-append (encode_loop k) (b'=' ∷ (encode_loop v ++ print_all sep gs)),
              length-append (encode_loop v) (print_all sep gs),
              ap length r.eq,
              ap length u.eq,
              length-drop_one (print_all sep gs),
            ))
        ∙ ap (λ o. some (o, bad)) (append_assoc out (arg (some k) (some v) ∷ []) (map given_arg gs))

  parse_one :
      (first : ℕ) (more : List ℕ) (v : Value) (gs : List Given)
      → Bytes (first ∷ more)
      → IsValue v
      → Parses gs
      → Parses (record { first = first; more = more; value = v } ∷ gs)
  unfolding print_all
  parse_one c cs v gs h hv ih zero bad out l = absurd (
      omega (
        arith,
        length-append (encode_loop (c ∷ cs)) (print_value v (print_all sep gs)),
        ap length (encode_loop-Raw c cs h).eq,
      ))
  parse_one c cs none gs h hv ih (suc fuel) bad out l =
      parse_key_only (c ∷ cs) (encode_loop-Raw c cs h) bad out fuel gs ih l
  parse_one c cs (some (d, ds)) gs h hv ih (suc fuel) bad out l =
      parse_key_value (c ∷ cs) (encode_loop-Raw c cs h) bad out fuel (d ∷ ds)
        (encode_loop-Raw d ds hv) gs ih l

  parse-print_all : (gs : List Given) → AllGiven gs → Parses gs
  parse-print_all [] h = λ fuel bad out l.
      unfold print_all parse_loop in ap (λ o. some (o, bad)) (sym (append-nil out))
  parse-print_all (g ∷ gs) ((hk, hv), hs) =
      parse_one g.first g.more g.value gs hk hv (parse-print_all gs hs)

parse_args_lem :
    (out : List Arg) (bad : ℕ) (buf : List ℕ) (sep : ℕ)
    → 0 < length buf
    → parse_args out bad buf sep ≡ parse_loop (length buf) sep false none 0 out buf
unfolding parse_args
parse_args_lem out bad [] sep h = absurd (omega arith)
parse_args_lem out bad (c ∷ cs) sep h = refl

pub parse_args-print_any :
    (sep bad : ℕ) (out : List Arg) (g : Given) (gs : List Given)
    → IsSep sep
    → AllGiven (g ∷ gs)
    → parse_args out bad (print sep (g ∷ gs)) sep ≡ some (out ++ map given_arg (g ∷ gs), 0)
unfolding print
parse_args-print_any sep bad out g gs s h =
    parse_args_lem out bad (drop 1 (print_all sep (g ∷ gs))) sep (
      unfold print_all in
      omega (
        arith,
        length-append (encode_loop (g.first ∷ g.more)) (print_value g.value (print_all sep gs)),
        ap length (encode_loop-Raw g.first g.more h.0.0).eq,
      ))
    ∙ parse-print_all sep s (g ∷ gs) h _ 0 out (omega arith)

-- Arguments with keys that are not empty, whose values are absent or not empty, are encoded as
-- `uri_encode` does it and written out in fewer than 2^31 / 3 bytes with any separator that is no encoded character, percent sign or equals
-- sign: `parse_args` adds exactly these arguments, in order, and counts nothing invalid.
pub parse_args-print :
    (sep bad : ℕ) (out : List Arg) (g : Given) (gs : List Given)
    → IsSep sep
    → AllGiven (g ∷ gs)
    → 3 * length (print sep (g ∷ gs)) < 2 ^ 31
    → parse_args out bad (print sep (g ∷ gs)) sep ≡ some (out ++ map given_arg (g ∷ gs), 0)
parse_args-print sep bad out g gs s h fits = parse_args-print_any sep bad out g gs s h
