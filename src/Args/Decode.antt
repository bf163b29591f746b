-- ===== src/Args/Decode.antt =====
-- `x2c` and `urldecode_ns` of src/support/string_util.cc. The function decodes its copy of the
-- buffer in place; it writes behind the place that it reads, so what it reads is the original.
use is.Prelude.{
  ℕ, suc, ◌+◌, ◌-◌, ◌*◌, ◌/◌, ◌%◌, ◌<◌, ◌≡◌, ◌∙◌, refl, sym, ap, List, [], ◌∷◌, Option, none, some,
  Bool, true, false, ◌&&◌, ◌||◌, if◌then◌else◌, leb, ◌==◌, arith, Bool-cases, inl, inr,
}
use is.Uri.Codec.{safe, dec2hex, encode_loop}
use is.Uri.Trip.{Bytes}

-- The macro VALID_HEX.
unfoldable pub valid_hex : ℕ → Bool
valid_hex c = leb b'0' c && leb c b'9' || (leb b'a' c && leb c b'f' || leb b'A' c && leb c b'F')

-- One digit, in the arithmetic of `unsigned char`; `c & 0xdf` clears the bit 0x20.
unfoldable pub x2c_digit : ℕ → ℕ
x2c_digit c =
    if leb b'A' c then (c - c / 32 % 2 * 32 + 256 - b'A' + 10) % 256 else (c + 256 - b'0') % 256

unfoldable pub x2c : ℕ → ℕ → ℕ
unfolding x2c_digit
x2c c d = (x2c_digit c * 16 + x2c_digit d) % 256

unfoldable pub unescaped : ℕ → ℕ
unescaped c = if c == b'+' then b' ' else c

-- One more character in front, and one more or no more invalid one.
abbrev pub emit : ℕ → Bool → List ℕ × ℕ → List ℕ × ℕ
emit c true (out, bad) = (c ∷ out, suc bad)
emit c false (out, bad) = (c ∷ out, bad)

-- The decoded bytes, and the number of percent signs that start no encoding.
unfoldable pub decode_loop : List ℕ → List ℕ × ℕ
unfolding valid_hex x2c unescaped
decode_loop [] = ([], 0)
decode_loop (c ∷ []) = emit (unescaped c) (c == b'%') ([], 0)
decode_loop (c ∷ (d ∷ [])) = emit (unescaped c) (c == b'%') (decode_loop (d ∷ []))
decode_loop (c ∷ (d ∷ (e ∷ cs))) = elim (c == b'%') [
  | true ↦ elim (valid_hex d && valid_hex e) [
    | true ↦ emit (x2c d e) false (decode_loop cs)
    | false ↦ emit c true (decode_loop (d ∷ e ∷ cs))
  ]
  | false ↦ emit (unescaped c) false (decode_loop (d ∷ e ∷ cs))
]

-- `none` is STATUS_ERROR, which leaves the caller's variables as they are.
unfoldable pub urldecode_ns : List ℕ → Option (List ℕ × ℕ)
unfolding decode_loop
urldecode_ns [] = none
urldecode_ns (c ∷ cs) = some (decode_loop (c ∷ cs))

hex-dec2hex : (c d : ℕ) → c < 16 → d < 16 → (valid_hex (dec2hex c) && valid_hex (dec2hex d)) ≡ true
unfolding valid_hex dec2hex
hex-dec2hex c d h l = ground arith

x2c_digit-dec2hex : (d : ℕ) → d < 16 → x2c_digit (dec2hex d) ≡ d
unfolding x2c_digit dec2hex
x2c_digit-dec2hex d h = ground arith

x2c-dec2hex : (c : ℕ) → c < 256 → x2c (dec2hex (c / 16)) (dec2hex (c % 16)) ≡ c
unfolding x2c
x2c-dec2hex c h =
    rw (x2c_digit-dec2hex (c / 16) (omega arith), x2c_digit-dec2hex (c % 16) (omega arith))
      (omega arith)

safe-plain : (c : ℕ) → safe c ≡ true → ((c == b'%') ≡ false) × (unescaped c ≡ c)
unfolding safe unescaped
safe-plain c h = (ground arith, ground arith)

decode_loop-unescaped :
    (c : ℕ) (cs : List ℕ)
    → (c == b'%') ≡ false
    → decode_loop (c ∷ cs) ≡ emit (unescaped c) false (decode_loop cs)
unfolding decode_loop
decode_loop-unescaped c [] h = ground (arith, h)
decode_loop-unescaped c (d ∷ []) h = ground (arith, h)
decode_loop-unescaped c (d ∷ (e ∷ cs)) h = ground (arith, h)

decode_loop-x2c :
    (d e : ℕ) (cs : List ℕ)
    → (valid_hex d && valid_hex e) ≡ true
    → decode_loop (b'%' ∷ d ∷ e ∷ cs) ≡ emit (x2c d e) false (decode_loop cs)
unfolding decode_loop
decode_loop-x2c d e cs h = ground (arith, h)

decode_loop-encode_loop : (cs : List ℕ) → Bytes cs → decode_loop (encode_loop cs) ≡ (cs, 0)
unfolding encode_loop
decode_loop-encode_loop [] h = unfold decode_loop in refl
decode_loop-encode_loop (c ∷ cs) (h, hs) = elim (Bool-cases (safe c)) [
  | inl e ↦ rw e (
      decode_loop-unescaped c (encode_loop cs) (safe-plain c e).0
      ∙ ap (λ d. emit d false (decode_loop (encode_loop cs))) (safe-plain c e).1
      ∙ ap (emit c false) (decode_loop-encode_loop cs hs))
  | inr e ↦ rw e (
      decode_loop-x2c (dec2hex (c / 16)) (dec2hex (c % 16)) (encode_loop cs)
        (hex-dec2hex (c / 16) (c % 16) (omega arith) (omega arith))
      ∙ ap (λ d. emit d false (decode_loop (encode_loop cs))) (x2c-dec2hex c h)
      ∙ ap (emit c false) (decode_loop-encode_loop cs hs))
]

pub encode_loop-cons :
    (c : ℕ) (cs : List ℕ) → (d : ℕ) × (ds : List ℕ) × (encode_loop (c ∷ cs) ≡ d ∷ ds)
unfolding encode_loop
encode_loop-cons c cs = elim (Bool-cases (safe c)) [
  | inl e ↦ (c, encode_loop cs, rw e)
  | inr e ↦ (b'%', dec2hex (c / 16) ∷ dec2hex (c % 16) ∷ encode_loop cs, rw e)
]

-- `urldecode_ns` restores every string of bytes that `encode_loop` has encoded, and finds nothing
-- invalid in it.
pub urldecode_ns-encode_loop :
    (c : ℕ) (cs : List ℕ) → Bytes (c ∷ cs) → urldecode_ns (encode_loop (c ∷ cs)) ≡ some (c ∷ cs, 0)
unfolding urldecode_ns
urldecode_ns-encode_loop c cs h =
    let (d, ds, e) = encode_loop-cons c cs in
    ap urldecode_ns e
    ∙ ap (λ t. some (decode_loop t)) (sym e)
    ∙ ap some (decode_loop-encode_loop (c ∷ cs) h)
