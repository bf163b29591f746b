-- ===== src/Uri/Trip.antt =====
-- What `uri_decode` and `uri_encode` do to each other's results, and how long these are.
use is.Prelude.{
  ℕ, ◌*◌, ◌/◌, ◌%◌, ◌^◌, ◌<◌, ◌≤◌, ◌≡◌, refl, ap, ◌∙◌, List, [], ◌∷◌, ◌++◌, map, none, some, true,
  arith, length, Bool-cases, Option-cases, inl, inr, ◌≢◌, ◌⊎◌, take_all,
}
use is.Uri.Codec.{
  hex2dec, safe, dec2hex, escaped, plain, decode_loop, encode_loop, uri_decode, uri_encode,
}

abbrev pub Bytes : List ℕ → Type 0
Bytes [] = Unit {0}
Bytes (c ∷ cs) = (c < 256) × Bytes cs

hex2dec-dec2hex : (d : ℕ) → d < 16 → hex2dec (dec2hex d) ≡ some d
unfolding hex2dec dec2hex
hex2dec-dec2hex d h = ground arith

escaped-dec2hex : (c : ℕ) → c < 256 → escaped b'%' (dec2hex (c / 16)) (dec2hex (c % 16)) ≡ some c
unfolding escaped
escaped-dec2hex c h =
    rw (hex2dec-dec2hex (c / 16) (omega arith), hex2dec-dec2hex (c % 16) (omega arith))
      (ap some (omega arith))

escaped-safe : (c d e : ℕ) → safe c ≡ true → escaped c d e ≡ none
unfolding safe escaped
escaped-safe c d e h = ground arith

plain-safe : (c : ℕ) → safe c ≡ true → plain c ≡ c
unfolding safe plain
plain-safe c h = ground arith

decode_loop-plain :
    (c d e : ℕ) (cs : List ℕ)
    → escaped c d e ≡ none
    → decode_loop (c ∷ d ∷ e ∷ cs) ≡ plain c ∷ decode_loop (d ∷ e ∷ cs)
unfolding decode_loop
decode_loop-plain c d e cs h = ground (arith, h)

decode_loop-escaped :
    (c d e x : ℕ) (cs : List ℕ)
    → escaped c d e ≡ some x
    → decode_loop (c ∷ d ∷ e ∷ cs) ≡ x ∷ decode_loop cs
unfolding decode_loop
decode_loop-escaped c d e x cs h = ground (arith, h)

decode_loop-safe : (c : ℕ) (cs : List ℕ) → safe c ≡ true → decode_loop (c ∷ cs) ≡ c ∷ decode_loop cs
unfolding decode_loop
decode_loop-safe c [] h = refl
decode_loop-safe c (d ∷ []) h = refl
decode_loop-safe c (d ∷ (e ∷ cs)) h =
    decode_loop-plain c d e cs (escaped-safe c d e h)
    ∙ ap (λ p. p ∷ decode_loop (d ∷ e ∷ cs)) (plain-safe c h)

decode_loop-encode_loop : (cs : List ℕ) → Bytes cs → decode_loop (encode_loop cs) ≡ cs
unfolding encode_loop
decode_loop-encode_loop [] h = unfold decode_loop in refl
decode_loop-encode_loop (c ∷ cs) (h, hs) = elim (Bool-cases (safe c)) [
  | inl e ↦
      rw e (decode_loop-safe c (encode_loop cs) e ∙ ap (λ t. c ∷ t) (decode_loop-encode_loop cs hs))
  | inr e ↦ rw e (
      decode_loop-escaped b'%' (dec2hex (c / 16)) (dec2hex (c % 16)) c (encode_loop cs)
        (escaped-dec2hex c h)
      ∙ ap (λ t. c ∷ t) (decode_loop-encode_loop cs hs))
]

abbrev pub Encoded : List ℕ → Type 0
Encoded [] = Unit {0}
Encoded (c ∷ cs) = ((safe c ≡ true) ⊎ (c ≡ b'%')) × Encoded cs

dec2hex-safe : (d : ℕ) → d < 16 → safe (dec2hex d) ≡ true
unfolding safe dec2hex
dec2hex-safe d h = ground arith

-- The encoding of a string of bytes is made of letters, digits and percent signs.
pub encode_loop-Encoded : (cs : List ℕ) → Bytes cs → Encoded (encode_loop cs)
unfolding encode_loop
encode_loop-Encoded [] h = tt
encode_loop-Encoded (c ∷ cs) (h, hs) = elim (Bool-cases (safe c)) [
  | inl e ↦ rw e (inl e, encode_loop-Encoded cs hs)
  | inr e ↦ rw e (
    inr refl,
    (
      inl (dec2hex-safe (c / 16) (omega arith)),
      (inl (dec2hex-safe (c % 16) (omega arith)), encode_loop-Encoded cs hs),
    ),
  )
]

-- The encoding of a string is at most three times as long, the size of its buffer.
length-encode_loop : (cs : List ℕ) → length (encode_loop cs) ≤ length cs * 3
unfolding encode_loop
length-encode_loop [] = omega arith
length-encode_loop (c ∷ cs) = elim (Bool-cases (safe c)) [
  | inl e ↦ rw e (omega (arith, length-encode_loop cs))
  | inr e ↦ rw e (omega (arith, length-encode_loop cs))
]

-- What a string is decoded to is no longer than the string, the size of its buffer.
length-decode_loop : (cs : List ℕ) → length (decode_loop cs) ≤ length cs
unfolding decode_loop
length-decode_loop [] = omega arith
length-decode_loop (c ∷ []) = omega arith
length-decode_loop (c ∷ (d ∷ [])) = omega arith
length-decode_loop (c ∷ (d ∷ (e ∷ cs))) = elim (Option-cases (escaped c d e)) [
  | inl h ↦ omega (arith, ap length (decode_loop-plain c d e cs h), length-decode_loop (d ∷ e ∷ cs))
  | inr (x, h) ↦ omega (arith, ap length (decode_loop-escaped c d e x cs h), length-decode_loop cs)
]

-- A text without a percent sign.
abbrev pub NoEscape : List ℕ → Type 0
NoEscape [] = Unit {0}
NoEscape (c ∷ cs) = (c ≢ b'%') × NoEscape cs

escaped-none : (c d e : ℕ) → c ≢ b'%' → escaped c d e ≡ none
unfolding escaped
escaped-none c d e h = ground arith

decoded_tail :
    (cs : List ℕ) (d e : ℕ)
    → NoEscape cs
    → decode_loop (cs ++ d ∷ e ∷ []) ≡ map plain cs ++ d ∷ e ∷ []
unfolding decode_loop
decoded_tail [] d e h = refl
decoded_tail (c ∷ []) d e (h, hs) = decode_loop-plain c d e [] (escaped-none c d e h)
decoded_tail (c ∷ (x ∷ [])) d e (h, hs) =
    decode_loop-plain c x d (e ∷ []) (escaped-none c x d h)
    ∙ ap (λ t. plain c ∷ t) (decoded_tail (x ∷ []) d e hs)
decoded_tail (c ∷ (x ∷ (y ∷ cs))) d e (h, hs) =
    decode_loop-plain c x y (cs ++ d ∷ e ∷ []) (escaped-none c x y h)
    ∙ ap (λ t. plain c ∷ t) (decoded_tail (x ∷ y ∷ cs) d e hs)

uri_decode_lem : (cs : List ℕ) → length cs < 2 ^ 31 → uri_decode cs ≡ some (decode_loop cs)
unfolding uri_decode
uri_decode_lem cs h =
    let n : length cs % 2 ^ 32 ≡ length cs = omega (arith, h) in
    rw n (ground (arith, h, take_all (length cs) cs (omega arith)))

uri_encode_lem : (cs : List ℕ) → 3 * length cs < 2 ^ 31 → uri_encode cs ≡ some (encode_loop cs)
unfolding uri_encode
uri_encode_lem cs h =
    let n : length cs % 2 ^ 32 ≡ length cs = omega (arith, h) in
    rw n (ground (arith, h, take_all (length cs) cs (omega arith)))

-- `uri_encode` encodes every string of fewer than 2^31 / 3 bytes, and `uri_decode` restores it.
pub uri_decode-uri_encode :
    (cs : List ℕ)
    → Bytes cs
    → 3 * length cs < 2 ^ 31
    → (text : List ℕ) × (uri_encode cs ≡ some text) × (uri_decode text ≡ some cs)
uri_decode-uri_encode cs h fits = (
  encode_loop cs,
  uri_encode_lem cs fits,
  uri_decode_lem (encode_loop cs) (omega (arith, length-encode_loop cs, fits))
      ∙ ap some (decode_loop-encode_loop cs h),
)

-- In a text of two or more characters and fewer than 2^31 without a percent sign in front of its last two
-- characters, `uri_decode` turns every `+` in front of these into a space, and leaves the last two characters as
-- they are.
pub uri_decode-tail :
    (cs : List ℕ) (d e : ℕ)
    → NoEscape cs
    → length (cs ++ d ∷ e ∷ []) < 2 ^ 31
    → uri_decode (cs ++ d ∷ e ∷ []) ≡ some (map plain cs ++ d ∷ e ∷ [])
uri_decode-tail cs d e h fits =
    uri_decode_lem (cs ++ d ∷ e ∷ []) fits ∙ ap some (decoded_tail cs d e h)
