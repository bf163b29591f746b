-- ===== src/Uri/Codec.antt =====
-- `uri_decode` and `uri_encode` of src/support/uri.cc, on strings as lists of bytes. Both keep the length in
-- an `int`: it is the length modulo 2^32, and is negative from 2^31 on.
use is.Prelude.{
  ℕ, ◌+◌, ◌-◌, ◌*◌, ◌/◌, ◌%◌, ◌^◌, List, [], ◌∷◌, Option, none, some, Bool, ◌&&◌, ◌||◌, ◌>>=◌,
  if◌then◌else◌, ltb, leb, ◌==◌, length, take,
}

-- The table G_HEX2DEC by its ranges; `none` is the entry -1.
unfoldable pub hex2dec : ℕ → Option ℕ
hex2dec c =
    if leb b'0' c && leb c b'9'
    then some (c - b'0')
    else if leb b'A' c && leb c b'F'
    then some (c - b'A' + 10)
    else if leb b'a' c && leb c b'f'
    then some (c - b'a' + 10)
    else none

-- The table G_SAFE by its ranges.
unfoldable pub safe : ℕ → Bool
safe c = leb b'0' c && leb c b'9' || (leb b'A' c && leb c b'Z' || leb b'a' c && leb c b'z')

-- The characters of DEC2HEX.
unfoldable pub dec2hex : ℕ → ℕ
dec2hex d = if ltb d 10 then b'0' + d else b'A' + (d - 10)

-- What a `%` and the two characters behind it stand for.
unfoldable pub escaped : ℕ → ℕ → ℕ → Option ℕ
unfolding hex2dec
escaped c d e =
    if c == b'%' then (do hi ← hex2dec d; lo ← hex2dec e; some ((hi * 16 + lo) % 256)) else none

unfoldable pub plain : ℕ → ℕ
plain c = if c == b'+' then b' ' else c

-- The loops, from `pSrc` on. The first one runs while three characters are left; the second copies the rest.
unfoldable pub decode_loop : List ℕ → List ℕ
unfolding escaped plain
decode_loop [] = []
decode_loop (c ∷ []) = c ∷ []
decode_loop (c ∷ (d ∷ [])) = c ∷ d ∷ []
decode_loop (c ∷ (d ∷ (e ∷ cs))) = elim (escaped c d e) [
  | none ↦ plain c ∷ decode_loop (d ∷ e ∷ cs)
  | some x ↦ x ∷ decode_loop cs
]

unfoldable pub encode_loop : List ℕ → List ℕ
unfolding safe dec2hex
encode_loop [] = []
encode_loop (c ∷ cs) =
    if safe c
    then c ∷ encode_loop cs
    else b'%' ∷ dec2hex (c / 16) ∷ dec2hex (c % 16) ∷ encode_loop cs

-- `none` is the exception of `new` for a negative size. The loops run to `SRC_END`, `SRC_LEN` bytes on.
unfoldable pub uri_decode : List ℕ → Option (List ℕ)
unfolding decode_loop
uri_decode src =
    let n = length src % 2 ^ 32 in if ltb n (2 ^ 31) then some (decode_loop (take n src)) else none

-- `none` is `SRC_LEN * 3` out of the range of `int`, or the exception of `new` for a negative size.
unfoldable pub uri_encode : List ℕ → Option (List ℕ)
unfolding encode_loop
uri_encode src =
    let n = length src % 2 ^ 32 in
    if ltb (n * 3) (2 ^ 31) then some (encode_loop (take n src)) else none
