-- ===== src/Uri/Tests.antt =====
-- The codec on concrete strings.
use is.Prelude.{ℕ, List, [], ◌∷◌, ◌++◌, ◌≡◌, refl, map, some, codes, arith}
use is.Uri.Codec.{uri_decode, uri_encode, plain}
use is.Uri.Trip.{Bytes, uri_decode-uri_encode, uri_decode-tail}

abbrev raw : List ℕ
raw = 0 ∷ 255 ∷ codes "a b+"

encoded_raw : uri_encode raw ≡ some (codes "%00%FFa%20b%2B")
unfolding uri_encode
encoded_raw = refl

decoded_lower : uri_decode (codes "%ff%2x%") ≡ some (255 ∷ codes "%2x%")
unfolding uri_decode
decoded_lower = refl

decoded_plus : uri_decode (codes "+++") ≡ some (codes " ++")
unfolding uri_decode
decoded_plus = refl

raw-Bytes : Bytes raw
raw-Bytes =
    (omega arith, (omega arith, (omega arith, (omega arith, (omega arith, (omega arith, tt))))))

uri_decode-uri_encode_example :
    (text : List ℕ) × (uri_encode raw ≡ some text) × (uri_decode text ≡ some raw)
uri_decode-uri_encode_example = uri_decode-uri_encode raw raw-Bytes (omega arith)

uri_decode-tail_example :
    uri_decode (codes "a+b" ++ b'+' ∷ b'+' ∷ [])
    ≡ some (map plain (codes "a+b") ++ b'+' ∷ b'+' ∷ [])
uri_decode-tail_example =
    uri_decode-tail (codes "a+b") b'+' b'+'
      (
        (λ e. absurd (omega arith)),
        ((λ e. absurd (omega arith)), ((λ e. absurd (omega arith)), tt)),
      )
      (omega arith)
