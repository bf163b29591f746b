-- ===== src/Ja3/Tests.antt =====
-- Runs of `ja3` on a client hello, and the theorems at it.
use is.Prelude.{ℕ, ◌^◌, ◌<◌, ◌≡◌, refl, List, [], ◌∷◌, ◌++◌, length, replicate, arith}
use is.Ja3.State.{Ja3, new_ja3, Status, status_ok, status_error, done, fault, u8, u16, incr_by}
use is.Ja3.Parse.{
  extract_bytes, is_hello, headers, handshake, skip_byte, client_hello, ciphers, tail,
}
use is.Ja3.Bounds.{extract_bytes-returns}
use is.Ja3.Hello.{other, groups, points, Hello, hello_bytes, exts_bytes, words, IsHello, recorded}
use is.Ja3.Trip.{extract_bytes-hello}
use is.Ja3.Print.{get_str, print_list, is_grease, to_string, decimal}
use is.Ja3.Spelling.{ungreased, join, joined, ends_greased, dangling, print_list-joined}
use is.Ja3.Whole.{all_groups, all_points, EndsPlain, specified, get_str-extract_bytes}

-- TLS 1.2, a reserved cipher suite and a real one, a server name, two groups and a point format.
abbrev client : Hello
client = record {
  version = 771;
  random = replicate 32 7;
  session = [];
  suites = 0x0a0a ∷ 0x1301 ∷ [];
  methods = 0 ∷ [];
  exts = other 0 (1 ∷ 2 ∷ []) ∷ groups (29 ∷ 23 ∷ []) ∷ points (0 ∷ []) ∷ [];
}

client-IsHello : IsHello client
unfolding exts_bytes words
client-IsHello = record {
  version = omega arith;
  random = refl;
  session = omega arith;
  suites = (omega arith, (omega arith, tt));
  suites_fit = omega arith;
  methods = omega arith;
  exts = (
    (omega arith, omega arith, omega arith, omega arith, omega arith),
    (((omega arith, (omega arith, tt)), omega arith), (omega arith, tt)),
  );
  some_ext = omega arith;
  exts_fit = omega arith;
}

client-EndsPlain : EndsPlain client
unfolding ends_greased is_grease all_groups all_points
client-EndsPlain = record { suites = refl; types = refl; groups_end = refl; points_end = refl }

client_fits : length (hello_bytes client ++ 1 ∷ 2 ∷ []) < 2 ^ 16
unfolding words exts_bytes
client_fits = omega arith

extract_bytes-hello_example :
    let mem = hello_bytes client ++ 1 ∷ 2 ∷ [] in
    extract_bytes mem (length mem) new_ja3 ≡ done status_ok (recorded client new_ja3)
extract_bytes-hello_example =
    extract_bytes-hello client (1 ∷ 2 ∷ []) new_ja3 client-IsHello client_fits

get_str-extract_bytes_example :
    let mem = hello_bytes client ++ 1 ∷ 2 ∷ [] in
    (q : Ja3) × (extract_bytes mem (length mem) new_ja3 ≡ done status_ok q)
    × ((get_str q).str ≡ specified client)
get_str-extract_bytes_example =
    get_str-extract_bytes client (1 ∷ 2 ∷ []) client-IsHello client_fits client-EndsPlain refl

-- The string of it: 771,4865,0-10-11,29-23,0
specified-client :
    specified client
    ≡ 55 ∷ 55 ∷ 49 ∷ 44 ∷ 52 ∷ 56 ∷ 54 ∷ 53 ∷ 44 ∷ 48 ∷ 45 ∷ 49 ∷ 48 ∷ 45 ∷ 49 ∷ 49 ∷ 44 ∷ 50 ∷ 57
      ∷ 45 ∷ 50 ∷ 51 ∷ 44 ∷ 48 ∷ []
unfolding to_string decimal ungreased join is_grease all_groups all_points
specified-client = refl

-- The first bytes of a hello, cut off in the second byte of the length of its cipher suites.
abbrev cut : List ℕ
cut = 0x16 ∷ 3 ∷ 1 ∷ 0 ∷ 80 ∷ 1 ∷ 0 ∷ 0 ∷ 76 ∷ 3 ∷ 3 ∷ (replicate 32 7 ++ 0 ∷ 0 ∷ [])

extract_bytes-returns_example :
    (s : Status) × (p : Ja3) × (extract_bytes (cut ++ 9 ∷ 9 ∷ []) 45 new_ja3 ≡ done s p)
extract_bytes-returns_example = extract_bytes-returns (cut ++ 9 ∷ 9 ∷ []) 45 new_ja3 (omega arith)

-- With no byte behind it, the second byte of that length is read past the end.
extract_bytes-cut : extract_bytes cut 45 new_ja3 ≡ fault
unfolding extract_bytes is_hello headers handshake skip_byte client_hello u8 u16 incr_by
extract_bytes-cut = refl

-- A length of five bytes is let through, and the sixth is read.
extract_bytes-five : extract_bytes (0x16 ∷ 3 ∷ 1 ∷ 0 ∷ 0 ∷ []) 5 new_ja3 ≡ fault
unfolding extract_bytes is_hello u8
extract_bytes-five = refl

-- A hello whose list of extensions is empty is an error.
abbrev plain_client : Hello
plain_client = record client { exts = [] }

extract_bytes-plain :
    extract_bytes (hello_bytes plain_client) (length (hello_bytes plain_client)) new_ja3
    ≡ done status_error
        (record new_ja3 { fp_ssl_version = 771; fp_cipher_list = 0x0a0a ∷ 0x1301 ∷ [] })
unfolding extract_bytes is_hello headers handshake skip_byte client_hello u8 u16 incr_by ciphers
    tail words exts_bytes
extract_bytes-plain = refl

-- A reserved value at the end leaves a dash.
print_list-dash : print_list (0x1301 ∷ 0x0a0a ∷ []) ≡ 52 ∷ 56 ∷ 54 ∷ 53 ∷ 45 ∷ []
unfolding print_list is_grease to_string decimal
print_list-dash = refl

print_list-joined_example :
    print_list (0x1301 ∷ 0x0a0a ∷ [])
    ≡ joined (0x1301 ∷ 0x0a0a ∷ []) ++ dangling (0x1301 ∷ 0x0a0a ∷ [])
print_list-joined_example = print_list-joined (0x1301 ∷ 0x0a0a ∷ [])
