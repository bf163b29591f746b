-- ===== src/Ja3/Hello.antt =====
-- A TLS client hello, its bytes, and what `extract_bytes` records of it.
use is.Prelude.{ℕ, ◌+◌, ◌*◌, ◌/◌, ◌%◌, ◌^◌, ◌<◌, ◌≡◌, ◌≢◌, List, [], ◌∷◌, ◌++◌, length}
use is.Ja3.State.{Ja3}

-- An extension of a type that is only recorded, the named groups, and the point formats.
pub data Ext : Type 0 where
  other : ℕ → List ℕ → Ext
  groups : List ℕ → Ext
  points : List ℕ → Ext

pub record Hello : Type 0 where
  pub version : ℕ
  pub random : List ℕ
  pub session : List ℕ
  pub suites : List ℕ
  pub methods : List ℕ
  pub exts : List Ext

-- A number of 16 bits in network order.
abbrev pub word : ℕ → List ℕ
word v = v / 256 ∷ v % 256 ∷ []

unfoldable pub words : List ℕ → List ℕ
words [] = []
words (v ∷ vs) = v / 256 ∷ v % 256 ∷ words vs

abbrev pub ext_body : Ext → List ℕ
ext_body (other t b) = b
ext_body (groups gs) = word (2 * length gs) ++ words gs
ext_body (points fs) = length fs ∷ fs

abbrev pub ext_type : Ext → ℕ
ext_type (other t b) = t
ext_type (groups gs) = 0x000a
ext_type (points fs) = 0x000b

abbrev pub ext_bytes : Ext → List ℕ
ext_bytes e = word (ext_type e) ++ (word (length (ext_body e)) ++ ext_body e)

unfoldable pub exts_bytes : List Ext → List ℕ
exts_bytes [] = []
exts_bytes (e ∷ es) = ext_bytes e ++ exts_bytes es

-- From the record's header on: type, version and length of the record, type and length of the
-- handshake, and the hello.
abbrev pub body_bytes : Hello → List ℕ
body_bytes h =
    word h.version
    ++ (h.random
        ++ (length h.session ∷ h.session
            ++ (word (2 * length h.suites)
                ++ (words h.suites
                    ++ (length h.methods ∷ h.methods
                        ++ (word (length (exts_bytes h.exts)) ++ exts_bytes h.exts))))))

abbrev pub hello_bytes : Hello → List ℕ
hello_bytes h =
    let n = length (body_bytes h) in
    0x16 ∷ 3 ∷ 1 ∷ (n + 4) / 256 ∷ (n + 4) % 256 ∷ 1 ∷ 0 ∷ n / 256 ∷ n % 256 ∷ body_bytes h

abbrev pub AllWords : List ℕ → Type 0
AllWords [] = Unit {0}
AllWords (v ∷ vs) = (v < 2 ^ 16) × AllWords vs

abbrev pub IsExt : Ext → Type 0
IsExt (other t b) = (t < 2 ^ 16) × (length b < 2 ^ 16) × (t ≢ 0x000a) × (t ≢ 0x000b) × (t ≢ 0x0015)
IsExt (groups gs) = AllWords gs × (2 * length gs + 2 < 2 ^ 16)
IsExt (points fs) = length fs < 2 ^ 8

abbrev pub AllExts : List Ext → Type 0
AllExts [] = Unit {0}
AllExts (e ∷ es) = IsExt e × AllExts es

-- The lengths fit their fields, there is an extension, and none of type 0x0015, padding.
pub record IsHello (h : Hello) : Type 0 where
  pub version : h.version < 2 ^ 16
  pub random : length h.random ≡ 32
  pub session : length h.session < 2 ^ 8
  pub suites : AllWords h.suites
  pub suites_fit : 2 * length h.suites < 2 ^ 16
  pub methods : length h.methods < 2 ^ 8
  pub exts : AllExts h.exts
  pub some_ext : 0 < length h.exts
  pub exts_fit : length (exts_bytes h.exts) < 2 ^ 16

-- What an extension adds.
unfoldable pub seen_one : Ext → Ja3 → Ja3
seen_one (other t b) p = record p { fp_ssl_ext_list = p.fp_ssl_ext_list ++ t ∷ [] }
seen_one (groups gs) p = record p {
  fp_ssl_ext_list = p.fp_ssl_ext_list ++ 0x000a ∷ [];
  fp_ec_curve_list = p.fp_ec_curve_list ++ gs;
}
seen_one (points fs) p = record p {
  fp_ssl_ext_list = p.fp_ssl_ext_list ++ 0x000b ∷ [];
  fp_ec_pt_format_list = p.fp_ec_pt_format_list ++ fs;
}

unfoldable pub seen : List Ext → Ja3 → Ja3
seen [] p = p
seen (e ∷ es) p = seen es (seen_one e p)

abbrev pub recorded : Hello → Ja3 → Ja3
recorded h p =
    seen h.exts
      (record p { fp_ssl_version = h.version; fp_cipher_list = p.fp_cipher_list ++ h.suites })
