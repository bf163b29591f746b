-- ===== src/Ja3/Print.antt =====
-- `ja3::get_str`, `ja3::get_md5` and `ja3::extract_fp` of src/support/ja3.cc.
use is.Prelude.{
  ℕ, zero, suc, ◌+◌, ◌*◌, ◌/◌, ◌%◌, List, [], ◌∷◌, ◌++◌, Bool, true, false, if◌then◌else◌, ltb,
  ◌==◌, ◌&&◌, Option, some, none,
}
use is.Ja3.State.{status_ok, status_error, Ja3, Cur, Run, done}
use is.Ja3.Parse.{extract_bytes}

-- `IS_GREASE_VAL` on a number of 16 bits, with the `& 0x0f0f` written out.
unfoldable pub is_grease : ℕ → Bool
is_grease code = (code / 256 % 16 * 256 + code % 16 == 0x0a0a) && (code % 256 == code / 256)

-- The decimal digits of a number, the last ones already there.
unfoldable pub decimal : ℕ → ℕ → List ℕ → List ℕ
decimal zero n ds = ds
decimal (suc fuel) n ds =
    let rest = decimal fuel (n / 10) ((48 + n % 10) ∷ ds) in
    if ltb n 10 then (48 + n) ∷ ds else rest

-- `_to_string`; a number of 32 bits has ten digits at most.
unfoldable pub to_string : ℕ → List ℕ
to_string n = decimal 10 n []

-- `_PRINT_LIST`.
unfoldable pub print_list : List ℕ → List ℕ
print_list [] = []
print_list (v ∷ []) = if is_grease v then [] else to_string v
print_list (v ∷ (w ∷ vs)) =
    if is_grease v then print_list (w ∷ vs) else to_string v ++ (45 ∷ print_list (w ∷ vs))

abbrev pub is_empty : List ℕ → Bool
is_empty [] = true
is_empty (x ∷ xs) = false

abbrev pub fingerprint : Ja3 → List ℕ
fingerprint p =
    to_string p.fp_ssl_version
    ++ 44
      ∷ (print_list p.fp_cipher_list
          ++ 44
            ∷ (print_list p.fp_ssl_ext_list
                ++ 44 ∷ (print_list p.fp_ec_curve_list ++ 44 ∷ print_list p.fp_ec_pt_format_list)))

-- The string is kept in the object; `m_str` is empty where this appends to it.
unfoldable pub get_str : Ja3 → Ja3
get_str p =
    if is_empty p.str
    then (if p.fp_ssl_version == 0 then p else record p { str = fingerprint p })
    else p

-- With the digest in hexadecimal, of the library.
unfoldable pub get_md5 : (List ℕ → List ℕ) → Ja3 → Ja3
get_md5 hash_hex p =
    let q = get_str p in
    if is_empty p.md5
    then (if p.fp_ssl_version == 0 then p else record q { md5 = hash_hex q.str })
    else p

-- With the connection, its descriptor, and what `recvfrom` leaves in the buffer: the number of the
-- bytes, and the memory from the buffer on.
unfoldable pub extract_fp {ℓ} :
    {A : Type ℓ} → (A → Option ℕ) → (ℕ → ℕ × List ℕ) → Option A → Ja3 → Run Cur
extract_fp get_fd peek ssl p =
    if p.fp_ssl_version == 0
    then elim ssl as (λ x. Run Cur) [
      | none ↦ done status_error p
      | some a ↦ elim (get_fd a) as (λ x. Run Cur) [
        | none ↦ done status_error p
        | some fd ↦
            let (n, buf) = peek fd in if n == 0 then done status_error p else extract_bytes buf n p
      ]
    ]
    else done status_ok p
