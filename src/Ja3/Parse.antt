-- ===== src/Ja3/Parse.antt =====
-- `ja3::extract_bytes` of src/support/ja3.cc.
use is.Prelude.{
  ℕ, zero, suc, ◌/◌, ◌%◌, ◌^◌, List, Bool, true, false, if◌then◌else◌, ltb, ◌==◌, drop,
}
use is.Ja3.State.{
  status_ok, status_error, Ja3, Cur, Run, next, leave, done, fault, ◌>>=◌, u8, u16, incr_by,
  incr_ext_by, push_cipher, push_ext, push_curve, push_format,
}

-- The loop over the cipher suites.
unfoldable pub ciphers : ℕ → Cur → Run Cur
ciphers zero c = next c
ciphers (suc n) c = do v ← u16 c.mem; c1 ← incr_by 2 c; ciphers n (push_cipher v c1)

-- The loop over the point formats.
unfoldable pub formats : ℕ → Cur × ℕ → Run (Cur × ℕ)
formats zero p = next p
formats (suc n) (c, ext_left) = do
  v ← u8 c.mem
  (c1, left) ← incr_ext_by 1 (c, ext_left)
  formats n (push_format v c1, left)

-- The loop over the named groups.
unfoldable pub curves : ℕ → Cur × ℕ → Run (Cur × ℕ)
curves zero p = next p
curves (suc n) (c, ext_left) = do
  v ← u16 c.mem
  (c1, left) ← incr_ext_by 2 (c, ext_left)
  curves n (push_curve v c1, left)

-- The tests after the loop over the point formats.
unfoldable pub after_formats : Cur × ℕ → Run (Cur × ℕ)
after_formats (c, ext_left) =
    if c.left == 0
    then done status_ok c.fp
    else if ext_left == 0
    then leave c
    else next (c, ext_left)

-- What is done for an extension of a type and a length.
unfoldable pub extension : ℕ → ℕ → Cur × ℕ → Run (Cur × ℕ)
extension t n (c, ext_left) =
    if t == 0x000b
    then (do k ← u8 c.mem; p ← incr_ext_by 1 (c, ext_left); q ← formats k p; after_formats q)
    else if t == 0x000a
    then (do k ← u16 c.mem; p ← incr_ext_by 2 (c, ext_left); curves (k / 2) p)
    else if t == 0x0015
    then leave c
    else incr_ext_by n (c, ext_left)

-- The body of the loop over the extensions.
unfoldable pub round : Cur × ℕ → Run (Cur × ℕ)
round (c, ext_left) = do
  t ← u16 c.mem
  (c1, left1) ← incr_ext_by 2 (c, ext_left)
  n ← u16 c1.mem
  (c2, left2) ← incr_ext_by 2 (c1, left1)
  extension t n (push_ext t c2, left2)

-- The loop, on fuel, and the return after it.
unfoldable pub extensions : ℕ → Cur × ℕ → Run Cur
extensions zero p = fault
extensions (suc fuel) (c, ext_left) = elim (ext_left == 0) [
  | true ↦ done status_ok c.fp
  | false ↦ elim (round (c, ext_left)) [
    | next p ↦ extensions fuel p
    | leave c' ↦ done status_ok c'.fp
    | done s p ↦ done s p
    | fault ↦ fault
  ]
]

-- From the compression methods on.
unfoldable pub tail : ℕ → Cur → Run Cur
tail fuel c = do
  m ← u8 c.mem
  c1 ← incr_by 1 c
  c2 ← incr_by m c1
  n ← u16 c2.mem
  c3 ← incr_by 2 c2
  extensions fuel (c3, n)

-- From the client version on.
unfoldable pub client_hello : ℕ → Cur → Run Cur
client_hello fuel c = if ltb c.left 2 then done status_error c.fp else (do
  v ← u16 c.mem
  c1 ← incr_by 2 c
  let c2 = record c1 { fp = record c1.fp { fp_ssl_version = v } }
  c3 ← incr_by 32 c2
  k ← u8 c3.mem
  c4 ← incr_by 1 c3
  c5 ← incr_by k c4
  n ← u16 c5.mem
  c6 ← incr_by 2 c5
  c7 ← ciphers (n / 2) c6
  tail fuel c7)

-- The length of the handshake, which is read and not used.
unfoldable pub skip_byte : Cur → Run Cur
skip_byte c = do b ← u8 c.mem; incr_by 1 c

unfoldable pub handshake : ℕ → Cur → Run Cur
handshake fuel c = do
  t ← u8 c.mem
  c1 ← incr_by 1 c
  c2 ← skip_byte c1
  c3 ← skip_byte c2
  c4 ← skip_byte c3
  (if t == 0x01 then client_hello fuel c4 else done status_ok c4.fp)

-- The record's header, and that of the handshake.
unfoldable pub headers : ℕ → Cur → Run Cur
headers fuel c = if ltb c.left 5 then done status_error c.fp else (do
  c1 ← incr_by 5 c
  (if ltb c1.left 4 then done status_error c1.fp else handshake fuel c1))

-- The tests of the first and the sixth byte.
unfoldable pub is_hello : List ℕ → Run Bool
is_hello mem = do
  t ← u8 mem
  (if t == 0x16 then (do h ← u8 (drop 5 mem); next (h == 0x01)) else next false)

-- The length is a `uint16_t`. The loop over the extensions has more fuel than there are bytes.
unfoldable pub extract_bytes : List ℕ → ℕ → Ja3 → Run Cur
extract_bytes mem len fp =
    let n = len % 2 ^ 16 in
    if ltb n 5 then done status_ok fp else (do
      yes_hello ← is_hello mem
      (if yes_hello
          then headers (suc n) (record { mem = mem; left = n; fp = fp })
          else done status_ok fp))
