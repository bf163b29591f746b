-- ===== src/Tcp/State.antt =====
-- `ncread` and `ncwrite` of src/nconn/nconn_tcp.cc. A connection is a state of the system outside: `recvfrom` takes
-- a size, `send` the bytes, and `mod_fd` the mask that `m_evr_loop` then waits for.
use is.Prelude.{
  ℕ, ◌-◌, ◌%◌, ◌^◌, List, [], ◌∷◌, Bool, if◌then◌else◌, ltb, ◌==◌, length, ℤ, Option, none, some,
}
use is.Nconn.Status.{nc_status_again, nc_status_error, nc_status_eof}

-- What a system call answers, or its `errno`.
pub data Reply {ℓ} (A : Type ℓ) : Type ℓ where
  answer : A → Reply A
  failed : ℕ → Reply A

abbrev pub eagain : ℕ
eagain = 11

-- A number in an `int32_t`.
unfoldable pub int32 : ℕ → ℤ
int32 n =
    if ltb (n % 2 ^ 32) (2 ^ 31) then ℤ.pos (n % 2 ^ 32) else ℤ.negsuc (2 ^ 32 - 1 - n % 2 ^ 32)

abbrev pub attr_mask_write : ℕ
attr_mask_write = 62

module _ {S : Type 0} where
  unfoldable pub ncread : (ℕ → S → S × Reply (List ℕ)) → ℕ → S → S × ℤ × List ℕ
  ncread recvfrom n c =
      let (c', l_s) = recvfrom (n % 2 ^ 32) c in
      elim l_s [
        | answer [] ↦ (c', nc_status_eof, [])
        | answer (x ∷ xs) ↦ (c', int32 (length (x ∷ xs)), x ∷ xs)
        | failed e ↦ (c', if e == eagain then nc_status_again else nc_status_error, [])
      ]

  -- `mod_fd` is `none` where the connection has no event loop, and answers whether it succeeds.
  unfoldable pub write_again : Option (ℕ → S → S × Bool) → S → S × ℤ
  write_again none c = (c, nc_status_again)
  write_again (some mod_fd) c =
      let (c', ok) = mod_fd attr_mask_write c in
      (c', if ok then nc_status_again else nc_status_error)

  unfoldable pub ncwrite :
      (List ℕ → S → S × Reply ℕ) → Option (ℕ → S → S × Bool) → List ℕ → S → S × ℤ
  ncwrite send mod_fd bytes c =
      let (c', l_s) = send bytes c in
      elim l_s [
        | answer k ↦ elim (int32 k) [ ℤ.pos j ↦ (c', ℤ.pos j) | ℤ.negsuc j ↦ (c', nc_status_error) ]
        | failed e ↦ if e == eagain then write_again mod_fd c' else (c', nc_status_error)
      ]
