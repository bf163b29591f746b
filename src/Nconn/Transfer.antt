-- ===== src/Nconn/Transfer.antt =====
-- `nc_read` and `nc_write` of src/nconn/nconn.cc, between a queue and the connection below it. What
-- the connection does, the virtual methods `ncread` and `ncwrite`, are parameters.
use is.Prelude.{
  ℕ, zero, suc, ◌%◌, ◌^◌, List, [], Option, some, Bool, true, false, ◌&&◌, ◌>>=◌, if◌then◌else◌,
  ltb, leb, ◌==◌, ℤ, sub64, add64,
}
use is.Nbq.State.{
  Nbq, deref, put_at, copy_in, copy_out, b_write_avail, b_write_incr, b_read_avail, b_read_incr,
}
use is.Nbq.Ops.{make_room, shrink}
use is.Nconn.Status.{nc_status_ok, nc_status_again, nc_status_error, nc_status_read_unavailable}

-- `read_avail_is_max_limit`.
unfoldable pub is_max_limit : Nbq → Bool
is_max_limit q = elim q.max_read_queue [
  | ℤ.pos m ↦ ltb 0 m && leb m q.total_read_avail
  | ℤ.negsuc m ↦ false
]

-- `l_read_size`, with `n` bytes of room in the block.
unfoldable pub read_size : Nbq → ℕ → ℕ
read_size q n = elim q.max_read_queue [
  | ℤ.pos m ↦
      if ltb 0 m && ltb m (add64 q.total_read_avail n)
      then sub64 m q.total_read_avail % 2 ^ 32
      else n
  | ℤ.negsuc m ↦ n
]

-- The bytes at `b_write_ptr()` are taken into the queue.
unfoldable pub receive : List ℕ → ℕ → Nbq → Option Nbq
unfolding copy_in b_write_incr
receive bytes n q = do
  b ← deref q.q q.cur_write_block
  b_write_incr n (record q { q = put_at q.q q.cur_write_block (copy_in bytes b) })

-- What a call leaves: the queue, the connection, the status, the bytes at `*ao_buf`, and `ao_read`
-- or `ao_written`.
pub record Done {ℓ} (S : Type ℓ) : Type ℓ where
  pub queue : Nbq
  pub conn : S
  pub status : ℤ
  pub buf : List ℕ
  pub count : ℕ

abbrev pub done {ℓ} : {S : Type ℓ} → Nbq → S → ℤ → List ℕ → ℕ → Done S
done q c s b n = record { queue = q; conn = c; status = s; buf = b; count = n }

-- What `nc_write` makes of a negative status.
abbrev pub write_error : ℕ → ℤ
write_error k = if k == 2 then nc_status_again else nc_status_error

module _ {ℓ} {S : Type ℓ} where
  -- `ncread` takes the size of the buffer and gives the status and what it has put there. `none`
  -- is undefined behaviour of the queue.
  unfoldable pub nc_read : (ℕ → S → S × ℤ × List ℕ) → Nbq → S → Option (Done S)
  nc_read ncread q c = elim (is_max_limit q) [
    | true ↦ some (done q c nc_status_read_unavailable [] 0)
    | false ↦ do
      (q1, room) ← make_room q
      elim room [
        | false ↦ some (done q1 c nc_status_error [] 0)
        | true ↦ do
          n ← b_write_avail q1
          let (c', l_s, bytes) = ncread (read_size q1 n) c
          elim l_s [
            | ℤ.negsuc k ↦ some (done q1 c' (ℤ.negsuc k) [] 0)
            | ℤ.pos zero ↦ some (done q1 c' (ℤ.pos 0) [] 0)
            | ℤ.pos (suc k) ↦ do
              q2 ← receive bytes (suc k) q1
              some (done q2 c' nc_status_ok bytes (suc k))
          ]
      ]
  ]

  -- `ncwrite` takes the bytes offered and gives the status.
  unfoldable pub nc_write : (List ℕ → S → S × ℤ) → Nbq → S → Option (Done S)
  nc_write ncwrite q c = elim (q.total_read_avail == 0) [
    | true ↦ some (done q c nc_status_ok [] 0)
    | false ↦ do
      n ← b_read_avail q
      b ← deref q.q q.cur_read_block
      let (c', l_s) = ncwrite (copy_out n b) c
      elim l_s [
        | ℤ.negsuc k ↦ some (done q c' (write_error k) [] 0)
        | ℤ.pos zero ↦ some (done q c' nc_status_ok [] 0)
        | ℤ.pos (suc k) ↦ do
          q1 ← b_read_incr (suc k) q
          q2 ← shrink q1
          some (done q2 c' nc_status_ok [] (suc k))
      ]
  ]
