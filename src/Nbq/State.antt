-- ===== src/Nbq/State.antt =====
-- The block `nb_struct`, the queue `nbq` with its two list iterators, and the block operations
-- `b_write_avail` .. `b_read_incr` of src/support/nbq.cc. `none` is undefined behaviour: an
-- iterator at `end()` that is dereferenced.
use is.Prelude.{
  ℕ, suc, ◌+◌, ◌%◌, ◌^◌, List, [], ◌∷◌, ◌++◌, Option, none, some, Bool, true, false, not, ◌&&◌,
  ◌>>=◌, if◌then◌else◌, ltb, ◌==◌, length, get_elem?, set, take, drop, replicate, ℤ, add32, sub32,
  add64, sub64,
}

-- A block: `written` bytes of `buf` are in use, and `read` of these are consumed. A `ref` block
-- points to memory that another queue owns; the model holds its bytes.
pub record Nb : Type 0 where
  pub buf : List ℕ
  pub len : ℕ
  pub written : ℕ
  pub read : ℕ
  pub ref : Bool

-- malloc leaves the bytes unset; nothing reads them before they are written.
unfoldable pub new_nb : ℕ → Nb
new_nb n = record { buf = replicate n 0; len = n; written = 0; read = 0; ref = false }

unfoldable pub ref_nb : List ℕ → ℕ → Nb
ref_nb bytes n = record { buf = bytes; len = n; written = n; read = 0; ref = true }

unfoldable pub write_avail : Nb → ℕ
write_avail b = sub32 b.len b.written

unfoldable pub read_avail : Nb → ℕ
read_avail b = sub32 b.written b.read

unfoldable pub write_inc : ℕ → Nb → Nb
write_inc n b = record b { written = add32 b.written n }

unfoldable pub write_reset : Nb → Nb
write_reset b = record b { written = 0; read = 0 }

unfoldable pub read_inc : ℕ → Nb → Nb
read_inc n b = record b { read = add32 b.read n }

unfoldable pub read_reset : Nb → Nb
read_reset b = record b { read = 0 }

-- memcpy to `write_ptr()` and from `read_ptr()`.
unfoldable pub copy_in : List ℕ → Nb → Nb
copy_in bytes b = record b {
  buf = take b.written b.buf ++ (bytes ++ drop (b.written + length bytes) b.buf);
}

unfoldable pub copy_out : ℕ → Nb → List ℕ
copy_out n b = take n (drop b.read b.buf)

-- A position in `m_q`; `none` is `end()`.
abbrev pub Iter : Type 0
Iter = Option ℕ

pub record Nbq : Type 0 where
  pub q : List Nb
  pub bsize : ℕ
  pub cur_write_block : Iter
  pub cur_read_block : Iter
  pub idx : ℕ
  pub cur_write_offset : ℕ
  pub total_read_avail : ℕ
  pub max_read_queue : ℤ

unfoldable pub new_nbq : ℕ → Nbq
new_nbq bsize = record {
  q = [];
  bsize = bsize;
  cur_write_block = none;
  cur_read_block = none;
  idx = 0;
  cur_write_offset = 0;
  total_read_avail = 0;
  max_read_queue = ℤ.negsuc 0;
}

abbrev pub begin {ℓ} : {A : Type ℓ} → List A → Iter
begin [] = none
begin (b ∷ q) = some 0

-- `--m_q.end()`.
abbrev pub last {ℓ} : {A : Type ℓ} → List A → Iter
last [] = none
last (b ∷ q) = some (length q)

abbrev pub at_pos : ℕ → ℕ → Iter
at_pos i n = if ltb i n then some i else none

abbrev pub deref {ℓ} : {A : Type ℓ} → List A → Iter → Option A
deref q none = none
deref q (some i) = get_elem? q i

-- `++it`.
abbrev pub next {ℓ} : {A : Type ℓ} → List A → Iter → Iter
next q none = none
next q (some i) = at_pos (suc i) (length q)

abbrev pub iter_eq : Iter → Iter → Bool
iter_eq none none = true
iter_eq none (some j) = false
iter_eq (some i) none = false
iter_eq (some i) (some j) = i == j

abbrev pub put_at {ℓ} : {A : Type ℓ} → List A → Iter → A → List A
put_at q none b = q
put_at q (some i) b = set q i b

unfoldable pub b_write_avail : Nbq → Option ℕ
unfolding write_avail
b_write_avail s = elim s.cur_write_block [
  | none ↦ some 0
  | some i ↦ do b ← get_elem? s.q i; some (write_avail b)
]

-- The common end of `b_write_add_avail` and `b_write_incr`: leave a full block for the next one.
unfoldable pub skip_full : List Nb → Iter → Nb → Iter
unfolding write_avail
skip_full q it b = if write_avail b == 0 && not (iter_eq it (last q)) then next q it else it

unfoldable pub b_write_add_avail : Nbq → Option (Nbq × ℕ)
unfolding new_nb skip_full
b_write_add_avail s = elim (length q' == 1) [
  | true ↦ do
    b ← deref q' (begin q')
    some (record s { q = q'; cur_read_block = begin q'; cur_write_block = begin q' }, write_avail b)
  | false ↦ do
    w ← deref q' s.cur_write_block
    let it = skip_full q' s.cur_write_block w
    b ← deref q' it
    some (record s { q = q'; cur_write_block = it }, write_avail b)
]
  where
    q' : List Nb
    q' = s.q ++ new_nb s.bsize ∷ []

unfoldable pub b_write_incr : ℕ → Nbq → Option Nbq
unfolding write_inc read_avail skip_full
b_write_incr n s = do
  w ← deref s.q s.cur_write_block
  let q' = put_at s.q s.cur_write_block (write_inc n w)
  let s' = record s {
    q = q';
    cur_write_offset = add64 s.cur_write_offset n;
    total_read_avail = add64 s.total_read_avail n;
    cur_write_block = skip_full q' s.cur_write_block (write_inc n w);
  }
  elim (ltb 0 n) [
    | true ↦ do
      r ← deref q' s.cur_read_block
      some (
          if read_avail r == 0 then record s' { cur_read_block = next q' s.cur_read_block } else s')
    | false ↦ some s'
  ]

-- The `int32_t` that is returned is read as `uint32_t` by all its callers.
unfoldable pub b_read_avail : Nbq → Option ℕ
unfolding read_avail
b_read_avail s = elim s.cur_read_block [
  | none ↦ some 0
  | some i ↦
      if iter_eq (some i) s.cur_write_block
      then some (s.total_read_avail % 2 ^ 32)
      else (do b ← get_elem? s.q i; some (read_avail b))
]

unfoldable pub b_read_incr : ℕ → Nbq → Option Nbq
unfolding b_read_avail read_inc
b_read_incr n s = do
  avail ← b_read_avail s
  b ← deref s.q s.cur_read_block
  let total = sub64 s.total_read_avail n
  let q' = put_at s.q s.cur_read_block (read_inc n b)
  let done = sub32 avail n == 0 && not (total == 0)
  some (record s {
    q = q';
    total_read_avail = total;
    cur_read_block = if done then next q' s.cur_read_block else s.cur_read_block;
  })
