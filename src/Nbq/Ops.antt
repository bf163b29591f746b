-- ===== src/Nbq/Ops.antt =====
-- The public methods of `nbq` but `split`: writing, reading, resetting, shrinking and joining. A
-- loop takes fuel, and `none` is undefined behaviour or fuel that ran out.
use is.Prelude.{
  ℕ, zero, suc, ◌+◌, ◌-◌, ◌^◌, min, List, [], ◌∷◌, ◌++◌, map, Option, none, some, Bool, true, false,
  not, ◌&&◌, ◌||◌, ◌>>=◌, if◌then◌else◌, leb, ◌==◌, length, take, drop, ℤ, add64, sub64,
}
use is.Nbq.State.{
  Nb, Nbq, ref_nb, write_avail, read_avail, write_reset, read_reset, copy_in, copy_out, begin,
  deref, put_at, iter_eq, b_write_avail, b_write_add_avail, b_write_incr, b_read_avail, b_read_incr,
}

-- The test `l_status <= 0` of an `int32_t` that was made of a `uint32_t`.
unfoldable pub int32_le_zero : ℕ → Bool
int32_le_zero n = n == 0 || leb (2 ^ 31) n

-- The head of every write loop: make room, `false` if there is none to be had.
unfoldable pub make_room : Nbq → Option (Nbq × Bool)
unfolding b_write_avail b_write_add_avail int32_le_zero
make_room s = do
  avail ← b_write_avail s
  elim (avail == 0) [
    | true ↦ do (s', n) ← b_write_add_avail s; some (s', not (int32_le_zero n))
    | false ↦ some (s, true)
  ]

-- The body of `write`: memcpy to `b_write_ptr()`, then `b_write_incr`.
unfoldable pub write_chunk : List ℕ → Nbq → Option Nbq
unfolding copy_in b_write_incr
write_chunk bytes s = do
  w ← deref s.q s.cur_write_block
  b_write_incr (length bytes) (record s { q = put_at s.q s.cur_write_block (copy_in bytes w) })

-- `left` are the bytes still to write.
unfoldable pub write_loop : ℕ → List ℕ → ℕ → Nbq → Option (Nbq × ℤ)
unfolding make_room write_chunk
write_loop fuel [] written s = some (s, ℤ.pos written)
write_loop zero (c ∷ left) written s = none
write_loop (suc fuel) (c ∷ left) written s = do
  (s1, room) ← make_room s
  elim room [
    | false ↦ some (s1, ℤ.negsuc 0)
    | true ↦ do
      avail ← b_write_avail s1
      let n = min avail (suc (length left))
      s2 ← write_chunk (take n (c ∷ left)) s1
      write_loop fuel (drop n (c ∷ left)) (written + n) s2
  ]

unfoldable pub write : List ℕ → Nbq → Option (Nbq × ℤ)
unfolding write_loop
write bytes s = write_loop (length bytes) bytes 0 s

-- `copy` is false where `l_buf` is NULL.
unfoldable pub read_loop : ℕ → Bool → ℕ → List ℕ → ℕ → Nbq → Option (Nbq × List ℕ × ℕ)
read_loop fuel copy zero out n s = some (s, out, n)
read_loop zero copy (suc left) out n s = none
read_loop (suc fuel) copy (suc left) out n s = do
  avail ← b_read_avail s
  let size = min avail (suc left)
  b ← deref s.q s.cur_read_block
  s' ← b_read_incr size s
  read_loop fuel copy (suc left - size) (if copy then out ++ copy_out size b else out) (n + size) s'

-- The bytes that reach `a_buf`, and the number returned. A round with an empty block consumes none.
unfoldable pub read : Bool → ℕ → Nbq → Option (Nbq × List ℕ × ℕ)
unfolding read_loop
read copy n s =
    if n == 0
    then some (s, [], 0)
    else read_loop (n + length s.q) copy (min n s.total_read_avail) [] 0 s

unfoldable pub peek : Nbq → Option ℕ
unfolding copy_out
peek s = elim (s.total_read_avail == 0) [
  | true ↦ some 0
  | false ↦ do b ← deref s.q s.cur_read_block; elim (copy_out 1 b) [ [] ↦ none | c ∷ rest ↦ some c ]
]

-- The sum that `reset_read` makes of the blocks' `read_avail()`.
unfoldable pub sum_avail : ℕ → List Nb → ℕ
unfolding read_avail
sum_avail total [] = total
sum_avail total (b ∷ q) = sum_avail (add64 total (read_avail b)) q

unfoldable pub reset_read : Nbq → Nbq
unfolding sum_avail read_reset
reset_read s = record s {
  q = map read_reset s.q;
  total_read_avail = sum_avail 0 (map read_reset s.q);
  cur_read_block = begin s.q;
}

unfoldable pub read_seek : ℕ → Nbq → Option (Nbq × List ℕ × ℕ)
unfolding reset_read read
read_seek off s = read false off (reset_read s)

unfoldable pub read_from : ℕ → ℕ → Nbq → Option (Nbq × List ℕ × ℕ)
unfolding read_seek
read_from off n s = do (s', _, _) ← read_seek off s; read true n s'

unfoldable pub drop_refs : List Nb → List Nb
unfolding write_reset
drop_refs [] = []
drop_refs (b ∷ q) = if b.ref then drop_refs q else write_reset b ∷ drop_refs q

unfoldable pub reset_write : Nbq → Nbq
unfolding drop_refs
reset_write s = record s {
  q = drop_refs s.q;
  cur_write_block = begin (drop_refs s.q);
  cur_read_block = begin (drop_refs s.q);
  total_read_avail = 0;
  cur_write_offset = 0;
}

unfoldable pub reset : Nbq → Nbq
reset s = record s {
  q = [];
  cur_write_block = none;
  cur_read_block = none;
  cur_write_offset = 0;
  total_read_avail = 0;
}

abbrev pub back : Option ℕ → Option ℕ
back none = none
back (some zero) = none
back (some (suc i)) = some i

-- The blocks before `m_cur_read_block` are freed one by one; with the iterator at `end()` all are.
unfoldable pub shrink_loop : List Nb → Option ℕ → Option ℕ → ℕ → Nbq → Nbq
shrink_loop [] w r off s = record s {
  q = [];
  cur_write_block = w;
  cur_read_block = r;
  cur_write_offset = off;
}
shrink_loop (b ∷ q) w r off s = elim (iter_eq r (some 0)) [
  | true ↦ record s { q = b ∷ q; cur_write_block = w; cur_read_block = r; cur_write_offset = off }
  | false ↦ shrink_loop q (back w) (back r) (sub64 off b.len) s
]

unfoldable pub shrink : Nbq → Option Nbq
unfolding shrink_loop reset read_avail write_avail
shrink s =
    elim (iter_eq s'.cur_read_block none || not (iter_eq s'.cur_read_block s'.cur_write_block)) [
      | true ↦ some s'
      | false ↦ do
        b ← deref s'.q s'.cur_read_block
        some (if read_avail b == 0 && write_avail b == 0 then reset s' else s')
    ]
  where
    s' : Nbq
    s' = shrink_loop s.q s.cur_write_block s.cur_read_block s.cur_write_offset s

-- The blocks of the tail, as references; the tail itself is not changed.
unfoldable pub join_loop : List Nb → Nbq → Nbq
unfolding ref_nb
join_loop [] s = s
join_loop (b ∷ tail) s = join_loop tail (record s {
  q = s.q ++ ref_nb (take b.written b.buf) b.written ∷ [];
  cur_write_offset = add64 s.cur_write_offset b.written;
  total_read_avail = add64 s.total_read_avail b.written;
})

unfoldable pub join_ref : Nbq → Nbq → Nbq
unfolding join_loop
join_ref tail s = record (join_loop tail.q s) { cur_write_block = none }
