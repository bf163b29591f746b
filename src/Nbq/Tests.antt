-- ===== src/Nbq/Tests.antt =====
-- Runs of the queue, and its theorems at concrete queues.
use is.Prelude.{
  ℕ, ◌≡◌, refl, List, [], ◌∷◌, none, some, true, false, arith, length, ℤ, inl, ◌>>=◌, Option, add32,
  sub32, add64, sub64,
}
use is.Nbq.State.{Nb, Nbq, new_nbq, b_read_avail, b_read_incr, copy_out}
use is.Nbq.Ops.{write, read, read_loop, read_from, reset_read, shrink, join_ref}
use is.Nbq.Shape.{Readable, Inv, unread, contents, avail}
use is.Nbq.Write.{Wrote}
use is.Nbq.Write.Loop.{write-appends}
use is.Nbq.Read.{Took}
use is.Nbq.Read.Loop.{read-takes}
use is.Nbq.Transfer.{write_q, write_q-moves}
use is.Nbq.Shrink.{Kept, shrink-keeps}
use is.Nbq.Join.{AllBlocks, Joined, join_ref-appends}
use is.Nbq.ReadFrom.{reset_read-Readable, read_from-slice}

-- Six bytes in two blocks of four, of which one byte is read.
abbrev front_block : Nb
front_block = record { buf = 1 ∷ 2 ∷ 3 ∷ 4 ∷ []; len = 4; written = 4; read = 1; ref = false }

abbrev back_block : Nb
back_block = record { buf = 5 ∷ 6 ∷ 0 ∷ 0 ∷ []; len = 4; written = 2; read = 0; ref = false }

abbrev two_blocks : Nbq
two_blocks = record {
  q = front_block ∷ back_block ∷ [];
  bsize = 4;
  cur_write_block = some 1;
  cur_read_block = some 0;
  idx = 0;
  cur_write_offset = 6;
  total_read_avail = 5;
  max_read_queue = ℤ.negsuc 0;
}

two_blocks-Readable : Readable two_blocks
unfolding avail
two_blocks-Readable = record {
  cursors = (record { block = omega arith; held = omega arith }, (omega arith, refl, tt));
  ready = λ b e. inl (ground arith);
  counted = refl;
  bounded = omega arith;
}

two_blocks-Inv : Inv two_blocks
two_blocks-Inv = record {
  readable = two_blocks-Readable;
  writable = λ e. cc;
  positive = omega arith;
  block_size = omega arith;
}

abbrev five_bytes : List ℕ
five_bytes = 7 ∷ 8 ∷ 9 ∷ 10 ∷ 11 ∷ []

write-appends_example :
    (s' : Nbq) × (write five_bytes two_blocks ≡ some (s', ℤ.pos 5)) × Wrote two_blocks s' five_bytes
write-appends_example =
    write-appends five_bytes two_blocks two_blocks-Inv (unfold avail in omega arith)

read-takes_example :
    (s' : Nbq) × (read true 4 two_blocks ≡ some (s', 2 ∷ 3 ∷ 4 ∷ 5 ∷ [], 4)) × Took two_blocks s' 4
unfolding avail unread
read-takes_example = read-takes 4 two_blocks two_blocks-Readable

reset_read-Readable_example :
    Readable (reset_read two_blocks)
    × (unread (reset_read two_blocks).q ≡ contents two_blocks.q)
    × (contents (reset_read two_blocks).q ≡ contents two_blocks.q)
    × ((reset_read two_blocks).total_read_avail ≡ length (contents two_blocks.q))
reset_read-Readable_example =
    reset_read-Readable two_blocks two_blocks-Readable (unfold contents in omega arith)

read_from-slice_example :
    (s' : Nbq) × (read_from 2 3 two_blocks ≡ some (s', 3 ∷ 4 ∷ 5 ∷ [], 3))
    × Readable s'
    × (contents s'.q ≡ 1 ∷ 2 ∷ 3 ∷ 4 ∷ 5 ∷ 6 ∷ [])
    × (unread s'.q ≡ 6 ∷ [])
unfolding contents
read_from-slice_example = read_from-slice two_blocks two_blocks-Readable (omega arith) 2 3

-- A run: write over block bounds, read, write again, read the rest.
abbrev run : Option (List ℕ × ℕ)
run = do
  (s1, _) ← write (1 ∷ 2 ∷ 3 ∷ 4 ∷ 5 ∷ []) (new_nbq 2)
  (s2, _, _) ← read true 3 s1
  (s3, _) ← write (6 ∷ 7 ∷ []) s2
  (_, out, n) ← read true 9 s3
  some (out, n)

run_reads : run ≡ some (4 ∷ 5 ∷ 6 ∷ 7 ∷ [], 4)
unfolding write read read_loop b_read_avail b_read_incr copy_out new_nbq add32 sub32 add64 sub64
run_reads = refl

-- Four bytes in one block.
abbrev four_bytes : Nbq
four_bytes = record {
  q = record { buf = 9 ∷ 8 ∷ 7 ∷ 6 ∷ []; len = 4; written = 4; read = 0; ref = false } ∷ [];
  bsize = 4;
  cur_write_block = some 0;
  cur_read_block = some 0;
  idx = 0;
  cur_write_offset = 4;
  total_read_avail = 4;
  max_read_queue = ℤ.negsuc 0;
}

four_bytes-Readable : Readable four_bytes
unfolding avail
four_bytes-Readable = record {
  cursors = (omega arith, tt);
  ready = λ b e. inl (ground arith);
  counted = refl;
  bounded = omega arith;
}

write_q-moves_example :
    (s' : Nbq) × (a' : Nbq) × (write_q four_bytes two_blocks ≡ some (s', a', ℤ.pos 4))
    × Wrote two_blocks s' (9 ∷ 8 ∷ 7 ∷ 6 ∷ [])
    × Took four_bytes a' 4
unfolding unread
write_q-moves_example =
    write_q-moves four_bytes two_blocks two_blocks-Inv four_bytes-Readable
      (unfold avail in omega arith)

-- The first block is consumed.
abbrev spent : Nbq
spent = record two_blocks {
  q = record front_block { read = 4 } ∷ back_block ∷ [];
  cur_read_block = some 1;
  total_read_avail = 2;
}

spent-Inv : Inv spent
unfolding avail
spent-Inv = record {
  readable = record {
    cursors = (record { block = omega arith; held = omega arith }, refl, (omega arith, tt));
    ready = λ b e. inl (ground arith);
    counted = refl;
    bounded = omega arith;
  };
  writable = λ e. cc;
  positive = omega arith;
  block_size = omega arith;
}

shrink-keeps_example : (s' : Nbq) × (shrink spent ≡ some s') × Kept spent s'
shrink-keeps_example = shrink-keeps spent spent-Inv

two_blocks-AllBlocks : AllBlocks two_blocks.q
two_blocks-AllBlocks = (omega arith, (omega arith, tt))

join_ref-appends_example :
    Joined four_bytes (join_ref two_blocks four_bytes) two_blocks.q
    × ((join_ref two_blocks four_bytes).cur_write_block ≡ none)
join_ref-appends_example =
    join_ref-appends two_blocks four_bytes two_blocks-AllBlocks (unfold contents in omega arith)
