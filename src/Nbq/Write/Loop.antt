-- ===== src/Nbq/Write/Loop.antt =====
-- The loop of `nbq::write`, and what `write` does.
use is.Prelude.{
  ℕ, zero, suc, ◌+◌, ◌-◌, ◌^◌, ◌≤◌, ◌<◌, ◌≡◌, refl, sym, ap, ◌∙◌, List, [], ◌∷◌, ◌++◌, append_assoc,
  append-nil, some, true, arith, length, take, drop, min, length-append, subst, length-take,
  length-drop, take-append-drop, ℤ, get_elem?,
}
use is.Nbq.State.{Nb, Nbq, b_write_avail, write_avail}
use is.Nbq.Ops.{make_room, write_chunk, write_loop, write}
use is.Nbq.Shape.{Inv, unread, contents, avail}
use is.Nbq.Shape.Blocks.{write_avail_lem}
use is.Nbq.Write.{Wrote, write_chunk_lem}
use is.Nbq.Write.Room.{Room, make_room_lem}

pub Wrote-nil : (s : Nbq) → Inv s → Wrote s s []
Wrote-nil s i = record {
  inv = i;
  unread_wrote = sym (append-nil (unread s.q));
  contents_wrote = sym (append-nil (contents s.q));
  avail_wrote = omega arith;
  bsize_wrote = refl;
}

pub Wrote-trans :
    (s t u v : Nbq) (xs ys : List ℕ) → Room s t → Wrote t u xs → Wrote u v ys → Wrote s v (xs ++ ys)
Wrote-trans s t u v xs ys m a b = record {
  inv = b.inv;
  unread_wrote = rw (b.unread_wrote, a.unread_wrote, m.unread_room, append_assoc);
  contents_wrote = rw (b.contents_wrote, a.contents_wrote, m.contents_room, append_assoc);
  avail_wrote = omega (arith, b.avail_wrote, a.avail_wrote, m.avail_room, length-append xs ys);
  bsize_wrote = b.bsize_wrote ∙ a.bsize_wrote ∙ m.bsize_room;
}

pub b_write_avail_lem :
    (s : Nbq) (w : ℕ) (b : Nb)
    → s.cur_write_block ≡ some w
    → get_elem? s.q w ≡ some b
    → b_write_avail s ≡ some (write_avail b)
unfolding b_write_avail
b_write_avail_lem s w b ew e = ground arith

write_loop_step :
    (fuel : ℕ) (c : ℕ) (left : List ℕ) (n k : ℕ) (s t u : Nbq)
    → make_room s ≡ some (t, true)
    → b_write_avail t ≡ some k
    → write_chunk (take (min k (suc (length left))) (c ∷ left)) t ≡ some u
    → write_loop (suc fuel) (c ∷ left) n s
      ≡ write_loop fuel
          (drop (min k (suc (length left))) (c ∷ left))
          (n + min k (suc (length left)))
          u
unfolding write_loop
write_loop_step fuel c left n k s t u em ea ec = rw (em, ea, ec)

pub write_loop_lem :
    (fuel : ℕ) (bytes : List ℕ) (n : ℕ) (s : Nbq)
    → Inv s
    → length bytes ≤ fuel
    → avail s.q + length bytes < 2 ^ 64
    → (s' : Nbq) × (write_loop fuel bytes n s ≡ some (s', ℤ.pos (n + length bytes)))
      × Wrote s s' bytes
unfolding write_loop
write_loop_lem fuel [] n s i l room = (s, ap (λ m. some (s, ℤ.pos m)) (omega arith), Wrote-nil s i)
write_loop_lem zero (c ∷ left) n s i l room = absurd (omega arith)
write_loop_lem (suc fuel) (c ∷ left) n s i l room =
    let (t, em, m) = make_room_lem s i in
    let a : ℕ = write_avail m.b in
    let ea : a ≡ m.b.len - m.b.written = write_avail_lem m.b m.block in
    let k : ℕ = min a (suc (length left)) in
    let chunk : List ℕ = take k (c ∷ left) in
    let rest : List ℕ = drop k (c ∷ left) in
    let lc : length chunk ≡ k = omega (arith, length-take k (c ∷ left)) in
    let lr : length rest ≡ suc (length left) - k = omega (arith, length-drop k (c ∷ left)) in
    let (u, ec, wu) =
      write_chunk_lem t m.w m.r m.b chunk m.at_write m.at_read m.good m.found m.inv m.block
        (omega (arith, m.space)) (omega (arith, m.space)) (omega (arith, m.avail_room)) in
    let (v, ev, wv) =
      write_loop_lem fuel rest (n + k) u wu.inv (omega (arith, m.space))
        (omega (arith, m.avail_room, wu.avail_wrote)) in
    let step =
      write_loop_step fuel c left n a s t u em (b_write_avail_lem t m.w m.b m.at_write m.found)
        ec in
    (
      v,
      step ∙ ev ∙ ap (λ j. some (v, ℤ.pos j)) {x = n + k + length rest} (omega arith),
      subst (Wrote s v) (take-append-drop k (c ∷ left)) (Wrote-trans s t u v chunk rest m wu wv),
    )

-- On a well-formed queue whose unread bytes and the buffer's are fewer than 2^64, `write` takes the whole buffer, whatever the block size: it returns the
-- buffer's length, the queue stays well-formed, and the unread bytes are those before with the
-- buffer behind them.
pub write-appends :
    (bytes : List ℕ) (s : Nbq)
    → Inv s
    → avail s.q + length bytes < 2 ^ 64
    → (s' : Nbq) × (write bytes s ≡ some (s', ℤ.pos (length bytes))) × Wrote s s' bytes
unfolding write
write-appends bytes s i room =
    let (t, e, m) = write_loop_lem (length bytes) bytes 0 s i (omega arith) room in
    (t, e ∙ ap (λ j. some (t, ℤ.pos j)) {x = 0 + length bytes} (omega arith), m)
