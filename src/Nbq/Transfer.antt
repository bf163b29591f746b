-- ===== src/Nbq/Transfer.antt =====
-- `nbq::write_q`: the unread bytes of one queue are written to another one.
use is.Prelude.{
  length-zero, ℕ, zero, suc, ◌+◌, ◌-◌, ◌^◌, ◌≤◌, ◌<◌, ◌≡◌, ap, ◌∙◌, List, [], Option, none, some,
  true, false, ◌>>=◌, leb, ◌==◌, arith, length, take, min, subst, length-take, take-append-drop, ℤ,
}
use is.Nbq.State.{Nbq, b_write_avail, write_avail}
use is.Nbq.Ops.{make_room, write_chunk, read}
use is.Nbq.Shape.{Inv, Readable, unread, avail}
use is.Nbq.Shape.Blocks.{write_avail_lem}
use is.Nbq.Write.{Wrote, write_chunk_lem}
use is.Nbq.Write.Room.{Room, make_room_lem}
use is.Nbq.Write.Loop.{Wrote-nil, Wrote-trans, b_write_avail_lem}
use is.Nbq.Read.{Took}
use is.Nbq.Read.Loop.{Took-zero, Took-trans, read-takes, length-unread-avail}

-- `a` is `a_q`, another queue than this one; `read` puts its bytes at `b_write_ptr()`.
unfoldable pub write_q_loop : ℕ → ℕ → ℕ → Nbq → Nbq → Option (Nbq × Nbq × ℤ)
write_q_loop fuel zero written a s = some (s, a, ℤ.pos written)
write_q_loop zero (suc left) written a s = none
write_q_loop (suc fuel) (suc left) written a s = do
  (s1, room) ← make_room s
  elim room [
    | false ↦ some (s1, a, ℤ.negsuc 0)
    | true ↦ do
      n ← b_write_avail s1
      (a', bytes, status) ← read true (min n (suc left)) a
      elim (leb (2 ^ 63) status) [
        | true ↦ some (s1, a', ℤ.negsuc 0)
        | false ↦ elim (status == 0) [
          | true ↦ some (s1, a', ℤ.pos written)
          | false ↦ do
            s2 ← write_chunk bytes s1
            write_q_loop fuel (suc left - status) (written + status) a' s2
        ]
      ]
  ]

unfoldable pub write_q : Nbq → Nbq → Option (Nbq × Nbq × ℤ)
unfolding write_q_loop
write_q a s = write_q_loop a.total_read_avail a.total_read_avail 0 a s

write_q_loop_step :
    (fuel left n k status : ℕ) (bytes : List ℕ) (a b s t u : Nbq)
    → make_room s ≡ some (t, true)
    → b_write_avail t ≡ some k
    → read true (min k (suc left)) a ≡ some (b, bytes, status)
    → leb (2 ^ 63) status ≡ false
    → (status == 0) ≡ false
    → write_chunk bytes t ≡ some u
    → write_q_loop (suc fuel) (suc left) n a s
      ≡ write_q_loop fuel (suc left - status) (n + status) b u
unfolding write_q_loop
write_q_loop_step fuel left n k status bytes a b s t u em ea er el ez ec =
    rw (em, ea, er, ◌>>=◌, el, ez, ec)

-- Both halves of a round and the rounds that follow, put together.
rounds :
    (a b c s t u v : Nbq) (j k left : ℕ)
    → j ≡ k
    → Room s t
    → Wrote t u (take j (unread a.q))
    → Took a b j
    → Wrote u v (unread b.q)
    → Took b c (left - j)
    → j ≤ left
    → Wrote s v (unread a.q) × Took a c left
rounds a b c s t u v j k left e m wu mb wv mc l = (
  subst (Wrote s v) (rw mb.unread_took (take-append-drop j (unread a.q)))
      (Wrote-trans s t u v (take j (unread a.q)) (unread b.q) m wu wv),
  subst (Took a c) {x = j + (left - j)} (omega arith) (Took-trans a b c j (left - j) mb mc),
)

pub write_q_loop_lem :
    (fuel left n : ℕ) (a s : Nbq)
    → Inv s
    → Readable a
    → left ≡ avail a.q
    → left ≤ fuel
    → avail s.q + left < 2 ^ 64
    → (s' : Nbq) × (a' : Nbq) × (write_q_loop fuel left n a s ≡ some (s', a', ℤ.pos (n + left)))
      × Wrote s s' (unread a.q)
      × Took a a' left
write_q_loop_lem fuel zero n a s i h l f room =
    let none_left : unread a.q ≡ [] =
      length-zero (unread a.q) (omega (arith, length-unread-avail a h)) in
    (
      s,
      a,
      unfold write_q_loop in ap (λ m. some (s, a, ℤ.pos m)) {y = n + 0} (omega arith),
      rw none_left (Wrote-nil s i),
      Took-zero a h,
    )
write_q_loop_lem zero (suc left) n a s i h l f room = absurd (omega arith)
write_q_loop_lem (suc fuel) (suc left) n a s i h l f room =
    let (t, em, m) = make_room_lem s i in
    let w : ℕ = write_avail m.b in
    let ew : w ≡ m.b.len - m.b.written = write_avail_lem m.b m.block in
    let k : ℕ = min w (suc left) in
    let ek : min k (avail a.q) ≡ k = omega arith in
    let (b, er, mb) = read-takes k a h in
    let chunk : List ℕ = take (min k (avail a.q)) (unread a.q) in
    let lc : length chunk ≡ k =
      omega (arith, length-take (min k (avail a.q)) (unread a.q), length-unread-avail a h) in
    let (u, ec, wu) =
      write_chunk_lem t m.w m.r m.b chunk m.at_write m.at_read m.good m.found m.inv m.block
        (omega (arith, m.space)) (omega (arith, m.space)) (omega (arith, m.avail_room)) in
    let rest : ℕ = suc left - min k (avail a.q) in
    let (v, c, ev, wv, mc) =
      write_q_loop_lem fuel rest (n + min k (avail a.q)) b u wu.inv mb.readable
        (omega (arith, mb.avail_took)) (omega (arith, m.space))
        (omega (arith, m.avail_room, wu.avail_wrote)) in
    let step =
      write_q_loop_step fuel left n w (min k (avail a.q)) chunk a b s t u em
        (b_write_avail_lem t m.w m.b m.at_write m.found) er
        (ground (arith, h.bounded, m.block.small)) (ground (arith, m.space)) ec in
    let (wr, tk) =
      rounds a b c s t u v (min k (avail a.q)) k (suc left) ek m wu mb wv mc (omega arith) in
    (
      v,
      c,
      step ∙ ev ∙ ap (λ j. some (v, c, ℤ.pos j)) {x = n + min k (avail a.q) + rest} (omega arith),
      wr,
      tk,
    )

-- Writing one well-formed queue to another, with fewer than 2^64 unread bytes in both together,
-- moves everything: the count returned is the number of
-- bytes that were unread, these are behind the target's unread bytes in the same order, and the
-- source has none left.
pub write_q-moves :
    (a s : Nbq)
    → Inv s
    → Readable a
    → avail s.q + avail a.q < 2 ^ 64
    → (s' : Nbq) × (a' : Nbq) × (write_q a s ≡ some (s', a', ℤ.pos (length (unread a.q))))
      × Wrote s s' (unread a.q)
      × Took a a' (length (unread a.q))
unfolding write_q
write_q-moves a s i h room =
    let (t, b, e, w, m) =
      write_q_loop_lem a.total_read_avail a.total_read_avail 0 a s i h h.counted (omega arith)
        (omega (arith, h.counted)) in
    let n : a.total_read_avail ≡ length (unread a.q) =
      omega (arith, h.counted, length-unread-avail a h) in
    (
      t,
      b,
      e ∙ ap (λ j. some (t, b, ℤ.pos j)) {x = 0 + a.total_read_avail} (omega arith),
      w,
      subst (Took a b) n m,
    )
