-- ===== src/Nbq/ReadFrom.antt =====
-- What `reset_read`, `read_seek` and `read_from` do to a well-formed queue.
use is.Prelude.{
  ℕ, ◌-◌, ◌^◌, ◌<◌, ◌≡◌, sym, ap, ◌∙◌, List, [], ◌∷◌, map, none, some, arith, length, take, drop,
  min, take-min, drop-min, length-drop,
}
use mathlib.Core.Path.{ap₂}
use is.Nbq.State.{Nb, Nbq, Iter, read_reset, begin}
use is.Nbq.Ops.{sum_avail, reset_read, read_seek, read_from}
use is.Nbq.Shape.{Ahead, Cursors, IsReady, Readable, unread, contents, avail}
use is.Nbq.Shape.Cursors.{length-unread-Ahead}
use is.Nbq.Read.Loop.{read-takes, read_skip, length-unread-avail}
use is.Nbq.Seek.{
  Good-reset, Ahead-Good, Ahead-IsReady, sum_avail-avail, unread-reset, contents-reset,
}

Cursors-Ahead : (q : List Nb) (w r : Iter) → Cursors q w r → Ahead (map read_reset q) w
Cursors-Ahead [] none none h = tt
Cursors-Ahead [] none (some r) h = elim h [ ]
Cursors-Ahead [] (some w) r h = elim h [ ]
Cursors-Ahead (b ∷ q) w none h = elim h [ ]
Cursors-Ahead (b ∷ q) w (some r) h = Good-reset (b ∷ q) w r h

-- The two facts about the new read cursor.
restart :
    (q : List Nb) (w r : Iter)
    → Cursors q w r
    → Cursors (map read_reset q) w (begin q) × IsReady (map read_reset q) (begin q)
restart [] none none h = (tt, tt)
restart [] none (some r) h = elim h [ ]
restart [] (some w) r h = elim h [ ]
restart (b ∷ q) w none h = elim h [ ]
restart (b ∷ q) w (some r) h =
    let a = Good-reset (b ∷ q) w r h in
    (
      Ahead-Good (read_reset b) (map read_reset q) w a,
      Ahead-IsReady (read_reset b) (map read_reset q) w a,
    )

module _ (s : Nbq) (h : Readable s) (fits : length (contents s.q) < 2 ^ 64) where
  avail-reset : avail (map read_reset s.q) ≡ length (contents s.q)
  avail-reset =
      sym (
        length-unread-Ahead (map read_reset s.q) s.cur_write_block
          (Cursors-Ahead s.q s.cur_write_block s.cur_read_block h.cursors))
      ∙ ap length (unread-reset s.q)

  -- After `reset_read` of a well-formed queue that holds fewer than 2^64 bytes, everything that the
  -- blocks hold is unread again, and the count is right.
  pub reset_read-Readable :
      Readable (reset_read s)
      × (unread (reset_read s).q ≡ contents s.q)
      × (contents (reset_read s).q ≡ contents s.q)
      × ((reset_read s).total_read_avail ≡ length (contents s.q))
  unfolding reset_read
  reset_read-Readable =
      let (c, r) = restart s.q s.cur_write_block s.cur_read_block h.cursors in
      let total : sum_avail 0 (map read_reset s.q) ≡ avail (map read_reset s.q) =
        sum_avail-avail 0 (map read_reset s.q) s.cur_write_block
          (Cursors-Ahead s.q s.cur_write_block s.cur_read_block h.cursors)
          (omega (arith, avail-reset))
        ∙ omega arith in
      (
        record { cursors = c; ready = r; counted = total; bounded = omega (arith, avail-reset) },
        unread-reset s.q,
        contents-reset s.q,
        total ∙ avail-reset,
      )

  -- On a well-formed queue that holds fewer than 2^64 bytes `read_from` copies the `n` bytes at
  -- offset `off` of all that the blocks hold, whatever was read before, or as many as there are, and returns their number; nothing is lost.
  pub read_from-slice :
      (off n : ℕ)
      → (s' : Nbq) × (read_from off n s
          ≡ some (s', take n (drop off (contents s.q)), min n (length (contents s.q) - off)))
        × Readable s'
        × (contents s'.q ≡ contents s.q)
        × (unread s'.q ≡ drop n (drop off (contents s.q)))
  unfolding read_from read_seek
  read_from-slice off n =
      let (h0, u0, c0, _) = reset_read-Readable in
      let (t, et, mt) = read_skip off (reset_read s) h0 in
      let l0 : avail (reset_read s).q ≡ length (contents s.q) =
        sym (length-unread-avail (reset_read s) h0) ∙ ap length u0 in
      let ut : unread t.q ≡ drop off (contents s.q) =
        mt.unread_took ∙ rw (l0, u0) (drop-min off (contents s.q)) in
      let lt : avail t.q ≡ length (drop off (contents s.q)) =
        sym (length-unread-avail t mt.readable) ∙ ap length ut in
      let (v, ev, mv) = read-takes n t mt.readable in
      let k : min n (avail t.q) ≡ min n (length (contents s.q) - off) =
        omega (arith, lt, length-drop off (contents s.q)) in
      let out : take (min n (avail t.q)) (unread t.q) ≡ take n (drop off (contents s.q)) =
        rw (lt, ut) (take-min n (drop off (contents s.q))) in
      (
        v,
        rw et (ev ∙ ap₂ (λ (o : List ℕ) (m : ℕ). some (v, o, m)) out k),
        mv.readable,
        mv.contents_took ∙ mt.contents_took ∙ c0,
        mv.unread_took ∙ rw (lt, ut) (drop-min n (drop off (contents s.q))),
      )
