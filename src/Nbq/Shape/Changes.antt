-- ===== src/Nbq/Shape/Changes.antt =====
-- Changing the block under a cursor, and moving a cursor, on the list of blocks.
use is.Prelude.{
  ℕ, zero, suc, ◌+◌, ◌≤◌, ◌<◌, ◌≡◌, ◌≢◌, refl, sym, ap, ◌∙◌, List, [], ◌∷◌, ◌++◌, append_assoc,
  append-nil, none, some, arith, length, get_elem?, set,
}
use is.Nbq.State.{Nb, Iter}
use is.Nbq.Shape.{
  IsBlock, IsSpare, Spare, Ahead, Good, held_bytes, unread_bytes, contents, unread, avail,
}
use is.Nbq.Shape.Blocks.{put, put-IsBlock, written-put, read-put, held_bytes-put, unread_bytes-put}
use is.Nbq.Shape.Cursors.{unread-Spare, contents-Spare, Spare-append}

-- What bytes put into the write block do to the queue.
pub record Puts (q q' : List Nb) (bytes : List ℕ) : Type 0 where
  pub unread_put : unread q' ≡ unread q ++ bytes
  pub contents_put : contents q' ≡ contents q ++ bytes
  pub avail_put : avail q' ≡ avail q + length bytes

Puts-cons :
    (c : Nb) (q q' : List Nb) (bytes : List ℕ) → Puts q q' bytes → Puts (c ∷ q) (c ∷ q') bytes
unfolding unread contents avail
Puts-cons c q q' bytes p = record {
  unread_put = rw (p.unread_put, append_assoc);
  contents_put = rw (p.contents_put, append_assoc);
  avail_put = omega (arith, p.avail_put);
}

module _ (b : Nb) (bytes : List ℕ) (v : IsBlock b) (fits : b.written + length bytes ≤ b.len) where
  Puts-here : (q : List Nb) → Spare q → Puts (b ∷ q) (put bytes b ∷ q) bytes
  unfolding unread contents avail
  Puts-here q h = record {
    unread_put =
        rw (unread_bytes-put b bytes v fits, unread-Spare q h)
          (rw (append-nil (unread_bytes b ++ bytes), append-nil (unread_bytes b)));
    contents_put =
        rw (held_bytes-put b bytes v fits, contents-Spare q h)
          (rw (append-nil (held_bytes b ++ bytes), append-nil (held_bytes b)));
    avail_put = omega (arith, written-put b bytes v fits, v.read_le, read-put b bytes v fits);
  }

  Ahead-put :
      (q : List Nb) (w : ℕ)
      → Ahead q (some w)
      → get_elem? q w ≡ some b
      → Ahead (set q w (put bytes b)) (some w) × Puts q (set q w (put bytes b)) bytes
  Ahead-put [] w h e = elim h [ ]
  Ahead-put (c ∷ q) zero (u, z, h) e =
      let same : c ≡ b = ground arith in
      (
        (
          put-IsBlock b bytes v fits,
          read-put b bytes v fits ∙ ap (λ (x : Nb). x.read) (sym same) ∙ z,
          h,
        ),
        rw same (Puts-here q h),
      )
  Ahead-put (c ∷ q) (suc w) (u, z, h) e =
      let (g, p) = Ahead-put q w h e in ((u, z, g), Puts-cons c q _ bytes p)

  pub Good-put :
      (q : List Nb) (w r : ℕ)
      → Good q (some w) r
      → get_elem? q w ≡ some b
      → Good (set q w (put bytes b)) (some w) r × Puts q (set q w (put bytes b)) bytes
  Good-put [] w r h e = elim h [ ]
  Good-put (c ∷ q) zero zero (u, h) e =
      let same : c ≡ b = ground arith in ((put-IsBlock b bytes v fits, h), rw same (Puts-here q h))
  Good-put (c ∷ q) zero (suc r) h e = elim h [ ]
  Good-put (c ∷ q) (suc w) zero (u, h) e =
      let (g, p) = Ahead-put q w h e in ((u, g), Puts-cons c q _ bytes p)
  Good-put (c ∷ q) (suc w) (suc r) (u, z, h) e =
      let (g, p) = Good-put q w r h e in ((u, z, g), Puts-cons c q _ bytes p)

-- The write cursor leaves a block that holds something.
Ahead-next_write :
    (q : List Nb) (w : ℕ) (b : Nb)
    → Ahead q (some w)
    → get_elem? q w ≡ some b
    → 0 < b.written
    → suc w < length q
    → Ahead q (some (suc w))
Ahead-next_write [] w b h e p l = elim h [ ]
Ahead-next_write (c ∷ []) zero b h e p l = absurd (omega arith)
Ahead-next_write (c ∷ d ∷ q) zero b (u, z, (hd, h)) e p l = (
  record { block = u; held = ground arith },
  z,
  (hd.block, omega (arith, hd.block.read_le, hd.empty), h),
)
Ahead-next_write (c ∷ q) (suc w) b (u, z, h) e p l =
    (u, z, Ahead-next_write q w b h e p (omega arith))

pub Good-next_write :
    (q : List Nb) (w r : ℕ) (b : Nb)
    → Good q (some w) r
    → get_elem? q w ≡ some b
    → 0 < b.written
    → suc w < length q
    → Good q (some (suc w)) r
Good-next_write [] w r b h e p l = elim h [ ]
Good-next_write (c ∷ []) zero zero b h e p l = absurd (omega arith)
Good-next_write (c ∷ d ∷ q) zero zero b (u, (hd, h)) e p l = (
  record { block = u; held = ground arith },
  (hd.block, omega (arith, hd.block.read_le, hd.empty), h),
)
Good-next_write (c ∷ q) zero (suc r) b h e p l = elim h [ ]
Good-next_write (c ∷ q) (suc w) zero b (u, h) e p l =
    (u, Ahead-next_write q w b h e p (omega arith))
Good-next_write (c ∷ q) (suc w) (suc r) b (u, z, h) e p l =
    (u, z, Good-next_write q w r b h e p (omega arith))

-- The read cursor leaves a block that is consumed.
pub Good-next_read :
    (q : List Nb) (w : Iter) (r : ℕ) (b : Nb)
    → Good q w r
    → get_elem? q r ≡ some b
    → b.read ≡ b.written
    → w ≢ some r
    → suc r < length q
    → Good q w (suc r)
Good-next_read [] w r b h e p n l = elim h [ ]
Good-next_read (c ∷ []) w zero b h e p n l = absurd (omega arith)
Good-next_read (c ∷ d ∷ q) none zero b (u, (ud, z, h)) e p n l = (u, ground arith, (ud, h))
Good-next_read (c ∷ d ∷ q) (some zero) zero b h e p n l = absurd (n refl)
Good-next_read (c ∷ d ∷ q) (some (suc zero)) zero b (u, (ud, z, h)) e p n l =
    (u, ground arith, (ud, h))
Good-next_read (c ∷ d ∷ q) (some (suc (suc w))) zero b (u, (ud, z, h)) e p n l =
    (u, ground arith, (ud, h))
Good-next_read (c ∷ q) none (suc r) b (u, z, h) e p n l =
    (u, z, Good-next_read q none r b h e p (λ x. cc) (omega arith))
Good-next_read (c ∷ q) (some zero) (suc r) b h e p n l = elim h [ ]
Good-next_read (c ∷ q) (some (suc w)) (suc r) b (u, z, h) e p n l =
    (u, z, Good-next_read q (some w) r b h e p (λ x. n (ground arith)) (omega arith))

-- A fresh block at the end.
Ahead-push :
    (q : List Nb) (w : ℕ) (b : Nb) → Ahead q (some w) → IsSpare b → Ahead (q ++ b ∷ []) (some w)
Ahead-push [] w b h s = elim h [ ]
Ahead-push (c ∷ q) zero b (u, z, h) s = (u, z, Spare-append q b h s)
Ahead-push (c ∷ q) (suc w) b (u, z, h) s = (u, z, Ahead-push q w b h s)

pub Good-push :
    (q : List Nb) (w r : ℕ) (b : Nb) → Good q (some w) r → IsSpare b → Good (q ++ b ∷ []) (some w) r
Good-push [] w r b h s = elim h [ ]
Good-push (c ∷ q) zero zero b (u, h) s = (u, Spare-append q b h s)
Good-push (c ∷ q) zero (suc r) b h s = elim h [ ]
Good-push (c ∷ q) (suc w) zero b (u, h) s = (u, Ahead-push q w b h s)
Good-push (c ∷ q) (suc w) (suc r) b (u, z, h) s = (u, z, Good-push q w r b h s)
