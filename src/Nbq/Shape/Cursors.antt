-- ===== src/Nbq/Shape/Cursors.antt =====
-- Moving the cursors and changing the block under one of them, on the list of blocks.
use is.Prelude.{
  ℕ, zero, suc, ◌-◌, ◌≤◌, ◌<◌, ◌≡◌, ◌≢◌, refl, ap, List, [], ◌∷◌, ◌++◌, none, some, arith, length,
  get_elem?, take, drop, length-append,
}
use is.Nbq.State.{Nb, Iter}
use is.Nbq.Shape.{
  IsBlock, IsSpare, Spare, Ahead, Good, Cursors, unread_bytes, unread, contents, avail,
}
use is.Nbq.Shape.Blocks.{length-unread_bytes}

pub unread-Spare : (q : List Nb) → Spare q → unread q ≡ []
unfolding unread
unread-Spare [] h = refl
unread-Spare (b ∷ q) (h, hs) = rw (h.empty, take, unread-Spare q hs) (drop_nil b.read)
  where
    drop_nil : (n : ℕ) → drop {A = ℕ} n [] ++ [] ≡ []
    drop_nil zero = refl
    drop_nil (suc n) = refl

pub avail-Spare : (q : List Nb) → Spare q → avail q ≡ 0
unfolding avail
avail-Spare [] h = refl
avail-Spare (b ∷ q) (h, hs) = omega (arith, h.empty, avail-Spare q hs)

pub Spare-append : (q : List Nb) (b : Nb) → Spare q → IsSpare b → Spare (q ++ b ∷ [])
Spare-append [] b h hb = (hb, tt)
Spare-append (c ∷ q) b (h, hs) hb = (h, Spare-append q b hs hb)

-- The block under the write cursor.
Ahead-write :
    (q : List Nb) (w : ℕ) → Ahead q (some w) → (b : Nb) × (get_elem? q w ≡ some b) × IsBlock b
Ahead-write [] w h = elim h [ ]
Ahead-write (b ∷ q) zero (v, _, _) = (b, refl, v)
Ahead-write (b ∷ q) (suc w) (_, _, h) = Ahead-write q w h

pub Good-write :
    (q : List Nb) (w r : ℕ) → Good q (some w) r → (b : Nb) × (get_elem? q w ≡ some b) × IsBlock b
Good-write [] w r h = elim h [ ]
Good-write (b ∷ q) zero (suc r) h = elim h [ ]
Good-write (b ∷ q) zero zero (v, _) = (b, refl, v)
Good-write (b ∷ q) (suc w) zero (_, h) = Ahead-write q w h
Good-write (b ∷ q) (suc w) (suc r) (_, _, h) = Good-write q w r h

-- The block under the read cursor.
pub Good-read :
    (q : List Nb) (w : Iter) (r : ℕ) → Good q w r → (b : Nb) × (get_elem? q r ≡ some b) × IsBlock b
Good-read [] w r h = elim h [ ]
Good-read (b ∷ q) (some zero) (suc r) h = elim h [ ]
Good-read (b ∷ q) none zero (u, _) = (b, refl, u.block)
Good-read (b ∷ q) none (suc r) (_, _, h) = Good-read q none r h
Good-read (b ∷ q) (some zero) zero (v, _) = (b, refl, v)
Good-read (b ∷ q) (some (suc w)) zero (u, _) = (b, refl, u.block)
Good-read (b ∷ q) (some (suc w)) (suc r) (_, _, h) = Good-read q (some w) r h

pub Good-write_lt : (q : List Nb) (w r : ℕ) → Good q (some w) r → (r ≤ w) × (w < length q)
Good-write_lt [] w r h = elim h [ ]
Good-write_lt (b ∷ q) zero (suc r) h = elim h [ ]
Good-write_lt (b ∷ q) zero zero h = (omega arith, omega arith)
Good-write_lt (b ∷ q) (suc w) zero (_, h) = (omega arith, omega (arith, Ahead_lt q w h))
  where
    Ahead_lt : (p : List Nb) (n : ℕ) → Ahead p (some n) → n < length p
    Ahead_lt [] n k = elim k [ ]
    Ahead_lt (c ∷ p) zero k = omega arith
    Ahead_lt (c ∷ p) (suc n) (_, _, k) = omega (arith, Ahead_lt p n k)
Good-write_lt (b ∷ q) (suc w) (suc r) (_, _, h) =
    let e = Good-write_lt q w r h in (omega (arith, e.0), omega (arith, e.1))

pub length-unread-Ahead : (q : List Nb) (w : Iter) → Ahead q w → length (unread q) ≡ avail q
unfolding unread avail
length-unread-Ahead [] none h = refl
length-unread-Ahead [] (some w) h = elim h [ ]
length-unread-Ahead (b ∷ q) none (u, _, h) = omega (
  arith,
  length-append (unread_bytes b) (unread q),
  length-unread_bytes b u.block,
  length-unread-Ahead q none h,
)
length-unread-Ahead (b ∷ q) (some zero) (v, _, h) = omega (
  arith,
  length-append (unread_bytes b) (unread q),
  length-unread_bytes b v,
  ap length (unread-Spare q h),
  avail-Spare q h,
)
length-unread-Ahead (b ∷ q) (some (suc w)) (u, _, h) = omega (
  arith,
  length-append (unread_bytes b) (unread q),
  length-unread_bytes b u.block,
  length-unread-Ahead q (some w) h,
)

pub length-unread : (q : List Nb) (w : Iter) (r : ℕ) → Good q w r → length (unread q) ≡ avail q
unfolding unread avail
length-unread [] w r h = elim h [ ]
length-unread (b ∷ q) none zero (u, h) = omega (
  arith,
  length-append (unread_bytes b) (unread q),
  length-unread_bytes b u.block,
  length-unread-Ahead q none h,
)
length-unread (b ∷ q) none (suc r) (u, _, h) = omega (
  arith,
  length-append (unread_bytes b) (unread q),
  length-unread_bytes b u.block,
  length-unread q none r h,
)
length-unread (b ∷ q) (some zero) zero (v, h) = omega (
  arith,
  length-append (unread_bytes b) (unread q),
  length-unread_bytes b v,
  ap length (unread-Spare q h),
  avail-Spare q h,
)
length-unread (b ∷ q) (some zero) (suc r) h = elim h [ ]
length-unread (b ∷ q) (some (suc w)) zero (u, h) = omega (
  arith,
  length-append (unread_bytes b) (unread q),
  length-unread_bytes b u.block,
  length-unread-Ahead q (some w) h,
)
length-unread (b ∷ q) (some (suc w)) (suc r) (u, _, h) = omega (
  arith,
  length-append (unread_bytes b) (unread q),
  length-unread_bytes b u.block,
  length-unread q (some w) r h,
)

-- Where both cursors are on one block, it has all that is unread.
pub avail_same :
    (q : List Nb) (r : ℕ) (b : Nb)
    → Good q (some r) r
    → get_elem? q r ≡ some b
    → avail q ≡ b.written - b.read
unfolding avail
avail_same [] r b h e = elim h [ ]
avail_same (c ∷ q) zero b (v, h) e = ground (arith, avail-Spare q h)
avail_same (c ∷ q) (suc r) b (u, d, h) e = omega (arith, avail_same q r b h e)

-- The bytes after the consumed blocks are those of the read block, and then the others.
pub avail_read :
    (q : List Nb) (w : Iter) (r : ℕ) (b : Nb)
    → Good q w r
    → get_elem? q r ≡ some b
    → b.written - b.read ≤ avail q
unfolding avail
avail_read [] w r b h e = elim h [ ]
avail_read (c ∷ q) w zero b h e = ground arith
avail_read (c ∷ q) none (suc r) b (u, d, h) e = omega (arith, avail_read q none r b h e)
avail_read (c ∷ q) (some zero) (suc r) b h e = elim h [ ]
avail_read (c ∷ q) (some (suc w)) (suc r) b (u, d, h) e =
    omega (arith, avail_read q (some w) r b h e)

pub contents-Spare : (q : List Nb) → Spare q → contents q ≡ []
unfolding contents
contents-Spare [] h = refl
contents-Spare (b ∷ q) (h, hs) = rw (h.empty, take) (contents-Spare q hs)

-- A block between the cursors is untouched by the reader.
Ahead-block :
    (q : List Nb) (w : Iter) (i : ℕ) (c : Nb)
    → Ahead q w
    → get_elem? q i ≡ some c
    → w ≢ some i
    → ((v : ℕ) → w ≡ some v → i < v)
    → (c.read ≡ 0) × (0 < c.written)
Ahead-block [] w i c h e n l = cc
Ahead-block (b ∷ q) none zero c (u, z, h) e n l = ground (arith, u.held)
Ahead-block (b ∷ q) none (suc i) c (u, z, h) e n l =
    Ahead-block q none i c h e (λ x. cc) (λ v x. cc)
Ahead-block (b ∷ q) (some zero) i c h e n l = absurd (omega (arith, l 0 refl))
Ahead-block (b ∷ q) (some (suc w)) zero c (u, z, h) e n l = ground (arith, u.held)
Ahead-block (b ∷ q) (some (suc w)) (suc i) c (u, z, h) e n l =
    let lt : suc i < suc w = l (suc w) refl in
    Ahead-block q (some w) i c h e (λ x. n (ground arith)) (λ v x. ground arith)

Ahead-write_block :
    (q : List Nb) (w : ℕ) (c : Nb) → Ahead q (some w) → get_elem? q w ≡ some c → c.read ≡ 0
Ahead-write_block [] w c h e = elim h [ ]
Ahead-write_block (b ∷ q) zero c (u, z, h) e = ground arith
Ahead-write_block (b ∷ q) (suc w) c (u, z, h) e = Ahead-write_block q w c h e

pub Good-write_block :
    (q : List Nb) (w r : ℕ) (c : Nb)
    → Good q (some w) r
    → get_elem? q w ≡ some c
    → r < w
    → c.read ≡ 0
Good-write_block [] w r c h e l = elim h [ ]
Good-write_block (b ∷ q) zero r c h e l = absurd (omega arith)
Good-write_block (b ∷ q) (suc w) zero c (u, h) e l = Ahead-write_block q w c h e
Good-write_block (b ∷ q) (suc w) (suc r) c (u, z, h) e l =
    Good-write_block q w r c h e (omega arith)

pub Good-ahead :
    (q : List Nb) (w : Iter) (r : ℕ) (c : Nb)
    → Good q w r
    → get_elem? q (suc r) ≡ some c
    → ((v : ℕ) → w ≡ some v → suc r < v)
    → (c.read ≡ 0) × (0 < c.written)
Good-ahead [] w r c h e l = cc
Good-ahead (b ∷ q) none zero c (u, h) e l = Ahead-block q none 0 c h e (λ x. cc) (λ v x. cc)
Good-ahead (b ∷ q) none (suc r) c (u, z, h) e l = Good-ahead q none r c h e (λ v x. cc)
Good-ahead (b ∷ q) (some zero) r c h e l = absurd (omega (arith, l 0 refl))
Good-ahead (b ∷ q) (some (suc w)) zero c (u, h) e l =
    let lt : 1 < suc w = l (suc w) refl in
    Ahead-block q (some w) 0 c h e (λ x. ground arith) (λ v x. ground arith)
Good-ahead (b ∷ q) (some (suc w)) (suc r) c (u, z, h) e l =
    let lt : suc (suc r) < suc w = l (suc w) refl in
    Good-ahead q (some w) r c h e (λ v x. ground arith)

-- With every block held and the last one consumed nothing is left.
pub avail_last :
    (q : List Nb) (r : ℕ) (c : Nb)
    → Good q none r
    → get_elem? q r ≡ some c
    → c.read ≡ c.written
    → length q ≤ suc r
    → avail q ≡ 0
unfolding avail
avail_last [] r c h e z l = refl
avail_last (b ∷ []) zero c h e z l = ground arith
avail_last (b ∷ d ∷ q) zero c h e z l = absurd (omega arith)
avail_last (b ∷ q) (suc r) c (u, y, h) e z l = omega (arith, avail_last q r c h e z (omega arith))

pub Good-Cursors : (q : List Nb) (w : Iter) (r : ℕ) → Good q w r → Cursors q w (some r)
Good-Cursors [] w r h = elim h [ ]
Good-Cursors (b ∷ q) w r h = h

pub Cursors-Good : (q : List Nb) (w : Iter) (r : ℕ) → Cursors q w (some r) → Good q w r
Cursors-Good [] none r h = elim h [ ]
Cursors-Good [] (some w) r h = elim h [ ]
Cursors-Good (b ∷ q) w r h = h

-- A queue with no read cursor is empty, and has no write cursor.
pub Cursors-none : (q : List Nb) (w : Iter) → Cursors q w none → (q ≡ []) × (w ≡ none)
Cursors-none [] none h = (refl, refl)
Cursors-none [] (some w) h = elim h [ ]
Cursors-none (b ∷ q) w h = elim h [ ]
