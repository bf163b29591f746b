-- ===== src/Nbq/Seek.antt =====
-- `reset_read` and the calls that start reading over: `read_seek` and `read_from`.
use is.Prelude.{
  ℕ, zero, suc, ◌+◌, ◌-◌, ◌^◌, ◌<◌, ◌≡◌, inl, refl, ◌∙◌, List, [], ◌∷◌, map, none, some, arith,
  add64, add64_lem,
}
use is.Nbq.State.{Nb, Iter, read_reset, read_avail}
use is.Nbq.Ops.{sum_avail}
use is.Nbq.Shape.{IsBlock, IsUsed, Spare, Ahead, Good, IsReady, unread, contents, avail}
use is.Nbq.Shape.Blocks.{read_avail_lem}
use is.Nbq.Shape.Cursors.{avail-Spare}

read_reset-IsBlock : (b : Nb) → IsBlock b → IsBlock (read_reset b)
unfolding read_reset
read_reset-IsBlock b v = record {
  sized = v.sized;
  has_len = v.has_len;
  small = v.small;
  read_le = omega arith;
  written_le = v.written_le;
}

read_reset-IsUsed : (b : Nb) → IsUsed b → IsUsed (read_reset b)
unfolding read_reset
read_reset-IsUsed b u = record { block = read_reset-IsBlock b u.block; held = u.held }

Spare-reset : (q : List Nb) → Spare q → Spare (map read_reset q)
unfolding read_reset
Spare-reset [] h = tt
Spare-reset (b ∷ q) (h, hs) = (
  record { block = read_reset-IsBlock b h.block; empty = h.empty; len_int32 = h.len_int32 },
  Spare-reset q hs,
)

Ahead-reset : (q : List Nb) (w : Iter) → Ahead q w → Ahead (map read_reset q) w
unfolding read_reset
Ahead-reset [] w h = h
Ahead-reset (b ∷ q) none (u, z, h) = (read_reset-IsUsed b u, refl, Ahead-reset q none h)
Ahead-reset (b ∷ q) (some zero) (v, z, h) = (read_reset-IsBlock b v, refl, Spare-reset q h)
Ahead-reset (b ∷ q) (some (suc w)) (u, z, h) =
    (read_reset-IsUsed b u, refl, Ahead-reset q (some w) h)

pub Good-reset : (q : List Nb) (w : Iter) (r : ℕ) → Good q w r → Ahead (map read_reset q) w
unfolding read_reset
Good-reset [] w r h = elim h [ ]
Good-reset (b ∷ q) none zero (u, h) = (read_reset-IsUsed b u, refl, Ahead-reset q none h)
Good-reset (b ∷ q) none (suc r) (u, z, h) = (read_reset-IsUsed b u, refl, Good-reset q none r h)
Good-reset (b ∷ q) (some zero) zero (v, h) = (read_reset-IsBlock b v, refl, Spare-reset q h)
Good-reset (b ∷ q) (some zero) (suc r) h = elim h [ ]
Good-reset (b ∷ q) (some (suc w)) zero (u, h) =
    (read_reset-IsUsed b u, refl, Ahead-reset q (some w) h)
Good-reset (b ∷ q) (some (suc w)) (suc r) (u, z, h) =
    (read_reset-IsUsed b u, refl, Good-reset q (some w) r h)

-- A queue of which nothing was read is read from its first block.
pub Ahead-Good : (b : Nb) (q : List Nb) (w : Iter) → Ahead (b ∷ q) w → Good (b ∷ q) w 0
Ahead-Good b q none (u, z, h) = (u, h)
Ahead-Good b q (some zero) (v, z, h) = (v, h)
Ahead-Good b q (some (suc w)) (u, z, h) = (u, h)

pub Ahead-IsReady : (b : Nb) (q : List Nb) (w : Iter) → Ahead (b ∷ q) w → IsReady (b ∷ q) (some 0)
unfolding avail
Ahead-IsReady b q none (u, z, h) d e = inl (ground (arith, u.held))
Ahead-IsReady b q (some zero) (v, z, h) d e = ground (arith, avail-Spare q h)
Ahead-IsReady b q (some (suc w)) (u, z, h) d e = inl (ground (arith, u.held))

sum_avail-Spare : (n : ℕ) (q : List Nb) → Spare q → n < 2 ^ 64 → sum_avail n q ≡ n
unfolding sum_avail
sum_avail-Spare n [] h l = refl
sum_avail-Spare n (b ∷ q) (h, hs) l =
    let z : read_avail b ≡ 0 = omega (arith, read_avail_lem b h.block, h.empty) in
    let e : add64 n (read_avail b) ≡ n = omega (arith, z, add64_lem n (read_avail b)) in
    rw e (sum_avail-Spare n q hs l)

-- The sum does not wrap around while the total fits.
pub sum_avail-avail :
    (n : ℕ) (q : List Nb) (w : Iter)
    → Ahead q w
    → n + avail q < 2 ^ 64
    → sum_avail n q ≡ n + avail q
unfolding sum_avail avail
sum_avail-avail n [] w h l = omega arith
sum_avail-avail n (b ∷ q) none (u, z, h) l =
    let e : add64 n (read_avail b) ≡ n + (b.written - b.read) =
      omega (arith, read_avail_lem b u.block, add64_lem n (read_avail b)) in
    rw e (sum_avail-avail (n + (b.written - b.read)) q none h (omega arith) ∙ omega arith)
sum_avail-avail n (b ∷ q) (some zero) (v, z, h) l =
    let e : add64 n (read_avail b) ≡ n + (b.written - b.read) =
      omega (arith, read_avail_lem b v, add64_lem n (read_avail b)) in
    rw e (
      sum_avail-Spare (n + (b.written - b.read)) q h (omega arith) ∙ omega (arith, avail-Spare q h))
sum_avail-avail n (b ∷ q) (some (suc w)) (u, z, h) l =
    let e : add64 n (read_avail b) ≡ n + (b.written - b.read) =
      omega (arith, read_avail_lem b u.block, add64_lem n (read_avail b)) in
    rw e (sum_avail-avail (n + (b.written - b.read)) q (some w) h (omega arith) ∙ omega arith)

pub unread-reset : (q : List Nb) → unread (map read_reset q) ≡ contents q
unfolding unread contents read_reset
unread-reset [] = refl
unread-reset (b ∷ q) = rw (unread-reset q)

pub contents-reset : (q : List Nb) → contents (map read_reset q) ≡ contents q
unfolding contents read_reset
contents-reset [] = refl
contents-reset (b ∷ q) = rw (contents-reset q)
