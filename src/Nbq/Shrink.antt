-- ===== src/Nbq/Shrink.antt =====
-- `nbq::shrink`: the blocks before the read cursor are freed.
use is.Prelude.{
  length-zero, ℕ, zero, suc, ◌≡◌, refl, sym, ap, ◌∙◌, List, [], ◌∷◌, Option, none, some, true,
  false, not, ◌&&◌, ◌||◌, ◌==◌, arith, get_elem?, Bool-cases, inl, inr, sub64, ◌>>=◌, if◌then◌else◌,
}
use is.Nbq.State.{Nb, Nbq, Iter, begin, deref, iter_eq, read_avail, write_avail}
use is.Nbq.Ops.{shrink_loop, shrink, reset}
use is.Nbq.Shape.{IsBlock, Good, IsReady, Inv, unread_bytes, unread, avail}
use is.Nbq.Shape.Blocks.{read_avail_lem, length-unread_bytes}
use is.Nbq.Shape.Cursors.{Good-Cursors, Good-read, avail_same}
use is.Nbq.Read.Loop.{length-unread-avail}
use is.Nbq.Write.Room.{Inv-cursors}

-- What the loop leaves of the queue `s`, whose cursors are `w` and `r`.
record Shrunk (q : List Nb) (w r off : ℕ) (s : Nbq) : Type 0 where
  q' : List Nb
  w' : ℕ
  off' : ℕ
  b : Nb
  loop : shrink_loop q (some w) (some r) off s ≡ record s {
    q = q';
    cur_write_block = some w';
    cur_read_block = some 0;
    cur_write_offset = off';
  }
  good : Good q' (some w') 0
  same_unread : unread q' ≡ unread q
  same_avail : avail q' ≡ avail q
  same_read : get_elem? q' 0 ≡ get_elem? q r
  found : get_elem? q' 0 ≡ some b
  block : IsBlock b
  first : begin q' ≡ some 0
  meet : (w ≡ r → w' ≡ 0) × (w' ≡ 0 → w ≡ r)

shrink_loop_step :
    (b : Nb) (q : List Nb) (w r off : ℕ) (s : Nbq)
    → shrink_loop (b ∷ q) (some (suc w)) (some (suc r)) off s
      ≡ shrink_loop q (some w) (some r) (sub64 off b.len) s
unfolding shrink_loop
shrink_loop_step b q w r off s = ground arith

shrink_loop_lem : (q : List Nb) (w r off : ℕ) (s : Nbq) → Good q (some w) r → Shrunk q w r off s
shrink_loop_lem [] w r off s g = elim g [ ]
shrink_loop_lem (b ∷ q) zero (suc r) off s g = elim g [ ]
shrink_loop_lem (b ∷ q) w zero off s g =
    let (c, ec, v) = Good-read (b ∷ q) (some w) 0 g in
    record {
      q' = b ∷ q;
      w' = w;
      off' = off;
      b = c;
      loop = unfold shrink_loop in refl;
      good = g;
      same_unread = refl;
      same_avail = refl;
      same_read = refl;
      found = ec;
      block = v;
      first = refl;
      meet = (λ e. e, λ e. e);
    }
shrink_loop_lem (b ∷ q) (suc w) (suc r) off s (u, d, g) =
    let t = shrink_loop_lem q w r (sub64 off b.len) s g in
    let none_left : unread_bytes b ≡ [] =
      length-zero (unread_bytes b) (omega (arith, length-unread_bytes b u.block)) in
    record {
      q' = t.q';
      w' = t.w';
      off' = t.off';
      b = t.b;
      loop = shrink_loop_step b q w r off s ∙ t.loop;
      good = t.good;
      same_unread = t.same_unread ∙ unfold unread in (rw none_left refl);
      same_avail = t.same_avail ∙ unfold avail in (omega arith);
      same_read = t.same_read;
      found = t.found;
      block = t.block;
      first = t.first;
      meet = (λ e. t.meet.0 (omega arith), λ e. ap suc (t.meet.1 e));
    }

-- What follows the loop.
abbrev finish : Nbq → Option Nbq
finish t =
    elim (iter_eq t.cur_read_block none || not (iter_eq t.cur_read_block t.cur_write_block)) [
      | true ↦ some t
      | false ↦ do
        b ← deref t.q t.cur_read_block
        some (if read_avail b == 0 && write_avail b == 0 then reset t else t)
    ]

shrink_step :
    (s t : Nbq)
    → shrink_loop s.q s.cur_write_block s.cur_read_block s.cur_write_offset s ≡ t
    → shrink s ≡ finish t
unfolding shrink
shrink_step s t e = ap finish e

-- A queue after `shrink`.
pub record Kept (s s' : Nbq) : Type 0 where
  pub inv : Inv s'
  pub unread_kept : unread s'.q ≡ unread s.q
  pub read_first : s'.cur_read_block ≡ begin s'.q

module _ (s : Nbq) (i : Inv s) (w r : ℕ) (ew : s.cur_write_block ≡ some w)
    (er : s.cur_read_block ≡ some r) (g : Good s.q (some w) r) where
  abbrev left : Shrunk s.q w r s.cur_write_offset s
  left = shrink_loop_lem s.q w r s.cur_write_offset s g

  abbrev after : Nbq
  after = record s {
    q = left.q';
    cur_write_block = some left.w';
    cur_read_block = some 0;
    cur_write_offset = left.off';
  }

  after-Kept : Kept s after
  after-Kept = record {
    inv = record {
      readable = record {
        cursors = Good-Cursors left.q' (some left.w') 0 left.good;
        ready = λ b e.
            let ready : IsReady s.q (some r) = rw er at i.readable.ready in
            elim (ready b (sym left.same_read ∙ e)) [
              | inl l ↦ inl l
              | inr z ↦ inr (left.same_avail ∙ z)
            ];
        counted = i.readable.counted ∙ sym left.same_avail;
        bounded = omega (arith, left.same_avail, i.readable.bounded);
      };
      writable = λ e. cc;
      positive = i.positive;
      block_size = i.block_size;
    };
    unread_kept = left.same_unread;
    read_first = sym left.first;
  }

  reset-Kept : (left.w' ≡ 0) → read_avail left.b ≡ 0 → Kept s (reset after)
  unfolding reset
  reset-Kept z e = record {
    inv = record {
      readable = record {
        cursors = tt;
        ready = tt;
        counted = unfold avail in refl;
        bounded = unfold avail in omega arith;
      };
      writable = λ x. refl;
      positive = i.positive;
      block_size = i.block_size;
    };
    unread_kept =
        let good : Good left.q' (some 0) 0 = rw z at left.good in
        unfold unread in
        sym (
          length-zero (unread s.q) (
            omega (
              arith,
              length-unread-avail s i.readable,
              left.same_avail,
              avail_same left.q' 0 left.b good left.found,
              read_avail_lem left.b left.block,
            )));
    read_first = refl;
  }

  shrink_eq : shrink s ≡ finish after
  shrink_eq = shrink_step s after (
      ap (λ x. shrink_loop s.q x s.cur_read_block s.cur_write_offset s) ew
      ∙ ap (λ y. shrink_loop s.q (some w) y s.cur_write_offset s) er
      ∙ left.loop)

  shrink_cursors : (s' : Nbq) × (shrink s ≡ some s') × Kept s s'
  shrink_cursors = elim (Bool-cases (left.w' == 0)) [
    | inr f ↦ (after, shrink_eq ∙ ground (arith, f), after-Kept)
    | inl z ↦ elim (Bool-cases (read_avail left.b == 0 && write_avail left.b == 0)) [
      | inr f ↦ (after, shrink_eq ∙ ground (arith, f, z, left.found), after-Kept)
      | inl y ↦ (
        reset after,
        shrink_eq ∙ ground (arith, y, z, left.found),
        reset-Kept (ground arith) (ground arith),
      )
    ]
  ]

shrink_loop-nil :
    (w r : Iter) (off : ℕ) (s : Nbq)
    → shrink_loop [] w r off s
      ≡ record s { q = []; cur_write_block = w; cur_read_block = r; cur_write_offset = off }
unfolding shrink_loop
shrink_loop-nil w r off s = refl

module _ (s : Nbq) (i : Inv s) (e : s.q ≡ []) (ew : s.cur_write_block ≡ none)
    (er : s.cur_read_block ≡ none) where
  abbrev emptied : Nbq
  emptied = record s { q = []; cur_write_block = none; cur_read_block = none }

  shrink_empty : (s' : Nbq) × (shrink s ≡ some s') × Kept s s'
  shrink_empty = (
    emptied,
    shrink_step s emptied (
        ap (λ q. shrink_loop q s.cur_write_block s.cur_read_block s.cur_write_offset s) e
        ∙ shrink_loop-nil s.cur_write_block s.cur_read_block s.cur_write_offset s
        ∙ ap (λ x. record s { q = []; cur_write_block = x }) ew
        ∙ ap (λ y. record s { q = []; cur_write_block = none; cur_read_block = y }) er),
    record {
      inv = record {
        readable = record {
          cursors = tt;
          ready = tt;
          counted = i.readable.counted ∙ ap avail e;
          bounded = unfold avail in omega arith;
        };
        writable = λ x. refl;
        positive = i.positive;
        block_size = i.block_size;
      };
      unread_kept = ap unread (sym e);
      read_first = refl;
    },
  )

-- `shrink` keeps a well-formed queue well-formed and all that is unread, and frees every block
-- before the one under the read cursor.
pub shrink-keeps : (s : Nbq) → Inv s → (s' : Nbq) × (shrink s ≡ some s') × Kept s s'
shrink-keeps s i = elim (Inv-cursors s i) [
  | inl (e, ew, er) ↦ shrink_empty s i e ew er
  | inr (w, r, ew, er, g) ↦ shrink_cursors s i w r ew er g
]
