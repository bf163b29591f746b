-- ===== src/Nbq/Write/Room.antt =====
-- `make_room`: after it the write block has space.
use is.Prelude.{
  ℕ, suc, ◌^◌, ◌<◌, ◌≡◌, ◌⊎◌, inl, inr, refl, sym, ap, ◌∙◌, List, [], ◌∷◌, ◌++◌, none, some, true,
  false, arith, length, get_elem?, length-append, ltb, Bool-cases, Option-cases,
}
use is.Nbq.State.{Nb, Nbq, new_nb, last, write_avail}
use is.Nbq.Ops.{int32_le_zero, make_room}
use is.Nbq.Write.{get_elem?-lt}
use is.Nbq.Shape.{IsBlock, IsSpare, Good, Cursors, IsReady, Inv, unread, contents, avail}
use is.Nbq.Shape.Blocks.{write_avail_lem, new_nb-IsSpare}
use is.Nbq.Shape.Cursors.{Good-Cursors, Cursors-Good, Cursors-none, Good-write, Good-write_lt}
use is.Nbq.Shape.Changes.{Good-next_write, Good-push}
use is.Nbq.Shape.Append.{unread_push, contents_push, avail_push, get_elem?-append_left, Good-after}

-- A queue with space under its write cursor, which holds the same bytes.
pub record Room (s s' : Nbq) : Type 0 where
  pub inv : Inv s'
  pub unread_room : unread s'.q ≡ unread s.q
  pub contents_room : contents s'.q ≡ contents s.q
  pub avail_room : avail s'.q ≡ avail s.q
  pub bsize_room : s'.bsize ≡ s.bsize
  pub w : ℕ
  pub r : ℕ
  pub b : Nb
  pub at_write : s'.cur_write_block ≡ some w
  pub at_read : s'.cur_read_block ≡ some r
  pub good : Good s'.q (some w) r
  pub found : get_elem? s'.q w ≡ some b
  pub block : IsBlock b
  pub space : b.written < b.len

-- The cursors of a queue that has a block.
pub Inv-cursors :
    (s : Nbq)
    → Inv s
    → ((s.q ≡ []) × (s.cur_write_block ≡ none) × (s.cur_read_block ≡ none))
      ⊎ ((w : ℕ) × (r : ℕ) × (s.cur_write_block ≡ some w)
          × (s.cur_read_block ≡ some r)
          × Good s.q (some w) r)
Inv-cursors s i = elim (Option-cases s.cur_read_block) [
  | inl e ↦
      let h : Cursors s.q s.cur_write_block none = rw e at i.readable.cursors in
      let (a, b) = Cursors-none s.q s.cur_write_block h in inl (a, b, e)
  | inr (r, e) ↦
      let h : Cursors s.q s.cur_write_block (some r) = rw e at i.readable.cursors in
      let g = Cursors-Good s.q s.cur_write_block r h in
      elim (Option-cases s.cur_write_block) [
        | inl ew ↦ (let z : ⊥ = rw (i.writable ew) at g in absurd z)
        | inr (w, ew) ↦ inr (w, r, ew, e, rw ew at g)
      ]
]

last-append : (q : List Nb) (b : Nb) → last (q ++ b ∷ []) ≡ some (length q)
last-append [] b = refl
last-append (c ∷ q) b = rw (length-append q (b ∷ [])) (ap some (omega arith))

int32_lem : (n : ℕ) → 0 < n → n < 2 ^ 31 → int32_le_zero n ≡ false
unfolding int32_le_zero
int32_lem n p h = ground arith

module _ (s : Nbq) (i : Inv s) where
  abbrev fresh : Nb
  fresh = new_nb s.bsize

  fresh-IsSpare : IsSpare fresh
  fresh-IsSpare = new_nb-IsSpare s.bsize i.positive i.block_size

  -- The first block.
  first : Nbq
  first = record s { q = fresh ∷ []; cur_read_block = some 0; cur_write_block = some 0 }

  first-Room : s.q ≡ [] → s.total_read_avail ≡ 0 → Room s first
  unfolding first
  first-Room e t = record {
    inv = record {
      readable = record {
        cursors = (fresh-IsSpare.block, tt);
        ready = λ b h. inr none_left;
        counted = t ∙ sym none_left;
        bounded = rw none_left (omega arith);
      };
      writable = λ h. cc;
      positive = i.positive;
      block_size = i.block_size;
    };
    unread_room = rw e (unread_push fresh fresh-IsSpare []);
    contents_room = rw e (contents_push fresh fresh-IsSpare []);
    avail_room = rw e (avail_push fresh fresh-IsSpare []);
    bsize_room = refl;
    w = 0;
    r = 0;
    b = fresh;
    at_write = refl;
    at_read = refl;
    good = (fresh-IsSpare.block, tt);
    found = refl;
    block = fresh-IsSpare.block;
    space = omega (arith, fresh-IsSpare.empty, fresh-IsSpare.block.has_len);
  }
    where
      none_left : avail (fresh ∷ []) ≡ 0
      none_left = avail_push fresh fresh-IsSpare [] ∙ (unfold avail in refl)

  module _ (w r : ℕ) (ew : s.cur_write_block ≡ some w) (er : s.cur_read_block ≡ some r)
      (g : Good s.q (some w) r) (b : Nb) (e : get_elem? s.q w ≡ some b) (block : IsBlock b) where
    abbrev longer : List Nb
    longer = s.q ++ fresh ∷ []

    -- The full block is left for the one behind it.
    onward : Nbq
    onward = record s { q = longer; cur_write_block = some (suc w) }

    onward-Room : b.written ≡ b.len → (c : Nb) → get_elem? longer (suc w) ≡ some c → Room s onward
    unfolding onward
    onward-Room full c ec = record {
      inv = record {
        readable = record {
          cursors = rw er (Good-Cursors longer (some (suc w)) r good);
          ready = rw er ready;
          counted = i.readable.counted ∙ sym (avail_push fresh fresh-IsSpare s.q);
          bounded = rw (avail_push fresh fresh-IsSpare s.q) i.readable.bounded;
        };
        writable = λ h. cc;
        positive = i.positive;
        block_size = i.block_size;
      };
      unread_room = unread_push fresh fresh-IsSpare s.q;
      contents_room = contents_push fresh fresh-IsSpare s.q;
      avail_room = avail_push fresh fresh-IsSpare s.q;
      bsize_room = refl;
      w = suc w;
      r = r;
      b = c;
      at_write = refl;
      at_read = er;
      good = good;
      found = ec;
      block = spare.block;
      space = omega (arith, spare.empty, spare.block.has_len);
    }
      where
        left : (j : ℕ) → j < length s.q → get_elem? longer j ≡ get_elem? s.q j
        left j = get_elem?-append_left s.q (fresh ∷ []) j

        pushed : Good longer (some w) r
        pushed = Good-push s.q w r fresh g fresh-IsSpare

        spare : IsSpare c
        spare = Good-after longer w r c pushed ec

        good : Good longer (some (suc w)) r
        good =
            Good-next_write longer w r b pushed (left w (Good-write_lt s.q w r g).1 ∙ e)
              (omega (arith, full, block.has_len))
              (omega (arith, length-append s.q (fresh ∷ []), (Good-write_lt s.q w r g).1))

        ready : IsReady longer (some r)
        ready d ed =
            let was : IsReady s.q (some r) = rw er at i.readable.ready in
            let lt = Good-write_lt s.q w r g in
            elim (was d (sym (left r (omega (arith, lt.0, lt.1))) ∙ ed)) [
              | inl l ↦ inl l
              | inr z ↦ inr (avail_push fresh fresh-IsSpare s.q ∙ z)
            ]

    -- The block has space already.
    here-Room : b.written < b.len → Room s s
    here-Room h = record {
      inv = i;
      unread_room = refl;
      contents_room = refl;
      avail_room = refl;
      bsize_room = refl;
      w = w;
      r = r;
      b = b;
      at_write = ew;
      at_read = er;
      good = g;
      found = e;
      block = block;
      space = h;
    }

    make_room_here : b.written < b.len → make_room s ≡ some (s, true)
    unfolding make_room
    make_room_here h = ground (arith, write_avail_lem b block)

    make_room-onward :
        b.written ≡ b.len
        → (c : Nb) → get_elem? longer (suc w) ≡ some c
        → make_room s ≡ some (onward, true)
    unfolding make_room onward
    make_room-onward full c ec = ground (
      arith,
      last-append s.q fresh,
      length-append s.q (fresh ∷ []),
      (Good-write_lt s.q w r g).0,
      (Good-write_lt s.q w r g).1,
      get_elem?-append_left s.q (fresh ∷ []) w (Good-write_lt s.q w r g).1,
      write_avail_lem b block,
      write_avail_lem c spare.block,
      spare.len_int32,
      spare.empty,
      spare.block.has_len,
      int32_lem (write_avail c),
    )
      where
        spare : IsSpare c
        spare = Good-after longer w r c (Good-push s.q w r fresh g fresh-IsSpare) ec

  make_room-first : s.q ≡ [] → s.cur_write_block ≡ none → make_room s ≡ some (first, true)
  unfolding make_room first
  make_room-first e ew = ground (
    arith,
    write_avail_lem fresh fresh-IsSpare.block,
    fresh-IsSpare.len_int32,
    int32_lem (write_avail fresh),
  )

  -- There is always room: the block under the cursor, the one behind it, or a fresh one.
  pub make_room_lem : (s' : Nbq) × (make_room s ≡ some (s', true)) × Room s s'
  make_room_lem = elim (Inv-cursors s i) [
    | inl (e, ew, er) ↦
        let none_left : s.total_read_avail ≡ 0 =
          i.readable.counted ∙ ap avail e ∙ (unfold avail in refl) in
        (first, make_room-first e ew, first-Room e none_left)
    | inr (w, r, ew, er, g) ↦
        let (b, e, block) = Good-write s.q w r g in
        elim (Bool-cases (ltb b.written b.len)) [
          | inl t ↦ (
            s,
            make_room_here w r ew er g b e block (ground arith),
            here-Room w r ew er g b e block (ground arith),
          )
          | inr f ↦
              let full : b.written ≡ b.len = ground (arith, block.written_le) in
              let (c, ec) =
                get_elem?-lt (s.q ++ fresh ∷ []) (suc w)
                  (omega (arith, length-append s.q (fresh ∷ []), (Good-write_lt s.q w r g).1)) in
              (
                onward w r ew er g b e block,
                make_room-onward w r ew er g b e block full c ec,
                onward-Room w r ew er g b e block full c ec,
              )
        ]
  ]
