-- ===== src/Nbq/Write.antt =====
-- Writing: `b_write_incr`, `b_write_add_avail` and the loop of `nbq::write`.
pub mod Room
pub mod Loop
use is.Prelude.{
  ℕ, zero, suc, ◌+◌, ◌-◌, ◌^◌, ◌≤◌, ◌<◌, ◌≡◌, ◌≢◌, ◌⊎◌, inl, inr, refl, sym, ap, ◌∙◌, List, [], ◌∷◌,
  ◌++◌, append_assoc, append-nil, none, some, Option, Bool, true, false, not, ◌&&◌, arith, length,
  get_elem?, set, take, drop, min, length-append, ℤ, ltb, ◌==◌, if◌then◌else◌, ◌>>=◌, Bool-cases,
  get_elem?-set_self, length-set, add64, add64_lem, length-take, take-append-drop, take_all,
}
use is.Nbq.State.{
  Nb, Nbq, Iter, new_nb, begin, last, next, at_pos, deref, put_at, iter_eq, write_avail, read_avail,
  write_inc, copy_in, skip_full, b_write_incr, b_write_avail, b_write_add_avail,
}
use is.Nbq.Ops.{int32_le_zero, make_room, write_chunk, write_loop, write}
use is.Nbq.Shape.{IsBlock, IsSpare, Good, Cursors, IsReady, Readable, Inv, unread, contents, avail}
use is.Nbq.Shape.Blocks.{
  put, put-IsBlock, written-put, read-put, write_avail_lem, read_avail_lem, new_nb-IsSpare,
}
use is.Nbq.Shape.Cursors.{
  Good-Cursors, Cursors-Good, Cursors-none, Good-write, Good-read, Good-write_lt, avail_same,
  Good-write_block, Good-ahead,
}
use is.Nbq.Shape.Changes.{Puts, Good-put, Good-next_write, Good-next_read, Good-push}

set-set : {A : Type 0} (q : List A) (w : ℕ) (x y : A) → set (set q w x) w y ≡ set q w y
set-set [] w x y = refl
set-set (c ∷ q) zero x y = refl
set-set (c ∷ q) (suc w) x y = ap (λ p. c ∷ p) (set-set q w x y)

pub get_elem?-lt :
    {A : Type 0} (q : List A) (i : ℕ) → i < length q → (a : A) × (get_elem? q i ≡ some a)
get_elem?-lt [] i h = elim h [ ]
get_elem?-lt (a ∷ q) zero h = (a, refl)
get_elem?-lt (a ∷ q) (suc i) h = get_elem?-lt q i (omega arith)

-- The write cursor stays, or moves on to the next block.
skip_full_lem :
    (q : List Nb) (w r : ℕ) (b : Nb)
    → Good q (some w) r
    → get_elem? q w ≡ some b
    → 0 < b.written
    → (v : ℕ) × (skip_full q (some w) b ≡ some v) × Good q (some v) r × (w ≤ v)
unfolding skip_full
skip_full_lem [] w r b g e p = elim g [ ]
skip_full_lem (c ∷ q) w r b g e p = elim (Bool-cases (write_avail b == 0 && not (w == length q))) [
  | inl t ↦
      let lt : suc w < length (c ∷ q) = ground (arith, Good-write_lt (c ∷ q) w r g) in
      (suc w, rw t (ground arith), Good-next_write (c ∷ q) w r b g e p lt, omega arith)
  | inr f ↦ (w, rw f, g, omega arith)
]

-- Where the read block is exhausted the read cursor moves on, and then stands on unread bytes.
module _ (q : List Nb) (w v r : ℕ) (b : Nb) (g : Good q (some w) r) (e : get_elem? q w ≡ some b)
    (held : b.read < b.written) (g' : Good q (some v) r) (le : w ≤ v) where
  next_read_lem :
      (c : Nb)
      → get_elem? q r ≡ some c
      → c.read ≡ c.written
      → (next q (some r) ≡ some (suc r)) × Good q (some v) (suc r) × IsReady q (some (suc r))
  next_read_lem c ec done = elim (Bool-cases (r == w)) [
    | inl same ↦ absurd (ground arith)
    | inr other ↦
        let lt : r < w = ground (arith, Good-write_lt q w r g) in
        let fits : suc r < length q = omega (arith, (Good-write_lt q w r g).1) in
        (
          ground arith,
          Good-next_read q (some v) r c g' ec done (λ x. ground arith) fits,
          λ d ed. elim (Bool-cases (suc r == w)) [
            | inl at ↦ inl (ground (arith, Good-write_block q w r b g e))
            | inr before ↦
                let l : suc r < w = ground arith in
                let f = Good-ahead q (some w) r d g ed (λ u x. ground arith) in
                inl (omega (arith, f.0, f.1))
          ],
        )
  ]

-- What a write of `bytes` does to a queue.
pub record Wrote (s s' : Nbq) (bytes : List ℕ) : Type 0 where
  pub inv : Inv s'
  pub unread_wrote : unread s'.q ≡ unread s.q ++ bytes
  pub contents_wrote : contents s'.q ≡ contents s.q ++ bytes
  pub avail_wrote : avail s'.q ≡ avail s.q + length bytes
  pub bsize_wrote : s'.bsize ≡ s.bsize

module _ (s : Nbq) (w r : ℕ) (b : Nb) (bytes : List ℕ) (ew : s.cur_write_block ≡ some w)
    (er : s.cur_read_block ≡ some r) (g : Good s.q (some w) r) (e : get_elem? s.q w ≡ some b)
    (i : Inv s) (block : IsBlock b) (fits : b.written + length bytes ≤ b.len)
    (some_bytes : 0 < length bytes) (room : avail s.q + length bytes < 2 ^ 64) where
  abbrev changed : List Nb
  changed = set s.q w (put bytes b)

  put_eq : get_elem? changed w ≡ some (put bytes b)
  put_eq = get_elem?-set_self s.q w _ (Good-write_lt s.q w r g).1

  put_held : 0 < (put bytes b).written
  put_held = omega (arith, written-put b bytes block fits)

  put_unread : (put bytes b).read < (put bytes b).written
  put_unread =
      omega (arith, written-put b bytes block fits, read-put b bytes block fits, block.read_le)

  changed_lem : Good changed (some w) r × Puts s.q changed bytes
  changed_lem = Good-put b bytes block fits s.q w r g e

  -- The state before the test of the read block.
  moved : ℕ → Nbq
  moved v = record s {
    q = changed;
    cur_write_offset = add64 s.cur_write_offset (length bytes);
    total_read_avail = add64 s.total_read_avail (length bytes);
    cur_write_block = some v;
  }

  write_chunk_eq :
      (v : ℕ) (c : Nb)
      → skip_full changed (some w) (put bytes b) ≡ some v
      → get_elem? changed r ≡ some c
      → write_chunk bytes s
        ≡ some (
            if read_avail c == 0
            then record (moved v) { cur_read_block = next changed (some r) }
            else moved v)
  unfolding write_chunk b_write_incr moved
  write_chunk_eq v c ev ec = ground (
    arith,
    set-set s.q w (copy_in bytes b) (put bytes b),
    get_elem?-set_self s.q w (copy_in bytes b) (Good-write_lt s.q w r g).1,
  )

  wrote :
      (s' : Nbq) (v t : ℕ)
      → s'.q ≡ changed
      → s'.bsize ≡ s.bsize
      → s'.cur_write_block ≡ some v
      → s'.cur_read_block ≡ some t
      → s'.total_read_avail ≡ add64 s.total_read_avail (length bytes)
      → Good changed (some v) t
      → IsReady changed (some t)
      → Wrote s s' bytes
  wrote s' v t eq eb ev et en good ready =
      let p = changed_lem.1 in
      record {
        inv = record {
          readable = record {
            cursors = rw (eq, ev, et) (Good-Cursors changed (some v) t good);
            ready = rw (eq, et) ready;
            counted = rw eq (
                en
                ∙ add64_lem s.total_read_avail (length bytes) (omega (arith, i.readable.counted))
                ∙ omega (arith, i.readable.counted, p.avail_put));
            bounded = rw eq (omega (arith, p.avail_put));
          };
          writable = λ z. ground arith;
          positive = rw eb i.positive;
          block_size = rw eb i.block_size;
        };
        unread_wrote = rw eq p.unread_put;
        contents_wrote = rw eq p.contents_put;
        avail_wrote = rw eq p.avail_put;
        bsize_wrote = eb;
      }

  pub write_chunk_lem : (s' : Nbq) × (write_chunk bytes s ≡ some s') × Wrote s s' bytes
  unfolding moved
  write_chunk_lem =
      let (v, ev, gv, le) = skip_full_lem changed w r (put bytes b) changed_lem.0 put_eq put_held in
      let (c, ec, bc) = Good-read changed (some w) r changed_lem.0 in
      elim (Bool-cases (read_avail c == 0)) [
        | inl t ↦
            let done : c.read ≡ c.written = ground (arith, read_avail_lem c bc, bc.read_le) in
            let (en, gn, ready) =
              next_read_lem changed w v r (put bytes b) changed_lem.0 put_eq put_unread gv le c ec
                done in
            (
              record (moved v) { cur_read_block = next changed (some r) },
              write_chunk_eq v c ev ec ∙ rw t,
              wrote _ v (suc r) refl refl refl en refl gn ready,
            )
        | inr f ↦ (
          moved v,
          write_chunk_eq v c ev ec ∙ rw f,
          wrote (moved v) v r refl refl refl er refl gv
              (λ d ed. inl (ground (arith, read_avail_lem c bc, bc.read_le))),
        )
      ]
