-- ===== src/Nbq/Read.antt =====
-- Reading: `b_read_avail` and `b_read_incr`.
pub mod Loop
use is.Prelude.{
  ℕ, zero, suc, ◌+◌, ◌-◌, ◌^◌, ◌%◌, ◌≤◌, ◌<◌, ◌≡◌, ◌≢◌, ◌⊎◌, inl, inr, refl, sym, ap, ◌∙◌, List, [],
  ◌∷◌, ◌++◌, append_assoc, append-nil, none, some, Option, Bool, true, false, not, ◌&&◌, arith,
  length, get_elem?, set, take, drop, min, length-append, ℤ, ltb, ◌==◌, if◌then◌else◌, ◌>>=◌,
  Bool-cases, Option-cases, get_elem?-set_self, ==_iff, length-set, sub64, sub32, sub64_lem,
  sub32_lem,
}
use is.Nbq.State.{
  Nb, Nbq, Iter, next, deref, put_at, iter_eq, read_avail, read_inc, copy_out, b_read_avail,
  b_read_incr,
}
use is.Nbq.Shape.{IsBlock, Good, Cursors, IsReady, Readable, Inv, unread, contents, avail}
use is.Nbq.Shape.Blocks.{read_avail_lem, read-read_inc, read_inc-IsBlock}
use is.Nbq.Shape.Cursors.{
  Good-Cursors, Good-read, Good-write_lt, avail_same, avail_read, avail_last, Good-write_block,
  Good-ahead,
}
use is.Nbq.Shape.Changes.{Good-next_read}
use is.Nbq.Shape.Reads.{Takes, Good-read_inc}
use is.Nbq.Write.{get_elem?-lt}

iter_eq_iff : (i j : Iter) → iter_eq i j ≡ true → i ≡ j
iter_eq_iff none none e = refl
iter_eq_iff none (some j) e = cc
iter_eq_iff (some i) none e = cc
iter_eq_iff (some i) (some j) e = ground arith

-- What consuming `n` bytes does to a queue.
pub record Took (s s' : Nbq) (n : ℕ) : Type 0 where
  pub readable : Readable s'
  pub unread_took : unread s'.q ≡ drop n (unread s.q)
  pub contents_took : contents s'.q ≡ contents s.q
  pub avail_took : avail s.q ≡ avail s'.q + n
  pub length_took : length s'.q ≡ length s.q
  pub write_took : s'.cur_write_block ≡ s.cur_write_block
  pub bsize_took : s'.bsize ≡ s.bsize

module _ (s : Nbq) (r : ℕ) (b : Nb) (er : s.cur_read_block ≡ some r)
    (g : Good s.q s.cur_write_block r) (e : get_elem? s.q r ≡ some b) (h : Readable s)
    (block : IsBlock b) where
  -- Where both cursors meet, the count of the whole queue is the block's.
  pub b_read_avail_lem : b_read_avail s ≡ some (b.written - b.read)
  unfolding b_read_avail
  b_read_avail_lem = elim (Bool-cases (iter_eq (some r) s.cur_write_block)) [
    | inl t ↦
        let same : s.cur_write_block ≡ some r = sym (iter_eq_iff _ _ t) in
        let all : avail s.q ≡ b.written - b.read = avail_same s.q r b (rw same at g) e in
        rw (er, b_read_avail)
          (rw t (ap some (omega (arith, h.counted, block.small, block.written_le))))
    | inr f ↦ ground (arith, read_avail_lem b block)
  ]

  module _ (n : ℕ) (fits : b.read + n ≤ b.written) where
    abbrev changed : List Nb
    changed = set s.q r (read_inc n b)

    abbrev left : ℕ
    left = sub64 s.total_read_avail n

    found : get_elem? changed r ≡ some (read_inc n b)
    found = get_elem?-set_self s.q r (read_inc n b) (in_range s.q r b e)
      where
        in_range : (q : List Nb) (i : ℕ) (c : Nb) → get_elem? q i ≡ some c → i < length q
        in_range [] i c x = cc
        in_range (a ∷ q) zero c x = omega arith
        in_range (a ∷ q) (suc i) c x = omega (arith, in_range q i c x)

    changed_lem : Good changed s.cur_write_block r × Takes s.q changed n (copy_out n b)
    changed_lem = Good-read_inc b n block fits s.q s.cur_write_block r g e

    left_lem : left ≡ avail changed
    left_lem =
        sub64_lem s.total_read_avail n (omega (arith, h.counted, changed_lem.1.avail_take))
          (omega (arith, h.counted, h.bounded))
        ∙ omega (arith, h.counted, changed_lem.1.avail_take)

    after : ℕ → Nbq
    after t = record s { q = changed; total_read_avail = left; cur_read_block = some t }

    after_lem :
        (t : ℕ) → Good changed s.cur_write_block t → IsReady changed (some t) → Took s (after t) n
    unfolding after
    after_lem t good ready =
        let p = changed_lem.1 in
        record {
          readable = record {
            cursors = Good-Cursors changed s.cur_write_block t good;
            ready = ready;
            counted = left_lem;
            bounded = omega (arith, p.avail_take, h.bounded);
          };
          unread_took = p.unread_take;
          contents_took = p.contents_take;
          avail_took = p.avail_take;
          length_took = length-set s.q r (read_inc n b);
          write_took = refl;
          bsize_took = refl;
        }

    abbrev leaves : Bool
    leaves = sub32 (b.written - b.read) n == 0 && not (left == 0)

    b_read_incr_eq :
        b_read_incr n s
        ≡ some (record s {
          q = changed;
          total_read_avail = left;
          cur_read_block = if leaves then next changed (some r) else some r;
        })
    unfolding b_read_incr
    b_read_incr_eq = ground (arith, b_read_avail_lem)

    -- The block is consumed and more is unread, so there is a block to go on to.
    module _ (done : (read_inc n b).read ≡ (read_inc n b).written) (more : left ≢ 0) where
      apart : s.cur_write_block ≢ some r
      apart same = more (
          left_lem
          ∙ avail_same changed r (read_inc n b) (rw same at changed_lem.0) found
          ∙ omega arith)

      inside : suc r < length changed
      inside = elim (Option-cases s.cur_write_block) [
        | inl ew ↦ elim (Bool-cases (ltb (suc r) (length changed))) [
          | inl t ↦ ground arith
          | inr f ↦ absurd (
              more (
                left_lem
                ∙ avail_last changed r (read_inc n b) (rw ew at changed_lem.0) found done
                    (ground arith)))
        ]
        | inr (w, ew) ↦
            let lt = Good-write_lt changed w r (rw ew at changed_lem.0) in
            elim (Bool-cases (r == w)) [
              | inl t ↦ absurd (apart (ew ∙ ap some (ground arith)))
              | inr f ↦ ground (arith, lt.0, lt.1)
            ]
      ]

      onward : Good changed s.cur_write_block (suc r)
      onward =
          Good-next_read changed s.cur_write_block r (read_inc n b) changed_lem.0 found done apart
            inside

      onward-IsReady : IsReady changed (some (suc r))
      onward-IsReady d ed = elim (Option-cases s.cur_write_block) [
        | inl ew ↦
            let f = Good-ahead changed none r d (rw ew at changed_lem.0) ed (λ v x. cc) in
            inl (omega (arith, f.0, f.1))
        | inr (w, ew) ↦ elim (Bool-cases (suc r == w)) [
          | inl t ↦
              let all : avail changed ≡ d.written - d.read =
                avail_same changed (suc r) d
                  (rw (ew ∙ ap some (sym ((==_iff (suc r) w).0 t))) at onward) ed in
              elim (Bool-cases (ltb d.read d.written)) [
                | inl l ↦ inl (ground arith)
                | inr l ↦ inr (all ∙ ground arith)
              ]
          | inr f ↦
              let le = (Good-write_lt changed w (suc r) (rw ew at onward)).0 in
              let m =
                Good-ahead changed (some w) r d (rw ew at changed_lem.0) ed (λ v x. ground arith) in
              inl (omega (arith, m.0, m.1))
        ]
      ]

    -- `b_read_incr` consumes `n` bytes of the block under the read cursor.
    pub b_read_incr_lem : (s' : Nbq) × (b_read_incr n s ≡ some s') × Took s s' n
    unfolding after
    b_read_incr_lem = elim (Bool-cases leaves) [
      | inl t ↦
          let none_here : sub32 (b.written - b.read) n ≡ 0 = ground arith in
          let done : (read_inc n b).read ≡ (read_inc n b).written =
            unfold read_inc in omega (arith, read-read_inc b n block fits, none_here, here_lem) in
          let more : left ≢ 0 = λ z. ground arith in
          (
            after (suc r),
            b_read_incr_eq
                ∙ rw t (
                    ap (λ (c : Iter). some (record (after r) { cur_read_block = c }))
                      (step (inside done more))),
            after_lem (suc r) (onward done more) (onward-IsReady done more),
          )
      | inr f ↦ (after r, b_read_incr_eq ∙ rw f, after_lem r changed_lem.0 (stays f))
    ]
      where
        here_lem : sub32 (b.written - b.read) n ≡ b.written - b.read - n
        here_lem =
            sub32_lem (b.written - b.read) n (omega arith)
              (omega (arith, block.small, block.written_le))

        step : suc r < length changed → next changed (some r) ≡ some (suc r)
        step lt = ground arith

        stays : leaves ≡ false → IsReady changed (some r)
        stays f d ed =
            let same : read_inc n b ≡ d = ground (arith, found) in
            elim (Bool-cases (left == 0)) [
              | inl z ↦ inr (sym left_lem ∙ ground arith)
              | inr m ↦ inl (
                  rw (← same)
                    (unfold read_inc in ground (arith, read-read_inc b n block fits, here_lem)))
            ]

    pub copy_out-take : copy_out n b ≡ take n (unread s.q)
    copy_out-take = changed_lem.1.out_take
