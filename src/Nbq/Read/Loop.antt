-- ===== src/Nbq/Read/Loop.antt =====
-- The loop of `nbq::read`, and what `read` and `peek` do.
use is.Prelude.{
  ℕ, zero, suc, ◌+◌, ◌-◌, ◌≤◌, ◌<◌, ◌≡◌, inl, inr, refl, sym, ap, subst, ◌∙◌, List, [], ◌∷◌, ◌++◌,
  append_assoc, append-nil, none, some, Option, Bool, true, false, arith, length, get_elem?, take,
  drop, min, if◌then◌else◌, Option-cases, drop-drop, take-add,
}
use mathlib.Core.Path.{ap₂}
use native.Mathlib.Nat.{add-zero}
use is.Nbq.State.{Nb, Nbq, copy_out, b_read_avail, b_read_incr}
use is.Nbq.Ops.{read_loop, read, peek}
use is.Nbq.Shape.{IsBlock, Good, Cursors, IsReady, Readable, unread, avail}
use is.Nbq.Shape.Cursors.{Cursors-Good, Cursors-none, Good-read, length-unread}
use is.Nbq.Read.{Took, b_read_avail_lem, b_read_incr_lem, copy_out-take}

pub Took-zero : (s : Nbq) → Readable s → Took s s 0
Took-zero s h = record {
  readable = h;
  unread_took = refl;
  contents_took = refl;
  avail_took = omega arith;
  length_took = refl;
  write_took = refl;
  bsize_took = refl;
}

pub Took-trans : (s t u : Nbq) (m n : ℕ) → Took s t m → Took t u n → Took s u (m + n)
Took-trans s t u m n a b = record {
  readable = b.readable;
  unread_took = b.unread_took ∙ rw a.unread_took (drop-drop n m (unread s.q));
  contents_took = b.contents_took ∙ a.contents_took;
  avail_took = omega (arith, a.avail_took, b.avail_took);
  length_took = b.length_took ∙ a.length_took;
  write_took = b.write_took ∙ a.write_took;
  bsize_took = b.bsize_took ∙ a.bsize_took;
}

-- The block under the read cursor, where something is unread.
pub record Front (s : Nbq) : Type 0 where
  pub r : ℕ
  pub b : Nb
  pub at_read : s.cur_read_block ≡ some r
  pub good : Good s.q s.cur_write_block r
  pub found : get_elem? s.q r ≡ some b
  pub block : IsBlock b
  pub more : b.read < b.written

pub Readable-Front : (s : Nbq) → Readable s → 0 < avail s.q → Front s
Readable-Front s h p = elim (Option-cases s.cur_read_block) [
  | inl e ↦
      let c : Cursors s.q s.cur_write_block none = rw e at h.cursors in
      let z : avail s.q ≡ 0 =
        ap avail (Cursors-none s.q s.cur_write_block c).0 ∙ (unfold avail in refl) in
      absurd (omega arith)
  | inr (r, e) ↦
      let c : Cursors s.q s.cur_write_block (some r) = rw e at h.cursors in
      let g = Cursors-Good s.q s.cur_write_block r c in
      let (b, eb, block) = Good-read s.q s.cur_write_block r g in
      let ready : IsReady s.q (some r) = rw e at h.ready in
      record {
        r = r;
        b = b;
        at_read = e;
        good = g;
        found = eb;
        block = block;
        more = elim (ready b eb) [ inl l ↦ l | inr z ↦ absurd (omega arith) ];
      }
]

read_loop_step :
    (fuel : ℕ) (copy : Bool) (left : ℕ) (out : List ℕ) (n k : ℕ) (b : Nb) (s t : Nbq) (r : ℕ)
    → b_read_avail s ≡ some k
    → s.cur_read_block ≡ some r
    → get_elem? s.q r ≡ some b
    → b_read_incr (min k (suc left)) s ≡ some t
    → read_loop (suc fuel) copy (suc left) out n s
      ≡ read_loop fuel copy
          (suc left - min k (suc left))
          (if copy then out ++ copy_out (min k (suc left)) b else out)
          (n + min k (suc left))
          t
unfolding read_loop
read_loop_step fuel copy left out n k b s t r ea er eb ei = simp (ea, er, eb, ei)

abbrev gathered : Bool → List ℕ → ℕ → Nbq → List ℕ
gathered copy out n s = if copy then out ++ take n (unread s.q) else out

gathered-add :
    (copy : Bool) (out : List ℕ) (k rest : ℕ) (b : Nb) (s t : Nbq)
    → copy_out k b ≡ take k (unread s.q)
    → unread t.q ≡ drop k (unread s.q)
    → gathered copy (if copy then out ++ copy_out k b else out) rest t
      ≡ gathered copy out (k + rest) s
gathered-add true out k rest b s t ec eu =
    rw (ec, eu, append_assoc) (ap (λ xs. out ++ xs) (sym (take-add k rest (unread s.q))))
gathered-add false out k rest b s t ec eu = refl

-- The end of a round, with the numbers of bytes added up.
rounds :
    (copy : Bool) (left k rest n : ℕ) (out out' : List ℕ) (s u : Nbq)
    (x : Option (Nbq × List ℕ × ℕ))
    → k + rest ≡ left
    → x ≡ some (u, out', n + k + rest)
    → out' ≡ gathered copy out (k + rest) s
    → x ≡ some (u, gathered copy out left s, n + left)
rounds copy left k rest n out out' s u x e ex eo =
    ex ∙ ap₂ (λ o m. some (u, o, m)) (eo ∙ ap (λ m. gathered copy out m s) e) (omega arith)

pub read_loop_lem :
    (fuel : ℕ) (copy : Bool) (left : ℕ) (out : List ℕ) (n : ℕ) (s : Nbq)
    → Readable s
    → left ≤ avail s.q
    → left ≤ fuel
    → (s' : Nbq) × (read_loop fuel copy left out n s
        ≡ some (s', gathered copy out left s, n + left))
      × Took s s' left
read_loop_lem fuel copy zero out n s h l f = (s, none_left copy, Took-zero s h)
  where
    none_left : (c : Bool) → read_loop fuel c zero out n s ≡ some (s, gathered c out zero s, n + 0)
    none_left true = unfold read_loop in rw (append-nil, add-zero)
    none_left false = unfold read_loop in rw add-zero
read_loop_lem zero copy (suc left) out n s h l f = absurd (omega arith)
read_loop_lem (suc fuel) copy (suc left) out n s h l f =
    let w = Readable-Front s h (omega arith) in
    let a : ℕ = w.b.written - w.b.read in
    let k : ℕ = min a (suc left) in
    let rest : ℕ = suc left - k in
    let fits : w.b.read + k ≤ w.b.written = omega (arith, w.more) in
    let (t, et, mt) = b_read_incr_lem s w.r w.b w.at_read w.good w.found h w.block k fits in
    let out' : List ℕ = if copy then out ++ copy_out k w.b else out in
    let (u, eu, mu) =
      read_loop_lem fuel copy rest out' (n + k) t mt.readable (omega (arith, mt.avail_took))
        (omega (arith, w.more)) in
    let step =
      read_loop_step fuel copy left out n a w.b s t w.r
        (b_read_avail_lem s w.r w.b w.at_read w.good w.found h w.block) w.at_read w.found et in
    let total : k + rest ≡ suc left = omega arith in
    (
      u,
      rounds copy (suc left) k rest n out (gathered copy out' rest t) s u _ total (step ∙ eu) (
          gathered-add copy out k rest w.b s t
            (copy_out-take s w.r w.b w.at_read w.good w.found h w.block k fits) mt.unread_took),
      subst (Took s u) total (Took-trans s t u k rest mt mu),
    )

read_eq :
    (copy : Bool) (n a : ℕ) (s : Nbq)
    → s.total_read_avail ≡ a
    → read copy (suc n) s ≡ read_loop (suc n + length s.q) copy (min (suc n) a) [] 0 s
unfolding read
read_eq copy n a s e = ground arith

-- A read of `n` bytes from a well-formed queue hands over the first `n` unread bytes, or all that
-- there are, in order, and returns their number; the queue stays well-formed and keeps the rest.
pub read-takes :
    (n : ℕ) (s : Nbq)
    → Readable s
    → (s' : Nbq) × (read true n s
        ≡ some (s', take (min n (avail s.q)) (unread s.q), min n (avail s.q)))
      × Took s s' (min n (avail s.q))
unfolding read
read-takes zero s h = let z : min 0 (avail s.q) ≡ 0 = omega arith in (s, rw z, rw z (Took-zero s h))
read-takes (suc n) s h =
    let k : ℕ = min (suc n) (avail s.q) in
    let (t, e, m) =
      read_loop_lem (suc n + length s.q) true k [] 0 s h (omega arith) (omega arith) in
    (
      t,
      read_eq true n (avail s.q) s h.counted
          ∙ (e ∙ ap (λ j. some (t, take k (unread s.q), j)) {x = 0 + k} (omega arith)),
      m,
    )

-- The same with no buffer: the bytes are skipped.
pub read_skip :
    (n : ℕ) (s : Nbq)
    → Readable s
    → (s' : Nbq) × (read false n s ≡ some (s', [], min n (avail s.q)))
      × Took s s' (min n (avail s.q))
unfolding read
read_skip zero s h = let z : min 0 (avail s.q) ≡ 0 = omega arith in (s, rw z, rw z (Took-zero s h))
read_skip (suc n) s h =
    let k : ℕ = min (suc n) (avail s.q) in
    let (t, e, m) =
      read_loop_lem (suc n + length s.q) false k [] 0 s h (omega arith) (omega arith) in
    (
      t,
      read_eq false n (avail s.q) s h.counted
          ∙ (e ∙ ap (λ j. some (t, [], j)) {x = 0 + k} (omega arith)),
      m,
    )

-- The blocks count their unread bytes right.
pub length-unread-avail : (s : Nbq) → Readable s → length (unread s.q) ≡ avail s.q
length-unread-avail s h = elim (Option-cases s.cur_read_block) [
  | inl e ↦
      let c : Cursors s.q s.cur_write_block none = rw e at h.cursors in
      rw (Cursors-none s.q s.cur_write_block c).0 (unfold avail unread in refl)
  | inr (r, e) ↦
      let c : Cursors s.q s.cur_write_block (some r) = rw e at h.cursors in
      length-unread s.q s.cur_write_block r (Cursors-Good s.q s.cur_write_block r c)
]

-- `peek` is the first unread byte, and 0 on a queue where nothing is unread.
peek-head :
    (s : Nbq) (c : ℕ) (rest : List ℕ)
    → Readable s
    → ((unread s.q ≡ c ∷ rest → peek s ≡ some c) × (unread s.q ≡ [] → peek s ≡ some 0))
unfolding peek
peek-head s c rest h = (full, λ e. ground (arith, h.counted, length-unread-avail s h, ap length e))
  where
    full : unread s.q ≡ c ∷ rest → peek s ≡ some c
    full e =
        let l : avail s.q ≡ suc (length rest) = sym (length-unread-avail s h) ∙ ap length e in
        let w = Readable-Front s h (omega arith) in
        let one : copy_out 1 w.b ≡ c ∷ [] =
          copy_out-take s w.r w.b w.at_read w.good w.found h w.block 1 (omega (arith, w.more))
          ∙ ap (take 1) e in
        ground (arith, h.counted, l, w.at_read, w.found, one)
