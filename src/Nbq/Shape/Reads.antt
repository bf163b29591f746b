-- ===== src/Nbq/Shape/Reads.antt =====
-- Consuming bytes of the block under the read cursor, on the list of blocks.
use is.Prelude.{
  ℕ, zero, suc, ◌+◌, ◌≤◌, ◌≡◌, refl, sym, ◌∙◌, List, [], ◌∷◌, none, some, arith, length, get_elem?,
  set, take, drop, drop-append_le, take-append_le, drop_all,
}
use is.Nbq.State.{Nb, read_inc, copy_out, Iter}
use is.Nbq.Shape.{IsBlock, IsUsed, Good, held_bytes, unread_bytes, contents, unread, avail}
use is.Nbq.Shape.Blocks.{
  read_inc-IsBlock, read-read_inc, unread_bytes-read_inc, length-unread_bytes, length-held_bytes,
  copy_out_lem,
}

-- What consuming `n` bytes, which are `out`, does to the queue.
pub record Takes (q q' : List Nb) (n : ℕ) (out : List ℕ) : Type 0 where
  pub unread_take : unread q' ≡ drop n (unread q)
  pub out_take : out ≡ take n (unread q)
  pub contents_take : contents q' ≡ contents q
  pub avail_take : avail q ≡ avail q' + n

consumed : (c : Nb) → IsBlock c → c.read ≡ c.written → unread_bytes c ≡ []
consumed c v e = drop_all c.read (held_bytes c) (omega (arith, length-held_bytes c v))

Takes-cons :
    (c : Nb) (q q' : List Nb) (n : ℕ) (out : List ℕ)
    → IsBlock c
    → c.read ≡ c.written
    → Takes q q' n out
    → Takes (c ∷ q) (c ∷ q') n out
unfolding unread contents avail
Takes-cons c q q' n out v e t = record {
  unread_take = rw (consumed c v e) t.unread_take;
  out_take = rw (consumed c v e) t.out_take;
  contents_take = rw t.contents_take;
  avail_take = omega (arith, t.avail_take);
}

module _ (b : Nb) (n : ℕ) (v : IsBlock b) (fits : b.read + n ≤ b.written) where
  Takes-here : (q : List Nb) → Takes (b ∷ q) (read_inc n b ∷ q) n (copy_out n b)
  unfolding unread contents avail
  Takes-here q =
      let l : n ≤ length (unread_bytes b) = omega (arith, length-unread_bytes b v) in
      record {
        unread_take =
            rw (unread_bytes-read_inc b n v fits, drop-append_le n (unread_bytes b) (unread q) l);
        out_take = copy_out_lem b n v fits ∙ sym (take-append_le n (unread_bytes b) (unread q) l);
        contents_take = unfold read_inc in refl;
        avail_take = unfold read_inc in omega (arith, read-read_inc b n v fits, v.read_le);
      }

  read_inc-IsUsed : IsUsed b → IsUsed (read_inc n b)
  unfolding read_inc
  read_inc-IsUsed u = record { block = read_inc-IsBlock b n v fits; held = u.held }

  pub Good-read_inc :
      (q : List Nb) (w : Iter) (r : ℕ)
      → Good q w r
      → get_elem? q r ≡ some b
      → Good (set q r (read_inc n b)) w r × Takes q (set q r (read_inc n b)) n (copy_out n b)
  Good-read_inc [] w r h e = elim h [ ]
  Good-read_inc (c ∷ q) none zero (u, h) e =
      let same : c ≡ b = ground arith in
      ((read_inc-IsUsed (rw same at u), h), rw same (Takes-here q))
  Good-read_inc (c ∷ q) none (suc r) (u, z, h) e =
      let (g, t) = Good-read_inc q none r h e in ((u, z, g), Takes-cons c q _ n _ u.block z t)
  Good-read_inc (c ∷ q) (some zero) zero (u, h) e =
      let same : c ≡ b = ground arith in ((read_inc-IsBlock b n v fits, h), rw same (Takes-here q))
  Good-read_inc (c ∷ q) (some zero) (suc r) h e = elim h [ ]
  Good-read_inc (c ∷ q) (some (suc w)) zero (u, h) e =
      let same : c ≡ b = ground arith in
      ((read_inc-IsUsed (rw same at u), h), rw same (Takes-here q))
  Good-read_inc (c ∷ q) (some (suc w)) (suc r) (u, z, h) e =
      let (g, t) = Good-read_inc q (some w) r h e in ((u, z, g), Takes-cons c q _ n _ u.block z t)
