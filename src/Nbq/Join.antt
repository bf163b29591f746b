-- ===== src/Nbq/Join.antt =====
-- `nbq::join_ref`: the blocks of another queue are put behind this one's, as references.
use is.Prelude.{
  ◌+◌, ◌^◌, ◌<◌, ◌≡◌, refl, sym, ap, ◌∙◌, List, [], ◌∷◌, ◌++◌, append_assoc, append-nil, none,
  arith, length, length-append, add64, add64_lem, take_all,
}
use is.Nbq.State.{Nb, Nbq, ref_nb}
use is.Nbq.Ops.{join_loop, join_ref}
use is.Nbq.Shape.{IsBlock, held_bytes, unread_bytes, unread, contents}
use is.Nbq.Shape.Blocks.{length-held_bytes}
use is.Nbq.Shape.Append.{unread-append, contents-append}

abbrev pub AllBlocks : List Nb → Type 0
AllBlocks [] = Unit {0}
AllBlocks (b ∷ q) = IsBlock b × AllBlocks q

abbrev pub ref_to : Nb → Nb
ref_to b = ref_nb (held_bytes b) b.written

held_bytes-ref_to : (b : Nb) → IsBlock b → held_bytes (ref_to b) ≡ held_bytes b
unfolding ref_nb
held_bytes-ref_to b v = take_all b.written (held_bytes b) (omega (arith, length-held_bytes b v))

unread_bytes-ref_to : (b : Nb) → IsBlock b → unread_bytes (ref_to b) ≡ held_bytes b
unfolding ref_nb
unread_bytes-ref_to b v = held_bytes-ref_to b v

-- A queue with the bytes of a list of blocks behind its own.
pub record Joined (s s' : Nbq) (tail : List Nb) : Type 0 where
  pub unread_join : unread s'.q ≡ unread s.q ++ contents tail
  pub contents_join : contents s'.q ≡ contents s.q ++ contents tail
  pub total_join : s'.total_read_avail ≡ s.total_read_avail + length (contents tail)
  pub read_join : s'.cur_read_block ≡ s.cur_read_block

-- One block.
abbrev push_ref : Nbq → Nb → Nbq
push_ref s b = record s {
  q = s.q ++ ref_to b ∷ [];
  cur_write_offset = add64 s.cur_write_offset b.written;
  total_read_avail = add64 s.total_read_avail b.written;
}

contents-one : (b : Nb) → contents (b ∷ []) ≡ held_bytes b
unfolding contents
contents-one b = append-nil (held_bytes b)

unread-one : (b : Nb) → unread (b ∷ []) ≡ unread_bytes b
unfolding unread
unread-one b = append-nil (unread_bytes b)

contents-push_ref :
    (s : Nbq) (b : Nb) → IsBlock b → contents (push_ref s b).q ≡ contents s.q ++ held_bytes b
contents-push_ref s b v =
    contents-append s.q (ref_to b ∷ [])
    ∙ ap (λ t. contents s.q ++ t) (contents-one (ref_to b) ∙ held_bytes-ref_to b v)

unread-push_ref :
    (s : Nbq) (b : Nb) → IsBlock b → unread (push_ref s b).q ≡ unread s.q ++ held_bytes b
unread-push_ref s b v =
    unread-append s.q (ref_to b ∷ [])
    ∙ ap (λ t. unread s.q ++ t) (unread-one (ref_to b) ∙ unread_bytes-ref_to b v)

Joined-cons :
    (s s' : Nbq) (b : Nb) (tail : List Nb)
    → IsBlock b
    → s.total_read_avail + length (contents (b ∷ tail)) < 2 ^ 64
    → Joined (push_ref s b) s' tail
    → Joined s s' (b ∷ tail)
unfolding contents
Joined-cons s s' b tail v l j = record {
  unread_join =
      j.unread_join
      ∙ ap (λ t. t ++ contents tail) (unread-push_ref s b v)
      ∙ append_assoc (unread s.q) (held_bytes b) (contents tail);
  contents_join =
      j.contents_join
      ∙ ap (λ t. t ++ contents tail) (contents-push_ref s b v)
      ∙ append_assoc (contents s.q) (held_bytes b) (contents tail);
  total_join = omega (
    arith,
    j.total_join,
    add64_lem s.total_read_avail b.written
        (omega (arith, length-append (held_bytes b) (contents tail), length-held_bytes b v)),
    length-append (held_bytes b) (contents tail),
    length-held_bytes b v,
  );
  read_join = j.read_join;
}

-- The unread bytes are followed by these, so the count does not wrap.
fits_on :
    (s : Nbq) (b : Nb) (tail : List Nb)
    → IsBlock b
    → s.total_read_avail + length (contents (b ∷ tail)) < 2 ^ 64
    → (push_ref s b).total_read_avail + length (contents tail) < 2 ^ 64
unfolding contents
fits_on s b tail v l =
    let n = length-append (held_bytes b) (contents tail) in
    let m = length-held_bytes b v in
    omega (arith, n, m, add64_lem s.total_read_avail b.written (omega (arith, n, m)))

join_loop_lem :
    (tail : List Nb) (s : Nbq)
    → AllBlocks tail
    → s.total_read_avail + length (contents tail) < 2 ^ 64
    → Joined s (join_loop tail s) tail
unfolding join_loop contents
join_loop_lem [] s h l = record {
  unread_join = sym (append-nil (unread s.q));
  contents_join = sym (append-nil (contents s.q));
  total_join = omega arith;
  read_join = refl;
}
join_loop_lem (b ∷ tail) s (v, vs) l =
    Joined-cons s (join_loop tail (push_ref s b)) b tail v l
      (join_loop_lem tail (push_ref s b) vs (fits_on s b tail v l))

-- `join_ref` puts all that the blocks of the tail hold, read or not, behind the unread bytes, and
-- counts it; the read cursor stays, and the write cursor is at the end of the list. The tail's
-- blocks are well-formed, and the count fits in 64 bits.
pub join_ref-appends :
    (tail s : Nbq)
    → AllBlocks tail.q
    → s.total_read_avail + length (contents tail.q) < 2 ^ 64
    → Joined s (join_ref tail s) tail.q × ((join_ref tail s).cur_write_block ≡ none)
unfolding join_ref
join_ref-appends tail s h l =
    let j = join_loop_lem tail.q s h l in
    (
      record {
        unread_join = j.unread_join;
        contents_join = j.contents_join;
        total_join = j.total_join;
        read_join = j.read_join;
      },
      refl,
    )
