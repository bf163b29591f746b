-- ===== src/Nbq/Shape/Blocks.antt =====
-- One block under the operations of `nb_struct`.
use is.Prelude.{
  ℕ, ◌+◌, ◌-◌, ◌^◌, ◌≤◌, ◌<◌, ◌≡◌, refl, sym, ap, ◌∙◌, List, ◌++◌, arith, length, take, drop,
  length-append, length-take, length-drop, add32_lem, sub32_lem, take-append_add, take-append_self,
  drop-append_le, drop-drop, take-drop-take, length-replicate,
}
use is.Nbq.State.{Nb, new_nb, write_avail, read_avail, write_inc, read_inc, copy_in, copy_out}
use is.Nbq.Shape.{IsBlock, IsSpare, held_bytes, unread_bytes}

pub new_nb-IsSpare : (n : ℕ) → 0 < n → n < 2 ^ 31 → IsSpare (new_nb n)
unfolding new_nb
new_nb-IsSpare n p h = record {
  block = record {
    sized = length-replicate n 0;
    has_len = p;
    small = omega arith;
    read_le = omega arith;
    written_le = omega arith;
  };
  empty = refl;
  len_int32 = h;
}

pub write_avail_lem : (b : Nb) → IsBlock b → write_avail b ≡ b.len - b.written
unfolding write_avail
write_avail_lem b v = sub32_lem b.len b.written v.written_le v.small

pub read_avail_lem : (b : Nb) → IsBlock b → read_avail b ≡ b.written - b.read
unfolding read_avail
read_avail_lem b v = sub32_lem b.written b.read v.read_le (omega (arith, v.written_le, v.small))

pub length-held_bytes : (b : Nb) → IsBlock b → length (held_bytes b) ≡ b.written
length-held_bytes b v = omega (arith, length-take b.written b.buf, v.sized, v.written_le)

pub length-unread_bytes : (b : Nb) → IsBlock b → length (unread_bytes b) ≡ b.written - b.read
length-unread_bytes b v = omega (arith, length-drop b.read (held_bytes b), length-held_bytes b v)

abbrev pub put : List ℕ → Nb → Nb
put bytes b = write_inc (length bytes) (copy_in bytes b)

module _ (b : Nb) (bytes : List ℕ) (v : IsBlock b) (fits : b.written + length bytes ≤ b.len) where
  pub written-put : (put bytes b).written ≡ b.written + length bytes
  unfolding write_inc copy_in
  written-put = add32_lem b.written (length bytes) (omega (arith, v.small))

  pub read-put : (put bytes b).read ≡ b.read
  unfolding write_inc copy_in
  read-put = refl

  length-buf-put : length (put bytes b).buf ≡ b.len
  unfolding write_inc copy_in
  length-buf-put = omega (
    arith,
    length-append (held_bytes b) (bytes ++ drop (b.written + length bytes) b.buf),
    length-append bytes (drop (b.written + length bytes) b.buf),
    length-held_bytes b v,
    length-drop (b.written + length bytes) b.buf,
    v.sized,
  )

  pub put-IsBlock : IsBlock (put bytes b)
  unfolding write_inc copy_in
  put-IsBlock = record {
    sized = length-buf-put;
    has_len = v.has_len;
    small = v.small;
    read_le = omega (arith, written-put, v.read_le);
    written_le = omega (arith, written-put);
  }

  pub held_bytes-put : held_bytes (put bytes b) ≡ held_bytes b ++ bytes
  unfolding write_inc copy_in
  held_bytes-put = rw written-put (
      take-append_add b.written (length bytes) (held_bytes b) _ (length-held_bytes b v)
      ∙ ap (λ xs. held_bytes b ++ xs) (take-append_self bytes _))

  pub unread_bytes-put : unread_bytes (put bytes b) ≡ unread_bytes b ++ bytes
  unfolding write_inc copy_in
  unread_bytes-put =
      rw held_bytes-put (
        drop-append_le b.read (held_bytes b) bytes
          (omega (arith, length-held_bytes b v, v.read_le)))

module _ (b : Nb) (n : ℕ) (v : IsBlock b) (fits : b.read + n ≤ b.written) where
  pub read-read_inc : (read_inc n b).read ≡ b.read + n
  unfolding read_inc
  read-read_inc = add32_lem b.read n (omega (arith, v.small, v.written_le))

  pub read_inc-IsBlock : IsBlock (read_inc n b)
  unfolding read_inc
  read_inc-IsBlock = record {
    sized = v.sized;
    has_len = v.has_len;
    small = v.small;
    read_le = omega (arith, read-read_inc);
    written_le = v.written_le;
  }

  pub unread_bytes-read_inc : unread_bytes (read_inc n b) ≡ drop n (unread_bytes b)
  unfolding read_inc
  unread_bytes-read_inc = rw read-read_inc (sym (drop-drop n b.read (held_bytes b)))

  pub copy_out_lem : copy_out n b ≡ take n (unread_bytes b)
  unfolding copy_out
  copy_out_lem = sym (take-drop-take b.read n b.written b.buf fits)
