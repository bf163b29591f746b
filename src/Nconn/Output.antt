-- ===== src/Nconn/Output.antt =====
-- What `nc_write` does to a well-formed queue.
use is.Prelude.{
  ℕ, zero, suc, ◌-◌, ◌≤◌, ◌<◌, ◌≡◌, refl, sym, ap, ◌∙◌, List, [], ◌∷◌, Option, some, ◌>>=◌, arith,
  length, take, drop, ℤ, length-zero, length-take, sub64,
}
use is.Nbq.State.{Nb, Nbq, copy_out, b_read_avail, b_read_incr}
use is.Nbq.Ops.{back, shrink, shrink_loop, reset}
use is.Nbq.Shape.{Inv, unread, avail}
use is.Nbq.Shape.Cursors.{avail_read}
use is.Nbq.Read.{Took, b_read_avail_lem, b_read_incr_lem, copy_out-take}
use is.Nbq.Read.Loop.{Front, Readable-Front, length-unread-avail}
use is.Nbq.Shrink.{shrink-keeps}
use is.Nconn.Status.{nc_status_ok}
use is.Nconn.Transfer.{Done, done, write_error, nc_write}

-- What `send` and `SSL_write` promise of their count.
pub record IsWriter {ℓ} {S : Type ℓ} (ncwrite : List ℕ → S → S × ℤ) : Type ℓ where
  pub fits : (bytes : List ℕ) (c : S) (k : ℕ) → (ncwrite bytes c).1 ≡ ℤ.pos k → k ≤ length bytes

-- How many bytes a call of `ncwrite` has accepted.
abbrev pub accepted {ℓ} : {S : Type ℓ} → S × ℤ → ℕ
accepted (c, ℤ.pos k) = k
accepted (c, ℤ.negsuc k) = 0

Took-Inv : (s t : Nbq) (n : ℕ) → Inv s → Took s t n → Inv t
Took-Inv s t n i m = record {
  readable = m.readable;
  writable = λ e. length-zero t.q (m.length_took ∙ ap length (i.writable (sym m.write_took ∙ e)));
  positive = rw m.bsize_took i.positive;
  block_size = rw m.bsize_took i.block_size;
}

shrink_loop-max :
    (q : List Nb) (w r : Option ℕ) (off : ℕ) (s : Nbq)
    → (shrink_loop q w r off s).max_read_queue ≡ s.max_read_queue
unfolding shrink_loop
shrink_loop-max [] w r off s = refl
shrink_loop-max (b ∷ q) w r off s =
    ground (arith, shrink_loop-max q (back w) (back r) (sub64 off b.len) s)

shrink-max : (s t : Nbq) → shrink s ≡ some t → t.max_read_queue ≡ s.max_read_queue
unfolding shrink reset
shrink-max s t e =
    ground (arith, e, shrink_loop-max s.q s.cur_write_block s.cur_read_block s.cur_write_offset s)

b_read_incr-max :
    (n : ℕ) (s t : Nbq) → b_read_incr n s ≡ some t → t.max_read_queue ≡ s.max_read_queue
unfolding b_read_incr
b_read_incr-max n s t e = ground (arith, e)

-- What follows the call of `ncwrite`.
abbrev sent_off {ℓ} : {S : Type ℓ} → Nbq → S × ℤ → Option (Done S)
sent_off q (c, ℤ.negsuc k) = some (done q c (write_error k) [] 0)
sent_off q (c, ℤ.pos zero) = some (done q c nc_status_ok [] 0)
sent_off q (c, ℤ.pos (suc k)) = do
  t ← b_read_incr (suc k) q
  u ← shrink t
  some (done u c nc_status_ok [] (suc k))

module _ {ℓ} {S : Type ℓ} (ncwrite : List ℕ → S → S × ℤ) where
  -- What a call of `nc_write` leaves, where something is unread: some of it is offered to the
  -- connection, and what that accepts is consumed.
  pub record Sent (q : Nbq) (c : S) (d : Done S) : Type ℓ where
    pub inv : Inv d.queue
    pub offer : ℕ
    pub some_offered : 0 < length (take offer (unread q.q))
    pub conn_sent : d.conn ≡ (ncwrite (take offer (unread q.q)) c).0
    pub count_sent : d.count ≡ accepted (ncwrite (take offer (unread q.q)) c)
    pub count_le : d.count ≤ length (take offer (unread q.q))
    pub max_sent : d.queue.max_read_queue ≡ q.max_read_queue
    pub unread_sent : unread d.queue.q ≡ drop d.count (unread q.q)

  module _ (w : IsWriter ncwrite) (q : Nbq) (c : S) (i : Inv q) where
    pub nothing : avail q.q ≡ 0 → nc_write ncwrite q c ≡ some (done q c nc_status_ok [] 0)
    unfolding nc_write
    nothing e = ground (arith, e, i.readable.counted)

    module _ (p : 0 < avail q.q) where
      front : Front q
      front = Readable-Front q i.readable p

      abbrev offered : ℕ
      offered = front.b.written - front.b.read

      out : copy_out offered front.b ≡ take offered (unread q.q)
      out =
          copy_out-take q front.r front.b front.at_read front.good front.found i.readable
            front.block offered (omega (arith, front.more))

      asked : b_read_avail q ≡ some offered
      asked =
          b_read_avail_lem q front.r front.b front.at_read front.good front.found i.readable
            front.block

      length-offer : length (take offered (unread q.q)) ≡ offered
      length-offer = omega (
        arith,
        length-take offered (unread q.q),
        length-unread-avail q i.readable,
        avail_read q.q q.cur_write_block front.r front.b front.good front.found,
      )

      unsent :
          (c' : S) (s : ℤ)
          → (ncwrite (take offered (unread q.q)) c).0 ≡ c'
          → accepted (ncwrite (take offered (unread q.q)) c) ≡ 0
          → Sent q c (done q c' s [] 0)
      unsent c' s e z = record {
        inv = i;
        offer = offered;
        some_offered = omega (arith, length-offer, front.more);
        conn_sent = sym e;
        count_sent = sym z;
        count_le = omega arith;
        max_sent = refl;
        unread_sent = refl;
      }

      called_eq :
          (x : S × ℤ)
          → ncwrite (take offered (unread q.q)) c ≡ x
          → nc_write ncwrite q c ≡ sent_off q x
      unfolding nc_write
      called_eq (c', ℤ.negsuc k) e =
          ground (arith, e, i.readable.counted, asked, front.at_read, front.found, out)
      called_eq (c', ℤ.pos zero) e =
          ground (arith, e, i.readable.counted, asked, front.at_read, front.found, out)
      called_eq (c', ℤ.pos (suc k)) e =
          ground (arith, e, i.readable.counted, asked, front.at_read, front.found, out)

      by_status :
          (x : S × ℤ)
          → ncwrite (take offered (unread q.q)) c ≡ x
          → (d : Done S) × (sent_off q x ≡ some d) × Sent q c d
      by_status (c', ℤ.negsuc k) e = (
        done q c' (write_error k) [] 0,
        refl,
        unsent c' (write_error k) (ap (λ y. y.0) e) (ap accepted e),
      )
      by_status (c', ℤ.pos zero) e = (
        done q c' nc_status_ok [] 0,
        refl,
        unsent c' nc_status_ok (ap (λ y. y.0) e) (ap accepted e),
      )
      by_status (c', ℤ.pos (suc k)) e =
          let le : suc k ≤ length (take offered (unread q.q)) =
            w.fits (take offered (unread q.q)) c (suc k) (ap (λ y. y.1) e) in
          let (t, et, m) =
            b_read_incr_lem q front.r front.b front.at_read front.good front.found i.readable
              front.block (suc k) (omega (arith, length-offer, front.more)) in
          let (u, eu, v) = shrink-keeps t (Took-Inv q t (suc k) i m) in
          (
            done u c' nc_status_ok [] (suc k),
            rw (et, eu) refl,
            record {
              inv = v.inv;
              offer = offered;
              some_offered = omega (arith, length-offer, front.more);
              conn_sent = sym (ap (λ y. y.0) e);
              count_sent = sym (ap accepted e);
              count_le = le;
              max_sent = shrink-max t u eu ∙ b_read_incr-max (suc k) q t et;
              unread_sent = v.unread_kept ∙ m.unread_took;
            },
          )

      -- On a well-formed queue with unread bytes `nc_write` offers some of them, from the front, to
      -- the connection, and consumes as many as it accepts; the queue stays well-formed, and what
      -- is consumed is the number returned.
      pub nc_write-Sent : (d : Done S) × (nc_write ncwrite q c ≡ some d) × Sent q c d
      nc_write-Sent =
          let (d, e, s) = by_status (ncwrite (take offered (unread q.q)) c) refl in
          (d, called_eq (ncwrite (take offered (unread q.q)) c) refl ∙ e, s)
