-- ===== src/Nconn/Drain.antt =====
-- Writing until nothing is left: `nc_write` once for each writable event.
use is.Prelude.{
  ℕ, zero, suc, ◌≤◌, ◌<◌, ◌≡◌, refl, sym, ap, ◌∙◌, List, [], ◌++◌, append_assoc, append-nil, Option,
  some, ◌>>=◌, ◌==◌, arith, length, take, drop, inl, inr, Bool-cases, length-zero, length-drop,
  take-append-drop,
}
use is.Nbq.State.{Nbq}
use is.Nbq.Shape.{Inv, unread, avail}
use is.Nbq.Read.Loop.{length-unread-avail}
use is.Nconn.Transfer.{nc_write}
use is.Nconn.Output.{accepted, nc_write-Sent, nothing}
use is.Nconn.Channel.{Sink, received-Sent}

module _ (b : Sink) where
  pub flush : ℕ → Nbq → b.S → Option (Nbq × b.S)
  flush zero q c = some (q, c)
  flush (suc n) q c = do d ← nc_write b.ncwrite q c; flush n d.queue d.conn

  -- A sink that accepts something of every offer.
  abbrev pub IsWilling : Type 0
  IsWilling = (bytes : List ℕ) (c : b.S) → 0 < length bytes → 0 < accepted (b.ncwrite bytes c)

  pub record Flushed (q : Nbq) (c : b.S) (q' : Nbq) (c' : b.S) : Type 0 where
    pub inv : Inv q'
    pub empty : unread q'.q ≡ []
    pub all : b.received c' ≡ b.received c ++ unread q.q

  -- A well-formed queue is drained by as many calls as it has unread bytes, into any sink that
  -- accepts something of every offer: nothing is left, and the sink has all of it, in order.
  pub flush-drains :
      (n : ℕ) (q : Nbq) (c : b.S)
      → IsWilling
      → Inv q
      → avail q.q ≤ n
      → (q' : Nbq) × (c' : b.S) × (flush n q c ≡ some (q', c')) × Flushed q c q' c'
  unfolding flush
  flush-drains zero q c w i l =
      let z : unread q.q ≡ [] =
        length-zero (unread q.q) (omega (arith, length-unread-avail q i.readable)) in
      (q, c, refl, record { inv = i; empty = z; all = rw z (sym (append-nil (b.received c))) })
  flush-drains (suc n) q c w i l = elim (Bool-cases (avail q.q == 0)) [
    | inl z ↦
        let (q', c', e, f) = flush-drains n q c w i (ground arith) in
        (q', c', rw (nothing b.ncwrite b.is_writer q c i (ground arith)) e, f)
    | inr z ↦
        let (d, ed, g) = nc_write-Sent b.ncwrite b.is_writer q c i (ground arith) in
        let moved : 0 < d.count =
          omega (arith, w (take g.offer (unread q.q)) c g.some_offered, g.count_sent) in
        let less : avail d.queue.q ≤ n = omega (
          arith,
          length-unread-avail q i.readable,
          length-unread-avail d.queue g.inv.readable,
          ap length g.unread_sent,
          length-drop d.count (unread q.q),
        ) in
        let (q', c', e, f) = flush-drains n d.queue d.conn w g.inv less in
        (
          q',
          c',
          rw ed e,
          record {
            inv = f.inv;
            empty = f.empty;
            all =
                f.all
                ∙ rw (received-Sent b q c d g, g.unread_sent)
                    (append_assoc (b.received c) (take d.count (unread q.q))
                        (drop d.count (unread q.q))
                      ∙ ap (λ u. b.received c ++ u) (take-append-drop d.count (unread q.q)));
          },
        )
  ]
