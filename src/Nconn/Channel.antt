-- ===== src/Nconn/Channel.antt =====
-- A queue between two connections: one is read into it, the other is written from it, in any order.
use is.Prelude.{
  ℕ, ◌+◌, ◌^◌, ◌≤◌, ◌<◌, ◌≡◌, sym, ap, ◌∙◌, List, [], ◌++◌, append_assoc, append-nil, some, ◌==◌,
  arith, length, take, drop, inl, inr, ℤ, Bool-cases, length-take, length-drop, take-take_le,
  take-append-drop, subst,
}
use is.Nbq.State.{Nbq}
use is.Nbq.Shape.{Inv, unread, avail}
use is.Nbq.Read.Loop.{length-unread-avail}
use is.Nconn.Status.{nc_status_ok}
use is.Nconn.Transfer.{Done, done, nc_read, nc_write}
use is.Nconn.Input.{IsReader, delivered, Got, nc_read-Got}
use is.Nconn.Output.{IsWriter, accepted, Sent, nc_write-Sent, nothing}

-- A source with the bytes that it has handed out, in order.
pub record Source : Type 1 where
  pub S : Type 0
  pub ncread : ℕ → S → S × ℤ × List ℕ
  pub handed : S → List ℕ
  pub is_reader : IsReader ncread
  pub handed_on : (n : ℕ) (c : S) → handed (ncread n c).0 ≡ handed c ++ delivered (ncread n c)

-- A sink with the bytes that it has accepted, in order.
pub record Sink : Type 1 where
  pub S : Type 0
  pub ncwrite : List ℕ → S → S × ℤ
  pub received : S → List ℕ
  pub is_writer : IsWriter ncwrite
  pub received_on :
      (bytes : List ℕ) (c : S)
      → received (ncwrite bytes c).0 ≡ received c ++ take (accepted (ncwrite bytes c)) bytes

pub some_eq {ℓ} : {A : Type ℓ} (x y : A) → some x ≡ some y → x ≡ y
some_eq x y e = cc

module _ (b : Sink) where
  pub received-Sent :
      (q : Nbq) (c : b.S) (d : Done b.S)
      → Sent b.ncwrite q c d
      → b.received d.conn ≡ b.received c ++ take d.count (unread q.q)
  received-Sent q c d g =
      ap b.received g.conn_sent
      ∙ b.received_on (take g.offer (unread q.q)) c
      ∙ ap (λ n. b.received c ++ take n (take g.offer (unread q.q))) (sym g.count_sent)
      ∙ ap (λ x. b.received c ++ x)
          (take-take_le d.count g.offer (unread q.q)
            (omega (arith, g.count_le, length-take g.offer (unread q.q))))

module _ (a : Source) (b : Sink) where
  pub record State : Type 0 where
    pub queue : Nbq
    pub source : a.S
    pub sink : b.S

  -- Reading and writing, in the order that the event loop calls them.
  pub data Step : State → State → Type 0 where
    read :
        (s : State) (d : Done a.S)
        → nc_read a.ncread s.queue s.source ≡ some d
        → Step s (record s { queue = d.queue; source = d.conn })
    write :
        (s : State) (d : Done b.S)
        → nc_write b.ncwrite s.queue s.sink ≡ some d
        → Step s (record s { queue = d.queue; sink = d.conn })

  pub data Run (s : State) : State → Type 0 where
    here : Run s s
    next : {t u : State} → Run s t → Step t u → Run s u

  -- What is accepted and what is unread, together, is what was handed out.
  pub record InOrder (m : ℕ) (s : State) : Type 0 where
    pub inv : Inv s.queue
    pub max_queue : s.queue.max_read_queue ≡ ℤ.pos m
    pub within : avail s.queue.q ≤ m
    pub stream : b.received s.sink ++ unread s.queue.q ≡ a.handed s.source

  handed-Got :
      (q : Nbq) (c : a.S) (d : Done a.S)
      → Got a.ncread q c d
      → a.handed d.conn ≡ a.handed c ++ d.buf
  handed-Got q c d g = elim g.called [
    | inl (y, e, n, w) ↦
        ap a.handed e ∙ sym (append-nil (a.handed c)) ∙ ap (λ x. a.handed c ++ x) (sym n)
    | inr (n, p, small, y, e, eb, w) ↦
        ap a.handed e ∙ a.handed_on n c ∙ ap (λ x. a.handed c ++ x) (sym eb)
  ]

  module _ (m : ℕ) (pm : 0 < m) (lm : m + 2 ^ 32 < 2 ^ 64) where
    read-InOrder :
        (s : State) (d : Done a.S)
        → InOrder m s
        → Got a.ncread s.queue s.source d
        → InOrder m (record s { queue = d.queue; source = d.conn })
    read-InOrder s d o g = record {
      inv = g.inv;
      max_queue = g.max_got ∙ o.max_queue;
      within = g.limit m o.max_queue pm o.within;
      stream =
          ap (λ u. b.received s.sink ++ u) g.unread_got
          ∙ sym (append_assoc (b.received s.sink) (unread s.queue.q) d.buf)
          ∙ ap (λ x. x ++ d.buf) o.stream
          ∙ sym (handed-Got s.queue s.source d g);
    }

    write-InOrder :
        (s : State) (d : Done b.S)
        → InOrder m s
        → Sent b.ncwrite s.queue s.sink d
        → InOrder m (record s { queue = d.queue; sink = d.conn })
    write-InOrder s d o g = record {
      inv = g.inv;
      max_queue = g.max_sent ∙ o.max_queue;
      within = omega (
        arith,
        o.within,
        length-unread-avail s.queue o.inv.readable,
        length-unread-avail d.queue g.inv.readable,
        ap length g.unread_sent,
        length-drop d.count (unread s.queue.q),
      );
      stream =
          rw (received-Sent b s.queue s.sink d g, g.unread_sent)
            (append_assoc (b.received s.sink) (take d.count (unread s.queue.q))
                (drop d.count (unread s.queue.q))
              ∙ ap (λ u. b.received s.sink ++ u) (take-append-drop d.count (unread s.queue.q))
              ∙ o.stream);
    }

    Step-InOrder : {s t : State} → Step s t → InOrder m s → InOrder m t
    Step-InOrder (read s d e) o =
        let bound : avail s.queue.q + 2 ^ 32 < 2 ^ 64 = omega (arith, o.within) in
        let (d', e', g) = nc_read-Got a.ncread a.is_reader s.queue s.source o.inv bound in
        let same : d' ≡ d = some_eq d' d (sym e' ∙ e) in
        subst (λ x. InOrder m (record s { queue = x.queue; source = x.conn })) same
          (read-InOrder s d' o g)
    Step-InOrder (write s d e) o = elim (Bool-cases (avail s.queue.q == 0)) [
      | inl z ↦
          let same : d ≡ done s.queue s.sink nc_status_ok [] 0 =
            some_eq d _
              (sym e ∙ nothing b.ncwrite b.is_writer s.queue s.sink o.inv (ground arith)) in
          subst (λ x. InOrder m (record s { queue = x.queue; sink = x.conn })) (sym same) o
      | inr z ↦
          let (d', e', g) =
            nc_write-Sent b.ncwrite b.is_writer s.queue s.sink o.inv (ground arith) in
          let same : d' ≡ d = some_eq d' d (sym e' ∙ e) in
          subst (λ x. InOrder m (record s { queue = x.queue; sink = x.conn })) same
            (write-InOrder s d' o g)
    ]

    -- A queue with a limit between a source and a sink: whatever the order of the calls, the queue
    -- stays well-formed and never holds more than its limit, and the bytes that the sink has
    -- accepted, followed by those that are unread, are the bytes that the source has handed out.
    pub Run-InOrder : {s t : State} → InOrder m s → Run s t → InOrder m t
    Run-InOrder o here = o
    Run-InOrder o (next r st) = Step-InOrder st (Run-InOrder o r)
