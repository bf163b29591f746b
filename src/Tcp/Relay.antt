-- ===== src/Tcp/Relay.antt =====
-- TCP connections as the source and the sink of a queue.
use is.Prelude.{
  ℕ, ◌+◌, ◌%◌, ◌^◌, ◌≤◌, ◌<◌, ◌≡◌, refl, sym, ap, ◌∙◌, List, [], ◌∷◌, ◌++◌, Bool, Option, none,
  some, if◌then◌else◌, ◌==◌, arith, length, take, ℤ, inl, inr, Bool-cases,
}
use is.Nconn.Status.{nc_status_again, nc_status_error, nc_status_eof}
use is.Nconn.Input.{IsReader, delivered}
use is.Nconn.Output.{IsWriter, accepted}
use is.Nconn.Channel.{Source, Sink, State, Run, InOrder, Run-InOrder}
use is.Tcp.State.{
  Reply, answer, failed, eagain, int32, ncread, write_again, ncwrite, attr_mask_write,
}

abbrev pub given : Reply (List ℕ) → List ℕ
given (answer bytes) = bytes
given (failed e) = []

abbrev pub sent_of : Reply ℕ → ℕ
sent_of (answer k) = k
sent_of (failed e) = 0

-- A socket that is read, with the bytes that it has given: a call gives no more than is asked for,
-- and less than 2 GB.
pub record Receiver : Type 1 where
  pub S : Type 0
  pub recvfrom : ℕ → S → S × Reply (List ℕ)
  pub taken : S → List ℕ
  pub fits : (n : ℕ) (c : S) → length (given (recvfrom n c).1) ≤ n
  pub small : (n : ℕ) (c : S) → length (given (recvfrom n c).1) < 2 ^ 31
  pub taken_on : (n : ℕ) (c : S) → taken (recvfrom n c).0 ≡ taken c ++ given (recvfrom n c).1

-- A socket that is written, with the bytes that it has taken: a call takes no more than is offered,
-- and less than 2 GB. To wait for the socket takes none.
pub record Sender : Type 1 where
  pub S : Type 0
  pub send : List ℕ → S → S × Reply ℕ
  pub mod_fd : Option (ℕ → S → S × Bool)
  pub gone : S → List ℕ
  pub fits : (bytes : List ℕ) (c : S) → sent_of (send bytes c).1 ≤ length bytes
  pub small : (bytes : List ℕ) (c : S) → sent_of (send bytes c).1 < 2 ^ 31
  pub gone_on :
      (bytes : List ℕ) (c : S)
      → gone (send bytes c).0 ≡ gone c ++ take (sent_of (send bytes c).1) bytes
  pub mod_fd_on : (f : ℕ → S → S × Bool) (m : ℕ) (c : S) → mod_fd ≡ some f → gone (f m c).0 ≡ gone c

int32_small : (n : ℕ) → n < 2 ^ 31 → int32 n ≡ ℤ.pos n
unfolding int32
int32_small n l = ground arith

accepted_pos : {S : Type 0} → (x : S × ℤ) (k : ℕ) → x.1 ≡ ℤ.pos k → accepted x ≡ k
accepted_pos (c, ℤ.pos j) k e = cc
accepted_pos (c, ℤ.negsuc j) k e = cc

-- `ncread` by what the socket gives.
unfoldable pub read_by : {S : Type 0} → S × Reply (List ℕ) → S × ℤ × List ℕ
read_by (c, answer []) = (c, nc_status_eof, [])
read_by (c, answer (x ∷ xs)) = (c, ℤ.pos (length (x ∷ xs)), x ∷ xs)
read_by (c, failed e) = (c, if e == eagain then nc_status_again else nc_status_error, [])

module _ (r : Receiver) where
  reply_eq :
      (x : r.S × Reply (List ℕ)) (n : ℕ) (c : r.S)
      → r.recvfrom (n % 2 ^ 32) c ≡ x
      → length (given x.1) < 2 ^ 31
      → ncread r.recvfrom n c ≡ read_by x
  unfolding ncread read_by
  reply_eq (d, answer []) n c e l = ground (arith, e)
  reply_eq (d, answer (x ∷ xs)) n c e l = ground (arith, e, int32_small (length (x ∷ xs)) l)
  reply_eq (d, failed k) n c e l = ground (arith, e)

  pub ncread_eq : (n : ℕ) (c : r.S) → ncread r.recvfrom n c ≡ read_by (r.recvfrom (n % 2 ^ 32) c)
  ncread_eq n c = reply_eq (r.recvfrom (n % 2 ^ 32) c) n c refl (r.small (n % 2 ^ 32) c)

  read_by-given :
      (x : r.S × Reply (List ℕ)) (k : ℕ) → (read_by x).1 ≡ ℤ.pos k → length (given x.1) ≡ k
  unfolding read_by
  read_by-given (d, answer []) k e = cc
  read_by-given (d, answer (x ∷ xs)) k e = cc
  read_by-given (d, failed f) k e = ground (arith, e)

  pub read_by-bytes : (x : r.S × Reply (List ℕ)) → (read_by x).2 ≡ given x.1
  unfolding read_by
  read_by-bytes (d, answer []) = refl
  read_by-bytes (d, answer (x ∷ xs)) = refl
  read_by-bytes (d, failed f) = refl

  pub read_by-state : (x : r.S × Reply (List ℕ)) → (read_by x).0 ≡ x.0
  unfolding read_by
  read_by-state (d, answer []) = refl
  read_by-state (d, answer (x ∷ xs)) = refl
  read_by-state (d, failed f) = refl

  pub delivered-read_by : (x : r.S × Reply (List ℕ)) → delivered (read_by x) ≡ given x.1
  unfolding read_by
  delivered-read_by (d, answer []) = refl
  delivered-read_by (d, answer (x ∷ xs)) = refl
  delivered-read_by (d, failed f) = ground arith

  pub ncread-IsReader : IsReader (ncread r.recvfrom)
  ncread-IsReader = record {
    fits = λ n c k e. omega (
      arith,
      read_by-given (r.recvfrom (n % 2 ^ 32) c) k (sym (ap (λ x. x.1) (ncread_eq n c)) ∙ e),
      r.fits (n % 2 ^ 32) c,
    );
    given = λ n c k e.
        ap (λ x. length x.2) (ncread_eq n c)
        ∙ ap length (read_by-bytes (r.recvfrom (n % 2 ^ 32) c))
        ∙ read_by-given (r.recvfrom (n % 2 ^ 32) c) k (sym (ap (λ x. x.1) (ncread_eq n c)) ∙ e);
  }

  abbrev pub tcp_source : Source
  tcp_source = record {
    S = r.S;
    ncread = ncread r.recvfrom;
    handed = r.taken;
    is_reader = ncread-IsReader;
    handed_on = λ n c.
        ap (λ x. r.taken x.0) (ncread_eq n c)
        ∙ ap r.taken (read_by-state (r.recvfrom (n % 2 ^ 32) c))
        ∙ r.taken_on (n % 2 ^ 32) c
        ∙ ap (λ x. r.taken c ++ x)
            (sym (delivered-read_by (r.recvfrom (n % 2 ^ 32) c))
              ∙ ap delivered (sym (ncread_eq n c)));
  }

module _ (w : Sender) where
  again-gone :
      (o : Option (ℕ → w.S → w.S × Bool)) (c : w.S)
      → w.mod_fd ≡ o
      → (accepted (write_again o c) ≡ 0) × (w.gone (write_again o c).0 ≡ w.gone c)
  unfolding write_again
  again-gone none c e = (refl, refl)
  again-gone (some f) c e = (ground arith, w.mod_fd_on f attr_mask_write c e)

  -- What the socket takes is what `ncwrite` reports.
  writes_eq :
      (x : w.S × Reply ℕ) (bytes : List ℕ) (c : w.S)
      → w.send bytes c ≡ x
      → sent_of x.1 < 2 ^ 31
      → (accepted (ncwrite w.send w.mod_fd bytes c) ≡ sent_of x.1)
        × (w.gone (ncwrite w.send w.mod_fd bytes c).0 ≡ w.gone x.0)
  unfolding ncwrite
  writes_eq (d, answer k) bytes c e l =
      (ground (arith, e, int32_small k l), ground (arith, e, int32_small k l))
  writes_eq (d, failed k) bytes c e l = elim (Bool-cases (k == eagain)) [
    | inl y ↦
        let (a, b) = again-gone w.mod_fd d refl in
        (ground (arith, e, y, a), ground (arith, e, y, b))
    | inr y ↦ (ground (arith, e, y), ground (arith, e, y))
  ]

  pub writes :
      (bytes : List ℕ) (c : w.S)
      → (accepted (ncwrite w.send w.mod_fd bytes c) ≡ sent_of (w.send bytes c).1)
        × (w.gone (ncwrite w.send w.mod_fd bytes c).0 ≡ w.gone (w.send bytes c).0)
  writes bytes c = writes_eq (w.send bytes c) bytes c refl (w.small bytes c)

  pub ncwrite-IsWriter : IsWriter (ncwrite w.send w.mod_fd)
  ncwrite-IsWriter = record {
    fits = λ bytes c k e. omega (
      arith,
      (writes bytes c).0,
      w.fits bytes c,
      accepted_pos (ncwrite w.send w.mod_fd bytes c) k e,
    );
  }

  abbrev pub tcp_sink : Sink
  tcp_sink = record {
    S = w.S;
    ncwrite = ncwrite w.send w.mod_fd;
    received = w.gone;
    is_writer = ncwrite-IsWriter;
    received_on = λ bytes c.
        (writes bytes c).1
        ∙ w.gone_on bytes c
        ∙ ap (λ n. w.gone c ++ take n bytes) (sym (writes bytes c).0);
  }

-- A queue with a limit m, 0 < m < 2^64 - 2^32, between two TCP connections: whatever the order of
-- nc_read and nc_write, what one socket has taken, followed by the unread bytes, is what the other
-- has given, and the queue stays well-formed and within its limit.
pub relay-InOrder :
    (r : Receiver) (w : Sender) (m : ℕ) {s t : State (tcp_source r) (tcp_sink w)}
    → 0 < m
    → m + 2 ^ 32 < 2 ^ 64
    → InOrder (tcp_source r) (tcp_sink w) m s
    → Run (tcp_source r) (tcp_sink w) s t
    → InOrder (tcp_source r) (tcp_sink w) m t
relay-InOrder r w m p b o run = Run-InOrder (tcp_source r) (tcp_sink w) m p b o run
