-- ===== src/Tcp/Receive.antt =====
-- What `nc_read` makes of the answers of a socket.
use is.Prelude.{
  ℕ, ◌+◌, ◌^◌, ◌<◌, ◌≡◌, refl, ap, ◌∙◌, List, [], ◌∷◌, ◌++◌, false, some, if◌then◌else◌, ◌==◌,
  arith, ℤ, inl, inr,
}
use is.Nbq.State.{Nbq}
use is.Nbq.Shape.{Inv, unread, avail}
use is.Nconn.Status.{nc_status_ok, nc_status_again, nc_status_error, nc_status_eof}
use is.Nconn.Transfer.{Done, nc_read, is_max_limit}
use is.Nconn.Input.{delivered, status_of, nc_read-Got}
use is.Tcp.State.{Reply, answer, failed, eagain, ncread}
use is.Tcp.Relay.{
  Receiver, given, read_by, ncread_eq, read_by-state, delivered-read_by, ncread-IsReader,
}

-- The end of the stream, some bytes, nothing for now, or an error.
unfoldable pub read_status : Reply (List ℕ) → ℤ
read_status (answer []) = nc_status_eof
read_status (answer (x ∷ xs)) = nc_status_ok
read_status (failed e) = if e == eagain then nc_status_again else nc_status_error

status_of-read_by :
    {S : Type 0} → (x : S × Reply (List ℕ)) → status_of (read_by x).1 ≡ read_status x.1
unfolding read_by read_status
status_of-read_by (c, answer []) = refl
status_of-read_by (c, answer (x ∷ xs)) = refl
status_of-read_by (c, failed e) = ground arith

-- nc_read over a TCP connection, with a well-formed queue below its limit and fewer than 2^64 - 2^32
-- unread bytes, calls recvfrom once with a size that is positive and below 2^32, puts what it gives behind the unread
-- bytes, and reports the end of the stream, the bytes, NC_STATUS_AGAIN on EAGAIN, or an error; the
-- queue stays well-formed.
pub nc_read-answers :
    (r : Receiver) (q : Nbq) (c : r.S)
    → Inv q
    → avail q.q + 2 ^ 32 < 2 ^ 64
    → is_max_limit q ≡ false
    → (d : Done r.S) × (n : ℕ) × (nc_read (ncread r.recvfrom) q c ≡ some d)
      × (0 < n)
      × (n < 2 ^ 32)
      × (d.conn ≡ (r.recvfrom (n) c).0)
      × (d.status ≡ read_status (r.recvfrom (n) c).1)
      × (unread d.queue.q ≡ unread q.q ++ given (r.recvfrom (n) c).1)
      × Inv d.queue
nc_read-answers r q c i b f =
    let (d, e, g) = nc_read-Got (ncread r.recvfrom) (ncread-IsReader r) q c i b in
    elim g.called [
      | inl (y, z, v, w) ↦ cc
      | inr (n, p, small, y, ec, eb, es) ↦
          let x = r.recvfrom (n) c in
          let by = ncread_eq r n c ∙ ap (λ k. read_by (r.recvfrom k c)) (omega (arith, small)) in
          (
            d,
            n,
            e,
            p,
            small,
            ec ∙ ap (λ k. k.0) by ∙ read_by-state r x,
            es ∙ ap (λ k. status_of k.1) by ∙ status_of-read_by x,
            g.unread_got ∙ ap (λ k. unread q.q ++ k) (eb ∙ ap delivered by ∙ delivered-read_by r x),
            g.inv,
          )
    ]
