-- ===== src/Nconn/Input.antt =====
-- What `nc_read` does to a well-formed queue.
use is.Prelude.{
  length-zero, ℕ, zero, suc, ◌+◌, ◌-◌, ◌^◌, ◌≤◌, ◌<◌, ◌≡◌, refl, sym, ap, ◌∙◌, subst, List, [],
  ◌++◌, Option, some, Bool, true, false, ◌>>=◌, arith, length, Bool-cases, inl, inr, ◌⊎◌, ℤ,
  append-nil, sub64, add64,
}
use mathlib.Core.Path.{ap₂}
use is.Nbq.State.{Nbq, b_write_avail, b_write_add_avail, b_write_incr, write_avail}
use is.Nbq.Ops.{make_room, write_chunk}
use is.Nbq.Shape.{Inv, unread, avail}
use is.Nbq.Shape.Blocks.{write_avail_lem}
use is.Nbq.Write.{Wrote, write_chunk_lem}
use is.Nbq.Write.Room.{Room, make_room_lem}
use is.Nbq.Write.Loop.{b_write_avail_lem}
use is.Nconn.Status.{nc_status_ok, nc_status_read_unavailable}
use is.Nconn.Transfer.{is_max_limit, read_size, receive, Done, done, nc_read}

-- What `recv` and `SSL_read` promise of the buffer and its length.
pub record IsReader {ℓ} {S : Type ℓ} (ncread : ℕ → S → S × ℤ × List ℕ) : Type ℓ where
  pub fits : (n : ℕ) (c : S) (k : ℕ) → (ncread n c).1 ≡ ℤ.pos k → k ≤ n
  pub given : (n : ℕ) (c : S) (k : ℕ) → (ncread n c).1 ≡ ℤ.pos k → length (ncread n c).2 ≡ k

receive-length : (bytes : List ℕ) (q : Nbq) → receive bytes (length bytes) q ≡ write_chunk bytes q
unfolding receive write_chunk
receive-length bytes q = refl

receive-write_chunk :
    (bytes : List ℕ) (n : ℕ) (q : Nbq) → length bytes ≡ n → receive bytes n q ≡ write_chunk bytes q
receive-write_chunk bytes n q e = ap (λ k. receive bytes k q) (sym e) ∙ receive-length bytes q

-- The room asked for is positive where the limit is not reached, fits the block, and keeps the
-- limit.
module _ (q : Nbq) (n : ℕ) (bound : q.total_read_avail + n < 2 ^ 64) (small : n < 2 ^ 32) where
  abbrev Limited : ℕ → Type 0
  Limited k = (m : ℕ) → q.max_read_queue ≡ ℤ.pos m → 0 < m → q.total_read_avail + k ≤ m

  read_size-le : is_max_limit q ≡ false → read_size q n ≤ n
  unfolding read_size is_max_limit sub64 add64
  read_size-le f = ground arith

  read_size_pos : is_max_limit q ≡ false → 0 < n → 0 < read_size q n
  unfolding read_size is_max_limit sub64 add64
  read_size_pos f p = ground arith

  read_size-Limited : is_max_limit q ≡ false → Limited (read_size q n)
  unfolding read_size is_max_limit sub64 add64
  read_size-Limited f m e p = ground (arith, e, f)

make_room-max :
    (q t : Nbq) (b : Bool) → make_room q ≡ some (t, b) → t.max_read_queue ≡ q.max_read_queue
unfolding make_room b_write_add_avail
make_room-max q t b e = ground arith

write_chunk-max :
    (bytes : List ℕ) (q t : Nbq)
    → write_chunk bytes q ≡ some t
    → t.max_read_queue ≡ q.max_read_queue
unfolding write_chunk b_write_incr
write_chunk-max bytes q t e = ground arith

is_max_limit-same :
    (q t : Nbq)
    → t.max_read_queue ≡ q.max_read_queue
    → t.total_read_avail ≡ q.total_read_avail
    → is_max_limit t ≡ is_max_limit q
unfolding is_max_limit
is_max_limit-same q t e f =
    ap₂ (λ m n. is_max_limit (record q { max_read_queue = m; total_read_avail = n })) e f

-- The bytes that a call of `ncread` has delivered.
abbrev pub delivered {ℓ} : {S : Type ℓ} → S × ℤ × List ℕ → List ℕ
delivered (c, ℤ.pos k, bytes) = bytes
delivered (c, ℤ.negsuc k, bytes) = []

-- What `nc_read` makes of its status.
abbrev pub status_of : ℤ → ℤ
status_of (ℤ.negsuc k) = ℤ.negsuc k
status_of (ℤ.pos zero) = ℤ.pos 0
status_of (ℤ.pos (suc k)) = nc_status_ok

-- What follows the call of `ncread`.
abbrev taken_in {ℓ} : {S : Type ℓ} → Nbq → S × ℤ × List ℕ → Option (Done S)
taken_in t (c, ℤ.negsuc k, bytes) = some (done t c (ℤ.negsuc k) [] 0)
taken_in t (c, ℤ.pos zero, bytes) = some (done t c (ℤ.pos 0) [] 0)
taken_in t (c, ℤ.pos (suc k), bytes) = do
  u ← receive bytes (suc k) t
  some (done u c nc_status_ok bytes (suc k))

module _ {ℓ} {S : Type ℓ} (ncread : ℕ → S → S × ℤ × List ℕ) where
  -- What a call of `nc_read` leaves.
  pub record Got (q : Nbq) (c : S) (d : Done S) : Type ℓ where
    pub inv : Inv d.queue
    pub unread_got : unread d.queue.q ≡ unread q.q ++ d.buf
    pub count_got : d.count ≡ length d.buf
    pub max_got : d.queue.max_read_queue ≡ q.max_read_queue
    pub limit : (m : ℕ) → q.max_read_queue ≡ ℤ.pos m → 0 < m → avail q.q ≤ m → avail d.queue.q ≤ m
    pub called :
        ((is_max_limit q ≡ true)
          × (d.conn ≡ c)
          × (d.buf ≡ [])
          × (d.status ≡ nc_status_read_unavailable))
        ⊎ ((n : ℕ) × (0 < n)
            × (n < 2 ^ 32)
            × (is_max_limit q ≡ false)
            × (d.conn ≡ (ncread n c).0)
            × (d.buf ≡ delivered (ncread n c))
            × (d.status ≡ status_of (ncread n c).1))

  module _ (r : IsReader ncread) (q : Nbq) (c : S) (i : Inv q)
      (bound : avail q.q + 2 ^ 32 < 2 ^ 64) where
    limited :
        is_max_limit q ≡ true → nc_read ncread q c ≡ some (done q c nc_status_read_unavailable [] 0)
    unfolding nc_read
    limited e = ground (arith, e)

    called_eq :
        (t : Nbq) (n : ℕ) (x : S × ℤ × List ℕ)
        → is_max_limit q ≡ false
        → make_room q ≡ some (t, true)
        → b_write_avail t ≡ some n
        → ncread (read_size t n) c ≡ x
        → nc_read ncread q c ≡ taken_in t x
    unfolding nc_read
    called_eq t n (c', ℤ.negsuc k, bytes) f em ea e = ground (arith, f, em, ea, e)
    called_eq t n (c', ℤ.pos zero, bytes) f em ea e = ground (arith, f, em, ea, e)
    called_eq t n (c', ℤ.pos (suc k), bytes) f em ea e = ground (arith, f, em, ea, e)

    -- The queue is untouched but for the room.
    idle :
        (t : Nbq) (c' : S) (s : ℤ) (k : ℕ)
        → Room q t
        → t.max_read_queue ≡ q.max_read_queue
        → 0 < k
        → k < 2 ^ 32
        → c' ≡ (ncread k c).0
        → delivered (ncread k c) ≡ []
        → is_max_limit q ≡ false
        → s ≡ status_of (ncread k c).1
        → Got q c (done t c' s [] 0)
    idle t c' s k m em p less ec ed ef es = record {
      inv = m.inv;
      unread_got = m.unread_room ∙ sym (append-nil (unread q.q));
      count_got = refl;
      max_got = em;
      limit = λ x e z l. omega (arith, m.avail_room);
      called = inr (k, p, less, ef, ec, sym ed, es);
    }

    full :
        (t u : Nbq) (k n : ℕ) (bytes : List ℕ)
        → Room q t
        → Wrote t u bytes
        → t.max_read_queue ≡ q.max_read_queue
        → u.max_read_queue ≡ q.max_read_queue
        → 0 < k
        → k < 2 ^ 32
        → n ≡ length bytes
        → ((m : ℕ) → t.max_read_queue ≡ ℤ.pos m → 0 < m → t.total_read_avail + k ≤ m)
        → n ≤ k
        → delivered (ncread k c) ≡ bytes
        → is_max_limit q ≡ false
        → nc_status_ok ≡ status_of (ncread k c).1
        → Got q c (done u (ncread k c).0 nc_status_ok bytes n)
    full t u k n bytes m w et eu p less en lim le ed ef es = record {
      inv = w.inv;
      unread_got = w.unread_wrote ∙ ap (λ x. x ++ bytes) m.unread_room;
      count_got = en;
      max_got = eu;
      limit = λ x e z l. omega (arith, lim x (et ∙ e) z, w.avail_wrote, m.inv.readable.counted);
      called = inr (k, p, less, ef, refl, sym ed, es);
    }

    -- The cases of the status, for a size that is positive and fits.
    module _ (t : Nbq) (f : is_max_limit q ≡ false) (m : Room q t)
        (em : t.max_read_queue ≡ q.max_read_queue) (k : ℕ) (p : 0 < k)
        (small : k ≤ m.b.len - m.b.written) (less : k < 2 ^ 32)
        (lim : (x : ℕ) → t.max_read_queue ≡ ℤ.pos x → 0 < x → t.total_read_avail + k ≤ x) where
      by_status :
          (x : S × ℤ × List ℕ) → ncread k c ≡ x → (d : Done S) × (taken_in t x ≡ some d) × Got q c d
      by_status (c', ℤ.negsuc j, bytes) e = (
        done t c' (ℤ.negsuc j) [] 0,
        refl,
        idle t c' _ k m em p less (rw e refl) (rw e refl) f (rw e refl),
      )
      by_status (c', ℤ.pos zero, bytes) e =
          let none : bytes ≡ [] =
            length-zero bytes (ap (λ y. length y.2) (sym e) ∙ r.given k c 0 (ap (λ y. y.1) e)) in
          (
            done t c' (ℤ.pos 0) [] 0,
            refl,
            idle t c' _ k m em p less (rw e refl) (rw e none) f (rw e refl),
          )
      by_status (c', ℤ.pos (suc j), bytes) e =
          let le : suc j ≤ k = r.fits k c (suc j) (ap (λ y. y.1) e) in
          let lb : length bytes ≡ suc j =
            ap (λ y. length y.2) (sym e) ∙ r.given k c (suc j) (ap (λ y. y.1) e) in
          let (u, eu, w) =
            write_chunk_lem t m.w m.r m.b bytes m.at_write m.at_read m.good m.found m.inv m.block
              (omega (arith, m.space)) (omega arith) (omega (arith, m.avail_room)) in
          (
            done u c' nc_status_ok bytes (suc j),
            rw (receive-write_chunk bytes (suc j) t lb, eu) refl,
            subst (λ y. Got q c (done u y nc_status_ok bytes (suc j))) (ap (λ y. y.0) e)
                (full t u k (suc j) bytes m w em (write_chunk-max bytes t u eu ∙ em) p less (sym lb)
                  lim le (ap delivered e) f (rw e refl)),
          )

    -- Over a connection that gives no more than it is asked for, and
    -- with fewer than 2^64 - 2^32 unread bytes in a well-formed queue, `nc_read` always returns: it asks the connection for
    -- some bytes, unless the queue has reached its limit, and puts what it delivers behind the unread
    -- bytes; its status is the connection's, but NC_STATUS_OK for a positive one and
    -- NC_STATUS_READ_UNAVAILABLE at the limit; the queue stays well-formed, and the limit, where there
    -- is one, is not passed.
    pub nc_read-Got : (d : Done S) × (nc_read ncread q c ≡ some d) × Got q c d
    nc_read-Got = elim (Bool-cases (is_max_limit q)) [
      | inl e ↦ (
        done q c nc_status_read_unavailable [] 0,
        limited e,
        record {
          inv = i;
          unread_got = sym (append-nil (unread q.q));
          count_got = refl;
          max_got = refl;
          limit = λ x y z l. l;
          called = inl (e, refl, refl, refl);
        },
      )
      | inr f ↦
          let (t, em, m) = make_room_lem q i in
          let et = make_room-max q t true em in
          let same : t.total_read_avail ≡ q.total_read_avail =
            m.inv.readable.counted ∙ m.avail_room ∙ sym i.readable.counted in
          let ft : is_max_limit t ≡ false = is_max_limit-same q t et same ∙ f in
          let n : ℕ = write_avail m.b in
          let en : n ≡ m.b.len - m.b.written = write_avail_lem m.b m.block in
          let small : n < 2 ^ 32 = omega (arith, m.block.small) in
          let room : t.total_read_avail + n < 2 ^ 64 = omega (arith, i.readable.counted) in
          let k : ℕ = read_size t n in
          let lk : k ≤ n = read_size-le t n room small ft in
          let (d, ed, g) =
            by_status t f m et k (read_size_pos t n room small ft (omega (arith, m.space)))
              (omega arith) (omega arith) (read_size-Limited t n room small ft) (ncread k c) refl in
          (
            d,
            called_eq t n (ncread k c) f em (b_write_avail_lem t m.w m.b m.at_write m.found) refl
                ∙ ed,
            g,
          )
    ]
