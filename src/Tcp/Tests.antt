-- ===== src/Tcp/Tests.antt =====
-- A socket that gives a text, one that takes a byte at a time, and a queue between them.
use is.Prelude.{
  ◌^◌, ◌<◌, ℕ, ◌≡◌, refl, ap, List, [], ◌++◌, some, arith, length, take, drop, min, length-take,
  Bool, true,
}
use is.Nbq.State.{new_nbq}
use is.Nbq.Shape.{Inv, unread, avail}
use is.Nconn.Transfer.{is_max_limit, Done, nc_read}
use is.Nconn.Input.{Got, nc_read-Got}
use is.Nconn.Channel.{State, Run, Step, InOrder}
use is.Nconn.Tests.{Text, hello, empty_queue, empty_queue-Inv, take_first}
use is.Tcp.State.{Reply, answer, ncread}
use is.Tcp.Receive.{read_status, nc_read-answers}
use is.Tcp.Relay.{given, Receiver, Sender, tcp_source, tcp_sink, ncread-IsReader, relay-InOrder}

abbrev window : ℕ
window = 1000

-- At most a thousand bytes at a time.
abbrev text_recv : ℕ → Text → Text × Reply (List ℕ)
text_recv n (left, out) =
    let k = min n window in ((drop k left, out ++ take k left), answer (take k left))

abbrev text_receiver : Receiver
text_receiver = record {
  S = Text;
  recvfrom = text_recv;
  taken = λ c. c.1;
  fits = λ n c. omega (arith, length-take (min n window) c.0);
  small = λ n c. omega (arith, length-take (min n window) c.0);
  taken_on = λ n c. refl;
}

abbrev byte_send : List ℕ → List ℕ → List ℕ × Reply ℕ
byte_send bytes c = (c ++ take 1 bytes, answer (length (take 1 bytes)))

abbrev wait_for : ℕ → List ℕ → List ℕ × Bool
wait_for m c = (c, true)

wait_for_same :
    (f : ℕ → List ℕ → List ℕ × Bool) (m : ℕ) (c : List ℕ) → some wait_for ≡ some f → (f m c).0 ≡ c
wait_for_same f m c e = ground (arith, e)

abbrev byte_sender : Sender
byte_sender = record {
  S = List ℕ;
  send = byte_send;
  mod_fd = some wait_for;
  gone = λ c. c;
  fits = λ bytes c. omega (arith, length-take 1 bytes);
  small = λ bytes c. omega (arith, length-take 1 bytes);
  gone_on = λ bytes c. ap (λ x. c ++ x) (take_first bytes);
  mod_fd_on = wait_for_same;
}

first_read :
    (d : Done Text) × (nc_read (ncread text_recv) empty_queue hello ≡ some d)
    × Got (ncread text_recv) empty_queue hello d
first_read =
    nc_read-Got (ncread text_recv) (ncread-IsReader text_receiver) empty_queue hello empty_queue-Inv
      (unfold new_nbq avail in omega arith)

abbrev start : State (tcp_source text_receiver) (tcp_sink byte_sender)
start = record { queue = empty_queue; source = hello; sink = [] }

after_read :
    Run
      (tcp_source text_receiver)
      (tcp_sink byte_sender)
      start
      (record start { queue = first_read.0.queue; source = first_read.0.conn })
after_read = Run.next Run.here (Step.read start first_read.0 first_read.1)

start-InOrder : InOrder (tcp_source text_receiver) (tcp_sink byte_sender) 6 start
unfolding new_nbq avail unread
start-InOrder = record {
  inv = empty_queue-Inv;
  max_queue = refl;
  within = omega arith;
  stream = refl;
}

relay-InOrder_example :
    InOrder
      (tcp_source text_receiver)
      (tcp_sink byte_sender)
      6
      (record start { queue = first_read.0.queue; source = first_read.0.conn })
relay-InOrder_example =
    relay-InOrder text_receiver byte_sender 6 (omega arith) (omega arith) start-InOrder after_read

nc_read-answers_example :
    (d : Done Text) × (n : ℕ) × (nc_read (ncread text_recv) empty_queue hello ≡ some d)
    × (0 < n)
    × (n < 2 ^ 32)
    × (d.conn ≡ (text_recv n hello).0)
    × (d.status ≡ read_status (text_recv n hello).1)
    × (unread d.queue.q ≡ unread empty_queue.q ++ given (text_recv n hello).1)
    × Inv d.queue
nc_read-answers_example =
    nc_read-answers text_receiver empty_queue hello empty_queue-Inv
      (unfold new_nbq avail in omega arith) (unfold new_nbq is_max_limit in refl)
