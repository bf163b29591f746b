-- ===== src/Nconn/Tests.antt =====
-- A source that holds a text, a sink that takes one byte at a time, and runs between them.
use is.Prelude.{
  ℕ, ◌≡◌, refl, ap, List, [], ◌∷◌, ◌++◌, Option, some, false, ◌>>=◌, arith, length, take, drop,
  length-take, codes, ℤ, inl, add32, sub32, add64, sub64,
}
use is.Nbq.State.{Nbq, new_nbq, b_write_avail}
use is.Nbq.Ops.{make_room}
use is.Nbq.Shape.{Inv, unread, avail}
use is.Nconn.Status.{nc_status_read_unavailable}
use is.Nconn.Transfer.{Done, nc_read, nc_write, is_max_limit, read_size, receive}
use is.Nconn.Input.{IsReader, Got, nc_read-Got}
use is.Nconn.Output.{IsWriter, Sent, nc_write-Sent}
use is.Nconn.Channel.{Source, Sink, State, Step, Run, InOrder, Run-InOrder}
use is.Nconn.Drain.{flush, IsWilling, Flushed, flush-drains}

-- What is left of the text, and what was handed out.
abbrev pub Text : Type 0
Text = List ℕ × List ℕ

abbrev text_read : ℕ → Text → Text × ℤ × List ℕ
text_read n (left, out) =
    ((drop n left, out ++ take n left), ℤ.pos (length (take n left)), take n left)

length_pos : {m k : ℕ} → ℤ.pos m ≡ ℤ.pos k → m ≡ k
length_pos e = cc

text-IsReader : IsReader text_read
text-IsReader = record {
  fits = λ n c k e. omega (arith, length_pos e, length-take n c.0);
  given = λ n c k e. length_pos e;
}

abbrev text_source : Source
text_source = record {
  S = Text;
  ncread = text_read;
  handed = λ c. c.1;
  is_reader = text-IsReader;
  handed_on = λ n c. refl;
}

abbrev byte_write : List ℕ → List ℕ → List ℕ × ℤ
byte_write bytes c = (c ++ take 1 bytes, ℤ.pos (length (take 1 bytes)))

byte-IsWriter : IsWriter byte_write
byte-IsWriter = record { fits = λ bytes c k e. omega (arith, length_pos e, length-take 1 bytes) }

pub take_first : (bytes : List ℕ) → take 1 bytes ≡ take (length (take 1 bytes)) bytes
take_first [] = refl
take_first (x ∷ xs) = refl

abbrev byte_sink : Sink
byte_sink = record {
  S = List ℕ;
  ncwrite = byte_write;
  received = λ c. c;
  is_writer = byte-IsWriter;
  received_on = λ bytes c. ap (λ x. c ++ x) (take_first bytes);
}

byte_sink-IsWilling : IsWilling byte_sink
byte_sink-IsWilling bytes c h = omega (arith, length-take 1 bytes)

abbrev pub empty_queue : Nbq
empty_queue = record (new_nbq 4) { max_read_queue = ℤ.pos 6 }

pub empty_queue-Inv : Inv empty_queue
unfolding new_nbq avail
empty_queue-Inv = record {
  readable = record { cursors = tt; ready = tt; counted = refl; bounded = omega arith };
  writable = λ e. refl;
  positive = omega arith;
  block_size = omega arith;
}

abbrev pub hello : Text
hello = (codes "hello, world", [])

nc_read-Got_example :
    (d : Done Text) × (nc_read text_read empty_queue hello ≡ some d)
    × Got text_read empty_queue hello d
nc_read-Got_example =
    nc_read-Got text_read text-IsReader empty_queue hello empty_queue-Inv
      (unfold new_nbq avail in omega arith)

abbrev start : State text_source byte_sink
start = record { queue = empty_queue; source = hello; sink = [] }

after_read :
    Run text_source byte_sink start
      (record start { queue = nc_read-Got_example.0.queue; source = nc_read-Got_example.0.conn })
after_read = Run.next Run.here (Step.read start nc_read-Got_example.0 nc_read-Got_example.1)

start-InOrder : InOrder text_source byte_sink 6 start
unfolding new_nbq avail unread
start-InOrder = record {
  inv = empty_queue-Inv;
  max_queue = refl;
  within = omega arith;
  stream = refl;
}

Run-InOrder_example :
    InOrder text_source byte_sink 6
      (record start { queue = nc_read-Got_example.0.queue; source = nc_read-Got_example.0.conn })
Run-InOrder_example =
    Run-InOrder text_source byte_sink 6 (omega arith) (omega arith) start-InOrder after_read

-- A block of three bytes.
abbrev three_bytes : Nbq
three_bytes = record {
  q = record { buf = 9 ∷ 8 ∷ 7 ∷ 0 ∷ []; len = 4; written = 3; read = 0; ref = false } ∷ [];
  bsize = 4;
  cur_write_block = some 0;
  cur_read_block = some 0;
  idx = 0;
  cur_write_offset = 3;
  total_read_avail = 3;
  max_read_queue = ℤ.negsuc 0;
}

three_bytes-Inv : Inv three_bytes
unfolding avail
three_bytes-Inv = record {
  readable = record {
    cursors = (omega arith, tt);
    ready = λ b e. inl (ground arith);
    counted = refl;
    bounded = omega arith;
  };
  writable = λ e. cc;
  positive = omega arith;
  block_size = omega arith;
}

nc_write-Sent_example :
    (d : Done (List ℕ)) × (nc_write byte_write three_bytes [] ≡ some d)
    × Sent byte_write three_bytes [] d
nc_write-Sent_example =
    nc_write-Sent byte_write byte-IsWriter three_bytes [] three_bytes-Inv
      (unfold avail in omega arith)

flush-drains_example :
    (q' : Nbq) × (c' : List ℕ) × (flush byte_sink 3 three_bytes [] ≡ some (q', c'))
    × Flushed byte_sink three_bytes [] q' c'
flush-drains_example =
    flush-drains byte_sink 3 three_bytes [] byte_sink-IsWilling three_bytes-Inv
      (unfold avail in omega arith)

-- Two reads: four bytes fill the block, and the limit leaves two for the second.
abbrev two_reads : Option (List ℕ × ℕ × ℤ)
two_reads = do
  d ← nc_read text_read empty_queue hello
  e ← nc_read text_read d.queue d.conn
  f ← nc_read text_read e.queue e.conn
  some (e.conn.1, e.count, f.status)

two_reads_lem : two_reads ≡ some (codes "hello,", 2, nc_status_read_unavailable)
unfolding nc_read is_max_limit read_size receive make_room b_write_avail new_nbq add32 sub32 add64
    sub64
two_reads_lem = refl
