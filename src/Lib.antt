-- ===== src/Lib.antt =====
-- A model of is2, an embeddable HTTP server library, with proofs.
--
-- The server reads bytes from its connections into block queues (`nbq`), gives them to a parser whose
-- calls record where the parts of a request stand (`hmsg`), finds a request's handler by its path in the URL router, and writes the reply through
-- another block queue. Connections to other servers come from a pool, which keeps the idle ones in
-- a least recently used list, and an event loop runs the timers. Of a TLS client it takes a
-- fingerprint (`ja3`). This library models these parts.
--
-- Nbq: src/support/nbq.cc and include/is2/support/nbq.h. `Nbq.State` has `nb_struct` (`Nb`), the class `nbq`
-- (`Nbq`) with its two list iterators as positions (`none` is `end()`), and the block operations
-- `b_write_avail` .. `b_read_incr`; `Nbq.Ops` has the public methods. A method that dereferences
-- `end()` has the value `none`. Loops run on fuel: `write` on the length of its buffer, as every
-- round writes a byte, `read` on the number of bytes asked for and the number of blocks, as every
-- round consumes a byte or leaves a block. `Nbq.Transfer` has `write_q`, whose fuel is the number of
-- bytes that its source has unread. The modules `Nbq.Write`, `Nbq.Read`, `Nbq.Seek`, `Nbq.ReadFrom`,
-- `Nbq.Shrink` and `Nbq.Join` have the proofs. `Nbq.Shape` says what a well-formed queue is. A block
-- that `join_ref` makes holds a copy of the bytes: later writes into the memory that it shares are
-- not seen. Printing, `split`, and `write_fd` with its system call, are not modelled. `copy_part` stands in `Http.Parts`.
--
-- Router: src/url_router/url_router.cc. `Router.Pattern` has the patterns, `Router.Convert` the conversion of
-- a route's text, `Router.Trie` the nodes and edges, `Router.Insert` the methods that add a route, `Router.Match`
-- those that find one. `insert_route` takes fuel, the length of the pattern and one more; a text is
-- the list of its bytes from its pointer to the NUL, and a text that is made of bytes past the NUL is `none`. Printing the
-- trie is not modelled.
--
-- Uri: src/support/uri.cc. `Uri.Codec` has `uri_decode` and `uri_encode` on lists of bytes. The tables
-- G_HEX2DEC and G_SAFE are written by their ranges. The code keeps the length in an `int`, and so do
-- they; their loops are `decode_loop` and `encode_loop`.
--
-- Args: src/support/string_util.cc. `Args.Decode` has `urldecode_ns`, `Args.Parse` has `parse_args`, whose
-- outer loop runs on the length of the buffer as fuel, as every round consumes a character; it is for buffers of
-- fewer than 2^32 - 1 bytes, where the index of 32 bits does not wrap. `Args.Cookies` has
-- `parse_cookies`, where a pointer is the text from it on, which ends at a NUL or with the list; its loop has one more fuel than there are
-- characters, as every round moves on by one (`Args.CookiesEnd`). `Args.Names` has the file names and the
-- header line. `Args.Rounds`, `Args.Trip`, `Args.Steps` and `Args.Pairs` have the proofs. `convert_hex_to_uint` is not modelled.
--
-- Nconn: src/nconn/nconn.cc, the virtual `ncread` and `ncwrite` of which are parameters. `Nconn.Status` has
-- the return codes, `Nconn.Transfer` has `nc_read` and `nc_write`; the memory at `*ao_buf` is given as its bytes.
-- `Nconn.Input`, `Nconn.Output`, `Nconn.Channel` and `Nconn.Drain` have the proofs. The setters of
-- the connection's state, `nc_cleanup` and the TLS connections are not modelled.
--
-- Tcp: src/nconn/nconn_tcp.cc. `Tcp.State` has `ncread` and `ncwrite` over parameters for `recvfrom`, `send` and
-- `mod_fd`; `Tcp.Relay` makes them a source and a sink of Nconn, `Tcp.Receive` has what `nc_read` makes of the
-- answers of the system. Setting up, accepting, connecting and closing a socket are not modelled.
--
-- Lru: src/support/nlru.h. `Lru.State` has the class and its methods: a map is a function, a set of
-- ids a list, an iterator the id in its node, and the delete callback the item that `evict` hands
-- out. `Lru.Entries` and `Lru.Rep` say which list of entries the containers stand for, `Lru.Ideal`
-- has an ideal list and runs of calls against it, `Lru.Takes` what a call takes out. `show` and
-- `get_label_cnts` are not modelled.
--
-- Pool: src/srvr/nconn_pool.cc, on top of Lru. `Pool.State` has the class and its methods; a connection is
-- its address with a label and an id, and memory for a new one is given. The loop of
-- `evict_all_idle` runs on the number of idle connections as fuel, as every round evicts one.
-- `Pool.Counts`, `Pool.Active` and `Pool.Ledger` say where the connections are (the ledger), `Pool.Calls`,
-- `Pool.Returns`, `Pool.Reuse`, `Pool.Evict` and `Pool.Run` have the methods and runs of them. The
-- destructor is not modelled. Of ups_session.cc, which uses the pool, only the place that gives the
-- parser what was read is modelled (`Http.Feed`).
--
-- ObjPool: src/support/obj_pool.h. `ObjPool.State` has the class and its methods, `ObjPool.Places` and `ObjPool.Run`
-- the proofs. The destructor is not modelled.
--
-- Evr: the timers of src/evr/evr.cc. `Evr.State` has `dequeue_events`, `add_event` and `cancel_event`, over parameters
-- for the clock, the choice of the priority queue and the calls that a callback makes. The loop runs
-- on fuel, which is enough where it is more than the number of timers and no callback adds one; a
-- callback that adds timers which are due at once can keep the code in its loop. The clock is the time of day, which
-- may be set back. `Evr.Sound`,
-- `Evr.Rounds`, `Evr.View`, `Evr.Order`, `Evr.Ends` and `Evr.Cancelled` have the proofs. `run`, the file descriptors and the
-- back ends are not modelled.
--
-- Ja3: src/support/ja3.cc and include/is2/support/ja3.h, the fingerprint of a TLS client. `Ja3.State` has the
-- class (`Ja3`), the place that `extract_bytes` has come to (`Cur`), and the two macros that go on in
-- the bytes; memory is the list of the bytes from the buffer on, and a read past its end is `fault`.
-- `Ja3.Parse` has `extract_bytes`: its loop over the extensions has one more fuel than there are
-- bytes, as every round takes two; the length that it is given is taken to 16 bits. `Ja3.Print` has `get_str`, `get_md5` and `extract_fp` over
-- parameters for the digest, the connection's descriptor and `recvfrom`. `Ja3.Safe`, `Ja3.Rounds` and
-- `Ja3.Bounds` have the proofs on reading, `Ja3.Hello` the bytes of a client hello, `Ja3.Steps`, `Ja3.Exts` and
-- `Ja3.Trip` the parser over them, `Ja3.Spelling` and `Ja3.Whole` the string.
--
-- Http: src/srvr/hmsg.cc, src/srvr/rqst.cc, src/srvr/resp.cc and src/srvr/cb.cc, on top of Nbq and Args. `Http.State` has the
-- messages, with the fields that `rqst` and `resp` add to `hmsg` in one record (`Msg`), `Http.Calls` the callbacks
-- that http_parser makes, `Http.Feed` the place in ups_session.cc that gives it what was read of a response, and that in
-- session.cc which gives it what was read of a request.
-- The parser itself is not modelled: the calls that it makes are given, and its answer on a URL is a
-- parameter. `Http.Parts` copies the headers out of the queue, `Http.Group` has the maps of headers and arguments, as lists of
-- entries in the order in which the keys came, `Http.Url` the URL and its query. `Http.Slices`, `Http.Reports`,
-- `Http.EachCall`, `Http.Reported`, `Http.Lookup`, `Http.Fits` and `Http.Query` have the proofs. The queue of the body, which needs
-- `nbq::split`, is not modelled.
--
-- Numbers are natural numbers, with the wrap-around of `uint32_t` and `uint64_t` written out where
-- the code stores or subtracts them (`Prelude.Words`). The copies of other projects under ext/ are
-- not modelled.
pub mod Prelude
pub mod Nbq
pub mod Router
pub mod Uri
pub mod Args
pub mod Nconn
pub mod Lru
pub mod Pool
pub mod Evr
pub mod Tcp
pub mod ObjPool
pub mod Ja3
pub mod Http
