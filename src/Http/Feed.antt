-- ===== src/Http/Feed.antt =====
-- What is read from a connection given to the parser: a response, as `run_state_machine` of
-- src/srvr/ups_session.cc does it (`feed`), and a request, as that of src/srvr/session.cc does it (`session_feed`),
-- with the settings of `resp::init` and `rqst::init`. The parser is not modelled: the callbacks that it makes
-- for what was read are given.
use is.Prelude.{ℕ, List, [], ◌∷◌, Bool, none, some}
use is.Http.Calls.{
  Parser, Slice, hp_on_message_begin, hp_on_url, hp_on_status, hp_on_header_field,
  hp_on_header_value, hp_on_headers_complete, hp_on_body, hp_on_message_complete,
}

-- A callback, with what the parser has of the message where it makes the call.
pub data Callback : Type 0 where
  on_message_begin : Callback
  on_url : Slice → Callback
  on_status : ℕ → Slice → Callback
  on_header_field : Slice → Callback
  on_header_value : Slice → Callback
  on_headers_complete : ℕ → ℕ → ℕ → Callback
  on_body : Slice → Callback
  on_message_complete : Bool → Callback

unfoldable pub call : Callback → Parser → Parser × ℕ
call on_message_begin p = hp_on_message_begin p
call (on_url s) p = hp_on_url s p
call (on_status code s) p = hp_on_status s (record p { status_code = code })
call (on_header_field s) p = hp_on_header_field s p
call (on_header_value s) p = hp_on_header_value s p
call (on_headers_complete major minor method) p =
    hp_on_headers_complete (record p { http_major = major; http_minor = minor; method = method })
call (on_body s) p = hp_on_body s p
call (on_message_complete keep) p = hp_on_message_complete keep p

unfoldable pub calls : List Callback → Parser → Parser
calls [] p = p
calls (c ∷ cs) p = calls cs (call c p).0

-- What one read gave: the address of the bytes, their offset in the queue, the bytes, and the calls that
-- the parser makes for them.
pub record Incoming : Type 0 where
  pub buf : ℕ
  pub off : ℕ
  pub bytes : List ℕ
  pub made : List Callback

-- For a response of an upstream server: `m_cur_buf` and `m_cur_off` are set to those of the read, and the
-- parser is called.
unfoldable pub feed : Incoming → Parser → Parser
feed r p = calls r.made (elim p.msg as (λ d. Parser) [
  | none ↦ p
  | some m ↦ record p { msg = some (record m { cur_buf = r.buf; cur_off = r.off }) }
])

unfoldable pub feeds : List Incoming → Parser → Parser
feeds [] p = p
feeds (r ∷ rs) p = feeds rs (feed r p)

-- For a request, in `run_state_machine` of src/srvr/session.cc, with the start of the queue's write block: the
-- offset is set after the parser was called.
unfoldable pub session_feed : ℕ → Incoming → Parser → Parser
session_feed block r p =
    let p1 = elim p.msg as (λ d. Parser) [
      | none ↦ p
      | some m ↦ record p { msg = some (record m { cur_buf = block }) }
    ] in
    let p2 = calls r.made p1 in
    elim p2.msg as (λ d. Parser) [
      | none ↦ p2
      | some m ↦ record p2 { msg = some (record m { cur_off = r.off }) }
    ]
