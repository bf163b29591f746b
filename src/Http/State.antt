-- ===== src/Http/State.antt =====
-- The classes `hmsg`, `rqst` and `resp` of include/is2/srvr, and the parts of a queue and of a URL that they keep.
use is.Prelude.{ℕ, List, [], Bool, true, false, Option, none}
use is.Nbq.State.{Nbq}
use is.Args.Parse.{Arg}

-- A part of the bytes of the queue.
pub record Cr : Type 0 where
  pub off : ℕ
  pub len : ℕ

-- A part of `m_url_buf`: where `m_data` points to, or NULL, and `m_len`.
pub record UrlPart : Type 0 where
  pub start : Option ℕ
  pub len : ℕ

abbrev pub no_cr : Cr
no_cr = record { off = 0; len = 0 }

abbrev pub no_part : UrlPart
no_part = record { start = none; len = 0 }

pub data MsgType : Type 0 where
  type_none : MsgType
  type_rqst : MsgType
  type_resp : MsgType

-- A map from a key to a list, in the order in which the keys came.
abbrev pub DataMap : Type 0
DataMap = List (Option (List ℕ) × List (Option (List ℕ)))

-- `hmsg`, with the fields that `rqst` and `resp` add to it.
pub record Msg : Type 0 where
  pub type : MsgType
  pub expect_resp_body_flag : Bool
  pub cur_off : ℕ
  pub cur_buf : ℕ
  pub p_h_list_key : List Cr
  pub p_h_list_val : List Cr
  pub p_body : Cr
  pub http_major : ℕ
  pub http_minor : ℕ
  pub complete : Bool
  pub supports_keep_alives : Bool
  pub q : Option Nbq
  pub header_list : Option (List Arg)
  pub header_map : Option DataMap
  -- rqst
  pub p_url : Cr
  pub method : ℕ
  pub expect : Bool
  pub url_parsed : Bool
  pub url_buf : Option (List ℕ)
  pub url : UrlPart
  pub url_host : UrlPart
  pub url_path : UrlPart
  pub url_query : UrlPart
  pub url_fragment : UrlPart
  pub query_list : Option (List Arg)
  pub query_map : Option DataMap
  -- resp
  pub p_status : Cr
  pub status : ℕ

-- `HTTP_GET` of http_parser.h.
abbrev pub http_get : ℕ
http_get = 1

-- `hmsg::init`; the body's queue is not kept.
abbrev pub hmsg_init : Msg → Msg
hmsg_init m = record m {
  p_h_list_key = [];
  p_h_list_val = [];
  p_body = no_cr;
  http_major = 0;
  http_minor = 0;
  complete = false;
  supports_keep_alives = false;
  cur_buf = 0;
  cur_off = 0;
  expect_resp_body_flag = true;
  header_list = none;
  header_map = none;
}

-- `rqst::init`; it leaves `m_url_host`. `m_url_uri`, which nothing reads, is not kept.
abbrev pub rqst_init : Msg → Msg
rqst_init m = record (hmsg_init m) {
  type = type_rqst;
  p_url = no_cr;
  method = http_get;
  expect = false;
  url = no_part;
  url_path = no_part;
  url_query = no_part;
  url_fragment = no_part;
  url_parsed = false;
  url_buf = none;
  query_list = none;
  query_map = none;
}

-- `resp::init`.
abbrev pub resp_init : Msg → Msg
resp_init m = record (hmsg_init m) { type = type_resp; p_status = no_cr; status = 0 }

-- What the constructors begin with.
abbrev pub blank : Msg
blank = record {
  type = type_none;
  expect_resp_body_flag = true;
  cur_off = 0;
  cur_buf = 0;
  p_h_list_key = [];
  p_h_list_val = [];
  p_body = no_cr;
  http_major = 0;
  http_minor = 0;
  complete = false;
  supports_keep_alives = false;
  q = none;
  header_list = none;
  header_map = none;
  p_url = no_cr;
  method = http_get;
  expect = false;
  url_parsed = false;
  url_buf = none;
  url = no_part;
  url_host = no_part;
  url_path = no_part;
  url_query = no_part;
  url_fragment = no_part;
  query_list = none;
  query_map = none;
  p_status = no_cr;
  status = 0;
}

abbrev pub set_q : Option Nbq → Msg → Msg
set_q q m = record m { q = q }

-- `reset_body_q`.
abbrev pub reset_body : Msg → Msg
reset_body m = record m { p_body = no_cr }
