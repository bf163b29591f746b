-- ===== src/Http/Calls.antt =====
-- The callbacks of src/srvr/cb.cc, which the parser of the library calls.
use is.Prelude.{
  ℕ, ◌+◌, List, [], ◌∷◌, ◌++◌, Bool, true, false, if◌then◌else◌, Option, none, some, ◌==◌, ◌&&◌,
  ◌||◌, not, ltb, length, add64, sub64, codes,
}
use is.Http.State.{Cr, MsgType, type_none, type_rqst, type_resp, Msg}

-- What of `http_parser` the callbacks read.
pub record Parser : Type 0 where
  -- `data`
  pub msg : Option Msg
  pub http_major : ℕ
  pub http_minor : ℕ
  pub method : ℕ
  pub status_code : ℕ

-- The arguments of a callback: the address, and the bytes there.
pub record Slice : Type 0 where
  pub at : ℕ
  pub bytes : List ℕ

-- `CALC_OFFSET`, and the length.
abbrev pub cr_of : Msg → Slice → Cr
cr_of m s = record { off = add64 (sub64 s.at m.cur_buf) m.cur_off; len = length s.bytes }

-- `CHECK_FOR_NULL_OK` and a change of the message, with the return value 0.
abbrev pub edit : (Msg → Msg) → Parser → Parser × ℕ
edit f p = (elim p.msg as (λ d. Parser) [ none ↦ p | some m ↦ record p { msg = some (f m) } ], 0)

abbrev pub is_rqst : MsgType → Bool
is_rqst type_none = false
is_rqst type_rqst = true
is_rqst type_resp = false

abbrev pub is_resp : MsgType → Bool
is_resp type_none = false
is_resp type_rqst = false
is_resp type_resp = true

abbrev pub hp_on_message_begin : Parser → Parser × ℕ
hp_on_message_begin p = (p, 0)

unfoldable pub hp_on_url : Slice → Parser → Parser × ℕ
hp_on_url s = edit (λ m. if is_rqst m.type then record m { p_url = cr_of m s } else m)

unfoldable pub hp_on_status : Slice → Parser → Parser × ℕ
hp_on_status s p =
    edit
      (λ m. if is_resp m.type then record m { status = p.status_code; p_status = cr_of m s } else m)
      p

-- `tolower` of the C locale.
unfoldable pub tolower : ℕ → ℕ
tolower c = if ltb 64 c && ltb c 91 then c + 32 else c

-- `strncasecmp` of two texts is 0, as far as the shorter one goes.
unfoldable pub strncasecmp_eq : List ℕ → List ℕ → Bool
strncasecmp_eq [] ys = true
strncasecmp_eq (x ∷ xs) [] = true
strncasecmp_eq (x ∷ xs) (y ∷ ys) =
    let onward = strncasecmp_eq xs ys in tolower x == tolower y && (x == 0 || onward)

-- The test for the header "Expect".
unfoldable pub is_expect : List ℕ → Bool
is_expect [] = false
is_expect (c ∷ cs) = length (c ∷ cs) == 6 && c == b'E' && strncasecmp_eq (codes "Expect") (c ∷ cs)

unfoldable pub hp_on_header_field : Slice → Parser → Parser × ℕ
hp_on_header_field s = edit (λ m.
    let m' = record m { p_h_list_key = m.p_h_list_key ++ cr_of m s ∷ [] } in
    if is_rqst m.type && is_expect s.bytes then record m' { expect = true } else m')

unfoldable pub hp_on_header_value : Slice → Parser → Parser × ℕ
hp_on_header_value s = edit (λ m. record m { p_h_list_val = m.p_h_list_val ++ cr_of m s ∷ [] })

-- It returns 1 where the body of a response is not expected.
unfoldable pub hp_on_headers_complete : Parser → Parser × ℕ
hp_on_headers_complete p = elim p.msg as (λ d. Parser × ℕ) [
  | none ↦ (p, 0)
  | some m ↦
      let m1 = record m { http_major = p.http_major; http_minor = p.http_minor } in
      let m2 = if is_rqst m.type then record m1 { method = p.method } else m1 in
      (record p { msg = some m2 }, if is_resp m.type && not m.expect_resp_body_flag then 1 else 0)
]

-- An offset of 0 stands for a body that is not there yet.
unfoldable pub hp_on_body : Slice → Parser → Parser × ℕ
hp_on_body s = edit (λ m.
    if m.p_body.off == 0
    then record m { p_body = cr_of m s }
    else record m { p_body = record m.p_body { len = add64 m.p_body.len (length s.bytes) } })

-- With the answer of `http_should_keep_alive`.
unfoldable pub hp_on_message_complete : Bool → Parser → Parser × ℕ
hp_on_message_complete keep = edit (λ m. record m { complete = true; supports_keep_alives = keep })
