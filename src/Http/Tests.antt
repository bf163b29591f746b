-- ===== src/Http/Tests.antt =====
-- Runs of messages on a small request and a small response, and the theorems at it.
use is.Prelude.{
  ℕ, ◌≡◌, refl, List, [], ◌∷◌, map, Bool, true, false, Option, none, some, take, drop, ℤ, codes,
  arith, inl, inr, sym, subst, str_eq, add64, sub64,
}
use is.Nbq.State.{Nb, Nbq}
use is.Nbq.Shape.{contents, avail}
use is.Args.Parse.{Arg, arg}
use is.Http.State.{Msg, blank, rqst_init, resp_init, set_q, DataMap}
use is.Http.Calls.{Parser, Slice, strncasecmp_eq, tolower, hp_on_header_field, is_expect}
use is.Http.Parts.{get_header_list}
use is.Http.Feed.{
  on_message_begin, on_status, on_header_field, on_header_value, on_headers_complete, on_body,
  on_message_complete, Incoming, feeds, session_feed, calls, call,
}
use is.Http.Slices.{Holds, pairs, Denotes}
use is.Http.Reports.{IncomingAll, field_of, value_of, reported}
use is.Args.Trip.{Given, AllGiven, given_arg, print, print_all}
use is.Uri.Codec.{encode_loop}
use is.Http.Url.{part, parse_uri, get_query_list}
use is.Http.Fits.{Parsed, parse_uri-Parsed}
use is.Http.Query.{get_query_list-print}
use is.Http.Group.{same_key, add_arg, find, group, get_header_map}
use is.Http.Lookup.{Separate, In, eq_key, values_of, found, arg_keys, get_header_map-finds}
use is.Http.Reported.{get_header_list-reported}

abbrev text : List ℕ
text = codes "/a?k=v X-Id: 7..hi"

-- A block that is full.
abbrev text_block : Nb
text_block = record { buf = text; len = 18; written = 18; read = 0; ref = false }

abbrev text_q : Nbq
text_q = record {
  q = text_block ∷ [];
  bsize = 18;
  cur_write_block = some 0;
  cur_read_block = some 0;
  idx = 0;
  cur_write_offset = 18;
  total_read_avail = 18;
  max_read_queue = ℤ.negsuc 0;
}

text_q-Holds : Holds text text_q
unfolding avail contents
text_q-Holds = record {
  readable = record {
    cursors = (
      record {
        sized = refl;
        has_len = omega arith;
        small = omega arith;
        read_le = omega arith;
        written_le = omega arith;
      },
      tt,
    );
    ready = λ b e. inl (ground arith);
    counted = refl;
    bounded = omega arith;
  };
  bytes = refl;
  bounded = omega arith;
}

abbrev k_v : Given
k_v = record { first = b'k'; more = []; value = some (b'v', []) }

k_v-AllGiven : AllGiven (k_v ∷ [])
k_v-AllGiven = (((omega arith, tt), (omega arith, tt)), tt)

k_v-printed : take 3 (drop 3 (codes "/a?k=v")) ≡ print b'&' (k_v ∷ [])
unfolding print print_all encode_loop
k_v-printed = refl

abbrev messages : Option Msg → List Msg
messages none = []
messages (some m) = m ∷ []

abbrev slice : ℕ → List ℕ → Slice
slice at bytes = record { at = at; bytes = bytes }

abbrev request : Msg
request = set_q (some text_q) (rqst_init blank)

abbrev parser : Parser
parser = record { msg = some request; http_major = 1; http_minor = 1; method = 1; status_code = 0 }

-- A response, in two reads into buffers at 1000 and at 5000.
abbrev answer : List ℕ
answer = codes "200 OK X-Id: 7..hi"

abbrev answer_q : Nbq
answer_q = record text_q { q = record text_block { buf = answer } ∷ [] }

answer_q-Holds : Holds answer answer_q
unfolding avail contents
answer_q-Holds = record {
  readable = record {
    cursors = (
      record {
        sized = refl;
        has_len = omega arith;
        small = omega arith;
        read_le = omega arith;
        written_le = omega arith;
      },
      tt,
    );
    ready = λ b e. inl (ground arith);
    counted = refl;
    bounded = omega arith;
  };
  bytes = refl;
  bounded = omega arith;
}

abbrev first_read : Incoming
first_read = record {
  buf = 1000;
  off = 0;
  bytes = codes "200 OK X-Id:";
  made =
      on_message_begin
      ∷ on_status 200 (slice 1004 (codes "OK"))
      ∷ on_header_field (slice 1007 (codes "X-Id"))
      ∷ [];
}

abbrev second_read : Incoming
second_read = record {
  buf = 5000;
  off = 12;
  bytes = codes " 7..hi";
  made =
      on_header_value (slice 5001 (codes "7"))
      ∷ on_headers_complete 1 1 0
      ∷ on_body (slice 5004 (codes "hi"))
      ∷ on_message_complete true
      ∷ [];
}

abbrev response : Msg
response = set_q (some answer_q) (resp_init blank)

abbrev resp_parser : Parser
resp_parser = record {
  msg = some response;
  http_major = 1;
  http_minor = 1;
  method = 0;
  status_code = 200;
}

reads-IncomingAll : IncomingAll answer (first_read ∷ second_read ∷ [])
reads-IncomingAll = (
  record { bytes = refl; inside = omega arith; address = omega arith },
  (
    tt,
    (
      record { index = 4; place = omega arith; bytes = refl; inside = omega arith },
      (record { index = 7; place = omega arith; bytes = refl; inside = omega arith }, tt),
    ),
  ),
  (
    record { bytes = refl; inside = omega arith; address = omega arith },
    (
      record { index = 1; place = omega arith; bytes = refl; inside = omega arith },
      (
        tt,
        (record { index = 4; place = omega arith; bytes = refl; inside = omega arith }, (tt, tt)),
      ),
    ),
    tt,
  ),
)

get_header_list-reported_example :
    (m1 : Msg) × (m2 : Msg) × ((feeds (first_read ∷ second_read ∷ []) resp_parser).msg ≡ some m1)
    × (get_header_list m1
        ≡ some (
          m2,
          pairs
              (reported field_of (first_read ∷ second_read ∷ []))
              (reported value_of (first_read ∷ second_read ∷ [])),
        ))
get_header_list-reported_example =
    get_header_list-reported answer (first_read ∷ second_read ∷ []) resp_parser response answer_q
      (omega arith) reads-IncomingAll refl refl refl refl refl refl answer_q-Holds

-- The fields of the URL "/a?k=v": the path and the query.
abbrev url_parser : List ℕ → Option (List (ℕ × ℕ))
url_parser bs = some ((0, 0) ∷ (0, 0) ∷ (0, 0) ∷ (0, 2) ∷ (3, 3) ∷ (0, 0) ∷ (0, 0) ∷ [])

abbrev asked : Msg
asked = record request { p_url = record { off = 0; len = 6 } }

asked-Denotes : Denotes text asked.p_url (codes "/a?k=v")
asked-Denotes = record { slice = refl; within = omega arith; short = omega arith }

parse_uri-Parsed_example :
    (ok : Bool) × (m' : Msg) × (parse_uri url_parser asked ≡ some (ok, m'))
    × Parsed (codes "/a?k=v") ok m'
parse_uri-Parsed_example =
    parse_uri-Parsed url_parser asked text_q text (codes "/a?k=v") refl refl text_q-Holds
      asked-Denotes (omega arith) (record { host = tt; path = tt; query = tt; fragment = tt })

get_query_list-print_example :
    (m2 : Msg) × (get_query_list url_parser asked ≡ some (m2, map given_arg (k_v ∷ [])))
get_query_list-print_example =
    get_query_list-print url_parser asked text_q text (codes "/a?k=v") (0, 0) (0, 0) (0, 0) (0, 2) 3
      3 ((0, 0) ∷ (0, 0) ∷ []) k_v [] refl refl refl text_q-Holds asked-Denotes refl (omega arith)
      (omega arith) k_v-AllGiven k_v-printed

-- After `rqst::init` the host of an earlier URL still points into the buffer that was freed.
stale_host :
    (rqst_init (record asked { url_buf = some (codes "http://h/"); url_host = part 7 1 })).url_host
    ≡ part 7 1
stale_host = refl

-- Three headers, two of one name.
abbrev headers : List Arg
headers =
    arg (some (codes "Via")) (some (codes "a"))
    ∷ arg (some (codes "X-Id")) (some (codes "7"))
    ∷ arg (some (codes "via")) (some (codes "b"))
    ∷ []

abbrev listed : Msg
listed = record request { header_list = some headers }

abbrev via : Option (List ℕ)
via = some (codes "VIA")

abbrev AllOf : (Option (List ℕ) → Type 0) → List (Option (List ℕ)) → Type 0
AllOf P [] = Unit {0}
AllOf P (k ∷ ks) = P k × AllOf P ks

AllOf-In :
    (P : Option (List ℕ) → Type 0) (a : Option (List ℕ)) (ks : List (Option (List ℕ)))
    → AllOf P ks
    → In a ks
    → P a
AllOf-In P a [] h p = absurd p
AllOf-In P a (k ∷ ks) (h, hs) (inl e) = subst P (sym e) h
AllOf-In P a (k ∷ ks) (h, hs) (inr p) = AllOf-In P a ks hs p

abbrev Same : Option (List ℕ) → Option (List ℕ) → Type 0
Same a b = same_key a b ≡ true → eq_key a b ≡ true

headers-Separate : Separate (via ∷ arg_keys headers)
unfolding strncasecmp_eq tolower str_eq
headers-Separate a b p q =
    let ks = via ∷ arg_keys headers in
    let all =
      AllOf-In (λ x. AllOf (Same x) ks) a ks
        (
          (λ h. h, (λ h. h, (λ h. h, (λ h. h, tt)))),
          (
            (λ h. h, (λ h. h, (λ h. h, (λ h. h, tt)))),
            (
              (λ h. h, (λ h. h, (λ h. h, (λ h. h, tt)))),
              ((λ h. h, (λ h. h, (λ h. h, (λ h. h, tt)))), tt),
            ),
          ),
        )
        p in
    AllOf-In (Same a) b ks all q

get_header_map-finds_example :
    (m2 : Msg) × (d : DataMap) × (get_header_map listed ≡ some (m2, d))
    × (find via d ≡ found (values_of via headers))
unfolding get_header_list
get_header_map-finds_example =
    get_header_map-finds listed listed headers via refl refl headers-Separate

values_of-via : values_of via headers ≡ some (codes "a") ∷ some (codes "b") ∷ []
unfolding values_of tolower str_eq
values_of-via = refl

-- A name that another one begins with is taken for it.
find-prefix :
    find (some (codes "Accept-Encoding")) (
      group [] (
        arg (some (codes "Accept")) (some (codes "a"))
        ∷ arg (some (codes "Accept-Encoding")) (some (codes "b"))
        ∷ []))
    ≡ some (some (codes "a") ∷ some (codes "b") ∷ [])
unfolding find group add_arg strncasecmp_eq tolower
find-prefix = refl

-- Three reads of five bytes of a session, into a block at 1000: the name that stands at offset 10 is taken for
-- one at offset 15.
abbrev piece : ℕ → ℕ → List ℕ → Incoming
piece buf off name = record {
  buf = buf;
  off = off;
  bytes = name;
  made = on_header_field (slice buf name) ∷ [];
}

abbrev three_pieces : Parser
three_pieces = session_feed 1000 (piece 1010 10 (codes "X-Id:")) (
    session_feed 1000 (record { buf = 1005; off = 5; bytes = codes "k=v  "; made = [] })
      (session_feed 1000 (record { buf = 1000; off = 0; bytes = codes "GET /"; made = [] }) parser))

session_feed-third :
    map (λ m. m.p_h_list_key) (messages three_pieces.msg) ≡ (record { off = 15; len = 5 } ∷ []) ∷ []
unfolding session_feed calls call hp_on_header_field is_expect add64 sub64
session_feed-third = refl
