-- ===== src/Http/Url.antt =====
-- `rqst::parse_uri` and what is found in the URL, of src/srvr/rqst.cc. The parser of the library is a parameter: for
-- the bytes of a URL it gives the offset and the length of its fields, in the order of its `UF_` numbers.
use is.Prelude.{
  ℕ, suc, ◌+◌, ◌%◌, ◌^◌, List, [], ◌∷◌, Bool, true, false, if◌then◌else◌, Option, none, some, ◌>>=◌,
  ◌==◌, ◌&&◌, not, leb, take, drop,
}
use is.Args.Parse.{Arg, parse_args}
use is.Http.State.{UrlPart, DataMap, Msg}
use is.Http.Parts.{copy_part}
use is.Http.Group.{group}

abbrev pub uf_host : ℕ
uf_host = 1

abbrev pub uf_path : ℕ
uf_path = 3

abbrev pub uf_query : ℕ
uf_query = 4

abbrev pub uf_fragment : ℕ
uf_fragment = 5

abbrev pub part : ℕ → ℕ → UrlPart
part off len = record { start = some off; len = len }

-- The body of the loop over the fields.
unfoldable pub set_part : ℕ → ℕ → ℕ → ℕ → Msg → Msg
set_part n i off len m =
    if not (len == 0) && leb (len + off) n
    then (if i == uf_path
        then record m { url_path = part off len }
        else if i == uf_query
        then record m { url_query = part off len }
        else if i == uf_fragment
        then record m { url_fragment = part off len }
        else if i == uf_host
        then record m { url_host = part off len }
        else m)
    else m

unfoldable pub set_parts : ℕ → ℕ → List (ℕ × ℕ) → Msg → Msg
set_parts n i [] m = m
set_parts n i ((off, len) ∷ fs) m = set_parts n (suc i) fs (set_part n i off len m)

-- Whether it succeeds, and the message.
unfoldable pub parse_uri : (List ℕ → Option (List (ℕ × ℕ))) → Msg → Option (Bool × Msg)
parse_uri parse_url m =
    if m.url_parsed then some (true, m) else elim m.q as (λ x. Option (Bool × Msg)) [
      | none ↦ some (false, m)
      | some s ↦ if m.p_url.len == 0 then some (false, m) else (do
        (s', buf) ← copy_part m.p_url.off m.p_url.len s
        let n = m.p_url.len % 2 ^ 32
        let m1 = record m { q = some s'; url_buf = some buf }
        elim (parse_url (take n buf)) as (λ x. Option (Bool × Msg)) [
          | none ↦ some (false, record m1 { url_buf = none })
          | some fs ↦
              some (true, record (set_parts n 0 fs m1) { url = part 0 n; url_parsed = true })
        ])
    ]

-- What `get_url` and the others do first; `parse_uri` tests again whether the URL is parsed.
unfoldable pub ensure_uri : (List ℕ → Option (List (ℕ × ℕ))) → Msg → Option Msg
ensure_uri parse_url m = do (ok, m') ← parse_uri parse_url m; some m'

abbrev pub part_bytes : Option (List ℕ) → UrlPart → List ℕ
part_bytes none p = []
part_bytes (some buf) p = elim p.start as (λ x. List ℕ) [
  | none ↦ []
  | some off ↦ take p.len (drop off buf)
]

unfoldable pub get_query_list : (List ℕ → Option (List (ℕ × ℕ))) → Msg → Option (Msg × List Arg)
get_query_list parse_url m = elim m.query_list as (λ x. Option (Msg × List Arg)) [
  | some args ↦ some (m, args)
  | none ↦ do
    m1 ← ensure_uri parse_url m
    m2 ← ensure_uri parse_url m1
    (args, bad) ← parse_args [] 0 (part_bytes m2.url_buf m2.url_query) b'&'
    some (record m2 { query_list = some args }, args)
]

unfoldable pub get_query_map : (List ℕ → Option (List (ℕ × ℕ))) → Msg → Option (Msg × DataMap)
get_query_map parse_url m = elim m.query_map as (λ x. Option (Msg × DataMap)) [
  | some d ↦ some (m, d)
  | none ↦ do
    (m', args) ← get_query_list parse_url m
    let d = group [] args
    some (record m' { query_map = some d }, d)
]
