-- ===== src/Http/Reports.antt =====
-- What the parser reports of the bytes of a queue: the parts of it that its calls are about.
use is.Prelude.{
  ℕ, ◌+◌, ◌^◌, ◌≤◌, ◌<◌, ◌≡◌, sym, ap, ◌∙◌, List, [], ◌∷◌, ◌++◌, length, take, drop, take-drop-take,
  drop-drop, add64, sub64, arith,
}
use is.Http.State.{Msg}
use is.Http.Calls.{Slice, cr_of}
use is.Http.Feed.{
  Callback, on_message_begin, on_url, on_status, on_header_field, on_header_value,
  on_headers_complete, on_body, on_message_complete, Incoming,
}
use is.Http.Slices.{Denotes}

-- The bytes of a call lie within those of the read.
pub record Lies (r : Incoming) (s : Slice) : Type 0 where
  pub index : ℕ
  pub place : s.at ≡ r.buf + index
  pub bytes : take (length s.bytes) (drop index r.bytes) ≡ s.bytes
  pub inside : index + length s.bytes ≤ length r.bytes

-- What was read is in the queue at its offset.
pub record Reads (cs : List ℕ) (r : Incoming) : Type 0 where
  pub bytes : take (length r.bytes) (drop r.off cs) ≡ r.bytes
  pub inside : r.off + length r.bytes ≤ length cs
  pub address : r.buf + length r.bytes < 2 ^ 64

abbrev pub LiesCall : Incoming → Callback → Type 0
LiesCall r on_message_begin = Unit {0}
LiesCall r (on_url s) = Lies r s
LiesCall r (on_status code s) = Lies r s
LiesCall r (on_header_field s) = Lies r s
LiesCall r (on_header_value s) = Lies r s
LiesCall r (on_headers_complete major minor method) = Unit {0}
LiesCall r (on_body s) = Lies r s
LiesCall r (on_message_complete keep) = Unit {0}

abbrev pub LiesAll : Incoming → List Callback → Type 0
LiesAll r [] = Unit {0}
LiesAll r (c ∷ cs) = LiesCall r c × LiesAll r cs

abbrev pub IncomingAll : List ℕ → List Incoming → Type 0
IncomingAll cs [] = Unit {0}
IncomingAll cs (r ∷ rs) = Reads cs r × LiesAll r r.made × IncomingAll cs rs

-- The names and the values that the parser reported.
abbrev pub field_of : Callback → List (List ℕ)
field_of on_message_begin = []
field_of (on_url s) = []
field_of (on_status code s) = []
field_of (on_header_field s) = s.bytes ∷ []
field_of (on_header_value s) = []
field_of (on_headers_complete major minor method) = []
field_of (on_body s) = []
field_of (on_message_complete keep) = []

abbrev pub value_of : Callback → List (List ℕ)
value_of on_message_begin = []
value_of (on_url s) = []
value_of (on_status code s) = []
value_of (on_header_field s) = []
value_of (on_header_value s) = s.bytes ∷ []
value_of (on_headers_complete major minor method) = []
value_of (on_body s) = []
value_of (on_message_complete keep) = []

unfoldable pub all_of : (Callback → List (List ℕ)) → List Callback → List (List ℕ)
all_of f [] = []
all_of f (c ∷ cs) = f c ++ all_of f cs

unfoldable pub reported : (Callback → List (List ℕ)) → List Incoming → List (List ℕ)
reported f [] = []
reported f (r ∷ rs) = all_of f r.made ++ reported f rs

pub cr_of-Denotes :
    (cs : List ℕ) (r : Incoming) (s : Slice) (m : Msg)
    → length cs < 2 ^ 32
    → Reads cs r
    → Lies r s
    → m.cur_buf ≡ r.buf
    → m.cur_off ≡ r.off
    → Denotes cs (cr_of m s) s.bytes
unfolding add64 sub64
cr_of-Denotes cs r s m b h l x y =
    let n = length s.bytes in
    let p : add64 (sub64 s.at m.cur_buf) m.cur_off ≡ r.off + l.index =
      omega (arith, x, y, l.place, l.inside, h.inside, h.address) in
    record {
      slice =
          ap (λ o. take n (drop o cs)) p
          ∙ ap (take n) (sym (drop-drop l.index r.off cs))
          ∙ sym (take-drop-take l.index n (length r.bytes) (drop r.off cs) l.inside)
          ∙ ap (λ u. take n (drop l.index u)) h.bytes
          ∙ l.bytes;
      within = omega (arith, p, h.inside, l.inside);
      short = omega (arith, b, h.inside, l.inside);
    }
