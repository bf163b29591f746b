-- ===== src/Http/EachCall.antt =====
-- What each callback of src/srvr/cb.cc adds to the headers of a message.
use is.Prelude.{
  ℕ, ◌^◌, ◌<◌, ◌≡◌, refl, sym, subst, ◌∙◌, List, [], ◌∷◌, ◌++◌, append-nil, none, some, Bool, true,
  false, if◌then◌else◌, ◌&&◌, ◌==◌, length,
}
use is.Nbq.State.{Nbq}
use is.Http.State.{Msg}
use is.Http.Calls.{
  Parser, cr_of, edit, is_rqst, is_resp, is_expect, hp_on_url, hp_on_status, hp_on_header_field,
  hp_on_header_value, hp_on_headers_complete, hp_on_body, hp_on_message_complete,
}
use is.Http.Feed.{
  Callback, on_message_begin, on_url, on_status, on_header_field, on_header_value,
  on_headers_complete, on_body, on_message_complete, call, Incoming,
}
use is.Http.Slices.{DenoteAll, DenoteAll-snoc, Holds}
use is.Http.Reports.{Reads, LiesCall, field_of, value_of, cr_of-Denotes}

-- What a message holds of the headers so far, where it reads them from, and during which read.
pub record Seen (cs : List ℕ) (kb vb : List (List ℕ)) (r : Incoming) (m : Msg) : Type 0 where
  pub keys : DenoteAll cs m.p_h_list_key kb
  pub vals : DenoteAll cs m.p_h_list_val vb
  pub fresh : m.header_list ≡ none
  pub queue : (s : Nbq) × (m.q ≡ some s) × Holds cs s
  pub buf : m.cur_buf ≡ r.buf
  pub off : m.cur_off ≡ r.off

-- A message with the same headers, queue and place.
record Keeps (m m' : Msg) : Type 0 where
  key : m'.p_h_list_key ≡ m.p_h_list_key
  val : m'.p_h_list_val ≡ m.p_h_list_val
  fresh : m'.header_list ≡ m.header_list
  queue : m'.q ≡ m.q
  buf : m'.cur_buf ≡ m.cur_buf
  off : m'.cur_off ≡ m.cur_off

Keeps-same : (m : Msg) → Keeps m m
Keeps-same m = record { key = refl; val = refl; fresh = refl; queue = refl; buf = refl; off = refl }

Keeps-if : (b : Bool) (m m1 m2 : Msg) → Keeps m m1 → Keeps m m2 → Keeps m (if b then m1 else m2)
Keeps-if true m m1 m2 h k = h
Keeps-if false m m1 m2 h k = k

Seen-Keeps :
    (cs : List ℕ) (kb vb : List (List ℕ)) (r : Incoming) (m m' : Msg)
    → Keeps m m'
    → Seen cs kb vb r m
    → Seen cs kb vb r m'
Seen-Keeps cs kb vb r m m' k h =
    let (s, e, g) = h.queue in
    record {
      keys = subst (λ ks. DenoteAll cs ks kb) (sym k.key) h.keys;
      vals = subst (λ vs. DenoteAll cs vs vb) (sym k.val) h.vals;
      fresh = k.fresh ∙ h.fresh;
      queue = (s, k.queue ∙ e, g);
      buf = k.buf ∙ h.buf;
      off = k.off ∙ h.off;
    }

edit_msg : (f : Msg → Msg) (p : Parser) (m : Msg) → p.msg ≡ some m → (edit f p).0.msg ≡ some (f m)
edit_msg f p m e = rw e refl

-- A message after a call, and what it holds.
abbrev pub After : List ℕ → List (List ℕ) → List (List ℕ) → Incoming → Parser → Type 0
After cs kb vb r p = (m : Msg) × (p.msg ≡ some m) × Seen cs kb vb r m

module _ (cs : List ℕ) (kb vb : List (List ℕ)) (r : Incoming) where
  -- A call that reports neither a name nor a value.
  edit-After :
      (f : Msg → Msg) (p : Parser)
      → ((m : Msg) → Keeps m (f m))
      → After cs kb vb r p
      → After cs (kb ++ []) (vb ++ []) r (edit f p).0
  edit-After f p k (m, e, h) = (
    f m,
    edit_msg f p m e,
    rw (append-nil kb, append-nil vb) (Seen-Keeps cs kb vb r m (f m) (k m) h),
  )

  headers_complete-After :
      (p : Parser)
      → After cs kb vb r p
      → After cs (kb ++ []) (vb ++ []) r (hp_on_headers_complete p).0
  unfolding hp_on_headers_complete
  headers_complete-After p (m, e, h) =
      let m1 = record m { http_major = p.http_major; http_minor = p.http_minor } in
      let m2 = if is_rqst m.type then record m1 { method = p.method } else m1 in
      let k : Keeps m m2 =
        Keeps-if (is_rqst m.type) m (record m1 { method = p.method }) m1
          (record { key = refl; val = refl; fresh = refl; queue = refl; buf = refl; off = refl })
          (record { key = refl; val = refl; fresh = refl; queue = refl; buf = refl; off = refl }) in
      (m2, rw e refl, rw (append-nil kb, append-nil vb) (Seen-Keeps cs kb vb r m m2 k h))

  pub call-After :
      (c : Callback) (p : Parser)
      → length cs < 2 ^ 32
      → Reads cs r
      → LiesCall r c
      → After cs kb vb r p
      → After cs (kb ++ field_of c) (vb ++ value_of c) r (call c p).0
  unfolding call hp_on_url hp_on_status hp_on_header_field hp_on_header_value hp_on_body
      hp_on_message_complete
  call-After on_message_begin p b g l h = rw (append-nil kb, append-nil vb) h
  call-After (on_url s) p b g l h =
      edit-After _ p
        (λ m.
          Keeps-if (is_rqst m.type) m _ m
            (record { key = refl; val = refl; fresh = refl; queue = refl; buf = refl; off = refl })
            (Keeps-same m))
        h
  call-After (on_status code s) p b g l h =
      edit-After _ (record p { status_code = code })
        (λ m.
          Keeps-if (is_resp m.type) m _ m
            (record { key = refl; val = refl; fresh = refl; queue = refl; buf = refl; off = refl })
            (Keeps-same m))
        h
  call-After (on_header_field s) p b g l (m, e, h) =
      let k = cr_of m s in
      let m1 = record m { p_h_list_key = m.p_h_list_key ++ k ∷ [] } in
      let m2 = if is_rqst m.type && is_expect s.bytes then record m1 { expect = true } else m1 in
      let d = cr_of-Denotes cs r s m b g l h.buf h.off in
      let h1 : Seen cs (kb ++ s.bytes ∷ []) vb r m1 = record {
        keys = DenoteAll-snoc cs m.p_h_list_key kb k s.bytes h.keys d;
        vals = h.vals;
        fresh = h.fresh;
        queue = h.queue;
        buf = h.buf;
        off = h.off;
      } in
      (
        m2,
        edit_msg _ p m e,
        rw (append-nil vb) (
            Seen-Keeps cs (kb ++ s.bytes ∷ []) vb r m1 m2
              (Keeps-if (is_rqst m.type && is_expect s.bytes) m1 _ m1
                (record {
                  key = refl;
                  val = refl;
                  fresh = refl;
                  queue = refl;
                  buf = refl;
                  off = refl;
                })
                (Keeps-same m1))
              h1),
      )
  call-After (on_header_value s) p b g l (m, e, h) =
      let k = cr_of m s in
      let m1 = record m { p_h_list_val = m.p_h_list_val ++ k ∷ [] } in
      let d = cr_of-Denotes cs r s m b g l h.buf h.off in
      let h1 : Seen cs kb (vb ++ s.bytes ∷ []) r m1 = record {
        keys = h.keys;
        vals = DenoteAll-snoc cs m.p_h_list_val vb k s.bytes h.vals d;
        fresh = h.fresh;
        queue = h.queue;
        buf = h.buf;
        off = h.off;
      } in
      (m1, edit_msg _ p m e, rw (append-nil kb) h1)
  call-After (on_headers_complete major minor method) p b g l h =
      headers_complete-After (record p { http_major = major; http_minor = minor; method = method })
        h
  call-After (on_body s) p b g l h =
      edit-After _ p
        (λ m.
          Keeps-if (m.p_body.off == 0) m _ _
            (record { key = refl; val = refl; fresh = refl; queue = refl; buf = refl; off = refl })
            (record { key = refl; val = refl; fresh = refl; queue = refl; buf = refl; off = refl }))
        h
  call-After (on_message_complete keep) p b g l h =
      edit-After _ p
        (λ m. record { key = refl; val = refl; fresh = refl; queue = refl; buf = refl; off = refl })
        h
