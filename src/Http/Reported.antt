-- ===== src/Http/Reported.antt =====
-- The headers of a response are those that the parser reported.
use is.Prelude.{
  ℕ, ◌^◌, ◌<◌, ◌≡◌, refl, sym, subst, List, [], ◌∷◌, ◌++◌, append-nil, append_assoc, none, some,
  length,
}
use is.Nbq.State.{Nbq}
use is.Http.State.{Msg, type_resp}
use is.Http.Calls.{Parser}
use is.Http.Parts.{header_args, get_header_list}
use is.Http.Feed.{Callback, call, calls, Incoming, feed, feeds}
use is.Http.Slices.{DenoteAll, pairs, Holds, header_args-pairs}
use is.Http.Reports.{Reads, LiesAll, IncomingAll, field_of, value_of, all_of, reported}
use is.Http.EachCall.{After, call-After}

calls-After :
    (cs : List ℕ) (kb vb : List (List ℕ)) (r : Incoming) (us : List Callback) (p : Parser)
    → length cs < 2 ^ 32
    → Reads cs r
    → LiesAll r us
    → After cs kb vb r p
    → After cs (kb ++ all_of field_of us) (vb ++ all_of value_of us) r (calls us p)
unfolding calls all_of
calls-After cs kb vb r [] p b g l h = rw (append-nil kb, append-nil vb) h
calls-After cs kb vb r (u ∷ us) p b g (l, ls) h =
    subst (λ k. After cs k (vb ++ (value_of u ++ all_of value_of us)) r (calls us (call u p).0))
      (append_assoc kb (field_of u) (all_of field_of us))
      (subst (λ v. After cs ((kb ++ field_of u) ++ all_of field_of us) v r (calls us (call u p).0))
        (append_assoc vb (value_of u) (all_of value_of us))
        (calls-After cs (kb ++ field_of u) (vb ++ value_of u) r us (call u p).0 b g ls
          (call-After cs kb vb r u p b g l h)))

-- What holds of a message between two reads.
record Holding (cs : List ℕ) (kb vb : List (List ℕ)) (m : Msg) : Type 0 where
  keys : DenoteAll cs m.p_h_list_key kb
  vals : DenoteAll cs m.p_h_list_val vb
  fresh : m.header_list ≡ none
  queue : (s : Nbq) × (m.q ≡ some s) × Holds cs s

abbrev Ends : List ℕ → Parser → List (List ℕ) → List (List ℕ) → Type 0
Ends cs p kb vb = (m : Msg) × (p.msg ≡ some m) × Holding cs kb vb m

feeds-Holding :
    (cs : List ℕ) (kb vb : List (List ℕ)) (rs : List Incoming) (p : Parser) (m : Msg)
    → length cs < 2 ^ 32
    → IncomingAll cs rs
    → p.msg ≡ some m
    → Holding cs kb vb m
    → Ends cs (feeds rs p) (kb ++ reported field_of rs) (vb ++ reported value_of rs)
unfolding feeds feed reported
feeds-Holding cs kb vb [] p m b g e h = (m, e, rw (append-nil kb, append-nil vb) h)
feeds-Holding cs kb vb (r ∷ rs) p m b (g, l, gs) e h =
    let m1 = record m { cur_buf = r.buf; cur_off = r.off } in
    let start : After cs kb vb r (record p { msg = some m1 }) = (
      m1,
      refl,
      record {
        keys = h.keys;
        vals = h.vals;
        fresh = h.fresh;
        queue = h.queue;
        buf = refl;
        off = refl;
      },
    ) in
    let (m2, e2, h2) = calls-After cs kb vb r r.made (record p { msg = some m1 }) b g l start in
    let ks = all_of field_of r.made in
    let vs = all_of value_of r.made in
    let end =
      feeds-Holding cs (kb ++ ks) (vb ++ vs) rs (feed r p) m2 b gs (rw e e2)
        (record { keys = h2.keys; vals = h2.vals; fresh = h2.fresh; queue = h2.queue }) in
    subst (λ k. Ends cs (feeds rs (feed r p)) k (vb ++ (vs ++ reported value_of rs)))
      (append_assoc kb ks (reported field_of rs))
      (subst (Ends cs (feeds rs (feed r p)) ((kb ++ ks) ++ reported field_of rs))
        (append_assoc vb vs (reported value_of rs)) end)

get_header_list-pairs :
    (cs : List ℕ) (kb vb : List (List ℕ)) (m : Msg) (s s' : Nbq)
    → m.header_list ≡ none
    → m.q ≡ some s
    → header_args m.p_h_list_key m.p_h_list_val s ≡ some (s', pairs kb vb)
    → get_header_list m
      ≡ some (record m { q = some s'; header_list = some (pairs kb vb) }, pairs kb vb)
unfolding get_header_list
get_header_list-pairs cs kb vb m s s' f q e = rw (f, q, e) refl

-- A response that has no headers yet and whose queue is sound and holds fewer than 2^32 bytes is given
-- reads, as ups_session.cc gives them, whose bytes stand in the queue at their offsets, and for each the calls of the parser about parts of its
-- bytes. Then `get_header_list` returns the pairs of the names and the values that the calls reported, in their
-- order, byte for byte.
pub get_header_list-reported :
    (cs : List ℕ) (rs : List Incoming) (p : Parser) (m : Msg) (s : Nbq)
    → length cs < 2 ^ 32
    → IncomingAll cs rs
    → p.msg ≡ some m
    → m.type ≡ type_resp
    → m.p_h_list_key ≡ []
    → m.p_h_list_val ≡ []
    → m.header_list ≡ none
    → m.q ≡ some s
    → Holds cs s
    → (m1 : Msg) × (m2 : Msg) × ((feeds rs p).msg ≡ some m1)
      × (get_header_list m1 ≡ some (m2, pairs (reported field_of rs) (reported value_of rs)))
get_header_list-reported cs rs p m s b g e t k v f q h =
    let (m1, e1, h1) = feeds-Holding cs [] [] rs p m b g e (record {
      keys = subst (λ x. DenoteAll cs x []) (sym k) tt;
      vals = subst (λ x. DenoteAll cs x []) (sym v) tt;
      fresh = f;
      queue = (s, q, h);
    }) in
    let (s1, q1, i1) = h1.queue in
    let (s2, e2, i2) =
      header_args-pairs cs m1.p_h_list_key m1.p_h_list_val _ _ s1 i1 h1.keys h1.vals in
    (m1, _, e1, get_header_list-pairs cs _ _ m1 s1 s2 h1.fresh q1 e2)
