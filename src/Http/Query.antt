-- ===== src/Http/Query.antt =====
-- The arguments that a request finds in its URL.
use is.Prelude.{
  ℕ, suc, ◌+◌, ◌%◌, ◌^◌, ◌≤◌, ◌<◌, ◌≡◌, refl, ap, ◌∙◌, List, [], ◌∷◌, map, true, false, Option,
  none, some, ◌>>=◌, length, take, drop, take_all, length-take, length-drop, arith,
}
use is.Nbq.State.{Nbq}
use is.Uri.Codec.{safe}
use is.Args.Parse.{Arg, parse_args}
use is.Args.Trip.{Given, AllGiven, IsSep, given_arg, print, parse_args-print_any}
use is.Http.State.{Msg}
use is.Http.Url.{
  uf_query, part, part_bytes, set_part, set_parts, parse_uri, ensure_uri, get_query_list,
}
use is.Http.Slices.{Denotes, Holds, copy_part-Denotes}
use is.Http.Fits.{copied, parsed, parse_uri-copied, set_parts-url_buf}

-- Fields after the query leave it.
set_parts-after :
    (n i : ℕ) (fs : List (ℕ × ℕ)) (m : Msg)
    → uf_query < i
    → (set_parts n i fs m).url_query ≡ m.url_query
unfolding set_parts set_part
set_parts-after n i [] m h = refl
set_parts-after n i ((off, len) ∷ fs) m h =
    set_parts-after n (suc i) fs (set_part n i off len m) (omega (arith, h)) ∙ ground (arith, h)

set_part-query :
    (n off len : ℕ) (m : Msg)
    → 0 < len
    → off + len ≤ n
    → (set_part n 4 off len m).url_query ≡ part off len
unfolding set_part
set_part-query n off len m z h = ground (arith, z, h)

ensure_uri-parsed :
    (parse_url : List ℕ → Option (List (ℕ × ℕ))) (m : Msg)
    → m.url_parsed ≡ true
    → ensure_uri parse_url m ≡ some m
unfolding ensure_uri parse_uri
ensure_uri-parsed parse_url m h = ground (arith, h)

bind-some {ℓ κ} :
    {A : Type ℓ} {B : Type κ} (o : Option A) (a : A) (f : A → Option B) (r : Option B)
    → o ≡ some a
    → f a ≡ r
    → (o >>= f) ≡ r
bind-some o a f r e h = ap (λ x. x >>= f) e ∙ h

get_query_list-made :
    (parse_url : List ℕ → Option (List (ℕ × ℕ))) (m m1 : Msg) (args : List Arg) (bad : ℕ)
    → m.query_list ≡ none
    → parse_uri parse_url m ≡ some (true, m1)
    → m1.url_parsed ≡ true
    → parse_args [] 0 (part_bytes m1.url_buf m1.url_query) b'&' ≡ some (args, bad)
    → get_query_list parse_url m ≡ some (record m1 { query_list = some args }, args)
unfolding get_query_list ensure_uri
get_query_list-made parse_url m m1 args bad q e p a =
    ap
      (λ o. elim o as (λ x. Option (Msg × List Arg)) [
        | some args ↦ some (m, args)
        | none ↦
            (ensure_uri parse_url m >>= (λ m1. ensure_uri parse_url m1 >>= (λ m2.
              parse_args [] 0 (part_bytes m2.url_buf m2.url_query) b'&'
              >>= (λ (args, bad). some (record m2 { query_list = some args }, args)))))
      ])
      q
    ∙ bind-some (ensure_uri parse_url m) m1 _ _ (rw e refl) (
        bind-some (ensure_uri parse_url m1) m1 _ _ (ensure_uri-parsed parse_url m1 p) (
          bind-some (parse_args [] 0 (part_bytes m1.url_buf m1.url_query) b'&') (args, bad) _ _ a
            refl))

ampersand-IsSep : IsSep b'&'
unfolding safe
ampersand-IsSep = record {
  not_safe = refl;
  not_percent = λ e. absurd (omega arith);
  not_equals = λ e. absurd (omega arith);
}

-- The URL of a request lies within its sound queue, and is not parsed; the URL parser of the library
-- finds a query that lies within it, where it is its fifth field. Where the query is what arguments print, with keys
-- that are not empty and values that are absent or not empty, `get_query_list` returns these arguments.
pub get_query_list-print :
    (parse_url : List ℕ → Option (List (ℕ × ℕ))) (m : Msg) (s : Nbq) (cs bs : List ℕ)
    (f0 f1 f2 f3 : ℕ × ℕ) (off len : ℕ) (fs : List (ℕ × ℕ)) (g : Given) (gs : List Given)
    → m.query_list ≡ none
    → m.url_parsed ≡ false
    → m.q ≡ some s
    → Holds cs s
    → Denotes cs m.p_url bs
    → parse_url bs ≡ some (f0 ∷ f1 ∷ f2 ∷ f3 ∷ (off, len) ∷ fs)
    → 0 < len
    → off + len ≤ length bs
    → AllGiven (g ∷ gs)
    → take len (drop off bs) ≡ print b'&' (g ∷ gs)
    → (m2 : Msg) × (get_query_list parse_url m ≡ some (m2, map given_arg (g ∷ gs)))
unfolding set_parts
get_query_list-print parse_url m s cs bs f0 f1 f2 f3 off len fs g gs ql p q h d y z l all e =
    let (s1, c, h1) = copy_part-Denotes cs m.p_url bs s h d in
    let n = m.p_url.len % 2 ^ 32 in
    let k : length bs ≡ m.p_url.len = omega (
      arith,
      ap length d.slice,
      d.within,
      length-take m.p_url.len (drop m.p_url.off cs),
      length-drop m.p_url.off cs,
    ) in
    let k1 : n ≡ length bs = omega (arith, d.short, k) in
    let before =
      set_part n 3 f3.0 f3.1 (
        set_part n 2 f2.0 f2.1
          (set_part n 1 f1.0 f1.1 (set_part n 0 f0.0 f0.1 (copied m s1 bs)))) in
    let all_fs = f0 ∷ f1 ∷ f2 ∷ f3 ∷ (off, len) ∷ fs in
    let m1 = parsed n all_fs (copied m s1 bs) in
    let made =
      parse_uri-copied parse_url m s s1 bs p q (ground (arith, k, l, z)) c
        (take_all n bs (omega (arith, k1))) in
    let qu : m1.url_query ≡ part off len =
      set_parts-after n 5 fs (set_part n 4 off len before) (omega arith)
      ∙ set_part-query n off len before z (omega (arith, l, k1)) in
    let a : part_bytes m1.url_buf m1.url_query ≡ print b'&' (g ∷ gs) =
      ap (λ u. part_bytes u m1.url_query) (set_parts-url_buf n 0 all_fs (copied m s1 bs))
      ∙ ap (part_bytes (some bs)) qu
      ∙ e in
    (
      _,
      get_query_list-made parse_url m m1 (map given_arg (g ∷ gs)) 0 ql (rw y at made) refl (
          ap (λ u. parse_args [] 0 u b'&') a
          ∙ parse_args-print_any b'&' 0 [] g gs ampersand-IsSep all),
    )
