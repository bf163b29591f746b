-- ===== src/Http/Fits.antt =====
-- What `parse_uri` takes from the parser lies within the copy of the URL.
use is.Prelude.{
  ℕ, suc, ◌+◌, ◌%◌, ◌^◌, ◌≤◌, ◌<◌, ◌≡◌, refl, ap, subst, ◌∙◌, List, [], ◌∷◌, Bool, true, false,
  if◌then◌else◌, Option, none, some, Bool-cases, inl, inr, ◌==◌, ◌&&◌, not, leb, length, take, drop,
  take_all, length-take, length-drop, Option-cases, arith,
}
use is.Nbq.State.{Nbq}
use is.Http.State.{UrlPart, Msg}
use is.Http.Parts.{copy_part}
use is.Http.Url.{uf_host, uf_path, uf_query, uf_fragment, part, set_part, set_parts, parse_uri}
use is.Http.Slices.{Denotes, Holds, copy_part-Denotes}

-- A part is NULL, or lies within a number of bytes.
abbrev pub Within : ℕ → Option ℕ → ℕ → Type 0
Within n none len = Unit {0}
Within n (some off) len = off + len ≤ n

abbrev pub PartIn : ℕ → UrlPart → Type 0
PartIn n p = Within n p.start p.len

pub record PartsIn (n : ℕ) (m : Msg) : Type 0 where
  pub host : PartIn n m.url_host
  pub path : PartIn n m.url_path
  pub query : PartIn n m.url_query
  pub fragment : PartIn n m.url_fragment

PartsIn-if :
    (b : Bool) (n : ℕ) (m m1 : Msg) → PartsIn n m → PartsIn n m1 → PartsIn n (if b then m1 else m)
PartsIn-if true n m m1 h k = k
PartsIn-if false n m m1 h k = h

set_part-PartsIn : (n i off len : ℕ) (m : Msg) → PartsIn n m → PartsIn n (set_part n i off len m)
unfolding set_part
set_part-PartsIn n i off len m h = elim (Bool-cases (not (len == 0) && leb (len + off) n)) [
  | inr y ↦ rw y h
  | inl y ↦
      let l : off + len ≤ n = ground (arith, y) in
      rw y (elim (Bool-cases (i == uf_path)) [
        | inl z ↦ rw z (record { host = h.host; path = l; query = h.query; fragment = h.fragment })
        | inr z ↦ rw z (elim (Bool-cases (i == uf_query)) [
          | inl u ↦ rw u (record { host = h.host; path = h.path; query = l; fragment = h.fragment })
          | inr u ↦ rw u (elim (Bool-cases (i == uf_fragment)) [
            | inl v ↦ rw v (record { host = h.host; path = h.path; query = h.query; fragment = l })
            | inr v ↦ rw v (elim (Bool-cases (i == uf_host)) [
              | inl w ↦
                  rw w (record { host = l; path = h.path; query = h.query; fragment = h.fragment })
              | inr w ↦ rw w h
            ])
          ])
        ])
      ])
]

set_parts-PartsIn :
    (n i : ℕ) (fs : List (ℕ × ℕ)) (m : Msg) → PartsIn n m → PartsIn n (set_parts n i fs m)
unfolding set_parts
set_parts-PartsIn n i [] m h = h
set_parts-PartsIn n i ((off, len) ∷ fs) m h =
    set_parts-PartsIn n (suc i) fs (set_part n i off len m) (set_part-PartsIn n i off len m h)

-- The message before the parts are set.
abbrev pub copied : Msg → Nbq → List ℕ → Msg
copied m s bs = record m { q = some s; url_buf = some bs }

abbrev pub parsed : ℕ → List (ℕ × ℕ) → Msg → Msg
parsed n fs m = record (set_parts n 0 fs m) { url = part 0 n; url_parsed = true }

pub parse_uri-copied :
    (parse_url : List ℕ → Option (List (ℕ × ℕ))) (m : Msg) (s s' : Nbq) (bs : List ℕ)
    → m.url_parsed ≡ false
    → m.q ≡ some s
    → (m.p_url.len == 0) ≡ false
    → copy_part m.p_url.off m.p_url.len s ≡ some (s', bs)
    → take (m.p_url.len % 2 ^ 32) bs ≡ bs
    → parse_uri parse_url m ≡ elim (parse_url bs) as (λ x. Option (Bool × Msg)) [
      | none ↦ some (false, record (copied m s' bs) { url_buf = none })
      | some fs ↦ some (true, parsed (m.p_url.len % 2 ^ 32) fs (copied m s' bs))
    ]
unfolding parse_uri
parse_uri-copied parse_url m s s' bs p q z c t = rw (p, q, z, c, t) refl

-- What `parse_uri` leaves: the URL and its parts lie within the copy, or there is none.
pub record Parsed (bs : List ℕ) (ok : Bool) (m : Msg) : Type 0 where
  pub parts : PartsIn (length bs) m
  pub buf : m.url_buf ≡ (if ok then some bs else none)
  pub parsed_flag : m.url_parsed ≡ ok
  pub url : ok ≡ true → m.url ≡ part 0 (length bs)

pub set_parts-url_buf :
    (n i : ℕ) (fs : List (ℕ × ℕ)) (m : Msg) → (set_parts n i fs m).url_buf ≡ m.url_buf
unfolding set_parts set_part
set_parts-url_buf n i [] m = refl
set_parts-url_buf n i ((off, len) ∷ fs) m =
    set_parts-url_buf n (suc i) fs (set_part n i off len m) ∙ ground arith

Within-wide : (n : ℕ) (o : Option ℕ) (len : ℕ) → Within 0 o len → Within n o len
Within-wide n none len h = tt
Within-wide n (some off) len h = omega (arith, h)

PartsIn-wide : (n : ℕ) (m : Msg) → PartsIn 0 m → PartsIn n m
PartsIn-wide n m h = record {
  host = Within-wide n m.url_host.start m.url_host.len h.host;
  path = Within-wide n m.url_path.start m.url_path.len h.path;
  query = Within-wide n m.url_query.start m.url_query.len h.query;
  fragment = Within-wide n m.url_fragment.start m.url_fragment.len h.fragment;
}

parsed-Parsed :
    (n : ℕ) (fs : List (ℕ × ℕ)) (m : Msg) (s : Nbq) (bs : List ℕ)
    → n ≡ length bs
    → PartsIn 0 m
    → Parsed bs true (parsed n fs (copied m s bs))
parsed-Parsed n fs m s bs l k =
    let w = PartsIn-wide n m k in
    let v =
      set_parts-PartsIn n 0 fs (copied m s bs)
        (record { host = w.host; path = w.path; query = w.query; fragment = w.fragment }) in
    record {
      parts =
          subst (λ x. PartsIn x (parsed n fs (copied m s bs))) l
            (record { host = v.host; path = v.path; query = v.query; fragment = v.fragment });
      buf = set_parts-url_buf n 0 fs (copied m s bs);
      parsed_flag = refl;
      url = λ y. ap (part 0) l;
    }

failed-Parsed :
    (m : Msg) (s : Nbq) (bs : List ℕ)
    → m.url_parsed ≡ false
    → PartsIn 0 m
    → Parsed bs false (record (copied m s bs) { url_buf = none })
failed-Parsed m s bs p k =
    let w = PartsIn-wide (length bs) m k in
    record {
      parts = record { host = w.host; path = w.path; query = w.query; fragment = w.fragment };
      buf = refl;
      parsed_flag = p;
      url = λ y. absurd (ground (arith, y));
    }

-- A message whose URL is not parsed, with a part of a sound queue for it that is not empty, and no
-- part of an earlier URL. Whatever the URL parser answers, `parse_uri` returns; where it succeeds the copy
-- holds the bytes of the URL, and the URL, host, path, query and fragment lie within it; where it fails there is no copy.
pub parse_uri-Parsed :
    (parse_url : List ℕ → Option (List (ℕ × ℕ))) (m : Msg) (s : Nbq) (cs bs : List ℕ)
    → m.url_parsed ≡ false
    → m.q ≡ some s
    → Holds cs s
    → Denotes cs m.p_url bs
    → 0 < m.p_url.len
    → PartsIn 0 m
    → (ok : Bool) × (m' : Msg) × (parse_uri parse_url m ≡ some (ok, m')) × Parsed bs ok m'
parse_uri-Parsed parse_url m s cs bs p q h d z k =
    let (s', c, h') = copy_part-Denotes cs m.p_url bs s h d in
    let n = m.p_url.len % 2 ^ 32 in
    let l : n ≡ length bs = omega (
      arith,
      ap length d.slice,
      d.short,
      d.within,
      length-take m.p_url.len (drop m.p_url.off cs),
      length-drop m.p_url.off cs,
    ) in
    let e =
      parse_uri-copied parse_url m s s' bs p q (ground (arith, z)) c
        (take_all n bs (omega (arith, l))) in
    elim (Option-cases (parse_url bs)) [
      | inl y ↦
          (false, record (copied m s' bs) { url_buf = none }, rw y at e, failed-Parsed m s' bs p k)
      | inr (fs, y) ↦
          (true, parsed n fs (copied m s' bs), rw y at e, parsed-Parsed n fs m s' bs l k)
    ]
