-- ===== src/Ja3/Trip.antt =====
-- `extract_bytes` over the bytes of a client hello.
use is.Prelude.{
  ℕ, suc, ◌+◌, ◌*◌, ◌/◌, ◌%◌, ◌^◌, ◌<◌, ◌≡◌, refl, sym, ap, subst, ◌∙◌, List, [], ◌∷◌, ◌++◌,
  append_assoc, false, ltb, length, length-append, arith,
}
use is.Ja3.State.{Ja3, next, done, u8, u16, incr_by, status_ok}
use is.Ja3.Parse.{
  ciphers, tail, client_hello, skip_byte, handshake, headers, is_hello, extract_bytes,
}
use is.Ja3.Hello.{
  Ext, Hello, word, words, exts_bytes, body_bytes, hello_bytes, IsHello, seen, recorded,
}
use is.Ja3.Steps.{at, bind-next, incr_by-at, u16-word, add_ciphers, ciphers-at}
use is.Ja3.Exts.{extensions-at, half}

-- The rest of the hello, from a part of it on.
abbrev exts_part : Hello → List ℕ → List ℕ
exts_part h rest = word (length (exts_bytes h.exts)) ++ (exts_bytes h.exts ++ rest)

abbrev methods_part : Hello → List ℕ → List ℕ
methods_part h rest = length h.methods ∷ (h.methods ++ exts_part h rest)

abbrev suites_part : Hello → List ℕ → List ℕ
suites_part h rest = word (2 * length h.suites) ++ (words h.suites ++ methods_part h rest)

abbrev session_part : Hello → List ℕ → List ℕ
session_part h rest = length h.session ∷ (h.session ++ suites_part h rest)

abbrev hello_part : Hello → List ℕ → List ℕ
hello_part h rest = word h.version ++ (h.random ++ session_part h rest)

nest : (xs ys zs us : List ℕ) → ys ++ zs ≡ us → (xs ++ ys) ++ zs ≡ xs ++ us
nest xs ys zs us e = append_assoc xs ys zs ∙ ap (λ u. xs ++ u) e

-- The parts are the bytes of the hello.
hello_part-body_bytes : (h : Hello) (rest : List ℕ) → body_bytes h ++ rest ≡ hello_part h rest
hello_part-body_bytes h rest =
    ap (λ u. word h.version ++ u)
      (nest h.random _ rest _ (
        ap (λ u. length h.session ∷ u)
          (nest h.session _ rest _ (
            ap (λ u. word (2 * length h.suites) ++ u)
              (nest (words h.suites) _ rest _
                (ap (λ u. length h.methods ∷ u) (nest h.methods _ rest _ refl)))))))

exts_some : (xs : List Ext) → 0 < length xs → 0 < length (exts_bytes xs)
unfolding exts_bytes
exts_some [] h = omega (arith, h)
exts_some (x ∷ xs) h = omega arith

tail-at :
    (h : Hello) (rest : List ℕ) (fuel : ℕ) (p : Ja3)
    → IsHello h
    → length (exts_bytes h.exts) < fuel
    → tail fuel (at (methods_part h rest) p) ≡ done status_ok (seen h.exts p)
unfolding tail u8
tail-at h rest fuel p w l =
    let n = length (exts_bytes h.exts) in
    let es = exts_bytes h.exts ++ rest in
    bind-next (incr_by 1 (at (methods_part h rest) p)) (at (h.methods ++ exts_part h rest) p) _ _
      (incr_by-at (length h.methods ∷ []) (h.methods ++ exts_part h rest) p
        (omega (arith, length-append h.methods (exts_part h rest))))
      (bind-next (incr_by (length h.methods) (at (h.methods ++ exts_part h rest) p))
        (at (exts_part h rest) p) _ _ (incr_by-at h.methods (exts_part h rest) p (omega arith))
        (bind-next (u16 (exts_part h rest)) n _ _ (u16-word n es) (
          bind-next (incr_by 2 (at (exts_part h rest) p)) (at es p) _ _
            (incr_by-at (word n) es p
              (omega (arith, length-append (exts_bytes h.exts) rest, exts_some h.exts w.some_ext)))
            (extensions-at h.exts rest fuel n p w.exts refl w.exts_fit l))))

client_hello-at :
    (h : Hello) (rest : List ℕ) (fuel : ℕ) (p : Ja3)
    → IsHello h
    → length (exts_bytes h.exts) < fuel
    → client_hello fuel (at (hello_part h rest) p) ≡ done status_ok (recorded h p)
unfolding client_hello u8
client_hello-at h rest fuel p w l =
    let k = 2 * length h.suites in
    let q = record p { fp_ssl_version = h.version } in
    let m = methods_part h rest in
    let s = suites_part h rest in
    let s' = words h.suites ++ m in
    let i = session_part h rest in
    let y : ltb (length (hello_part h rest)) 2 ≡ false = ground arith in
    rw y (
      bind-next (u16 (hello_part h rest)) h.version _ _ (u16-word h.version (h.random ++ i)) (
        bind-next (incr_by 2 (at (hello_part h rest) p)) (at (h.random ++ i) p) _ _
          (incr_by-at (word h.version) (h.random ++ i) p (omega (arith, length-append h.random i)))
          (bind-next (incr_by 32 (at (h.random ++ i) q)) (at i q) _ _
            (subst (λ x. incr_by x (at (h.random ++ i) q) ≡ next (at i q)) w.random
              (incr_by-at h.random i q (omega arith)))
            (bind-next (incr_by 1 (at i q)) (at (h.session ++ s) q) _ _
              (incr_by-at (length h.session ∷ []) (h.session ++ s) q
                (omega (arith, length-append h.session s)))
              (bind-next (incr_by (length h.session) (at (h.session ++ s) q)) (at s q) _ _
                (incr_by-at h.session s q (omega arith))
                (bind-next (u16 s) k _ _ (u16-word k s') (
                  bind-next (incr_by 2 (at s q)) (at s' q) _ _
                    (incr_by-at (word k) s' q (omega (arith, length-append (words h.suites) m)))
                    (bind-next (ciphers (k / 2) (at s' q)) (at m (add_ciphers h.suites q)) _ _
                      (ap (λ j. ciphers j (at s' q)) (half (length h.suites))
                        ∙ ciphers-at h.suites m q (omega arith))
                      (tail-at h rest fuel (add_ciphers h.suites q) w l)))))))))

skip_byte-at :
    (b : ℕ) (t : List ℕ) (p : Ja3) → 0 < length t → skip_byte (at (b ∷ t) p) ≡ next (at t p)
unfolding skip_byte u8
skip_byte-at b t p h = incr_by-at (b ∷ []) t p h

handshake-at :
    (h : Hello) (rest : List ℕ) (b c d fuel : ℕ) (p : Ja3)
    → IsHello h
    → length (exts_bytes h.exts) < fuel
    → handshake fuel (at (1 ∷ b ∷ c ∷ d ∷ hello_part h rest) p) ≡ done status_ok (recorded h p)
unfolding handshake u8
handshake-at h rest b c d fuel p w l =
    let t = hello_part h rest in
    bind-next (incr_by 1 (at (1 ∷ b ∷ c ∷ d ∷ t) p)) (at (b ∷ c ∷ d ∷ t) p) _ _
      (incr_by-at (1 ∷ []) (b ∷ c ∷ d ∷ t) p (omega arith))
      (bind-next (skip_byte (at (b ∷ c ∷ d ∷ t) p)) (at (c ∷ d ∷ t) p) _ _
        (skip_byte-at b (c ∷ d ∷ t) p (omega arith))
        (bind-next (skip_byte (at (c ∷ d ∷ t) p)) (at (d ∷ t) p) _ _
          (skip_byte-at c (d ∷ t) p (omega arith))
          (bind-next (skip_byte (at (d ∷ t) p)) (at t p) _ _ (skip_byte-at d t p (omega arith))
            (client_hello-at h rest fuel p w l))))

exts_within :
    (h : Hello) (rest : List ℕ) → length (exts_bytes h.exts) < 9 + length (body_bytes h ++ rest)
exts_within h rest =
    let u = exts_part h rest in
    omega (
      arith,
      ap length (hello_part-body_bytes h rest),
      length-append h.random (session_part h rest),
      length-append h.session (suites_part h rest),
      length-append (words h.suites) (methods_part h rest),
      length-append h.methods u,
      length-append (exts_bytes h.exts) rest,
    )

headers-at :
    (h : Hello) (rest : List ℕ) (a b c d fuel : ℕ) (p : Ja3)
    → IsHello h
    → length (exts_bytes h.exts) < fuel
    → headers fuel (at (0x16 ∷ 3 ∷ 1 ∷ a ∷ b ∷ 1 ∷ 0 ∷ c ∷ d ∷ hello_part h rest) p)
      ≡ done status_ok (recorded h p)
unfolding headers
headers-at h rest a b c d fuel p w l =
    let t = 1 ∷ 0 ∷ c ∷ d ∷ hello_part h rest in
    let t' = 0x16 ∷ 3 ∷ 1 ∷ a ∷ b ∷ t in
    let y : ltb (length t') 5 ≡ false = ground arith in
    let z : ltb (length t) 4 ≡ false = ground arith in
    rw y (
      bind-next (incr_by 5 (at t' p)) (at t p) _ _
        (incr_by-at (0x16 ∷ 3 ∷ 1 ∷ a ∷ b ∷ []) t p (omega arith))
        (rw z (handshake-at h rest 0 c d fuel p w l)))

-- Where the fields of a client hello fit their lengths, and it has an extension and no padding extension
-- (type 21), `extract_bytes` given its bytes and what follows them, fewer than 2^16 bytes together, succeeds, and
-- adds its version, its cipher suites, the types of its extensions, its named groups and its point formats to what
-- the object held.
pub extract_bytes-hello :
    (h : Hello) (rest : List ℕ) (p : Ja3)
    → IsHello h
    → length (hello_bytes h ++ rest) < 2 ^ 16
    → let mem = hello_bytes h ++ rest in
      extract_bytes mem (length mem) p ≡ done status_ok (recorded h p)
unfolding extract_bytes is_hello u8
extract_bytes-hello h rest p w fits =
    let n = length (body_bytes h) in
    let t = body_bytes h ++ rest in
    let t' = 0x16 ∷ 3 ∷ 1 ∷ (n + 4) / 256 ∷ (n + 4) % 256 ∷ 1 ∷ 0 ∷ n / 256 ∷ n % 256 ∷ t in
    let same : length t' % 2 ^ 16 ≡ length t' = omega (arith, fits) in
    let y : ltb (length t') 5 ≡ false = ground arith in
    rw (same, y)
      (subst
        (λ u.
          headers (suc (length t'))
            (at (0x16 ∷ 3 ∷ 1 ∷ (n + 4) / 256 ∷ (n + 4) % 256 ∷ 1 ∷ 0 ∷ n / 256 ∷ n % 256 ∷ u) p)
          ≡ done status_ok (recorded h p))
        (sym (hello_part-body_bytes h rest))
        (headers-at h rest _ _ _ _ (suc (length t')) p w (omega (arith, exts_within h rest))))
