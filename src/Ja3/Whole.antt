-- ===== src/Ja3/Whole.antt =====
-- From the bytes of a client hello to its string.
use is.Prelude.{
  ℕ, ◌^◌, ◌<◌, ◌≡◌, refl, sym, ap, ◌∙◌, List, [], ◌∷◌, ◌++◌, map, append_assoc, append-nil, false,
  ◌==◌, length, arith,
}
use is.Ja3.State.{Ja3, done, status_ok, new_ja3}
use is.Ja3.Parse.{extract_bytes}
use is.Ja3.Hello.{Ext, other, groups, points, Hello, ext_type, hello_bytes, IsHello, seen_one, seen}
use is.Ja3.Trip.{extract_bytes-hello}
use is.Ja3.Print.{to_string, print_list, fingerprint, get_str}
use is.Ja3.Spelling.{joined, ends_greased, print_list-joined}

unfoldable pub all_groups : List Ext → List ℕ
all_groups [] = []
all_groups (other t b ∷ xs) = all_groups xs
all_groups (groups gs ∷ xs) = gs ++ all_groups xs
all_groups (points fs ∷ xs) = all_groups xs

unfoldable pub all_points : List Ext → List ℕ
all_points [] = []
all_points (other t b ∷ xs) = all_points xs
all_points (groups gs ∷ xs) = all_points xs
all_points (points fs ∷ xs) = fs ++ all_points xs

abbrev add : List ℕ → List ℕ → List ℕ → Ja3 → Ja3
add ts gs fs p = record p {
  fp_ssl_ext_list = p.fp_ssl_ext_list ++ ts;
  fp_ec_curve_list = p.fp_ec_curve_list ++ gs;
  fp_ec_pt_format_list = p.fp_ec_pt_format_list ++ fs;
}

-- The lists that are empty, or in parts.
add-cong :
    (p : Ja3) (a a' b b' c c' : List ℕ)
    → a ≡ a'
    → b ≡ b'
    → c ≡ c'
    → record p { fp_ssl_ext_list = a; fp_ec_curve_list = b; fp_ec_pt_format_list = c }
      ≡ record p { fp_ssl_ext_list = a'; fp_ec_curve_list = b'; fp_ec_pt_format_list = c' }
add-cong p a a' b b' c c' x y z = rw (x, y, z) refl

seen-add :
    (xs : List Ext) (p : Ja3) → seen xs p ≡ add (map ext_type xs) (all_groups xs) (all_points xs) p
unfolding seen seen_one all_groups all_points
seen-add [] p =
    add-cong p _ _ _ _ _ _ (sym (append-nil p.fp_ssl_ext_list))
      (sym (append-nil p.fp_ec_curve_list)) (sym (append-nil p.fp_ec_pt_format_list))
seen-add (other t b ∷ xs) p =
    seen-add xs (seen_one (other t b) p)
    ∙ add-cong p _ _ _ _ _ _ (append_assoc p.fp_ssl_ext_list (t ∷ []) (map ext_type xs)) refl refl
seen-add (groups gs ∷ xs) p =
    seen-add xs (seen_one (groups gs) p)
    ∙ add-cong p _ _ _ _ _ _ (append_assoc p.fp_ssl_ext_list (0x000a ∷ []) (map ext_type xs))
        (append_assoc p.fp_ec_curve_list gs (all_groups xs)) refl
seen-add (points fs ∷ xs) p =
    seen-add xs (seen_one (points fs) p)
    ∙ add-cong p _ _ _ _ _ _ (append_assoc p.fp_ssl_ext_list (0x000b ∷ []) (map ext_type xs)) refl
        (append_assoc p.fp_ec_pt_format_list fs (all_points xs))

-- The fingerprint as it is specified: the five fields joined by commas.
abbrev pub specified : Hello → List ℕ
specified h =
    to_string h.version
    ++ 44
      ∷ (joined h.suites
          ++ 44
            ∷ (joined (map ext_type h.exts)
                ++ 44 ∷ (joined (all_groups h.exts) ++ 44 ∷ joined (all_points h.exts))))

-- No list ends with a reserved value.
pub record EndsPlain (h : Hello) : Type 0 where
  pub suites : ends_greased h.suites ≡ false
  pub types : ends_greased (map ext_type h.exts) ≡ false
  pub groups_end : ends_greased (all_groups h.exts) ≡ false
  pub points_end : ends_greased (all_points h.exts) ≡ false

print_list-plain : (vs : List ℕ) → ends_greased vs ≡ false → print_list vs ≡ joined vs
print_list-plain vs h = print_list-joined vs ∙ rw h (append-nil (joined vs))

fingerprint-cong :
    (p : Ja3) (a b c d : List ℕ)
    → print_list p.fp_cipher_list ≡ a
    → print_list p.fp_ssl_ext_list ≡ b
    → print_list p.fp_ec_curve_list ≡ c
    → print_list p.fp_ec_pt_format_list ≡ d
    → fingerprint p ≡ to_string p.fp_ssl_version ++ 44 ∷ (a ++ 44 ∷ (b ++ 44 ∷ (c ++ 44 ∷ d)))
fingerprint-cong p a b c d x y z u = rw (x, y, z, u) refl

get_str-empty :
    (p : Ja3) → p.str ≡ [] → (p.fp_ssl_version == 0) ≡ false → (get_str p).str ≡ fingerprint p
unfolding get_str
get_str-empty p x y = ground (arith, x, y)

-- A new object that is given the bytes of a client hello and what follows them, fewer than 2^16 bytes
-- together, where the fields of the hello fit their lengths, and it has a version that is not 0, an extension, no
-- padding extension (type 21) and no list with a reserved value at its end, returns as its string the fingerprint
-- that is specified for the hello.
pub get_str-extract_bytes :
    (h : Hello) (rest : List ℕ)
    → IsHello h
    → length (hello_bytes h ++ rest) < 2 ^ 16
    → EndsPlain h
    → (h.version == 0) ≡ false
    → let mem = hello_bytes h ++ rest in
      (q : Ja3) × (extract_bytes mem (length mem) new_ja3 ≡ done status_ok q)
      × ((get_str q).str ≡ specified h)
get_str-extract_bytes h rest w fits e v =
    let q =
      add (map ext_type h.exts) (all_groups h.exts) (all_points h.exts)
        (record new_ja3 { fp_ssl_version = h.version; fp_cipher_list = h.suites }) in
    (
      q,
      (extract_bytes-hello h rest new_ja3 w fits ∙ ap (λ x. done status_ok x) (seen-add h.exts _)),
      (get_str-empty q refl v
          ∙ fingerprint-cong q _ _ _ _ (print_list-plain h.suites e.suites)
              (print_list-plain (map ext_type h.exts) e.types)
              (print_list-plain (all_groups h.exts) e.groups_end)
              (print_list-plain (all_points h.exts) e.points_end)),
    )
