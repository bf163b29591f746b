-- ===== src/Args/Tests.antt =====
-- The decoder and the parser on concrete buffers.
use is.Prelude.{ℕ, List, [], ◌∷◌, ◌++◌, ◌≡◌, refl, map, some, none, codes, arith}
use is.Uri.Codec.{safe, encode_loop}
use is.Args.Decode.{urldecode_ns}
use is.Args.Parse.{Arg, arg, parse_args, span, decoded}
use is.Args.Rounds.{parse_args-ends}
use is.Args.Names.{
  get_file_path, get_file_wo_path, get_base_filename, get_file_wo_ext, get_file_ext,
  file_names-parts,
}
use is.Args.Cookies.{
  in_valdel_set, in_del_set, skip, trim, cookie_round, cookie_loop, value_start, next_cookie,
  parse_cookies,
}
use is.Args.Pairs.{Cookie, cookie_arg, print_more, print_cookies, AllCookies, parse_cookies-print}
use is.Args.Trip.{Given, given_arg, print, print_all, IsSep, AllGiven, parse_args-print}

abbrev text : List ℕ
text = codes "a%20b%zz+%"

urldecode_text : urldecode_ns text ≡ some (codes "a b%zz %", 2)
unfolding urldecode_ns
urldecode_text = refl

abbrev query : List ℕ
query = codes "&a=b&c&d=&=x%21&e"

parse_query :
    parse_args [] 5 query b'&'
    ≡ some (
      arg (some (codes "a")) (some (codes "b"))
          ∷ arg (some (codes "c")) none
          ∷ arg (some (codes "d")) none
          ∷ arg none (some (codes "x!"))
          ∷ arg (some (codes "e")) none
          ∷ [],
      0,
    )
unfolding parse_args span decoded
parse_query = refl

parse_args-ends_example : (r : List Arg × ℕ) × (parse_args [] 5 query b'&' ≡ some r)
parse_args-ends_example = parse_args-ends [] 5 query b'&' (omega arith)

abbrev spaced : Given
spaced = record { first = b'a'; more = 32 ∷ []; value = some (200, []) }

abbrev bare : Given
bare = record { first = b'k'; more = []; value = none }

ampersand-IsSep : IsSep b'&'
unfolding safe
ampersand-IsSep = record {
  not_safe = refl;
  not_percent = λ e. absurd (omega arith);
  not_equals = λ e. absurd (omega arith);
}

both-AllGiven : AllGiven (spaced ∷ bare ∷ [])
both-AllGiven =
    (((omega arith, (omega arith, tt)), (omega arith, tt)), (((omega arith, tt), tt), tt))

parse_args-print_example :
    parse_args [] 0 (print b'&' (spaced ∷ bare ∷ [])) b'&'
    ≡ some ([] ++ map given_arg (spaced ∷ bare ∷ []), 0)
parse_args-print_example =
    parse_args-print b'&' 0 [] spaced (bare ∷ []) ampersand-IsSep both-AllGiven
      (unfold print print_all encode_loop in omega arith)

file_names-parts_example :
    (get_file_path (b'd' ∷ (codes "ir" ++ b'/' ∷ codes "name")) ≡ codes "dir")
    × (get_file_wo_path (b'd' ∷ (codes "ir" ++ b'/' ∷ codes "name")) ≡ codes "name")
    × (get_base_filename (b'd' ∷ (codes "ir" ++ b'.' ∷ codes "ext")) ≡ codes "dir")
    × (get_file_wo_ext (b'd' ∷ (codes "ir" ++ b'.' ∷ codes "ext")) ≡ codes "dir")
    × (get_file_ext (b'd' ∷ (codes "ir" ++ b'.' ∷ codes "ext")) ≡ codes "ext")
file_names-parts_example =
    file_names-parts b'd' (codes "ir") (codes "name") (codes "ext")
      (refl, (refl, (refl, (refl, tt)))) (refl, (refl, (refl, tt)))

-- "sid=a=b c; flag; n=1"
abbrev sid : Cookie
sid = record { first = b's'; more = codes "id"; value = some (b'a', codes "=b c") }

abbrev flag : Cookie
flag = record { first = b'f'; more = codes "lag"; value = none }

abbrev one_n : Cookie
one_n = record { first = b'n'; more = []; value = some (b'1', []) }

cookies-AllCookies : AllCookies (sid ∷ flag ∷ one_n ∷ [])
unfolding in_del_set in_valdel_set trim
cookies-AllCookies = (
  record {
    first = refl;
    more = (refl, (refl, tt));
    value = (refl, (refl, (refl, (refl, (refl, tt)))), refl);
  },
  (
    record { first = refl; more = (refl, (refl, (refl, tt))); value = tt },
    (record { first = refl; more = tt; value = (refl, tt, refl) }, tt),
  ),
)

parse_cookies-print_example :
    parse_cookies [] (print_cookies sid (flag ∷ one_n ∷ []))
    ≡ some (map cookie_arg (sid ∷ flag ∷ one_n ∷ []))
parse_cookies-print_example =
    parse_cookies-print sid (flag ∷ one_n ∷ []) [] cookies-AllCookies
      (unfold print_more in omega arith)

-- The '=' of a cookie with an empty value is taken for a part of its name, and at the end of the text such
-- a cookie is lost.
cookies_empty :
    parse_cookies [] (codes "a=; b=1; c=")
    ≡ some (arg (some (codes "a=")) none ∷ arg (some (codes "b")) (some (codes "1")) ∷ [])
unfolding parse_cookies cookie_loop cookie_round value_start next_cookie skip in_del_set
    in_valdel_set trim
cookies_empty = refl
