-- ===== src/Args/Names.antt =====
-- The file names and the header line of src/support/string_util.cc.
use is.Prelude.{
  ℕ, ◌≡◌, refl, ap, ◌∙◌, List, [], ◌∷◌, ◌++◌, Option, none, some, false, if◌then◌else◌, ◌==◌, arith,
}

abbrev Parts : Type 0
Parts = List ℕ × List ℕ

-- `rfind` of a character, and `find`: what stands before it, and after it.
unfoldable pub rfind : ℕ → List ℕ → Option (List ℕ × List ℕ)
rfind c [] = none
rfind c (x ∷ xs) = elim (rfind c xs) as (λ o. Option Parts) [
  | some (a, b) ↦ some (x ∷ a, b)
  | none ↦ if x == c then some ([], xs) else none
]

unfoldable pub find_char : ℕ → List ℕ → Option (List ℕ × List ℕ)
find_char c [] = none
find_char c (x ∷ xs) =
    let onward = elim (find_char c xs) as (λ o. Option Parts) [
      | some (a, b) ↦ some (x ∷ a, b)
      | none ↦ none
    ] in
    if x == c then some ([], xs) else onward

-- Where the character is not found, or is the first one, the result is `other`; else one of the parts is.
abbrev pick : List ℕ → (List ℕ → List ℕ → List ℕ) → Option (List ℕ × List ℕ) → List ℕ
pick other split none = other
pick other split (some ([], b)) = other
pick other split (some (x ∷ a, b)) = split (x ∷ a) b

abbrev before : List ℕ → List ℕ → List ℕ
before a b = a

abbrev after : List ℕ → List ℕ → List ℕ
after a b = b

unfoldable pub get_file_wo_path : List ℕ → List ℕ
get_file_wo_path f = pick f after (rfind b'/' f)

unfoldable pub get_file_path : List ℕ → List ℕ
get_file_path f = pick f before (rfind b'/' f)

unfoldable pub get_base_filename : List ℕ → List ℕ
get_base_filename f = pick f before (rfind b'.' f)

unfoldable pub get_file_ext : List ℕ → List ℕ
get_file_ext f = pick [] after (rfind b'.' f)

unfoldable pub get_file_wo_ext : List ℕ → List ℕ
get_file_wo_ext f = pick [] before (rfind b'.' f)

unfoldable pub skip_spaces : List ℕ → List ℕ
skip_spaces [] = []
skip_spaces (c ∷ cs) = let rest = skip_spaces cs in if c == 32 then rest else c ∷ cs

-- The key and the value, or -1.
unfoldable pub break_header_string : List ℕ → Option (List ℕ × List ℕ)
break_header_string s = elim (find_char b':' s) as (λ o. Option Parts) [
  | none ↦ none
  | some (a, b) ↦ some (a, skip_spaces b)
]

abbrev pub Without : ℕ → List ℕ → Type 0
Without c [] = Unit {0}
Without c (x ∷ xs) = ((x == c) ≡ false) × Without c xs

rfind-Without : (c : ℕ) (b : List ℕ) → Without c b → rfind c b ≡ none
unfolding rfind
rfind-Without c [] h = refl
rfind-Without c (x ∷ xs) (h, hs) = rw (rfind-Without c xs hs, h) refl

rfind-append : (c : ℕ) (a b : List ℕ) → Without c b → rfind c (a ++ c ∷ b) ≡ some (a, b)
unfolding rfind
rfind-append c [] b h = rw (rfind-Without c b h) (ground arith)
rfind-append c (x ∷ a) b h = rw (rfind-append c a b h) refl

-- The functions on file names give the parts of a path that is not empty, a slash, and a name
-- without one, and those of a name that is not empty, a dot, and an extension without one.
pub file_names-parts :
    (x : ℕ) (a b e : List ℕ)
    → Without b'/' b
    → Without b'.' e
    → (get_file_path (x ∷ (a ++ b'/' ∷ b)) ≡ x ∷ a)
      × (get_file_wo_path (x ∷ (a ++ b'/' ∷ b)) ≡ b)
      × (get_base_filename (x ∷ (a ++ b'.' ∷ e)) ≡ x ∷ a)
      × (get_file_wo_ext (x ∷ (a ++ b'.' ∷ e)) ≡ x ∷ a)
      × (get_file_ext (x ∷ (a ++ b'.' ∷ e)) ≡ e)
unfolding get_file_path get_file_wo_path get_base_filename get_file_wo_ext get_file_ext
file_names-parts x a b e h k =
    let u = rfind-append b'/' (x ∷ a) b h in
    let v = rfind-append b'.' (x ∷ a) e k in
    (
      ap (pick (x ∷ (a ++ b'/' ∷ b)) before) u,
      ap (pick (x ∷ (a ++ b'/' ∷ b)) after) u,
      ap (pick (x ∷ (a ++ b'.' ∷ e)) before) v,
      ap (pick [] before) v,
      ap (pick [] after) v,
    )

find_char-append : (c : ℕ) (ks t : List ℕ) → Without c ks → find_char c (ks ++ c ∷ t) ≡ some (ks, t)
unfolding find_char
find_char-append c [] t w = ground arith
find_char-append c (x ∷ ks) t (w, ws) = rw (w, find_char-append c ks t ws) refl

-- A name without a colon, a colon, spaces and a value that does not begin with one: the header line is
-- taken apart into the name and the value.
break_header_string-parts :
    (key val : List ℕ) (c : ℕ) (spaces : List ℕ)
    → Without b':' key
    → skip_spaces (spaces ++ c ∷ val) ≡ c ∷ val
    → break_header_string (key ++ b':' ∷ (spaces ++ c ∷ val)) ≡ some (key, c ∷ val)
unfolding break_header_string
break_header_string-parts key val c spaces h k =
    ap (λ o. elim o as (λ o. Option Parts) [ none ↦ none | some (a, b) ↦ some (a, skip_spaces b) ])
      (find_char-append b':' key (spaces ++ c ∷ val) h)
    ∙ ap (λ v. some (key, v)) k
