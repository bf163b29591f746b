-- ===== src/Http/Group.antt =====
-- The maps from keys to values of `get_header_map` (src/srvr/hmsg.cc) and `get_query_map` (src/srvr/rqst.cc), and
-- `find_first` of include/is2/support/data.h.
use is.Prelude.{ℕ, List, [], ◌∷◌, ◌++◌, Bool, if◌then◌else◌, Option, none, some, ◌>>=◌}
use is.Args.Parse.{Arg}
use is.Http.State.{DataMap, Msg}
use is.Http.Calls.{strncasecmp_eq}
use is.Http.Parts.{get_header_list}

abbrev pub text_of : Option (List ℕ) → List ℕ
text_of none = []
text_of (some cs) = cs

-- Neither key is less by `mutable_data_case_i_comp`, which compares as far as the shorter one goes.
abbrev pub same_key : Option (List ℕ) → Option (List ℕ) → Bool
same_key a b = strncasecmp_eq (text_of a) (text_of b)

-- `find`, and a value put behind those of the key, or a new entry.
unfoldable pub add_arg : DataMap → Arg → DataMap
add_arg [] a = (a.key, a.val ∷ []) ∷ []
add_arg ((k, vs) ∷ m) a =
    let onward = add_arg m a in
    if same_key k a.key then (k, vs ++ a.val ∷ []) ∷ m else (k, vs) ∷ onward

unfoldable pub group : DataMap → List Arg → DataMap
group m [] = m
group m (a ∷ as') = group (add_arg m a) as'

unfoldable pub find : Option (List ℕ) → DataMap → Option (List (Option (List ℕ)))
find k [] = none
find k ((k', vs) ∷ m) = let onward = find k m in if same_key k' k then some vs else onward

-- `find_first`; the list of an entry has a value.
unfoldable pub find_first : Option (List ℕ) → DataMap → Option (Option (List ℕ))
find_first k m = elim (find k m) as (λ x. Option (Option (List ℕ))) [
  | none ↦ none
  | some [] ↦ none
  | some (v ∷ vs) ↦ some v
]

unfoldable pub get_header_map : Msg → Option (Msg × DataMap)
get_header_map m = elim m.header_map as (λ x. Option (Msg × DataMap)) [
  | some d ↦ some (m, d)
  | none ↦ do
    (m', args) ← get_header_list m
    let d = group [] args
    some (record m' { header_map = some d }, d)
]
