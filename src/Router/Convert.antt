-- ===== src/Router/Convert.antt =====
-- `convert_path_to_pattern`: a route's text becomes a pattern.
use is.Prelude.{
  ℕ, List, [], ◌∷◌, ◌++◌, Option, none, some, Bool, true, false, not, ◌&&◌, if◌then◌else◌, ltb,
  ◌==◌, length, codes, ◌≡◌, refl,
}
use is.Router.Pattern.{PartType, string, parameter, terminal, Part, Pattern, type_eq, byte}

-- "/" in front, if it is not there, and none at the end of a longer path.
unfoldable pub lead_slash : List ℕ → List ℕ
lead_slash path = if byte path == b'/' then path else b'/' ∷ path

unfoldable pub drop_slash : List ℕ → List ℕ
drop_slash [] = []
drop_slash (c ∷ []) = if c == b'/' then [] else c ∷ []
drop_slash (c ∷ (d ∷ cs)) = c ∷ drop_slash (d ∷ cs)

unfoldable pub normal_path : List ℕ → List ℕ
unfolding lead_slash drop_slash
normal_path route =
    if ltb 1 (length (lead_slash route)) then drop_slash (lead_slash route) else lead_slash route

abbrev pub part : PartType → List ℕ → Part
part t s = record { type = t; str = s }

abbrev pub is_nil : List ℕ → Bool
is_nil [] = true
is_nil (c ∷ cs) = false

-- The loop over the path, with the byte before, the part so far and the pattern so far; `none` is
-- the result -1.
unfoldable pub convert_loop : ℕ → List ℕ → PartType → List ℕ → Pattern → Option Pattern
convert_loop prev [] type str out =
    if type_eq type parameter
    then none
    else some (if is_nil str then out else out ++ part type str ∷ [])
convert_loop prev (c ∷ cs) type str out =
    let open_parameter = convert_loop c cs parameter [] (out ++ part type str ∷ []) in
    let close_parameter = convert_loop c cs string [] (out ++ part type str ∷ []) in
    let plain = convert_loop c cs type (str ++ c ∷ []) out in
    if c == b'<'
    then (if type_eq type parameter
        then none
        else if not (prev == b'/')
        then none
        else open_parameter)
    else if c == b'>'
    then (if not (type_eq type parameter)
        then none
        else if not (is_nil cs) && not (byte cs == b'/')
        then none
        else close_parameter)
    else if c == b'*'
    then some (out ++ part type str ∷ part terminal [] ∷ [])
    else plain

unfoldable pub convert_path_to_pattern : List ℕ → Option Pattern
unfolding normal_path convert_loop
convert_path_to_pattern route = convert_loop 0 (normal_path route) string [] []

two_parts :
    convert_path_to_pattern (codes "a/<id>/")
    ≡ some (part string (codes "/a/") ∷ part parameter (codes "id") ∷ [])
unfolding convert_path_to_pattern
two_parts = refl
