-- ===== src/Router/Endless.antt =====
-- Two parameters at one place whose names begin alike: the edge is split between `<` and the name,
-- what is left of either pattern is the pattern again, and `insert_route` calls itself for ever.
use is.Prelude.{
  ℕ, zero, suc, ◌+◌, ◌-◌, ◌≤◌, ◌≡◌, ◌≢◌, refl, ap, List, [], ◌∷◌, ◌++◌, Option, none, some, Bool,
  true, false, arith, if◌then◌else◌, length, append_assoc, append-nil,
}
use is.Router.Pattern.{
  Pattern, PartType, parameter, pattern_len, pattern_diff, string_diff, pattern_sub, sub_chars,
}
use is.Router.Convert.{part}
use is.Router.Trie.{
  Node, node, nil, edge, prefix_loop, find_longest_common_prefix, get_edge, branch,
}
use is.Router.Insert.{collision_test, insert_route}

-- Once the offset is reached every byte is taken.
sub_chars_found :
    (offset len : ℕ) (cs : List ℕ) (off taken : ℕ) (out : List ℕ)
    → taken + length cs ≤ len
    → sub_chars offset len cs true off taken out
      ≡ (true, off + length cs, taken + length cs, out ++ cs)
unfolding sub_chars
sub_chars_found offset len [] off taken out l = ground (arith, append-nil out)
sub_chars_found offset len (c ∷ cs) off taken out l = ground (
  arith,
  sub_chars_found offset len cs (suc off) (suc taken) (out ++ c ∷ []),
  append_assoc out (c ∷ []) cs,
)

first_byte :
    (h : ℕ) (t : List ℕ) (len : ℕ)
    → suc (length t) ≤ len
    → sub_chars 1 len (h ∷ t) false 1 0 [] ≡ (true, 2 + length t, 1 + length t, h ∷ t)
unfolding sub_chars
first_byte h t len l = ground (arith, sub_chars_found 1 len t 2 1 (h ∷ []))

emit :
    (type : PartType) (found : Bool) (str str' : List ℕ) (more : Pattern)
    → found ≡ true
    → str ≡ str'
    → (tail : Pattern) × ((if found then part type str ∷ more else more) ≡ part type str' ∷ tail)
emit type found str str' more e f = (more, rw (e, f))

-- Behind the first byte of a parameter's print its name is still whole.
sub_parameter :
    (h : ℕ) (t : List ℕ) (ps : Pattern) (len : ℕ)
    → suc (length t) ≤ len
    → (tail : Pattern) × (pattern_sub (part parameter (h ∷ t) ∷ ps) 1 len
        ≡ part parameter (h ∷ t) ∷ tail)
unfolding pattern_sub
sub_parameter h t ps len l =
    let chars = first_byte h t len l in
    emit parameter _ _ (h ∷ t) _ (ap (λ x. x.0) chars) (ap (λ x. x.3) chars)

diff_one :
    (h : ℕ) (s t : List ℕ) (qs ps : Pattern)
    → string_diff t s ≡ 0
    → t ≢ []
    → pattern_diff (part parameter (h ∷ t) ∷ ps) (part parameter (h ∷ s) ∷ qs) 0 ≡ some 1
unfolding pattern_diff string_diff
diff_one h s [] qs ps z n = absurd (n refl)
diff_one h s (x ∷ t) qs ps z n = ground arith

-- The new child is the old one, under a node with this one edge.
branch_lem :
    (p : Pattern) (c : Node) (offset : ℕ)
    → branch p c offset
      ≡ (pattern_sub p 0 offset, node 0 (edge (pattern_sub p offset (pattern_len p)) c nil) none)
unfolding branch
branch_lem p (node m es d) offset = refl

module _ (h : ℕ) (s t : List ℕ) (qs ps : Pattern) (c : Node) (z : string_diff t s ≡ 0)
    (n : t ≢ []) where
  abbrev old : Pattern
  old = part parameter (h ∷ s) ∷ qs

  abbrev new : Pattern
  new = part parameter (h ∷ t) ∷ ps

  old_len : 1 + suc (length s) ≤ pattern_len old
  unfolding pattern_len
  old_len = omega arith

  new_len : suc (suc (length t)) ≤ pattern_len new
  unfolding pattern_len
  new_len = omega arith

  prefix_one : find_longest_common_prefix (edge old c nil) new ≡ some (1, some 0)
  unfolding find_longest_common_prefix
  prefix_one = rw (diff_one h s t qs ps z n, prefix_loop)

  no_collision :
      (endpoint : ℕ) (d : Option ℕ) → collision_test (node endpoint (edge old c nil) d) new ≡ true
  unfolding collision_test
  no_collision endpoint d = ground (arith, prefix_one, old_len)

  next_call :
      (fuel endpoint : ℕ) (d a_data : Option ℕ)
      → insert_route fuel
          (node 0 (edge (pattern_sub old 1 (pattern_len old)) c nil) none)
          (pattern_sub new 1 (pattern_len new - 1))
          a_data
        ≡ none
      → insert_route (suc fuel) (node endpoint (edge old c nil) d) new a_data ≡ none
  unfolding insert_route get_edge
  next_call fuel endpoint d a_data e =
      ground (arith, no_collision endpoint d, prefix_one, old_len, new_len, branch_lem old c 1)

-- Where a node's only edge starts with a parameter, and the pattern to insert starts with another
-- whose name has exactly the first byte in common with the former's, and is longer than one byte,
-- `insert_route` never returns: no amount of fuel is enough, whatever follows in either pattern.
pub insert_route_endless :
    (fuel endpoint h : ℕ) (s t : List ℕ) (qs ps : Pattern) (c : Node) (d a_data : Option ℕ)
    → string_diff t s ≡ 0
    → t ≢ []
    → insert_route fuel
        (node endpoint (edge (part parameter (h ∷ s) ∷ qs) c nil) d)
        (part parameter (h ∷ t) ∷ ps)
        a_data
      ≡ none
unfolding insert_route
insert_route_endless zero endpoint h s t qs ps c d a_data z n = refl
insert_route_endless (suc fuel) endpoint h s t qs ps c d a_data z n =
    let (qs', eq) =
      sub_parameter h s qs (pattern_len (part parameter (h ∷ s) ∷ qs))
        (omega (arith, old_len h s t qs ps c z n)) in
    let (ps', ep) =
      sub_parameter h t ps (pattern_len (part parameter (h ∷ t) ∷ ps) - 1)
        (omega (arith, new_len h s t qs ps c z n)) in
    next_call h s t qs ps c z n fuel endpoint d a_data
      (rw (eq, ep) (insert_route_endless fuel 0 h s t qs' ps' c none a_data z n))
