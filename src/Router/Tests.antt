-- ===== src/Router/Tests.antt =====
-- Runs of the router, and its theorems at concrete tries.
use is.Prelude.{ℕ, ◌≡◌, refl, List, [], ◌∷◌, none, some, true, arith, codes, length}
use is.Router.Pattern.{Pattern, string, parameter, pattern_str, pattern_diff, string_diff}
use is.Router.Convert.{part, convert_path_to_pattern, normal_path}
use is.Router.Trie.{Node, node, nil, edge, append_edge, find_edge, find_longest_common_prefix}
use is.Router.Insert.{UrlRouter, root, insert_route}
use is.Router.Match.{match_route, find_route}
use is.Router.Spelling.{pattern_str-convert}
use is.Router.Accepts.{Decided, match_route_decides}
use is.Router.Finds.{clean_nil, clean_edge, Sound, find_route-Sound}
use is.Router.Duplicates.{insert_route_duplicate}
use is.Router.Endless.{insert_route_endless}

abbrev item : Pattern
item = part string (codes "/i/") ∷ part parameter (codes "id") ∷ []

pattern_str-convert_example : pattern_str item ≡ codes "/i/<id>"
unfolding normal_path
pattern_str-convert_example =
    pattern_str-convert (codes "i/<id>/") item (unfold convert_path_to_pattern in refl)

match_route_decides_example :
    Decided item (codes "/i/7/x") (match_route item (codes "/i/7/x") (length (codes "/i/7/x")))
match_route_decides_example = match_route_decides item (codes "/i/7/x") (omega arith) (omega arith)

abbrev one_route : UrlRouter
one_route = some (node 0 (edge item (node 1 nil (some 5)) nil) none)

find_route-Sound_example :
    Sound
      (edge item (node 1 nil (some 5)) nil)
      (codes "/i/7")
      (find_route (codes "/i/7") (length (codes "/i/7")) [] one_route)
unfolding root
find_route-Sound_example =
    find_route-Sound one_route (codes "/i/7") [] (clean_edge (omega arith) clean_nil clean_nil)
      (omega arith)

abbrev word : List ℕ → Pattern
word s = part string s ∷ []

abbrev leaf : ℕ → Node
leaf n = node 1 nil (some n)

insert_route_duplicate_example :
    insert_route 9
      (node 0
        (append_edge (edge (word (codes "a/x")) (leaf 1) nil) (word (codes "b/y")) (leaf 2))
        none)
      (word (codes "a/x"))
      (some 3)
    ≡ some (
      node 0
          (append_edge (edge (word (codes "a/x")) (leaf 1) nil) (word (codes "b/y")) (leaf 2))
          none,
      true,
    )
insert_route_duplicate_example =
    insert_route_duplicate 8 0 3 none (some 3) (some 0) (edge (word (codes "a/x")) (leaf 1) nil)
      (word (codes "a/x")) (word (codes "b/y")) (leaf 2) (unfold find_longest_common_prefix in refl)
      (unfold find_edge in refl) (unfold pattern_diff in refl)

insert_route_endless_example :
    insert_route 1000
      (node 0 (edge (part parameter (codes "id") ∷ word (codes "/q")) (leaf 1) nil) none)
      (part parameter (codes "ix") ∷ word (codes "/r"))
      (some 2)
    ≡ none
insert_route_endless_example =
    insert_route_endless 1000 0 b'i' (codes "d") (codes "x") (word (codes "/q")) (word (codes "/r"))
      (leaf 1) none (some 2) (unfold string_diff in refl) (cc)
