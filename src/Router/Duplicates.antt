-- ===== src/Router/Duplicates.antt =====
-- `find_longest_common_prefix` hands out the length of the last edge, not the greatest one, so the
-- collision test overlooks routes that are there.
use is.Prelude.{
  ℕ, suc, ◌≡◌, Option, none, some, true, arith, ltb, if◌then◌else◌, Option-cases, inl, inr,
}
use is.Router.Pattern.{Pattern, pattern_diff}
use is.Router.Trie.{
  Node, Edges, node, nil, edge, append_edge, find_edge, connect, prefix_loop,
  find_longest_common_prefix,
}
use is.Router.Insert.{collision_test, insert_route}

prefix_loop_last :
    (es : Edges) (p q : Pattern) (c : Node) (i last best n : ℕ) (found f : Option ℕ)
    → prefix_loop es p i last best found ≡ some (n, f)
    → pattern_diff p q 0 ≡ some 0
    → (g : Option ℕ) × (prefix_loop (append_edge es q c) p i last best found ≡ some (0, g))
unfolding prefix_loop append_edge
prefix_loop_last nil p q c i last best n found f e z = (found, rw z (ground arith))
prefix_loop_last (edge r k es) p q c i last best n found f e z =
    elim (Option-cases (pattern_diff p r 0)) [
      | inl m ↦ ground arith
      | inr (m, em) ↦
          let rec =
            prefix_loop_last es p q c (suc i) m (if ltb best m then m else best) n
              (if ltb best m then some i else found) f in
          let (g, eg) = rec (rw em at e) z in (g, rw em eg)
    ]

find_edge-append_edge :
    (es : Edges) (p q : Pattern) (c : Node)
    → find_edge es p ≡ true
    → find_edge (append_edge es q c) p ≡ true
unfolding find_edge append_edge
find_edge-append_edge nil p q c e = cc
find_edge-append_edge (edge r k es) p q c e = ground (arith, find_edge-append_edge es p q c)

-- A route that stands on an edge of a node in front of its last, where the search for the longest common
-- prefix over the edges in front of the last does not fail, and whose last edge has no byte in common with it, is
-- inserted once more with success, and the node stays as it was: the new data is dropped.
pub insert_route_duplicate :
    (fuel endpoint n : ℕ) (d a_data f : Option ℕ) (es : Edges) (p q : Pattern) (c : Node)
    → find_longest_common_prefix es p ≡ some (n, f)
    → find_edge es p ≡ true
    → pattern_diff p q 0 ≡ some 0
    → insert_route (suc fuel) (node endpoint (append_edge es q c) d) p a_data
      ≡ some (node endpoint (append_edge es q c) d, true)
unfolding insert_route collision_test find_longest_common_prefix connect
insert_route_duplicate fuel endpoint n d a_data f es p q c e h z =
    let (g, eg) = prefix_loop_last es p q c 0 0 0 n none f e z in
    ground (arith, eg, find_edge-append_edge es p q c h)
