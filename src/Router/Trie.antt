-- ===== src/Router/Trie.antt =====
-- The trie: `node`, whose edges hold a pattern and a child, and the functions on one node of
-- src/url_router/url_router.cc. A `void *` is a number, NULL is `none`.
use is.Prelude.{ℕ, zero, suc, Option, none, some, Bool, true, false, if◌then◌else◌, ltb, ◌>>=◌}
use is.Router.Pattern.{Pattern, pattern_len, pattern_diff, pattern_sub, pattern_match}

mutual
  -- `m_endpoint`, `m_edge_list` and `m_data`.
  pub data Node : Type 0 where
    node : ℕ → Edges → Option ℕ → Node

  -- An edge holds `m_pattern` and `m_child`.
  pub data Edges : Type 0 where
    nil : Edges
    edge : Pattern → Node → Edges → Edges

abbrev pub edges : Node → Edges
edges (node endpoint es d) = es

abbrev pub node_data : Node → Option ℕ
node_data (node endpoint es d) = d

abbrev pub new_node : Node
new_node = node 0 nil none

unfoldable pub append_edge : Edges → Pattern → Node → Edges
append_edge nil p child = edge p child nil
append_edge (edge q c es) p child = edge q c (append_edge es p child)

unfoldable pub find_edge : Edges → Pattern → Bool
unfolding pattern_match
find_edge nil p = false
find_edge (edge q c es) p = if pattern_match q p then true else find_edge es p

-- An edge with this pattern is left as it is, with its own child.
unfoldable pub connect : Edges → Node → Pattern → Edges
unfolding find_edge append_edge
connect es child p = if find_edge es p then es else append_edge es p child

unfoldable pub get_edge : Edges → ℕ → Option (Pattern × Node)
get_edge nil i = none
get_edge (edge p c es) zero = some (p, c)
get_edge (edge p c es) (suc i) = get_edge es i

unfoldable pub set_edge : Edges → ℕ → Pattern → Node → Edges
set_edge nil i p c = nil
set_edge (edge q d es) zero p c = edge p c es
set_edge (edge q d es) (suc i) p c = edge q d (set_edge es i p c)

-- The loop of `find_longest_common_prefix`: `i` is the number of the edge, `last` the length of the
-- edge before, `best` the greatest length and `found` its edge. `none` is the result -1; the length
-- that is handed out is the last edge's.
unfoldable pub prefix_loop : Edges → Pattern → ℕ → ℕ → ℕ → Option ℕ → Option (ℕ × Option ℕ)
unfolding pattern_diff
prefix_loop nil p i last best found = some (last, found)
prefix_loop (edge q c es) p i last best found = do
  n ← pattern_diff p q 0
  prefix_loop es p (suc i) n (if ltb best n then n else best) (if ltb best n then some i else found)

unfoldable pub find_longest_common_prefix : Edges → Pattern → Option (ℕ × Option ℕ)
unfolding prefix_loop
find_longest_common_prefix es p = prefix_loop es p 0 0 0 none

-- `edge::branch` on the edge's pattern and child.
unfoldable pub branch : Pattern → Node → ℕ → Pattern × Node
unfolding pattern_sub pattern_len
branch p (node endpoint es d) offset = (
  pattern_sub p 0 offset,
  node 0 (edge (pattern_sub p offset (pattern_len p)) (node endpoint es d) nil) none,
)
