-- ===== src/Router/Insert.antt =====
-- `collision_test`, `insert_route` and `add_route`. The recursion of `insert_route` takes fuel, as it
-- goes on into a node that it has changed; `none` is fuel that ran out.
use is.Prelude.{
  ℕ, zero, suc, ◌-◌, List, Option, none, some, Bool, true, false, not, if◌then◌else◌, ltb, ◌==◌,
  ◌>>=◌,
}
use is.Router.Pattern.{Pattern, pattern_len, pattern_sub}
use is.Router.Convert.{convert_path_to_pattern}
use is.Router.Trie.{
  Node, Edges, node, nil, edge, new_node, connect, get_edge, set_edge, find_longest_common_prefix,
  branch,
}

unfoldable mutual
  -- `true` is the result 0.
  pub collision_test : Node → Pattern → Bool
  collision_test (node endpoint es d) p = elim (find_longest_common_prefix es p) [
    | none ↦ false
    | some (len, none) ↦ true
    | some (len, some i) ↦ if len == 0 then true else collision_at es i p len
  ]

  -- The part about the common edge, the `i`th.
  pub collision_at : Edges → ℕ → Pattern → ℕ → Bool
  collision_at nil i p len = true
  collision_at (edge q c es) zero p len =
      let sub = pattern_sub p len (pattern_len p - len) in
      let below = collision_test c sub in
      if not (len == pattern_len q) then true else if pattern_len sub == 0 then false else below
  collision_at (edge q c es) (suc i) p len = collision_at es i p len

-- The node after the call, and whether the call returns a node.
unfoldable pub insert_route : ℕ → Node → Pattern → Option ℕ → Option (Node × Bool)
insert_route zero n p a_data = none
insert_route (suc fuel) (node endpoint es d) p a_data =
    elim (collision_test (node endpoint es d) p) [
      | false ↦ some (node endpoint es d, false)
      | true ↦ elim (find_longest_common_prefix es p) [
        | none ↦ some (node endpoint es d, false)
        | some (len, found) ↦ elim (len == 0) [
          | true ↦ some (node endpoint (connect es (node 1 nil a_data) p) d, true)
          | false ↦ do
            i ← found
            (q, c) ← get_edge es i
            let sub = pattern_sub p len (pattern_len p - len)
            elim (len == pattern_len q) [
              | true ↦ elim (pattern_len sub == 0) [
                | true ↦ some (node endpoint es d, false)
                | false ↦ do
                  (c', done) ← insert_route fuel c sub a_data
                  some (node endpoint (set_edge es i q c') d, done)
              ]
              | false ↦ elim (ltb len (pattern_len q)) [
                | false ↦ some (node endpoint es d, false)
                | true ↦
                    let (q', c') = branch q c len in
                    elim (pattern_len p - len == 0) [
                      | true ↦ some (node endpoint (set_edge es i q' (set_data a_data c')) d, true)
                      | false ↦ do
                        (c'', done) ← insert_route fuel c' sub a_data
                        some (node endpoint (set_edge es i q' c'') d, done)
                    ]
              ]
            ]
        ]
      ]
    ]
  where
    set_data : Option ℕ → Node → Node
    set_data x (node m fs y) = node m fs x

-- `url_router`: NULL until the first route is added.
abbrev pub UrlRouter : Type 0
UrlRouter = Option Node

unfoldable pub root : UrlRouter → Node
root none = new_node
root (some n) = n

-- The router after the call, and whether the result is 0.
unfoldable pub add_route : List ℕ → Option ℕ → UrlRouter → Option (UrlRouter × Bool)
unfolding convert_path_to_pattern insert_route root
add_route route a_data r = elim (convert_path_to_pattern route) [
  | none ↦ some (r, false)
  | some p ↦ do
    (n, done) ← insert_route (suc (pattern_len p)) (root r) p a_data
    some (some n, done)
]
