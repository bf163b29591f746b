-- ===== src/Router/Finds.antt =====
-- What `find_route` finds.
use is.Prelude.{
  ℕ, ◌^◌, ◌≤◌, ◌<◌, ◌≡◌, inl, inr, refl, List, [], ◌∷◌, Option, none, some, arith, length,
  length-append,
}
use is.Router.Pattern.{Pattern}
use is.Router.Trie.{Node, Edges, node, nil, edge, edges, node_data}
use is.Router.Insert.{UrlRouter, root}
use is.Router.Match.{UrlPmap, pmap_update, match_route, find_node, find_edges, find_route}
use is.Router.Accepts.{
  Matches, done, literal, capture, everything, skip, HasNoNul, match_route_decides,
}

-- No pattern in the trie holds a NUL.
pub data IsClean : Edges → Type 0 where
  clean_nil : IsClean nil
  clean_edge :
      {p : Pattern} {c : Node} {es : Edges}
      → HasNoNul p
      → IsClean (edges c)
      → IsClean es
      → IsClean (edge p c es)

-- A path down from these edges, whose patterns match the text one behind the other, to a node with
-- this data.
pub data Leads : Edges → List ℕ → ℕ → Type 0 where
  ends :
      {p : Pattern} {c : Node} {es : Edges} {text : List ℕ} {x : ℕ}
      → Matches p text []
      → node_data c ≡ some x
      → Leads (edge p c es) text x
  goes :
      {p : Pattern} {c : Node} {es : Edges} {text suffix : List ℕ} {x : ℕ}
      → Matches p text suffix
      → Leads (edges c) suffix x
      → Leads (edge p c es) text x
  later :
      {p : Pattern} {c : Node} {es : Edges} {text : List ℕ} {x : ℕ}
      → Leads es text x
      → Leads (edge p c es) text x

length-suffix-le :
    {p : Pattern} {text suffix : List ℕ} → Matches p text suffix → length suffix ≤ length text
length-suffix-le (done text) = omega arith
length-suffix-le (literal {p = p} text suffix e m) =
    omega (arith, length-append p.str text, length-suffix-le m)
length-suffix-le (capture value text suffix e a b m) =
    omega (arith, length-append value text, length-suffix-le m)
length-suffix-le (everything text e) = omega arith
length-suffix-le (skip text suffix e m) = length-suffix-le m

-- A search ends, and data that it finds lies at the end of such a path.
abbrev pub Sound : Edges → List ℕ → Option (Option ℕ × UrlPmap) → Type 0
Sound es text r =
    (d : Option ℕ) × (m : UrlPmap) × (r ≡ some (d, m)) × ((x : ℕ) → d ≡ some x → Leads es text x)

module _ (p : Pattern) (c : Node) (es : Edges) (text : List ℕ) (m : UrlPmap) where
  abbrev search : Option (Option ℕ × UrlPmap)
  search = find_edges (edge p c es) text (length text) m

  search_other :
      match_route p text (length text) ≡ some none
      → Sound es text (find_edges es text (length text) m)
      → Sound (edge p c es) text search
  unfolding find_edges
  search_other e (d, m', r, s) = (d, m', ground arith, λ x h. later (s x h))

  search_end :
      (m1 : UrlPmap)
      → match_route p text (length text) ≡ some (some (m1, []))
      → Matches p text []
      → Sound (edge p c es) text search
  unfolding find_edges
  search_end m1 e h = (node_data c, pmap_update m1 m, ground arith, λ x z. ends h z)

  search_below :
      (m1 : UrlPmap) (x : ℕ) (suffix : List ℕ)
      → match_route p text (length text) ≡ some (some (m1, x ∷ suffix))
      → Matches p text (x ∷ suffix)
      → Sound (edges c) (x ∷ suffix) (find_node c (x ∷ suffix) (length (x ∷ suffix)) m1)
      → Sound es text (find_edges es text (length text) m)
      → Sound (edge p c es) text search
  unfolding find_edges
  search_below m1 x suffix e h (some y, m2, r, s) other =
      (some y, pmap_update m2 m, ground arith, λ z k. goes h (s z k))
  search_below m1 x suffix e h (none, m2, r, s) (d, m', r', s') =
      (d, m', ground arith, λ z k. later (s' z k))

mutual
  unfolding find_node find_edges

  find_node-Sound :
      (n : Node) (text : List ℕ) (m : UrlPmap)
      → IsClean (edges n)
      → length text < 2 ^ 32
      → Sound (edges n) text (find_node n text (length text) m)
  find_node-Sound (node endpoint es d) text m h l = find_edges-Sound es text m h l

  find_edges-Sound :
      (es : Edges) (text : List ℕ) (m : UrlPmap)
      → IsClean es
      → length text < 2 ^ 32
      → Sound es text (find_edges es text (length text) m)
  find_edges-Sound nil text m h l = (none, m, refl, λ x e. cc)
  find_edges-Sound (edge p c es) text m (clean_edge hp hc he) l =
      let other = find_edges-Sound es text m he l in
      elim (match_route_decides p text hp l) [
        | inr (e, h) ↦ search_other p c es text m e other
        | inl (m1, [], e, h) ↦ search_end p c es text m m1 e h
        | inl (m1, x ∷ suffix, e, h) ↦
            search_below p c es text m m1 x suffix e h
              (find_node-Sound c (x ∷ suffix) m1 hc (omega (arith, length-suffix-le h))) other
      ]

-- In a router whose patterns have no NUL byte, with a text shorter than 2^32 bytes that is given with
-- its length, `find_route` ends without a read past the text, and data that it
-- returns stands in the trie behind a path of edges whose patterns match the text, part by part.
pub find_route-Sound :
    (r : UrlRouter) (text : List ℕ) (m : UrlPmap)
    → IsClean (edges (root r))
    → length text < 2 ^ 32
    → Sound (edges (root r)) text (find_route text (length text) m r)
unfolding find_route root
find_route-Sound none text m h l = (none, m, refl, λ x e. cc)
find_route-Sound (some n) text m h l = find_node-Sound n text m h l
