-- ===== src/Router/Match.antt =====
-- `match_route` and `find_route`. A route is the memory from its pointer up to the NUL, with a length
-- that may be another. The outer `none` is a text made of bytes past the end of that memory.
use is.Prelude.{
  str_eq, ℕ, zero, suc, ◌+◌, ◌-◌, List, [], ◌∷◌, Option, none, some, Bool, true, false,
  if◌then◌else◌, leb, ◌==◌, ◌>>=◌, length, take, drop, sub32,
}
use is.Router.Pattern.{string, parameter, terminal, untyped, Pattern, byte, rest}
use is.Router.Trie.{Node, Edges, node, nil, edge, node_data}
use is.Router.Insert.{UrlRouter}

-- `url_pmap_t`.
abbrev pub UrlPmap : Type 0
UrlPmap = List (List ℕ × List ℕ)

unfoldable pub pmap_set : List ℕ → List ℕ → UrlPmap → UrlPmap
unfolding str_eq
pmap_set k v [] = (k, v) ∷ []
pmap_set k v ((j, w) ∷ m) = if str_eq j k then (j, v) ∷ m else (j, w) ∷ pmap_set k v m

unfoldable pub pmap_update : UrlPmap → UrlPmap → UrlPmap
unfolding pmap_set
pmap_update [] m = m
pmap_update ((k, v) ∷ new) m = pmap_update new (pmap_set k v m)

-- `strncmp` is 0.
unfoldable pub strncmp_eq : List ℕ → List ℕ → ℕ → Bool
strncmp_eq a b zero = true
strncmp_eq a b (suc n) =
    let onward = strncmp_eq (rest a) (rest b) n in
    if byte a == byte b then (if byte a == 0 then true else onward) else false

-- How far to the next slash, in `budget` bytes at most. Where that is past the end of the memory, the
-- text that the caller makes of it is a fault.
unfoldable pub scan_to_slash : ℕ → List ℕ → ℕ
scan_to_slash zero mem = 0
scan_to_slash (suc budget) mem =
    let onward = scan_to_slash budget (rest mem) in if byte mem == b'/' then 0 else suc onward

-- `assign(ptr, n)`.
unfoldable pub assign : List ℕ → ℕ → Option (List ℕ)
assign mem n = if leb n (length mem) then some (take n mem) else none

-- The loop of `match_route`: the memory from `l_route_ptr` on, `l_route_len`, `l_len` and the
-- parameters so far. The inner `none` is the result false.
unfoldable pub match_loop :
    Pattern → ℕ → List ℕ → ℕ → ℕ → UrlPmap → Option (Option (UrlPmap × List ℕ))
unfolding pmap_set strncmp_eq scan_to_slash assign
match_loop [] a_route_len mem route_len len m =
    if len == a_route_len
    then some (some (m, []))
    else (do suffix ← assign mem route_len; some (some (m, suffix)))
match_loop (p ∷ ps) a_route_len mem route_len len m =
    let n = scan_to_slash (a_route_len - len) mem in
    let k = length p.str in
    let past_string = match_loop ps a_route_len (drop k mem) (sub32 route_len k) (len + k) m in
    let past_untyped = match_loop ps a_route_len mem route_len len m in
    elim p.type [
      | parameter ↦ do
        value ← assign mem n
        match_loop ps a_route_len (drop n mem) (sub32 route_len n) (len + n)
            (pmap_set p.str value m)
      | string ↦ if strncmp_eq p.str mem k then past_string else some none
      | terminal ↦ do rem ← assign mem route_len; some (some (pmap_set (b'*' ∷ []) rem m, []))
      | untyped ↦ past_untyped
    ]

unfoldable pub match_route : Pattern → List ℕ → ℕ → Option (Option (UrlPmap × List ℕ))
unfolding match_loop
match_route p mem len = match_loop p len mem len 0 []

unfoldable mutual
  -- The data, NULL or not, and the parameters that the call leaves in `ao_url_pmap`.
  pub find_node : Node → List ℕ → ℕ → UrlPmap → Option (Option ℕ × UrlPmap)
  find_node (node endpoint es d) mem len m = find_edges es mem len m

  pub find_edges : Edges → List ℕ → ℕ → UrlPmap → Option (Option ℕ × UrlPmap)
  find_edges nil mem len m = some (none, m)
  find_edges (edge p c es) mem len m = do
    matched ← match_route p mem len
    elim matched [
      | none ↦ find_edges es mem len m
      | some (m1, []) ↦ some (node_data c, pmap_update m1 m)
      | some (m1, x ∷ suffix) ↦ do
        (d, m2) ← find_node c (x ∷ suffix) (length (x ∷ suffix)) m1
        elim d [ some y ↦ some (some y, pmap_update m2 m) | none ↦ find_edges es mem len m ]
    ]

unfoldable pub find_route : List ℕ → ℕ → UrlPmap → UrlRouter → Option (Option ℕ × UrlPmap)
unfolding find_node
find_route mem len m none = some (none, m)
find_route mem len m (some n) = find_node n mem len m
