-- ===== src/Pool/Active.antt =====
-- The map of active connections against a list of them.
use is.Prelude.{
  count, drop_one, count-drop_one, ℕ, ◌<◌, ◌≡◌, refl, List, [], ◌∷◌, Option, none, some, true,
  if◌then◌else◌, arith, Option-cases, inl, inr, str_eq, str_eq_iff, sub64,
}
use is.Lru.State.{put_label, set_insert, set_erase, set_has, non_empty}
use is.Pool.State.{Conn, Pool, status_ok, status_error, put_conn, add_active, remove_active}
use is.Pool.Counts.{count-set_insert, count-set_erase, set_has-count}

abbrev pub set_at : Option (List ℕ) → List ℕ
set_at none = []
set_at (some cs) = cs

-- Each connection of the list stands in the set of its label held often held in the list, and in no
-- other set.
abbrev pub IsActive : (ℕ → Conn) → (List ℕ → Option (List ℕ)) → List ℕ → Type 0
IsActive f m held =
    (l : List ℕ) (c : ℕ)
    → count c (set_at (m l)) ≡ (if str_eq (f c).label l then count c held else 0)

insert_at :
    (c : ℕ) (o : Option (List ℕ))
    → (elim o as (λ x. List ℕ) [ none ↦ c ∷ [] | some cs ↦ set_insert c cs ])
      ≡ set_insert c (set_at o)
unfolding set_insert
insert_at c none = refl
insert_at c (some cs) = refl

set_at-non_empty : (cs : List ℕ) → set_at (non_empty cs) ≡ cs
set_at-non_empty [] = refl
set_at-non_empty (c ∷ cs) = refl

pub own_set :
    (f : ℕ → Conn) (m : List ℕ → Option (List ℕ)) (held : List ℕ) (c : ℕ)
    → IsActive f m held
    → count c (set_at (m (f c).label)) ≡ count c held
own_set f m held c h = ground (arith, h (f c).label c, str_eq_iff (f c).label (f c).label)

pub add_active-IsActive :
    (c : ℕ) (p : Pool) (held : List ℕ)
    → IsActive p.conns p.active_conn_map held
    → count c held ≡ 0
    → IsActive p.conns (add_active c p).active_conn_map (c ∷ held)
unfolding add_active put_label count
add_active-IsActive c p held h z = λ l d. ground (
  arith,
  h l d,
  h l c,
  str_eq_iff (p.conns c).label l,
  str_eq_iff (p.conns d).label l,
  insert_at c (p.active_conn_map (p.conns c).label),
  count-set_insert d c (set_at (p.active_conn_map (p.conns c).label)),
  own_set p.conns p.active_conn_map held c h,
  z,
)

-- An active connection is taken out.
abbrev pub removed : ℕ → Pool → Pool
removed c p = record p {
  active_conn_map =
      put_label p.active_conn_map (p.conns c).label
        (non_empty (set_erase c (set_at (p.active_conn_map (p.conns c).label))));
  active_conn_map_size = sub64 p.active_conn_map_size 1;
}

pub remove_active_hit :
    (c : ℕ) (p : Pool) (held : List ℕ)
    → IsActive p.conns p.active_conn_map held
    → 0 < count c held
    → remove_active c p ≡ (removed c p, status_ok)
unfolding remove_active count
remove_active_hit c p held h z = elim (Option-cases (p.active_conn_map (p.conns c).label)) [
  | inl e ↦ absurd (ground (arith, own_set p.conns p.active_conn_map held c h, e))
  | inr (cs, e) ↦ ground (arith, own_set p.conns p.active_conn_map held c h, e, set_has-count c cs)
]

pub remove_active_miss :
    (c : ℕ) (p : Pool) (held : List ℕ)
    → IsActive p.conns p.active_conn_map held
    → count c held ≡ 0
    → remove_active c p ≡ (p, status_error)
unfolding remove_active
remove_active_miss c p held h z = elim (Option-cases (p.active_conn_map (p.conns c).label)) [
  | inl e ↦ ground (arith, e)
  | inr (cs, e) ↦ ground (arith, own_set p.conns p.active_conn_map held c h, e, set_has-count c cs)
]

pub removed-IsActive :
    (c : ℕ) (p : Pool) (held : List ℕ)
    → IsActive p.conns p.active_conn_map held
    → 0 < count c held
    → IsActive p.conns (removed c p).active_conn_map (drop_one c held)
unfolding put_label
removed-IsActive c p held h z = λ l d.
    let cs = set_at (p.active_conn_map (p.conns c).label) in
    let own = own_set p.conns p.active_conn_map held c h in
    let has : set_has c cs ≡ true = ground (arith, set_has-count c cs, own) in
    let less = count-set_erase d c cs has in
    let drop = count-drop_one d c held z in
    ground (
      arith,
      h l d,
      str_eq_iff (p.conns c).label l,
      str_eq_iff (p.conns d).label l,
      set_at-non_empty (set_erase c cs),
      less,
      drop,
    )

-- A connection that stands in no set may get any label.
pub put_conn-IsActive :
    (f : ℕ → Conn) (m : List ℕ → Option (List ℕ)) (held : List ℕ) (c : ℕ) (v : Conn)
    → IsActive f m held
    → ((l : List ℕ) → count c (set_at (m l)) ≡ 0)
    → IsActive (put_conn c v f) m held
unfolding put_conn
put_conn-IsActive f m held c v h z =
    λ l d. ground (arith, h l d, z l, own_set f m held c h, z (f c).label)

-- A connection keeps its place when it keeps its label.
pub relabel-IsActive :
    (f : ℕ → Conn) (m : List ℕ → Option (List ℕ)) (held : List ℕ) (c i : ℕ)
    → IsActive f m held
    → IsActive (put_conn c (record (f c) { id = i }) f) m held
unfolding put_conn
relabel-IsActive f m held c i h = λ l d. ground (arith, h l d)
