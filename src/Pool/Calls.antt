-- ===== src/Pool/Calls.antt =====
-- Runs of the pool's public methods, and the ledger through them.
use is.Prelude.{
  count, ℕ, ◌+◌, ◌^◌, ◌≤◌, ◌<◌, ◌≡◌, ◌≢◌, refl, sym, ap, subst, ◌∙◌, List, [], ◌∷◌, ◌++◌, Option,
  none, some, ltb, arith, length, Bool-cases, Option-cases, inl, inr, ◌>>=◌,
}
use is.Lru.State.{list_read}
use is.Lru.Entries.{Entry}
use is.Lru.Takes.{Taken, get-Took}
use is.Pool.State.{
  Conn, Pool, Scheme, scheme_tcp, scheme_tls, scheme_none, put_conn, add_active, reap,
  create_new_conn, get_new_active, get_idle, add_idle, release,
}
use is.Pool.Counts.{items, listed, listed-map, Labelled-put_conn}
use is.Pool.Active.{set_at, own_set, put_conn-IsActive}
use is.Pool.Ledger.{Ledger, add_active-Ledger, take_out-Ledger}

-- A connection stands nowhere in the pool.
pub record IsFree (p : Pool) (c : ℕ) : Type 0 where
  pub inactive : (l : List ℕ) → count c (set_at (p.active_conn_map l)) ≡ 0
  pub unlisted : count c (listed p.idle_conn_lru.item_list) ≡ 0
  pub unreaped : count c p.reap_list ≡ 0

-- The pool holds the connection, and the idle list has no other one under its id.
pub record IsOwned (p : Pool) (c : ℕ) : Type 0 where
  pub live :
      count c (set_at (p.active_conn_map (p.conns c).label))
        + count c (listed p.idle_conn_lru.item_list)
      ≡ 1
  pub mine : (d : ℕ) → list_read (p.conns c).id p.idle_conn_lru.item_list ≡ some d → d ≡ c

pub data Call : Type 0 where
  new_active : List ℕ → Scheme → ℕ → Call
  take_idle : List ℕ → Call
  give_back : ℕ → Call
  let_go : ℕ → Call
  reap_all : Call

-- The memory of a new connection is free, its scheme is known, and a released connection is owned.
unfoldable pub Allowed : Call → Pool → Type 0
Allowed (new_active l s c) p = (s ≢ scheme_none) × IsFree p c
Allowed (take_idle l) p = Unit {0}
Allowed (give_back c) p = Unit {0}
Allowed (let_go c) p = IsOwned p c
Allowed reap_all p = Unit {0}

abbrev pub with_new : Option ℕ → List ℕ
with_new none = []
with_new (some c) = c ∷ []

-- A call, and the connections that it makes.
unfoldable pub step : Call → Pool → Option (Pool × List ℕ)
step (new_active l s fresh) p = do (q, made) ← get_new_active l s fresh p; some (q, with_new made)
step (take_idle l) p = do (q, c) ← get_idle l p; some (q, [])
step (give_back c) p = do (q, s) ← add_idle (some c) p; some (q, [])
step (let_go c) p = do (q, s) ← release (some c) p; some (q, [])
step reap_all p = some (reap p, [])

pub record Next (p : Pool) (held : List ℕ) (q : Pool) (made : List ℕ) : Type 0 where
  pub es : List (Entry ℕ)
  pub now : List ℕ
  pub ledger : Ledger q es now none made
  pub grown : length now ≤ length held + 1
  pub counted : q.idle_conn_lru.next_id ≤ p.idle_conn_lru.next_id + 1

abbrev pub Steps : Call → Pool → List ℕ → List ℕ → Type 0
Steps c p held made =
    (q : Pool) × (new : List ℕ) × (step c p ≡ some (q, new)) × Next p held q (new ++ made)

pub same-Next :
    (p : Pool) (es : List (Entry ℕ)) (held made : List ℕ)
    → Ledger p es held none made
    → Next p held p made
same-Next p es held made g = record {
  es = es;
  now = held;
  ledger = g;
  grown = omega arith;
  counted = omega arith;
}

-- A new connection comes to the hand.
fresh-Ledger :
    (p : Pool) (es : List (Entry ℕ)) (held made : List ℕ) (c : ℕ) (v : Conn)
    → Ledger p es held none made
    → IsFree p c
    → Ledger (record p { conns = put_conn c v p.conns }) es held (some c) (c ∷ made)
unfolding count
fresh-Ledger p es held made c v g f =
    let z : count c (items es) ≡ 0 =
      ap (count c) (sym (ap listed g.idle.items ∙ listed-map es)) ∙ f.unlisted in
    let a : count c held ≡ 0 =
      sym (own_set p.conns p.active_conn_map held c g.active) ∙ f.inactive (p.conns c).label in
    record {
      idle = g.idle;
      within = g.within;
      small = g.small;
      labelled = Labelled-put_conn p.conns c v es z g.labelled;
      active = put_conn-IsActive p.conns p.active_conn_map held c v g.active f.inactive;
      size = g.size;
      room = g.room;
      places = λ d. omega (arith, g.places d);
      once = λ d. ground (arith, g.once d, z, a, f.unreaped);
    }

made_conn : (s : Scheme) (c : ℕ) → s ≢ scheme_none → create_new_conn s c ≡ some c
unfolding create_new_conn
made_conn scheme_tcp c n = refl
made_conn scheme_tls c n = refl
made_conn scheme_none c n = absurd (n refl)

pub new_active-Steps :
    (p : Pool) (es : List (Entry ℕ)) (held made : List ℕ) (l : List ℕ) (s : Scheme) (c : ℕ)
    → Ledger p es held none made
    → length held + 1 < 2 ^ 64
    → s ≢ scheme_none
    → IsFree p c
    → Steps (new_active l s c) p held made
unfolding step get_new_active add_active
new_active-Steps p es held made l s c g h n f =
    let v : Conn = record { label = l; id = 0 } in
    let p1 : Pool = record p { conns = put_conn c v p.conns } in
    let e : create_new_conn s c ≡ some c = made_conn s c n in
    elim (Bool-cases (ltb p.active_conn_map_size p.active_conn_map_max_size)) [
      | inl y ↦ (
        add_active c p1,
        c ∷ [],
        ground (arith, y, e),
        record {
          es = es;
          now = c ∷ held;
          ledger =
              add_active-Ledger p1 es held c (c ∷ made) (fresh-Ledger p es held made c v g f) h;
          grown = omega arith;
          counted = omega arith;
        },
      )
      | inr y ↦ (p, [], ground (arith, y), same-Next p es held made g)
    ]

pub take_idle-Steps :
    (p : Pool) (es : List (Entry ℕ)) (held made : List ℕ) (l : List ℕ)
    → Ledger p es held none made
    → length held + 1 < 2 ^ 64
    → Steps (take_idle l) p held made
unfolding step get_idle add_active
take_idle-Steps p es held made l g h =
    let (t, out, e, k) = get-Took p.idle_conn_lru es l g.idle g.within in
    let p1 : Pool = record p { idle_conn_lru = t } in
    let g1 = λ (o : Option ℕ) (w : out ≡ o).
      take_out-Ledger p es k.fs held o made t g (subst (Taken es k.fs) w k.taken) k.rep k.within
        k.limited in
    elim (Option-cases out) [
      | inl y ↦ (
        p1,
        [],
        ground (arith, e, y),
        record {
          es = k.fs;
          now = held;
          ledger = g1 none y;
          grown = omega arith;
          counted = k.counted;
        },
      )
      | inr (c, y) ↦ (
        add_active c p1,
        [],
        ground (arith, e, y),
        record {
          es = k.fs;
          now = c ∷ held;
          ledger = add_active-Ledger p1 k.fs held c made (g1 (some c) y) h;
          grown = omega arith;
          counted = k.counted;
        },
      )
    ]
