-- ===== src/Pool/Ledger.antt =====
-- Where the pool's connections are: each one in a single place, or in the hand of a method.
use is.Prelude.{
  one, count, count-append, drop_one, count-drop_one, length-drop_one, ℕ, ◌+◌, ◌^◌, ◌≤◌, ◌<◌, ◌≡◌,
  ap, List, [], ◌∷◌, Option, none, some, arith, length, add64_lem, sub64_lem,
}
use is.Lru.State.{Lru}
use is.Lru.Entries.{Entry}
use is.Lru.Rep.{Rep, new_entry}
use is.Lru.Takes.{Taken, Took}
use is.Pool.State.{Conn, Pool, put_conn, add_active, cleanup, delete_cb, set_id, reap}
use is.Pool.Counts.{one_of, items, count-Taken, Labelled, Labelled-Taken, Labelled-put_conn}
use is.Pool.Active.{IsActive, add_active-IsActive, removed, removed-IsActive, relabel-IsActive}

-- `es` are the entries of the idle list, `held` the active connections, `hand` the one that a method
-- holds, and `made` all connections that were ever made.
pub record Ledger (p : Pool) (es : List (Entry ℕ)) (held : List ℕ) (hand : Option ℕ) (made : List ℕ)
    : Type 0 where
  pub idle : Rep p.idle_conn_lru es
  pub within : length es ≤ p.idle_conn_lru.max_entries
  pub small : p.idle_conn_lru.max_entries + 1 < 2 ^ 64
  pub labelled : Labelled p.conns es
  pub active : IsActive p.conns p.active_conn_map held
  pub size : p.active_conn_map_size ≡ length held
  pub room : length held < 2 ^ 64
  pub places :
      (c : ℕ)
      → count c made
        ≡ one_of c hand
          + count c held
          + count c (items es)
          + count c p.reap_list
          + count c p.deleted
  pub once : (c : ℕ) → one_of c hand + count c held + count c (items es) + count c p.reap_list ≤ 1

own : (c : ℕ) → one c c ≡ 1
own c = ground arith

pub add_active-Ledger :
    (p : Pool) (es : List (Entry ℕ)) (held : List ℕ) (c : ℕ) (made : List ℕ)
    → Ledger p es held (some c) made
    → length held + 1 < 2 ^ 64
    → Ledger (add_active c p) es (c ∷ held) none made
unfolding add_active count
add_active-Ledger p es held c made g h =
    let z : count c held ≡ 0 = omega (arith, g.once c, own c) in
    record {
      idle = g.idle;
      within = g.within;
      small = g.small;
      labelled = g.labelled;
      active = add_active-IsActive c p held g.active z;
      size = omega (arith, g.size, add64_lem p.active_conn_map_size 1 (omega (arith, g.size)));
      room = omega arith;
      places = λ d. omega (arith, g.places d);
      once = λ d. omega (arith, g.once d);
    }

pub removed-Ledger :
    (p : Pool) (es : List (Entry ℕ)) (held : List ℕ) (c : ℕ) (made : List ℕ)
    → Ledger p es held none made
    → 0 < count c held
    → Ledger (removed c p) es (drop_one c held) (some c) made
removed-Ledger p es held c made g z =
    let less = length-drop_one c held z in
    record {
      idle = g.idle;
      within = g.within;
      small = g.small;
      labelled = g.labelled;
      active = removed-IsActive c p held g.active z;
      size = omega (
        arith,
        g.size,
        g.room,
        sub64_lem p.active_conn_map_size 1 (omega (arith, g.size)) (omega (arith, g.size, g.room)),
      );
      room = omega (arith, g.room);
      places = λ d. omega (arith, g.places d, count-drop_one d c held z);
      once = λ d. omega (arith, g.once d, count-drop_one d c held z);
    }

pub cleanup-Ledger :
    (p : Pool) (es : List (Entry ℕ)) (held : List ℕ) (c : ℕ) (made : List ℕ)
    → Ledger p es held (some c) made
    → Ledger (cleanup c p) es held none made
unfolding cleanup count
cleanup-Ledger p es held c made g = record {
  idle = g.idle;
  within = g.within;
  small = g.small;
  labelled = g.labelled;
  active = g.active;
  size = g.size;
  room = g.room;
  places = λ d. omega (arith, g.places d, count-append d p.reap_list (c ∷ []));
  once = λ d. omega (arith, g.once d, count-append d p.reap_list (c ∷ []));
}

pub delete_cb-Ledger :
    (p : Pool) (es : List (Entry ℕ)) (held : List ℕ) (hand : Option ℕ) (made : List ℕ)
    → Ledger p es held hand made
    → Ledger (delete_cb hand p) es held none made
unfolding delete_cb
delete_cb-Ledger p es held none made g = g
delete_cb-Ledger p es held (some c) made g = cleanup-Ledger p es held c made g

-- The idle list is replaced by one with the same entries.
pub same_idle-Ledger :
    (p : Pool) (es : List (Entry ℕ)) (held : List ℕ) (hand : Option ℕ) (made : List ℕ) (t : Lru ℕ)
    → Ledger p es held hand made
    → Rep t es
    → t.max_entries ≡ p.idle_conn_lru.max_entries
    → Ledger (record p { idle_conn_lru = t }) es held hand made
same_idle-Ledger p es held hand made t g r m = record {
  idle = r;
  within = omega (arith, g.within);
  small = omega (arith, g.small);
  labelled = g.labelled;
  active = g.active;
  size = g.size;
  room = g.room;
  places = g.places;
  once = g.once;
}

-- The idle list is replaced by one from which a connection may have been taken.
pub take_out-Ledger :
    (p : Pool) (es fs : List (Entry ℕ)) (held : List ℕ) (out : Option ℕ) (made : List ℕ) (t : Lru ℕ)
    → Ledger p es held none made
    → Taken es fs out
    → Rep t fs
    → length fs ≤ t.max_entries
    → t.max_entries ≡ p.idle_conn_lru.max_entries
    → Ledger (record p { idle_conn_lru = t }) fs held out made
take_out-Ledger p es fs held out made t g k r w m = record {
  idle = r;
  within = w;
  small = omega (arith, g.small);
  labelled = Labelled-Taken p.conns es fs out k g.labelled;
  active = g.active;
  size = g.size;
  room = g.room;
  places = λ d. omega (arith, g.places d, count-Taken d es fs out k);
  once = λ d. omega (arith, g.once d, count-Taken d es fs out k);
}

put_conn_at : (f : ℕ → Conn) (c : ℕ) (v : Conn) → put_conn c v f c ≡ v
unfolding put_conn
put_conn_at f c v = ground arith

Labelled-cons :
    (f : ℕ → Conn) (e : Entry ℕ) (es : List (Entry ℕ))
    → (f e.item).label ≡ e.label
    → (f e.item).id ≡ e.id
    → Labelled f es
    → Labelled f (e ∷ es)
unfolding Labelled
Labelled-cons f e es a b h = (a, b, h)

-- The connection in the hand is inserted, and gets its id.
pub inserted-Ledger :
    (p : Pool) (es : List (Entry ℕ)) (held : List ℕ) (c : ℕ) (out : Option ℕ) (made : List ℕ)
    (t : Lru ℕ)
    → Ledger p es held (some c) made
    → (k : Took p.idle_conn_lru (new_entry p.idle_conn_lru (p.conns c).label c ∷ es) t out)
    → Ledger (set_id c p.idle_conn_lru.next_id (record p { idle_conn_lru = t })) k.fs held out made
unfolding set_id items count
inserted-Ledger p es held c out made t g k =
    let i = p.idle_conn_lru.next_id in
    let new = new_entry p.idle_conn_lru (p.conns c).label c in
    let z : count c (items es) ≡ 0 = omega (arith, g.once c, own c) in
    let f = put_conn c (record (p.conns c) { id = i }) p.conns in
    let at : f c ≡ record (p.conns c) { id = i } = put_conn_at p.conns c _ in
    let l : Labelled f (new ∷ es) =
      Labelled-cons f new es (ap (λ v. v.label) at) (ap (λ v. v.id) at)
        (Labelled-put_conn p.conns c _ es z g.labelled) in
    record {
      idle = k.rep;
      within = k.within;
      small = omega (arith, g.small, k.limited);
      labelled = Labelled-Taken f (new ∷ es) k.fs out k.taken l;
      active = relabel-IsActive p.conns p.active_conn_map held c i g.active;
      size = g.size;
      room = g.room;
      places = λ d. omega (arith, g.places d, count-Taken d (new ∷ es) k.fs out k.taken);
      once = λ d. omega (arith, g.once d, count-Taken d (new ∷ es) k.fs out k.taken);
    }

pub reap-Ledger :
    (p : Pool) (es : List (Entry ℕ)) (held made : List ℕ)
    → Ledger p es held none made
    → Ledger (reap p) es held none made
unfolding reap count
reap-Ledger p es held made g = record {
  idle = g.idle;
  within = g.within;
  small = g.small;
  labelled = g.labelled;
  active = g.active;
  size = g.size;
  room = g.room;
  places = λ d. omega (arith, g.places d, count-append d p.deleted p.reap_list);
  once = λ d. omega (arith, g.once d);
}
