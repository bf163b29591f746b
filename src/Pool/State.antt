-- ===== src/Pool/State.antt =====
-- The class `nconn_pool` of src/srvr/nconn_pool.cc, on top of the least recently used list. A
-- connection is named by its address, and a null pointer is `none`. Of a connection the pool reads
-- and sets its label and its id. `deleted` lists the connections that `reap` has deleted. `none` as
-- the result of a method is a dangling iterator or a null pointer that is followed.
use is.Prelude.{
  ℕ, zero, suc, ◌>>=◌, if◌then◌else◌, ◌%◌, ◌^◌, List, [], ◌∷◌, ◌++◌, Option, none, some, true,
  false, ltb, ◌==◌, add64, sub64,
}
use is.Lru.State.{
  Lru, new_lru, put_label, set_insert, set_erase, set_has, non_empty, remove, evict, insert, get,
}

pub data Scheme : Type 0 where
  scheme_tcp : Scheme
  scheme_tls : Scheme
  scheme_none : Scheme

pub data Status : Type 0 where
  status_ok : Status
  status_error : Status

pub record Conn : Type 0 where
  pub label : List ℕ
  pub id : ℕ

pub record Pool : Type 0 where
  pub conns : ℕ → Conn
  pub active_conn_map : List ℕ → Option (List ℕ)
  pub active_conn_map_size : ℕ
  pub active_conn_map_max_size : ℕ
  pub idle_conn_lru : Lru ℕ
  pub reap_list : List ℕ
  pub deleted : List ℕ

-- The size of the idle list is narrowed to 32 bits.
unfoldable pub new_pool : ℕ → ℕ → Pool
new_pool max_active max_idle = record {
  conns = λ c. record { label = []; id = 0 };
  active_conn_map = λ l. none;
  active_conn_map_size = 0;
  active_conn_map_max_size = max_active;
  idle_conn_lru = new_lru (max_idle % 2 ^ 32);
  reap_list = [];
  deleted = [];
}

unfoldable pub put_conn : ℕ → Conn → (ℕ → Conn) → ℕ → Conn
put_conn c v f d = if c == d then v else f d

unfoldable pub add_active : ℕ → Pool → Pool
add_active c p = record p {
  active_conn_map = put_label p.active_conn_map (p.conns c).label (
      some
        (elim (p.active_conn_map (p.conns c).label) [ none ↦ c ∷ [] | some cs ↦ set_insert c cs ]));
  active_conn_map_size = add64 p.active_conn_map_size 1;
}

unfoldable pub remove_active : ℕ → Pool → Pool × Status
remove_active c p = elim (p.active_conn_map (p.conns c).label) [
  | none ↦ (p, status_error)
  | some cs ↦ elim (set_has c cs) [
    | false ↦ (p, status_error)
    | true ↦ (
      record p {
        active_conn_map =
            put_label p.active_conn_map (p.conns c).label (non_empty (set_erase c cs));
        active_conn_map_size = sub64 p.active_conn_map_size 1;
      },
      status_ok,
    )
  ]
]

-- The connection's own clean-up does not touch the pool.
unfoldable pub cleanup : ℕ → Pool → Pool
cleanup c p = record p { reap_list = p.reap_list ++ c ∷ [] }

-- The delete callback of the idle list.
unfoldable pub delete_cb : Option ℕ → Pool → Pool
delete_cb none p = p
delete_cb (some c) p = cleanup c p

-- A connection of a known scheme is made at the address that is given.
unfoldable pub create_new_conn : Scheme → ℕ → Option ℕ
create_new_conn scheme_tcp c = some c
create_new_conn scheme_tls c = some c
create_new_conn scheme_none c = none

unfoldable pub get_new_active : List ℕ → Scheme → ℕ → Pool → Option (Pool × Option ℕ)
get_new_active l scheme fresh p = elim (ltb p.active_conn_map_size p.active_conn_map_max_size) [
  | false ↦ some (p, none)
  | true ↦ do
    c ← create_new_conn scheme fresh
    some (
      add_active c (record p { conns = put_conn c (record { label = l; id = 0 }) p.conns }),
      some c,
    )
]

unfoldable pub get_active_available : Pool → ℕ
get_active_available p = sub64 p.active_conn_map_max_size p.active_conn_map_size

unfoldable pub get_idle : List ℕ → Pool → Option (Pool × Option ℕ)
get_idle l p = do
  (t, found) ← get l p.idle_conn_lru
  some (elim found [
    | none ↦ (record p { idle_conn_lru = t }, none)
    | some c ↦ (add_active c (record p { idle_conn_lru = t }), some c)
  ])

unfoldable pub set_id : ℕ → ℕ → Pool → Pool
set_id c i p = record p { conns = put_conn c (record (p.conns c) { id = i }) p.conns }

-- The idle list takes the connection, and the one that it evicts goes to the reap list.
unfoldable pub insert_idle : ℕ → Pool → Option Pool
insert_idle c p = do
  (t, i, out) ← insert (p.conns c).label c p.idle_conn_lru
  some (set_id c i (delete_cb out (record p { idle_conn_lru = t })))

unfoldable pub add_idle : Option ℕ → Pool → Option (Pool × Status)
add_idle none p = some (p, status_error)
add_idle (some c) p = elim ((remove_active c p).1) [
  | status_error ↦ some ((remove_active c p).0, status_error)
  | status_ok ↦ do q ← insert_idle c (remove_active c p).0; some (q, status_ok)
]

unfoldable pub remove_idle : ℕ → Pool → Option Pool
remove_idle c p = elim (p.idle_conn_lru.item_list_size == 0) [
  | true ↦ some p
  | false ↦ do t ← remove (p.conns c).id p.idle_conn_lru; some (record p { idle_conn_lru = t })
]

unfoldable pub release : Option ℕ → Pool → Option (Pool × Status)
release none p = some (p, status_error)
release (some c) p = do q ← remove_idle c (remove_active c p).0; some (cleanup c q, status_ok)

-- With fuel for the loop.
unfoldable pub evict_all_idle : ℕ → Pool → Option Pool
evict_all_idle zero p = if p.idle_conn_lru.item_list_size == 0 then some p else none
evict_all_idle (suc fuel) p = elim (p.idle_conn_lru.item_list_size == 0) [
  | true ↦ some p
  | false ↦ do
    (t, out) ← evict p.idle_conn_lru
    evict_all_idle fuel (delete_cb out (record p { idle_conn_lru = t }))
]

unfoldable pub reap : Pool → Pool
reap p = record p { reap_list = []; deleted = p.deleted ++ p.reap_list }
