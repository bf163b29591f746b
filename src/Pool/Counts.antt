-- ===== src/Pool/Counts.antt =====
-- How often a connection stands in the pool's containers.
use is.Prelude.{
  one, count, ℕ, ◌+◌, ◌<◌, ◌≡◌, ◌≢◌, refl, ap, List, [], ◌∷◌, map, Option, none, some, true, ltb,
  ◌==◌, arith, Bool-cases, inl, inr,
}
use is.Lru.State.{set_insert, set_erase, set_has, list_read}
use is.Lru.Entries.{Entry, node, drop_id}
use is.Lru.Takes.{Taken}
use is.Pool.State.{Conn, put_conn}

abbrev pub one_of : ℕ → Option ℕ → ℕ
one_of c none = 0
one_of c (some d) = one c d

pub count-set_insert :
    (c d : ℕ) (ds : List ℕ) → count d ds ≡ 0 → count c (set_insert d ds) ≡ one c d + count c ds
unfolding count set_insert
count-set_insert c d [] h = refl
count-set_insert c d (e ∷ ds) h = ground (arith, count-set_insert c d ds)

pub count-set_erase :
    (c d : ℕ) (ds : List ℕ) → set_has d ds ≡ true → one c d + count c (set_erase d ds) ≡ count c ds
unfolding count set_has set_erase
count-set_erase c d [] h = cc
count-set_erase c d (e ∷ ds) h = ground (arith, count-set_erase c d ds)

pub set_has-count : (c : ℕ) (ds : List ℕ) → set_has c ds ≡ ltb 0 (count c ds)
unfolding count set_has
set_has-count c [] = refl
set_has-count c (d ∷ ds) = ground (arith, set_has-count c ds)

-- The connections of the idle list's entries.
unfoldable pub items : List (Entry ℕ) → List ℕ
items [] = []
items (e ∷ es) = e.item ∷ items es

-- The connections of the list itself.
unfoldable pub listed : List (ℕ × ℕ) → List ℕ
listed [] = []
listed ((i, c) ∷ l) = c ∷ listed l

pub listed-map : (es : List (Entry ℕ)) → listed (map node es) ≡ items es
unfolding listed items
listed-map [] = refl
listed-map (e ∷ es) = ap (λ l. e.item ∷ l) (listed-map es)

count-drop_id :
    (c i d : ℕ) (es : List (Entry ℕ))
    → list_read i (map node es) ≡ some d
    → one c d + count c (items (drop_id i es)) ≡ count c (items es)
unfolding count items drop_id list_read
count-drop_id c i d [] e = cc
count-drop_id c i d (x ∷ es) e = ground (arith, e, count-drop_id c i d es)

pub count-Taken :
    (c : ℕ) (es fs : List (Entry ℕ)) (out : Option ℕ)
    → Taken es fs out
    → one_of c out + count c (items fs) ≡ count c (items es)
count-Taken c es fs out (inl (e, o)) = rw (e, o) (omega arith)
count-Taken c es fs out (inr (i, x, h, e, o)) = rw (e, o) (count-drop_id c i x es h)

-- The idle connections know the label and the id that they are listed under.
unfoldable pub Labelled : (ℕ → Conn) → List (Entry ℕ) → Type 0
Labelled f [] = Unit {0}
Labelled f (e ∷ es) = ((f e.item).label ≡ e.label) × ((f e.item).id ≡ e.id) × Labelled f es

pub Labelled-drop_id :
    (f : ℕ → Conn) (i : ℕ) (es : List (Entry ℕ)) → Labelled f es → Labelled f (drop_id i es)
unfolding Labelled drop_id
Labelled-drop_id f i [] h = tt
Labelled-drop_id f i (e ∷ es) (h, k, hs) = elim (Bool-cases (e.id == i)) [
  | inl y ↦ rw y hs
  | inr y ↦ rw y (h, k, Labelled-drop_id f i es hs)
]

pub Labelled-Taken :
    (f : ℕ → Conn) (es fs : List (Entry ℕ)) (out : Option ℕ)
    → Taken es fs out
    → Labelled f es
    → Labelled f fs
Labelled-Taken f es fs out (inl (e, o)) h = rw e h
Labelled-Taken f es fs out (inr (i, x, r, e, o)) h = rw e (Labelled-drop_id f i es h)

pub Labelled-put_conn :
    (f : ℕ → Conn) (c : ℕ) (v : Conn) (es : List (Entry ℕ))
    → count c (items es) ≡ 0
    → Labelled f es
    → Labelled (put_conn c v f) es
unfolding Labelled put_conn count items
Labelled-put_conn f c v [] e h = tt
Labelled-put_conn f c v (d ∷ es) e (h, k, hs) =
    (ground (arith, h), ground (arith, k), Labelled-put_conn f c v es (omega arith) hs)

-- An idle connection is found under its id, or another one is.
pub Labelled-list_read :
    (f : ℕ → Conn) (c : ℕ) (es : List (Entry ℕ))
    → Labelled f es
    → 0 < count c (items es)
    → list_read (f c).id (map node es) ≢ none
unfolding Labelled count items list_read
Labelled-list_read f c [] h l = ground arith
Labelled-list_read f c (d ∷ es) (h, k, hs) l = elim (Bool-cases (c == d.item)) [
  | inl y ↦ λ e. ground (arith, y, k, e)
  | inr y ↦ λ e. ground (arith, y, Labelled-list_read f c es hs, e)
]
