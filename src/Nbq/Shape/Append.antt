-- ===== src/Nbq/Shape/Append.antt =====
-- Blocks added at the end of the queue.
use is.Prelude.{
  ℕ, zero, suc, ◌+◌, ◌<◌, ◌≡◌, refl, List, [], ◌∷◌, ◌++◌, append_assoc, append-nil, some, arith,
  length, get_elem?,
}
use is.Nbq.State.{Nb}
use is.Nbq.Shape.{IsSpare, Spare, Ahead, Good, unread, contents, avail}
use is.Nbq.Shape.Cursors.{unread-Spare, contents-Spare, avail-Spare}

pub unread-append : (q p : List Nb) → unread (q ++ p) ≡ unread q ++ unread p
unfolding unread
unread-append [] p = refl
unread-append (b ∷ q) p = rw (unread-append q p, append_assoc)

pub contents-append : (q p : List Nb) → contents (q ++ p) ≡ contents q ++ contents p
unfolding contents
contents-append [] p = refl
contents-append (b ∷ q) p = rw (contents-append q p, append_assoc)

pub avail-append : (q p : List Nb) → avail (q ++ p) ≡ avail q + avail p
unfolding avail
avail-append [] p = omega arith
avail-append (b ∷ q) p = omega (arith, avail-append q p)

module _ (b : Nb) (h : IsSpare b) where
  pub unread_push : (q : List Nb) → unread (q ++ b ∷ []) ≡ unread q
  unread_push q = rw (unread-append, unread-Spare (b ∷ []) (h, tt)) (append-nil (unread q))

  pub contents_push : (q : List Nb) → contents (q ++ b ∷ []) ≡ contents q
  contents_push q = rw (contents-append, contents-Spare (b ∷ []) (h, tt)) (append-nil (contents q))

  pub avail_push : (q : List Nb) → avail (q ++ b ∷ []) ≡ avail q
  avail_push q = omega (arith, avail-append q (b ∷ []), avail-Spare (b ∷ []) (h, tt))

pub get_elem?-append_left :
    {A : Type 0} (q p : List A) (i : ℕ) → i < length q → get_elem? (q ++ p) i ≡ get_elem? q i
get_elem?-append_left [] p i h = elim h [ ]
get_elem?-append_left (b ∷ q) p zero h = refl
get_elem?-append_left (b ∷ q) p (suc i) h = get_elem?-append_left q p i (omega arith)

Spare-block : (q : List Nb) (i : ℕ) (c : Nb) → Spare q → get_elem? q i ≡ some c → IsSpare c
Spare-block [] i c h e = cc
Spare-block (b ∷ q) zero c (h, hs) e = let same : b ≡ c = ground arith in rw same at h
Spare-block (b ∷ q) (suc i) c (h, hs) e = Spare-block q i c hs e

Ahead-after :
    (q : List Nb) (w : ℕ) (c : Nb) → Ahead q (some w) → get_elem? q (suc w) ≡ some c → IsSpare c
Ahead-after [] w c h e = elim h [ ]
Ahead-after (b ∷ q) zero c (u, z, h) e = Spare-block q 0 c h e
Ahead-after (b ∷ q) (suc w) c (u, z, h) e = Ahead-after q w c h e

-- The block behind the write cursor's is empty.
pub Good-after :
    (q : List Nb) (w r : ℕ) (c : Nb) → Good q (some w) r → get_elem? q (suc w) ≡ some c → IsSpare c
Good-after [] w r c h e = elim h [ ]
Good-after (b ∷ q) zero zero c (u, h) e = Spare-block q 0 c h e
Good-after (b ∷ q) zero (suc r) c h e = elim h [ ]
Good-after (b ∷ q) (suc w) zero c (u, h) e = Ahead-after q w c h e
Good-after (b ∷ q) (suc w) (suc r) c (u, z, h) e = Good-after q w r c h e
