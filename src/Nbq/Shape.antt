-- ===== src/Nbq/Shape.antt =====
-- What every reachable queue looks like: the blocks behind the read cursor are consumed, those
-- between the cursors hold bytes, those beyond the write cursor are empty.
use is.Prelude.{
  ℕ, zero, suc, ◌+◌, ◌-◌, ◌^◌, ◌≤◌, ◌<◌, ◌≡◌, refl, ◌⊎◌, List, [], ◌∷◌, ◌++◌, Option, none, some,
  length, get_elem?, take, drop,
}
pub mod Blocks
pub mod Cursors
pub mod Changes
pub mod Reads
pub mod Append
use is.Nbq.State.{Nb, Nbq, Iter}

pub record IsBlock (b : Nb) : Type 0 where
  pub sized : length b.buf ≡ b.len
  pub has_len : 0 < b.len
  pub small : b.len < 2 ^ 32
  pub read_le : b.read ≤ b.written
  pub written_le : b.written ≤ b.len

-- A block that the write cursor has left.
pub record IsUsed (b : Nb) : Type 0 where
  pub block : IsBlock b
  pub held : 0 < b.written

pub record IsSpare (b : Nb) : Type 0 where
  pub block : IsBlock b
  pub empty : b.written ≡ 0
  pub len_int32 : b.len < 2 ^ 31

abbrev pub Spare : List Nb → Type 0
Spare [] = Unit {0}
Spare (b ∷ q) = IsSpare b × Spare q

-- The blocks that follow the read cursor's.
abbrev pub Ahead : List Nb → Iter → Type 0
Ahead [] none = Unit {0}
Ahead [] (some w) = ⊥
Ahead (b ∷ q) none = IsUsed b × (b.read ≡ 0) × Ahead q none
Ahead (b ∷ q) (some zero) = IsBlock b × (b.read ≡ 0) × Spare q
Ahead (b ∷ q) (some (suc w)) = IsUsed b × (b.read ≡ 0) × Ahead q (some w)

-- The blocks from the first one on, with the write cursor and the read cursor's position.
abbrev pub Good : List Nb → Iter → ℕ → Type 0
Good [] w r = ⊥
Good (b ∷ q) none zero = IsUsed b × Ahead q none
Good (b ∷ q) none (suc r) = IsUsed b × (b.read ≡ b.written) × Good q none r
Good (b ∷ q) (some zero) zero = IsBlock b × Spare q
Good (b ∷ q) (some zero) (suc r) = ⊥
Good (b ∷ q) (some (suc w)) zero = IsUsed b × Ahead q (some w)
Good (b ∷ q) (some (suc w)) (suc r) = IsUsed b × (b.read ≡ b.written) × Good q (some w) r

abbrev pub Cursors : List Nb → Iter → Iter → Type 0
Cursors [] none none = Unit {0}
Cursors [] none (some r) = ⊥
Cursors [] (some w) r = ⊥
Cursors (b ∷ q) w none = ⊥
Cursors (b ∷ q) w (some r) = Good (b ∷ q) w r

-- The bytes that a block holds, those of it that are not yet consumed, and the same of a queue.
abbrev pub held_bytes : Nb → List ℕ
held_bytes b = take b.written b.buf

abbrev pub unread_bytes : Nb → List ℕ
unread_bytes b = drop b.read (held_bytes b)

unfoldable pub contents : List Nb → List ℕ
contents [] = []
contents (b ∷ q) = held_bytes b ++ contents q

unfoldable pub unread : List Nb → List ℕ
unread [] = []
unread (b ∷ q) = unread_bytes b ++ unread q

-- How many bytes are unread, as the blocks count them.
unfoldable pub avail : List Nb → ℕ
avail [] = 0
avail (b ∷ q) = (b.written - b.read) + avail q

-- An exhausted read block is left behind as soon as there is something to read.
abbrev pub IsReady : List Nb → Iter → Type 0
IsReady q none = Unit {0}
IsReady q (some r) = (b : Nb) → get_elem? q r ≡ some b → (b.read < b.written) ⊎ (avail q ≡ 0)

-- What the readers need.
pub record Readable (s : Nbq) : Type 0 where
  pub cursors : Cursors s.q s.cur_write_block s.cur_read_block
  pub ready : IsReady s.q s.cur_read_block
  pub counted : s.total_read_avail ≡ avail s.q
  pub bounded : avail s.q < 2 ^ 64

-- The writers need a write cursor too, and a block size that `int32_t` holds.
pub record Inv (s : Nbq) : Type 0 where
  pub readable : Readable s
  pub writable : s.cur_write_block ≡ none → s.q ≡ []
  pub positive : 0 < s.bsize
  pub block_size : s.bsize < 2 ^ 31
