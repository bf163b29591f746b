-- ===== src/Ja3/State.antt =====
-- The class `ja3` of include/is2/support/ja3.h and src/support/ja3.cc, and the reads of `extract_bytes`. Memory is
-- the list of the bytes from a pointer on; a read past its end is `fault`.
use is.Prelude.{ℕ, ◌+◌, ◌-◌, ◌*◌, ◌%◌, ◌^◌, List, [], ◌∷◌, ◌++◌, if◌then◌else◌, ltb, leb, drop}

pub data Status : Type 0 where
  status_ok : Status
  status_error : Status

pub record Ja3 : Type 0 where
  pub fp_ssl_version : ℕ
  pub fp_cipher_list : List ℕ
  pub fp_ssl_ext_list : List ℕ
  pub fp_ec_curve_list : List ℕ
  pub fp_ec_pt_format_list : List ℕ
  pub str : List ℕ
  pub md5 : List ℕ

-- The constructor, and `reset`.
abbrev pub new_ja3 : Ja3
new_ja3 = record {
  fp_ssl_version = 0;
  fp_cipher_list = [];
  fp_ssl_ext_list = [];
  fp_ec_curve_list = [];
  fp_ec_pt_format_list = [];
  str = [];
  md5 = [];
}

-- The memory from `l_cur` on, `l_left`, and the object.
pub record Cur : Type 0 where
  pub mem : List ℕ
  pub left : ℕ
  pub fp : Ja3

-- What a part of the code comes to: it goes on, it leaves the loop around it, or it returns.
-- `fault` is a read past the memory, or the end of the fuel.
pub data Run {ℓ} (A : Type ℓ) : Type ℓ where
  next : A → Run A
  leave : Cur → Run A
  done : Status → Ja3 → Run A
  fault : Run A

infixl 5 ◌>>=◌
abbrev pub ◌>>=◌ {ℓ κ} : {A : Type ℓ} {B : Type κ} → Run A → (A → Run B) → Run B
next a >>= f = f a
leave c >>= f = leave c
done s p >>= f = done s p
fault >>= f = fault

unfoldable pub u8 : List ℕ → Run ℕ
u8 [] = fault
u8 (x ∷ xs) = next x

-- `ntohs` of the two bytes at the pointer.
unfoldable pub u16 : List ℕ → Run ℕ
u16 [] = fault
u16 (x ∷ []) = fault
u16 (x ∷ (y ∷ xs)) = next (x * 256 + y)

-- `_INCR_BY`, with some bytes left.
unfoldable pub incr_by : ℕ → Cur → Run Cur
incr_by n c =
    if leb c.left n
    then done status_error c.fp
    else next (record c { mem = drop n c.mem; left = c.left - n })

unfoldable pub sub16 : ℕ → ℕ → ℕ
sub16 a b = (a + 2 ^ 16 - b) % 2 ^ 16

-- `_INCR_EXT_BY`, with `l_ext_left`. The `break` of the macro leaves the `do` of the macro only.
unfoldable pub incr_ext_by : ℕ → Cur × ℕ → Run (Cur × ℕ)
incr_ext_by n (c, ext_left) =
    if ltb c.left n
    then done status_ok c.fp
    else next (record c { mem = drop n c.mem; left = c.left - n }, sub16 ext_left n)

abbrev pub push_cipher : ℕ → Cur → Cur
push_cipher v c = record c { fp = record c.fp { fp_cipher_list = c.fp.fp_cipher_list ++ v ∷ [] } }

abbrev pub push_ext : ℕ → Cur → Cur
push_ext v c = record c { fp = record c.fp { fp_ssl_ext_list = c.fp.fp_ssl_ext_list ++ v ∷ [] } }

abbrev pub push_curve : ℕ → Cur → Cur
push_curve v c = record c {
  fp = record c.fp { fp_ec_curve_list = c.fp.fp_ec_curve_list ++ v ∷ [] };
}

abbrev pub push_format : ℕ → Cur → Cur
push_format v c = record c {
  fp = record c.fp { fp_ec_pt_format_list = c.fp.fp_ec_pt_format_list ++ v ∷ [] };
}
