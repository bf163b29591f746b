-- ===== src/Args/Parse.antt =====
-- `parse_args` of src/support/string_util.cc. `none` is fuel that ran out. The
-- model is that of buffers of fewer than 2^32 - 1 bytes, where neither `a_buf_len + 1` nor `i_char` wraps.
use is.Prelude.{
  ℕ, zero, suc, ◌+◌, List, [], ◌∷◌, ◌++◌, Option, none, some, Bool, true, false, ◌||◌,
  if◌then◌else◌, ◌==◌, length, drop,
}
use is.Args.Decode.{urldecode_ns}

-- `none` is NULL.
pub record Arg : Type 0 where
  pub key : Option (List ℕ)
  pub val : Option (List ℕ)

abbrev pub arg : Option (List ℕ) → Option (List ℕ) → Arg
arg k v = record { key = k; val = v }

-- The inner loops: what stands before the first character of the set, and the rest from there on.
unfoldable pub span : (ℕ → Bool) → List ℕ → List ℕ × List ℕ
span stop [] = ([], [])
span stop (c ∷ cs) =
    let rest = span stop cs in if stop c then ([], c ∷ cs) else (c ∷ rest.0, rest.1)

abbrev pub is_sep : ℕ → ℕ → Bool
is_sep sep c = c == sep

abbrev pub is_key_end : ℕ → ℕ → Bool
is_key_end sep c = c == b'=' || c == sep

-- A decoded key or value with the count of what is invalid; an empty one is NULL.
unfoldable pub decoded : List ℕ → ℕ → Option (List ℕ) × ℕ
unfolding urldecode_ns
decoded raw bad = elim (urldecode_ns raw) [
  | none ↦ (none, bad)
  | some (out, n) ↦ (some out, bad + n)
]

abbrev pub at_sep : ℕ → List ℕ → Bool
at_sep sep [] = false
at_sep sep (c ∷ cs) = c == sep

-- `in_val` is `l_status`, `key` is `l_arg.m_key`; the list is the buffer from `i_char` on. Each
-- round moves `i_char` at most one past the end of the buffer, which a buffer of fewer than 2^32 - 1 bytes leaves
-- below 2^32.
unfoldable pub parse_loop :
    ℕ → ℕ → Bool → Option (List ℕ) → ℕ → List Arg → List ℕ → Option (List Arg × ℕ)
parse_loop fuel sep in_val key bad out [] =
    some (if in_val then out ++ arg key none ∷ [] else out, bad)
parse_loop zero sep in_val key bad out (c ∷ cs) = none
parse_loop (suc fuel) sep true key bad out (c ∷ cs) =
    let (raw, rest) = span (is_sep sep) (c ∷ cs) in
    let (val, bad') = decoded raw bad in
    parse_loop fuel sep false none bad' (out ++ arg key val ∷ []) (drop 1 rest)
parse_loop (suc fuel) sep false key bad out (c ∷ cs) = elim (c == sep) [
  | true ↦ parse_loop fuel sep false key bad out cs
  | false ↦
      let (raw, rest) = span (is_key_end sep) (c ∷ cs) in
      let (key', bad') = decoded raw bad in
      elim (at_sep sep rest) [
        | true ↦ parse_loop fuel sep false none bad' (out ++ arg key' none ∷ []) (drop 1 rest)
        | false ↦ parse_loop fuel sep true key' bad' out (drop 1 rest)
      ]
]

-- For a buffer of fewer than 2^32 - 1 bytes, so that the copy has `a_buf_len + 1`. The arguments are put
-- behind those that the caller has; an empty buffer leaves the count too.
unfoldable pub parse_args : List Arg → ℕ → List ℕ → ℕ → Option (List Arg × ℕ)
unfolding parse_loop
parse_args out bad [] sep = some (out, bad)
parse_args out bad (c ∷ cs) sep = parse_loop (suc (length cs)) sep false none 0 out (c ∷ cs)
