-- ===== src/Http/Parts.antt =====
-- The copies that a message makes of the parts of its queue: `copy_part` of src/support/nbq.cc and `get_header_list`
-- of src/srvr/hmsg.cc. `none` is a null queue that is followed, or a queue that is not sound.
use is.Prelude.{
  ℕ, ◌-◌, ◌%◌, ◌^◌, List, [], ◌∷◌, ◌++◌, Option, none, some, ◌>>=◌, length, take, replicate,
}
use is.Nbq.State.{Nbq}
use is.Nbq.Ops.{read_from}
use is.Args.Parse.{Arg, arg}
use is.Http.State.{Cr, Msg}

-- The buffer is zeroed before it is read into; the byte after it is not part of it.
unfoldable pub copy_part : ℕ → ℕ → Nbq → Option (Nbq × List ℕ)
copy_part off len s = do
  (s', out, n) ← read_from off len s
  some (s', out ++ replicate (len - length out) 0)

-- The length is kept in 32 bits.
unfoldable pub copy_text : Cr → Nbq → Option (Nbq × List ℕ)
copy_text c s = do (s', buf) ← copy_part c.off c.len s; some (s', take (c.len % 2 ^ 32) buf)

-- The loop of `get_header_list`, which ends with the shorter list.
unfoldable pub header_args : List Cr → List Cr → Nbq → Option (Nbq × List Arg)
header_args [] vs s = some (s, [])
header_args (k ∷ ks) [] s = some (s, [])
header_args (k ∷ ks) (v ∷ vs) s = do
  (s1, key) ← copy_text k s
  (s2, val) ← copy_text v s1
  (s3, args) ← header_args ks vs s2
  some (s3, arg (some key) (some val) ∷ args)

unfoldable pub get_header_list : Msg → Option (Msg × List Arg)
get_header_list m = elim m.header_list as (λ x. Option (Msg × List Arg)) [
  | some args ↦ some (m, args)
  | none ↦ do
    s ← m.q
    (s', args) ← header_args m.p_h_list_key m.p_h_list_val s
    some (record m { q = some s'; header_list = some args }, args)
]
