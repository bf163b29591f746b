-- ===== src/Http/Slices.antt =====
-- Where the parts of a sound queue lie within its bytes, the copies that a message makes are those bytes.
use is.Prelude.{
  ℕ, ◌+◌, ◌-◌, ◌%◌, ◌^◌, ◌≤◌, ◌<◌, ◌≡◌, refl, ap, ◌∙◌, List, [], ◌∷◌, ◌++◌, append-nil, some,
  length, take, drop, length-take, length-drop, take_all, arith,
}
use is.Nbq.State.{Nbq}
use is.Nbq.Shape.{Readable, contents}
use is.Nbq.ReadFrom.{read_from-slice}
use is.Args.Parse.{Arg, arg}
use is.Http.State.{Cr}
use is.Http.Parts.{copy_part, copy_text, header_args}

-- The bytes of a part, which lie within those of the queue and are fewer than 2^32.
pub record Denotes (cs : List ℕ) (c : Cr) (bs : List ℕ) : Type 0 where
  pub slice : take c.len (drop c.off cs) ≡ bs
  pub within : c.off + c.len ≤ length cs
  pub short : c.len < 2 ^ 32

abbrev pub DenoteAll : List ℕ → List Cr → List (List ℕ) → Type 0
DenoteAll cs [] [] = Unit {0}
DenoteAll cs [] (b ∷ bs) = ⊥
DenoteAll cs (k ∷ ks) [] = ⊥
DenoteAll cs (k ∷ ks) (b ∷ bs) = Denotes cs k b × DenoteAll cs ks bs

-- The arguments of a list of keys and a list of values, as many as the shorter one has.
unfoldable pub pairs : List (List ℕ) → List (List ℕ) → List Arg
pairs [] vs = []
pairs (k ∷ ks) [] = []
pairs (k ∷ ks) (v ∷ vs) = arg (some k) (some v) ∷ pairs ks vs

-- A sound queue that holds certain bytes, fewer than 2^64.
pub record Holds (cs : List ℕ) (s : Nbq) : Type 0 where
  pub readable : Readable s
  pub bytes : contents s.q ≡ cs
  pub bounded : length cs < 2 ^ 64

length-slice : (off n : ℕ) (cs : List ℕ) → off + n ≤ length cs → length (take n (drop off cs)) ≡ n
length-slice off n cs h = omega (arith, length-take n (drop off cs), length-drop off cs)

pub copy_part-Denotes :
    (cs : List ℕ) (c : Cr) (bs : List ℕ) (s : Nbq)
    → Holds cs s
    → Denotes cs c bs
    → (s' : Nbq) × (copy_part c.off c.len s ≡ some (s', bs)) × Holds cs s'
unfolding copy_part
copy_part-Denotes cs c bs s h d =
    let (s', e, r, k, _) = read_from-slice s h.readable (rw h.bytes h.bounded) c.off c.len in
    let out : take c.len (drop c.off (contents s.q)) ≡ bs = rw h.bytes d.slice in
    let pad : c.len - length bs ≡ 0 =
      omega (arith, ap length d.slice, length-slice c.off c.len cs d.within) in
    (
      s',
      (rw (e, out, pad) (ap (λ o. some (s', o)) (append-nil bs))),
      record { readable = r; bytes = k ∙ h.bytes; bounded = h.bounded },
    )

copy_text-Denotes :
    (cs : List ℕ) (c : Cr) (bs : List ℕ) (s : Nbq)
    → Holds cs s
    → Denotes cs c bs
    → (s' : Nbq) × (copy_text c s ≡ some (s', bs)) × Holds cs s'
unfolding copy_text
copy_text-Denotes cs c bs s h d =
    let (s', e, h') = copy_part-Denotes cs c bs s h d in
    let n : length bs ≤ c.len % 2 ^ 32 =
      omega (arith, ap length d.slice, length-slice c.off c.len cs d.within, d.short) in
    (s', rw e (ap (λ o. some (s', o)) (take_all (c.len % 2 ^ 32) bs n)), h')

pub header_args-pairs :
    (cs : List ℕ) (ks vs : List Cr) (kb vb : List (List ℕ)) (s : Nbq)
    → Holds cs s
    → DenoteAll cs ks kb
    → DenoteAll cs vs vb
    → (s' : Nbq) × (header_args ks vs s ≡ some (s', pairs kb vb)) × Holds cs s'
unfolding header_args pairs
header_args-pairs cs [] vs [] vb s h d e = (s, refl, h)
header_args-pairs cs [] vs (b ∷ kb) vb s h d e = absurd d
header_args-pairs cs (k ∷ ks) vs [] vb s h d e = absurd d
header_args-pairs cs (k ∷ ks) [] (b ∷ kb) [] s h d e = (s, refl, h)
header_args-pairs cs (k ∷ ks) [] (b ∷ kb) (u ∷ vb) s h d e = absurd e
header_args-pairs cs (k ∷ ks) (v ∷ vs) (b ∷ kb) [] s h d e = absurd e
header_args-pairs cs (k ∷ ks) (v ∷ vs) (b ∷ kb) (u ∷ vb) s h (d, ds) (e, es) =
    let (s1, e1, h1) = copy_text-Denotes cs k b s h d in
    let (s2, e2, h2) = copy_text-Denotes cs v u s1 h1 e in
    let (s3, e3, h3) = header_args-pairs cs ks vs kb vb s2 h2 ds es in
    (s3, rw (e1, e2, e3) refl, h3)

pub DenoteAll-snoc :
    (cs : List ℕ) (ks : List Cr) (bs : List (List ℕ)) (k : Cr) (b : List ℕ)
    → DenoteAll cs ks bs
    → Denotes cs k b
    → DenoteAll cs (ks ++ k ∷ []) (bs ++ b ∷ [])
DenoteAll-snoc cs [] [] k b d e = (e, tt)
DenoteAll-snoc cs [] (c ∷ bs) k b d e = absurd d
DenoteAll-snoc cs (j ∷ ks) [] k b d e = absurd d
DenoteAll-snoc cs (j ∷ ks) (c ∷ bs) k b (d, ds) e = (d, DenoteAll-snoc cs ks bs k b ds e)
