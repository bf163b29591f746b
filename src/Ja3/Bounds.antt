-- ===== src/Ja3/Bounds.antt =====
-- Where `extract_bytes` reads: at most two bytes past the length that it is given.
use is.Prelude.{
  ℕ, zero, suc, ◌+◌, ◌/◌, ◌%◌, ◌^◌, ◌≤◌, ◌<◌, ◌≡◌, refl, List, ltb, ◌==◌, length, drop, length-drop,
  arith, Bool-cases, inl, inr,
}
use is.Ja3.State.{Status, Ja3, Cur, Run, next, leave, done, fault, u8, u16, incr_by, push_cipher}
use is.Ja3.Parse.{
  ciphers, tail, client_hello, skip_byte, handshake, headers, is_hello, extract_bytes,
}
use is.Ja3.Safe.{Within, Safe, Safe-bind, Any, u8-Safe, incr_by-Safe, first-Safe, word-Safe}
use is.Ja3.Rounds.{No, extensions-Safe}

ciphers-Safe : (n k : ℕ) (c : Cur) → Within n c → Safe No (Within n) (ciphers k c)
unfolding ciphers
ciphers-Safe n zero c w = w
ciphers-Safe n (suc k) c w = Safe-bind No Any (Within n) (u16 c.mem) _ (word-Safe No n c w) (λ v x.
    Safe-bind No (Within n) (Within n) (incr_by 2 c) _ (incr_by-Safe No n 2 c w)
      (λ d y. ciphers-Safe n k (push_cipher v d) (record { room = y.room; bound = y.bound })))

tail-Safe : (fuel n : ℕ) (c : Cur) → Within n c → n ≤ fuel → Safe No No (tail fuel c)
unfolding tail
tail-Safe fuel n c w l =
    let W = Within n in
    Safe-bind No Any No (u8 c.mem) _ (first-Safe No n c w) (λ m x.
      Safe-bind No W No (incr_by 1 c) _ (incr_by-Safe No n 1 c w) (λ c1 w1.
        Safe-bind No W No (incr_by m c1) _ (incr_by-Safe No n m c1 w1) (λ c2 w2.
          Safe-bind No Any No (u16 c2.mem) _ (word-Safe No n c2 w2) (λ k y.
            Safe-bind No W No (incr_by 2 c2) _ (incr_by-Safe No n 2 c2 w2)
              (λ c3 w3. extensions-Safe fuel n c3 k w3 l)))))

client_hello-Safe :
    (fuel n : ℕ) (c : Cur) → Within n c → n ≤ fuel → Safe No No (client_hello fuel c)
unfolding client_hello
client_hello-Safe fuel n c w l = elim (Bool-cases (ltb c.left 2)) [
  | inl y ↦ rw y tt
  | inr y ↦ rw y (
      let W = Within n in
      Safe-bind No Any No (u16 c.mem) _ (word-Safe No n c w) (λ v x.
        Safe-bind No W No (incr_by 2 c) _ (incr_by-Safe No n 2 c w) (λ c1 w1.
          let c2 = record c1 { fp = record c1.fp { fp_ssl_version = v } } in
          Safe-bind No W No (incr_by 32 c2) _
            (incr_by-Safe No n 32 c2 (record { room = w1.room; bound = w1.bound }))
            (λ c3 w3. Safe-bind No Any No (u8 c3.mem) _ (first-Safe No n c3 w3) (λ k z.
              Safe-bind No W No (incr_by 1 c3) _ (incr_by-Safe No n 1 c3 w3) (λ c4 w4.
                Safe-bind No W No (incr_by k c4) _ (incr_by-Safe No n k c4 w4) (λ c5 w5.
                  Safe-bind No Any No (u16 c5.mem) _ (word-Safe No n c5 w5) (λ m u.
                    Safe-bind No W No (incr_by 2 c5) _ (incr_by-Safe No n 2 c5 w5) (λ c6 w6.
                      Safe-bind No W No (ciphers (m / 2) c6) _ (ciphers-Safe n (m / 2) c6 w6)
                        (λ c7 w7. tail-Safe fuel n c7 w7 l))))))))))
]

skip_byte-Safe : (n : ℕ) (c : Cur) → Within n c → Safe No (Within n) (skip_byte c)
unfolding skip_byte
skip_byte-Safe n c w =
    Safe-bind No Any (Within n) (u8 c.mem) _ (first-Safe No n c w) (λ b x. incr_by-Safe No n 1 c w)

handshake-Safe : (fuel n : ℕ) (c : Cur) → Within n c → n ≤ fuel → Safe No No (handshake fuel c)
unfolding handshake
handshake-Safe fuel n c w l =
    let W = Within n in
    Safe-bind No Any No (u8 c.mem) _ (first-Safe No n c w) (λ t x.
      Safe-bind No W No (incr_by 1 c) _ (incr_by-Safe No n 1 c w) (λ c1 w1.
        Safe-bind No W No (skip_byte c1) _ (skip_byte-Safe n c1 w1) (λ c2 w2.
          Safe-bind No W No (skip_byte c2) _ (skip_byte-Safe n c2 w2) (λ c3 w3.
            Safe-bind No W No (skip_byte c3) _ (skip_byte-Safe n c3 w3) (λ c4 w4.
              elim (Bool-cases (t == 0x01)) [
                | inl y ↦ rw y (client_hello-Safe fuel n c4 w4 l)
                | inr y ↦ rw y tt
              ])))))

headers-Safe : (fuel n : ℕ) (c : Cur) → Within n c → n ≤ fuel → Safe No No (headers fuel c)
unfolding headers
headers-Safe fuel n c w l = elim (Bool-cases (ltb c.left 5)) [
  | inl y ↦ rw y tt
  | inr y ↦ rw y (
      Safe-bind No (Within n) No (incr_by 5 c) _ (incr_by-Safe No n 5 c w) (λ c1 w1.
        elim (Bool-cases (ltb c1.left 4)) [
          | inl z ↦ rw z tt
          | inr z ↦ rw z (handshake-Safe fuel n c1 w1 l)
        ]))
]

is_hello-Safe : (mem : List ℕ) → 5 < length mem → Safe No (λ b. Unit {0}) (is_hello mem)
unfolding is_hello
is_hello-Safe mem l =
    Safe-bind No Any (λ b. Unit {0}) (u8 mem) _ (u8-Safe No mem (omega arith))
      (λ t x. elim (Bool-cases (t == 0x16)) [
        | inl y ↦ rw y (
            Safe-bind No Any (λ b. Unit {0}) (u8 (drop 5 mem)) _
              (u8-Safe No (drop 5 mem) (omega (arith, length-drop 5 mem))) (λ h z. tt))
        | inr y ↦ rw y tt
      ])

done_of : (r : Run Cur) → Safe No No r → (s : Status) × (p : Ja3) × (r ≡ done s p)
done_of (next c) h = absurd h
done_of (leave c) h = absurd h
done_of (done s p) h = (s, p, refl)
done_of fault h = absurd h

extract_bytes-Safe :
    (mem : List ℕ) (n : ℕ) (fp : Ja3) → n + 2 ≤ length mem → Safe No No (extract_bytes mem n fp)
unfolding extract_bytes
extract_bytes-Safe mem n fp l =
    let k = n % 2 ^ 16 in
    let room : k + 2 ≤ length mem = omega (arith, l) in
    elim (Bool-cases (ltb k 5)) [
      | inl y ↦ rw y tt
      | inr y ↦ rw y (
          Safe-bind No (λ b. Unit {0}) No (is_hello mem) _
            (is_hello-Safe mem (ground (arith, y, room)))
            (λ b x. elim (Bool-cases b) [
              | inl z ↦ rw z (
                  headers-Safe (suc k) (suc k) (record { mem = mem; left = k; fp = fp })
                    (record { room = room; bound = omega arith }) (omega arith))
              | inr z ↦ rw z tt
            ]))
    ]

-- Where two more bytes can be read behind the length that it is given, `extract_bytes` returns a status
-- on every input: it reads nothing past them, and its loops end.
pub extract_bytes-returns :
    (mem : List ℕ) (n : ℕ) (fp : Ja3)
    → n + 2 ≤ length mem
    → (s : Status) × (p : Ja3) × (extract_bytes mem n fp ≡ done s p)
extract_bytes-returns mem n fp l = done_of (extract_bytes mem n fp) (extract_bytes-Safe mem n fp l)
