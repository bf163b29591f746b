-- ===== src/Pool/Reuse.antt =====
-- Which connection `get_idle` hands out.
use is.Prelude.{
  count, ℕ, ◌<◌, ◌≡◌, ◌≢◌, ap, ◌∙◌, List, [], ◌∷◌, Option, none, some, true, ◌==◌, arith,
  Bool-cases, Option-cases, inl, inr, str_eq, str_eq_iff,
}
use is.Lru.Entries.{Entry, oldest}
use is.Lru.Ideal.{step, ideal_step, take_one-Follows}
use is.Pool.State.{Conn, Pool, add_active, get_idle}
use is.Pool.Counts.{items, Labelled}
use is.Pool.Ledger.{Ledger}

-- The connections of a list from the last one on: the first that has the label.
oldest-Labelled :
    (f : ℕ → Conn) (l : List ℕ) (es : List (Entry ℕ)) (e : Entry ℕ)
    → Labelled f es
    → oldest l es ≡ some e
    → ((f e.item).label ≡ l) × (0 < count e.item (items es))
unfolding oldest Labelled count items
oldest-Labelled f l [] e h x = cc
oldest-Labelled f l (d ∷ es) e (h, k, hs) x = elim (Option-cases (oldest l es)) [
  | inl z ↦
      let y : str_eq d.label l ≡ true = ground (arith, x, z) in
      let same : d ≡ e = ground (arith, x, z, y) in
      (ground (arith, same, h, y, str_eq_iff d.label l), ground (arith, same))
  | inr (c, ec) ↦
      let same : c ≡ e = ground (arith, x, ec) in
      let (a, b) = oldest-Labelled f l es e hs (ec ∙ ap some same) in (a, omega (arith, b))
]

oldest-none :
    (f : ℕ → Conn) (l : List ℕ) (es : List (Entry ℕ)) (c : ℕ)
    → Labelled f es
    → oldest l es ≡ none
    → 0 < count c (items es)
    → (f c).label ≢ l
unfolding oldest Labelled count items
oldest-none f l [] c h x z = absurd (omega arith)
oldest-none f l (d ∷ es) c (h, k, hs) x z = elim (Bool-cases (c == d.item)) [
  | inl y ↦ λ e. ground (arith, x, y, h, e, str_eq_iff d.label l)
  | inr y ↦ oldest-none f l es c hs (ground (arith, x)) (ground (arith, y, z))
]

-- On a pool with a ledger `get_idle` always returns: a connection that was idle, with the label that
-- is asked for, or none, and then no idle connection has the label.
pub get_idle-label :
    (l : List ℕ) (p : Pool) (es : List (Entry ℕ)) (held made : List ℕ)
    → Ledger p es held none made
    → (q : Pool) × (out : Option ℕ) × (get_idle l p ≡ some (q, out))
      × ((c : ℕ) → out ≡ some c → ((p.conns c).label ≡ l) × (0 < count c (items es)))
      × (out ≡ none → (c : ℕ) → 0 < count c (items es) → (p.conns c).label ≢ l)
unfolding get_idle step ideal_step
get_idle-label l p es held made g =
    let f = take_one-Follows p.idle_conn_lru es l g.idle g.within in
    let p1 : Pool = record p { idle_conn_lru = f.t } in
    elim (Option-cases (oldest l es)) [
      | inl e ↦ (
        p1,
        none,
        ground (arith, f.result, e),
        λ c x. cc,
        λ x c z. oldest-none p.conns l es c g.labelled e z,
      )
      | inr (e, eo) ↦
          let h = oldest-Labelled p.conns l es e g.labelled eo in
          (
            add_active e.item p1,
            some e.item,
            ground (arith, f.result, eo),
            λ c x. ground (arith, x, h.0, h.1),
            λ x c z. cc,
          )
    ]
