-- ===== src/Evr/Ends.antt =====
-- The loop of `dequeue_events` ends where the callbacks leave the timers alone.
use is.Prelude.{
  ◌≢◌, drop_one, false, ℕ, zero, suc, ◌<◌, ◌≡◌, ◌∙◌, List, [], ◌∷◌, Option, some, ◌>>=◌, arith,
  length, Option-cases, inl, inr, count, length-drop_one,
}
use is.Evr.State.{empty, Event, Act, Loop, Fired, delete, perform, callback, dequeue_events}
use is.Evr.Sound.{Floor, queued_now, Every-some, IsSound, IsClock}
use is.Evr.Rounds.{first_of, fired, round_empty, round_cancelled, round_waits, round_fires}
use is.Evr.View.{raised, IsTop, popped, sound-Round, delete-IsSound}
use is.Evr.Order.{Served, dequeue_events-Served}

module _ (clock : ℕ → ℕ) (acts : ℕ → ℕ → List Act) (top : (ℕ → Option Event) → List ℕ → ℕ) where
  abbrev pub IsQuiet : Type 0
  IsQuiet = (f d : ℕ) → acts f d ≡ []

  quiet_callback : (ev : Event) (s : Loop) → IsQuiet → callback clock acts ev s ≡ some s
  unfolding callback perform
  quiet_callback ev s q = elim (Option-cases ev.cb) [
    | inl x ↦ ground (arith, x)
    | inr (f, x) ↦ ground (arith, x, q f ev.data_ptr)
  ]

  abbrev pub Returned : ℕ → Loop → Type 0
  Returned fuel s = (r : Loop × ℕ × List Fired) × (dequeue_events clock acts top fuel s ≡ some r)

  fired-Returned :
      (fuel : ℕ) (s : Loop) (ev : Event)
      → IsQuiet
      → Returned fuel (delete (first_of top s) (popped top s))
      → (r : Loop × ℕ × List Fired) × ((callback clock acts ev (popped top s)
            >>= fired clock acts top fuel s ev)
          ≡ some r)
  unfolding fired
  fired-Returned fuel s ev q ((s3, wait, log), e) = (
    (s3, wait, record { event = first_of top s; time = ev.time_ms; now = clock s.ticks } ∷ log),
    ground (arith, quiet_callback ev (popped top s) q, e),
  )

  shorter :
      {fuel : ℕ} (s : Loop)
      → 0 < count (first_of top s) s.event_pq
      → length s.event_pq < suc fuel
      → length (drop_one (first_of top s) s.event_pq) < fuel
  shorter s z l = omega (arith, length-drop_one (first_of top s) s.event_pq z)

  not_empty : (s : Loop) → empty s.event_pq ≡ false → s.event_pq ≢ []
  unfolding empty
  not_empty s y e = ground (arith, y, e)

  pub dequeue_events-Returned :
      (fuel : ℕ) (s : Loop) (t : Floor)
      → IsQuiet
      → IsTop top
      → IsSound s t
      → length s.event_pq < fuel
      → Returned fuel s
  dequeue_events-Returned zero s t q p h l = absurd (omega arith)
  dequeue_events-Returned (suc fuel) s t q p h l = elim (sound-Round clock acts top s t p h) [
    | inl (y, e) ↦ (_, round_empty clock acts top fuel s y)
    | inr (inl d) ↦
        let (r, er) =
          dequeue_events-Returned fuel _ t q p d.rest
            (shorter s (p.queued s.heap s.event_pq (not_empty s d.first.queue)) l) in
        (r, round_cancelled clock acts top fuel s d.ev d.first d.state ∙ er)
    | inr (inr (inl w)) ↦ (_, round_waits clock acts top fuel s w.ev w.first w.state w.early)
    | inr (inr (inr f)) ↦
        let h2 =
          delete-IsSound (first_of top s) (popped top s) (raised t f.ev) f.sound f.gone.absent in
        let (r, er) =
          fired-Returned fuel s f.ev q
            (dequeue_events-Returned fuel _ (raised t f.ev) q p h2 (shorter s f.queued l)) in
        (r, round_fires clock acts top fuel s f.ev f.first f.state f.due ∙ er)
  ]

  -- Where the callbacks neither add nor cancel a timer, and the fuel is more than the number of timers,
  -- `dequeue_events` returns, from timers that are alive and queued once, with a clock that may be set back
  -- and stays 2^32 below 2^64 and a queue that chooses a least timer: each timer that is run was due by
  -- the clock read just before, and after none that has a later time, where it was queued at the start; then no
  -- timer is left, or none that is left is due and the time to wait is that until the first one is, mod 2^32.
  pub dequeue_events-ends :
      (fuel : ℕ) (s : Loop)
      → IsQuiet
      → IsClock clock
      → IsTop top
      → IsSound s (queued_now s)
      → length s.event_pq < fuel
      → (r : Loop × ℕ × List Fired) × (dequeue_events clock acts top fuel s ≡ some r)
        × Served clock acts top (queued_now s) r
  dequeue_events-ends fuel s q c p h n =
      let (r, e) = dequeue_events-Returned fuel s (queued_now s) q p h n in
      (
        r,
        e,
        Every-some (Served clock acts top (queued_now s))
            (dequeue_events-Served clock acts top fuel s c p h) e,
      )
