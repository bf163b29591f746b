-- ===== src/Evr/Order.antt =====
-- The order in which the timers are run, and the time that the loop then waits.
use is.Prelude.{
  max, ℕ, zero, suc, ◌-◌, ◌%◌, ◌^◌, ◌≤◌, ◌<◌, ◌≡◌, refl, sym, ap, subst, List, [], ◌∷◌, Option,
  some, arith, inl, inr, ◌⊎◌, sub64, sub64_lem, count,
}
use is.Evr.State.{
  Event, Act, Loop, Fired, default_time_wait_ms, delete, read_clock, callback, dequeue_events,
}
use is.Evr.View.{raised, IsTop, popped, sound-Round, ran-Kept}
use is.Evr.Rounds.{first_of, fired, round_empty, round_cancelled, round_waits, round_fires}
use is.Evr.Sound.{Floor, queued_now, Every-some, Every, Every-bind, IsSound, IsClock}

-- The timers that were run: each was due, and one with an address below `old` is run after none that has a
-- later time.
unfoldable pub Ordered : Floor → List Fired → Type 0
Ordered t [] = Unit {0}
Ordered t (f ∷ fs) =
    (f.event < t.old → t.time ≤ f.time)
    × (f.time ≤ f.now)
    × Ordered (record t { time = max t.time f.time }) fs

module _ (clock : ℕ → ℕ) (acts : ℕ → ℕ → List Act) (top : (ℕ → Option Event) → List ℕ → ℕ) where
  -- A timer is left, and none that is left is due; the time to wait is that until the first one is, mod 2^32.
  pub record Waits (s : Loop) (wait : ℕ) : Type 0 where
    pub first : Event
    pub now : ℕ
    pub read : s.ticks ≡ suc now
    pub alive : s.heap (top s.heap s.event_pq) ≡ some first
    pub time : wait ≡ (first.time_ms - clock now) % 2 ^ 32
    pub due :
        (e : ℕ) (ev : Event) → 0 < count e s.event_pq → s.heap e ≡ some ev → clock now < ev.time_ms

  abbrev pub Rest : Loop → ℕ → Type 0
  Rest s wait = ((s.event_pq ≡ []) × (wait ≡ default_time_wait_ms)) ⊎ Waits s wait

  abbrev pub Served : Floor → Loop × ℕ × List Fired → Type 0
  Served t (s, wait, log) = Ordered t log × Rest s wait

  zero-Served : (s : Loop) (t : Floor) → Every (Served t) (dequeue_events clock acts top zero s)
  unfolding dequeue_events
  zero-Served s t = tt

  empty-Served : (s : Loop) (t : Floor) → s.event_pq ≡ [] → Served t (s, default_time_wait_ms, [])
  unfolding Ordered
  empty-Served s t e = (tt, inl (e, refl))

  -- A timer that was due is run, and then the rest.
  fired-Served :
      (fuel : ℕ) (s s2 : Loop) (t : Floor) (ev : Event)
      → (first_of top s < t.old → t.time ≤ ev.time_ms)
      → ev.time_ms ≤ clock s.ticks
      → Every
          (Served (raised t ev))
          (dequeue_events clock acts top fuel (delete (first_of top s) s2))
      → Every (Served t) (fired clock acts top fuel s ev s2)
  unfolding fired Ordered
  fired-Served fuel s s2 t ev l d h =
      let next = dequeue_events clock acts top fuel (delete (first_of top s) s2) in
      Every-bind (Served t) next _
        (λ r q. let (a, b) = Every-some (Served (raised t ev)) h q in ((l, d, a), b))

  -- A round that waits leaves the timers, and its time is up when the first one is due.
  waits-Served :
      (s : Loop) (t : Floor) (ev : Event)
      → IsTop top
      → IsSound s t
      → s.heap (top s.heap s.event_pq) ≡ some ev
      → clock s.ticks < ev.time_ms
      → ev.time_ms < 2 ^ 64
      → Served t (read_clock s, sub64 ev.time_ms (clock s.ticks) % 2 ^ 32, [])
  unfolding Ordered
  waits-Served s t ev p h a l u = (
    tt,
    inr (record {
      first = ev;
      now = s.ticks;
      read = refl;
      alive = a;
      time = ap (λ n. n % 2 ^ 32) (sub64_lem ev.time_ms (clock s.ticks) (omega arith) u);
      due = λ e b z k. omega (arith, p.least s.heap s.event_pq e ev b a z k);
    }),
  )

  dequeue_events-Served_from :
      (fuel : ℕ) (s : Loop) (t : Floor)
      → IsClock clock
      → IsTop top
      → IsSound s t
      → Every (Served t) (dequeue_events clock acts top fuel s)
  dequeue_events-Served_from zero s t c p h = zero-Served s t
  dequeue_events-Served_from (suc fuel) s t c p h = elim (sound-Round clock acts top s t p h) [
    | inl (y, e) ↦
        subst (Every (Served t)) (sym (round_empty clock acts top fuel s y)) (empty-Served s t e)
    | inr (inl d) ↦
        subst (Every (Served t)) (sym (round_cancelled clock acts top fuel s d.ev d.first d.state))
          (dequeue_events-Served_from fuel _ t c p d.rest)
    | inr (inr (inl w)) ↦
        subst (Every (Served t))
          (sym (round_waits clock acts top fuel s w.ev w.first w.state w.early))
          (waits-Served s t w.ev p h w.first.alive w.early w.small)
    | inr (inr (inr f)) ↦
        subst (Every (Served t))
          (sym (round_fires clock acts top fuel s f.ev f.first f.state f.due))
          (Every-bind (Served t) (callback clock acts f.ev (popped top s))
            (fired clock acts top fuel s f.ev)
            (λ s2 q. fired-Served fuel s s2 t f.ev f.later f.due (
              dequeue_events-Served_from fuel _ (raised t f.ev) c p
                (ran-Kept clock acts top s s2 t c f q))))
  ]

  -- In every call of `dequeue_events` that returns, from timers that are alive and queued once, with a
  -- clock that may be set back and stays 2^32 below 2^64, a queue that chooses a least timer and
  -- callbacks that add and cancel timers, each timer that is run was due by the clock read just before,
  -- and one that was queued at the start is run after none that has a later time; then no timer
  -- is left, or none that is left is due and the time to wait is that until the first one is, mod 2^32.
  pub dequeue_events-Served :
      (fuel : ℕ) (s : Loop)
      → IsClock clock
      → IsTop top
      → IsSound s (queued_now s)
      → Every (Served (queued_now s)) (dequeue_events clock acts top fuel s)
  dequeue_events-Served fuel s c p h = dequeue_events-Served_from fuel s (queued_now s) c p h
