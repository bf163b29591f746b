-- ===== src/Evr/Rounds.antt =====
-- One round of the loop of `dequeue_events`, by what the first timer is.
use is.Prelude.{
  ℕ, suc, ◌%◌, ◌^◌, ◌≤◌, ◌<◌, ◌≡◌, List, [], ◌∷◌, Option, some, true, false, ◌>>=◌, arith, sub64,
}
use is.Evr.State.{
  event_active, event_cancelled, Event, Act, Loop, Fired, event_magic, default_time_wait_ms, empty,
  pop, delete, read_clock, callback, dequeue_events,
}

-- The timer that the queue chooses.
abbrev pub first_of : ((ℕ → Option Event) → List ℕ → ℕ) → Loop → ℕ
first_of top s = top s.heap s.event_pq

module _ (clock : ℕ → ℕ) (acts : ℕ → ℕ → List Act) (top : (ℕ → Option Event) → List ℕ → ℕ) where
  pub round_empty :
      (fuel : ℕ) (s : Loop)
      → empty s.event_pq ≡ true
      → dequeue_events clock acts top (suc fuel) s ≡ some (s, default_time_wait_ms, [])
  unfolding dequeue_events
  round_empty fuel s y = ground (arith, y)

  -- The first timer is one of the loop's.
  pub record First (s : Loop) (ev : Event) : Type 0 where
    pub queue : empty s.event_pq ≡ false
    pub alive : s.heap (first_of top s) ≡ some ev
    pub marked : ev.magic ≡ event_magic

  pub round_cancelled :
      (fuel : ℕ) (s : Loop) (ev : Event)
      → First s ev
      → ev.state ≡ event_cancelled
      → dequeue_events clock acts top (suc fuel) s
        ≡ dequeue_events clock acts top fuel
            (delete (first_of top s) (pop (first_of top s) (read_clock s)))
  unfolding dequeue_events
  round_cancelled fuel s ev f x = ground (arith, f.queue, f.alive, f.marked, x)

  pub round_waits :
      (fuel : ℕ) (s : Loop) (ev : Event)
      → First s ev
      → ev.state ≡ event_active
      → clock s.ticks < ev.time_ms
      → dequeue_events clock acts top (suc fuel) s
        ≡ some (read_clock s, sub64 ev.time_ms (clock s.ticks) % 2 ^ 32, [])
  unfolding dequeue_events
  round_waits fuel s ev f x l = ground (arith, f.queue, f.alive, f.marked, x, l)

  unfoldable pub fired : ℕ → Loop → Event → Loop → Option (Loop × ℕ × List Fired)
  fired fuel s ev s2 = do
    (s3, wait, log) ← dequeue_events clock acts top fuel (delete (first_of top s) s2)
    some (s3, wait, record { event = first_of top s; time = ev.time_ms; now = clock s.ticks } ∷ log)

  pub round_fires :
      (fuel : ℕ) (s : Loop) (ev : Event)
      → First s ev
      → ev.state ≡ event_active
      → ev.time_ms ≤ clock s.ticks
      → dequeue_events clock acts top (suc fuel) s
        ≡ (callback clock acts ev (pop (first_of top s) (read_clock s)) >>= fired fuel s ev)
  unfolding dequeue_events fired
  round_fires fuel s ev f x l = ground (arith, f.queue, f.alive, f.marked, x, l)
