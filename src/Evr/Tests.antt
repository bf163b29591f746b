-- ===== src/Evr/Tests.antt =====
-- Three timers at a clock that stands at 1000 and is set back: one is due, one is cancelled, and one is not yet due.
use is.Prelude.{
  ◌+◌, ◌^◌, true, ℕ, zero, suc, ◌≤◌, ◌<◌, ◌≡◌, ◌≢◌, refl, List, [], ◌∷◌, Option, none, some,
  if◌then◌else◌, ltb, ◌==◌, arith, count,
}
use is.Evr.State.{
  cancel_event, EventState, event_active, event_cancelled, Event, Act, Loop, Fired, event_magic,
  empty, dequeue_events, add,
}
use is.Evr.Sound.{Every, IsSound, IsTimer, IsClock, queued_now}
use is.Evr.View.{IsTop}
use is.Evr.Order.{Served, dequeue_events-Served}
use is.Evr.Cancelled.{Omitted, Omits, cancel_event-spares}
use is.Evr.Ends.{dequeue_events-ends}

-- It is set back after the second reading.
abbrev clock : ℕ → ℕ
clock zero = 1000
clock (suc zero) = 1001
clock (suc (suc k)) = 960

clock-early : (k : ℕ) → clock k + 2 ^ 32 ≤ 2 ^ 64
clock-early zero = omega arith
clock-early (suc zero) = omega arith
clock-early (suc (suc k)) = omega arith

clock-IsClock : IsClock clock
clock-IsClock = record { early = clock-early }

abbrev no_acts : ℕ → ℕ → List Act
no_acts f d = []

abbrev time_of : Option Event → ℕ
time_of none = 0
time_of (some ev) = ev.time_ms

-- A timer with the least time.
unfoldable soonest : (ℕ → Option Event) → List ℕ → ℕ
soonest h [] = 0
soonest h (e ∷ es) =
    let m = soonest h es in
    if empty es then e else if ltb (time_of (h e)) (time_of (h m)) then e else m

soonest-count :
    (h : ℕ → Option Event) (e : ℕ) (es : List ℕ) → 0 < count (soonest h (e ∷ es)) (e ∷ es)
unfolding soonest count empty
soonest-count h e [] = ground arith
soonest-count h e (f ∷ es) = ground (arith, soonest-count h f es)

soonest-le :
    (h : ℕ → Option Event) (es : List ℕ) (e : ℕ)
    → 0 < count e es
    → time_of (h (soonest h es)) ≤ time_of (h e)
unfolding soonest count empty
soonest-le h [] e z = absurd (omega arith)
soonest-le h (f ∷ []) e z = ground (arith, z)
soonest-le h (f ∷ (g ∷ es)) e z = ground (arith, z, soonest-le h (g ∷ es) e)

soonest-queued : (h : ℕ → Option Event) (q : List ℕ) → q ≢ [] → 0 < count (soonest h q) q
soonest-queued h [] n = absurd (n refl)
soonest-queued h (e ∷ es) n = soonest-count h e es

soonest-IsTop : IsTop soonest
soonest-IsTop = record {
  queued = soonest-queued;
  least = λ h q e a b ea z eb. ground (arith, soonest-le h q e z, ea, eb);
}

abbrev timer : ℕ → EventState → Event
timer t st = record { magic = event_magic; time_ms = t; cb = some 7; state = st; data_ptr = 1 }

abbrev three : Loop
three = record {
  heap = λ e.
      if e == 0
      then some (timer 900 event_active)
      else if e == 1
      then some (timer 950 event_cancelled)
      else if e == 2
      then some (timer 1500 event_active)
      else none;
  event_pq = 0 ∷ 1 ∷ 2 ∷ [];
  ticks = 0;
  next = 3;
}

three-IsTimer : (e : ℕ) → 0 < count e three.event_pq → IsTimer three (queued_now three) e
unfolding count
three-IsTimer zero z = record {
  event = timer 900 event_active;
  alive = refl;
  marked = refl;
  later = λ l. omega arith;
  small = omega arith;
}
three-IsTimer (suc zero) z = record {
  event = timer 950 event_cancelled;
  alive = refl;
  marked = refl;
  later = λ l. omega arith;
  small = omega arith;
}
three-IsTimer (suc (suc zero)) z = record {
  event = timer 1500 event_active;
  alive = refl;
  marked = refl;
  later = λ l. omega arith;
  small = omega arith;
}
three-IsTimer (suc (suc (suc e))) z = absurd (ground (arith, z))

three-IsSound : IsSound three (queued_now three)
unfolding count
three-IsSound = record {
  timers = three-IsTimer;
  once = λ e. ground arith;
  below = λ e z. ground (arith, z);
  start = omega arith;
}

dequeue_events-ends_example :
    (r : Loop × ℕ × List Fired) × (dequeue_events clock no_acts soonest 4 three ≡ some r)
    × Served clock no_acts soonest (queued_now three) r
dequeue_events-ends_example =
    dequeue_events-ends clock no_acts soonest 4 three (λ f d. refl) clock-IsClock soonest-IsTop
      three-IsSound (omega arith)

-- Every timer that is run adds another one, a second later.
abbrev adds : ℕ → ℕ → List Act
adds f d = add 1000 (some f) d ∷ []

dequeue_events-Served_example :
    Every (Served clock adds soonest (queued_now three)) (dequeue_events clock adds soonest 9 three)
dequeue_events-Served_example =
    dequeue_events-Served clock adds soonest 9 three clock-IsClock soonest-IsTop three-IsSound

cancel_event-spares_example :
    (s1 : Loop) × (cancel_event (some 0) three ≡ some (s1, true))
    × IsSound s1 (queued_now s1)
    × Every (Omits clock adds soonest 0) (dequeue_events clock adds soonest 9 s1)
    × ((r : Loop × ℕ × List Fired) × (dequeue_events clock (λ f d. []) soonest 4 s1 ≡ some r)
        × Omitted 0 r.2)
cancel_event-spares_example =
    cancel_event-spares clock adds soonest 9 three 0 clock-IsClock soonest-IsTop three-IsSound
      (unfold count in omega arith)
