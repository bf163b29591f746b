-- ===== src/Evr/State.antt =====
-- The timers of the class `evr_loop` of src/evr/evr.cc. A timer is named by its address, and one that
-- is deleted is `none` in the heap; to follow its address is undefined, and makes the result `none`.
-- What stands for code outside: `clock` gives the readings of `get_time_ms` one after the other, `top` is the
-- choice of the priority queue, and `acts` gives the calls that a callback with its data makes on
-- the loop.
use is.Prelude.{
  ℕ, zero, suc, ◌%◌, ◌^◌, List, [], ◌∷◌, Option, none, some, Bool, true, false, ltb, ◌==◌, ◌>>=◌,
  add64, sub64, drop_one,
}
use is.Lru.State.{put_id}

pub data EventState : Type 0 where
  event_active : EventState
  event_cancelled : EventState

pub record Event : Type 0 where
  pub magic : ℕ
  pub time_ms : ℕ
  pub cb : Option ℕ
  pub state : EventState
  pub data_ptr : ℕ

-- The calls that a callback makes: a timer with a delay, a callback and data, or the end of a timer.
pub data Act : Type 0 where
  add : ℕ → Option ℕ → ℕ → Act
  cancel : ℕ → Act

-- `ticks` is the number of readings of the clock, and `next` the address of the next timer.
pub record Loop : Type 0 where
  pub heap : ℕ → Option Event
  pub event_pq : List ℕ
  pub ticks : ℕ
  pub next : ℕ

abbrev pub event_magic : ℕ
event_magic = 3735931646

abbrev pub default_time_wait_ms : ℕ
default_time_wait_ms = 4294967295

-- A timer that was run: its address, its time, and the time of the clock.
pub record Fired : Type 0 where
  pub event : ℕ
  pub time : ℕ
  pub now : ℕ

unfoldable pub empty : List ℕ → Bool
empty [] = true
empty (e ∷ es) = false

abbrev pub read_clock : Loop → Loop
read_clock s = record s { ticks = suc s.ticks }

abbrev pub pop : ℕ → Loop → Loop
pop e s = record s { event_pq = drop_one e s.event_pq }

abbrev pub delete : ℕ → Loop → Loop
delete e s = record s { heap = put_id s.heap e none }

unfoldable pub cancel_event : Option ℕ → Loop → Option (Loop × Bool)
cancel_event none s = some (s, false)
cancel_event (some e) s = do
  ev ← s.heap e
  some (
    record s {
      heap =
          put_id s.heap e (some (record ev { cb = none; state = event_cancelled; data_ptr = 0 }));
    },
    true,
  )

module _ (clock : ℕ → ℕ) where
  -- With the address that `*ao_event` gets.
  unfoldable pub add_event : ℕ → Option ℕ → ℕ → Loop → Loop × ℕ
  add_event t cb d s =
      let ev : Event = record {
        magic = event_magic;
        time_ms = add64 (clock s.ticks) (t % 2 ^ 32);
        cb = cb;
        state = event_active;
        data_ptr = d;
      } in
      (
        record {
          heap = put_id s.heap s.next (some ev);
          event_pq = s.next ∷ s.event_pq;
          ticks = suc s.ticks;
          next = suc s.next;
        },
        s.next,
      )

  unfoldable pub perform : List Act → Loop → Option Loop
  perform [] s = some s
  perform (add t cb d ∷ ks) s = perform ks (add_event t cb d s).0
  perform (cancel e ∷ ks) s = do (s1, ok) ← cancel_event (some e) s; perform ks s1

  module _ (acts : ℕ → ℕ → List Act) where
    unfoldable pub callback : Event → Loop → Option Loop
    callback ev s = elim ev.cb [ none ↦ some s | some f ↦ perform (acts f ev.data_ptr) s ]

    module _ (top : (ℕ → Option Event) → List ℕ → ℕ) where
      -- On fuel for the loop: the loop, the time to wait, and the timers that were run.
      unfoldable pub dequeue_events : ℕ → Loop → Option (Loop × ℕ × List Fired)
      dequeue_events zero s = none
      dequeue_events (suc fuel) s = elim (empty s.event_pq) [
        | true ↦ some (s, default_time_wait_ms, [])
        | false ↦ do
          let now = clock s.ticks
          let e = top s.heap s.event_pq
          let s1 = read_clock s
          ev ← s.heap e
          elim (ev.magic == event_magic) [
            | false ↦ dequeue_events fuel (pop e s1)
            | true ↦ elim ev.state [
              | event_cancelled ↦ dequeue_events fuel (delete e (pop e s1))
              | event_active ↦ elim (ltb now ev.time_ms) [
                | true ↦ some (s1, sub64 ev.time_ms now % 2 ^ 32, [])
                | false ↦ do
                  s2 ← callback ev (pop e s1)
                  (s3, wait, log) ← dequeue_events fuel (delete e s2)
                  some (s3, wait, record { event = e; time = ev.time_ms; now = now } ∷ log)
              ]
            ]
          ]
      ]
