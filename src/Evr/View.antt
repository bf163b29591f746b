-- ===== src/Evr/View.antt =====
-- What the next round of the loop is, from sound timers.
use is.Prelude.{
  max, ℕ, ◌^◌, ◌≤◌, ◌<◌, ◌≡◌, ◌≢◌, refl, List, [], ◌∷◌, Option, some, true, false, ltb, arith,
  Bool-cases, Option-cases, inl, inr, ◌⊎◌, count, count-drop_one,
}
use is.Evr.State.{
  EventState, event_active, event_cancelled, Event, Act, Loop, empty, pop, delete, read_clock,
  callback,
}
use is.Evr.Rounds.{First, first_of}
use is.Evr.Sound.{Floor, Every, Every-some, IsSound, IsGone, IsClock, Kept, perform-Kept}

empty_cases : (xs : List ℕ) → ((empty xs ≡ true) × (xs ≡ [])) ⊎ ((empty xs ≡ false) × (xs ≢ []))
unfolding empty
empty_cases [] = inl (refl, refl)
empty_cases (x ∷ xs) = inr (refl, λ e. cc)

state_cases : (st : EventState) → (st ≡ event_active) ⊎ (st ≡ event_cancelled)
state_cases event_active = inl refl
state_cases event_cancelled = inr refl

-- After a timer is taken off, the others are not due before it.
abbrev pub raised : Floor → Event → Floor
raised t ev = record t { time = max t.time ev.time_ms }

later-IsSound : (s : Loop) (t : Floor) (ev : Event) → IsSound s (raised t ev) → IsSound s t
later-IsSound s t ev h = record {
  timers = λ e z.
      let o = h.timers e z in
      record {
        event = o.event;
        alive = o.alive;
        marked = o.marked;
        later = λ l. omega (arith, o.later l);
        small = o.small;
      };
  once = h.once;
  below = h.below;
  start = h.start;
}

pub delete-IsSound :
    (e : ℕ) (s : Loop) (t : Floor) → IsSound s t → count e s.event_pq ≡ 0 → IsSound (delete e s) t
delete-IsSound e s t h z = record {
  timers = λ f k.
      let o = h.timers f k in
      record {
        event = o.event;
        alive = ground (arith, o.alive, z, k);
        marked = o.marked;
        later = o.later;
        small = o.small;
      };
  once = h.once;
  below = h.below;
  start = h.start;
}

-- The queue's choice is a queued timer, and no queued one is due before it.
pub record IsTop (top : (ℕ → Option Event) → List ℕ → ℕ) : Type 0 where
  pub queued : (h : ℕ → Option Event) (q : List ℕ) → q ≢ [] → 0 < count (top h q) q
  pub least :
      (h : ℕ → Option Event) (q : List ℕ) (e : ℕ) (a b : Event)
      → h (top h q) ≡ some a
      → 0 < count e q
      → h e ≡ some b
      → a.time_ms ≤ b.time_ms

-- The loop after the clock is read and the first timer taken off.
abbrev pub popped : ((ℕ → Option Event) → List ℕ → ℕ) → Loop → Loop
popped top s = pop (first_of top s) (read_clock s)

module _ (clock : ℕ → ℕ) (acts : ℕ → ℕ → List Act) (top : (ℕ → Option Event) → List ℕ → ℕ) where
  pop-IsSound :
      (s : Loop) (t : Floor) (ev : Event)
      → IsTop top
      → IsSound s t
      → s.heap (top s.heap s.event_pq) ≡ some ev
      → 0 < count (top s.heap s.event_pq) s.event_pq
      → IsSound (pop (top s.heap s.event_pq) (read_clock s)) (raised t ev)
  pop-IsSound s t ev p h a z =
      let e = top s.heap s.event_pq in
      let k = λ (f : ℕ). count-drop_one f e s.event_pq z in
      record {
        timers = λ f y.
            let n : 0 < count f s.event_pq = omega (arith, y, k f) in
            let o = h.timers f n in
            record {
              event = o.event;
              alive = o.alive;
              marked = o.marked;
              later =
                  λ l. omega (arith, p.least s.heap s.event_pq f ev o.event a n o.alive, o.later l);
              small = o.small;
            };
        once = λ f. omega (arith, h.once f, k f);
        below = λ f y. h.below f (omega (arith, y, k f));
        start = h.start;
      }

  pop-IsGone :
      (s : Loop) (t : Floor) (e : ℕ)
      → IsSound s t
      → 0 < count e s.event_pq
      → IsGone (pop e (read_clock s)) e
  pop-IsGone s t e h z = record {
    absent = ground (arith, count-drop_one e e s.event_pq z, h.once e);
    used = h.below e z;
  }

  pub callback-Kept :
      (ev : Event) (s : Loop) (t : Floor) (e : ℕ)
      → IsClock clock
      → Kept clock t e s
      → Every (Kept clock t e) (callback clock acts ev s)
  unfolding callback
  callback-Kept ev s t e c h = elim (Option-cases ev.cb) [
    | inl x ↦ rw x h
    | inr (f, x) ↦ rw x (perform-Kept clock (acts f ev.data_ptr) s t e c h)
  ]

  -- The first timer is cancelled, and is deleted.
  pub record Drops (s : Loop) (t : Floor) : Type 0 where
    pub ev : Event
    pub first : First clock acts top s ev
    pub state : ev.state ≡ event_cancelled
    pub rest : IsSound (delete (first_of top s) (popped top s)) t

  -- The first timer is not due.
  pub record Holds (s : Loop) : Type 0 where
    pub ev : Event
    pub first : First clock acts top s ev
    pub state : ev.state ≡ event_active
    pub early : clock s.ticks < ev.time_ms
    pub small : ev.time_ms < 2 ^ 64

  -- The first timer is due.
  pub record Fires (s : Loop) (t : Floor) : Type 0 where
    pub ev : Event
    pub first : First clock acts top s ev
    pub state : ev.state ≡ event_active
    pub due : ev.time_ms ≤ clock s.ticks
    pub later : first_of top s < t.old → t.time ≤ ev.time_ms
    pub sound : IsSound (popped top s) (raised t ev)
    pub gone : IsGone (popped top s) (first_of top s)
    pub queued : 0 < count (first_of top s) s.event_pq

  abbrev pub Round : Loop → Floor → Type 0
  Round s t = ((empty s.event_pq ≡ true) × (s.event_pq ≡ [])) ⊎ (Drops s t ⊎ (Holds s ⊎ Fires s t))

  pub sound-Round : (s : Loop) (t : Floor) → IsTop top → IsSound s t → Round s t
  sound-Round s t p h = elim (empty_cases s.event_pq) [
    | inl k ↦ inl k
    | inr (y, n) ↦
        let e = top s.heap s.event_pq in
        let z : 0 < count e s.event_pq = p.queued s.heap s.event_pq n in
        let o = h.timers e z in
        let ev = o.event in
        let f : First clock acts top s ev = record {
          queue = y;
          alive = o.alive;
          marked = o.marked;
        } in
        let h1 : IsSound (popped top s) (raised t ev) = pop-IsSound s t ev p h o.alive z in
        let g1 : IsGone (popped top s) e = pop-IsGone s t e h z in
        elim (state_cases ev.state) [
          | inr x ↦ inr (
              inl (record {
                ev = ev;
                first = f;
                state = x;
                rest =
                    delete-IsSound e (popped top s) t (later-IsSound (popped top s) t ev h1)
                      g1.absent;
              }))
          | inl x ↦ elim (Bool-cases (ltb (clock s.ticks) ev.time_ms)) [
            | inl w ↦ inr (
                inr (
                  inl (record {
                    ev = ev;
                    first = f;
                    state = x;
                    early = ground (arith, w);
                    small = o.small;
                  })))
            | inr w ↦ inr (
                inr (
                  inr (record {
                    ev = ev;
                    first = f;
                    state = x;
                    due = ground (arith, w);
                    later = o.later;
                    sound = h1;
                    gone = g1;
                    queued = z;
                  })))
          ]
        ]
  ]

  -- What is left when a timer that was due has run.
  pub ran-Kept :
      (s s2 : Loop) (t : Floor)
      → IsClock clock
      → (f : Fires s t) → callback clock acts f.ev (popped top s) ≡ some s2
      → IsSound (delete (first_of top s) s2) (raised t f.ev)
  ran-Kept s s2 t c f q =
      let e = first_of top s in
      let k : Kept clock (raised t f.ev) e (popped top s) = record {
        sound = f.sound;
        gone = f.gone;
      } in
      let k2 =
        Every-some (Kept clock (raised t f.ev) e)
          (callback-Kept f.ev (popped top s) (raised t f.ev) e c k) q in
      delete-IsSound e s2 (raised t f.ev) k2.sound k2.gone.absent
