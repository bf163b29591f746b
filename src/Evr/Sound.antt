-- ===== src/Evr/Sound.antt =====
-- What the calls of the event loop keep: the queued timers are alive, and each is queued once.
use is.Prelude.{
  ℕ, ◌+◌, ◌%◌, ◌^◌, ◌≤◌, ◌<◌, ◌≡◌, refl, subst, List, [], ◌∷◌, Option, none, some, ◌==◌, ◌>>=◌,
  arith, Bool-cases, Option-cases, inl, inr, add64, add64_lem, count,
}
use is.Lru.State.{put_id}
use is.Evr.State.{
  event_active, event_cancelled, Event, Act, add, cancel, Loop, event_magic, cancel_event,
  add_event, perform,
}

-- A result, if there is one, has a property.
abbrev pub Every {ℓ κ} : {A : Type ℓ} → (A → Type κ) → Option A → Type κ
Every P none = Unit
Every P (some x) = P x

pub Every-bind {ℓ κ μ} :
    {A : Type ℓ} {B : Type κ} (P : B → Type μ) (o : Option A) (f : A → Option B)
    → ((x : A) → o ≡ some x → Every P (f x))
    → Every P (o >>= f)
Every-bind P none f h = tt
Every-bind P (some x) f h = h x refl

pub Every-some {ℓ κ} :
    {A : Type ℓ} (P : A → Type κ) {o : Option A} {x : A} → Every P o → o ≡ some x → P x
Every-some P h e = subst (Every P) e h

-- The timers with an address below `old` are not due before `time`.
pub record Floor : Type 0 where
  pub old : ℕ
  pub time : ℕ

-- A queued timer is alive, is one of the loop's, and keeps to the floor.
pub record IsTimer (s : Loop) (t : Floor) (e : ℕ) : Type 0 where
  pub event : Event
  pub alive : s.heap e ≡ some event
  pub marked : event.magic ≡ event_magic
  pub later : e < t.old → t.time ≤ event.time_ms
  pub small : event.time_ms < 2 ^ 64

pub record IsSound (s : Loop) (t : Floor) : Type 0 where
  pub timers : (e : ℕ) → 0 < count e s.event_pq → IsTimer s t e
  pub once : (e : ℕ) → count e s.event_pq ≤ 1
  pub below : (e : ℕ) → 0 < count e s.event_pq → e < s.next
  pub start : t.old ≤ s.next

-- All the timers that are queued.
abbrev pub queued_now : Loop → Floor
queued_now s = record { old = s.next; time = 0 }

-- A timer that is not queued, and whose address is not given to another one.
pub record IsGone (s : Loop) (e : ℕ) : Type 0 where
  pub absent : count e s.event_pq ≡ 0
  pub used : e < s.next

module _ (clock : ℕ → ℕ) where
  -- The clock, which may be set back, is far from the end of 64 bits.
  pub record IsClock : Type 0 where
    pub early : (k : ℕ) → clock k + 2 ^ 32 ≤ 2 ^ 64

  add_event-IsSound :
      (t : ℕ) (cb : Option ℕ) (d : ℕ) (s : Loop) (last : Floor)
      → IsClock
      → IsSound s last
      → IsSound (add_event clock t cb d s).0 last
  unfolding add_event count
  add_event-IsSound t cb d s last c h =
      let lt : add64 (clock s.ticks) (t % 2 ^ 32) ≡ clock s.ticks + t % 2 ^ 32 =
        add64_lem (clock s.ticks) (t % 2 ^ 32) (omega (arith, c.early s.ticks)) in
      record {
        timers = λ e z. elim (Bool-cases (s.next == e)) [
          | inl y ↦ record {
            event = record {
              magic = event_magic;
              time_ms = add64 (clock s.ticks) (t % 2 ^ 32);
              cb = cb;
              state = event_active;
              data_ptr = d;
            };
            alive = ground (arith, y);
            marked = refl;
            later = λ l. absurd (ground (arith, y, l, h.start));
            small = omega (arith, lt, c.early s.ticks);
          }
          | inr y ↦
              let o = h.timers e (ground (arith, y, z)) in
              record {
                event = o.event;
                alive = ground (arith, y, o.alive);
                marked = o.marked;
                later = o.later;
                small = o.small;
              }
        ];
        once = λ e. ground (arith, h.once e, h.below e);
        below = λ e z. ground (arith, h.below e, z);
        start = omega (arith, h.start);
      }

  abbrev pub cancelled : Event → Event
  cancelled ev = record ev { cb = none; state = event_cancelled; data_ptr = 0 }

  pub cancel_event-IsSound :
      (e : ℕ) (s : Loop) (ev : Event) (last : Floor)
      → IsSound s last
      → s.heap e ≡ some ev
      → IsSound (record s { heap = put_id s.heap e (some (cancelled ev)) }) last
  cancel_event-IsSound e s ev last h k = record {
    timers = λ f z.
        let o = h.timers f z in
        elim (Bool-cases (e == f)) [
          | inl y ↦ record {
            event = cancelled ev;
            alive = ground (arith, y);
            marked = ground (arith, y, k, o.alive, o.marked);
            later = λ l. ground (arith, y, k, o.alive, o.later l);
            small = ground (arith, y, k, o.alive, o.small);
          }
          | inr y ↦ record {
            event = o.event;
            alive = ground (arith, y, o.alive);
            marked = o.marked;
            later = o.later;
            small = o.small;
          }
        ];
    once = h.once;
    below = h.below;
    start = h.start;
  }

  -- The calls of a callback keep the queue sound, and put no timer back that is gone.
  pub record Kept (last : Floor) (e : ℕ) (s : Loop) : Type 0 where
    pub sound : IsSound s last
    pub gone : IsGone s e

  pub perform-Kept :
      (ks : List Act) (s : Loop) (last : Floor) (e : ℕ)
      → IsClock
      → Kept last e s
      → Every (Kept last e) (perform clock ks s)
  unfolding perform add_event cancel_event count
  perform-Kept [] s last e c h = h
  perform-Kept (add t cb d ∷ ks) s last e c h =
      perform-Kept ks (add_event clock t cb d s).0 last e c (record {
        sound = add_event-IsSound t cb d s last c h.sound;
        gone = record {
          absent = ground (arith, h.gone.absent, h.gone.used);
          used = omega (arith, h.gone.used);
        };
      })
  perform-Kept (cancel f ∷ ks) s last e c h = elim (Option-cases (s.heap f)) [
    | inl x ↦ rw x tt
    | inr (ev, x) ↦ rw x (
        perform-Kept ks (record s { heap = put_id s.heap f (some (cancelled ev)) }) last e c
          (record {
            sound = cancel_event-IsSound f s ev last h.sound x;
            gone = record { absent = h.gone.absent; used = h.gone.used };
          }))
  ]
