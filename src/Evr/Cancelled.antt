-- ===== src/Evr/Cancelled.antt =====
-- A timer that is cancelled is never run.
use is.Prelude.{
  length, refl, ℕ, zero, suc, ◌%◌, ◌^◌, ◌<◌, ◌≡◌, ◌≢◌, sym, subst, List, [], ◌∷◌, Option, some,
  true, arith, Option-cases, inl, inr, count, sub64,
}
use is.Lru.State.{put_id}
use is.Evr.State.{
  Event, event_active, event_cancelled, Act, add, cancel, Loop, Fired, default_time_wait_ms, delete,
  read_clock, cancel_event, add_event, perform, callback, dequeue_events,
}
use is.Evr.Sound.{
  Floor, queued_now, Every, Every-bind, Every-some, IsSound, IsClock, cancel_event-IsSound,
  cancelled,
}
use is.Evr.Rounds.{First, first_of, fired, round_empty, round_cancelled, round_waits, round_fires}
use is.Evr.Ends.{dequeue_events-Returned}
use is.Evr.View.{raised, IsTop, popped, sound-Round, ran-Kept}

-- A timer that is cancelled or deleted.
pub record IsDead (e : ℕ) (s : Loop) : Type 0 where
  pub used : e < s.next
  pub dead : (ev : Event) → s.heap e ≡ some ev → ev.state ≡ event_cancelled

unfoldable pub Omitted : ℕ → List Fired → Type 0
Omitted e [] = Unit {0}
Omitted e (f ∷ fs) = (f.event ≢ e) × Omitted e fs

delete-IsDead : (e f : ℕ) (s : Loop) → IsDead e s → IsDead e (delete f s)
delete-IsDead e f s h = record { used = h.used; dead = λ ev k. ground (arith, k, h.dead ev) }

module _ (clock : ℕ → ℕ) where
  perform-IsDead :
      (ks : List Act) (e : ℕ) (s : Loop) → IsDead e s → Every (IsDead e) (perform clock ks s)
  unfolding perform add_event cancel_event
  perform-IsDead [] e s h = h
  perform-IsDead (add t cb d ∷ ks) e s h =
      perform-IsDead ks e (add_event clock t cb d s).0 (record {
        used = omega (arith, h.used);
        dead = λ ev k. h.dead ev (ground (arith, k, h.used));
      })
  perform-IsDead (cancel f ∷ ks) e s h = elim (Option-cases (s.heap f)) [
    | inl x ↦ rw x tt
    | inr (ev, x) ↦ rw x (
        perform-IsDead ks e (record s { heap = put_id s.heap f (some (cancelled clock ev)) })
          (record { used = h.used; dead = λ v k. ground (arith, k, h.dead v) }))
  ]

  module _ (acts : ℕ → ℕ → List Act) (top : (ℕ → Option Event) → List ℕ → ℕ) where
    callback-IsDead :
        (ev : Event) (e : ℕ) (s : Loop) → IsDead e s → Every (IsDead e) (callback clock acts ev s)
    unfolding callback
    callback-IsDead ev e s h = elim (Option-cases ev.cb) [
      | inl x ↦ rw x h
      | inr (f, x) ↦ rw x (perform-IsDead (acts f ev.data_ptr) e s h)
    ]

    popped-IsDead : (e : ℕ) (s : Loop) → IsDead e s → IsDead e (popped top s)
    popped-IsDead e s h = record { used = h.used; dead = h.dead }

    abbrev pub Omits : ℕ → Loop × ℕ × List Fired → Type 0
    Omits e (s, wait, log) = Omitted e log

    -- The loop ends without another timer.
    ends-Omits : (e : ℕ) (s : Loop) (wait : ℕ) → Omits e (s, wait, [])
    unfolding Omitted
    ends-Omits e s wait = tt

    zero-Omits : (e : ℕ) (s : Loop) → Every (Omits e) (dequeue_events clock acts top zero s)
    unfolding dequeue_events
    zero-Omits e s = tt

    fired-Omits :
        (fuel : ℕ) (s s2 : Loop) (e : ℕ) (ev : Event)
        → first_of top s ≢ e
        → Every (Omits e) (dequeue_events clock acts top fuel (delete (first_of top s) s2))
        → Every (Omits e) (fired clock acts top fuel s ev s2)
    unfolding fired Omitted
    fired-Omits fuel s s2 e ev n h =
        let next = dequeue_events clock acts top fuel (delete (first_of top s) s2) in
        Every-bind (Omits e) next _ (λ r q. (n, Every-some (Omits e) h q))

    -- A timer that is active is not a dead one.
    alive_other :
        (e : ℕ) (s : Loop) (ev : Event)
        → IsDead e s
        → First clock acts top s ev
        → ev.state ≡ event_active
        → first_of top s ≢ e
    alive_other e s ev h f a q =
        let k : s.heap e ≡ some ev = subst (λ i. s.heap i ≡ some ev) q f.alive in
        ground (arith, h.dead ev k, a)

    dead-Omits :
        (fuel : ℕ) (s : Loop) (t : Floor) (e : ℕ)
        → IsClock clock
        → IsTop top
        → IsSound s t
        → IsDead e s
        → Every (Omits e) (dequeue_events clock acts top fuel s)
    dead-Omits zero s t e c p h d = zero-Omits e s
    dead-Omits (suc fuel) s t e c p h d = elim (sound-Round clock acts top s t p h) [
      | inl (y, z) ↦
          subst (Every (Omits e)) (sym (round_empty clock acts top fuel s y))
            (ends-Omits e s default_time_wait_ms)
      | inr (inl k) ↦
          subst (Every (Omits e)) (sym (round_cancelled clock acts top fuel s k.ev k.first k.state))
            (dead-Omits fuel _ t e c p k.rest
              (delete-IsDead e (first_of top s) (popped top s) (popped-IsDead e s d)))
      | inr (inr (inl w)) ↦
          subst (Every (Omits e))
            (sym (round_waits clock acts top fuel s w.ev w.first w.state w.early))
            (ends-Omits e (read_clock s) (sub64 w.ev.time_ms (clock s.ticks) % 2 ^ 32))
      | inr (inr (inr f)) ↦
          subst (Every (Omits e))
            (sym (round_fires clock acts top fuel s f.ev f.first f.state f.due))
            (Every-bind (Omits e) (callback clock acts f.ev (popped top s))
              (fired clock acts top fuel s f.ev)
              (λ s2 q.
                let k = ran-Kept clock acts top s s2 t c f q in
                let d2 =
                  Every-some (IsDead e)
                    (callback-IsDead f.ev e (popped top s) (popped-IsDead e s d)) q in
                fired-Omits fuel s s2 e f.ev (alive_other e s f.ev d f.first f.state) (
                  dead-Omits fuel _ (raised t f.ev) e c p k
                    (delete-IsDead e (first_of top s) s2 d2))))
    ]

-- cancel_event on a queued timer of a loop whose timers are alive and queued once succeeds. No call of
-- dequeue_events that then returns runs the timer, whatever timers the callbacks add and cancel, and
-- where they leave the timers alone it returns, with fuel for one round more than there are timers; the clock may
-- be set back and stays 2^32 below 2^64, and the queue chooses a least timer.
pub cancel_event-spares :
    (clock : ℕ → ℕ) (acts : ℕ → ℕ → List Act) (top : (ℕ → Option Event) → List ℕ → ℕ) (fuel : ℕ)
    (s : Loop) (e : ℕ)
    → IsClock clock
    → IsTop top
    → IsSound s (queued_now s)
    → 0 < count e s.event_pq
    → (s1 : Loop) × (cancel_event (some e) s ≡ some (s1, true))
      × IsSound s1 (queued_now s1)
      × Every (Omits clock acts top e) (dequeue_events clock acts top fuel s1)
      × ((r : Loop × ℕ × List Fired) × (dequeue_events clock
              (λ f d. [])
              top
              (suc (length s.event_pq))
              s1
            ≡ some r)
          × Omitted e r.2)
unfolding cancel_event
cancel_event-spares clock acts top fuel s e c p h z =
    let t = queued_now s in
    let o = h.timers e z in
    let s1 : Loop = record s { heap = put_id s.heap e (some (cancelled clock o.event)) } in
    let h1 : IsSound s1 t = cancel_event-IsSound clock e s o.event t h o.alive in
    let d : IsDead e s1 = record { used = h.below e z; dead = λ ev k. ground (arith, k) } in
    let (r, q) =
      dequeue_events-Returned clock (λ f d. []) top (suc (length s.event_pq)) s1 t (λ f d. refl) p
        h1 (omega arith) in
    (
      s1,
      ground (arith, o.alive),
      h1,
      dead-Omits clock acts top fuel s1 t e c p h1 d,
      (
        r,
        q,
        Every-some (Omits clock (λ f d. []) top e)
            (dead-Omits clock (λ f d. []) top (suc (length s.event_pq)) s1 t e c p h1 d) q,
      ),
    )
