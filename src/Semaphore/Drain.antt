-- ===== src/Semaphore/Drain.antt =====
-- No segment waits for ever: when all have been pushed and notified, the worker ends the loop.
use mathlib.Core.List.{append-nil}
use malicious_mpsi.Base.{
  ◌⊎◌, ℕ, zero, suc, ◌+◌, ◌*◌, ◌^◌, ◌≤◌, ◌<◌, ◌≡◌, refl, sym, ◌∙◌, ap, subst, inl, inr, List, [],
  ◌∷◌, ◌++◌, some, arith, length, Gives, gives, Gives-some, some-Gives, Gives-value, ◌>>=◌,
}
use malicious_mpsi.Semaphore.{
  Worker, at_loop, asleep, woken, working, xoring, stopped, State, work, Reached, run_worker,
}
use malicious_mpsi.Semaphore.Producers.{held, Stands, IsOrderly, size_of}
use malicious_mpsi.Semaphore.Order.{IsRunning, work-IsOrderly, reached-IsOrderly}
use malicious_mpsi.Semaphore.Ahead.{rank, measure, IsAhead, work-IsAhead}

nil_of : {A : Type 0} (xs : List A) → length xs ≡ 0 → xs ≡ []
nil_of [] h = refl
nil_of (x ∷ xs) h = absurd (omega arith)

module _ {A : Type 0} where
  -- The end: the loop has been left, and all segments have been gone through in their order.
  abbrev pub IsDrained : List A → State A → Type 0
  IsDrained pushed t = (t.worker ≡ stopped) × (t.queue ≡ []) × (t.done ≡ pushed)

module _ {A : Type 0} (num : ℕ) where
  -- All segments have been pushed and notified.
  record IsComplete (pushed : List A) (s : State A) : Type 0 where
    orderly : IsOrderly num pushed s
    whole : length pushed ≡ num
    quiet : s.pending ≡ 0

  -- The worker sleeps at no state that is complete.
  awake :
      (pushed : List A) (s : State A) (w : Worker A)
      → IsComplete pushed s
      → s.worker ≡ w
      → Stands num w s
      → IsRunning num w ⊎ (w ≡ stopped)
  awake pushed s at_loop x e h = inl tt
  awake pushed s asleep x e h = absurd (
      omega (
        arith,
        h.0,
        h.1,
        x.quiet,
        x.whole,
        x.orderly.tally,
        ap (held num) e,
        size_of num pushed s x.orderly,
      ))
  awake pushed s woken x e h = inl tt
  awake pushed s working x e h = inl tt
  awake pushed s (xoring y) x e h = inl tt
  awake pushed s stopped x e h = inr refl

  stopped-IsDrained :
      (pushed : List A) (s : State A)
      → IsComplete pushed s
      → s.worker ≡ stopped
      → IsDrained pushed s
  stopped-IsDrained pushed s x e =
      (e, none_left, sym (x.orderly.order ∙ ap (λ q. s.done ++ q) none_left ∙ append-nil s.done))
    where
      all_done : num ≤ length s.done
      all_done = subst (λ w. Stands num w s) e x.orderly.stands

      none_left : s.queue ≡ []
      none_left = nil_of s.queue (omega (arith, all_done, x.whole, size_of num pushed s x.orderly))

  run_worker-next :
      (n : ℕ) (s : State A) (w : Worker A)
      → s.worker ≡ w
      → IsRunning num w
      → run_worker (suc n) num s ≡ (work num s >>= run_worker n num)
  unfolding run_worker
  run_worker-next n s at_loop e h = rw e refl
  run_worker-next n s asleep e h = absurd h
  run_worker-next n s woken e h = rw e refl
  run_worker-next n s working e h = rw e refl
  run_worker-next n s (xoring x) e h = rw e refl
  run_worker-next n s stopped e h = absurd h

  running_measure :
      (s : State A) (w : Worker A)
      → s.worker ≡ w
      → IsRunning num w
      → (0 < held num w → 0 < length s.queue)
      → 0 < measure s
  running_measure s at_loop e h taken = rw e (omega arith)
  running_measure s asleep e h taken = absurd h
  running_measure s woken e h taken = rw e (omega arith)
  running_measure s working e h taken = rw e (omega arith)
  running_measure s (xoring x) e h taken = omega (arith, taken (omega arith))
  running_measure s stopped e h taken = absurd h

  taken_of :
      (pushed : List A) (s : State A)
      → IsComplete pushed s
      → 0 < held num s.worker
      → 0 < length s.queue
  taken_of pushed s x h = omega (arith, x.orderly.tally)

  left_of :
      (pushed : List A) (s : State A)
      → IsComplete pushed s
      → length s.done < num
      → s.worker ≡ at_loop
      → 0 < s.count
  left_of pushed s x h e =
      omega
        (arith, x.quiet, x.whole, x.orderly.tally, ap (held num) e, size_of num pushed s x.orderly)

  work-IsComplete :
      (pushed : List A) (s t : State A)
      → num < 2 ^ 64
      → IsComplete pushed s
      → IsRunning num s.worker
      → work num s ≡ some t
      → IsAhead s t
      → IsComplete pushed t
  work-IsComplete pushed s t small x h e ahead = record {
    orderly = Gives-some (work-IsOrderly num pushed s (omega (arith, x.whole)) x.orderly h) e;
    whole = x.whole;
    quiet = ahead.1 ∙ x.quiet;
  }

  run_worker-IsDrained :
      (pushed : List A) (n : ℕ) (s : State A)
      → num < 2 ^ 64
      → IsComplete pushed s
      → measure s ≤ n
      → Gives (IsDrained pushed) (run_worker n num s)
  unfolding run_worker
  run_worker-IsDrained pushed zero s small x h =
      elim (awake pushed s s.worker x refl x.orderly.stands) [
        | inl go ↦ absurd (omega (arith, running_measure s s.worker refl go (taken_of pushed s x)))
        | inr e ↦ gives (stopped-IsDrained pushed s x e)
      ]
  run_worker-IsDrained pushed (suc n) s small x h =
      elim (awake pushed s s.worker x refl x.orderly.stands) [
        | inl go ↦
            let (t, e, ahead) =
              Gives-value
                (work-IsAhead num s s.worker refl go (left_of pushed s x) (taken_of pushed s x)) in
            rw (run_worker-next n s s.worker refl go, e)
              (run_worker-IsDrained pushed n t small (work-IsComplete pushed s t small x go e ahead)
                (omega (arith, ahead.0)))
        | inr e ↦ some-Gives {a = s} (rw e refl) (stopped-IsDrained pushed s x e)
      ]

  -- When `num` segments have been pushed, every producer has notified and there has been no spurious
  -- wake-up, the worker, from wherever it stands, leaves its loop within three steps for each segment left and two more, without
  -- waiting and without a fault, having gone through all segments in the order of their pushes.
  pub drain_lem :
      (pushed : List A) (s : State A)
      → num < 2 ^ 64
      → Reached num 0 pushed s
      → length pushed ≡ num
      → s.pending ≡ 0
      → Gives (IsDrained pushed) (run_worker (3 * length s.queue + 2) num s)
  drain_lem pushed s small r size quiet =
      run_worker-IsDrained pushed _ s small
        (record {
          orderly = reached-IsOrderly num pushed s (omega arith) r;
          whole = size;
          quiet = quiet;
        })
        (bound s.worker)
    where
      bound : (w : Worker A) → 3 * length s.queue + rank w ≤ 3 * length s.queue + 2
      bound at_loop = omega arith
      bound asleep = omega arith
      bound woken = omega arith
      bound working = omega arith
      bound (xoring x) = omega arith
      bound stopped = omega arith
