-- ===== src/Semaphore/Order.antt =====
-- The steps of the worker keep the invariant of a queue: nothing is lost, and the count never runs
-- below the queue.
use mathlib.Core.List.{append_assoc}
use mathlib.Core.Option.{none-ne-some}
use malicious_mpsi.Base.{
  ℕ, ◌+◌, ◌-◌, ◌^◌, ◌<◌, ◌≡◌, refl, sym, ◌∙◌, ap, inl, inr, List, [], ◌∷◌, ◌++◌, some, arith,
  length, length-append, ltb, if◌then◌else◌, Bool-cases, eq-cases, eq→==, ne→==, ltb→lt, Gives,
  gives, Gives-some,
}
use malicious_mpsi.Transfer.{sub_64}
use malicious_mpsi.Transfer.Whole.{sub_64-eq}
use malicious_mpsi.Semaphore.{
  Worker, at_loop, asleep, woken, working, xoring, stopped, State, initial, wait, front, pop, work,
  Reached, start, pushes, notifies, works,
}
use malicious_mpsi.Semaphore.Producers.{held, Stands, IsOrderly, push-IsOrderly, notify-IsOrderly}

module _ {A : Type 0} (num : ℕ) where
  -- The worker has been let through.
  let_through :
      (pushed : List A) (s : State A)
      → length pushed < 2 ^ 64
      → pushed ≡ s.done ++ s.queue
      → length s.queue ≡ s.count + s.pending
      → 0 < s.count
      → length s.done < num
      → IsOrderly num pushed (record s { count = sub_64 s.count 1; worker = working })
  let_through pushed s small order tally h l = record {
    order = order;
    tally = omega (arith, tally, less);
    stands = l;
  }
    where
      less : sub_64 s.count 1 ≡ s.count - 1
      less =
          sub_64-eq s.count 1 (omega (arith, tally, ap length order, length-append s.done s.queue))
            h

  loop-IsOrderly :
      (pushed : List A) (s : State A)
      → length pushed < 2 ^ 64
      → pushed ≡ s.done ++ s.queue
      → length s.queue ≡ s.count + s.pending
      → IsOrderly num pushed
          (if ltb (length s.done) num then wait s else record s { worker = stopped })
  unfolding wait
  loop-IsOrderly pushed s small order tally = elim (Bool-cases (ltb (length s.done) num)) [
    | inl l ↦ elim (eq-cases s.count 0) [
      | inl z ↦
          rw (l, eq→== s.count 0 z)
            (record { order = order; tally = omega (arith, tally); stands = (z, ltb→lt _ _ l) })
      | inr ne ↦
          rw (l, ne→== s.count 0 ne)
            (let_through pushed s small order tally (omega arith) (ltb→lt _ _ l))
    ]
    | inr g ↦ rw g (record { order = order; tally = omega (arith, tally); stands = ground arith })
  ]

  pop-IsOrderly :
      (pushed : List A) (s : State A) (x : A) (rest : List A)
      → pushed ≡ s.done ++ s.queue
      → length s.queue ≡ s.count + s.pending + 1
      → s.queue ≡ x ∷ rest
      → Gives (IsOrderly num pushed) (pop x s)
  unfolding pop
  pop-IsOrderly pushed s x rest order tally e = rw e (
      gives (record {
        order = order ∙ ap (λ q. s.done ++ q) e ∙ sym (append_assoc s.done (x ∷ []) rest);
        tally = omega (arith, tally, ap length e);
        stands = tt;
      }))

  front-IsOrderly :
      (pushed : List A) (s : State A) (q : List A)
      → s.queue ≡ q
      → pushed ≡ s.done ++ s.queue
      → length s.queue ≡ s.count + s.pending + 1
      → length s.done < num
      → Gives (IsOrderly num pushed) (front s)
  unfolding front
  front-IsOrderly pushed s [] e order tally l = absurd (omega (arith, tally, ap length e))
  front-IsOrderly pushed s (x ∷ rest) e order tally l = rw e (
      gives (record {
        order = order ∙ ap (λ q. s.done ++ q) e;
        tally = omega (arith, tally, ap length e);
        stands = (l, rest, refl);
      }))

  -- The worker is not in `condition_.wait` and has not left its loop.
  abbrev pub IsRunning : Worker A → Type 0
  IsRunning at_loop = Unit
  IsRunning asleep = ⊥
  IsRunning woken = Unit
  IsRunning working = Unit
  IsRunning (xoring x) = Unit
  IsRunning stopped = ⊥

  step_of :
      (pushed : List A) (s : State A) (w : Worker A)
      → length pushed < 2 ^ 64
      → s.worker ≡ w
      → pushed ≡ s.done ++ s.queue
      → length s.queue ≡ s.count + s.pending + held num w
      → Stands num w s
      → IsRunning w
      → Gives (IsOrderly num pushed) (work num s)
  unfolding work wait front pop
  step_of pushed s at_loop small e order tally o h =
      rw e (gives (loop-IsOrderly pushed s small order (omega (arith, tally))))
  step_of pushed s asleep small e order tally o h = absurd h
  step_of pushed s woken small e order tally o h =
      rw e (gives (let_through pushed s small order (omega (arith, tally)) o.0 o.1))
  step_of pushed s working small e order tally o h =
      rw e (front-IsOrderly pushed s s.queue refl order tally o)
  step_of pushed s (xoring x) small e order tally o h =
      rw e (pop-IsOrderly pushed s x o.1 order tally o.2)
  step_of pushed s stopped small e order tally o h = absurd h

  -- A running worker always has a next step, which keeps the invariant.
  pub work-IsOrderly :
      (pushed : List A) (s : State A)
      → length pushed < 2 ^ 64
      → IsOrderly num pushed s
      → IsRunning s.worker
      → Gives (IsOrderly num pushed) (work num s)
  work-IsOrderly pushed s small o h =
      step_of pushed s s.worker small refl o.order o.tally o.stands h

  work-IsRunning : (s t : State A) (w : Worker A) → s.worker ≡ w → work num s ≡ some t → IsRunning w
  unfolding work
  work-IsRunning s t at_loop q e = tt
  work-IsRunning s t asleep q e = absurd (none-ne-some t (rw q at e))
  work-IsRunning s t woken q e = tt
  work-IsRunning s t working q e = tt
  work-IsRunning s t (xoring x) q e = tt
  work-IsRunning s t stopped q e = absurd (none-ne-some t (rw q at e))

  -- In every state that can be reached without a spurious wake-up, whatever the order of the steps: the segments pushed are
  -- those that the worker has gone through and then those in the queue, in the order of the pushes;
  -- the queue is as long as the count, the producers that have not notified yet and the segment
  -- in work together; and a worker that sleeps does so at a count of 0, with segments to come.
  pub reached-IsOrderly :
      (pushed : List A) (s : State A)
      → length pushed < 2 ^ 64
      → Reached num 0 pushed s
      → IsOrderly num pushed s
  unfolding initial
  reached-IsOrderly _ _ small start = record { order = refl; tally = refl; stands = tt }
  reached-IsOrderly _ _ small (pushes {pushed} {s} x r) =
      push-IsOrderly num pushed x s
        (reached-IsOrderly pushed s (omega (arith, length-append pushed (x ∷ []))) r)
  reached-IsOrderly pushed t small (notifies {s} e r) =
      notify-IsOrderly num pushed s t small (reached-IsOrderly pushed s small r) e
  reached-IsOrderly pushed t small (works {s} e r) =
      Gives-some
        (work-IsOrderly pushed s small (reached-IsOrderly pushed s small r)
          (work-IsRunning s t s.worker refl e))
        e
