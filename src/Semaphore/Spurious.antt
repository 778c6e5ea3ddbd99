-- ===== src/Semaphore/Spurious.antt =====
-- A queue whose worker may also wake up without a notification.
use mathlib.Core.List.{append_assoc}
use mathlib.Core.Option.{some-injective, none-ne-some}
use malicious_mpsi.Base.{
  ℕ, zero, suc, ◌+◌, ◌^◌, ◌%◌, ◌<◌, ◌≡◌, refl, sym, ◌∙◌, ap, subst, inl, inr, ◌⊎◌, List, [], ◌∷◌,
  ◌++◌, some, arith, length, length-append, ltb, if◌then◌else◌, Bool-cases, eq-cases, eq→==, ne→==,
}
use malicious_mpsi.Transfer.{add_64, sub_64}
use malicious_mpsi.Semaphore.{
  Worker, at_loop, asleep, woken, working, xoring, stopped, State, initial, push, wake, notify,
  wait, spurious_wake, front, pop, work, Reached, start, pushes, notifies, works, wakes,
}
use malicious_mpsi.Semaphore.Producers.{held, IsOrderly}
use malicious_mpsi.Semaphore.Order.{reached-IsOrderly}

module _ {A : Type 0} (num : ℕ) where
  -- The segment in work is the first of the queue.
  abbrev pub InWork : Worker A → State A → Type 0
  InWork at_loop s = Unit
  InWork asleep s = Unit
  InWork woken s = Unit
  InWork working s = Unit
  InWork (xoring x) s = (rest : List A) × (s.queue ≡ x ∷ rest)
  InWork stopped s = Unit

  -- Nothing is lost or reordered, and up to whole turns of the 64-bit count the queue is as long as
  -- the count, the producers that have not notified yet and the segments that the worker has been let
  -- through for together.
  pub record IsCounted (pushed : List A) (s : State A) : Type 0 where
    pub order : pushed ≡ s.done ++ s.queue
    pub tally : length s.queue % 2 ^ 64 ≡ (s.count + s.pending + held num s.worker) % 2 ^ 64
    pub in_work : InWork s.worker s

  push-InWork : (x : A) (s : State A) (w : Worker A) → InWork w s → InWork w (push x s)
  unfolding push
  push-InWork x s at_loop h = h
  push-InWork x s asleep h = h
  push-InWork x s woken h = h
  push-InWork x s working h = h
  push-InWork x s (xoring y) (rest, e) = (rest ++ (x ∷ []), ap (λ q. q ++ (x ∷ [])) e)
  push-InWork x s stopped h = h

  push-IsCounted :
      (pushed : List A) (x : A) (s : State A)
      → IsCounted pushed s
      → IsCounted (pushed ++ (x ∷ [])) (push x s)
  unfolding push
  push-IsCounted pushed x s o = record {
    order = ap (λ t. t ++ (x ∷ [])) o.order ∙ append_assoc s.done s.queue (x ∷ []);
    tally = omega (arith, length-append s.queue (x ∷ []), o.tally);
    in_work = push-InWork x s s.worker o.in_work;
  }

  wake-InWork :
      (s : State A) (c p : ℕ) (w : Worker A)
      → InWork w s
      → InWork (wake w) (record s { count = c; pending = p; worker = wake w })
  unfolding wake
  wake-InWork s c p at_loop o = o
  wake-InWork s c p asleep o = o
  wake-InWork s c p woken o = o
  wake-InWork s c p working o = o
  wake-InWork s c p (xoring x) o = o
  wake-InWork s c p stopped o = o

  held-wake : (w : Worker A) → held num (wake w) ≡ held num w
  unfolding wake
  held-wake at_loop = refl
  held-wake asleep = refl
  held-wake woken = refl
  held-wake working = refl
  held-wake (xoring x) = refl
  held-wake stopped = refl

  notify-IsCounted :
      (pushed : List A) (s t : State A)
      → IsCounted pushed s
      → notify s ≡ some t
      → IsCounted pushed t
  unfolding notify add_64
  notify-IsCounted pushed s t o e = elim (eq-cases s.pending 0) [
    | inl z ↦ absurd (none-ne-some t (rw (eq→== s.pending 0 z) at e))
    | inr ne ↦
        subst (IsCounted pushed) (some-injective _ _ (rw (ne→== s.pending 0 ne) at e)) (record {
          order = o.order;
          tally = omega (arith, o.tally, held-wake s.worker, ne);
          in_work = wake-InWork s _ _ s.worker o.in_work;
        })
  ]

  let_through :
      (pushed : List A) (s : State A)
      → pushed ≡ s.done ++ s.queue
      → length s.queue % 2 ^ 64 ≡ (s.count + s.pending) % 2 ^ 64
      → IsCounted pushed (record s { count = sub_64 s.count 1; worker = working })
  unfolding sub_64
  let_through pushed s order tally = record {
    order = order;
    tally = omega (arith, tally);
    in_work = tt;
  }

  wait-IsCounted :
      (pushed : List A) (s t : State A)
      → pushed ≡ s.done ++ s.queue
      → length s.queue % 2 ^ 64 ≡ (s.count + s.pending) % 2 ^ 64
      → (if ltb (length s.done) num then wait s else record s { worker = stopped }) ≡ t
      → IsCounted pushed t
  unfolding wait
  wait-IsCounted pushed s t order tally e =
      subst (IsCounted pushed) e (elim (Bool-cases (ltb (length s.done) num)) [
        | inl l ↦ elim (eq-cases s.count 0) [
          | inl z ↦
              rw (l, eq→== s.count 0 z)
                (record { order = order; tally = omega (arith, tally); in_work = tt })
          | inr ne ↦ rw (l, ne→== s.count 0 ne) (let_through pushed s order tally)
        ]
        | inr g ↦ rw g (record { order = order; tally = omega (arith, tally); in_work = tt })
      ])

  front-IsCounted :
      (pushed : List A) (s t : State A) (q : List A)
      → s.queue ≡ q
      → pushed ≡ s.done ++ s.queue
      → length s.queue % 2 ^ 64 ≡ (s.count + s.pending + 1) % 2 ^ 64
      → front s ≡ some t
      → IsCounted pushed t
  unfolding front
  front-IsCounted pushed s t [] e order tally f = absurd (none-ne-some t (rw e at f))
  front-IsCounted pushed s t (x ∷ rest) e order tally f =
      subst (IsCounted pushed) (some-injective _ _ (rw e at f)) (record {
        order = order ∙ ap (λ q. s.done ++ q) e;
        tally = omega (arith, tally, ap length e);
        in_work = (rest, refl);
      })

  pop-IsCounted :
      (pushed : List A) (s t : State A) (x : A) (rest : List A)
      → s.queue ≡ x ∷ rest
      → pushed ≡ s.done ++ s.queue
      → length s.queue % 2 ^ 64 ≡ (s.count + s.pending + 1) % 2 ^ 64
      → pop x s ≡ some t
      → IsCounted pushed t
  unfolding pop
  pop-IsCounted pushed s t x rest e order tally f =
      subst (IsCounted pushed) (some-injective _ _ (rw e at f)) (record {
        order = order ∙ ap (λ q. s.done ++ q) e ∙ sym (append_assoc s.done (x ∷ []) rest);
        tally = omega (arith, tally, ap length e);
        in_work = tt;
      })

  work-IsCounted :
      (pushed : List A) (s t : State A) (w : Worker A)
      → s.worker ≡ w
      → pushed ≡ s.done ++ s.queue
      → length s.queue % 2 ^ 64 ≡ (s.count + s.pending + held num w) % 2 ^ 64
      → InWork w s
      → work num s ≡ some t
      → IsCounted pushed t
  unfolding work wait front pop
  work-IsCounted pushed s t at_loop e order tally o f =
      wait-IsCounted pushed s t order (omega (arith, tally)) (some-injective _ _ (rw e at f))
  work-IsCounted pushed s t asleep e order tally o f = absurd (none-ne-some t (rw e at f))
  work-IsCounted pushed s t woken e order tally o f =
      subst (IsCounted pushed) (some-injective _ _ (rw e at f))
        (let_through pushed s order (omega (arith, tally)))
  work-IsCounted pushed s t working e order tally o f =
      front-IsCounted pushed s t s.queue refl order tally (rw e at f)
  work-IsCounted pushed s t (xoring x) e order tally o f =
      pop-IsCounted pushed s t x o.0 o.1 order tally (rw e at f)
  work-IsCounted pushed s t stopped e order tally o f = absurd (none-ne-some t (rw e at f))

  wake-IsCounted :
      (pushed : List A) (s t : State A) (w : Worker A)
      → s.worker ≡ w
      → IsCounted pushed s
      → spurious_wake s ≡ some t
      → IsCounted pushed t
  unfolding spurious_wake
  wake-IsCounted pushed s t asleep e o f =
      subst (IsCounted pushed) (some-injective _ _ (rw e at f)) (record {
        order = o.order;
        tally = o.tally ∙ ap (λ w. (s.count + s.pending + held num w) % 2 ^ 64) e;
        in_work = tt;
      })
  wake-IsCounted pushed s t at_loop e o f = absurd (none-ne-some t (rw e at f))
  wake-IsCounted pushed s t woken e o f = absurd (none-ne-some t (rw e at f))
  wake-IsCounted pushed s t working e o f = absurd (none-ne-some t (rw e at f))
  wake-IsCounted pushed s t (xoring x) e o f = absurd (none-ne-some t (rw e at f))
  wake-IsCounted pushed s t stopped e o f = absurd (none-ne-some t (rw e at f))

  reached-IsCounted :
      (spurious : ℕ) (pushed : List A) (s : State A)
      → Reached num spurious pushed s
      → IsCounted pushed s
  unfolding initial
  reached-IsCounted _ _ _ start = record { order = refl; tally = refl; in_work = tt }
  reached-IsCounted n _ _ (pushes {pushed} {s} x r) =
      push-IsCounted pushed x s (reached-IsCounted n pushed s r)
  reached-IsCounted n pushed t (notifies {s} e r) =
      notify-IsCounted pushed s t (reached-IsCounted n pushed s r) e
  reached-IsCounted n pushed t (works {s} e r) =
      let o = reached-IsCounted n pushed s r in
      work-IsCounted pushed s t s.worker refl o.order o.tally o.in_work e
  reached-IsCounted _ pushed t (wakes {spurious} {s} e r) =
      wake-IsCounted pushed s t s.worker refl (reached-IsCounted spurious pushed s r) e

  -- In every state that can be reached, spurious wake-ups included, the segments pushed are those that
  -- the worker has gone through and then those in the queue, in the order of the pushes, and up to
  -- whole turns of the 64-bit count the queue is as long as the count, the producers that have not
  -- notified yet and the segments that the worker has been let through for together. As long as there
  -- has been no spurious wake-up and fewer than 2 ^ 64 segments have been pushed, the lengths are
  -- equal, and a worker that sleeps does so at a count of 0, with segments to come.
  pub reached_lem :
      (spurious : ℕ) (pushed : List A) (s : State A)
      → length pushed < 2 ^ 64
      → Reached num spurious pushed s
      → IsCounted pushed s × ((0 < spurious) ⊎ IsOrderly num pushed s)
  reached_lem zero pushed s small r =
      (reached-IsCounted 0 pushed s r, inr (reached-IsOrderly num pushed s small r))
  reached_lem (suc n) pushed s small r = (reached-IsCounted (suc n) pushed s r, inl (omega arith))
