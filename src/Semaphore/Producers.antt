-- ===== src/Semaphore/Producers.antt =====
-- The invariant of a queue, and that the steps of the producers keep it.
use mathlib.Core.List.{append_assoc}
use mathlib.Core.Option.{some-injective, none-ne-some}
use malicious_mpsi.Base.{
  ℕ, ◌+◌, ◌^◌, ◌≤◌, ◌<◌, ◌≡◌, ◌≢◌, refl, ◌∙◌, ap, subst, inl, inr, List, [], ◌∷◌, ◌++◌, some, arith,
  length, length-append, eq-cases, eq→==, ne→==,
}
use malicious_mpsi.Transfer.{add_64}
use malicious_mpsi.Transfer.Whole.{add_64-eq}
use malicious_mpsi.Semaphore.{
  Worker, at_loop, asleep, woken, working, xoring, stopped, State, push, wake, notify,
}

module _ {A : Type 0} (num : ℕ) where
  -- Segments that the worker has been let through for and has not taken from the queue.
  abbrev pub held : Worker A → ℕ
  held at_loop = 0
  held asleep = 0
  held woken = 0
  held working = 1
  held (xoring x) = 1
  held stopped = 0

  -- What holds where the worker stands.
  abbrev pub Stands : Worker A → State A → Type 0
  Stands at_loop s = Unit
  Stands asleep s = (s.count ≡ 0) × (length s.done < num)
  Stands woken s = (0 < s.count) × (length s.done < num)
  Stands working s = length s.done < num
  Stands (xoring x) s = (length s.done < num) × (rest : List A) × (s.queue ≡ x ∷ rest)
  Stands stopped s = num ≤ length s.done

  pub record IsOrderly (pushed : List A) (s : State A) : Type 0 where
    pub order : pushed ≡ s.done ++ s.queue
    pub tally : length s.queue ≡ s.count + s.pending + held s.worker
    pub stands : Stands s.worker s

  pub size_of :
      (pushed : List A) (s : State A)
      → IsOrderly pushed s
      → length pushed ≡ length s.done + length s.queue
  size_of pushed s x = ap length x.order ∙ length-append s.done s.queue

  push-Stands : (x : A) (s : State A) (w : Worker A) → Stands w s → Stands w (push x s)
  unfolding push
  push-Stands x s at_loop h = h
  push-Stands x s asleep h = h
  push-Stands x s woken h = h
  push-Stands x s working h = h
  push-Stands x s (xoring y) (l, rest, e) = (l, rest ++ (x ∷ []), ap (λ q. q ++ (x ∷ [])) e)
  push-Stands x s stopped h = h

  pub push-IsOrderly :
      (pushed : List A) (x : A) (s : State A)
      → IsOrderly pushed s
      → IsOrderly (pushed ++ (x ∷ [])) (push x s)
  unfolding push
  push-IsOrderly pushed x s o = record {
    order = ap (λ t. t ++ (x ∷ [])) o.order ∙ append_assoc s.done s.queue (x ∷ []);
    tally = omega (arith, length-append s.queue (x ∷ []), o.tally);
    stands = push-Stands x s s.worker o.stands;
  }

  wake-Stands :
      (s : State A) (c p : ℕ) (w : Worker A)
      → 0 < c
      → Stands w s
      → Stands (wake w) (record s { count = c; pending = p; worker = wake w })
  unfolding wake
  wake-Stands s c p at_loop h o = o
  wake-Stands s c p asleep h o = (h, o.1)
  wake-Stands s c p woken h o = (h, o.1)
  wake-Stands s c p working h o = o
  wake-Stands s c p (xoring x) h o = o
  wake-Stands s c p stopped h o = o

  held-wake : (w : Worker A) → held (wake w) ≡ held w
  unfolding wake
  held-wake at_loop = refl
  held-wake asleep = refl
  held-wake woken = refl
  held-wake working = refl
  held-wake (xoring x) = refl
  held-wake stopped = refl

  pub notify-IsOrderly :
      (pushed : List A) (s t : State A)
      → length pushed < 2 ^ 64
      → IsOrderly pushed s
      → notify s ≡ some t
      → IsOrderly pushed t
  unfolding notify
  notify-IsOrderly pushed s t small o e = elim (eq-cases s.pending 0) [
    | inl z ↦ absurd (none-ne-some t (rw (eq→== s.pending 0 z) at e))
    | inr ne ↦
        subst (IsOrderly pushed) (some-injective _ _ (rw (ne→== s.pending 0 ne) at e)) (record {
          order = o.order;
          tally = omega (arith, counted ne, o.tally, held-wake s.worker);
          stands = wake-Stands s _ _ s.worker (omega (arith, counted ne)) o.stands;
        })
  ]
    where
      counted : s.pending ≢ 0 → add_64 s.count 1 ≡ s.count + 1
      counted ne = add_64-eq s.count 1 (omega (arith, o.tally, size_of pushed s o))
