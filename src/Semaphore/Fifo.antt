-- ===== src/Semaphore/Fifo.antt =====
-- What a queue promises: segments come out in the order in which they went in.
use mathlib.Core.Option.{some-injective, none-ne-some}
use malicious_mpsi.Base.{
  ℕ, ◌^◌, ◌<◌, ◌≡◌, refl, sym, ◌∙◌, subst, inl, inr, List, [], ◌∷◌, ◌++◌, some, length, ltb, ◌==◌,
  if◌then◌else◌, Bool-cases,
}
use malicious_mpsi.Semaphore.{
  Worker, at_loop, asleep, woken, working, xoring, stopped, State, push, notify, wait, front, pop,
  work, Reached,
}
use malicious_mpsi.Semaphore.Ahead.{work-wait, work-front, work-pop}
use malicious_mpsi.Semaphore.Producers.{Stands}
use malicious_mpsi.Semaphore.Order.{reached-IsOrderly}

-- The abstract queue: what waits in it and what has been taken out.
pub record Fifo (A : Type 0) : Type 0 where
  pub waiting : List A
  pub taken : List A

pub data FifoStep {A : Type 0} : Fifo A → Fifo A → Type 0 where
  idle : {f : Fifo A} → FifoStep f f
  put :
      {waiting taken : List A} (x : A)
      → FifoStep
          (record { waiting = waiting; taken = taken })
          (record { waiting = waiting ++ (x ∷ []); taken = taken })
  take :
      {waiting taken : List A} (x : A)
      → FifoStep
          (record { waiting = x ∷ waiting; taken = taken })
          (record { waiting = waiting; taken = taken ++ (x ∷ []) })

module _ {A : Type 0} where
  abbrev pub view : State A → Fifo A
  view s = record { waiting = s.queue; taken = s.done }

module _ {A : Type 0} (num : ℕ) where
  wait_idle : (s : State A) → FifoStep (view s) (view (wait s))
  unfolding wait
  wait_idle s = elim (Bool-cases (s.count == 0)) [ inl e ↦ rw e idle | inr e ↦ rw e idle ]

  loop_idle :
      (s : State A)
      → FifoStep
          (view s)
          (view (if ltb (length s.done) num then wait s else record s { worker = stopped }))
  loop_idle s = elim (Bool-cases (ltb (length s.done) num)) [
    | inl e ↦ rw e (wait_idle s)
    | inr e ↦ rw e idle
  ]

  front_idle :
      (s t : State A) (q : List A) → s.queue ≡ q → front s ≡ some t → FifoStep (view s) (view t)
  unfolding front
  front_idle s t [] e h = absurd (none-ne-some t (rw e at h))
  front_idle s t (x ∷ rest) e h =
      subst (λ u. FifoStep (view s) (view u)) (some-injective _ _ (rw e at h)) (rw e idle)

  pop_take :
      (s t : State A) (x : A) (rest : List A)
      → s.queue ≡ x ∷ rest
      → pop x s ≡ some t
      → FifoStep (view s) (view t)
  unfolding pop
  pop_take s t x rest e h =
      subst (λ u. FifoStep (view s) (view u)) (some-injective _ _ (rw e at h)) (rw e (take x))

  work_refines :
      (s t : State A) (w : Worker A)
      → s.worker ≡ w
      → Stands num w s
      → work num s ≡ some t
      → FifoStep (view s) (view t)
  unfolding work
  work_refines s t at_loop e o h =
      subst (λ u. FifoStep (view s) (view u)) (some-injective _ _ (sym (work-wait num s e) ∙ h))
        (loop_idle s)
  work_refines s t asleep e o h = absurd (none-ne-some t (rw e at h))
  work_refines s t woken e o h =
      subst (λ u. FifoStep (view s) (view u)) (some-injective _ _ (rw e at h)) idle
  work_refines s t working e o h = front_idle s t s.queue refl (sym (work-front num s e) ∙ h)
  work_refines s t (xoring x) e o h = pop_take s t x o.1 o.2 (sym (work-pop num s x e) ∙ h)
  work_refines s t stopped e o h = absurd (none-ne-some t (rw e at h))

  notify_refines : (s t : State A) → notify s ≡ some t → FifoStep (view s) (view t)
  unfolding notify
  notify_refines s t h = elim (Bool-cases (s.pending == 0)) [
    | inl e ↦ absurd (none-ne-some t (rw e at h))
    | inr e ↦ subst (λ u. FifoStep (view s) (view u)) (some-injective _ _ (rw e at h)) idle
  ]

  push_refines : (x : A) (s : State A) → FifoStep (view s) (view (push x s))
  unfolding push
  push_refines x s = put x

  -- In every state that can be reached without a spurious wake-up each step, of a producer or of the worker, is a step of the
  -- abstract queue: it puts a segment in behind the others, takes the first one out, or leaves the
  -- queue as it is.
  pub refines_lem :
      (pushed : List A) (s : State A)
      → length pushed < 2 ^ 64
      → Reached num 0 pushed s
      → ((x : A) → FifoStep (view s) (view (push x s)))
        × ((t : State A) → notify s ≡ some t → FifoStep (view s) (view t))
        × ((t : State A) → work num s ≡ some t → FifoStep (view s) (view t))
  refines_lem pushed s small r =
      let o = reached-IsOrderly num pushed s small r in
      (λ x. push_refines x s, notify_refines s, λ t. work_refines s t s.worker refl o.stands)
