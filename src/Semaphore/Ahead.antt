-- ===== src/Semaphore/Ahead.antt =====
-- Every step of the worker brings it nearer to the end of its loop.
use malicious_mpsi.Base.{
  ℕ, ◌+◌, ◌*◌, ◌<◌, ◌≡◌, ◌≢◌, refl, sym, ap, subst, inl, inr, List, [], ◌∷◌, some, arith, length,
  ltb, if◌then◌else◌, Bool-cases, ne→==, ltb→lt, Gives, gives,
}
use malicious_mpsi.Semaphore.{
  Worker, at_loop, asleep, woken, working, xoring, stopped, State, wait, front, pop, work,
}
use malicious_mpsi.Semaphore.Producers.{held}
use malicious_mpsi.Semaphore.Order.{IsRunning}

module _ {A : Type 0} where
  -- How far the worker is from the end of the work on a segment.
  abbrev pub rank : Worker A → ℕ
  rank at_loop = 2
  rank asleep = 2
  rank woken = 2
  rank working = 1
  rank (xoring x) = 0
  rank stopped = 0

  abbrev pub measure : State A → ℕ
  measure s = 3 * length s.queue + rank s.worker

  abbrev pub IsAhead : State A → State A → Type 0
  IsAhead s t = (measure t < measure s) × (t.pending ≡ s.pending)

module _ {A : Type 0} (num : ℕ) where
  front-IsAhead :
      (s : State A) (q : List A)
      → s.worker ≡ working
      → s.queue ≡ q
      → 0 < length q
      → Gives (IsAhead s) (front s)
  unfolding front
  front-IsAhead s [] w e h = absurd (omega arith)
  front-IsAhead s (x ∷ rest) w e h = rw (w, e) (gives (omega (arith, ap length e), refl))

  pop-IsAhead :
      (s : State A) (x : A) (q : List A)
      → s.worker ≡ xoring x
      → s.queue ≡ q
      → 0 < length q
      → Gives (IsAhead s) (pop x s)
  unfolding pop
  pop-IsAhead s x [] w e h = absurd (omega arith)
  pop-IsAhead s x (y ∷ rest) w e h = rw (w, e) (gives (omega arith, refl))

  work_loop-IsAhead :
      (s : State A)
      → s.worker ≡ at_loop
      → (length s.done < num → 0 < s.count)
      → Gives (IsAhead s) (work num s)
  unfolding work wait
  work_loop-IsAhead s w h = elim (Bool-cases (ltb (length s.done) num)) [
    | inl l ↦
        let some_left : s.count ≢ 0 = λ z. absurd (omega (arith, h (ltb→lt _ _ l))) in
        rw (w, l, ne→== s.count 0 some_left) (gives (omega arith, refl))
    | inr g ↦ rw (w, g) (gives (omega arith, refl))
  ]

  pub work-wait :
      (s : State A)
      → s.worker ≡ at_loop
      → work num s
        ≡ some (if ltb (length s.done) num then wait s else record s { worker = stopped })
  unfolding work wait
  work-wait s e = rw e refl

  pub work-front : (s : State A) → s.worker ≡ working → work num s ≡ front s
  unfolding work front
  work-front s e = rw e refl

  pub work-pop : (s : State A) (x : A) → s.worker ≡ xoring x → work num s ≡ pop x s
  unfolding work pop
  work-pop s x e = rw e refl

  pub work-IsAhead :
      (s : State A) (w : Worker A)
      → s.worker ≡ w
      → IsRunning num w
      → (length s.done < num → w ≡ at_loop → 0 < s.count)
      → (0 < held num w → 0 < length s.queue)
      → Gives (IsAhead s) (work num s)
  unfolding work
  work-IsAhead s at_loop e h left taken = work_loop-IsAhead s e (λ l. left l refl)
  work-IsAhead s asleep e h left taken = absurd h
  work-IsAhead s woken e h left taken = rw e (gives (omega arith, refl))
  work-IsAhead s working e h left taken =
      subst (Gives (IsAhead s)) (sym (work-front s e))
        (front-IsAhead s s.queue e refl (taken (omega arith)))
  work-IsAhead s (xoring x) e h left taken =
      subst (Gives (IsAhead s)) (sym (work-pop s x e))
        (pop-IsAhead s x s.queue e refl (taken (omega arith)))
  work-IsAhead s stopped e h left taken = absurd h
