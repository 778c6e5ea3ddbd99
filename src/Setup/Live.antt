-- ===== src/Setup/Live.antt =====
-- No party waits for ever: the argument goes by the lowest party that has not come to its end.
use malicious_mpsi.Base.{
  ℕ, zero, suc, ◌<◌, ◌≤◌, ◌≡◌, ◌≢◌, refl, sym, subst, ◌⊎◌, inl, inr, arith, ap, eq-cases,
}
use malicious_mpsi.Exchange.Ports.{set_ports_lem}
use malicious_mpsi.Setup.{
  Place, reaching, offering, taking, finished, System, SamePort, Step, dial, offer, accept,
  offer_p0, accept_p0, IsDone,
}
use malicious_mpsi.Setup.Valid.{IsPlace, IsPlaceP0, IsValid}

abbrev Moves : ℕ → System → Type 0
Moves parties s = (t : System) × Step parties s t

pub same_port : (parties p i : ℕ) → p < parties → i < parties → SamePort parties p i
same_port parties p i h l =
    let x = set_ports_lem parties p i p i h l h l in (x.0, x.1, x.3, x.4, x.6.0)

-- The lowest place that is not at its end.
abbrev Lowest : (ℕ → Place) → ℕ → ℕ → Type 0
Lowest f n i = (0 < i) × (i < n) × (f i ≢ finished) × ((j : ℕ) → 0 < j → j < i → f j ≡ finished)

abbrev AllFinished : (ℕ → Place) → ℕ → Type 0
AllFinished f n = (j : ℕ) → 0 < j → j < n → f j ≡ finished

finished-cases : (x : Place) → (x ≡ finished) ⊎ (x ≢ finished)
finished-cases (reaching p) = inr (λ e. cc)
finished-cases (offering p) = inr (λ e. cc)
finished-cases (taking p) = inr (λ e. cc)
finished-cases finished = inl refl

extended :
    (f : ℕ → Place) (n : ℕ)
    → AllFinished f (suc n)
    → f (suc n) ≡ finished
    → AllFinished f (suc (suc n))
extended f n a e j h l = elim (eq-cases j (suc n)) [
  | inl p ↦ subst (λ t. f t ≡ finished) (sym p) e
  | inr p ↦ a j h (omega arith)
]

lowest : (f : ℕ → Place) (n : ℕ) → AllFinished f n ⊎ ((i : ℕ) × Lowest f n i)
lowest f zero = inl (λ j h l. absurd (omega arith))
lowest f (suc zero) = inl (λ j h l. absurd (omega arith))
lowest f (suc (suc n)) = elim (lowest f (suc n)) [
  | inr (i, (h, l, ne, below)) ↦ inr (i, (h, omega arith, ne, below))
  | inl a ↦ elim (finished-cases (f (suc n))) [
    | inl e ↦ inl (extended f n a e)
    | inr ne ↦ inr (suc n, (omega arith, omega arith, ne, a))
  ]
]

module _ (parties : ℕ) (s : System) (v : IsValid parties s) where
  -- P0's thread for a party listens, or can.
  dial_p0 :
      (q : ℕ) (x : Place)
      → 0 < q
      → q < parties
      → s.pi q ≡ reaching 0
      → s.p0 q ≡ x
      → IsPlaceP0 q x
      → Moves parties s
  dial_p0 q (reaching p) h l e k y = absurd y
  dial_p0 q (offering j) h l e k y = (_, offer_p0 q h l (rw k (ap offering y)))
  dial_p0 q (taking j) h l e k y =
      (_, dial q 0 h l e (rw k (omega arith)) (same_port parties 0 q (omega arith) l))
  dial_p0 q finished h l e k y =
      (_, dial q 0 h l e (rw k tt) (same_port parties 0 q (omega arith) l))

  -- A party that connects to P0, or to a party that has come to its end.
  dial_lower :
      (q p : ℕ)
      → 0 < q
      → q < parties
      → p < parties
      → s.pi q ≡ reaching p
      → (0 < p → s.pi p ≡ finished)
      → Moves parties s
  dial_lower q zero h l k e done = dial_p0 q (s.p0 q) h l e refl (v.threads_at q)
  dial_lower q (suc p) h l k e done =
      (_, dial q (suc p) h l e (rw (done (omega arith)) tt) (same_port parties (suc p) q k l))

  -- A party that waits in `accept`: the other party has connected, or can go on.
  take_from :
      (i q : ℕ) (y : Place)
      → i < q
      → Lowest s.pi parties i
      → q < parties
      → s.pi i ≡ taking q
      → s.pi q ≡ y
      → Moves parties s
  take_from zero q y g x l e k = absurd (omega arith)
  take_from (suc i) q (reaching p) g x l e k = elim (eq-cases p (suc i)) [
    | inl same ↦ (
      _,
      dial q (suc i) (omega arith) l (rw k (ap reaching same)) (rw e (omega arith))
          (same_port parties (suc i) q x.1 l),
    )
    | inr other ↦ elim (lt-cases p (suc i)) [
      | inl low ↦ dial_lower q p (omega arith) l (omega arith) k (λ h. x.3 p h low)
      | inr high ↦ (_, accept (suc i) q x.0 x.1 e (rw k (omega arith)))
    ]
  ]
    where
      lt-cases : (a b : ℕ) → (a < b) ⊎ (b ≤ a)
      lt-cases a b = ground arith
  take_from (suc i) q (offering j) g x l e k = (_, accept (suc i) q x.0 x.1 e (rw k tt))
  take_from (suc i) q (taking j) g x l e k = (_, accept (suc i) q x.0 x.1 e (rw k tt))
  take_from (suc i) q finished g x l e k = (_, accept (suc i) q x.0 x.1 e (rw k tt))

  move-Lowest :
      (i : ℕ) (x : Place)
      → Lowest s.pi parties i
      → s.pi i ≡ x
      → IsPlace parties i x
      → Moves parties s
  move-Lowest i (reaching p) l e y =
      dial_lower i p l.0 l.1 (omega arith) e (λ h. l.3 p h (omega arith))
  move-Lowest i (offering q) l e y = (_, offer i q l.0 l.1 e)
  move-Lowest i (taking q) l e y = take_from i q (s.pi q) y.0 l y.1 e refl
  move-Lowest i finished l e y = absurd (l.2 e)

  -- When all parties are at their ends, P0's threads still are not, and can go on.
  move_p0 :
      (i : ℕ) (x : Place)
      → Lowest s.p0 parties i
      → s.p0 i ≡ x
      → IsPlaceP0 i x
      → s.pi i ≡ finished
      → Moves parties s
  move_p0 i (reaching p) l e y d = absurd y
  move_p0 i (offering j) l e y d = (_, offer_p0 i l.0 l.1 (rw e (ap offering y)))
  move_p0 i (taking j) l e y d = (_, accept_p0 i l.0 l.1 (rw e (ap taking y)) (rw d tt))
  move_p0 i finished l e y d = absurd (l.2 e)

  pub valid-Moves : IsDone parties s ⊎ Moves parties s
  valid-Moves = elim (lowest s.pi parties) [
    | inr (i, l) ↦ inr (move-Lowest i (s.pi i) l refl (v.parties_at i l.0))
    | inl all ↦ elim (lowest s.p0 parties) [
      | inr (i, l) ↦ inr (move_p0 i (s.p0 i) l refl (v.threads_at i) (all i l.0 l.1))
      | inl threads ↦ inl (λ i h k. (all i h k, threads i h k))
    ]
  ]
