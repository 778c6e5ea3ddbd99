-- ===== src/Setup/Count.antt =====
-- The number of steps of a session: each connection takes three, `listen`, `connect` and `accept`.
use malicious_mpsi.Base.{
  ℕ, zero, suc, ◌+◌, ◌-◌, ◌*◌, ◌<◌, ◌≤◌, ◌≡◌, ◌≢◌, refl, sym, subst, false, ◌∙◌, ap, ap₂, ◌⊎◌, inl,
  inr, arith, ltb, eq-cases, ne→==, eq→==, Bool-cases, ltb→lt,
}
use malicious_mpsi.Setup.{
  Place, reaching, offering, taking, finished, serve, reached_party, System, initial, put, Step,
  dial, offer, accept, offer_p0, accept_p0, Steps, here, later, IsDone,
}
use malicious_mpsi.Setup.Valid.{IsValid, IsPlace, Steps-IsValid}
use malicious_mpsi.Setup.Live.{valid-Moves}

-- What party `i` still has to do.
abbrev rank : ℕ → ℕ → Place → ℕ
rank parties i (reaching p) = i - p + 2 * (parties - suc i)
rank parties i (offering q) = 2 * (parties - q)
rank parties i (taking q) = 2 * (parties - q) - 1
rank parties i finished = 0

abbrev rank_p0 : Place → ℕ
rank_p0 (reaching p) = 0
rank_p0 (offering q) = 2
rank_p0 (taking q) = 1
rank_p0 finished = 0

-- The sum over 1, …, `n`.
abbrev sum_to : (ℕ → ℕ) → ℕ → ℕ
sum_to g zero = 0
sum_to g (suc n) = sum_to g n + g (suc n)

sum_same : (g h : ℕ → ℕ) (n i : ℕ) → ((j : ℕ) → j ≢ i → h j ≡ g j) → n < i → sum_to h n ≡ sum_to g n
sum_same g h zero i same l = refl
sum_same g h (suc n) i same l =
    ap₂ (λ x y. x + y) (sum_same g h n i same (omega arith)) (same (suc n) (λ e. omega arith))

sum_step :
    (g h : ℕ → ℕ) (n i : ℕ)
    → 0 < i
    → i < suc n
    → suc (h i) ≡ g i
    → ((j : ℕ) → j ≢ i → h j ≡ g j)
    → suc (sum_to h n) ≡ sum_to g n
sum_step g h zero i p l e same = absurd (omega arith)
sum_step g h (suc n) i p l e same = elim (eq-cases (suc n) i) [
  | inl q ↦ omega (arith, sum_same g h n i same (omega arith), ap h q, ap g q)
  | inr q ↦ omega (arith, sum_step g h n i p (omega arith) e same, same (suc n) q)
]

put_other : (f : ℕ → Place) (i j : ℕ) (x : Place) → j ≢ i → put f i x j ≡ f j
unfolding put
put_other f i j x h = rw (ne→== j i h) refl

put_self : (f : ℕ → Place) (i : ℕ) (x : Place) → put f i x i ≡ x
unfolding put
put_self f i x = rw (eq→== i i refl) refl

abbrev total : ℕ → System → ℕ
total parties s =
    sum_to (λ i. rank parties i (s.pi i)) (parties - 1)
    + sum_to (λ i. rank_p0 (s.p0 i)) (parties - 1)

put_rank :
    (r : ℕ → Place → ℕ) (f : ℕ → Place) (n i : ℕ) (x : Place)
    → 0 < i
    → i < n
    → suc (r i x) ≡ r i (f i)
    → suc (sum_to (λ j. r j (put f i x j)) (n - 1)) ≡ sum_to (λ j. r j (f j)) (n - 1)
put_rank r f n i x p l e =
    sum_step (λ j. r j (f j)) (λ j. r j (put f i x j)) (n - 1) i p (omega arith)
      (ap (λ y. suc (r i y)) (put_self f i x) ∙ e) (λ j h. ap (r j) (put_other f i j x h))

rank-serve : (parties i q : ℕ) → rank parties i (serve parties q) ≡ 2 * (parties - q)
unfolding serve
rank-serve parties i q = elim (Bool-cases (ltb q parties)) [
  | inl e ↦ rw e refl
  | inr e ↦ rw e (ground arith)
]

ltb-false : (a b : ℕ) → ltb a b ≡ false → b ≤ a
ltb-false a b h = ground arith

rank-reached_party :
    (parties i p : ℕ)
    → p < i
    → suc (rank parties i (reached_party parties i p)) ≡ i - p + 2 * (parties - suc i)
unfolding reached_party
rank-reached_party parties i p h = elim (Bool-cases (ltb (suc p) i)) [
  | inl e ↦ rw e (omega (arith, ltb→lt (suc p) i e))
  | inr e ↦ rw e (omega (arith, rank-serve parties i (suc i), ltb-false (suc p) i e))
]

at_place : (parties i : ℕ) {x y : Place} → x ≡ y → rank parties i y ≡ rank parties i x
at_place parties i e = ap (rank parties i) (sym e)

add_right : {a b : ℕ} (c : ℕ) → suc a ≡ b → suc (a + c) ≡ b + c
add_right c e = omega arith

-- Each step leaves one less.
Step-total :
    {parties : ℕ} {s t : System}
    → IsValid parties s
    → Step parties s t
    → suc (total parties t) ≡ total parties s
Step-total {parties} {s} v (dial i p h l e x w) = add_right _ (
    put_rank (rank parties) s.pi parties i _ h l (
      rank-reached_party parties i p (subst (IsPlace parties i) e (v.parties_at i h))
      ∙ at_place parties i e))
Step-total {parties} {s} v (offer i q h l e) =
    let at : IsPlace parties i (offering q) = subst (IsPlace parties i) e (v.parties_at i h) in
    add_right _ (put_rank (rank parties) s.pi parties i _ h l (omega arith ∙ at_place parties i e))
Step-total {parties} {s} v (accept i q h l e x) =
    let at : IsPlace parties i (taking q) = subst (IsPlace parties i) e (v.parties_at i h) in
    add_right _ (
      put_rank (rank parties) s.pi parties i _ h l
        (ap suc (rank-serve parties i (suc q)) ∙ omega arith ∙ at_place parties i e))
Step-total {parties} {s} v (offer_p0 i h l e) =
    omega (arith, put_rank (λ j x. rank_p0 x) s.p0 parties i (taking i) h l (ap rank_p0 (sym e)))
Step-total {parties} {s} v (accept_p0 i h l e x) =
    omega (arith, put_rank (λ j x. rank_p0 x) s.p0 parties i finished h l (ap rank_p0 (sym e)))

Steps-total :
    {parties n : ℕ} {s : System}
    → Steps parties initial n s
    → n + total parties s ≡ total parties initial
Steps-total here = omega arith
Steps-total (later r x) = omega (arith, Steps-total r, Step-total (Steps-IsValid r) x)

sum-parties :
    (n m : ℕ) → m ≤ n → 2 * sum_to (λ i. rank (suc n) i (reaching 0)) m + m * (m + 1) ≡ 4 * (n * m)
sum-parties n zero h = omega arith
sum-parties n (suc m) h = grind (arith, sum-parties n m)

sum-threads : (m : ℕ) → sum_to (λ i. rank_p0 (offering i)) m ≡ 2 * m
sum-threads zero = refl
sum-threads (suc m) = omega (arith, sum-threads m)

total-initial : (n : ℕ) → 2 * total (suc n) initial ≡ 3 * (suc n * n)
unfolding initial
total-initial n =
    let e : suc n - 1 ≡ n = omega arith in
    rw e (grind (arith, sum-parties n n (omega arith), sum-threads n))

sum-nothing : (g : ℕ → ℕ) (m : ℕ) → ((i : ℕ) → 0 < i → i ≤ m → g i ≡ 0) → sum_to g m ≡ 0
sum-nothing g zero h = refl
sum-nothing g (suc m) h =
    omega
      (arith, sum-nothing g m (λ i p l. h i p (omega arith)), h (suc m) (omega arith) (omega arith))

done-total : (k : ℕ) (s : System) → IsDone (suc k) s → total (suc k) s ≡ 0
done-total k s d =
    let e : suc k - 1 ≡ k = omega arith in
    rw e (
      omega (
        arith,
        sum-nothing (λ i. rank (suc k) i (s.pi i)) k
            (λ i p l. ap (rank (suc k) i) (d i p (omega arith)).0),
        sum-nothing (λ i. rank_p0 (s.p0 i)) k (λ i p l. ap rank_p0 (d i p (omega arith)).1),
      ))

-- After `n` steps from the start, in any order of the parties, `n` is at most three for each pair of
-- parties; and either all constructors have returned, after exactly that many steps, or a further
-- step is possible. So no order of the parties makes them wait for each other for ever, and every
-- run that goes on ends with all sockets connected.
pub set_up_lem :
    (parties n : ℕ) (s : System)
    → 0 < parties
    → Steps parties initial n s
    → (2 * n ≤ 3 * (parties * (parties - 1)))
      × ((IsDone parties s × (2 * n ≡ 3 * (parties * (parties - 1))))
          ⊎ ((t : System) × Step parties s t))
set_up_lem zero n s h r = absurd (omega arith)
set_up_lem (suc k) n s h r =
    let e : suc k - 1 ≡ k = omega arith in
    let all : n + total (suc k) s ≡ total (suc k) initial = Steps-total r in
    rw e (
      omega (arith, all, total-initial k),
      elim (valid-Moves (suc k) s (Steps-IsValid r)) [
        | inl d ↦ inl (d, omega (arith, all, total-initial k, done-total k s d))
        | inr m ↦ inr m
      ],
    )
