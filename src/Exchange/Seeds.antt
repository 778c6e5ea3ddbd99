-- ===== src/Exchange/Seeds.antt =====
-- The agreement on the common seed: each party ends with the sum of all seeds.
use mathlib.Core.Bool.{false≢true}
use malicious_mpsi.Base.{
  ℕ, zero, suc, ◌+◌, ◌-◌, ◌≤◌, ◌<◌, ◌≡◌, ◌≢◌, ◌↔◌, refl, sym, ap, subst, ◌∙◌, Bool, true, false,
  List, [], ◌∷◌, Option, some, arith, length, get_or, get_elem?, get_elem?-eq-get_or, range, ◌>>=◌,
  for, Gives, gives, Gives-bind,
}
use malicious_mpsi.Block.{Blocks, Block, ◌⊕◌, xor_over, xor_over_cong}
use malicious_mpsi.Exchange.{
  place, Commitments, Pledge, check_commits, add_seeds, seeds_agreement_pi, seeds_agreement_p0,
}
use malicious_mpsi.Exchange.Places.{
  party, party-place, party_ne, place_lt, party_le, Received, read_pi_lem, read_p0_lem,
  xor_over-party, range_lt,
}

module _ ⦃b : Blocks⦄ ⦃o : Commitments⦄ where
  -- The pledge opens: its commitment is that of its seed.
  abbrev pub IsHonest : Pledge → Type 0
  IsHonest pledge = pledge.0 ≡ o.commit_to pledge.1

  head_or_rest :
      (d : Pledge) (commit : o.Commit) (seed : Block) (rest : List Pledge)
      → (check_commits rest ≡ true → (k : ℕ) → k < length rest → IsHonest (get_or rest k d))
      → check_commits rest ≡ true
      → commit ≡ o.commit_to seed
      → (k : ℕ) → k < suc (length rest)
      → IsHonest (get_or ((commit, seed) ∷ rest) k d)
  head_or_rest d commit seed rest f t e zero h = e
  head_or_rest d commit seed rest f t e (suc k) h = f t k (omega arith)

  check_commits_lem :
      (d : Pledge) (recv : List Pledge)
      → (check_commits recv ≡ true) ↔ ((k : ℕ) → k < length recv → IsHonest (get_or recv k d))
  unfolding check_commits
  check_commits_lem d [] = (λ e k h. absurd (omega arith), λ h. refl)
  check_commits_lem d ((commit, seed) ∷ rest) =
      elim (o.commit_eq commit (o.commit_to seed))
        as (λ q.
          (elim q [ yes _ ↦ check_commits rest | no _ ↦ false ] ≡ true)
          ↔ ((k : ℕ) → k < suc (length rest) → IsHonest (get_or ((commit, seed) ∷ rest) k d))) [
            | yes e ↦ (
              λ t k h. head_or_rest d commit seed rest (check_commits_lem d rest).0 t e k h,
              λ h. (check_commits_lem d rest).1 (λ k l. h (suc k) (omega arith)),
            )
            | no e ↦ (λ t. absurd (false≢true t), λ h. absurd (e (h 0 (omega arith))))
          ]

  add_seeds_from :
      (d : Pledge) (recv : List Pledge) (n i : ℕ) (seed : Block)
      → i + n ≤ length recv
      → for n i (λ p seed. do x ← get_elem? recv p; some (seed ⊕ x.1)) seed
        ≡ some (seed ⊕ xor_over (λ k. (get_or recv k d).1) (range i n))
  unfolding for
  add_seeds_from d recv zero i seed h = ap some (sym (b.xor_zero seed))
  add_seeds_from d recv (suc n) i seed h = rw (get_elem?-eq-get_or recv i d (omega arith)) (
      add_seeds_from d recv n (suc i) (seed ⊕ (get_or recv i d).1) (omega arith)
      ∙ ap some (b.xor_assoc seed _ _))

  module _ (n : ℕ) (pledge : ℕ → Pledge) (player : ℕ) where
    -- What an agreement among `n + 1` parties gives one of them.
    abbrev pub Agreed : Bool × Block → Type 0
    Agreed r =
        (r.1 ≡ xor_over (λ p. (pledge p).1) (range 0 (suc n)))
        × ((r.0 ≡ true) ↔ ((p : ℕ) → p < suc n → p ≢ player → IsHonest (pledge p)))

    agree :
        (recv : List Pledge)
        → player < suc n
        → Received player n pledge (pledge 0) (suc n) recv
        → Gives Agreed
            (do common ← add_seeds n recv (pledge player).1; some (check_commits recv, common))
    unfolding add_seeds
    agree recv member x =
        rw (add_seeds_from (pledge 0) recv n 0 (pledge player).1 (omega (arith, x.size))) (
          gives (
            b.xor_comm _ _
                ∙ ap (λ t. t ⊕ (pledge player).1)
                    (xor_over_cong _ (λ k. (pledge (party player k)).1) (range 0 n)
                      (λ k i. ap (λ t. t.1) (at k (omega (arith, range_lt 0 n k i)))))
                ∙ xor_over-party (λ p. (pledge p).1) player n member,
            (
              λ t p h ne.
                  subst IsHonest
                    (at (place player p) (place_lt player p n ne h member)
                      ∙ ap pledge (party-place player p ne))
                    ((check_commits_lem (pledge 0) recv).0 t (place player p)
                      (rw (x.size) (place_lt player p n ne h member))),
              λ h. (check_commits_lem (pledge 0) recv).1 (λ k l.
                  let in_place : k < n = omega (arith, x.size, l) in
                  subst IsHonest (sym (at k in_place))
                    (h (party player k) (party_le player k n in_place) (party_ne player k))),
            ),
          ))
      where
        at : (k : ℕ) → k < n → get_or recv k (pledge 0) ≡ pledge (party player k)
        at k h = x.holds k h (party_le player k n h)

  module _ (n : ℕ) (pledge : ℕ → Pledge) (incoming : ℕ → Option Pledge) (memory : List Pledge)
      (size : length memory ≡ n) where
    pub agreement_p0 :
        ((p : ℕ) → p < suc n → p ≢ 0 → incoming p ≡ some (pledge p))
        → Gives (Agreed n pledge 0) (seeds_agreement_p0 n incoming memory (pledge 0).1)
    unfolding seeds_agreement_p0
    agreement_p0 sent =
        Gives-bind (read_p0_lem n pledge (pledge 0) incoming memory size sent)
          (λ recv x. agree n pledge 0 recv (omega arith) x)

    pub agreement_pi :
        (player : ℕ)
        → player < suc n
        → ((p : ℕ) → p < suc n → p ≢ player → incoming p ≡ some (pledge p))
        → Gives
            (Agreed n pledge player)
            (seeds_agreement_pi (suc n) player incoming memory (pledge player).1)
    unfolding seeds_agreement_pi
    agreement_pi player h sent = rw (pred n) (
        Gives-bind (read_pi_lem player n pledge (pledge 0) incoming memory h size sent)
          (λ recv x. agree n pledge player recv h x))
      where
        pred : (m : ℕ) → suc m - 1 ≡ m
        pred m = omega arith

  -- Each of `n + 1` parties sends every other one the same pledge. Then each of them, the instances
  -- of P0 included, ends with the sum of all seeds, which is one value for all. The flag, which the
  -- code only prints, is set exactly when each pledge received is honest.
  pub seeds_agreement_lem :
      (n : ℕ) (pledge : ℕ → Pledge) (player : ℕ) (memory : List Pledge)
      → player < suc n
      → length memory ≡ n
      → Gives (Agreed n pledge 0) (seeds_agreement_p0 n (λ p. some (pledge p)) memory (pledge 0).1)
        × Gives
            (Agreed n pledge player)
            (seeds_agreement_pi (suc n) player (λ p. some (pledge p)) memory (pledge player).1)
  seeds_agreement_lem n pledge player memory h size =
      let incoming = λ (p : ℕ). some (pledge p) in
      (
        agreement_p0 n pledge incoming memory size (λ p l ne. refl),
        agreement_pi n pledge incoming memory size player h (λ p l ne. refl),
      )
