-- ===== src/Arrange/Shuffle.antt =====
-- Shuffling rearranges a vector of at least two entries, and faults on a shorter one.
use malicious_mpsi.Base.{
  ℕ, zero, suc, ◌-◌, ◌%◌, ◌≤◌, ◌<◌, ◌≡◌, ◌⊎◌, inl, inr, refl, List, [], ◌∷◌, none, arith, length,
  get_or, get_elem?-eq-get_or, Gives, gives, Gives-bind, Gives-map, ne→==, Rearranged,
  Rearranged_refl, Rearranged_trans, swap-Swapped, Swapped-Rearranged,
}
use malicious_mpsi.Arrange.{swap_random, shuffle_down, shuffling}

swap_random-Rearranged :
    (rand : List ℕ) (place i : ℕ) (arr : List ℕ)
    → 0 < i
    → i < length rand
    → i < length arr
    → place ≤ i
    → Gives (Rearranged 0 arr) (swap_random rand place i arr)
unfolding swap_random
swap_random-Rearranged rand place i arr pos p q l =
    let in_range : get_or rand i 0 % i < length arr = omega arith in
    rw (get_elem?-eq-get_or rand i 0 p) (
      rw (ne→== i 0 (omega arith)) (
        Gives-map (swap-Swapped 0 place (get_or rand i 0 % i) arr (omega arith) in_range)
          (λ u x. Swapped-Rearranged (omega arith) in_range x)))

shuffle_down-Rearranged :
    (rand : List ℕ) (i : ℕ) (arr : List ℕ)
    → i < length rand
    → i < length arr
    → Gives (Rearranged 0 arr) (shuffle_down rand i arr)
unfolding shuffle_down
shuffle_down-Rearranged rand zero arr p q = gives (Rearranged_refl 0 arr)
shuffle_down-Rearranged rand (suc i) arr p q =
    Gives-bind (swap_random-Rearranged rand (suc i) (suc i) arr (omega arith) p q (omega arith))
      λ u x.
        Gives-map (shuffle_down-Rearranged rand i u (omega arith) (omega (arith, x.same_length)))
          (λ v y. Rearranged_trans x y)

pub shuffling-Rearranged :
    (arr rand : List ℕ)
    → length rand ≡ length arr
    → 2 ≤ length arr
    → Gives (Rearranged 0 arr) (shuffling arr rand)
unfolding shuffling
shuffling-Rearranged arr rand e h = rw (ne→== (length arr) 0 (omega arith)) (
    Gives-bind
      (swap_random-Rearranged rand 0 (length arr - 1) arr (omega arith) (omega arith) (omega arith)
        (omega arith))
      λ u x.
        Gives-map
          (shuffle_down-Rearranged rand (length arr - 1) u (omega arith)
            (omega (arith, x.same_length)))
          (λ v y. Rearranged_trans x y))

shuffling_short :
    (arr rand : List ℕ) → length rand ≡ length arr → length arr < 2 → shuffling arr rand ≡ none
unfolding shuffling swap_random
shuffling_short [] rand e h = refl
shuffling_short (x ∷ []) [] e h = absurd (omega arith)
shuffling_short (x ∷ []) (y ∷ rand) e h = refl
shuffling_short (x ∷ x' ∷ xs) rand e h = absurd (omega arith)

-- With as many random words as entries, a vector of at least two entries is rearranged, whatever the
-- words; for a shorter one the code divides by 0 or reads before the array.
pub shuffling_lem :
    (arr rand : List ℕ)
    → length rand ≡ length arr
    → ((2 ≤ length arr) × Gives (Rearranged 0 arr) (shuffling arr rand))
      ⊎ ((length arr < 2) × (shuffling arr rand ≡ none))
shuffling_lem arr rand e = elim (size (length arr)) [
  | inl h ↦ inl (h, shuffling-Rearranged arr rand e h)
  | inr h ↦ inr (h, shuffling_short arr rand e h)
]
  where
    size : (n : ℕ) → (2 ≤ n) ⊎ (n < 2)
    size n = grind arith
