-- ===== src/Protocol/Sums.antt =====
-- The sums over parties, and the hash sets of all items.
use malicious_mpsi.Base.{
  ℕ, zero, suc, ◌+◌, ◌≤◌, ◌<◌, ◌≡◌, refl, sym, ◌∙◌, ap, ap₂, inl, inr, List, [], ◌∷◌, map, arith,
  length, get_or, range, All, ◌∈◌,
}
use malicious_mpsi.Block.{
  Blocks, Block, ◌⊕◌, block0, cell, xor_over, xor_over_cong, xor_over-⊕, xor_over_exchange,
  xor_over_zero, ⊕_swap,
}
use malicious_mpsi.Random.{Random}
use malicious_mpsi.Exchange.Places.{range_lt}
use malicious_mpsi.Codeword.Run.{HasCodewords}
use malicious_mpsi.Protocol.{with_sets}

module _ ⦃b : Blocks⦄ where
  xor_over-range_from :
      (f : ℕ → Block) (i n : ℕ)
      → xor_over f (range (suc i) n) ≡ xor_over (λ j. f (suc j)) (range i n)
  xor_over-range_from f i zero = refl
  xor_over-range_from f i (suc n) = ap (b.xor _) (xor_over-range_from f (suc i) n)

  pub xor_over-map :
      {A : Type 0} {B : Type 0} (f : B → Block) (g : A → B) (xs : List A)
      → xor_over f (map g xs) ≡ xor_over (λ x. f (g x)) xs
  xor_over-map f g [] = refl
  xor_over-map f g (x ∷ xs) = ap (b.xor _) (xor_over-map f g xs)

  -- Shares that cancel, and what pairs of parties add, which cancels too.
  pub totals_cancel :
      (n : ℕ) (t s e0 e : ℕ → Block)
      → t 0 ≡ s 0 ⊕ xor_over e0 (range 0 n)
      → ((j : ℕ) → j < n → t (suc j) ≡ s (suc j) ⊕ e j)
      → ((j : ℕ) → j < n → e0 j ⊕ e j ≡ block0)
      → xor_over s (range 0 (suc n)) ≡ block0
      → xor_over t (range 0 (suc n)) ≡ block0
  totals_cancel n t s e0 e z h c sums =
      ap₂ b.xor z (
        xor_over-range_from t 0 n
        ∙ xor_over_cong (λ j. t (suc j)) (λ j. s (suc j) ⊕ e j) (range 0 n) (λ j i. h j (low j i))
        ∙ xor_over-⊕ (λ j. s (suc j)) e (range 0 n))
      ∙ ⊕_swap _ _ _ _
      ∙ ap₂ b.xor (ap (b.xor (s 0)) (sym (xor_over-range_from s 0 n)) ∙ sums) (
          sym (xor_over-⊕ e0 e (range 0 n))
          ∙ xor_over_cong (λ j. e0 j ⊕ e j) (λ j. block0) (range 0 n) (λ j i. c j (low j i))
          ∙ xor_over_zero (range 0 n))
      ∙ b.xor_zero _
    where
      low : (j : ℕ) → j ∈ range 0 n → j < n
      low j i = omega (arith, range_lt 0 n j i)

  -- P0's cells and the messages `m`, of which each has a party's sum over the hash set.
  pub collected_zero :
      (n : ℕ) (js : List ℕ) (v : ℕ → Block) (t m : ℕ → ℕ → Block)
      → ((k : ℕ) → k ∈ js → v k ≡ t 0 k ⊕ xor_over (λ p. m p k) (range 1 n))
      → ((p : ℕ) → p ∈ range 1 n → xor_over (m p) js ≡ xor_over (t p) js)
      → ((k : ℕ) → k ∈ js → xor_over (λ p. t p k) (range 0 (suc n)) ≡ block0)
      → xor_over v js ≡ block0
  collected_zero n js v t m h same z =
      xor_over_cong v (λ k. t 0 k ⊕ xor_over (λ p. m p k) (range 1 n)) js h
      ∙ xor_over-⊕ (t 0) (λ k. xor_over (λ p. m p k) (range 1 n)) js
      ∙ ap (b.xor (xor_over (t 0) js)) (
          xor_over_exchange (λ k p. m p k) js (range 1 n)
          ∙ xor_over_cong (λ p. xor_over (m p) js) (λ p. xor_over (t p) js) (range 1 n) same)
      ∙ xor_over_exchange t (range 0 (suc n)) js
      ∙ xor_over_cong (λ k. xor_over (λ p. t p k) (range 0 (suc n))) (λ k. block0) js z
      ∙ xor_over_zero js

module _ ⦃b : Blocks⦄ ⦃r : Random⦄ where
  -- The codeword of the set at an index.
  pub codeword_at :
      (sets : List (List ℕ)) (f : List ℕ → Block) (gbf : List Block) (i : ℕ)
      → HasCodewords sets (map f sets) gbf
      → i < length sets
      → xor_over (cell gbf) (get_or sets i []) ≡ f (get_or sets i [])
  codeword_at [] f gbf i c h = absurd (omega arith)
  codeword_at (js ∷ rest) f gbf zero c h = c.0
  codeword_at (js ∷ rest) f gbf (suc i) c h = codeword_at rest f gbf i c.1 (omega arith)

-- A member of a list has an index.
pub index_of : (e : ℕ) (xs : List ℕ) → e ∈ xs → (i : ℕ) × (i < length xs) × (get_or xs i 0 ≡ e)
index_of e [] h = absurd h
index_of e (x ∷ xs) (inl q) = (0, omega arith, sym q)
index_of e (x ∷ xs) (inr h) = let (i, l, q) = index_of e xs h in (suc i, omega arith, q)

pub All-get_or :
    {A : Type 0} (P : A → Type 0) (d : A) (xs : List A)
    → ((i : ℕ) → i < length xs → P (get_or xs i d))
    → All P xs
All-get_or P d [] h = tt
All-get_or P d (x ∷ xs) h = (h 0 (omega arith), All-get_or P d xs (λ i l. h (suc i) (omega arith)))

pub All-with_sets :
    (P : List ℕ → Type 0) (items : List ℕ) (sets : List (List ℕ))
    → All P sets
    → All (λ entry. P entry.1) (with_sets items sets)
unfolding with_sets
All-with_sets P [] sets h = tt
All-with_sets P (x ∷ xs) [] h = tt
All-with_sets P (x ∷ xs) (js ∷ sets) h = (h.0, All-with_sets P xs sets h.1)

pub mem-with_sets :
    (items : List ℕ) (sets : List (List ℕ)) (i : ℕ)
    → i < length items
    → i < length sets
    → (get_or items i 0, get_or sets i []) ∈ with_sets items sets
unfolding with_sets
mem-with_sets [] sets i h l = absurd (omega arith)
mem-with_sets (x ∷ xs) [] i h l = absurd (omega arith)
mem-with_sets (x ∷ xs) (js ∷ sets) zero h l = inl refl
mem-with_sets (x ∷ xs) (js ∷ sets) (suc i) h l =
    inr (mem-with_sets xs sets i (omega arith) (omega arith))

pub item_of-with_sets :
    (items : List ℕ) (sets : List (List ℕ)) (e : ℕ) (js : List ℕ)
    → (e, js) ∈ with_sets items sets
    → e ∈ items
unfolding with_sets
item_of-with_sets [] sets e js h = absurd h
item_of-with_sets (x ∷ xs) [] e js h = absurd h
item_of-with_sets (x ∷ xs) (s ∷ sets) e js (inl q) = inl (ap (λ t. t.0) q)
item_of-with_sets (x ∷ xs) (s ∷ sets) e js (inr h) = inr (item_of-with_sets xs sets e js h)

pub All-range : (P : ℕ → Type 0) (i n : ℕ) → ((k : ℕ) → i ≤ k → k < i + n → P k) → All P (range i n)
All-range P i zero h = tt
All-range P i (suc n) h = (
  h i (omega arith) (omega arith),
  All-range P (suc i) n (λ k p q. h k (omega arith) (omega arith)),
)
