-- ===== src/Exchange/Places.antt =====
-- What the reading threads leave in an array: the message of every other party, in its place.
use malicious_mpsi.Base.{
  ◌∈◌, ℕ, zero, suc, ap₂, ◌+◌, ◌≤◌, ◌<◌, ◌≡◌, ◌≢◌, refl, sym, ap, subst, ◌∙◌, inl, inr, List,
  Option, some, arith, length, get_or, store, store_of_lt, length-set, get_or-set_self,
  get_or-set_ne, range, ltb, if◌then◌else◌, eq→==, ne→==, eq-cases, Gives, gives, some-Gives,
  for-Gives, lt→ltb, le→ltb,
}
use malicious_mpsi.Block.{Blocks, Block, ◌⊕◌, block0, xor_over}
use malicious_mpsi.Exchange.{place, read_pi, read_p0}

-- The party whose place is `k`.
abbrev pub party : ℕ → ℕ → ℕ
party player k = if ltb k player then k else suc k

pub party-place : (player p : ℕ) → p ≢ player → party player (place player p) ≡ p
party-place player p h = grind arith

pub party_ne : (player k : ℕ) → party player k ≢ player
party_ne player k h = grind arith

pub place-party : (player k : ℕ) → place player (party player k) ≡ k
place-party player k = grind arith

pub place_lt : (player p n : ℕ) → p ≢ player → p < suc n → player < suc n → place player p < n
place_lt player p n h q r = grind arith

pub party_le : (player k n : ℕ) → k < n → party player k < suc n
party_le player k n h = grind arith

module _ {A : Type 0} (player n : ℕ) (message : ℕ → A) (d : A) where
  -- The messages of the parties below `stop` are in their places.
  pub record Received (stop : ℕ) (recv : List A) : Type 0 where
    pub size : length recv ≡ n
    pub holds : (k : ℕ) → k < n → party player k < stop → get_or recv k d ≡ message (party player k)

  store-Received :
      (p : ℕ) (recv : List A)
      → p ≢ player
      → p < suc n
      → player < suc n
      → Received p recv
      → Gives (Received (suc p)) (store recv (place player p) (message p))
  store-Received p recv ne h q x =
      let within : place player p < length recv = rw (x.size) (place_lt player p n ne h q) in
      some-Gives (store_of_lt recv (place player p) (message p) within) (record {
        size = length-set recv (place player p) (message p) ∙ x.size;
        holds = λ k l s. elim (eq-cases k (place player p)) [
          | inl e ↦
              rw (e, party-place player p ne)
                (get_or-set_self recv (place player p) (message p) d within)
          | inr e ↦
              get_or-set_ne recv (place player p) k (message p) d e
              ∙ x.holds k l (below k s (λ z. e (sym (place-party player k) ∙ ap (place player) z)))
        ];
      })
    where
      below : (k : ℕ) → party player k < suc p → party player k ≢ p → party player k < p
      below k s z = grind arith

  pub read_pi_lem :
      (incoming : ℕ → Option A) (memory : List A)
      → player < suc n
      → length memory ≡ n
      → ((p : ℕ) → p < suc n → p ≢ player → incoming p ≡ some (message p))
      → Gives (Received (suc n)) (read_pi (suc n) player incoming memory)
  unfolding read_pi
  read_pi_lem incoming memory q size sent =
      for-Gives Received (suc n) _ (suc n) 0 memory (omega arith)
        (λ p recv lo h x. elim (eq-cases p player) [
          | inl e ↦
              rw (eq→== p player e)
                (gives (record { size = x.size; holds = λ k l s. x.holds k l (skip k p e s) }))
          | inr e ↦ rw (ne→== p player e) (rw (sent p h e) (store-Received p recv e h q x))
        ])
        (record { size = size; holds = λ k l s. absurd (omega arith) })
    where
      skip : (k p : ℕ) → p ≡ player → party player k < suc p → party player k < p
      skip k p e s = grind (arith, party_ne player k)

module _ {A : Type 0} where
  pub read_p0_lem :
      (n : ℕ) (message : ℕ → A) (d : A) (incoming : ℕ → Option A) (memory : List A)
      → length memory ≡ n
      → ((p : ℕ) → p < suc n → p ≢ 0 → incoming p ≡ some (message p))
      → Gives (Received 0 n message d (suc n)) (read_p0 n incoming memory)
  unfolding read_p0
  read_p0_lem n message d incoming memory size sent =
      for-Gives (λ p. Received 0 n message d (suc p)) n _ n 0 memory (omega arith)
        (λ p recv lo h x. rw (sent (suc p) (omega arith) (λ e. absurd (omega arith))) (
          subst (λ q. Gives (Received 0 n message d (suc (suc p))) (store recv q (message (suc p))))
            (at p)
            (store-Received 0 n message d (suc p) recv (λ e. absurd (omega arith)) (omega arith)
              (omega arith) x)))
        (record { size = size; holds = λ k l s. absurd (none k s) })
    where
      none : (k : ℕ) → party 0 k < 1 → ⊥
      none k s = grind arith

      at : (p : ℕ) → place 0 (suc p) ≡ p
      at p = grind arith

pub range_lt : (i n k : ℕ) → k ∈ range i n → k < i + n
range_lt i zero k h = absurd h
range_lt i (suc n) k (inl e) = omega arith
range_lt i (suc n) k (inr h) = omega (arith, range_lt (suc i) n k h)

module _ ⦃b : Blocks⦄ where
  -- The sum over the places of the other parties and the player's own value is the sum over all
  -- parties.
  pub xor_over-party_from :
      (f : ℕ → Block) (player n i : ℕ)
      → i ≤ player
      → player < i + suc n
      → xor_over (λ k. f (party player k)) (range i n) ⊕ f player ≡ xor_over f (range i (suc n))
  xor_over-party_from f player zero i p q =
      b.xor_comm block0 (f player) ∙ ap (λ k. f k ⊕ block0) only
    where
      only : player ≡ i
      only = omega arith
  xor_over-party_from f player (suc n) i p q = elim (eq-cases i player) [
    | inl e ↦ b.xor_comm _ _ ∙ ap₂ b.xor (ap f (sym e)) (past (suc n) i (omega arith))
    | inr e ↦ rw (lt→ltb i player (omega arith)) (
        b.xor_assoc (f i) _ (f player)
        ∙ ap (b.xor (f i)) (xor_over-party_from f player n (suc i) (omega arith) (omega arith)))
  ]
    where
      past :
          (m j : ℕ)
          → player ≤ j
          → xor_over (λ k. f (party player k)) (range j m) ≡ xor_over f (range (suc j) m)
      past zero j h = refl
      past (suc m) j h =
          rw (le→ltb j player h) (ap (b.xor (f (suc j))) (past m (suc j) (omega arith)))

  pub xor_over-party :
      (f : ℕ → Block) (player n : ℕ)
      → player < suc n
      → xor_over (λ k. f (party player k)) (range 0 n) ⊕ f player ≡ xor_over f (range 0 (suc n))
  xor_over-party f player n q = xor_over-party_from f player n 0 (omega arith) (omega arith)
