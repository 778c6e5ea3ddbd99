-- ===== src/Block.antt =====
-- `block`, the 128-bit word of cryptoTools, AES, and the random source `crypto` of ENCRYPTO_utils:
-- code outside the repository. The program relies on the laws of exclusive or, named here.
use malicious_mpsi.Base.{
  ℕ, ◌≡◌, refl, sym, ap, ap₂, ◌∙◌, List, [], ◌∷◌, ◌++◌, map, get_or, ◌∈◌, inl, inr,
}

pub record Blocks : Type 1 where
  pub Carrier : Type 0
  -- `operator^`
  pub xor : Carrier → Carrier → Carrier
  -- `toBlock(high, low)`
  pub to_block : ℕ → ℕ → Carrier
  -- `as<uint64_t>()[i]`
  pub word : Carrier → ℕ → ℕ
  -- `operator==`, and `eq` and `neq`
  pub block_eq : Discrete Carrier
  pub xor_comm : (a b : Carrier) → xor a b ≡ xor b a
  pub xor_assoc : (a b c : Carrier) → xor (xor a b) c ≡ xor a (xor b c)
  pub xor_zero : (a : Carrier) → xor a (to_block 0 0) ≡ a
  pub xor_self : (a : Carrier) → xor a a ≡ to_block 0 0

module _ ⦃b : Blocks⦄ where
  abbrev pub Block : Type 0
  Block = b.Carrier

  abbrev pub block0 : Block
  block0 = b.to_block 0 0

  infixl 60 ◌⊕◌
  abbrev pub ◌⊕◌ : Block → Block → Block
  x ⊕ y = b.xor x y

  pub zero-⊕ : (x : Block) → block0 ⊕ x ≡ x
  zero-⊕ x = b.xor_comm block0 x ∙ b.xor_zero x

  -- The exclusive or of a list of blocks.
  abbrev pub xor_sum : List Block → Block
  xor_sum [] = block0
  xor_sum (x ∷ xs) = x ⊕ xor_sum xs

  pub ⊕_swap : (x y z w : Block) → (x ⊕ y) ⊕ (z ⊕ w) ≡ (x ⊕ z) ⊕ (y ⊕ w)
  ⊕_swap x y z w =
      b.xor_assoc x y (z ⊕ w)
      ∙ ap (b.xor x)
          (sym (b.xor_assoc y z w) ∙ ap (λ t. t ⊕ w) (b.xor_comm y z) ∙ b.xor_assoc z y w)
      ∙ sym (b.xor_assoc x z (y ⊕ w))

  pub ⊕_cancel : (x y : Block) → x ⊕ (x ⊕ y) ≡ y
  ⊕_cancel x y = sym (b.xor_assoc x x y) ∙ ap (λ t. t ⊕ y) (b.xor_self x) ∙ zero-⊕ y

  pub ⊕_left_comm : (x y z : Block) → x ⊕ (y ⊕ z) ≡ y ⊕ (x ⊕ z)
  ⊕_left_comm x y z = sym (b.xor_assoc x y z) ∙ ap (λ t. t ⊕ z) (b.xor_comm x y) ∙ b.xor_assoc y x z

  -- The cell `k` of an array of blocks.
  abbrev pub cell : List Block → ℕ → Block
  cell g k = get_or g k block0

  pub xor_sum-append : (xs ys : List Block) → xor_sum (xs ++ ys) ≡ xor_sum xs ⊕ xor_sum ys
  xor_sum-append [] ys = sym (zero-⊕ _)
  xor_sum-append (x ∷ xs) ys =
      ap (b.xor x) (xor_sum-append xs ys) ∙ sym (b.xor_assoc x (xor_sum xs) (xor_sum ys))

  -- The exclusive or of `f` over indices.
  abbrev pub xor_over {ℓ} : {A : Type ℓ} → (A → Block) → List A → Block
  xor_over f xs = xor_sum (map f xs)

  pub xor_over-⊕ {ℓ} :
      {A : Type ℓ} (f g : A → Block) (xs : List A)
      → xor_over (λ x. f x ⊕ g x) xs ≡ xor_over f xs ⊕ xor_over g xs
  xor_over-⊕ f g [] = sym (b.xor_zero _)
  xor_over-⊕ f g (x ∷ xs) =
      ap (b.xor (f x ⊕ g x)) (xor_over-⊕ f g xs)
      ∙ ⊕_swap (f x) (g x) (xor_over f xs) (xor_over g xs)

  pub xor_over_zero {ℓ} : {A : Type ℓ} (xs : List A) → xor_over (λ x. block0) xs ≡ block0
  xor_over_zero [] = refl
  xor_over_zero (x ∷ xs) = zero-⊕ _ ∙ xor_over_zero xs

  pub xor_over_cong :
      (f g : ℕ → Block) (xs : List ℕ)
      → ((k : ℕ) → k ∈ xs → f k ≡ g k)
      → xor_over f xs ≡ xor_over g xs
  xor_over_cong f g [] h = refl
  xor_over_cong f g (x ∷ xs) h =
      ap₂ b.xor (h x (inl refl)) (xor_over_cong f g xs (λ k i. h k (inr i)))

  -- A double sum in either order.
  pub xor_over_exchange {ℓ κ} :
      {A : Type ℓ} {B : Type κ} (f : A → B → Block) (xs : List A) (ys : List B)
      → xor_over (λ x. xor_over (f x) ys) xs ≡ xor_over (λ y. xor_over (λ x. f x y) xs) ys
  xor_over_exchange f [] ys = sym (xor_over_zero ys)
  xor_over_exchange f (x ∷ xs) ys =
      ap (b.xor (xor_over (f x) ys)) (xor_over_exchange f xs ys)
      ∙ sym (xor_over-⊕ (f x) (λ y. xor_over (λ z. f z y) xs) ys)
