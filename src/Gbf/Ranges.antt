-- ===== src/Gbf/Ranges.antt =====
-- What the loops of `synchGBF` do to the array: each cell of a range is added to once.
use malicious_mpsi.Base.{
  ℕ, suc, ◌+◌, ◌≤◌, ◌<◌, ◌≡◌, refl, sym, ◌∙◌, ap, ◌⊎◌, inl, inr, List, Option, some, arith, length,
  store, length-set, get_or-set_self, get_or-set_ne, get_elem?-eq-get_or, store_of_lt, ◌>>=◌, Gives,
  Gives-map, some-Gives, for-Gives,
}
use native.Mathlib.Nat.{add-suc, add-zero}
use malicious_mpsi.Block.{Blocks, Block, ◌⊕◌, cell, block0}
use malicious_mpsi.Gbf.{xor_cell, xor_loop, xor_chunk_loop}

module _ ⦃b : Blocks⦄ where
  -- From `g` to `u` the cells from `lo` up to `hi` got `w` added, and the others are as before.
  pub record XorRange (w : ℕ → Block) (lo hi : ℕ) (g u : List Block) : Type 0 where
    pub same_length : length u ≡ length g
    pub inside : (k : ℕ) → lo ≤ k → k < hi → cell u k ≡ cell g k ⊕ w k
    pub below : (k : ℕ) → k < lo → cell u k ≡ cell g k
    pub above : (k : ℕ) → hi ≤ k → cell u k ≡ cell g k

  pub XorRange_empty : (w : ℕ → Block) (lo : ℕ) (g : List Block) → XorRange w lo lo g g
  XorRange_empty w lo g = record {
    same_length = refl;
    inside = λ k p q. absurd (omega arith);
    below = λ k p. refl;
    above = λ k p. refl;
  }

  pub XorRange_join :
      {w : ℕ → Block} {lo mid hi : ℕ} {g u v : List Block}
      → lo ≤ mid
      → mid ≤ hi
      → XorRange w lo mid g u
      → XorRange w mid hi u v
      → XorRange w lo hi g v
  XorRange_join {w} {lo} {mid} {hi} {g} {u} {v} p q x y = record {
    same_length = y.same_length ∙ x.same_length;
    inside = λ k a c. elim (split k) [
      | inl l ↦ y.below k l ∙ x.inside k a l
      | inr l ↦ y.inside k l c ∙ ap (λ t. t ⊕ w k) (x.above k l)
    ];
    below = λ k a. y.below k (omega arith) ∙ x.below k a;
    above = λ k a. y.above k a ∙ x.above k (omega arith);
  }
    where
      split : (k : ℕ) → (k < mid) ⊎ (mid ≤ k)
      split k = grind arith

  -- A second round over the same cells.
  pub XorRange_add :
      {w w' : ℕ → Block} {lo hi : ℕ} {g u v : List Block}
      → XorRange w lo hi g u
      → XorRange w' lo hi u v
      → XorRange (λ k. w k ⊕ w' k) lo hi g v
  XorRange_add {w} {w'} x y = record {
    same_length = y.same_length ∙ x.same_length;
    inside =
        λ k p q. y.inside k p q ∙ ap (λ t. t ⊕ w' k) (x.inside k p q) ∙ b.xor_assoc _ (w k) (w' k);
    below = λ k p. y.below k p ∙ x.below k p;
    above = λ k p. y.above k p ∙ x.above k p;
  }

  pub XorRange_cong :
      {w w' : ℕ → Block} {lo hi lo' hi' : ℕ} {g u : List Block}
      → lo ≡ lo'
      → hi ≡ hi'
      → ((k : ℕ) → lo' ≤ k → k < hi' → w k ≡ w' k)
      → XorRange w lo hi g u
      → XorRange w' lo' hi' g u
  XorRange_cong p q e x = record {
    same_length = x.same_length;
    inside = λ k l h. x.inside k (omega arith) (omega arith) ∙ ap (b.xor _) (e k l h);
    below = λ k h. x.below k (omega arith);
    above = λ k h. x.above k (omega arith);
  }

  pub XorRange_zero : (lo hi : ℕ) (g : List Block) → XorRange (λ k. block0) lo hi g g
  XorRange_zero lo hi g = record {
    same_length = refl;
    inside = λ k p q. sym (b.xor_zero _);
    below = λ k p. refl;
    above = λ k p. refl;
  }

  pub xor_cell-XorRange :
      (w : ℕ → Block) (i : ℕ) (y : Block) (g : List Block)
      → i < length g
      → y ≡ w i
      → Gives (XorRange w i (suc i) g) (xor_cell i y g)
  unfolding xor_cell
  xor_cell-XorRange w i y g h e =
      some-Gives
        (ap (λ r. r >>= λ x. store g i (x ⊕ y)) (get_elem?-eq-get_or g i block0 h)
          ∙ store_of_lt g i (cell g i ⊕ y) h)
        (record {
          same_length = length-set g i (cell g i ⊕ y);
          inside = λ k p q. ground (arith, get_or-set_self g i (cell g i ⊕ y) block0 h);
          below = λ k p. get_or-set_ne g i k (cell g i ⊕ y) block0 (omega arith);
          above = λ k p. get_or-set_ne g i k (cell g i ⊕ y) block0 (omega arith);
        })

  pub xor_loop-XorRange :
      (source : ℕ → Option Block) (w : ℕ → Block) (rounds lo hi : ℕ) (g : List Block)
      → lo + rounds ≡ hi
      → hi ≤ length g
      → ((k : ℕ) → lo ≤ k → k < hi → source k ≡ some (w k))
      → Gives (XorRange w lo hi g) (xor_loop source rounds lo g)
  unfolding xor_loop
  xor_loop-XorRange source w rounds lo hi g e fits src =
      for-Gives (λ k. XorRange w lo k g) hi _ rounds lo g e
        (λ k u p q x. rw (src k p q) (
          Gives-map (xor_cell-XorRange w k (w k) u (omega (arith, x.same_length)) refl)
            (λ v y. XorRange_join p (omega arith) x y)))
        (XorRange_empty w lo g)

  -- The loop of `XORchunk` and `XORchunk_limited` adds `to_xor` to the cells from `start` on.
  pub xor_chunk_loop-XorRange :
      (to_xor : List Block) (w : ℕ → Block) (start rounds : ℕ) (g : List Block)
      → start + rounds ≤ length g
      → rounds ≤ length to_xor
      → ((k : ℕ) → k < rounds → w (start + k) ≡ cell to_xor k)
      → Gives (XorRange w start (start + rounds) g) (xor_chunk_loop to_xor start rounds g)
  unfolding xor_chunk_loop
  xor_chunk_loop-XorRange to_xor w start rounds g fits long src =
      for-Gives (λ k u. XorRange w start (start + k) g u) rounds _ rounds 0 g (omega arith)
        (λ k u p q x. rw (get_elem?-eq-get_or to_xor k block0 (omega arith)) (
          rw add-suc (
            Gives-map
              (xor_cell-XorRange w (start + k) (cell to_xor k) u (omega (arith, x.same_length))
                (sym (src k q)))
              (λ v y. XorRange_join (omega arith) (omega arith) x y))))
        (rw add-zero (XorRange_empty w start g))
