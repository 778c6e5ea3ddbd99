-- ===== src/Codeword/Fill.antt =====
-- One item: the cells that are already taken are kept, and the codeword comes out right.
use malicious_mpsi.Base.{
  ℕ, Within, ◌<◌, ◌≡◌, ◌≢◌, refl, sym, ◌∙◌, ap, ap₂, subst, List, [], ◌∷◌, Option, none, some,
  length, set, store_of_lt, length-set, get_or-set_self, get_or-set_ne, All_at, ◌∈◌, Distinct, inl,
  inr, Gives, gives, Gives-bind,
}
use malicious_mpsi.Block.{
  Blocks, Block, ◌⊕◌, block0, cell, xor_over, xor_over_cong, zero-⊕, ⊕_left_comm,
}
use malicious_mpsi.Random.{Random}
use malicious_mpsi.Codeword.{Filling, close_item, fill_item}
use malicious_mpsi.Codeword.Visiting.{Visited, visit_cells-Visited}

module _ ⦃b : Blocks⦄ ⦃r : Random⦄ where
  -- What `fill_item` does for an item with hash set `js` and codeword `y`.
  pub record Filled (js : List ℕ) (y : Block) (s s' : Filling) : Type 0 where
    pub same_length : length s'.gbf ≡ length s.gbf
    pub outside : (k : ℕ) → ¬ (k ∈ js) → cell s'.gbf k ≡ cell s.gbf k
    pub kept : (k : ℕ) → cell s.gbf k ≢ block0 → cell s'.gbf k ≡ cell s.gbf k
    pub codeword : (k : ℕ) → k ∈ js → cell s.gbf k ≡ block0 → xor_over (cell s'.gbf) js ≡ y

  -- A write to an empty cell of the set adds its block to the sum.
  xor_over-set :
      (g : List Block) (f : ℕ) (x : Block) (js : List ℕ)
      → f < length g
      → cell g f ≡ block0
      → Distinct js
      → f ∈ js
      → xor_over (cell (set g f x)) js ≡ x ⊕ xor_over (cell g) js
  xor_over-set g f x [] h e d i = absurd i
  xor_over-set g f x (j ∷ js) h e d (inl p) =
      ap₂ b.xor (ap (cell (set g f x)) (sym p) ∙ get_or-set_self g f x block0 h) (
        xor_over_cong _ _ js
          (λ k i. get_or-set_ne g f k x block0 (λ q. d.0 (subst (λ t. t ∈ js) (q ∙ p) i)))
        ∙ sym (ap (λ t. t ⊕ xor_over (cell g) js) (ap (cell g) (sym p) ∙ e) ∙ zero-⊕ _))
  xor_over-set g f x (j ∷ js) h e d (inr i) =
      ap₂ b.xor (get_or-set_ne g f j x block0 (λ q. d.0 (subst (λ t. t ∈ js) (sym q) i)))
        (xor_over-set g f x js h e d.1 i)
      ∙ ⊕_left_comm (cell g j) x _

  close_none :
      (js : List ℕ) (y share : Block) (s s' : Filling)
      → Visited js
          (record { final_ind = none; final_share = y; filling = s })
          (record { final_ind = none; final_share = share; filling = s' })
      → Filled js y s s'
  close_none js y share s s' x = record {
    same_length = x.same_length;
    outside = x.outside;
    kept = x.kept;
    codeword = λ k i e. absurd (x.found k i e refl);
  }

  close_some :
      (js : List ℕ) (y share : Block) (s s' : Filling) (f : ℕ)
      → Distinct js
      → Within (length s.gbf) js
      → Visited js
          (record { final_ind = none; final_share = y; filling = s })
          (record { final_ind = some f; final_share = share; filling = s' })
      → Gives
          (Filled js y s)
          (close_item (record { final_ind = some f; final_share = share; filling = s' }))
  unfolding close_item
  close_some js y share s s' f d h x = elim (x.final f refl) [
    | inl bad ↦ cc
    | inr (i, e) ↦ closed i e
  ]
    where
      closed :
          f ∈ js
          → cell s'.gbf f ≡ block0
          → Gives
              (Filled js y s)
              (close_item (record { final_ind = some f; final_share = share; filling = s' }))
      closed i e =
          let fits : f < length s'.gbf = rw x.same_length (All_at (λ j. j < length s.gbf) js h i) in
          rw (store_of_lt s'.gbf f share fits) (
            gives (record {
              same_length = length-set s'.gbf f share ∙ x.same_length;
              outside = λ k p.
                  get_or-set_ne s'.gbf f k share block0 (λ q. p (subst (λ t. t ∈ js) (sym q) i))
                  ∙ x.outside k p;
              kept = λ k p.
                  get_or-set_ne s'.gbf f k share block0
                    (λ q. p (sym (x.kept k p) ∙ ap (cell s'.gbf) q ∙ e))
                  ∙ x.kept k p;
              codeword = λ k z w.
                  xor_over-set s'.gbf f share js fits e d i
                  ∙ ap (λ t. t ⊕ xor_over (cell s'.gbf) js) x.share
                  ∙ b.xor_assoc y _ _
                  ∙ ap (b.xor y) (b.xor_self _)
                  ∙ b.xor_zero y;
            }))

  close_item-Filled :
      (js : List ℕ) (y : Block) (s : Filling) (ind : Option ℕ) (share : Block) (s' : Filling)
      → Distinct js
      → Within (length s.gbf) js
      → Visited js
          (record { final_ind = none; final_share = y; filling = s })
          (record { final_ind = ind; final_share = share; filling = s' })
      → Gives
          (Filled js y s)
          (close_item (record { final_ind = ind; final_share = share; filling = s' }))
  unfolding close_item
  close_item-Filled js y s none share s' d h x = gives (close_none js y share s s' x)
  close_item-Filled js y s (some f) share s' d h x = close_some js y share s s' f d h x

  -- One item: the cells outside its hash set and the cells that were not empty stay as they were,
  -- and if the set has an empty cell, the exclusive or of its cells is then the item's codeword.
  pub fill_item-Filled :
      (js : List ℕ) (y : Block) (s : Filling)
      → Distinct js
      → Within (length s.gbf) js
      → Gives (Filled js y s) (fill_item js y s)
  unfolding fill_item
  fill_item-Filled js y s d h =
      Gives-bind
        (visit_cells-Visited js (record { final_ind = none; final_share = y; filling = s }) d h)
        (λ v x. close_item-Filled js y s v.final_ind v.final_share v.filling d h x)
