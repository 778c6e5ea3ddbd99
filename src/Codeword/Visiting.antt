-- ===== src/Codeword/Visiting.antt =====
-- Going over the cells of an item's hash set: which cells change, and what the share becomes.
use mathlib.Core.Logic.{if_pos, if_neg}
use malicious_mpsi.Base.{
  ℕ, Within, ◌<◌, ◌≡◌, ◌≢◌, refl, sym, ◌∙◌, ap, subst, List, [], ◌∷◌, Option, none, some, length,
  store_of_lt, length-set, get_or-set_self, get_or-set_ne, get_elem?-eq-get_or, ◌∈◌, Distinct, ◌⊎◌,
  inl, inr, Gives, gives, Gives-bind, Gives-map, Option-cases,
}
use mathlib.Core.Option.{some-injective}
use malicious_mpsi.Block.{Blocks, Block, ◌⊕◌, block0, cell, xor_over}
use malicious_mpsi.Random.{Random, gen_block}
use malicious_mpsi.Codeword.{Filling, Visit, draw_cell, visit_cell, visit_cells}

module _ ⦃b : Blocks⦄ ⦃r : Random⦄ where
  abbrev pub at : Visit → ℕ → Block
  at v k = cell v.filling.gbf k

  -- What going over the cells `js` does to the variables of the loop.
  pub record Visited (js : List ℕ) (v v' : Visit) : Type 0 where
    pub same_length : length v'.filling.gbf ≡ length v.filling.gbf
    pub outside : (k : ℕ) → ¬ (k ∈ js) → at v' k ≡ at v k
    pub kept : (k : ℕ) → at v k ≢ block0 → at v' k ≡ at v k
    pub share : v'.final_share ≡ v.final_share ⊕ xor_over (at v') js
    pub final :
        (f : ℕ) → v'.final_ind ≡ some f → (v.final_ind ≡ some f) ⊎ ((f ∈ js) × (at v' f ≡ block0))
    pub settled : (f : ℕ) → v.final_ind ≡ some f → v'.final_ind ≡ some f
    pub found : (k : ℕ) → k ∈ js → at v k ≡ block0 → v'.final_ind ≢ none

  taken_at : (v : Visit) (j k : ℕ) → k ∈ j ∷ [] → at v k ≡ block0 → at v j ≡ block0
  taken_at v j k (inl p) e = subst (λ i. at v i ≡ block0) p e
  taken_at v j k (inr p) e = absurd p

  visit_taken :
      (j : ℕ) (v : Visit)
      → cell v.filling.gbf j ≢ block0
      → Visited (j ∷ []) v (record v { final_share = v.final_share ⊕ at v j })
  visit_taken j v h = record {
    same_length = refl;
    outside = λ k p. refl;
    kept = λ k p. refl;
    share = ap (b.xor v.final_share) (sym (b.xor_zero _));
    final = λ f e. inl e;
    settled = λ f e. e;
    found = λ k i e. absurd (h (taken_at v j k i e));
  }

  visit_first :
      (j : ℕ) (share : Block) (s : Filling)
      → cell s.gbf j ≡ block0
      → Visited
          (j ∷ [])
          (record { final_ind = none; final_share = share; filling = s })
          (record { final_ind = some j; final_share = share; filling = s })
  visit_first j share s h = record {
    same_length = refl;
    outside = λ k p. refl;
    kept = λ k p. refl;
    share = sym (ap (b.xor share) (b.xor_zero _ ∙ h) ∙ b.xor_zero share);
    final = λ f e.
        let same : j ≡ f = some-injective _ _ e in
        inr (inl (sym same), subst (λ k. cell s.gbf k ≡ block0) same h);
    settled = λ f e. cc;
    found = λ k i e. λ p. cc;
  }

  visit_draw :
      (j f : ℕ) (share : Block) (s : Filling)
      → j < length s.gbf
      → cell s.gbf j ≡ block0
      → Gives
          (Visited (j ∷ []) (record { final_ind = some f; final_share = share; filling = s }))
          (draw_cell j (record { final_ind = some f; final_share = share; filling = s }))
  unfolding draw_cell
  visit_draw j f share s h e =
      let x : Block = (gen_block s.crypt).0 in
      rw (store_of_lt s.gbf j x h) (
        gives (record {
          same_length = length-set s.gbf j x;
          outside = λ k p. get_or-set_ne s.gbf j k x block0 (λ q. p (inl q));
          kept = λ k p.
              get_or-set_ne s.gbf j k x block0
                (λ q. p (subst (λ i. cell s.gbf i ≡ block0) (sym q) e));
          share = ap (b.xor share) (sym (b.xor_zero _ ∙ get_or-set_self s.gbf j x block0 h));
          final = λ g p. inl p;
          settled = λ g p. p;
          found = λ k i p q. cc;
        }))

  visit_cell-Visited :
      (j : ℕ) (ind : Option ℕ) (share : Block) (s : Filling)
      → j < length s.gbf
      → Gives
          (Visited (j ∷ []) (record { final_ind = ind; final_share = share; filling = s }))
          (visit_cell j (record { final_ind = ind; final_share = share; filling = s }))
  unfolding visit_cell
  visit_cell-Visited j none share s h =
      rw (get_elem?-eq-get_or s.gbf j block0 h) (elim (b.block_eq (cell s.gbf j) block0) [
        | yes e ↦ rw (if_pos _ e) (gives (visit_first j share s e))
        | no e ↦ rw (if_neg _ e) (gives (visit_taken j _ e))
      ])
  visit_cell-Visited j (some f) share s h =
      rw (get_elem?-eq-get_or s.gbf j block0 h) (elim (b.block_eq (cell s.gbf j) block0) [
        | yes e ↦ rw (if_pos _ e) (visit_draw j f share s h e)
        | no e ↦ rw (if_neg _ e) (gives (visit_taken j _ e))
      ])

  Visited-cons :
      {j : ℕ} {js : List ℕ} {u v w : Visit}
      → ¬ (j ∈ js)
      → Visited (j ∷ []) u v
      → Visited js v w
      → Visited (j ∷ js) u w
  Visited-cons {j} {js} {u} {v} {w} fresh x y = record {
    same_length = y.same_length ∙ x.same_length;
    outside = λ k p. y.outside k (λ i. p (inr i)) ∙ x.outside k (λ i. p (alone k i));
    kept = λ k p. y.kept k (λ e. p (sym (x.kept k p) ∙ e)) ∙ x.kept k p;
    share = total;
    final = λ f e. elim (y.final f e) [
      | inr q ↦ inr (inr q.0, q.1)
      | inl q ↦ elim (x.final f q) [
        | inl z ↦ inl z
        | inr z ↦ inr (alone f z.0, subst (λ i. at w i ≡ at v i) (sym (only f z.0)) head ∙ z.1)
      ]
    ];
    settled = λ f e. y.settled f (x.settled f e);
    found = λ k i e. elim i [
      | inl p ↦ λ q. elim (Option-cases v.final_ind) [
        | inl n ↦ x.found k (inl p) e n
        | inr (f, g) ↦ cc (y.settled f g)
      ]
      | inr p ↦ y.found k p (x.outside k (λ z. fresh (subst (λ t. t ∈ js) (only k z) p)) ∙ e)
    ];
  }
    where
      only : (k : ℕ) → k ∈ j ∷ [] → k ≡ j
      only k (inl p) = p
      only k (inr p) = absurd p

      alone : (k : ℕ) → k ∈ j ∷ [] → k ∈ j ∷ js
      alone k i = inl (only k i)

      head : at w j ≡ at v j
      head = y.outside j fresh

      total : w.final_share ≡ u.final_share ⊕ xor_over (at w) (j ∷ js)
      total =
          y.share
          ∙ ap (λ t. t ⊕ xor_over (at w) js)
              (x.share ∙ ap (b.xor u.final_share) (b.xor_zero (at v j)))
          ∙ b.xor_assoc _ _ _
          ∙ ap (λ t. u.final_share ⊕ (t ⊕ xor_over (at w) js)) (sym head)

  pub visit_cells-Visited :
      (js : List ℕ) (v : Visit)
      → Distinct js
      → Within (length v.filling.gbf) js
      → Gives (Visited js v) (visit_cells js v)
  unfolding visit_cells
  visit_cells-Visited [] v d h = gives (record {
    same_length = refl;
    outside = λ k p. refl;
    kept = λ k p. refl;
    share = sym (b.xor_zero _);
    final = λ f e. inl e;
    settled = λ f e. e;
    found = λ k i. absurd i;
  })
  visit_cells-Visited (j ∷ js) v d h =
      Gives-bind (visit_cell-Visited j v.final_ind v.final_share v.filling h.0) λ u x.
        Gives-map (visit_cells-Visited js u d.1 (rw x.same_length h.1)) λ w y. Visited-cons d.0 x y
