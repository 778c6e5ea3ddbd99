-- ===== src/Codeword/Run.antt =====
-- The whole of `re_randomization`: every item keeps its codeword to the end.
use mathlib.Core.Logic.{if_pos, if_neg}
use malicious_mpsi.Base.{
  ℕ, Within, ◌<◌, ◌≡◌, ◌≢◌, refl, sym, ◌∙◌, ap, List, [], ◌∷◌, some, arith, length, store_of_lt,
  length-set, get_or-set_ne, get_elem?-eq-get_or, replicate, length-replicate, map, All, All_at,
  ◌∈◌, Distinct, Gives, gives, Gives-bind, Gives-map, Gives-some, for-Gives,
}
use malicious_mpsi.Block.{Blocks, Block, block0, cell, xor_over, xor_over_cong}
use malicious_mpsi.Random.{Random, Crypto, gen_block}
use malicious_mpsi.Gbf.{SynchGbf}
use malicious_mpsi.Codeword.{Filling, fill_item, fill_items, fill_empty, fill_gbf, re_randomization}
use malicious_mpsi.Codeword.Sums.{get_y_lem}
use malicious_mpsi.Codeword.Fill.{Filled, fill_item-Filled}

module _ ⦃b : Blocks⦄ ⦃r : Random⦄ where
  -- A run in which each item finds an empty cell in its hash set and none of the blocks that come
  -- to stand in its cells is 0. Both are matters of chance: the blocks are random.
  pub data Clean : List (List ℕ) → List Block → Filling → Type 0 where
    done : {ys : List Block} {s : Filling} → Clean [] ys s
    item :
        {js : List ℕ} {rest : List (List ℕ)} {y : Block} {ys : List Block} {s s' : Filling}
        → fill_item js y s ≡ some s'
        → (k : ℕ) → k ∈ js
        → cell s.gbf k ≡ block0
        → All (λ j. cell s'.gbf j ≢ block0) js
        → Clean rest ys s'
        → Clean (js ∷ rest) (y ∷ ys) s

  -- The sums over the sets are the blocks listed beside them.
  abbrev pub HasCodewords : List (List ℕ) → List Block → List Block → Type 0
  HasCodewords [] ys gbf = Unit
  HasCodewords (js ∷ rest) [] gbf = ⊥
  HasCodewords (js ∷ rest) (y ∷ ys) gbf = (xor_over (cell gbf) js ≡ y) × HasCodewords rest ys gbf

  -- Cells that are taken stay.
  record Keeps (s s' : Filling) : Type 0 where
    same_length : length s'.gbf ≡ length s.gbf
    kept : (k : ℕ) → cell s.gbf k ≢ block0 → cell s'.gbf k ≡ cell s.gbf k

  Keeps-trans : {s t u : Filling} → Keeps s t → Keeps t u → Keeps s u
  Keeps-trans x y = record {
    same_length = y.same_length ∙ x.same_length;
    kept = λ k p. y.kept k (λ e. p (sym (x.kept k p) ∙ e)) ∙ x.kept k p;
  }

  -- The codewords of `sets` stand in `s`, in cells that are all taken.
  record Settled (sets : List (List ℕ)) (ys : List Block) (s : Filling) : Type 0 where
    taken : All (All (λ j. cell s.gbf j ≢ block0)) sets
    right : HasCodewords sets ys s.gbf

  kept_sum :
      {s s' : Filling} (js : List ℕ)
      → Keeps s s'
      → All (λ j. cell s.gbf j ≢ block0) js
      → xor_over (cell s'.gbf) js ≡ xor_over (cell s.gbf) js
  kept_sum {s} js x h =
      xor_over_cong _ _ js (λ k i. x.kept k (All_at (λ j. cell s.gbf j ≢ block0) js h i))

  HasCodewords-Keeps :
      {s s' : Filling} (sets : List (List ℕ)) (ys : List Block)
      → Keeps s s'
      → All (All (λ j. cell s.gbf j ≢ block0)) sets
      → HasCodewords sets ys s.gbf
      → HasCodewords sets ys s'.gbf
  HasCodewords-Keeps [] ys x h c = tt
  HasCodewords-Keeps (js ∷ rest) [] x h c = absurd c
  HasCodewords-Keeps (js ∷ rest) (y ∷ ys) x h c =
      (kept_sum js x h.0 ∙ c.0, HasCodewords-Keeps rest ys x h.1 c.1)

  -- The loop over the items.
  record Done (sets : List (List ℕ)) (ys : List Block) (s s' : Filling) : Type 0 where
    keeps : Keeps s s'
    taken : All (All (λ j. cell s'.gbf j ≢ block0)) sets
    right : HasCodewords sets ys s'.gbf

  All-kept :
      {s s' : Filling} (js : List ℕ)
      → Keeps s s'
      → All (λ j. cell s.gbf j ≢ block0) js
      → All (λ j. cell s'.gbf j ≢ block0) js
  All-kept [] x h = tt
  All-kept (j ∷ js) x h = ((λ e. h.0 (sym (x.kept j h.0) ∙ e)), All-kept js x h.1)

  fill_items-Done :
      (sets : List (List ℕ)) (ys : List Block) (s : Filling)
      → All Distinct sets
      → All (Within (length s.gbf)) sets
      → Clean sets ys s
      → Gives (Done sets ys s) (fill_items sets ys s)
  unfolding fill_items
  fill_items-Done [] ys s d h c =
      gives (record {
        keeps = record { same_length = refl; kept = λ k p. refl };
        taken = tt;
        right = tt;
      })
  fill_items-Done (js ∷ rest) [] s d h c = elim c [ ]
  fill_items-Done (js ∷ rest) (y ∷ ys) s d h (item {s' = s'} e k i z full c) =
      let x : Filled js y s s' = Gives-some (fill_item-Filled js y s d.0 h.0) e in
      rw e (
        Gives-map (fill_items-Done rest ys s' d.1 (rw x.same_length h.1) c) (λ u t. record {
          keeps = Keeps-trans (record { same_length = x.same_length; kept = x.kept }) t.keeps;
          taken = (All-kept js t.keeps full, t.taken);
          right = (kept_sum js t.keeps full ∙ x.codeword k i z, t.right);
        }))

  fill_empty-Keeps : (i : ℕ) (s : Filling) → i < length s.gbf → Gives (Keeps s) (fill_empty i s)
  unfolding fill_empty
  fill_empty-Keeps i s h =
      rw (get_elem?-eq-get_or s.gbf i block0 h) (elim (b.block_eq (cell s.gbf i) block0) [
        | yes e ↦ rw (if_pos _ e) (
            rw (store_of_lt s.gbf i (gen_block s.crypt).0 h) (
              gives (record {
                same_length = length-set s.gbf i _;
                kept = λ k p. get_or-set_ne s.gbf i k _ block0 (λ q. p (ap (cell s.gbf) q ∙ e));
              })))
        | no e ↦ rw (if_neg _ e) (gives (record { same_length = refl; kept = λ k p. refl }))
      ])

  abbrev start : ℕ → Crypto → Filling
  start nbf crypt = record { gbf = replicate nbf block0; crypt = crypt }

  pub fill_gbf_lem :
      (sets : List (List ℕ)) (ys : List Block) (nbf : ℕ) (crypt : Crypto)
      → All Distinct sets
      → All (Within nbf) sets
      → Clean sets ys (record { gbf = replicate nbf block0; crypt = crypt })
      → Gives (λ s. (length s.gbf ≡ nbf) × HasCodewords sets ys s.gbf) (fill_gbf sets ys nbf crypt)
  unfolding fill_gbf
  fill_gbf_lem sets ys nbf crypt d h c =
      let size : length (replicate nbf block0) ≡ nbf = length-replicate nbf block0 in
      Gives-bind (fill_items-Done sets ys (start nbf crypt) d (rw size h) c) λ s x.
        Gives-map
          (for-Gives (λ k u. Keeps s u) nbf fill_empty nbf 0 s (omega arith)
            (λ k u p q t.
              Gives-map
                (fill_empty-Keeps k u (omega (arith, t.same_length, x.keeps.same_length, size)))
                (λ w y. Keeps-trans t y))
            (record { same_length = refl; kept = λ k p. refl }))
          λ u y. (
            y.same_length ∙ x.keeps.same_length ∙ size,
            HasCodewords-Keeps sets ys y x.taken x.right,
          )

  -- In a clean run `re_randomization` returns a filter of `Nbf` cells in which the cells of every
  -- item's hash set add up to what the same cells of the shared filter `test` add up to.
  pub re_randomization_lem :
      (sets : List (List ℕ)) (test : SynchGbf) (nbf : ℕ) (crypt : Crypto)
      → length test.gbf ≡ nbf
      → All Distinct sets
      → All (Within nbf) sets
      → Clean sets
          (map (xor_over (cell test.gbf)) sets)
          (record { gbf = replicate nbf block0; crypt = crypt })
      → Gives
          (λ s.
            (length s.gbf ≡ nbf) × HasCodewords sets (map (xor_over (cell test.gbf)) sets) s.gbf)
          (re_randomization sets test nbf crypt)
  unfolding re_randomization
  re_randomization_lem sets test nbf crypt e d h c =
      rw (get_y_lem sets test.gbf (rw e h)) (fill_gbf_lem sets _ nbf crypt d h c)
