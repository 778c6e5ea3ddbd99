-- ===== src/Codeword/Sums.antt =====
-- The sums over hash sets that the code computes.
use mathlib.Core.Logic.{ite}
use malicious_mpsi.Base.{
  ℕ, ◌≡◌, refl, sym, ◌∙◌, ap, List, [], ◌∷◌, some, length, get_elem?-eq-get_or, map, All, Within,
  ◌∈◌, inl, inr, ◌↔◌, Gives, gives, Gives-bind,
}
use malicious_mpsi.Block.{Blocks, Block, ◌⊕◌, block0, cell, xor_over, zero-⊕}
use malicious_mpsi.Codeword.{xor_cells, check_the_item, get_intersection, get_y}

module _ ⦃b : Blocks⦄ where
  pub xor_cells_lem :
      (gbf : List Block) (y : Block) (js : List ℕ)
      → Within (length gbf) js
      → xor_cells gbf y js ≡ some (y ⊕ xor_over (cell gbf) js)
  unfolding xor_cells
  xor_cells_lem gbf y [] h = ap some (sym (b.xor_zero y))
  xor_cells_lem gbf y (j ∷ js) h =
      rw (get_elem?-eq-get_or gbf j block0 h.0)
        (xor_cells_lem gbf (y ⊕ cell gbf j) js h.1 ∙ ap some (b.xor_assoc y _ _))

  pub check_the_item_lem :
      (h_kokhav : List ℕ) (gbf : List Block)
      → Within (length gbf) h_kokhav
      → check_the_item h_kokhav gbf ≡ some (xor_over (cell gbf) h_kokhav)
  unfolding check_the_item
  check_the_item_lem h_kokhav gbf h = xor_cells_lem gbf block0 h_kokhav h ∙ ap some (zero-⊕ _)

  pub get_y_lem :
      (sets : List (List ℕ)) (m1 : List Block)
      → All (Within (length m1)) sets
      → get_y sets m1 ≡ some (map (xor_over (cell m1)) sets)
  unfolding get_y
  get_y_lem [] m1 h = refl
  get_y_lem (js ∷ rest) m1 h = rw (xor_cells_lem m1 block0 js h.0, get_y_lem rest m1 h.1, zero-⊕)

  -- The list has exactly the items whose cells add up to zero.
  abbrev pub Printed : List (ℕ × List ℕ) → List Block → List ℕ → Type 0
  Printed items gbf found =
      (x : ℕ)
      → (x ∈ found)
        ↔ ((h_kokhav : List ℕ) × ((x, h_kokhav) ∈ items) × (xor_over (cell gbf) h_kokhav ≡ block0))

  -- `get_intersection` returns, and the items that it prints are exactly those whose cells add up to
  -- zero, if the hash sets lie within the filter.
  pub get_intersection_lem :
      (items : List (ℕ × List ℕ)) (gbf : List Block)
      → All (λ entry. Within (length gbf) entry.1) items
      → Gives (Printed items gbf) (get_intersection items gbf)
  unfolding get_intersection
  get_intersection_lem [] gbf w = gives λ x. ((λ i. absurd i), (λ y. absurd y.1))
  get_intersection_lem ((item, h_kokhav) ∷ rest) gbf w = rw (check_the_item_lem h_kokhav gbf w.0) (
      Gives-bind (get_intersection_lem rest gbf w.1) λ found f.
        elim (b.block_eq (xor_over (cell gbf) h_kokhav) block0)
          as (λ d.
            Gives (Printed ((item, h_kokhav) ∷ rest) gbf) (some (ite d (item ∷ found) found))) [
              | yes z ↦ gives λ x. (
                (λ i. elim i [
                  | inl e ↦ (h_kokhav, inl (ap (λ (t : ℕ). (t, h_kokhav)) e), z)
                  | inr j ↦ let (h, k, q) = (f x).0 j in (h, inr k, q)
                ]),
                (λ y. elim (y.1) [
                  | inl e ↦ inl (ap (λ t. t.0) e)
                  | inr j ↦ inr ((f x).1 (y.0, j, y.2))
                ]),
              )
              | no n ↦ gives λ x. (
                (λ i. let (h, k, q) = (f x).0 i in (h, inr k, q)),
                (λ y. elim (y.1) [
                  | inl e ↦ absurd (n (ap (λ t. xor_over (cell gbf) t.1) (sym e) ∙ y.2))
                  | inr j ↦ (f x).1 (y.0, j, y.2)
                ]),
              )
            ])
