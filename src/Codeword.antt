-- ===== src/Codeword.antt =====
-- Steps 8 and 9 in simple/src/Functions.cpp: the codeword of an item is the exclusive or of the
-- cells of its hash set (`get_Y`, `check_the_item`), and `re_randomization` makes a fresh filter
-- in which every item has its codeword.
pub mod Sums
pub mod Fill
pub mod Visiting
pub mod Run
use mathlib.Core.Logic.{ite}
use malicious_mpsi.Base.{
  ℕ, List, [], ◌∷◌, Option, none, some, get_elem?, store, replicate, map, ◌>>=◌, for,
}
use malicious_mpsi.Block.{Blocks, Block, ◌⊕◌, block0}
use malicious_mpsi.Random.{Random, Crypto, gen_block}
use malicious_mpsi.Gbf.{SynchGbf}

module _ ⦃b : Blocks⦄ where
  -- `y=y^GBF[j]` for `j` in the hash set. A `std::set<int>` is the list of its members, ascending.
  pub xor_cells : List Block → Block → List ℕ → Option Block
  xor_cells gbf y [] = some y
  xor_cells gbf y (j ∷ js) = do x ← get_elem? gbf j; xor_cells gbf (y ⊕ x) js

  pub check_the_item : List ℕ → List Block → Option Block
  check_the_item h_kokhav gbf = xor_cells gbf block0 h_kokhav

  -- The items that `get_intersection` prints.
  pub get_intersection : List (ℕ × List ℕ) → List Block → Option (List ℕ)
  get_intersection [] gbf = some []
  get_intersection ((item, h_kokhav) ∷ rest) gbf = do
    y ← check_the_item h_kokhav gbf
    found ← get_intersection rest gbf
    some (ite (b.block_eq y block0) (item ∷ found) found)

  -- `get_Y`, over the array of hash sets.
  pub get_y : List (List ℕ) → List Block → Option (List Block)
  get_y [] m1 = some []
  get_y (h_kokhav ∷ rest) m1 = do
    y ← xor_cells m1 block0 h_kokhav
    ys ← get_y rest m1
    some (y ∷ ys)

module _ ⦃b : Blocks⦄ ⦃r : Random⦄ where
  -- The filter that is filled and the random source.
  pub record Filling : Type 0 where
    pub gbf : List Block
    pub crypt : Crypto

  -- The variables of the loop over one hash set: `finalInd`, where -1 is `none`, and `finalShare`.
  pub record Visit : Type 0 where
    pub final_ind : Option ℕ
    pub final_share : Block
    pub filling : Filling

  -- A random block is written to an empty cell and added to the share.
  unfoldable pub draw_cell : ℕ → Visit → Option Visit
  draw_cell j v = do
    let (x, crypt') = gen_block v.filling.crypt
    g ← store v.filling.gbf j x
    some
        (record v { final_share = v.final_share ⊕ x; filling = record { gbf = g; crypt = crypt' } })

  -- The body of the loop, at cell `j`.
  unfoldable pub visit_cell : ℕ → Visit → Option Visit
  visit_cell j v = do
    x ← get_elem? v.filling.gbf j
    ite (b.block_eq x block0)
        (elim v.final_ind [
          | none ↦ some (record v { final_ind = some j })
          | some f ↦ draw_cell j v
        ])
        (some (record v { final_share = v.final_share ⊕ x }))

  unfoldable pub visit_cells : List ℕ → Visit → Option Visit
  visit_cells [] v = some v
  visit_cells (j ∷ js) v = do v' ← visit_cell j v; visit_cells js v'

  -- The write after the loop; without an empty cell it only prints.
  unfoldable pub close_item : Visit → Option Filling
  close_item v = elim v.final_ind [
    | none ↦ some v.filling
    | some f ↦ do
      g ← store v.filling.gbf f v.final_share
      some (record { gbf = g; crypt = v.filling.crypt })
  ]

  unfoldable pub fill_item : List ℕ → Block → Filling → Option Filling
  fill_item h_kokhav y s = do
    v ← visit_cells h_kokhav (record { final_ind = none; final_share = y; filling = s })
    close_item v

  -- The loop over the items, with the codeword of each.
  pub fill_items : List (List ℕ) → List Block → Filling → Option Filling
  fill_items [] ys s = some s
  fill_items (h_kokhav ∷ rest) [] s = none
  fill_items (h_kokhav ∷ rest) (y ∷ ys) s = do s' ← fill_item h_kokhav y s; fill_items rest ys s'

  -- `filling the cells which remain empty`
  pub fill_empty : ℕ → Filling → Option Filling
  fill_empty i s = do
    x ← get_elem? s.gbf i
    let (y, crypt') = gen_block s.crypt
    ite (b.block_eq x block0) (do g ← store s.gbf i y; some (record { gbf = g; crypt = crypt' }))
        (some s)

  -- What both functions do with the codewords.
  pub fill_gbf : List (List ℕ) → List Block → ℕ → Crypto → Option Filling
  fill_gbf h_kokhav ys nbf crypt = do
    s ← fill_items h_kokhav ys (record { gbf = replicate nbf block0; crypt = crypt })
    for nbf 0 fill_empty s

  pub re_randomization : List (List ℕ) → SynchGbf → ℕ → Crypto → Option Filling
  re_randomization h_kokhav test nbf crypt = do
    ys ← get_y h_kokhav test.gbf
    fill_gbf h_kokhav ys nbf crypt

  -- The variant whose codewords are all zero.
  pub re_randomization_zero : List (List ℕ) → ℕ → Crypto → Option Filling
  re_randomization_zero h_kokhav nbf crypt =
      fill_gbf h_kokhav (map (λ h. block0) h_kokhav) nbf crypt
