-- ===== src/Choose.antt =====
-- The check of the OTs in simple/src/Functions.cpp: the receiver moves the check group to the end
-- of its indices and opens the strings of the zeros in it (`compute_R_r`), and the sender adds up
-- the same strings (`compute_r`).
pub mod Sorting
pub mod Moving
pub mod Opening
use malicious_mpsi.Base.{
  ℕ, zero, suc, ◌+◌, ◌-◌, List, [], ◌∷◌, ◌++◌, Option, none, some, get_elem?, store, swap,
  replicate, ltb, ◌==◌, if◌then◌else◌, ◌>>=◌,
}
use malicious_mpsi.Block.{Blocks, Block, ◌⊕◌, block0}

-- `std::sort(sub_group,sub_group+Ncc,compare_func)`: `compare_func` is `>`.
unfoldable pub insert_desc : ℕ → List ℕ → List ℕ
insert_desc x [] = x ∷ []
insert_desc x (y ∷ ys) = if ltb y x then x ∷ y ∷ ys else y ∷ insert_desc x ys

unfoldable pub sort_desc : List ℕ → List ℕ
sort_desc [] = []
sort_desc (x ∷ xs) = insert_desc x (sort_desc xs)

module _ ⦃b : Blocks⦄ where
  -- What `compute_R_r` changes: the indices, the bits, `r` and `R`.
  pub record Opened : Type 0 where
    pub indexes : List ℕ
    pub bits : List ℕ
    pub r : Block
    pub big_r : List ℕ

  -- The body of the loop, with `ind` the place at the end.
  unfoldable pub move_target : List Block → ℕ → ℕ → Opened → Option Opened
  move_target strings target ind s = do
    val ← get_elem? s.bits target
    indexes' ← swap target ind s.indexes
    bits' ← swap target ind s.bits
    let moved = record s { indexes = indexes'; bits = bits' }
    let opened = (do
      x ← get_elem? strings target
      some (record {
        indexes = indexes';
        bits = bits';
        r = s.r ⊕ x;
        big_r = s.big_r ++ (target ∷ []);
      }))
    if val == 0 then opened else some moved

  -- The loop over the sorted check group. The number is `ind+1`, since `ind` may reach -1.
  unfoldable pub move_targets : List Block → List ℕ → ℕ → Opened → Option Opened
  move_targets strings [] n s = some s
  move_targets strings (target ∷ rest) zero s = none
  move_targets strings (target ∷ rest) (suc ind) s = do
    s' ← move_target strings target ind s
    move_targets strings rest ind s'

  unfoldable pub compute_big_r : List ℕ → List ℕ → List ℕ → ℕ → List Block → Option Opened
  compute_big_r sub_group indexes bits not strings =
      move_targets strings (sort_desc sub_group) not
        (record { indexes = indexes; bits = bits; r = block0; big_r = [] })

  -- `r=r^strings[indexes[i]][0]`
  pub add_strings : List (Block × Block) → List ℕ → Block → Option Block
  add_strings strings [] r = some r
  add_strings strings (i ∷ is) r = do
    pair ← get_elem? strings i
    add_strings strings is (r ⊕ pair.0)

  -- The first index is read before the loop: an empty array is a fault.
  pub compute_r : List (Block × Block) → List ℕ → Option Block
  compute_r strings [] = none
  compute_r strings (i ∷ is) = do pair ← get_elem? strings i; add_strings strings is pair.0

-- `counter->set_bit(cc[i],1)` for every member of the first group.
pub mark_group : List ℕ → List ℕ → Option (List ℕ)
mark_group [] counter = some counter
mark_group (x ∷ xs) counter = do u ← store counter x 1; mark_group xs u

-- The loop with the early return: 0 if a member of the second group is marked.
pub scan_group : List ℕ → List ℕ → Option ℕ
scan_group [] counter = some 1
scan_group (x ∷ xs) counter = do
  bit ← get_elem? counter x
  let rest = scan_group xs counter
  if bit == 1 then some 0 else rest

pub if_disjoint_sets : List ℕ → List ℕ → ℕ → Option ℕ
if_disjoint_sets cc indexes not = do
  counter ← mark_group cc (replicate not 0)
  scan_group indexes counter
