-- ===== src/Approt.antt =====
-- One side of the OT-based exchange of two parties: `offline_apport_receiver`,
-- `offline_apport_sender` and `online_apport_receiver` in simple/src/Functions.cpp, with the
-- operations of simple/src/Party.cpp that they call. The OTs themselves (libOTe) and the sockets are
-- outside the model: their results are arguments.
pub mod Function
pub mod Check
pub mod Agreement
pub mod Offline
use malicious_mpsi.Base.{
  ℕ, ◌≡◌, ◌+◌, ◌-◌, Bool, List, [], Option, none, some, length, range, ltb, ◌==◌, if◌then◌else◌,
  ◌>>=◌,
}
use malicious_mpsi.Block.{Blocks, Block, block0}
use malicious_mpsi.Random.{Random, Crypto, gen_block}
use malicious_mpsi.Bloom.{Cipher}
use malicious_mpsi.SubGroup.{get_sub_group}
use malicious_mpsi.Choose.{Opened, compute_big_r, compute_r, if_disjoint_sets}
use malicious_mpsi.Arrange.{Classes, get_zeros_ones, Arranged, arrange_the_indexes}

-- A session goes on with a value, or the process exits with 1.
pub data Session (A : Type 0) : Type 0 where
  going : A → Session A
  aborting : Session A

-- `Nc_recv>Not-Nbf`. The numbers are signed, so `Nbf` is moved to the other side.
pub check_if_to_abort : ℕ → ℕ → ℕ → ℕ
check_if_to_abort nc not nbf = if ltb not (nc + nbf) then 1 else 0

-- The number that the sender sends to the receiver, which it returns too: 1 if a value of the
-- function is in the check group.
pub check_if_to_abort2 : List ℕ → List ℕ → ℕ → Option ℕ
check_if_to_abort2 sub_group func not = do
  disjoint ← if_disjoint_sets sub_group func not
  some (if disjoint == 0 then 1 else 0)

module _ ⦃b : Blocks⦄ where
  -- The sender draws a seed and the group that it gives. The seed is sent.
  unfoldable pub set_sub_group :
      ⦃c : Cipher⦄ ⦃r : Random⦄ → ℕ → ℕ → Crypto → Option (List ℕ × Block × Crypto)
  set_sub_group not nc crypt = do
    let (seed, crypt') = gen_block crypt
    sub_group ← get_sub_group not nc seed
    some (sub_group, seed, crypt')

  -- `recv_C`: the receiver draws the same group from the size and the seed that it has received.
  unfoldable pub recv_c : ⦃c : Cipher⦄ → ℕ → ℕ → Block → Option (List ℕ)
  recv_c not nc seed = get_sub_group not nc seed

  -- `flag=1` unless the blocks are equal.
  abbrev pub verdict : {r1 r : Block} → Dec (r1 ≡ r) → ℕ
  verdict (yes _) = 0
  verdict (no _) = 1

  -- The rest of `check_if_to_abort1` if the group is small enough: the strings are compared.
  pub compare_r : List (Block × Block) → List ℕ → Block → Option ℕ
  compare_r strings big_r r = do r1 ← compute_r strings big_r; some (verdict (b.block_eq r1 r))

  -- `Nc_sender-Nr_sender>maxOnes`, also of signed numbers.
  pub check_if_to_abort1 : ℕ → ℕ → List (Block × Block) → List ℕ → Block → Option ℕ
  check_if_to_abort1 nc max_ones strings big_r r =
      let compared = compare_r strings big_r r in
      if ltb (max_ones + length big_r) nc then some 1 else compared

  -- What the sender does with `R` and `r`.
  pub offline_apport_sender : ℕ → ℕ → List (Block × Block) → List ℕ → Block → Option (Session Unit)
  offline_apport_sender nc max_ones strings big_r r = do
    abort ← check_if_to_abort1 nc max_ones strings big_r r
    some (if abort == 0 then going tt else aborting)

  -- What the receiver keeps after the offline phase. `R` and `r`, which it sends, are in `opened`.
  pub record Prepared ⦃r : Random⦄ : Type 0 where
    pub opened : Opened
    pub classes : Classes
    pub crypt : Crypto

  module _ ⦃r : Random⦄ where
    -- The receiver, from the check group that it has received.
    pub offline_apport_receiver :
        ℕ → ℕ → List ℕ → List ℕ → List Block → Crypto → Option (Session Prepared)
    offline_apport_receiver nbf not sub_group bitvector strings crypt =
        let nc = length sub_group in
        let prepared = (do
          s ← compute_big_r sub_group (range 0 not) bitvector not strings
          (c, crypt') ← get_zeros_ones s.bits not nc crypt
          some (going (record { opened = s; classes = c; crypt = crypt' }))) in
        if check_if_to_abort nc not nbf == 0 then prepared else some aborting

    -- The function that the receiver sends in the online phase, into the array `new_indexes`.
    unfoldable pub online_apport_receiver : List ℕ → ℕ → List ℕ → Prepared → Option Arranged
    online_apport_receiver bf nbf new_indexes p =
        arrange_the_indexes bf nbf p.classes p.opened.indexes new_indexes
