-- ===== src/SubGroup.antt =====
-- `get_sub_group` in simple/src/Functions.cpp: both sides of an OT draw the same check group out of
-- a seed.
pub mod Draw
use malicious_mpsi.Base.{
  ℕ, zero, suc, ◌+◌, ◌-◌, ◌*◌, ◌/◌, ◌%◌, ◌^◌, List, [], ◌∷◌, Option, none, some, get_elem?, map,
  range, insert, length, ◌==◌, if◌then◌else◌, ◌>>=◌,
}
use malicious_mpsi.Block.{Blocks, Block}
use malicious_mpsi.Bloom.{Cipher, ecb_enc_blocks}

-- `(int)((small_group_size/2)*1.1)`, and one more for an odd size. The double 1.1 is above 11/10 by
-- less than 10 ^ -16, so for an `int` the product is cut to the same integer as `n * 11 / 10`.
unfoldable pub ciphertexts_size : ℕ → ℕ
ciphertexts_size small = small / 2 * 11 / 10 + (if small % 2 == 1 then 1 else 0)

-- How the `while` loop ends: with the set, with a read past the ciphertexts, or with a remainder
-- by 0.
pub data Drawn : Type 0 where
  drawn : List ℕ → Drawn
  read_past : Drawn
  divided_by_0 : Drawn

-- What the code goes on with: a read outside the array and a remainder by 0 are faults.
unfoldable pub members_of : Drawn → Option (List ℕ)
members_of (drawn s) = some s
members_of read_past = none
members_of divided_by_0 = none

module _ ⦃b : Blocks⦄ ⦃c : Cipher⦄ where
  -- `(unsigned int)(ciphertexts[j].as<std::uint64_t>()[i])%big_group_size`
  unfoldable pub residue : ℕ → Block → ℕ → ℕ
  residue big x i = b.word x i % 2 ^ 32 % big

  -- The `while` loop, on fuel: `none` means that it has run out. `i` is 0 or 1, so `i^=1` is `1 - i`.
  unfoldable pub draw_members : ℕ → List Block → ℕ → ℕ → ℕ → ℕ → List ℕ → Option Drawn
  draw_members zero ciphertexts big small i j s = none
  draw_members (suc fuel) ciphertexts big small i j s =
      let more : Option Drawn = elim (get_elem? ciphertexts j) [
        | none ↦ some read_past
        | some x ↦
            let rest =
              draw_members fuel ciphertexts big small (1 - i) (if 1 - i == 0 then j + 1 else j)
                (insert (residue big x i) s) in
            if big == 0 then some divided_by_0 else rest
      ] in
      if length s == small then some (drawn s) else more

  -- The loop of `get_sub_group`, over the ciphertexts that the seed gives.
  unfoldable pub draw_group : ℕ → ℕ → Block → Option Drawn
  draw_group big small seed =
      let size = ciphertexts_size small in
      draw_members (suc (2 * size)) (ecb_enc_blocks seed (map (b.to_block 0) (range 0 size))) big
        small 0 0 []

  unfoldable pub get_sub_group : ℕ → ℕ → Block → Option (List ℕ)
  get_sub_group big small seed = draw_group big small seed >>= members_of
