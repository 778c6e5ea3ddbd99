-- ===== src/Bloom.antt =====
-- Step 6, the Bloom filter (`bf_thread` and `create_BF_threads` in simple/src/Functions.cpp).
pub mod Marking
pub mod Filter
use malicious_mpsi.Base.{
  ℕ, zero, suc, ◌+◌, ◌-◌, ◌*◌, ◌/◌, ◌%◌, ◌^◌, List, [], ◌∷◌, Option, none, some, get_elem?, get_or,
  store, map, range, replicate, insert, length, ◌==◌, if◌then◌else◌, ◌>>=◌, for,
}
use malicious_mpsi.Block.{Blocks, Block, ◌⊕◌, block0}
use malicious_mpsi.Bitstring.{Bitstring, zeros, set_bit}

-- AES, which is outside the repository: `setKey(key)` and then `ecbEncBlocks` on one block.
pub record Cipher ⦃b : Blocks⦄ : Type 0 where
  pub encrypt : Block → Block → Block

-- What the threads write: the filter, and the array `h_kokhav` of hash sets.
pub record Marks : Type 0 where
  pub bf : Bitstring
  pub h_kokhav : List (List ℕ)

-- `BF->set_bit(h,1); h_kokhav[i].insert(h);`
unfoldable pub mark : ℕ → ℕ → Marks → Option Marks
mark i h m = do
  u ← set_bit h 1 m.bf
  s ← get_elem? m.h_kokhav i
  sets ← store m.h_kokhav i (insert h s)
  some (record { bf = u; h_kokhav = sets })

module _ ⦃b : Blocks⦄ ⦃c : Cipher⦄ where
  -- `as<uint64_t>()[half]%Nbf`
  unfoldable pub hash : ℕ → Block → ℕ → ℕ
  hash nbf x half = b.word x half % nbf

  unfoldable pub ecb_enc_blocks : Block → List Block → List Block
  ecb_enc_blocks key plaintexts = map (c.encrypt key) plaintexts

  -- `get_seeds`: a word of 32 bits for each seed.
  pub get_seeds : ℕ → Block → List ℕ
  get_seeds seeds_num seed =
      map (λ x. b.word x 0 % 2 ^ 32) (ecb_enc_blocks seed (map (b.to_block 0) (range 0 seeds_num)))

  -- `plaintexts[j]=toBlock((*items)[i],0)^toBlock(0,j)`
  unfoldable pub plaintext : ℕ → ℕ → Block
  plaintext item j = b.to_block item 0 ⊕ b.to_block 0 j

  -- Round `j` of the loop over the pairs of hash values.
  unfoldable pub mark_pair : ℕ → ℕ → List Block → ℕ → Marks → Option Marks
  mark_pair nbf i ciphertexts j m = do
    x ← get_elem? ciphertexts j
    m1 ← mark i (hash nbf x 0) m
    mark i (hash nbf x 1) m1

  unfoldable pub mark_odd : ℕ → ℕ → List Block → ℕ → Marks → Option Marks
  mark_odd nbf i ciphertexts j m = do x ← get_elem? ciphertexts j; mark i (hash nbf x 0) m

  -- The body of the loop over the items. An item is the 64-bit pattern that its `int` converts
  -- to.
  unfoldable pub mark_item : ℕ → ℕ → Block → List ℕ → ℕ → Marks → Option Marks
  mark_item seeds_num nbf key items i m = do
    item ← get_elem? items i
    let enc_num = seeds_num / 2 + seeds_num % 2
    let ciphertexts = ecb_enc_blocks key (map (plaintext item) (range 0 enc_num))
    m1 ← for (seeds_num / 2) 0 (mark_pair nbf i ciphertexts) m
    if seeds_num % 2 == 1 then mark_odd nbf i ciphertexts (seeds_num / 2) m1 else some m1

  unfoldable pub bf_thread : ℕ → ℕ → Block → List ℕ → ℕ → ℕ → Marks → Option Marks
  bf_thread seeds_num nbf key items start end_ =
      for (end_ - start) start (mark_item seeds_num nbf key items)

  -- The threads change different hash sets, and set bits of the filter to the same value: the
  -- order of their steps does not matter, and here one thread follows the other.
  unfoldable pub bf_threads : ℕ → ℕ → Block → List ℕ → ℕ → ℕ → ℕ → Marks → Option Marks
  bf_threads seeds_num nbf key items jump zero begin m =
      bf_thread seeds_num nbf key items begin (length items) m
  bf_threads seeds_num nbf key items jump (suc n) begin m = do
    m' ← bf_thread seeds_num nbf key items begin (begin + jump) m
    bf_threads seeds_num nbf key items jump n (begin + jump) m'

  unfoldable pub create_bf_threads : ℕ → ℕ → Block → List ℕ → Marks → Option Marks
  create_bf_threads seeds_num nbf key items =
      bf_threads seeds_num nbf key items (length items / 36) 36 0

  -- `new Bitstring(Nbf)` and `new std::set<int>[items_size]`
  unfoldable pub fresh_marks : ℕ → List ℕ → Marks
  fresh_marks nbf items = record { bf = zeros nbf; h_kokhav = replicate (length items) [] }

  -- `Party::create_BF_threads`
  unfoldable pub create_bf : ℕ → ℕ → Block → List ℕ → Option Marks
  create_bf seeds_num nbf key items =
      create_bf_threads seeds_num nbf key items (fresh_marks nbf items)
