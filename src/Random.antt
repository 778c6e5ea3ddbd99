-- ===== src/Random.antt =====
-- `crypto` of ENCRYPTO_utils, which is outside the repository: a source of bytes with a state.
-- The program reads the bytes as unsigned words of 4 or 8 bytes, on a little-endian machine.
use malicious_mpsi.Base.{ℕ, zero, suc, ◌+◌, ◌*◌, ◌≡◌, refl, ap, List, [], ◌∷◌, length, take, drop}
use malicious_mpsi.Block.{Blocks, Block}

pub record Random : Type 1 where
  pub Crypto : Type 0
  -- `gen_rnd(buffer,bytes)`
  pub gen_rnd : ℕ → Crypto → List ℕ × Crypto

-- The unsigned word that bytes make up, the lowest byte first.
unfoldable pub word_of : List ℕ → ℕ
word_of [] = 0
word_of (x ∷ xs) = x + 256 * word_of xs

-- An array of `n` words of `k` bytes each, over the bytes of a buffer.
pub words : ℕ → ℕ → List ℕ → List ℕ
words k zero bytes = []
words k (suc n) bytes = word_of (take k bytes) ∷ words k n (drop k bytes)

pub length-words : (k n : ℕ) (bytes : List ℕ) → length (words k n bytes) ≡ n
unfolding words
length-words k zero bytes = refl
length-words k (suc n) bytes = ap suc (length-words k n (drop k bytes))

module _ ⦃r : Random⦄ where
  abbrev pub Crypto : Type 0
  Crypto = r.Crypto

  -- `crypt->gen_rnd((BYTE*)array,k*n)`
  pub gen_words : ℕ → ℕ → Crypto → List ℕ × Crypto
  gen_words k n crypt = let (bytes, crypt') = r.gen_rnd (k * n) crypt in (words k n bytes, crypt')

  pub length-gen_words : (k n : ℕ) (crypt : Crypto) → length (gen_words k n crypt).0 ≡ n
  unfolding gen_words
  length-gen_words k n crypt = length-words k n (r.gen_rnd (k * n) crypt).0

  -- Two draws of 8 bytes and `toBlock(x1,x2)`, which `block(*x1,*x2)` is too.
  unfoldable pub gen_block : ⦃b : Blocks⦄ → Crypto → Block × Crypto
  gen_block ⦃b⦄ crypt =
      let (x1, crypt') = r.gen_rnd 8 crypt in
      let (x2, crypt'') = r.gen_rnd 8 crypt' in (b.to_block (word_of x1) (word_of x2), crypt'')
