-- ===== src/Gbf.antt =====
-- The class `synchGBF` of simple/src/Functions.h: the garbled Bloom filter that all the threads of
-- a party add to. Every operation holds the mutex of the chunk that it changes, so operations on
-- one chunk follow one another, and the model runs them one after the other.
pub mod Ranges
pub mod Shape
pub mod Chunks
use malicious_mpsi.Base.{
  ℕ, ◌+◌, ◌-◌, ◌*◌, ◌/◌, List, Option, none, some, get_elem?, store, ltb, ◌==◌, if◌then◌else◌,
  ◌>>=◌, for,
}
use malicious_mpsi.Block.{Blocks, Block, ◌⊕◌}

-- The fields that the operations read; `mtxArr` and `turn` are the locks.
pub record SynchGbf ⦃b : Blocks⦄ : Type 0 where
  pub gbf_length : ℕ
  pub chunk_size : ℕ
  pub num_of_chunks : ℕ
  pub last_chunk_start : ℕ
  pub gbf : List Block

module _ ⦃b : Blocks⦄ where
  -- `synchGBF(int Nbf,int chunks)`. `memory` is what `new block[GBF_length]` returns, which is not
  -- initialised. A division by zero is a fault.
  unfoldable pub new_synch_gbf : List Block → ℕ → ℕ → Option SynchGbf
  new_synch_gbf memory nbf chunks =
      let num = nbf / chunks + 1 in
      if chunks == 0
      then none
      else some (record {
        gbf_length = nbf;
        chunk_size = chunks;
        num_of_chunks = num;
        last_chunk_start = (num - 1) * chunks;
        gbf = memory;
      })

  -- `synchGBF(int Nbf,int chunks,int segments)`: `ceil` is applied to a whole quotient.
  pub new_synch_gbf_segments : List Block → ℕ → ℕ → Option SynchGbf
  new_synch_gbf_segments memory nbf segments =
      if segments == 0
      then none
      else some (record {
        gbf_length = nbf;
        chunk_size = nbf / segments;
        num_of_chunks = segments;
        last_chunk_start = (segments - 1) * (nbf / segments);
        gbf = memory;
      })

  -- `GBF[i]=GBF[i]^y`
  unfoldable pub xor_cell : ℕ → Block → List Block → Option (List Block)
  xor_cell i y g = do x ← get_elem? g i; store g i (x ⊕ y)

  -- `for (int j=start;j<start+rounds;j++) GBF[j]=GBF[j]^source(j)`
  unfoldable pub xor_loop : (ℕ → Option Block) → ℕ → ℕ → List Block → Option (List Block)
  xor_loop source rounds start = for rounds start (λ j g. do y ← source j; xor_cell j y g)

  -- The two loops that `XORsimple`, `XORordered` and `XORorderedBF` share: the whole chunks, then
  -- the last one. They differ in the block that is added to cell `j`.
  pub xor_chunks : (ℕ → Option Block) → SynchGbf → Option SynchGbf
  xor_chunks source t = do
    g ← for (t.num_of_chunks - 1) 0 (λ n. xor_loop source t.chunk_size (n * t.chunk_size)) t.gbf
    u ←
        if ltb t.last_chunk_start t.gbf_length
        then xor_loop source (t.gbf_length - t.last_chunk_start) t.last_chunk_start g
        else some g
    some (record t { gbf = u })

  pub xor_simple : List Block → SynchGbf → Option SynchGbf
  xor_simple to_xor = xor_chunks (get_elem? to_xor)

  -- `(*toXOR)[order[j]]`
  unfoldable pub ordered : List Block → List ℕ → ℕ → Option Block
  ordered to_xor order j = do o ← get_elem? order j; get_elem? to_xor o

  pub xor_ordered : List Block → List ℕ → SynchGbf → Option SynchGbf
  xor_ordered to_xor order = xor_chunks (ordered to_xor order)

  -- `pair[bit]` of an `array<block,2>`
  unfoldable pub choose : Block × Block → ℕ → Option Block
  choose pair bit = if bit == 0 then some pair.0 else if bit == 1 then some pair.1 else none

  -- `(*toXOR)[order[j]][BF->get_bit(j)]`
  unfoldable pub ordered_bf : List (Block × Block) → List ℕ → List ℕ → ℕ → Option Block
  ordered_bf to_xor order bf j = do
    o ← get_elem? order j
    pair ← get_elem? to_xor o
    bit ← get_elem? bf j
    choose pair bit

  pub xor_ordered_bf : List (Block × Block) → List ℕ → List ℕ → SynchGbf → Option SynchGbf
  xor_ordered_bf to_xor order bf = xor_chunks (ordered_bf to_xor order bf)

  pub xor_chunk_loop : List Block → ℕ → ℕ → List Block → Option (List Block)
  xor_chunk_loop to_xor start rounds =
      for rounds 0 (λ j g. do y ← get_elem? to_xor j; xor_cell (start + j) y g)

  pub xor_chunk : List Block → ℕ → SynchGbf → Option SynchGbf
  xor_chunk to_xor chunk_num t = do
    g ← xor_chunk_loop to_xor (chunk_num * t.chunk_size) t.chunk_size t.gbf
    some (record t { gbf = g })

  pub xor_chunk_limited : List Block → ℕ → ℕ → SynchGbf → Option SynchGbf
  xor_chunk_limited to_xor chunk_num limit t = do
    g ← xor_chunk_loop to_xor (chunk_num * t.chunk_size) limit t.gbf
    some (record t { gbf = g })
