-- ===== src/Collect.antt =====
-- Step 11 and step 12 in simple/src/Functions.cpp: the parties send their garbled Bloom filters to
-- P0 (`comulative_gbf_pi`), P0 receives them chunk by chunk and adds them to its own (`get_gbf`,
-- `compute_gbf`), and tests its items (`check_the_item`, `get_intersection`).
pub mod Receive
use malicious_mpsi.Base.{
  ℕ, ◌+◌, ◌-◌, ◌*◌, ◌/◌, Bool, List, [], ◌∷◌, ◌++◌, Option, none, some, length, get_elem?, take,
  drop, ltb, leb, if◌then◌else◌, ◌>>=◌, for,
}
use malicious_mpsi.Block.{Blocks, Block, ◌⊕◌, block0}
use malicious_mpsi.Gbf.{SynchGbf, xor_chunk, xor_chunk_limited}

module _ ⦃b : Blocks⦄ where
  -- A socket as the blocks that wait in it. A read of more than will ever come never returns.
  abbrev pub Stream : Type 0
  Stream = List Block

  -- `write_as_a_sender(msg,sizeof(block)*n)`: what it writes and the bytes that it counts.
  unfoldable pub write_blocks : List Block → Stream → Stream × ℕ
  write_blocks msg stream = (stream ++ msg, 16 * length msg)

  -- `read_as_a_receiver(msg,sizeof(block)*n)`
  pub read_blocks : ℕ → Stream → Option (List Block × Stream)
  read_blocks n stream = if leb n (length stream) then some (take n stream, drop n stream) else none

  -- `comulative_gbf_pi`, with the number that it logs.
  unfoldable pub cumulative_gbf_pi : ℕ → List Block → Stream → Stream × ℕ
  cumulative_gbf_pi nbf gbf stream = write_blocks (take nbf gbf) stream

  -- The variables of `get_gbf`'s loop: the shared filter, the socket, and `sum`.
  pub record Intake : Type 0 where
    pub test : SynchGbf
    pub stream : Stream
    pub sum : ℕ

  -- One round of the loop.
  pub get_chunk : ℕ → ℕ → Intake → Option Intake
  get_chunk chunk_size i s = do
    (chunk, rest) ← read_blocks chunk_size s.stream
    u ← xor_chunk chunk i s.test
    some (record { test = u; stream = rest; sum = s.sum + 16 * chunk_size })

  -- The `if` after the loop.
  pub get_last : ℕ → ℕ → Intake → Option Intake
  get_last n limit s = do
    (chunk, rest) ← read_blocks limit s.stream
    u ← xor_chunk_limited chunk n limit s.test
    some (record { test = u; stream = rest; sum = s.sum + 16 * limit })

  pub get_gbf : ℕ → SynchGbf → Stream → Option Intake
  get_gbf nbf test stream = do
    let chunk_size = test.chunk_size
    let n = nbf / chunk_size
    s ← for n 0 (get_chunk chunk_size) (record { test = test; stream = stream; sum = 0 })
    if ltb (n * chunk_size) nbf then get_last n (nbf - n * chunk_size) s else some s

  -- `compute_gbf`: one thread for each party. The threads take turns at the chunks; here one
  -- follows the other.
  pub compute_gbf : ℕ → List Stream → SynchGbf → Option SynchGbf
  compute_gbf nbf [] test = some test
  compute_gbf nbf (stream ∷ streams) test = do
    s ← get_gbf nbf test stream
    compute_gbf nbf streams s.test
