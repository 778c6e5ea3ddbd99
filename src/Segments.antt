-- ===== src/Segments.antt =====
-- The online phase in simple/src/Functions.cpp: each exchange pushes four segments, one for each
-- quarter of the garbled Bloom filter (`online_apport_receiver`, `online_apport_sender`), and four
-- threads take them from their queues (`run_xoring`). The threads work on different quarters, so the
-- model runs one after the other; the order in a queue is arbitrary.
pub mod Quarters
use malicious_mpsi.Base.{ℕ, ◌+◌, ◌-◌, ◌*◌, ◌/◌, List, [], ◌∷◌, Option, none, some, get_elem?, ◌>>=◌}
use malicious_mpsi.Block.{Blocks, Block}
use malicious_mpsi.Gbf.{xor_loop, ordered, ordered_bf}

module _ ⦃b : Blocks⦄ where
  -- What one side of an exchange adds: the receiver its strings in the order of its function, the
  -- sender the string that the bit of its filter names.
  pub data Job : Type 0 where
    job_recv : (to_xor : List Block) (order : List ℕ) → Job
    job_sender : (to_xor : List (Block × Block)) (bf order : List ℕ) → Job

  -- `Gbf_seg_recv` and `Gbf_seg_sender`: a job on the cells from `start` to before `end_`.
  pub record Segment : Type 0 where
    pub job : Job
    pub start : ℕ
    pub end_ : ℕ

  -- The block that a job adds to cell `j`.
  unfoldable pub job_block : Job → ℕ → Option Block
  job_block (job_recv to_xor order) = ordered to_xor order
  job_block (job_sender to_xor bf order) = ordered_bf to_xor order bf

  -- The segments that a job pushes on the four queues.
  unfoldable pub push_segments : ℕ → Job → List Segment
  push_segments nbf job =
      let jump = nbf / 4 in
      record { job = job; start = 0 * jump; end_ = (0 + 1) * jump }
      ∷ record { job = job; start = 1 * jump; end_ = (1 + 1) * jump }
      ∷ record { job = job; start = 2 * jump; end_ = (2 + 1) * jump }
      ∷ record { job = job; start = jump * 3; end_ = nbf }
      ∷ []

  -- One thread, over the segments that come out of its queue.
  unfoldable pub run_xoring : List Segment → List Block → Option (List Block)
  run_xoring [] g = some g
  run_xoring (s ∷ rest) g = do
    u ← xor_loop (job_block s.job) (s.end_ - s.start) s.start g
    run_xoring rest u

  -- Segment `i` of each job, in the order of the queue.
  unfoldable pub queued : ℕ → ℕ → List Job → Option (List Segment)
  queued nbf i [] = some []
  queued nbf i (job ∷ jobs) = do
    s ← get_elem? (push_segments nbf job) i
    rest ← queued nbf i jobs
    some (s ∷ rest)

  -- The thread of queue `i`.
  unfoldable pub run_queue : ℕ → ℕ → List Job → List Block → Option (List Block)
  run_queue nbf i jobs g = do segments ← queued nbf i jobs; run_xoring segments g

  unfoldable pub run_threads : ℕ → (ℕ → List Job) → List Block → Option (List Block)
  run_threads nbf jobs g = do
    g0 ← run_queue nbf 0 (jobs 0) g
    g1 ← run_queue nbf 1 (jobs 1) g0
    g2 ← run_queue nbf 2 (jobs 2) g1
    run_queue nbf 3 (jobs 3) g2
