-- ===== src/Segments/Quarters.antt =====
-- Together the four threads add every job once to every cell.
use malicious_mpsi.Base.{
  ℕ, ◌+◌, ◌-◌, ◌*◌, ◌/◌, ◌≤◌, ◌<◌, ◌≡◌, refl, sym, ap, List, [], ◌∷◌, some, map, arith, length,
  get_elem?, All, ltb, if◌then◌else◌, Gives, gives, Gives-map, Gives-bind,
}
use malicious_mpsi.Block.{Blocks, Block, xor_over}
use malicious_mpsi.Gbf.Ranges.{
  XorRange, XorRange_join, XorRange_add, XorRange_cong, XorRange_zero, xor_loop-XorRange,
}
use malicious_mpsi.Segments.{
  Job, Segment, job_block, push_segments, run_xoring, queued, run_queue, run_threads,
}

module _ ⦃b : Blocks⦄ where
  module _ (nbf : ℕ) (added : Job → ℕ → Block) where
    -- The job can be done: it has the block `added` for each cell.
    abbrev pub IsDoable : Job → Type 0
    IsDoable job = (k : ℕ) → k < nbf → job_block job k ≡ some (added job k)

    module _ (i lo hi : ℕ) where
      abbrev segment : Job → Segment
      segment job = record { job = job; start = lo; end_ = hi }

      abbrev IsPushed : Type 0
      IsPushed = (job : Job) → get_elem? (push_segments nbf job) i ≡ some (segment job)

      queued_lem : IsPushed → (jobs : List Job) → queued nbf i jobs ≡ some (map segment jobs)
      unfolding queued
      queued_lem at [] = refl
      queued_lem at (job ∷ jobs) = rw (at job, queued_lem at jobs)

      run_xoring-XorRange :
          (jobs : List Job) (g : List Block)
          → lo ≤ hi
          → hi ≤ nbf
          → length g ≡ nbf
          → All IsDoable jobs
          → Gives
              (XorRange (λ k. xor_over (λ job. added job k) jobs) lo hi g)
              (run_xoring (map segment jobs) g)
      unfolding run_xoring
      run_xoring-XorRange [] g le fits size d = gives (XorRange_zero lo hi g)
      run_xoring-XorRange (job ∷ jobs) g le fits size d =
          Gives-bind
            (xor_loop-XorRange (job_block job) (added job) (hi - lo) lo hi g (omega arith)
              (omega arith) (λ k p q. d.0 k (omega arith)))
            λ u x.
              Gives-map (run_xoring-XorRange jobs u le fits (omega (arith, x.same_length)) d.1)
                (λ v y. XorRange_add x y)

      run_queue-XorRange :
          IsPushed
          → (jobs : List Job) (g : List Block) → lo ≤ hi
          → hi ≤ nbf
          → length g ≡ nbf
          → All IsDoable jobs
          → Gives
              (XorRange (λ k. xor_over (λ job. added job k) jobs) lo hi g)
              (run_queue nbf i jobs g)
      unfolding run_queue
      run_queue-XorRange at jobs g le fits size d =
          rw (queued_lem at jobs) (run_xoring-XorRange jobs g le fits size d)

  -- The quarter of a cell.
  abbrev pub quarter : ℕ → ℕ → ℕ
  quarter nbf k =
      if ltb k (nbf / 4)
      then 0
      else if ltb k (2 * (nbf / 4))
      then 1
      else if ltb k (3 * (nbf / 4))
      then 2
      else 3

  -- Whatever the order of the jobs in each of the four queues, the threads return, each cell gets
  -- the blocks of all the jobs in the queue of its quarter, each once, and nothing else changes.
  pub run_threads_lem :
      (nbf : ℕ) (jobs : ℕ → List Job) (added : Job → ℕ → Block) (g : List Block)
      → length g ≡ nbf
      → ((i : ℕ) → All (IsDoable nbf added) (jobs i))
      → Gives
          (XorRange (λ k. xor_over (λ job. added job k) (jobs (quarter nbf k))) 0 nbf g)
          (run_threads nbf jobs g)
  unfolding run_threads push_segments
  run_threads_lem nbf jobs added g size d =
      Gives-bind (run 0 (0 * j) ((0 + 1) * j) (λ job. refl) g (omega arith) (omega arith) size)
        λ g0 x.
          Gives-bind
            (run 1 (1 * j) ((1 + 1) * j) (λ job. refl) g0 (omega arith) (omega arith)
              (omega (arith, x.same_length)))
            λ g1 y.
              Gives-bind
                (run 2 (2 * j) ((2 + 1) * j) (λ job. refl) g1 (omega arith) (omega arith)
                  (omega (arith, x.same_length, y.same_length)))
                λ g2 z.
                  Gives-map
                    (run 3 (j * 3) nbf (λ job. refl) g2 (omega arith) (omega arith)
                      (omega (arith, x.same_length, y.same_length, z.same_length)))
                    λ u t.
                      XorRange_join {mid = j} (omega arith) (omega arith)
                        (part 0 0 j (omega arith) (omega arith) (λ k p q. ground arith) x)
                        (XorRange_join {mid = 2 * j} (omega arith) (omega arith)
                          (part 1 j (2 * j) (omega arith) (omega arith) (λ k p q. ground arith) y)
                          (XorRange_join {mid = 3 * j} (omega arith) (omega arith)
                            (part 2 (2 * j) (3 * j) (omega arith) (omega arith)
                              (λ k p q. ground arith) z)
                            (part 3 (3 * j) nbf (omega arith) (omega arith) (λ k p q. ground arith)
                              t)))
    where
      j : ℕ
      j = nbf / 4

      part :
          (i lo' hi' : ℕ) {lo hi : ℕ} {g u : List Block}
          → lo ≡ lo'
          → hi ≡ hi'
          → ((k : ℕ) → lo' ≤ k → k < hi' → quarter nbf k ≡ i)
          → XorRange (λ k. xor_over (λ job. added job k) (jobs i)) lo hi g u
          → XorRange (λ k. xor_over (λ job. added job k) (jobs (quarter nbf k))) lo' hi' g u
      part i lo' hi' p q e =
          XorRange_cong p q
            (λ k l h. ap (λ m. xor_over (λ job. added job k) (jobs m)) (sym (e k l h)))

      run :
          (i lo hi : ℕ)
          → IsPushed nbf added i lo hi
          → (g : List Block) → lo ≤ hi
          → hi ≤ nbf
          → length g ≡ nbf
          → Gives
              (XorRange (λ k. xor_over (λ job. added job k) (jobs i)) lo hi g)
              (run_queue nbf i (jobs i) g)
      run i lo hi at g le fits size =
          run_queue-XorRange nbf added i lo hi at (jobs i) g le fits size (d i)
