-- ===== src/Protocol/Messages.antt =====
-- What a Pi sends: its message has the sums of its own cells over the hash sets of its items.
use malicious_mpsi.Base.{
  ℕ, suc, ◌<◌, ◌≡◌, ◌∙◌, ap, ap₂, subst, List, [], map, arith, length, get_or, range, take,
  get_or-take, length-take, All, All_at, Within, Distinct, ◌∈◌, Ascending-Distinct, gives,
  Gives-bind, Gives-value,
}
use malicious_mpsi.Block.{Blocks, Block, ◌⊕◌, block0, cell, xor_over, xor_over_cong}
use malicious_mpsi.Random.{Random}
use malicious_mpsi.Bloom.{Cipher}
use malicious_mpsi.Bloom.Marking.{hash_set-Ascending, hash_set-Within}
use malicious_mpsi.Gbf.{SynchGbf}
use malicious_mpsi.Exchange.{Commitments}
use malicious_mpsi.Codeword.Run.{HasCodewords, re_randomization_lem}
use malicious_mpsi.Collect.{cumulative_gbf_pi, write_blocks}
use malicious_mpsi.Protocol.{Inputs, go_on, online_phase, run_pi}
use malicious_mpsi.Protocol.Sharing.{IsSetUp, common_seed, share, set_up_lem}
use malicious_mpsi.Protocol.Online.{Goes, Goes-map, Goes-value, goes, IsPlayable, online_phase_lem}
use malicious_mpsi.Protocol.Sums.{codeword_at, index_of, All-get_or}
use malicious_mpsi.Protocol.Pairs.{IsExchange-IsPlayable}
use malicious_mpsi.Protocol.Run.{Choices, IsRun, pi_of, set_of, bits_of, p0_adds, total, built}

module _ ⦃b : Blocks⦄ ⦃r : Random⦄ ⦃c : Cipher⦄ ⦃o : Commitments⦄ (n nbf seeds_num : ℕ)
    (x : ℕ → Inputs) (d : Choices n nbf seeds_num x) (run : IsRun n nbf seeds_num x d) where
  pub sets_at :
      (q : ℕ)
      → q < suc n
      → (i : ℕ) → i < length (x q).items
      → get_or (d.marks q).h_kokhav i [] ≡ set_of n nbf seeds_num x (get_or (x q).items i 0)
  sets_at q h i l = (built n nbf seeds_num x d run q h).sets i l

  All-sets :
      (P : List ℕ → Type 0) (q : ℕ)
      → q < suc n
      → ((e : ℕ) → P (set_of n nbf seeds_num x e))
      → All P (d.marks q).h_kokhav
  All-sets P q h p = All-get_or P [] (d.marks q).h_kokhav λ i l.
      let l' : i < length (x q).items =
        omega (arith, (built n nbf seeds_num x d run q h).sets_length) in
      rw (sets_at q h i l') (p (get_or (x q).items i 0))

  pub sets-Within : (q : ℕ) → q < suc n → All (Within nbf) (d.marks q).h_kokhav
  sets-Within q h = All-sets (Within nbf) q h (λ e. hash_set-Within nbf _ e seeds_num run.nonempty)

  sets-Distinct : (q : ℕ) → q < suc n → All Distinct (d.marks q).h_kokhav
  sets-Distinct q h =
      All-sets Distinct q h (λ e. Ascending-Distinct _ (hash_set-Ascending nbf _ e seeds_num))

  -- Equal cells within the filter have equal sums over the set of an item.
  sum_over_set :
      (f g : ℕ → Block) (e : ℕ)
      → ((k : ℕ) → k < nbf → f k ≡ g k)
      → xor_over f (set_of n nbf seeds_num x e) ≡ xor_over g (set_of n nbf seeds_num x e)
  sum_over_set f g e h =
      xor_over_cong f g _
        (λ k i. h k (All_at (λ j. j < nbf) _ (hash_set-Within nbf _ e seeds_num run.nonempty) i))

  -- The cells of party `p` when the exchanges have been added.
  abbrev pub HasTotals : ℕ → List Block → Type 0
  HasTotals p u =
      (length u ≡ nbf) × ((k : ℕ) → k < nbf → cell u k ≡ total n nbf seeds_num x d run p k)

  -- A message that has the party's sum over the hash set of each of its items.
  abbrev pub HasSums : ℕ → List Block → Type 0
  HasSums p sent =
      (length sent ≡ nbf)
      × ((e : ℕ)
          → e ∈ (x p).items
          → xor_over (cell sent) (set_of n nbf seeds_num x e)
            ≡ xor_over (total n nbf seeds_num x d run p) (set_of n nbf seeds_num x e))

  pi_online :
      (j : ℕ) (s : SynchGbf × Block)
      → j < n
      → IsSetUp nbf (share n nbf x (suc j)) (common_seed n nbf x) s
      → Goes (HasTotals (suc j)) (
          online_phase nbf
            (x (suc j)).schedule
            (bits_of n nbf seeds_num x d run (suc j))
            (x (suc j)).sides
            1
            s.0.gbf)
  pi_online j s h y =
      let bt = built n nbf seeds_num x d run (suc j) (omega arith) in
      Goes-map
        (online_phase_lem nbf (x (suc j)).schedule _ (x (suc j)).sides (λ i. d.pi_func j) 1 s.0.gbf
          (y.valid.size ∙ y.gbf_length) (omega (arith, bt.bits_length)) bt.binary
          (run.queues (suc j)) (λ i l. play i (omega arith)))
        λ u t. (t.0, λ k l. t.1 k l ∙ ap₂ b.xor (y.shares k l) (b.xor_zero _))
    where
      play :
          (i : ℕ)
          → i ≡ 0
          → IsPlayable nbf
              (bits_of n nbf seeds_num x d run (suc j))
              ((x (suc j)).sides i)
              (d.pi_func j)
      play i e = rw e (IsExchange-IsPlayable nbf (run.up j h) (run.down j h))

  pub p0_online :
      (s : SynchGbf × Block)
      → IsSetUp nbf (share n nbf x 0) (common_seed n nbf x) s
      → Goes (HasTotals 0) (
          online_phase nbf (x 0).schedule (bits_of n nbf seeds_num x d run 0) (x 0).sides n s.0.gbf)
  p0_online s y =
      let bt = built n nbf seeds_num x d run 0 (omega arith) in
      Goes-map
        (online_phase_lem nbf (x 0).schedule _ (x 0).sides d.p0_func n s.0.gbf
          (y.valid.size ∙ y.gbf_length) (omega (arith, bt.bits_length)) bt.binary (run.queues 0)
          (λ j l. IsExchange-IsPlayable nbf (run.down j l) (run.up j l)))
        λ u t. (
          t.0,
          λ k l.
              t.1 k l
              ∙ ap (λ z. z ⊕ xor_over (p0_adds n nbf seeds_num x d run k) (range 0 n))
                  (y.shares k l),
        )

  -- What `comulative_gbf_pi` sends of a filter with the codewords of `u`.
  sent_sums :
      (j : ℕ) (u gbf : List Block)
      → j < n
      → HasTotals (suc j) u
      → length gbf ≡ nbf
      → HasCodewords
          (d.marks (suc j)).h_kokhav
          (map (xor_over (cell u)) (d.marks (suc j)).h_kokhav)
          gbf
      → HasSums (suc j) (cumulative_gbf_pi nbf gbf []).0
  unfolding cumulative_gbf_pi write_blocks
  sent_sums j u gbf h t size codewords = (length-take nbf gbf (omega arith), sums)
    where
      sums :
          (e : ℕ)
          → e ∈ (x (suc j)).items
          → xor_over (cell (take nbf gbf)) (set_of n nbf seeds_num x e)
            ≡ xor_over (total n nbf seeds_num x d run (suc j)) (set_of n nbf seeds_num x e)
      sums e i =
          let (at, l, same) = index_of e (x (suc j)).items i in
          sum_over_set (cell (take nbf gbf)) (cell gbf) e (λ k q. get_or-take nbf k gbf block0 q)
          ∙ subst (λ js. xor_over (cell gbf) js ≡ xor_over (cell u) js)
              (sets_at (suc j) (omega arith) at l ∙ ap (set_of n nbf seeds_num x) same)
              (codeword_at _ (xor_over (cell u)) gbf at codewords
                (omega (arith, (built n nbf seeds_num x d run (suc j) (omega arith)).sets_length)))
          ∙ sum_over_set (cell u) (total n nbf seeds_num x d run (suc j)) e t.1

  pub pi_lem : (j : ℕ) → j < n → Goes (HasSums (suc j)) (pi_of n nbf seeds_num x (suc j))
  unfolding run_pi go_on
  pi_lem j h =
      let (s, e, y) = Gives-value (set_up_lem n nbf x (suc j) (omega arith) run.ready) in
      let (u, e', t) = Goes-value (pi_online j s h y) in
      rw (e, y.seed, run.filters (suc j) (omega arith), e')
        (Gives-bind
          (re_randomization_lem (d.marks (suc j)).h_kokhav (record s.0 { gbf = u }) nbf
            (x (suc j)).crypt t.0 (sets-Distinct (suc j) (omega arith))
            (sets-Within (suc j) (omega arith)) (run.clean j u h (s, e, e')))
          λ filled z. gives (goes (sent_sums j u filled.gbf h t z.0 z.1)))
