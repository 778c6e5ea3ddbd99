-- ===== src/Protocol/Run.antt =====
-- What a run of all parties is, and that at the places of a common item their cells cancel.
use mathlib.Core.List.{Permᴰ}
use malicious_mpsi.Base.{
  ℕ, zero, suc, ◌<◌, ◌≡◌, refl, sym, subst, ◌⊎◌, true, List, map, Option, some, arith, length,
  get_or, range, replicate, ltb, All_at, ◌∈◌, Gives-some,
}
use malicious_mpsi.Block.{Blocks, Block, ◌⊕◌, block0, cell, xor_over}
use malicious_mpsi.Random.{Random}
use malicious_mpsi.Bloom.{Cipher, Marks, create_bf}
use malicious_mpsi.Bloom.Marking.{hash_set, hash_set-Within}
use malicious_mpsi.Bloom.Filter.{Built, create_bf_lem}
use malicious_mpsi.Gbf.{SynchGbf}
use malicious_mpsi.Segments.{Job}
use malicious_mpsi.Exchange.{Commitments, secret_write}
use malicious_mpsi.Approt.{Session, going}
use malicious_mpsi.Codeword.Run.{Clean}
use malicious_mpsi.Protocol.{Inputs, set_up, online_phase, run_pi, run_p0}
use malicious_mpsi.Protocol.Sharing.{IsReady, common_seed, share, shares_zero}
use malicious_mpsi.Protocol.Online.{side_block}
use malicious_mpsi.Protocol.Sums.{totals_cancel, index_of}
use malicious_mpsi.Protocol.Pairs.{IsExchange, pair_cancels}

module _ ⦃b : Blocks⦄ ⦃r : Random⦄ ⦃c : Cipher⦄ ⦃o : Commitments⦄ (n nbf seeds_num : ℕ)
    (x : ℕ → Inputs) where
  -- The runs of `set_up`, `run_pi` and `run_p0` in which each party gets what the others send.
  abbrev pub set_up_of : ℕ → Option (SynchGbf × Block)
  set_up_of p =
      set_up (suc n) nbf p (λ q. secret_write (x q).keys q p) (λ q. some (x q).pledge) (x p)

  abbrev pub pi_of : ℕ → Option (Session (List Block))
  pi_of p =
      run_pi (suc n) nbf seeds_num p (λ q. secret_write (x q).keys q p) (λ q. some (x q).pledge)
        (x p)

  abbrev pub p0_of : (ℕ → List Block) → Option (Session (List ℕ))
  p0_of sent =
      run_p0 (suc n) nbf seeds_num (λ q. secret_write (x q).keys q 0) (λ q. some (x q).pledge)
        (map sent (range 1 n)) (x 0)

  abbrev pub set_of : ℕ → List ℕ
  set_of e = hash_set nbf (common_seed n nbf x) e seeds_num

  -- The parties' Bloom filters, and the functions of the exchange of P0 with party `j + 1`: the one
  -- that P0 makes, and the other one.
  pub record Choices : Type 0 where
    pub marks : ℕ → Marks
    pub p0_func : ℕ → List ℕ
    pub pi_func : ℕ → List ℕ

  -- The filter `u` with which the online phase of party `p` ends.
  abbrev pub Ends : Choices → ℕ → List Block → Type 0
  Ends d p u =
      (s : SynchGbf × Block) × (set_up_of p ≡ some s)
      × (online_phase nbf (x p).schedule (d.marks p).bf.arr (x p).sides 1 s.0.gbf ≡ some (going u))

  -- What the theorem asks of a run: the arrays have their lengths and the queues lose nothing; two
  -- parties alone start from memory that cancels; all exchanges are good in both directions; and the
  -- re-randomisation of every Pi is clean.
  pub record IsRun (d : Choices) : Type 0 where
    pub nonempty : 0 < nbf
    pub ready : (q : ℕ) → q < suc n → IsReady n nbf (x q)
    pub queues : (q i : ℕ) (jobs : List Job) → Permᴰ jobs ((x q).schedule i jobs)
    pub memory :
        (ltb 2 (suc n) ≡ true)
        ⊎ ((k : ℕ) → k < nbf → xor_over (λ p. cell (x p).gbf_memory k) (range 0 (suc n)) ≡ block0)
    pub filters :
        (q : ℕ)
        → q < suc n
        → create_bf seeds_num nbf (common_seed n nbf x) (x q).items ≡ some (d.marks q)
    pub down :
        (j : ℕ)
        → j < n
        → IsExchange nbf (d.marks 0).bf.arr ((x 0).sides j) ((x (suc j)).sides 0) (d.p0_func j)
    pub up :
        (j : ℕ)
        → j < n
        → IsExchange nbf
            (d.marks (suc j)).bf.arr
            ((x (suc j)).sides 0)
            ((x 0).sides j)
            (d.pi_func j)
    pub clean :
        (j : ℕ) (u : List Block)
        → j < n
        → Ends d (suc j) u
        → Clean
            (d.marks (suc j)).h_kokhav
            (map (xor_over (cell u)) (d.marks (suc j)).h_kokhav)
            (record { gbf = replicate nbf block0; crypt = (x (suc j)).crypt })

  module _ (d : Choices) (run : IsRun d) where
    abbrev pub bits_of : ℕ → List ℕ
    bits_of p = (d.marks p).bf.arr

    pub built :
        (q : ℕ)
        → q < suc n
        → Built seeds_num nbf (common_seed n nbf x) (x q).items (length (x q).items) (d.marks q)
    built q h =
        Gives-some (create_bf_lem seeds_num nbf _ (x q).items run.nonempty) (run.filters q h)

    -- What the exchanges add at P0 and at a party, and the cells after them.
    abbrev pub p0_adds : ℕ → ℕ → Block
    p0_adds k j = side_block (bits_of 0) ((x 0).sides j) (d.p0_func j) k

    abbrev pub pi_adds : ℕ → ℕ → Block
    pi_adds k j = side_block (bits_of (suc j)) ((x (suc j)).sides 0) (d.pi_func j) k

    abbrev pub total : ℕ → ℕ → Block
    total zero k = share n nbf x 0 k ⊕ xor_over (p0_adds k) (range 0 n)
    total (suc j) k = share n nbf x (suc j) k ⊕ pi_adds k j

    one_at : (e k q : ℕ) → q < suc n → e ∈ (x q).items → k ∈ set_of e → get_or (bits_of q) k 0 ≡ 1
    one_at e k q h i z =
        let (at, l, same) = index_of e (x q).items i in
        (built q h).ones at k l (subst (λ t. k ∈ set_of t) (sym same) z)

    -- At a place of the hash set of a common item the cells of all parties add up to zero.
    pub totals_zero :
        (e k : ℕ)
        → ((q : ℕ) → q < suc n → e ∈ (x q).items)
        → k ∈ set_of e
        → xor_over (λ p. total p k) (range 0 (suc n)) ≡ block0
    totals_zero e k common z =
        totals_cancel n (λ p. total p k) (λ p. share n nbf x p k) (p0_adds k) (pi_adds k) refl
          (λ j h. refl)
          (λ j h.
            pair_cancels nbf k (run.down j h) (run.up j h) in_filter
              (one_at e k 0 (omega arith) (common 0 (omega arith)) z)
              (one_at e k (suc j) (omega arith) (common (suc j) (omega arith)) z))
          (shares_zero n nbf x run.memory k in_filter)
      where
        in_filter : k < nbf
        in_filter =
            All_at (λ j. j < nbf) (set_of e) (hash_set-Within nbf _ e seeds_num run.nonempty) z
