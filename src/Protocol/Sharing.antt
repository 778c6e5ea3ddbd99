-- ===== src/Protocol/Sharing.antt =====
-- `set_up`: each party gets a valid filter with its share, and the common seed.
use mathlib.Core.Bool.{false≢true}
use malicious_mpsi.Base.{
  ℕ, suc, ◌-◌, ◌<◌, ◌≡◌, refl, sym, ◌∙◌, true, false, inl, inr, List, some, arith, length, range,
  ltb, ◌⊎◌, if◌then◌else◌, eq-cases, ne→==, Bool-cases, Gives, gives, Gives-some, Gives-map,
  Gives-bind,
}
use malicious_mpsi.Block.{Blocks, Block, block0, cell, xor_over, xor_over_cong}
use malicious_mpsi.Random.{Random}
use malicious_mpsi.Bloom.{Cipher}
use malicious_mpsi.Gbf.{SynchGbf, new_synch_gbf}
use malicious_mpsi.Gbf.Shape.{IsValid, new_synch_gbf-IsValid, SameShape-IsValid, unchanged}
use malicious_mpsi.Exchange.{Commitments, secret_write}
use malicious_mpsi.Exchange.Places.{Received}
use malicious_mpsi.Exchange.Seeds.{seeds_agreement_lem}
use malicious_mpsi.Exchange.Secret.{pair, message, shares_cancel, exchange_keys_lem, share_lem}
use malicious_mpsi.Protocol.{Inputs, seeds_agreement, share_gbf, set_up}

module _ ⦃b : Blocks⦄ ⦃r : Random⦄ ⦃c : Cipher⦄ ⦃o : Commitments⦄ where
  -- A party has drawn its keys, and its arrays have their lengths.
  pub record IsReady (n nbf : ℕ) (x : Inputs) : Type 0 where
    pub keys_size : length x.keys ≡ n
    pub pledges_size : length x.pledges_memory ≡ n
    pub keys_memory_size : length x.keys_memory ≡ n
    pub gbf_size : length x.gbf_memory ≡ nbf

  pub record IsSetUp (nbf : ℕ) (value : ℕ → Block) (common : Block) (s : SynchGbf × Block)
      : Type 0 where
    pub valid : IsValid s.0
    pub gbf_length : s.0.gbf_length ≡ nbf
    pub shares : (k : ℕ) → k < nbf → cell s.0.gbf k ≡ value k
    pub seed : s.1 ≡ common

  module _ (n nbf : ℕ) (x : ℕ → Inputs) where
    abbrev keys_of : ℕ → List Block
    keys_of p = (x p).keys

    -- The exclusive or of the seeds of all parties.
    abbrev pub common_seed : Block
    common_seed = xor_over (λ p. (x p).pledge.1) (range 0 (suc n))

    -- Cell `k` of the share of party `p`.
    abbrev pub share : ℕ → ℕ → Block
    share p k =
        if ltb 2 (suc n)
        then xor_over (pair n nbf keys_of k p) (range 0 (suc n))
        else cell (x p).gbf_memory k

    -- Two parties share nothing: their filters start from what was in the memory.
    pub shares_zero :
        (ltb 2 (suc n) ≡ true)
          ⊎ ((k : ℕ) → k < nbf → xor_over (λ p. cell (x p).gbf_memory k) (range 0 (suc n)) ≡ block0)
        → (k : ℕ) → k < nbf
        → xor_over (λ p. share p k) (range 0 (suc n)) ≡ block0
    shares_zero h k l = elim (Bool-cases (ltb 2 (suc n))) [
      | inl e ↦
          xor_over_cong (λ p. share p k) (λ p. xor_over (pair n nbf keys_of k p) (range 0 (suc n)))
            (range 0 (suc n)) (λ p i. rw e refl)
          ∙ shares_cancel n nbf keys_of k
      | inr e ↦
          xor_over_cong (λ p. share p k) (λ p. cell (x p).gbf_memory k) (range 0 (suc n))
            (λ p i. rw e refl)
          ∙ memory_zero e h k l
    ]
      where
        memory_zero :
            ltb 2 (suc n) ≡ false
            → (ltb 2 (suc n) ≡ true)
              ⊎ ((k : ℕ)
                  → k < nbf
                  → xor_over (λ p. cell (x p).gbf_memory k) (range 0 (suc n)) ≡ block0)
            → (k : ℕ) → k < nbf
            → xor_over (λ p. cell (x p).gbf_memory k) (range 0 (suc n)) ≡ block0
        memory_zero e (inl e') k l = absurd (false≢true (sym e ∙ e'))
        memory_zero e (inr z) k l = z k l

    seeds_agreement_value :
        (p : ℕ)
        → p < suc n
        → length (x p).pledges_memory ≡ n
        → Gives
            (λ s. s.1 ≡ common_seed)
            (seeds_agreement (suc n) p (λ q. some (x q).pledge) (x p).pledges_memory (x p).pledge.1)
    unfolding seeds_agreement
    seeds_agreement_value p h size =
        let lem = seeds_agreement_lem n (λ q. (x q).pledge) p (x p).pledges_memory h size in
        elim (eq-cases p 0) [
          | inl e ↦
              rw (e, pred)
                (Gives-map
                  (seeds_agreement_lem n (λ q. (x q).pledge) 0 (x 0).pledges_memory (omega arith)
                    (rw e at size)).0
                  (λ s a. a.0))
          | inr e ↦ rw (ne→== p 0 e) (Gives-map lem.1 (λ s a. a.0))
        ]
      where
        pred : suc n - 1 ≡ n
        pred = omega arith

    share_gbf_lem :
        (p : ℕ) (recv : List Block)
        → p < suc n
        → length (x p).gbf_memory ≡ nbf
        → length (x p).keys ≡ n
        → Received p n (message n nbf keys_of p) block0 (suc n) recv
        → Gives
            (λ g. (length g ≡ nbf) × ((k : ℕ) → k < nbf → cell g k ≡ share p k))
            (share_gbf (suc n) nbf (x p).gbf_memory (x p).keys recv)
    unfolding share_gbf
    share_gbf_lem p recv h fits size got = elim (Bool-cases (ltb 2 (suc n))) [
      | inl e ↦ rw e (
          Gives-map (share_lem n nbf keys_of (x p).gbf_memory recv p h (omega arith) size got)
            (λ g y. (y.0 ∙ fits, y.1)))
      | inr e ↦ rw e (gives (fits, λ k l. refl))
    ]

    pub set_up_lem :
        (p : ℕ)
        → p < suc n
        → ((q : ℕ) → q < suc n → IsReady n nbf (x q))
        → Gives
            (IsSetUp nbf (share p) common_seed)
            (set_up (suc n) nbf p (λ q. secret_write (x q).keys q p) (λ q. some (x q).pledge) (x p))
    unfolding set_up new_synch_gbf
    set_up_lem p h ready =
        let mine = ready p h in
        Gives-bind
          (exchange_keys_lem n nbf keys_of (x p).keys_memory p h mine.keys_memory_size
            (λ q l. (ready q l).keys_size))
          λ recv got. Gives-bind (seeds_agreement_value p h mine.pledges_size) λ common e.
            Gives-bind (share_gbf_lem p recv h mine.gbf_size mine.keys_size got) λ g y.
              gives (record {
                valid = SameShape-IsValid (unchanged _ g) (y.0 ∙ sym mine.gbf_size) (
                    Gives-some
                      (new_synch_gbf-IsValid (x p).gbf_memory nbf 256 mine.gbf_size
                        (λ e. absurd (omega arith))).0
                      refl);
                gbf_length = refl;
                shares = y.1;
                seed = e;
              })
