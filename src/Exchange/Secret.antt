-- ===== src/Exchange/Secret.antt =====
-- The secret sharing: the cells of all parties add up to zero.
use malicious_mpsi.Base.{
  ℕ, suc, ◌-◌, ◌≤◌, ◌<◌, ◌≡◌, ◌≢◌, refl, sym, ap, ap₂, ◌∙◌, inl, inr, List, [], Option, none, some,
  arith, length, get_elem?-eq-get_or, range, eq-cases, ne→==, Gives, gives, Gives-map, Gives-bind,
}
use malicious_mpsi.Block.{
  Blocks, Block, ◌⊕◌, block0, cell, xor_over, xor_over_cong, xor_over-⊕, xor_over_exchange,
}
use malicious_mpsi.Bloom.{Cipher}
use malicious_mpsi.Exchange.{place, secret_write, exchange_keys, secret_sharing_aes, secret_sharing}
use malicious_mpsi.Exchange.Streams.{stream, both, Shared, secret_sharing_aes_lem}
use malicious_mpsi.Exchange.Places.{
  party, place_lt, place-party, party_le, Received, read_pi_lem, read_p0_lem, xor_over-party,
  range_lt,
}

-- The array that a run returns.
abbrev result {ℓ} : {A : Type ℓ} → Option (List A) → List A
result none = []
result (some xs) = xs

Gives-result {ℓ κ} :
    {A : Type ℓ} {P : List A → Type κ} {r : Option (List A)}
    → Gives P r
    → (r ≡ some (result r)) × P (result r)
Gives-result (gives p) = (refl, p)

module _ ⦃b : Blocks⦄ where
  symmetric_cancels :
      (g : ℕ → ℕ → Block) (ps : List ℕ)
      → xor_over (λ p. xor_over (λ q. g p q ⊕ g q p) ps) ps ≡ block0
  symmetric_cancels g ps =
      xor_over_cong _ (λ p. xor_over (g p) ps ⊕ xor_over (λ q. g q p) ps) ps
        (λ p i. xor_over-⊕ (g p) (λ q. g q p) ps)
      ∙ xor_over-⊕ (λ p. xor_over (g p) ps) (λ p. xor_over (λ q. g q p) ps) ps
      ∙ ap (b.xor _) (xor_over_exchange (λ p q. g q p) ps ps)
      ∙ b.xor_self _

  module _ ⦃c : Cipher⦄ where
    module _ (n nbf : ℕ) (keys : ℕ → List Block) where
      -- The streams of the keys that two parties sent each other, at cell `k`.
      abbrev pub sent : ℕ → ℕ → ℕ → Block
      sent k p q = stream (cell (keys p) (place p q)) k

      abbrev pub pair : ℕ → ℕ → ℕ → Block
      pair k p q = sent k p q ⊕ sent k q p

      abbrev pub message : ℕ → ℕ → Block
      message p q = cell (keys q) (place q p)

      -- The cells of a party: its sums with all the parties.
      abbrev pub IsShare : ℕ → List Block → Type 0
      IsShare p r = (k : ℕ) → k < nbf → cell r k ≡ xor_over (pair k p) (range 0 (suc n))

      Shared-IsShare :
          (p : ℕ) (gbf recv r : List Block)
          → p < suc n
          → Received p n (message p) block0 (suc n) recv
          → Shared n nbf gbf (keys p) recv n r
          → IsShare p r
      Shared-IsShare p gbf recv r h x y k l =
          y.sums k l
          ∙ xor_over_cong _ (λ j. pair k p (party p j)) (range 0 n)
              (λ j i. entry j (omega (arith, range_lt 0 n j i)))
          ∙ sym (b.xor_zero _)
          ∙ ap (b.xor _) (sym (b.xor_self (sent k p p)))
          ∙ xor_over-party (pair k p) p n h
        where
          entry : (j : ℕ) → j < n → both n nbf gbf (keys p) recv k j ≡ pair k p (party p j)
          entry j q =
              ap₂ (λ u v. stream u k ⊕ stream v k) (ap (cell (keys p)) (sym (place-party p j)))
                (x.holds j q (party_le p j n q))

      -- The sums of a symmetric table cancel.
      pub shares_cancel :
          (k : ℕ) → xor_over (λ p. xor_over (pair k p) (range 0 (suc n))) (range 0 (suc n)) ≡ block0
      shares_cancel k = symmetric_cancels (sent k) (range 0 (suc n))

      -- What `p` receives: the key of every other party, at its place.
      pub exchange_keys_lem :
          (memory : List Block) (p : ℕ)
          → p < suc n
          → length memory ≡ n
          → ((q : ℕ) → q < suc n → length (keys q) ≡ n)
          → Gives
              (Received p n (message p) block0 (suc n))
              (exchange_keys (suc n) p (λ q. secret_write (keys q) q p) memory)
      unfolding exchange_keys secret_write
      exchange_keys_lem memory p h size sizes = elim (eq-cases p 0) [
        | inl e ↦
            rw (e, pred)
              (read_p0_lem n (message 0) block0 _ memory size
                (λ q l ne. written 0 q (omega arith) l ne))
        | inr e ↦
            rw (ne→== p 0 e)
              (read_pi_lem p n (message p) block0 _ memory h size (λ q l ne. written p q h l ne))
      ]
        where
          written :
              (p q : ℕ)
              → p < suc n
              → q < suc n
              → q ≢ p
              → secret_write (keys q) q p ≡ some (message p q)
          written p q h l ne =
              get_elem?-eq-get_or (keys q) (place q p) block0
                (rw (sizes q l) (place_lt q p n (λ e. ne (sym e)) h l))

          pred : suc n - 1 ≡ n
          pred = omega arith

      pub share_lem :
          (gbf recv : List Block) (p : ℕ)
          → p < suc n
          → nbf ≤ length gbf
          → length (keys p) ≡ n
          → Received p n (message p) block0 (suc n) recv
          → Gives
              (λ r. (length r ≡ length gbf) × IsShare p r)
              (secret_sharing_aes (suc n) nbf gbf (keys p) recv)
      share_lem gbf recv p h fits size x =
          Gives-map (secret_sharing_aes_lem n nbf gbf (keys p) recv fits size x.size)
            λ r y. (y.size, Shared-IsShare p gbf recv r h x y)

      run_Gives :
          (memory gbf : List Block) (p : ℕ)
          → p < suc n
          → length memory ≡ n
          → nbf ≤ length gbf
          → ((q : ℕ) → q < suc n → length (keys q) ≡ n)
          → Gives
              (IsShare p)
              (secret_sharing (suc n) nbf p (λ q. secret_write (keys q) q p) memory gbf (keys p))
      unfolding secret_sharing
      run_Gives memory gbf p h size fits sizes =
          Gives-bind (exchange_keys_lem memory p h size sizes)
            λ recv x. Gives-map (share_lem gbf recv p h fits (sizes p h) x) λ r y. y.1

    -- `n + 1` parties draw `n` keys each and exchange them. Then the secret sharing of each party
    -- returns, and at every cell of the filter the shares of all parties add up to zero.
    pub secret_sharing_lem :
        (n nbf : ℕ) (keys memory gbf : ℕ → List Block)
        → ((p : ℕ) → p < suc n → length (memory p) ≡ n)
        → ((p : ℕ) → p < suc n → nbf ≤ length (gbf p))
        → ((q : ℕ) → q < suc n → length (keys q) ≡ n)
        → (shares : ℕ → List Block) × ((p : ℕ)
            → p < suc n
            → secret_sharing
                (suc n)
                nbf
                p
                (λ q. secret_write (keys q) q p)
                (memory p)
                (gbf p)
                (keys p)
              ≡ some (shares p))
          × ((k : ℕ) → k < nbf → xor_over (λ p. cell (shares p) k) (range 0 (suc n)) ≡ block0)
    secret_sharing_lem n nbf keys memory gbf size fits sizes =
        let run = λ (p : ℕ).
          secret_sharing (suc n) nbf p (λ q. secret_write (keys q) q p) (memory p) (gbf p)
            (keys p) in
        let got = λ (p : ℕ) (h : p < suc n).
          Gives-result (run_Gives n nbf keys (memory p) (gbf p) p h (size p h) (fits p h) sizes) in
        (
          λ p. result (run p),
          λ p h. (got p h).0,
          λ k l.
              xor_over_cong _ (λ p. xor_over (pair n nbf keys k p) (range 0 (suc n)))
                (range 0 (suc n)) (λ p i. (got p (omega (arith, range_lt 0 (suc n) p i))).1 k l)
              ∙ shares_cancel n nbf keys k,
        )
