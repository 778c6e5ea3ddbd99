-- ===== src/Exchange/Streams.antt =====
-- `secret_sharing_aes`: what the streams of the keys add to the cells of one party.
use mathlib.Core.Option.{some-injective}
use malicious_mpsi.Base.{
  ℕ, suc, ◌-◌, ◌≤◌, ◌<◌, ◌≡◌, refl, sym, ap, ◌∙◌, inl, inr, List, some, arith, length, get_or,
  get_elem?, get_elem?-eq-get_or, get_elem?-map, get_or-range, length-map, length-range, length-set,
  store, store_of_lt, get_or-set_self, get_or-set_ne, map, range, eq-cases, ◌>>=◌, for, Gives,
  Gives-map, Gives-bind, some-Gives, for-Gives,
}
use malicious_mpsi.Block.{Blocks, Block, ◌⊕◌, block0, cell, xor_over, xor_over_cong}
use malicious_mpsi.Bloom.{Cipher, ecb_enc_blocks}
use malicious_mpsi.Gbf.Ranges.{XorRange, xor_loop-XorRange}
use malicious_mpsi.Exchange.{add_stream, secret_sharing_aes}
use malicious_mpsi.Exchange.Places.{party, xor_over-party, range_lt}

module _ ⦃b : Blocks⦄ where
  xor_over-range_last :
      (f : ℕ → Block) (m : ℕ) → xor_over f (range 0 m) ⊕ f m ≡ xor_over f (range 0 (suc m))
  xor_over-range_last f m =
      ap (λ t. t ⊕ f m)
        (xor_over_cong f _ (range 0 m)
          (λ k i. ap f (sym (low k (omega (arith, range_lt 0 m k i))))))
      ∙ xor_over-party f m m (omega arith)
    where
      low : (k : ℕ) → k < m → party m k ≡ k
      low k h = grind arith

  -- The array is cleared below `i`.
  record Cleared (gbf : List Block) (i : ℕ) (r : List Block) : Type 0 where
    size : length r ≡ length gbf
    zeros : (k : ℕ) → k < i → cell r k ≡ block0

  clear_lem :
      (nbf : ℕ) (gbf : List Block)
      → nbf ≤ length gbf
      → Gives (Cleared gbf nbf) (for nbf 0 (λ i r. store r i block0) gbf)
  clear_lem nbf gbf h =
      for-Gives (Cleared gbf) nbf _ nbf 0 gbf (omega arith)
        (λ i r lo p x. some-Gives (store_of_lt r i block0 (omega (arith, x.size))) (record {
          size = length-set r i block0 ∙ x.size;
          zeros = λ k l. elim (eq-cases k i) [
            | inl e ↦ rw e (get_or-set_self r i block0 block0 (omega (arith, x.size)))
            | inr e ↦ get_or-set_ne r i k block0 block0 e ∙ x.zeros k (omega arith)
          ];
        }))
        (record { size = refl; zeros = λ k l. absurd (omega arith) })

  module _ ⦃c : Cipher⦄ where
    -- Cell `k` of the stream of a key.
    abbrev pub stream : Block → ℕ → Block
    stream key k = c.encrypt key (b.to_block 0 k)

    add_stream_lem :
        (nbf : ℕ) (key : Block) (r : List Block)
        → nbf ≤ length r
        → Gives
            (XorRange (stream key) 0 nbf r)
            (add_stream nbf (map (b.to_block 0) (range 0 nbf)) key r)
    unfolding add_stream ecb_enc_blocks
    add_stream_lem nbf key r h =
        xor_loop-XorRange _ (stream key) nbf 0 nbf r (omega arith) h λ k lo p.
          get_elem?-map (c.encrypt key) (map (b.to_block 0) (range 0 nbf)) k block0 (size k p)
          ∙ ap (λ t. some (c.encrypt key t)) (entry k p)
      where
        size : (k : ℕ) → k < nbf → k < length (map (b.to_block 0) (range 0 nbf))
        size k p = rw (length-map (b.to_block 0) (range 0 nbf), length-range 0 nbf) p

        entry : (k : ℕ) → k < nbf → cell (map (b.to_block 0) (range 0 nbf)) k ≡ b.to_block 0 k
        entry k p = some-injective _ _ (
            sym (get_elem?-eq-get_or (map (b.to_block 0) (range 0 nbf)) k block0 (size k p))
            ∙ get_elem?-map (b.to_block 0) (range 0 nbf) k 0 (rw (length-range 0 nbf) p)
            ∙ ap (λ j. some (b.to_block 0 j)) at)
          where
            at : get_or (range 0 nbf) k 0 ≡ k
            at = omega (arith, get_or-range 0 nbf k 0 p)

    module _ (n nbf : ℕ) (gbf keys keys_recv : List Block) where
      -- What both keys of place `p` add to cell `k`.
      abbrev pub both : ℕ → ℕ → Block
      both k p = stream (cell keys p) k ⊕ stream (cell keys_recv p) k

      -- After the keys below `m`.
      pub record Shared (m : ℕ) (r : List Block) : Type 0 where
        pub size : length r ≡ length gbf
        pub sums : (k : ℕ) → k < nbf → cell r k ≡ xor_over (both k) (range 0 m)

      next_Shared :
          (m : ℕ) (r : List Block)
          → nbf ≤ length gbf
          → m < length keys
          → m < length keys_recv
          → Shared m r
          → Gives (Shared (suc m)) (do
            key ← get_elem? keys m
            r1 ← add_stream nbf (map (b.to_block 0) (range 0 nbf)) key r
            key_recv ← get_elem? keys_recv m
            add_stream nbf (map (b.to_block 0) (range 0 nbf)) key_recv r1)
      next_Shared m r fits h q x =
          rw (get_elem?-eq-get_or keys m block0 h, get_elem?-eq-get_or keys_recv m block0 q)
            (Gives-bind (add_stream_lem nbf (cell keys m) r (omega (arith, x.size))) λ r1 y.
              Gives-map
                (add_stream_lem nbf (cell keys_recv m) r1 (omega (arith, x.size, y.same_length)))
                λ r2 z. record {
                  size = z.same_length ∙ y.same_length ∙ x.size;
                  sums = λ k p.
                      z.inside k (omega arith) p
                      ∙ ap (λ t. t ⊕ stream (cell keys_recv m) k)
                          (y.inside k (omega arith) p
                            ∙ ap (λ t. t ⊕ stream (cell keys m) k) (x.sums k p))
                      ∙ b.xor_assoc _ _ _
                      ∙ xor_over-range_last (both k) m;
                })

      pub secret_sharing_aes_lem :
          nbf ≤ length gbf
          → length keys ≡ n
          → length keys_recv ≡ n
          → Gives (Shared n) (secret_sharing_aes (suc n) nbf gbf keys keys_recv)
      unfolding secret_sharing_aes
      secret_sharing_aes_lem fits h q = Gives-bind (clear_lem nbf gbf fits) λ cleared x. rw pred (
          for-Gives Shared n _ n 0 cleared (omega arith)
            (λ m r lo l y. next_Shared m r fits (omega arith) (omega arith) y)
            (record { size = x.size; sums = x.zeros }))
        where
          pred : suc n - 1 ≡ n
          pred = omega arith
