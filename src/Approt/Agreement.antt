-- ===== src/Approt/Agreement.antt =====
-- What the two sides of an exchange add to their garbled Bloom filters with the receiver's function:
-- the same string where their filters have the same bit.
use malicious_mpsi.Base.{
  ℕ, ◌≤◌, ◌<◌, ◌≡◌, ap, ap₂, ◌∙◌, List, arith, length, get_or, if◌then◌else◌, Gives, Gives-map,
}
use malicious_mpsi.Block.{Blocks, Block, ◌⊕◌, block0, cell, ⊕_swap}
use malicious_mpsi.Choose.Opening.{IsOt}
use malicious_mpsi.Arrange.Rank.{class}
use malicious_mpsi.Gbf.{SynchGbf, xor_ordered, xor_ordered_bf}
use malicious_mpsi.Gbf.Shape.{IsValid}
use malicious_mpsi.Gbf.Chunks.{chosen, xor_ordered_lem, xor_ordered_bf_lem}
use malicious_mpsi.Approt.Function.{IsFunction}

module _ ⦃b : Blocks⦄ (n : ℕ) (strings : List (Block × Block)) (bits : List ℕ)
    (received : List Block) (sub_group bf bf' f : List ℕ) (ot : IsOt n strings bits received) where
  -- The receiver's string at a place is the one that its filter's bit names.
  pub received_string :
      (nbf k : ℕ)
      → IsFunction n sub_group bits bf nbf f
      → k < nbf
      → cell received (get_or f k 0)
        ≡ chosen (get_or strings (get_or f k 0) (block0, block0)) (get_or bf k 0)
  received_string nbf k g h =
      ot.agree (get_or f k 0) (g.inside k h)
      ∙ ap
          (λ c.
            if c
            then (get_or strings (get_or f k 0) (block0, block0)).0
            else (get_or strings (get_or f k 0) (block0, block0)).1)
          (g.matches k h)

  -- The receiver, with filter `bf`, adds its strings to `t` by `XORordered`, and the sender, with
  -- filter `bf'`, adds its own to `t'` by `XORorderedBF`. Both runs return, and at every place where
  -- the two filters have the same bit the sum of the two cells is what it was before.
  pub apport_agreement :
      (t t' : SynchGbf)
      → IsValid t
      → IsValid t'
      → t'.gbf_length ≡ t.gbf_length
      → IsFunction n sub_group bits bf t.gbf_length f
      → t.gbf_length ≤ length bf'
      → ((k : ℕ) → k < t.gbf_length → get_or bf' k 0 < 2)
      → Gives
          (λ u.
            Gives
              (λ u'.
                (k : ℕ)
                → k < t.gbf_length
                → class bf k ≡ class bf' k
                → cell u.gbf k ⊕ cell u'.gbf k ≡ cell t.gbf k ⊕ cell t'.gbf k)
              (xor_ordered_bf strings f bf' t'))
          (xor_ordered received f t)
  apport_agreement t t' v v' same g long small =
      Gives-map
        (xor_ordered_lem received f t v (omega (arith, g.size))
          (λ k h. omega (arith, ot.got, g.inside k h)))
        λ u x.
          Gives-map
            (xor_ordered_bf_lem strings f bf' t' v' (omega (arith, g.size)) (omega arith)
              (λ k h. omega (arith, ot.sent, g.inside k (omega arith)))
              (λ k h. small k (omega arith)))
            λ u' y k h e.
              ap₂ b.xor (x.0.inside k (omega arith) h) (y.0.inside k (omega arith) (omega arith))
              ∙ ⊕_swap _ _ _ _
              ∙ ap (b.xor _) (
                  ap (λ z. z ⊕ chosen (pair k) (get_or bf' k 0))
                    (received_string t.gbf_length k g h
                      ∙ ap (λ c. if c then (pair k).0 else (pair k).1) e)
                  ∙ b.xor_self _)
              ∙ b.xor_zero _
    where
      pair : ℕ → Block × Block
      pair k = get_or strings (get_or f k 0) (block0, block0)
