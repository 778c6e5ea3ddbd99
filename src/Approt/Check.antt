-- ===== src/Approt/Check.antt =====
-- The check of the OTs as the two sides run it (`offline_apport_receiver` and the checks of the
-- sender).
use malicious_mpsi.Base.{
  ◌∈◌, Gives, gives, Gives-bind, ℕ, ◌+◌, ◌≤◌, ◌<◌, ◌≡◌, ◌≢◌, refl, inl, inr, ◌⊎◌, List, [], some,
  arith, length, range, Distinct, Within, lt→ltb, le→ltb, Gives-some,
}
use malicious_mpsi.Block.{Blocks, Block, xor_over}
use malicious_mpsi.Choose.{Opened, compute_big_r, compute_r, sort_desc}
use malicious_mpsi.Choose.Moving.{zeros_of}
use malicious_mpsi.Choose.Opening.{string0, compute_r_lem, IsOt, honest_check, if_disjoint_sets_lem}
use malicious_mpsi.Approt.{
  verdict, going, aborting, compare_r, check_if_to_abort1, check_if_to_abort2,
  offline_apport_sender,
}

module _ ⦃b : Blocks⦄ where
  compare_r_lem :
      (strings : List (Block × Block)) (big_r : List ℕ) (r1 r : Block)
      → compute_r strings big_r ≡ some r1
      → ((compare_r strings big_r r ≡ some 0) × (r1 ≡ r))
        ⊎ ((compare_r strings big_r r ≡ some 1) × (r1 ≢ r))
  unfolding compare_r
  compare_r_lem strings big_r r1 r e = rw e (decide (b.block_eq r1 r))
    where
      decide :
          (q : Dec (r1 ≡ r))
          → ((some (verdict q) ≡ some 0) × (r1 ≡ r)) ⊎ ((some (verdict q) ≡ some 1) × (r1 ≢ r))
      decide (yes p) = inl (refl, p)
      decide (no p) = inr (refl, p)

  -- For any `R` that is not empty and names OTs only, the sender returns. It goes on exactly when
  -- the size of `R` and `maxOnes` add up to `Nc` at least and `r` is the sum of the first strings of
  -- the OTs in `R`, and otherwise it aborts. Whether `R` is a part of the check group, without
  -- repetitions, is not looked at.
  pub offline_apport_sender_lem :
      (nc max_ones : ℕ) (strings : List (Block × Block)) (big_r : List ℕ) (r : Block)
      → Within (length strings) big_r
      → big_r ≢ []
      → ((offline_apport_sender nc max_ones strings big_r r ≡ some (going tt))
          × (nc ≤ max_ones + length big_r)
          × (xor_over (string0 strings) big_r ≡ r))
        ⊎ ((offline_apport_sender nc max_ones strings big_r r ≡ some aborting)
            × ((max_ones + length big_r < nc) ⊎ (xor_over (string0 strings) big_r ≢ r)))
  unfolding offline_apport_sender check_if_to_abort1
  offline_apport_sender_lem nc max_ones strings big_r r w ne =
      elim (size nc (max_ones + length big_r)) [
        | inl h ↦ rw (lt→ltb (max_ones + length big_r) nc h) (inr (refl, inl h))
        | inr h ↦ elim (compare_r_lem strings big_r _ r (compute_r_lem strings big_r w ne)) [
          | inl x ↦ rw (le→ltb (max_ones + length big_r) nc h, x.0) (inl (refl, h, x.1))
          | inr x ↦ rw (le→ltb (max_ones + length big_r) nc h, x.0) (inr (refl, inr x.1))
        ]
      ]
    where
      size : (x y : ℕ) → (y < x) ⊎ (x ≤ y)
      size x y = grind arith

  -- An honest session passes the check: the sender goes on when it is sent the receiver's `R` and
  -- `r`, if the group has a member with choice bit 0 and at most `maxOnes` members that `R` lacks.
  pub honest_session :
      (n max_ones : ℕ) (strings : List (Block × Block)) (bits : List ℕ) (received : List Block)
      (sub_group : List ℕ) (s : Opened)
      → IsOt n strings bits received
      → Distinct sub_group
      → Within n sub_group
      → zeros_of bits (sort_desc sub_group) ≢ []
      → compute_big_r sub_group (range 0 n) bits n received ≡ some s
      → length sub_group ≤ max_ones + length s.big_r
      → offline_apport_sender (length sub_group) max_ones strings s.big_r s.r ≡ some (going tt)
  unfolding offline_apport_sender check_if_to_abort1
  honest_session n max_ones strings bits received sub_group s o d w ne e h =
      elim (compare_r_lem strings s.big_r s.r s.r
        (Gives-some (honest_check n strings bits received sub_group o d w ne) e)) [
          | inl x ↦ rw (le→ltb (max_ones + length s.big_r) (length sub_group) h, x.0) refl
          | inr x ↦ absurd (x.1 refl)
        ]

-- For a function whose values name OTs, and a check group of OTs, `check_if_to_abort2` returns 0 if
-- no value is in the group and 1 if one is. So a function that avoids the group passes.
pub check_if_to_abort2_lem :
    (not : ℕ) (sub_group func : List ℕ)
    → Within not sub_group
    → Within not func
    → Gives
        (λ r.
          ((r ≡ 0) × ((k : ℕ) → k ∈ func → ¬ (k ∈ sub_group)))
          ⊎ ((r ≡ 1) × ((k : ℕ) × (k ∈ func) × (k ∈ sub_group))))
        (check_if_to_abort2 sub_group func not)
unfolding check_if_to_abort2
check_if_to_abort2_lem not sub_group func w v =
    Gives-bind (if_disjoint_sets_lem not sub_group func w v) λ r x. elim x [
      | inl y ↦ rw (y.0) (gives (inl (refl, y.1)))
      | inr y ↦ rw (y.0) (gives (inr (refl, y.1)))
    ]
