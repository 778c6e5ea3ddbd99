-- ===== src/SubGroup/Draw.antt =====
-- The loop ends within its fuel: with a group of the size asked for if the ciphertexts give that
-- many different numbers, and otherwise with a read past their end.
use malicious_mpsi.Base.{
  ℕ, zero, suc, Within, ◌+◌, ◌-◌, ◌*◌, ◌/◌, ◌%◌, ◌≤◌, ◌<◌, ◌≡◌, ◌≢◌, ◌∙◌, ap₂, ◌⊎◌, inl, inr, List,
  [], none, arith, length, get_or, get_elem?-eq-get_or, get_elem?_past, Gives, gives, Gives-bind,
  refl, some, ne→==, eq→==, length-map, length-range, map, range, insert, insert-Ascending,
  All-insert, Ascending, length-insert_le, le-length-insert, ◌==◌, if◌then◌else◌, eq-cases,
}
use malicious_mpsi.Block.{Blocks, Block, block0}
use malicious_mpsi.Bloom.{Cipher, ecb_enc_blocks}
use malicious_mpsi.SubGroup.{
  ciphertexts_size, residue, Drawn, drawn, read_past, divided_by_0, members_of, draw_members,
  draw_group, get_sub_group,
}

-- A check group: `small` different numbers below `big`, in ascending order.
pub record IsGroup (big small : ℕ) (s : List ℕ) : Type 0 where
  pub ascending : Ascending s
  pub within : Within big s
  pub size : length s ≡ small

-- The loop has ended with a check group.
abbrev pub EndsWithGroup : ℕ → ℕ → Drawn → Type 0
EndsWithGroup big small (drawn s) = IsGroup big small s
EndsWithGroup big small read_past = ⊥
EndsWithGroup big small divided_by_0 = ⊥

module _ ⦃b : Blocks⦄ ⦃c : Cipher⦄ where
  module _ (texts : List Block) (big : ℕ) where
    -- The `k`-th number that the ciphertexts give.
    pub candidate : ℕ → ℕ
    candidate k = residue big (get_or texts (k / 2) block0) (k % 2)

    -- The set after `n` numbers from the `k`-th on.
    pub collected : ℕ → ℕ → List ℕ → List ℕ
    collected zero k s = s
    collected (suc n) k s = collected n (suc k) (insert (candidate k) s)

    le-length-collected : (n k : ℕ) (s : List ℕ) → length s ≤ length (collected n k s)
    unfolding collected
    le-length-collected zero k s = omega arith
    le-length-collected (suc n) k s = omega (
      arith,
      le-length-collected n (suc k) (insert (candidate k) s),
      le-length-insert (candidate k) s,
    )

    module _ (small : ℕ) (pos : 0 < big) where
      -- One round that does not end the loop.
      draw_round :
          (n k : ℕ) (s : List ℕ)
          → length s ≢ small
          → k < 2 * length texts
          → draw_members (suc n) texts big small (k % 2) (k / 2) s
            ≡ draw_members n texts big small (suc k % 2) (suc k / 2) (insert (candidate k) s)
      unfolding draw_members candidate
      draw_round n k s ne h =
          rw
            (
              ne→== (length s) small ne,
              get_elem?-eq-get_or texts (k / 2) block0 (omega arith),
              ne→== big 0 (omega arith),
            )
            (ap₂ (λ i j. draw_members n texts big small i j (insert (candidate k) s)) turn step)
        where
          turn : 1 - k % 2 ≡ suc k % 2
          turn = omega arith

          step : (if 1 - k % 2 == 0 then k / 2 + 1 else k / 2) ≡ suc k / 2
          step = ground arith

      draw_full :
          (n i j : ℕ) (s : List ℕ)
          → Ascending s
          → Within big s
          → length s ≡ small
          → Gives (EndsWithGroup big small) (draw_members (suc n) texts big small i j s)
      unfolding draw_members
      draw_full n i j s a w full =
          rw (eq→== (length s) small full)
            (gives (record { ascending = a; within = w; size = full }))

      residue_lt : (k : ℕ) → candidate k < big
      unfolding candidate residue
      residue_lt k = omega arith

      draw_enough :
          (n k : ℕ) (s : List ℕ)
          → k + n ≡ 2 * length texts
          → Ascending s
          → Within big s
          → length s ≤ small
          → small ≤ length (collected n k s)
          → Gives (EndsWithGroup big small) (draw_members (suc n) texts big small (k % 2) (k / 2) s)
      unfolding collected
      draw_enough zero k s e a w lo hi = draw_full 0 (k % 2) (k / 2) s a w (omega arith)
      draw_enough (suc n) k s e a w lo hi = elim (eq-cases (length s) small) [
        | inl full ↦ draw_full (suc n) (k % 2) (k / 2) s a w full
        | inr ne ↦ rw (draw_round (suc n) k s ne (omega arith)) (
            draw_enough n (suc k) (insert (candidate k) s) (omega arith)
              (insert-Ascending (candidate k) s a)
              (All-insert (candidate k) s (λ i. i < big) (residue_lt k) w)
              (omega (arith, length-insert_le (candidate k) s)) hi)
      ]

      draw_past :
          (k : ℕ) (s : List ℕ)
          → length s ≢ small
          → 2 * length texts ≤ k
          → draw_members 1 texts big small (k % 2) (k / 2) s ≡ some read_past
      unfolding draw_members
      draw_past k s ne h =
          rw (ne→== (length s) small ne, get_elem?_past texts (k / 2) (omega arith))

      draw_short :
          (n k : ℕ) (s : List ℕ)
          → k + n ≡ 2 * length texts
          → length (collected n k s) < small
          → draw_members (suc n) texts big small (k % 2) (k / 2) s ≡ some read_past
      unfolding collected
      draw_short zero k s e h = draw_past k s (omega arith) (omega arith)
      draw_short (suc n) k s e h =
          draw_round (suc n) k s
            (omega (
              arith,
              le-length-collected n (suc k) (insert (candidate k) s),
              le-length-insert (candidate k) s,
            ))
            (omega arith)
          ∙ draw_short n (suc k) (insert (candidate k) s) (omega arith) h

  abbrev pub texts_of : ℕ → Block → List Block
  texts_of small seed = ecb_enc_blocks seed (map (b.to_block 0) (range 0 (ciphertexts_size small)))

  length-texts_of :
      (small : ℕ) (seed : Block) → length (texts_of small seed) ≡ ciphertexts_size small
  unfolding ecb_enc_blocks
  length-texts_of small seed =
      length-map _ _ ∙ length-map _ (range 0 (ciphertexts_size small)) ∙ length-range 0 _

  members_of-Gives :
      (big small : ℕ) (r : Drawn)
      → EndsWithGroup big small r
      → Gives (IsGroup big small) (members_of r)
  unfolding members_of
  members_of-Gives big small (drawn s) g = gives g
  members_of-Gives big small read_past g = absurd g
  members_of-Gives big small divided_by_0 g = absurd g

  -- With a positive range the loop ends within its fuel: with a check group, which `get_sub_group`
  -- returns, if the ciphertexts give at least `small` different numbers, and with a read past their
  -- end if they do not.
  pub get_sub_group_lem :
      (big small : ℕ) (seed : Block)
      → 0 < big
      → ((small ≤ length (collected (texts_of small seed) big (2 * ciphertexts_size small) 0 []))
          × Gives (EndsWithGroup big small) (draw_group big small seed)
          × Gives (IsGroup big small) (get_sub_group big small seed))
        ⊎ ((length (collected (texts_of small seed) big (2 * ciphertexts_size small) 0 []) < small)
            × (draw_group big small seed ≡ some read_past)
            × (get_sub_group big small seed ≡ none))
  unfolding get_sub_group draw_group members_of
  get_sub_group_lem big small seed pos =
      let texts = texts_of small seed in
      let size : length texts ≡ ciphertexts_size small = length-texts_of small seed in
      elim (enough small (length (collected texts big (2 * ciphertexts_size small) 0 []))) [
        | inl h ↦
            let ends =
              draw_enough texts big small pos (2 * ciphertexts_size small) 0 [] (omega arith) tt tt
                (omega arith) h in
            inl (h, ends, Gives-bind ends (members_of-Gives big small))
        | inr h ↦
            let ends =
              draw_short texts big small pos (2 * ciphertexts_size small) 0 [] (omega arith) h in
            inr (h, ends, rw ends refl)
      ]
    where
      enough : (n m : ℕ) → (n ≤ m) ⊎ (m < n)
      enough n m = grind arith
