-- ===== src/Choose/Opening.antt =====
-- The sender's side of the check, and the test for disjoint groups.
use malicious_mpsi.Base.{
  ℕ, Within, ◌<◌, ◌≡◌, ◌≢◌, refl, sym, ap, subst, ◌∙◌, List, [], ◌∷◌, some, arith, length, get_or,
  set, store_of_lt, length-set, get_or-set_self, get_or-set_ne, replicate, length-replicate,
  get_or-replicate, get_elem?-eq-get_or, All_at, Distinct, range, ◌∈◌, inl, inr, ◌⊎◌, Bool-cases,
  ◌==◌, eq-cases, mem-cases, Gives, gives, Gives-bind, Gives-map,
}
use malicious_mpsi.Block.{Blocks, Block, ◌⊕◌, block0, cell, xor_over, xor_over_cong}
use malicious_mpsi.Choose.{
  add_strings, compute_r, compute_big_r, sort_desc, mark_group, scan_group, if_disjoint_sets,
}
use malicious_mpsi.Choose.Moving.{zeros_of, compute_big_r_lem}
use malicious_mpsi.Choose.Sorting.{Descends-Within, sort_desc-Descends}
use malicious_mpsi.Gbf.Chunks.{chosen}

module _ ⦃b : Blocks⦄ where
  abbrev pub string0 : List (Block × Block) → ℕ → Block
  string0 strings i = (get_or strings i (block0, block0)).0

  add_strings_lem :
      (strings : List (Block × Block)) (is : List ℕ) (r : Block)
      → Within (length strings) is
      → add_strings strings is r ≡ some (r ⊕ xor_over (string0 strings) is)
  unfolding add_strings
  add_strings_lem strings [] r w = ap some (sym (b.xor_zero r))
  add_strings_lem strings (i ∷ is) r w =
      rw (get_elem?-eq-get_or strings i (block0, block0) w.0)
        (add_strings_lem strings is _ w.1 ∙ ap some (b.xor_assoc _ _ _))

  -- `compute_r` adds up the first strings of the OTs that its indices name, for any indices within
  -- the strings but none at all.
  pub compute_r_lem :
      (strings : List (Block × Block)) (is : List ℕ)
      → Within (length strings) is
      → is ≢ []
      → compute_r strings is ≡ some (xor_over (string0 strings) is)
  unfolding compute_r
  compute_r_lem strings [] w h = absurd (h refl)
  compute_r_lem strings (i ∷ is) w h =
      rw (get_elem?-eq-get_or strings i (block0, block0) w.0) (add_strings_lem strings is _ w.1)

  pub zeros_of-Within : (n : ℕ) (bits ts : List ℕ) → Within n ts → Within n (zeros_of bits ts)
  zeros_of-Within n bits [] w = tt
  zeros_of-Within n bits (t ∷ ts) w = elim (Bool-cases (get_or bits t 0 == 0)) [
    | inl e ↦ rw e (w.0, zeros_of-Within n bits ts w.1)
    | inr e ↦ rw e (zeros_of-Within n bits ts w.1)
  ]

  mem-zeros_of : (bits ts : List ℕ) (k : ℕ) → k ∈ zeros_of bits ts → get_or bits k 0 ≡ 0
  mem-zeros_of bits [] k i = absurd i
  mem-zeros_of bits (t ∷ ts) k i = elim (Bool-cases (get_or bits t 0 == 0)) [
    | inl e ↦ elim (rw e at i) as (λ (j : (k ≡ t) ⊎ (k ∈ zeros_of bits ts)). get_or bits k 0 ≡ 0) [
      | inl q ↦ ap (λ j. get_or bits j 0) q ∙ ground arith
      | inr q ↦ mem-zeros_of bits ts k q
    ]
    | inr e ↦ mem-zeros_of bits ts k (rw e at i)
  ]

  -- What the OTs give, by the documentation of libOTe: of each pair of strings of the sender the
  -- receiver holds the one that its choice bit names.
  pub record IsOt (n : ℕ) (strings : List (Block × Block)) (bits : List ℕ) (received : List Block)
      : Type 0 where
    pub sent : length strings ≡ n
    pub chose : length bits ≡ n
    pub got : length received ≡ n
    pub agree :
        (i : ℕ)
        → i < n
        → cell received i ≡ chosen (get_or strings i (block0, block0)) (get_or bits i 0)

  zeros_agree :
      (n : ℕ) (strings : List (Block × Block)) (bits : List ℕ) (received : List Block)
      → IsOt n strings bits received
      → (ts : List ℕ) → Within n ts
      → xor_over (string0 strings) (zeros_of bits ts) ≡ xor_over (cell received) (zeros_of bits ts)
  zeros_agree n strings bits received o ts w = xor_over_cong _ _ (zeros_of bits ts) (λ k i. sym (
      o.agree k (All_at (λ j. j < n) (zeros_of bits ts) (zeros_of-Within n bits ts w) i)
      ∙ rw (mem-zeros_of bits ts k i) refl))

  -- The check of the OTs accepts an honest receiver: what the sender computes from the receiver's
  -- `R` is the receiver's `r`, if the check group holds an index whose choice bit is 0.
  pub honest_check :
      (n : ℕ) (strings : List (Block × Block)) (bits : List ℕ) (received : List Block)
      (sub_group : List ℕ)
      → IsOt n strings bits received
      → Distinct sub_group
      → Within n sub_group
      → zeros_of bits (sort_desc sub_group) ≢ []
      → Gives
          (λ s. compute_r strings s.big_r ≡ some s.r)
          (compute_big_r sub_group (range 0 n) bits n received)
  honest_check n strings bits received sub_group o d w ne =
      Gives-map (compute_big_r_lem received n bits (omega (arith, o.got)) sub_group o.chose d w)
        λ s x.
          let e : s.big_r ≡ zeros_of bits (sort_desc sub_group) = x.2 in
          let inside : Within n (sort_desc sub_group) = sorted in
          ap (compute_r strings) e
          ∙ compute_r_lem strings (zeros_of bits (sort_desc sub_group))
              (rw o.sent (zeros_of-Within n bits (sort_desc sub_group) inside)) ne
          ∙ ap some (
              zeros_agree n strings bits received o (sort_desc sub_group) inside
              ∙ sym (x.3 ∙ ap (xor_over (cell received)) e))
    where
      sorted : Within n (sort_desc sub_group)
      sorted = Descends-Within n (sort_desc sub_group) (sort_desc-Descends n sub_group d w)

-- The members are marked, and the other entries are as before.
mark_group_lem :
    (n : ℕ) (cc counter : List ℕ)
    → Within n cc
    → length counter ≡ n
    → Gives
        (λ u.
          (length u ≡ n)
          × ((k : ℕ) → k ∈ cc → get_or u k 0 ≡ 1)
          × ((k : ℕ) → get_or counter k 0 ≡ 1 → get_or u k 0 ≡ 1)
          × ((k : ℕ) → ¬ (k ∈ cc) → get_or u k 0 ≡ get_or counter k 0))
        (mark_group cc counter)
unfolding mark_group
mark_group_lem n [] counter w e = gives (e, (λ k i. absurd i), (λ k p. p), (λ k p. refl))
mark_group_lem n (x ∷ cc) counter w e = rw (store_of_lt counter x 1 (omega arith)) (
    Gives-map (mark_group_lem n cc (set counter x 1) w.1 (length-set counter x 1 ∙ e)) λ u y. (
      y.0,
      (λ k i. elim i [
        | inl q ↦
            y.2 k (
              ap (λ j. get_or (set counter x 1) j 0) q
              ∙ get_or-set_self counter x 1 0 (omega arith))
        | inr q ↦ y.1 k q
      ]),
      (λ k p. y.2 k (elim (eq-cases k x) [
        | inl q ↦
            ap (λ j. get_or (set counter x 1) j 0) q ∙ get_or-set_self counter x 1 0 (omega arith)
        | inr q ↦ get_or-set_ne counter x k 1 0 q ∙ p
      ])),
      (λ k p. y.3 k (λ i. p (inr i)) ∙ get_or-set_ne counter x k 1 0 (λ q. p (inl q))),
    ))

scan_group_lem :
    (n : ℕ) (cc indexes counter : List ℕ)
    → Within n indexes
    → length counter ≡ n
    → ((k : ℕ) → k ∈ cc → get_or counter k 0 ≡ 1)
    → ((k : ℕ) → ¬ (k ∈ cc) → get_or counter k 0 ≡ 0)
    → Gives
        (λ r.
          ((r ≡ 1) × ((k : ℕ) → k ∈ indexes → ¬ (k ∈ cc)))
          ⊎ ((r ≡ 0) × ((k : ℕ) × (k ∈ indexes) × (k ∈ cc))))
        (scan_group indexes counter)
unfolding scan_group
scan_group_lem n cc [] counter w e m c = gives (inl (refl, (λ k i. absurd i)))
scan_group_lem n cc (x ∷ xs) counter w e m c =
    rw (get_elem?-eq-get_or counter x 0 (omega arith)) (elim (mem-cases x cc) [
      | inl i ↦ rw (m x i) (gives (inr (refl, (x, inl refl, i))))
      | inr i ↦ rw (c x i) (
          Gives-map (scan_group_lem n cc xs counter w.1 e m c) λ r y. elim y [
            | inl z ↦ inl (
              z.0,
              (λ k j. elim j [ inl q ↦ subst (λ t. ¬ (t ∈ cc)) (sym q) i | inr q ↦ z.1 k q ]),
            )
            | inr z ↦ let (k, p, q) = z.1 in inr (z.0, (k, inr p, q))
          ])
    ])

-- For groups of indices below `Not`, `if_disjoint_sets` returns 1 if no index is in both, and 0 if
-- one is.
pub if_disjoint_sets_lem :
    (not : ℕ) (cc indexes : List ℕ)
    → Within not cc
    → Within not indexes
    → Gives
        (λ r.
          ((r ≡ 1) × ((k : ℕ) → k ∈ indexes → ¬ (k ∈ cc)))
          ⊎ ((r ≡ 0) × ((k : ℕ) × (k ∈ indexes) × (k ∈ cc))))
        (if_disjoint_sets cc indexes not)
unfolding if_disjoint_sets
if_disjoint_sets_lem not cc indexes w v =
    Gives-bind (mark_group_lem not cc (replicate not 0) w (length-replicate {A = ℕ} not 0)) λ u x.
      scan_group_lem not cc indexes u v x.0 x.1 (λ k p. x.3 k p ∙ get_or-replicate {A = ℕ} not k 0)
