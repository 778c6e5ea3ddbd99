-- ===== src/Choose/Moving.antt =====
-- The loop of `compute_R_r`: the check group ends up behind the other indices, and the bits move
-- with the indices.
use mathlib.Core.List.{append_assoc, append-nil}
use malicious_mpsi.Base.{
  ℕ, zero, suc, Within, ◌-◌, ◌≤◌, ◌<◌, ◌≡◌, refl, sym, ap, ◌∙◌, List, [], ◌∷◌, ◌++◌, arith, length,
  get_or, get_elem?-eq-get_or, range, length-range, get_or-range, ◌∈◌, Distinct, inl, inr,
  Bool-cases, ◌==◌, if◌then◌else◌, Gives, gives, Gives-bind, Gives-map, transpose, Swapped,
  swap-Swapped, Swapped-Rearranged, Rearranged, Rearranged_refl, Rearranged_trans,
  Rearranged_range_injective,
}
use malicious_mpsi.Block.{Blocks, Block, ◌⊕◌, block0, cell, xor_over, zero-⊕}
use malicious_mpsi.Choose.{Opened, move_target, move_targets, sort_desc, compute_big_r}
use malicious_mpsi.Choose.Sorting.{
  Descends, Descends-weaken, Descends-below, mem-sort_desc, sort_desc-Descends, length-sort_desc,
}

-- The members whose bit is 0.
abbrev pub zeros_of : List ℕ → List ℕ → List ℕ
zeros_of bits [] = []
zeros_of bits (t ∷ ts) = if get_or bits t 0 == 0 then t ∷ zeros_of bits ts else zeros_of bits ts

module _ ⦃b : Blocks⦄ where
  abbrev pub index : Opened → ℕ → ℕ
  index s k = get_or s.indexes k 0

  -- The indices are `0 … n-1` in some order, and each bit stands where its index stands.
  pub record IsAligned (n : ℕ) (bits : List ℕ) (s : Opened) : Type 0 where
    pub order : Rearranged 0 (range 0 n) s.indexes
    pub size : length s.bits ≡ n
    pub aligned : (k : ℕ) → k < n → get_or s.bits k 0 ≡ get_or bits (get_or s.indexes k 0) 0

  -- One round.
  record Step (strings : List Block) (target ind : ℕ) (s s' : Opened) : Type 0 where
    indexes : Swapped 0 target ind s.indexes s'.indexes
    bits : Swapped 0 target ind s.bits s'.bits
    big_r : s'.big_r ≡ (if get_or s.bits target 0 == 0 then s.big_r ++ (target ∷ []) else s.big_r)
    r : s'.r ≡ (if get_or s.bits target 0 == 0 then s.r ⊕ cell strings target else s.r)

  move_target-Step :
      (strings : List Block) (target ind : ℕ) (s : Opened)
      → target < length s.indexes
      → ind < length s.indexes
      → target < length s.bits
      → ind < length s.bits
      → target < length strings
      → Gives (Step strings target ind s) (move_target strings target ind s)
  unfolding move_target
  move_target-Step strings target ind s p q p' q' h = rw (get_elem?-eq-get_or s.bits target 0 p') (
      Gives-bind (swap-Swapped 0 target ind s.indexes p q) λ u x.
        Gives-bind (swap-Swapped 0 target ind s.bits p' q') λ v y.
          elim (Bool-cases (get_or s.bits target 0 == 0)) [
            | inl e ↦ rw e (
                rw (get_elem?-eq-get_or strings target block0 h)
                  (gives (record { indexes = x; bits = y; big_r = rw e; r = rw e })))
            | inr e ↦ rw e (gives (record { indexes = x; bits = y; big_r = rw e; r = rw e }))
          ])

  module _ (strings : List Block) (n : ℕ) (bits : List ℕ) (enough : n ≤ length strings) where
    Step-IsAligned :
        (target ind : ℕ) (s s' : Opened)
        → target < n
        → ind < n
        → IsAligned n bits s
        → Step strings target ind s s'
        → IsAligned n bits s'
    Step-IsAligned target ind s s' p q v x =
        let size : length s.indexes ≡ n = v.order.same_length ∙ length-range 0 n in
        record {
          order =
              Rearranged_trans v.order (Swapped-Rearranged (omega arith) (omega arith) x.indexes);
          size = x.bits.same_length ∙ v.size;
          aligned = λ k h.
              x.bits.moved k
              ∙ v.aligned (transpose target ind k) (ground arith)
              ∙ sym (ap (λ i. get_or bits i 0) (x.indexes.moved k));
        }

    -- The loop over the targets `ts`, when the first `m` places are still in use.
    record Moved (ts : List ℕ) (m : ℕ) (s s' : Opened) : Type 0 where
      state : IsAligned n bits s'
      kept : (k : ℕ) → m ≤ k → index s' k ≡ index s k
      placed : (t : ℕ) → t ∈ ts → (k : ℕ) × (m - length ts ≤ k) × (k < m) × (index s' k ≡ t)
      big_r : s'.big_r ≡ s.big_r ++ zeros_of bits ts
      r : s'.r ≡ s.r ⊕ xor_over (cell strings) (zeros_of bits ts)

    Moved-cons :
        (t : ℕ) (ts : List ℕ) (ind : ℕ) (s u w : Opened)
        → t ≤ ind
        → ind < n
        → Descends t ts
        → index s t ≡ t
        → IsAligned n bits s
        → Step strings t ind s u
        → Moved ts ind u w
        → Moved (t ∷ ts) (suc ind) s w
    Moved-cons t ts ind s u w le lt d fixed v x y = record {
      state = y.state;
      kept = λ k h. y.kept k (omega arith) ∙ x.indexes.moved k ∙ ap (index s) (far k h);
      placed = λ k i. elim i [
        | inl e ↦ (
          ind,
          omega arith,
          omega arith,
          y.kept ind (omega arith) ∙ x.indexes.moved ind ∙ ap (index s) near ∙ fixed ∙ sym e,
        )
        | inr j ↦ let (p, a, c, e) = y.placed k j in (p, omega arith, omega arith, e)
      ];
      big_r = y.big_r ∙ open_list;
      r = y.r ∙ open_sum;
    }
      where
        far : (k : ℕ) → suc ind ≤ k → transpose t ind k ≡ k
        far k h = ground arith

        near : transpose t ind ind ≡ t
        near = ground arith

        bit : get_or s.bits t 0 ≡ get_or bits t 0
        bit = v.aligned t (omega arith) ∙ ap (λ i. get_or bits i 0) fixed

        open_list : u.big_r ++ zeros_of bits ts ≡ s.big_r ++ zeros_of bits (t ∷ ts)
        open_list = elim (Bool-cases (get_or bits t 0 == 0)) [
          | inl e ↦ rw (x.big_r, bit, e) (append_assoc s.big_r (t ∷ []) (zeros_of bits ts))
          | inr e ↦ rw (x.big_r, bit, e)
        ]

        open_sum :
            u.r ⊕ xor_over (cell strings) (zeros_of bits ts)
            ≡ s.r ⊕ xor_over (cell strings) (zeros_of bits (t ∷ ts))
        open_sum = elim (Bool-cases (get_or bits t 0 == 0)) [
          | inl e ↦ rw (x.r, bit, e) (b.xor_assoc _ _ _)
          | inr e ↦ rw (x.r, bit, e)
        ]

    move_targets-Moved :
        (ts : List ℕ) (m : ℕ) (s : Opened)
        → m ≤ n
        → Descends m ts
        → ((t : ℕ) → t ∈ ts → index s t ≡ t)
        → IsAligned n bits s
        → Gives (Moved ts m s) (move_targets strings ts m s)
    unfolding move_targets
    move_targets-Moved [] m s le d fixed v = gives (record {
      state = v;
      kept = λ k h. refl;
      placed = λ t i. absurd i;
      big_r = sym (append-nil s.big_r);
      r = sym (b.xor_zero s.r);
    })
    move_targets-Moved (t ∷ ts) zero s le d fixed v = absurd (omega arith)
    move_targets-Moved (t ∷ ts) (suc ind) s le d fixed v =
        let size : length s.indexes ≡ n = v.order.same_length ∙ length-range 0 n in
        Gives-bind
          (move_target-Step strings t ind s (omega arith) (omega arith) (omega (arith, v.size))
            (omega (arith, v.size)) (omega arith))
          λ u x.
            Gives-map
              (move_targets-Moved ts ind u (omega arith)
                (Descends-weaken t ind ts (omega arith) d.1)
                (λ k i. x.indexes.moved k ∙ ap (index s) (still k i) ∙ fixed k (inr i))
                (Step-IsAligned t ind s u (omega arith) (omega arith) v x))
              λ w y.
                Moved-cons t ts ind s u w (omega arith) (omega arith) d.1 (fixed t (inl refl)) v x y
      where
        still : (k : ℕ) → k ∈ ts → transpose t ind k ≡ k
        still k i = let lt : k < t = Descends-below t ts k d.1 i in ground arith

    -- From the identity, and bits and strings of `n` OTs each, `compute_R_r` with a group of
    -- different indices below `n` returns. The indices are then `0 … n-1` in some order and the bits
    -- have moved along with them, no member of the group stands before the last places, `R` is the
    -- members with bit 0 in descending order, and `r` the exclusive or of their strings.
    pub compute_big_r_lem :
        (sub_group : List ℕ)
        → length bits ≡ n
        → Distinct sub_group
        → Within n sub_group
        → Gives
            (λ s.
              IsAligned n bits s
              × ((k : ℕ) → k < n - length sub_group → ¬ (get_or s.indexes k 0 ∈ sub_group))
              × (s.big_r ≡ zeros_of bits (sort_desc sub_group))
              × (s.r ≡ xor_over (cell strings) s.big_r))
            (compute_big_r sub_group (range 0 n) bits n strings)
    unfolding compute_big_r
    compute_big_r_lem sub_group e d w =
        Gives-map
          (move_targets-Moved (sort_desc sub_group) n start (omega arith) descending
            (λ t i. at_start t (Descends-below n (sort_desc sub_group) t descending i))
            (record {
              order = Rearranged_refl 0 (range 0 n);
              size = e;
              aligned = λ k h. ap (λ i. get_or bits i 0) (sym (at_start k h));
            }))
          λ s x. (
            x.state,
            (λ k h i.
                let (p, lo, hi, q) =
                  x.placed (get_or s.indexes k 0) ((mem-sort_desc _ sub_group).1 i) in
                apart k h p lo
                  (Rearranged_range_injective x.state.order k p (omega arith) hi (sym q))),
            x.big_r,
            x.r ∙ zero-⊕ _ ∙ ap (xor_over (cell strings)) (sym x.big_r),
          )
      where
        start : Opened
        start = record { indexes = range 0 n; bits = bits; r = block0; big_r = [] }

        descending : Descends n (sort_desc sub_group)
        descending = sort_desc-Descends n sub_group d w

        at_start : (k : ℕ) → k < n → get_or (range 0 n) k 0 ≡ k
        at_start k h = omega (arith, get_or-range 0 n k 0 h)

        apart :
            (k : ℕ)
            → k < n - length sub_group
            → (p : ℕ) → n - length (sort_desc sub_group) ≤ p
            → k ≡ p
            → ⊥
        apart k h p lo q = omega (arith, length-sort_desc sub_group)
