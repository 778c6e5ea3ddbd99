-- ===== src/Bloom/Filter.antt =====
-- The whole filter: the division into threads does not matter, and bit `j` is set exactly if `j`
-- is in the hash set of some item.
use malicious_mpsi.Base.{
  ℕ, zero, suc, ◌+◌, ◌-◌, ◌*◌, ◌/◌, ◌≤◌, ◌<◌, ◌≡◌, refl, sym, ◌∙◌, ap, subst, fun_ext, inl, inr,
  List, [], arith, length, get_or, get_elem?-eq-get_or, ◌>>=◌, for, for-add, Gives, Gives-map,
  for-Gives, length-replicate, get_or-replicate, ◌∈◌, eq-cases, mem-cases,
}
use malicious_mpsi.Block.{Blocks, Block}
use malicious_mpsi.Bitstring.{zeros}
use malicious_mpsi.Bloom.{
  Cipher, Marks, mark_item, bf_thread, bf_threads, create_bf_threads, create_bf, fresh_marks,
}
use malicious_mpsi.Bloom.Marking.{Marked, hash_set, mark_item-Marked}

module _ ⦃b : Blocks⦄ ⦃c : Cipher⦄ (seeds_num nbf : ℕ) (key : Block) (items : List ℕ) where
  -- Cutting the items into ranges changes nothing, if the ranges lie within the items.
  bf_threads_whole :
      (jump n begin : ℕ) (m : Marks)
      → begin + n * jump ≤ length items
      → bf_threads seeds_num nbf key items jump n begin m
        ≡ bf_thread seeds_num nbf key items begin (length items) m
  unfolding bf_threads bf_thread
  bf_threads_whole jump zero begin m h = refl
  bf_threads_whole jump (suc n) begin m h =
      ap (λ k. for (begin + jump - begin) begin (mark_item seeds_num nbf key items) m >>= k)
        (fun_ext (λ m'. bf_threads_whole jump n (begin + jump) m' (omega arith)))
      ∙ ap
          (λ r.
            for r begin (mark_item seeds_num nbf key items) m
            >>= for (length items - (begin + jump)) (begin + jump)
                (mark_item seeds_num nbf key items))
          back
      ∙ sym
          (for-add jump (length items - (begin + jump)) begin (mark_item seeds_num nbf key items) m)
      ∙ ap (λ r. for r begin (mark_item seeds_num nbf key items) m) total
    where
      back : begin + jump - begin ≡ jump
      back = omega arith

      total : jump + (length items - (begin + jump)) ≡ length items - begin
      total = omega arith

  -- The 37 threads do what one thread over all the items does.
  pub create_bf_threads-eq-bf_thread :
      (m : Marks)
      → create_bf_threads seeds_num nbf key items m
        ≡ bf_thread seeds_num nbf key items 0 (length items) m
  unfolding create_bf_threads
  create_bf_threads-eq-bf_thread m = bf_threads_whole (length items / 36) 36 0 m (omega arith)

  abbrev item_set : ℕ → List ℕ
  item_set i = hash_set nbf key (get_or items i 0) seeds_num

  -- The first `n` items have been gone over.
  pub record Built (n : ℕ) (m : Marks) : Type 0 where
    pub bits_length : length m.bf.arr ≡ nbf
    pub sets_length : length m.h_kokhav ≡ length items
    pub sets :
        (i : ℕ) → i < n → get_or m.h_kokhav i [] ≡ hash_set nbf key (get_or items i 0) seeds_num
    pub later : (i : ℕ) → n ≤ i → get_or m.h_kokhav i [] ≡ []
    pub ones :
        (i j : ℕ)
        → i < n
        → j ∈ hash_set nbf key (get_or items i 0) seeds_num
        → get_or m.bf.arr j 0 ≡ 1
    pub zeros :
        (j : ℕ)
        → ((i : ℕ) → i < n → ¬ (j ∈ hash_set nbf key (get_or items i 0) seeds_num))
        → get_or m.bf.arr j 0 ≡ 0
    pub binary : (j : ℕ) → get_or m.bf.arr j 0 < 2

  Built-next : (n : ℕ) (m m' : Marks) → Built n m → Marked n (item_set n) m m' → Built (suc n) m'
  Built-next n m m' x y = record {
    bits_length = y.bits_length ∙ x.bits_length;
    sets_length = y.sets_length ∙ x.sets_length;
    sets = λ i h. elim (eq-cases i n) [
      | inl e ↦ rw e y.here
      | inr d ↦ y.others i d ∙ x.sets i (omega arith)
    ];
    later = λ i h. y.others i (omega arith) ∙ x.later i (omega arith);
    ones = λ i j h z. elim (mem-cases j (item_set n)) [
      | inl k ↦ y.ones j k
      | inr k ↦ y.rest j k ∙ x.ones i j (earlier i j h z k) z
    ];
    zeros = λ j h. y.rest j (h n (omega arith)) ∙ x.zeros j (λ i p. h i (omega arith));
    binary = λ j. elim (mem-cases j (item_set n)) [
      | inl k ↦ omega (arith, y.ones j k)
      | inr k ↦ omega (arith, y.rest j k, x.binary j)
    ];
  }
    where
      earlier : (i j : ℕ) → i < suc n → j ∈ item_set i → ¬ (j ∈ item_set n) → i < n
      earlier i j h z k = elim (eq-cases i n) [
        | inl e ↦ absurd (k (subst (λ t. j ∈ item_set t) e z))
        | inr d ↦ omega arith
      ]

  Built-fresh : Built 0 (fresh_marks nbf items)
  unfolding fresh_marks zeros
  Built-fresh = record {
    bits_length = length-replicate nbf 0;
    sets_length = length-replicate (length items) [];
    sets = λ i h. absurd (omega arith);
    later = λ i h. get_or-replicate {A = List ℕ} (length items) i [];
    ones = λ i j h. absurd (omega arith);
    zeros = λ j h. get_or-replicate {A = ℕ} nbf j 0;
    binary = λ j. omega (arith, get_or-replicate {A = ℕ} nbf j 0);
  }

  -- With a filter of at least one bit `create_BF_threads` returns. The hash set of every item is
  -- the set of its hash values, a bit is 1 if it is in the hash set of an item and 0 if it is in
  -- none, and every bit is 0 or 1.
  pub create_bf_lem : 0 < nbf → Gives (Built (length items)) (create_bf seeds_num nbf key items)
  unfolding create_bf bf_thread
  create_bf_lem h = rw create_bf_threads-eq-bf_thread (
      for-Gives Built (length items) _ (length items - 0) 0 (fresh_marks nbf items) (omega arith)
        (λ i m p q x.
          Gives-map
            (mark_item-Marked nbf key (get_or items i 0) seeds_num i items m h x.bits_length
              (omega (arith, x.sets_length)) (x.later i (omega arith))
              (get_elem?-eq-get_or items i 0 q))
            (λ m' y. Built-next i m m' x y))
        Built-fresh)
