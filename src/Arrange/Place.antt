-- ===== src/Arrange/Place.antt =====
-- `arrange_the_indexes`: with enough members of each class, place `j` of the filter gets an index of
-- the class of bit `j`, and no place of a vector is used twice.
use malicious_mpsi.Base.{
  ℕ, suc, ◌+◌, ◌-◌, ◌/◌, ◌≤◌, ◌<◌, ◌≡◌, refl, sym, ap, ◌∙◌, Bool, true, false, ◌||◌, List, some,
  arith, length, get_or, set, store_of_lt, length-set, get_or-set_self, get_or-set_ne,
  get_elem?-eq-get_or, for, Gives, gives, Gives-bind, Gives-map, for-Gives, ltb, eq-cases,
  Bool-cases, inl, inr, lt→ltb, le→ltb, ne→==,
}
use mathlib.Core.Bool.{not}
use malicious_mpsi.Arrange.{
  Classes, Arranging, arranged, take_index, arrange_up, arrange_down, arrange_the_indexes,
}
use malicious_mpsi.Arrange.Rank.{
  class, hit, rank, rank-suc, rank_start, rank_mono, rank_lt, hit_this, hit_other, members,
  position, position_in,
}

take_index_lem :
    (current ms : List ℕ) (place i : ℕ) (new : List ℕ)
    → place < length ms
    → get_or ms place 0 < length current
    → i < length new
    → take_index current ms place i new ≡ some (set new i (get_or current (get_or ms place 0) 0))
unfolding take_index
take_index_lem current ms place i new p q h =
    rw (get_elem?-eq-get_or ms place 0 p)
      (rw (get_elem?-eq-get_or current (get_or ms place 0) 0 q) (store_of_lt new i _ h))

module _ (bf current : List ℕ) (c : Classes) (n h : ℕ) where
  -- The index that place `j` of the filter gets.
  abbrev pub target : ℕ → ℕ
  target j = get_or current (get_or (members c (class bf j)) (position bf c h j) 0) 0

  -- What the thread that goes down has left of a vector before bit `i`.
  abbrev left : Bool → ℕ → ℕ
  left v i = length (members c v) - (rank bf v i - rank bf v h)

  -- The first `i` places are filled, and the places in the vectors are `p0` and `p1`.
  record Filled (i p0 p1 : ℕ) (a : Arranging) : Type 0 where
    size : length a.new_indexes ≡ n
    filled : (j : ℕ) → j < i → get_or a.new_indexes j 0 ≡ target j
    at_0 : a.place_0 ≡ p0
    at_1 : a.place_1 ≡ p1

  module _ (long : n ≤ length bf) (half : h ≤ n)
      (enough : (v : Bool) → rank bf v n ≤ length (members c v))
      (within : (v : Bool) (k : ℕ)
        → k < length (members c v)
        → get_or (members c v) k 0 < length current) where
    -- The two threads take the next index alike.
    write_next :
        (v : Bool) (i place : ℕ) (new : List ℕ)
        → i < n
        → length new ≡ n
        → class bf i ≡ v
        → place ≡ position bf c h i
        → take_index current (members c v) place i new ≡ some (set new i (target i))
    write_next v i place new p e q z =
        rw (← q, z)
          (take_index_lem current (members c (class bf i)) (position bf c h i) i new
            (position_in bf c h n half enough i p)
            (within (class bf i) _ (position_in bf c h n half enough i p)) (omega arith))

    filled_next :
        (i : ℕ) (new : List ℕ)
        → i < n
        → length new ≡ n
        → ((j : ℕ) → j < i → get_or new j 0 ≡ target j)
        → (j : ℕ) → j < suc i
        → get_or (set new i (target i)) j 0 ≡ target j
    filled_next i new p e f j q = elim (eq-cases j i) [
      | inl z ↦ rw z (get_or-set_self new i (target i) 0 (omega arith))
      | inr z ↦ get_or-set_ne new i j (target i) 0 z ∙ f j (omega arith)
    ]

    arrange_up-Filled :
        (i : ℕ) (a : Arranging)
        → i < h
        → Filled i (rank bf true i) (rank bf false i) a
        → Gives
            (Filled (suc i) (rank bf true (suc i)) (rank bf false (suc i)))
            (arrange_up bf current c i a)
    unfolding arrange_up
    arrange_up-Filled i a p f =
        let here : (v : Bool) → class bf i ≡ v → position bf c h i ≡ rank bf v i = up_position in
        let next = filled_next i a.new_indexes (omega arith) f.size f.filled in
        let size = λ (x : ℕ). length-set a.new_indexes i x ∙ f.size in
        rw (get_elem?-eq-get_or bf i 0 (omega arith)) (elim (Bool-cases (class bf i)) [
          | inl e ↦ rw e (
              rw
                (write_next true i a.place_0 a.new_indexes (omega arith) f.size e
                  (f.at_0 ∙ sym (here true e)))
                (gives (record {
                  size = size (target i);
                  filled = next;
                  at_0 = omega (arith, f.at_0, rank-suc bf true i, hit_this bf true i e);
                  at_1 = omega (arith, f.at_1, rank-suc bf false i, hit_other bf true i e);
                })))
          | inr e ↦ rw e (
              rw
                (write_next false i a.place_1 a.new_indexes (omega arith) f.size e
                  (f.at_1 ∙ sym (here false e)))
                (gives (record {
                  size = size (target i);
                  filled = next;
                  at_0 = omega (arith, f.at_0, rank-suc bf true i, hit_other bf false i e);
                  at_1 = omega (arith, f.at_1, rank-suc bf false i, hit_this bf false i e);
                })))
        ])
      where
        up_position : (v : Bool) → class bf i ≡ v → position bf c h i ≡ rank bf v i
        up_position v e = rw (lt→ltb i h p) (ap (λ w. rank bf w i) e)

    down_step :
        (v : Bool) (i : ℕ)
        → h ≤ i
        → i < n
        → class bf i ≡ v
        → (left v i - 1 ≡ position bf c h i) × (0 < left v i) × (left v i - 1 ≡ left v (suc i))
    down_step v i p q e =
        let up : rank bf v i < rank bf v n = rw e at (rank_lt bf i n q) in
        let total : rank bf v n ≤ length (members c v) = enough v in
        let mono : rank bf v h ≤ rank bf v i = rank_mono bf v h i p in
        let one : hit bf v i ≡ 1 = hit_this bf v i e in
        let next : rank bf v (suc i) ≡ rank bf v i + hit bf v i = rank-suc bf v i in
        (
          sym (
              rw (le→ltb i h p)
                (ap (λ w. length (members c w) - 1 - (rank bf w i - rank bf w h)) e ∙ omega arith)),
          omega arith,
          omega arith,
        )

    down_other : (v : Bool) (i : ℕ) → class bf i ≡ not v → left v i ≡ left v (suc i)
    down_other v i e =
        let none : hit bf v i ≡ 0 = other v e in
        let next : rank bf v (suc i) ≡ rank bf v i + hit bf v i = rank-suc bf v i in omega arith
      where
        other : (v : Bool) → class bf i ≡ not v → hit bf v i ≡ 0
        other true e = hit_other bf false i e
        other false e = hit_other bf true i e

    arrange_down-Filled :
        (i : ℕ) (a : Arranging)
        → h ≤ i
        → i < n
        → Filled i (left true i) (left false i) a
        → Gives
            (Filled (suc i) (left true (suc i)) (left false (suc i)))
            (arrange_down bf current c i a)
    unfolding arrange_down
    arrange_down-Filled i a p q f =
        let next = filled_next i a.new_indexes q f.size f.filled in
        let size = λ (x : ℕ). length-set a.new_indexes i x ∙ f.size in
        rw (get_elem?-eq-get_or bf i 0 (omega arith)) (elim (Bool-cases (class bf i)) [
          | inl e ↦
              let (at, pos, step) = down_step true i p q e in
              let same : a.place_0 - 1 ≡ left true i - 1 = ap (λ k. k - 1) f.at_0 in
              rw e (
                rw (ne→== a.place_0 0 (omega (arith, f.at_0))) (
                  rw (write_next true i (a.place_0 - 1) a.new_indexes q f.size e (same ∙ at)) (
                    gives (record {
                      size = size (target i);
                      filled = next;
                      at_0 = same ∙ step;
                      at_1 = f.at_1 ∙ down_other false i e;
                    }))))
          | inr e ↦
              let (at, pos, step) = down_step false i p q e in
              let same : a.place_1 - 1 ≡ left false i - 1 = ap (λ k. k - 1) f.at_1 in
              rw e (
                rw (ne→== a.place_1 0 (omega (arith, f.at_1))) (
                  rw (write_next false i (a.place_1 - 1) a.new_indexes q f.size e (same ∙ at)) (
                    gives (record {
                      size = size (target i);
                      filled = next;
                      at_0 = f.at_0 ∙ down_other true i e;
                      at_1 = same ∙ step;
                    }))))
        ])

    start_left : (v : Bool) → length (members c v) ≡ left v h
    start_left v = omega arith

    end_left : (v : Bool) → ltb (left v n) (rank bf v h) ≡ false
    end_left v = le→ltb (left v n) (rank bf v h) (omega (arith, enough v, rank_mono bf v h n half))

    arrange_both :
        (new : List ℕ)
        → length new ≡ n
        → Gives
            (λ up.
              Gives
                (λ (down : Arranging).
                  (length down.new_indexes ≡ n)
                  × ((j : ℕ) → j < n → get_or down.new_indexes j 0 ≡ target j)
                  × ((ltb down.place_0 up.place_0 || ltb down.place_1 up.place_1) ≡ false))
                (for (n - h) h (arrange_down bf current c) (record {
                  new_indexes = up.new_indexes;
                  place_0 = length c.zeros;
                  place_1 = length c.ones;
                })))
            (for h 0
              (arrange_up bf current c)
              (record { new_indexes = new; place_0 = 0; place_1 = 0 }))
    arrange_both new size =
        Gives-map
          (for-Gives (λ i a. Filled i (rank bf true i) (rank bf false i) a) h _ h 0 _ (omega arith)
            (λ i a p q f. arrange_up-Filled i a q f)
            (record {
              size = size;
              filled = λ j p. absurd (omega arith);
              at_0 = sym (rank_start bf true);
              at_1 = sym (rank_start bf false);
            }))
          λ up x.
            Gives-map
              (for-Gives (λ i a. Filled i (left true i) (left false i) a) n _ (n - h) h _
                (omega arith) (λ i a p q f. arrange_down-Filled i a p q f)
                (record {
                  size = x.size;
                  filled = x.filled;
                  at_0 = start_left true;
                  at_1 = start_left false;
                }))
              λ down y. (
                y.size,
                y.filled,
                rw (x.at_0, x.at_1, y.at_0, y.at_1, end_left true, end_left false),
              )

-- Given as many indices of each class as the filter has bits of it, `arrange_the_indexes` returns a
-- function (it neither exits nor reads outside a vector), and its value at `j` is the index named by
-- the class of bit `j` at the place that `position` says.
pub arrange_the_indexes_lem :
    (bf current : List ℕ) (c : Classes) (n : ℕ) (new : List ℕ)
    → n ≤ length bf
    → length new ≡ n
    → ((v : Bool) → rank bf v n ≤ length (members c v))
    → ((v : Bool) (k : ℕ) → k < length (members c v) → get_or (members c v) k 0 < length current)
    → Gives
        (λ r.
          (f : List ℕ) × (r ≡ arranged f)
          × (length f ≡ n)
          × ((j : ℕ) → j < n → get_or f j 0 ≡ target bf current c n (n / 2) j))
        (arrange_the_indexes bf n c current new)
unfolding arrange_the_indexes
arrange_the_indexes_lem bf current c n new long size enough within =
    Gives-bind (arrange_both bf current c n (n / 2) long (omega arith) enough within new size)
      λ up x. Gives-bind x λ down y. rw y.2 (gives (down.new_indexes, refl, y.0, y.1))
