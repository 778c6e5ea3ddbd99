-- ===== src/Arrange/Split.antt =====
-- The two vectors of `get_zeros_ones`: the places of each class among the first bits, in order.
use mathlib.Core.Bool.{not}
use malicious_mpsi.Base.{
  ℕ, suc, ◌+◌, ◌-◌, ◌≤◌, ◌<◌, ◌≡◌, sym, Bool, true, false, List, [], ◌∷◌, ◌++◌, arith, length,
  get_or, get_elem?-eq-get_or, length-append, get_or-append_left, get_or-append_last, Gives, gives,
  Gives-bind, for-Gives, eq-cases, Bool-cases, inl, inr, Rearranged,
}
use malicious_mpsi.Random.{Random, Crypto, length-gen_words}
use malicious_mpsi.Arrange.{Classes, push_class, split_bits, get_zeros_ones}
use malicious_mpsi.Arrange.Rank.{
  class, hit, rank, rank-suc, rank_start, hit_this, hit_other, members,
}
use malicious_mpsi.Arrange.Shuffle.{shuffling-Rearranged}

-- `ms` is the places of a class among the first `n` bits, ascending.
pub record IsClass (bits : List ℕ) (v : Bool) (n : ℕ) (ms : List ℕ) : Type 0 where
  pub count : length ms ≡ rank bits v n
  pub entry_lt : (k : ℕ) → k < length ms → get_or ms k 0 < n
  pub entry_class : (k : ℕ) → k < length ms → class bits (get_or ms k 0) ≡ v
  pub ascending : (i j : ℕ) → i < j → j < length ms → get_or ms i 0 < get_or ms j 0

IsClass-push :
    (bits : List ℕ) (v : Bool) (n : ℕ) (ms : List ℕ)
    → class bits n ≡ v
    → IsClass bits v n ms
    → IsClass bits v (suc n) (ms ++ (n ∷ []))
IsClass-push bits v n ms e x =
    let size : length (ms ++ (n ∷ [])) ≡ length ms + 1 = length-append ms (n ∷ []) in
    record {
      count = omega (arith, x.count, rank-suc bits v n, hit_this bits v n e);
      entry_lt = λ k h. elim (eq-cases k (length ms)) [
        | inl q ↦ rw q (rw (get_or-append_last ms n 0) (omega arith))
        | inr q ↦
            rw (get_or-append_left ms (n ∷ []) k 0 (omega arith))
              (omega (arith, x.entry_lt k (omega arith)))
      ];
      entry_class = λ k h. elim (eq-cases k (length ms)) [
        | inl q ↦ rw q (rw (get_or-append_last ms n 0) e)
        | inr q ↦
            rw (get_or-append_left ms (n ∷ []) k 0 (omega arith)) (x.entry_class k (omega arith))
      ];
      ascending = λ i j p h.
          rw (get_or-append_left ms (n ∷ []) i 0 (omega arith)) (elim (eq-cases j (length ms)) [
            | inl q ↦ rw q (rw (get_or-append_last ms n 0) (x.entry_lt i (omega arith)))
            | inr q ↦
                rw (get_or-append_left ms (n ∷ []) j 0 (omega arith))
                  (x.ascending i j p (omega arith))
          ]);
    }

IsClass-skip :
    (bits : List ℕ) (v : Bool) (n : ℕ) (ms : List ℕ)
    → class bits n ≡ not v
    → IsClass bits v n ms
    → IsClass bits v (suc n) ms
IsClass-skip bits v n ms e x = record {
  count = omega (arith, x.count, rank-suc bits v n, other v e);
  entry_lt = λ k h. omega (arith, x.entry_lt k h);
  entry_class = x.entry_class;
  ascending = x.ascending;
}
  where
    other : (v : Bool) → class bits n ≡ not v → hit bits v n ≡ 0
    other true e = hit_other bits false n e
    other false e = hit_other bits true n e

IsClass-empty : (bits : List ℕ) (v : Bool) → IsClass bits v 0 []
IsClass-empty bits v = record {
  count = sym (rank_start bits v);
  entry_lt = λ k h. absurd (omega arith);
  entry_class = λ k h. absurd (omega arith);
  ascending = λ i j p h. absurd (omega arith);
}

-- Each of the first `Not-Nc` places goes to the vector of its bit, in order.
pub split_bits_lem :
    (bits : List ℕ) (size nc : ℕ)
    → size - nc ≤ length bits
    → Gives
        (λ c. IsClass bits true (size - nc) c.zeros × IsClass bits false (size - nc) c.ones)
        (split_bits bits size nc)
unfolding split_bits
split_bits_lem bits size nc h =
    for-Gives (λ i c. IsClass bits true i c.zeros × IsClass bits false i c.ones) (size - nc) _
      (size - nc) 0 _ (omega arith) (λ i c p q x. push i c (omega arith) x)
      (IsClass-empty bits true, IsClass-empty bits false)
  where
    push :
        (i : ℕ) (c : Classes)
        → i < length bits
        → IsClass bits true i c.zeros × IsClass bits false i c.ones
        → Gives
            (λ c. IsClass bits true (suc i) c.zeros × IsClass bits false (suc i) c.ones)
            (push_class bits i c)
    push i c q x =
        unfold push_class in
        rw (get_elem?-eq-get_or bits i 0 q) (elim (Bool-cases (class bits i)) [
          | inl e ↦ rw e (
              gives
                (IsClass-push bits true i c.zeros e x.0, IsClass-skip bits false i c.ones e x.1))
          | inr e ↦ rw e (
              gives
                (IsClass-skip bits true i c.zeros e x.0, IsClass-push bits false i c.ones e x.1))
        ])

module _ ⦃r : Random⦄ where
  -- `get_zeros_ones` returns rearrangements of the two classes, if each has two members at least.
  pub get_zeros_ones_lem :
      (bits : List ℕ) (size nc : ℕ) (crypt : Crypto)
      → size - nc ≤ length bits
      → ((v : Bool) → 2 ≤ rank bits v (size - nc))
      → Gives
          (λ t.
            (v : Bool)
            → (ms : List ℕ) × IsClass bits v (size - nc) ms × Rearranged 0 ms (members t.0 v))
          (get_zeros_ones bits size nc crypt)
  unfolding get_zeros_ones
  get_zeros_ones_lem bits size nc crypt h two = Gives-bind (split_bits_lem bits size nc h) λ c x.
      Gives-bind
        (shuffling-Rearranged c.zeros _ (length-gen_words 4 (length c.zeros) crypt)
          (omega (arith, x.0.count, two true)))
        λ zeros' y.
          Gives-bind
            (shuffling-Rearranged c.ones _ (length-gen_words 4 (length c.ones) _)
              (omega (arith, x.1.count, two false)))
            λ ones' z. gives (by_class c x zeros' y ones' z)
    where
      by_class :
          (c : Classes)
          → IsClass bits true (size - nc) c.zeros × IsClass bits false (size - nc) c.ones
          → (zeros' : List ℕ) → Rearranged 0 c.zeros zeros'
          → (ones' : List ℕ) → Rearranged 0 c.ones ones'
          → (v : Bool)
          → (ms : List ℕ) × IsClass bits v (size - nc) ms
            × Rearranged 0 ms (members (record { zeros = zeros'; ones = ones' }) v)
      by_class c x zeros' y ones' z true = (c.zeros, x.0, y)
      by_class c x zeros' y ones' z false = (c.ones, x.1, z)
