-- ===== src/Arrange/Rank.antt =====
-- Counting the bits of each class of a Bloom filter: where a thread stands in its vector.
use malicious_mpsi.Base.{
  ℕ, zero, suc, ◌+◌, ◌-◌, ◌≤◌, ◌<◌, ◌≡◌, ◌≢◌, refl, ap, Bool, true, false, List, arith, get_or,
  length, ltb, ◌==◌, if◌then◌else◌,
}
use mathlib.Core.Bool.{not}
use malicious_mpsi.Arrange.{Classes}

module _ (bf : List ℕ) where
  -- `true` is the class of the zeros.
  abbrev pub class : ℕ → Bool
  class j = get_or bf j 0 == 0

  -- 1 if bit `j` is in the class.
  abbrev pub hit : Bool → ℕ → ℕ
  hit true j = if class j then 1 else 0
  hit false j = if class j then 0 else 1

  -- The bits of a class before bit `j`.
  unfoldable pub rank : Bool → ℕ → ℕ
  rank v zero = 0
  rank v (suc j) = rank v j + hit v j

  pub rank-suc : (v : Bool) (j : ℕ) → rank v (suc j) ≡ rank v j + hit v j
  unfolding rank
  rank-suc v j = refl

  pub rank_start : (v : Bool) → rank v 0 ≡ 0
  unfolding rank
  rank_start v = refl

  rank_grow : (v : Bool) (i n : ℕ) → rank v i ≤ rank v (n + i)
  unfolding rank
  rank_grow v i zero = let e : zero + i ≡ i = omega arith in rw e (omega arith)
  rank_grow v i (suc n) =
      let e : suc n + i ≡ suc (n + i) = omega arith in rw e (omega (arith, rank_grow v i n))

  pub rank_mono : (v : Bool) (i j : ℕ) → i ≤ j → rank v i ≤ rank v j
  rank_mono v i j h = let e : j - i + i ≡ j = omega arith in rw e at (rank_grow v i (j - i))

  -- A class has the bit or has it not.
  pub hit_this : (v : Bool) (j : ℕ) → class j ≡ v → hit v j ≡ 1
  hit_this true j e = rw e
  hit_this false j e = rw e

  pub hit_other : (v : Bool) (j : ℕ) → class j ≡ v → hit (not v) j ≡ 0
  hit_other true j e = rw e
  hit_other false j e = rw e

  hit-class : (j : ℕ) → hit (class j) j ≡ 1
  hit-class j = hit_this (class j) j refl

  -- The rank of a bit in its own class is below that of any later place.
  pub rank_lt : (i j : ℕ) → i < j → rank (class i) i < rank (class i) j
  rank_lt i j h = omega (arith, rank-suc (class i) i, hit-class i, rank_mono (class i) (suc i) j h)

abbrev pub members : Classes → Bool → List ℕ
members c true = c.zeros
members c false = c.ones

-- The place in its vector that bit `j` takes its index from, when the second thread starts at `h`.
abbrev pub position : List ℕ → Classes → ℕ → ℕ → ℕ
position bf c h j =
    if ltb j h
    then rank bf (class bf j) j
    else length (members c (class bf j)) - 1 - (rank bf (class bf j) j - rank bf (class bf j) h)

module _ (bf : List ℕ) (c : Classes) (h n : ℕ) (half : h ≤ n) where
  module _ (enough : (v : Bool) → rank bf v n ≤ length (members c v)) where
    -- With enough members the place lies in the vector.
    pub position_in : (j : ℕ) → j < n → position bf c h j < length (members c (class bf j))
    position_in j p =
        ground (arith, enough (class bf j), rank_lt bf j n p, rank_mono bf (class bf j) j h)

    -- Two bits of one class take different places.
    pub position_injective :
        (i j : ℕ) → i < j → j < n → class bf i ≡ class bf j → position bf c h i ≢ position bf c h j
    position_injective i j p q e z =
        let below : rank bf (class bf i) i < rank bf (class bf i) j = rank_lt bf i j p in
        let top : rank bf (class bf j) j < rank bf (class bf j) n = rank_lt bf j n q in
        let same : rank bf (class bf i) j ≡ rank bf (class bf j) j = ap (λ v. rank bf v j) e in
        let half_same : rank bf (class bf i) h ≡ rank bf (class bf j) h = ap (λ v. rank bf v h) e in
        let size : length (members c (class bf i)) ≡ length (members c (class bf j)) =
          ap (λ v. length (members c v)) e in
        ground (
          arith,
          enough (class bf j),
          rank_lt bf i h,
          rank_mono bf (class bf i) h i,
          rank_mono bf (class bf j) h j,
        )
