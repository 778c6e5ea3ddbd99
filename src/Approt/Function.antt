-- ===== src/Approt/Function.antt =====
-- The receiver's function is good: it avoids the check group, has the filter's bits, and uses no OT
-- twice.
use malicious_mpsi.Base.{
  ℕ, ◌+◌, ◌-◌, ◌/◌, ◌≤◌, ◌<◌, ◌≡◌, ◌≢◌, refl, sym, ap, ◌∙◌, Bool, List, some, arith, length, get_or,
  range, length-range, ◌∈◌, Distinct, Within, ◌==◌, le→ltb, Gives, gives, Gives-map, Gives-bind,
  Gives-some, Rearranged, Rearranged_range_in, Rearranged_range_injective,
}
use malicious_mpsi.Block.{Blocks, Block}
use malicious_mpsi.Random.{Random, Crypto}
use malicious_mpsi.Choose.{Opened, compute_big_r}
use malicious_mpsi.Choose.Moving.{IsAligned, index, compute_big_r_lem}
use malicious_mpsi.Arrange.{Classes, arranged}
use malicious_mpsi.Arrange.Rank.{class, rank, members, position, position_in, position_injective}
use malicious_mpsi.Arrange.Place.{arrange_the_indexes_lem}
use malicious_mpsi.Arrange.Split.{IsClass, get_zeros_ones_lem}
use malicious_mpsi.Approt.{
  Session, going, check_if_to_abort, Prepared, offline_apport_receiver, online_apport_receiver,
}

-- `ms` holds the places of a class among the first `n` bits, in some order.
abbrev pub IsShuffledClass : List ℕ → Bool → ℕ → List ℕ → Type 0
IsShuffledClass bits v n ys = (ms : List ℕ) × IsClass bits v n ms × Rearranged 0 ms ys

module _ (bits : List ℕ) (v : Bool) (n : ℕ) (ys : List ℕ) where
  entry_in : IsShuffledClass bits v n ys → (k : ℕ) → k < length ys → get_or ys k 0 < n
  entry_in (ms, x, y) k h =
      rw (y.moved k (omega (arith, y.same_length)))
        (x.entry_lt (y.from k) (y.from_in k (omega (arith, y.same_length))))

  entry_class :
      IsShuffledClass bits v n ys → (k : ℕ) → k < length ys → class bits (get_or ys k 0) ≡ v
  entry_class (ms, x, y) k h =
      rw (y.moved k (omega (arith, y.same_length)))
        (x.entry_class (y.from k) (y.from_in k (omega (arith, y.same_length))))

  ascending_injective :
      (ms : List ℕ)
      → IsClass bits v n ms
      → (i j : ℕ) → i < length ms
      → j < length ms
      → get_or ms i 0 ≡ get_or ms j 0
      → i ≡ j
  ascending_injective ms x i j p q e = grind (arith, x.ascending i j, x.ascending j i)

  entry_injective :
      IsShuffledClass bits v n ys
      → (i j : ℕ) → i < length ys
      → j < length ys
      → get_or ys i 0 ≡ get_or ys j 0
      → i ≡ j
  entry_injective (ms, x, y) i j p q e =
      let p' : i < length ms = omega (arith, y.same_length) in
      let q' : j < length ms = omega (arith, y.same_length) in
      sym (y.back_from i)
      ∙ ap y.back (
          ascending_injective ms x (y.from i) (y.from j) (y.from_in i p') (y.from_in j q')
            (sym (y.moved i p') ∙ e ∙ y.moved j q'))
      ∙ y.back_from j

  shuffled_count : IsShuffledClass bits v n ys → length ys ≡ rank bits v n
  shuffled_count (ms, x, y) = y.same_length ∙ x.count

-- A function from the places of the filter to the OTs outside the check group, with the choice bit
-- of its value the bit of the place, and no value twice.
pub record IsFunction (n : ℕ) (sub_group bits bf : List ℕ) (nbf : ℕ) (f : List ℕ) : Type 0 where
  pub size : length f ≡ nbf
  pub inside : (j : ℕ) → j < nbf → get_or f j 0 < n
  pub fresh : (j : ℕ) → j < nbf → ¬ (get_or f j 0 ∈ sub_group)
  pub matches : (j : ℕ) → j < nbf → class bits (get_or f j 0) ≡ class bf j
  pub injective : (i j : ℕ) → i < j → j < nbf → get_or f i 0 ≢ get_or f j 0

module _ ⦃b : Blocks⦄ (n m : ℕ) (sub_group bits bf : List ℕ) (s : Opened) (c : Classes) (nbf : ℕ)
    (aligned : IsAligned n bits s) (below : m ≤ n)
    (avoids : (k : ℕ) → k < m → ¬ (index s k ∈ sub_group))
    (classes : (v : Bool) → IsShuffledClass s.bits v m (members c v))
    (enough : (v : Bool) → rank bf v nbf ≤ length (members c v)) where
  -- The place among the indices that place `j` of the filter is given.
  abbrev source : ℕ → ℕ
  source j = get_or (members c (class bf j)) (position bf c (nbf / 2) j) 0

  position_lt : (j : ℕ) → j < nbf → position bf c (nbf / 2) j < length (members c (class bf j))
  position_lt j h = position_in bf c (nbf / 2) nbf (omega arith) enough j h

  source_in : (j : ℕ) → j < nbf → source j < m
  source_in j h = entry_in s.bits (class bf j) m _ (classes (class bf j)) _ (position_lt j h)

  class-source : (j : ℕ) → j < nbf → class s.bits (source j) ≡ class bf j
  class-source j h = entry_class s.bits (class bf j) m _ (classes (class bf j)) _ (position_lt j h)

  source_injective : (i j : ℕ) → i < j → j < nbf → source i ≢ source j
  source_injective i j p q e =
      let same : class bf i ≡ class bf j =
        sym (class-source i (omega arith)) ∙ ap (class s.bits) e ∙ class-source j q in
      position_injective bf c (nbf / 2) nbf (omega arith) enough i j p q same (
        entry_injective s.bits (class bf i) m _ (classes (class bf i)) _ _
          (position_lt i (omega arith)) (rw same (position_lt j q))
          (e ∙ ap (λ v. get_or (members c v) (position bf c (nbf / 2) j) 0) (sym same)))

  target-IsFunction :
      (f : List ℕ)
      → length f ≡ nbf
      → ((j : ℕ) → j < nbf → get_or f j 0 ≡ index s (source j))
      → IsFunction n sub_group bits bf nbf f
  target-IsFunction f size at = record {
    size = size;
    inside = λ j h.
        rw (at j h) (Rearranged_range_in aligned.order (source j) (omega (arith, source_in j h)));
    fresh = λ j h. rw (at j h) (avoids (source j) (source_in j h));
    matches = λ j h. rw (at j h) (
        ap (λ x. x == 0) (sym (aligned.aligned (source j) (omega (arith, source_in j h))))
        ∙ class-source j h);
    injective = λ i j p q e. source_injective i j p q (
        Rearranged_range_injective aligned.order (source i) (source j)
          (omega (arith, source_in i (omega arith))) (omega (arith, source_in j q))
          (sym (at i (omega arith)) ∙ e ∙ at j q));
  }

module _ ⦃b : Blocks⦄ ⦃r : Random⦄ where
  -- What the receiver gets in a session that goes on, when `s` is what `compute_R_r` leaves.
  abbrev pub HasFunction :
      ℕ → List ℕ → List ℕ → List ℕ → ℕ → List ℕ → Opened → Session Prepared → Type 0
  HasFunction n sub_group bits bf nbf new s o =
      (p : Prepared) × (o ≡ going p)
      × (p.opened ≡ s)
      × Gives (λ a. (f : List ℕ) × (a ≡ arranged f) × IsFunction n sub_group bits bf nbf f)
          (online_apport_receiver bf nbf new p)

  -- With a check group of different OTs that leaves enough OTs for the filter, and, outside the
  -- group, at least two OTs of each choice bit and as many as the filter has bits of it, the offline
  -- phase of the receiver goes on, and its online phase makes a function from the filter's places to
  -- OTs outside the group whose choice bits are the filter's bits, no OT being used twice.
  pub apport_receiver_lem :
      (nbf n : ℕ) (sub_group bits bf new : List ℕ) (strings : List Block) (crypt : Crypto)
      (s : Opened)
      → length bits ≡ n
      → n ≤ length strings
      → Distinct sub_group
      → Within n sub_group
      → length sub_group + nbf ≤ n
      → nbf ≤ length bf
      → length new ≡ nbf
      → compute_big_r sub_group (range 0 n) bits n strings ≡ some s
      → ((v : Bool) → 2 ≤ rank s.bits v (n - length sub_group))
      → ((v : Bool) → rank bf v nbf ≤ rank s.bits v (n - length sub_group))
      → Gives
          (HasFunction n sub_group bits bf nbf new s)
          (offline_apport_receiver nbf n sub_group bits strings crypt)
  unfolding offline_apport_receiver online_apport_receiver check_if_to_abort
  apport_receiver_lem nbf n sub_group bits bf new strings crypt s size fits d w room long empty e
        two enough =
      let (aligned, avoids, opened, total) =
        Gives-some (compute_big_r_lem strings n bits fits sub_group size d w) e in
      let m = n - length sub_group in
      rw (le→ltb n (length sub_group + nbf) room) (
        rw e (
          Gives-bind
            (get_zeros_ones_lem s.bits n (length sub_group) crypt (omega (arith, aligned.size)) two)
            λ t classes.
              let counts = λ (v : Bool). shuffled_count s.bits v m (members t.0 v) (classes v) in
              let enough' : (v : Bool) → rank bf v nbf ≤ length (members t.0 v) =
                λ v. rw (counts v) (enough v) in
              gives (
                _,
                refl,
                refl,
                Gives-map
                    (arrange_the_indexes_lem bf s.indexes t.0 nbf new long empty enough' (λ v k h.
                      omega (
                        arith,
                        entry_in s.bits v m (members t.0 v) (classes v) k h,
                        aligned.order.same_length,
                        length-range 0 n,
                      )))
                    λ a x. (
                      x.0,
                      x.1,
                      target-IsFunction n m sub_group bits bf s t.0 nbf aligned (omega arith) avoids
                          classes enough' x.0 x.2 x.3,
                    ),
              )))
