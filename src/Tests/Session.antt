-- ===== src/Tests/Session.antt =====
-- A session of eight OTs, a check group of two and a filter of three bits.
use malicious_mpsi.Base.{
  ℕ, zero, suc, ◌/◌, ◌==◌, if◌then◌else◌, ◌+◌, ◌-◌, ◌≤◌, ◌<◌, ◌≡◌, ◌≢◌, refl, ap, inl, inr, ◌⊎◌,
  Bool, true, false, List, [], ◌∷◌, none, some, arith, length, get_or, range, replicate, Within,
  Distinct, ◌∈◌, Rearranged, Gives, swap, store,
}
use malicious_mpsi.Block.{Block, ◌⊕◌, block0, cell, xor_over}
use malicious_mpsi.Samples.{nibbles, counter, masking, nibble}
use malicious_mpsi.Choose.{Opened, compute_big_r, move_targets, move_target, sort_desc, insert_desc}
use malicious_mpsi.Choose.Moving.{IsAligned, zeros_of, compute_big_r_lem}
use malicious_mpsi.Choose.Opening.{IsOt, string0}
use malicious_mpsi.Arrange.{Classes, arranged, shuffling, arrange_the_indexes}
use malicious_mpsi.Arrange.Rank.{class, rank, members}
use malicious_mpsi.Arrange.Place.{target, arrange_the_indexes_lem}
use malicious_mpsi.Arrange.Shuffle.{shuffling_lem}
use malicious_mpsi.Gbf.{SynchGbf, xor_ordered, xor_ordered_bf}
use malicious_mpsi.Gbf.Shape.{IsValid}
use malicious_mpsi.Approt.{
  going, aborting, offline_apport_receiver, offline_apport_sender, check_if_to_abort2,
}
use malicious_mpsi.Approt.Function.{IsFunction, HasFunction, apport_receiver_lem}
use malicious_mpsi.Approt.Check.{offline_apport_sender_lem, honest_session, check_if_to_abort2_lem}
use malicious_mpsi.Approt.Agreement.{apport_agreement}

abbrev pub bits : List ℕ
bits = 0 ∷ 0 ∷ 1 ∷ 0 ∷ 1 ∷ 1 ∷ 0 ∷ 1 ∷ []

abbrev pub pairs : List (Block × Block)
pairs =
    (nibble 1, nibble 9)
    ∷ (nibble 2, nibble 8)
    ∷ (nibble 3, nibble 7)
    ∷ (nibble 4, nibble 6)
    ∷ (nibble 5, nibble 5)
    ∷ (nibble 6, nibble 4)
    ∷ (nibble 7, nibble 3)
    ∷ (nibble 8, nibble 2)
    ∷ []

abbrev pub received : List Block
received =
    nibble 1 ∷ nibble 2 ∷ nibble 7 ∷ nibble 4 ∷ nibble 5 ∷ nibble 4 ∷ nibble 7 ∷ nibble 2 ∷ []

abbrev group : List ℕ
group = 1 ∷ 6 ∷ []

abbrev pub bf : List ℕ
bf = 1 ∷ 0 ∷ 1 ∷ []

abbrev bf_sender : List ℕ
bf_sender = 1 ∷ 1 ∷ 0 ∷ []

abbrev opened : Opened
opened = record {
  indexes = 0 ∷ 7 ∷ 2 ∷ 3 ∷ 4 ∷ 5 ∷ 1 ∷ 6 ∷ [];
  bits = 0 ∷ 1 ∷ 1 ∷ 0 ∷ 1 ∷ 1 ∷ 0 ∷ 0 ∷ [];
  r = nibble 5;
  big_r = 6 ∷ 1 ∷ [];
}

compute_big_r_test : compute_big_r group (range 0 8) bits 8 received ≡ some opened
unfolding compute_big_r move_targets move_target sort_desc insert_desc swap store
compute_big_r_test = refl

abbrev below_3 : (P : ℕ → Type 0) → P 0 → P 1 → P 2 → (k : ℕ) → k < 3 → P k
below_3 P a b c zero h = a
below_3 P a b c (suc zero) h = b
below_3 P a b c (suc (suc zero)) h = c
below_3 P a b c (suc (suc (suc k))) h = absurd (omega arith)

group-Distinct : Distinct group
group-Distinct = ((λ i. elim i [ inl e ↦ absurd (omega arith) | inr j ↦ j ]), ((λ i. i), tt))

group-Within : Within 8 group
group-Within = (omega arith, (omega arith, tt))

not_in_group : (x : ℕ) → x ≢ 1 → x ≢ 6 → ¬ (x ∈ group)
not_in_group x p q (inl e) = p e
not_in_group x p q (inr (inl e)) = q e
not_in_group x p q (inr (inr i)) = i

agree :
    (i : ℕ)
    → i < 8
    → cell received i ≡ (
        if get_or bits i 0 == 0
        then (get_or pairs i (block0, block0)).0
        else (get_or pairs i (block0, block0)).1)
agree zero h = refl
agree (suc zero) h = refl
agree (suc (suc zero)) h = refl
agree (suc (suc (suc zero))) h = refl
agree (suc (suc (suc (suc zero)))) h = refl
agree (suc (suc (suc (suc (suc zero))))) h = refl
agree (suc (suc (suc (suc (suc (suc zero)))))) h = refl
agree (suc (suc (suc (suc (suc (suc (suc zero))))))) h = refl
agree (suc (suc (suc (suc (suc (suc (suc (suc i)))))))) h = absurd (omega arith)

pub session-IsOt : IsOt 8 pairs bits received
session-IsOt = record { sent = refl; chose = refl; got = refl; agree = agree }

opens_some : zeros_of bits (sort_desc group) ≢ []
unfolding sort_desc insert_desc
opens_some e = absurd (nonempty (6 ∷ 1 ∷ []) refl e)
  where
    nonempty : (xs : List ℕ) → length xs ≡ 2 → xs ≢ []
    nonempty xs p q = absurd (omega (arith, p, ap length q))

compute_big_r_example :
    Gives
      (λ s.
        IsAligned 8 bits s
        × ((k : ℕ) → k < 8 - 2 → ¬ (get_or s.indexes k 0 ∈ group))
        × (s.big_r ≡ zeros_of bits (sort_desc group))
        × (s.r ≡ xor_over (cell received) s.big_r))
      (compute_big_r group (range 0 8) bits 8 received)
compute_big_r_example =
    compute_big_r_lem received 8 bits (omega arith) group refl group-Distinct group-Within

honest_session_example : offline_apport_sender 2 1 pairs (6 ∷ 1 ∷ []) (nibble 5) ≡ some (going tt)
honest_session_example =
    honest_session 8 1 pairs bits received group opened session-IsOt group-Distinct group-Within
      opens_some compute_big_r_test (omega arith)

offline_apport_sender_example :
    ((offline_apport_sender 2 0 pairs (6 ∷ []) (nibble 5) ≡ some (going tt))
      × (2 ≤ 0 + 1)
      × (xor_over (string0 pairs) (6 ∷ []) ≡ nibble 5))
    ⊎ ((offline_apport_sender 2 0 pairs (6 ∷ []) (nibble 5) ≡ some aborting)
        × ((0 + 1 < 2) ⊎ (xor_over (string0 pairs) (6 ∷ []) ≢ nibble 5)))
offline_apport_sender_example =
    offline_apport_sender_lem 2 0 pairs (6 ∷ []) (nibble 5) (omega arith, tt)
      (λ e. absurd (omega (arith, ap length e)))

shuffling_example :
    ((2 ≤ 3) × Gives (Rearranged 0 (4 ∷ 2 ∷ 7 ∷ [])) (shuffling (4 ∷ 2 ∷ 7 ∷ []) (5 ∷ 6 ∷ 8 ∷ [])))
    ⊎ ((3 < 2) × (shuffling (4 ∷ 2 ∷ 7 ∷ []) (5 ∷ 6 ∷ 8 ∷ []) ≡ none))
shuffling_example = shuffling_lem (4 ∷ 2 ∷ 7 ∷ []) (5 ∷ 6 ∷ 8 ∷ []) refl

two_of_each : (v : Bool) → 2 ≤ rank opened.bits v (8 - 2)
unfolding rank
two_of_each true = omega arith
two_of_each false = omega arith

abbrev classes : Classes
classes = record { zeros = 3 ∷ 0 ∷ []; ones = 5 ∷ 1 ∷ 2 ∷ 4 ∷ [] }

enough : (v : Bool) → rank bf v 3 ≤ length (members classes v)
unfolding rank
enough true = omega arith
enough false = omega arith

within : (v : Bool) (k : ℕ) → k < length (members classes v) → get_or (members classes v) k 0 < 8
within true zero h = omega arith
within true (suc zero) h = omega arith
within true (suc (suc k)) h = absurd (omega arith)
within false zero h = omega arith
within false (suc zero) h = omega arith
within false (suc (suc zero)) h = omega arith
within false (suc (suc (suc zero))) h = omega arith
within false (suc (suc (suc (suc k)))) h = absurd (omega arith)

arrange_the_indexes_example :
    Gives
      (λ r.
        (f : List ℕ) × (r ≡ arranged f)
        × (length f ≡ 3)
        × ((j : ℕ) → j < 3 → get_or f j 0 ≡ target bf opened.indexes classes 3 (3 / 2) j))
      (arrange_the_indexes bf 3 classes opened.indexes (replicate 3 0))
arrange_the_indexes_example =
    arrange_the_indexes_lem bf opened.indexes classes 3 (replicate 3 0) (omega arith) refl enough
      within

enough_left : (v : Bool) → rank bf v 3 ≤ rank opened.bits v (8 - 2)
unfolding rank
enough_left true = omega arith
enough_left false = omega arith

apport_receiver_example :
    Gives
      (HasFunction 8 group bits bf 3 (replicate 3 0) opened)
      (offline_apport_receiver 3 8 group bits received 1)
apport_receiver_example =
    apport_receiver_lem 3 8 group bits bf (replicate 3 0) received 1 opened refl (omega arith)
      group-Distinct group-Within (omega arith) (omega arith) refl compute_big_r_test two_of_each
      enough_left

abbrev order : List ℕ
order = 2 ∷ 3 ∷ 4 ∷ []

order-IsFunction : IsFunction 8 group bits bf 3 order
order-IsFunction = record {
  size = refl;
  inside = λ j h. below_3 (λ k. get_or order k 0 < 8) (omega arith) (omega arith) (omega arith) j h;
  fresh = λ j h.
      below_3 (λ k. ¬ (get_or order k 0 ∈ group))
        (not_in_group 2 (λ (e : ◌≡◌ {A = ℕ} 2 1). absurd (omega arith))
          (λ (e : ◌≡◌ {A = ℕ} 2 6). absurd (omega arith)))
        (not_in_group 3 (λ (e : ◌≡◌ {A = ℕ} 3 1). absurd (omega arith))
          (λ (e : ◌≡◌ {A = ℕ} 3 6). absurd (omega arith)))
        (not_in_group 4 (λ (e : ◌≡◌ {A = ℕ} 4 1). absurd (omega arith))
          (λ (e : ◌≡◌ {A = ℕ} 4 6). absurd (omega arith)))
        j h;
  matches = λ j h. below_3 (λ k. class bits (get_or order k 0) ≡ class bf k) refl refl refl j h;
  injective = rising;
}
  where
    rising : (i j : ℕ) → i < j → j < 3 → get_or order i 0 ≢ get_or order j 0
    rising zero (suc zero) p q e = absurd (omega arith)
    rising zero (suc (suc zero)) p q e = absurd (omega arith)
    rising (suc zero) (suc (suc zero)) p q e = absurd (omega arith)
    rising i zero p q e = absurd (omega arith)
    rising (suc i) (suc zero) p q e = absurd (omega arith)
    rising (suc (suc i)) (suc (suc zero)) p q e = absurd (omega arith)
    rising i (suc (suc (suc j))) p q e = absurd (omega arith)

abbrev shared : SynchGbf
shared = record {
  gbf_length = 3;
  chunk_size = 2;
  num_of_chunks = 2;
  last_chunk_start = 2;
  gbf = nibble 3 ∷ nibble 0 ∷ nibble 12 ∷ [];
}

shared-IsValid : IsValid shared
shared-IsValid = record {
  size = refl;
  some_chunk = omega arith;
  last_start = refl;
  last_in = omega arith;
}

apport_agreement_example :
    Gives
      (λ u.
        Gives
          (λ u'.
            (k : ℕ)
            → k < 3
            → class bf k ≡ class bf_sender k
            → cell u.gbf k ⊕ cell u'.gbf k ≡ cell shared.gbf k ⊕ cell shared.gbf k)
          (xor_ordered_bf pairs order bf_sender shared))
      (xor_ordered received order shared)
apport_agreement_example =
    apport_agreement 8 pairs bits received group bf bf_sender order session-IsOt shared shared
      shared-IsValid shared-IsValid refl order-IsFunction (omega arith)
      (λ k h. below_3 (λ k. get_or bf_sender k 0 < 2) (omega arith) (omega arith) (omega arith) k h)

check_if_to_abort2_example :
    Gives
      (λ r.
        ((r ≡ 0) × ((k : ℕ) → k ∈ order → ¬ (k ∈ group)))
        ⊎ ((r ≡ 1) × ((k : ℕ) × (k ∈ order) × (k ∈ group))))
      (check_if_to_abort2 group order 8)
check_if_to_abort2_example =
    check_if_to_abort2_lem 8 group order group-Within
      (omega arith, (omega arith, (omega arith, tt)))
