-- ===== src/Tests/Offline.antt =====
-- The offline phase of one direction over eight OTs.
use malicious_mpsi.Base.{
  ℕ, ◌-◌, ◌≤◌, ◌≡◌, ◌≢◌, refl, Bool, true, false, List, [], ◌∷◌, some, arith, ap, length, range,
  replicate, insert, swap, store,
}
use malicious_mpsi.Random.{gen_block, word_of}
use malicious_mpsi.Bloom.{ecb_enc_blocks}
use malicious_mpsi.SubGroup.{
  get_sub_group, draw_group, members_of, draw_members, residue, ciphertexts_size,
}
use malicious_mpsi.Samples.{nibbles, counter, masking, in_bytes, nibble}
use malicious_mpsi.Choose.{Opened, compute_big_r, move_targets, move_target, sort_desc, insert_desc}
use malicious_mpsi.Choose.Moving.{zeros_of}
use malicious_mpsi.Arrange.Rank.{rank}
use malicious_mpsi.Approt.{set_sub_group}
use malicious_mpsi.Approt.Offline.{offline_apport}
use malicious_mpsi.Protocol.{Side}
use malicious_mpsi.Protocol.Online.{Goes}
use malicious_mpsi.Protocol.Pairs.{IsExchange}
use malicious_mpsi.Protocol.Offline.{receiver_of, sender_of, offline_apport_lem}
use malicious_mpsi.Tests.Session.{bits, pairs, received, bf, session-IsOt}

pub drawn : set_sub_group 8 2 7 ≡ some (0 ∷ 3 ∷ [], nibble 12, 9)
unfolding set_sub_group get_sub_group draw_group members_of draw_members residue ciphertexts_size
    ecb_enc_blocks gen_block word_of insert
drawn = refl

abbrev pub opened : Opened
opened = record {
  indexes = 6 ∷ 1 ∷ 2 ∷ 7 ∷ 4 ∷ 5 ∷ 0 ∷ 3 ∷ [];
  bits = 0 ∷ 0 ∷ 1 ∷ 1 ∷ 1 ∷ 1 ∷ 0 ∷ 0 ∷ [];
  r = nibble 5;
  big_r = 3 ∷ 0 ∷ [];
}

opened_test : compute_big_r (0 ∷ 3 ∷ []) (range 0 8) bits 8 received ≡ some opened
unfolding compute_big_r move_targets move_target sort_desc insert_desc swap store
opened_test = refl

pub opens_some : zeros_of bits (sort_desc (0 ∷ 3 ∷ [])) ≢ []
unfolding sort_desc insert_desc
opens_some e = absurd (nonempty (3 ∷ 0 ∷ []) refl e)
  where
    nonempty : (xs : List ℕ) → length xs ≡ 2 → xs ≢ []
    nonempty xs p q = absurd (omega (arith, p, ap length q))

pub two_of_each : (v : Bool) → 2 ≤ rank opened.bits v (8 - 2)
unfolding rank
two_of_each true = omega arith
two_of_each false = omega arith

pub enough : (v : Bool) → rank bf v 3 ≤ rank opened.bits v (8 - 2)
unfolding rank
enough true = omega arith
enough false = omega arith

-- Sides before anything has been received.
abbrev pub blank : Side
blank = record {
  prepared = record { opened = opened; classes = record { zeros = []; ones = [] }; crypt = 0 };
  new_indexes = [];
  received = [];
  strings = [];
  func_sender = [];
}

offline_apport_example :
    Goes
      (λ p.
        (func : List ℕ) × IsExchange 3 bf
          (receiver_of blank p (replicate 3 0) received)
          (sender_of blank pairs func)
          func)
      (offline_apport 3 8 2 0 bits received pairs 7 1)
offline_apport_example =
    offline_apport_lem 3 8 2 0 bits bf (replicate 3 0) received pairs 7 9 1 (0 ∷ 3 ∷ []) (nibble 12)
      opened blank blank (omega arith) (omega arith) session-IsOt drawn (omega arith) (omega arith)
      refl opened_test two_of_each enough opens_some (omega arith)
