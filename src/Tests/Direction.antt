-- ===== src/Tests/Direction.antt =====
-- The offline phase of one direction over eight OTs that the parties make first.
use malicious_mpsi.Base.{
  length, ◌<◌, ℕ, zero, suc, All, ◌<◌, ◌≡◌, refl, List, [], ◌∷◌, none, some, arith, range,
  replicate, get_or, swap, store,
}
use malicious_mpsi.Block.{block0}
use malicious_mpsi.Bitstring.{zeros}
use malicious_mpsi.Bitstring.Ones.{count_ones}
use malicious_mpsi.Samples.{nibbles, counter, masking, in_bytes, nibble}
use malicious_mpsi.Choose.{Opened, compute_big_r, move_targets, move_target, sort_desc, insert_desc}
use malicious_mpsi.Protocol.Online.{Goes}
use malicious_mpsi.Protocol.Pairs.{IsExchange}
use malicious_mpsi.Protocol.Offline.{receiver_of, sender_of}
use malicious_mpsi.Party.{Common, Party}
use malicious_mpsi.Party.Ready.{IsReady}
use malicious_mpsi.Ote.{
  Process, offline_direction, single_thread, split_base, extenders, write_msgs, set_base_ots,
  routine, two_choose_one, party_ots,
}
use malicious_mpsi.Ote.Direction.{LeavesEnough, offline_direction_lem}
use malicious_mpsi.Exchange.{set_ports}
use malicious_mpsi.Exchange.Ports.{length-set_ports}
use malicious_mpsi.Tests.Start.{flaky, flaky-IsServing, fresh, ips}
use malicious_mpsi.Tests.Session.{bits, bf}
use malicious_mpsi.Tests.Offline.{drawn, opened, opens_some, two_of_each, enough, blank}
use malicious_mpsi.Tests.Processes.{counting, counted}

abbrev common : Common
common = record {
  items = [];
  items_size = 0;
  nbf = 3;
  bf = zeros 3;
  not = 8;
  nc_sender = 2;
  max_ones = 0;
  seeds_num = 0;
}

-- A party as its constructor leaves it.
abbrev party : List ℕ → ℕ → Party
party bits crypt = record {
  strings_choices = replicate 8 block0;
  strings = replicate 8 (block0, block0);
  bitvector = bits;
  crypt = crypt;
  sub_group_sender = none;
  sub_group_recv = none;
  big_r_sender = none;
  big_r_recv = none;
  func_sender = none;
  func_recv = none;
}

choice_bits : (bits : List ℕ) → All (λ x. x < 2) bits → (j : ℕ) → get_or bits j 0 < 2
choice_bits [] h j = omega arith
choice_bits (x ∷ xs) h zero = h.0
choice_bits (x ∷ xs) h (suc j) = choice_bits xs h.1 j

party-IsReady : (crypt : ℕ) → IsReady 8 4 (party bits crypt)
unfolding count_ones
party-IsReady crypt = record {
  received_size = refl;
  sent_size = refl;
  bits_size = refl;
  ones = refl;
  bits = choice_bits bits (omega arith);
}

abbrev with_ots : Party × Party
with_ots = (
  record (party bits 7) { strings = (counted 128 8 bits).0 },
  record (party bits 1) { strings_choices = (counted 128 8 bits).1 },
)

party_ots_test : party_ots 6 (party bits 7) (party bits 1) ≡ some with_ots
unfolding party_ots single_thread two_choose_one write_msgs store routine extenders split_base
    set_base_ots
party_ots_test = refl

abbrev found : Opened
found = record opened { r = nibble 9 }

found_test : compute_big_r (0 ∷ 3 ∷ []) (range 0 8) bits 8 with_ots.1.strings_choices ≡ some found
unfolding compute_big_r move_targets move_target sort_desc insert_desc swap store
found_test = refl

-- Party 1 sends to P0.
abbrev sender : Process
sender = record {
  party = party bits 7;
  player = 1;
  ips = ips;
  ports = set_ports 1 3;
  world = fresh;
}

abbrev receiver : Process
receiver = record {
  party = party bits 1;
  player = 0;
  ips = ips;
  ports = set_ports 0 3;
  world = fresh;
}

sender_in_tables : 0 < length (set_ports 1 3)
sender_in_tables = rw (length-set_ports 1 3) (omega arith)

receiver_in_tables : 1 < length (set_ports 0 3)
receiver_in_tables = rw (length-set_ports 0 3) (omega arith)

found-LeavesEnough : LeavesEnough common bits bf (0 ∷ 3 ∷ []) found
found-LeavesEnough = record {
  room = omega arith;
  two = two_of_each;
  enough = enough;
  opens = opens_some;
  fits = omega arith;
}

offline_direction_example :
    Goes
      (λ p.
        (func : List ℕ) × IsExchange 3 bf
          (receiver_of blank p (replicate 3 0) with_ots.1.strings_choices)
          (sender_of blank with_ots.0.strings func)
          func)
      (offline_direction 2 6 common sender receiver)
offline_direction_example =
    offline_direction_lem 2 6 common 4 4 sender receiver with_ots bf (replicate 3 0) (0 ∷ 3 ∷ [])
      (nibble 12) 9 found blank blank flaky-IsServing sender_in_tables (omega arith)
      receiver_in_tables (omega arith) (omega arith) (party-IsReady 7) (party-IsReady 1)
      party_ots_test drawn found_test found-LeavesEnough (omega arith) refl
