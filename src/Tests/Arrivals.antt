-- ===== src/Tests/Arrivals.antt =====
-- The agreement of party 1 of three over sockets that take and give two bytes at a time.
use malicious_mpsi.Base.{
  ℕ, zero, suc, ◌<◌, ◌≡◌, ◌≢◌, ◌∈◌, refl, List, [], ◌∷◌, ◌++◌, some, arith, length, replicate,
  Gives,
}
use malicious_mpsi.Block.{block0}
use malicious_mpsi.Samples.{nibbles, counter, open_commitments, in_bytes, nibble}
use malicious_mpsi.Transfer.{write_all, write_loop, sub_64, add_64}
use malicious_mpsi.Exchange.{Pledge, route}
use malicious_mpsi.Exchange.Messages.{
  CommitLayout, Links, socket_of, write_pledge, write_key, seeds_exchange_pi,
}
use malicious_mpsi.Exchange.Arrival.{Arrives, AreOthers, Completed, seeds_exchange_pi_lem}
use malicious_mpsi.Tests.Transfers.{pairs_of_bytes, pairs-Delivers, pairs-Supplies}

instance abbrev as_blocks : CommitLayout
as_blocks = record {
  commit_size = 16;
  commit_bytes = in_bytes.to_bytes;
  of_commit_bytes = in_bytes.of_bytes;
  commit_bytes_size = in_bytes.bytes_size;
  of_commit = in_bytes.of_to;
}

-- Party 2 commits to another seed than its own.
abbrev pledge : ℕ → Pledge
pledge zero = (nibble 3, nibble 3)
pledge (suc zero) = (nibble 5, nibble 5)
pledge (suc (suc p)) = (nibble 1, nibble 9)

abbrev in_socket : ℕ → List ℕ
in_socket p = in_bytes.to_bytes (pledge p).0 ++ in_bytes.to_bytes (pledge p).1

abbrev links : Links
links = record { recv = in_socket 0 ++ (7 ∷ []); receivers = []; senders = in_socket 2 ∷ [] }

others :
    (order : List ℕ)
    → length order ≡ 2
    → ((p : ℕ) → p ∈ order → (p < 3) × (p ≢ 1))
    → AreOthers 2 1 order
others order e h = record { count = e; others = h }

written_test : (p : ℕ) → p < 3 → p ≢ 1 → write_pledge (pledge p) [] ≡ some (32, in_socket p)
unfolding write_pledge write_key write_all write_loop sub_64 add_64
written_test zero h ne = refl
written_test (suc zero) h ne = absurd (ne refl)
written_test (suc (suc zero)) h ne = refl
written_test (suc (suc (suc p))) h ne = absurd (omega arith)

below_3 : (P : ℕ → Type 0) → P 0 → P 2 → (p : ℕ) → p < 3 → p ≢ 1 → P p
below_3 P x y zero h ne = x
below_3 P x y (suc zero) h ne = absurd (ne refl)
below_3 P x y (suc (suc zero)) h ne = y
below_3 P x y (suc (suc (suc p))) h ne = absurd (omega arith)

arrives :
    (p : ℕ)
    → p < 3
    → p ≢ 1
    → Arrives
        (λ s. s)
        (λ s. s)
        pairs-Delivers
        pairs-Supplies
        (omega arith)
        (pledge p)
        (socket_of links (route 1 p))
unfolding socket_of
arrives =
    below_3 _
      (record {
        here = in_socket 0 ++ (7 ∷ []);
        there = [];
        written = (32, in_socket 0);
        later = 7 ∷ [];
        is_here = refl;
        is_written = written_test 0 (omega arith) (omega arith);
        arrived = refl;
      })
      (record {
        here = in_socket 2;
        there = [];
        written = (32, in_socket 2);
        later = [];
        is_here = refl;
        is_written = written_test 2 (omega arith) (omega arith);
        arrived = refl;
      })

seeds_exchange_pi_example : Gives (Completed 2 pledge 1) (
    seeds_exchange_pi 3 1 links (2 ∷ 0 ∷ []) (0 ∷ 2 ∷ []) (replicate 2 (block0, block0)) (pledge 1))
seeds_exchange_pi_example =
    seeds_exchange_pi_lem (λ s. s) (λ s. s) pairs-Delivers pairs-Supplies (omega arith) 2 pledge
      (replicate 2 (block0, block0)) (2 ∷ 0 ∷ []) (0 ∷ 2 ∷ []) refl (omega arith) 1 links
      (omega arith) (others (2 ∷ 0 ∷ []) refl (λ p h. ground arith))
      (others (0 ∷ 2 ∷ []) refl (λ p h. ground arith)) arrives
