-- ===== src/Protocol.antt =====
-- The program of one party: `main` in simple/frontend/main.cpp after the offline OTs, which composes
-- the functions of simple/src/Functions.cpp, and `run_online_apport`, which all its exchanges run.
-- A step that makes the process exit makes the run `aborting`.
pub mod Sharing
pub mod Online
pub mod Sums
pub mod Pairs
pub mod Offline
pub mod Run
pub mod Messages
pub mod Output
pub mod Completeness
use malicious_mpsi.Base.{
  ℕ, zero, suc, ◌-◌, Bool, List, [], ◌∷◌, ◌++◌, Option, none, some, ltb, if◌then◌else◌, ◌==◌, ◌>>=◌,
}
use malicious_mpsi.Block.{Blocks, Block}
use malicious_mpsi.Random.{Random, Crypto}
use malicious_mpsi.Bloom.{Cipher, Marks, create_bf}
use malicious_mpsi.Gbf.{SynchGbf, new_synch_gbf}
use malicious_mpsi.Arrange.{Arranged, arranged, not_enough}
use malicious_mpsi.Approt.{Session, going, aborting, Prepared, online_apport_receiver}
use malicious_mpsi.Segments.{Job, job_recv, job_sender, run_threads}
use malicious_mpsi.Exchange.{
  Commitments, Pledge, seeds_agreement_pi, seeds_agreement_p0, exchange_keys, secret_sharing_aes,
}
use malicious_mpsi.Codeword.{Filling, re_randomization, get_intersection}
use malicious_mpsi.Collect.{Stream, cumulative_gbf_pi, compute_gbf}

-- What follows a step that may exit.
unfoldable pub go_on :
    {A : Type 0} {B : Type 0} → Option (Session A) → (A → Option (Session B)) → Option (Session B)
go_on none f = none
go_on (some (going x)) f = f x
go_on (some aborting) f = some aborting

-- `items` with the hash set of each, for `get_intersection`.
pub with_sets : List ℕ → List (List ℕ) → List (ℕ × List ℕ)
with_sets [] sets = []
with_sets (x ∷ xs) [] = []
with_sets (x ∷ xs) (h ∷ sets) = (x, h) ∷ with_sets xs sets

module _ ⦃b : Blocks⦄ ⦃r : Random⦄ where
  -- What a party keeps of the offline phase with one other party, and the function that this one
  -- sends it: as a receiver, what `offline_apport_receiver` prepared, the memory of the function and
  -- the strings; as a sender, the pairs of strings.
  pub record Side : Type 0 where
    pub prepared : Prepared
    pub new_indexes : List ℕ
    pub received : List Block
    pub strings : List (Block × Block)
    pub func_sender : List ℕ

  -- `run_online_apport`: what its two threads push on the queues.
  unfoldable pub run_online_apport : ℕ → List ℕ → Side → Option (Session (List Job))
  run_online_apport nbf bf side = do
    a ← online_apport_receiver bf nbf side.new_indexes side.prepared
    some (elim a [
      | arranged func_recv ↦
          going
            (job_recv side.received func_recv ∷ job_sender side.strings bf side.func_sender ∷ [])
      | not_enough ↦ aborting
    ])

  -- The threads of the exchanges `i` and later, `n` of them.
  unfoldable pub run_exchanges : ℕ → List ℕ → (ℕ → Side) → ℕ → ℕ → Option (Session (List Job))
  run_exchanges nbf bf sides i zero = some (going [])
  run_exchanges nbf bf sides i (suc n) =
      go_on (run_online_apport nbf bf (sides i))
        λ jobs. go_on (run_exchanges nbf bf sides (suc i) n) λ rest. some (going (jobs ++ rest))

  -- Steps 7 and 10. `schedule i` is the order in which the segments come to queue `i`.
  unfoldable pub online_phase :
      ℕ
      → (ℕ → List Job → List Job)
      → List ℕ
      → (ℕ → Side)
      → ℕ
      → List Block
      → Option (Session (List Block))
  online_phase nbf schedule bf sides n gbf =
      go_on (run_exchanges nbf bf sides 0 n)
        λ jobs. do u ← run_threads nbf (λ i. schedule i jobs) gbf; some (going u)

  module _ ⦃c : Cipher⦄ ⦃o : Commitments⦄ where
    -- The state of a party when the offline phase ends, with the uninitialised arrays that it
    -- allocates. `sides` has an entry for each instance, and Pi has one.
    pub record Inputs : Type 0 where
      pub items : List ℕ
      pub pledge : Pledge
      pub keys : List Block
      pub pledges_memory : List Pledge
      pub keys_memory : List Block
      pub gbf_memory : List Block
      pub sides : ℕ → Side
      pub schedule : ℕ → List Job → List Job
      pub crypt : Crypto

    -- Step 2: P0 goes through its instances, Pi through its sockets.
    unfoldable pub seeds_agreement :
        ℕ → ℕ → (ℕ → Option Pledge) → List Pledge → Block → Option (Bool × Block)
    seeds_agreement parties player incoming memory seed =
        if player == 0
        then seeds_agreement_p0 (parties - 1) incoming memory seed
        else seeds_agreement_pi parties player incoming memory seed

    -- Step 5, which two parties skip: `if (parties>2)`.
    unfoldable pub share_gbf : ℕ → ℕ → List Block → List Block → List Block → Option (List Block)
    share_gbf parties nbf gbf keys keys_recv =
        if ltb 2 parties then secret_sharing_aes parties nbf gbf keys keys_recv else some gbf

    -- Steps 2 and 5: the filter with the shares, and the common seed.
    unfoldable pub set_up :
        ℕ → ℕ → ℕ → (ℕ → Option Block) → (ℕ → Option Pledge) → Inputs → Option (SynchGbf × Block)
    set_up parties nbf player keys_in pledges_in x = do
      test ← new_synch_gbf x.gbf_memory nbf 256
      keys_recv ← exchange_keys parties player keys_in x.keys_memory
      common ← seeds_agreement parties player pledges_in x.pledges_memory x.pledge.1
      gbf ← share_gbf parties nbf test.gbf x.keys keys_recv
      some (record test { gbf = gbf }, common.1)

    -- Pi from its offline phase to the filter that it sends: steps 6 to 9.
    pub run_pi :
        ℕ
        → ℕ
        → ℕ
        → ℕ
        → (ℕ → Option Block)
        → (ℕ → Option Pledge)
        → Inputs
        → Option (Session (List Block))
    run_pi parties nbf seeds_num player keys_in pledges_in x = do
      s ← set_up parties nbf player keys_in pledges_in x
      m ← create_bf seeds_num nbf s.1 x.items
      go_on (online_phase nbf x.schedule m.bf.arr x.sides 1 s.0.gbf) λ u. do
        filled ← re_randomization m.h_kokhav (record s.0 { gbf = u }) nbf x.crypt
        some (going (cumulative_gbf_pi nbf filled.gbf []).0)

    -- P0 from its offline phase to its output: steps 6, 7, 10, 11 and 12.
    pub run_p0 :
        ℕ
        → ℕ
        → ℕ
        → (ℕ → Option Block)
        → (ℕ → Option Pledge)
        → List Stream
        → Inputs
        → Option (Session (List ℕ))
    run_p0 parties nbf seeds_num keys_in pledges_in streams x = do
      s ← set_up parties nbf 0 keys_in pledges_in x
      m ← create_bf seeds_num nbf s.1 x.items
      go_on (online_phase nbf x.schedule m.bf.arr x.sides (parties - 1) s.0.gbf) λ u. do
        test ← compute_gbf nbf streams (record s.0 { gbf = u })
        found ← get_intersection (with_sets x.items m.h_kokhav) test.gbf
        some (going found)
