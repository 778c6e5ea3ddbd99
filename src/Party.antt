-- ===== src/Party.antt =====
-- The state of a party: the class of simple/src/Party.h, with its static attributes, which all the
-- instances of a process share, `Party::set` and the constructor in simple/src/Party.cpp, the
-- constructors of simple/src/P0.cpp and simple/src/Pi.cpp, and `creating_p0_instance`.
pub mod Ready
pub mod Opened
pub mod Routes
use malicious_mpsi.Base.{
  ℕ, zero, suc, ◌+◌, ◌-◌, ◌≡◌, List, [], ◌∷◌, ◌++◌, Option, none, some, get_elem?, store, replicate,
  length, ◌>>=◌,
}
use malicious_mpsi.Block.{Blocks, Block, block0}
use malicious_mpsi.Random.{Random, Crypto}
use malicious_mpsi.Bitstring.{Bitstring, zeros, draw_choices}
use malicious_mpsi.Config.{ℤ, Text}
use malicious_mpsi.Sockets.{
  SystemCalls, World, Sender, Receiver, init_sender, init_receiver, Run, and_then, returned,
}

-- The static attributes.
pub record Common : Type 0 where
  pub items : List ℤ
  pub items_size : ℕ
  pub nbf : ℕ
  pub bf : Bitstring
  pub not : ℕ
  pub nc_sender : ℕ
  pub max_ones : ℕ
  pub seeds_num : ℕ

-- `Party::set`; the length of the strings is not used.
unfoldable pub set_common : List ℤ → ℕ → ℕ → ℕ → ℕ → ℕ → ℕ → ℕ → Common
set_common items items_size nbf n nc string_length max_ones seeds_num = record {
  items = items;
  items_size = items_size;
  nbf = nbf;
  bf = zeros nbf;
  not = n;
  nc_sender = nc;
  max_ones = max_ones;
  seeds_num = seeds_num;
}

module _ ⦃c : SystemCalls⦄ where
  -- `init_receiver(&receivers[p-1],ips[p],ports[p][1])` for `p` and the `n-1` parties after it.
  unfoldable pub open_receivers :
      ℕ → List Text → List (ℕ × ℕ) → ℕ → ℕ → List Receiver → World → Option (Run (List Receiver))
  open_receivers fuel ips ports p zero receivers w = some (returned receivers w)
  open_receivers fuel ips ports p (suc n) receivers w = do
    ip ← get_elem? ips p
    port ← get_elem? ports p
    and_then (init_receiver fuel ip port.1 w)
        λ recv w'. open_receivers fuel ips ports (suc p) n (receivers ++ (recv ∷ [])) w'

  -- `init_sender(&senders[p-player-1],ports[p][0])`
  unfoldable pub open_senders :
      List (ℕ × ℕ) → ℕ → ℕ → List Sender → World → Option (Run (List Sender))
  open_senders ports p zero senders w = some (returned senders w)
  open_senders ports p (suc n) senders w = do
    port ← get_elem? ports p
    let (s, w') = init_sender port.0 w
    open_senders ports (suc p) n (senders ++ (s ∷ [])) w'

module _ ⦃b : Blocks⦄ ⦃r : Random⦄ where
  -- An instance. Of the pointers, `none` is the null pointer.
  pub record Party : Type 0 where
    pub strings_choices : List Block
    pub strings : List (Block × Block)
    pub bitvector : List ℕ
    pub crypt : Crypto
    pub sub_group_sender : Option (List ℕ)
    pub sub_group_recv : Option (List ℕ)
    pub big_r_sender : Option (List ℕ)
    pub big_r_recv : Option (List ℕ)
    pub func_sender : Option (List ℕ)
    pub func_recv : Option (List ℕ)

  -- The constructor. `crypt` is the new source, `crypto(m_nSecParam,constSeed)`.
  unfoldable pub new_party : Common → ℕ → Crypto → Option Party
  new_party common num_of_ones crypt = do
    (bits, crypt') ← draw_choices common.not num_of_ones crypt
    some (record {
      strings_choices = replicate common.not block0;
      strings = replicate common.not (block0, block0);
      bitvector = bits;
      crypt = crypt';
      sub_group_sender = none;
      sub_group_recv = none;
      big_r_sender = none;
      big_r_recv = none;
      func_sender = none;
      func_recv = none;
    })

  module _ ⦃c : SystemCalls⦄ where
    -- An instance of P0, with the socket on which it serves its party.
    pub record P0 : Type 0 where
      pub party : Party
      pub s : Sender

    unfoldable pub new_p0 : Common → ℕ → ℕ → Crypto → World → Option (P0 × World)
    new_p0 common port num_of_ones crypt w = do
      party ← new_party common num_of_ones crypt
      let (s, w') = init_sender port w
      some (record { party = party; s = s }, w')

    -- `creating_p0_instance`, and the loop of `main` that starts it for the parties `i` and later, `n`
    -- of them: instance `i-1` serves party `i`. Each thread writes its own entry of the vector.
    unfoldable pub creating_p0_instance :
        Common → ℕ → ℕ → ℕ → Crypto → List (Option P0) × World → Option (List (Option P0) × World)
    creating_p0_instance common party port num_of_ones crypt s = do
      made ← new_p0 common port num_of_ones crypt s.1
      p0_s ← store s.0 party (some made.0)
      some (p0_s, made.1)

    -- A Pi, with the sockets to P0 and to the other parties.
    pub record Pi : Type 0 where
      pub party : Party
      pub recv : Receiver
      pub senders : List Sender
      pub receivers : List Receiver
      pub player : ℕ
      pub parties : ℕ

    -- The constructor: first the socket to P0, then those to the lower parties and to the higher.
    unfoldable pub new_pi :
        ℕ → Common → ℕ → Crypto → ℕ → List (ℕ × ℕ) → List Text → ℕ → World → Option (Run Pi)
    new_pi fuel common num_of_ones crypt parties ports ips player w = do
      party ← new_party common num_of_ones crypt
      ip ← get_elem? ips 0
      port ← get_elem? ports 0
      and_then (init_receiver fuel ip port.1 w) λ recv w1.
          and_then (open_receivers fuel ips ports 1 (player - 1) [] w1) λ receivers w2.
            and_then (open_senders ports (suc player) (parties - 1 - player) [] w2) λ senders w3.
              some (
                returned
                  (record {
                    party = party;
                    recv = recv;
                    senders = senders;
                    receivers = receivers;
                    player = player;
                    parties = parties;
                  })
                  w3)
