-- ===== src/Exchange.antt =====
-- Steps 2 and 3: the agreement on a common seed and the secret sharing (`seeds_agreement_pi`,
-- `seeds_agreement_p0`, `set_seed_commit`, `secret_sharing_seed_pi`, `secret_sharing_seed_p0` and
-- `secret_sharing_aes` in simple/src/Functions.cpp), `set_ports`, and the choice of a
-- socket in simple/src/Pi.cpp. The threads of a party write
-- different cells, so the model runs them in the order in which they are started.
pub mod Places
pub mod Seeds
pub mod Streams
pub mod Secret
pub mod Ports
pub mod Messages
pub mod Arrival
use malicious_mpsi.Base.{
  ℕ, zero, suc, ◌+◌, ◌-◌, ◌*◌, ◌≡◌, Bool, true, false, List, [], ◌∷◌, Option, none, some, get_elem?,
  store, map, range, ltb, ◌==◌, if◌then◌else◌, ◌>>=◌, for,
}
use malicious_mpsi.Block.{Blocks, Block, ◌⊕◌, block0}
use malicious_mpsi.Random.{Random, Crypto, gen_block}
use malicious_mpsi.Bloom.{Cipher, ecb_enc_blocks}
use malicious_mpsi.Gbf.{xor_loop}

-- `ports[i][0]` and `ports[i][1]`
pub set_ports : ℕ → ℕ → List (ℕ × ℕ)
set_ports player parties =
    map (λ i. (8000 + i * parties + player, 8000 + player * parties + i)) (range 0 parties)

-- The address of the OTs in which `player` is the receiver, in `offline_apport_receiver`: the text
-- that the code makes of it is `ip:port`.
pub ot_receiver : {A : Type 0} → List A → ℕ → ℕ → Option (A × ℕ)
ot_receiver ips player other_player = do
  ip ← get_elem? ips other_player
  some (ip, if player == 0 then 7000 + other_player * 2 else 7000 + player * 2 + 1)

-- And in which it is the sender, in `offline_apport_sender`.
pub ot_sender : {A : Type 0} → List A → ℕ → ℕ → Option (A × ℕ)
ot_sender ips player other_player = do
  ip ← get_elem? ips player
  some (ip, if player == 0 then 7000 + other_player * 2 + 1 else 7000 + player * 2)

-- The socket of Pi that a message to another party goes through: the one to P0, `receivers[i]` or
-- `senders[i]`.
pub data Route : Type 0 where
  to_p0 : Route
  by_receiver : ℕ → Route
  by_sender : ℕ → Route

-- The branches of `write_to_player`, and of `read_from_player`.
abbrev pub route : ℕ → ℕ → Route
route player other =
    if other == 0
    then to_p0
    else if ltb other player
    then by_receiver (other - 1)
    else by_sender (other - player - 1)

-- The place of party `p` in the arrays of `player`, which has none for itself.
abbrev pub place : ℕ → ℕ → ℕ
place player p = if ltb player p then p - 1 else p

module _ {A : Type 0} where
  -- What the reading threads of Pi leave in the array `recv`: `incoming p` is what party `p` sent.
  unfoldable pub read_pi : ℕ → ℕ → (ℕ → Option A) → List A → Option (List A)
  read_pi parties player incoming = for parties 0 (λ p recv.
      if p == player then some recv else (do x ← incoming p; store recv (place player p) x))

  -- The same for the instances of P0. Instance `p` is connected to party `p + 1`.
  unfoldable pub read_p0 : ℕ → (ℕ → Option A) → List A → Option (List A)
  read_p0 instances incoming = for instances 0 (λ p recv. do x ← incoming (suc p); store recv p x)

-- `Commit` of libOTe, which is outside the repository: a value computed from a block.
pub record Commitments ⦃b : Blocks⦄ : Type 1 where
  pub Commit : Type 0
  -- `Commit(seed)`
  pub commit_to : Block → Commit
  -- `operator!=`
  pub commit_eq : Discrete Commit

module _ ⦃b : Blocks⦄ ⦃o : Commitments⦄ where
  -- A commitment and the seed sent with it.
  abbrev pub Pledge : Type 0
  Pledge = o.Commit × Block

  pub set_seed_commit : ⦃r : Random⦄ → Crypto → Pledge × Crypto
  set_seed_commit crypt = let (seed, crypt') = gen_block crypt in ((o.commit_to seed, seed), crypt')

  -- `while (flag && (j<(parties-1)))`
  unfoldable pub check_commits : List Pledge → Bool
  check_commits [] = true
  check_commits ((commit, seed) ∷ rest) = elim (o.commit_eq commit (o.commit_to seed)) [
    | yes _ ↦ check_commits rest
    | no _ ↦ false
  ]

  -- `seed=seed^seeds_recv[p]`
  unfoldable pub add_seeds : ℕ → List Pledge → Block → Option Block
  add_seeds n recv = for n 0 (λ p seed. do x ← get_elem? recv p; some (seed ⊕ x.1))

  -- The flag, which is only printed, and the common seed. `memory` is the new arrays.
  unfoldable pub seeds_agreement_pi :
      ℕ → ℕ → (ℕ → Option Pledge) → List Pledge → Block → Option (Bool × Block)
  seeds_agreement_pi parties player incoming memory seed = do
    recv ← read_pi parties player incoming memory
    common ← add_seeds (parties - 1) recv seed
    some (check_commits recv, common)

  unfoldable pub seeds_agreement_p0 :
      ℕ → (ℕ → Option Pledge) → List Pledge → Block → Option (Bool × Block)
  seeds_agreement_p0 instances incoming memory seed = do
    recv ← read_p0 instances incoming memory
    common ← add_seeds instances recv seed
    some (check_commits recv, common)

module _ ⦃b : Blocks⦄ where
  -- The keys that Pi draws, from its one source of randomness.
  pub draw_keys : ⦃r : Random⦄ → ℕ → Crypto → List Block × Crypto
  draw_keys zero crypt = ([], crypt)
  draw_keys (suc n) crypt =
      let (key, crypt') = gen_block crypt in
      let (keys, crypt'') = draw_keys n crypt' in (key ∷ keys, crypt'')

  -- The keys that P0 draws, one from the source of each instance.
  pub draw_keys_p0 : ⦃r : Random⦄ → List Crypto → List Block
  draw_keys_p0 [] = []
  draw_keys_p0 (crypt ∷ rest) = (gen_block crypt).0 ∷ draw_keys_p0 rest

  -- The key that `player` sends to party `other`.
  unfoldable pub secret_write : List Block → ℕ → ℕ → Option Block
  secret_write keys player other = get_elem? keys (place player other)

  -- The keys that `player` receives: P0 in `secret_sharing_seed_p0`, Pi in `secret_sharing_seed_pi`.
  unfoldable pub exchange_keys : ℕ → ℕ → (ℕ → Option Block) → List Block → Option (List Block)
  exchange_keys parties player incoming memory =
      if player == 0
      then read_p0 (parties - 1) incoming memory
      else read_pi parties player incoming memory

  module _ ⦃c : Cipher⦄ where
    -- `aes->setKey(key); aes->ecbEncBlocks(plaintexts,Nbf,ciphertexts); r[i]=r[i]^ciphertexts[i]`
    unfoldable pub add_stream : ℕ → List Block → Block → List Block → Option (List Block)
    add_stream nbf plaintexts key r = xor_loop (get_elem? (ecb_enc_blocks key plaintexts)) nbf 0 r

    -- `test->getGBF()` after the call.
    unfoldable pub secret_sharing_aes :
        ℕ → ℕ → List Block → List Block → List Block → Option (List Block)
    secret_sharing_aes parties nbf gbf keys keys_recv = do
      let plaintexts = map (b.to_block 0) (range 0 nbf)
      cleared ← for nbf 0 (λ i r. store r i block0) gbf
      for (parties - 1) 0
          (λ p r. do
            key ← get_elem? keys p
            r1 ← add_stream nbf plaintexts key r
            key_recv ← get_elem? keys_recv p
            add_stream nbf plaintexts key_recv r1)
          cleared

    -- The secret sharing of one party: its reads, and then its cells.
    pub secret_sharing :
        ℕ → ℕ → ℕ → (ℕ → Option Block) → List Block → List Block → List Block → Option (List Block)
    secret_sharing parties nbf player incoming memory gbf keys = do
      keys_recv ← exchange_keys parties player incoming memory
      secret_sharing_aes parties nbf gbf keys keys_recv
