-- ===== src/Ote.antt =====
-- `TwoChooseOne` in simple/src/kos.cpp: the OTs of two parties over libOTe, which is outside the
-- repository. The function runs in two processes, in one as the sender and in the other as the
-- receiver; the model runs both sides.
pub mod Agreement
pub mod Direction
use malicious_mpsi.Base.{
  ◌==◌, if◌then◌else◌, ℕ, zero, suc, ◌≡◌, List, [], ◌∷◌, ◌++◌, Option, none, some, get_elem?,
  length, store, map, range, ◌>>=◌,
}
use malicious_mpsi.Block.{Blocks, Block}
use malicious_mpsi.Random.{Random}
use malicious_mpsi.Choose.Opening.{IsOt}
use malicious_mpsi.Bloom.{Cipher}
use malicious_mpsi.Wire.{Layout}
use malicious_mpsi.Approt.{Session, aborting, Prepared}
use malicious_mpsi.Approt.Offline.{offline_apport}
use malicious_mpsi.Config.{Text}
use malicious_mpsi.Sockets.{
  SystemCalls, World, Sender, Receiver, Run, returned, exited, and_then, init_sender, init_receiver,
}
use malicious_mpsi.Party.{Common, Party}

-- What the code uses of libOTe. `Link` is a session of two processes with the random sources of both,
-- and an extender is one whose base OTs are set.
pub record LibOte ⦃b : Blocks⦄ : Type 1 where
  pub Link : Type 0
  pub OtSender : Type 0
  pub OtReceiver : Type 0
  -- `bv.randomize(prng)`, 128 bits.
  pub random_bits : Link → List ℕ
  -- `base.send(baseMsg)` in one process against `base.receive(bv,baseMsg)` in the other.
  pub base_ots : Link → List ℕ → List (Block × Block) × List Block
  -- `setBaseOts(baseMsg,bv)` and `setBaseOts(baseMsg)`
  pub set_base_sender : List Block → List ℕ → OtSender
  pub set_base_receiver : List (Block × Block) → OtReceiver
  -- `splitBase()`: the new extender, and the old one after it.
  pub split_sender : OtSender → OtSender × OtSender
  pub split_receiver : OtReceiver → OtReceiver × OtReceiver
  -- `send(msgs)` against `receive(choice,msgs)`, for the size of `msgs`.
  pub random_ots : OtSender → OtReceiver → ℕ → List ℕ → List (Block × Block) × List Block
  -- The extenders come from the same base OTs by the same splits.
  pub Matched : OtSender → OtReceiver → Type 0
  pub random_bits_size : (l : Link) → length (random_bits l) ≡ 128
  pub base_ots-IsOt :
      (l : Link) (bv : List ℕ) → length bv ≡ 128 → IsOt 128 (base_ots l bv).0 bv (base_ots l bv).1
  pub set_base-Matched :
      (pairs : List (Block × Block)) (bv : List ℕ) (received : List Block)
      → IsOt 128 pairs bv received
      → Matched (set_base_sender received bv) (set_base_receiver pairs)
  pub split-Matched :
      (s : OtSender) (r : OtReceiver)
      → Matched s r
      → Matched (split_sender s).0 (split_receiver r).0
        × Matched (split_sender s).1 (split_receiver r).1
  -- Of matched extenders, the receiver gets of each pair the string that its choice bit names.
  pub random_ots-IsOt :
      (s : OtSender) (r : OtReceiver) (n : ℕ) (choice : List ℕ)
      → Matched s r
      → length choice ≡ n
      → IsOt n (random_ots s r n choice).0 choice (random_ots s r n choice).1

-- `for (i = 1; i < numThreads; ++i) extenders[i] = extenders[0].splitBase();` for `n` rounds: the
-- first extender as it is after them, and the others.
unfoldable pub split_base : {E : Type 0} → (E → E × E) → ℕ → E → List E → E × List E
split_base split zero first others = (first, others)
split_base split (suc n) first others =
    split_base split n (split first).1 (others ++ ((split first).0 ∷ []))

-- `numThreads` extenders.
unfoldable pub extenders : {E : Type 0} → (E → E × E) → ℕ → E → List E
extenders split zero e = []
extenders split (suc n) e = let (first, others) = split_base split n e [] in first ∷ others

-- The threads write to the same `msgs`, element by element and at the same time. `writes` is the order
-- of the writes, the thread and the place of each; `outcome i` is what the library gives thread `i`.
unfoldable pub write_msgs :
    {A : Type 0} → (ℕ → Option (List A)) → List (ℕ × ℕ) → List A → Option (List A)
write_msgs outcome [] msgs = some msgs
write_msgs outcome ((i, t) ∷ writes) msgs = do
  results ← outcome i
  x ← get_elem? results t
  u ← store msgs t x
  write_msgs outcome writes u

-- The writes of a single thread to `n` elements.
unfoldable pub single_thread : ℕ → List (ℕ × ℕ)
single_thread n = map (λ t. (0, t)) (range 0 n)

module _ ⦃y : SystemCalls⦄ where
  -- `if (player!=0) party->init_sender(ports[other_player][0]);`
  unfoldable pub serve_receiver : List (ℕ × ℕ) → ℕ → ℕ → World → Option (Option Sender × World)
  serve_receiver ports player other_player w = if player == 0 then some (none, w) else (do
    port ← get_elem? ports other_player
    let (s, w') = init_sender port.0 w
    some (some s, w'))

  -- `if (player==0) party->init_receiver(ips[other_player],ports[other_player][1]);`
  unfoldable pub dial_sender :
      ℕ → List Text → List (ℕ × ℕ) → ℕ → ℕ → World → Option (Run (Option Receiver))
  dial_sender fuel ips ports player other_player w =
      if player == 0
      then (do
        ip ← get_elem? ips other_player
        port ← get_elem? ports other_player
        and_then (init_receiver fuel ip port.1 w) λ recv w'. some (returned (some recv) w'))
      else some (returned none w)

  -- `init_receiver` may exit.
  unfoldable pub after_dial :
      {A : Type 0} → Run (Option Receiver) → Option (Session A) → Option (Session A)
  after_dial (returned recv w) next = next
  after_dial (exited w) next = some aborting

  -- One of the two processes of an exchange: its party, its number and tables, and the state of its
  -- system.
  pub record Process ⦃b : Blocks⦄ ⦃r : Random⦄ : Type 0 where
    pub party : Party
    pub player : ℕ
    pub ips : List Text
    pub ports : List (ℕ × ℕ)
    pub world : World

module _ ⦃b : Blocks⦄ ⦃o : LibOte⦄ where
  -- The first extenders. In the base OTs the roles are exchanged: the receiver is their sender.
  unfoldable pub set_base_ots : o.Link → o.OtSender × o.OtReceiver
  set_base_ots link =
      let bv = o.random_bits link in
      let (pairs, received) = o.base_ots link bv in
      (o.set_base_sender received bv, o.set_base_receiver pairs)

  -- The OTs of thread `i`, on channel `i`.
  unfoldable pub routine : o.Link → ℕ → ℕ → List ℕ → ℕ → Option (List (Block × Block) × List Block)
  routine link threads n choice i = do
    s ← get_elem? (extenders o.split_sender threads (set_base_ots link).0) i
    r ← get_elem? (extenders o.split_receiver threads (set_base_ots link).1) i
    some (o.random_ots s r n choice)

  -- What `TwoChooseOne` leaves in the strings of the sender and in those of the receiver.
  unfoldable pub two_choose_one :
      o.Link
      → ℕ
      → List (ℕ × ℕ)
      → List (ℕ × ℕ)
      → List (Block × Block)
      → List ℕ
      → List Block
      → Option (List (Block × Block) × List Block)
  two_choose_one link threads writes_s writes_r strings choice msgs = do
    sent ←
        write_msgs (λ i. routine link threads (length strings) choice i >>= λ x. some x.0) writes_s
          strings
    received ←
        write_msgs (λ i. routine link threads (length strings) choice i >>= λ x. some x.1) writes_r
          msgs
    some (sent, received)

  -- The call in `offline_apport_sender` and `offline_apport_receiver`, with one thread.
  unfoldable pub party_ots : ⦃r : Random⦄ → o.Link → Party → Party → Option (Party × Party)
  party_ots link sender receiver = do
    (sent, received) ←
        two_choose_one link 1 (single_thread (length sender.strings))
          (single_thread (length receiver.strings_choices)) sender.strings receiver.bitvector
          receiver.strings_choices
    some (record sender { strings = sent }, record receiver { strings_choices = received })

  -- One direction of `run_offline_apport`: the sender of one process and the receiver of the other,
  -- with the OTs and the sockets that they begin with. Both have read the same parameters.
  unfoldable pub offline_direction :
      ⦃r : Random⦄ ⦃c : Cipher⦄ ⦃l : Layout⦄ ⦃y : SystemCalls⦄
      → ℕ
      → o.Link
      → Common
      → Process
      → Process
      → Option (Session Prepared)
  offline_direction fuel link common sender receiver = do
    (s, r) ← party_ots link sender.party receiver.party
    served ← serve_receiver sender.ports sender.player receiver.player sender.world
    dialled ←
        dial_sender fuel receiver.ips receiver.ports receiver.player sender.player receiver.world
    after_dial dialled (
        offline_apport common.nbf common.not common.nc_sender common.max_ones r.bitvector
          r.strings_choices s.strings s.crypt r.crypt)
