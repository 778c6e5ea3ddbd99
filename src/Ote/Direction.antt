-- ===== src/Ote/Direction.antt =====
-- The offline phase of one direction, from two parties as their constructors leave them.
use malicious_mpsi.Base.{
  refl, ne→==, arith, zero, suc, none, Option, ℕ, ◌+◌, ◌-◌, ◌^◌, ◌≤◌, ◌<◌, ◌≡◌, ◌≢◌, Bool, List, [],
  some, length, range, Gives-some,
}
use malicious_mpsi.Block.{Blocks, Block}
use malicious_mpsi.Random.{Random, Crypto}
use malicious_mpsi.Bloom.{Cipher}
use malicious_mpsi.Choose.{Opened, compute_big_r, sort_desc}
use malicious_mpsi.Choose.Moving.{zeros_of}
use malicious_mpsi.Arrange.Rank.{rank}
use malicious_mpsi.Approt.{set_sub_group}
use malicious_mpsi.Wire.{Layout}
use malicious_mpsi.Protocol.{Side}
use malicious_mpsi.Protocol.Online.{Goes}
use malicious_mpsi.Protocol.Pairs.{IsExchange}
use malicious_mpsi.Protocol.Offline.{receiver_of, sender_of, offline_apport_lem}
use malicious_mpsi.Party.{Common, Party}
use malicious_mpsi.Party.Ready.{IsReady}
use malicious_mpsi.Party.Opened.{entry, IsServing}
use malicious_mpsi.Config.{Text}
use malicious_mpsi.Sockets.{
  SystemCalls, World, Sender, Receiver, init_sender, returned, and_then, init_receiver, port_16,
}
use malicious_mpsi.Ote.{
  LibOte, Process, serve_receiver, dial_sender, after_dial, party_ots, offline_direction,
}
use malicious_mpsi.Ote.Agreement.{party_ots_lem}

module _ ⦃b : Blocks⦄ ⦃r : Random⦄ ⦃c : Cipher⦄ ⦃l : Layout⦄ ⦃o : LibOte⦄ where
  -- The check group that the sender draws leaves enough OTs, and has few enough ones.
  pub record LeavesEnough (common : Common) (bits bf sub_group : List ℕ) (s : Opened) : Type 0 where
    pub room : common.nc_sender + common.nbf ≤ common.not
    pub two : (v : Bool) → 2 ≤ rank s.bits v (common.not - length sub_group)
    pub enough : (v : Bool) → rank bf v common.nbf ≤ rank s.bits v (common.not - length sub_group)
    pub opens : zeros_of bits (sort_desc sub_group) ≢ []
    pub fits : common.nc_sender ≤ common.max_ones + length s.big_r

  module _ ⦃y : SystemCalls⦄ where
    serve_receiver-some :
        (ports : List (ℕ × ℕ)) (player other : ℕ) (w : World)
        → other < length ports
        → (x : Option Sender × World) × (serve_receiver ports player other w ≡ some x)
    unfolding serve_receiver
    serve_receiver-some ports zero other w h = ((none, w), refl)
    serve_receiver-some ports (suc p) other w h =
        let (port, e) = entry ports other h in
        (
          (some (init_sender port.0 w).0, (init_sender port.0 w).1),
          rw (ne→== (suc p) 0 (λ z. absurd (omega arith)), e) refl,
        )

    dial_sender-returned :
        (fuel : ℕ) (ips : List Text) (ports : List (ℕ × ℕ)) (player other : ℕ) (w : World)
        → IsServing fuel
        → other < length ips
        → other < length ports
        → (recv : Option Receiver) × (w' : World) × (dial_sender fuel ips ports player other w
            ≡ some (returned recv w'))
    unfolding dial_sender and_then init_receiver
    dial_sender-returned fuel ips ports zero other w up h l =
        let (ip, e) = entry ips other h in
        let (port, f) = entry ports other l in
        let (w', g) = up.connects (y.socket w).0 ip (port_16 port.1) (y.socket w).1 in
        let made : Receiver = record {
          sock = (y.socket w).0;
          cli_ip = ip;
          cli_port = port_16 port.1;
        } in
        (some made, w', rw (e, f, up.gives_sockets w, g) refl)
    dial_sender-returned fuel ips ports (suc p) other w up h l =
        (none, w, rw (ne→== (suc p) 0 (λ z. absurd (omega arith))) refl)

  -- Two processes, the numbers of which are within the tables of each other, whose parties are as the
  -- constructors leave them and whose OTs give `x`, over a system with sockets to give, where each
  -- loop of calls of `connect` succeeds: if the check group that the sender draws leaves enough OTs,
  -- the direction goes on to an exchange that is good in the sense that the whole protocol needs.
  pub offline_direction_lem :
      ⦃y : SystemCalls⦄ (fuel : ℕ) (link : o.Link) (common : Common) (ones_s ones_r : ℕ)
      (sender receiver : Process) (x : Party × Party) (bf new sub_group : List ℕ) (seed : Block)
      (crypt' : Crypto) (s : Opened) (mine other : Side)
      → IsServing fuel
      → receiver.player < length sender.ports
      → sender.player < length receiver.ips
      → sender.player < length receiver.ports
      → 0 < common.not
      → common.not < 2 ^ 32
      → IsReady common.not ones_s sender.party
      → IsReady common.not ones_r receiver.party
      → party_ots link sender.party receiver.party ≡ some x
      → set_sub_group common.not common.nc_sender sender.party.crypt
        ≡ some (sub_group, seed, crypt')
      → compute_big_r sub_group
          (range 0 common.not)
          receiver.party.bitvector
          common.not
          x.1.strings_choices
        ≡ some s
      → LeavesEnough common receiver.party.bitvector bf sub_group s
      → common.nbf ≤ length bf
      → length new ≡ common.nbf
      → Goes
          (λ p.
            (func : List ℕ) × IsExchange common.nbf bf
              (receiver_of mine p new x.1.strings_choices)
              (sender_of other x.0.strings func)
              func)
          (offline_direction fuel link common sender receiver)
  unfolding offline_direction after_dial
  offline_direction_lem fuel link common ones_s ones_r sender receiver x bf new sub_group seed
        crypt' s mine other up in_s in_ips in_r pos small ready_s ready_r e drawn opened enough long
        empty =
      let z =
        Gives-some
          (party_ots_lem link common.not ones_s ones_r sender.party receiver.party ready_s ready_r)
          e in
      let (served, f) =
        serve_receiver-some sender.ports sender.player receiver.player sender.world in_s in
      let (recv, w, g) =
        dial_sender-returned fuel receiver.ips receiver.ports receiver.player sender.player
          receiver.world up in_ips in_r in
      rw (e, f, g, z.same_bits, z.same_sources.0)
        (offline_apport_lem common.nbf common.not common.nc_sender common.max_ones
          receiver.party.bitvector bf new x.1.strings_choices x.0.strings sender.party.crypt crypt'
          x.1.crypt sub_group seed s mine other pos small z.ot drawn enough.room long empty opened
          enough.two enough.enough enough.opens enough.fits)
