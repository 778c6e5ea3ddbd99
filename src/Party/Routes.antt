-- ===== src/Party/Routes.antt =====
-- Over which sockets a Pi reaches the other parties.
use mathlib.Core.Option.{some-injective}
use malicious_mpsi.Base.{
  ℕ, zero, suc, ◌+◌, ◌-◌, ◌≤◌, ◌<◌, ◌≡◌, ◌≢◌, refl, sym, subst, ◌∙◌, ap, List, [], some, arith,
  length, get_elem?, Gives-value, inl, inr, ◌⊎◌,
}
use malicious_mpsi.Block.{Blocks}
use malicious_mpsi.Random.{Random, Crypto}
use malicious_mpsi.Config.{Text}
use malicious_mpsi.Exchange.{set_ports, Route, to_p0, by_receiver, by_sender, route}
use malicious_mpsi.Exchange.Ports.{set_ports_lem, length-set_ports, route_high, route_low}
use malicious_mpsi.Sockets.{SystemCalls, World, Sender, Receiver, port_16}
use malicious_mpsi.Sockets.Facts.{Fact, serving, connected, Network, IsWelcoming}
use malicious_mpsi.Party.{Common, Pi, new_pi}
use malicious_mpsi.Party.Ready.{IsReady, new_party_lem}
use malicious_mpsi.Party.Opened.{
  From, From-at, entry, DialledTo, ServesFor, Extends-empty, returns, Returns, Returns-and_then,
  IsServing, From-map, init_receiver-Returns, open_receivers-Extends, open_senders-Extends,
}

-- The entries of two parties for each other.
pub crosswise :
    (parties player q : ℕ) (port : ℕ × ℕ)
    → player < parties
    → q < parties
    → get_elem? (set_ports player parties) q ≡ some port
    → (other : ℕ × ℕ) × (get_elem? (set_ports q parties) player ≡ some other)
      × (port_16 port.1 ≡ port_16 other.0)
      × (port_16 port.0 ≡ port_16 other.1)
crosswise parties player q port h l e =
    let x = set_ports_lem parties player q player q h l h l in
    let same : port ≡ x.0 = some-injective _ _ (sym e ∙ x.3) in
    (x.1, x.4, ap port_16 (ap (λ t. t.1) same ∙ x.6.1), ap port_16 (ap (λ t. t.0) same ∙ x.6.0))

module _ ⦃c : SystemCalls⦄ (Holds : World → Fact → Type 0) where
  -- The socket of Pi that a message to party `q` goes through, in the state `w`: it is connected to
  -- the address of `q`, to the port on which `q` serves this party, or to a process that has
  -- connected to the port that `q` connects to for this party.
  abbrev pub LeadsTo : ⦃b : Blocks⦄ ⦃r : Random⦄ → ℕ → List Text → World → Pi → ℕ → Route → Type 0
  LeadsTo parties ips w pi q to_p0 =
      (ip : Text) × (port : ℕ × ℕ) × (get_elem? ips q ≡ some ip)
      × (get_elem? (set_ports q parties) pi.player ≡ some port)
      × Holds w (connected pi.recv.sock ip (port_16 port.0))
  LeadsTo parties ips w pi q (by_receiver i) =
      (recv : Receiver) × (ip : Text) × (port : ℕ × ℕ) × (get_elem? pi.receivers i ≡ some recv)
      × (get_elem? ips q ≡ some ip)
      × (get_elem? (set_ports q parties) pi.player ≡ some port)
      × Holds w (connected recv.sock ip (port_16 port.0))
  LeadsTo parties ips w pi q (by_sender i) =
      (s : Sender) × (port : ℕ × ℕ) × (get_elem? pi.senders i ≡ some s)
      × (get_elem? (set_ports q parties) pi.player ≡ some port)
      × Holds w (serving s.connect_sock (port_16 port.1))

  module _ ⦃b : Blocks⦄ ⦃r : Random⦄ where
    pub record IsOpened (parties : ℕ) (ips : List Text) (common : Common) (num_of_ones player : ℕ)
        (pi : Pi) (w : World) : Type 0 where
      pub ready : IsReady common.not num_of_ones pi.party
      pub own : pi.player ≡ player
      pub leads : (q : ℕ) → q < parties → q ≢ player → LeadsTo parties ips w pi q (route player q)

    -- What the constructor leaves.
    record HasSockets (parties player : ℕ) (ips : List Text) (w : World) (pi : Pi) : Type 0 where
      own : pi.player ≡ player
      to_p0_at : DialledTo Holds ips (set_ports player parties) w 0 pi.recv
      receivers_size : length pi.receivers ≡ player - 1
      receivers_at : From (DialledTo Holds ips (set_ports player parties) w) 1 pi.receivers
      senders_size : length pi.senders ≡ parties - 1 - player
      senders_at : From (ServesFor Holds (set_ports player parties) w) (suc player) pi.senders

    leads_at :
        (parties player q : ℕ) (ips : List Text) (w : World) (pi : Pi)
        → HasSockets parties player ips w pi
        → player < parties
        → q < parties
        → q ≢ player
        → LeadsTo parties ips w pi q (route player q)
    leads_at parties player zero ips w pi x l k ne =
        let (ip, port, i, e, at) = x.to_p0_at in
        let (other, f, y, z) = crosswise parties player 0 port l k e in
        (ip, other, i, rw x.own f, rw⁻¹ y at)
    leads_at parties player (suc q) ips w pi x l k ne = elim (order player (suc q)) [
      | inl high ↦
          let table = set_ports player parties in
          let (s, e, made) =
            From-at (ServesFor Holds table w) (suc player) (suc q - player - 1) pi.senders
              x.senders_at (omega (arith, x.senders_size)) in
          let (port, f, at) =
            subst (λ j. ServesFor Holds table w j s) (later (suc q) player high) made in
          let (other, g, y, z) = crosswise parties player (suc q) port l k f in
          rw (route_high player (suc q) high) (s, other, e, rw x.own g, rw⁻¹ z at)
      | inr low ↦
          let table = set_ports player parties in
          let (recv, e, made) =
            From-at (DialledTo Holds ips table w) 1 q pi.receivers x.receivers_at
              (omega (arith, x.receivers_size)) in
          let (ip, port, i, f, at) =
            subst (λ j. DialledTo Holds ips table w j recv) (first q) made in
          let (other, g, y, z) = crosswise parties player (suc q) port l k f in
          rw (route_low player (suc q) (omega arith) (omega arith), pred q)
            (recv, ip, other, e, i, rw x.own g, rw⁻¹ y at)
    ]
      where
        order : (a b : ℕ) → (a < b) ⊎ (b ≤ a)
        order a b = ground arith

        later : (a b : ℕ) → b < a → suc b + (a - b - 1) ≡ a
        later a b h = omega arith

        first : (a : ℕ) → 1 + a ≡ suc a
        first a = omega arith

        pred : (a : ℕ) → suc a - 1 ≡ a
        pred a = omega arith

    -- Over a system whose calls do what POSIX says of them, with sockets to give, where each loop of
    -- calls of `connect`, each `bind` and each `accept` succeeds, the constructor of Pi returns. The
    -- party is ready for its OTs; and in the state that it leaves, the socket that a message to
    -- another party goes through is connected to that party's address, to the port on which it serves
    -- this one, or to a process that has connected to the port to which that party connects for this
    -- one; all ports are cut to 16 bits.
    pub new_pi_lem :
        (fuel : ℕ) (common : Common) (num_of_ones : ℕ) (crypt : Crypto) (parties player : ℕ)
        (ips : List Text) (w : World)
        → Network Holds
        → IsServing fuel
        → IsWelcoming
        → num_of_ones ≤ common.not
        → 0 < player
        → player < parties
        → parties ≤ length ips
        → Returns
            (IsOpened parties ips common num_of_ones player)
            (new_pi fuel common num_of_ones crypt parties (set_ports player parties) ips player w)
    unfolding new_pi
    new_pi_lem fuel common num_of_ones crypt parties player ips w net up welcome h p l long =
        let (party, e, ready) = Gives-value (new_party_lem common num_of_ones crypt h) in
        let (ip, k) = entry ips 0 (omega arith) in
        let table = set_ports player parties in
        let sized : length table ≡ parties = length-set_ports player parties in
        let (port, f) = entry table 0 (omega arith) in
        rw (e, k, f)
          (Returns-and_then (init_receiver-Returns Holds net fuel up welcome ip port.1 w)
            λ recv w1 x.
              Returns-and_then
                (open_receivers-Extends Holds net fuel up welcome ips table 1 (player - 1) [] w1
                  (omega arith) (omega arith))
                λ receivers w2 y.
                  Returns-and_then
                    (open_senders-Extends Holds net fuel up welcome table (suc player)
                      (parties - 1 - player) [] w2 (omega arith))
                    λ senders w3 z.
                      let (sr, fr) = Extends-empty _ 1 (player - 1) receivers y.0 in
                      let (ss, fs) =
                        Extends-empty _ (suc player) (parties - 1 - player) senders z.0 in
                      let made : Pi = record {
                        party = party;
                        recv = recv;
                        senders = senders;
                        receivers = receivers;
                        player = player;
                        parties = parties;
                      } in
                      returns (record {
                        ready = ready;
                        own = refl;
                        leads = λ q lt ne.
                            leads_at parties player q ips w3 made
                              (record {
                                own = refl;
                                to_p0_at = (ip, port, k, f, z.1 _ (y.1 _ x.0));
                                receivers_size = sr;
                                receivers_at =
                                    From-map _ _ 1 receivers
                                      (λ j d t. (t.0, t.1, t.2, t.3, z.1 _ t.4)) fr;
                                senders_size = ss;
                                senders_at = fs;
                              })
                              l lt ne;
                      }))
