-- ===== src/Tests/Start.antt =====
-- The start of a session of three parties, on a system where every second call of `connect` fails.
use malicious_mpsi.Base.{
  ◌∈◌, inl, inr, ℕ, zero, suc, ◌≤◌, ◌<◌, ◌≡◌, ◌≢◌, refl, Bool, true, false, List, [], ◌∷◌, Option,
  none, some, arith, map, length, All, Gives, ◌⊎◌, ◌↔◌, ◌==◌, if◌then◌else◌,
}
use malicious_mpsi.Config.{ℤ, pos, negsuc, Text}
use malicious_mpsi.Config.Lines.{join, IsFree}
use malicious_mpsi.Config.Files.{line_of, setting}
use malicious_mpsi.Exchange.{set_ports}
use malicious_mpsi.Samples.{nibbles, counter}
use malicious_mpsi.Sockets.{
  SystemCalls, World, init_receiver, connect_loop, is_negative, port_16, returned,
}
use malicious_mpsi.Sockets.Facts.{
  Fact, bound, listening, serving, connected, Keeps, Network, IsWelcoming,
}
use malicious_mpsi.Sockets.Calls.{after_calls, fails, init_receiver_lem}
use malicious_mpsi.Party.{Common, set_common, new_pi}
use malicious_mpsi.Party.Opened.{Returns, IsServing}
use malicious_mpsi.Party.Routes.{IsOpened, new_pi_lem}
use malicious_mpsi.Start.{Settings, Seeding, start, start_p0}
use malicious_mpsi.Start.Decimal.{decimal}
use malicious_mpsi.Start.Reading.{Numbers, entries_of, start_lem}
use malicious_mpsi.Start.Instances.{IsMade, start_p0_lem}
use malicious_mpsi.Start.Seeds.{Source, of_p0, of_party, seed_of, Shared, seeds_lem}

-- The state: whether the last call of `connect` has failed, which socket has which port, and which
-- is connected to which port of which address.
abbrev pub Ports : Type 0
Ports = List (ℤ × ℕ)

abbrev pub Targets : Type 0
Targets = List (ℤ × Text × ℕ)

abbrev pub connecting : ℤ → Text → ℕ → Bool × Ports × Targets → ℤ × (Bool × Ports × Targets)
connecting sock ip port (true, ports, targets) = (pos 0, (false, ports, (sock, ip, port) ∷ targets))
connecting sock ip port (false, ports, targets) = (negsuc 0, (true, ports, targets))

instance abbrev pub flaky : SystemCalls
flaky = record {
  World = Bool × Ports × Targets;
  socket = λ w. (pos 3, w);
  bind = λ sock port w. (pos 0, (w.0, (sock, port) ∷ w.1, w.2));
  listen = λ sock w. w;
  accept = λ sock w. (pos 4, w);
  connect = connecting;
  close = λ sock w. w;
  report = λ w. w;
}

abbrev pub fresh : World
fresh = (false, [], [])

abbrev Holds : World → Fact → Type 0
Holds w (bound sock port) = (sock, port) ∈ w.1
Holds w (listening sock port) = (sock, port) ∈ w.1
Holds w (serving sock port) = (server : ℤ) × ((server, port) ∈ w.1)
Holds w (connected sock ip port) = (sock, ip, port) ∈ w.2

bind-Keeps : (entry : ℤ × ℕ) (w : World) → Keeps Holds w (w.0, entry ∷ w.1, w.2)
bind-Keeps entry w (bound sock port) h = inr h
bind-Keeps entry w (listening sock port) h = inr h
bind-Keeps entry w (serving sock port) (server, h) = (server, inr h)
bind-Keeps entry w (connected sock ip port) h = h

connect-Keeps :
    (sock : ℤ) (ip : Text) (port : ℕ) (w : World) → Keeps Holds w (connecting sock ip port w).1
connect-Keeps s a p (true, ports, targets) (bound sock port) h = h
connect-Keeps s a p (true, ports, targets) (listening sock port) h = h
connect-Keeps s a p (true, ports, targets) (serving sock port) h = h
connect-Keeps s a p (true, ports, targets) (connected sock ip port) h = inr h
connect-Keeps s a p (false, ports, targets) (bound sock port) h = h
connect-Keeps s a p (false, ports, targets) (listening sock port) h = h
connect-Keeps s a p (false, ports, targets) (serving sock port) h = h
connect-Keeps s a p (false, ports, targets) (connected sock ip port) h = h

connecting-connected :
    (sock : ℤ) (ip : Text) (port : ℕ) (w : World)
    → is_negative (connecting sock ip port w).0 ≡ false
    → Holds (connecting sock ip port w).1 (connected sock ip port)
unfolding is_negative
connecting-connected sock ip port (true, ports, targets) e = inl refl
connecting-connected sock ip port (false, ports, targets) e = cc

flaky-Network : Network Holds
flaky-Network = record {
  binds = λ sock port w e. inl refl;
  listens = λ sock port w h. h;
  accepts = λ sock port w h e. (sock, h);
  connects = connecting-connected;
  socket_keeps = λ w f h. h;
  bind_keeps = λ sock port w. bind-Keeps (sock, port) w;
  listen_keeps = λ sock w f h. h;
  accept_keeps = λ sock w f h. h;
  connect_keeps = connect-Keeps;
  report_keeps = λ w f h. h;
}

fails_once : (j : ℕ) → j < 1 → fails j (pos 3) (49 ∷ []) (port_16 8001) fresh ≡ true
unfolding is_negative
fails_once zero h = refl
fails_once (suc j) h = absurd (omega arith)

then_succeeds : fails 1 (pos 3) (49 ∷ []) (port_16 8001) fresh ≡ false
unfolding is_negative
then_succeeds = refl

sock_given : is_negative (pos 3) ≡ false
unfolding is_negative
sock_given = refl

init_receiver_example :
    (init_receiver 5 (49 ∷ []) 8001 fresh
      ≡ some (
          returned
            (record { sock = pos 3; cli_ip = 49 ∷ []; cli_port = port_16 8001 })
            (after_calls 2 (pos 3) (49 ∷ []) (port_16 8001) fresh)))
    × (init_receiver 1 (49 ∷ []) 8001 fresh ≡ none)
init_receiver_example =
    init_receiver_lem (49 ∷ []) 8001 1 5 fresh sock_given (omega arith) fails_once then_succeeds

connects_twice :
    (sock : ℤ) (ip : Text) (port : ℕ) (w : World)
    → (w' : World) × (connect_loop 2 sock ip port w ≡ some w')
unfolding connect_loop is_negative
connects_twice sock ip port (true, ports, targets) = (_, refl)
connects_twice sock ip port (false, ports, targets) = (_, refl)

pub flaky-IsServing : IsServing 2
flaky-IsServing = record { gives_sockets = λ w. sock_given; connects = connects_twice }

flaky-IsWelcoming : IsWelcoming
unfolding is_negative
flaky-IsWelcoming = record { can_bind = λ sock port w. refl; can_accept = λ sock w. refl }

abbrev pub addresses : List (Text × ℕ)
addresses = ((49 ∷ []), 13) ∷ ((50 ∷ []), 13) ∷ ((51 ∷ 52 ∷ []), 13) ∷ []

abbrev pub ips : List Text
ips = map (λ e. e.0) addresses

-- Eight OTs with three ones, over filters of four bits.
abbrev common : Common
common = set_common (pos 7 ∷ pos 12 ∷ []) 2 4 8 2 16 1 2

abbrev settings : Settings
settings = record {
  common = common;
  num_of_ones = 3;
  ips = ips;
  parties = 3;
  ports = set_ports 0 3;
}

few : 3 ≤ common.not
unfolding set_common
few = omega arith

-- Party 2 has a receiver for party 1, and none to send to.
new_pi_example :
    Returns (IsOpened Holds 3 ips common 3 2) (new_pi 2 common 3 7 3 (set_ports 2 3) ips 2 fresh)
new_pi_example =
    new_pi_lem Holds 2 common 3 7 3 2 ips fresh flaky-Network flaky-IsServing flaky-IsWelcoming few
      (omega arith) (omega arith) (omega arith)

instance abbrev pub seeded : Seeding
seeded = record { new_crypto = λ bits seed. seed }

start_p0_example :
    ((3 ≤ 65)
      × Gives
          (λ x. (length x.0 ≡ 2) × ((i : ℕ) → suc i < 3 → IsMade Holds 3 common 3 x i))
          (start_p0 settings fresh))
    ⊎ ((65 < 3) × (start_p0 settings fresh ≡ none))
start_p0_example =
    start_p0_lem Holds settings fresh flaky-Network flaky-IsWelcoming few (omega arith) refl

differ : ◌≢◌ {A = Source} of_p0 (of_party 15)
differ e = cc

seeds_example :
    (seed_of of_p0 ≡ seed_of (of_party 15))
    ↔ (Shared of_p0 (of_party 15) ⊎ Shared (of_party 15) of_p0)
seeds_example = seeds_lem 16 of_p0 (of_party 15) (omega arith) tt (omega arith) differ

abbrev numbers : Numbers
numbers = record { seeds = 2; nbf = 4; not = 8; num_of_ones = 3; nc = 2; max_ones = 1 }

abbrev items : List ℕ
items = 7 ∷ 12 ∷ []

abbrev read : Text → Option Text
read [] = none
read (c ∷ cs) =
    if c == b'd'
    then some (join b',' (map (decimal 10) items))
    else some (join 10 (map line_of addresses))

addresses-IsFree : All (λ e. IsFree 10 (line_of e)) addresses
addresses-IsFree = omega arith

start_example :
    start read
      (some (join 10 (map setting (entries_of (λ i. b'x' ∷ []) numbers (b'd' ∷ []) (b'i' ∷ [])))))
      0
    ≡ some settings
unfolding set_common
start_example =
    start_lem read (λ i. b'x' ∷ []) numbers (b'd' ∷ []) (b'i' ∷ []) items addresses 0 (omega arith)
      (λ i. (λ e. absurd (omega arith), tt)) (λ i. (λ e. absurd (omega arith), tt))
      (λ e. absurd (omega arith), tt) (λ e. absurd (omega arith), tt) (omega arith) addresses-IsFree
      refl refl
