-- ===== src/Sockets.antt =====
-- `init_sender` and `init_receiver` in simple/src/Party.cpp, over the system calls, which are outside
-- the repository: operations on a state of the system, with the results that the code looks at.
pub mod Calls
pub mod Facts
use malicious_mpsi.Base.{
  ℕ, zero, suc, ◌%◌, ◌≡◌, Bool, true, false, Option, none, some, if◌then◌else◌, ◌>>=◌,
}
use malicious_mpsi.Config.{ℤ, pos, negsuc, Text}

pub record SystemCalls : Type 1 where
  pub World : Type 0
  -- `socket(AF_INET,SOCK_STREAM,0)`
  pub socket : World → ℤ × World
  -- `bind(sock,name)`, for any address of this machine and a port
  pub bind : ℤ → ℕ → World → ℤ × World
  -- `listen(sock,1)`
  pub listen : ℤ → World → World
  pub accept : ℤ → World → ℤ × World
  -- `connect(sock,name)`, for an address and a port
  pub connect : ℤ → Text → ℕ → World → ℤ × World
  pub close : ℤ → World → World
  -- `perror`
  pub report : World → World

-- `x<0`
unfoldable pub is_negative : ℤ → Bool
is_negative (pos n) = false
is_negative (negsuc n) = true

-- `htons(port)`, a number of 16 bits.
unfoldable pub port_16 : ℕ → ℕ
port_16 port = port % 65536

pub record Sender : Type 0 where
  pub sock : ℤ
  pub connect_sock : ℤ
  pub serv_port : ℕ

pub record Receiver : Type 0 where
  pub sock : ℤ
  pub cli_ip : Text
  pub cli_port : ℕ

module _ ⦃c : SystemCalls⦄ where
  abbrev pub World : Type 0
  World = c.World

  -- What comes of a function that may call `exit(1)`.
  pub data Run (A : Type 0) : Type 0 where
    returned : A → World → Run A
    exited : World → Run A

  -- What follows such a function.
  unfoldable pub and_then :
      {A : Type 0} {B : Type 0} → Option (Run A) → (A → World → Option (Run B)) → Option (Run B)
  and_then none f = none
  and_then (some (returned x w)) f = f x w
  and_then (some (exited w)) f = some (exited w)

  -- `if (x < 0) perror(...)`
  unfoldable pub report_if : Bool → World → World
  report_if bad w = if bad then c.report w else w

  -- The server's socket. An error is reported, and the function goes on with it.
  unfoldable pub init_sender : ℕ → World → Sender × World
  init_sender port w =
      let (sock, w1) = c.socket w in
      let (bound, w2) = c.bind sock (port_16 port) (report_if (is_negative sock) w1) in
      let (connect_sock, w3) = c.accept sock (c.listen sock (report_if (is_negative bound) w2)) in
      (record { sock = sock; connect_sock = connect_sock; serv_port = port_16 port }, w3)

  -- `while (flag) if (connect(...) >= 0) flag=0;`, on fuel: `none` means that it has run out.
  unfoldable pub connect_loop : ℕ → ℤ → Text → ℕ → World → Option World
  connect_loop zero sock ip port w = none
  connect_loop (suc fuel) sock ip port w =
      let (result, w') = c.connect sock ip port w in
      let again = connect_loop fuel sock ip port w' in if is_negative result then again else some w'

  -- The client's socket: without a socket the process exits.
  unfoldable pub init_receiver : ℕ → Text → ℕ → World → Option (Run Receiver)
  init_receiver fuel ip port w =
      let (sock, w1) = c.socket w in
      let connected = connect_loop fuel sock ip (port_16 port) w1 in
      let made : Receiver = record { sock = sock; cli_ip = ip; cli_port = port_16 port } in
      if is_negative sock
      then some (exited (c.close sock (c.report w1)))
      else (connected >>= λ w2. some (returned made w2))
