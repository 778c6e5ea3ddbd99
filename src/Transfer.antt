-- ===== src/Transfer.antt =====
-- The loops of simple/src/Party.cpp that write and read a whole message over partial transfers. Each
-- stands there once for every kind of socket. `write` and `read` are system calls, outside the
-- repository: they are parameters, with what POSIX says of them on a connection without errors.
pub mod Whole
use malicious_mpsi.Base.{
  ℕ, zero, suc, ◌+◌, ◌-◌, ◌^◌, ◌%◌, List, [], ◌++◌, Option, none, some, ◌>>=◌, take, drop, ◌==◌,
  if◌then◌else◌,
}

pub record System : Type 1 where
  pub Socket : Type 0
  -- `write(socket,bytes,n)`: the count that it returns, as an `unsigned long`.
  pub write : List ℕ → Socket → ℕ × Socket
  -- `read(socket,buffer,n)`: the count, and the bytes that it puts into the buffer.
  pub read : ℕ → Socket → ℕ × List ℕ × Socket

-- `a-b` and `a+b` of `unsigned long`.
unfoldable pub sub_64 : ℕ → ℕ → ℕ
sub_64 a b = (a + 2 ^ 64 - b % 2 ^ 64) % 2 ^ 64

unfoldable pub add_64 : ℕ → ℕ → ℕ
add_64 a b = (a + b) % 2 ^ 64

module _ ⦃y : System⦄ where
  -- The loop of `write_as_a_sender`, on fuel, with the variables `left` and `sum`.
  unfoldable pub write_loop : ℕ → List ℕ → ℕ → ℕ → ℕ → y.Socket → Option (ℕ × y.Socket)
  write_loop zero msg size left sum s = if left == 0 then some (sum, s) else none
  write_loop (suc fuel) msg size left sum s =
      let (n, s') = y.write (take left (drop (size - left) msg)) s in
      let rest = write_loop fuel msg size (sub_64 left n) (add_64 sum n) s' in
      if left == 0 then some (sum, s) else rest

  -- `write_as_a_sender(msg,size)`. A call that makes progress needs `size` rounds at most.
  unfoldable pub write_all : List ℕ → ℕ → y.Socket → Option (ℕ × y.Socket)
  write_all msg size s = write_loop size msg size size 0 s

  -- The loop of `read_as_a_receiver`. `got` is the part of the buffer that has been filled.
  pub read_loop : ℕ → ℕ → ℕ → List ℕ → y.Socket → Option (ℕ × List ℕ × y.Socket)
  read_loop zero left sum got s = if left == 0 then some (sum, got, s) else none
  read_loop (suc fuel) left sum got s =
      let (n, bytes, s') = y.read left s in
      let rest = read_loop fuel (sub_64 left n) (add_64 sum n) (got ++ bytes) s' in
      if left == 0 then some (sum, got, s) else rest

  pub read_all : ℕ → y.Socket → Option (ℕ × List ℕ × y.Socket)
  read_all size s = read_loop size size 0 [] s

  -- The two sockets of a party that its transfers use: `s.connect_sock` and `recv.sock`.
  pub record Connections : Type 0 where
    pub connect_sock : y.Socket
    pub sock : y.Socket

  pub write_as_a_sender : List ℕ → ℕ → Connections → Option (ℕ × Connections)
  write_as_a_sender msg size c = do
    (sum, s) ← write_all msg size c.connect_sock
    some (sum, record c { connect_sock = s })

  pub read_as_a_sender : ℕ → Connections → Option (ℕ × List ℕ × Connections)
  read_as_a_sender size c = do
    (sum, msg, s) ← read_all size c.connect_sock
    some (sum, msg, record c { connect_sock = s })

  pub write_as_a_receiver : List ℕ → ℕ → Connections → Option (ℕ × Connections)
  write_as_a_receiver msg size c = do
    (sum, s) ← write_all msg size c.sock
    some (sum, record c { sock = s })

  pub read_as_a_receiver : ℕ → Connections → Option (ℕ × List ℕ × Connections)
  read_as_a_receiver size c = do
    (sum, msg, s) ← read_all size c.sock
    some (sum, msg, record c { sock = s })
