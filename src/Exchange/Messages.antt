-- ===== src/Exchange/Messages.antt =====
-- The threads of steps 2 and 3 that write and read on the sockets of a party: `write_to_player` and
-- `read_from_player` in simple/src/Pi.cpp, and `seeds_pi_write`, `seeds_pi_read`, `seeds_p0_write`,
-- `seeds_p0_read`, `secret_write`, `secret_read`, `secret_write_p0` and `secret_read_p0` in
-- simple/src/Functions.cpp.
use malicious_mpsi.Base.{ℕ, ◌-◌, ◌≡◌, Bool, List, [], ◌∷◌, Option, some, get_elem?, length, ◌>>=◌}
use malicious_mpsi.Block.{Blocks, Block}
use malicious_mpsi.Wire.{Layout}
use malicious_mpsi.Transfer.{System, add_64, write_all, read_all}
use malicious_mpsi.Exchange.{
  Route, to_p0, by_receiver, by_sender, route, Commitments, Pledge, seeds_agreement_pi,
  seeds_agreement_p0,
}

-- How a `Commit` of libOTe lies in memory: `sizeof(Commit)` bytes, from which it can be read back.
pub record CommitLayout ⦃b : Blocks⦄ ⦃o : Commitments⦄ : Type 0 where
  pub commit_size : ℕ
  pub commit_bytes : o.Commit → List ℕ
  pub of_commit_bytes : List ℕ → o.Commit
  pub commit_bytes_size : (x : o.Commit) → length (commit_bytes x) ≡ commit_size
  pub of_commit : (x : o.Commit) → of_commit_bytes (commit_bytes x) ≡ x

-- `mu->lock(); (*data)+=sum; mu->unlock();` of one thread after the other. `order` is the order in
-- which the threads for the parties get the lock.
unfoldable pub add_amounts : (ℕ → Option ℕ) → List ℕ → ℕ → Option ℕ
add_amounts thread [] amount = some amount
add_amounts thread (p ∷ order) amount = do
  sum ← thread p
  add_amounts thread order (add_64 amount sum)

module _ ⦃y : System⦄ where
  -- The sockets of Pi that carry data: `recv.sock`, the `sock` of `receivers` and the `connect_sock`
  -- of `senders`.
  pub record Links : Type 0 where
    pub recv : y.Socket
    pub receivers : List y.Socket
    pub senders : List y.Socket

  -- The socket of a branch of `write_to_player` and of `read_from_player`.
  unfoldable pub socket_of : Links → Route → Option y.Socket
  socket_of links to_p0 = some links.recv
  socket_of links (by_receiver i) = get_elem? links.receivers i
  socket_of links (by_sender i) = get_elem? links.senders i

  module _ ⦃b : Blocks⦄ ⦃l : Layout⦄ where
    -- `secret_write` and `secret_write_p0`, on the socket that they write to.
    unfoldable pub write_key : Block → y.Socket → Option (ℕ × y.Socket)
    write_key key s = write_all (l.to_bytes key) 16 s

    -- `secret_read` and `secret_read_p0`
    unfoldable pub read_key : y.Socket → Option (ℕ × Block × y.Socket)
    read_key s = do (sum, bytes, s') ← read_all 16 s; some (sum, l.of_bytes bytes, s')

    module _ ⦃o : Commitments⦄ ⦃k : CommitLayout⦄ where
      -- `seeds_pi_write` and `seeds_p0_write`: the commitment and then the seed.
      unfoldable pub write_pledge : Pledge → y.Socket → Option (ℕ × y.Socket)
      write_pledge (commit, seed) s = do
        (sum1, s1) ← write_all (k.commit_bytes commit) k.commit_size s
        (sum2, s2) ← write_key seed s1
        some (add_64 sum1 sum2, s2)

      -- `seeds_pi_read` and `seeds_p0_read`
      unfoldable pub read_pledge : y.Socket → Option (ℕ × Pledge × y.Socket)
      read_pledge s = do
        (sum1, bytes, s1) ← read_all k.commit_size s
        (sum2, seed, s2) ← read_key s1
        some (add_64 sum1 sum2, (k.of_commit_bytes bytes, seed), s2)

      unfoldable pub seeds_pi_write : Links → ℕ → Pledge → ℕ → Option (ℕ × y.Socket)
      seeds_pi_write links player pledge p =
          socket_of links (route player p) >>= write_pledge pledge

      unfoldable pub seeds_pi_read : Links → ℕ → ℕ → Option (ℕ × Pledge × y.Socket)
      seeds_pi_read links player p = socket_of links (route player p) >>= read_pledge

      -- Instance `p - 1` is the one that is connected to party `p`.
      unfoldable pub seeds_p0_write : List y.Socket → Pledge → ℕ → Option (ℕ × y.Socket)
      seeds_p0_write p0_s pledge p = get_elem? p0_s (p - 1) >>= write_pledge pledge

      unfoldable pub seeds_p0_read : List y.Socket → ℕ → Option (ℕ × Pledge × y.Socket)
      seeds_p0_read p0_s p = get_elem? p0_s (p - 1) >>= read_pledge

      -- `seeds_agreement_pi` with its threads: the flag and the common seed, `data_send` and
      -- `data_recv`.
      unfoldable pub seeds_exchange_pi :
          ℕ → ℕ → Links → List ℕ → List ℕ → List Pledge → Pledge → Option ((Bool × Block) × ℕ × ℕ)
      seeds_exchange_pi parties player links writes reads memory (commit, seed) = do
        data_send ←
            add_amounts (λ p. seeds_pi_write links player (commit, seed) p >>= λ x. some x.0) writes
              0
        data_recv ← add_amounts (λ p. seeds_pi_read links player p >>= λ x. some x.0) reads 0
        r ←
            seeds_agreement_pi parties player (λ p. seeds_pi_read links player p >>= λ x. some x.1)
              memory seed
        some (r, data_send, data_recv)

      unfoldable pub seeds_exchange_p0 :
          List y.Socket → List ℕ → List ℕ → List Pledge → Pledge → Option ((Bool × Block) × ℕ × ℕ)
      seeds_exchange_p0 p0_s writes reads memory (commit, seed) = do
        bytes_send ←
            add_amounts (λ p. seeds_p0_write p0_s (commit, seed) p >>= λ x. some x.0) writes 0
        bytes_rec ← add_amounts (λ p. seeds_p0_read p0_s p >>= λ x. some x.0) reads 0
        r ←
            seeds_agreement_p0 (length p0_s) (λ p. seeds_p0_read p0_s p >>= λ x. some x.1) memory
              seed
        some (r, bytes_send, bytes_rec)
