-- ===== src/Wire.antt =====
-- The messages of an exchange as bytes: `send_sub_group`, `recv_C`, `send_R_r`, `recv_R`, `send_func`
-- and `recv_func` in simple/src/Party.cpp. An `int` is 4 bytes, the lowest first, and the code only
-- sends ints that are not negative. Both sides return the number of bytes.
pub mod Trips
use malicious_mpsi.Base.{
  ℕ, zero, suc, ◌+◌, ◌*◌, ◌/◌, ◌%◌, List, [], ◌∷◌, ◌++◌, ◌≡◌, Option, none, some, length, leb, take,
  drop, if◌then◌else◌, ◌>>=◌,
}
use malicious_mpsi.Block.{Blocks, Block}
use malicious_mpsi.Bloom.{Cipher}
use malicious_mpsi.Approt.{recv_c}

-- How a block of cryptoTools lies in memory: 16 bytes, from which it can be read back.
pub record Layout ⦃b : Blocks⦄ : Type 0 where
  pub to_bytes : Block → List ℕ
  pub of_bytes : List ℕ → Block
  pub bytes_size : (x : Block) → length (to_bytes x) ≡ 16
  pub of_to : (x : Block) → of_bytes (to_bytes x) ≡ x

-- The bytes that wait in a socket.
abbrev pub Bytes : Type 0
Bytes = List ℕ

pub write_int : ℕ → Bytes
write_int n = n % 256 ∷ n / 256 % 256 ∷ n / 65536 % 256 ∷ n / 16777216 % 256 ∷ []

-- `read_as_a_sender(&n,sizeof(int))`. A read of bytes that never come does not return.
pub read_int : Bytes → Option (ℕ × Bytes)
read_int [] = none
read_int (a ∷ []) = none
read_int (a ∷ b ∷ []) = none
read_int (a ∷ b ∷ c ∷ []) = none
read_int (a ∷ b ∷ c ∷ d ∷ rest) = some (a + 256 * b + 65536 * c + 16777216 * d, rest)

-- An array of ints, `sizeof(int)*n` bytes.
pub write_ints : List ℕ → Bytes
write_ints [] = []
write_ints (x ∷ xs) = write_int x ++ write_ints xs

pub read_ints : ℕ → Bytes → Option (List ℕ × Bytes)
read_ints zero bytes = some ([], bytes)
read_ints (suc n) bytes = do
  (x, bytes1) ← read_int bytes
  (xs, bytes2) ← read_ints n bytes1
  some (x ∷ xs, bytes2)

-- `send_func`, with the number that it returns.
pub send_func : List ℕ → Bytes × ℕ
send_func func_recv = (write_ints func_recv, 4 * length func_recv)

pub recv_func : ℕ → Bytes → Option (List ℕ × ℕ × Bytes)
recv_func nbf bytes = do
  (func_sender, rest) ← read_ints nbf bytes
  some (func_sender, 4 * nbf, rest)

module _ ⦃b : Blocks⦄ ⦃l : Layout⦄ where
  pub read_block : Bytes → Option (Block × Bytes)
  read_block bytes =
      if leb 16 (length bytes) then some (l.of_bytes (take 16 bytes), drop 16 bytes) else none

  -- `send_sub_group`: the size of the group and the seed that it is drawn from.
  pub send_sub_group : ℕ → Block → Bytes × ℕ
  send_sub_group nc seed = (write_int nc ++ l.to_bytes seed, 4 + 16)

  -- `recv_C`, which draws the group again.
  pub recv_group : ⦃c : Cipher⦄ → ℕ → Bytes → Option (List ℕ × ℕ × Bytes)
  recv_group not bytes = do
    (nc, bytes1) ← read_int bytes
    (seed, bytes2) ← read_block bytes1
    sub_group ← recv_c not nc seed
    some (sub_group, 4 + 16, bytes2)

  pub send_big_r : List ℕ → Block → Bytes × ℕ
  send_big_r big_r r =
      (write_int (length big_r) ++ (write_ints big_r ++ l.to_bytes r), 4 + 4 * length big_r + 16)

  pub recv_big_r : Bytes → Option (List ℕ × Block × ℕ × Bytes)
  recv_big_r bytes = do
    (nr, bytes1) ← read_int bytes
    (big_r, bytes2) ← read_ints nr bytes1
    (r, bytes3) ← read_block bytes2
    some (big_r, r, 4 + 4 * nr + 16, bytes3)
