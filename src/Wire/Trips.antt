-- ===== src/Wire/Trips.antt =====
-- What is sent is what arrives.
use mathlib.Core.List.{append_assoc}
use mathlib.Core.Option.{some-injective, none-ne-some}
use malicious_mpsi.Base.{
  ℕ, zero, suc, ◌*◌, ◌^◌, ◌<◌, ◌≡◌, refl, sym, ap, List, [], ◌∷◌, ◌++◌, Option, none, some, subst,
  true, arith, length, length-append, leb, take, drop, ◌>>=◌, Within,
}
use malicious_mpsi.Block.{Blocks, Block}
use malicious_mpsi.Random.{Random, Crypto}
use malicious_mpsi.Bloom.{Cipher}
use malicious_mpsi.SubGroup.{get_sub_group}
use malicious_mpsi.Approt.{set_sub_group, recv_c}
use malicious_mpsi.Wire.{
  Layout, Bytes, write_int, read_int, write_ints, read_ints, send_func, recv_func, read_block,
  send_sub_group, recv_group, send_big_r, recv_big_r,
}

read_int-write_int :
    (n : ℕ) (rest : Bytes) → n < 2 ^ 32 → read_int (write_int n ++ rest) ≡ some (n, rest)
unfolding write_int read_int
read_int-write_int n rest h = ap (λ k. some (k, rest)) (omega arith)

read_ints-write_ints :
    (xs : List ℕ) (rest : Bytes)
    → Within (2 ^ 32) xs
    → read_ints (length xs) (write_ints xs ++ rest) ≡ some (xs, rest)
unfolding read_ints write_ints
read_ints-write_ints [] rest h = refl
read_ints-write_ints (x ∷ xs) rest h =
    rw
      (
        append_assoc (write_int x) (write_ints xs) rest,
        read_int-write_int x (write_ints xs ++ rest) h.0,
        read_ints-write_ints xs rest h.1,
      )
      refl

length-write_int : (n : ℕ) → length (write_int n) ≡ 4
unfolding write_int
length-write_int n = refl

length-write_ints : (xs : List ℕ) → length (write_ints xs) ≡ 4 * length xs
unfolding write_ints write_int
length-write_ints [] = refl
length-write_ints (x ∷ xs) = omega (arith, length-write_ints xs)

module _ {ℓ} {A : Type ℓ} where
  pub take-append : (n : ℕ) (xs ys : List A) → length xs ≡ n → take n (xs ++ ys) ≡ xs
  take-append zero [] ys h = refl
  take-append zero (x ∷ xs) ys h = absurd (omega arith)
  take-append (suc n) [] ys h = absurd (omega arith)
  take-append (suc n) (x ∷ xs) ys h = ap (λ t. x ∷ t) (take-append n xs ys (omega arith))

  pub drop-append : (n : ℕ) (xs ys : List A) → length xs ≡ n → drop n (xs ++ ys) ≡ ys
  drop-append zero [] ys h = refl
  drop-append zero (x ∷ xs) ys h = absurd (omega arith)
  drop-append (suc n) [] ys h = absurd (omega arith)
  drop-append (suc n) (x ∷ xs) ys h = drop-append n xs ys (omega arith)

-- The function that the receiver sends is the one that the sender reads, whatever follows it on the
-- socket, and both count the bytes that are on the socket.
pub recv_func-send_func :
    (func : List ℕ) (nbf : ℕ) (rest : Bytes)
    → length func ≡ nbf
    → Within (2 ^ 32) func
    → (recv_func nbf ((send_func func).0 ++ rest) ≡ some (func, (send_func func).1, rest))
      × ((send_func func).1 ≡ length (send_func func).0)
unfolding recv_func send_func
recv_func-send_func func nbf rest size h =
    (rw⁻¹ size (rw (read_ints-write_ints func rest h) refl), sym (length-write_ints func))

module _ ⦃b : Blocks⦄ ⦃l : Layout⦄ where
  read_block-to_bytes :
      (x : Block) (rest : Bytes) → read_block (l.to_bytes x ++ rest) ≡ some (x, rest)
  unfolding read_block
  read_block-to_bytes x rest =
      rw
        (
          room,
          take-append 16 (l.to_bytes x) rest (l.bytes_size x),
          drop-append 16 (l.to_bytes x) rest (l.bytes_size x),
          l.of_to x,
        )
        refl
    where
      room : leb 16 (length (l.to_bytes x ++ rest)) ≡ true
      room = ground (arith, length-append (l.to_bytes x) rest, l.bytes_size x)

  abbrev paired : {S : Type 0} → Option (List ℕ) → Block → S → Option (List ℕ × Block × S)
  paired g x y = do s ← g; some (s, x, y)

  drawn :
      {S : Type 0} (g : Option (List ℕ)) (x seed : Block) (y crypt : S) (sub_group : List ℕ)
      → paired g x y ≡ some (sub_group, seed, crypt)
      → (g ≡ some sub_group) × (x ≡ seed)
  drawn none x seed y crypt sub_group e = absurd (none-ne-some _ e)
  drawn (some s) x seed y crypt sub_group e =
      let q = some-injective _ _ e in (ap (λ t. some t.0) q, ap (λ t. t.1) q)

  pub set_sub_group-get_sub_group :
      ⦃c : Cipher⦄ ⦃r : Random⦄ (not nc : ℕ) (crypt crypt' : Crypto) (sub_group : List ℕ)
      (seed : Block)
      → set_sub_group not nc crypt ≡ some (sub_group, seed, crypt')
      → get_sub_group not nc seed ≡ some sub_group
  unfolding set_sub_group
  set_sub_group-get_sub_group not nc crypt crypt' sub_group seed e =
      let (g, q) = drawn _ _ seed _ crypt' sub_group e in
      subst (λ t. get_sub_group not nc t ≡ some sub_group) q g

  -- The receiver that reads what `send_sub_group` has sent draws the very group that the sender has
  -- set, and both count the bytes that are on the socket.
  pub recv_group-send_sub_group :
      ⦃c : Cipher⦄ ⦃r : Random⦄ (not nc : ℕ) (crypt crypt' : Crypto) (sub_group : List ℕ)
      (seed : Block) (rest : Bytes)
      → nc < 2 ^ 32
      → set_sub_group not nc crypt ≡ some (sub_group, seed, crypt')
      → (recv_group not ((send_sub_group nc seed).0 ++ rest)
          ≡ some (sub_group, (send_sub_group nc seed).1, rest))
        × ((send_sub_group nc seed).1 ≡ length (send_sub_group nc seed).0)
  unfolding recv_group send_sub_group recv_c
  recv_group-send_sub_group not nc crypt crypt' sub_group seed rest h e = (
    rw
        (
          append_assoc (write_int nc) (l.to_bytes seed) rest,
          read_int-write_int nc (l.to_bytes seed ++ rest) h,
          read_block-to_bytes seed rest,
          set_sub_group-get_sub_group not nc crypt crypt' sub_group seed e,
        )
        refl,
    omega (
      arith,
      length-append (write_int nc) (l.to_bytes seed),
      length-write_int nc,
      l.bytes_size seed,
    ),
  )

  -- The sender reads the `R` and the `r` that the receiver has sent, and both count the bytes that
  -- are on the socket.
  pub recv_big_r-send_big_r :
      (big_r : List ℕ) (r : Block) (rest : Bytes)
      → length big_r < 2 ^ 32
      → Within (2 ^ 32) big_r
      → (recv_big_r ((send_big_r big_r r).0 ++ rest)
          ≡ some (big_r, r, (send_big_r big_r r).1, rest))
        × ((send_big_r big_r r).1 ≡ length (send_big_r big_r r).0)
  unfolding recv_big_r send_big_r
  recv_big_r-send_big_r big_r r rest small h = (
    rw
        (
          append_assoc (write_int (length big_r)) (write_ints big_r ++ l.to_bytes r) rest,
          append_assoc (write_ints big_r) (l.to_bytes r) rest,
          read_int-write_int (length big_r) (write_ints big_r ++ (l.to_bytes r ++ rest)) small,
          read_ints-write_ints big_r (l.to_bytes r ++ rest) h,
          read_block-to_bytes r rest,
        )
        refl,
    omega (
      arith,
      length-append (write_int (length big_r)) (write_ints big_r ++ l.to_bytes r),
      length-append (write_ints big_r) (l.to_bytes r),
      length-write_int (length big_r),
      length-write_ints big_r,
      l.bytes_size r,
    ),
  )
