-- ===== src/Bitstring.antt =====
-- The class of simple/src/Bitstring.cpp, and the choice bits of Party: an array of bytes, one for each bit. An access outside
-- the array, which the class does not check, is a fault.
pub mod Ones
use malicious_mpsi.Base.{
  ℕ, ◌-◌, ◌*◌, ◌+◌, ◌%◌, List, Option, none, some, get_elem?, store, swap, replicate, range, take,
  length, ltb, ◌==◌, if◌then◌else◌, ◌>>=◌, for,
}
use malicious_mpsi.Random.{Random, Crypto, gen_words}

pub record Bitstring : Type 0 where
  pub arr : List ℕ
  pub length : ℕ

-- The new value is cut to a byte.
unfoldable pub set_bit : ℕ → ℕ → Bitstring → Option Bitstring
set_bit place new_val s = do u ← store s.arr place (new_val % 256); some (record s { arr = u })

unfoldable pub get_bit : ℕ → Bitstring → Option ℕ
get_bit place s = get_elem? s.arr place

pub get_length : Bitstring → ℕ
get_length s = s.length

-- `Bitstring(length)`, whose other arguments are 0 and null.
unfoldable pub zeros : ℕ → Bitstring
zeros length = record { arr = replicate length 0; length = length }

-- `Bitstring(length,arr)`, over `length` bytes of an array.
pub of_bytes : ℕ → List ℕ → Option Bitstring
of_bytes size bytes =
    if ltb (length bytes) size then none else some (record { arr = take size bytes; length = size })

-- One round of the loop that draws an index for place `counter`. `length-counter` must not be 0:
-- the remainder by 0 is a fault.
pub draw_index : ℕ → List ℕ → ℕ → List ℕ → Option (List ℕ)
draw_index length r counter indexes = do
  x ← get_elem? r counter
  let rest = length - counter
  if rest == 0 then none else swap (x % rest + counter) counter indexes

-- `set_bit(indexes[i],1)`
pub set_one : List ℕ → ℕ → Bitstring → Option Bitstring
set_one indexes i s = do place ← get_elem? indexes i; set_bit place 1 s

module _ ⦃r : Random⦄ where
  -- `Bitstring(length,numOfOnes,c)`
  pub with_ones : ℕ → ℕ → Crypto → Option (Bitstring × Crypto)
  with_ones length num_of_ones crypt =
      let (words, crypt') = gen_words 8 num_of_ones crypt in
      let drawn = (do
        indexes ← for num_of_ones 0 (draw_index length words) (range 0 length)
        s ← for num_of_ones 0 (set_one indexes) (zeros length)
        some (s, crypt')) in
      if num_of_ones == 0 then some (zeros length, crypt) else drawn

  -- The choice bits in the constructor of Party: a bit string is drawn and copied bit by bit.
  pub draw_choices : ℕ → ℕ → Crypto → Option (List ℕ × Crypto)
  draw_choices not num_of_ones crypt = do
    (b1, crypt') ← with_ones not num_of_ones crypt
    bits ← for not 0 (λ i v. do x ← get_bit i b1; store v i x) (replicate not 0)
    some (bits, crypt')
