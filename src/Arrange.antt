-- ===== src/Arrange.antt =====
-- The receiver's function in simple/src/Functions.cpp: the indices left after the check are divided
-- by their choice bit and shuffled (`get_zeros_ones`, `shuffling`), and each place of the Bloom
-- filter is given an index whose choice bit is the filter's bit (`arrange_the_indexes`).
pub mod Shuffle
pub mod Split
pub mod Rank
pub mod Place
use malicious_mpsi.Base.{
  ℕ, zero, suc, ◌+◌, ◌-◌, ◌/◌, ◌%◌, ◌||◌, List, [], ◌∷◌, ◌++◌, Option, none, some, get_elem?, store,
  swap, length, ltb, ◌==◌, if◌then◌else◌, ◌>>=◌, for,
}
use malicious_mpsi.Random.{Random, Crypto, gen_words}

-- `swap_((*arr_indexes)[place],(*arr_indexes)[(rand[i]%i)])`. The remainder by 0 is a fault.
pub swap_random : List ℕ → ℕ → ℕ → List ℕ → Option (List ℕ)
swap_random rand place i arr = do
  x ← get_elem? rand i
  if i == 0 then none else swap place (x % i) arr

-- `for (;i>0;i--)`
pub shuffle_down : List ℕ → ℕ → List ℕ → Option (List ℕ)
shuffle_down rand zero arr = some arr
shuffle_down rand (suc i) arr = do u ← swap_random rand (suc i) (suc i) arr; shuffle_down rand i u

-- For the empty vector `i` is -1, and `rand[-1]` is read.
pub shuffling : List ℕ → List ℕ → Option (List ℕ)
shuffling arr rand = do
  let i = length arr - 1
  let shuffled = (do u ← swap_random rand 0 i arr; shuffle_down rand i u)
  if length arr == 0 then none else shuffled

-- The two vectors of `arr_indexes`.
pub record Classes : Type 0 where
  pub zeros : List ℕ
  pub ones : List ℕ

-- `if ((*bitvector)[i]==0) … else …`
pub push_class : List ℕ → ℕ → Classes → Option Classes
push_class bitvector i c = do
  bit ← get_elem? bitvector i
  some (
      if bit == 0
      then record c { zeros = c.zeros ++ (i ∷ []) }
      else record c { ones = c.ones ++ (i ∷ []) })

-- The loop over the first `Not-Nc` bits.
pub split_bits : List ℕ → ℕ → ℕ → Option Classes
split_bits bitvector not nc =
    for (not - nc) 0 (push_class bitvector) (record { zeros = []; ones = [] })

module _ ⦃r : Random⦄ where
  -- The two threads shuffle a vector each.
  pub get_zeros_ones : List ℕ → ℕ → ℕ → Crypto → Option (Classes × Crypto)
  get_zeros_ones bitvector not nc crypt = do
    c ← split_bits bitvector not nc
    let (rand0, crypt') = gen_words 4 (length c.zeros) crypt
    let (rand1, crypt'') = gen_words 4 (length c.ones) crypt'
    zeros' ← shuffling c.zeros rand0
    ones' ← shuffling c.ones rand1
    some (record { zeros = zeros'; ones = ones' }, crypt'')

-- The variables of a thread of `arrange_the_indexes`: the new indices and the two places. The
-- thread that goes down keeps its places plus 1, since they may reach -1.
pub record Arranging : Type 0 where
  pub new_indexes : List ℕ
  pub place_0 : ℕ
  pub place_1 : ℕ

-- `new_indexes[i]=current_indexes[class[place]]`. `operator[]` does not check its index: an access
-- out of range is a fault, which the `catch` never sees.
unfoldable pub take_index : List ℕ → List ℕ → ℕ → ℕ → List ℕ → Option (List ℕ)
take_index current members place i new_indexes = do
  p ← get_elem? members place
  v ← get_elem? current p
  store new_indexes i v

module _ (bf current : List ℕ) (c : Classes) where
  -- The body of the loop of the first thread.
  unfoldable pub arrange_up : ℕ → Arranging → Option Arranging
  arrange_up i a = do
    bit ← get_elem? bf i
    let zero_case = (do
      u ← take_index current c.zeros a.place_0 i a.new_indexes
      some (record a { new_indexes = u; place_0 = a.place_0 + 1 }))
    let one_case = (do
      u ← take_index current c.ones a.place_1 i a.new_indexes
      some (record a { new_indexes = u; place_1 = a.place_1 + 1 }))
    if bit == 0 then zero_case else one_case

  -- The body of the loop of the second thread. A place of -1 is a fault.
  unfoldable pub arrange_down : ℕ → Arranging → Option Arranging
  arrange_down i a = do
    bit ← get_elem? bf i
    let zero_case = (do
      u ← take_index current c.zeros (a.place_0 - 1) i a.new_indexes
      some (record a { new_indexes = u; place_0 = a.place_0 - 1 }))
    let one_case = (do
      u ← take_index current c.ones (a.place_1 - 1) i a.new_indexes
      some (record a { new_indexes = u; place_1 = a.place_1 - 1 }))
    if bit == 0
        then if a.place_0 == 0 then none else zero_case
        else if a.place_1 == 0
        then none
        else one_case

-- `exit(1)` is a result of its own.
pub data Arranged : Type 0 where
  arranged : List ℕ → Arranged
  not_enough : Arranged

-- The threads write different halves of the array; here the second follows the first.
unfoldable pub arrange_the_indexes : List ℕ → ℕ → Classes → List ℕ → List ℕ → Option Arranged
arrange_the_indexes bf nbf c current new_indexes = do
  up ←
      for (nbf / 2) 0 (arrange_up bf current c)
        (record { new_indexes = new_indexes; place_0 = 0; place_1 = 0 })
  down ←
      for (nbf - nbf / 2) (nbf / 2) (arrange_down bf current c)
        (record { new_indexes = up.new_indexes; place_0 = length c.zeros; place_1 = length c.ones })
  some (
      if ltb down.place_0 up.place_0 || ltb down.place_1 up.place_1
      then not_enough
      else arranged down.new_indexes)
