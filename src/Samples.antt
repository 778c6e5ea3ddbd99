-- ===== src/Samples.antt =====
-- Test data: blocks of four bits and a source of bytes that counts, small enough to evaluate.
use mathlib.Core.Bool.{Bool-discrete, not}
use malicious_mpsi.Base.{
  ℕ, suc, ◌+◌, ◌/◌, ◌%◌, ◌≡◌, refl, ap, ap₂, Bool, true, false, get_or, ◌∷◌, replicate, ◌==◌,
  if◌then◌else◌,
}
use mathlib.Core.Logic.{◌≢◌}
use malicious_mpsi.Block.{Blocks, Block, ◌⊕◌, block0}
use malicious_mpsi.Random.{Random}
use malicious_mpsi.Bloom.{Cipher}
use malicious_mpsi.Exchange.{Commitments}
use malicious_mpsi.Wire.{Layout}

abbrev xor : Bool → Bool → Bool
xor true y = not y
xor false y = y

-- Equality of pairs, decided.
abbrev pair_eq : {A : Type 0} {B : Type 0} → Discrete A → Discrete B → Discrete (A × B)
pair_eq f g p q = both (f p.0 q.0) (g p.1 q.1)
  where
    both : Dec (p.0 ≡ q.0) → Dec (p.1 ≡ q.1) → Dec (p ≡ q)
    both (yes e) (yes e') = yes (λ i. (e i, e' i))
    both (yes e) (no n) = no (λ r. n (ap (λ x. x.1) r))
    both (no n) d = no (λ r. n (ap (λ x. x.0) r))

abbrev pub Half : Type 0
Half = Bool × Bool

abbrev xor_half : Half → Half → Half
xor_half x y = (xor x.0 y.0, xor x.1 y.1)

abbrev half_of : ℕ → Half
half_of n = ((n / 2 % 2) == 1, (n % 2) == 1)

abbrev number_of : Half → ℕ
number_of x = (if x.0 then 2 else 0) + (if x.1 then 1 else 0)

pub xor_bit_comm : (x y : Bool) → xor x y ≡ xor y x
xor_bit_comm true true = refl
xor_bit_comm true false = refl
xor_bit_comm false true = refl
xor_bit_comm false false = refl

pub xor_bit_assoc : (x y z : Bool) → xor (xor x y) z ≡ xor x (xor y z)
xor_bit_assoc true true true = refl
xor_bit_assoc true true false = refl
xor_bit_assoc true false z = refl
xor_bit_assoc false y z = refl

pub xor_bit_false : (x : Bool) → xor x false ≡ x
xor_bit_false true = refl
xor_bit_false false = refl

pub xor_bit_self : (x : Bool) → xor x x ≡ false
xor_bit_self true = refl
xor_bit_self false = refl

pub pair_path :
    {A : Type 0} {B : Type 0} {a a' : A} {b b' : B}
    → a ≡ a'
    → b ≡ b'
    → ◌≡◌ {A = A × B} (a, b) (a', b')
pair_path p q = ap₂ (λ u v. (u, v)) p q

-- The high half and the low half of a block.
instance abbrev pub nibbles : Blocks
nibbles = record {
  Carrier = Half × Half;
  xor = λ x y. (xor_half x.0 y.0, xor_half x.1 y.1);
  to_block = λ high low. (half_of high, half_of low);
  word = λ x i. if i == 0 then number_of x.1 else number_of x.0;
  block_eq = pair_eq (pair_eq Bool-discrete Bool-discrete) (pair_eq Bool-discrete Bool-discrete);
  xor_comm = λ x y.
      pair_path (pair_path (xor_bit_comm x.0.0 y.0.0) (xor_bit_comm x.0.1 y.0.1))
        (pair_path (xor_bit_comm x.1.0 y.1.0) (xor_bit_comm x.1.1 y.1.1));
  xor_assoc = λ x y z.
      pair_path (pair_path (xor_bit_assoc x.0.0 y.0.0 z.0.0) (xor_bit_assoc x.0.1 y.0.1 z.0.1))
        (pair_path (xor_bit_assoc x.1.0 y.1.0 z.1.0) (xor_bit_assoc x.1.1 y.1.1 z.1.1));
  xor_zero = λ x.
      pair_path (pair_path (xor_bit_false x.0.0) (xor_bit_false x.0.1))
        (pair_path (xor_bit_false x.1.0) (xor_bit_false x.1.1));
  xor_self = λ x.
      pair_path (pair_path (xor_bit_self x.0.0) (xor_bit_self x.0.1))
        (pair_path (xor_bit_self x.1.0) (xor_bit_self x.1.1));
}

-- The state is a byte, which is what comes out.
instance abbrev pub counter : Random
counter = record { Crypto = ℕ; gen_rnd = λ n s. (replicate n (s % 256), suc s) }

instance abbrev pub masking : Cipher
masking = record { encrypt = λ key x. key ⊕ x }

instance abbrev pub open_commitments : Commitments
open_commitments = record {
  Commit = Half × Half;
  commit_to = λ x. x;
  commit_eq = pair_eq (pair_eq Bool-discrete Bool-discrete) (pair_eq Bool-discrete Bool-discrete);
}

abbrev pub nibble : ℕ → Block
nibble n = (half_of (n / 4), half_of n)

-- Whether a decision is negative.
abbrev pub IsNo : {A : Type 0} → Dec A → Type 0
IsNo (yes _) = ⊥
IsNo (no _) = Unit

apart : {A : Type 0} (d : Dec A) → IsNo d → ¬ A
apart (yes _) h = absurd h
apart (no n) h = n

pub apart_zero : (x : Block) → IsNo (nibbles.block_eq x block0) → x ≢ block0
apart_zero x h = apart (nibbles.block_eq x block0) h

abbrev pub bit_of : Bool → ℕ
bit_of x = if x then 1 else 0

pub bit_back : (x : Bool) → (bit_of x == 1) ≡ x
bit_back true = refl
bit_back false = refl

-- A byte for each bit, and twelve more.
instance abbrev pub in_bytes : Layout
in_bytes = record {
  to_bytes = λ x. bit_of x.0.0 ∷ bit_of x.0.1 ∷ bit_of x.1.0 ∷ bit_of x.1.1 ∷ replicate 12 0;
  of_bytes = λ bytes. (
    (get_or bytes 0 0 == 1, get_or bytes 1 0 == 1),
    (get_or bytes 2 0 == 1, get_or bytes 3 0 == 1),
  );
  bytes_size = λ x. refl;
  of_to = λ x.
      pair_path (pair_path (bit_back x.0.0) (bit_back x.0.1))
        (pair_path (bit_back x.1.0) (bit_back x.1.1));
}
