-- ===== src/Tests/Parties/Data.antt =====
-- The inputs of three parties, with filters of four bits.
use malicious_mpsi.Base.{
  ℕ, suc, ◌+◌, ◌*◌, ◌-◌, List, [], ◌∷◌, get_or, map, range, replicate, ◌==◌, if◌then◌else◌,
}
use malicious_mpsi.Block.{Block, block0}
use malicious_mpsi.Samples.{nibbles, counter, masking, open_commitments, nibble}
use malicious_mpsi.Bloom.{Marks}
use malicious_mpsi.Gbf.Chunks.{chosen}
use malicious_mpsi.Protocol.{Side, Inputs}
use malicious_mpsi.Protocol.Run.{Choices}

-- The strings of the OTs in which party `p` is the sender, of the exchange with place `i`.
abbrev pub pairs : ℕ → ℕ → List (Block × Block)
pairs p i = map (λ t. (nibble (3 * t + p + 1), nibble (t + 5 * i + 2 * p + 7))) (range 0 5)

-- Choice bits: of P0, whose filter has three ones, and of a Pi.
abbrev pub p0_bits : List ℕ
p0_bits = 1 ∷ 0 ∷ 1 ∷ 1 ∷ 0 ∷ []

abbrev pub pi_bits : List ℕ
pi_bits = 0 ∷ 1 ∷ 1 ∷ 0 ∷ 0 ∷ []

abbrev pub take_strings : List (Block × Block) → List ℕ → List Block
take_strings strings bits =
    map (λ t. chosen (get_or strings t (block0, block0)) (get_or bits t 0)) (range 0 5)

abbrev pub p0_function : List ℕ
p0_function = 0 ∷ 2 ∷ 3 ∷ 1 ∷ []

abbrev pub pi_function : List ℕ
pi_function = 1 ∷ 2 ∷ 3 ∷ 0 ∷ []

abbrev pub p0_side : ℕ → Side
p0_side j = record {
  prepared = record {
    opened = record { indexes = range 0 5; bits = p0_bits; r = block0; big_r = 4 ∷ [] };
    classes = record { zeros = 1 ∷ []; ones = 0 ∷ 2 ∷ 3 ∷ [] };
    crypt = 0;
  };
  new_indexes = replicate 4 0;
  received = take_strings (pairs (suc j) 0) p0_bits;
  strings = pairs 0 j;
  func_sender = pi_function;
}

abbrev pub pi_side : ℕ → Side
pi_side j = record {
  prepared = record {
    opened = record { indexes = range 0 5; bits = pi_bits; r = block0; big_r = 4 ∷ [] };
    classes = record { zeros = 0 ∷ 3 ∷ []; ones = 1 ∷ 2 ∷ [] };
    crypt = 0;
  };
  new_indexes = replicate 4 0;
  received = take_strings (pairs 0 j) pi_bits;
  strings = pairs (suc j) 0;
  func_sender = p0_function;
}

abbrev pub party_seed : ℕ → Block
party_seed p = if p == 0 then nibble 3 else if p == 1 then nibble 5 else nibble 6

-- P0 has the items 5 and 6, the others have 5. The seeds add up to zero.
abbrev pub inputs : ℕ → Inputs
inputs p = record {
  items = if p == 0 then 5 ∷ 6 ∷ [] else 5 ∷ [];
  pledge = (party_seed p, party_seed p);
  keys = nibble (p + 1) ∷ nibble (3 * p + 2) ∷ [];
  pledges_memory = replicate 2 (block0, block0);
  keys_memory = replicate 2 block0;
  gbf_memory = replicate 4 (nibble 7);
  sides = λ j. if p == 0 then p0_side j else pi_side (p - 1);
  schedule = λ i jobs. jobs;
  crypt = 1;
}

abbrev pub marks_of : ℕ → Marks
marks_of p = record {
  bf = record { arr = if p == 0 then 1 ∷ 1 ∷ 1 ∷ 0 ∷ [] else 1 ∷ 1 ∷ 0 ∷ 0 ∷ []; length = 4 };
  h_kokhav = if p == 0 then (0 ∷ 1 ∷ []) ∷ (0 ∷ 2 ∷ []) ∷ [] else (0 ∷ 1 ∷ []) ∷ [];
}

abbrev pub choices : Choices 2 4 2 inputs
choices = record { marks = marks_of; p0_func = λ j. p0_function; pi_func = λ j. pi_function }
