-- ===== src/Party/Ready.antt =====
-- What the constructor of Party makes.
use malicious_mpsi.Base.{
  ℕ, ◌≤◌, ◌<◌, ◌≡◌, length, length-replicate, get_or, Gives, gives, Gives-bind,
}
use malicious_mpsi.Block.{Blocks, block0}
use malicious_mpsi.Random.{Random, Crypto}
use malicious_mpsi.Bitstring.Ones.{count_ones, draw_choices_lem}
use malicious_mpsi.Party.{Common, Party, new_party}

module _ ⦃b : Blocks⦄ ⦃r : Random⦄ where
  -- A party for `n` OTs: memory for their strings, and choice bits of which `num_of_ones` are 1.
  pub record IsReady (n num_of_ones : ℕ) (p : Party) : Type 0 where
    pub received_size : length p.strings_choices ≡ n
    pub sent_size : length p.strings ≡ n
    pub bits_size : length p.bitvector ≡ n
    pub ones : count_ones p.bitvector ≡ num_of_ones
    pub bits : (j : ℕ) → get_or p.bitvector j 0 < 2

  pub new_party_lem :
      (common : Common) (num_of_ones : ℕ) (crypt : Crypto)
      → num_of_ones ≤ common.not
      → Gives (IsReady common.not num_of_ones) (new_party common num_of_ones crypt)
  unfolding new_party
  new_party_lem common num_of_ones crypt h =
      Gives-bind (draw_choices_lem common.not num_of_ones crypt h) λ t x. gives (record {
        received_size = length-replicate common.not block0;
        sent_size = length-replicate common.not (block0, block0);
        bits_size = x.0;
        ones = x.1;
        bits = x.2;
      })
