-- ===== src/Tests/Exchanges.antt =====
-- The seeds and the secret shares of three parties, and their ports.
use malicious_mpsi.Base.{
  ℕ, zero, suc, ◌+◌, ◌*◌, ◌<◌, ◌≡◌, ◌↔◌, refl, List, [], ◌∷◌, some, arith, get_elem?, range,
  replicate, Gives,
}
use malicious_mpsi.Block.{Block, block0, cell, xor_over}
use malicious_mpsi.Samples.{nibbles, counter, masking, open_commitments, nibble}
use malicious_mpsi.Exchange.{
  Pledge, seeds_agreement_pi, seeds_agreement_p0, secret_write, secret_sharing, set_ports,
}
use malicious_mpsi.Exchange.Seeds.{Agreed, seeds_agreement_lem}
use malicious_mpsi.Exchange.Secret.{secret_sharing_lem}
use malicious_mpsi.Exchange.Ports.{Matched, set_ports_lem}

-- Party 2 commits to another seed than its own.
abbrev pledge : ℕ → Pledge
pledge zero = (nibble 3, nibble 3)
pledge (suc zero) = (nibble 5, nibble 5)
pledge (suc (suc p)) = (nibble 1, nibble 9)

seeds_agreement_example :
    Gives
      (Agreed 2 pledge 0)
      (seeds_agreement_p0 2 (λ p. some (pledge p)) (replicate 2 (block0, block0)) (nibble 3))
    × Gives
        (Agreed 2 pledge 1)
        (seeds_agreement_pi 3 1 (λ p. some (pledge p)) (replicate 2 (block0, block0)) (nibble 5))
seeds_agreement_example =
    seeds_agreement_lem 2 pledge 1 (replicate 2 (block0, block0)) (omega arith) refl

abbrev keys : ℕ → List Block
keys q = nibble (q + 1) ∷ nibble (3 * q + 2) ∷ []

secret_sharing_example :
    (shares : ℕ → List Block) × ((p : ℕ)
      → p < 3
      → secret_sharing 3 4 p
          (λ q. secret_write (keys q) q p)
          (replicate 2 block0)
          (replicate 4 (nibble 7))
          (keys p)
        ≡ some (shares p))
    × ((k : ℕ) → k < 4 → xor_over (λ p. cell (shares p) k) (range 0 3) ≡ block0)
secret_sharing_example =
    secret_sharing_lem 2 4 keys (λ p. replicate 2 block0) (λ p. replicate 4 (nibble 7))
      (λ p h. refl) (λ p h. omega arith) (λ q h. refl)

set_ports_example :
    (p : ℕ × ℕ) × (q : ℕ × ℕ) × (r : ℕ × ℕ) × (get_elem? (set_ports 1 3) 2 ≡ some p)
    × (get_elem? (set_ports 2 3) 1 ≡ some q)
    × (get_elem? (set_ports 0 3) 2 ≡ some r)
    × Matched p q
    × ((p.0 ≡ r.0) ↔ ((◌≡◌ {A = ℕ} 1 0) × (◌≡◌ {A = ℕ} 2 2)))
set_ports_example = set_ports_lem 3 1 2 0 2 (omega arith) (omega arith) (omega arith) (omega arith)
