-- ===== src/Protocol/Completeness.antt =====
-- The whole protocol: an item that all parties have comes out of P0.
use malicious_mpsi.Base.{
  ℕ, zero, suc, ◌+◌, ◌≤◌, ◌<◌, ◌≡◌, refl, List, [], Option, none, some, arith, ◌∈◌, gives,
}
use malicious_mpsi.Block.{Blocks, Block}
use malicious_mpsi.Random.{Random}
use malicious_mpsi.Bloom.{Cipher}
use malicious_mpsi.Exchange.{Commitments}
use malicious_mpsi.Approt.{Session, going, aborting}
use malicious_mpsi.Protocol.{Inputs}
use malicious_mpsi.Protocol.Online.{Goes, goes}
use malicious_mpsi.Protocol.Sums.{All-range}
use malicious_mpsi.Protocol.Run.{Choices, IsRun, pi_of, p0_of}
use malicious_mpsi.Protocol.Messages.{HasSums, pi_lem}
use malicious_mpsi.Protocol.Output.{p0_lem}

-- The array that a session ends with.
abbrev outcome : {A : Type 0} → Option (Session (List A)) → List A
outcome none = []
outcome (some (going xs)) = xs
outcome (some aborting) = []

Goes-outcome :
    {A : Type 0} {P : List A → Type 0} {r : Option (Session (List A))}
    → Goes P r
    → (r ≡ some (going (outcome r))) × P (outcome r)
Goes-outcome (gives (goes p)) = (refl, p)

module _ ⦃b : Blocks⦄ ⦃r : Random⦄ ⦃c : Cipher⦄ ⦃o : Commitments⦄ where
  -- `n + 1` parties run the protocol as `IsRun` says, each of them getting what the others send.
  -- Then no run aborts or faults: every Pi sends its filter, and P0, which adds up these filters,
  -- prints every item that all parties have, and only items of its own.
  pub completeness :
      (n nbf seeds_num : ℕ) (x : ℕ → Inputs) (d : Choices n nbf seeds_num x)
      → IsRun n nbf seeds_num x d
      → (sent : ℕ → List Block) × ((j : ℕ)
          → j < n
          → pi_of n nbf seeds_num x (suc j) ≡ some (going (sent (suc j))))
        × Goes
            (λ found.
              ((e : ℕ) → ((q : ℕ) → q < suc n → e ∈ (x q).items) → e ∈ found)
              × ((e : ℕ) → e ∈ found → e ∈ (x 0).items))
            (p0_of n nbf seeds_num x sent)
  completeness n nbf seeds_num x d run =
      let sent = λ (p : ℕ). outcome (pi_of n nbf seeds_num x p) in
      let got = λ (j : ℕ) (h : j < n). Goes-outcome (pi_lem n nbf seeds_num x d run j h) in
      (
        sent,
        λ j h. (got j h).0,
        p0_lem n nbf seeds_num x d run sent (All-range _ 1 n (messages sent (λ j h. (got j h).1))),
      )
    where
      messages :
          (sent : ℕ → List Block)
          → ((j : ℕ) → j < n → HasSums n nbf seeds_num x d run (suc j) (sent (suc j)))
          → (p : ℕ) → 1 ≤ p
          → p < 1 + n
          → HasSums n nbf seeds_num x d run p (sent p)
      messages sent h zero l u = absurd (omega arith)
      messages sent h (suc j) l u = h j (omega arith)
