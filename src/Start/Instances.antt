-- ===== src/Start/Instances.antt =====
-- The instances of P0.
use malicious_mpsi.Base.{
  ℕ, zero, suc, ◌+◌, ◌-◌, ◌≤◌, ◌<◌, ◌≡◌, refl, sym, subst, ◌∙◌, List, Option, none, some, arith,
  length, get_elem?, get_or, set, store_of_lt, length-set, length-replicate, replicate,
  get_or-set_self, get_or-set_ne, Gives, gives, Gives-value, Gives-map, for, for-Gives, ◌⊎◌, inl,
  inr, eq-cases, get_elem?_past, Option-cases, ◌>>=◌,
}
use malicious_mpsi.Block.{Blocks}
use malicious_mpsi.Random.{Random, Crypto}
use malicious_mpsi.Exchange.{set_ports}
use malicious_mpsi.Exchange.Ports.{length-set_ports}
use malicious_mpsi.Sockets.{SystemCalls, World, port_16}
use malicious_mpsi.Sockets.Facts.{Fact, serving, Keeps, Network, IsWelcoming, init_sender-Holds}
use malicious_mpsi.Party.{Common, P0, new_p0, creating_p0_instance}
use malicious_mpsi.Party.Ready.{IsReady, new_party_lem}
use malicious_mpsi.Party.Opened.{entry}
use malicious_mpsi.Party.Routes.{crosswise}
use malicious_mpsi.Start.{Settings, Seeding, source_at, start_p0, const_seeds_p0}

-- A loop with a round that fails whatever comes before it.
for_fails :
    {S : Type 0} (body : ℕ → S → Option S) (j n i : ℕ) (s : S)
    → i ≤ j
    → j < i + n
    → ((t : S) → body j t ≡ none)
    → for n i body s ≡ none
unfolding for
for_fails body j zero i s h l f = absurd (omega arith)
for_fails body j (suc n) i s h l f = elim (eq-cases i j) [
  | inl e ↦ rw (e, f s) refl
  | inr ne ↦ elim (Option-cases (body i s)) [
    | inl e ↦ rw e refl
    | inr (t, e) ↦ rw e (for_fails body j n (suc i) t (omega arith) (omega arith) f)
  ]
]

module _ ⦃b : Blocks⦄ ⦃r : Random⦄ ⦃k : Seeding⦄ ⦃c : SystemCalls⦄
    (Holds : World → Fact → Type 0) where
  -- Instance `i` serves party `i + 1`: it is ready for its OTs, and its socket is connected to a
  -- process that has connected to the port that the party connects to.
  pub record ServesParty (parties : ℕ) (common : Common) (num_of_ones : ℕ) (w : World) (i : ℕ)
      (p : P0) : Type 0 where
    pub ready : IsReady common.not num_of_ones p.party
    pub port :
        (other : ℕ × ℕ) × (get_elem? (set_ports (suc i) parties) 0 ≡ some other)
        × (p.s.serv_port ≡ port_16 other.1)
        × Holds w (serving p.s.connect_sock (port_16 other.1))

  abbrev pub IsMade : ℕ → Common → ℕ → List (Option P0) × World → ℕ → Type 0
  IsMade parties common num_of_ones s i =
      (p : P0) × (get_or s.0 i none ≡ some p) × ServesParty parties common num_of_ones s.1 i p

  new_p0-ServesParty :
      (parties i num_of_ones : ℕ) (common : Common) (crypt : Crypto) (w : World) (port : ℕ × ℕ)
      → Network Holds
      → IsWelcoming
      → num_of_ones ≤ common.not
      → suc i < parties
      → get_elem? (set_ports 0 parties) (suc i) ≡ some port
      → Gives
          (λ x. ServesParty parties common num_of_ones x.1 i x.0 × Keeps Holds w x.1)
          (new_p0 common port.0 num_of_ones crypt w)
  unfolding new_p0
  new_p0-ServesParty parties i num_of_ones common crypt w port net welcome h l e =
      let (party, made, ready) = Gives-value (new_party_lem common num_of_ones crypt h) in
      let (other, f, x, y) = crosswise parties 0 (suc i) port (omega arith) l e in
      let (at, keeps) = init_sender-Holds Holds net welcome port.0 w in
      rw made (gives (record { ready = ready; port = (other, f, at.0 ∙ y, rw⁻¹ y at.1) }, keeps))

  -- The state of the loop before the instance of party `i`.
  record IsStarted (parties : ℕ) (common : Common) (num_of_ones i : ℕ)
      (s : List (Option P0) × World) : Type 0 where
    size : length s.0 ≡ parties - 1
    made : (j : ℕ) → suc j < i → IsMade parties common num_of_ones s j

  creating-IsStarted :
      (parties i num_of_ones : ℕ) (common : Common) (crypt : Crypto) (port : ℕ × ℕ)
      (s : List (Option P0) × World)
      → Network Holds
      → IsWelcoming
      → num_of_ones ≤ common.not
      → suc i < parties
      → get_elem? (set_ports 0 parties) (suc i) ≡ some port
      → IsStarted parties common num_of_ones (suc i) s
      → Gives
          (IsStarted parties common num_of_ones (suc (suc i)))
          (creating_p0_instance common i port.0 num_of_ones crypt s)
  unfolding creating_p0_instance
  creating-IsStarted parties i num_of_ones common crypt port s net welcome h l e x =
      let ((p, w'), f, serves) =
        Gives-value
          (new_p0-ServesParty parties i num_of_ones common crypt s.1 port net welcome h l e) in
      rw (f, store_of_lt s.0 i (some p) (omega (arith, x.size)))
        (gives (record {
          size = length-set s.0 i (some p) ∙ x.size;
          made = λ j q. elim (eq-cases j i) [
            | inl same ↦
                subst (IsMade parties common num_of_ones (set s.0 i (some p), w')) (sym same)
                  (p, get_or-set_self s.0 i (some p) none (omega (arith, x.size)), serves.0)
            | inr other ↦
                let (p', g, y) = x.made j (omega arith) in
                (
                  p',
                  get_or-set_ne s.0 i j (some p) none other ∙ g,
                  record {
                    ready = y.ready;
                    port = (y.port.0, y.port.1, y.port.2, serves.1 _ y.port.3);
                  },
                )
          ];
        }))

  -- Over a system whose calls do what POSIX says of them, where each `bind` and each `accept`
  -- succeeds: with at most 65 parties, P0 has an instance for each other party; it is ready for its
  -- OTs, and in the end its socket is connected to a process that has connected to the port to which
  -- that party connects. With more parties, the code reads past the end of the table of seeds.
  pub start_p0_lem :
      (s : Settings) (w : World)
      → Network Holds
      → IsWelcoming
      → s.num_of_ones ≤ s.common.not
      → 0 < s.parties
      → s.ports ≡ set_ports 0 s.parties
      → ((s.parties ≤ 65)
          × Gives
              (λ x.
                (length x.0 ≡ s.parties - 1)
                × ((i : ℕ) → suc i < s.parties → IsMade s.parties s.common s.num_of_ones x i))
              (start_p0 s w))
        ⊎ ((65 < s.parties) × (start_p0 s w ≡ none))
  unfolding start_p0 source_at
  start_p0_lem s w net welcome h p e = elim (order s.parties) [
    | inl small ↦ inl (
      small,
      Gives-map
          (for-Gives (IsStarted s.parties s.common s.num_of_ones) s.parties _ (s.parties - 1) 1
            (replicate (s.parties - 1) none, w) (omega arith) (λ i t q l x. round small i t q l x)
            (record {
              size = length-replicate (s.parties - 1) none;
              made = λ j q. absurd (omega arith);
            }))
          λ t x. (x.size, x.made),
    )
    | inr large ↦ inr (
      large,
      for_fails _ 65 (s.parties - 1) 1 (replicate (s.parties - 1) none, w) (omega arith)
          (omega arith) λ t. no_seed (get_elem? s.ports 65) t,
    )
  ]
    where
      order : (n : ℕ) → (n ≤ 65) ⊎ (65 < n)
      order n = ground arith

      seeds_size : length const_seeds_p0 ≡ 65
      seeds_size = unfold const_seeds_p0 in refl

      no_seed :
          (port : Option (ℕ × ℕ)) (t : List (Option P0) × World)
          → (port >>= λ port'. source_at const_seeds_p0 65 >>= λ crypt.
              creating_p0_instance s.common 64 port'.0 s.num_of_ones crypt t)
            ≡ none
      no_seed none t = refl
      no_seed (some port) t = rw (get_elem?_past const_seeds_p0 65 (omega (arith, seeds_size))) refl

      round :
          s.parties ≤ 65
          → (i : ℕ) (t : List (Option P0) × World) → 1 ≤ i
          → i < s.parties
          → IsStarted s.parties s.common s.num_of_ones i t
          → Gives (IsStarted s.parties s.common s.num_of_ones (suc i)) (
              get_elem? s.ports i >>= λ port. source_at const_seeds_p0 i >>= λ crypt.
              creating_p0_instance s.common (i - 1) port.0 s.num_of_ones crypt t)
      round small zero t q l x = absurd (omega arith)
      round small (suc i) t q l x =
          let (port, f) =
            entry (set_ports 0 s.parties) (suc i) (omega (arith, length-set_ports 0 s.parties)) in
          let (seed, g) = entry const_seeds_p0 (suc i) (omega (arith, seeds_size)) in
          let back : suc i - 1 ≡ i = omega arith in
          rw (e, f, g, back)
            (creating-IsStarted s.parties i s.num_of_ones s.common (k.new_crypto 128 seed) port t
              net welcome h l f x)
