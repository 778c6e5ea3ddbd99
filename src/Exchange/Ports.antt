-- ===== src/Exchange/Ports.antt =====
-- The ports of a pair of parties (`set_ports`) and the sockets that they use for each other (Pi).
use native.Mathlib.Nat.{suc-mul}
use malicious_mpsi.Base.{
  ◌-◌, ne→==, le→ltb, lt→ltb, ap₂, ◌↔◌, List, [], ◌∷◌, length, ◌≢◌, Gives, gives, ℕ, zero, suc, ◌+◌,
  ◌*◌, ◌<◌, ◌≡◌, refl, ap, ◌∙◌, some, arith, get_elem?, get_elem?-map, length-map, get_or,
  get_or-range, length-range, range,
}
use malicious_mpsi.Exchange.{
  set_ports, ot_receiver, ot_sender, Route, to_p0, by_receiver, by_sender, route,
}

-- Entry `i` of the table of a player.
set_ports-get_elem? :
    (player parties i : ℕ)
    → i < parties
    → get_elem? (set_ports player parties) i
      ≡ some (8000 + i * parties + player, 8000 + player * parties + i)
unfolding set_ports
set_ports-get_elem? player parties i h =
    get_elem?-map _ (range 0 parties) i 0 (rw (length-range 0 parties) h)
    ∙ ap (λ k. some (8000 + k * parties + player, 8000 + player * parties + k)) at
  where
    at : get_or (range 0 parties) i 0 ≡ i
    at = omega (arith, get_or-range 0 parties i 0 h)

pub length-set_ports : (player parties : ℕ) → length (set_ports player parties) ≡ parties
unfolding set_ports
length-set_ports player parties = length-map _ (range 0 parties) ∙ length-range 0 parties

-- A number below `n` and a multiple of `n` are what their sum says.
digits_unique : (n b d a c : ℕ) → a < n → c < n → b * n + a ≡ d * n + c → (b ≡ d) × (a ≡ c)
digits_unique n zero zero a c p q e = (refl, omega arith)
digits_unique n zero (suc d) a c p q e = absurd (omega (arith, suc-mul d n))
digits_unique n (suc b) zero a c p q e = absurd (omega (arith, suc-mul b n))
digits_unique n (suc b) (suc d) a c p q e =
    let rest = digits_unique n b d a c p q (omega (arith, e, suc-mul b n, suc-mul d n)) in
    (ap suc rest.0, rest.1)

-- What two parties `i` and `j` of the same session have for each other.
abbrev pub Matched : ℕ × ℕ → ℕ × ℕ → Type 0
Matched p q = (p.0 ≡ q.1) × (p.1 ≡ q.0)

-- In the tables of two parties, the entries for each other match crosswise, and the first port of an
-- entry belongs to one ordered pair of parties only.
pub set_ports_lem :
    (parties i j k l : ℕ)
    → i < parties
    → j < parties
    → k < parties
    → l < parties
    → (p : ℕ × ℕ) × (q : ℕ × ℕ) × (r : ℕ × ℕ) × (get_elem? (set_ports i parties) j ≡ some p)
      × (get_elem? (set_ports j parties) i ≡ some q)
      × (get_elem? (set_ports k parties) l ≡ some r)
      × Matched p q
      × ((p.0 ≡ r.0) ↔ ((i ≡ k) × (j ≡ l)))
set_ports_lem parties i j k l pi pj pk pl = (
  _,
  _,
  _,
  set_ports-get_elem? i parties j pj,
  set_ports-get_elem? j parties i pi,
  set_ports-get_elem? k parties l pl,
  (refl, refl),
  (
    λ e. let same = digits_unique parties j l i k pi pk (omega arith) in (same.1, same.0),
    λ e. ap₂ (λ a c. 8000 + c * parties + a) e.0 e.1,
  ),
)

-- The route leads to a socket that the constructor of Pi has opened: it opens `player - 1` receivers
-- and `parties - 1 - player` senders.
abbrev pub IsOpen : ℕ → ℕ → Route → Type 0
IsOpen parties player to_p0 = Unit
IsOpen parties player (by_receiver i) = i < player - 1
IsOpen parties player (by_sender i) = i < parties - 1 - player

-- Of two parties other than P0, the one with the higher number uses a receiver for the other, and
-- the other a sender for it.
abbrev pub Opposite : Route → Route → Type 0
Opposite (by_receiver _) (by_sender _) = Unit
Opposite (by_sender _) (by_receiver _) = Unit
Opposite _ _ = ⊥

pub route_high :
    (player other : ℕ) → player < other → route player other ≡ by_sender (other - player - 1)
route_high player other h =
    rw (ne→== other 0 (omega arith)) (rw (le→ltb other player (omega arith)) refl)

pub route_low :
    (player other : ℕ) → 0 < other → other < player → route player other ≡ by_receiver (other - 1)
route_low player other p h = rw (ne→== other 0 (omega arith)) (rw (lt→ltb other player h) refl)

-- For two parties `i < j` other than P0, each sends to the other over a socket that it has opened, a
-- sender on the side of `i` and a receiver on the side of `j`.
route_lem :
    (parties i j : ℕ)
    → 0 < i
    → i < j
    → j < parties
    → IsOpen parties i (route i j) × IsOpen parties j (route j i) × Opposite (route i j) (route j i)
route_lem parties i j p q r =
    rw (route_high i j q, route_low j i p q) (omega arith, omega arith, tt)

-- The ports of the OTs between P0 and one party, and between P0 and another.
pub record HaveOwnPorts {A : Type 0} (parties : ℕ) (down up down' up' : A × ℕ) : Type 0 where
  pub above : (7000 < down.1) × (7000 < up.1)
  pub below : (down.1 < 7000 + 2 * parties) × (up.1 < 7000 + 2 * parties)
  pub directions : down.1 ≢ up.1
  pub down_other : (down.1 ≢ down'.1) × (down.1 ≢ up'.1)
  pub up_other : (up.1 ≢ down'.1) × (up.1 ≢ up'.1)

entry_lt : {A : Type 0} (xs : List A) (i : ℕ) → i < length xs → (a : A) × (get_elem? xs i ≡ some a)
entry_lt [] i h = absurd (omega arith)
entry_lt (x ∷ xs) zero h = (x, refl)
entry_lt (x ∷ xs) (suc i) h = entry_lt xs i (omega arith)

-- P0 and party `i` name the same address for the OTs in which P0 receives, and for those in which
-- party `i` does. The two ports differ from each other and from both ports of any other party `j`,
-- and lie above 7000 and below 7000 and twice the number of parties.
pub ot_addresses_lem :
    {A : Type 0} (ips : List A) (i j : ℕ)
    → i ≢ 0
    → j ≢ 0
    → i ≢ j
    → i < length ips
    → j < length ips
    → (ot_receiver ips 0 i ≡ ot_sender ips i 0)
      × (ot_receiver ips i 0 ≡ ot_sender ips 0 i)
      × Gives
          (λ down.
            Gives
              (λ up.
                Gives
                  (λ down'. Gives (HaveOwnPorts (length ips) down up down') (ot_receiver ips j 0))
                  (ot_receiver ips 0 j))
              (ot_receiver ips i 0))
          (ot_receiver ips 0 i)
unfolding ot_receiver ot_sender
ot_addresses_lem ips i j p p' q h l =
    let (a, e) = entry_lt ips i h in
    let (c, k) = entry_lt ips j l in
    let (z, f) = entry_lt ips 0 (omega arith) in
    (
      rw (e, ne→== i 0 p) refl,
      rw (f, ne→== i 0 p) refl,
      rw (e, f, k, ne→== i 0 p, ne→== j 0 p')
          (gives (
            gives (
              gives (
                gives (record {
                  above = (omega arith, omega arith);
                  below = (omega arith, omega arith);
                  directions = λ t. absurd (omega arith);
                  down_other = (λ t. q (omega arith), λ t. absurd (omega arith));
                  up_other = (λ t. absurd (omega arith), λ t. q (omega arith));
                }))))),
    )
