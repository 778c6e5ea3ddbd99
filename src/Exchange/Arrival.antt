-- ===== src/Exchange/Arrival.antt =====
-- The pledges of the other parties arrive over partial transfers, and the agreement with them.
use malicious_mpsi.Base.{
  ℕ, suc, ◌+◌, ◌-◌, ◌*◌, ◌^◌, ◌<◌, ◌≡◌, ◌≢◌, refl, sym, ◌∙◌, ap, ap₂, Bool, List, [], ◌∷◌, ◌++◌,
  Option, some, arith, length, length-append, drop, take, get_elem?, ◌>>=◌, Gives, gives,
  Gives-bind, Gives-map, Gives-value, Gives-some, ◌∈◌, inl, inr,
}
use native.Mathlib.Nat.{suc-mul}
use mathlib.Core.List.{append_assoc}
use malicious_mpsi.Block.{Blocks, Block}
use malicious_mpsi.Wire.{Layout}
use malicious_mpsi.Wire.Trips.{take-append, drop-append}
use malicious_mpsi.Transfer.{System, add_64, read_all}
use malicious_mpsi.Transfer.Whole.{Delivers, Supplies, write_all_lem, read_all_lem, add_64-eq}
use malicious_mpsi.Exchange.{route, Commitments, Pledge}
use malicious_mpsi.Exchange.Seeds.{Agreed, agreement_pi, agreement_p0}
use malicious_mpsi.Exchange.Messages.{
  CommitLayout, add_amounts, Links, socket_of, write_key, read_key, write_pledge, read_pledge,
  seeds_pi_write, seeds_p0_write, seeds_pi_read, seeds_p0_read, seeds_exchange_pi,
  seeds_exchange_p0,
}

same_parts :
    (xs us ys vs : List ℕ) → length xs ≡ length us → xs ++ ys ≡ us ++ vs → (xs ≡ us) × (ys ≡ vs)
same_parts xs us ys vs h e = (
  sym (take-append (length us) xs ys h)
      ∙ ap (take (length us)) e
      ∙ take-append (length us) us vs refl,
  sym (drop-append (length us) xs ys h)
      ∙ ap (drop (length us)) e
      ∙ drop-append (length us) us vs refl,
)

-- The threads add up to as many times the amount, in whatever order they get the lock.
add_amounts_lem :
    (thread : ℕ → Option ℕ) (size : ℕ) (order : List ℕ) (amount : ℕ)
    → ((p : ℕ) → p ∈ order → thread p ≡ some size)
    → amount + length order * size < 2 ^ 64
    → add_amounts thread order amount ≡ some (amount + length order * size)
unfolding add_amounts
add_amounts_lem thread size [] amount same small = ap some (omega arith)
add_amounts_lem thread size (p ∷ order) amount same small =
    let e = suc-mul (length order) size in
    rw (same p (inl refl), add_64-eq amount size (omega (arith, small, e)))
      (add_amounts_lem thread size order (amount + size) (λ q h. same q (inr h))
          (omega (arith, small, e))
        ∙ ap some (omega (arith, e)))

-- The threads that get the locks are those of the other parties.
pub record AreOthers (n player : ℕ) (order : List ℕ) : Type 0 where
  pub count : length order ≡ n
  pub others : (p : ℕ) → p ∈ order → (p < suc n) × (p ≢ player)

module _ ⦃y : System⦄ where
  module _ (unread : y.Socket → List ℕ) (u : Supplies unread) where
    -- The next bytes of a socket are read exactly.
    read_exactly :
        (bytes rest : List ℕ) (size : ℕ) (s : y.Socket)
        → length bytes ≡ size
        → size < 2 ^ 64
        → unread s ≡ bytes ++ rest
        → Gives (λ r. (r.0 ≡ size) × (r.1 ≡ bytes) × (unread r.2 ≡ rest)) (read_all size s)
    read_exactly bytes rest size s l h e =
        Gives-map
          (read_all_lem unread u size h s (rw e (omega (arith, length-append bytes rest, l))))
          λ r x.
            let p = same_parts r.1 bytes (unread r.2) rest (x.1 ∙ sym l) (sym x.2 ∙ e) in
            (x.0, p.0, p.1)

  module _ ⦃b : Blocks⦄ ⦃l : Layout⦄ ⦃o : Commitments⦄ ⦃k : CommitLayout⦄ where
    abbrev pledge_bytes : Pledge → List ℕ
    pledge_bytes (commit, seed) = k.commit_bytes commit ++ l.to_bytes seed

    write_pledge_lem :
        (delivered : y.Socket → List ℕ) (d : Delivers delivered) (pledge : Pledge) (s : y.Socket)
        → k.commit_size + 16 < 2 ^ 64
        → Gives
            (λ w. (w.0 ≡ k.commit_size + 16) × (delivered w.1 ≡ delivered s ++ pledge_bytes pledge))
            (write_pledge pledge s)
    unfolding write_pledge write_key
    write_pledge_lem delivered d (commit, seed) s h =
        Gives-bind
          (write_all_lem delivered d (k.commit_bytes commit) k.commit_size
            (k.commit_bytes_size commit) (omega arith) s)
          λ w x.
            Gives-bind
              (write_all_lem delivered d (l.to_bytes seed) 16 (l.bytes_size seed) (omega arith) w.1)
              λ v z. gives (
                ap₂ add_64 x.0 z.0 ∙ add_64-eq k.commit_size 16 h,
                z.1 ∙ ap (λ t. t ++ l.to_bytes seed) x.1 ∙ append_assoc (delivered s) _ _,
              )

    read_pledge_lem :
        (unread : y.Socket → List ℕ) (u : Supplies unread) (pledge : Pledge) (rest : List ℕ)
        (s : y.Socket)
        → k.commit_size + 16 < 2 ^ 64
        → unread s ≡ pledge_bytes pledge ++ rest
        → Gives
            (λ r. (r.0 ≡ k.commit_size + 16) × (r.1 ≡ pledge) × (unread r.2 ≡ rest))
            (read_pledge s)
    unfolding read_pledge read_key
    read_pledge_lem unread u (commit, seed) rest s h e =
        Gives-bind
          (read_exactly unread u (k.commit_bytes commit) (l.to_bytes seed ++ rest) k.commit_size s
            (k.commit_bytes_size commit) (omega arith)
            (e ∙ append_assoc (k.commit_bytes commit) _ _))
          λ r x.
            Gives-bind
              (Gives-bind {Q = λ r. (r.0 ≡ 16) × (r.1 ≡ seed) × (unread r.2 ≡ rest)}
                (read_exactly unread u (l.to_bytes seed) rest 16 r.2 (l.bytes_size seed)
                  (omega arith) x.2)
                λ v z. gives (z.0, ap l.of_bytes z.1 ∙ l.of_to seed, z.2))
              λ v z. gives (
                ap₂ add_64 x.0 z.0 ∙ add_64-eq k.commit_size 16 h,
                ap₂ (λ c t. (c, t)) (ap k.of_commit_bytes x.1 ∙ k.of_commit commit) z.1,
                z.2,
              )

    -- What a party has after the agreement: the sum of all seeds, the flag, and what it prints.
    abbrev pub Completed : ℕ → (ℕ → Pledge) → ℕ → (Bool × Block) × ℕ × ℕ → Type 0
    Completed n pledge player r =
        Agreed n pledge player r.0
        × (r.1 ≡ n * (k.commit_size + 16))
        × (r.2 ≡ n * (k.commit_size + 16))

    module _ (delivered unread : y.Socket → List ℕ) (d : Delivers delivered) (u : Supplies unread)
        (small : k.commit_size + 16 < 2 ^ 64) where
      -- The bytes that a party has written for a pledge are the next ones on the socket.
      pub record Arrives (pledge : Pledge) (socket : Option y.Socket) : Type 0 where
        pub here : y.Socket
        pub there : y.Socket
        pub written : ℕ × y.Socket
        pub later : List ℕ
        pub is_here : socket ≡ some here
        pub is_written : write_pledge pledge there ≡ some written
        pub arrived : unread here ≡ drop (length (delivered there)) (delivered written.1) ++ later

      Arrives-read :
          (pledge : Pledge) (socket : Option y.Socket)
          → Arrives pledge socket
          → (r : ℕ × Pledge × y.Socket) × ((socket >>= read_pledge) ≡ some r)
            × (r.0 ≡ k.commit_size + 16)
            × (r.1 ≡ pledge)
      Arrives-read pledge socket a =
          let w = Gives-some (write_pledge_lem delivered d pledge a.there small) a.is_written in
          let e : unread a.here ≡ pledge_bytes pledge ++ a.later =
            a.arrived
            ∙ ap (λ t. t ++ a.later)
                (ap (drop (length (delivered a.there))) w.1
                  ∙ drop-append (length (delivered a.there)) (delivered a.there) _ refl) in
          let (r, p, x) = Gives-value (read_pledge_lem unread u pledge a.later a.here small e) in
          (r, ap (λ q. q >>= read_pledge) a.is_here ∙ p, x.0, x.1)

      module _ (n : ℕ) (pledge : ℕ → Pledge) (memory : List Pledge) (writes reads : List ℕ)
          (size : length memory ≡ n) (few : n * (k.commit_size + 16) < 2 ^ 64) where
        module _ (player : ℕ) (socket : ℕ → Option y.Socket)
            (sent : (p : ℕ) → p < suc n → p ≢ player → Arrives (pledge p) (socket p)) where
          counted :
              (order : List ℕ)
              → AreOthers n player order
              → 0 + length order * (k.commit_size + 16) ≡ n * (k.commit_size + 16)
          counted order x = ap (λ m. 0 + m * (k.commit_size + 16)) x.count ∙ omega arith

          all_written :
              AreOthers n player writes
              → add_amounts
                  (λ p. (socket p >>= write_pledge (pledge player)) >>= λ x. some x.0)
                  writes
                  0
                ≡ some (n * (k.commit_size + 16))
          all_written x =
              add_amounts_lem _ (k.commit_size + 16) writes 0
                (λ p h.
                  let a = sent p (x.others p h).0 (x.others p h).1 in
                  let (w, e, z) =
                    Gives-value (write_pledge_lem delivered d (pledge player) a.here small) in
                  rw (a.is_here, e) (ap some z.0))
                (rw (counted writes x) few)
              ∙ ap some (counted writes x)

          all_read :
              AreOthers n player reads
              → add_amounts (λ p. (socket p >>= read_pledge) >>= λ x. some x.0) reads 0
                ≡ some (n * (k.commit_size + 16))
          all_read x =
              add_amounts_lem _ (k.commit_size + 16) reads 0
                (λ p h.
                  let (r, e, z, q) =
                    Arrives-read (pledge p) (socket p) (sent p (x.others p h).0 (x.others p h).1) in
                  rw e (ap some z))
                (rw (counted reads x) few)
              ∙ ap some (counted reads x)

          pledge_read :
              (p : ℕ)
              → p < suc n
              → p ≢ player
              → ((socket p >>= read_pledge) >>= λ x. some x.1) ≡ some (pledge p)
          pledge_read p h ne =
              let (r, e, z, q) = Arrives-read (pledge p) (socket p) (sent p h ne) in
              rw e (ap some q)

        -- Among `n + 1` parties, the next bytes on each socket of Pi are those that the party at its
        -- other end has written for its pledge, in partial transfers of any sizes, and `n`
        -- threads for other parties than Pi itself get each lock, in any order. Then Pi completes the agreement: it has the sum of all
        -- seeds, the flag says whether every pledge it received is honest, and the amounts that it
        -- prints for sending and for receiving are both `n` times the bytes of a pledge, a number of
        -- 64 bits.
        pub seeds_exchange_pi_lem :
            (player : ℕ) (links : Links)
            → player < suc n
            → AreOthers n player writes
            → AreOthers n player reads
            → ((p : ℕ)
                → p < suc n
                → p ≢ player
                → Arrives (pledge p) (socket_of links (route player p)))
            → Gives
                (Completed n pledge player)
                (seeds_exchange_pi (suc n) player links writes reads memory (pledge player))
        unfolding seeds_exchange_pi seeds_pi_read seeds_pi_write
        seeds_exchange_pi_lem player links h ws rs sent =
            let socket = λ (p : ℕ). socket_of links (route player p) in
            rw (all_written player socket sent ws, all_read player socket sent rs)
              (Gives-bind
                (agreement_pi n pledge _ memory size player h (pledge_read player socket sent))
                λ r x. gives (x, refl, refl))

        -- P0 does the same over the sockets of its instances.
        pub seeds_exchange_p0_lem :
            (p0_s : List y.Socket)
            → length p0_s ≡ n
            → AreOthers n 0 writes
            → AreOthers n 0 reads
            → ((p : ℕ) → p < suc n → p ≢ 0 → Arrives (pledge p) (get_elem? p0_s (p - 1)))
            → Gives (Completed n pledge 0) (seeds_exchange_p0 p0_s writes reads memory (pledge 0))
        unfolding seeds_exchange_p0 seeds_p0_read seeds_p0_write
        seeds_exchange_p0_lem p0_s e ws rs sent =
            let socket = λ (p : ℕ). get_elem? p0_s (p - 1) in
            rw (all_written 0 socket sent ws, all_read 0 socket sent rs, e)
              (Gives-bind (agreement_p0 n pledge _ memory size (pledge_read 0 socket sent))
                λ r x. gives (x, refl, refl))
