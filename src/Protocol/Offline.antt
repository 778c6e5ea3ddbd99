-- ===== src/Protocol/Offline.antt =====
-- The offline phase of two honest parties gives what `IsRun` asks of their exchange.
use mathlib.Core.List.{append-nil}
use malicious_mpsi.Base.{
  ℕ, ◌+◌, ◌-◌, ◌^◌, ◌≤◌, ◌<◌, ◌≡◌, ◌≢◌, refl, sym, ◌∙◌, ap, subst, inl, inr, Bool, List, [], ◌∷◌,
  Bool-cases, get_or, ◌==◌, some, arith, length, range, Within, Ascending-Distinct, Gives,
  Gives-bind, Gives-some, some-Gives, Gives-value,
}
use mathlib.Core.Option.{none-ne-some}
use malicious_mpsi.Block.{Blocks, Block}
use malicious_mpsi.Random.{Random, Crypto}
use malicious_mpsi.Bloom.{Cipher}
use malicious_mpsi.SubGroup.{get_sub_group}
use malicious_mpsi.SubGroup.Draw.{IsGroup, get_sub_group_lem}
use malicious_mpsi.Choose.{Opened, compute_big_r, sort_desc}
use malicious_mpsi.Choose.Moving.{zeros_of, compute_big_r_lem}
use malicious_mpsi.Choose.Sorting.{Descends-Within, Descends-length, sort_desc-Descends}
use malicious_mpsi.Choose.Opening.{IsOt, zeros_of-Within}
use malicious_mpsi.Arrange.{arranged}
use malicious_mpsi.Arrange.Rank.{rank}
use malicious_mpsi.Approt.{
  going, Prepared, set_sub_group, offline_apport_sender, online_apport_receiver,
}
use malicious_mpsi.Approt.Function.{IsFunction, apport_receiver_lem}
use malicious_mpsi.Approt.Check.{honest_session}
use malicious_mpsi.Approt.Offline.{answer, offline_apport}
use malicious_mpsi.Wire.{Layout, send_sub_group, recv_group, send_big_r, recv_big_r}
use malicious_mpsi.Wire.Trips.{
  set_sub_group-get_sub_group, recv_group-send_sub_group, recv_big_r-send_big_r,
}
use malicious_mpsi.Protocol.{Side}
use malicious_mpsi.Protocol.Online.{Goes, goes}
use malicious_mpsi.Protocol.Pairs.{IsExchange}

Within-weaken : (m n : ℕ) (xs : List ℕ) → m ≤ n → Within m xs → Within n xs
Within-weaken m n [] h w = tt
Within-weaken m n (x ∷ xs) h w = (omega (arith, w.0), Within-weaken m n xs h w.1)

length-zeros_of : (bits ts : List ℕ) → length (zeros_of bits ts) ≤ length ts
length-zeros_of bits [] = omega arith
length-zeros_of bits (t ∷ ts) = elim (Bool-cases (get_or bits t 0 == 0)) [
  | inl e ↦ rw e (omega (arith, length-zeros_of bits ts))
  | inr e ↦ rw e (omega (arith, length-zeros_of bits ts))
]

module _ ⦃b : Blocks⦄ ⦃r : Random⦄ ⦃c : Cipher⦄ ⦃l : Layout⦄ where
  drawn-IsGroup :
      (n nc : ℕ) (seed : Block) (sub_group : List ℕ)
      → 0 < n
      → get_sub_group n nc seed ≡ some sub_group
      → IsGroup n nc sub_group
  drawn-IsGroup n nc seed sub_group h e = elim (get_sub_group_lem n nc seed h) [
    | inl x ↦ Gives-some x.2 e
    | inr x ↦ absurd (none-ne-some sub_group (sym x.2 ∙ e))
  ]

  answer_lem :
      (n nc max_ones : ℕ) (bits : List ℕ) (received : List Block) (strings : List (Block × Block))
      (sub_group : List ℕ) (p : Prepared)
      → n < 2 ^ 32
      → IsOt n strings bits received
      → IsGroup n nc sub_group
      → zeros_of bits (sort_desc sub_group) ≢ []
      → compute_big_r sub_group (range 0 n) bits n received ≡ some p.opened
      → nc ≤ max_ones + length p.opened.big_r
      → length p.opened.big_r < 2 ^ 32
      → Within (2 ^ 32) p.opened.big_r
      → answer nc max_ones strings p ≡ some (going p)
  unfolding answer
  answer_lem n nc max_ones bits received strings sub_group p small ot g opens e fits short words =
      rw
        (
          subst
              (λ t.
                recv_big_r t
                ≡ some (p.opened.big_r, p.opened.r, (send_big_r p.opened.big_r p.opened.r).1, []))
              (append-nil _) (recv_big_r-send_big_r p.opened.big_r p.opened.r [] short words).0,
          subst
              (λ k.
                offline_apport_sender k max_ones strings p.opened.big_r p.opened.r
                ≡ some (going tt))
              g.size
              (honest_session n max_ones strings bits received sub_group p.opened ot
                (Ascending-Distinct sub_group g.ascending) g.within opens e
                (omega (arith, g.size))),
        )
        refl

  -- The receiver and the sender of one direction, with the function that this one has been sent.
  abbrev pub receiver_of : Side → Prepared → List ℕ → List Block → Side
  receiver_of side p new received = record side {
    prepared = p;
    new_indexes = new;
    received = received;
  }

  abbrev pub sender_of : Side → List (Block × Block) → List ℕ → Side
  sender_of side strings func = record side { strings = strings; func_sender = func }

  -- Two honest parties, over OTs that give what libOTe documents, with a check group that leaves
  -- enough OTs, at least two outside it for each choice bit and as many as the filter has bits of it,
  -- and that has a member of choice bit 0 and at most `maxOnes` others: the offline phase of the
  -- direction goes on, over its messages as bytes, and what the receiver has prepared makes the
  -- exchange a good one, in the sense that the whole protocol needs.
  pub offline_apport_lem :
      (nbf n nc max_ones : ℕ) (bits bf new : List ℕ) (received : List Block)
      (strings : List (Block × Block)) (crypt_s crypt_s' crypt_r : Crypto) (sub_group : List ℕ)
      (seed : Block) (s : Opened) (mine other : Side)
      → 0 < n
      → n < 2 ^ 32
      → IsOt n strings bits received
      → set_sub_group n nc crypt_s ≡ some (sub_group, seed, crypt_s')
      → nc + nbf ≤ n
      → nbf ≤ length bf
      → length new ≡ nbf
      → compute_big_r sub_group (range 0 n) bits n received ≡ some s
      → ((v : Bool) → 2 ≤ rank s.bits v (n - length sub_group))
      → ((v : Bool) → rank bf v nbf ≤ rank s.bits v (n - length sub_group))
      → zeros_of bits (sort_desc sub_group) ≢ []
      → nc ≤ max_ones + length s.big_r
      → Goes
          (λ p.
            (func : List ℕ) × IsExchange nbf bf
              (receiver_of mine p new received)
              (sender_of other strings func)
              func)
          (offline_apport nbf n nc max_ones bits received strings crypt_s crypt_r)
  unfolding offline_apport
  offline_apport_lem nbf n nc max_ones bits bf new received strings crypt_s crypt_s' crypt_r
        sub_group seed s mine other pos small ot drawn room long empty e two enough opens fits =
      let g =
        drawn-IsGroup n nc seed sub_group pos
          (set_sub_group-get_sub_group n nc crypt_s crypt_s' sub_group seed drawn) in
      let distinct = Ascending-Distinct sub_group g.ascending in
      let order = sort_desc-Descends n sub_group distinct g.within in
      let (aligned, avoids, opened, total) =
        Gives-some
          (compute_big_r_lem received n bits (omega (arith, ot.got)) sub_group ot.chose distinct
            g.within)
          e in
      let short : length s.big_r ≤ n = omega (
        arith,
        ap length opened,
        length-zeros_of bits (sort_desc sub_group),
        Descends-length n _ order,
      ) in
      let within : Within n s.big_r =
        subst (Within n) (sym opened) (zeros_of-Within n bits _ (Descends-Within n _ order)) in
      rw
        (
          drawn,
          subst (λ t. recv_group n t ≡ some (sub_group, (send_sub_group nc seed).1, []))
              (append-nil _)
              (recv_group-send_sub_group n nc crypt_s crypt_s' sub_group seed [] (omega arith)
                drawn).0,
        )
        (Gives-bind
          (apport_receiver_lem nbf n sub_group bits bf new received crypt_r s ot.chose
            (omega (arith, ot.got)) distinct g.within (omega (arith, g.size)) long empty e two
            enough)
          λ out x.
            let (p, going_on, same, makes) = x in
            rw going_on (
              some-Gives
                (answer_lem n nc max_ones bits received strings sub_group p small ot g opens
                  (e ∙ ap some (sym same)) (rw same fits) (rw same (omega arith))
                  (rw same (Within-weaken n (2 ^ 32) s.big_r (omega arith) within)))
                (goes (exchange_of p makes))))
    where
      exchange_of :
          (p : Prepared)
          → Gives
              (λ a. (func : List ℕ) × (a ≡ arranged func) × IsFunction n sub_group bits bf nbf func)
              (online_apport_receiver bf nbf new p)
          → (func : List ℕ) × IsExchange nbf bf
              (receiver_of mine p new received)
              (sender_of other strings func)
              func
      exchange_of p makes =
          let (a, e', made) = Gives-value makes in
          let (func, q, good) = made in
          (
            func,
            record {
              ots = n;
              bits = bits;
              sub_group = sub_group;
              ot = ot;
              makes = e' ∙ ap some q;
              good = good;
              arrives = refl;
            },
          )
