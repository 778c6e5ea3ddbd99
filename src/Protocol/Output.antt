-- ===== src/Protocol/Output.antt =====
-- What P0 prints, when the messages of the others have the sums of their cells.
use malicious_mpsi.Base.{
  All-map, ℕ, suc, ◌-◌, ◌≤◌, ◌<◌, ◌≡◌, sym, ◌∙◌, ap, ap₂, subst, List, [], map, arith, length,
  get_or, range, All, All_at, Within, ◌∈◌, gives, Gives-bind, Gives-value,
}
use malicious_mpsi.Block.{Blocks, Block, block0, cell, xor_over}
use malicious_mpsi.Random.{Random}
use malicious_mpsi.Bloom.{Cipher}
use malicious_mpsi.Bloom.Marking.{hash_set-Within}
use malicious_mpsi.Gbf.Ranges.{XorRange}
use malicious_mpsi.Gbf.Shape.{SameShape-IsValid, unchanged}
use malicious_mpsi.Exchange.{Commitments}
use malicious_mpsi.Exchange.Places.{range_lt}
use malicious_mpsi.Codeword.Sums.{get_intersection_lem}
use malicious_mpsi.Collect.Receive.{compute_gbf_lem}
use malicious_mpsi.Protocol.{Inputs, with_sets, run_p0}
use malicious_mpsi.Protocol.Sharing.{set_up_lem}
use malicious_mpsi.Protocol.Online.{Goes, goes, go_on-Goes}
use malicious_mpsi.Protocol.Sums.{
  collected_zero, index_of, All-with_sets, mem-with_sets, item_of-with_sets, xor_over-map,
}
use malicious_mpsi.Protocol.Run.{Choices, IsRun, p0_of, set_of, total, built, totals_zero}
use malicious_mpsi.Protocol.Messages.{sets_at, sets-Within, HasTotals, HasSums, p0_online}

module _ ⦃b : Blocks⦄ ⦃r : Random⦄ ⦃c : Cipher⦄ ⦃o : Commitments⦄ (n nbf seeds_num : ℕ)
    (x : ℕ → Inputs) (d : Choices n nbf seeds_num x) (run : IsRun n nbf seeds_num x d) where
  -- The sums of a common item over P0's cells after the messages cancel.
  sum_zero :
      (e : ℕ) (u : List Block) (sent : ℕ → List Block) (v : List Block)
      → ((q : ℕ) → q < suc n → e ∈ (x q).items)
      → HasTotals n nbf seeds_num x d run 0 u
      → All (λ p. HasSums n nbf seeds_num x d run p (sent p)) (range 1 n)
      → XorRange (λ k. xor_over (λ msg. cell msg k) (map sent (range 1 n))) 0 nbf u v
      → xor_over (cell v) (set_of n nbf seeds_num x e) ≡ block0
  sum_zero e u sent v common t sums y =
      collected_zero n (set_of n nbf seeds_num x e) (cell v) (total n nbf seeds_num x d run)
        (λ p. cell (sent p))
        (λ k i.
          y.inside k (omega arith) (in_filter k i)
          ∙ ap₂ b.xor (t.1 k (in_filter k i)) (xor_over-map (λ msg. cell msg k) sent (range 1 n)))
        (λ p i.
          (All_at (λ p. HasSums n nbf seeds_num x d run p (sent p)) (range 1 n) sums i).1 e
            (common p (omega (arith, range_lt 1 n p i))))
        (λ k i. totals_zero n nbf seeds_num x d run e k common i)
    where
      in_filter : (k : ℕ) → k ∈ set_of n nbf seeds_num x e → k < nbf
      in_filter k i = All_at (λ j. j < nbf) _ (hash_set-Within nbf _ e seeds_num run.nonempty) i

  listed :
      (e : ℕ) (u : List Block) (sent : ℕ → List Block) (v : List Block)
      → ((q : ℕ) → q < suc n → e ∈ (x q).items)
      → HasTotals n nbf seeds_num x d run 0 u
      → All (λ p. HasSums n nbf seeds_num x d run p (sent p)) (range 1 n)
      → XorRange (λ k. xor_over (λ msg. cell msg k) (map sent (range 1 n))) 0 nbf u v
      → (js : List ℕ) × ((e, js) ∈ with_sets (x 0).items (d.marks 0).h_kokhav)
        × (xor_over (cell v) js ≡ block0)
  listed e u sent v common t sums y =
      let (at, l, same) = index_of e (x 0).items (common 0 (omega arith)) in
      let bt = built n nbf seeds_num x d run 0 (omega arith) in
      let set =
        sets_at n nbf seeds_num x d run 0 (omega arith) at l ∙ ap (set_of n nbf seeds_num x) same in
      (
        get_or (d.marks 0).h_kokhav at [],
        subst
            (λ t.
              (t, get_or (d.marks 0).h_kokhav at []) ∈ with_sets (x 0).items (d.marks 0).h_kokhav)
            same
            (mem-with_sets (x 0).items (d.marks 0).h_kokhav at l (omega (arith, bt.sets_length))),
        ap (xor_over (cell v)) set ∙ sum_zero e u sent v common t sums y,
      )

  -- The items that P0 prints are its own, and those that all parties have are among them.
  abbrev pub IsOutput : List ℕ → Type 0
  IsOutput found =
      ((e : ℕ) → ((q : ℕ) → q < suc n → e ∈ (x q).items) → e ∈ found)
      × ((e : ℕ) → e ∈ found → e ∈ (x 0).items)

  pub p0_lem :
      (sent : ℕ → List Block)
      → All (λ p. HasSums n nbf seeds_num x d run p (sent p)) (range 1 n)
      → Goes IsOutput (p0_of n nbf seeds_num x sent)
  unfolding run_p0
  p0_lem sent sums =
      let (s, e, y) = Gives-value (set_up_lem n nbf x 0 (omega arith) run.ready) in
      rw (e, y.seed, run.filters 0 (omega arith), pred)
        (go_on-Goes (p0_online n nbf seeds_num x d run s y) λ u t.
          Gives-bind
            (compute_gbf_lem (record s.0 { gbf = u }) (map sent (range 1 n)) nbf
              (SameShape-IsValid (unchanged s.0 u) (t.0 ∙ sym y.gbf_length ∙ sym y.valid.size)
                y.valid)
              (sym y.gbf_length)
              (All-map (λ p. HasSums n nbf seeds_num x d run p (sent p)) (λ msg. nbf ≤ length msg)
                sent (range 1 n) (λ p h. omega (arith, h.0)) sums))
            λ v z.
              Gives-bind
                (get_intersection_lem (with_sets (x 0).items (d.marks 0).h_kokhav) v.gbf (
                  All-with_sets (Within (length v.gbf)) _ _ (
                    rw (z.0.same_length, t.0)
                      (sets-Within n nbf seeds_num x d run 0 (omega arith)))))
                λ found f. gives (
                  goes (
                    λ e common. (f e).1 (listed e u sent v.gbf common t sums z.0),
                    λ e i. item_of-with_sets _ _ e _ ((f e).0 i).1,
                  )))
    where
      pred : suc n - 1 ≡ n
      pred = omega arith
