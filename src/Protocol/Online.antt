-- ===== src/Protocol/Online.antt =====
-- `online_phase`: every cell gets the strings of all exchanges, whatever the order in the queues.
use mathlib.Core.List.{Permᴰ}
use malicious_mpsi.Base.{
  ℕ, zero, suc, ◌+◌, ◌≤◌, ◌<◌, ◌≡◌, refl, sym, ◌∙◌, ap, ap₂, subst, List, [], ◌∷◌, Option, some,
  arith, length, get_or, range, All, Gives, gives, Gives-bind,
}
use malicious_mpsi.Block.{Blocks, Block, ◌⊕◌, block0, cell, xor_over, ⊕_left_comm}
use malicious_mpsi.Random.{Random}
use malicious_mpsi.Arrange.{arranged}
use malicious_mpsi.Gbf.Chunks.{chosen, ordered_lem, ordered_bf_lem}
use malicious_mpsi.Approt.{Session, going, online_apport_receiver}
use malicious_mpsi.Segments.{Job, job_recv, job_sender, job_block}
use malicious_mpsi.Segments.Quarters.{IsDoable, quarter, run_threads_lem}
use malicious_mpsi.Protocol.{go_on, Side, run_online_apport, run_exchanges, online_phase}

-- The session goes on, with a value that satisfies `P`.
pub data IsGoing {A : Type 0} (P : A → Type 0) : Session A → Type 0 where
  goes : {a : A} → P a → IsGoing P (going a)

-- The run returns, and its session goes on.
abbrev pub Goes : {A : Type 0} → (A → Type 0) → Option (Session A) → Type 0
Goes P r = Gives (IsGoing P) r

pub go_on-Goes :
    {A : Type 0} {B : Type 0} {P : A → Type 0} {Q : B → Type 0} {r : Option (Session A)}
    {f : A → Option (Session B)}
    → Goes P r
    → ((a : A) → P a → Goes Q (f a))
    → Goes Q (go_on r f)
unfolding go_on
go_on-Goes (gives (goes p)) h = h _ p

pub Goes-map :
    {A : Type 0} {P Q : A → Type 0} {r : Option (Session A)}
    → Goes P r
    → ((a : A) → P a → Q a)
    → Goes Q r
Goes-map (gives (goes p)) h = gives (goes (h _ p))

pub Goes-value :
    {A : Type 0} {P : A → Type 0} {r : Option (Session A)}
    → Goes P r
    → (a : A) × (r ≡ some (going a)) × P a
Goes-value (gives (goes {a} p)) = (a, refl, p)

module _ ⦃b : Blocks⦄ where
  xor_over-Permᴰ :
      {A : Type 0} {xs ys : List A} (f : A → Block) → Permᴰ xs ys → xor_over f xs ≡ xor_over f ys
  xor_over-Permᴰ f Permᴰ.nil = refl
  xor_over-Permᴰ f (Permᴰ.cons e p) = ap₂ (λ x t. f x ⊕ t) e (xor_over-Permᴰ f p)
  xor_over-Permᴰ f (Permᴰ.swap {l} d e) =
      ⊕_left_comm _ _ _ ∙ ap₂ (λ x y. f x ⊕ (f y ⊕ xor_over f l)) e d
  xor_over-Permᴰ f (Permᴰ.trans p q) = xor_over-Permᴰ f p ∙ xor_over-Permᴰ f q

All-Permᴰ : {A : Type 0} {xs ys : List A} (P : A → Type 0) → Permᴰ xs ys → All P xs → All P ys
All-Permᴰ P Permᴰ.nil h = tt
All-Permᴰ P (Permᴰ.cons e p) h = (subst P e h.0, All-Permᴰ P p h.1)
All-Permᴰ P (Permᴰ.swap d e) h = (subst P e h.1.0, (subst P d h.0, h.1.1))
All-Permᴰ P (Permᴰ.trans p q) h = All-Permᴰ P q (All-Permᴰ P p h)

module _ ⦃b : Blocks⦄ ⦃r : Random⦄ where
  -- The block that a job adds to a cell.
  abbrev added : Job → ℕ → Block
  added (job_recv to_xor order) k = cell to_xor (get_or order k 0)
  added (job_sender to_xor bf order) k =
      chosen (get_or to_xor (get_or order k 0) (block0, block0)) (get_or bf k 0)

  -- What an exchange adds to a cell, when this party's function is `func`.
  abbrev pub side_block : List ℕ → Side → List ℕ → ℕ → Block
  side_block bf side func k =
      cell side.received (get_or func k 0)
      ⊕ chosen (get_or side.strings (get_or side.func_sender k 0) (block0, block0)) (get_or bf k 0)

module _ ⦃b : Blocks⦄ ⦃r : Random⦄ (nbf : ℕ) where
  -- The party makes the function `func`, and both functions have a string for every place.
  pub record IsPlayable (bf : List ℕ) (side : Side) (func : List ℕ) : Type 0 where
    pub makes : online_apport_receiver bf nbf side.new_indexes side.prepared ≡ some (arranged func)
    pub recv_size : nbf ≤ length func
    pub recv_in : (k : ℕ) → k < nbf → get_or func k 0 < length side.received
    pub send_size : nbf ≤ length side.func_sender
    pub send_in : (k : ℕ) → k < nbf → get_or side.func_sender k 0 < length side.strings

  module _ (bf : List ℕ) (sides : ℕ → Side) (func : ℕ → List ℕ) where
    abbrev pub jobs_of : ℕ → ℕ → List Job
    jobs_of i zero = []
    jobs_of i (suc n) =
        job_recv (sides i).received (func i)
        ∷ job_sender (sides i).strings bf (sides i).func_sender
        ∷ jobs_of (suc i) n

    abbrev AllPlayable : ℕ → ℕ → Type 0
    AllPlayable i n = (j : ℕ) → i ≤ j → j < i + n → IsPlayable bf (sides j) (func j)

    run_exchanges_lem :
        (i n : ℕ) → AllPlayable i n → run_exchanges nbf bf sides i n ≡ some (going (jobs_of i n))
    unfolding run_exchanges run_online_apport go_on
    run_exchanges_lem i zero h = refl
    run_exchanges_lem i (suc n) h =
        rw
          (
            (h i (omega arith) (omega arith)).makes,
            run_exchanges_lem (suc i) n (λ j p q. h j (omega arith) (omega arith)),
          )
          refl

    xor_over-jobs_of :
        (k i n : ℕ)
        → xor_over (λ job. added job k) (jobs_of i n)
          ≡ xor_over (λ j. side_block bf (sides j) (func j) k) (range i n)
    xor_over-jobs_of k i zero = refl
    xor_over-jobs_of k i (suc n) =
        sym (b.xor_assoc _ _ _) ∙ ap (b.xor _) (xor_over-jobs_of k (suc i) n)

    jobs_of-IsDoable :
        (i n : ℕ)
        → nbf ≤ length bf
        → ((k : ℕ) → get_or bf k 0 < 2)
        → AllPlayable i n
        → All (IsDoable nbf added) (jobs_of i n)
    unfolding job_block
    jobs_of-IsDoable i zero long small h = tt
    jobs_of-IsDoable i (suc n) long small h =
        let p = h i (omega arith) (omega arith) in
        (
          λ k l.
              ordered_lem (sides i).received (func i) k (omega (arith, p.recv_size))
                (p.recv_in k l),
          (
            λ k l.
                ordered_bf_lem (sides i).strings (sides i).func_sender bf k
                  (omega (arith, p.send_size)) (omega arith) (p.send_in k l) (small k),
            jobs_of-IsDoable (suc i) n long small (λ j p q. h j (omega arith) (omega arith)),
          ),
        )

  -- The filter has got what all the exchanges add.
  pub online_phase_lem :
      (schedule : ℕ → List Job → List Job) (bf : List ℕ) (sides : ℕ → Side) (func : ℕ → List ℕ)
      (n : ℕ) (gbf : List Block)
      → length gbf ≡ nbf
      → nbf ≤ length bf
      → ((k : ℕ) → get_or bf k 0 < 2)
      → ((i : ℕ) (jobs : List Job) → Permᴰ jobs (schedule i jobs))
      → ((j : ℕ) → j < n → IsPlayable bf (sides j) (func j))
      → Goes
          (λ u.
            (length u ≡ nbf)
            × ((k : ℕ)
                → k < nbf
                → cell u k
                  ≡ cell gbf k ⊕ xor_over (λ j. side_block bf (sides j) (func j) k) (range 0 n)))
          (online_phase nbf schedule bf sides n gbf)
  unfolding online_phase go_on
  online_phase_lem schedule bf sides func n gbf size long small perm h =
      rw (run_exchanges_lem bf sides func 0 n all) (
        Gives-bind
          (run_threads_lem nbf (λ i. schedule i jobs) added gbf size
            (λ i.
              All-Permᴰ (IsDoable nbf added) (perm i jobs)
                (jobs_of-IsDoable bf sides func 0 n long small all)))
          λ u x. gives (
            goes (
              x.same_length ∙ size,
              λ k l.
                  x.inside k (omega arith) l
                  ∙ ap (b.xor _) (
                      sym (xor_over-Permᴰ (λ job. added job k) (perm (quarter nbf k) jobs))
                      ∙ xor_over-jobs_of bf sides func k 0 n),
            )))
    where
      jobs : List Job
      jobs = jobs_of bf sides func 0 n

      all : AllPlayable bf sides func 0 n
      all j p q = h j (omega arith)
