-- ===== src/Ote/Agreement.antt =====
-- The OTs of two parties agree.
use mathlib.Core.Option.{some-injective, none-ne-some}
use malicious_mpsi.Gbf.Chunks.{chosen}
use malicious_mpsi.Base.{
  All, none, get_or, set, store_of_lt, length-set, get_or-set_self, get_or-set_ne,
  get_elem?-eq-get_or, map, range, ◌≤◌, ◌==◌, if◌then◌else◌, eq-cases, eq→==, ne→==, inl, inr,
  Option-cases, Bool-cases, Gives-map, ℕ, zero, suc, ◌+◌, ◌<◌, ◌≡◌, refl, sym, ◌∙◌, ap, List, [],
  ◌∷◌, ◌++◌, Option, some, arith, get_elem?, length, Gives, gives, Gives-bind, subst,
}
use malicious_mpsi.Block.{Blocks, Block, block0}
use malicious_mpsi.Random.{Random}
use malicious_mpsi.Choose.Opening.{IsOt}
use malicious_mpsi.Party.{Party}
use malicious_mpsi.Party.Ready.{IsReady}
use malicious_mpsi.Ote.{
  LibOte, single_thread, split_base, extenders, write_msgs, routine, set_base_ots, two_choose_one,
  party_ots,
}

-- Two lists of the same length, with matched entries.
abbrev Pairwise : {A : Type 0} {B : Type 0} → (A → B → Type 0) → List A → List B → Type 0
Pairwise R [] [] = Unit
Pairwise R [] (y ∷ ys) = ⊥
Pairwise R (x ∷ xs) [] = ⊥
Pairwise R (x ∷ xs) (y ∷ ys) = R x y × Pairwise R xs ys

module _ {A : Type 0} {B : Type 0} (R : A → B → Type 0) where
  Pairwise-snoc :
      (xs : List A) (ys : List B) (x : A) (y : B)
      → Pairwise R xs ys
      → R x y
      → Pairwise R (xs ++ (x ∷ [])) (ys ++ (y ∷ []))
  Pairwise-snoc [] [] x y p h = (h, tt)
  Pairwise-snoc [] (y' ∷ ys) x y p h = absurd p
  Pairwise-snoc (x' ∷ xs) [] x y p h = absurd p
  Pairwise-snoc (x' ∷ xs) (y' ∷ ys) x y p h = (p.0, Pairwise-snoc xs ys x y p.1 h)

  Pairwise-at :
      (xs : List A) (ys : List B) (i : ℕ)
      → Pairwise R xs ys
      → i < length xs
      → (x : A) × (y : B) × (get_elem? xs i ≡ some x) × (get_elem? ys i ≡ some y) × R x y
  Pairwise-at [] ys i p h = absurd (omega arith)
  Pairwise-at (x ∷ xs) [] i p h = absurd p
  Pairwise-at (x ∷ xs) (y ∷ ys) zero p h = (x, y, refl, refl, p.0)
  Pairwise-at (x ∷ xs) (y ∷ ys) (suc i) p h = Pairwise-at xs ys i p.1 (omega arith)

-- The thread that writes to element `t` last.
abbrev pub last_writer : List (ℕ × ℕ) → ℕ → Option ℕ
last_writer [] t = none
last_writer ((i, k) ∷ writes) t = elim (last_writer writes t) [
  | some j ↦ some j
  | none ↦ if k == t then some i else none
]

-- Each write is of one of the threads, to one of the elements.
abbrev pub AreWrites : ℕ → ℕ → List (ℕ × ℕ) → Type 0
AreWrites threads n writes = All (λ w. (w.0 < threads) × (w.1 < n)) writes

last_writer_lt :
    (threads n t i : ℕ) (writes : List (ℕ × ℕ))
    → AreWrites threads n writes
    → last_writer writes t ≡ some i
    → i < threads
last_writer_lt threads n t i [] w e = absurd (none-ne-some i e)
last_writer_lt threads n t i ((j, k) ∷ writes) w e = elim (Option-cases (last_writer writes t)) [
  | inr (m, f) ↦ last_writer_lt threads n t i writes w.1 (f ∙ rw f at e)
  | inl f ↦ elim (Bool-cases (k == t)) [
    | inl q ↦ omega (arith, w.0.0, some-injective _ _ (rw (f, q) at e))
    | inr q ↦ absurd (none-ne-some i (rw (f, q) at e))
  ]
]

abbrev value_or : {A : Type 0} → A → Option A → A
value_or d none = d
value_or d (some x) = x

-- What an element holds, from what it has held and what the threads write to it.
abbrev held_by : {A : Type 0} → (ℕ → A) → A → Option ℕ → A
held_by result old none = old
held_by result old (some i) = result i

module _ {A : Type 0} (outcome : ℕ → Option (List A)) (result : ℕ → List A) (threads n : ℕ) (d : A)
    (ready : (k : ℕ) → k < threads → (outcome k ≡ some (result k)) × (length (result k) ≡ n)) where
  -- Each element holds what the last thread to write to it has written.
  IsWritten : List (ℕ × ℕ) → List A → List A → Type 0
  IsWritten writes msgs u =
      (length u ≡ n)
      × ((t : ℕ)
          → t < n
          → get_or u t d
            ≡ held_by (λ i. get_or (result i) t d) (get_or msgs t d) (last_writer writes t))

  written_first :
      (i k t : ℕ) (writes : List (ℕ × ℕ)) (msgs : List A) (x y : A)
      → k < length msgs
      → x ≡ get_or (result i) k d
      → y ≡ held_by (λ j. get_or (result j) t d) (get_or (set msgs k x) t d) (last_writer writes t)
      → y ≡ held_by (λ j. get_or (result j) t d) (get_or msgs t d) (last_writer ((i, k) ∷ writes) t)
  written_first i k t writes msgs x y h e f = elim (Option-cases (last_writer writes t)) [
    | inr (m, g) ↦ rw g (rw g at f)
    | inl g ↦ elim (eq-cases k t) [
      | inl q ↦
          rw (g, eq→== k t q)
            ((rw g at f)
              ∙ ap (λ j. get_or (set msgs k x) j d) (sym q)
              ∙ get_or-set_self msgs k x d h
              ∙ e
              ∙ ap (λ j. get_or (result i) j d) q)
      | inr ne ↦ rw (g, ne→== k t ne) ((rw g at f) ∙ get_or-set_ne msgs k t x d (λ q. ne (sym q)))
    ]
  ]

  write_msgs-IsWritten :
      (writes : List (ℕ × ℕ)) (msgs : List A)
      → AreWrites threads n writes
      → length msgs ≡ n
      → Gives (IsWritten writes msgs) (write_msgs outcome writes msgs)
  unfolding write_msgs IsWritten
  write_msgs-IsWritten [] msgs w l = gives (l, λ t h. refl)
  write_msgs-IsWritten ((i, k) ∷ writes) msgs w l =
      let (e, size) = ready i w.0.0 in
      rw
        (
          e,
          get_elem?-eq-get_or (result i) k d (omega (arith, size, w.0.1)),
          store_of_lt msgs k (get_or (result i) k d) (omega (arith, l, w.0.1)),
        )
        (Gives-map
          (write_msgs-IsWritten writes (set msgs k (get_or (result i) k d)) w.1
            (length-set msgs k _ ∙ l))
          λ u x. (
            x.0,
            λ t h. written_first i k t writes msgs _ _ (omega (arith, l, w.0.1)) refl (x.1 t h),
          ))

single_from-AreWrites : (i n m : ℕ) → i + n ≤ m → AreWrites 1 m (map (λ t. (0, t)) (range i n))
single_from-AreWrites i zero m h = tt
single_from-AreWrites i (suc n) m h =
    ((omega arith, omega arith), single_from-AreWrites (suc i) n m (omega arith))

single_from-last :
    (i n t : ℕ) → i ≤ t → t < i + n → last_writer (map (λ k. (0, k)) (range i n)) t ≡ some 0
single_from-last i zero t h l = absurd (omega arith)
single_from-last i (suc n) t h l = elim (eq-cases i t) [
  | inl e ↦ elim (Option-cases (last_writer (map (λ k. (0, k)) (range (suc i) n)) t)) [
    | inl f ↦ rw (f, eq→== i t e) refl
    | inr (j, f) ↦ rw f (
        ap some (
          omega (
            arith,
            last_writer_lt 1 (suc i + n) t j _
                (single_from-AreWrites (suc i) n (suc i + n) (omega arith)) f,
          )))
  ]
  | inr ne ↦ rw (single_from-last (suc i) n t (omega arith) (omega arith)) refl
]

length-snoc : {A : Type 0} (xs : List A) (x : A) → length (xs ++ (x ∷ [])) ≡ suc (length xs)
length-snoc [] x = refl
length-snoc (y ∷ xs) x = ap suc (length-snoc xs x)

length-split_base :
    {E : Type 0} (split : E → E × E) (n : ℕ) (e : E) (others : List E)
    → length (split_base split n e others).1 ≡ length others + n
unfolding split_base
length-split_base split zero e others = omega arith
length-split_base split (suc n) e others =
    length-split_base split n _ _ ∙ omega (arith, length-snoc others (split e).0)

length-extenders :
    {E : Type 0} (split : E → E × E) (n : ℕ) (e : E) → length (extenders split n e) ≡ n
unfolding extenders
length-extenders split zero e = refl
length-extenders split (suc n) e = omega (arith, length-split_base split n e [])

module _ ⦃b : Blocks⦄ ⦃o : LibOte⦄ where
  split_base-Matched :
      (n : ℕ) (s : o.OtSender) (r : o.OtReceiver) (ss : List o.OtSender) (rs : List o.OtReceiver)
      → o.Matched s r
      → Pairwise o.Matched ss rs
      → o.Matched (split_base o.split_sender n s ss).0 (split_base o.split_receiver n r rs).0
        × Pairwise o.Matched
            (split_base o.split_sender n s ss).1
            (split_base o.split_receiver n r rs).1
  unfolding split_base
  split_base-Matched zero s r ss rs h p = (h, p)
  split_base-Matched (suc n) s r ss rs h p =
      let (new, old) = o.split-Matched s r h in
      split_base-Matched n _ _ _ _ old (Pairwise-snoc o.Matched ss rs _ _ p new)

  set_base_ots-Matched : (link : o.Link) → o.Matched (set_base_ots link).0 (set_base_ots link).1
  unfolding set_base_ots
  set_base_ots-Matched link =
      o.set_base-Matched _ _ _ (o.base_ots-IsOt link (o.random_bits link) (o.random_bits_size link))

  extenders-Matched :
      (threads : ℕ) (link : o.Link)
      → Pairwise o.Matched
          (extenders o.split_sender threads (set_base_ots link).0)
          (extenders o.split_receiver threads (set_base_ots link).1)
  unfolding extenders
  extenders-Matched zero link = tt
  extenders-Matched (suc n) link = split_base-Matched n _ _ [] [] (set_base_ots-Matched link) tt

  routine-IsOt :
      (link : o.Link) (threads n : ℕ) (choice : List ℕ) (i : ℕ)
      → length choice ≡ n
      → i < threads
      → (x : List (Block × Block) × List Block) × (routine link threads n choice i ≡ some x)
        × IsOt n x.0 choice x.1
  unfolding routine
  routine-IsOt link threads n choice i e h =
      let (s, r, f, g, m) =
        Pairwise-at o.Matched _ _ i (extenders-Matched threads link)
          (omega (arith, length-extenders o.split_sender threads (set_base_ots link).0)) in
      (o.random_ots s r n choice, rw (f, g) refl, o.random_ots-IsOt s r n choice m e)

  -- What thread `i` has of the library.
  abbrev result_of : o.Link → ℕ → ℕ → List ℕ → ℕ → List (Block × Block) × List Block
  result_of link threads n choice i = value_or ([], []) (routine link threads n choice i)

  result_of-IsOt :
      (link : o.Link) (threads n : ℕ) (choice : List ℕ) (i : ℕ)
      → length choice ≡ n
      → i < threads
      → (routine link threads n choice i ≡ some (result_of link threads n choice i))
        × IsOt n (result_of link threads n choice i).0 choice (result_of link threads n choice i).1
  result_of-IsOt link threads n choice i e h =
      let (x, f, ot) = routine-IsOt link threads n choice i e h in
      let same : x ≡ result_of link threads n choice i = ap (value_or ([], [])) (sym f) in
      (f ∙ ap some same, subst (λ y. IsOt n y.0 choice y.1) same ot)

  pub two_choose_one_lem :
      (link : o.Link) (threads : ℕ) (writes_s writes_r : List (ℕ × ℕ))
      (strings : List (Block × Block)) (choice : List ℕ) (msgs : List Block)
      → length choice ≡ length strings
      → length msgs ≡ length strings
      → AreWrites threads (length strings) writes_s
      → AreWrites threads (length strings) writes_r
      → ((t : ℕ)
          → t < length strings
          → (i : ℕ) × (last_writer writes_s t ≡ some i) × (last_writer writes_r t ≡ some i))
      → Gives
          (λ x. IsOt (length strings) x.0 choice x.1)
          (two_choose_one link threads writes_s writes_r strings choice msgs)
  unfolding two_choose_one IsWritten
  two_choose_one_lem link threads writes_s writes_r strings choice msgs e l ws wr last =
      let n = length strings in
      let result = result_of link threads n choice in
      Gives-bind
        (write_msgs-IsWritten _ (λ i. (result i).0) threads n (block0, block0)
          (λ k h. let (f, ot) = result_of-IsOt link threads n choice k e h in (rw f refl, ot.sent))
          writes_s strings ws refl)
        λ sent x.
          Gives-bind
            (write_msgs-IsWritten _ (λ i. (result i).1) threads n block0
              (λ k h.
                let (f, ot) = result_of-IsOt link threads n choice k e h in (rw f refl, ot.got))
              writes_r msgs wr l)
            λ received y. gives (record {
              sent = x.0;
              chose = e;
              got = y.0;
              agree = λ t h.
                  let (i, p, q) = last t h in
                  let (f, ot) =
                    result_of-IsOt link threads n choice i e
                      (last_writer_lt threads n t i writes_s ws p) in
                  (rw q at (y.1 t h))
                  ∙ ot.agree t h
                  ∙ ap (λ s. chosen s (get_or choice t 0)) (sym (rw p at (x.1 t h)));
            })

  -- What the OTs leave of two parties.
  pub record HaveOts ⦃r : Random⦄ (n : ℕ) (sender receiver : Party) (x : Party × Party)
      : Type 0 where
    pub ot : IsOt n x.0.strings receiver.bitvector x.1.strings_choices
    pub same_bits : x.1.bitvector ≡ receiver.bitvector
    pub same_sources : (x.0.crypt ≡ sender.crypt) × (x.1.crypt ≡ receiver.crypt)

  -- Two parties that are ready for `n` OTs: with the one thread that the code starts, the OTs leave
  -- strings with the sender and with the receiver that agree for the receiver's choice bits, and
  -- change neither the choice bits nor the parties' random sources.
  pub party_ots_lem :
      ⦃r : Random⦄ (link : o.Link) (n ones_s ones_r : ℕ) (sender receiver : Party)
      → IsReady n ones_s sender
      → IsReady n ones_r receiver
      → Gives (HaveOts n sender receiver) (party_ots link sender receiver)
  unfolding party_ots single_thread
  party_ots_lem link n ones_s ones_r sender receiver s r =
      Gives-bind
        (two_choose_one_lem link 1 _ _ sender.strings receiver.bitvector receiver.strings_choices
          (r.bits_size ∙ sym s.sent_size) (r.received_size ∙ sym s.sent_size)
          (single_from-AreWrites 0 (length sender.strings) _ (omega arith))
          (single_from-AreWrites 0 (length receiver.strings_choices) _
            (omega (arith, r.received_size, s.sent_size)))
          λ t h. (
            0,
            single_from-last 0 (length sender.strings) t (omega arith) (omega arith),
            single_from-last 0 (length receiver.strings_choices) t (omega arith)
                (omega (arith, r.received_size, s.sent_size)),
          ))
        λ x ot. gives (record {
          ot = subst (λ k. IsOt k x.0 receiver.bitvector x.1) s.sent_size ot;
          same_bits = refl;
          same_sources = (refl, refl);
        })
