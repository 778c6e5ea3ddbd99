-- ===== src/Base/Sets.antt =====
-- `std::set<int>` as the ascending list of its members, in the order of its iterators.
use Prim.Native.Nat.{ℕ, ◌+◌, ◌≤◌, ◌<◌}
use mathlib.Core.Path.{◌≡◌, refl}
use mathlib.Core.Logic.{◌⊎◌, inl, inr}
use mathlib.Core.List.{List, [], ◌∷◌}
use native.Mathlib.Omega.{arith}
use malicious_mpsi.Base.Tests.{◌==◌, ltb, if◌then◌else◌, eq-cases, Bool-cases}
use malicious_mpsi.Base.Arrays.{length, All, ◌∈◌, Distinct}

-- `s.insert(x)`
unfoldable pub insert : ℕ → List ℕ → List ℕ
insert x [] = x ∷ []
insert x (y ∷ ys) = if ltb x y then x ∷ y ∷ ys else if x == y then y ∷ ys else y ∷ insert x ys

-- Every member is smaller than the next ones.
abbrev pub Ascending : List ℕ → Type 0
Ascending [] = Unit
Ascending (x ∷ xs) = All (λ y. x < y) xs × Ascending xs

data Insertion (x y : ℕ) (ys : List ℕ) : Type 0 where
  smaller : x < y → insert x (y ∷ ys) ≡ x ∷ y ∷ ys → Insertion x y ys
  same : x ≡ y → insert x (y ∷ ys) ≡ y ∷ ys → Insertion x y ys
  larger : y < x → insert x (y ∷ ys) ≡ y ∷ insert x ys → Insertion x y ys

insertion : (x y : ℕ) (ys : List ℕ) → Insertion x y ys
unfolding insert
insertion x y ys = elim (Bool-cases (ltb x y)) [
  | inl a ↦ smaller (ground arith) (rw a)
  | inr a ↦ elim (Bool-cases (x == y)) [
    | inl c ↦ same (ground arith) (rw (a, c))
    | inr c ↦ larger (ground arith) (rw (a, c))
  ]
]

pub mem-insert_self : (x : ℕ) (s : List ℕ) → x ∈ insert x s
unfolding insert
mem-insert_self x [] = inl refl
mem-insert_self x (y ∷ ys) = elim (insertion x y ys) [
  | smaller p e ↦ rw e (inl refl)
  | same p e ↦ rw e (inl p)
  | larger p e ↦ rw e (inr (mem-insert_self x ys))
]

pub mem-insert_of_mem : (x k : ℕ) (s : List ℕ) → k ∈ s → k ∈ insert x s
unfolding insert
mem-insert_of_mem x k [] i = absurd i
mem-insert_of_mem x k (y ∷ ys) i = elim (insertion x y ys) [
  | smaller p e ↦ rw e (inr i)
  | same p e ↦ rw e i
  | larger p e ↦ rw e (elim i [ inl q ↦ inl q | inr q ↦ inr (mem-insert_of_mem x k ys q) ])
]

pub mem-insert : (x k : ℕ) (s : List ℕ) → k ∈ insert x s → (k ≡ x) ⊎ (k ∈ s)
unfolding insert
mem-insert x k [] i = i
mem-insert x k (y ∷ ys) i = elim (insertion x y ys) [
  | smaller p e ↦ rw e at i
  | same p e ↦ inr (rw e at i)
  | larger p e ↦ later (mem-insert x k ys) (rw e at i)
]
  where
    later : (k ∈ insert x ys → (k ≡ x) ⊎ (k ∈ ys)) → k ∈ y ∷ insert x ys → (k ≡ x) ⊎ (k ∈ y ∷ ys)
    later ih (inl q) = inr (inl q)
    later ih (inr q) = elim (ih q) [ inl z ↦ inl z | inr z ↦ inr (inr z) ]

pub All-insert : (x : ℕ) (s : List ℕ) (P : ℕ → Type 0) → P x → All P s → All P (insert x s)
unfolding insert
All-insert x [] P p h = (p, tt)
All-insert x (y ∷ ys) P p h = elim (insertion x y ys) [
  | smaller q e ↦ rw e (p, h)
  | same q e ↦ rw e h
  | larger q e ↦ rw e (h.0, All-insert x ys P p h.1)
]

All-lt : (x y : ℕ) (s : List ℕ) → x < y → All (λ z. y < z) s → All (λ z. x < z) s
All-lt x y [] h a = tt
All-lt x y (z ∷ s) h a = (omega arith, All-lt x y s h a.1)

pub insert-Ascending : (x : ℕ) (s : List ℕ) → Ascending s → Ascending (insert x s)
unfolding insert
insert-Ascending x [] h = (tt, tt)
insert-Ascending x (y ∷ ys) h = elim (insertion x y ys) [
  | smaller q e ↦ rw e ((q, All-lt x y ys q h.0), h)
  | same q e ↦ rw e h
  | larger q e ↦ rw e (All-insert x ys (λ z. y < z) q h.0, insert-Ascending x ys h.1)
]

not_mem_of_All : (x : ℕ) (s : List ℕ) → All (λ z. x < z) s → ¬ (x ∈ s)
not_mem_of_All x [] h i = i
not_mem_of_All x (z ∷ s) h (inl e) = absurd (omega arith)
not_mem_of_All x (z ∷ s) h (inr i) = not_mem_of_All x s h.1 i

pub Ascending-Distinct : (s : List ℕ) → Ascending s → Distinct s
Ascending-Distinct [] h = tt
Ascending-Distinct (x ∷ s) h = (not_mem_of_All x s h.0, Ascending-Distinct s h.1)

pub mem-cases : (x : ℕ) (s : List ℕ) → (x ∈ s) ⊎ (¬ (x ∈ s))
mem-cases x [] = inr (λ i. i)
mem-cases x (y ∷ s) = elim (eq-cases x y) [
  | inl e ↦ inl (inl e)
  | inr n ↦ elim (mem-cases x s) [
    | inl i ↦ inl (inr i)
    | inr k ↦ inr (λ i. elim i [ inl e ↦ n e | inr z ↦ k z ])
  ]
]

pub le-length-insert : (x : ℕ) (s : List ℕ) → length s ≤ length (insert x s)
unfolding insert
le-length-insert x [] = omega arith
le-length-insert x (y ∷ ys) = ground (arith, le-length-insert x ys)

pub length-insert_le : (x : ℕ) (s : List ℕ) → length (insert x s) ≤ length s + 1
unfolding insert
length-insert_le x [] = omega arith
length-insert_le x (y ∷ ys) = ground (arith, length-insert_le x ys)
