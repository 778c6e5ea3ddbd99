-- ===== src/Choose/Sorting.antt =====
-- The descending sort of a check group.
use malicious_mpsi.Base.{
  ℕ, suc, ◌≤◌, ◌<◌, ◌≡◌, ◌≢◌, refl, ap, ◌∙◌, List, [], ◌∷◌, arith, length, ◌∈◌, Distinct, Within,
  inl, inr, ◌⊎◌, Bool-cases, false, ltb, ltb→lt,
}
use malicious_mpsi.Choose.{insert_desc, sort_desc}

-- Every member is below `n`, and below the ones before it.
abbrev pub Descends : ℕ → List ℕ → Type 0
Descends n [] = Unit
Descends n (x ∷ xs) = (x < n) × Descends x xs

pub Descends-weaken : (m n : ℕ) (xs : List ℕ) → m ≤ n → Descends m xs → Descends n xs
Descends-weaken m n [] h d = tt
Descends-weaken m n (x ∷ xs) h d = (omega arith, d.1)

pub Descends-length : (n : ℕ) (xs : List ℕ) → Descends n xs → length xs ≤ n
Descends-length n [] d = omega arith
Descends-length n (x ∷ xs) d = omega (arith, Descends-length x xs d.1)

pub Descends-below : (n : ℕ) (xs : List ℕ) (k : ℕ) → Descends n xs → k ∈ xs → k < n
Descends-below n [] k d i = absurd i
Descends-below n (x ∷ xs) k d (inl e) = omega arith
Descends-below n (x ∷ xs) k d (inr i) = omega (arith, Descends-below x xs k d.1 i)

pub Descends-Within : (n : ℕ) (xs : List ℕ) → Descends n xs → Within n xs
Descends-Within n [] d = tt
Descends-Within n (x ∷ xs) d =
    (d.0, Descends-Within n xs (Descends-weaken x n xs (omega arith) d.1))

mem-insert_desc : (x k : ℕ) (xs : List ℕ) → k ∈ insert_desc x xs → (k ≡ x) ⊎ (k ∈ xs)
unfolding insert_desc
mem-insert_desc x k [] i = i
mem-insert_desc x k (y ∷ ys) i = elim (Bool-cases (ltb y x)) [
  | inl e ↦ rw e at i
  | inr e ↦ later (mem-insert_desc x k ys) (rw e at i)
]
  where
    later :
        (k ∈ insert_desc x ys → (k ≡ x) ⊎ (k ∈ ys))
        → k ∈ y ∷ insert_desc x ys
        → (k ≡ x) ⊎ (k ∈ y ∷ ys)
    later ih (inl q) = inr (inl q)
    later ih (inr q) = elim (ih q) [ inl z ↦ inl z | inr z ↦ inr (inr z) ]

insert_desc_of_mem : (x k : ℕ) (xs : List ℕ) → (k ≡ x) ⊎ (k ∈ xs) → k ∈ insert_desc x xs
unfolding insert_desc
insert_desc_of_mem x k [] i = i
insert_desc_of_mem x k (y ∷ ys) i = elim (Bool-cases (ltb y x)) [
  | inl e ↦ rw e i
  | inr e ↦ rw e (elim i [
    | inl q ↦ inr (insert_desc_of_mem x k ys (inl q))
    | inr q ↦ elim q [ inl z ↦ inl z | inr z ↦ inr (insert_desc_of_mem x k ys (inr z)) ]
  ])
]

-- The sort keeps the members.
pub mem-sort_desc :
    (k : ℕ) (xs : List ℕ) → (k ∈ sort_desc xs → k ∈ xs) × (k ∈ xs → k ∈ sort_desc xs)
unfolding sort_desc
mem-sort_desc k [] = ((λ i. i), (λ i. i))
mem-sort_desc k (x ∷ xs) = (
  (λ i. elim (mem-insert_desc x k (sort_desc xs) i) [
    | inl e ↦ inl e
    | inr j ↦ inr ((mem-sort_desc k xs).0 j)
  ]),
  (λ i.
      insert_desc_of_mem x k (sort_desc xs)
        (elim i [ inl e ↦ inl e | inr j ↦ inr ((mem-sort_desc k xs).1 j) ])),
)

insert_desc-Descends :
    (n x : ℕ) (xs : List ℕ) → x < n → ¬ (x ∈ xs) → Descends n xs → Descends n (insert_desc x xs)
unfolding insert_desc
insert_desc-Descends n x [] h f d = (h, tt)
insert_desc-Descends n x (y ∷ ys) h f d = elim (Bool-cases (ltb y x)) [
  | inl e ↦ rw e (h, (ltb→lt y x e, d.1))
  | inr e ↦ rw e (d.0, insert_desc-Descends y x ys (below e) (λ i. f (inr i)) d.1)
]
  where
    below : ltb y x ≡ false → x < y
    below e = let ne : x ≢ y = λ q. f (inl q) in ground arith

-- Sorting numbers below `n` that are all different makes them descend strictly.
pub sort_desc-Descends :
    (n : ℕ) (xs : List ℕ) → Distinct xs → Within n xs → Descends n (sort_desc xs)
unfolding sort_desc
sort_desc-Descends n [] d w = tt
sort_desc-Descends n (x ∷ xs) d w =
    insert_desc-Descends n x (sort_desc xs) w.0 (λ i. d.0 ((mem-sort_desc x xs).0 i))
      (sort_desc-Descends n xs d.1 w.1)

length-insert_desc : (x : ℕ) (xs : List ℕ) → length (insert_desc x xs) ≡ suc (length xs)
unfolding insert_desc
length-insert_desc x [] = refl
length-insert_desc x (y ∷ ys) = ground (arith, length-insert_desc x ys)

pub length-sort_desc : (xs : List ℕ) → length (sort_desc xs) ≡ length xs
unfolding sort_desc
length-sort_desc [] = refl
length-sort_desc (x ∷ xs) = length-insert_desc x (sort_desc xs) ∙ ap suc (length-sort_desc xs)
