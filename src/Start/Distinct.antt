-- ===== src/Start/Distinct.antt =====
-- Lists of seeds without repetitions, by a test.
use malicious_mpsi.Base.{
  ℕ, zero, suc, ◌+◌, ◌<◌, ◌≡◌, ◌≢◌, refl, sym, ◌∙◌, ap, Bool, true, false, ◌&&◌, List, [], ◌∷◌,
  ◌++◌, arith, length, get_or, ◌==◌, eq→==, if◌then◌else◌, inl, inr, Bool-cases,
}

-- A list with no entry twice, as a test.
abbrev pub absent : ℕ → List ℕ → Bool
absent x [] = true
absent x (y ∷ ys) = let rest = absent x ys in if x == y then false else rest

abbrev pub all_differ : List ℕ → Bool
all_differ [] = true
all_differ (x ∷ xs) = absent x xs && all_differ xs

absent-cases : (x y : ℕ) (ys : List ℕ) → absent x (y ∷ ys) ≡ true → (x ≢ y) × (absent x ys ≡ true)
absent-cases x y ys h = elim (Bool-cases (x == y)) [
  | inl q ↦ cc (rw q at h)
  | inr q ↦ (λ e. cc (sym (eq→== x y e) ∙ q), rw q at h)
]

absent_at : (x : ℕ) (xs : List ℕ) (i : ℕ) → absent x xs ≡ true → i < length xs → x ≢ get_or xs i 0
absent_at x [] i h l = absurd (omega arith)
absent_at x (y ∷ ys) zero h l = (absent-cases x y ys h).0
absent_at x (y ∷ ys) (suc i) h l = absent_at x ys i (absent-cases x y ys h).1 (omega arith)

and-true : (a b : Bool) → (a && b) ≡ true → (a ≡ true) × (b ≡ true)
and-true true b h = (refl, h)
and-true false b h = cc

pub all_differ_at :
    (xs : List ℕ) (i j : ℕ)
    → all_differ xs ≡ true
    → i < j
    → j < length xs
    → get_or xs i 0 ≢ get_or xs j 0
all_differ_at [] i j h l k = absurd (omega arith)
all_differ_at (x ∷ xs) i zero h l k = absurd (omega arith)
all_differ_at (x ∷ xs) zero (suc j) h l k =
    absent_at x xs j (and-true (absent x xs) (all_differ xs) h).0 (omega arith)
all_differ_at (x ∷ xs) (suc i) (suc j) h l k =
    all_differ_at xs i j (and-true (absent x xs) (all_differ xs) h).1 (omega arith) (omega arith)

pub get_or-append_right :
    (xs ys : List ℕ) (i d : ℕ) → get_or (xs ++ ys) (length xs + i) d ≡ get_or ys i d
get_or-append_right [] ys i d = ap (λ j. get_or ys j d) (omega arith)
get_or-append_right (x ∷ xs) ys i d =
    ap (λ j. get_or (x ∷ xs ++ ys) j d) (shift (length xs) i) ∙ get_or-append_right xs ys i d
  where
    shift : (m k : ℕ) → suc m + k ≡ suc (m + k)
    shift m k = omega arith
