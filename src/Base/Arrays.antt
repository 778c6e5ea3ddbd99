-- ===== src/Base/Arrays.antt =====
-- C arrays and vectors as lists with native indices. An access out of bounds is `none`.
use Prim.Native.Nat.{ℕ, zero, suc, ◌+◌, ◌-◌, ◌≤◌, ◌<◌}
use mathlib.Core.Path.{◌≡◌, refl, sym, subst, ap, ap₂, ◌∙◌}
use mathlib.Core.Logic.{◌≢◌, ◌⊎◌, inl, inr}
use mathlib.Core.List.{List, [], ◌∷◌, ◌++◌, map}
use mathlib.Core.Option.{Option, none, some}
use native.Mathlib.Omega.{arith}
use malicious_mpsi.Base.Tests.{ltb, if◌then◌else◌, lt→ltb}

module _ {ℓ} {A : Type ℓ} where
  abbrev pub length : List A → ℕ
  length [] = 0
  length (_ ∷ xs) = suc (length xs)

  abbrev pub get_elem? : List A → ℕ → Option A
  get_elem? [] _ = none
  get_elem? (x ∷ _) zero = some x
  get_elem? (_ ∷ xs) (suc i) = get_elem? xs i

  abbrev pub get_or : List A → ℕ → A → A
  get_or [] _ d = d
  get_or (x ∷ _) zero _ = x
  get_or (_ ∷ xs) (suc i) d = get_or xs i d

  abbrev pub set : List A → ℕ → A → List A
  set [] _ _ = []
  set (_ ∷ xs) zero v = v ∷ xs
  set (x ∷ xs) (suc i) v = x ∷ set xs i v

  abbrev pub replicate : ℕ → A → List A
  replicate zero _ = []
  replicate (suc n) x = x ∷ replicate n x

  abbrev pub take : ℕ → List A → List A
  take zero _ = []
  take (suc n) [] = []
  take (suc n) (x ∷ xs) = x ∷ take n xs

  abbrev pub drop : ℕ → List A → List A
  drop zero xs = xs
  drop (suc n) [] = []
  drop (suc n) (x ∷ xs) = drop n xs

  -- `arr[i] = x`
  unfoldable pub store : List A → ℕ → A → Option (List A)
  store arr i x = if ltb i (length arr) then some (set arr i x) else none

  pub store_of_lt :
      (arr : List A) (i : ℕ) (x : A) → i < length arr → store arr i x ≡ some (set arr i x)
  unfolding store
  store_of_lt arr i x h = rw (lt→ltb i (length arr) h)

  pub length-set : (xs : List A) (i : ℕ) (v : A) → length (set xs i v) ≡ length xs
  length-set [] i v = refl
  length-set (x ∷ xs) zero v = refl
  length-set (x ∷ xs) (suc i) v = ap suc (length-set xs i v)

  pub length-append : (xs ys : List A) → length (xs ++ ys) ≡ length xs + length ys
  length-append [] ys = omega arith
  length-append (x ∷ xs) ys = omega (arith, length-append xs ys)

  pub length-replicate : (n : ℕ) (x : A) → length (replicate n x) ≡ n
  length-replicate zero x = refl
  length-replicate (suc n) x = ap suc (length-replicate n x)

  pub get_or-replicate : (n i : ℕ) (x : A) → get_or (replicate n x) i x ≡ x
  get_or-replicate zero i x = refl
  get_or-replicate (suc n) zero x = refl
  get_or-replicate (suc n) (suc i) x = get_or-replicate n i x

  pub get_elem?-eq-get_or :
      (xs : List A) (i : ℕ) (d : A) → i < length xs → get_elem? xs i ≡ some (get_or xs i d)
  get_elem?-eq-get_or [] i d h = absurd (omega arith)
  get_elem?-eq-get_or (x ∷ xs) zero d h = refl
  get_elem?-eq-get_or (x ∷ xs) (suc i) d h = get_elem?-eq-get_or xs i d (omega arith)

  pub get_or-set_self :
      (xs : List A) (i : ℕ) (v d : A) → i < length xs → get_or (set xs i v) i d ≡ v
  get_or-set_self [] i v d h = absurd (omega arith)
  get_or-set_self (x ∷ xs) zero v d h = refl
  get_or-set_self (x ∷ xs) (suc i) v d h = get_or-set_self xs i v d (omega arith)

  pub get_or-set_ne :
      (xs : List A) (i j : ℕ) (v d : A) → j ≢ i → get_or (set xs i v) j d ≡ get_or xs j d
  get_or-set_ne [] i j v d h = refl
  get_or-set_ne (x ∷ xs) zero zero v d h = absurd (h refl)
  get_or-set_ne (x ∷ xs) zero (suc j) v d h = refl
  get_or-set_ne (x ∷ xs) (suc i) zero v d h = refl
  get_or-set_ne (x ∷ xs) (suc i) (suc j) v d h = get_or-set_ne xs i j v d (λ e. h (ap suc e))

  pub get_elem?_past : (xs : List A) (i : ℕ) → length xs ≤ i → get_elem? xs i ≡ none
  get_elem?_past [] i h = refl
  get_elem?_past (x ∷ xs) zero h = absurd (omega arith)
  get_elem?_past (x ∷ xs) (suc i) h = get_elem?_past xs i (omega arith)

  pub get_or_past : (xs : List A) (i : ℕ) (d : A) → length xs ≤ i → get_or xs i d ≡ d
  get_or_past [] i d h = refl
  get_or_past (x ∷ xs) zero d h = absurd (omega arith)
  get_or_past (x ∷ xs) (suc i) d h = get_or_past xs i d (omega arith)

  pub get_or_ext :
      (d : A) (xs ys : List A)
      → length xs ≡ length ys
      → ((i : ℕ) → get_or xs i d ≡ get_or ys i d)
      → xs ≡ ys
  get_or_ext d [] [] e h = refl
  get_or_ext d [] (y ∷ ys) e h = absurd (omega arith)
  get_or_ext d (x ∷ xs) [] e h = absurd (omega arith)
  get_or_ext d (x ∷ xs) (y ∷ ys) e h =
      ap₂ ◌∷◌ (h 0) (get_or_ext d xs ys (omega arith) (λ i. h (suc i)))

-- The numbers from `i` on, `n` of them.
abbrev pub range : ℕ → ℕ → List ℕ
range i zero = []
range i (suc n) = i ∷ range (suc i) n

pub length-range : (i n : ℕ) → length (range i n) ≡ n
length-range i zero = refl
length-range i (suc n) = ap suc (length-range (suc i) n)

pub get_or-range : (i n k d : ℕ) → k < n → get_or (range i n) k d ≡ i + k
get_or-range i zero k d h = absurd (omega arith)
get_or-range i (suc n) zero d h = omega arith
get_or-range i (suc n) (suc k) d h = omega (arith, get_or-range (suc i) n k d)

-- The values listed, read with the numbers that index them.
abbrev pub All {ℓ κ} : {A : Type ℓ} → (A → Type κ) → List A → Type κ
All P [] = Unit
All P (x ∷ xs) = P x × All P xs

-- Membership by recursion, which proofs take apart by cases.
infix 50 ◌∈◌
abbrev pub ◌∈◌ : {A : Type 0} → A → List A → Type 0
a ∈ [] = ⊥
a ∈ (x ∷ xs) = (a ≡ x) ⊎ (a ∈ xs)

module _ {ℓ} {A : Type ℓ} where
  pub length-take : (n : ℕ) (xs : List A) → n ≤ length xs → length (take n xs) ≡ n
  length-take zero xs h = refl
  length-take (suc n) [] h = absurd (omega arith)
  length-take (suc n) (x ∷ xs) h = ap suc (length-take n xs (omega arith))

  pub length-drop : (n : ℕ) (xs : List A) → length (drop n xs) ≡ length xs - n
  length-drop zero xs = omega arith
  length-drop (suc n) [] = omega arith
  length-drop (suc n) (x ∷ xs) = omega (arith, length-drop n xs)

  pub get_or-take : (n k : ℕ) (xs : List A) (d : A) → k < n → get_or (take n xs) k d ≡ get_or xs k d
  get_or-take zero k xs d h = absurd (omega arith)
  get_or-take (suc n) k [] d h = refl
  get_or-take (suc n) zero (x ∷ xs) d h = refl
  get_or-take (suc n) (suc k) (x ∷ xs) d h = get_or-take n k xs d (omega arith)

  pub get_or-drop : (n k : ℕ) (xs : List A) (d : A) → get_or (drop n xs) k d ≡ get_or xs (n + k) d
  get_or-drop zero k xs d = ap (λ i. get_or xs i d) (omega arith)
  get_or-drop (suc n) k [] d = refl
  get_or-drop (suc n) k (x ∷ xs) d = get_or-drop n k xs d ∙ ap (λ i. get_or (x ∷ xs) i d) shift
    where
      shift : suc (n + k) ≡ suc n + k
      shift = omega arith

  pub drop-drop : (m n : ℕ) (xs : List A) → drop n (drop m xs) ≡ drop (m + n) xs
  drop-drop zero n xs = ap (λ i. drop i xs) (omega arith)
  drop-drop (suc m) zero [] = ap (λ i. drop {A = A} i []) shift
    where
      shift : suc m ≡ suc m + zero
      shift = omega arith
  drop-drop (suc m) (suc n) [] = ap (λ i. drop {A = A} i []) shift
    where
      shift : suc (m + suc n) ≡ suc m + suc n
      shift = omega arith
  drop-drop (suc m) n (x ∷ xs) = drop-drop m n xs ∙ ap (λ i. drop i (x ∷ xs)) shift
    where
      shift : suc (m + n) ≡ suc m + n
      shift = omega arith

-- Every index of a list lies in an array of `n` entries.
abbrev pub Within : ℕ → List ℕ → Type 0
Within n js = All (λ j. j < n) js

-- No value occurs twice.
abbrev pub Distinct : {A : Type 0} → List A → Type 0
Distinct [] = Unit
Distinct (x ∷ xs) = (¬ (x ∈ xs)) × Distinct xs

pub All_at {κ} : {A : Type 0} (P : A → Type κ) (xs : List A) {a : A} → All P xs → a ∈ xs → P a
All_at P [] h i = absurd i
All_at P (x ∷ xs) h (inl e) = subst P (sym e) h.0
All_at P (x ∷ xs) h (inr i) = All_at P xs h.1 i

pub length-map {ℓ κ} :
    {A : Type ℓ} {B : Type κ} (f : A → B) (xs : List A) → length (map f xs) ≡ length xs
length-map f [] = refl
length-map f (x ∷ xs) = ap suc (length-map f xs)

pub get_elem?-map {ℓ κ} :
    {A : Type ℓ} {B : Type κ} (f : A → B) (xs : List A) (i : ℕ) (d : A)
    → i < length xs
    → get_elem? (map f xs) i ≡ some (f (get_or xs i d))
get_elem?-map f [] i d h = absurd (omega arith)
get_elem?-map f (x ∷ xs) zero d h = refl
get_elem?-map f (x ∷ xs) (suc i) d h = get_elem?-map f xs i d (omega arith)

module _ {ℓ} {A : Type ℓ} where
  pub get_or-append_left :
      (xs ys : List A) (i : ℕ) (d : A) → i < length xs → get_or (xs ++ ys) i d ≡ get_or xs i d
  get_or-append_left [] ys i d h = absurd (omega arith)
  get_or-append_left (x ∷ xs) ys zero d h = refl
  get_or-append_left (x ∷ xs) ys (suc i) d h = get_or-append_left xs ys i d (omega arith)

  pub get_or-append_last : (xs : List A) (x d : A) → get_or (xs ++ (x ∷ [])) (length xs) d ≡ x
  get_or-append_last [] x d = refl
  get_or-append_last (y ∷ xs) x d = get_or-append_last xs x d

pub All-map :
    {A : Type 0} {B : Type 0} (P : A → Type 0) (Q : B → Type 0) (f : A → B) (xs : List A)
    → ((a : A) → P a → Q (f a))
    → All P xs
    → All Q (map f xs)
All-map P Q f [] h a = tt
All-map P Q f (x ∷ xs) h a = (h x a.0, All-map P Q f xs h a.1)
