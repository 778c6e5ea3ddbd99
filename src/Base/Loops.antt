-- ===== src/Base/Loops.antt =====
-- Fallible code: `none` is a fault, such as an access out of bounds. Counting loops over it, and
-- their invariant rule.
use Prim.Native.Nat.{ℕ, zero, suc, ◌+◌, ◌≤◌, ◌<◌}
use mathlib.Core.Path.{◌≡◌, refl, sym, ap, ap₂, ◌∙◌, subst, fun_ext}
use mathlib.Core.Option.{Option, none, some, some-injective}
use native.Mathlib.Nat.{zero-add, add-zero, suc-add}
use native.Mathlib.Omega.{arith}

infixl 1 ◌>>=◌
abbrev pub ◌>>=◌ {ℓ κ} : {A : Type ℓ} {B : Type κ} → Option A → (A → Option B) → Option B
none >>= f = none
some a >>= f = f a

-- `for (k = i; k < i + rounds; k++)`
unfoldable pub for {ℓ} : {S : Type ℓ} (rounds i : ℕ) → (ℕ → S → Option S) → S → Option S
for zero i body s = some s
for (suc n) i body s = body i s >>= for n (suc i) body

-- The run ends in `some` with a value that satisfies `P`: it returns, and returns the right thing.
pub data Gives {ℓ κ} {A : Type ℓ} (P : A → Type κ) : Option A → Type (ℓ ⊔ κ) where
  gives : {a : A} → P a → Gives P (some a)

module _ {ℓ κ} {A : Type ℓ} {P : A → Type κ} where
  pub Gives-bind {ℓ' κ'} :
      {B : Type ℓ'} {Q : B → Type κ'} {r : Option A} {f : A → Option B}
      → Gives P r
      → ((a : A) → P a → Gives Q (f a))
      → Gives Q (r >>= f)
  Gives-bind (gives p) k = k _ p

  pub Gives-map {κ'} :
      {Q : A → Type κ'} {r : Option A} → Gives P r → ((a : A) → P a → Q a) → Gives Q r
  Gives-map (gives p) k = gives (k _ p)

  pub Gives-some : {r : Option A} {a : A} → Gives P r → r ≡ some a → P a
  Gives-some (gives p) e = subst P (some-injective _ _ e) p

  pub Gives-value : {r : Option A} → Gives P r → (a : A) × (r ≡ some a) × P a
  Gives-value (gives {a} p) = (a, refl, p)

pub some-Gives {ℓ κ} :
    {A : Type ℓ} {P : A → Type κ} {r : Option A} {a : A} → r ≡ some a → P a → Gives P r
some-Gives {P} {r} {a} e p = subst (Gives P) (sym e) (gives p)

pub for-Gives {ℓ κ} :
    {S : Type ℓ} (P : ℕ → S → Type κ) (stop : ℕ) (body : ℕ → S → Option S) (n i : ℕ) (s : S)
    → i + n ≡ stop
    → ((k : ℕ) (t : S) → i ≤ k → k < stop → P k t → Gives (P (suc k)) (body k t))
    → P i s
    → Gives (P stop) (for n i body s)
unfolding for
for-Gives P stop body zero i s e keep p = gives (subst (λ k. P k s) (omega arith) p)
for-Gives P stop body (suc n) i s e keep p =
    Gives-bind (keep i s (omega arith) (omega arith) p)
      λ t. for-Gives P stop body n (suc i) t (omega arith) (λ k u lo. keep k u (omega arith))

pub bind_assoc {ℓ κ μ} :
    {A : Type ℓ} {B : Type κ} {C : Type μ} (m : Option A) (f : A → Option B) (g : B → Option C)
    → ((m >>= f) >>= g) ≡ (m >>= λ a. f a >>= g)
bind_assoc none f g = refl
bind_assoc (some a) f g = refl

-- A loop is its first `m` rounds and then the others.
pub for-add {ℓ} :
    {S : Type ℓ} (m n i : ℕ) (body : ℕ → S → Option S) (s : S)
    → for (m + n) i body s ≡ (for m i body s >>= for n (i + m) body)
unfolding for
for-add zero n i body s = ap₂ (λ r j. for r j body s) (zero-add n) (sym (add-zero i))
for-add (suc m) n i body s =
    ap (λ r. for r i body s) (suc-add m n)
    ∙ ap (λ k. body i s >>= k) (fun_ext (λ t. for-add m n (suc i) body t))
    ∙ ap (λ j. body i s >>= λ t. for m (suc i) body t >>= for n j body) (shift i m)
    ∙ sym (bind_assoc (body i s) (for m (suc i) body) (for n (i + suc m) body))
  where
    shift : (i m : ℕ) → suc i + m ≡ i + suc m
    shift i m = omega arith
