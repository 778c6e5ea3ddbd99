-- ===== src/Base/Swaps.antt =====
-- Exchanging two entries of an array, and the rearrangements that come of it.
use Prim.Native.Nat.{ℕ, ◌<◌}
use mathlib.Core.Path.{◌≡◌, refl, sym, ap, ◌∙◌}
use mathlib.Core.List.{List}
use mathlib.Core.Option.{Option, some}
use native.Mathlib.Nat.{zero-add}
use native.Mathlib.Omega.{arith}
use malicious_mpsi.Base.Tests.{◌==◌, if◌then◌else◌}
use malicious_mpsi.Base.Arrays.{
  length, get_elem?, get_or, set, store, store_of_lt, length-set, get_elem?-eq-get_or,
  get_or-set_self, get_or-set_ne, range, length-range, get_or-range,
}
use malicious_mpsi.Base.Loops.{◌>>=◌, Gives, some-Gives}

-- `temp=a[i]; a[i]=a[j]; a[j]=temp;`
unfoldable pub swap {ℓ} : {A : Type ℓ} → ℕ → ℕ → List A → Option (List A)
swap i j a = do temp ← get_elem? a i; y ← get_elem? a j; u ← store a i y; store u j temp

abbrev pub transpose : ℕ → ℕ → ℕ → ℕ
transpose i j k = if k == i then j else if k == j then i else k

-- `u` holds the entries of `t` in another order.
pub record Rearranged {A : Type 0} (d : A) (t u : List A) : Type 0 where
  pub same_length : length u ≡ length t
  pub from : ℕ → ℕ
  pub back : ℕ → ℕ
  pub from_in : (k : ℕ) → k < length t → from k < length t
  pub back_in : (k : ℕ) → k < length t → back k < length t
  pub from_back : (k : ℕ) → from (back k) ≡ k
  pub back_from : (k : ℕ) → back (from k) ≡ k
  pub moved : (k : ℕ) → k < length t → get_or u k d ≡ get_or t (from k) d

transpose_in : (i j n k : ℕ) → i < n → j < n → k < n → transpose i j k < n
transpose_in i j n k p q h = ground arith

transpose_twice : (i j k : ℕ) → transpose i j (transpose i j k) ≡ k
transpose_twice i j k = ground arith

module _ {A : Type 0} where
  pub swap_value :
      (d : A) (i j : ℕ) (t : List A)
      → i < length t
      → j < length t
      → swap i j t ≡ some (set (set t i (get_or t j d)) j (get_or t i d))
  unfolding swap
  swap_value d i j t p q =
      rw
        (get_elem?-eq-get_or t i d p, get_elem?-eq-get_or t j d q, store_of_lt t i (get_or t j d) p)
        (store_of_lt (set t i (get_or t j d)) j (get_or t i d)
          (omega (arith, length-set t i (get_or t j d))))

  swapped_at :
      (d : A) (i j k : ℕ) (t : List A)
      → i < length t
      → j < length t
      → get_or (set (set t i (get_or t j d)) j (get_or t i d)) k d ≡ get_or t (transpose i j k) d
  swapped_at d i j k t p q = ground (
    arith,
    length-set t i (get_or t j d),
    get_or-set_self (set t i (get_or t j d)) j (get_or t i d) d,
    get_or-set_ne (set t i (get_or t j d)) j k (get_or t i d) d,
    get_or-set_self t i (get_or t j d) d,
    get_or-set_ne t i k (get_or t j d) d,
  )

  pub record Swapped (d : A) (i j : ℕ) (t u : List A) : Type 0 where
    pub same_length : length u ≡ length t
    pub moved : (k : ℕ) → get_or u k d ≡ get_or t (transpose i j k) d

  pub swap-Swapped :
      (d : A) (i j : ℕ) (t : List A)
      → i < length t
      → j < length t
      → Gives (Swapped d i j t) (swap i j t)
  swap-Swapped d i j t p q = some-Gives (swap_value d i j t p q) (record {
    same_length = length-set (set t i (get_or t j d)) j _ ∙ length-set t i _;
    moved = λ k. swapped_at d i j k t p q;
  })

  pub Swapped-Rearranged :
      {d : A} {i j : ℕ} {t u : List A}
      → i < length t
      → j < length t
      → Swapped d i j t u
      → Rearranged d t u
  Swapped-Rearranged {d} {i} {j} {t} {u} p q s = record {
    same_length = s.same_length;
    from = transpose i j;
    back = transpose i j;
    from_in = λ k h. transpose_in i j _ k p q h;
    back_in = λ k h. transpose_in i j _ k p q h;
    from_back = transpose_twice i j;
    back_from = transpose_twice i j;
    moved = λ k h. s.moved k;
  }

  pub Rearranged_refl : (d : A) (t : List A) → Rearranged d t t
  Rearranged_refl d t = record {
    same_length = refl;
    from = λ k. k;
    back = λ k. k;
    from_in = λ k h. h;
    back_in = λ k h. h;
    from_back = λ k. refl;
    back_from = λ k. refl;
    moved = λ k h. refl;
  }

  pub Rearranged_trans :
      {d : A} {t u v : List A} → Rearranged d t u → Rearranged d u v → Rearranged d t v
  Rearranged_trans {d} {t} {u} {v} x y =
      let fits = λ (k : ℕ) (h : k < length t). y.from_in k (omega (arith, x.same_length)) in
      record {
        same_length = y.same_length ∙ x.same_length;
        from = λ k. x.from (y.from k);
        back = λ k. y.back (x.back k);
        from_in = λ k h. x.from_in (y.from k) (omega (arith, fits k h, x.same_length));
        back_in = λ k h. omega (
          arith,
          x.same_length,
          y.back_in (x.back k) (omega (arith, x.back_in k h, x.same_length)),
        );
        from_back = λ k. ap x.from (y.from_back (x.back k)) ∙ x.from_back k;
        back_from = λ k. ap y.back (x.back_from (y.from k)) ∙ y.back_from k;
        moved = λ k h.
            y.moved k (omega (arith, x.same_length))
            ∙ x.moved (y.from k) (omega (arith, fits k h, x.same_length));
      }

-- The positions of a rearranged `0, 1, …` are told apart by their entries.
pub Rearranged_range_entry :
    {n : ℕ} {u : List ℕ} (x : Rearranged 0 (range 0 n) u) (k : ℕ) → k < n → get_or u k 0 ≡ x.from k
Rearranged_range_entry {n} x k h =
    x.moved k (omega (arith, length-range 0 n))
    ∙ get_or-range 0 n (x.from k) 0
        (omega (arith, length-range 0 n, x.from_in k (omega (arith, length-range 0 n))))
    ∙ zero-add (x.from k)

pub Rearranged_range_injective :
    {n : ℕ} {u : List ℕ} (x : Rearranged 0 (range 0 n) u) (i j : ℕ)
    → i < n
    → j < n
    → get_or u i 0 ≡ get_or u j 0
    → i ≡ j
Rearranged_range_injective x i j p q e =
    sym (x.back_from i)
    ∙ ap x.back (sym (Rearranged_range_entry x i p) ∙ e ∙ Rearranged_range_entry x j q)
    ∙ x.back_from j

pub Rearranged_range_in :
    {n : ℕ} {u : List ℕ} (x : Rearranged 0 (range 0 n) u) (k : ℕ) → k < n → get_or u k 0 < n
Rearranged_range_in {n} x k h = omega (
  arith,
  Rearranged_range_entry x k h,
  length-range 0 n,
  x.from_in k (omega (arith, length-range 0 n)),
)
