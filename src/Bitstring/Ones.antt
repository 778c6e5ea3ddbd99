-- ===== src/Bitstring/Ones.antt =====
-- The string that `Bitstring(length,numOfOnes,c)` draws, and the choice bits of a party,
-- have exactly the number of ones asked for.
use malicious_mpsi.Base.{
  ◌⊎◌, some-Gives, ◌>>=◌, get_elem?, store, get_or_ext, get_or_past, for, ℕ, zero, suc, ◌+◌, ◌-◌,
  ◌%◌, ◌≤◌, ◌<◌, ◌≡◌, ◌≢◌, refl, sym, ◌∙◌, ap, inl, inr, List, [], ◌∷◌, arith, length, get_or, set,
  store_of_lt, length-set, get_or-set_self, get_or-set_ne, get_elem?-eq-get_or, Gives, gives,
  Gives-bind, ne→==, Gives-map, for-Gives, replicate, length-replicate, get_or-replicate, range,
  length-range, eq-cases, ◌==◌, if◌then◌else◌, Rearranged, Rearranged_refl, Rearranged_trans,
  Rearranged_range_injective, Rearranged_range_in, swap-Swapped, Swapped-Rearranged,
}
use malicious_mpsi.Random.{Random, Crypto, length-gen_words}
use malicious_mpsi.Bitstring.{
  Bitstring, set_bit, zeros, draw_index, set_one, with_ones, draw_choices, get_bit,
}

-- How many entries are 1.
unfoldable pub count_ones : List ℕ → ℕ
count_ones [] = 0
count_ones (x ∷ xs) = (if x == 1 then 1 else 0) + count_ones xs

count_ones-zeros : (n : ℕ) → count_ones (replicate n 0) ≡ 0
unfolding count_ones
count_ones-zeros zero = refl
count_ones-zeros (suc n) = omega (arith, count_ones-zeros n)

count_ones-set :
    (arr : List ℕ) (i : ℕ)
    → i < length arr
    → get_or arr i 0 ≡ 0
    → count_ones (set arr i 1) ≡ suc (count_ones arr)
unfolding count_ones
count_ones-set [] i h e = absurd (omega arith)
count_ones-set (x ∷ xs) zero h e = ground arith
count_ones-set (x ∷ xs) (suc i) h e = omega (arith, count_ones-set xs i (omega arith) e)

draw_index-Rearranged :
    (n : ℕ) (r : List ℕ) (k : ℕ) (u : List ℕ)
    → k < n
    → k < length r
    → Rearranged 0 (range 0 n) u
    → Gives (Rearranged 0 (range 0 n)) (draw_index n r k u)
unfolding draw_index
draw_index-Rearranged n r k u h l x =
    let size : length u ≡ n = x.same_length ∙ length-range 0 n in
    let in_range : get_or r k 0 % (n - k) + k < length u = omega arith in
    rw (get_elem?-eq-get_or r k 0 l) (
      rw (ne→== (n - k) 0 (omega arith)) (
        Gives-map (swap-Swapped 0 (get_or r k 0 % (n - k) + k) k u in_range (omega arith))
          (λ v y. Rearranged_trans x (Swapped-Rearranged in_range (omega arith) y))))

-- The first `k` drawn bits are set.
record Drawn (n : ℕ) (indexes : List ℕ) (k : ℕ) (s : Bitstring) : Type 0 where
  size : length s.arr ≡ n
  same : s.length ≡ n
  count : count_ones s.arr ≡ k
  clear : (j : ℕ) → ((i : ℕ) → i < k → get_or indexes i 0 ≢ j) → get_or s.arr j 0 ≡ 0
  binary : (j : ℕ) → get_or s.arr j 0 < 2

set_one-Drawn :
    (n : ℕ) (indexes : List ℕ) (k : ℕ) (s : Bitstring)
    → k < n
    → Rearranged 0 (range 0 n) indexes
    → Drawn n indexes k s
    → Gives (Drawn n indexes (suc k)) (set_one indexes k s)
unfolding set_one set_bit
set_one-Drawn n indexes k s h x d =
    rw (get_elem?-eq-get_or indexes k 0 (omega (arith, x.same_length, length-range 0 n))) (
      rw (store_of_lt s.arr place 1 fits) (
        gives (record {
          size = length-set s.arr place 1 ∙ d.size;
          same = d.same;
          count = count_ones-set s.arr place fits clear ∙ ap suc d.count;
          clear = λ j z.
              get_or-set_ne s.arr place j 1 0 (λ e. z k (omega arith) (sym e))
              ∙ d.clear j (λ i p. z i (omega arith));
          binary = λ j. elim (eq-cases j place) [
            | inl e ↦ rw e (omega (arith, get_or-set_self s.arr place 1 0 fits))
            | inr e ↦ omega (arith, get_or-set_ne s.arr place j 1 0 e, d.binary j)
          ];
        })))
  where
    place : ℕ
    place = get_or indexes k 0

    fits : place < length s.arr
    fits = omega (arith, Rearranged_range_in x k h, d.size)

    clear : get_or s.arr place 0 ≡ 0
    clear =
        d.clear place
          (λ i p e. absurd (omega (arith, Rearranged_range_injective x i k (omega arith) h e)))

module _ ⦃r : Random⦄ where
  -- Asked for no more ones than bits, the constructor returns a string of the given length with
  -- exactly that many ones, and every other bit 0, whatever the random source gives.
  pub with_ones_lem :
      (n num_of_ones : ℕ) (crypt : Crypto)
      → num_of_ones ≤ n
      → Gives
          (λ t.
            (t.0.length ≡ n)
            × (length t.0.arr ≡ n)
            × (count_ones t.0.arr ≡ num_of_ones)
            × ((j : ℕ) → get_or t.0.arr j 0 < 2))
          (with_ones n num_of_ones crypt)
  unfolding with_ones zeros
  with_ones_lem n zero crypt h = gives (
    refl,
    length-replicate {A = ℕ} n 0,
    count_ones-zeros n,
    λ j. omega (arith, get_or-replicate {A = ℕ} n j 0),
  )
  with_ones_lem n (suc m) crypt h = rw (ne→== (suc m) 0 (omega arith)) (
      Gives-bind
        (for-Gives (λ k u. Rearranged 0 (range 0 n) u) (suc m) _ (suc m) 0 (range 0 n) (omega arith)
          (λ k u p q x.
            draw_index-Rearranged n _ k u (omega arith)
              (omega (arith, length-gen_words 8 (suc m) crypt)) x)
          (Rearranged_refl 0 (range 0 n)))
        λ indexes x.
          Gives-bind
            (for-Gives (Drawn n indexes) (suc m) _ (suc m) 0 (zeros n) (omega arith)
              (λ k s p q d. set_one-Drawn n indexes k s (omega arith) x d) (start indexes))
            λ s d. gives (d.same, d.size, d.count, d.binary))
    where
      start : (indexes : List ℕ) → Drawn n indexes 0 (zeros n)
      start indexes = record {
        size = length-replicate n 0;
        same = refl;
        count = count_ones-zeros n;
        clear = λ j p. get_or-replicate {A = ℕ} n j 0;
        binary = λ j. omega (arith, get_or-replicate {A = ℕ} n j 0);
      }

  -- The first `i` bits have been copied.
  record Copied (source : List ℕ) (n i : ℕ) (v : List ℕ) : Type 0 where
    size : length v ≡ n
    same : (k : ℕ) → k < i → get_or v k 0 ≡ get_or source k 0

  copy_lem :
      (source : List ℕ) (n : ℕ)
      → length source ≡ n
      → Gives
          (λ v. v ≡ source)
          (for n 0 (λ i v. do x ← get_elem? source i; store v i x) (replicate n 0))
  copy_lem source n e =
      Gives-map
        (for-Gives (Copied source n) n _ n 0 (replicate n 0) (omega arith)
          (λ i v p q x. rw (get_elem?-eq-get_or source i 0 (omega arith)) (
            some-Gives (store_of_lt v i (get_or source i 0) (omega (arith, x.size))) (record {
              size = length-set v i (get_or source i 0) ∙ x.size;
              same = λ k h. elim (eq-cases k i) [
                | inl z ↦ rw z (get_or-set_self v i (get_or source i 0) 0 (omega (arith, x.size)))
                | inr z ↦ get_or-set_ne v i k (get_or source i 0) 0 z ∙ x.same k (omega arith)
              ];
            })))
          (record { size = length-replicate {A = ℕ} n 0; same = λ k h. absurd (omega arith) }))
        λ v x. get_or_ext 0 v source (x.size ∙ sym e) (λ k. elim (range_cases k n) [
          | inl h ↦ x.same k h
          | inr h ↦
              get_or_past v k 0 (omega (arith, x.size)) ∙ sym (get_or_past source k 0 (omega arith))
        ])
    where
      range_cases : (k n : ℕ) → (k < n) ⊎ (n ≤ k)
      range_cases k n = grind arith

  -- The choice bits of a party are one for each OT, and as many of them are 1 as were asked for, if
  -- no more are asked for than there are OTs; the others are 0.
  pub draw_choices_lem :
      (not num_of_ones : ℕ) (crypt : Crypto)
      → num_of_ones ≤ not
      → Gives
          (λ t.
            (length t.0 ≡ not) × (count_ones t.0 ≡ num_of_ones) × ((j : ℕ) → get_or t.0 j 0 < 2))
          (draw_choices not num_of_ones crypt)
  unfolding draw_choices get_bit
  draw_choices_lem not num_of_ones crypt h =
      Gives-bind (with_ones_lem not num_of_ones crypt h)
        λ t x. Gives-bind (copy_lem t.0.arr not x.1) λ v e. gives (rw e (x.1, x.2, x.3))
