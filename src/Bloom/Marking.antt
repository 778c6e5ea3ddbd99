-- ===== src/Bloom/Marking.antt =====
-- One item: its hash set is gathered, and its bits are set.
use malicious_mpsi.Base.{
  ℕ, zero, suc, Within, ◌+◌, ◌/◌, ◌%◌, ◌<◌, ◌≡◌, ◌≢◌, refl, sym, ◌∙◌, ap, subst, ◌⊎◌, inl, inr,
  List, [], some, arith, Bool-cases, length, get_elem?, get_or, set, store_of_lt, length-set,
  get_or-set_self, get_or-set_ne, get_elem?-eq-get_or, for, Gives, gives, Gives-bind, some-Gives,
  for-Gives, map, range, length-range, get_or-range, length-map, get_elem?-map, insert, mem-insert,
  mem-insert_self, mem-insert_of_mem, insert-Ascending, Ascending, All-insert, ◌∈◌, ◌==◌,
  if◌then◌else◌, eq-cases,
}
use mathlib.Core.Option.{some-injective}
use native.Mathlib.Nat.{zero-add}
use malicious_mpsi.Block.{Blocks, Block, block0}
use malicious_mpsi.Bitstring.{set_bit}
use malicious_mpsi.Bloom.{
  Cipher, Marks, mark, hash, plaintext, ecb_enc_blocks, mark_pair, mark_odd, mark_item,
}

-- From `m0` to `m` the hash set of item `i` has become `s`, with its bits set.
pub record Marked (i : ℕ) (s : List ℕ) (m0 m : Marks) : Type 0 where
  pub bits_length : length m.bf.arr ≡ length m0.bf.arr
  pub sets_length : length m.h_kokhav ≡ length m0.h_kokhav
  pub here : get_or m.h_kokhav i [] ≡ s
  pub others : (k : ℕ) → k ≢ i → get_or m.h_kokhav k [] ≡ get_or m0.h_kokhav k []
  pub ones : (j : ℕ) → j ∈ s → get_or m.bf.arr j 0 ≡ 1
  pub rest : (j : ℕ) → ¬ (j ∈ s) → get_or m.bf.arr j 0 ≡ get_or m0.bf.arr j 0

mark_value :
    (i h : ℕ) (m : Marks)
    → h < length m.bf.arr
    → i < length m.h_kokhav
    → mark i h m
      ≡ some (record {
        bf = record m.bf { arr = set m.bf.arr h 1 };
        h_kokhav = set m.h_kokhav i (insert h (get_or m.h_kokhav i []));
      })
unfolding mark set_bit
mark_value i h m p q =
    rw (store_of_lt m.bf.arr h 1 p, get_elem?-eq-get_or m.h_kokhav i [] q)
      (rw (store_of_lt m.h_kokhav i (insert h (get_or m.h_kokhav i [])) q))

mark-Marked :
    (i h : ℕ) (s : List ℕ) (m0 m : Marks)
    → h < length m0.bf.arr
    → i < length m0.h_kokhav
    → Marked i s m0 m
    → Gives (Marked i (insert h s) m0) (mark i h m)
mark-Marked i h s m0 m p q x = some-Gives (mark_value i h m p' q') (record {
  bits_length = length-set m.bf.arr h 1 ∙ x.bits_length;
  sets_length = length-set m.h_kokhav i _ ∙ x.sets_length;
  here = get_or-set_self m.h_kokhav i _ [] q' ∙ ap (insert h) x.here;
  others = λ k n. get_or-set_ne m.h_kokhav i k _ [] n ∙ x.others k n;
  ones = λ j z. elim (eq-cases j h) [
    | inl e ↦ rw e (get_or-set_self m.bf.arr h 1 0 p')
    | inr n ↦ get_or-set_ne m.bf.arr h j 1 0 n ∙ x.ones j (old j n (mem-insert h j s z))
  ];
  rest = λ j z.
      get_or-set_ne m.bf.arr h j 1 0
        (λ e. z (subst (λ t. t ∈ insert h s) (sym e) (mem-insert_self h s)))
      ∙ x.rest j (λ y. z (mem-insert_of_mem h j s y));
})
  where
    p' : h < length m.bf.arr
    p' = omega (arith, x.bits_length)

    q' : i < length m.h_kokhav
    q' = omega (arith, x.sets_length)

    old : (j : ℕ) → j ≢ h → (j ≡ h) ⊎ (j ∈ s) → j ∈ s
    old j n (inl e) = absurd (n e)
    old j n (inr y) = y

module _ ⦃b : Blocks⦄ ⦃c : Cipher⦄ (nbf : ℕ) (key : Block) (item : ℕ) where
  abbrev ciphertext : ℕ → Block
  ciphertext j = c.encrypt key (plaintext item j)

  -- The members that the first `j` ciphertexts give, two each.
  pub gather : ℕ → List ℕ
  gather zero = []
  gather (suc j) =
      insert (hash nbf (ciphertext j) 1) (insert (hash nbf (ciphertext j) 0) (gather j))

  -- The hash set of an item: `seeds_num` hash values, taken from the ciphertexts two by two.
  pub hash_set : ℕ → List ℕ
  hash_set seeds_num =
      let pairs = gather (seeds_num / 2) in
      if seeds_num % 2 == 1 then insert (hash nbf (ciphertext (seeds_num / 2)) 0) pairs else pairs

  gather-Ascending : (j : ℕ) → Ascending (gather j)
  unfolding gather
  gather-Ascending zero = tt
  gather-Ascending (suc j) = insert-Ascending _ _ (insert-Ascending _ _ (gather-Ascending j))

  gather-Within : (j : ℕ) → 0 < nbf → Within nbf (gather j)
  unfolding gather hash
  gather-Within zero h = tt
  gather-Within (suc j) h =
      All-insert _ _ (λ k. k < nbf) (omega arith)
        (All-insert _ _ (λ k. k < nbf) (omega arith) (gather-Within j h))

  pub hash_set-Ascending : (seeds_num : ℕ) → Ascending (hash_set seeds_num)
  unfolding hash_set
  hash_set-Ascending seeds_num = elim (Bool-cases (seeds_num % 2 == 1)) [
    | inl e ↦ rw e (insert-Ascending _ _ (gather-Ascending _))
    | inr e ↦ rw e (gather-Ascending _)
  ]

  pub hash_set-Within : (seeds_num : ℕ) → 0 < nbf → Within nbf (hash_set seeds_num)
  unfolding hash_set hash
  hash_set-Within seeds_num h = elim (Bool-cases (seeds_num % 2 == 1)) [
    | inl e ↦ rw e (All-insert _ _ (λ k. k < nbf) (omega arith) (gather-Within _ h))
    | inr e ↦ rw e (gather-Within _ h)
  ]

  get_ciphertext :
      (n j : ℕ)
      → j < n
      → get_elem? (ecb_enc_blocks key (map (plaintext item) (range 0 n))) j ≡ some (ciphertext j)
  unfolding ecb_enc_blocks
  get_ciphertext n j h =
      get_elem?-map (c.encrypt key) (map (plaintext item) (range 0 n)) j block0
        (omega (arith, length-map (plaintext item) (range 0 n), length-range 0 n))
      ∙ ap (λ x. some (c.encrypt key x))
          (some-injective _ _ (
            sym (
              get_elem?-eq-get_or (map (plaintext item) (range 0 n)) j block0
                (omega (arith, length-map (plaintext item) (range 0 n), length-range 0 n)))
            ∙ get_elem?-map (plaintext item) (range 0 n) j 0 (omega (arith, length-range 0 n))
            ∙ ap (λ k. some (plaintext item k)) (get_or-range 0 n j 0 h ∙ zero-add j)))

  mark_pair-Marked :
      (n i j : ℕ) (m0 m : Marks)
      → 0 < nbf
      → length m0.bf.arr ≡ nbf
      → i < length m0.h_kokhav
      → j < n
      → Marked i (gather j) m0 m
      → Gives
          (Marked i (gather (suc j)) m0)
          (mark_pair nbf i (ecb_enc_blocks key (map (plaintext item) (range 0 n))) j m)
  unfolding mark_pair gather hash
  mark_pair-Marked n i j m0 m h e q p x = rw (get_ciphertext n j p) (
      Gives-bind (mark-Marked i _ _ m0 m (omega arith) q x)
        (λ m1 y. mark-Marked i _ _ m0 m1 (omega arith) q y))

  unmarked : (i : ℕ) (m : Marks) → get_or m.h_kokhav i [] ≡ [] → Marked i [] m m
  unmarked i m z = record {
    bits_length = refl;
    sets_length = refl;
    here = z;
    others = λ k n. refl;
    ones = λ j y. absurd y;
    rest = λ j y. refl;
  }

  -- The body of the loop makes the item's hash set out of an empty one.
  pub mark_item-Marked :
      (seeds_num i : ℕ) (items : List ℕ) (m : Marks)
      → 0 < nbf
      → length m.bf.arr ≡ nbf
      → i < length m.h_kokhav
      → get_or m.h_kokhav i [] ≡ []
      → get_elem? items i ≡ some item
      → Gives (Marked i (hash_set seeds_num) m) (mark_item seeds_num nbf key items i m)
  unfolding mark_item
  mark_item-Marked seeds_num i items m h e q z it = rw it (Gives-bind pairs odd)
    where
      n : ℕ
      n = seeds_num / 2 + seeds_num % 2

      texts : List Block
      texts = ecb_enc_blocks key (map (plaintext item) (range 0 n))

      pairs :
          Gives
            (Marked i (gather (seeds_num / 2)) m)
            (for (seeds_num / 2) 0 (mark_pair nbf i texts) m)
      pairs =
          for-Gives (λ j u. Marked i (gather j) m u) (seeds_num / 2) _ (seeds_num / 2) 0 m
            (omega arith) (λ j u p l x. mark_pair-Marked n i j m u h e q (omega arith) x)
            (unfold gather in unmarked i m z)

      odd :
          (m1 : Marks)
          → Marked i (gather (seeds_num / 2)) m m1
          → Gives
              (Marked i (hash_set seeds_num) m)
              (if seeds_num % 2 == 1 then mark_odd nbf i texts (seeds_num / 2) m1 else some m1)
      odd m1 x =
          unfold hash_set in
          elim (Bool-cases (seeds_num % 2 == 1)) [
            | inl o ↦ rw o (
                unfold mark_odd in
                rw (get_ciphertext n (seeds_num / 2) (ground arith))
                  (mark-Marked i _ _ m m1 (unfold hash in omega arith) q x))
            | inr o ↦ rw o (gives x)
          ]
