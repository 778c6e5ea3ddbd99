-- ===== src/Gbf/Chunks.antt =====
-- The operations of `synchGBF` that go over the whole array, chunk by chunk.
use malicious_mpsi.Base.{
  ℕ, suc, ◌+◌, ◌-◌, ◌*◌, ◌≤◌, ◌<◌, ◌≡◌, ◌∙◌, ap, subst, inl, inr, List, Option, some, arith, length,
  get_or, get_elem?-eq-get_or, ltb, for, Gives, gives, Gives-bind, Gives-map, for-Gives, Bool-cases,
  if◌then◌else◌, ◌==◌,
}
use native.Mathlib.Nat.{zero-mul, le_trans, mul-le-mul_right}
use malicious_mpsi.Block.{Blocks, Block, cell, block0}
use malicious_mpsi.Gbf.{
  SynchGbf, xor_loop, xor_chunks, xor_simple, ordered, xor_ordered, choose, ordered_bf,
  xor_ordered_bf, xor_chunk, xor_chunk_limited,
}
use malicious_mpsi.Gbf.Ranges.{
  XorRange, XorRange_empty, XorRange_join, xor_loop-XorRange, xor_chunk_loop-XorRange,
}
use malicious_mpsi.Gbf.Shape.{IsValid, SameShape, unchanged}

module _ ⦃b : Blocks⦄ where
  pub ordered_lem :
      (to_xor : List Block) (order : List ℕ) (k : ℕ)
      → k < length order
      → get_or order k 0 < length to_xor
      → ordered to_xor order k ≡ some (cell to_xor (get_or order k 0))
  unfolding ordered
  ordered_lem to_xor order k p q =
      rw (get_elem?-eq-get_or order k 0 p) (get_elem?-eq-get_or to_xor (get_or order k 0) block0 q)

  -- The string of a pair that a bit names.
  abbrev pub chosen : Block × Block → ℕ → Block
  chosen pair bit = if bit == 0 then pair.0 else pair.1

  choose_lem : (pair : Block × Block) (bit : ℕ) → bit < 2 → choose pair bit ≡ some (chosen pair bit)
  unfolding choose
  choose_lem pair bit h = ground arith

  pub ordered_bf_lem :
      (to_xor : List (Block × Block)) (order bf : List ℕ) (k : ℕ)
      → k < length order
      → k < length bf
      → get_or order k 0 < length to_xor
      → get_or bf k 0 < 2
      → ordered_bf to_xor order bf k
        ≡ some (chosen (get_or to_xor (get_or order k 0) (block0, block0)) (get_or bf k 0))
  unfolding ordered_bf
  ordered_bf_lem to_xor order bf k p q r h =
      rw
        (
          get_elem?-eq-get_or order k 0 p,
          get_elem?-eq-get_or to_xor (get_or order k 0) (block0, block0) r,
          get_elem?-eq-get_or bf k 0 q,
        )
        (choose_lem _ _ h)

  -- The whole array is gone over once, whatever the size of the chunks.
  pub xor_chunks_lem :
      (source : ℕ → Option Block) (w : ℕ → Block) (t : SynchGbf)
      → IsValid t
      → ((k : ℕ) → k < t.gbf_length → source k ≡ some (w k))
      → Gives (λ u. XorRange w 0 t.gbf_length t.gbf u.gbf × SameShape t u) (xor_chunks source t)
  unfolding xor_chunks
  xor_chunks_lem source w t v src =
      Gives-bind chunks (λ g x. Gives-bind (last g x) (λ u y. gives (y, unchanged t u)))
    where
      chunk_fits : (n : ℕ) → n < t.num_of_chunks - 1 → suc n * t.chunk_size ≤ t.gbf_length
      chunk_fits n q =
          le_trans (mul-le-mul_right t.chunk_size q) (omega (arith, v.last_start, v.last_in))

      chunks :
          Gives (XorRange w 0 t.last_chunk_start t.gbf) (
            for
              (t.num_of_chunks - 1)
              0
              (λ n. xor_loop source t.chunk_size (n * t.chunk_size))
              t.gbf)
      chunks = rw v.last_start (
          for-Gives (λ n u. XorRange w 0 (n * t.chunk_size) t.gbf u) (t.num_of_chunks - 1) _
            (t.num_of_chunks - 1) 0 t.gbf (omega arith)
            (λ n u p q x.
              Gives-map
                (xor_loop-XorRange source w t.chunk_size (n * t.chunk_size) (suc n * t.chunk_size) u
                  (omega arith) (omega (arith, x.same_length, v.size, chunk_fits n q))
                  (λ k a c. src k (omega (arith, chunk_fits n q))))
                (λ z y. XorRange_join (omega arith) (omega arith) x y))
            (rw zero-mul (XorRange_empty w 0 t.gbf)))

      last :
          (g : List Block)
          → XorRange w 0 t.last_chunk_start t.gbf g
          → Gives (XorRange w 0 t.gbf_length t.gbf) (
              if ltb t.last_chunk_start t.gbf_length
              then xor_loop source (t.gbf_length - t.last_chunk_start) t.last_chunk_start g
              else some g)
      last g x = elim (Bool-cases (ltb t.last_chunk_start t.gbf_length)) [
        | inl e ↦ rw e (
            Gives-map
              (xor_loop-XorRange source w (t.gbf_length - t.last_chunk_start) t.last_chunk_start
                t.gbf_length g (omega (arith, v.last_in)) (omega (arith, x.same_length, v.size))
                (λ k a c. src k c))
              (λ z y. XorRange_join (omega arith) v.last_in x y))
        | inr e ↦ rw e (
            gives (
              let same : t.last_chunk_start ≡ t.gbf_length = ground (arith, v.last_in) in
              rw same at x))
      ]

  -- `XORsimple` adds block `k` of its argument to cell `k`, for every `k`.
  xor_simple_lem :
      (to_xor : List Block) (t : SynchGbf)
      → IsValid t
      → t.gbf_length ≤ length to_xor
      → Gives
          (λ u. XorRange (cell to_xor) 0 t.gbf_length t.gbf u.gbf × SameShape t u)
          (xor_simple to_xor t)
  unfolding xor_simple
  xor_simple_lem to_xor t v h =
      xor_chunks_lem _ (cell to_xor) t v (λ k p. get_elem?-eq-get_or to_xor k block0 (omega arith))

  -- `XORordered` adds to cell `k` the string that `order` names at `k`.
  pub xor_ordered_lem :
      (to_xor : List Block) (order : List ℕ) (t : SynchGbf)
      → IsValid t
      → t.gbf_length ≤ length order
      → ((k : ℕ) → k < t.gbf_length → get_or order k 0 < length to_xor)
      → Gives
          (λ u.
            XorRange (λ k. cell to_xor (get_or order k 0)) 0 t.gbf_length t.gbf u.gbf
            × SameShape t u)
          (xor_ordered to_xor order t)
  unfolding xor_ordered
  xor_ordered_lem to_xor order t v h r =
      xor_chunks_lem _ _ t v (λ k p. ordered_lem to_xor order k (omega arith) (r k p))

  -- `XORorderedBF` adds to cell `k` the one of the two strings of OT `order[k]` that bit `k` of the
  -- Bloom filter names.
  pub xor_ordered_bf_lem :
      (to_xor : List (Block × Block)) (order bf : List ℕ) (t : SynchGbf)
      → IsValid t
      → t.gbf_length ≤ length order
      → t.gbf_length ≤ length bf
      → ((k : ℕ) → k < t.gbf_length → get_or order k 0 < length to_xor)
      → ((k : ℕ) → k < t.gbf_length → get_or bf k 0 < 2)
      → Gives
          (λ u.
            XorRange
              (λ k. chosen (get_or to_xor (get_or order k 0) (block0, block0)) (get_or bf k 0))
              0
              t.gbf_length
              t.gbf
              u.gbf
            × SameShape t u)
          (xor_ordered_bf to_xor order bf t)
  unfolding xor_ordered_bf
  xor_ordered_bf_lem to_xor order bf t v h i r bits =
      xor_chunks_lem _ _ t v
        (λ k p. ordered_bf_lem to_xor order bf k (omega arith) (omega arith) (r k p) (bits k p))

  -- `XORchunk` adds its argument to the cells of one chunk.
  pub xor_chunk_lem :
      (w : ℕ → Block) (to_xor : List Block) (n start size : ℕ) (t : SynchGbf)
      → t.chunk_size ≡ size
      → n * size ≡ start
      → start + size ≤ length t.gbf
      → size ≤ length to_xor
      → ((k : ℕ) → k < size → w (start + k) ≡ cell to_xor k)
      → Gives
          (λ u. XorRange w start (start + size) t.gbf u.gbf × SameShape t u)
          (xor_chunk to_xor n t)
  unfolding xor_chunk
  xor_chunk_lem w to_xor n start size t c e p q h = rw (ap (λ z. n * z) c ∙ e) (
      Gives-bind
        (xor_chunk_loop-XorRange to_xor w start t.chunk_size t.gbf (omega arith) (omega arith)
          (λ k i. h k (omega arith)))
        (λ g x. gives (subst (λ z. XorRange w start (start + z) t.gbf g) c x, unchanged t g)))

  pub xor_chunk_limited_lem :
      (w : ℕ → Block) (to_xor : List Block) (n start limit : ℕ) (t : SynchGbf)
      → n * t.chunk_size ≡ start
      → start + limit ≤ length t.gbf
      → limit ≤ length to_xor
      → ((k : ℕ) → k < limit → w (start + k) ≡ cell to_xor k)
      → Gives
          (λ u. XorRange w start (start + limit) t.gbf u.gbf × SameShape t u)
          (xor_chunk_limited to_xor n limit t)
  unfolding xor_chunk_limited
  xor_chunk_limited_lem w to_xor n start limit t e p q h = rw e (
      Gives-bind (xor_chunk_loop-XorRange to_xor w start limit t.gbf p q h)
        (λ g x. gives (x, unchanged t g)))
