-- ===== src/Gbf/Shape.antt =====
-- What the operations of `synchGBF` keep, and what its constructors establish.
use malicious_mpsi.Base.{
  ℕ, ◌+◌, ◌-◌, ◌*◌, ◌/◌, ◌≤◌, ◌<◌, ◌≡◌, ◌≢◌, refl, sym, ◌∙◌, List, arith, length, Gives, some-Gives,
  ne→==,
}
use native.Mathlib.Nat.{mul_comm, le_trans, div-mul-le_self, mul-le-mul_right}
use malicious_mpsi.Block.{Blocks, Block}
use malicious_mpsi.Gbf.{SynchGbf, new_synch_gbf, new_synch_gbf_segments}

quotient_fits : (n d : ℕ) → (n / d + 1 - 1) * d ≤ n
quotient_fits n d = let e : n / d + 1 - 1 ≡ n / d = omega arith in rw e (div-mul-le_self n d)

segments_fit : (n d : ℕ) → (d - 1) * (n / d) ≤ n
segments_fit n d =
    le_trans (mul-le-mul_right {m = d - 1} {n = d} (n / d) (omega arith))
      (rw mul_comm (div-mul-le_self n d))

module _ ⦃b : Blocks⦄ where
  -- What the constructors establish: the chunks before the last one end where it starts, inside
  -- the array.
  pub record IsValid (t : SynchGbf) : Type 0 where
    pub size : length t.gbf ≡ t.gbf_length
    pub some_chunk : 0 < t.num_of_chunks
    pub last_start : t.last_chunk_start ≡ (t.num_of_chunks - 1) * t.chunk_size
    pub last_in : t.last_chunk_start ≤ t.gbf_length

  -- The operations change cells of the array and nothing else.
  pub record SameShape (t u : SynchGbf) : Type 0 where
    pub gbf_length : u.gbf_length ≡ t.gbf_length
    pub chunk_size : u.chunk_size ≡ t.chunk_size
    pub num_of_chunks : u.num_of_chunks ≡ t.num_of_chunks
    pub last_chunk_start : u.last_chunk_start ≡ t.last_chunk_start

  pub unchanged : (t : SynchGbf) (g : List Block) → SameShape t (record t { gbf = g })
  unchanged t g = record {
    gbf_length = refl;
    chunk_size = refl;
    num_of_chunks = refl;
    last_chunk_start = refl;
  }

  -- Over memory of `Nbf` blocks both constructors succeed for a divisor other than 0, and their
  -- result is valid.
  pub new_synch_gbf-IsValid :
      (memory : List Block) (nbf n : ℕ)
      → length memory ≡ nbf
      → n ≢ 0
      → Gives IsValid (new_synch_gbf memory nbf n)
        × Gives IsValid (new_synch_gbf_segments memory nbf n)
  unfolding new_synch_gbf new_synch_gbf_segments
  new_synch_gbf-IsValid memory nbf n e h = (
    some-Gives (rw (ne→== n 0 h)) (record {
      size = e;
      some_chunk = omega arith;
      last_start = refl;
      last_in = quotient_fits nbf n;
    }),
    some-Gives (rw (ne→== n 0 h)) (record {
      size = e;
      some_chunk = omega arith;
      last_start = refl;
      last_in = segments_fit nbf n;
    }),
  )

  pub SameShape-trans : {t u v : SynchGbf} → SameShape t u → SameShape u v → SameShape t v
  SameShape-trans x y = record {
    gbf_length = y.gbf_length ∙ x.gbf_length;
    chunk_size = y.chunk_size ∙ x.chunk_size;
    num_of_chunks = y.num_of_chunks ∙ x.num_of_chunks;
    last_chunk_start = y.last_chunk_start ∙ x.last_chunk_start;
  }

  pub SameShape-IsValid :
      {t u : SynchGbf} → SameShape t u → length u.gbf ≡ length t.gbf → IsValid t → IsValid u
  SameShape-IsValid {t} {u} x e v = record {
    size = e ∙ v.size ∙ sym x.gbf_length;
    some_chunk = omega (arith, v.some_chunk, x.num_of_chunks);
    last_start = rw (x.last_chunk_start, x.num_of_chunks, x.chunk_size) v.last_start;
    last_in = omega (arith, v.last_in, x.last_chunk_start, x.gbf_length);
  }
