-- ===== src/Collect/Receive.antt =====
-- A filter that arrives in chunks is added once, whole.
use native.Mathlib.Nat.{zero-mul, le_trans, mul-le-mul_right, div-mul-le_self}
use malicious_mpsi.Base.{
  ℕ, suc, ◌+◌, ◌-◌, ◌*◌, ◌/◌, ◌≤◌, ◌<◌, ◌≡◌, refl, sym, ◌∙◌, subst, inl, inr, List, [], ◌∷◌, Option,
  some, arith, length, length-take, length-drop, get_or-take, get_or-drop, drop-drop, take, drop,
  All, ltb, ◌>>=◌, for, Gives, gives, Gives-bind, Gives-map, for-Gives, Bool-cases, ltb→lt,
  if◌then◌else◌,
}
use malicious_mpsi.Block.{Blocks, Block, cell, block0, xor_over}
use malicious_mpsi.Gbf.{SynchGbf, xor_chunk, xor_chunk_limited}
use malicious_mpsi.Gbf.Ranges.{XorRange, XorRange_empty, XorRange_join, XorRange_add, XorRange_zero}
use malicious_mpsi.Gbf.Shape.{IsValid, SameShape, SameShape-trans, SameShape-IsValid, unchanged}
use malicious_mpsi.Gbf.Chunks.{xor_chunk_lem, xor_chunk_limited_lem}
use malicious_mpsi.Collect.{Stream, Intake, read_blocks, get_chunk, get_last, get_gbf, compute_gbf}

module _ ⦃b : Blocks⦄ where
  read_blocks_lem :
      (n : ℕ) (stream : Stream)
      → n ≤ length stream
      → read_blocks n stream ≡ some (take n stream, drop n stream)
  unfolding read_blocks
  read_blocks_lem n stream h = ground arith

  -- After the message's first `done` blocks have been taken in.
  record Taken (t : SynchGbf) (msg : List Block) (done : ℕ) (s : Intake) : Type 0 where
    added : XorRange (cell msg) 0 done t.gbf s.test.gbf
    shape : SameShape t s.test
    rest : s.stream ≡ drop done msg
    count : s.sum ≡ 16 * done

  module _ (t : SynchGbf) (v : IsValid t) (msg : List Block) where
    -- A block of `limit` cells from `start`, whichever of the two calls adds it.
    take_in :
        (op : List Block → SynchGbf → Option SynchGbf) (start limit : ℕ) (s : Intake)
        → ((w : ℕ → Block) (chunk : List Block) (u : SynchGbf)
            → SameShape t u
            → start + limit ≤ length u.gbf
            → limit ≤ length chunk
            → ((k : ℕ) → k < limit → w (start + k) ≡ cell chunk k)
            → Gives
                (λ r. XorRange w start (start + limit) u.gbf r.gbf × SameShape u r)
                (op chunk u))
        → start + limit ≤ t.gbf_length
        → start + limit ≤ length msg
        → Taken t msg start s
        → Gives (Taken t msg (start + limit)) (do
          (chunk, rest) ← read_blocks limit s.stream
          u ← op chunk s.test
          some (record { test = u; stream = rest; sum = s.sum + 16 * limit }))
    take_in op start limit s step fits enough x =
        rw (x.rest, read_blocks_lem limit (drop start msg) (omega (arith, length-drop start msg)))
          (Gives-bind
            (step (cell msg) (take limit (drop start msg)) s.test x.shape
              (omega (arith, x.added.same_length, v.size))
              (omega (arith, length-take limit (drop start msg) room))
              (λ k p.
                sym
                  (get_or-take limit k (drop start msg) block0 p ∙ get_or-drop start k msg block0)))
            (λ u y. gives (record {
              added = XorRange_join (omega arith) (omega arith) x.added y.0;
              shape = SameShape-trans x.shape y.1;
              rest = drop-drop start limit msg;
              count = omega (arith, x.count);
            })))
      where
        room : limit ≤ length (drop start msg)
        room = omega (arith, length-drop start msg)

    get_chunk-Taken :
        (i stop : ℕ) (s : Intake)
        → i * t.chunk_size + t.chunk_size ≡ stop
        → stop ≤ t.gbf_length
        → stop ≤ length msg
        → Taken t msg (i * t.chunk_size) s
        → Gives (Taken t msg stop) (get_chunk t.chunk_size i s)
    unfolding get_chunk
    get_chunk-Taken i stop s e fits enough x =
        subst (λ k. Gives (Taken t msg k) (get_chunk t.chunk_size i s)) e
          (take_in (λ chunk u. xor_chunk chunk i u) (i * t.chunk_size) t.chunk_size s
            (λ w chunk u y p q h.
              xor_chunk_lem w chunk i (i * t.chunk_size) t.chunk_size u y.chunk_size refl p q h)
            (omega arith) (omega arith) x)

    get_last-Taken :
        (n limit stop : ℕ) (s : Intake)
        → n * t.chunk_size + limit ≡ stop
        → stop ≤ t.gbf_length
        → stop ≤ length msg
        → Taken t msg (n * t.chunk_size) s
        → Gives (Taken t msg stop) (get_last n limit s)
    unfolding get_last
    get_last-Taken n limit stop s e fits enough x =
        subst (λ k. Gives (Taken t msg k) (get_last n limit s)) e
          (take_in (λ chunk u. xor_chunk_limited chunk n limit u) (n * t.chunk_size) limit s
            (λ w chunk u y p q h.
              xor_chunk_limited_lem w chunk n (n * t.chunk_size) limit u (rw y.chunk_size refl) p q
                h)
            (omega arith) (omega arith) x)

    get_gbf-Taken :
        (nbf : ℕ)
        → nbf ≤ t.gbf_length
        → nbf ≤ length msg
        → Gives (Taken t msg nbf) (get_gbf nbf t msg)
    unfolding get_gbf
    get_gbf-Taken nbf fits enough = Gives-bind chunks last
      where
        c : ℕ
        c = t.chunk_size

        chunk_fits : (i : ℕ) → i < nbf / c → suc i * c ≤ nbf
        chunk_fits i p = le_trans (mul-le-mul_right c p) (div-mul-le_self nbf c)

        chunks :
            Gives
              (Taken t msg (nbf / c * c))
              (for (nbf / c) 0 (get_chunk c) (record { test = t; stream = msg; sum = 0 }))
        chunks =
            for-Gives (λ i s. Taken t msg (i * c) s) (nbf / c) (get_chunk c) (nbf / c) 0 _
              (omega arith)
              (λ i s p q x.
                get_chunk-Taken i (suc i * c) s (omega arith) (omega (arith, chunk_fits i q))
                  (omega (arith, chunk_fits i q)) x)
              (rw zero-mul (record {
                added = XorRange_empty _ 0 _;
                shape = record {
                  gbf_length = refl;
                  chunk_size = refl;
                  num_of_chunks = refl;
                  last_chunk_start = refl;
                };
                rest = refl;
                count = refl;
              }))

        last :
            (s : Intake)
            → Taken t msg (nbf / c * c) s
            → Gives
                (Taken t msg nbf)
                (if ltb (nbf / c * c) nbf then get_last (nbf / c) (nbf - nbf / c * c) s else some s)
        last s x = elim (Bool-cases (ltb (nbf / c * c) nbf)) [
          | inl e ↦
              rw e (get_last-Taken (nbf / c) _ nbf s (omega (arith, ltb→lt _ _ e)) fits enough x)
          | inr e ↦ rw e (
              gives (
                let done : nbf / c * c ≡ nbf = ground (arith, div-mul-le_self nbf c) in
                rw done at x))
        ]

  -- `get_gbf` over a socket on which `Nbf` blocks arrive returns, has added block `k` of the
  -- message to cell `k` for each `k` below `Nbf` and changed nothing else, has left on the socket
  -- what follows the message, and counts its 16 bytes for each block, whatever the size of the chunks.
  pub get_gbf_lem :
      (t : SynchGbf) (msg : List Block) (nbf : ℕ)
      → IsValid t
      → nbf ≡ t.gbf_length
      → nbf ≤ length msg
      → Gives
          (λ s.
            XorRange (cell msg) 0 nbf t.gbf s.test.gbf
            × SameShape t s.test
            × (s.stream ≡ drop nbf msg)
            × (s.sum ≡ 16 * nbf))
          (get_gbf nbf t msg)
  get_gbf_lem t msg nbf v e h =
      Gives-map (get_gbf-Taken t v msg nbf (omega arith) h)
        (λ s x. (x.added, x.shape, x.rest, x.count))

  -- P0's filter after all the parties' messages have arrived: `compute_gbf` returns, and cell `k` has
  -- got block `k` of every message added, once each.
  pub compute_gbf_lem :
      (t : SynchGbf) (msgs : List (List Block)) (nbf : ℕ)
      → IsValid t
      → nbf ≡ t.gbf_length
      → All (λ msg. nbf ≤ length msg) msgs
      → Gives
          (λ u. XorRange (λ k. xor_over (λ msg. cell msg k) msgs) 0 nbf t.gbf u.gbf × SameShape t u)
          (compute_gbf nbf msgs t)
  unfolding compute_gbf
  compute_gbf_lem t [] nbf v e h = gives (XorRange_zero 0 nbf t.gbf, unchanged t t.gbf)
  compute_gbf_lem t (msg ∷ msgs) nbf v e h = Gives-bind (get_gbf_lem t msg nbf v e h.0) λ s x.
      Gives-map
        (compute_gbf_lem s.test msgs nbf (SameShape-IsValid x.1 x.0.same_length v)
          (e ∙ sym x.1.gbf_length) h.1)
        λ u y. (XorRange_add x.0 y.0, SameShape-trans x.1 y.1)
