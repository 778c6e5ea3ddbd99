-- ===== src/Tests/Parties.antt =====
-- Three parties run the whole protocol on filters of four bits.
pub mod Data
use mathlib.Core.List.Permᴰ
use malicious_mpsi.Base.{
  ℕ, zero, suc, ◌+◌, ◌*◌, ◌-◌, ◌<◌, ◌≡◌, refl, Option, List, [], ◌∷◌, some, arith, get_or, map,
  range, replicate, ◌∈◌, ◌==◌, if◌then◌else◌, All, subst, sym, ap, ◌∙◌, inl, inr, length, ◌≤◌, for,
  store, insert, eq-cases,
}
use malicious_mpsi.Bitstring.{zeros, set_bit}
use malicious_mpsi.Arrange.{arrange_the_indexes, arrange_up, arrange_down, take_index}
use malicious_mpsi.Arrange.Rank.{class}
use malicious_mpsi.Approt.Function.{IsFunction}
use malicious_mpsi.Choose.Opening.{IsOt}
use malicious_mpsi.Protocol.Sharing.{common_seed}
use malicious_mpsi.Protocol.Pairs.{IsExchange}
use malicious_mpsi.Bloom.{
  create_bf_threads, bf_threads, bf_thread, mark_item, mark_pair, mark_odd, mark, hash, plaintext,
  fresh_marks, ecb_enc_blocks, Marks, create_bf,
}
use mathlib.Core.Option.{some-injective}
use malicious_mpsi.Protocol.{
  set_up, online_phase, go_on, run_online_apport, run_exchanges, seeds_agreement, share_gbf, Side,
  Inputs,
}
use malicious_mpsi.Exchange.{
  exchange_keys, read_p0, read_pi, secret_write, seeds_agreement_p0, seeds_agreement_pi,
  check_commits, add_seeds, secret_sharing_aes, add_stream,
}
use malicious_mpsi.Gbf.{new_synch_gbf, xor_loop, xor_cell, ordered, ordered_bf, choose, SynchGbf}
use malicious_mpsi.Segments.{run_threads, run_queue, queued, push_segments, run_xoring, job_block}
use malicious_mpsi.Codeword.{fill_item, visit_cells, visit_cell, draw_cell, close_item}
use malicious_mpsi.Codeword.Run.{Clean, item, done}
use malicious_mpsi.Random.{gen_block, word_of}
use malicious_mpsi.Approt.{going, Session, online_apport_receiver}
use malicious_mpsi.Block.{Block, block0, cell, xor_over}
use malicious_mpsi.Samples.{apart_zero, nibbles, counter, masking, open_commitments, nibble}
use malicious_mpsi.Gbf.Chunks.{chosen}
use malicious_mpsi.Protocol.Run.{Choices, IsRun, set_up_of, Ends, pi_of, p0_of}
use malicious_mpsi.Protocol.Online.{Goes}
use malicious_mpsi.Protocol.Completeness.{completeness}
use malicious_mpsi.Tests.Parties.Data.{
  pairs, p0_bits, pi_bits, take_strings, p0_function, pi_function, p0_side, pi_side, party_seed,
  inputs, marks_of, choices,
}

-- A table of proofs for the numbers below `n`.
each_from : (P : ℕ → Type 0) (i n : ℕ) → All P (range i n) → (k : ℕ) → i ≤ k → k < i + n → P k
each_from P i zero h k l u = absurd (omega arith)
each_from P i (suc n) h k l u = elim (eq-cases k i) [
  | inl e ↦ subst P (sym e) h.0
  | inr ne ↦ each_from P (suc i) n h.1 k (omega arith) (omega arith)
]

each : (P : ℕ → Type 0) (n : ℕ) → All P (range 0 n) → (k : ℕ) → k < n → P k
each P n h k l = each_from P 0 n h k (omega arith) (omega arith)

-- Entry `j` of a function with an inverse `back`, whose values lie below the check group.
abbrev IsEntry : List ℕ → List ℕ → List ℕ → List ℕ → ℕ → Type 0
IsEntry bits bf f back j =
    (get_or f j 0 < 4)
    × (class bits (get_or f j 0) ≡ class bf j)
    × (get_or back (get_or f j 0) 0 ≡ j)

table_IsFunction :
    (bits bf f back : List ℕ)
    → length f ≡ 4
    → All (IsEntry bits bf f back) (range 0 4)
    → IsFunction 5 (4 ∷ []) bits bf 4 f
table_IsFunction bits bf f back size h =
    let at = each (IsEntry bits bf f back) 4 h in
    record {
      size = size;
      inside = λ j l. omega (arith, (at j l).0);
      fresh = λ j l i. elim i [ inl e ↦ absurd (omega (arith, (at j l).0)) | inr k ↦ absurd k ];
      matches = λ j l. (at j l).1;
      injective = λ i j l u e.
          let same : i ≡ j =
            sym (at i (omega arith)).2 ∙ ap (λ t. get_or back t 0) e ∙ (at j u).2 in
          absurd (omega arith);
    }

strings_IsOt :
    (p i : ℕ) (bits : List ℕ)
    → length bits ≡ 5
    → IsOt 5 (pairs p i) bits (take_strings (pairs p i) bits)
strings_IsOt p i bits size = record {
  sent = refl;
  chose = size;
  got = refl;
  agree = each _ 5 (refl, (refl, (refl, (refl, (refl, tt)))));
}

down_IsExchange : (j : ℕ) → IsExchange 4 (marks_of 0).bf.arr (p0_side j) (pi_side j) p0_function
unfolding online_apport_receiver arrange_the_indexes arrange_up arrange_down take_index for store
down_IsExchange j = record {
  ots = 5;
  bits = p0_bits;
  sub_group = 4 ∷ [];
  ot = strings_IsOt (suc j) 0 p0_bits refl;
  makes = refl;
  good = table_IsFunction p0_bits (1 ∷ 1 ∷ 1 ∷ 0 ∷ []) p0_function (0 ∷ 3 ∷ 1 ∷ 2 ∷ []) refl (
    (omega arith, refl, refl),
    ((omega arith, refl, refl), ((omega arith, refl, refl), ((omega arith, refl, refl), tt))),
  );
  arrives = refl;
}

up_IsExchange : (j : ℕ) → IsExchange 4 (1 ∷ 1 ∷ 0 ∷ 0 ∷ []) (pi_side j) (p0_side j) pi_function
unfolding online_apport_receiver arrange_the_indexes arrange_up arrange_down take_index for store
up_IsExchange j = record {
  ots = 5;
  bits = pi_bits;
  sub_group = 4 ∷ [];
  ot = strings_IsOt 0 j pi_bits refl;
  makes = refl;
  good = table_IsFunction pi_bits (1 ∷ 1 ∷ 0 ∷ 0 ∷ []) pi_function (3 ∷ 0 ∷ 1 ∷ 2 ∷ []) refl (
    (omega arith, refl, refl),
    ((omega arith, refl, refl), ((omega arith, refl, refl), ((omega arith, refl, refl), tt))),
  );
  arrives = refl;
}

filters_of :
    (q : ℕ) → q < 3 → create_bf 2 4 (common_seed 2 4 inputs) (inputs q).items ≡ some (marks_of q)
unfolding create_bf create_bf_threads bf_threads bf_thread mark_item mark_pair mark_odd mark hash
    plaintext fresh_marks zeros set_bit insert for store ecb_enc_blocks
filters_of = each _ 3 (refl, (refl, (refl, tt)))

-- The filters with which the online phases end.
abbrev shared : ℕ → SynchGbf
shared p = record {
  gbf_length = 4;
  chunk_size = 256;
  num_of_chunks = 1;
  last_chunk_start = 0;
  gbf = replicate 4 (if p == 1 then nibble 14 else nibble 12);
}

abbrev ended : ℕ → List Block
ended p =
    if p == 1
    then nibble 15 ∷ nibble 12 ∷ nibble 15 ∷ nibble 10 ∷ []
    else nibble 10 ∷ nibble 15 ∷ nibble 10 ∷ nibble 11 ∷ []

set_up_value : (j : ℕ) → j < 2 → set_up_of 2 4 2 inputs (suc j) ≡ some (shared (suc j), block0)
unfolding set_up new_synch_gbf exchange_keys read_p0 read_pi secret_write seeds_agreement
    seeds_agreement_p0 seeds_agreement_pi check_commits add_seeds share_gbf secret_sharing_aes
    add_stream xor_loop xor_cell ecb_enc_blocks for store
set_up_value = each _ 2 (refl, (refl, tt))

ended_value :
    (j : ℕ)
    → j < 2
    → online_phase 4
        (inputs (suc j)).schedule
        (marks_of (suc j)).bf.arr
        (inputs (suc j)).sides
        1
        (shared (suc j)).gbf
      ≡ some (going (ended (suc j)))
unfolding online_phase run_exchanges run_online_apport go_on online_apport_receiver
    arrange_the_indexes arrange_up arrange_down take_index run_threads run_queue queued
    push_segments run_xoring job_block ordered ordered_bf choose xor_loop xor_cell for store
ended_value = each _ 2 (refl, (refl, tt))

abbrev value : {A : Type 0} → A → Option (Session A) → A
value d (some (going x)) = x
value d _ = d

-- The online phase of Pi ends with the filter above.
ends_lem :
    (j : ℕ) (u : List Block) → j < 2 → Ends 2 4 2 inputs choices (suc j) u → u ≡ ended (suc j)
ends_lem j u h (s, e, e') = ap (value u) (
    sym e'
    ∙ ap
        (λ t.
          online_phase 4 (inputs (suc j)).schedule (marks_of (suc j)).bf.arr (inputs (suc j)).sides
            1 t.0.gbf)
        (some-injective _ _ (sym e ∙ set_up_value j h))
    ∙ ended_value j h)

abbrev IsClean : ℕ → List Block → Type 0
IsClean p u =
    Clean (marks_of p).h_kokhav (map (xor_over (cell u)) (marks_of p).h_kokhav)
      (record { gbf = replicate 4 block0; crypt = (inputs p).crypt })

filling-IsClean : (j : ℕ) → j < 2 → IsClean (suc j) (ended (suc j))
unfolding fill_item visit_cells visit_cell draw_cell close_item gen_block word_of store
filling-IsClean = each _ 2 (
  item refl 0 (inl refl) refl (apart_zero _ tt, (apart_zero _ tt, tt)) done,
  (item refl 0 (inl refl) refl (apart_zero _ tt, (apart_zero _ tt, tt)) done, tt),
)

inputs-IsRun : IsRun 2 4 2 inputs choices
inputs-IsRun = record {
  nonempty = omega arith;
  ready = λ q h. record {
    keys_size = refl;
    pledges_size = refl;
    keys_memory_size = refl;
    gbf_size = refl;
  };
  queues = λ q i jobs. Permᴰ.refl jobs;
  memory = inl refl;
  filters = filters_of;
  down = each _ 2 (down_IsExchange 0, (down_IsExchange 1, tt));
  up = each _ 2 (up_IsExchange 0, (up_IsExchange 1, tt));
  clean = λ j u h e. subst (IsClean (suc j)) (sym (ends_lem j u h e)) (filling-IsClean j h);
}

completeness_example :
    (sent : ℕ → List Block) × ((j : ℕ)
      → j < 2
      → pi_of 2 4 2 inputs (suc j) ≡ some (going (sent (suc j))))
    × Goes
        (λ found.
          ((e : ℕ) → ((q : ℕ) → q < 3 → e ∈ (inputs q).items) → e ∈ found)
          × ((e : ℕ) → e ∈ found → e ∈ (inputs 0).items))
        (p0_of 2 4 2 inputs sent)
completeness_example = completeness 2 4 2 inputs choices inputs-IsRun
