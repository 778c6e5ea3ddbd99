-- ===== src/Tests/Filters.antt =====
-- Filters of a few cells.
use malicious_mpsi.Base.{
  ℕ, zero, suc, ◌+◌, ◌*◌, ◌<◌, ◌≤◌, ◌≡◌, ◌⊎◌, inl, inr, refl, List, [], ◌∷◌, some, none, arith,
  length, get_or, map, range, replicate, Gives, All, Within, Distinct, store,
}
use malicious_mpsi.Block.{Block, block0, cell, xor_over}
use malicious_mpsi.Random.{gen_block, word_of}
use malicious_mpsi.Samples.{apart_zero, nibbles, counter, masking, nibble}
use malicious_mpsi.Bloom.{create_bf, bf_thread, create_bf_threads, fresh_marks}
use malicious_mpsi.Bloom.Filter.{Built, create_bf_lem, create_bf_threads-eq-bf_thread}
use malicious_mpsi.SubGroup.{read_past, draw_group, get_sub_group, ciphertexts_size}
use malicious_mpsi.SubGroup.Draw.{IsGroup, EndsWithGroup, collected, texts_of, get_sub_group_lem}
use malicious_mpsi.Gbf.{SynchGbf, choose, ordered, ordered_bf}
use malicious_mpsi.Gbf.Ranges.{XorRange}
use malicious_mpsi.Gbf.Shape.{IsValid, SameShape}
use malicious_mpsi.Gbf.Chunks.{chosen}
use malicious_mpsi.Codeword.{
  Filling, re_randomization, get_intersection, fill_item, visit_cells, visit_cell, draw_cell,
  close_item,
}
use malicious_mpsi.Codeword.Run.{Clean, done, item, HasCodewords, re_randomization_lem}
use malicious_mpsi.Codeword.Sums.{Printed, get_intersection_lem}
use malicious_mpsi.Segments.{Job, job_recv, job_sender, job_block, run_threads}
use malicious_mpsi.Segments.Quarters.{IsDoable, quarter, run_threads_lem}
use malicious_mpsi.Collect.{compute_gbf}
use malicious_mpsi.Collect.Receive.{compute_gbf_lem}

create_bf_example :
    Gives (Built 3 4 (nibble 2) (1 ∷ 7 ∷ []) 2) (create_bf 3 4 (nibble 2) (1 ∷ 7 ∷ []))
create_bf_example = create_bf_lem 3 4 (nibble 2) (1 ∷ 7 ∷ []) (omega arith)

abbrev many_items : List ℕ
many_items = range 3 80

create_bf_threads_example :
    create_bf_threads 3 4 (nibble 2) many_items (fresh_marks 4 many_items)
    ≡ bf_thread 3 4 (nibble 2) many_items 0 (length many_items) (fresh_marks 4 many_items)
create_bf_threads_example =
    create_bf_threads-eq-bf_thread 3 4 (nibble 2) many_items (fresh_marks 4 many_items)

get_sub_group_example :
    ((2 ≤ length (collected (texts_of 2 (nibble 6)) 4 (2 * ciphertexts_size 2) 0 []))
      × Gives (EndsWithGroup 4 2) (draw_group 4 2 (nibble 6))
      × Gives (IsGroup 4 2) (get_sub_group 4 2 (nibble 6)))
    ⊎ ((length (collected (texts_of 2 (nibble 6)) 4 (2 * ciphertexts_size 2) 0 []) < 2)
        × (draw_group 4 2 (nibble 6) ≡ some read_past)
        × (get_sub_group 4 2 (nibble 6) ≡ none))
get_sub_group_example = get_sub_group_lem 4 2 (nibble 6) (omega arith)

abbrev shared : SynchGbf
shared = record {
  gbf_length = 5;
  chunk_size = 2;
  num_of_chunks = 3;
  last_chunk_start = 4;
  gbf = nibble 3 ∷ nibble 0 ∷ nibble 12 ∷ nibble 9 ∷ nibble 4 ∷ [];
}

shared-IsValid : IsValid shared
shared-IsValid = record {
  size = refl;
  some_chunk = omega arith;
  last_start = refl;
  last_in = omega arith;
}

abbrev messages : List (List Block)
messages = map nibble (range 1 7) ∷ map nibble (range 3 5) ∷ []

compute_gbf_example :
    Gives
      (λ u.
        XorRange (λ k. xor_over (λ msg. cell msg k) messages) 0 5 shared.gbf u.gbf
        × SameShape shared u)
      (compute_gbf 5 messages shared)
compute_gbf_example =
    compute_gbf_lem shared messages 5 shared-IsValid refl (omega arith, (omega arith, tt))

abbrev sets : List (List ℕ)
sets = (0 ∷ 1 ∷ 2 ∷ []) ∷ (1 ∷ 3 ∷ []) ∷ []

sets-Distinct : All Distinct sets
sets-Distinct = (
  (
    (λ i. elim i [
      | inl e ↦ absurd (omega arith)
      | inr j ↦ elim j [ inl e ↦ absurd (omega arith) | inr k ↦ k ]
    ]),
    ((λ i. elim i [ inl e ↦ absurd (omega arith) | inr j ↦ j ]), ((λ i. i), tt)),
  ),
  (((λ i. elim i [ inl e ↦ absurd (omega arith) | inr j ↦ j ]), ((λ i. i), tt)), tt),
)

sets-Within : All (Within 5) sets
sets-Within =
    ((omega arith, (omega arith, (omega arith, tt))), ((omega arith, (omega arith, tt)), tt))

abbrev codewords : List Block
codewords = nibble 15 ∷ nibble 9 ∷ []

abbrev start : Filling
start = record { gbf = replicate 5 block0; crypt = 1 }

abbrev after_first : Filling
after_first = record { gbf = nibble 5 ∷ nibble 6 ∷ nibble 12 ∷ nibble 0 ∷ nibble 0 ∷ []; crypt = 5 }

abbrev after_second : Filling
after_second = record {
  gbf = nibble 5 ∷ nibble 6 ∷ nibble 12 ∷ nibble 15 ∷ nibble 0 ∷ [];
  crypt = 5;
}

first_test : fill_item (0 ∷ 1 ∷ 2 ∷ []) (nibble 15) start ≡ some after_first
unfolding fill_item visit_cells visit_cell draw_cell close_item gen_block word_of store
first_test = refl

second_test : fill_item (1 ∷ 3 ∷ []) (nibble 9) after_first ≡ some after_second
unfolding fill_item visit_cells visit_cell draw_cell close_item gen_block word_of store
second_test = refl

run-Clean : Clean sets codewords start
run-Clean =
    item first_test 0 (inl refl) refl (apart_zero _ tt, (apart_zero _ tt, (apart_zero _ tt, tt)))
      (item second_test 3 (inr (inl refl)) refl (apart_zero _ tt, (apart_zero _ tt, tt)) done)

re_randomization_example :
    Gives
      (λ s. (length s.gbf ≡ 5) × HasCodewords sets (map (xor_over (cell shared.gbf)) sets) s.gbf)
      (re_randomization sets shared 5 1)
re_randomization_example =
    re_randomization_lem sets shared 5 1 refl sets-Distinct sets-Within run-Clean

abbrev entries : List (ℕ × List ℕ)
entries = (30, 0 ∷ 1 ∷ []) ∷ (40, 1 ∷ []) ∷ []

get_intersection_example : Gives (Printed entries shared.gbf) (get_intersection entries shared.gbf)
get_intersection_example =
    get_intersection_lem entries shared.gbf
      ((omega arith, (omega arith, tt)), ((omega arith, tt), tt))

abbrev order : List ℕ
order = 4 ∷ 2 ∷ 0 ∷ 1 ∷ 3 ∷ []

abbrev bits : List ℕ
bits = 1 ∷ 0 ∷ 0 ∷ 1 ∷ 1 ∷ []

abbrev pairs : List (Block × Block)
pairs = map (λ n. (nibble n, nibble (n + 7))) (range 1 5)

abbrev below_5 : (P : ℕ → Type 0) → P 0 → P 1 → P 2 → P 3 → P 4 → (k : ℕ) → k < 5 → P k
below_5 P a b c d e zero h = a
below_5 P a b c d e (suc zero) h = b
below_5 P a b c d e (suc (suc zero)) h = c
below_5 P a b c d e (suc (suc (suc zero))) h = d
below_5 P a b c d e (suc (suc (suc (suc zero)))) h = e
below_5 P a b c d e (suc (suc (suc (suc (suc k))))) h = absurd (omega arith)

abbrev jobs : ℕ → List Job
jobs zero = job_recv (map nibble (range 1 5)) order ∷ job_sender pairs bits order ∷ []
jobs (suc i) = job_sender pairs bits order ∷ job_recv (map nibble (range 1 5)) order ∷ []

abbrev added : Job → ℕ → Block
added (job_recv to_xor order) k = cell to_xor (get_or order k 0)
added (job_sender to_xor bf order) k =
    chosen (get_or to_xor (get_or order k 0) (block0, block0)) (get_or bf k 0)

recv-IsDoable : IsDoable 5 added (job_recv (map nibble (range 1 5)) order)
unfolding job_block ordered
recv-IsDoable k h =
    below_5
      (λ j.
        job_block (job_recv (map nibble (range 1 5)) order) j
        ≡ some (added (job_recv (map nibble (range 1 5)) order) j))
      refl refl refl refl refl k h

sender-IsDoable : IsDoable 5 added (job_sender pairs bits order)
unfolding job_block ordered_bf choose
sender-IsDoable k h =
    below_5
      (λ j.
        job_block (job_sender pairs bits order) j ≡ some (added (job_sender pairs bits order) j))
      refl refl refl refl refl k h

jobs-IsDoable : (i : ℕ) → All (IsDoable 5 added) (jobs i)
jobs-IsDoable zero = (recv-IsDoable, (sender-IsDoable, tt))
jobs-IsDoable (suc i) = (sender-IsDoable, (recv-IsDoable, tt))

run_threads_example :
    Gives
      (XorRange (λ k. xor_over (λ job. added job k) (jobs (quarter 5 k))) 0 5 shared.gbf)
      (run_threads 5 jobs shared.gbf)
run_threads_example = run_threads_lem 5 jobs added shared.gbf refl jobs-IsDoable
