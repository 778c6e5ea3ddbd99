-- ===== src/Tests/Processes.antt =====
-- Orders of processes and threads, and OTs over a library that gives counted strings.
use malicious_mpsi.Base.{
  zero, suc, ℕ, suc, ◌+◌, ◌*◌, ◌≤◌, ◌<◌, ◌≡◌, refl, sym, ◌∙◌, ap, List, [], ◌∷◌, ◌++◌, some, arith,
  map, length, replicate, length-replicate, range, get_or, length-map, length-range, Gives, ◌⊎◌,
  get_elem?-map, get_elem?-eq-get_or, get_or-range,
}
use mathlib.Core.Option.{some-injective}
use malicious_mpsi.Block.{Block, block0}
use malicious_mpsi.Choose.Opening.{IsOt}
use malicious_mpsi.Gbf.Chunks.{chosen}
use malicious_mpsi.Samples.{nibbles, counter, nibble}
use malicious_mpsi.Setup.{
  taking, System, Step, Steps, here, later, initial, put, offer_p0, dial, reached_party, IsDone,
}
use malicious_mpsi.Setup.Live.{same_port}
use malicious_mpsi.Setup.Count.{set_up_lem}
use malicious_mpsi.Ote.{LibOte, two_choose_one}
use malicious_mpsi.Ote.Agreement.{last_writer, two_choose_one_lem}
use malicious_mpsi.Memory.{
  Receive, Send, Call, by_receiving, by_sending, calls, constructed, create_bf, delete_rbf_func,
  delete_bf, Interleaved, both_end, receiving_next, sending_next, offline_receiver, offline_sender,
  online_receiver, online_sender,
}
use malicious_mpsi.Memory.Runs.{IsCleared, memory_lem}

-- P0 listens for party 1, which connects.
abbrev listening : System
listening = record initial { p0 = put initial.p0 1 (taking 1) }

two-Steps : Steps 3 initial 2 (record listening { pi = put listening.pi 1 (reached_party 3 1 0) })
unfolding initial put
two-Steps = later (later here (offer_p0 1 (omega arith) (omega arith) refl)) (
    dial 1 0 (omega arith) (omega arith) refl (omega arith)
      (same_port 3 0 1 (omega arith) (omega arith)))

set_up_example :
    (4 ≤ 18)
    × ((IsDone 3 (record listening { pi = put listening.pi 1 (reached_party 3 1 0) })
          × (◌≡◌ {A = ℕ} 4 18))
        ⊎ ((t : System) × Step 3
              (record listening { pi = put listening.pi 1 (reached_party 3 1 0) })
              t))
set_up_example = set_up_lem 3 2 _ (omega arith) two-Steps

-- The order in which the receiving thread runs first.
receiving_first :
    (rs : List Receive) (ss : List Send)
    → Interleaved rs ss (map by_receiving rs ++ map by_sending ss)
receiving_first [] [] = both_end
receiving_first [] (op ∷ ss) = sending_next op (receiving_first [] ss)
receiving_first (op ∷ rs) ss = receiving_next op (receiving_first rs ss)

abbrev in_turn : List Receive → List Send → List Call
in_turn rs ss = map by_receiving rs ++ map by_sending ss

memory_example : Gives IsCleared (
    calls
      (in_turn offline_receiver offline_sender
        ++ (create_bf
            ∷ (in_turn online_receiver online_sender ++ (delete_rbf_func ∷ delete_bf ∷ []))))
      constructed)
memory_example =
    memory_lem (in_turn offline_receiver offline_sender) (in_turn online_receiver online_sender)
      (receiving_first offline_receiver offline_sender)
      (receiving_first online_receiver online_sender)

-- The strings of the OTs of an extender.
abbrev pub string_pair : ℕ → ℕ → Block × Block
string_pair s t = (nibble (3 * t + s), nibble (t + s + 5))

abbrev pub counted : ℕ → ℕ → List ℕ → List (Block × Block) × List Block
counted s n choice = (
  map (string_pair s) (range 0 n),
  map (λ t. chosen (string_pair s t) (get_or choice t 0)) (range 0 n),
)

at : {A : Type 0} (f : ℕ → A) (n i : ℕ) (d : A) → i < n → get_or (map f (range 0 n)) i d ≡ f i
at f n i d h = some-injective _ _ (
    sym (
      get_elem?-eq-get_or (map f (range 0 n)) i d
        (omega (arith, length-map f (range 0 n), length-range 0 n)))
    ∙ get_elem?-map f (range 0 n) i 0 (omega (arith, length-range 0 n))
    ∙ ap (λ k. some (f k)) (get_or-range 0 n i 0 h ∙ zero_plus i))
  where
    zero_plus : (k : ℕ) → 0 + k ≡ k
    zero_plus k = omega arith

pub counted-IsOt :
    (s r n : ℕ) (choice : List ℕ)
    → s ≡ r
    → length choice ≡ n
    → IsOt n (counted s n choice).0 choice (counted r n choice).1
counted-IsOt s r n choice e l = record {
  sent = length-map (string_pair s) (range 0 n) ∙ length-range 0 n;
  chose = l;
  got = length-map _ (range 0 n) ∙ length-range 0 n;
  agree = λ i h.
      at (λ t. chosen (string_pair r t) (get_or choice t 0)) n i block0 h
      ∙ ap (λ p. chosen p (get_or choice i 0))
          (sym (at (string_pair s) n i (block0, block0) h ∙ ap (λ k. string_pair k i) e));
}

instance abbrev pub counting : LibOte
counting = record {
  Link = ℕ;
  OtSender = ℕ;
  OtReceiver = ℕ;
  random_bits = λ l. replicate 128 0;
  base_ots = λ l bv. counted l 128 bv;
  set_base_sender = λ received bv. length received;
  set_base_receiver = λ pairs. length pairs;
  split_sender = λ s. (suc s, s + 10);
  split_receiver = λ r. (suc r, r + 10);
  random_ots = λ s r n choice. ((counted s n choice).0, (counted r n choice).1);
  Matched = λ s r. s ≡ r;
  random_bits_size = λ l. length-replicate {A = ℕ} 128 0;
  base_ots-IsOt = λ l bv e. counted-IsOt l l 128 bv refl e;
  set_base-Matched = λ pairs bv received ot. ot.got ∙ sym ot.sent;
  split-Matched = λ s r e. (ap suc e, ap (λ k. k + 10) e);
  random_ots-IsOt = counted-IsOt;
}

abbrev choice : List ℕ
choice = 1 ∷ 0 ∷ 1 ∷ []

abbrev empty_pairs : List (Block × Block)
empty_pairs = (block0, block0) ∷ (block0, block0) ∷ (block0, block0) ∷ []

abbrev empty_blocks : List Block
empty_blocks = block0 ∷ block0 ∷ block0 ∷ []

-- Two threads that write at the same time: the second is the last at the first place on both sides,
-- the first at the two others.
abbrev writes_s : List (ℕ × ℕ)
writes_s = (0, 0) ∷ (1, 0) ∷ (1, 1) ∷ (0, 1) ∷ (1, 2) ∷ (0, 2) ∷ []

abbrev writes_r : List (ℕ × ℕ)
writes_r = (1, 2) ∷ (1, 1) ∷ (0, 0) ∷ (0, 1) ∷ (1, 0) ∷ (0, 2) ∷ []

same_last :
    (t : ℕ)
    → t < 3
    → (i : ℕ) × (last_writer writes_s t ≡ some i) × (last_writer writes_r t ≡ some i)
same_last zero h = (1, refl, refl)
same_last (suc zero) h = (0, refl, refl)
same_last (suc (suc zero)) h = (0, refl, refl)
same_last (suc (suc (suc t))) h = absurd (omega arith)

two_choose_one_example :
    Gives
      (λ x. IsOt 3 x.0 choice x.1)
      (two_choose_one 6 2 writes_s writes_r empty_pairs choice empty_blocks)
two_choose_one_example =
    two_choose_one_lem 6 2 writes_s writes_r empty_pairs choice empty_blocks refl refl (omega arith)
      (omega arith) same_last
