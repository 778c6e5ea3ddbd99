-- ===== src/Memory.antt =====
-- The memory behind the pointers of a Party in simple/src/Party.cpp: which operation allocates, uses
-- and deletes what, in the order in which the threads of `main` call them. An operation that a check
-- makes exit ends the process, and is not followed here.
pub mod Runs
use malicious_mpsi.Base.{ℕ, suc, List, [], ◌∷◌, Option, none, some, ◌>>=◌}

-- A pointer: null, to an object, to a deleted object, or to an object that another pointer now owns.
pub data Pointer : Type 0 where
  null : Pointer
  live : Pointer
  freed : Pointer
  moved : Pointer

infixl 5 ◌>>◌
abbrev pub ◌>>◌ {ℓ} : {B : Type ℓ} → Option (Unit {0}) → Option B → Option B
m >> k = m >>= λ _. k

-- A read or a write behind the pointer.
unfoldable pub touch : Pointer → Option (Unit {0})
touch live = some tt
touch null = none
touch freed = none
touch moved = none

-- `if (p!=nullptr) delete p;`, which leaves the pointer as it is: a second one is a fault.
unfoldable pub delete_if : Pointer → Option Pointer
delete_if null = some null
delete_if live = some freed
delete_if freed = none
delete_if moved = none

-- `delete p;`
unfoldable pub delete_always : Pointer → Option Pointer
delete_always p = delete_if p

-- The number of lost objects after `p = new …`: one more if `p` leads to an object.
unfoldable pub overwrite : Pointer → ℕ → ℕ
overwrite null lost = lost
overwrite live lost = suc lost
overwrite freed lost = lost
overwrite moved lost = lost

-- The attributes that only the receiving threads of a Party work with, and the sending ones.
pub record Receiving : Type 0 where
  pub strings_choices : Pointer
  pub bitvector : Pointer
  pub sub_group_recv : Pointer
  pub func_recv : Pointer
  pub big_r_recv : Pointer
  pub arr_indexes : Pointer
  pub new_indexes : Pointer
  pub lost : ℕ

pub record Sending : Type 0 where
  pub strings : Pointer
  pub sub_group_sender : Pointer
  pub big_r_sender : Pointer
  pub func_sender : Pointer
  pub lost : ℕ

-- With the Bloom filter, which is static. The `lost` count the objects of each part that no pointer
-- leads to any more.
pub record Memory : Type 0 where
  pub receiving : Receiving
  pub sending : Sending
  pub bf : Pointer
  pub lost : ℕ

-- After `set` and the constructor.
unfoldable pub constructed : Memory
constructed = record {
  receiving = record {
    strings_choices = live;
    bitvector = live;
    sub_group_recv = null;
    func_recv = null;
    big_r_recv = null;
    arr_indexes = null;
    new_indexes = null;
    lost = 0;
  };
  sending = record {
    strings = live;
    sub_group_sender = null;
    big_r_sender = null;
    func_sender = null;
    lost = 0;
  };
  bf = live;
  lost = 0;
}

pub data Receive : Type 0 where
  receive_ots : Receive
  recv_c : Receive
  compute_big_r_r : Receive
  send_big_r_r : Receive
  get_zeros_ones : Receive
  arrange_the_indexes : Receive
  send_func : Receive
  xor_received : Receive

pub data Send : Type 0 where
  send_ots : Send
  set_sub_group : Send
  recv_big_r : Send
  check_if_to_abort1 : Send
  recv_func : Send
  xor_sent : Send

unfoldable pub receive : Receive → Pointer → Receiving → Option Receiving
unfolding touch overwrite delete_if delete_always
receive receive_ots bf m = do touch m.bitvector; touch m.strings_choices; some m
receive recv_c bf m =
    some (record m { sub_group_recv = live; lost = overwrite m.sub_group_recv m.lost })
receive compute_big_r_r bf m = do
  touch m.sub_group_recv
  touch m.bitvector
  touch m.strings_choices
  p ← delete_if m.sub_group_recv
  some (record m {
    func_recv = live;
    big_r_recv = live;
    sub_group_recv = p;
    lost = overwrite m.func_recv (overwrite m.big_r_recv m.lost);
  })
receive send_big_r_r bf m = do
  touch m.big_r_recv
  p ← delete_if m.big_r_recv
  some (record m { big_r_recv = p })
receive get_zeros_ones bf m = do
  touch m.bitvector
  p ← delete_always m.bitvector
  some (record m {
    arr_indexes = live;
    bitvector = p;
    new_indexes = live;
    lost = overwrite m.arr_indexes (overwrite m.new_indexes m.lost);
  })
receive arrange_the_indexes bf m = do
  touch bf
  touch m.new_indexes
  touch m.func_recv
  touch m.arr_indexes
  p ← delete_always m.arr_indexes
  q ← delete_always m.func_recv
  some (record m { arr_indexes = p; func_recv = m.new_indexes; new_indexes = moved })
receive send_func bf m = do touch m.func_recv; some m
receive xor_received bf m = do touch m.strings_choices; touch m.func_recv; some m

unfoldable pub send : Send → Pointer → Sending → Option Sending
unfolding touch overwrite delete_if
send send_ots bf m = do touch m.strings; some m
send set_sub_group bf m =
    some (record m { sub_group_sender = live; lost = overwrite m.sub_group_sender m.lost })
send recv_big_r bf m =
    some (record m { big_r_sender = live; lost = overwrite m.big_r_sender m.lost })
send check_if_to_abort1 bf m = do
  touch m.strings
  touch m.big_r_sender
  p ← delete_if m.big_r_sender
  some (record m { big_r_sender = p })
send recv_func bf m = some (record m { func_sender = live; lost = overwrite m.func_sender m.lost })
send xor_sent bf m = do touch m.strings; touch m.func_sender; touch bf; some m

pub data Call : Type 0 where
  by_receiving : Receive → Call
  by_sending : Send → Call
  create_bf : Call
  delete_rbf_func : Call
  delete_bf : Call

unfoldable pub call : Call → Memory → Option Memory
unfolding receive send overwrite delete_if
call (by_receiving op) m = do u ← receive op m.bf m.receiving; some (record m { receiving = u })
call (by_sending op) m = do u ← send op m.bf m.sending; some (record m { sending = u })
call create_bf m = some (record m { bf = live; lost = overwrite m.bf m.lost })
call delete_rbf_func m = do
  func_recv ← delete_if m.receiving.func_recv
  strings_choices ← delete_if m.receiving.strings_choices
  func_sender ← delete_if m.sending.func_sender
  strings ← delete_if m.sending.strings
  some (record m {
    receiving = record m.receiving { func_recv = func_recv; strings_choices = strings_choices };
    sending = record m.sending { func_sender = func_sender; strings = strings };
  })
call delete_bf m = do p ← delete_if m.bf; some (record m { bf = p })

unfoldable pub calls : List Call → Memory → Option Memory
calls [] m = some m
calls (c ∷ cs) m = do u ← call c m; calls cs u

-- `offline_apport_receiver` and `offline_apport_sender`.
unfoldable pub offline_receiver : List Receive
offline_receiver = receive_ots ∷ recv_c ∷ compute_big_r_r ∷ send_big_r_r ∷ get_zeros_ones ∷ []

unfoldable pub offline_sender : List Send
offline_sender = send_ots ∷ set_sub_group ∷ recv_big_r ∷ check_if_to_abort1 ∷ []

-- `online_apport_receiver` and `online_apport_sender`, and the xoring of the four segments that each
-- then pushes.
unfoldable pub online_receiver : List Receive
online_receiver =
    arrange_the_indexes ∷ send_func ∷ xor_received ∷ xor_received ∷ xor_received ∷ xor_received ∷ []

unfoldable pub online_sender : List Send
online_sender = recv_func ∷ xor_sent ∷ xor_sent ∷ xor_sent ∷ xor_sent ∷ []

-- The orders in which two threads can run.
pub data Interleaved : List Receive → List Send → List Call → Type 0 where
  both_end : Interleaved [] [] []
  receiving_next :
      {rs : List Receive} {ss : List Send} {cs : List Call} (op : Receive)
      → Interleaved rs ss cs
      → Interleaved (op ∷ rs) ss (by_receiving op ∷ cs)
  sending_next :
      {rs : List Receive} {ss : List Send} {cs : List Call} (op : Send)
      → Interleaved rs ss cs
      → Interleaved rs (op ∷ ss) (by_sending op ∷ cs)
