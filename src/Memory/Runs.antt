-- ===== src/Memory/Runs.antt =====
-- No order of the threads makes a Party use or delete what has been deleted.
use mathlib.Core.Option.{some-injective, none-ne-some}
use malicious_mpsi.Base.{
  ◌≡◌, refl, ap, List, [], ◌∷◌, ◌++◌, Option, some, ◌>>=◌, Gives, gives, inl, inr, Option-cases,
}
use malicious_mpsi.Memory.{
  Pointer, null, live, freed, moved, overwrite, Receiving, Sending, Memory, constructed, Receive,
  Send, receive, send, Call, create_bf, delete_rbf_func, delete_bf, call, calls, offline_receiver,
  offline_sender, online_receiver, online_sender, Interleaved, both_end, receiving_next,
  sending_next,
}

receives : List Receive → Pointer → Receiving → Option Receiving
receives [] bf m = some m
receives (op ∷ ops) bf m = do u ← receive op bf m; receives ops bf u

sends : List Send → Pointer → Sending → Option Sending
sends [] bf m = some m
sends (op ∷ ops) bf m = do u ← send op bf m; sends ops bf u

calls-append : (cs ds : List Call) (m : Memory) → calls (cs ++ ds) m ≡ (calls cs m >>= calls ds)
unfolding calls
calls-append [] ds m = refl
calls-append (c ∷ cs) ds m = elim (Option-cases (call c m)) [
  | inl e ↦ rw e refl
  | inr (u, e) ↦ rw e (calls-append cs ds u)
]

-- The threads work on different parts, and only read the pointer to the filter.
apart :
    {rs : List Receive} {ss : List Send} {cs : List Call}
    → Interleaved rs ss cs
    → (m : Memory) (x : Receiving) (y : Sending) → receives rs m.bf m.receiving ≡ some x
    → sends ss m.bf m.sending ≡ some y
    → calls cs m ≡ some (record { receiving = x; sending = y; bf = m.bf; lost = m.lost })
unfolding calls call receives sends
apart both_end m x y e f = ap some (λ i. record {
  receiving = some-injective _ _ e i;
  sending = some-injective _ _ f i;
  bf = m.bf;
  lost = m.lost;
})
apart (receiving_next op i) m x y e f = elim (Option-cases (receive op m.bf m.receiving)) [
  | inl g ↦ absurd (none-ne-some x (rw g at e))
  | inr (u, g) ↦ rw g (apart i (record m { receiving = u }) x y (rw g at e) f)
]
apart (sending_next op i) m x y e f = elim (Option-cases (send op m.bf m.sending)) [
  | inl g ↦ absurd (none-ne-some y (rw g at f))
  | inr (u, g) ↦ rw g (apart i (record m { sending = u }) x y e (rw g at f))
]

-- What is left at the end: all that pointers lead to is deleted, but the check group, and no pointer
-- leads to one object any more, the first Bloom filter.
abbrev pub IsCleared : Memory → Type 0
IsCleared m =
    (m.receiving.strings_choices ≡ freed)
    × (m.receiving.bitvector ≡ freed)
    × (m.receiving.sub_group_recv ≡ freed)
    × (m.receiving.func_recv ≡ freed)
    × (m.receiving.big_r_recv ≡ freed)
    × (m.receiving.arr_indexes ≡ freed)
    × (m.sending.strings ≡ freed)
    × (m.sending.big_r_sender ≡ freed)
    × (m.sending.func_sender ≡ freed)
    × (m.bf ≡ freed)
    × (m.sending.sub_group_sender ≡ live)
    × (m.receiving.lost ≡ 0)
    × (m.sending.lost ≡ 0)
    × (m.lost ≡ 1)

-- Between the phases, with the new filter.
prepared : Memory
prepared = record {
  receiving = record {
    strings_choices = live;
    bitvector = freed;
    sub_group_recv = freed;
    func_recv = live;
    big_r_recv = freed;
    arr_indexes = live;
    new_indexes = live;
    lost = 0;
  };
  sending = record {
    strings = live;
    sub_group_sender = live;
    big_r_sender = freed;
    func_sender = null;
    lost = 0;
  };
  bf = live;
  lost = 1;
}

xored_receiving : Receiving
unfolding prepared
xored_receiving = record prepared.receiving { arr_indexes = freed; new_indexes = moved }

xored_sending : Sending
unfolding prepared
xored_sending = record prepared.sending { func_sender = live }

pub memory_lem :
    (offline online : List Call)
    → Interleaved offline_receiver offline_sender offline
    → Interleaved online_receiver online_sender online
    → Gives IsCleared (
        calls (offline ++ (create_bf ∷ (online ++ (delete_rbf_func ∷ delete_bf ∷ [])))) constructed)
unfolding overwrite prepared xored_receiving xored_sending calls call receive send offline_receiver
    offline_sender online_receiver online_sender receives sends constructed
memory_lem offline online i j =
    rw
      (
        calls-append offline _ constructed,
        apart i constructed prepared.receiving prepared.sending refl refl,
      )
      (rw (calls-append online _ prepared, apart j prepared xored_receiving xored_sending refl refl)
        (gives
          (refl, refl, refl, refl, refl, refl, refl, refl, refl, refl, refl, refl, refl, refl)))
