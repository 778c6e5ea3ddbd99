-- ===== src/Semaphore.antt =====
-- One queue of the online phase with its semaphore and its worker: the class `semaphore` of
-- simple/src/Functions.h, the pushes of `online_apport_receiver` and `online_apport_sender`, and the
-- loop of `run_xoring` in simple/src/Functions.cpp. Every operation under a mutex is one step; the
-- steps of the producers and of the worker come in any order.

pub mod Producers
pub mod Order
pub mod Ahead
pub mod Drain
pub mod Fifo
pub mod Spurious
use malicious_mpsi.Base.{
  ℕ, zero, suc, ◌-◌, ◌≡◌, List, [], ◌∷◌, ◌++◌, Option, none, some, length, ltb, ◌==◌, ◌>>=◌,
  if◌then◌else◌,
}
use malicious_mpsi.Transfer.{sub_64, add_64}

-- Where the worker stands in the loop of `run_xoring`.
pub data Worker (A : Type 0) : Type 0 where
  -- at `while (count<num)`
  at_loop : Worker A
  -- in `condition_.wait`
  asleep : Worker A
  -- after `condition_.notify_one`, before `--count_`
  woken : Worker A
  -- after `sem[i]->wait()`, before `q[i]->front()`
  working : Worker A
  -- over the cells of a segment
  xoring : A → Worker A
  stopped : Worker A

pub record State (A : Type 0) : Type 0 where
  -- `q[i]`, the front first.
  pub queue : List A
  -- `count_`, an `unsigned long`
  pub count : ℕ
  -- Producers between their push and their call of `notify`.
  pub pending : ℕ
  pub worker : Worker A
  -- The segments that the worker has gone through; its variable `count` is their number.
  pub done : List A

module _ {A : Type 0} where
  unfoldable pub initial : State A
  initial = record { queue = []; count = 0; pending = 0; worker = at_loop; done = [] }

  -- `turn[i]->lock(); q[i]->push(…); turn[i]->unlock();`
  unfoldable pub push : A → State A → State A
  push x s = record s { queue = s.queue ++ (x ∷ []); pending = suc s.pending }

  unfoldable pub wake : Worker A → Worker A
  wake at_loop = at_loop
  wake asleep = woken
  wake woken = woken
  wake working = working
  wake (xoring x) = xoring x
  wake stopped = stopped

  -- `semaphore::notify`, by a producer that has pushed.
  unfoldable pub notify : State A → Option (State A)
  notify s =
      if s.pending == 0
      then none
      else some
          (record s { count = add_64 s.count 1; pending = s.pending - 1; worker = wake s.worker })

  -- `if (count_<=0) condition_.wait(lock);`, and `--count_` if the worker does not wait. After
  -- `condition_.wait` returns the count is not tested again: what follows is `woken`.
  unfoldable pub wait : State A → State A
  wait s =
      if s.count == 0
      then record s { worker = asleep }
      else record s { count = sub_64 s.count 1; worker = working }

  -- `condition_.wait` may also return without a notification.
  unfoldable pub spurious_wake : State A → Option (State A)
  spurious_wake s = elim s.worker [ asleep ↦ some (record s { worker = woken }) | _ ↦ none ]

  -- `q[i]->front()` of an empty queue is a fault.
  unfoldable pub front : State A → Option (State A)
  front s = elim s.queue [ [] ↦ none | x ∷ rest ↦ some (record s { worker = xoring x }) ]

  -- `q[i]->pop(); count++;`
  unfoldable pub pop : A → State A → Option (State A)
  pop x s = elim s.queue [
    | [] ↦ none
    | y ∷ rest ↦ some (record s { queue = rest; worker = at_loop; done = s.done ++ (x ∷ []) })
  ]

  -- The next step of the worker, which has none while it sleeps and after the loop.
  unfoldable pub work : ℕ → State A → Option (State A)
  work num s = elim s.worker [
    | at_loop ↦ some (if ltb (length s.done) num then wait s else record s { worker = stopped })
    | asleep ↦ none
    | woken ↦ some (record s { count = sub_64 s.count 1; worker = working })
    | working ↦ front s
    | xoring x ↦ pop x s
    | stopped ↦ none
  ]

  -- The states that can be reached when the worker expects `num` segments and `pushed` have been
  -- pushed, in this order, whatever the order of the steps, with `spurious` spurious wake-ups.
  pub data Reached (num : ℕ) : ℕ → List A → State A → Type 0 where
    start : Reached num 0 [] initial
    pushes :
        {spurious : ℕ} {pushed : List A} {s : State A} (x : A)
        → Reached num spurious pushed s
        → Reached num spurious (pushed ++ (x ∷ [])) (push x s)
    notifies :
        {spurious : ℕ} {pushed : List A} {s t : State A}
        → notify s ≡ some t
        → Reached num spurious pushed s
        → Reached num spurious pushed t
    works :
        {spurious : ℕ} {pushed : List A} {s t : State A}
        → work num s ≡ some t
        → Reached num spurious pushed s
        → Reached num spurious pushed t
    wakes :
        {spurious : ℕ} {pushed : List A} {s t : State A}
        → spurious_wake s ≡ some t
        → Reached num spurious pushed s
        → Reached num (suc spurious) pushed t

  -- The worker alone, for `n` steps at most.
  unfoldable pub run_worker : ℕ → ℕ → State A → Option (State A)
  run_worker zero num s = some s
  run_worker (suc n) num s = elim s.worker [
    | stopped ↦ some s
    | _ ↦ do t ← work num s; run_worker n num t
  ]
