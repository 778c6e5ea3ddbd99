-- ===== src/Tests/Queues.antt =====
-- A run of one queue: the worker sleeps, is woken by the first segment, and a second one follows.
use malicious_mpsi.Base.{
  ◌⊎◌, ◌<◌, none, ◌>>=◌, ℕ, ◌*◌, ◌+◌, ◌≡◌, refl, List, [], ◌∷◌, some, arith, Gives,
}
use malicious_mpsi.Transfer.{add_64}
use malicious_mpsi.Semaphore.{
  State, woken, initial, push, wake, notify, wait, work, Reached, start, pushes, notifies, works,
  run_worker, wakes, spurious_wake, front,
}
use malicious_mpsi.Semaphore.Producers.{IsOrderly}
use malicious_mpsi.Semaphore.Spurious.{IsCounted, reached_lem}
use malicious_mpsi.Semaphore.Drain.{IsDrained, drain_lem}
use malicious_mpsi.Semaphore.Fifo.{FifoStep, view, refines_lem}

abbrev segments : List ℕ
segments = 70 ∷ 90 ∷ []

abbrev both_pushed : State ℕ
both_pushed = record { queue = segments; count = 2; pending = 0; worker = woken; done = [] }

both_pushed-Reached : Reached 2 0 segments both_pushed
unfolding initial push wake notify wait work add_64
both_pushed-Reached = notifies refl (pushes 90 (notifies refl (pushes 70 (works refl start))))

-- The worker has slept, and has woken up without a notification.
abbrev woken_early : State ℕ
woken_early = record { queue = []; count = 0; pending = 0; worker = woken; done = [] }

woken_early-Reached : Reached 2 1 [] woken_early
unfolding initial wait work spurious_wake
woken_early-Reached = wakes refl (works refl start)

reached_example : IsCounted 2 [] woken_early × ((0 < 1) ⊎ IsOrderly 2 [] woken_early)
reached_example = reached_lem 2 1 [] woken_early (omega arith) woken_early-Reached

-- It goes on to the front of an empty queue.
empty_front_test : (work 2 woken_early >>= work 2) ≡ none
unfolding work front
empty_front_test = refl

drain_example : Gives (IsDrained segments) (run_worker (3 * 2 + 2) 2 both_pushed)
drain_example = drain_lem 2 segments both_pushed (omega arith) both_pushed-Reached refl refl

refines_example :
    ((x : ℕ) → FifoStep (view both_pushed) (view (push x both_pushed)))
    × ((t : State ℕ) → notify both_pushed ≡ some t → FifoStep (view both_pushed) (view t))
    × ((t : State ℕ) → work 2 both_pushed ≡ some t → FifoStep (view both_pushed) (view t))
refines_example = refines_lem 2 segments both_pushed (omega arith) both_pushed-Reached
