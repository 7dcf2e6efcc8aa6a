-- ===== src/Examples/Pools.antt =====
-- Runs of small worker pools.
use arbokcore.Prelude.{
  ℕ, ◌*◌, ◌≤◌, Option, none, some, List, [], ◌∷◌, ◌++◌, Bool, false, eqb, ◌+◌, ◌≡◌, refl, arith,
  length,
}
use arbokcore.WorkerPool.{
  Pool, Action, arrive, close_channel, receive, receive_zero, fetch, hand, offer, start, finish,
  cancel, leave, close, stop, quit, new_worker_pool, act, run,
}
use arbokcore.WorkerPool.Bounds.{working_moves, working_moves-bounded}
use arbokcore.WorkerPool.Completion.{all_processed}
use arbokcore.WorkerPool.Jobs.{countp, in_dispatcher, in_worker, unprocessed}
use arbokcore.WorkerPool.Jobs.Runs.{arrived-accounted}
use arbokcore.WorkerPool.Liveness.{AllWorking}
use arbokcore.WorkerPool.Order.Runs.{processed-arrived}
use arbokcore.WorkerPool.Stopping.{stop-waits}

abbrev reached : Option (Pool ℕ) → Pool ℕ
reached none = new_worker_pool 0 false
reached (some s) = s

-- The first of three jobs is processed, the second is with the dispatcher, the third waits.
abbrev busy_moves : List (Action ℕ)
busy_moves =
    offer 0
    ∷ arrive 7
    ∷ receive
    ∷ fetch
    ∷ hand
    ∷ start 0
    ∷ finish 0
    ∷ offer 0
    ∷ arrive 8
    ∷ arrive 9
    ∷ receive
    ∷ fetch
    ∷ []

abbrev busy_pool : ℕ → Pool ℕ
busy_pool n = reached (run busy_moves (new_worker_pool n false))

processed-arrived_example :
    (busy_pool 1).arrived
    ≡ (busy_pool 1).processed
      ++ (in_worker ((busy_pool 1).workers 0)
          ++ (in_dispatcher (busy_pool 1).dispatcher ++ (busy_pool 1).pending))
unfolding run act
processed-arrived_example = processed-arrived false busy_moves (busy_pool 1) refl

arrived-accounted_example :
    countp (eqb 8) (busy_pool 2).arrived
    ≡ countp (eqb 8) (busy_pool 2).processed + unprocessed (eqb 8) (busy_pool 2)
unfolding run act
arrived-accounted_example = arrived-accounted (eqb 8) 2 false busy_moves (busy_pool 2) refl

-- After one job the channel is closed, and zero jobs come out of it.
abbrev closed_moves : List (Action ℕ)
closed_moves =
    arrive 7
    ∷ close_channel
    ∷ receive
    ∷ offer 0
    ∷ fetch
    ∷ hand
    ∷ receive_zero 0
    ∷ start 0
    ∷ finish 0
    ∷ []

abbrev closed_pool : Pool ℕ
closed_pool = reached (run closed_moves (new_worker_pool 2 false))

working_moves-bounded_example : working_moves closed_moves ≤ 2 + 8 * length closed_pool.arrived
unfolding run act
working_moves-bounded_example = working_moves-bounded 2 false closed_moves closed_pool refl

all_processed_example :
    (rest : List (Action ℕ)) × (last : Pool ℕ) × AllWorking rest
    × (run rest (busy_pool 2) ≡ some last)
    × (last.arrived ≡ (busy_pool 2).arrived)
    × ((p : ℕ → Bool) → countp p last.processed ≡ countp p (busy_pool 2).arrived)
unfolding run act
all_processed_example = all_processed 2 false busy_moves (busy_pool 2) refl (omega arith) refl refl

-- The context is canceled, the only worker returns, and then `Stop` is called.
abbrev left_pool : Pool ℕ
left_pool = reached (run (offer 0 ∷ cancel ∷ leave 0 ∷ stop ∷ []) (new_worker_pool 1 false))

abbrev later_pool : Pool ℕ
later_pool = reached (run (close ∷ arrive 3 ∷ []) left_pool)

stop-waits_example : (later_pool.stopping ≡ some 0) × (act quit later_pool ≡ none)
unfolding run act
stop-waits_example = stop-waits 0 (close ∷ arrive 3 ∷ []) left_pool later_pool refl refl refl
