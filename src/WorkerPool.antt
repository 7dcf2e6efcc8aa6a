-- ===== src/WorkerPool.antt =====
-- pkg/workerpool/workerpool.go: the dispatcher, the workers and `Stop`, as the moves of one state. A
-- worker's bench is named by the worker's index; the goroutines move one at a time, in any order.
pub mod Totals
mod Benches
mod Moves
pub mod Validity
pub mod Jobs
mod Progress
pub mod Liveness
pub mod Completion
pub mod Bounds
pub mod Order
pub mod Stopping
pub mod Fan
use arbokcore.Prelude.{
  ℕ, zero, suc, ◌+◌, List, [], ◌∷◌, ◌++◌, Option, none, some, Bool, true, false, ltb, eqb,
  if◌then◌else◌, length, Holds, Holds-bind,
}

-- Where a worker's loop stands: before it puts its bench back, in the select, in the processor, at
-- the send of its result, or after a return.
pub data Phase {ℓ} (E : Type ℓ) : Type ℓ where
  offering : Phase E
  waiting : Phase E
  busy : E → Phase E
  sending : E → Phase E
  stopped : Phase E

-- `bench` and `result` are channels that hold one value; a result stands as the job that was processed.
pub record Worker {ℓ} (E : Type ℓ) : Type ℓ where
  pub phase : Phase E
  pub bench : Option E
  pub result : Option E

-- Where `Dispatch` stands: in its select, with a job that waits for a bench, with both, or returned.
pub data Dispatcher {ℓ} (E : Type ℓ) : Type ℓ where
  selecting : Dispatcher E
  holding : E → Dispatcher E
  handing : E → ℕ → Dispatcher E
  returned : Dispatcher E

-- `free` is the channel `Pool`, of capacity `size`. `pending` is what was sent on the channel of the
-- dispatcher and not received, and `closed` tells whether that channel has been closed. `arrived`
-- records all that was sent and each zero job that was received after that, `processed` all that was
-- processed.
-- `stopping` is the worker at which a call of `Stop` stands, if one was made.
pub record Pool {ℓ} (E : Type ℓ) : Type ℓ where
  pub size : ℕ
  pub capture_result : Bool
  pub free : List ℕ
  pub workers : ℕ → Worker E
  pub dispatcher : Dispatcher E
  pub pending : List E
  pub closed : Bool
  pub arrived : List E
  pub processed : List E
  pub canceled : Bool
  pub stopping : Option ℕ

abbrev pub put_at {ℓ} : {A : Type ℓ} → (ℕ → A) → ℕ → A → ℕ → A
put_at f i a j = if eqb i j then a else f j

pub data Action {ℓ} (E : Type ℓ) : Type ℓ where
  arrive : E → Action E
  close_channel : Action E
  receive : Action E
  receive_zero : E → Action E
  fetch : Action E
  hand : Action E
  offer : ℕ → Action E
  start : ℕ → Action E
  finish : ℕ → Action E
  send_result : ℕ → Action E
  read_result : ℕ → Action E
  cancel : Action E
  leave : ℕ → Action E
  close : Action E
  stop : Action E
  quit : Action E

module _ {ℓ} {E : Type ℓ} where
  -- `NewWorkerPool`, with the workers started and the dispatcher running.
  abbrev pub new_worker_pool : ℕ → Bool → Pool E
  new_worker_pool size capture_result = record {
    size = size;
    capture_result = capture_result;
    free = [];
    workers = λ i. record { phase = offering; bench = none; result = none };
    dispatcher = selecting;
    pending = [];
    closed = false;
    arrived = [];
    processed = [];
    canceled = false;
    stopping = none;
  }

  abbrev pub set_worker : ℕ → Worker E → Pool E → Pool E
  set_worker i w s = record s { workers = put_at s.workers i w }

  -- `case job := <-receiveCh`
  unfoldable pub receive_job : Dispatcher E → List E → Pool E → Option (Pool E)
  receive_job selecting (job ∷ rest) s =
      some (record s { dispatcher = holding job; pending = rest })
  receive_job selecting [] s = none
  receive_job (holding job) pending s = none
  receive_job (handing job i) pending s = none
  receive_job returned pending s = none

  -- The same receive from a closed channel: without `ok` it gives the zero value of the jobs, as often
  -- as it is asked.
  unfoldable pub receive_closed : E → Dispatcher E → List E → Pool E → Option (Pool E)
  receive_closed job selecting [] s =
      if s.closed
      then some (record s { dispatcher = holding job; arrived = s.arrived ++ job ∷ [] })
      else none
  receive_closed job selecting (other ∷ rest) s = none
  receive_closed job (holding other) pending s = none
  receive_closed job (handing other i) pending s = none
  receive_closed job returned pending s = none

  -- `jobChan := <-pool.Pool`
  unfoldable pub fetch_bench : Dispatcher E → List ℕ → Pool E → Option (Pool E)
  fetch_bench (holding job) (i ∷ rest) s =
      some (record s { dispatcher = handing job i; free = rest })
  fetch_bench (holding job) [] s = none
  fetch_bench selecting free s = none
  fetch_bench (handing job i) free s = none
  fetch_bench returned free s = none

  -- `jobChan <- job`, which waits while the bench is full.
  unfoldable pub put_job : E → ℕ → Worker E → Pool E → Option (Pool E)
  put_job job i w s = elim w.bench [
    | none ↦
        some (set_worker i (record w { bench = some job }) (record s { dispatcher = selecting }))
    | some other ↦ none
  ]

  unfoldable pub hand_job : Dispatcher E → Pool E → Option (Pool E)
  unfolding put_job
  hand_job (handing job i) s = put_job job i (s.workers i) s
  hand_job selecting s = none
  hand_job (holding job) s = none
  hand_job returned s = none

  -- `w.WorkerPool.Pool <- w.Bench`, which waits while the pool is full.
  unfoldable pub offer_bench : ℕ → Phase E → Pool E → Option (Pool E)
  offer_bench i offering s =
      if ltb (length s.free) s.size
      then some (
          set_worker i (record (s.workers i) { phase = waiting })
            (record s { free = s.free ++ i ∷ [] }))
      else none
  offer_bench i waiting s = none
  offer_bench i (busy job) s = none
  offer_bench i (sending job) s = none
  offer_bench i stopped s = none

  -- `case job := <-w.Bench`
  unfoldable pub start_job : ℕ → Phase E → Option E → Pool E → Option (Pool E)
  start_job i waiting (some job) s =
      some (set_worker i (record (s.workers i) { phase = busy job; bench = none }) s)
  start_job i waiting none s = none
  start_job i offering bench s = none
  start_job i (busy job) bench s = none
  start_job i (sending job) bench s = none
  start_job i stopped bench s = none

  -- The processor returns.
  unfoldable pub finish_job : ℕ → Phase E → Pool E → Option (Pool E)
  finish_job i (busy job) s = some (
      set_worker i
        (record (s.workers i) { phase = if s.capture_result then sending job else offering })
        (record s { processed = s.processed ++ job ∷ [] }))
  finish_job i offering s = none
  finish_job i waiting s = none
  finish_job i (sending job) s = none
  finish_job i stopped s = none

  -- `case resultCh <- result`
  unfoldable pub put_result : ℕ → Phase E → Option E → Pool E → Option (Pool E)
  put_result i (sending job) none s =
      some (set_worker i (record (s.workers i) { phase = offering; result = some job }) s)
  put_result i (sending job) (some other) s = none
  put_result i offering result s = none
  put_result i waiting result s = none
  put_result i (busy job) result s = none
  put_result i stopped result s = none

  unfoldable pub take_result : ℕ → Option E → Pool E → Option (Pool E)
  take_result i none s = none
  take_result i (some job) s = some (set_worker i (record (s.workers i) { result = none }) s)

  -- `case <-ctx.Done()` of a worker, in either select.
  unfoldable pub leave_loop : ℕ → Phase E → Pool E → Option (Pool E)
  leave_loop i waiting s =
      if s.canceled then some (set_worker i (record (s.workers i) { phase = stopped }) s) else none
  leave_loop i (sending job) s =
      if s.canceled then some (set_worker i (record (s.workers i) { phase = stopped }) s) else none
  leave_loop i offering s = none
  leave_loop i (busy job) s = none
  leave_loop i stopped s = none

  -- `case <-ctx.Done()` of the dispatcher.
  unfoldable pub close_dispatcher : Dispatcher E → Pool E → Option (Pool E)
  close_dispatcher selecting s =
      if s.canceled then some (record s { dispatcher = returned }) else none
  close_dispatcher (holding job) s = none
  close_dispatcher (handing job i) s = none
  close_dispatcher returned s = none

  -- A move of the worker `i`, if there is one.
  abbrev pub of_worker : ℕ → Pool E → Option (Pool E) → Option (Pool E)
  of_worker i s moved = if ltb i s.size then moved else none

  -- `w.Quit <- true` of `Stop` meets `<-w.Quit` in the select of the worker.
  unfoldable pub quit_worker : ℕ → Phase E → Pool E → Option (Pool E)
  quit_worker i waiting s = some (
      set_worker i (record (s.workers i) { phase = stopped })
        (record s { stopping = some (suc i) }))
  quit_worker i offering s = none
  quit_worker i (busy job) s = none
  quit_worker i (sending job) s = none
  quit_worker i stopped s = none

  unfoldable pub quit_next : Option ℕ → Pool E → Option (Pool E)
  unfolding quit_worker
  quit_next none s = none
  quit_next (some i) s = of_worker i s (quit_worker i (s.workers i).phase s)

  -- A move of one goroutine, `none` where it has to wait.
  unfoldable pub act : Action E → Pool E → Option (Pool E)
  unfolding receive_job receive_closed fetch_bench hand_job offer_bench start_job finish_job
      put_result take_result leave_loop close_dispatcher quit_next
  act (arrive job) s =
      if s.closed
      then none
      else some (record s { pending = s.pending ++ job ∷ []; arrived = s.arrived ++ job ∷ [] })
  act close_channel s = if s.closed then none else some (record s { closed = true })
  act receive s = receive_job s.dispatcher s.pending s
  act (receive_zero job) s = receive_closed job s.dispatcher s.pending s
  act fetch s = fetch_bench s.dispatcher s.free s
  act hand s = hand_job s.dispatcher s
  act (offer i) s = of_worker i s (offer_bench i (s.workers i).phase s)
  act (start i) s = of_worker i s (start_job i (s.workers i).phase (s.workers i).bench s)
  act (finish i) s = of_worker i s (finish_job i (s.workers i).phase s)
  act (send_result i) s = of_worker i s (put_result i (s.workers i).phase (s.workers i).result s)
  act (read_result i) s = of_worker i s (take_result i (s.workers i).result s)
  act cancel s = some (record s { canceled = true })
  act (leave i) s = of_worker i s (leave_loop i (s.workers i).phase s)
  act close s = close_dispatcher s.dispatcher s
  act stop s = elim s.stopping [ none ↦ some (record s { stopping = some 0 }) | some i ↦ none ]
  act quit s = quit_next s.stopping s

  -- A run of moves, `none` if one of them has to wait.
  unfoldable pub run : List (Action E) → Pool E → Option (Pool E)
  run [] s = some s
  run (a ∷ rest) s = elim (act a s) [ none ↦ none | some t ↦ run rest t ]

  -- What every move keeps holds after a run.
  pub run-Holds {ℓ'} :
      (P : Pool E → Type ℓ')
      → ((a : Action E) (s : Pool E) → P s → Holds P (act a s))
      → (moves : List (Action E)) (s : Pool E) → P s
      → Holds P (run moves s)
  unfolding run
  run-Holds P step [] s h = h
  run-Holds P step (a ∷ rest) s h =
      Holds-bind P P (act a s) (run rest) (run-Holds P step rest) (step a s h)
