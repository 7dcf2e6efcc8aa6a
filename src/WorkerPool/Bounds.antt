-- ===== src/WorkerPool/Bounds.antt =====
-- A pool makes a bounded number of moves for each job that arrives, the zero jobs of a closed channel
-- included.
use arbokcore.Prelude.{
  Holds-unless, ℕ, zero, suc, ◌+◌, ◌*◌, ◌≤◌, ◌<◌, List, [], ◌∷◌, Option, none, some, Bool, true,
  false, ◌||◌, ltb, ltb→lt, length-append, if◌then◌else◌, length, Holds, Holds-both, Holds-bind,
  Holds-map, Holds-if, ◌≡◌, refl, subst, ap, arith,
}
use arbokcore.WorkerPool.{
  Phase, offering, waiting, busy, sending, stopped, Dispatcher, selecting, holding, handing,
  returned, Pool, Action, arrive, close_channel, receive, receive_zero, fetch, hand, offer, start,
  finish, send_result, read_result, cancel, leave, close, stop, quit, new_worker_pool, set_worker,
  leave_loop, close_dispatcher, receive_closed, of_worker, quit_worker, quit_next, act, run,
}
use arbokcore.WorkerPool.Totals.{sum_to}
use arbokcore.WorkerPool.Validity.{IsValid, act-IsValid, new_worker_pool-IsValid}
use arbokcore.WorkerPool.Progress.{work, is_working, IsStep, act-IsStep, work-set_worker}

sum_to-ones : (n : ℕ) → sum_to n (λ i. 1) ≡ n
sum_to-ones zero = refl
sum_to-ones (suc n) = omega (arith, sum_to-ones n)

module _ {ℓ} {E : Type ℓ} where
  -- The work grows by 8 for a job that arrives, and a working move takes one from it.
  abbrev Spent : ℕ → Pool E → Pool E → Type 0
  Spent k s t = k + work t + 8 * length s.arrived ≤ work s + 8 * length t.arrived

  worker_stopped-Spent :
      (i : ℕ) (s : Pool E)
      → i < s.size
      → Spent 0 s (set_worker i (record (s.workers i) { phase = stopped }) s)
  worker_stopped-Spent i s b =
      ground (arith, work-set_worker i (record (s.workers i) { phase = stopped }) s b)

  leave_loop-Spent :
      (i : ℕ) (q : Phase E) (s : Pool E) → i < s.size → Holds (Spent 0 s) (leave_loop i q s)
  unfolding leave_loop
  leave_loop-Spent i waiting s b =
      Holds-if (Spent 0 s) s.canceled _ (λ c. worker_stopped-Spent i s b)
  leave_loop-Spent i (sending job) s b =
      Holds-if (Spent 0 s) s.canceled _ (λ c. worker_stopped-Spent i s b)
  leave_loop-Spent i offering s b = tt
  leave_loop-Spent i (busy job) s b = tt
  leave_loop-Spent i stopped s b = tt

  close_dispatcher-Spent :
      (d : Dispatcher E) (s : Pool E) → Holds (Spent 0 s) (close_dispatcher d s)
  unfolding close_dispatcher
  close_dispatcher-Spent selecting s = Holds-if (Spent 0 s) s.canceled _ (λ c. omega arith)
  close_dispatcher-Spent (holding job) s = tt
  close_dispatcher-Spent (handing job i) s = tt
  close_dispatcher-Spent returned s = tt

  stop-Spent :
      (o : Option ℕ) (s : Pool E)
      → Holds (Spent 0 s) (elim o [ none ↦ some (record s { stopping = some 0 }) | some i ↦ none ])
  stop-Spent none s = omega arith
  stop-Spent (some i) s = tt

  quit_worker-Spent :
      (i : ℕ) (q : Phase E) (s : Pool E) → i < s.size → Holds (Spent 0 s) (quit_worker i q s)
  unfolding quit_worker
  quit_worker-Spent i waiting s b = worker_stopped-Spent i s b
  quit_worker-Spent i offering s b = tt
  quit_worker-Spent i (busy job) s b = tt
  quit_worker-Spent i (sending job) s b = tt
  quit_worker-Spent i stopped s b = tt

  of_worker-Spent :
      (i : ℕ) (s : Pool E) (moved : Option (Pool E))
      → (i < s.size → Holds (Spent 0 s) moved)
      → Holds (Spent 0 s) (of_worker i s moved)
  of_worker-Spent i s moved h =
      Holds-if (Spent 0 s) (ltb i s.size) moved (λ b. h (ltb→lt i s.size b))

  quit_next-Spent : (o : Option ℕ) (s : Pool E) → Holds (Spent 0 s) (quit_next o s)
  unfolding quit_next
  quit_next-Spent none s = tt
  quit_next-Spent (some i) s = of_worker-Spent i s _ (quit_worker-Spent i (s.workers i).phase s)

  abbrev receives_zero : Action E → Bool
  receives_zero (receive_zero job) = true
  receives_zero receive = false
  receives_zero fetch = false
  receives_zero hand = false
  receives_zero (offer i) = false
  receives_zero (start i) = false
  receives_zero (finish i) = false
  receives_zero (send_result i) = false
  receives_zero (read_result i) = false
  receives_zero (arrive job) = false
  receives_zero close_channel = false
  receives_zero cancel = false
  receives_zero (leave i) = false
  receives_zero close = false
  receives_zero stop = false
  receives_zero quit = false

  abbrev pub cost : Action E → ℕ
  cost a = if is_working a || receives_zero a then 1 else 0

  receive_closed-Spent :
      (job : E) (d : Dispatcher E) (pending : List E) (s : Pool E)
      → s.dispatcher ≡ d
      → Holds (Spent 1 s) (receive_closed job d pending s)
  unfolding receive_closed
  receive_closed-Spent job selecting [] s e =
      Holds-if (Spent 1 s) s.closed _ (λ c. ground (arith, e, length-append s.arrived (job ∷ [])))
  receive_closed-Spent job selecting (other ∷ rest) s e = tt
  receive_closed-Spent job (holding other) pending s e = tt
  receive_closed-Spent job (handing other i) pending s e = tt
  receive_closed-Spent job returned pending s e = tt

  working-Spent :
      (a : Action E) (s : Pool E) → IsValid s → is_working a ≡ true → Holds (Spent 1 s) (act a s)
  working-Spent a s v w =
      Holds-map (IsStep s) (Spent 1 s) (act a s) (λ t k. omega (arith, k.less, ap length k.arrived))
        (act-IsStep a s v w)

  act-Spent : (a : Action E) (s : Pool E) → IsValid s → Holds (Spent (cost a) s) (act a s)
  unfolding act
  act-Spent (arrive job) s v =
      Holds-unless (Spent 0 s) s.closed _
        (omega (arith, length-append s.arrived (job ∷ []), length-append s.pending (job ∷ [])))
  act-Spent close_channel s v = Holds-unless (Spent 0 s) s.closed _ (omega arith)
  act-Spent (receive_zero job) s v = receive_closed-Spent job s.dispatcher s.pending s refl
  act-Spent receive s v = working-Spent receive s v refl
  act-Spent fetch s v = working-Spent fetch s v refl
  act-Spent hand s v = working-Spent hand s v refl
  act-Spent (offer i) s v = working-Spent (offer i) s v refl
  act-Spent (start i) s v = working-Spent (start i) s v refl
  act-Spent (finish i) s v = working-Spent (finish i) s v refl
  act-Spent (send_result i) s v = working-Spent (send_result i) s v refl
  act-Spent (read_result i) s v = working-Spent (read_result i) s v refl
  act-Spent cancel s v = omega arith
  act-Spent (leave i) s v = of_worker-Spent i s _ (leave_loop-Spent i (s.workers i).phase s)
  act-Spent close s v = close_dispatcher-Spent s.dispatcher s
  act-Spent stop s v = stop-Spent s.stopping s
  act-Spent quit s v = quit_next-Spent s.stopping s

  -- How many moves of a run are work on a job.
  abbrev pub working_moves : List (Action E) → ℕ
  working_moves [] = 0
  working_moves (a ∷ rest) = cost a + working_moves rest

  run-Spent :
      (moves : List (Action E)) (s : Pool E)
      → IsValid s
      → Holds (Spent (working_moves moves) s) (run moves s)
  unfolding run
  run-Spent [] s v = omega arith
  run-Spent (a ∷ rest) s v =
      Holds-bind (λ t. IsValid t × Spent (cost a) s t) (Spent (working_moves (a ∷ rest)) s)
        (act a s) (run rest)
        (λ t b.
          Holds-map (Spent (working_moves rest) t) (Spent (working_moves (a ∷ rest)) s) (run rest t)
            (λ u k. omega (arith, b.1, k)) (run-Spent rest t b.0))
        (Holds-both IsValid (Spent (cost a) s) (act a s) (act-IsValid a s v) (act-Spent a s v))

  -- The work of a pool is bounded by its jobs: in a run of a new pool, with a cancellation, a `Stop` and
  -- the closing of its channel among the moves, the moves that receive, pass on, start or finish a job,
  -- put a bench back, or send or read a result are at most 8 for each job that was sent and each zero
  -- job that was received from the closed channel, and one for each worker.
  pub working_moves-bounded :
      (n : ℕ) (c : Bool) (moves : List (Action E)) (s : Pool E)
      → run moves (new_worker_pool n c) ≡ some s
      → working_moves moves ≤ n + 8 * length s.arrived
  working_moves-bounded n c moves s h = omega (
    arith,
    sum_to-ones n,
    subst (Holds (Spent (working_moves moves) (new_worker_pool n c))) h
        (run-Spent moves (new_worker_pool n c) (new_worker_pool-IsValid n c)),
  )
