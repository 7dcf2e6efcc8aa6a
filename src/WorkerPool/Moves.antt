-- ===== src/WorkerPool/Moves.antt =====
-- Every move of the pool keeps each bench in as many places.
use arbokcore.Prelude.{
  Holds-unless, ℕ, suc, ◌≤◌, ◌<◌, List, [], ◌∷◌, ◌++◌, Option, none, some, false, ltb, ltb→lt,
  eqb_iff, if◌then◌else◌, length, Bool-cases, Option-cases, Holds, Holds-if, inl, inr, ◌≡◌, refl,
  arith,
}
use arbokcore.WorkerPool.{
  Phase, offering, waiting, busy, sending, stopped, Worker, Dispatcher, selecting, holding, handing,
  returned, Pool, Action, arrive, close_channel, receive, receive_zero, fetch, hand, offer, start,
  finish, send_result, read_result, cancel, leave, close, stop, quit, set_worker, receive_job,
  receive_closed, fetch_bench, put_job, hand_job, offer_bench, start_job, finish_job, put_result,
  take_result, leave_loop, close_dispatcher, of_worker, quit_worker, quit_next, act,
}
use arbokcore.WorkerPool.Totals.{count-append}
use arbokcore.WorkerPool.Benches.{
  in_hand, loose, held, is_stopped, IsKept, pool-IsKept, set_worker-IsKept,
}

module _ {ℓ} {E : Type ℓ} where
  of_worker-IsKept :
      (i : ℕ) (s : Pool E) (moved : Option (Pool E))
      → (i < s.size → Holds (IsKept s) moved)
      → Holds (IsKept s) (of_worker i s moved)
  of_worker-IsKept i s moved h =
      Holds-if (IsKept s) (ltb i s.size) moved (λ b. h (ltb→lt i s.size b))

  receive_job-IsKept :
      (d : Dispatcher E) (pending : List E) (s : Pool E)
      → s.dispatcher ≡ d
      → Holds (IsKept s) (receive_job d pending s)
  unfolding receive_job
  receive_job-IsKept selecting (job ∷ rest) s e =
      pool-IsKept s _ (refl, refl) (λ h. h) (λ h. h) (λ c k. refl) (λ i. ground (arith, e))
  receive_job-IsKept selecting [] s e = tt
  receive_job-IsKept (holding job) pending s e = tt
  receive_job-IsKept (handing job i) pending s e = tt
  receive_job-IsKept returned pending s e = tt

  receive_closed-IsKept :
      (job : E) (d : Dispatcher E) (pending : List E) (s : Pool E)
      → s.dispatcher ≡ d
      → Holds (IsKept s) (receive_closed job d pending s)
  unfolding receive_closed
  receive_closed-IsKept job selecting [] s e =
      Holds-if (IsKept s) s.closed _
        (λ c. pool-IsKept s _ (refl, refl) (λ h. h) (λ h. h) (λ n k. refl) (λ i. ground (arith, e)))
  receive_closed-IsKept job selecting (other ∷ rest) s e = tt
  receive_closed-IsKept job (holding other) pending s e = tt
  receive_closed-IsKept job (handing other i) pending s e = tt
  receive_closed-IsKept job returned pending s e = tt

  fetch_bench-IsKept :
      (d : Dispatcher E) (free : List ℕ) (s : Pool E)
      → s.dispatcher ≡ d
      → s.free ≡ free
      → Holds (IsKept s) (fetch_bench d free s)
  unfolding fetch_bench
  fetch_bench-IsKept (holding job) (i ∷ rest) s e f =
      pool-IsKept s _ (refl, refl) (λ h. h) (λ h. h) (λ c k. refl) (λ j. ground (arith, e, f))
  fetch_bench-IsKept (holding job) [] s e f = tt
  fetch_bench-IsKept selecting free s e f = tt
  fetch_bench-IsKept (handing job i) free s e f = tt
  fetch_bench-IsKept returned free s e f = tt

  hand_job-IsKept :
      (d : Dispatcher E) (s : Pool E)
      → s.dispatcher ≡ d
      → ((i : ℕ) → s.size ≤ i → in_hand i d ≡ 0)
      → Holds (IsKept s) (hand_job d s)
  unfolding hand_job put_job
  hand_job-IsKept (handing job i) s e known = elim (Option-cases (s.workers i).bench) [
    | inl empty ↦ rw empty (
        set_worker-IsKept i (record (s.workers i) { bench = some job }) s
          (record s { dispatcher = selecting }) (ground (arith, known i)) (refl, refl, refl)
          (λ h. h) (λ c k. refl) (ground (arith, e, empty)) (λ c. ground (arith, e, empty))
          (λ j h. ground (arith, e, h)) (λ c n h. h))
    | inr full ↦ rw (full.1) tt
  ]
  hand_job-IsKept selecting s e known = tt
  hand_job-IsKept (holding job) s e known = tt
  hand_job-IsKept returned s e known = tt

  offer_bench-IsKept :
      (i : ℕ) (p : Phase E) (s : Pool E)
      → (s.workers i).phase ≡ p
      → i < s.size
      → Holds (IsKept s) (offer_bench i p s)
  unfolding offer_bench
  offer_bench-IsKept i offering s e b = elim (Bool-cases (ltb (length s.free) s.size)) [
    | inl room ↦ rw room (
        set_worker-IsKept i (record (s.workers i) { phase = waiting }) s
          (record s { free = s.free ++ i ∷ [] }) b (refl, refl, refl) (λ h. h) (λ c k. k)
          (ground (arith, e, count-append i s.free (i ∷ [])))
          (λ c. ground (arith, e, count-append i s.free (i ∷ [])))
          (λ j h. ground (arith, h, count-append j s.free (i ∷ []), eqb_iff j i, eqb_iff i j))
          (λ c n h. refl))
    | inr full ↦ rw full tt
  ]
  offer_bench-IsKept i waiting s e b = tt
  offer_bench-IsKept i (busy job) s e b = tt
  offer_bench-IsKept i (sending job) s e b = tt
  offer_bench-IsKept i stopped s e b = tt

  -- A move of one worker alone.
  worker-IsKept :
      (i : ℕ) (w : Worker E) (s : Pool E)
      → i < s.size
      → held w ≡ held (s.workers i)
      → (is_stopped (s.workers i).phase ≡ false → is_stopped w.phase ≡ false)
      → IsKept s (set_worker i w s)
  worker-IsKept i w s b same awake =
      set_worker-IsKept i w s s b (refl, refl, refl) (λ h. h) (λ c k. k) (omega (arith, same))
        (λ c. omega (arith, same)) (λ j h. refl) (λ c n. awake)

  start_job-IsKept :
      (i : ℕ) (p : Phase E) (bench : Option E) (s : Pool E)
      → (s.workers i).phase ≡ p
      → (s.workers i).bench ≡ bench
      → i < s.size
      → Holds (IsKept s) (start_job i p bench s)
  unfolding start_job
  start_job-IsKept i waiting (some job) s e f b =
      worker-IsKept i _ s b (ground (arith, e, f)) (λ h. refl)
  start_job-IsKept i waiting none s e f b = tt
  start_job-IsKept i offering bench s e f b = tt
  start_job-IsKept i (busy job) bench s e f b = tt
  start_job-IsKept i (sending job) bench s e f b = tt
  start_job-IsKept i stopped bench s e f b = tt

  finish_job-IsKept :
      (i : ℕ) (p : Phase E) (s : Pool E)
      → (s.workers i).phase ≡ p
      → i < s.size
      → Holds (IsKept s) (finish_job i p s)
  unfolding finish_job
  finish_job-IsKept i (busy job) s e b =
      set_worker-IsKept i
        (record (s.workers i) { phase = if s.capture_result then sending job else offering }) s
        (record s { processed = s.processed ++ job ∷ [] }) b (refl, refl, refl) (λ h. h) (λ c k. k)
        (ground (arith, e)) (λ c. ground (arith, e)) (λ j h. refl) (λ c n h. ground arith)
  finish_job-IsKept i offering s e b = tt
  finish_job-IsKept i waiting s e b = tt
  finish_job-IsKept i (sending job) s e b = tt
  finish_job-IsKept i stopped s e b = tt

  put_result-IsKept :
      (i : ℕ) (p : Phase E) (r : Option E) (s : Pool E)
      → (s.workers i).phase ≡ p
      → i < s.size
      → Holds (IsKept s) (put_result i p r s)
  unfolding put_result
  put_result-IsKept i (sending job) none s e b =
      worker-IsKept i _ s b (ground (arith, e)) (λ h. refl)
  put_result-IsKept i (sending job) (some other) s e b = tt
  put_result-IsKept i offering r s e b = tt
  put_result-IsKept i waiting r s e b = tt
  put_result-IsKept i (busy job) r s e b = tt
  put_result-IsKept i stopped r s e b = tt

  take_result-IsKept :
      (i : ℕ) (r : Option E) (s : Pool E) → i < s.size → Holds (IsKept s) (take_result i r s)
  unfolding take_result
  take_result-IsKept i none s b = tt
  take_result-IsKept i (some job) s b = worker-IsKept i _ s b refl (λ h. h)

  left :
      (i : ℕ) (s : Pool E)
      → i < s.size
      → Holds (IsKept s) (
          if s.canceled
          then some (set_worker i (record (s.workers i) { phase = stopped }) s)
          else none)
  left i s b = Holds-if (IsKept s) s.canceled _ (λ c.
      set_worker-IsKept i (record (s.workers i) { phase = stopped }) s s b (refl, refl, refl)
        (λ h. h) (λ c k. k) (ground arith) (λ h. absurd (ground (arith, c, h))) (λ j h. refl)
        (λ h. absurd (ground (arith, c, h))))

  leave_loop-IsKept :
      (i : ℕ) (p : Phase E) (s : Pool E)
      → (s.workers i).phase ≡ p
      → i < s.size
      → Holds (IsKept s) (leave_loop i p s)
  unfolding leave_loop
  leave_loop-IsKept i waiting s e b = left i s b
  leave_loop-IsKept i (sending job) s e b = left i s b
  leave_loop-IsKept i offering s e b = tt
  leave_loop-IsKept i (busy job) s e b = tt
  leave_loop-IsKept i stopped s e b = tt

  quit_worker-IsKept :
      (i : ℕ) (p : Phase E) (s : Pool E)
      → (s.workers i).phase ≡ p
      → i < s.size
      → Holds (IsKept s) (quit_worker i p s)
  unfolding quit_worker
  quit_worker-IsKept i waiting s e b =
      set_worker-IsKept i (record (s.workers i) { phase = stopped }) s
        (record s { stopping = some (suc i) }) b (refl, refl, refl)
        (λ h. absurd (ground (arith, h))) (λ c k. k) (ground (arith, e)) (λ c. ground (arith, e))
        (λ j h. refl) (λ c n h. absurd (ground (arith, n)))
  quit_worker-IsKept i offering s e b = tt
  quit_worker-IsKept i (busy job) s e b = tt
  quit_worker-IsKept i (sending job) s e b = tt
  quit_worker-IsKept i stopped s e b = tt

  quit_next-IsKept : (o : Option ℕ) (s : Pool E) → s.stopping ≡ o → Holds (IsKept s) (quit_next o s)
  unfolding quit_next
  quit_next-IsKept none s e = tt
  quit_next-IsKept (some i) s e =
      of_worker-IsKept i s _ (λ b. quit_worker-IsKept i (s.workers i).phase s refl b)

  close_dispatcher-IsKept :
      (d : Dispatcher E) (s : Pool E) → s.dispatcher ≡ d → Holds (IsKept s) (close_dispatcher d s)
  unfolding close_dispatcher
  close_dispatcher-IsKept selecting s e = Holds-if (IsKept s) s.canceled _ (λ c.
      pool-IsKept s _ (refl, refl) (λ h. h) (λ h. h) (λ n k. absurd (ground (arith, c, n)))
        (λ i. ground (arith, e)))
  close_dispatcher-IsKept (holding job) s e = tt
  close_dispatcher-IsKept (handing job i) s e = tt
  close_dispatcher-IsKept returned s e = tt

  stop-IsKept :
      (o : Option ℕ) (s : Pool E)
      → s.stopping ≡ o
      → Holds (IsKept s) (elim o [ none ↦ some (record s { stopping = some 0 }) | some i ↦ none ])
  stop-IsKept none s e = pool-IsKept s _ (refl, refl) (λ h. h) (λ h. e) (λ c k. k) (λ i. refl)
  stop-IsKept (some i) s e = tt

  pub act-IsKept :
      (a : Action E) (s : Pool E)
      → ((i : ℕ) → s.size ≤ i → loose i s.free s.dispatcher ≡ 0)
      → Holds (IsKept s) (act a s)
  unfolding act
  act-IsKept (arrive job) s known =
      Holds-unless (IsKept s) s.closed _
        (pool-IsKept s _ (refl, refl) (λ h. h) (λ h. h) (λ c k. k) (λ i. refl))
  act-IsKept close_channel s known =
      Holds-unless (IsKept s) s.closed _
        (pool-IsKept s _ (refl, refl) (λ h. h) (λ h. h) (λ c k. k) (λ i. refl))
  act-IsKept (receive_zero job) s known = receive_closed-IsKept job s.dispatcher s.pending s refl
  act-IsKept receive s known = receive_job-IsKept s.dispatcher s.pending s refl
  act-IsKept fetch s known = fetch_bench-IsKept s.dispatcher s.free s refl refl
  act-IsKept hand s known = hand_job-IsKept s.dispatcher s refl (λ i h. omega (arith, known i h))
  act-IsKept (offer i) s known =
      of_worker-IsKept i s _ (offer_bench-IsKept i (s.workers i).phase s refl)
  act-IsKept (start i) s known =
      of_worker-IsKept i s _
        (start_job-IsKept i (s.workers i).phase (s.workers i).bench s refl refl)
  act-IsKept (finish i) s known =
      of_worker-IsKept i s _ (finish_job-IsKept i (s.workers i).phase s refl)
  act-IsKept (send_result i) s known =
      of_worker-IsKept i s _ (put_result-IsKept i (s.workers i).phase (s.workers i).result s refl)
  act-IsKept (read_result i) s known =
      of_worker-IsKept i s _ (take_result-IsKept i (s.workers i).result s)
  act-IsKept cancel s known =
      pool-IsKept s _ (refl, refl) (λ h. absurd (ground (arith, h))) (λ h. h) (λ c k. k) (λ i. refl)
  act-IsKept (leave i) s known =
      of_worker-IsKept i s _ (leave_loop-IsKept i (s.workers i).phase s refl)
  act-IsKept close s known = close_dispatcher-IsKept s.dispatcher s refl
  act-IsKept stop s known = stop-IsKept s.stopping s refl
  act-IsKept quit s known = quit_next-IsKept s.stopping s refl
