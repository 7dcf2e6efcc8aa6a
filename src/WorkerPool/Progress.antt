-- ===== src/WorkerPool/Progress.antt =====
-- Work on the jobs that arrived comes to an end, and only when all of them are processed.
use arbokcore.Prelude.{
  ℕ, ◌+◌, ◌*◌, ◌≤◌, ◌<◌, List, [], ◌∷◌, Option, none, some, Bool, true, false, ltb, ltb→lt,
  if◌then◌else◌, length, Option-cases, Holds, Holds-if, inl, inr, ◌≡◌, refl, arith,
}
use arbokcore.WorkerPool.{
  Phase, offering, waiting, busy, sending, stopped, Worker, Dispatcher, selecting, holding, handing,
  returned, Pool, put_at, Action, arrive, close_channel, receive, receive_zero, fetch, hand, offer,
  start, finish, send_result, read_result, cancel, leave, close, stop, quit, set_worker,
  receive_job, fetch_bench, put_job, hand_job, offer_bench, start_job, finish_job, put_result,
  take_result, of_worker, act,
}
use arbokcore.WorkerPool.Totals.{sum_to, sum_to-put_at}
use arbokcore.WorkerPool.Benches.{in_hand}
use arbokcore.WorkerPool.Validity.{IsValid}

module _ {ℓ} {E : Type ℓ} where
  abbrev phase_work : Phase E → ℕ
  phase_work offering = 1
  phase_work waiting = 0
  phase_work (busy job) = 4
  phase_work (sending job) = 3
  phase_work stopped = 0

  abbrev slot_work : ℕ → Option E → ℕ
  slot_work n none = 0
  slot_work n (some job) = n

  abbrev pub worker_work : Worker E → ℕ
  worker_work w = phase_work w.phase + slot_work 5 w.bench + slot_work 1 w.result

  abbrev pub dispatcher_work : Dispatcher E → ℕ
  dispatcher_work selecting = 0
  dispatcher_work (holding job) = 7
  dispatcher_work (handing job i) = 6
  dispatcher_work returned = 0

  -- A bound on the moves that the jobs in the pool still take.
  abbrev pub work : Pool E → ℕ
  work s =
      sum_to s.size (λ i. worker_work (s.workers i))
      + dispatcher_work s.dispatcher
      + 8 * length s.pending

  -- The moves on jobs that are there: none of an arrival, of the closing of the channel or a receive
  -- after it, of a cancellation, a return or a `Stop`.
  abbrev pub is_working : Action E → Bool
  is_working receive = true
  is_working fetch = true
  is_working hand = true
  is_working (offer i) = true
  is_working (start i) = true
  is_working (finish i) = true
  is_working (send_result i) = true
  is_working (read_result i) = true
  is_working (arrive job) = false
  is_working close_channel = false
  is_working (receive_zero job) = false
  is_working cancel = false
  is_working (leave i) = false
  is_working close = false
  is_working stop = false
  is_working quit = false

  pub record IsStep (s t : Pool E) : Type ℓ where
    pub less : work t < work s
    pub size : t.size ≡ s.size
    pub arrived : t.arrived ≡ s.arrived
    pub canceled : t.canceled ≡ s.canceled
    pub stopping : t.stopping ≡ s.stopping

  -- A move that touches none of the other fields.
  abbrev step :
      {s t : Pool E}
      → work t < work s
      → (t.size ≡ s.size)
        × (t.arrived ≡ s.arrived)
        × (t.canceled ≡ s.canceled)
        × (t.stopping ≡ s.stopping)
      → IsStep s t
  step less same = record {
    less = less;
    size = same.0;
    arrived = same.1;
    canceled = same.2;
    stopping = same.3;
  }

  receive_job-IsStep :
      (d : Dispatcher E) (pending : List E) (s : Pool E)
      → s.dispatcher ≡ d
      → s.pending ≡ pending
      → Holds (IsStep s) (receive_job d pending s)
  unfolding receive_job
  receive_job-IsStep selecting (job ∷ rest) s e f =
      step (ground (arith, e, f)) (refl, refl, refl, refl)
  receive_job-IsStep selecting [] s e f = tt
  receive_job-IsStep (holding job) pending s e f = tt
  receive_job-IsStep (handing job i) pending s e f = tt
  receive_job-IsStep returned pending s e f = tt

  fetch_bench-IsStep :
      (d : Dispatcher E) (free : List ℕ) (s : Pool E)
      → s.dispatcher ≡ d
      → Holds (IsStep s) (fetch_bench d free s)
  unfolding fetch_bench
  fetch_bench-IsStep (holding job) (i ∷ rest) s e =
      step (ground (arith, e)) (refl, refl, refl, refl)
  fetch_bench-IsStep (holding job) [] s e = tt
  fetch_bench-IsStep selecting free s e = tt
  fetch_bench-IsStep (handing job i) free s e = tt
  fetch_bench-IsStep returned free s e = tt

  pub work-set_worker :
      (i : ℕ) (w : Worker E) (s : Pool E)
      → i < s.size
      → sum_to s.size (λ j. worker_work (put_at s.workers i w j)) + worker_work (s.workers i)
        ≡ sum_to s.size (λ j. worker_work (s.workers j)) + worker_work w
  work-set_worker i w s = sum_to-put_at s.size worker_work s.workers i w

  hand_job-IsStep :
      (d : Dispatcher E) (s : Pool E)
      → s.dispatcher ≡ d
      → ((i : ℕ) → s.size ≤ i → in_hand i d ≡ 0)
      → Holds (IsStep s) (hand_job d s)
  unfolding hand_job put_job
  hand_job-IsStep (handing job i) s e known = elim (Option-cases (s.workers i).bench) [
    | inl empty ↦ rw empty (
        step
          (ground (
            arith,
            e,
            empty,
            work-set_worker i (record (s.workers i) { bench = some job }) s
                (ground (arith, known i)),
          ))
          (refl, refl, refl, refl))
    | inr full ↦ rw (full.1) tt
  ]
  hand_job-IsStep selecting s e known = tt
  hand_job-IsStep (holding job) s e known = tt
  hand_job-IsStep returned s e known = tt

  worker-IsStep :
      (i : ℕ) (w : Worker E) (s : Pool E)
      → i < s.size
      → worker_work w < worker_work (s.workers i)
      → IsStep s (set_worker i w s)
  worker-IsStep i w s b less =
      step (omega (arith, less, work-set_worker i w s b)) (refl, refl, refl, refl)

  offer_bench-IsStep :
      (i : ℕ) (q : Phase E) (s : Pool E)
      → (s.workers i).phase ≡ q
      → i < s.size
      → Holds (IsStep s) (offer_bench i q s)
  unfolding offer_bench
  offer_bench-IsStep i offering s e b = Holds-if (IsStep s) (ltb (length s.free) s.size) _ (λ room.
      step (ground (arith, e, work-set_worker i (record (s.workers i) { phase = waiting }) s b))
        (refl, refl, refl, refl))
  offer_bench-IsStep i waiting s e b = tt
  offer_bench-IsStep i (busy job) s e b = tt
  offer_bench-IsStep i (sending job) s e b = tt
  offer_bench-IsStep i stopped s e b = tt

  start_job-IsStep :
      (i : ℕ) (q : Phase E) (o : Option E) (s : Pool E)
      → (s.workers i).phase ≡ q
      → (s.workers i).bench ≡ o
      → i < s.size
      → Holds (IsStep s) (start_job i q o s)
  unfolding start_job
  start_job-IsStep i waiting (some job) s e f b = worker-IsStep i _ s b (ground (arith, e, f))
  start_job-IsStep i waiting none s e f b = tt
  start_job-IsStep i offering o s e f b = tt
  start_job-IsStep i (busy job) o s e f b = tt
  start_job-IsStep i (sending job) o s e f b = tt
  start_job-IsStep i stopped o s e f b = tt

  finish_job-IsStep :
      (i : ℕ) (q : Phase E) (s : Pool E)
      → (s.workers i).phase ≡ q
      → i < s.size
      → Holds (IsStep s) (finish_job i q s)
  unfolding finish_job
  finish_job-IsStep i (busy job) s e b =
      step
        (ground (
          arith,
          e,
          work-set_worker i
              (record (s.workers i) { phase = if s.capture_result then sending job else offering })
              s b,
        ))
        (refl, refl, refl, refl)
  finish_job-IsStep i offering s e b = tt
  finish_job-IsStep i waiting s e b = tt
  finish_job-IsStep i (sending job) s e b = tt
  finish_job-IsStep i stopped s e b = tt

  put_result-IsStep :
      (i : ℕ) (q : Phase E) (r : Option E) (s : Pool E)
      → (s.workers i).phase ≡ q
      → (s.workers i).result ≡ r
      → i < s.size
      → Holds (IsStep s) (put_result i q r s)
  unfolding put_result
  put_result-IsStep i (sending job) none s e f b = worker-IsStep i _ s b (ground (arith, e, f))
  put_result-IsStep i (sending job) (some other) s e f b = tt
  put_result-IsStep i offering r s e f b = tt
  put_result-IsStep i waiting r s e f b = tt
  put_result-IsStep i (busy job) r s e f b = tt
  put_result-IsStep i stopped r s e f b = tt

  take_result-IsStep :
      (i : ℕ) (r : Option E) (s : Pool E)
      → (s.workers i).result ≡ r
      → i < s.size
      → Holds (IsStep s) (take_result i r s)
  unfolding take_result
  take_result-IsStep i none s f b = tt
  take_result-IsStep i (some job) s f b = worker-IsStep i _ s b (ground (arith, f))

  of_worker-IsStep :
      (i : ℕ) (s : Pool E) (moved : Option (Pool E))
      → (i < s.size → Holds (IsStep s) moved)
      → Holds (IsStep s) (of_worker i s moved)
  of_worker-IsStep i s moved h =
      Holds-if (IsStep s) (ltb i s.size) moved (λ b. h (ltb→lt i s.size b))

  pub act-IsStep :
      (a : Action E) (s : Pool E) → IsValid s → is_working a ≡ true → Holds (IsStep s) (act a s)
  unfolding act
  act-IsStep receive s v h = receive_job-IsStep s.dispatcher s.pending s refl refl
  act-IsStep fetch s v h = fetch_bench-IsStep s.dispatcher s.free s refl
  act-IsStep hand s v h = hand_job-IsStep s.dispatcher s refl (λ i b. omega (arith, v.known i b))
  act-IsStep (offer i) s v h =
      of_worker-IsStep i s _ (offer_bench-IsStep i (s.workers i).phase s refl)
  act-IsStep (start i) s v h =
      of_worker-IsStep i s _
        (start_job-IsStep i (s.workers i).phase (s.workers i).bench s refl refl)
  act-IsStep (finish i) s v h =
      of_worker-IsStep i s _ (finish_job-IsStep i (s.workers i).phase s refl)
  act-IsStep (send_result i) s v h =
      of_worker-IsStep i s _
        (put_result-IsStep i (s.workers i).phase (s.workers i).result s refl refl)
  act-IsStep (read_result i) s v h =
      of_worker-IsStep i s _ (take_result-IsStep i (s.workers i).result s refl)
  act-IsStep (arrive job) s v h = absurd (ground (arith, h))
  act-IsStep close_channel s v h = absurd (ground (arith, h))
  act-IsStep (receive_zero job) s v h = absurd (ground (arith, h))
  act-IsStep cancel s v h = absurd (ground (arith, h))
  act-IsStep (leave i) s v h = absurd (ground (arith, h))
  act-IsStep close s v h = absurd (ground (arith, h))
  act-IsStep stop s v h = absurd (ground (arith, h))
  act-IsStep quit s v h = absurd (ground (arith, h))
