-- ===== src/WorkerPool/Jobs/Workers.antt =====
-- The moves of the workers lose no job and take none twice.
use arbokcore.Prelude.{
  ℕ, ◌<◌, [], ◌∷◌, ◌++◌, Option, none, some, Bool, ltb, if◌then◌else◌, length, Holds, Holds-if, ◌≡◌,
  refl, ap, sym, arith,
}
use arbokcore.WorkerPool.{
  Phase, offering, waiting, busy, sending, stopped, Worker, Pool, set_worker, offer_bench,
  start_job, finish_job, put_result, take_result, leave_loop, quit_worker,
}
use arbokcore.WorkerPool.Jobs.{
  countp, countp-append, in_phase, in_bench, in_worker, Accounted, total-set_worker,
}

module _ {ℓ} {E : Type ℓ} where
  pub worker-Accounted :
      (p : E → Bool) (i : ℕ) (w : Worker E) (s : Pool E)
      → i < s.size
      → countp p (in_worker w) ≡ countp p (in_worker (s.workers i))
      → Accounted p s
      → Accounted p (set_worker i w s)
  worker-Accounted p i w s b same h = omega (arith, h, same, total-set_worker p i w s b)

  pub offer_bench-Accounted :
      (p : E → Bool) (i : ℕ) (q : Phase E) (s : Pool E)
      → (s.workers i).phase ≡ q
      → i < s.size
      → Accounted p s
      → Holds (Accounted p) (offer_bench i q s)
  unfolding offer_bench
  offer_bench-Accounted p i offering s e b h =
      Holds-if (Accounted p) (ltb (length s.free) s.size) _ (λ room. omega (
        arith,
        h,
        total-set_worker p i (record (s.workers i) { phase = waiting }) s b,
        ap (λ q. countp p (in_phase q ++ in_bench (s.workers i).bench)) e,
      ))
  offer_bench-Accounted p i waiting s e b h = tt
  offer_bench-Accounted p i (busy job) s e b h = tt
  offer_bench-Accounted p i (sending job) s e b h = tt
  offer_bench-Accounted p i stopped s e b h = tt

  pub start_job-Accounted :
      (p : E → Bool) (i : ℕ) (q : Phase E) (o : Option E) (s : Pool E)
      → (s.workers i).phase ≡ q
      → (s.workers i).bench ≡ o
      → i < s.size
      → Accounted p s
      → Holds (Accounted p) (start_job i q o s)
  unfolding start_job
  start_job-Accounted p i waiting (some job) s e f b h =
      worker-Accounted p i _ s b (ground (arith, e, f)) h
  start_job-Accounted p i waiting none s e f b h = tt
  start_job-Accounted p i offering o s e f b h = tt
  start_job-Accounted p i (busy job) o s e f b h = tt
  start_job-Accounted p i (sending job) o s e f b h = tt
  start_job-Accounted p i stopped o s e f b h = tt

  pub finish_job-Accounted :
      (p : E → Bool) (i : ℕ) (q : Phase E) (s : Pool E)
      → (s.workers i).phase ≡ q
      → i < s.size
      → Accounted p s
      → Holds (Accounted p) (finish_job i q s)
  unfolding finish_job
  finish_job-Accounted p i (busy job) s e b h = ground (
    arith,
    e,
    h,
    total-set_worker p i
        (record (s.workers i) { phase = if s.capture_result then sending job else offering }) s b,
    countp-append p s.processed (job ∷ []),
  )
  finish_job-Accounted p i offering s e b h = tt
  finish_job-Accounted p i waiting s e b h = tt
  finish_job-Accounted p i (sending job) s e b h = tt
  finish_job-Accounted p i stopped s e b h = tt

  pub put_result-Accounted :
      (p : E → Bool) (i : ℕ) (q : Phase E) (r : Option E) (s : Pool E)
      → (s.workers i).phase ≡ q
      → i < s.size
      → Accounted p s
      → Holds (Accounted p) (put_result i q r s)
  unfolding put_result
  put_result-Accounted p i (sending job) none s e b h =
      worker-Accounted p i _ s b (ground (arith, e)) h
  put_result-Accounted p i (sending job) (some other) s e b h = tt
  put_result-Accounted p i offering r s e b h = tt
  put_result-Accounted p i waiting r s e b h = tt
  put_result-Accounted p i (busy job) r s e b h = tt
  put_result-Accounted p i stopped r s e b h = tt

  pub take_result-Accounted :
      (p : E → Bool) (i : ℕ) (r : Option E) (s : Pool E)
      → i < s.size
      → Accounted p s
      → Holds (Accounted p) (take_result i r s)
  unfolding take_result
  take_result-Accounted p i none s b h = tt
  take_result-Accounted p i (some job) s b h = worker-Accounted p i _ s b refl h

  -- A worker that has no job in its processor returns.
  pub worker_stopped-Accounted :
      (p : E → Bool) (i : ℕ) (s : Pool E)
      → i < s.size
      → in_phase (s.workers i).phase ≡ []
      → Accounted p s
      → Accounted p (set_worker i (record (s.workers i) { phase = stopped }) s)
  worker_stopped-Accounted p i s b e =
      worker-Accounted p i _ s b (sym (ap (λ l. countp p (l ++ in_bench (s.workers i).bench)) e))

  pub leave_loop-Accounted :
      (p : E → Bool) (i : ℕ) (q : Phase E) (s : Pool E)
      → (s.workers i).phase ≡ q
      → i < s.size
      → Accounted p s
      → Holds (Accounted p) (leave_loop i q s)
  unfolding leave_loop
  leave_loop-Accounted p i waiting s e b h =
      Holds-if (Accounted p) s.canceled _ (λ c. worker_stopped-Accounted p i s b (ap in_phase e) h)
  leave_loop-Accounted p i (sending job) s e b h =
      Holds-if (Accounted p) s.canceled _ (λ c. worker_stopped-Accounted p i s b (ap in_phase e) h)
  leave_loop-Accounted p i offering s e b h = tt
  leave_loop-Accounted p i (busy job) s e b h = tt
  leave_loop-Accounted p i stopped s e b h = tt

  pub quit_worker-Accounted :
      (p : E → Bool) (i : ℕ) (q : Phase E) (s : Pool E)
      → (s.workers i).phase ≡ q
      → i < s.size
      → Accounted p s
      → Holds (Accounted p) (quit_worker i q s)
  unfolding quit_worker
  quit_worker-Accounted p i waiting s e b h = worker_stopped-Accounted p i s b (ap in_phase e) h
  quit_worker-Accounted p i offering s e b h = tt
  quit_worker-Accounted p i (busy job) s e b h = tt
  quit_worker-Accounted p i (sending job) s e b h = tt
  quit_worker-Accounted p i stopped s e b h = tt
