-- ===== src/WorkerPool/Jobs/Runs.antt =====
-- Runs of the pool lose no job and process none twice.
use arbokcore.Prelude.{
  Holds-unless, ℕ, ◌+◌, ◌<◌, List, [], ◌∷◌, Option, none, some, Bool, ltb, ltb→lt, Holds,
  Holds-both, Holds-if, ◌≡◌, refl, subst, arith,
}
use arbokcore.WorkerPool.{
  Pool, Action, arrive, close_channel, receive, receive_zero, fetch, hand, offer, start, finish,
  send_result, read_result, cancel, leave, close, stop, quit, new_worker_pool, of_worker, quit_next,
  act, run, run-Holds,
}
use arbokcore.WorkerPool.Totals.{sum_to-zero}
use arbokcore.WorkerPool.Jobs.{
  countp, countp-append, unprocessed, Accounted, receive_job-Accounted, receive_closed-Accounted,
  fetch_bench-Accounted, hand_job-Accounted, close_dispatcher-Accounted, stop-Accounted,
}
use arbokcore.WorkerPool.Jobs.Workers.{
  offer_bench-Accounted, start_job-Accounted, finish_job-Accounted, put_result-Accounted,
  take_result-Accounted, leave_loop-Accounted, quit_worker-Accounted,
}
use arbokcore.WorkerPool.Validity.{IsValid, act-IsValid, new_worker_pool-IsValid}

module _ {ℓ} {E : Type ℓ} where
  of_worker-Accounted :
      (p : E → Bool) (i : ℕ) (s : Pool E) (moved : Option (Pool E))
      → (i < s.size → Holds (Accounted p) moved)
      → Holds (Accounted p) (of_worker i s moved)
  of_worker-Accounted p i s moved h =
      Holds-if (Accounted p) (ltb i s.size) moved (λ b. h (ltb→lt i s.size b))

  quit_next-Accounted :
      (p : E → Bool) (o : Option ℕ) (s : Pool E)
      → Accounted p s
      → Holds (Accounted p) (quit_next o s)
  unfolding quit_next
  quit_next-Accounted p none s h = tt
  quit_next-Accounted p (some i) s h =
      of_worker-Accounted p i s _ (λ b. quit_worker-Accounted p i (s.workers i).phase s refl b h)

  act-Accounted :
      (p : E → Bool) (a : Action E) (s : Pool E)
      → IsValid s
      → Accounted p s
      → Holds (Accounted p) (act a s)
  unfolding act
  act-Accounted p (arrive job) s v h =
      Holds-unless (Accounted p) s.closed _ (
        omega
          (arith, h, countp-append p s.arrived (job ∷ []), countp-append p s.pending (job ∷ [])))
  act-Accounted p close_channel s v h = Holds-unless (Accounted p) s.closed _ h
  act-Accounted p (receive_zero job) s v h =
      receive_closed-Accounted p job s.dispatcher s.pending s refl refl h
  act-Accounted p receive s v h = receive_job-Accounted p s.dispatcher s.pending s refl refl h
  act-Accounted p fetch s v h = fetch_bench-Accounted p s.dispatcher s.free s refl h
  act-Accounted p hand s v h =
      hand_job-Accounted p s.dispatcher s refl (λ i b. omega (arith, v.known i b)) h
  act-Accounted p (offer i) s v h =
      of_worker-Accounted p i s _ (λ b. offer_bench-Accounted p i (s.workers i).phase s refl b h)
  act-Accounted p (start i) s v h =
      of_worker-Accounted p i s _
        (λ b. start_job-Accounted p i (s.workers i).phase (s.workers i).bench s refl refl b h)
  act-Accounted p (finish i) s v h =
      of_worker-Accounted p i s _ (λ b. finish_job-Accounted p i (s.workers i).phase s refl b h)
  act-Accounted p (send_result i) s v h =
      of_worker-Accounted p i s _
        (λ b. put_result-Accounted p i (s.workers i).phase (s.workers i).result s refl b h)
  act-Accounted p (read_result i) s v h =
      of_worker-Accounted p i s _ (λ b. take_result-Accounted p i (s.workers i).result s b h)
  act-Accounted p cancel s v h = h
  act-Accounted p (leave i) s v h =
      of_worker-Accounted p i s _ (λ b. leave_loop-Accounted p i (s.workers i).phase s refl b h)
  act-Accounted p close s v h = close_dispatcher-Accounted p s.dispatcher s refl h
  act-Accounted p stop s v h = stop-Accounted p s.stopping s h
  act-Accounted p quit s v h = quit_next-Accounted p s.stopping s h

  abbrev pub Both : (E → Bool) → Pool E → Type ℓ
  Both p s = IsValid s × Accounted p s

  pub run-Accounted :
      (p : E → Bool) (moves : List (Action E)) (s : Pool E)
      → IsValid s
      → Accounted p s
      → Holds (Both p) (run moves s)
  run-Accounted p moves s v h =
      run-Holds (Both p)
        (λ a t b.
          Holds-both IsValid (Accounted p) (act a t) (act-IsValid a t b.0)
            (act-Accounted p a t b.0 b.1))
        moves s (v, h)

  pub reached-Accounted :
      (p : E → Bool) (n : ℕ) (c : Bool) (moves : List (Action E)) (s : Pool E)
      → run moves (new_worker_pool n c) ≡ some s
      → Both p s
  reached-Accounted p n c moves s h = subst (Holds (Both p)) h (
      run-Accounted p moves (new_worker_pool n c) (new_worker_pool-IsValid n c)
        (omega (arith, sum_to-zero n)))

  -- Jobs are neither lost nor taken twice: in a state that `NewWorkerPool` reaches, by moves in any
  -- order and with a cancellation, a `Stop` and the closing of the channel among them, of the jobs with
  -- any property as many arrived as were processed, are with a worker, are with the dispatcher and wait
  -- on its channel. A zero job received from the closed channel counts as one that arrived.
  pub arrived-accounted :
      (p : E → Bool) (n : ℕ) (c : Bool) (moves : List (Action E)) (s : Pool E)
      → run moves (new_worker_pool n c) ≡ some s
      → countp p s.arrived ≡ countp p s.processed + unprocessed p s
  arrived-accounted p n c moves s h = (reached-Accounted p n c moves s h).1
