-- ===== src/WorkerPool/Completion.antt =====
-- All jobs that arrive can be processed, after a bounded number of moves.
use arbokcore.Prelude.{
  ℕ, ◌≤◌, ◌<◌, List, [], ◌∷◌, none, some, Bool, false, length, Holds, Holds-map, ◌≡◌, refl, subst,
  ap, ◌∙◌, Holds-both, arith,
}
use arbokcore.WorkerPool.{Worker, Pool, Action, new_worker_pool, act, run, run-Holds}
use arbokcore.WorkerPool.Totals.{sum_to_mono}
use arbokcore.WorkerPool.Benches.{IsKept}
use arbokcore.WorkerPool.Validity.{IsValid, act-IsValid, new_worker_pool-IsValid, run-IsValid}
use arbokcore.WorkerPool.Jobs.{countp, countp-append, in_phase, in_bench, in_worker, unprocessed}
use arbokcore.WorkerPool.Jobs.Runs.{run-Accounted, reached-Accounted, Both}
use arbokcore.WorkerPool.Progress.{worker_work, work}
use arbokcore.WorkerPool.Liveness.{AllWorking, drain, IsOn}
use arbokcore.WorkerPool.Moves.{act-IsKept}

module _ {ℓ} {E : Type ℓ} where
  countp-le : (p : E → Bool) (xs : List E) → countp p xs ≤ length xs
  countp-le p [] = omega arith
  countp-le p (x ∷ xs) = ground (arith, countp-le p xs)

  worker_work-bounds : (p : E → Bool) (w : Worker E) → countp p (in_worker w) ≤ worker_work w
  worker_work-bounds p w = ground (arith, countp-append p (in_phase w.phase) (in_bench w.bench))

  work-bounds : (p : E → Bool) (s : Pool E) → unprocessed p s ≤ work s
  work-bounds p s = ground (
    arith,
    sum_to_mono s.size (λ i. countp p (in_worker (s.workers i))) (λ i. worker_work (s.workers i))
        (λ i b. worker_work-bounds p (s.workers i)),
    countp-le p s.pending,
  )

  run-size :
      (moves : List (Action E)) (s t : Pool E) → IsValid s → run moves s ≡ some t → t.size ≡ s.size
  run-size moves s t v h =
      (subst (Holds (λ u. IsValid u × (u.size ≡ s.size))) h (
        run-Holds (λ u. IsValid u × (u.size ≡ s.size))
          (λ a u b.
            Holds-both IsValid (λ w. w.size ≡ s.size) (act a u) (act-IsValid a u b.0)
              (Holds-map (IsKept u) (λ w. w.size ≡ s.size) (act a u) (λ w k. k.size ∙ b.1)
                (act-IsKept a u b.0.known)))
          moves s (v, refl))).1

  reached-IsOn :
      (n : ℕ) (c : Bool) (moves : List (Action E)) (s : Pool E)
      → run moves (new_worker_pool n c) ≡ some s
      → 0 < n
      → s.canceled ≡ false
      → s.stopping ≡ none
      → IsOn s
  reached-IsOn n c moves s h some_worker on unstopped = record {
    valid =
        subst (Holds IsValid) h
          (run-IsValid moves (new_worker_pool n c) (new_worker_pool-IsValid n c));
    on = on;
    unstopped = unstopped;
    some_worker =
        omega (arith, run-size moves (new_worker_pool n c) s (new_worker_pool-IsValid n c) h);
  }

  -- Every job can be processed: in a state that a pool with a worker reaches without a cancellation
  -- or a `Stop`, with its channel open or closed, some further moves of the dispatcher, the workers and
  -- the readers of results lead to a state in which, of the jobs with any property, as many were
  -- processed as have arrived, a zero job received from the closed channel counted as one.
  pub all_processed :
      (n : ℕ) (c : Bool) (moves : List (Action E)) (s : Pool E)
      → run moves (new_worker_pool n c) ≡ some s
      → 0 < n
      → s.canceled ≡ false
      → s.stopping ≡ none
      → (rest : List (Action E)) × (last : Pool E) × AllWorking rest
        × (run rest s ≡ some last)
        × (last.arrived ≡ s.arrived)
        × ((p : E → Bool) → countp p last.processed ≡ countp p s.arrived)
  all_processed n c moves s h some_worker on unstopped =
      let d =
        drain (work s) s (omega arith) (reached-IsOn n c moves s h some_worker on unstopped) in
      (
        d.moves,
        d.last,
        d.working,
        d.runs,
        d.arrived,
        λ p.
            (let b = reached-Accounted p n c moves s h in
              omega (
                arith,
                (subst (Holds (Both p)) d.runs (run-Accounted p d.moves s b.0 b.1)).1,
                work-bounds p d.last,
                d.rests,
                ap (countp p) d.arrived,
              )),
      )
