-- ===== src/WorkerPool/Validity.antt =====
-- The states that the worker pool reaches, and the channels that are never full in them.
use arbokcore.Prelude.{
  ℕ, ◌≤◌, ◌<◌, List, none, some, Bool, true, false, lt→ltb, is_some, length, Option-cases, Holds,
  Holds-map, inl, inr, ◌≡◌, refl, subst, arith,
}
use arbokcore.WorkerPool.{
  Phase, offering, waiting, busy, sending, stopped, Dispatcher, selecting, holding, handing,
  returned, Pool, Action, hand, offer, new_worker_pool, put_job, hand_job, offer_bench, act, run,
  run-Holds,
}
use arbokcore.WorkerPool.Totals.{count, sum_to-count, sum_to-lt}
use arbokcore.WorkerPool.Benches.{loose, seats, is_stopped, is_returned, IsKept}
use arbokcore.WorkerPool.Moves.{act-IsKept}

module _ {ℓ} {E : Type ℓ} where
  -- Each bench is at one place, and at none only if its worker left after a cancellation.
  pub record IsValid (s : Pool E) : Type ℓ where
    pub known : (i : ℕ) → s.size ≤ i → loose i s.free s.dispatcher ≡ 0
    pub once : (i : ℕ) → i < s.size → seats i s ≤ 1
    pub there : s.canceled ≡ false → (i : ℕ) → i < s.size → 1 ≤ seats i s
    pub serving : s.canceled ≡ false → is_returned s.dispatcher ≡ false
    pub awake :
        s.canceled ≡ false → s.stopping ≡ none → (i : ℕ) → is_stopped (s.workers i).phase ≡ false

  pub new_worker_pool-IsValid : (n : ℕ) (c : Bool) → IsValid (new_worker_pool n c)
  new_worker_pool-IsValid n c = record {
    known = λ i h. refl;
    once = λ i h. omega arith;
    there = λ h i b. omega arith;
    serving = λ h. refl;
    awake = λ h k i. refl;
  }

  IsKept-IsValid : (s t : Pool E) → IsValid s → IsKept s t → IsValid t
  IsKept-IsValid s t v k = record {
    known = λ i h.
        omega (arith, k.outside i (omega (arith, h, k.size)), v.known i (omega (arith, h, k.size)));
    once = λ i h. omega (arith, k.seats_le i, v.once i (omega (arith, h, k.size)));
    there =
        λ c i h. omega (arith, k.seats_ge c i, v.there (k.canceled c) i (omega (arith, h, k.size)));
    serving = λ c. k.serving c (v.serving (k.canceled c));
    awake = λ c n i. k.awake c n i (v.awake (k.canceled c) (k.stopping n) i);
  }

  pub act-IsValid : (a : Action E) (s : Pool E) → IsValid s → Holds IsValid (act a s)
  act-IsValid a s v =
      Holds-map (IsKept s) IsValid (act a s) (λ t. IsKept-IsValid s t v) (act-IsKept a s v.known)

  pub run-IsValid : (moves : List (Action E)) (s : Pool E) → IsValid s → Holds IsValid (run moves s)
  run-IsValid = run-Holds IsValid act-IsValid

  length-free :
      (s : Pool E) (i : ℕ)
      → IsValid s
      → i < s.size
      → (s.workers i).phase ≡ offering
      → length s.free < s.size
  length-free s i v b e = omega (
    arith,
    sum_to-count s.size s.free (λ j h. omega (arith, v.known j h)),
    sum_to-lt s.size (λ j. count j s.free) i (λ j h. omega (arith, v.once j h)) b
        (ground (arith, v.once i b, e)),
  )

  pub hand_job-moves :
      (s : Pool E) (job : E) (i : ℕ)
      → IsValid s
      → s.dispatcher ≡ handing job i
      → is_some (act hand s) ≡ true
  unfolding act hand_job put_job
  hand_job-moves s job i v e = elim (Option-cases (s.workers i).bench) [
    | inl empty ↦ rw (e, hand_job) (rw (empty, put_job) refl)
    | inr full ↦ absurd (ground (arith, e, full, v.known i, v.once i))
  ]

  pub offer_bench-moves :
      (s : Pool E) (i : ℕ)
      → IsValid s
      → i < s.size
      → (s.workers i).phase ≡ offering
      → is_some (act (offer i) s) ≡ true
  unfolding act offer_bench
  offer_bench-moves s i v b e =
      ground (arith, e, lt→ltb i s.size b, lt→ltb (length s.free) s.size (length-free s i v b e))

  abbrev pub is_handing : Dispatcher E → Bool
  is_handing (handing job i) = true
  is_handing selecting = false
  is_handing (holding job) = false
  is_handing returned = false

  abbrev pub is_offering : Phase E → Bool
  is_offering offering = true
  is_offering waiting = false
  is_offering (busy job) = false
  is_offering (sending job) = false
  is_offering stopped = false

  hand_job-is_some :
      (d : Dispatcher E) (s : Pool E)
      → s.dispatcher ≡ d
      → IsValid s
      → is_some (act hand s) ≡ is_handing d
  unfolding act hand_job
  hand_job-is_some (handing job i) s e v = hand_job-moves s job i v e
  hand_job-is_some selecting s e v = rw (e, hand_job) refl
  hand_job-is_some (holding job) s e v = rw (e, hand_job) refl
  hand_job-is_some returned s e v = rw (e, hand_job) refl

  offer_bench-is_some :
      (i : ℕ) (q : Phase E) (s : Pool E)
      → (s.workers i).phase ≡ q
      → i < s.size
      → IsValid s
      → is_some (act (offer i) s) ≡ is_offering q
  unfolding act offer_bench
  offer_bench-is_some i offering s e b v = offer_bench-moves s i v b e
  offer_bench-is_some i waiting s e b v = rw (lt→ltb i s.size b, e, offer_bench) refl
  offer_bench-is_some i (busy job) s e b v = rw (lt→ltb i s.size b, e, offer_bench) refl
  offer_bench-is_some i (sending job) s e b v = rw (lt→ltb i s.size b, e, offer_bench) refl
  offer_bench-is_some i stopped s e b v = rw (lt→ltb i s.size b, e, offer_bench) refl

  -- In a state that `NewWorkerPool` reaches, by moves in any order and with a cancellation and a
  -- `Stop` among them, two sends never wait: the dispatcher that stands at the send of a job to a
  -- bench can make it, and so can a worker that stands at the send of its bench to `Pool`; where they
  -- do not stand there, there is no such send.
  pub channels-free :
      (n : ℕ) (c : Bool) (moves : List (Action E)) (i : ℕ) (s : Pool E)
      → run moves (new_worker_pool n c) ≡ some s
      → i < s.size
      → (is_some (act hand s) ≡ is_handing s.dispatcher)
        × (is_some (act (offer i) s) ≡ is_offering (s.workers i).phase)
  channels-free n c moves i s h b =
      let v =
        subst (Holds IsValid) h
          (run-IsValid moves (new_worker_pool n c) (new_worker_pool-IsValid n c)) in
      (hand_job-is_some s.dispatcher s refl v, offer_bench-is_some i (s.workers i).phase s refl b v)
