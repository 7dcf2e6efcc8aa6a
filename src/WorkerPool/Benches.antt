-- ===== src/WorkerPool/Benches.antt =====
-- The bench of each worker is in one place: `Pool`, the dispatcher, the worker, or it holds a job.
use arbokcore.Prelude.{
  ℕ, ◌+◌, ◌≤◌, ◌<◌, List, Option, none, some, Bool, true, false, eqb, eqb_iff, if◌then◌else◌,
  Bool-cases, inl, inr, ◌≡◌, subst, arith,
}
use arbokcore.WorkerPool.{
  Phase, offering, waiting, busy, sending, stopped, Worker, Dispatcher, selecting, holding, handing,
  returned, Pool, set_worker,
}
use arbokcore.WorkerPool.Totals.{count}

module _ {ℓ} {E : Type ℓ} where
  abbrev pub in_hand : ℕ → Dispatcher E → ℕ
  in_hand i selecting = 0
  in_hand i (holding job) = 0
  in_hand i (handing job j) = if eqb i j then 1 else 0
  in_hand i returned = 0

  -- The bench outside of its worker.
  abbrev pub loose : ℕ → List ℕ → Dispatcher E → ℕ
  loose i free d = count i free + in_hand i d

  abbrev pub kept : Phase E → ℕ
  kept offering = 1
  kept waiting = 0
  kept (busy job) = 1
  kept (sending job) = 1
  kept stopped = 0

  abbrev filled : Option E → ℕ
  filled none = 0
  filled (some job) = 1

  -- A worker has its bench until it offers it; a bench with a job is at no other place.
  abbrev pub held : Worker E → ℕ
  held w = filled w.bench + kept w.phase

  abbrev pub seats : ℕ → Pool E → ℕ
  seats i s = loose i s.free s.dispatcher + held (s.workers i)

  abbrev pub is_stopped : Phase E → Bool
  is_stopped stopped = true
  is_stopped offering = false
  is_stopped waiting = false
  is_stopped (busy job) = false
  is_stopped (sending job) = false

  abbrev pub is_returned : Dispatcher E → Bool
  is_returned returned = true
  is_returned selecting = false
  is_returned (holding job) = false
  is_returned (handing job i) = false

  -- What every move keeps.
  pub record IsKept (s t : Pool E) : Type ℓ where
    pub size : t.size ≡ s.size
    pub canceled : t.canceled ≡ false → s.canceled ≡ false
    pub stopping : t.stopping ≡ none → s.stopping ≡ none
    pub serving :
        t.canceled ≡ false → is_returned s.dispatcher ≡ false → is_returned t.dispatcher ≡ false
    pub outside : (i : ℕ) → s.size ≤ i → loose i t.free t.dispatcher ≤ loose i s.free s.dispatcher
    pub seats_le : (i : ℕ) → seats i t ≤ seats i s
    pub seats_ge : t.canceled ≡ false → (i : ℕ) → seats i s ≤ seats i t
    pub awake :
        t.canceled ≡ false
        → t.stopping ≡ none
        → (i : ℕ) → is_stopped (s.workers i).phase ≡ false
        → is_stopped (t.workers i).phase ≡ false

  -- A move of no worker.
  pub pool-IsKept :
      (s t : Pool E)
      → (t.size ≡ s.size) × (t.workers ≡ s.workers)
      → (t.canceled ≡ false → s.canceled ≡ false)
      → (t.stopping ≡ none → s.stopping ≡ none)
      → (t.canceled ≡ false → is_returned s.dispatcher ≡ false → is_returned t.dispatcher ≡ false)
      → ((i : ℕ) → loose i t.free t.dispatcher ≡ loose i s.free s.dispatcher)
      → IsKept s t
  pool-IsKept s t same canceled stopping serving there = record {
    size = same.0;
    canceled = canceled;
    stopping = stopping;
    serving = serving;
    outside = λ i h. ground (arith, there i);
    seats_le = λ i. rw (same.1) (ground (arith, there i));
    seats_ge = λ c i. rw (same.1) (ground (arith, there i));
    awake = λ c n i h. rw (same.1) h;
  }

  -- A move of one worker, with a change of the pool around it that leaves the other benches.
  pub set_worker-IsKept :
      (i : ℕ) (w : Worker E) (s t : Pool E)
      → i < s.size
      → (t.size ≡ s.size) × (t.workers ≡ s.workers) × (t.canceled ≡ s.canceled)
      → (t.stopping ≡ none → s.stopping ≡ none)
      → (t.canceled ≡ false → is_returned s.dispatcher ≡ false → is_returned t.dispatcher ≡ false)
      → loose i t.free t.dispatcher + held w ≤ seats i s
      → (t.canceled ≡ false → seats i s ≤ loose i t.free t.dispatcher + held w)
      → ((j : ℕ) → eqb i j ≡ false → loose j t.free t.dispatcher ≡ loose j s.free s.dispatcher)
      → (t.canceled ≡ false
          → t.stopping ≡ none
          → is_stopped (s.workers i).phase ≡ false
          → is_stopped w.phase ≡ false)
      → IsKept s (set_worker i w t)
  set_worker-IsKept i w s t b same stopping serving le ge there awake = record {
    size = same.0;
    canceled = λ h. ground (arith, h, same);
    stopping = stopping;
    serving = serving;
    outside = λ j h. ground (arith, there j);
    seats_le = λ j. elim (Bool-cases (eqb i j)) [
      | inl here ↦ rw here (
          (subst (λ k. loose k t.free t.dispatcher + held w ≤ seats k s) ((eqb_iff i j).0 here) le))
      | inr other ↦ rw (other, same.1) (ground (arith, there j other))
    ];
    seats_ge = λ c j. elim (Bool-cases (eqb i j)) [
      | inl here ↦ rw here (
          subst (λ k. seats k s ≤ loose k t.free t.dispatcher + held w) ((eqb_iff i j).0 here)
            (ge c))
      | inr other ↦ rw (other, same.1) (ground (arith, there j other))
    ];
    awake = λ c n j h. elim (Bool-cases (eqb i j)) [
      | inl here ↦ rw here (awake c n (ground (arith, h, (eqb_iff i j).0 here)))
      | inr other ↦ rw (other, same.1) h
    ];
  }
