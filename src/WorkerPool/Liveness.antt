-- ===== src/WorkerPool/Liveness.antt =====
-- As long as a job is not processed, some goroutine of the pool can move.
use arbokcore.Prelude.{
  ℕ, zero, suc, ◌≤◌, ◌<◌, List, [], ◌∷◌, Option, none, some, true, false, ltb, ltb→lt, lt→ltb,
  is_some, Bool-cases, Option-cases, Holds, List-cases, ◌⊎◌, inl, inr, ◌≡◌, refl, subst, ◌∙◌, arith,
}
use arbokcore.WorkerPool.{
  Phase, offering, waiting, busy, sending, stopped, Worker, Dispatcher, selecting, holding, handing,
  returned, Pool, Action, receive, fetch, hand, offer, start, finish, send_result, read_result,
  receive_job, fetch_bench, start_job, finish_job, put_result, take_result, act, run,
}
use arbokcore.WorkerPool.Totals.{sum_to-positive}
use arbokcore.WorkerPool.Benches.{is_stopped}
use arbokcore.WorkerPool.Validity.{IsValid, act-IsValid, hand_job-moves, offer_bench-moves}
use arbokcore.WorkerPool.Progress.{worker_work, work, is_working, IsStep, act-IsStep}

module _ {ℓ} {E : Type ℓ} where
  -- A working move that need not wait.
  abbrev pub Enabled : Pool E → Type ℓ
  Enabled s = (a : Action E) × (is_working a ≡ true) × (is_some (act a s) ≡ true)

  abbrev IsIdle : Worker E → Type ℓ
  IsIdle w = (w.phase ≡ waiting) × (w.bench ≡ none) × (w.result ≡ none)

  at_result :
      (i : ℕ) (r : Option E) (s : Pool E)
      → (s.workers i).result ≡ r
      → ltb i s.size ≡ true
      → (s.workers i).phase ≡ waiting
      → (s.workers i).bench ≡ none
      → Enabled s ⊎ IsIdle (s.workers i)
  unfolding act take_result
  at_result i none s f b e g = inr (e, g, f)
  at_result i (some job) s f b e g = inl (read_result i, refl, rw (b, f, take_result) refl)

  at_bench :
      (i : ℕ) (o : Option E) (s : Pool E)
      → (s.workers i).bench ≡ o
      → ltb i s.size ≡ true
      → (s.workers i).phase ≡ waiting
      → Enabled s ⊎ IsIdle (s.workers i)
  unfolding act start_job
  at_bench i none s f b e = at_result i (s.workers i).result s refl b e f
  at_bench i (some job) s f b e = inl (start i, refl, rw (b, e, f, start_job) refl)

  at_phase :
      (i : ℕ) (q : Phase E) (s : Pool E)
      → (s.workers i).phase ≡ q
      → IsValid s
      → is_stopped q ≡ false
      → ltb i s.size ≡ true
      → Enabled s ⊎ IsIdle (s.workers i)
  unfolding act finish_job put_result take_result
  at_phase i offering s e v g b = inl (offer i, refl, offer_bench-moves s i v (ltb→lt i s.size b) e)
  at_phase i waiting s e v g b = at_bench i (s.workers i).bench s refl b e
  at_phase i (busy job) s e v g b = inl (finish i, refl, rw (b, e, finish_job) refl)
  at_phase i (sending job) s e v g b = elim (Option-cases (s.workers i).result) [
    | inl empty ↦ inl (send_result i, refl, rw (b, e, empty, put_result) refl)
    | inr full ↦ inl (read_result i, refl, rw (b, full.1, take_result) refl)
  ]
  at_phase i stopped s e v g b = absurd (ground (arith, g))

  -- Nothing but arrivals and working moves has happened to a pool that has a worker.
  pub record IsOn (s : Pool E) : Type ℓ where
    pub valid : IsValid s
    pub on : s.canceled ≡ false
    pub unstopped : s.stopping ≡ none
    pub some_worker : 0 < s.size

  worker-moves : (i : ℕ) (s : Pool E) → IsOn s → i < s.size → Enabled s ⊎ IsIdle (s.workers i)
  worker-moves i s o b =
      at_phase i (s.workers i).phase s refl o.valid (o.valid.awake o.on o.unstopped i)
        (lt→ltb i s.size b)

  holding-moves : (job : E) (s : Pool E) → IsOn s → s.dispatcher ≡ holding job → Enabled s
  unfolding act fetch_bench
  holding-moves job s o e = elim (worker-moves 0 s o o.some_worker) [
    | inl moves ↦ moves
    | inr idle ↦ elim (List-cases s.free) [
      | inl empty ↦ absurd (ground (arith, e, idle, empty, o.valid.there o.on 0 o.some_worker))
      | inr full ↦ (fetch, refl, rw (e, full.2, fetch_bench) refl)
    ]
  ]

  selecting-moves : (s : Pool E) → IsOn s → s.dispatcher ≡ selecting → 0 < work s → Enabled s
  unfolding act receive_job
  selecting-moves s o e more = elim (List-cases s.pending) [
    | inr full ↦ (receive, refl, rw (e, full.2, receive_job) refl)
    | inl empty ↦
        (let found =
            sum_to-positive s.size (λ i. worker_work (s.workers i))
              (ground (arith, e, empty, more)) in
          elim (worker-moves found.0 s o found.1) [
            | inl moves ↦ moves
            | inr idle ↦ absurd (ground (arith, idle, found.2))
          ])
  ]

  dispatcher-moves :
      (d : Dispatcher E) (s : Pool E) → IsOn s → s.dispatcher ≡ d → 0 < work s → Enabled s
  dispatcher-moves selecting s o e more = selecting-moves s o e more
  dispatcher-moves (holding job) s o e more = holding-moves job s o e
  dispatcher-moves (handing job i) s o e more = (hand, refl, hand_job-moves s job i o.valid e)
  dispatcher-moves returned s o e more = absurd (ground (arith, e, o.valid.serving o.on))

  pub pool-moves : (s : Pool E) → IsOn s → 0 < work s → Enabled s
  pool-moves s o more = dispatcher-moves s.dispatcher s o refl more

  abbrev pub AllWorking : List (Action E) → Type 0
  AllWorking [] = Unit
  AllWorking (a ∷ rest) = (is_working a ≡ true) × AllWorking rest

  step-IsOn : (a : Action E) (s t : Pool E) → IsOn s → act a s ≡ some t → IsStep s t → IsOn t
  step-IsOn a s t o e k = record {
    valid = subst (Holds IsValid) e (act-IsValid a s o.valid);
    on = ground (arith, k.canceled, o.on);
    unstopped = ground (arith, k.stopping, o.unstopped);
    some_worker = omega (arith, k.size, o.some_worker);
  }

  -- A run of working moves to its end.
  pub record Drained (s : Pool E) : Type ℓ where
    pub moves : List (Action E)
    pub last : Pool E
    pub working : AllWorking moves
    pub runs : run moves s ≡ some last
    pub arrived : last.arrived ≡ s.arrived
    pub rests : work last ≡ 0

  drain-step :
      (a : Action E) (s t : Pool E)
      → is_working a ≡ true
      → act a s ≡ some t
      → t.arrived ≡ s.arrived
      → Drained t
      → Drained s
  unfolding run
  drain-step a s t w e same d = record {
    moves = a ∷ d.moves;
    last = d.last;
    working = (w, d.working);
    runs = rw (e, run) d.runs;
    arrived = d.arrived ∙ same;
    rests = d.rests;
  }

  -- By induction on a bound of the work.
  pub drain : (n : ℕ) (s : Pool E) → work s ≤ n → IsOn s → Drained s
  unfolding run
  drain zero s enough o = record {
    moves = [];
    last = s;
    working = tt;
    runs = refl;
    arrived = refl;
    rests = omega (arith, enough);
  }
  drain (suc n) s enough o = elim (Bool-cases (ltb 0 (work s))) [
    | inr rests ↦ record {
      moves = [];
      last = s;
      working = tt;
      runs = refl;
      arrived = refl;
      rests = ground (arith, rests);
    }
    | inl more ↦
        (let e = pool-moves s o (ltb→lt 0 (work s) more) in
          elim (Option-cases (act e.0 s)) [
            | inl waits ↦ absurd (ground (arith, waits, e.2))
            | inr moved ↦
                (let k = subst (Holds (IsStep s)) moved.1 (act-IsStep e.0 s o.valid e.1) in
                  drain-step e.0 s moved.0 e.1 moved.1 k.arrived (
                    drain n moved.0 (omega (arith, k.less, enough))
                      (step-IsOn e.0 s moved.0 o moved.1 k)))
          ])
  ]
