-- ===== src/Brokers/Demands/Progress.antt =====
-- The pipeline's own moves come to an end.
use arbokcore.Prelude.{
  ℕ, suc, ◌+◌, ◌≤◌, Option, none, some, Option-cases, List, [], ◌∷◌, Bool, true, false, Bool-cases,
  Holds, length, inl, inr, ◌≡◌, subst, arith,
}
use arbokcore.Brokers.Demands.{
  Loop, selecting, demanding, stopping, Producer, ready, reading, sending, returned, Pipeline, Move,
  handle_demand, tick, forward, demand, take_demand, read, send, receive, cancel, stop, quit,
  outside, put_demand, take_tick, forward_demand, send_demand, next_demand, after_read,
  read_payloads, send_results, receive_results, stop_loop, quit_producer, step, steps, steps-Holds,
}

-- The moves that the goroutines make without a new demand, a cancellation or anything from outside.
abbrev pub is_own : Move → Bool
is_own forward = true
is_own demand = true
is_own take_demand = true
is_own read = true
is_own send = true
is_own receive = true
is_own _ = false

abbrev pub is_returned : Producer → Bool
is_returned (returned failed) = true
is_returned ready = false
is_returned (reading d) = false
is_returned (sending d payloads) = false

-- The moves that are left to make.
abbrev chan_work : {A : Type 0} → Option A → ℕ → ℕ
chan_work none n = 0
chan_work (some a) n = n

abbrev loop_work : Loop → ℕ
loop_work (demanding d) = 5
loop_work selecting = 0
loop_work stopping = 0

abbrev producer_work : Producer → ℕ
producer_work ready = 0
producer_work (reading d) = 3
producer_work (sending d payloads) = 2
producer_work (returned failed) = 0

abbrev pub work : Pipeline → ℕ
work s =
    chan_work s.demand_chan 6
    + loop_work s.loop
    + chan_work s.producer_chan 4
    + producer_work s.producer
    + chan_work s.results 1

pub work-le : (s : Pipeline) → work s ≤ 19
work-le s = ground arith

-- A move of the goroutines leaves less work, unless the producer has returned.
abbrev Works : Pipeline → Pipeline → Type 0
Works s t = is_returned t.producer ≡ false → suc (work t) ≤ work s

step-Works : (m : Move) (s : Pipeline) → is_own m ≡ true → Holds (Works s) (step m s)
unfolding step forward_demand send_demand next_demand read_payloads after_read send_results
    receive_results
step-Works forward s o = ground arith
step-Works demand s o = ground arith
step-Works take_demand s o = ground arith
step-Works read s o = ground arith
step-Works send s o = ground arith
step-Works receive s o = ground arith
step-Works (handle_demand d) s o = cc
step-Works tick s o = cc
step-Works cancel s o = cc
step-Works stop s o = cc
step-Works quit s o = cc
step-Works (outside w) s o = cc

-- A producer that has returned stays so.
step-returned :
    (m : Move) (s : Pipeline)
    → is_returned s.producer ≡ true
    → Holds (λ t. is_returned t.producer ≡ true) (step m s)
unfolding step put_demand take_tick forward_demand send_demand next_demand read_payloads
    send_results receive_results stop_loop quit_producer
step-returned (handle_demand d) s h = ground arith
step-returned _ s h = ground arith

abbrev pub AllOwn : List Move → Type 0
AllOwn [] = Unit
AllOwn (m ∷ moves) = (is_own m ≡ true) × AllOwn moves

pub own-work :
    (moves : List Move) (s : Pipeline) {t : Pipeline}
    → AllOwn moves
    → steps moves s ≡ some t
    → is_returned t.producer ≡ false
    → length moves + work t ≤ work s
unfolding steps
own-work [] s {t} own e alive = ground (arith, e)
own-work (m ∷ moves) s {t} own e alive = elim (Option-cases (step m s)) [
  | inl n ↦ absurd (ground (arith, n, e))
  | inr (u, n) ↦
      let rest : steps moves u ≡ some t = ground (arith, n, e) in
      let working : is_returned u.producer ≡ false = elim (Bool-cases (is_returned u.producer)) [
        | inr f ↦ f
        | inl r ↦ absurd (
            ground (
              arith,
              alive,
              subst (Holds (λ v. is_returned v.producer ≡ true)) rest
                  (steps-Holds (λ v. is_returned v.producer ≡ true) step-returned moves u r),
            ))
      ] in
      let less : Works s u = subst (Holds (Works s)) n (step-Works m s own.0) in
      omega (arith, less working, own-work moves u own.1 rest alive)
]
