-- ===== src/Brokers/Demands/Rest.antt =====
-- The pipeline comes to rest with every demand answered.
use arbokcore.Prelude.{
  ◌≤◌, Text, none, some, Option-cases, List, [], ◌∷◌, ◌++◌, Bool, true, false, Holds, length, inl,
  inr, ◌≡◌, refl, sym, subst, ◌∙◌, arith,
}
use mathlib.Core.List.{append-nil}
use arbokcore.Brokers.Demands.{
  Loop, selecting, demanding, stopping, Producer, ready, reading, sending, returned, Pipeline,
  new_pipeline, Move, handle_demand, forward, demand, take_demand, read, send, receive, put_demand,
  take_tick, forward_demand, send_demand, next_demand, after_read, read_payloads, send_results,
  receive_results, stop_loop, quit_producer, step, steps, steps-Holds,
}
use arbokcore.Brokers.Demands.Order.{in_line, accepted-answered}
use arbokcore.Queuer.{Payload}
use arbokcore.Supervisors.Producer.Answers.{IsRead, read_demand-IsRead}
use arbokcore.Supervisors.Producer.{Demand, read_demand}
use arbokcore.World.{World, Outcome}
use arbokcore.Brokers.Demands.Progress.{is_own, is_returned, AllOwn, work-le, own-work}

-- None of the goroutines can move.
abbrev pub IsQuiet : Pipeline → Type 0
IsQuiet s = (m : Move) → is_own m ≡ true → step m s ≡ none

abbrev is_stopping : Loop → Bool
is_stopping stopping = true
is_stopping selecting = false
is_stopping (demanding d) = false

record IsRunning (s : Pipeline) : Type 0 where
  running : s.canceled ≡ false → is_stopping s.loop ≡ false

step-IsRunning : (m : Move) (s : Pipeline) → IsRunning s → Holds IsRunning (step m s)
unfolding step put_demand take_tick forward_demand send_demand next_demand read_payloads
    send_results receive_results stop_loop quit_producer
step-IsRunning (handle_demand d) s h = ground arith
step-IsRunning _ s h = ground arith

-- The producer has not returned, and Redis answers.
record IsAlive (s : Pipeline) : Type 0 where
  alive : is_returned s.producer ≡ false
  calm : s.world.answers ≡ []

after_read-IsAlive :
    (d : Demand) (run : Outcome (List Payload) × World) (s : Pipeline)
    → IsRead run
    → (t : Pipeline) × (after_read d run s ≡ some t) × IsAlive t
unfolding after_read IsRead
after_read-IsAlive d run s ((payloads, o), a) = (
  record s { producer = sending d payloads; world = run.1 },
  ground (arith, o),
  record { alive = refl; calm = a },
)

read_payloads-IsAlive :
    (p : Producer) (s : Pipeline) → IsAlive s → Holds IsAlive (read_payloads p s)
unfolding read_payloads
read_payloads-IsAlive (reading d) s v =
    let run = read_demand s.topic_name d s.world in
    let (t, e, k) = after_read-IsAlive d run s (read_demand-IsRead s.topic_name d s.world v.calm) in
    rw e k
read_payloads-IsAlive ready s v = tt
read_payloads-IsAlive (sending d payloads) s v = tt
read_payloads-IsAlive (returned failed) s v = tt

step-IsAlive : (m : Move) (s : Pipeline) → is_own m ≡ true → IsAlive s → Holds IsAlive (step m s)
unfolding step forward_demand send_demand next_demand send_results receive_results
step-IsAlive read s o v = read_payloads-IsAlive s.producer s v
step-IsAlive forward s o v = ground arith
step-IsAlive demand s o v = ground arith
step-IsAlive take_demand s o v = ground arith
step-IsAlive send s o v = ground arith
step-IsAlive receive s o v = ground arith
step-IsAlive _ s o v = cc

abbrev is_reading : Producer → Bool
is_reading (reading d) = true
is_reading _ = false

read_payloads-moves :
    (p : Producer) (s : Pipeline) → IsAlive s → read_payloads p s ≡ none → is_reading p ≡ false
unfolding read_payloads
read_payloads-moves (reading d) s v e =
    let run = read_demand s.topic_name d s.world in
    let (t, f, k) = after_read-IsAlive d run s (read_demand-IsRead s.topic_name d s.world v.calm) in
    absurd (ground (arith, e, f))
read_payloads-moves ready s v e = refl
read_payloads-moves (sending d payloads) s v e = refl
read_payloads-moves (returned failed) s v e = refl

quiet-empty :
    (s : Pipeline)
    → IsQuiet s
    → IsAlive s
    → is_stopping s.loop ≡ false
    → (in_line s ≡ []) × (s.results ≡ none)
unfolding step forward_demand send_demand next_demand send_results receive_results
quiet-empty s q v h =
    let a = q forward refl in
    let b = q demand refl in
    let c = q take_demand refl in
    let g = q send refl in
    let f = q receive refl in
    let r = read_payloads-moves s.producer s v (q read refl) in
    ground (arith, a, b, c, g, f, r, h, v)

steps-append :
    (moves more : List Move) (s : Pipeline) {t u : Pipeline}
    → steps moves s ≡ some t
    → steps more t ≡ some u
    → steps (moves ++ more) s ≡ some u
unfolding steps
steps-append [] more s {t} {u} e f = ground (arith, e, f)
steps-append (m ∷ moves) more s {t} {u} e f = elim (Option-cases (step m s)) [
  | inl n ↦ absurd (ground (arith, n, e))
  | inr (v, n) ↦
      let rest : steps moves v ≡ some t = ground (arith, n, e) in
      let later = steps-append moves more v rest f in ground (arith, n, later)
]

-- Their own moves neither accept a demand nor cancel anything.
abbrev Same : Pipeline → Pipeline → Type 0
Same s t = (t.accepted ≡ s.accepted) × (t.canceled ≡ s.canceled)

step-Same : (m : Move) (s : Pipeline) → is_own m ≡ true → Holds (Same s) (step m s)
unfolding step put_demand take_tick forward_demand send_demand next_demand read_payloads after_read
    send_results receive_results stop_loop quit_producer
step-Same (handle_demand d) s o = cc
step-Same _ s o = ground arith

own-Same :
    (moves : List Move) (s : Pipeline) {t : Pipeline}
    → AllOwn moves
    → steps moves s ≡ some t
    → Same s t
unfolding steps
own-Same [] s {t} own e = (ground (arith, e), ground (arith, e))
own-Same (m ∷ moves) s {t} own e = elim (Option-cases (step m s)) [
  | inl n ↦ absurd (ground (arith, n, e))
  | inr (u, n) ↦
      let first : Same s u = subst (Holds (Same s)) n (step-Same m s own.0) in
      let g : steps moves u ≡ some t = ground (arith, n, e) in
      let rest = own-Same moves u own.1 g in (rest.0 ∙ first.0, rest.1 ∙ first.1)
]

own-IsAlive :
    (moves : List Move) (s : Pipeline) {t : Pipeline}
    → AllOwn moves
    → steps moves s ≡ some t
    → IsAlive s
    → IsAlive t
unfolding steps
own-IsAlive [] s {t} own e v = record { alive = ground (arith, e, v); calm = ground (arith, e, v) }
own-IsAlive (m ∷ moves) s {t} own e v = elim (Option-cases (step m s)) [
  | inl n ↦ absurd (ground (arith, n, e))
  | inr (u, n) ↦
      let g : steps moves u ≡ some t = ground (arith, n, e) in
      own-IsAlive moves u own.1 g (subst (Holds IsAlive) n (step-IsAlive m s own.0 v))
]

-- The pipeline comes to rest, and then has answered every demand. From any state that it reaches
-- without a cancellation and in which the producer has not returned, while Redis answers every call,
-- a run of the goroutines' own moves, without a new demand, has at most 19 moves; and where none
-- of them can move any more, every demand that was accepted is answered, in order, all results are
-- received, and the producer has not returned.
pub own_moves-answer :
    (topic_name : Text) (ticking : Bool) (w : World) (before moves : List Move) {s t : Pipeline}
    → steps before (new_pipeline topic_name ticking w) ≡ some s
    → s.canceled ≡ false
    → is_returned s.producer ≡ false
    → s.world.answers ≡ []
    → AllOwn moves
    → steps moves s ≡ some t
    → IsQuiet t
    → (length moves ≤ 19)
      × (t.answered ≡ s.accepted)
      × (t.results ≡ none)
      × (is_returned t.producer ≡ false)
own_moves-answer topic_name ticking w before moves {s} {t} e c p a own f q =
    let start = new_pipeline topic_name ticking w in
    let same = own-Same moves s own f in
    let v = own-IsAlive moves s own f (record { alive = p; calm = a }) in
    let all = steps-append before moves start e f in
    let r = subst (Holds IsRunning) all (
      steps-Holds IsRunning step-IsRunning (before ++ moves) start
        (record { running = λ k. refl })) in
    let (empty, sent) = quiet-empty t q v (r.running (same.1 ∙ c)) in
    let (queue, few) = accepted-answered topic_name ticking w (before ++ moves) all in
    (
      omega (arith, own-work moves s own f v.alive, work-le s),
      sym (queue ∙ (rw (empty, append-nil) refl)) ∙ same.0,
      sent,
      v.alive,
    )
