-- ===== src/Brokers/Demands/Order.antt =====
-- The order in which demands are answered.
use mathlib.Core.List.{append_assoc, append-nil}
use arbokcore.Prelude.{
  ◌+◌, ◌≤◌, Text, Option, none, some, List, [], ◌∷◌, ◌++◌, Bool, true, Holds, Holds-if, length,
  length-append, Bool-cases, inl, inr, ◌≡◌, refl, sym, ap, ◌∙◌, arith, subst,
}
use arbokcore.Brokers.Demands.{
  Loop, selecting, demanding, stopping, Producer, ready, reading, sending, returned, Pipeline,
  new_pipeline, Move, handle_demand, tick, forward, demand, take_demand, read, send, receive,
  cancel, stop, quit, outside, one_payload, put_demand, take_tick, forward_demand, send_demand,
  next_demand, read_payloads, send_results, receive_results, stop_loop, quit_producer, after_read,
  step, steps, steps-Holds,
}
use arbokcore.Queuer.{Payload}
use arbokcore.Supervisors.Producer.{Demand, read_demand}
use arbokcore.World.{World, Outcome, ok, err, panic}

abbrev pub in_chan : Option Demand → List Demand
in_chan none = []
in_chan (some d) = d ∷ []

abbrev pub in_loop : Loop → List Demand
in_loop selecting = []
in_loop (demanding d) = d ∷ []
in_loop stopping = []

abbrev pub in_producer : Producer → List Demand
in_producer ready = []
in_producer (reading d) = d ∷ []
in_producer (sending d payloads) = d ∷ []
in_producer (returned failed) = in_chan failed

-- The demands that are not answered, the oldest first.
abbrev pub in_line : Pipeline → List Demand
in_line s =
    in_producer s.producer ++ (in_chan s.producer_chan ++ (in_loop s.loop ++ in_chan s.demand_chan))

pub record InOrder (s : Pipeline) : Type 0 where
  pub queue : s.accepted ≡ s.answered ++ in_line s
  pub own_demands : s.ticking ≡ true → s.demand_chan ≡ none

length-in_chan : (o : Option Demand) → length (in_chan o) ≤ 1
length-in_chan none = omega arith
length-in_chan (some d) = omega arith

length-in_loop : (l : Loop) → length (in_loop l) ≤ 1
length-in_loop selecting = omega arith
length-in_loop (demanding d) = omega arith
length-in_loop stopping = omega arith

length-in_producer : (p : Producer) → length (in_producer p) ≤ 1
length-in_producer ready = omega arith
length-in_producer (reading d) = omega arith
length-in_producer (sending d payloads) = omega arith
length-in_producer (returned failed) = length-in_chan failed

length-in_line : (s : Pipeline) → length (in_line s) ≤ 4
length-in_line s = omega (
  arith,
  length-append {0} {A = Demand},
  length-in_chan s.producer_chan,
  length-in_chan s.demand_chan,
  length-in_loop s.loop,
  length-in_producer s.producer,
)

-- A move that shifts no demand past another.
shift :
    {s : Pipeline} (t : Pipeline)
    → t.accepted ≡ s.accepted
    → t.answered ++ in_line t ≡ s.answered ++ in_line s
    → (t.ticking ≡ true → t.demand_chan ≡ none)
    → InOrder s
    → InOrder t
shift t same queue own o = record { queue = same ∙ o.queue ∙ sym queue; own_demands = own }

-- A demand at the end of the line.
join :
    (s : Pipeline) (d : Demand) (line : List Demand)
    → s.accepted ≡ s.answered ++ line
    → s.accepted ++ d ∷ [] ≡ s.answered ++ (line ++ d ∷ [])
join s d line h = rw h (append_assoc s.answered line (d ∷ []))

put_demand-InOrder :
    (d : Demand) (o : Option Demand) (s : Pipeline)
    → s.demand_chan ≡ o
    → InOrder s
    → Holds InOrder (put_demand d o s)
unfolding put_demand
put_demand-InOrder d none s e h = elim (Bool-cases s.ticking) [
  | inl ticks ↦ rw ticks tt
  | inr t ↦ rw t (record {
    queue =
        join s d (in_line s) h.queue
        ∙ ap (λ l. s.answered ++ l) (rw e (simp (append_assoc, append-nil)));
    own_demands = λ k. absurd (ground (arith, t, k));
  })
]
put_demand-InOrder d (some other) s e h = tt

take_tick-InOrder :
    (l : Loop) (s : Pipeline) → s.loop ≡ l → InOrder s → Holds InOrder (take_tick l s)
unfolding take_tick
take_tick-InOrder selecting s e h = Holds-if InOrder s.ticking _ (λ ticks. record {
  queue =
      join s one_payload (in_line s) h.queue
      ∙ ap (λ l. s.answered ++ l) (rw (e, h.own_demands ticks) (simp (append_assoc, append-nil)));
  own_demands = h.own_demands;
})
take_tick-InOrder (demanding d) s e h = tt
take_tick-InOrder stopping s e h = tt

forward_demand-InOrder :
    (l : Loop) (o : Option Demand) (s : Pipeline)
    → s.loop ≡ l
    → s.demand_chan ≡ o
    → InOrder s
    → Holds InOrder (forward_demand l o s)
unfolding forward_demand
forward_demand-InOrder selecting (some d) s e f h = shift _ refl (rw (e, f) refl) (λ k. refl) h
forward_demand-InOrder selecting none s e f h = tt
forward_demand-InOrder (demanding d) o s e f h = tt
forward_demand-InOrder stopping o s e f h = tt

send_demand-InOrder :
    (l : Loop) (o : Option Demand) (s : Pipeline)
    → s.loop ≡ l
    → s.producer_chan ≡ o
    → InOrder s
    → Holds InOrder (send_demand l o s)
unfolding send_demand
send_demand-InOrder (demanding d) none s e f h = shift _ refl (rw (e, f) refl) h.own_demands h
send_demand-InOrder (demanding d) (some other) s e f h = tt
send_demand-InOrder selecting o s e f h = tt
send_demand-InOrder stopping o s e f h = tt

next_demand-InOrder :
    (p : Producer) (o : Option Demand) (s : Pipeline)
    → s.producer ≡ p
    → s.producer_chan ≡ o
    → InOrder s
    → Holds InOrder (next_demand p o s)
unfolding next_demand
next_demand-InOrder ready (some d) s e f h = shift _ refl (rw (e, f) refl) h.own_demands h
next_demand-InOrder ready none s e f h = tt
next_demand-InOrder (reading d) o s e f h = tt
next_demand-InOrder (sending d payloads) o s e f h = tt
next_demand-InOrder (returned failed) o s e f h = tt

after_read-InOrder :
    (d : Demand) (run : Outcome (List Payload) × World) (s : Pipeline)
    → s.producer ≡ reading d
    → InOrder s
    → Holds InOrder (after_read d run s)
unfolding after_read
after_read-InOrder d (ok payloads, w) s e h = shift _ refl (rw e refl) h.own_demands h
after_read-InOrder d (err x, w) s e h = shift _ refl (rw e refl) h.own_demands h
after_read-InOrder d (panic, w) s e h = tt

read_payloads-InOrder :
    (p : Producer) (s : Pipeline) → s.producer ≡ p → InOrder s → Holds InOrder (read_payloads p s)
unfolding read_payloads
read_payloads-InOrder (reading d) s e h =
    after_read-InOrder d (read_demand s.topic_name d s.world) s e h
read_payloads-InOrder ready s e h = tt
read_payloads-InOrder (sending d payloads) s e h = tt
read_payloads-InOrder (returned failed) s e h = tt

send_results-InOrder :
    (p : Producer) (o : Option (List Payload)) (s : Pipeline)
    → s.producer ≡ p
    → InOrder s
    → Holds InOrder (send_results p o s)
unfolding send_results
send_results-InOrder (sending d payloads) none s e h =
    shift _ refl
      (rw e (
        append_assoc s.answered (d ∷ [])
          (in_chan s.producer_chan ++ (in_loop s.loop ++ in_chan s.demand_chan))))
      h.own_demands h
send_results-InOrder (sending d payloads) (some other) s e h = tt
send_results-InOrder ready o s e h = tt
send_results-InOrder (reading d) o s e h = tt
send_results-InOrder (returned failed) o s e h = tt

receive_results-InOrder :
    (o : Option (List Payload)) (p : Producer) (s : Pipeline)
    → InOrder s
    → Holds InOrder (receive_results o p s)
unfolding receive_results
receive_results-InOrder (some payloads) p s h = shift _ refl refl h.own_demands h
receive_results-InOrder none (returned failed) s h = shift _ refl refl h.own_demands h
receive_results-InOrder none ready s h = tt
receive_results-InOrder none (reading d) s h = tt
receive_results-InOrder none (sending d payloads) s h = tt

stop_loop-InOrder :
    (l : Loop) (s : Pipeline) → s.loop ≡ l → InOrder s → Holds InOrder (stop_loop l s)
unfolding stop_loop
stop_loop-InOrder selecting s e h =
    Holds-if InOrder s.canceled _ (λ c. shift _ refl (rw e refl) h.own_demands h)
stop_loop-InOrder (demanding d) s e h = tt
stop_loop-InOrder stopping s e h = tt

quit_producer-InOrder :
    (p : Producer) (s : Pipeline) → s.producer ≡ p → InOrder s → Holds InOrder (quit_producer p s)
unfolding quit_producer
quit_producer-InOrder ready s e h =
    Holds-if InOrder s.canceled _ (λ c. shift _ refl (rw e refl) h.own_demands h)
quit_producer-InOrder (reading d) s e h = tt
quit_producer-InOrder (sending d payloads) s e h = tt
quit_producer-InOrder (returned failed) s e h = tt

pub step-InOrder : (m : Move) (s : Pipeline) → InOrder s → Holds InOrder (step m s)
unfolding step
step-InOrder (handle_demand d) s h = put_demand-InOrder d s.demand_chan s refl h
step-InOrder tick s h = take_tick-InOrder s.loop s refl h
step-InOrder forward s h = forward_demand-InOrder s.loop s.demand_chan s refl refl h
step-InOrder demand s h = send_demand-InOrder s.loop s.producer_chan s refl refl h
step-InOrder take_demand s h = next_demand-InOrder s.producer s.producer_chan s refl refl h
step-InOrder read s h = read_payloads-InOrder s.producer s refl h
step-InOrder send s h = send_results-InOrder s.producer s.results s refl h
step-InOrder receive s h = receive_results-InOrder s.results s.producer s h
step-InOrder cancel s h = shift _ refl refl h.own_demands h
step-InOrder stop s h = stop_loop-InOrder s.loop s refl h
step-InOrder quit s h = quit_producer-InOrder s.producer s refl h
step-InOrder (outside w) s h = shift _ refl refl h.own_demands h

-- In every state that the pipeline reaches, by any moves of its goroutines in any order and whatever
-- happens to Redis in the meantime, the demands that were accepted are, in this order, those that
-- were answered with a batch of payloads, the one that the producer works on or at which it has
-- failed, the one in the producer's channel, the one that the loop holds, and the one in the
-- channel of `HandleDemand`: none is lost, answered twice or overtaken, and at most four wait.
pub accepted-answered :
    (topic_name : Text) (ticking : Bool) (w : World) (moves : List Move) {s : Pipeline}
    → steps moves (new_pipeline topic_name ticking w) ≡ some s
    → (s.accepted ≡ s.answered ++ in_line s) × (length s.accepted ≤ length s.answered + 4)
accepted-answered topic_name ticking w moves {s} e =
    let o : InOrder s = subst (Holds InOrder) e (
      steps-Holds InOrder step-InOrder moves (new_pipeline topic_name ticking w)
        (record { queue = refl; own_demands = λ k. refl })) in
    (
      o.queue,
      omega (arith, ap length o.queue, length-append s.answered (in_line s), length-in_line s),
    )
