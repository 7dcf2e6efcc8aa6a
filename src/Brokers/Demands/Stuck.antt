-- ===== src/Brokers/Demands/Stuck.antt =====
-- What is left of the pipeline when a read has failed and the producer has returned.
use arbokcore.Prelude.{
  Option, none, some, List, [], ◌∷◌, ◌++◌, false, Holds, Holds-map, ◌≡◌, refl, arith,
}
use arbokcore.Brokers.Demands.{
  Producer, selecting, demanding, ready, reading, sending, returned, Pipeline, Move, handle_demand,
  forward, demand, stop, put_demand, take_tick, forward_demand, send_demand, next_demand,
  read_payloads, send_results, receive_results, stop_loop, quit_producer, tick, take_demand, read,
  send, receive, cancel, quit, outside, step, steps, steps-Holds,
}
use arbokcore.Queuer.{Payload}
use mathlib.Core.List.{append_assoc}
use arbokcore.Supervisors.Producer.{Demand, read_demand}
use arbokcore.World.{err}
use arbokcore.Prelude.{Text}

-- The loop stands at the send of `Demand`, to a full channel that nobody reads.
record IsBlocked (failed : Option Demand) (d e f : Demand) (answered : List Demand) (s : Pipeline)
    : Type 0 where
  gone : s.producer ≡ returned failed
  full : s.producer_chan ≡ some d
  held : s.loop ≡ demanding e
  last : s.demand_chan ≡ some f
  same : s.answered ≡ answered

module _ (failed : Option Demand) (d e f : Demand) (answered : List Demand) where
  receive_results-IsBlocked :
      (o : Option (List Payload)) (p : Producer) (s : Pipeline)
      → p ≡ returned failed
      → IsBlocked failed d e f answered s
      → Holds (IsBlocked failed d e f answered) (receive_results o p s)
  unfolding receive_results
  receive_results-IsBlocked (some payloads) p s g b = record {
    gone = b.gone;
    full = b.full;
    held = b.held;
    last = b.last;
    same = b.same;
  }
  receive_results-IsBlocked none (returned x) s g b = record {
    gone = b.gone;
    full = b.full;
    held = b.held;
    last = b.last;
    same = b.same;
  }
  receive_results-IsBlocked none ready s g b = tt
  receive_results-IsBlocked none (reading x) s g b = tt
  receive_results-IsBlocked none (sending x payloads) s g b = tt

  step-IsBlocked :
      (m : Move) (s : Pipeline)
      → IsBlocked failed d e f answered s
      → Holds (IsBlocked failed d e f answered) (step m s)
  unfolding step put_demand take_tick forward_demand send_demand next_demand read_payloads
      send_results receive_results stop_loop quit_producer
  step-IsBlocked (handle_demand g) s b = rw b.last tt
  step-IsBlocked tick s b = rw b.held tt
  step-IsBlocked forward s b = rw b.held tt
  step-IsBlocked demand s b = rw (b.held, b.full) tt
  step-IsBlocked take_demand s b = rw b.gone tt
  step-IsBlocked read s b = rw b.gone tt
  step-IsBlocked send s b = rw b.gone tt
  step-IsBlocked receive s b = receive_results-IsBlocked s.results s.producer s b.gone b
  step-IsBlocked cancel s b = record {
    gone = b.gone;
    full = b.full;
    held = b.held;
    last = b.last;
    same = b.same;
  }
  step-IsBlocked stop s b = rw b.held tt
  step-IsBlocked quit s b = rw b.gone tt
  step-IsBlocked (outside w) s b = record {
    gone = b.gone;
    full = b.full;
    held = b.held;
    last = b.last;
    same = b.same;
  }

-- The moves by which three more demands are accepted.
abbrev pub filling : Demand → Demand → Demand → List Move
filling d e f =
    handle_demand d ∷ forward ∷ demand ∷ handle_demand e ∷ forward ∷ handle_demand f ∷ []

-- One failed read of Redis stops the sync broker for good. From a state in which the producer reads
-- for a demand, the read fails, and no other demand is in line, three more demands can be accepted;
-- after that, whatever anyone does, no demand is answered, every further call of `HandleDemand`
-- waits, and the loop of `Start` stays at its send, also when its context is done, and never
-- stops the pool.
pub failed_read-stuck :
    (failed d e f : Demand) (moves : List Move) (s : Pipeline) {x : Text}
    → s.producer ≡ reading failed
    → (read_demand s.topic_name failed s.world).0 ≡ err x
    → s.ticking ≡ false
    → s.loop ≡ selecting
    → s.demand_chan ≡ none
    → s.producer_chan ≡ none
    → (u : Pipeline) × (steps (read ∷ filling d e f) s ≡ some u)
      × (u.accepted ≡ s.accepted ++ d ∷ e ∷ f ∷ [])
      × Holds
          (λ t.
            (t.answered ≡ s.answered)
            × (t.loop ≡ demanding e)
            × (step stop t ≡ none)
            × ((g : Demand) → step (handle_demand g) t ≡ none))
          (steps moves u)
unfolding step steps put_demand forward_demand send_demand read_payloads stop_loop
failed_read-stuck failed d e f moves s {x} reads fails calls free empty room =
    let u : Pipeline = record s {
      producer = returned (some failed);
      world = (read_demand s.topic_name failed s.world).1;
      producer_chan = some d;
      loop = demanding e;
      demand_chan = some f;
      accepted = s.accepted ++ d ∷ e ∷ f ∷ [];
    } in
    (
      u,
      ground (
        arith,
        append_assoc s.accepted (d ∷ []) (e ∷ []),
        append_assoc s.accepted (d ∷ e ∷ []) (f ∷ []),
      ),
      refl,
      Holds-map (IsBlocked (some failed) d e f s.answered) _ (steps moves u)
          (λ t b. (b.same, b.held, rw b.held refl, λ g. rw b.last refl))
          (steps-Holds (IsBlocked (some failed) d e f s.answered)
            (step-IsBlocked (some failed) d e f s.answered) moves u
            (record { gone = refl; full = refl; held = refl; last = refl; same = refl })),
    )
