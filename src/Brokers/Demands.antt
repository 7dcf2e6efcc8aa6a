-- ===== src/Brokers/Demands.antt =====
-- The way of a demand: `HandleDemand` and the loop of `Start` of pkg/brokers/metadata_sync_broker.go, the
-- loop of `MetadataSupervisor` of core/supervisors/metadata.changelog.go, and `Demand` and the
-- goroutine of `Produce` of core/supervisors/metadata.notifier.go, as the moves of one state, in any
-- order. All channels hold one value.
pub mod Order
pub mod Progress
pub mod Rest
pub mod Stuck
use arbokcore.Prelude.{
  ℕ, Text, text, Option, none, some, List, [], ◌∷◌, ◌++◌, Bool, true, false, if◌then◌else◌, Holds,
  Holds-bind,
}
use arbokcore.Prelude.Int.{pos}
use arbokcore.Queuer.{Payload}
use arbokcore.Supervisors.Producer.{Demand, read_demand}
use arbokcore.World.{World, Outcome, ok, err, panic}

-- Where the loop of `Start` stands: in its select, at the send of `Demand`, or in `pool.Stop`.
pub data Loop : Type 0 where
  selecting : Loop
  demanding : Demand → Loop
  stopping : Loop

-- Where the goroutine of `Produce` stands: in its select, in the reads for a demand, at the send of
-- what it read, or after its return, which closed the channel of the results, with the demand at
-- which a read has failed, if one has.
pub data Producer : Type 0 where
  ready : Producer
  reading : Demand → Producer
  sending : Demand → List Payload → Producer
  returned : Option Demand → Producer

-- `ticking` says that the loop is that of `MetadataSupervisor`, whose demands come from a ticker and
-- not from `HandleDemand`. `accepted` has the demands whose `HandleDemand` has returned, or which
-- the ticker has made; `answered` has those whose payloads were sent, and `received` these payloads.
pub record Pipeline : Type 0 where
  pub topic_name : Text
  pub ticking : Bool
  pub demand_chan : Option Demand
  pub loop : Loop
  pub producer_chan : Option Demand
  pub producer : Producer
  pub results : Option (List Payload)
  pub canceled : Bool
  pub accepted : List Demand
  pub answered : List Demand
  pub received : List (List Payload)
  pub world : World

abbrev pub new_pipeline : Text → Bool → World → Pipeline
new_pipeline topic_name ticking w = record {
  topic_name = topic_name;
  ticking = ticking;
  demand_chan = none;
  loop = selecting;
  producer_chan = none;
  producer = ready;
  results = none;
  canceled = false;
  accepted = [];
  answered = [];
  received = [];
  world = w;
}

-- `outside` is all that others do to Redis and the tables in the meantime.
pub data Move : Type 0 where
  handle_demand : Demand → Move
  tick : Move
  forward : Move
  demand : Move
  take_demand : Move
  read : Move
  send : Move
  receive : Move
  cancel : Move
  stop : Move
  quit : Move
  outside : World → Move

-- `producer.Demand(1)`
abbrev pub one_payload : Demand
one_payload = record { count = pos 1; user_id = [] }

-- `slf.demandChan <- demand`, which waits while the channel is full.
unfoldable pub put_demand : Demand → Option Demand → Pipeline → Option Pipeline
put_demand d none s =
    if s.ticking
    then none
    else some (record s { demand_chan = some d; accepted = s.accepted ++ d ∷ [] })
put_demand d (some other) s = none

-- `case <-ticker.C` of `MetadataSupervisor`.
unfoldable pub take_tick : Loop → Pipeline → Option Pipeline
take_tick selecting s =
    if s.ticking
    then some (record s { loop = demanding one_payload; accepted = s.accepted ++ one_payload ∷ [] })
    else none
take_tick (demanding d) s = none
take_tick stopping s = none

-- `case demand, ok := <-slf.demandChan` of `Start`.
unfoldable pub forward_demand : Loop → Option Demand → Pipeline → Option Pipeline
forward_demand selecting (some d) s = some (record s { loop = demanding d; demand_chan = none })
forward_demand selecting none s = none
forward_demand (demanding d) o s = none
forward_demand stopping o s = none

-- `slf.demand <- val`, which waits while the channel is full.
unfoldable pub send_demand : Loop → Option Demand → Pipeline → Option Pipeline
send_demand (demanding d) none s = some (record s { loop = selecting; producer_chan = some d })
send_demand (demanding d) (some other) s = none
send_demand selecting o s = none
send_demand stopping o s = none

-- `case d := <-slf.demand`
unfoldable pub next_demand : Producer → Option Demand → Pipeline → Option Pipeline
next_demand ready (some d) s = some (record s { producer = reading d; producer_chan = none })
next_demand ready none s = none
next_demand (reading d) o s = none
next_demand (sending d payloads) o s = none
next_demand (returned failed) o s = none

unfoldable pub after_read : Demand → Outcome (List Payload) × World → Pipeline → Option Pipeline
after_read d (ok payloads, w) s = some (record s { producer = sending d payloads; world = w })
after_read d (err e, w) s = some (record s { producer = returned (some d); world = w })
after_read d (panic, w) s = none

-- The loop of reads, which returns at an error.
unfoldable pub read_payloads : Producer → Pipeline → Option Pipeline
unfolding after_read
read_payloads (reading d) s = after_read d (read_demand s.topic_name d s.world) s
read_payloads ready s = none
read_payloads (sending d payloads) s = none
read_payloads (returned failed) s = none

-- `resultsCh <- results`
unfoldable pub send_results : Producer → Option (List Payload) → Pipeline → Option Pipeline
send_results (sending d payloads) none s =
    some (record s { producer = ready; results = some payloads; answered = s.answered ++ d ∷ [] })
send_results (sending d payloads) (some other) s = none
send_results ready o s = none
send_results (reading d) o s = none
send_results (returned failed) o s = none

-- The dispatcher's receive, which a closed channel answers at once with nothing.
unfoldable pub receive_results : Option (List Payload) → Producer → Pipeline → Option Pipeline
receive_results (some payloads) p s =
    some (record s { results = none; received = s.received ++ payloads ∷ [] })
receive_results none (returned failed) s = some (record s { received = s.received ++ [] ∷ [] })
receive_results none ready s = none
receive_results none (reading d) s = none
receive_results none (sending d payloads) s = none

-- `case <-ctx.Done()` of the loop, and of `Produce`.
unfoldable pub stop_loop : Loop → Pipeline → Option Pipeline
stop_loop selecting s = if s.canceled then some (record s { loop = stopping }) else none
stop_loop (demanding d) s = none
stop_loop stopping s = none

unfoldable pub quit_producer : Producer → Pipeline → Option Pipeline
quit_producer ready s = if s.canceled then some (record s { producer = returned none }) else none
quit_producer (reading d) s = none
quit_producer (sending d payloads) s = none
quit_producer (returned failed) s = none

-- A move of one goroutine, `none` where it has to wait.
unfoldable pub step : Move → Pipeline → Option Pipeline
unfolding put_demand take_tick forward_demand send_demand next_demand read_payloads send_results
    receive_results stop_loop quit_producer
step (handle_demand d) s = put_demand d s.demand_chan s
step tick s = take_tick s.loop s
step forward s = forward_demand s.loop s.demand_chan s
step demand s = send_demand s.loop s.producer_chan s
step take_demand s = next_demand s.producer s.producer_chan s
step read s = read_payloads s.producer s
step send s = send_results s.producer s.results s
step receive s = receive_results s.results s.producer s
step cancel s = some (record s { canceled = true })
step stop s = stop_loop s.loop s
step quit s = quit_producer s.producer s
step (outside w) s = some (record s { world = w })

-- A run of moves, `none` if one of them has to wait.
unfoldable pub steps : List Move → Pipeline → Option Pipeline
steps [] s = some s
steps (m ∷ moves) s = elim (step m s) [ none ↦ none | some t ↦ steps moves t ]

-- What every move keeps holds after a run.
pub steps-Holds {ℓ} :
    (P : Pipeline → Type ℓ)
    → ((m : Move) (s : Pipeline) → P s → Holds P (step m s))
    → (moves : List Move) (s : Pipeline) → P s
    → Holds P (steps moves s)
unfolding steps
steps-Holds P keep [] s h = h
steps-Holds P keep (m ∷ moves) s h =
    Holds-bind P P (step m s) (steps moves) (steps-Holds P keep moves) (keep m s h)
