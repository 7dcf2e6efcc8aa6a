-- ===== src/Examples/Streaming.antt =====
-- The way of a demand, the stream of a connection and the statements of a file, on small inputs.
use arbokcore.Prelude.{
  ◌≤◌, ◌+◌, ◌==◌, Text, text, none, some, List, [], ◌∷◌, ◌++◌, true, false, length, replicate,
  lookup, strip_prefix, Holds, ◌≡◌, refl,
}
use arbokcore.Prelude.Int.{pos}
use arbokcore.Brokers.{
  Message, Broker, started, Event, subscribe, send_message, run, handle, is_topic,
  find_topic_by_name, is_in,
}
use arbokcore.Brokers.Channels.{AllOf}
use arbokcore.Brokers.Demands.{
  Pipeline, new_pipeline, Move, handle_demand, forward, demand, take_demand, read, send, receive,
  cancel, stop, demanding, reading, step, steps,
}
use arbokcore.Brokers.Demands.Order.{in_line, accepted-answered}
use arbokcore.Brokers.Demands.Progress.{is_own, is_returned}
use arbokcore.Brokers.Demands.Rest.{own_moves-answer}
use arbokcore.Brokers.Demands.Stuck.{filling, failed_read-stuck}
use arbokcore.Queries.{find_config, matched, find_name, is_name, hydrate_query_store}
use arbokcore.Queries.Stored.{Statement, dashed, parts_of, stored, hydrate_query_store-stored}
use arbokcore.Queuer.{read_msg, metadata_update_clients_notifier_queue}
use arbokcore.Routes.Events.{
  Signal, request_done, received, ticked, Served, frame, demand_for, serve, establish_connection,
}
use arbokcore.Routes.Events.Own.{messages_of, frames, ticks_of, establish_connection-own}
use arbokcore.Supervisors.Producer.{Demand, read_times, read_demand}
use arbokcore.World.{value}
use arbokcore.Examples.Data.{calm, answering, stream_row}

abbrev one : Demand
one = demand_for (text "ann")

abbrev two : Demand
two = record { count = pos 2; user_id = text "ann" }

abbrev empty : Pipeline
empty = new_pipeline metadata_update_clients_notifier_queue false calm

-- One demand is answered while another one waits.
abbrev moves : List Move
moves = handle_demand one ∷ forward ∷ demand ∷ take_demand ∷ read ∷ send ∷ handle_demand two ∷ []

abbrev waiting : Pipeline
waiting = record empty {
  demand_chan = some two;
  results = some [];
  accepted = one ∷ two ∷ [];
  answered = one ∷ [];
}

accepted-answered_example :
    (waiting.accepted ≡ waiting.answered ++ in_line waiting)
    × (length waiting.accepted ≤ length waiting.answered + 4)
unfolding steps step read_demand read_times read_msg lookup
accepted-answered_example =
    accepted-answered metadata_update_clients_notifier_queue false calm moves {s = waiting} refl

-- The moves that are left for it.
abbrev rest_moves : List Move
rest_moves = receive ∷ forward ∷ demand ∷ take_demand ∷ read ∷ send ∷ receive ∷ []

abbrev rested : Pipeline
rested = record waiting {
  demand_chan = none;
  results = none;
  answered = one ∷ two ∷ [];
  received = [] ∷ [] ∷ [];
}

rested-quiet : (m : Move) → is_own m ≡ true → step m rested ≡ none
unfolding step
rested-quiet forward h = refl
rested-quiet demand h = refl
rested-quiet take_demand h = refl
rested-quiet read h = refl
rested-quiet send h = refl
rested-quiet receive h = refl
rested-quiet _ h = cc

own_moves-answer_example :
    (length rest_moves ≤ 19)
    × (rested.answered ≡ waiting.accepted)
    × (rested.results ≡ none)
    × (is_returned rested.producer ≡ false)
unfolding steps step read_demand read_times read_msg lookup
own_moves-answer_example =
    own_moves-answer metadata_update_clients_notifier_queue false calm moves rest_moves
      {s = waiting} {t = rested} refl refl refl refl
      (refl, (refl, (refl, (refl, (refl, (refl, (refl, tt))))))) refl rested-quiet

-- A producer whose next read fails.
abbrev failing : Pipeline
failing = record empty {
  producer = reading one;
  accepted = one ∷ [];
  world = answering (some (text "timeout") ∷ []);
}

failed_read-stuck_example :
    (u : Pipeline) × (steps (read ∷ filling one two one) failing ≡ some u)
    × (u.accepted ≡ failing.accepted ++ one ∷ two ∷ one ∷ [])
    × Holds
        (λ t.
          (t.answered ≡ failing.answered)
          × (t.loop ≡ demanding two)
          × (step stop t ≡ none)
          × ((g : Demand) → step (handle_demand g) t ≡ none))
        (steps (cancel ∷ receive ∷ []) u)
unfolding read_demand read_times read_msg
failed_read-stuck_example =
    failed_read-stuck one one two one (cancel ∷ receive ∷ []) failing {x = text "timeout"} refl refl
      refl refl refl refl

abbrev for_device : Text → Message
for_device device_id = record {
  user_id = text "v1";
  device_id = device_id;
  content = text "fileID:v2";
}

abbrev before : List Event
before = subscribe (text "v1_2") ∷ []

abbrev after : List Event
after = send_message (for_device (text "1")) true ∷ send_message (for_device (text "2")) true ∷ []

abbrev first_open : Broker
first_open = record started { topics = (0, text "v1_2") ∷ []; made = 1 }

abbrev both_sent : Broker
both_sent = record first_open {
  topics = (1, text "v1_1") ∷ (0, text "v1_2") ∷ [];
  made = 2;
  sent = (1, for_device (text "1")) ∷ (0, for_device (text "2")) ∷ [];
}

abbrev signals : List Signal
signals = ticked ∷ received (for_device (text "1")) ∷ request_done ∷ []

abbrev told : Served
told = record {
  body = frame (text "v1") (text "1") (text "fileID:v2");
  demands = demand_for (text "v1") ∷ [];
  status = some 408;
  unsubscribed = true;
}

establish_connection-own_example :
    AllOf (text "v1") (text "1") (messages_of signals)
    × (told.body ≡ frames (messages_of signals))
    × (told.demands ≡ replicate (ticks_of signals) (demand_for (text "v1")))
unfolding establish_connection serve run handle is_topic find_topic_by_name ◌==◌ is_in
establish_connection-own_example =
    establish_connection-own stream_row (text "1") signals before after {b = first_open}
      {c = both_sent} {topic_name = text "v1_1"} {served = told} [] refl refl refl refl refl refl

-- A file with two statements, the second with a comment inside.
abbrev statements : List Statement
statements =
    record { name = text "FindBy"; body = text " SELECT 1; "; comments = [] }
    ∷ record { name = text "Count"; body = text " SELECT 2 "; comments = text " the rest" ∷ [] }
    ∷ []

hydrate_query_store-stored_example :
    hydrate_query_store
      (λ path. value (dashed (parts_of statements)))
      (record { table = text "users"; query_file_paths = text "q.sql" ∷ [] } ∷ [])
      (text "users")
    ≡ value (stored statements [])
unfolding ◌==◌ find_config matched find_name is_name strip_prefix
hydrate_query_store-stored_example =
    hydrate_query_store-stored (λ path. value (dashed (parts_of statements)))
      (record { table = text "users"; query_file_paths = text "q.sql" ∷ [] } ∷ []) (text "users")
      (text "q.sql") [] statements refl refl refl
      (
        record { some_name = refl; named = refl; plain_body = (refl, refl); plain_comments = tt },
        (
          record {
            some_name = refl;
            named = refl;
            plain_body = (refl, refl);
            plain_comments = ((refl, refl), tt);
          },
          tt,
        ),
      )
