-- ===== src/Examples/Clients.antt =====
-- A user who opens a stream of events and leaves it, in time and too early.
use arbokcore.Prelude.{text, none, some, List, [], ◌∷◌, true, ◌⊎◌, ◌≡◌, refl, ◌==◌}
use arbokcore.Brokers.{Message, is_topic, is_in, find_topic_by_name, handle}
use arbokcore.Brokers.Clients.{
  Clients, Move, ask_subscribe, ask_unsubscribe, put_message, take_subscriber, take_unsubscribe,
  take_message, new_clients, step, steps,
}
use arbokcore.Brokers.Clients.Answers.{unsubscribe-answered}
use arbokcore.Brokers.Clients.Progress.{HasOpen, GoesOn, steps-GoesOn}
use arbokcore.Brokers.Clients.Early.{unsubscribe_early-waits}

abbrev message : Message
message = record { user_id = text "ann"; device_id = text "1"; content = text "hi" }

abbrev timely : List Move
timely =
    ask_subscribe (text "ann_1")
    ∷ put_message message
    ∷ take_subscriber
    ∷ ask_unsubscribe 0
    ∷ take_message true
    ∷ []

-- The state after these moves.
abbrev leaving : Clients
leaving = record {
  broker = record {
    topics = (0, text "ann_1") ∷ [];
    closed = [];
    done = [];
    sent = (0, message) ∷ [];
    made = 1;
  };
  subscriber_ch = none;
  unsubscribe_ch = some 0;
  messages_ch = none;
  waiting = 0 ∷ [];
}

unsubscribe-answered_example :
    (leaving.waiting ≡ [])
    ⊎ ((s' : Clients) × (step take_unsubscribe leaving ≡ some s') × (s'.waiting ≡ []))
unfolding steps step handle is_topic find_topic_by_name ◌==◌ is_in
unsubscribe-answered_example =
    unsubscribe-answered timely leaving refl (tt, (tt, (tt, (refl, (tt, tt)))))

steps-GoesOn_example : HasOpen leaving × GoesOn leaving
unfolding steps step handle is_topic find_topic_by_name ◌==◌ is_in
steps-GoesOn_example = steps-GoesOn timely leaving refl

-- The channel of the stream is made, and not registered.
abbrev opening : Clients
opening = record (new_clients) { subscriber_ch = some (text "ann_1") }

abbrev afterwards : Clients
afterwards = record {
  broker = record {
    topics = (0, text "ann_1") ∷ [];
    closed = [];
    done = [];
    sent = (0, message) ∷ [];
    made = 1;
  };
  subscriber_ch = none;
  unsubscribe_ch = none;
  messages_ch = none;
  waiting = 0 ∷ [];
}

unsubscribe_early-waits_example : is_in 0 afterwards.waiting ≡ true
unfolding steps step handle is_topic find_topic_by_name ◌==◌ is_in
unsubscribe_early-waits_example =
    unsubscribe_early-waits 0 (take_subscriber ∷ put_message message ∷ take_message true ∷ [])
      opening afterwards refl refl refl refl refl
