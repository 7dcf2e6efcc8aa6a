-- ===== src/Brokers/Clients.antt =====
-- pkg/brokers/sse_broker.go: the calls of Subscribe, Unsubscribe and SendMessage beside the loop of
-- Start, as moves of one state. The loop may take from any of its channels that has something.
pub mod Answers
pub mod Early
pub mod Progress
use arbokcore.Prelude.{
  ℕ, ◌==◌, eqb, ltb, Text, Option, none, some, Option-cases, List, [], ◌∷◌, Bool, true, false, ◌||◌,
  ◌&&◌, if◌then◌else◌, is_some,
}
use arbokcore.Brokers.{
  Message, Broker, started, Event, subscribe, unsubscribe, send_message, is_topic, handle,
}

-- What is in the channels of the broker, each of which holds one value; `waiting` has the channels
-- whose Unsubscribe waits for its answer. A channel that Subscribe has made gets its number, the
-- next one, when the loop takes it.
pub record Clients : Type 0 where
  pub broker : Broker
  pub subscriber_ch : Option Text
  pub unsubscribe_ch : Option ℕ
  pub messages_ch : Option Message
  pub waiting : List ℕ

-- A message that waits for more than nine seconds is dropped by SendMessage, and is no move.
pub data Move : Type 0 where
  ask_subscribe : Text → Move
  ask_unsubscribe : ℕ → Move
  put_message : Message → Move
  take_subscriber : Move
  take_unsubscribe : Move
  take_message : Bool → Move

abbrev pub new_clients : Clients
new_clients = record {
  broker = started;
  subscriber_ch = none;
  unsubscribe_ch = none;
  messages_ch = none;
  waiting = [];
}

-- The channel has been made.
unfoldable pub is_made : ℕ → Clients → Bool
is_made ch s = ltb ch s.broker.made || (eqb ch s.broker.made && is_some s.subscriber_ch)

unfoldable pub put_subscriber : Text → Clients → Option Clients
put_subscriber name s = elim s.subscriber_ch [
  | none ↦ some (record s { subscriber_ch = some name })
  | some other ↦ none
]

unfoldable pub put_unsubscribe : ℕ → Clients → Option Clients
unfolding is_made
put_unsubscribe ch s = elim s.unsubscribe_ch [
  | none ↦
      if is_made ch s
      then some (record s { unsubscribe_ch = some ch; waiting = ch ∷ s.waiting })
      else none
  | some other ↦ none
]

unfoldable pub put : Message → Clients → Option Clients
put m s = elim s.messages_ch [ none ↦ some (record s { messages_ch = some m }) | some other ↦ none ]

-- The state after the loop has handled an event; a panic is `none`.
unfoldable pub with_broker : Option Broker → Clients → Option Clients
with_broker none s = none
with_broker (some b) s = some (record s { broker = b })

-- One call for the channel has its answer.
unfoldable pub answer : ℕ → List ℕ → List ℕ
answer ch [] = []
answer ch (c ∷ cs) = let rest = answer ch cs in if eqb c ch then cs else c ∷ rest

unfoldable pub subscriber_taken : Clients → Option Clients
unfolding with_broker
subscriber_taken s = elim s.subscriber_ch [
  | none ↦ none
  | some name ↦ with_broker (handle (subscribe name) s.broker) (record s { subscriber_ch = none })
]

-- The loop answers a call only where the channel is registered.
unfoldable pub unsubscribe_taken : Clients → Option Clients
unfolding with_broker answer
unsubscribe_taken s = elim s.unsubscribe_ch [
  | none ↦ none
  | some ch ↦ with_broker (handle (unsubscribe ch) s.broker) (record s {
    unsubscribe_ch = none;
    waiting = if is_topic ch s.broker.topics then answer ch s.waiting else s.waiting;
  })
]

unfoldable pub message_taken : Bool → Clients → Option Clients
unfolding with_broker
message_taken in_time s = elim s.messages_ch [
  | none ↦ none
  | some m ↦
      with_broker (handle (send_message m in_time) s.broker) (record s { messages_ch = none })
]

-- `none` where the move is blocked, or panics.
unfoldable pub step : Move → Clients → Option Clients
unfolding put_subscriber put_unsubscribe put subscriber_taken unsubscribe_taken message_taken
step (ask_subscribe name) s = put_subscriber name s
step (ask_unsubscribe ch) s = put_unsubscribe ch s
step (put_message m) s = put m s
step take_subscriber s = subscriber_taken s
step take_unsubscribe s = unsubscribe_taken s
step (take_message in_time) s = message_taken in_time s

unfoldable pub steps : List Move → Clients → Option Clients
steps [] s = some s
steps (m ∷ ms) s = elim (step m s) [ none ↦ none | some s' ↦ steps ms s' ]
