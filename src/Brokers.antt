-- ===== src/Brokers.antt =====
-- pkg/brokers/sse_broker.go: the loop of `SSEBroker.Start`, one event at a time. A channel is a number,
-- in the order in which `Subscribe` makes them; the topics stand in the order in which `range`
-- visits them.
pub mod Safety
pub mod Channels
pub mod Clients
pub mod Demands
pub mod Sync
use arbokcore.Prelude.{
  ℕ, suc, Text, text, ◌==◌, eqb, Option, none, some, List, [], ◌∷◌, ◌++◌, Bool, true, false,
  if◌then◌else◌,
}

pub record Message : Type 0 where
  pub user_id : Text
  pub device_id : Text
  pub content : Text

-- `Message.Key`
abbrev pub message_key : Message → Text
message_key m = m.user_id ++ (b'_' ∷ m.device_id)

-- `topics` is the map from a channel to its topic's name; `closed` has the channels that were closed,
-- `done` the requests to unsubscribe that were answered, `sent` what each channel was sent, and
-- `made` counts the channels made.
pub record Broker : Type 0 where
  pub topics : List (ℕ × Text)
  pub closed : List ℕ
  pub done : List ℕ
  pub sent : List (ℕ × Message)
  pub made : ℕ

abbrev pub started : Broker
started = record { topics = []; closed = []; done = []; sent = []; made = 0 }

-- What the loop can receive next. A message is taken by its channel in time, or times out.
pub data Event : Type 0 where
  subscribe : Text → Event
  unsubscribe : ℕ → Event
  send_message : Message → Bool → Event

unfoldable pub is_topic : ℕ → List (ℕ × Text) → Bool
is_topic ch [] = false
is_topic ch ((c, name) ∷ topics) = let rest = is_topic ch topics in if eqb c ch then true else rest

unfoldable pub is_in : ℕ → List ℕ → Bool
is_in ch [] = false
is_in ch (c ∷ cs) = let rest = is_in ch cs in if eqb c ch then true else rest

unfoldable pub delete : ℕ → List (ℕ × Text) → List (ℕ × Text)
delete ch [] = []
delete ch ((c, name) ∷ topics) =
    let rest = delete ch topics in if eqb c ch then rest else (c, name) ∷ rest

unfoldable pub find_topic_by_name : List (ℕ × Text) → Text → Option ℕ
find_topic_by_name [] topic_name = none
find_topic_by_name ((ch, name) ∷ topics) topic_name =
    let rest = find_topic_by_name topics topic_name in if name == topic_name then some ch else rest

-- `Subscribe` and the broker's answer to it: a channel that is already there keeps its name.
unfoldable pub add_subscriber : ℕ → Text → Broker → Broker
add_subscriber ch name b =
    if is_topic ch b.topics then b else record b { topics = (ch, name) ∷ b.topics }

-- `close` panics at a channel that was closed (`none`).
unfoldable pub remove_subscriber : ℕ → Broker → Option Broker
remove_subscriber ch b =
    if is_topic ch b.topics
    then (if is_in ch b.closed
        then none
        else some
            (record b { topics = delete ch b.topics; closed = ch ∷ b.closed; done = ch ∷ b.done }))
    else some b

-- A send panics at a channel that was closed.
unfoldable pub deliver : Message → Bool → Option ℕ → Broker → Option Broker
deliver m taken none b = some b
deliver m taken (some ch) b =
    if is_in ch b.closed
    then none
    else some (if taken then record b { sent = b.sent ++ (ch, m) ∷ [] } else b)

unfoldable pub handle : Event → Broker → Option Broker
unfolding add_subscriber remove_subscriber deliver
handle (subscribe name) b = some (add_subscriber b.made name (record b { made = suc b.made }))
handle (unsubscribe ch) b = remove_subscriber ch b
handle (send_message m taken) b = deliver m taken (find_topic_by_name b.topics (message_key m)) b

unfoldable pub run : List Event → Broker → Option Broker
run [] b = some b
run (e ∷ es) b = elim (handle e b) [ none ↦ none | some b' ↦ run es b' ]
