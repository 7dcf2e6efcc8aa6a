-- ===== src/Routes/Events.antt =====
-- web/routes/ssehandler.go: the stream of events of one connection.
pub mod Own
use arbokcore.Prelude.{ℕ, Text, text, Option, none, some, List, [], ◌∷◌, ◌++◌, Bool, true, false}
use arbokcore.Prelude.Int.{pos}
use arbokcore.Brokers.{Message}
use arbokcore.Supervisors.Producer.{Demand}
use arbokcore.Tokens.{Token}

-- What the select of `EstablishConnection` can choose: the end of the request's context, a message or
-- the end of the channel, and the ticker.
pub data Signal : Type 0 where
  request_done : Signal
  received : Message → Signal
  channel_closed : Signal
  ticked : Signal

-- What was written to the response, the demands that were handed to the sync broker, the status of
-- the answer, if the loop has come to it, and whether the deferred call of `Unsubscribe` was made.
pub record Served : Type 0 where
  pub body : Text
  pub demands : List Demand
  pub status : Option ℕ
  pub unsubscribed : Bool

abbrev newline : Text
newline = 10 ∷ []

-- `fmt.Fprintf(w, "data: %s\n\n", sseData)`
abbrev pub frame : Text → Text → Text → Text
frame user_id device_id content =
    text "data: "
    ++ ((text "userID:" ++ (user_id ++ (text ",deviceID:" ++ (device_id ++ (text "," ++ content)))))
        ++ (newline ++ newline))

abbrev pub demand_for : Text → Demand
demand_for user_id = record { count = pos 1; user_id = user_id }

unfoldable pub serve : Text → Text → List Signal → Served
serve user_id device_id [] = record { body = []; demands = []; status = none; unsubscribed = false }
serve user_id device_id (request_done ∷ signals) = record {
  body = [];
  demands = [];
  status = some 408;
  unsubscribed = true;
}
serve user_id device_id (received m ∷ signals) =
    let later = serve user_id device_id signals in
    record later { body = frame user_id device_id m.content ++ later.body }
serve user_id device_id (channel_closed ∷ signals) = serve user_id device_id signals
serve user_id device_id (ticked ∷ signals) =
    let later = serve user_id device_id signals in
    record later { demands = demand_for user_id ∷ later.demands }

-- The topic to which the connection subscribes, if it does.
pub data Connection : Type 0 where
  refused : ℕ → Connection
  established : Text → Served → Connection

unfoldable pub establish_connection : Option Token → Text → List Signal → Connection
establish_connection none device_id signals = refused 401
establish_connection (some token) device_id signals =
    established (token.resource_id ++ b'_' ∷ device_id) (serve token.resource_id device_id signals)
