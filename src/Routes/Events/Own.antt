-- ===== src/Routes/Events/Own.antt =====
-- What a connection is told.
use arbokcore.Prelude.{
  ℕ, Text, some, List, [], ◌∷◌, ◌++◌, true, ◌≡◌, refl, sym, ap, ap₂, ◌∙◌, text, arith, suc,
  replicate,
}
use arbokcore.Brokers.{Message, Broker, started, Event, subscribe, run}
use arbokcore.Brokers.Channels.{is_plain, plain_users, sent_to, AllOf}
use arbokcore.Brokers.Channels.Own.{subscribed-own}
use arbokcore.Routes.Events.{
  Signal, request_done, received, channel_closed, ticked, Served, frame, serve, established,
  establish_connection,
}
use arbokcore.Supervisors.Producer.{Demand}
use arbokcore.Prelude.Int.{pos}
use mathlib.Core.List.{append_assoc}
use arbokcore.Tokens.{Token}

-- The messages that were received before the end of the request.
abbrev pub messages_of : List Signal → List Message
messages_of [] = []
messages_of (request_done ∷ signals) = []
messages_of (received m ∷ signals) = m ∷ messages_of signals
messages_of (channel_closed ∷ signals) = messages_of signals
messages_of (ticked ∷ signals) = messages_of signals

-- The line of one message, and an empty line after it.
abbrev pub message_frame : Message → Text
message_frame m =
    text "data: userID:"
    ++ (m.user_id
        ++ (text ",deviceID:" ++ (m.device_id ++ (text "," ++ (m.content ++ 10 ∷ 10 ∷ [])))))

frame-message_frame : (m : Message) → frame m.user_id m.device_id m.content ≡ message_frame m
frame-message_frame m =
    ap (λ s. text "data: userID:" ++ s)
      (append_assoc m.user_id (text ",deviceID:" ++ (m.device_id ++ (text "," ++ m.content)))
          (10 ∷ 10 ∷ [])
        ∙ ap (λ s. m.user_id ++ (text ",deviceID:" ++ s))
            (append_assoc m.device_id (text "," ++ m.content) (10 ∷ 10 ∷ [])))

-- What each tick asks for: one payload of the user.
abbrev pub one_of : Text → Demand
one_of user_id = record { count = pos 1; user_id = user_id }

-- The frames of messages, each with its own user and device.
abbrev pub frames : List Message → Text
frames [] = []
frames (m ∷ ms) = message_frame m ++ frames ms

serve-frames :
    (user_id device_id : Text) (signals : List Signal)
    → AllOf user_id device_id (messages_of signals)
    → (serve user_id device_id signals).body ≡ frames (messages_of signals)
unfolding serve
serve-frames user_id device_id [] h = refl
serve-frames user_id device_id (request_done ∷ signals) h = refl
serve-frames user_id device_id (received m ∷ signals) h =
    ap₂ ◌++◌ (ap₂ (λ u d. frame u d m.content) (sym h.0.0) (sym h.0.1) ∙ frame-message_frame m)
      (serve-frames user_id device_id signals h.1)
serve-frames user_id device_id (channel_closed ∷ signals) h =
    serve-frames user_id device_id signals h
serve-frames user_id device_id (ticked ∷ signals) h = serve-frames user_id device_id signals h

-- The ticks before the end of the request.
abbrev pub ticks_of : List Signal → ℕ
ticks_of [] = 0
ticks_of (request_done ∷ signals) = 0
ticks_of (received m ∷ signals) = ticks_of signals
ticks_of (channel_closed ∷ signals) = ticks_of signals
ticks_of (ticked ∷ signals) = suc (ticks_of signals)

serve-demands :
    (user_id device_id : Text) (signals : List Signal)
    → (serve user_id device_id signals).demands ≡ replicate (ticks_of signals) (one_of user_id)
unfolding serve
serve-demands user_id device_id [] = refl
serve-demands user_id device_id (request_done ∷ signals) = refl
serve-demands user_id device_id (received m ∷ signals) = serve-demands user_id device_id signals
serve-demands user_id device_id (channel_closed ∷ signals) = serve-demands user_id device_id signals
serve-demands user_id device_id (ticked ∷ signals) =
    ap (λ ds. one_of user_id ∷ ds) (serve-demands user_id device_id signals)

AllOf-prefix : (u d : Text) (ms rest : List Message) → AllOf u d (ms ++ rest) → AllOf u d ms
AllOf-prefix u d [] rest h = tt
AllOf-prefix u d (m ∷ ms) rest h = (h.0, AllOf-prefix u d ms rest h.1)

-- A connection is told of its own user's and device's files only. With a token, for any events at the
-- broker before the subscription to its topic and after it, where what it receives before the end of
-- the request are the first of the messages that its channel is sent, these are all of the token's
-- user and of the request's device; the response is the sequence of them, in order, each in a frame
-- with the message's own user and device; and each tick demands one payload of that user. No user's
-- id in question may contain the sign that stands between the two in the name of a topic.
pub establish_connection-own :
    (token : Token) (device_id : Text) (signals : List Signal) (before after : List Event)
    {b c : Broker} {topic_name : Text} {served : Served} (rest : List Message)
    → is_plain token.resource_id ≡ true
    → plain_users after ≡ true
    → establish_connection (some token) device_id signals ≡ established topic_name served
    → run before started ≡ some b
    → run (subscribe topic_name ∷ after) b ≡ some c
    → sent_to b.made c.sent ≡ messages_of signals ++ rest
    → AllOf token.resource_id device_id (messages_of signals)
      × (served.body ≡ frames (messages_of signals))
      × (served.demands ≡ replicate (ticks_of signals) (one_of token.resource_id))
unfolding establish_connection
establish_connection-own token device_id signals before after {b} {c} {topic_name} {served} rest p q
      s e f g =
    let name : topic_name ≡ token.resource_id ++ b'_' ∷ device_id = ground (arith, s) in
    let body : served ≡ serve token.resource_id device_id signals = ground (arith, s) in
    let own = subscribed-own token.resource_id device_id before after p q e (rw name at f) in
    let told = AllOf-prefix token.resource_id device_id (messages_of signals) rest (rw g at own) in
    (
      told,
      rw body (serve-frames token.resource_id device_id signals told),
      rw body (serve-demands token.resource_id device_id signals),
    )
