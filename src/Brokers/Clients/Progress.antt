-- ===== src/Brokers/Clients/Progress.antt =====
-- The loop never panics, whatever its clients do.
use arbokcore.Prelude.{
  Option, none, some, Option-cases, List, [], ◌∷◌, Bool, Bool-cases, if◌then◌else◌, Holds,
  Holds-bind, subst, ◌≡◌, ◌≢◌, refl, inl, inr, arith,
}
use arbokcore.Brokers.{Event, subscribe, unsubscribe, send_message, is_topic, handle}
use arbokcore.Brokers.Clients.{
  Clients, Move, ask_subscribe, ask_unsubscribe, put_message, take_subscriber, take_unsubscribe,
  take_message, new_clients, is_made, put_subscriber, put_unsubscribe, put, with_broker, answer,
  subscriber_taken, unsubscribe_taken, message_taken, step, steps,
}
use arbokcore.Brokers.Safety.{IsOpen, started-IsOpen, handle-IsOpen}

abbrev pub HasOpen : Clients → Type 0
HasOpen s = IsOpen s.broker

-- The loop handles an event without a panic.
handled :
    (e : Event) (s t : Clients)
    → HasOpen s
    → (t' : Clients) × (with_broker (handle e s.broker) t ≡ some t') × HasOpen t'
unfolding with_broker
handled e s t o =
    let (b, h, o') = handle-IsOpen e s.broker o in (record t { broker = b }, rw h refl, o')

-- What is in the channels of the loop, it takes without a panic.
pub record GoesOn (s : Clients) : Type 0 where
  pub subscribes :
      s.subscriber_ch ≢ none → (t : Clients) × (step take_subscriber s ≡ some t) × HasOpen t
  pub unsubscribes :
      s.unsubscribe_ch ≢ none → (t : Clients) × (step take_unsubscribe s ≡ some t) × HasOpen t
  pub sends :
      (in_time : Bool)
      → s.messages_ch ≢ none
      → (t : Clients) × (step (take_message in_time) s ≡ some t) × HasOpen t

HasOpen-GoesOn : (s : Clients) → HasOpen s → GoesOn s
unfolding step subscriber_taken unsubscribe_taken message_taken
HasOpen-GoesOn s o = record {
  subscribes = λ full. elim (Option-cases s.subscriber_ch) [
    | inl e ↦ absurd (full e)
    | inr (name, e) ↦
        let (t, h, o') = handled (subscribe name) s (record s { subscriber_ch = none }) o in
        (t, ground arith, o')
  ];
  unsubscribes = λ full. elim (Option-cases s.unsubscribe_ch) [
    | inl e ↦ absurd (full e)
    | inr (ch, e) ↦
        let (t, h, o') =
          handled (unsubscribe ch) s
            (record s {
              unsubscribe_ch = none;
              waiting = if is_topic ch s.broker.topics then answer ch s.waiting else s.waiting;
            })
            o in
        (t, ground arith, o')
  ];
  sends = λ in_time full. elim (Option-cases s.messages_ch) [
    | inl e ↦ absurd (full e)
    | inr (m, e) ↦
        let (t, h, o') = handled (send_message m in_time) s (record s { messages_ch = none }) o in
        (t, ground arith, o')
  ];
}

-- A channel with something in it, or an empty one, from which nothing is taken.
taken-HasOpen : {o : Option Clients} → (t : Clients) × (o ≡ some t) × HasOpen t → Holds HasOpen o
taken-HasOpen (t, h, p) = rw h p

step-HasOpen : (m : Move) (s : Clients) → HasOpen s → Holds HasOpen (step m s)
unfolding step put_subscriber put_unsubscribe put
step-HasOpen (ask_subscribe name) s o = elim (Option-cases s.subscriber_ch) [
  | inl e ↦ rw e o
  | inr (other, e) ↦ rw e tt
]
step-HasOpen (ask_unsubscribe ch) s o = elim (Option-cases s.unsubscribe_ch) [
  | inl e ↦ elim (Bool-cases (is_made ch s)) [
    | inl made ↦ rw (e, made) o
    | inr unmade ↦ rw (e, unmade) tt
  ]
  | inr (other, e) ↦ rw e tt
]
step-HasOpen (put_message m) s o = elim (Option-cases s.messages_ch) [
  | inl e ↦ rw e o
  | inr (other, e) ↦ rw e tt
]
step-HasOpen take_subscriber s o = elim (Option-cases s.subscriber_ch) [
  | inl e ↦ unfold subscriber_taken in rw e tt
  | inr (name, e) ↦ taken-HasOpen ((HasOpen-GoesOn s o).subscribes (λ n. ground arith))
]
step-HasOpen take_unsubscribe s o = elim (Option-cases s.unsubscribe_ch) [
  | inl e ↦ unfold unsubscribe_taken in rw e tt
  | inr (ch, e) ↦ taken-HasOpen ((HasOpen-GoesOn s o).unsubscribes (λ n. ground arith))
]
step-HasOpen (take_message in_time) s o = elim (Option-cases s.messages_ch) [
  | inl e ↦ unfold message_taken in rw e tt
  | inr (m, e) ↦ taken-HasOpen ((HasOpen-GoesOn s o).sends in_time (λ n. ground arith))
]

steps-HasOpen : (ms : List Move) (s : Clients) → HasOpen s → Holds HasOpen (steps ms s)
unfolding steps
steps-HasOpen [] s o = o
steps-HasOpen (m ∷ ms) s o =
    Holds-bind HasOpen HasOpen (step m s) (steps ms) (steps-HasOpen ms) (step-HasOpen m s o)

-- The loop of a started broker never panics, whatever its clients do and in whatever order: in every
-- state that they reach, it can take what is in each of its channels, and after that, as before, the
-- channels that are registered are open. It neither sends to a closed channel nor closes one twice.
pub steps-GoesOn :
    (ms : List Move) (s : Clients) → steps ms new_clients ≡ some s → HasOpen s × GoesOn s
steps-GoesOn ms s h =
    let o : HasOpen s = subst (Holds HasOpen) h (steps-HasOpen ms new_clients started-IsOpen) in
    (o, HasOpen-GoesOn s o)
