-- ===== src/Brokers/Clients/Answers.antt =====
-- Which calls of Unsubscribe the broker answers.
use arbokcore.Prelude.{
  ℕ, Text, Option, none, some, Option-cases, List, [], ◌∷◌, Bool, true, Bool-cases, Holds,
  Holds-bind, Holds-both, subst, ◌≡◌, refl, ap, ◌∙◌, ◌⊎◌, inl, inr, arith,
}
use arbokcore.Brokers.{
  Message, message_key, Broker, subscribe, unsubscribe, send_message, is_topic, handle,
  find_topic_by_name, add_subscriber, deliver,
}
use arbokcore.Brokers.Clients.{
  Clients, Move, ask_subscribe, ask_unsubscribe, put_message, take_subscriber, take_unsubscribe,
  take_message, new_clients, is_made, put_subscriber, put_unsubscribe, put, with_broker, answer,
  subscriber_taken, unsubscribe_taken, message_taken, step, steps,
}
use arbokcore.Brokers.Safety.{IsOpen, started-IsOpen, handle-IsOpen}

abbrev pub asked : Option ℕ → List ℕ
asked none = []
asked (some ch) = ch ∷ []

-- Unsubscribe is called for channels that the broker has registered.
abbrev pub IsTimely : Move → Clients → Type 0
IsTimely (ask_subscribe name) s = Unit
IsTimely (ask_unsubscribe ch) s = is_topic ch s.broker.topics ≡ true
IsTimely (put_message m) s = Unit
IsTimely take_subscriber s = Unit
IsTimely take_unsubscribe s = Unit
IsTimely (take_message in_time) s = Unit

abbrev pub AllTimely : List Move → Clients → Type 0
AllTimely [] s = Unit
AllTimely (m ∷ ms) s = IsTimely m s × Holds (AllTimely ms) (step m s)

-- No call waits but the one that the loop has not taken, whose channel is registered.
pub record IsPrompt (s : Clients) : Type 0 where
  pub usable : IsOpen s.broker
  pub waiting : s.waiting ≡ asked s.unsubscribe_ch
  pub registered : (ch : ℕ) → s.unsubscribe_ch ≡ some ch → is_topic ch s.broker.topics ≡ true

is_topic-subscribe :
    (name : Text) (ch : ℕ) (b b' : Broker)
    → handle (subscribe name) b ≡ some b'
    → is_topic ch b.topics ≡ true
    → is_topic ch b'.topics ≡ true
unfolding handle add_subscriber is_topic
is_topic-subscribe name ch b b' h t = ground arith

is_topic-send_message :
    (m : Message) (in_time : Bool) (ch : ℕ) (b b' : Broker)
    → handle (send_message m in_time) b ≡ some b'
    → is_topic ch b.topics ≡ true
    → is_topic ch b'.topics ≡ true
unfolding handle deliver
is_topic-send_message m in_time ch b b' h t =
    elim (Option-cases (find_topic_by_name b.topics (message_key m))) [
      | inl e ↦ ground arith
      | inr (c, e) ↦ ground arith
    ]

subscriber_taken-IsPrompt : (s : Clients) → IsPrompt s → Holds IsPrompt (subscriber_taken s)
unfolding subscriber_taken with_broker
subscriber_taken-IsPrompt s p = elim (Option-cases s.subscriber_ch) [
  | inl e ↦ rw e tt
  | inr (name, e) ↦
      let (b', h, o) = handle-IsOpen (subscribe name) s.broker p.usable in
      rw (e, h)
        (record {
          usable = o;
          waiting = p.waiting;
          registered = λ ch q. is_topic-subscribe name ch s.broker b' h (p.registered ch q);
        })
]

message_taken-IsPrompt :
    (in_time : Bool) (s : Clients) → IsPrompt s → Holds IsPrompt (message_taken in_time s)
unfolding message_taken with_broker
message_taken-IsPrompt in_time s p = elim (Option-cases s.messages_ch) [
  | inl e ↦ rw e tt
  | inr (m, e) ↦
      let (b', h, o) = handle-IsOpen (send_message m in_time) s.broker p.usable in
      rw (e, h)
        (record {
          usable = o;
          waiting = p.waiting;
          registered = λ ch q. is_topic-send_message m in_time ch s.broker b' h (p.registered ch q);
        })
]

-- The call that the loop takes is answered.
unsubscribe_taken-answered :
    (ch : ℕ) (s : Clients)
    → IsPrompt s
    → s.unsubscribe_ch ≡ some ch
    → (s' : Clients) × (unsubscribe_taken s ≡ some s')
      × (s'.waiting ≡ [])
      × (s'.unsubscribe_ch ≡ none)
      × IsOpen s'.broker
unfolding unsubscribe_taken with_broker answer
unsubscribe_taken-answered ch s p e =
    let (b', h, o) = handle-IsOpen (unsubscribe ch) s.broker p.usable in
    let there = p.registered ch e in
    let alone = p.waiting in
    (record s { broker = b'; unsubscribe_ch = none; waiting = [] }, ground arith, refl, refl, o)

unsubscribe_taken-IsPrompt : (s : Clients) → IsPrompt s → Holds IsPrompt (unsubscribe_taken s)
unsubscribe_taken-IsPrompt s p = elim (Option-cases s.unsubscribe_ch) [
  | inl e ↦ unfold unsubscribe_taken in rw e tt
  | inr (ch, e) ↦
      let (s', h, w, n, o) = unsubscribe_taken-answered ch s p e in
      rw h (record { usable = o; waiting = rw (w, n) refl; registered = λ c q. ground arith })
]

step-IsPrompt : (m : Move) (s : Clients) → IsTimely m s → IsPrompt s → Holds IsPrompt (step m s)
unfolding step put_subscriber put_unsubscribe put
step-IsPrompt (ask_subscribe name) s t p = elim (Option-cases s.subscriber_ch) [
  | inl e ↦ rw e (record { usable = p.usable; waiting = p.waiting; registered = p.registered })
  | inr (other, e) ↦ rw e tt
]
step-IsPrompt (ask_unsubscribe ch) s t p = elim (Option-cases s.unsubscribe_ch) [
  | inl e ↦ elim (Bool-cases (is_made ch s)) [
    | inl made ↦
        rw (e, made)
          (record {
            usable = p.usable;
            waiting = ap (λ l. ch ∷ l) (p.waiting ∙ ap asked e);
            registered = λ c q. ground arith;
          })
    | inr unmade ↦ rw (e, unmade) tt
  ]
  | inr (other, e) ↦ rw e tt
]
step-IsPrompt (put_message m) s t p = elim (Option-cases s.messages_ch) [
  | inl e ↦ rw e (record { usable = p.usable; waiting = p.waiting; registered = p.registered })
  | inr (other, e) ↦ rw e tt
]
step-IsPrompt take_subscriber s t p = subscriber_taken-IsPrompt s p
step-IsPrompt take_unsubscribe s t p = unsubscribe_taken-IsPrompt s p
step-IsPrompt (take_message in_time) s t p = message_taken-IsPrompt in_time s p

steps-IsPrompt :
    (ms : List Move) (s : Clients) → AllTimely ms s → IsPrompt s → Holds IsPrompt (steps ms s)
unfolding steps
steps-IsPrompt [] s t p = p
steps-IsPrompt (m ∷ ms) s t p =
    Holds-bind (λ s'. AllTimely ms s' × IsPrompt s') IsPrompt (step m s) (steps ms)
      (λ s' b. steps-IsPrompt ms s' b.0 b.1)
      (Holds-both (AllTimely ms) IsPrompt (step m s) t.1 (step-IsPrompt m s t.0 p))

-- Unsubscribe gets its answer: in a state that a started broker and its clients reach, by moves in
-- any order among which Unsubscribe is called for registered channels only, the loop can go on
-- without a panic to a state in which no call of Unsubscribe waits.
pub unsubscribe-answered :
    (ms : List Move) (s : Clients)
    → steps ms new_clients ≡ some s
    → AllTimely ms new_clients
    → (s.waiting ≡ []) ⊎ ((s' : Clients) × (step take_unsubscribe s ≡ some s') × (s'.waiting ≡ []))
unfolding step
unsubscribe-answered ms s h t =
    let p : IsPrompt s = subst (Holds IsPrompt) h (
      steps-IsPrompt ms new_clients t
        (record { usable = started-IsOpen; waiting = refl; registered = λ ch q. ground arith })) in
    elim (Option-cases s.unsubscribe_ch) [
      | inl e ↦ inl (p.waiting ∙ ap asked e)
      | inr (ch, e) ↦ let (s', q, w, n, o) = unsubscribe_taken-answered ch s p e in inr (s', q, w)
    ]
