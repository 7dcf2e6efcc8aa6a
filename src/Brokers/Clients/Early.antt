-- ===== src/Brokers/Clients/Early.antt =====
-- The call of Unsubscribe that overtakes its own Subscribe.
use arbokcore.Prelude.{
  ℕ, eqb, Option, none, some, Option-cases, List, [], ◌∷◌, Bool, true, false, Bool-cases, ◌||◌,
  if◌then◌else◌, Holds, Holds-bind, subst, ◌≡◌, ◌≢◌, refl, sym, ◌∙◌, inl, inr, arith,
}
use arbokcore.Brokers.{
  Broker, is_topic, is_in, handle, remove_subscriber, subscribe, unsubscribe, send_message,
}
use arbokcore.Brokers.Clients.{
  Clients, Move, ask_subscribe, ask_unsubscribe, put_message, take_subscriber, take_unsubscribe,
  take_message, is_made, put_subscriber, put_unsubscribe, put, with_broker, answer,
  subscriber_taken, unsubscribe_taken, message_taken, step, steps,
}

-- Some of the moves asks to unsubscribe a channel.
abbrev pub asks : ℕ → List Move → Bool
asks ch [] = false
asks ch (ask_subscribe name ∷ ms) = asks ch ms
asks ch (ask_unsubscribe c ∷ ms) = eqb c ch || asks ch ms
asks ch (put_message m ∷ ms) = asks ch ms
asks ch (take_subscriber ∷ ms) = asks ch ms
asks ch (take_unsubscribe ∷ ms) = asks ch ms
asks ch (take_message in_time ∷ ms) = asks ch ms

-- A call for the channel waits, and the loop has taken it.
record IsMissed (ch : ℕ) (s : Clients) : Type 0 where
  waits : is_in ch s.waiting ≡ true
  taken : s.unsubscribe_ch ≢ some ch

is_in-answer :
    (ch c : ℕ) (l : List ℕ) → eqb c ch ≡ false → is_in ch l ≡ true → is_in ch (answer c l) ≡ true
unfolding is_in answer
is_in-answer ch c [] n h = h
is_in-answer ch c (d ∷ l) n h = ground (arith, is_in-answer ch c l n)

with_broker-IsMissed :
    (ch : ℕ) (s : Clients) (b : Option Broker)
    → IsMissed ch s
    → Holds (IsMissed ch) (with_broker b s)
unfolding with_broker
with_broker-IsMissed ch s none h = tt
with_broker-IsMissed ch s (some b) h = record { waits = h.waits; taken = h.taken }

step-IsMissed :
    (ch : ℕ) (m : Move) (s : Clients)
    → asks ch (m ∷ []) ≡ false
    → IsMissed ch s
    → Holds (IsMissed ch) (step m s)
unfolding step put_subscriber put_unsubscribe put subscriber_taken unsubscribe_taken message_taken
step-IsMissed ch (ask_subscribe name) s n h = elim (Option-cases s.subscriber_ch) [
  | inl e ↦ rw e (record { waits = h.waits; taken = h.taken })
  | inr (other, e) ↦ rw e tt
]
step-IsMissed ch (ask_unsubscribe c) s n h = elim (Option-cases s.unsubscribe_ch) [
  | inl e ↦ elim (Bool-cases (is_made c s)) [
    | inl made ↦
        rw (e, made)
          (record { waits = unfold is_in in ground (arith, h.waits); taken = λ q. ground arith })
    | inr unmade ↦ rw (e, unmade) tt
  ]
  | inr (other, e) ↦ rw e tt
]
step-IsMissed ch (put_message m) s n h = elim (Option-cases s.messages_ch) [
  | inl e ↦ rw e (record { waits = h.waits; taken = h.taken })
  | inr (other, e) ↦ rw e tt
]
step-IsMissed ch take_subscriber s n h = elim (Option-cases s.subscriber_ch) [
  | inl e ↦ rw e tt
  | inr (name, e) ↦ rw e (
      with_broker-IsMissed ch (record s { subscriber_ch = none }) (handle (subscribe name) s.broker)
        (record { waits = h.waits; taken = h.taken }))
]
step-IsMissed ch take_unsubscribe s n h = elim (Option-cases s.unsubscribe_ch) [
  | inl e ↦ rw e tt
  | inr (c, e) ↦
      let other : eqb c ch ≡ false = ground (arith, h.taken) in
      let kept = is_in-answer ch c s.waiting other h.waits in
      let waits = h.waits in
      rw e (
        with_broker-IsMissed ch
          (record s {
            unsubscribe_ch = none;
            waiting = if is_topic c s.broker.topics then answer c s.waiting else s.waiting;
          })
          (handle (unsubscribe c) s.broker)
          (record { waits = ground arith; taken = λ q. ground arith }))
]
step-IsMissed ch (take_message in_time) s n h = elim (Option-cases s.messages_ch) [
  | inl e ↦ rw e tt
  | inr (m, e) ↦ rw e (
      with_broker-IsMissed ch (record s { messages_ch = none })
        (handle (send_message m in_time) s.broker) (record { waits = h.waits; taken = h.taken }))
]

asks-tail :
    (ch : ℕ) (m : Move) (ms : List Move)
    → asks ch (m ∷ ms) ≡ false
    → (asks ch (m ∷ []) ≡ false) × (asks ch ms ≡ false)
asks-tail ch (ask_subscribe name) ms h = (refl, h)
asks-tail ch (ask_unsubscribe c) ms h = (ground arith, ground arith)
asks-tail ch (put_message m) ms h = (refl, h)
asks-tail ch take_subscriber ms h = (refl, h)
asks-tail ch take_unsubscribe ms h = (refl, h)
asks-tail ch (take_message in_time) ms h = (refl, h)

steps-IsMissed :
    (ch : ℕ) (ms : List Move) (s : Clients)
    → asks ch ms ≡ false
    → IsMissed ch s
    → Holds (IsMissed ch) (steps ms s)
unfolding steps
steps-IsMissed ch [] s n h = h
steps-IsMissed ch (m ∷ ms) s n h =
    let (here, later) = asks-tail ch m ms n in
    Holds-bind (IsMissed ch) (IsMissed ch) (step m s) (steps ms)
      (λ s' h'. steps-IsMissed ch ms s' later h') (step-IsMissed ch m s here h)

-- A call of Unsubscribe that the loop takes before the channel's own Subscribe: the loop passes it over.
steps-early :
    (ch : ℕ) (ms : List Move) (s : Clients)
    → s.unsubscribe_ch ≡ none
    → is_made ch s ≡ true
    → is_topic ch s.broker.topics ≡ false
    → steps (ask_unsubscribe ch ∷ take_unsubscribe ∷ ms) s
      ≡ steps ms (record s { unsubscribe_ch = none; waiting = ch ∷ s.waiting })
unfolding steps step put_unsubscribe unsubscribe_taken with_broker handle remove_subscriber
steps-early ch ms s e made absent = ground arith

-- Unsubscribe waits for ever when the loop takes it before the Subscribe of the same channel: after
-- a call of Unsubscribe for a channel that the broker has not registered yet, which the loop takes
-- at once, the call still waits after any further moves that do not ask for that channel again.
pub unsubscribe_early-waits :
    (ch : ℕ) (ms : List Move) (s t : Clients)
    → s.unsubscribe_ch ≡ none
    → is_made ch s ≡ true
    → is_topic ch s.broker.topics ≡ false
    → asks ch ms ≡ false
    → steps (ask_unsubscribe ch ∷ take_unsubscribe ∷ ms) s ≡ some t
    → is_in ch t.waiting ≡ true
unsubscribe_early-waits ch ms s t e made absent n h =
    let missed = record s { unsubscribe_ch = none; waiting = ch ∷ s.waiting } in
    (subst (Holds (IsMissed ch)) (sym (steps-early ch ms s e made absent) ∙ h) (
      steps-IsMissed ch ms missed n
        (record { waits = unfold is_in in ground arith; taken = λ q. ground arith }))).waits
