-- ===== src/Brokers/Safety.antt =====
-- The broker neither sends to a closed channel nor closes one twice.
use mathlib.Core.List.{Mem, mem-cons}
use mathlib.Core.Logic.Or
use arbokcore.Prelude.{
  eq_iff, ◌⊎◌, ℕ, suc, ◌<◌, Text, ◌==◌, eqb, Option, none, some, Option-cases, List, [], ◌∷◌, ◌++◌,
  Bool, true, false, Bool-cases, if◌then◌else◌, ◌≡◌, refl, ap, inl, inr, arith,
}
use arbokcore.Brokers.{
  Message, message_key, Broker, started, Event, subscribe, unsubscribe, send_message, is_topic,
  is_in, delete, find_topic_by_name, add_subscriber, remove_subscriber, deliver, handle,
}

-- Every channel in use was made, and none in use is closed; a channel that was closed has answered
-- its request.
pub record IsOpen (b : Broker) : Type 0 where
  pub made : (ch : ℕ) → is_topic ch b.topics ≡ true → ch < b.made
  pub closed_made : (ch : ℕ) → is_in ch b.closed ≡ true → ch < b.made
  pub usable : (ch : ℕ) → is_topic ch b.topics ≡ true → is_in ch b.closed ≡ false
  pub answered : b.done ≡ b.closed

is_topic-delete :
    (ch other : ℕ) (topics : List (ℕ × Text))
    → is_topic other (delete ch topics) ≡ (if eqb ch other then false else is_topic other topics)
unfolding is_topic delete
is_topic-delete ch other [] = ground arith
is_topic-delete ch other ((c, name) ∷ topics) = ground (arith, is_topic-delete ch other topics)

pub find_topic_by_name-is_topic :
    (topics : List (ℕ × Text)) (name : Text) (ch : ℕ)
    → find_topic_by_name topics name ≡ some ch
    → is_topic ch topics ≡ true
unfolding is_topic find_topic_by_name
find_topic_by_name-is_topic [] name ch h = absurd (ground arith)
find_topic_by_name-is_topic ((c, n) ∷ topics) name ch h =
    ground (arith, find_topic_by_name-is_topic topics name ch)

subscribe-IsOpen :
    (name : Text) (b : Broker)
    → IsOpen b
    → IsOpen (add_subscriber b.made name (record b { made = suc b.made }))
unfolding add_subscriber is_topic is_in
subscribe-IsOpen name b o = elim (Bool-cases (is_topic b.made b.topics)) [
  | inl old ↦ absurd (omega (arith, o.made b.made old))
  | inr new ↦ rw new (record {
    made = λ ch h. ground (arith, o.made ch);
    closed_made = λ ch h. ground (arith, o.closed_made ch);
    usable = λ ch h. ground (arith, o.usable ch, o.closed_made ch);
    answered = o.answered;
  })
]

remove_subscriber-IsOpen :
    (ch : ℕ) (b : Broker)
    → IsOpen b
    → (b' : Broker) × (remove_subscriber ch b ≡ some b') × IsOpen b'
unfolding remove_subscriber is_in
remove_subscriber-IsOpen ch b o = elim (Bool-cases (is_topic ch b.topics)) [
  | inr absent ↦ (b, ground (arith, absent), o)
  | inl there ↦ (
    record b { topics = delete ch b.topics; closed = ch ∷ b.closed; done = ch ∷ b.done },
    ground (arith, there, o.usable ch),
    record {
      made = λ c h. ground (arith, is_topic-delete ch c b.topics, o.made c);
      closed_made = λ c h. ground (arith, o.closed_made c, o.made ch);
      usable = λ c h. ground (arith, is_topic-delete ch c b.topics, o.usable c);
      answered = ap (λ l. ch ∷ l) o.answered;
    },
  )
]

deliver-IsOpen :
    (m : Message) (taken : Bool) (to : Option ℕ) (b : Broker)
    → ((ch : ℕ) → to ≡ some ch → is_in ch b.closed ≡ false)
    → IsOpen b
    → (b' : Broker) × (deliver m taken to b ≡ some b') × IsOpen b'
unfolding deliver
deliver-IsOpen m taken none b free o = (b, refl, o)
deliver-IsOpen m true (some ch) b free o = (
  record b { sent = b.sent ++ (ch, m) ∷ [] },
  ground (arith, free ch refl),
  record { made = o.made; closed_made = o.closed_made; usable = o.usable; answered = o.answered },
)
deliver-IsOpen m false (some ch) b free o = (b, ground (arith, free ch refl), o)

-- From a broker whose channels in use are open, every event is handled without a panic, and leaves
-- such a broker.
pub handle-IsOpen :
    (e : Event) (b : Broker) → IsOpen b → (b' : Broker) × (handle e b ≡ some b') × IsOpen b'
unfolding handle
handle-IsOpen (subscribe name) b o =
    (add_subscriber b.made name (record b { made = suc b.made }), refl, subscribe-IsOpen name b o)
handle-IsOpen (unsubscribe ch) b o = remove_subscriber-IsOpen ch b o
handle-IsOpen (send_message m taken) b o =
    let name = message_key m in
    deliver-IsOpen m taken (find_topic_by_name b.topics name) b
      (λ ch h. o.usable ch (find_topic_by_name-is_topic b.topics name ch h)) o

pub started-IsOpen : IsOpen started
unfolding is_topic is_in
started-IsOpen = record {
  made = λ ch h. cc;
  closed_made = λ ch h. cc;
  usable = λ ch h. refl;
  answered = refl;
}

find_topic_by_name-Mem :
    (topics : List (ℕ × Text)) (name : Text) (ch : ℕ)
    → find_topic_by_name topics name ≡ some ch
    → Mem (ch, name) topics
unfolding find_topic_by_name
find_topic_by_name-Mem [] name ch h = absurd (ground arith)
find_topic_by_name-Mem ((c, n) ∷ topics) name ch h = elim (Bool-cases (n == name)) [
  | inl same ↦ mem-cons.1 (Or.inl (ground (arith, eq_iff n name)))
  | inr other ↦ mem-cons.1 (Or.inr (find_topic_by_name-Mem topics name ch (ground arith)))
]

-- A message changes nothing but what was sent, and if it is sent, it is sent once, to a channel
-- that is registered under the user and the device of the message.
pub send_message-routed :
    (m : Message) (taken : Bool) (b : Broker) {b' : Broker}
    → handle (send_message m taken) b ≡ some b'
    → (b' ≡ b)
      ⊎ ((ch : ℕ) × Mem (ch, message_key m) b.topics
          × (b' ≡ record b { sent = b.sent ++ (ch, m) ∷ [] }))
unfolding handle deliver
send_message-routed m taken b h =
    elim (Option-cases (find_topic_by_name b.topics (message_key m))) [
      | inl e ↦ inl (ground (arith, e))
      | inr (ch, e) ↦ elim (Bool-cases taken) [
        | inl t ↦
            inr (ch, find_topic_by_name-Mem b.topics (message_key m) ch e, ground (arith, e, t))
        | inr t ↦ inl (ground (arith, e, t))
      ]
    ]
