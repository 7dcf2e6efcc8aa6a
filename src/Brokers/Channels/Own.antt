-- ===== src/Brokers/Channels/Own.antt =====
-- Whose messages a channel is sent.
use mathlib.Core.List.{append-nil}
use arbokcore.Prelude.{
  ℕ, suc, ◌<◌, ◌≤◌, Text, eqb, Option, none, some, List, [], ◌∷◌, ◌++◌, Bool, true, Bool-cases,
  Holds, Holds-bind, Holds-both, subst, ◌≡◌, refl, inl, inr, arith,
}
use arbokcore.Brokers.{
  Message, message_key, Broker, started, Event, subscribe, unsubscribe, send_message, is_topic,
  is_in, delete, find_topic_by_name, add_subscriber, remove_subscriber, deliver, handle, run,
}
use arbokcore.Brokers.Safety.{IsOpen, started-IsOpen, handle-IsOpen, find_topic_by_name-is_topic}
use arbokcore.Brokers.Channels.{
  is_plain, plain_users, sent_to, AllOf, topic_of, topic_of-injective, NamedOnly, NamedOnly-absent,
  NamedOnly-delete, find_topic_by_name-named, sent_to-append, AllOf-append,
}

handle-keeps_IsOpen : (e : Event) (b : Broker) → IsOpen b → Holds IsOpen (handle e b)
handle-keeps_IsOpen e b o = let (b', h, o') = handle-IsOpen e b o in rw h o'

-- What holds after an unsubscription, if it holds with and without the channel.
remove_subscriber-Holds :
    (P : Broker → Type 0) (ch : ℕ) (b : Broker)
    → P b
    → P (record b { topics = delete ch b.topics; closed = ch ∷ b.closed; done = ch ∷ b.done })
    → Holds P (remove_subscriber ch b)
unfolding remove_subscriber
remove_subscriber-Holds P ch b h k = elim (Bool-cases (is_topic ch b.topics)) [
  | inr absent ↦ rw absent h
  | inl there ↦ elim (Bool-cases (is_in ch b.closed)) [
    | inl shut ↦ rw (there, shut) tt
    | inr usable ↦ rw (there, usable) k
  ]
]

-- What holds after a message, if it holds with and without it.
deliver-Holds :
    (P : Broker → Type 0) (m : Message) (taken : Bool) (to : Option ℕ) (b : Broker)
    → P b
    → ((ch : ℕ) → to ≡ some ch → P (record b { sent = b.sent ++ (ch, m) ∷ [] }))
    → Holds P (deliver m taken to b)
unfolding deliver
deliver-Holds P m taken none b h k = h
deliver-Holds P m taken (some ch) b h k = elim (Bool-cases (is_in ch b.closed)) [
  | inl shut ↦ rw shut tt
  | inr usable ↦ elim (Bool-cases taken) [
    | inl t ↦ rw (usable, t) (k ch refl)
    | inr t ↦ rw (usable, t) h
  ]
]

-- No message was sent to a channel that is still to be made.
abbrev IsUnsent : Broker → Type 0
IsUnsent b = (ch : ℕ) → b.made ≤ ch → sent_to ch b.sent ≡ []

handle-IsUnsent : (e : Event) (b : Broker) → IsOpen b → IsUnsent b → Holds IsUnsent (handle e b)
unfolding handle add_subscriber
handle-IsUnsent (subscribe name) b o u = elim (Bool-cases (is_topic b.made b.topics)) [
  | inl old ↦ rw old (λ ch h. u ch (omega (arith, h)))
  | inr new ↦ rw new (λ ch h. u ch (omega (arith, h)))
]
handle-IsUnsent (unsubscribe ch) b o u = remove_subscriber-Holds IsUnsent ch b u u
handle-IsUnsent (send_message m taken) b o u =
    deliver-Holds IsUnsent m taken (find_topic_by_name b.topics (message_key m)) b u λ c e other h.
      ground (
        arith,
        sent_to-append other c m b.sent,
        u other h,
        o.made c (find_topic_by_name-is_topic b.topics (message_key m) c e),
      )

-- The channel `ch` belongs to one user's device.
record IsOwn (user_id device_id : Text) (ch : ℕ) (b : Broker) : Type 0 where
  made : ch < b.made
  named : NamedOnly ch (topic_of user_id device_id) b.topics
  own : AllOf user_id device_id (sent_to ch b.sent)

sent-AllOf :
    (u d : Text) (ch c : ℕ) (m : Message) (b : Broker)
    → is_plain u ≡ true
    → is_plain m.user_id ≡ true
    → find_topic_by_name b.topics (message_key m) ≡ some c
    → IsOwn u d ch b
    → AllOf u d (sent_to ch (b.sent ++ (c, m) ∷ []))
sent-AllOf u d ch c m b p q e o = rw (sent_to-append ch c m b.sent) (elim (Bool-cases (eqb c ch)) [
  | inr other ↦ rw (other, append-nil) o.own
  | inl same ↦
      let here : find_topic_by_name b.topics (message_key m) ≡ some ch = ground (arith, same, e) in
      rw same (
        AllOf-append u d m (sent_to ch b.sent) o.own (
          topic_of-injective m.user_id u m.device_id d q p
            (find_topic_by_name-named ch (topic_of u d) (message_key m) b.topics o.named here)))
])

handle-IsOwn :
    (u d : Text) (ch : ℕ) (e : Event) (b : Broker)
    → is_plain u ≡ true
    → plain_users (e ∷ []) ≡ true
    → IsOwn u d ch b
    → Holds (IsOwn u d ch) (handle e b)
unfolding handle add_subscriber
handle-IsOwn u d ch (subscribe name) b p q o = elim (Bool-cases (is_topic b.made b.topics)) [
  | inl old ↦ rw old (record { made = omega (arith, o.made); named = o.named; own = o.own })
  | inr new ↦ rw new (record {
    made = omega (arith, o.made);
    named = (λ e. absurd (omega (arith, e, o.made)), o.named);
    own = o.own;
  })
]
handle-IsOwn u d ch (unsubscribe c) b p q o = remove_subscriber-Holds (IsOwn u d ch) c b o (record {
  made = o.made;
  named = NamedOnly-delete ch c (topic_of u d) b.topics o.named;
  own = o.own;
})
handle-IsOwn u d ch (send_message m taken) b p q o =
    deliver-Holds (IsOwn u d ch) m taken (find_topic_by_name b.topics (message_key m)) b o λ c e.
      record {
        made = o.made;
        named = o.named;
        own = sent-AllOf u d ch c m b p (ground (arith, q)) e o;
      }

plain_users-head :
    (e : Event) (es : List Event) → plain_users (e ∷ es) ≡ true → plain_users (e ∷ []) ≡ true
plain_users-head (subscribe name) es h = refl
plain_users-head (unsubscribe ch) es h = refl
plain_users-head (send_message m taken) es h = ground (arith, h)

plain_users-tail :
    (e : Event) (es : List Event) → plain_users (e ∷ es) ≡ true → plain_users es ≡ true
plain_users-tail (subscribe name) es h = h
plain_users-tail (unsubscribe ch) es h = h
plain_users-tail (send_message m taken) es h = ground (arith, h)

run-IsOwn :
    (u d : Text) (ch : ℕ) (es : List Event) (b : Broker)
    → is_plain u ≡ true
    → plain_users es ≡ true
    → IsOwn u d ch b
    → Holds (IsOwn u d ch) (run es b)
unfolding run
run-IsOwn u d ch [] b p q o = o
run-IsOwn u d ch (e ∷ es) b p q o =
    Holds-bind (IsOwn u d ch) (IsOwn u d ch) (handle e b) (run es)
      (λ c. run-IsOwn u d ch es c p (plain_users-tail e es q))
      (handle-IsOwn u d ch e b p (plain_users-head e es q) o)

run-IsUnsent :
    (es : List Event) (b : Broker)
    → IsOpen b
    → IsUnsent b
    → Holds (λ c. IsOpen c × IsUnsent c) (run es b)
unfolding run
run-IsUnsent [] b o u = (o, u)
run-IsUnsent (e ∷ es) b o u =
    Holds-bind (λ c. IsOpen c × IsUnsent c) (λ c. IsOpen c × IsUnsent c) (handle e b) (run es)
      (λ c h. run-IsUnsent es c h.0 h.1)
      (Holds-both IsOpen IsUnsent (handle e b) (handle-keeps_IsOpen e b o)
        (handle-IsUnsent e b o u))

-- The channel of a connection carries that user's device's messages only. Whatever events came before
-- a subscription to the topic of a user and a device, and whatever events come after it, every
-- message that the channel is sent is of that user and of that device, where no user's id in
-- question contains the sign that stands between the two in the name of a topic.
pub subscribed-own :
    (user_id device_id : Text) (before after : List Event) {b c : Broker}
    → is_plain user_id ≡ true
    → plain_users after ≡ true
    → run before started ≡ some b
    → run (subscribe (user_id ++ b'_' ∷ device_id) ∷ after) b ≡ some c
    → AllOf user_id device_id (sent_to b.made c.sent)
unfolding run handle add_subscriber
subscribed-own user_id device_id before after {b} {c} p q e f =
    let (o, u) =
      subst (Holds (λ b. IsOpen b × IsUnsent b)) e
        (run-IsUnsent before started started-IsOpen (λ ch h. refl)) in
    elim (Bool-cases (is_topic b.made b.topics)) [
      | inl old ↦ absurd (omega (arith, o.made b.made old))
      | inr new ↦
          let b' : Broker = record b {
            topics = (b.made, topic_of user_id device_id) ∷ b.topics;
            made = suc b.made;
          } in
          let first : IsOwn user_id device_id b.made b' = record {
            made = omega arith;
            named = (λ e. refl, NamedOnly-absent b.made (topic_of user_id device_id) b.topics new);
            own = rw (u b.made (omega arith)) tt;
          } in
          let later : run after b' ≡ some c = rw new at f in
          (subst (Holds (IsOwn user_id device_id b.made)) later
            (run-IsOwn user_id device_id b.made after b' p q first)).own
    ]
