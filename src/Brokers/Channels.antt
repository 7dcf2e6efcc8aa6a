-- ===== src/Brokers/Channels.antt =====
-- The names of topics, and the messages of one channel.
pub mod Own
use mathlib.Core.List.{append-nil}
use arbokcore.Prelude.{
  eq_iff, ℕ, suc, ◌<◌, ◌≤◌, Text, ◌==◌, eqb, Option, none, some, List, [], ◌∷◌, ◌++◌, Bool, true,
  false, ◌&&◌, not, Bool-cases, if◌then◌else◌, Holds, Holds-bind, Holds-both, subst, ◌≡◌, refl, inl,
  inr, arith,
}
use arbokcore.Brokers.{
  Message, message_key, Broker, started, Event, subscribe, unsubscribe, send_message, is_topic,
  is_in, delete, find_topic_by_name, add_subscriber, remove_subscriber, deliver, handle, run,
}
use arbokcore.Brokers.Safety.{IsOpen, started-IsOpen, handle-IsOpen, find_topic_by_name-is_topic}

-- A user id without the sign that separates it from the device in the name of a topic.
abbrev pub is_plain : Text → Bool
is_plain [] = true
is_plain (c ∷ s) = not (eqb c b'_') && is_plain s

-- The users of the messages that are sent have such ids.
abbrev pub plain_users : List Event → Bool
plain_users [] = true
plain_users (subscribe name ∷ es) = plain_users es
plain_users (unsubscribe ch ∷ es) = plain_users es
plain_users (send_message m taken ∷ es) = is_plain m.user_id && plain_users es

-- The messages that one channel was sent, in order.
abbrev pub sent_to : ℕ → List (ℕ × Message) → List Message
sent_to ch [] = []
sent_to ch ((c, m) ∷ sent) = let rest = sent_to ch sent in if eqb c ch then m ∷ rest else rest

abbrev pub IsOf : Text → Text → Message → Type 0
IsOf user_id device_id m = (m.user_id ≡ user_id) × (m.device_id ≡ device_id)

abbrev pub AllOf : Text → Text → List Message → Type 0
AllOf user_id device_id [] = Unit
AllOf user_id device_id (m ∷ ms) = IsOf user_id device_id m × AllOf user_id device_id ms

abbrev pub topic_of : Text → Text → Text
topic_of user_id device_id = user_id ++ b'_' ∷ device_id

-- The name of a topic tells the user from the device.
pub topic_of-injective :
    (u v d e : Text)
    → is_plain u ≡ true
    → is_plain v ≡ true
    → topic_of u d ≡ topic_of v e
    → (u ≡ v) × (d ≡ e)
topic_of-injective [] [] d e p q h = (refl, ground (arith, h))
topic_of-injective [] (b ∷ v) d e p q h = absurd (ground (arith, p, q, h))
topic_of-injective (a ∷ u) [] d e p q h = absurd (ground (arith, p, q, h))
topic_of-injective (a ∷ u) (b ∷ v) d e p q h =
    let ih =
      topic_of-injective u v d e (ground (arith, p)) (ground (arith, q)) (ground (arith, h)) in
    (ground (arith, h, ih), ground (arith, ih))

-- The channel is registered under one name at most.
abbrev pub NamedOnly : ℕ → Text → List (ℕ × Text) → Type 0
NamedOnly ch name [] = Unit
NamedOnly ch name ((c, n) ∷ topics) = (c ≡ ch → n ≡ name) × NamedOnly ch name topics

pub NamedOnly-absent :
    (ch : ℕ) (name : Text) (topics : List (ℕ × Text))
    → is_topic ch topics ≡ false
    → NamedOnly ch name topics
unfolding is_topic
NamedOnly-absent ch name [] h = tt
NamedOnly-absent ch name ((c, n) ∷ topics) h =
    (λ e. absurd (ground (arith, e, h)), NamedOnly-absent ch name topics (ground (arith, h)))

pub NamedOnly-delete :
    (ch other : ℕ) (name : Text) (topics : List (ℕ × Text))
    → NamedOnly ch name topics
    → NamedOnly ch name (delete other topics)
unfolding delete
NamedOnly-delete ch other name [] h = tt
NamedOnly-delete ch other name ((c, n) ∷ topics) h = elim (Bool-cases (eqb c other)) [
  | inl e ↦ rw e (NamedOnly-delete ch other name topics h.1)
  | inr e ↦ rw e (h.0, NamedOnly-delete ch other name topics h.1)
]

pub find_topic_by_name-named :
    (ch : ℕ) (name key : Text) (topics : List (ℕ × Text))
    → NamedOnly ch name topics
    → find_topic_by_name topics key ≡ some ch
    → key ≡ name
unfolding find_topic_by_name
find_topic_by_name-named ch name key [] h e = absurd (ground (arith, e))
find_topic_by_name-named ch name key ((c, n) ∷ topics) h e = elim (Bool-cases (n == key)) [
  | inl same ↦
      let here : c ≡ ch = ground (arith, same, e) in ground (arith, h.0 here, (eq_iff n key).0 same)
  | inr other ↦ find_topic_by_name-named ch name key topics h.1 (ground (arith, other, e))
]

pub sent_to-append :
    (ch c : ℕ) (m : Message) (sent : List (ℕ × Message))
    → sent_to ch (sent ++ (c, m) ∷ []) ≡ sent_to ch sent ++ (if eqb c ch then m ∷ [] else [])
sent_to-append ch c m [] = ground arith
sent_to-append ch c m ((d, n) ∷ sent) = ground (arith, sent_to-append ch c m sent)

pub AllOf-append :
    (u d : Text) (m : Message) (ms : List Message)
    → AllOf u d ms
    → IsOf u d m
    → AllOf u d (ms ++ m ∷ [])
AllOf-append u d m [] h k = (k, tt)
AllOf-append u d m (n ∷ ms) h k = (h.0, AllOf-append u d m ms h.1 k)
