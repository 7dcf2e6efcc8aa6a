-- ===== src/Queuer/Streams.antt =====
-- pkg/queuer/redis.stream.go: queues that are Redis streams, each read by a consumer group of its own.
pub mod Delivery
pub mod Lost
use arbokcore.Prelude.{
  ℕ, Text, text, Option, none, some, List, [], ◌∷◌, ◌++◌, Bool, strip_prefix, is_some,
  if◌then◌else◌,
}
use arbokcore.Queuer.{Payload, EnqueueResult, enqueue_result, render}
use arbokcore.World.{Done, Outcome, ok, err, panic}

-- The answer to a command: its value, `redis.Nil`, or another error.
pub data Reply {ℓ} (A : Type ℓ) : Type ℓ where
  reply : A → Reply A
  nil : Reply A
  failure : Text → Reply A

-- An entry of a stream, with what it has under the field "message".
pub record Entry : Type 0 where
  pub id : Text
  pub message : Option Text

-- The commands of the client, on a state of the server: XGROUP CREATE with MKSTREAM, of a stream, a
-- group and the entry it begins after; XADD of a message; XREADGROUP of one new entry, of a group, a
-- consumer and a stream, whose value has the entries of each stream; XACK of an entry; FLUSHDB.
pub record Commands {ℓ} (S : Type ℓ) : Type ℓ where
  pub x_group_create : Text → Text → Text → S → Reply Done × S
  pub x_add : Text → Text → S → Reply Text × S
  pub x_read_group : Text → Text → Text → S → Reply (List (List Entry)) × S
  pub x_ack : Text → Text → Text → S → Reply ℕ × S
  pub flush_db : S → Reply Done × S

module _ {ℓ} {A : Type ℓ} where
  -- The text of the error that a command returns.
  unfoldable pub error_of : Reply A → Option Text
  error_of (reply a) = none
  error_of nil = some (text "redis: nil")
  error_of (failure e) = some e

  -- The error, but for `redis.Nil`.
  unfoldable pub error_but_nil : Reply A → Option Text
  error_but_nil (reply a) = none
  error_but_nil nil = none
  error_but_nil (failure e) = some e

unfoldable pub is_busy_group : Text → Bool
is_busy_group e = is_some (strip_prefix (text "BUSYGROUP") e)

-- The error of the creation of a group, but for `redis.Nil` and for a group that exists.
unfoldable pub group_error : Reply Done → Option Text
unfolding is_busy_group
group_error (reply done) = none
group_error nil = none
group_error (failure e) = if is_busy_group e then none else some e

abbrev pub group_of : Text → Text
group_of stream = stream ++ text "-group"

unfoldable pub first_entry : Reply (List (List Entry)) → Option Entry
first_entry (reply ((entry ∷ entries) ∷ streams)) = some entry
first_entry (reply ([] ∷ streams)) = none
first_entry (reply []) = none
first_entry nil = none
first_entry (failure e) = none

module _ {ℓ} {S : Type ℓ} (redis : Commands S) where
  unfoldable pub added : Text → Reply Text × S → Outcome Done × S
  unfolding error_of
  added stream (r, s) = elim (error_of r) [
    | none ↦ (ok tt, s)
    | some e ↦ (err (text "failed to push message to stream " ++ stream ++ text ": " ++ e), s)
  ]

  unfoldable pub enqueue_msg : Text → Text → Payload → S → Outcome Done × S
  unfolding group_error added
  enqueue_msg topic_name partition payload s =
      let stream = render topic_name partition in
      let (r, s') = redis.x_group_create stream (group_of stream) (text "$") s in
      elim (group_error r) [
        | none ↦ added stream (redis.x_add stream payload.message s')
        | some e ↦
            (err (text "failed to create consumer group " ++ group_of stream ++ text ": " ++ e), s')
      ]

  -- The payloads that could not be added.
  unfoldable pub add_all : Text → List Payload → S → List Payload × S
  unfolding error_of
  add_all stream [] s = ([], s)
  add_all stream (payload ∷ payloads) s =
      let (r, s') = redis.x_add stream payload.message s in
      let (failed, s'') = add_all stream payloads s' in
      elim (error_of r) [ none ↦ (failed, s'') | some e ↦ (payload ∷ failed, s'') ]

  unfoldable pub enqueue_msgs : Text → Text → List Payload → S → EnqueueResult × S
  unfolding add_all
  enqueue_msgs topic_name partition payloads s =
      let (failed, s') = add_all (render topic_name partition) payloads s in
      (enqueue_result failed, s')

  abbrev pub payload_of : Text → Text → Payload
  payload_of id message = record { message = message; key = id }

  unfoldable pub acknowledged : Payload → Reply ℕ × S → Outcome (Option Payload) × S
  unfolding error_of
  acknowledged payload (r, s) = elim (error_of r) [
    | none ↦ (ok (some payload), s)
    | some e ↦ (err (text "failed to acknowledge message " ++ payload.key ++ text ": " ++ e), s)
  ]

  -- The entry that was read is a payload, and is acknowledged; one without a message panics.
  unfoldable pub taken : Text → Option Entry → S → Outcome (Option Payload) × S
  unfolding acknowledged
  taken stream none s = (ok none, s)
  taken stream (some entry) s = elim entry.message [
    | none ↦ (panic, s)
    | some message ↦
        acknowledged (payload_of entry.id message) (redis.x_ack stream (group_of stream) entry.id s)
  ]

  unfoldable pub read_entry : Text → Reply (List (List Entry)) × S → Outcome (Option Payload) × S
  unfolding error_but_nil first_entry taken
  read_entry stream (r, s) = elim (error_but_nil r) [
    | none ↦ taken stream (first_entry r) s
    | some e ↦ (err (text "failed to read from stream " ++ stream ++ text ": " ++ e), s)
  ]

  unfoldable pub read_msg : Text → Text → Text → S → Outcome (Option Payload) × S
  unfolding group_error read_entry
  read_msg topic_name partition consumer s =
      let stream = render topic_name partition in
      let (r, s') = redis.x_group_create stream (group_of stream) (text "$") s in
      elim (group_error r) [
        | none ↦ read_entry stream (redis.x_read_group (group_of stream) consumer stream s')
        | some e ↦
            (err (text "failed to create consumer group " ++ group_of stream ++ text ": " ++ e), s')
      ]

  unfoldable pub flush : S → Option Text × S
  unfolding error_of
  flush s = let (r, s') = redis.flush_db s in (error_of r, s')
