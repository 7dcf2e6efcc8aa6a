-- ===== src/Queuer/Streams/Delivery.antt =====
-- While the server answers every command, the messages that EnqueueMsg adds to a stream reach its
-- group, each once and in order.
use arbokcore.Prelude.{
  Text, text, Option, Option-cases, arith, none, some, List, [], ◌∷◌, ◌++◌, map, ◌≡◌, refl, ap, ap₂,
  ◌∙◌, sym, inl, inr,
}
use mathlib.Core.List.{append-nil, append_assoc}
use arbokcore.Queuer.{Payload, render}
use arbokcore.Queuer.Fifo.{message_of}
use arbokcore.Queuer.Streams.{
  reply, nil, Commands, group_of, error_of, group_error, enqueue_msg, read_msg,
}
use arbokcore.World.{Outcome, ok, err, panic}

-- What the server documents of the commands that it answers, where `left` has the messages of a
-- stream that its group has not read yet, none where there is no group: a group that begins after
-- `$` has no message left and is made once; an entry reaches a group that exists; a read takes the
-- first message left, and returns `redis.Nil` after the timeout where there is none; an
-- acknowledgement leaves the messages as they are.
pub record Answering {ℓ} {S : Type ℓ} (redis : Commands S) (left : Text → S → Option (List Text))
    : Type ℓ where
  pub entry_id : Text → S → Text
  pub makes_group :
      (stream : Text) (s : S)
      → left stream s ≡ none
      → (group_error (redis.x_group_create stream (group_of stream) (text "$") s).0 ≡ none)
        × (left stream (redis.x_group_create stream (group_of stream) (text "$") s).1 ≡ some [])
  pub keeps_group :
      (stream : Text) (ms : List Text) (s : S)
      → left stream s ≡ some ms
      → (group_error (redis.x_group_create stream (group_of stream) (text "$") s).0 ≡ none)
        × (left stream (redis.x_group_create stream (group_of stream) (text "$") s).1 ≡ some ms)
  pub adds : (stream m : Text) (s : S) → error_of (redis.x_add stream m s).0 ≡ none
  pub adds_unseen :
      (stream m : Text) (s : S)
      → left stream s ≡ none
      → left stream (redis.x_add stream m s).1 ≡ none
  pub adds_last :
      (stream m : Text) (ms : List Text) (s : S)
      → left stream s ≡ some ms
      → left stream (redis.x_add stream m s).1 ≡ some (ms ++ m ∷ [])
  pub reads_first :
      (stream consumer m : Text) (ms : List Text) (s : S)
      → left stream s ≡ some (m ∷ ms)
      → ((redis.x_read_group (group_of stream) consumer stream s).0
          ≡ reply ((record { id = entry_id stream s; message = some m } ∷ []) ∷ []))
        × (left stream (redis.x_read_group (group_of stream) consumer stream s).1 ≡ some ms)
  pub reads_nothing :
      (stream consumer : Text) (s : S)
      → left stream s ≡ some []
      → ((redis.x_read_group (group_of stream) consumer stream s).0 ≡ nil)
        × (left stream (redis.x_read_group (group_of stream) consumer stream s).1 ≡ some [])
  pub acknowledges :
      (stream id : Text) (s : S)
      → (error_of (redis.x_ack stream (group_of stream) id s).0 ≡ none)
        × (left stream (redis.x_ack stream (group_of stream) id s).1 ≡ left stream s)

abbrev pub waiting : Option (List Text) → List Text
waiting none = []
waiting (some ms) = ms

waiting-some :
    (o : Option (List Text)) (m : Text) (ms : List Text) → waiting o ≡ m ∷ ms → o ≡ some (m ∷ ms)
waiting-some o m ms w = ground arith

-- The message that a read returns, if any.
abbrev pub message_read : Outcome (Option Payload) → Option Text
message_read (ok none) = none
message_read (ok (some payload)) = some payload.message
message_read (err e) = none
message_read panic = none

module _ {ℓ} {S : Type ℓ} (redis : Commands S) where
  -- Several calls of `EnqueueMsg` in a row.
  pub enqueue_each : Text → Text → List Payload → S → S
  enqueue_each topic_name partition [] s = s
  enqueue_each topic_name partition (p ∷ ps) s =
      enqueue_each topic_name partition ps (enqueue_msg redis topic_name partition p s).1

  -- What calls of `ReadMsg` in a row return, each by a consumer of the group.
  pub read_each : Text → Text → List Text → S → List (Outcome (Option Payload))
  read_each topic_name partition [] s = []
  read_each topic_name partition (consumer ∷ consumers) s =
      (read_msg redis topic_name partition consumer s).0
      ∷ read_each topic_name partition consumers (read_msg redis topic_name partition consumer s).1

-- The messages, one for each consumer in turn, and nothing for those that come later.
pub handed_out : List Text → List Text → List (Option Text)
handed_out ms [] = []
handed_out [] (consumer ∷ consumers) = none ∷ handed_out [] consumers
handed_out (m ∷ ms) (consumer ∷ consumers) = some m ∷ handed_out ms consumers

module _ {ℓ} {S : Type ℓ} {redis : Commands S} {left : Text → S → Option (List Text)}
    (server : Answering redis left) (topic_name partition : Text) where
  abbrev stream : Text
  stream = render topic_name partition

  -- After its creation a group has what it had left, and nothing if it is new.
  pub group-left :
      (s : S)
      → (group_error (redis.x_group_create stream (group_of stream) (text "$") s).0 ≡ none)
        × (left stream (redis.x_group_create stream (group_of stream) (text "$") s).1
            ≡ some (waiting (left stream s)))
  group-left s = elim (Option-cases (left stream s)) [
    | inl new ↦ rw new (server.makes_group stream s new)
    | inr (ms, old) ↦ rw old (server.keeps_group stream ms s old)
  ]

  enqueue_msg-left :
      (p : Payload) (s : S)
      → ((enqueue_msg redis topic_name partition p s).0 ≡ ok tt)
        × (left stream (enqueue_msg redis topic_name partition p s).1
            ≡ some (waiting (left stream s) ++ p.message ∷ []))
  unfolding enqueue_msg
  enqueue_msg-left p s =
      let (made, l) = group-left s in
      let s' = (redis.x_group_create stream (group_of stream) (text "$") s).1 in
      let added = server.adds stream p.message s' in
      let l' = server.adds_last stream p.message (waiting (left stream s)) s' l in
      (ground arith, ground arith)

  read_msg-first :
      (consumer m : Text) (ms : List Text) (s : S)
      → left stream s ≡ some (m ∷ ms)
      → (message_read (read_msg redis topic_name partition consumer s).0 ≡ some m)
        × (left stream (read_msg redis topic_name partition consumer s).1 ≡ some ms)
  unfolding read_msg
  read_msg-first consumer m ms s l =
      let (made, l₁) = server.keeps_group stream (m ∷ ms) s l in
      let s₁ = (redis.x_group_create stream (group_of stream) (text "$") s).1 in
      let (entry, l₂) = server.reads_first stream consumer m ms s₁ l₁ in
      let s₂ = (redis.x_read_group (group_of stream) consumer stream s₁).1 in
      let (done, l₃) = server.acknowledges stream (server.entry_id stream s₁) s₂ in
      (ground arith, ground arith)

  pub read_msg-nothing :
      (consumer : Text) (s : S)
      → waiting (left stream s) ≡ []
      → ((read_msg redis topic_name partition consumer s).0 ≡ ok none)
        × (left stream (read_msg redis topic_name partition consumer s).1 ≡ some [])
  unfolding read_msg
  read_msg-nothing consumer s w =
      let (made, l) = group-left s in
      let s₁ = (redis.x_group_create stream (group_of stream) (text "$") s).1 in
      let (entry, l₂) = server.reads_nothing stream consumer s₁ (l ∙ ap some w) in
      (ground arith, ground arith)

  enqueue_each-left :
      (ps : List Payload) (s : S)
      → waiting (left stream (enqueue_each redis topic_name partition ps s))
        ≡ waiting (left stream s) ++ map message_of ps
  unfolding enqueue_each
  enqueue_each-left [] s = sym (append-nil (waiting (left stream s)))
  enqueue_each-left (p ∷ ps) s =
      enqueue_each-left ps (enqueue_msg redis topic_name partition p s).1
      ∙ (ap (λ o. waiting o ++ map message_of ps) (enqueue_msg-left p s).1
          ∙ append_assoc (waiting (left stream s)) (p.message ∷ []) (map message_of ps))

  read_each-handed_out :
      (ms consumers : List Text) (s : S)
      → waiting (left stream s) ≡ ms
      → map message_read (read_each redis topic_name partition consumers s)
        ≡ handed_out ms consumers
  unfolding read_each handed_out
  read_each-handed_out ms [] s w = refl
  read_each-handed_out [] (consumer ∷ consumers) s w =
      let (r, l) = read_msg-nothing consumer s w in
      ap₂ ◌∷◌ (ap message_read r) (
        read_each-handed_out [] consumers (read_msg redis topic_name partition consumer s).1
          (ap waiting l))
  read_each-handed_out (m ∷ ms) (consumer ∷ consumers) s w =
      let (r, l) = read_msg-first consumer m ms s (waiting-some (left stream s) m ms w) in
      ap₂ ◌∷◌ r (
        read_each-handed_out ms consumers (read_msg redis topic_name partition consumer s).1
          (ap waiting l))

  -- While the server answers every command, what a group has not read yet and then the messages that
  -- `EnqueueMsg` adds go to the group's readers, each to one of them and in order, whichever of its
  -- consumers they are, and the readers that come later get nothing.
  pub reads-handed_out :
      (ps : List Payload) (consumers : List Text) (s : S)
      → map message_read (
          read_each redis topic_name partition consumers
            (enqueue_each redis topic_name partition ps s))
        ≡ handed_out (waiting (left stream s) ++ map message_of ps) consumers
  reads-handed_out ps consumers s =
      read_each-handed_out (waiting (left stream s) ++ map message_of ps) consumers
        (enqueue_each redis topic_name partition ps s) (enqueue_each-left ps s)
