-- ===== src/Queuer/Streams/Lost.antt =====
-- A message that EnqueueMsgs adds to a stream without a group, or whose acknowledgement fails, is lost.
use arbokcore.Prelude.{Text, text, Option, none, some, List, [], ◌∷◌, ◌++◌, ◌≡◌, refl, ap, arith}
use arbokcore.Queuer.{Payload, render, enqueued}
use arbokcore.Queuer.Streams.{Commands, failure, group_of, enqueue_msgs, add_all, read_msg}
use arbokcore.Queuer.Streams.Delivery.{Answering, waiting, read_msg-nothing}
use arbokcore.World.{ok, err}

module _ {ℓ} {S : Type ℓ} {redis : Commands S} {left : Text → S → Option (List Text)}
    (server : Answering redis left) (topic_name partition : Text) where
  abbrev stream : Text
  stream = render topic_name partition

  add_all-unseen :
      (ps : List Payload) (s : S)
      → left stream s ≡ none
      → ((add_all redis stream ps s).0 ≡ []) × (left stream (add_all redis stream ps s).1 ≡ none)
  unfolding add_all
  add_all-unseen [] s l = (refl, l)
  add_all-unseen (p ∷ ps) s l =
      let s' = (redis.x_add stream p.message s).1 in
      let added = server.adds stream p.message s in
      let (failed, l') = add_all-unseen ps s' (server.adds_unseen stream p.message s l) in
      (ground arith, ground arith)

  -- While the server answers every command, what `EnqueueMsgs` adds to a stream without a group is
  -- answered as enqueued, but the next `ReadMsg` of the partition returns nothing, whichever the
  -- payloads, and leaves its group with no message to read.
  pub enqueue_msgs-lost :
      (ps : List Payload) (consumer : Text) (s : S)
      → left stream s ≡ none
      → ((enqueue_msgs redis topic_name partition ps s).0 ≡ enqueued)
        × ((read_msg redis topic_name partition consumer
              (enqueue_msgs redis topic_name partition ps s).1).0
            ≡ ok none)
        × (left stream
              (read_msg redis topic_name partition consumer
                (enqueue_msgs redis topic_name partition ps s).1).1
            ≡ some [])
  unfolding enqueue_msgs
  enqueue_msgs-lost ps consumer s l =
      let (failed, l') = add_all-unseen ps s l in
      let s' = (add_all redis stream ps s).1 in
      let (nothing, empty) =
        read_msg-nothing server topic_name partition consumer s' (ap waiting l') in
      (ground arith, nothing, empty)

  -- The server, where acknowledgements fail.
  abbrev pub unacknowledging : Text → Commands S
  unacknowledging e = record redis { x_ack = λ stream group id s. (failure e, s) }

  -- While the server answers every other command, a `ReadMsg` whose acknowledgement fails returns an
  -- error, and not the message, which the group has not left for a later read either.
  pub read_msg-unacknowledged :
      (e consumer m : Text) (ms : List Text) (s : S)
      → left stream s ≡ some (m ∷ ms)
      → (id : Text) × ((read_msg (unacknowledging e) topic_name partition consumer s).0
          ≡ err (text "failed to acknowledge message " ++ id ++ text ": " ++ e))
        × (left stream (read_msg (unacknowledging e) topic_name partition consumer s).1 ≡ some ms)
  unfolding read_msg
  read_msg-unacknowledged e consumer m ms s l =
      let (made, l₁) = server.keeps_group stream (m ∷ ms) s l in
      let s₁ = (redis.x_group_create stream (group_of stream) (text "$") s).1 in
      let (entry, l₂) = server.reads_first stream consumer m ms s₁ l₁ in
      (server.entry_id stream s₁, ground arith, ground arith)
