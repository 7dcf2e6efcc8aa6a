-- ===== src/Queuer.antt =====
-- pkg/queuer/redis.queue.go, with the templates of pkg/templating/template.go: queues that are Redis
-- lists, written by RPUSH and read by BLPOP.
pub mod Fifo
pub mod Partitions
pub mod Streams
use arbokcore.Prelude.{
  ℕ, Text, text, ◌==◌, Option, none, some, List, [], ◌∷◌, ◌++◌, Dict, lookup, insert, Bool, true,
  false, ◌&&◌, ◌||◌, eqb, if◌then◌else◌,
}
use arbokcore.World.{
  World, Done, Go, Outcome, ok, err, panic, Result, value, error, pure, fail, attempt, call, ◌>>=◌,
  ◌>>◌,
}

-- The source's TTL is never read.
pub record Payload : Type 0 where
  pub message : Text
  pub key : Text

abbrev pub metadata_file_update_queue : Text
metadata_file_update_queue = text "q::metadata::update::file"

abbrev pub metadata_update_clients_notifier_queue : Text
metadata_update_clients_notifier_queue = text "q::metadata::update::clients::%s"

unfoldable pub has_percent : Text → Bool
has_percent [] = false
has_percent (c ∷ s) = eqb c b'%' || has_percent s

-- `fmt.Sprintf(tmpl, value)` for a template whose only verb is one `%s`.
unfoldable pub sprintf : Text → Text → Text
sprintf [] arg = []
sprintf (c ∷ []) arg = c ∷ []
sprintf (c ∷ d ∷ s) arg =
    let rest = sprintf (d ∷ s) arg in if eqb c b'%' && eqb d b's' then arg ++ s else c ∷ rest

-- `NewTemplateString(tmpl)(arg)`
unfoldable pub render : Text → Text → Text
unfolding has_percent sprintf
render tmpl arg = if has_percent tmpl then sprintf tmpl arg else tmpl

-- A list that Redis does not have is empty.
abbrev pub items : Option (List Text) → List Text
items none = []
items (some l) = l

abbrev pub queue_items : Text → World → List Text
queue_items name w = items (lookup name w.queues)

abbrev pub set_queue : Text → List Text → World → World
set_queue name l w = record w { queues = insert name l w.queues }

push : Text → Text → Go Done
push name message w = (ok tt, set_queue name (queue_items name w ++ message ∷ []) w)

-- RPUSH
unfoldable pub rpush : Text → Text → Go Done
unfolding push
rpush name message = do call; push name message

unfoldable pub enqueue_msg : Text → Text → Payload → Go Done
unfolding rpush
enqueue_msg topic_name partition payload = rpush (render topic_name partition) payload.message

-- The payloads that could not be pushed; `EnqueueMsgs` does not render its topic.
unfoldable pub push_all : Text → List Payload → Go (List Payload)
push_all topic_name [] = pure []
push_all topic_name (p ∷ ps) = do
  r ← attempt (rpush topic_name p.message)
  failed ← push_all topic_name ps
  elim r [ value u ↦ pure failed | error e ↦ pure (p ∷ failed) ]

pub data EnqueueResult : Type 0 where
  enqueued : EnqueueResult
  partial_failure : List Payload → EnqueueResult

abbrev pub enqueue_result : List Payload → EnqueueResult
enqueue_result [] = enqueued
enqueue_result (p ∷ ps) = partial_failure (p ∷ ps)

unfoldable pub enqueue_msgs : Text → Text → List Payload → Go EnqueueResult
unfolding push_all
enqueue_msgs topic_name partition payloads = do
  failed ← push_all topic_name payloads
  pure (enqueue_result failed)

-- BLPOP of one list, with a timeout: `none` is `redis.Nil`.
pop : Text → List Text → Go (Option Text)
pop name [] w = (ok none, w)
pop name (m ∷ ms) w = (ok (some m), set_queue name ms w)

unfoldable pub blpop : Text → Go (Option Text)
unfolding pop
blpop name = do call; λ w. pop name (queue_items name w) w

abbrev payload_of : Text → Option Text → Option Payload
payload_of name none = none
payload_of name (some m) = some (record { message = m; key = name })

-- The payload is nil where no message came before the timeout.
unfoldable pub read_msg : Text → Text → Go (Option Payload)
unfolding blpop
read_msg topic_name partition = do
  m ← blpop (render topic_name partition)
  pure (payload_of (render topic_name partition) m)
