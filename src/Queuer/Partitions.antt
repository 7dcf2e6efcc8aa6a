-- ===== src/Queuer/Partitions.antt =====
-- The queues of the users, which the template of the notification topic tells apart.
use mathlib.Core.List.{append-nil}
use arbokcore.Prelude.{
  Text, text, eq_iff, strip_prefix-append, List, [], ◌∷◌, ◌++◌, lookup-insert, ◌≡◌, ◌≢◌, refl, sym,
  arith,
}
use arbokcore.World.{World}
use arbokcore.Queuer.{
  Payload, render, queue_items, rpush, push_all, enqueue_msg, enqueue_msgs,
  metadata_update_clients_notifier_queue,
}

abbrev pub user_queue : Text → Text
user_queue = render metadata_update_clients_notifier_queue

user_queue-prefix : (user : Text) → user_queue user ≡ text "q::metadata::update::clients::" ++ user
unfolding render
user_queue-prefix user = rw append-nil

user_queue_injective : (u v : Text) → user_queue u ≡ user_queue v → u ≡ v
user_queue_injective u v e =
    let p = text "q::metadata::update::clients::" in
    cc (
      strip_prefix-append p u,
      strip_prefix-append p v,
      user_queue-prefix u,
      user_queue-prefix v,
      e,
    )

rpush-other :
    (name other message : Text) (w : World)
    → name ≢ other
    → queue_items other (rpush name message w).1 ≡ queue_items other w
unfolding rpush
rpush-other name other message w h = ground (
  arith,
  eq_iff name other,
  lookup-insert name other (queue_items name w ++ message ∷ []) w.queues,
)

-- A notification for one user leaves the queue of every other user as it was.
pub enqueue_msg-other_user :
    (u v : Text) (payload : Payload) (w : World)
    → u ≢ v
    → queue_items (user_queue v) (enqueue_msg metadata_update_clients_notifier_queue u payload w).1
      ≡ queue_items (user_queue v) w
unfolding enqueue_msg
enqueue_msg-other_user u v payload w h =
    rpush-other (user_queue u) (user_queue v) payload.message w
      (λ e. h (user_queue_injective u v e))

raw_ne_user_queue :
    (user : Text) → user ≢ text "%s" → metadata_update_clients_notifier_queue ≢ user_queue user
raw_ne_user_queue user h e =
    let p = text "q::metadata::update::clients::" in
    h (
      sym (
        cc (
          strip_prefix-append p user,
          strip_prefix-append p (text "%s"),
          user_queue-prefix user,
          e,
        )))

push_all-other :
    (name other : Text) (ps : List Payload) (w : World)
    → name ≢ other
    → queue_items other (push_all name ps w).1 ≡ queue_items other w
unfolding push_all
push_all-other name other [] w h = refl
push_all-other name other (p ∷ ps) w h = ground (
  arith,
  rpush-other name other p.message w h,
  push_all-other name other ps (rpush name p.message w).1 h,
)

-- `EnqueueMsgs` pushes to the topic without rendering it: on the notification topic, no call of it
-- reaches the queue of any user but one named "%s".
pub enqueue_msgs-misses :
    (user partition : Text) (payloads : List Payload) (w : World)
    → user ≢ text "%s"
    → queue_items
        (user_queue user)
        (enqueue_msgs metadata_update_clients_notifier_queue partition payloads w).1
      ≡ queue_items (user_queue user) w
unfolding enqueue_msgs
enqueue_msgs-misses user partition payloads w h = ground (
  arith,
  push_all-other metadata_update_clients_notifier_queue (user_queue user) payloads w
      (raw_ne_user_queue user h),
)
