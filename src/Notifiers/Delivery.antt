-- ===== src/Notifiers/Delivery.antt =====
-- What `Notify` returns, and what it puts on the queues of the users.
use mathlib.Core.List.{append-nil, append_assoc}
use arbokcore.Queuer.{queue_items}
use arbokcore.Queuer.Fifo.{queue_items-push}
use arbokcore.Queuer.Partitions.{user_queue, enqueue_msg-other_user}
use arbokcore.Prelude.{
  ◌==◌, eq_iff, Bool-cases, if◌then◌else◌, Text, Option, none, some, List, [], ◌∷◌, ◌++◌, map, true,
  false, ◌≡◌, inl, inr, refl, sym, ap, ◌∙◌, arith, List-cases,
}
use arbokcore.Files.Requests.{Codec}
use arbokcore.Notifiers.{
  MetadataUpdateStatusEvent, PartialError, error_of, PayloadMap, payload_map, send_all, notify,
}
use arbokcore.Queuer.{Payload, rpush, enqueue_msg, metadata_update_clients_notifier_queue}
use arbokcore.World.{World, ok, panic, Outcome-cases}

enqueue_msg-answers :
    (user_id : Text) (payload : Payload) (w : World)
    → w.answers ≡ []
    → ((enqueue_msg metadata_update_clients_notifier_queue user_id payload w).0 ≡ ok tt)
      × ((enqueue_msg metadata_update_clients_notifier_queue user_id payload w).1.answers ≡ [])
unfolding enqueue_msg rpush
enqueue_msg-answers user_id payload w h = (ground arith, ground arith)

send_all-answers :
    (ps : List (Option PayloadMap)) (w : World) → w.answers ≡ [] → (send_all ps w).0 ≡ ok []
unfolding send_all
send_all-answers [] w h = refl
send_all-answers (none ∷ ps) w h = send_all-answers ps w h
send_all-answers (some p ∷ ps) w h =
    let run = enqueue_msg metadata_update_clients_notifier_queue p.user_id p.payload w in
    let (o, a) = enqueue_msg-answers p.user_id p.payload w h in
    ground (arith, o, send_all-answers ps run.1 a)

-- The messages for one user, in order.
unfoldable pub messages_to : Text → List (Option PayloadMap) → List Text
messages_to user_id [] = []
messages_to user_id (none ∷ ps) = messages_to user_id ps
messages_to user_id (some p ∷ ps) =
    let rest = messages_to user_id ps in
    if p.user_id == user_id then p.payload.message ∷ rest else rest

enqueue_msg-queue :
    (user_id other : Text) (payload : Payload) (w : World)
    → w.answers ≡ []
    → queue_items
        (user_queue other)
        (enqueue_msg metadata_update_clients_notifier_queue user_id payload w).1
      ≡ queue_items (user_queue other) w ++ (if user_id == other then payload.message ∷ [] else [])
enqueue_msg-queue user_id other payload w h = elim (Bool-cases (user_id == other)) [
  | inl same ↦
      rw (same, (eq_iff user_id other).0 same)
        (unfold enqueue_msg in queue_items-push (user_queue other) payload.message w h)
  | inr apart ↦
      rw (apart, append-nil)
        (enqueue_msg-other_user user_id other payload w
          (λ e. true-ne-false (sym ((eq_iff user_id other).1 e) ∙ apart)))
]
  where
    true-ne-false : true ≡ false → ⊥
    true-ne-false e = cc

send_all-queue :
    (user_id : Text) (ps : List (Option PayloadMap)) (w : World)
    → w.answers ≡ []
    → queue_items (user_queue user_id) (send_all ps w).1
      ≡ queue_items (user_queue user_id) w ++ messages_to user_id ps
unfolding send_all messages_to
send_all-queue user_id [] w h = rw append-nil
send_all-queue user_id (none ∷ ps) w h = send_all-queue user_id ps w h
send_all-queue user_id (some p ∷ ps) w h =
    let run = enqueue_msg metadata_update_clients_notifier_queue p.user_id p.payload w in
    let (o, a) = enqueue_msg-answers p.user_id p.payload w h in
    let rest = send_all-queue user_id ps run.1 a in
    let sent = send_all-answers ps run.1 a in
    let here = enqueue_msg-queue p.user_id user_id p.payload w h in
    let joined =
      append_assoc (queue_items (user_queue user_id) w)
        (if p.user_id == user_id then p.payload.message ∷ [] else []) (messages_to user_id ps) in
    let same : (send_all (some p ∷ ps) w).1 ≡ (send_all ps run.1).1 = ground (arith, o, sent) in
    ap (queue_items (user_queue user_id)) same
    ∙ (rest ∙ (ap (λ l. l ++ messages_to user_id ps) here ∙ (joined ∙ ground arith)))

-- While Redis answers every call, `Notify` returns no error, and the queue of each user has the
-- messages of the events for this user that could be encoded added at its end, in order.
pub notify-answers :
    (codec : Codec MetadataUpdateStatusEvent) (events : List MetadataUpdateStatusEvent)
    (user_id : Text) (w : World)
    → w.answers ≡ []
    → ((notify codec events w).0 ≡ ok none)
      × (queue_items (user_queue user_id) (notify codec events w).1
          ≡ queue_items (user_queue user_id) w
            ++ messages_to user_id (map (payload_map codec) events))
unfolding notify
notify-answers codec events user_id w h =
    let sent = send_all-answers (map (payload_map codec) events) w h in
    (
      ground (arith, sent),
      ground (arith, sent, send_all-queue user_id (map (payload_map codec) events) w h),
    )

send_all-leaves :
    (ps : List (Option PayloadMap)) (w : World) → w.answers ≡ [] → (send_all ps w).1.answers ≡ []
unfolding send_all
send_all-leaves [] w h = h
send_all-leaves (none ∷ ps) w h = send_all-leaves ps w h
send_all-leaves (some p ∷ ps) w h =
    let run = enqueue_msg metadata_update_clients_notifier_queue p.user_id p.payload w in
    let (o, a) = enqueue_msg-answers p.user_id p.payload w h in
    ground (arith, o, send_all-answers ps run.1 a, send_all-leaves ps run.1 a)

pub notify-leaves :
    (codec : Codec MetadataUpdateStatusEvent) (events : List MetadataUpdateStatusEvent) (w : World)
    → w.answers ≡ []
    → (notify codec events w).1.answers ≡ []
unfolding notify
notify-leaves codec events w h =
    let ps = map (payload_map codec) events in
    ground (arith, send_all-answers ps w h, send_all-leaves ps w h)

-- Every error that `Notify` returns wraps no error, so that printing it panics.
pub notify-error_of :
    (codec : Codec MetadataUpdateStatusEvent) (events : List MetadataUpdateStatusEvent) (w : World)
    {perr : PartialError}
    → (notify codec events w).0 ≡ ok (some perr)
    → error_of perr ≡ panic
unfolding notify error_of
notify-error_of codec events w {perr} h =
    let run = send_all (map (payload_map codec) events) w in
    elim (Outcome-cases run.0) [
      | inr (inl (x, e)) ↦ absurd (ground (arith, e))
      | inr (inr e) ↦ absurd (ground (arith, e))
      | inl (failed, e) ↦ elim (List-cases failed) [
        | inl n ↦ absurd (ground (arith, e, n))
        | inr (p, ps, c) ↦ ground (arith, e, c)
      ]
    ]
