-- ===== src/Queuer/Fifo.antt =====
-- The queue under one name is first in, first out.
use mathlib.Core.List.{append-nil, append_assoc}
use arbokcore.Prelude.{
  ℕ, zero, suc, Text, ==_refl, Option, some, List, [], ◌∷◌, ◌++◌, map, lookup-insert, ◌≡◌, refl, ap,
  ap₂, ◌∙◌, arith, length,
}
use arbokcore.World.{World, Outcome, ok}
use arbokcore.Queuer.{Payload, render, queue_items, rpush, enqueue_msg, read_msg}

pub queue_items-push :
    (name message : Text) (w : World)
    → w.answers ≡ []
    → queue_items name (rpush name message w).1 ≡ queue_items name w ++ message ∷ []
unfolding rpush
queue_items-push name message w h =
    ground
      (arith, ==_refl name, lookup-insert name name (queue_items name w ++ message ∷ []) w.queues)

-- Several calls of `EnqueueMsg` in a row.
pub enqueue_each : Text → Text → List Payload → World → World
enqueue_each topic_name partition [] w = w
enqueue_each topic_name partition (p ∷ ps) w =
    enqueue_each topic_name partition ps (enqueue_msg topic_name partition p w).1

-- The results of n calls of `ReadMsg` in a row.
pub read_each : Text → Text → ℕ → World → List (Outcome (Option Payload))
read_each topic_name partition zero w = []
read_each topic_name partition (suc n) w =
    (read_msg topic_name partition w).0
    ∷ read_each topic_name partition n (read_msg topic_name partition w).1

abbrev pub message_of : Payload → Text
message_of p = p.message

enqueue_each-items :
    (topic_name partition : Text) (ps : List Payload) (w : World)
    → w.answers ≡ []
    → (queue_items (render topic_name partition) (enqueue_each topic_name partition ps w)
        ≡ queue_items (render topic_name partition) w ++ map message_of ps)
      × ((enqueue_each topic_name partition ps w).answers ≡ [])
unfolding enqueue_each enqueue_msg
enqueue_each-items topic_name partition [] w h = (rw append-nil, h)
enqueue_each-items topic_name partition (p ∷ ps) w h =
    let w' = (rpush (render topic_name partition) p.message w).1 in
    let calm : w'.answers ≡ [] = unfold rpush in ground arith in
    let (q, a) = enqueue_each-items topic_name partition ps w' calm in
    (
      q
          ∙ (ap (λ l. l ++ map message_of ps)
                (queue_items-push (render topic_name partition) p.message w h)
              ∙ append_assoc (queue_items (render topic_name partition) w) (p.message ∷ [])
                  (map message_of ps)),
      a,
    )

-- What a read of a message returns.
abbrev pub received : Text → Text → Text → Outcome (Option Payload)
received topic_name partition m =
    ok (some (record { message = m; key = render topic_name partition }))

pub read_msg-cons :
    (topic_name partition m : Text) (ms : List Text) (w : World)
    → w.answers ≡ []
    → queue_items (render topic_name partition) w ≡ m ∷ ms
    → ((read_msg topic_name partition w).0 ≡ received topic_name partition m)
      × ((read_msg topic_name partition w).1.answers ≡ [])
      × (queue_items (render topic_name partition) (read_msg topic_name partition w).1 ≡ ms)
unfolding read_msg
read_msg-cons topic_name partition m ms w h q =
    let name = render topic_name partition in
    (
      ground (arith, h, q),
      ground (arith, h, q),
      ground (arith, h, q, ==_refl name, lookup-insert name name ms w.queues),
    )

read_each-items :
    (topic_name partition : Text) (ms : List Text) (w : World)
    → w.answers ≡ []
    → queue_items (render topic_name partition) w ≡ ms
    → read_each topic_name partition (length ms) w ≡ map (received topic_name partition) ms
unfolding read_each
read_each-items topic_name partition [] w h q = refl
read_each-items topic_name partition (m ∷ ms) w h q =
    let (r, a, rest) = read_msg-cons topic_name partition m ms w h q in
    ap₂ ◌∷◌ r (read_each-items topic_name partition ms (read_msg topic_name partition w).1 a rest)

-- Messages that `EnqueueMsg` puts on an empty queue come back from as many calls of `ReadMsg` on
-- the same partition, each once and in order, while Redis answers every call.
pub read_each-enqueue_each :
    (topic_name partition : Text) (ps : List Payload) (w : World)
    → w.answers ≡ []
    → queue_items (render topic_name partition) w ≡ []
    → read_each topic_name partition
        (length (map message_of ps))
        (enqueue_each topic_name partition ps w)
      ≡ map (received topic_name partition) (map message_of ps)
read_each-enqueue_each topic_name partition ps w h q =
    let (l, a) = enqueue_each-items topic_name partition ps w h in
    read_each-items topic_name partition (map message_of ps)
      (enqueue_each topic_name partition ps w) a (rw q at l)
