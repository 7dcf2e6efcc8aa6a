-- ===== src/Examples/Logs.antt =====
-- Redis streams on a server that keeps what each group has left.
use arbokcore.Prelude.{
  Text, text, Option, Dict, none, some, List, [], ◌∷◌, ◌++◌, map, lookup, insert, lookup-insert,
  strip_prefix, ==_refl, ◌≡◌, refl, arith,
}
use arbokcore.Queuer.{Payload, render}
use arbokcore.Queuer.Fifo.{message_of}
use arbokcore.Queuer.Streams.{Commands, Reply, reply, nil, failure, Entry, group_error, error_of}
use arbokcore.Queuer.Streams.Delivery.{
  Answering, waiting, message_read, enqueue_each, read_each, handed_out, reads-handed_out,
}
use arbokcore.World.{Done}

abbrev Groups : Type 0
Groups = Dict (List Text)

abbrev created : Text → Option (List Text) → Groups → Reply Done × Groups
created stream none s = (reply tt, insert stream [] s)
created stream (some ms) s = (failure (text "BUSYGROUP Consumer Group name already exists"), s)

abbrev longer : Text → Text → Option (List Text) → Groups → Groups
longer stream m none s = s
longer stream m (some ms) s = insert stream (ms ++ m ∷ []) s

abbrev taken : Text → Option (List Text) → Groups → Reply (List (List Entry)) × Groups
taken stream none s = (failure (text "NOGROUP No such consumer group"), s)
taken stream (some []) s = (nil, s)
taken stream (some (m ∷ ms)) s =
    (reply ((record { id = text "1-0"; message = some m } ∷ []) ∷ []), insert stream ms s)

abbrev groups : Commands Groups
groups = record {
  x_group_create = λ stream group start s. created stream (lookup stream s) s;
  x_add = λ stream m s. (reply (text "1-0"), longer stream m (lookup stream s) s);
  x_read_group = λ group consumer stream s. taken stream (lookup stream s) s;
  x_ack = λ stream group id s. (reply 1, s);
  flush_db = λ s. (reply tt, []);
}

lookup-insert-same :
    (stream : Text) (ms : List Text) (s : Groups) → lookup stream (insert stream ms s) ≡ some ms
lookup-insert-same stream ms s = ground (arith, lookup-insert stream stream ms s, ==_refl stream)

groups-Answering : Answering groups lookup
unfolding group_error strip_prefix error_of
groups-Answering = record {
  entry_id = λ stream s. text "1-0";
  makes_group = λ stream s l. rw l (refl, lookup-insert-same stream [] s);
  keeps_group = λ stream ms s l. rw l (refl, l);
  adds = λ stream m s. refl;
  adds_unseen = λ stream m s l. rw l l;
  adds_last = λ stream m ms s l. rw l (lookup-insert-same stream (ms ++ m ∷ []) s);
  reads_first = λ stream consumer m ms s l. rw l (refl, lookup-insert-same stream ms s);
  reads_nothing = λ stream consumer s l. rw l (refl, l);
  acknowledges = λ stream id s. (refl, refl);
}

abbrev payloads : List Payload
payloads = record { message = text "m1"; key = [] } ∷ record { message = text "m2"; key = [] } ∷ []

abbrev with_group : Groups
with_group = (text "q-ann", text "m0" ∷ []) ∷ []

-- Three messages for four readers.
reads-handed_out_example :
    map message_read (
      read_each groups
        (text "q-%s")
        (text "ann")
        (text "c1" ∷ text "c2" ∷ text "c1" ∷ text "c2" ∷ [])
        (enqueue_each groups (text "q-%s") (text "ann") payloads with_group))
    ≡ handed_out
        (waiting (lookup (render (text "q-%s") (text "ann")) with_group) ++ map message_of payloads)
        (text "c1" ∷ text "c2" ∷ text "c1" ∷ text "c2" ∷ [])
reads-handed_out_example =
    reads-handed_out groups-Answering (text "q-%s") (text "ann") payloads
      (text "c1" ∷ text "c2" ∷ text "c1" ∷ text "c2" ∷ []) with_group
