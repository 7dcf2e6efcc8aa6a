-- ===== src/Supervisors/Producer.antt =====
-- `Produce` of core/supervisors/metadata.changelog.go and of core/supervisors/metadata.notifier.go: a
-- loop over the demands. One reads the workers' queue, the other the queue of the demand's user.
pub mod Answers
use arbokcore.Prelude.{ℕ, zero, suc, Text, Option, none, some, List, [], ◌∷◌, Bool, true, false}
use arbokcore.Prelude.Int.{ℤ, pos, negsuc}
use arbokcore.Queuer.{Payload, read_msg}
use arbokcore.World.{Go, Result, value, error, pure, attempt, ◌>>=◌}

pub record Demand : Type 0 where
  pub count : ℤ
  pub user_id : Text

-- A nil payload is left out.
unfoldable pub kept : Option Payload → List Payload → List Payload
kept none results = results
kept (some payload) results = payload ∷ results

unfoldable pub read_times : Text → Text → ℕ → Go (List Payload)
unfolding kept
read_times topic_name user_id zero = pure []
read_times topic_name user_id (suc n) = do
  payload ← read_msg topic_name user_id
  results ← read_times topic_name user_id n
  pure (kept payload results)

-- A count below 1 reads nothing.
unfoldable pub read_demand : Text → Demand → Go (List Payload)
read_demand topic_name demand = elim demand.count [
  | pos n ↦ read_times topic_name demand.user_id n
  | negsuc n ↦ pure []
]

-- What was sent for the demands, in order, and whether the loop goes on: it returns at the first
-- error of a read, and closes its channel.
pub record Produced : Type 0 where
  pub batches : List (List Payload)
  pub running : Bool

abbrev pub before : List Payload → Produced → Produced
before results rest = record rest { batches = results ∷ rest.batches }

unfoldable pub produced : Go Produced → Result (List Payload) → Go Produced
produced rest (error e) = pure (record { batches = []; running = false })
produced rest (value results) = do later ← rest; pure (before results later)

unfoldable pub produce : Text → List Demand → Go Produced
unfolding produced
produce topic_name [] = pure (record { batches = []; running = true })
produce topic_name (demand ∷ demands) = do
  r ← attempt (read_demand topic_name demand)
  produced (produce topic_name demands) r
