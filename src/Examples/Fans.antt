-- ===== src/Examples/Fans.antt =====
-- A merge of two channels.
use arbokcore.Prelude.{ℕ, Option, none, some, List, [], ◌∷◌, true, ◌≡◌, refl, arith}
use arbokcore.WorkerPool.Fan.{
  Fan, Turn, arrive, shut, next, forward, close_out, new_fan, turns, turn,
}
use arbokcore.WorkerPool.Fan.Forwarded.{of_source, out_closed-forwarded}

abbrev both : List (Turn ℕ)
both =
    arrive 0 7
    ∷ arrive 1 8
    ∷ next 1
    ∷ next 0
    ∷ forward 1
    ∷ forward 0
    ∷ shut 0
    ∷ shut 1
    ∷ next 1
    ∷ next 0
    ∷ close_out
    ∷ []

abbrev reached : Option (Fan ℕ) → Fan ℕ
reached none = new_fan 0
reached (some s) = s

abbrev merged : Fan ℕ
merged = reached (turns both (new_fan 2))

out_closed-forwarded_example :
    ((merged.sources 1).closed ≡ true) × (of_source 1 merged.out ≡ (merged.sources 1).arrived)
unfolding turns turn
out_closed-forwarded_example = out_closed-forwarded 2 1 both merged refl (omega arith) refl refl
