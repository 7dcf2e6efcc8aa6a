-- ===== src/Supervisors/Producer/Answers.antt =====
-- The reads for a demand while Redis answers.
use arbokcore.Prelude.{
  ℕ, zero, suc, Text, Option, none, some, List, List-cases, [], inl, inr, ◌≡◌, refl, arith,
}
use arbokcore.Prelude.Int.{ℤ, pos, negsuc}
use arbokcore.Queuer.{Payload, render, queue_items, read_msg}
use arbokcore.Supervisors.Producer.{Demand, kept, read_times, read_demand}
use arbokcore.World.{World, Outcome, ok}

-- While Redis answers every call, the reads return payloads.
unfoldable pub IsRead : Outcome (List Payload) × World → Type 0
IsRead run = ((payloads : List Payload) × (run.0 ≡ ok payloads)) × (run.1.answers ≡ [])

read_msg-IsAnswered :
    (topic_name user_id : Text) (w : World)
    → w.answers ≡ []
    → ((p : Option Payload) × ((read_msg topic_name user_id w).0 ≡ ok p))
      × ((read_msg topic_name user_id w).1.answers ≡ [])
unfolding read_msg
read_msg-IsAnswered topic_name user_id w h =
    let name = render topic_name user_id in
    elim (List-cases (queue_items name w)) [
      | inl e ↦ ((none, ground (arith, h, e)), ground (arith, h, e))
      | inr (m, ms, e) ↦
          ((some (record { message = m; key = name }), ground (arith, h, e)), ground (arith, h, e))
    ]

read_times-IsRead :
    (topic_name user_id : Text) (n : ℕ) (w : World)
    → w.answers ≡ []
    → IsRead (read_times topic_name user_id n w)
unfolding IsRead read_times
read_times-IsRead topic_name user_id zero w h = (([], refl), h)
read_times-IsRead topic_name user_id (suc n) w h =
    let ((p, o), a) = read_msg-IsAnswered topic_name user_id w h in
    let ((ps, q), b) = read_times-IsRead topic_name user_id n (read_msg topic_name user_id w).1 a in
    ((kept p ps, ground (arith, o, q)), ground (arith, o, q, b))

count-IsRead :
    (topic_name user_id : Text) (n : ℤ) (w : World)
    → w.answers ≡ []
    → IsRead (read_demand topic_name (record { count = n; user_id = user_id }) w)
unfolding IsRead read_demand
count-IsRead topic_name user_id (pos n) w h = read_times-IsRead topic_name user_id n w h
count-IsRead topic_name user_id (negsuc n) w h = (([], refl), h)

pub read_demand-IsRead :
    (topic_name : Text) (d : Demand) (w : World)
    → w.answers ≡ []
    → IsRead (read_demand topic_name d w)
read_demand-IsRead topic_name d w h = count-IsRead topic_name d.user_id d.count w h
