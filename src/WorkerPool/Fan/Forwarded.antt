-- ===== src/WorkerPool/Fan/Forwarded.antt =====
-- `Merge` forwards all that its channels carry, each channel's values in order.
use arbokcore.Prelude.{
  ℕ, zero, suc, ◌<◌, List, [], ◌∷◌, ◌++◌, some, true, false, ltb, eqb, eqb_iff, Bool-cases, ◌&&◌,
  not, if◌then◌else◌, Holds, Holds-bind, Holds-if, subst, ◌≡◌, refl, sym, inl, inr, arith,
}
use mathlib.Core.List.{append-nil, append_assoc}
use arbokcore.WorkerPool.{put_at}
use arbokcore.WorkerPool.Fan.{
  Forwarder, ranging, forwarding, ended, Source, Fan, Turn, arrive, shut, next, forward, give_up,
  cancel, close_out, new_fan, set_source, arrived_at, shut_of, next_of, forward_of, give_up_of,
  is_ended, all_ended, close_of, turn, turns,
}

module _ {ℓ} {V : Type ℓ} where
  -- What was forwarded of one channel.
  abbrev pub of_source : ℕ → List (ℕ × V) → List V
  of_source i [] = []
  of_source i ((j, v) ∷ out) = let rest = of_source i out in if eqb j i then v ∷ rest else rest

  abbrev in_hand : Forwarder V → List V
  in_hand ranging = []
  in_hand (forwarding v) = v ∷ []
  in_hand ended = []

  -- All that was sent on a channel was forwarded, or is with its goroutine, or in the channel; where
  -- the goroutine has ended, the channel is closed and empty.
  record Carries (forwarded : List V) (c : Source V) : Type ℓ where
    carried : c.arrived ≡ forwarded ++ (in_hand c.forwarder ++ c.held)
    finished : is_ended c.forwarder ≡ true → (c.closed ≡ true) × (c.held ≡ [])

  record IsFair (i : ℕ) (s : Fan V) : Type ℓ where
    carries : s.canceled ≡ false → Carries (of_source i s.out) (s.sources i)
    waited : s.out_closed ≡ true → all_ended s.size s.sources ≡ true

  of_source-snoc :
      (i j : ℕ) (v : V) (out : List (ℕ × V))
      → of_source i (out ++ (j, v) ∷ []) ≡ of_source i out ++ (if eqb j i then v ∷ [] else [])
  of_source-snoc i j v [] = ground arith
  of_source-snoc i j v ((k, w) ∷ out) = ground (arith, of_source-snoc i j v out)

  all_ended-put_at :
      (n j : ℕ) (c : Source V) (sources : ℕ → Source V)
      → (is_ended (sources j).forwarder ≡ true → is_ended c.forwarder ≡ true)
      → all_ended n sources ≡ true
      → all_ended n (put_at sources j c) ≡ true
  unfolding all_ended
  all_ended-put_at zero j c sources k h = refl
  all_ended-put_at (suc n) j c sources k h =
      ground (arith, all_ended-put_at n j c sources k, eqb_iff j n)

  -- A change of one channel and of what was forwarded of it.
  put-IsFair :
      (i j : ℕ) (c : Source V) (out : List (ℕ × V)) (s : Fan V)
      → IsFair i s
      → (Carries (of_source j s.out) (s.sources j) → Carries (of_source j out) c)
      → (eqb j i ≡ false → of_source i out ≡ of_source i s.out)
      → (is_ended (s.sources j).forwarder ≡ true → is_ended c.forwarder ≡ true)
      → IsFair i (set_source j c (record s { out = out }))
  put-IsFair i j c out s f mine others ends = record {
    carries = λ n. elim (Bool-cases (eqb j i)) [
      | inl same ↦
          let e = (eqb_iff j i).0 same in
          rw same (
            subst (λ k. Carries (of_source k out) c) e
              (mine (subst (λ k. Carries (of_source k s.out) (s.sources k)) (sym e) (f.carries n))))
      | inr other ↦ rw (other, others other) (f.carries n)
    ];
    waited = λ h. all_ended-put_at s.size j c s.sources ends (f.waited h);
  }

  next_of-IsFair :
      (i j : ℕ) (s : Fan V) (held : List V) (at : Forwarder V)
      → (s.sources j).held ≡ held
      → (s.sources j).forwarder ≡ at
      → IsFair i s
      → Holds (IsFair i) (next_of j (s.sources j) held at s)
  unfolding next_of
  next_of-IsFair i j s (v ∷ vs) ranging h a f =
      put-IsFair i j (record (s.sources j) { held = vs; forwarder = forwarding v }) s.out s f
        (λ o.
          let carried = o.carried in
          record { carried = ground arith; finished = λ q. ground arith })
        (λ q. refl) (λ q. ground arith)
  next_of-IsFair i j s [] ranging h a f = Holds-if (IsFair i) (s.sources j).closed _ λ closed.
      put-IsFair i j (record (s.sources j) { forwarder = ended }) s.out s f
        (λ o.
          let carried = o.carried in record { carried = ground arith; finished = λ q. (closed, h) })
        (λ q. refl) (λ q. refl)
  next_of-IsFair i j s [] (forwarding v) h a f = tt
  next_of-IsFair i j s (w ∷ ws) (forwarding v) h a f = tt
  next_of-IsFair i j s [] ended h a f = tt
  next_of-IsFair i j s (w ∷ ws) ended h a f = tt

  forward_of-IsFair :
      (i j : ℕ) (s : Fan V) (at : Forwarder V)
      → (s.sources j).forwarder ≡ at
      → IsFair i s
      → Holds (IsFair i) (forward_of j (s.sources j) at s)
  unfolding forward_of
  forward_of-IsFair i j s (forwarding v) a f = Holds-if (IsFair i) (not s.out_closed) _ λ usable.
      put-IsFair i j (record (s.sources j) { forwarder = ranging }) (s.out ++ (j, v) ∷ []) s f
        (λ o.
          let carried = o.carried in
          record {
            carried = ground (
              arith,
              of_source-snoc j j v s.out,
              append_assoc (of_source j s.out) (v ∷ []) (s.sources j).held,
            );
            finished = λ q. ground arith;
          })
        (λ q. ground (arith, of_source-snoc i j v s.out, append-nil (of_source i s.out)))
        (λ q. ground arith)
  forward_of-IsFair i j s ranging a f = tt
  forward_of-IsFair i j s ended a f = tt

  give_up_of-IsFair :
      (i j : ℕ) (s : Fan V) (at : Forwarder V)
      → (s.sources j).forwarder ≡ at
      → IsFair i s
      → Holds (IsFair i) (give_up_of j (s.sources j) at s)
  unfolding give_up_of
  give_up_of-IsFair i j s (forwarding v) a f = Holds-if (IsFair i) s.canceled _ λ canceled. record {
    carries = λ n. absurd (ground arith);
    waited = λ h.
        all_ended-put_at s.size j (record (s.sources j) { forwarder = ended }) s.sources (λ q. refl)
          (f.waited h);
  }
  give_up_of-IsFair i j s ranging a f = tt
  give_up_of-IsFair i j s ended a f = tt

  arrived_at-IsFair :
      (i j : ℕ) (v : V) (s : Fan V) → IsFair i s → Holds (IsFair i) (arrived_at j v (s.sources j) s)
  unfolding arrived_at
  arrived_at-IsFair i j v s f =
      let c = s.sources j in
      Holds-if (IsFair i) (not c.closed) _ λ usable.
        put-IsFair i j (record c { held = c.held ++ v ∷ []; arrived = c.arrived ++ v ∷ [] }) s.out s
          f
          (λ o.
            let carried = o.carried in
            let finished = o.finished in
            record {
              carried = ground (
                arith,
                append_assoc (of_source j s.out) (in_hand c.forwarder ++ c.held) (v ∷ []),
                append_assoc (in_hand c.forwarder) c.held (v ∷ []),
              );
              finished = λ q. absurd (ground (arith, finished q));
            })
          (λ q. refl) (λ q. q)

  turn-IsFair : (i : ℕ) (t : Turn V) (s : Fan V) → IsFair i s → Holds (IsFair i) (turn t s)
  unfolding turn close_of shut_of
  turn-IsFair i (arrive j v) s f = arrived_at-IsFair i j v s f
  turn-IsFair i (shut j) s f = Holds-if (IsFair i) (not (s.sources j).closed) _ λ usable.
      put-IsFair i j (record (s.sources j) { closed = true }) s.out s f
        (λ o. record { carried = o.carried; finished = λ q. (refl, (o.finished q).1) }) (λ q. refl)
        (λ q. q)
  turn-IsFair i (next j) s f =
      next_of-IsFair i j s (s.sources j).held (s.sources j).forwarder refl refl f
  turn-IsFair i (forward j) s f = forward_of-IsFair i j s (s.sources j).forwarder refl f
  turn-IsFair i (give_up j) s f = give_up_of-IsFair i j s (s.sources j).forwarder refl f
  turn-IsFair i cancel s f = record { carries = λ n. absurd (ground arith); waited = f.waited }
  turn-IsFair i close_out s f =
      Holds-if (IsFair i) (ltb 0 s.size && (not s.out_closed && all_ended s.size s.sources)) _
        λ q. record { carries = f.carries; waited = λ h. ground arith }

  turns-IsFair :
      (i : ℕ) (ts : List (Turn V)) (s : Fan V) → IsFair i s → Holds (IsFair i) (turns ts s)
  unfolding turns
  turns-IsFair i [] s f = f
  turns-IsFair i (t ∷ ts) s f =
      Holds-bind (IsFair i) (IsFair i) (turn t s) (turns ts) (turns-IsFair i ts)
        (turn-IsFair i t s f)

  all_ended-at :
      (n i : ℕ) (sources : ℕ → Source V)
      → i < n
      → all_ended n sources ≡ true
      → is_ended (sources i).forwarder ≡ true
  unfolding all_ended
  all_ended-at zero i sources l h = absurd (omega (arith, l))
  all_ended-at (suc n) i sources l h = elim (Bool-cases (eqb i n)) [
    | inl same ↦ rw ((eqb_iff i n).0 same) (ground arith)
    | inr other ↦ all_ended-at n i sources (ground (arith, eqb_iff i n)) (ground arith)
  ]

  new_fan-IsFair : (n i : ℕ) → IsFair i (new_fan n)
  new_fan-IsFair n i = record {
    carries = λ q. elim (Bool-cases (ltb i n)) [
      | inl below ↦ rw below (record { carried = refl; finished = λ e. ground arith })
      | inr past ↦ rw past (record { carried = refl; finished = λ e. (refl, refl) })
    ];
    waited = λ q. ground arith;
  }

  -- `Merge` closes `out` when it has forwarded everything, and nothing else: in a state that it reaches
  -- without a cancellation, by moves in any order, where `out` is closed, each of its channels is
  -- closed, and what was forwarded of the channel is what was ever sent on it, in the same order.
  pub out_closed-forwarded :
      (n i : ℕ) (ts : List (Turn V)) (s : Fan V)
      → turns ts (new_fan n) ≡ some s
      → i < s.size
      → s.out_closed ≡ true
      → s.canceled ≡ false
      → ((s.sources i).closed ≡ true) × (of_source i s.out ≡ (s.sources i).arrived)
  out_closed-forwarded n i ts s h l closed running =
      let f : IsFair i s =
        subst (Holds (IsFair i)) h (turns-IsFair i ts (new_fan n) (new_fan-IsFair n i)) in
      let done = all_ended-at s.size i s.sources l (f.waited closed) in
      let c = f.carries running in
      let (no_more, empty) = c.finished done in
      let carried = c.carried in (no_more, ground (arith, append-nil (of_source i s.out)))
