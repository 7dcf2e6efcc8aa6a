-- ===== src/WorkerPool/Fan.antt =====
-- pkg/workerpool/workerpool.go: `Merge`, whose goroutines move one at a time, in any order.
pub mod Forwarded
use arbokcore.Prelude.{
  ℕ, zero, suc, List, [], ◌∷◌, ◌++◌, Option, none, some, Bool, true, false, ltb, ◌&&◌, not,
  if◌then◌else◌,
}
use arbokcore.WorkerPool.{put_at}

-- Where the goroutine of a channel stands: at its `range`, in its select with a value, or returned.
pub data Forwarder {ℓ} (V : Type ℓ) : Type ℓ where
  ranging : Forwarder V
  forwarding : V → Forwarder V
  ended : Forwarder V

-- A channel of `chans`, with what it holds, what was ever sent on it, and its goroutine.
pub record Source {ℓ} (V : Type ℓ) : Type ℓ where
  pub held : List V
  pub arrived : List V
  pub closed : Bool
  pub forwarder : Forwarder V

-- `out` has what was sent on the channel `out`, each value with the index of its channel.
pub record Fan {ℓ} (V : Type ℓ) : Type ℓ where
  pub size : ℕ
  pub sources : ℕ → Source V
  pub out : List (ℕ × V)
  pub out_closed : Bool
  pub canceled : Bool

pub data Turn {ℓ} (V : Type ℓ) : Type ℓ where
  arrive : ℕ → V → Turn V
  shut : ℕ → Turn V
  next : ℕ → Turn V
  forward : ℕ → Turn V
  give_up : ℕ → Turn V
  cancel : Turn V
  close_out : Turn V

module _ {ℓ} {V : Type ℓ} where
  abbrev pub new_source : Source V
  new_source = record { held = []; arrived = []; closed = false; forwarder = ranging }

  -- There is no channel past the number of them.
  abbrev pub no_source : Source V
  no_source = record { held = []; arrived = []; closed = true; forwarder = ended }

  abbrev pub new_fan : ℕ → Fan V
  new_fan n = record {
    size = n;
    sources = λ i. if ltb i n then new_source else no_source;
    out = [];
    out_closed = false;
    canceled = false;
  }

  abbrev pub set_source : ℕ → Source V → Fan V → Fan V
  set_source i c s = record s { sources = put_at s.sources i c }

  -- A send on a closed channel panics.
  unfoldable pub arrived_at : ℕ → V → Source V → Fan V → Option (Fan V)
  arrived_at i v c s =
      if not c.closed
      then some
          (set_source i (record c { held = c.held ++ v ∷ []; arrived = c.arrived ++ v ∷ [] }) s)
      else none

  -- A second `close` panics.
  unfoldable pub shut_of : ℕ → Source V → Fan V → Option (Fan V)
  shut_of i c s = if not c.closed then some (set_source i (record c { closed = true }) s) else none

  -- `for v := range c`, which ends at a closed channel that holds nothing.
  unfoldable pub next_of : ℕ → Source V → List V → Forwarder V → Fan V → Option (Fan V)
  next_of i c (v ∷ vs) ranging s =
      some (set_source i (record c { held = vs; forwarder = forwarding v }) s)
  next_of i c [] ranging s =
      if c.closed then some (set_source i (record c { forwarder = ended }) s) else none
  next_of i c vs (forwarding v) s = none
  next_of i c vs ended s = none

  -- `case out <- v`, which panics when `out` is closed.
  unfoldable pub forward_of : ℕ → Source V → Forwarder V → Fan V → Option (Fan V)
  forward_of i c (forwarding v) s =
      if not s.out_closed
      then some (
          set_source i (record c { forwarder = ranging }) (record s { out = s.out ++ (i, v) ∷ [] }))
      else none
  forward_of i c ranging s = none
  forward_of i c ended s = none

  -- `case <-ctx.Done()`
  unfoldable pub give_up_of : ℕ → Source V → Forwarder V → Fan V → Option (Fan V)
  give_up_of i c (forwarding v) s =
      if s.canceled then some (set_source i (record c { forwarder = ended }) s) else none
  give_up_of i c ranging s = none
  give_up_of i c ended s = none

  abbrev pub is_ended : Forwarder V → Bool
  is_ended ranging = false
  is_ended (forwarding v) = false
  is_ended ended = true

  -- `wg.Wait()` returns.
  unfoldable pub all_ended : ℕ → (ℕ → Source V) → Bool
  all_ended zero sources = true
  all_ended (suc n) sources = is_ended (sources n).forwarder && all_ended n sources

  -- Without channels `Merge` returns before it starts the goroutine that closes `out`.
  unfoldable pub close_of : Fan V → Option (Fan V)
  unfolding all_ended
  close_of s =
      if ltb 0 s.size && (not s.out_closed && all_ended s.size s.sources)
      then some (record s { out_closed = true })
      else none

  -- `none` where the move is blocked, or panics.
  unfoldable pub turn : Turn V → Fan V → Option (Fan V)
  unfolding arrived_at shut_of next_of forward_of give_up_of close_of
  turn (arrive i v) s = arrived_at i v (s.sources i) s
  turn (shut i) s = shut_of i (s.sources i) s
  turn (next i) s = next_of i (s.sources i) (s.sources i).held (s.sources i).forwarder s
  turn (forward i) s = forward_of i (s.sources i) (s.sources i).forwarder s
  turn (give_up i) s = give_up_of i (s.sources i) (s.sources i).forwarder s
  turn cancel s = some (record s { canceled = true })
  turn close_out s = close_of s

  unfoldable pub turns : List (Turn V) → Fan V → Option (Fan V)
  turns [] s = some s
  turns (t ∷ ts) s = elim (turn t s) [ none ↦ none | some s' ↦ turns ts s' ]
