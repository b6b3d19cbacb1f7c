-- ===== src/Dev/Devices/Settle.antt =====
-- tboot/src/dev.rs: `wait_for_settle`, over a channel.
use tinyboot.Prelude.{
  ℕ, zero, suc, ◌<◌, Bool, true, false, List, [], ◌∷◌, Option, none, some, if◌then◌else◌, leb,
  length, ◌≡◌, refl, arith, not, ◌&&◌,
}

pub data RecvTimeout : Type 0 where
  message timeout disconnected : RecvTimeout

-- The receiver of a channel: the times between the messages that are to come, and whether the
-- sender is dropped behind them.
pub record Receiver : Type 0 where
  pub gaps : List ℕ
  pub dropped : Bool

abbrev pub silence : Bool → RecvTimeout
silence true = disconnected
silence false = timeout

abbrev pub receive : ℕ → Bool → List ℕ → RecvTimeout × List ℕ
receive max_wait dropped [] = (silence dropped, [])
receive max_wait dropped (g ∷ gs) = if leb g max_wait then (message, gs) else (timeout, g ∷ gs)

-- `Receiver::recv_timeout`
unfoldable pub recv_timeout : ℕ → Receiver → RecvTimeout × Receiver
recv_timeout max_wait rx =
    let (r, gaps) = receive max_wait rx.dropped rx.gaps in (r, record rx { gaps = gaps })

-- The loop, for a number of rounds: the receiver that is left, or none if it has not ended.
pub wait_for_settle : ℕ → ℕ → Receiver → Option Receiver
wait_for_settle zero max_wait rx = none
wait_for_settle (suc rounds) max_wait rx =
    let (r, rx') = recv_timeout max_wait rx in
    let again = wait_for_settle rounds max_wait rx' in
    elim r [ timeout ↦ some rx' | message ↦ again | disconnected ↦ again ]

-- Is there a pause that is longer than the wait?
abbrev pub pauses : ℕ → List ℕ → Bool
pauses max_wait [] = false
pauses max_wait (g ∷ gs) = if leb g max_wait then pauses max_wait gs else true

-- The times from the first long pause on.
abbrev pub from_pause : ℕ → List ℕ → List ℕ
from_pause max_wait [] = []
from_pause max_wait (g ∷ gs) = if leb g max_wait then from_pause max_wait gs else g ∷ gs

-- With more rounds than messages, the loop has ended with the messages behind the first pause that is
-- longer than the wait still to come, or else, where the sender is dropped and there is no such
-- pause, it has not ended in any number of rounds.
pub wait_for_settle-ends :
    (max_wait rounds : ℕ) (gaps : List ℕ) (dropped : Bool)
    → length gaps < rounds
    → wait_for_settle rounds max_wait (record { gaps = gaps; dropped = dropped }) ≡ (
        if dropped && not (pauses max_wait gaps)
        then none
        else some (record { gaps = from_pause max_wait gaps; dropped = dropped }))
unfolding wait_for_settle recv_timeout
wait_for_settle-ends max_wait zero gaps dropped lt = elim lt [ ]
wait_for_settle-ends max_wait (suc zero) [] true lt = refl
wait_for_settle-ends max_wait (suc (suc rounds)) [] true lt =
    wait_for_settle-ends max_wait (suc rounds) [] true (omega arith)
wait_for_settle-ends max_wait (suc rounds) [] false lt = refl
wait_for_settle-ends max_wait (suc rounds) (g ∷ gs) dropped lt =
    ground (arith, wait_for_settle-ends max_wait rounds gs dropped)
