-- ===== src/Event/Counting.antt =====
-- Signals and resets of event.h, and what wakes a thread that waits.
use p2p_ps_stun.Prelude.{ℕ, ◌+◌, ◌≡◌, Bool, true, some, List, [], ◌∷◌, if◌then◌else◌, arith}
use p2p_ps_stun.Event.{
  Event, Call, signals, resets, call, calls, Turn, others, wakes, wait, wait_for,
}

abbrev pub bit : Bool → ℕ
bit b = if b then 1 else 0

-- The signals and the resets that reported true.
abbrev pub first_signals : List (Call × Bool) → ℕ
first_signals [] = 0
first_signals ((signals, b) ∷ rs) = bit b + first_signals rs
first_signals ((resets, b) ∷ rs) = first_signals rs

abbrev pub taken_signals : List (Call × Bool) → ℕ
taken_signals [] = 0
taken_signals ((signals, b) ∷ rs) = taken_signals rs
taken_signals ((resets, b) ∷ rs) = bit b + taken_signals rs

-- However the calls of several threads interleave, each signal that reports to be the first since the
-- last reset is taken by exactly one reset that reports true, or is still set at the end.
pub signals_are_taken_once :
    (cs : List Call) (e : Event)
    → first_signals (calls cs e).1 + bit e.flag
      ≡ taken_signals (calls cs e).1 + bit (calls cs e).0.flag
unfolding calls
signals_are_taken_once [] e = omega arith
signals_are_taken_once (signals ∷ cs) e =
    ground (arith, signals_are_taken_once cs (call signals e).0)
signals_are_taken_once (resets ∷ cs) e = ground (arith, signals_are_taken_once cs (call resets e).0)

-- A thread that `wait` lets go on is let go on by the limited wait over the same turns, which then
-- reports that the event was signalled.
wait_for-wait :
    (ts : List Turn) (e : Event) (rest : List Turn) → wait ts e ≡ some rest → wait_for ts e ≡ true
unfolding wait wait_for
wait_for-wait [] e rest h = ground arith
wait_for-wait (others c ∷ ts) e rest h = wait_for-wait ts (call c e).0 rest h
wait_for-wait (wakes ∷ ts) e rest h = ground (arith, wait_for-wait ts e rest)
