-- ===== src/Event.antt =====
-- `event_t`, P2P_PS/sources/common/event.h: a flag that threads wait for. Each operation holds the
-- mutex, so threads that share an event act on it one after the other.
pub mod Counting
use p2p_ps_stun.Prelude.{Bool, true, false, not, Option, none, some, List, [], ◌∷◌, if◌then◌else◌}

pub record Event : Type 0 where
  pub flag : Bool

-- The constructor.
abbrev pub new_event : Event
new_event = record { flag = false }

-- `signal`: whether the event was not signalled before.
unfoldable pub signal : Event → Event × Bool
signal e = let was_signalled = e.flag in (record e { flag = true }, not was_signalled)

-- `reset`: whether the event was signalled.
unfoldable pub reset : Event → Event × Bool
reset e = let was_signalled = e.flag in (record e { flag = false }, was_signalled)

abbrev pub is_set : Event → Bool
is_set e = e.flag

pub data Call : Type 0 where
  signals resets : Call

unfoldable pub call : Call → Event → Event × Bool
unfolding signal reset
call signals e = signal e
call resets e = reset e

-- The calls of all threads in the order in which they get the mutex, with their results.
unfoldable pub calls : List Call → Event → Event × List (Call × Bool)
unfolding call
calls [] e = (e, [])
calls (c ∷ cs) e = let (e', b) = call c e in let (e'', rest) = calls cs e' in (e'', (c, b) ∷ rest)

-- A turn of the mutex while a thread waits: another thread's call, or the waiting thread wakes.
pub data Turn : Type 0 where
  others : Call → Turn
  wakes : Turn

-- `wait`: the waiting thread goes on when it wakes and finds the flag set, with the turns that are
-- left then; `none` while it waits.
unfoldable pub wait : List Turn → Event → Option (List Turn)
wait [] e = none
wait (others c ∷ ts) e = wait ts (call c e).0
wait (wakes ∷ ts) e = let rest = wait ts e in if e.flag then some ts else rest

-- `wait` with a limit, the turns being those until then: the flag is tested once more at the end.
unfoldable pub wait_for : List Turn → Event → Bool
wait_for [] e = e.flag
wait_for (others c ∷ ts) e = wait_for ts (call c e).0
wait_for (wakes ∷ ts) e = let rest = wait_for ts e in if e.flag then true else rest
