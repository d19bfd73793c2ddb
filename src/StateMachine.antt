-- ===== src/StateMachine.antt =====
-- src/room_state_machine.cpp: a room waits for players, runs, and has finished.
use l_w.Base.{Bool, true, false, if◌then◌else◌, not}

pub data States : Type 0 where
  waiting running finished : States

pub data Transitionstates : Type 0 where
  success invalid_state condition_not_met : Transitionstates

pub Transitionstates-discrete : Discrete Transitionstates
Transitionstates-discrete = hlevel

-- `state_ == States::waiting` and the like.
abbrev pub is_waiting : States → Bool
is_waiting waiting = true
is_waiting running = false
is_waiting finished = false

abbrev pub is_running : States → Bool
is_running waiting = false
is_running running = true
is_running finished = false

pub record Roomstatemachine : Type 0 where
  pub state : States

abbrev pub new : Roomstatemachine
new = record { state = waiting }

abbrev pub can_join : Roomstatemachine → Bool
can_join m = is_waiting m.state

unfoldable pub start : Roomstatemachine → Bool → Roomstatemachine × Transitionstates
start m ready_to_start =
    if not (is_waiting m.state)
    then (m, invalid_state)
    else if not ready_to_start
    then (m, condition_not_met)
    else (record m { state = running }, success)

unfoldable pub finish : Roomstatemachine → Bool → Roomstatemachine × Transitionstates
finish m should_finish =
    if not (is_running m.state)
    then (m, invalid_state)
    else if not should_finish
    then (m, condition_not_met)
    else (record m { state = finished }, success)
