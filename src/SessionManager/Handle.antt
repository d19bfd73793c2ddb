-- ===== src/SessionManager/Handle.antt =====
-- src/session.cpp: a player's session, online through a connection or offline until a deadline.
use l_w.Base.{ℕ, Bool, true, false, Option, none, some, leb, ◌==◌, if◌then◌else◌, not}
use l_w.Pointers.{ConnectionPtr, WeakPtr, lock}

pub data States : Type 0 where
  online offline : States

-- `state_ == States::offline`.
abbrev pub is_offline : States → Bool
is_offline online = false
is_offline offline = true

pub record Session : Type 0 where
  pub room_id : ℕ
  pub player_id : ℕ
  pub state : States
  pub connection : WeakPtr
  pub offline_deadline : ℕ

-- The two constructors. The deadline of an online session is the clock's origin.
abbrev pub online_session : ℕ → ℕ → ℕ → Session
online_session room_id player_id c = record {
  room_id = room_id;
  player_id = player_id;
  state = online;
  connection = some c;
  offline_deadline = 0;
}

abbrev pub offline_session : ℕ → ℕ → ℕ → Session
offline_session room_id player_id offline_deadline = record {
  room_id = room_id;
  player_id = player_id;
  state = offline;
  connection = none;
  offline_deadline = offline_deadline;
}

unfoldable pub matches : (ℕ → Bool) → Session → ConnectionPtr → Bool
matches alive s connection = if is_offline s.state then false else elim connection [
  | none ↦ false
  | some c ↦ elim (lock alive s.connection) [ none ↦ false | some cur ↦ cur == c ]
]

-- `none`: false is returned, and the session is left alone.
unfoldable pub bind : Session → ConnectionPtr → ℕ → Option Session
bind s none now = none
bind s (some c) now =
    if not (is_offline s.state)
    then none
    else if leb s.offline_deadline now
    then none
    else some (record s { connection = some c; state = online })

unfoldable pub detach : (ℕ → Bool) → Session → ConnectionPtr → ℕ → Option Session
detach alive s none offline_deadline = none
detach alive s (some c) offline_deadline =
    if is_offline s.state
    then none
    else if not (matches alive s (some c))
    then none
    else some (record s { connection = none; offline_deadline = offline_deadline; state = offline })

unfoldable pub expired : Session → ℕ → Bool
expired s now = if not (is_offline s.state) then false else leb s.offline_deadline now
