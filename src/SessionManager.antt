-- ===== src/SessionManager.antt =====
-- src/session.cpp and src/session_manager.cpp: who holds which reconnect token, and through which
-- connection. Points of time and durations are numbers. A connection is the number of its object;
-- `alive` says which objects exist when a session locks its weak reference. The bytes that
-- `getrandom` delivers are an argument of `create`.
pub mod Handle
pub mod Invariant
pub mod Steps
pub mod Outcomes
pub mod Resume
pub mod Runs
mod Tests
use l_w.Base.{
  ℕ, suc, ◌+◌, ◌/◌, ◌%◌, ◌≡◌, ◌↔◌, refl, Bool, true, false, ◌&&◌, ◌||◌, not, List, [], ◌∷◌, ◌++◌,
  Option, none, some, ltb, leb, ◌==◌, if◌then◌else◌, length, map, Eq, nat_eq, arith,
}
use l_w.Pointers.{ConnectionPtr}
use l_w.Map.{find, contains, emplace, assign, erase, values}
use l_w.Sort.{sort}
use l_w.Checkpoint.{SessionCheckpoint}
use l_w.SessionManager.Handle.{Session, is_offline}
use l_w.SessionManager.Handle

abbrev pub Token : Type 0
Token = List ℕ

abbrev pub token_size : ℕ
token_size = 32

-- Equality of texts.
abbrev pub same_text : List ℕ → List ℕ → Bool
same_text [] [] = true
same_text (x ∷ xs) (y ∷ ys) = x == y && same_text xs ys
same_text _ _ = false

pub same_text_iff : (a b : List ℕ) → (same_text a b ≡ true) ↔ (a ≡ b)
same_text_iff [] [] = ground arith
same_text_iff [] (y ∷ ys) = ground arith
same_text_iff (x ∷ xs) [] = ground arith
same_text_iff (x ∷ xs) (y ∷ ys) = ground (arith, same_text_iff xs ys)

instance abbrev pub text_eq : Eq (List ℕ)
text_eq = record { beq = same_text; beq_iff = same_text_iff }

-- `operator<` of texts, byte by byte.
abbrev pub text_before : List ℕ → List ℕ → Bool
text_before xs [] = false
text_before [] (y ∷ ys) = true
text_before (x ∷ xs) (y ∷ ys) = ltb x y || (x == y && text_before xs ys)

abbrev pub Sessions : Type 0
Sessions = List (Token × Session)

abbrev pub Bindings : Type 0
Bindings = List (ℕ × Token)

pub record SessionManager : Type 0 where
  pub reconnect_timeout : ℕ
  pub sessions : Sessions
  pub bindings : Bindings

pub data States : Type 0 where
  success wrong_thread invalid_connection already_bound invalid_token : States
  session_online session_expired session_not_expired not_bound internal_error : States

pub States-discrete : Discrete States
States-discrete = hlevel

-- `CreateResult`, `LookupResult` and `DetachResult`.
pub record TokenResult : Type 0 where
  pub state : States
  pub token : Token
  pub room_id : ℕ
  pub player_id : ℕ

pub record ResumeResult : Type 0 where
  pub state : States
  pub room_id : ℕ
  pub player_id : ℕ

abbrev pub token_error : States → TokenResult
token_error e = record { state = e; token = []; room_id = 0; player_id = 0 }

abbrev pub token_success : Token → Session → TokenResult
token_success token s = record {
  state = success;
  token = token;
  room_id = s.room_id;
  player_id = s.player_id;
}

abbrev pub resume_error : States → ResumeResult
resume_error e = record { state = e; room_id = 0; player_id = 0 }

unfoldable pub new : ℕ → SessionManager
new reconnect_timeout = record {
  reconnect_timeout = reconnect_timeout;
  sessions = [];
  bindings = [];
}

-- The characters of "0123456789abcdef".
abbrev pub hex_digit : ℕ → ℕ
hex_digit n = if ltb n 10 then 48 + n else 87 + n

unfoldable pub hex : List ℕ → Token
hex [] = []
hex (byte ∷ bytes) = hex_digit (byte / 16 % 16) ∷ hex_digit (byte % 16) ∷ hex bytes

-- The sixteen bytes of the loop of `getrandom` calls, or its failure.
unfoldable pub generate_token : Option (List ℕ) → Token
generate_token none = []
generate_token (some bytes) = hex bytes

unfoldable pub create :
    SessionManager → Option (List ℕ) → ConnectionPtr → ℕ → ℕ → SessionManager × TokenResult
create m random none room_id player_id = (m, token_error invalid_connection)
create m random (some c) room_id player_id =
    if contains c m.bindings
    then (m, token_error already_bound)
    else (let token = generate_token random in
        if length token == 0
        then (m, token_error internal_error)
        else if contains token m.sessions
        then (m, token_error internal_error)
        else (let session = Handle.online_session room_id player_id c in
            (
              record m {
                sessions = emplace token session m.sessions;
                bindings = emplace c token m.bindings;
              },
              token_success token session,
            )))

unfoldable pub lookup : SessionManager → ConnectionPtr → TokenResult
lookup m none = token_error invalid_connection
lookup m (some c) = elim (find c m.bindings) [
  | none ↦ token_error not_bound
  | some token ↦ elim (find token m.sessions) [
    | none ↦ token_error internal_error
    | some s ↦ token_success token s
  ]
]

unfoldable pub resume : SessionManager → ConnectionPtr → Token → ℕ → SessionManager × ResumeResult
resume m none token now = (m, resume_error invalid_connection)
resume m (some c) token now =
    if contains c m.bindings
    then (m, resume_error already_bound)
    else elim (find token m.sessions) [
      | none ↦ (m, resume_error invalid_token)
      | some s ↦
          if not (is_offline s.state)
          then (m, resume_error session_online)
          else if Handle.expired s now
          then (m, resume_error session_expired)
          else (let bound = emplace c token m.bindings in
              elim (Handle.bind s (some c) now) [
                | none ↦ (record m { bindings = erase c bound }, resume_error internal_error)
                | some s' ↦ (
                  record m { sessions = assign token s' m.sessions; bindings = bound },
                  record { state = success; room_id = s'.room_id; player_id = s'.player_id },
                )
              ])
    ]

unfoldable pub rollback_resume :
    (ℕ → Bool) → SessionManager → ConnectionPtr → SessionManager × States
rollback_resume alive m none = (m, invalid_connection)
rollback_resume alive m (some c) = elim (find c m.bindings) [
  | none ↦ (m, not_bound)
  | some token ↦ elim (find token m.sessions) [
    | none ↦ (m, internal_error)
    | some s ↦ elim (Handle.detach alive s (some c) s.offline_deadline) [
      | none ↦ (m, internal_error)
      | some s' ↦ (
        record m { sessions = assign token s' m.sessions; bindings = erase c m.bindings },
        success,
      )
    ]
  ]
]

unfoldable pub detach :
    (ℕ → Bool) → SessionManager → ConnectionPtr → ℕ → SessionManager × TokenResult
detach alive m none now = (m, token_error invalid_connection)
detach alive m (some c) now = elim (find c m.bindings) [
  | none ↦ (m, token_error not_bound)
  | some token ↦ elim (find token m.sessions) [
    | none ↦ (m, token_error internal_error)
    | some s ↦ elim (Handle.detach alive s (some c) (now + m.reconnect_timeout)) [
      | none ↦ (m, token_error internal_error)
      | some s' ↦ (
        record m { sessions = assign token s' m.sessions; bindings = erase c m.bindings },
        token_success token s',
      )
    ]
  ]
]

unfoldable pub erase_by_connection : SessionManager → ConnectionPtr → SessionManager × States
erase_by_connection m none = (m, invalid_connection)
erase_by_connection m (some c) = elim (find c m.bindings) [
  | none ↦ (m, not_bound)
  | some token ↦ elim (find token m.sessions) [
    | none ↦ (m, internal_error)
    | some s ↦
        (record m { sessions = erase token m.sessions; bindings = erase c m.bindings }, success)
  ]
]

-- `ExpiredSession` has the fields of `SessionCheckpoint`: the session's names.
abbrev pub session_checkpoint : Token → Session → SessionCheckpoint
session_checkpoint token s = record { token = token; room_id = s.room_id; player_id = s.player_id }

unfoldable pub expired_of : Sessions → ℕ → List SessionCheckpoint
expired_of [] now = []
expired_of ((token, s) ∷ ss) now =
    let rest = expired_of ss now in
    if not (is_offline s.state) || not (Handle.expired s now)
    then rest
    else session_checkpoint token s ∷ rest

unfoldable pub expired_sessions : SessionManager → ℕ → List SessionCheckpoint
expired_sessions m now = expired_of m.sessions now

unfoldable pub erase_expired : SessionManager → Token → ℕ → SessionManager × States
erase_expired m token now = elim (find token m.sessions) [
  | none ↦ (m, invalid_token)
  | some s ↦
      if not (is_offline s.state)
      then (m, session_online)
      else if not (Handle.expired s now)
      then (m, session_not_expired)
      else (record m { sessions = erase token m.sessions }, success)
]

abbrev pub token_before : SessionCheckpoint → SessionCheckpoint → Bool
token_before a b = text_before a.token b.token

abbrev pub checkpoints_of : Sessions → List SessionCheckpoint
checkpoints_of [] = []
checkpoints_of ((token, s) ∷ ss) = session_checkpoint token s ∷ checkpoints_of ss

unfoldable pub make_checkpoint : SessionManager → List SessionCheckpoint
make_checkpoint m = sort token_before (checkpoints_of m.sessions)

unfoldable pub all_lower_hex : List ℕ → Bool
all_lower_hex [] = true
all_lower_hex (c ∷ cs) = (leb 48 c && leb c 57 || leb 97 c && leb c 102) && all_lower_hex cs

-- Whether a session of this player has been read already.
unfoldable pub has_player : ℕ → ℕ → Sessions → Bool
has_player room_id player_id [] = false
has_player room_id player_id ((t, s) ∷ ss) =
    (s.room_id == room_id && s.player_id == player_id) || has_player room_id player_id ss

-- The loop of `restore_checkpoint`; `none`: false is returned.
unfoldable pub restore_sessions : List SessionCheckpoint → ℕ → Sessions → Option Sessions
restore_sessions [] deadline found = some found
restore_sessions (c ∷ cs) deadline found =
    let rest =
      restore_sessions cs deadline
        (emplace c.token (Handle.offline_session c.room_id c.player_id deadline) found) in
    if not (length c.token == token_size)
    then none
    else if not (all_lower_hex c.token)
    then none
    else if contains c.token found
    then none
    else if has_player c.room_id c.player_id found
    then none
    else rest

unfoldable pub restore_checkpoint :
    SessionManager → List SessionCheckpoint → ℕ → Option SessionManager
restore_checkpoint m checkpoints now =
    elim (restore_sessions checkpoints (now + m.reconnect_timeout) []) [
      | none ↦ none
      | some found ↦ some (record m { sessions = found; bindings = [] })
    ]
