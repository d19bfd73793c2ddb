-- ===== src/SessionManager/Runs.antt =====
-- Sequences of the operations of src/session_manager.cpp.
use l_w.Base.{ℕ, ◌≡◌, refl, Bool, List, [], ◌∷◌, Option, none, some, arith}
use l_w.Pointers.{ConnectionPtr}
use l_w.Checkpoint.{SessionCheckpoint}
use l_w.Map.{find}
use l_w.SessionManager.{
  SessionManager, Token, new, create, resume, rollback_resume, detach, erase_by_connection,
  erase_expired, restore_checkpoint,
}
use l_w.SessionManager.Invariant.{IsValid}
use l_w.SessionManager.Steps.{
  create-IsValid, resume-IsValid, rollback_resume-IsValid, detach-IsValid,
  erase_by_connection-IsValid, erase_expired-IsValid, restore_checkpoint-IsValid,
}

pub data Call : Type 0 where
  create_call : Option (List ℕ) → ConnectionPtr → ℕ → ℕ → Call
  resume_call : ConnectionPtr → Token → ℕ → Call
  rollback_call : ConnectionPtr → Call
  detach_call : ConnectionPtr → ℕ → Call
  erase_call : ConnectionPtr → Call
  erase_expired_call : Token → ℕ → Call
  restore_call : List SessionCheckpoint → ℕ → Call

unfoldable pub restored : SessionManager → Option SessionManager → SessionManager
restored m none = m
restored m (some out) = out

-- A call, made while the connections of `alive` exist.
unfoldable pub step : (ℕ → Bool) → SessionManager → Call → SessionManager
step alive m (create_call random c room_id player_id) = (create m random c room_id player_id).0
step alive m (resume_call c t now) = (resume m c t now).0
step alive m (rollback_call c) = (rollback_resume alive m c).0
step alive m (detach_call c now) = (detach alive m c now).0
step alive m (erase_call c) = (erase_by_connection m c).0
step alive m (erase_expired_call t now) = (erase_expired m t now).0
step alive m (restore_call cs now) = restored m (restore_checkpoint m cs now)

unfoldable pub run : SessionManager → List ((ℕ → Bool) × Call) → SessionManager
run m [] = m
run m ((alive, call) ∷ calls) = run (step alive m call) calls

restored-IsValid :
    (m : SessionManager) (o : Option SessionManager)
    → IsValid m
    → ((out : SessionManager) → o ≡ some out → IsValid out)
    → IsValid (restored m o)
unfolding restored
restored-IsValid m none v h = v
restored-IsValid m (some out) v h = h out refl

step-IsValid :
    (alive : ℕ → Bool) (m : SessionManager) (call : Call) → IsValid m → IsValid (step alive m call)
unfolding step
step-IsValid alive m (create_call random c room_id player_id) v =
    create-IsValid m random c room_id player_id v
step-IsValid alive m (resume_call c t now) v = resume-IsValid m c t now v
step-IsValid alive m (rollback_call c) v = rollback_resume-IsValid alive m c v
step-IsValid alive m (detach_call c now) v = detach-IsValid alive m c now v
step-IsValid alive m (erase_call c) v = erase_by_connection-IsValid m c v
step-IsValid alive m (erase_expired_call t now) v = erase_expired-IsValid m t now v
step-IsValid alive m (restore_call cs now) v =
    restored-IsValid m (restore_checkpoint m cs now) v
      (λ out e. restore_checkpoint-IsValid m cs now e)

pub run-IsValid :
    (m : SessionManager) (calls : List ((ℕ → Bool) × Call)) → IsValid m → IsValid (run m calls)
unfolding run
run-IsValid m [] v = v
run-IsValid m ((alive, call) ∷ calls) v =
    run-IsValid (step alive m call) calls (step-IsValid alive m call v)

-- Whatever calls are made of a new session manager, each binding leads to a session that is online
-- through that connection, and the connection of each session that is online is bound to it.
pub run-new_sessions-IsValid :
    (reconnect_timeout : ℕ) (calls : List ((ℕ → Bool) × Call))
    → IsValid (run (new reconnect_timeout) calls)
unfolding new find
run-new_sessions-IsValid reconnect_timeout calls =
    run-IsValid (new reconnect_timeout) calls (record {
      unique_tokens = tt;
      unique_connections = tt;
      bound = λ c t b. ground arith;
      held = λ t s f o. ground arith;
    })
