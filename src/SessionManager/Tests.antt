-- ===== src/SessionManager/Tests.antt =====
-- The theorems about src/session_manager.cpp at a concrete manager.
use l_w.Base.{ℕ, ◌≡◌, refl, Bool, true, List, [], ◌∷◌, some, leb, if◌then◌else◌, nat_eq}
use l_w.Map.{find, contains, emplace, assign, erase}
use l_w.SessionManager.Handle.{Session, online, offline}
use l_w.SessionManager.Handle
use l_w.SessionManager.{
  SessionManager, Token, text_eq, same_text, new, create, resume, rollback_resume, detach,
  generate_token, hex,
}
use l_w.SessionManager
use l_w.SessionManager.Invariant.{IsValid}
use l_w.SessionManager.Resume.{went_offline, detach-resume, resume-rollback}
use l_w.SessionManager.Runs.{
  create_call, detach_call, resume_call, run, step, run-new_sessions-IsValid,
}

abbrev everyone : ℕ → Bool
everyone c = true

abbrev drawn : List ℕ
drawn = 1 ∷ 2 ∷ 3 ∷ 4 ∷ 5 ∷ 6 ∷ 7 ∷ 8 ∷ 9 ∷ 10 ∷ 11 ∷ 12 ∷ 13 ∷ 14 ∷ 15 ∷ 16 ∷ []

abbrev held : SessionManager
held = run (new 30) ((everyone, create_call (some drawn) (some 1) 7 5) ∷ [])

abbrev left : SessionManager
left = run held ((everyone, detach_call (some 1) 100) ∷ [])

held-IsValid : IsValid held
held-IsValid = run-new_sessions-IsValid 30 ((everyone, create_call (some drawn) (some 1) 7 5) ∷ [])

left-IsValid : IsValid left
unfolding run
left-IsValid =
    run-new_sessions-IsValid 30 (
      (everyone, create_call (some drawn) (some 1) 7 5) ∷ (everyone, detach_call (some 1) 100) ∷ [])

run-new_sessions-IsValid_example : IsValid (
    run (new 30) (
      (everyone, create_call (some drawn) (some 1) 7 5)
      ∷ (everyone, detach_call (some 1) 100)
      ∷ (everyone, resume_call (some 2) (hex drawn) 120)
      ∷ []))
run-new_sessions-IsValid_example = run-new_sessions-IsValid 30 (
    (everyone, create_call (some drawn) (some 1) 7 5)
    ∷ (everyone, detach_call (some 1) 100)
    ∷ (everyone, resume_call (some 2) (hex drawn) 120)
    ∷ [])

detach-resume_example :
    (resume (detach everyone held (some 1) 100).0 (some 2) (hex drawn) 129).1 ≡ (
      if leb 130 129 then SessionManager.resume_error SessionManager.session_expired else record {
        state = SessionManager.success;
        room_id = (detach everyone held (some 1) 100).1.room_id;
        player_id = (detach everyone held (some 1) 100).1.player_id;
      })
unfolding run step new create generate_token hex contains find emplace detach Handle.detach
    Handle.matches erase
detach-resume_example =
    detach-resume everyone held held-IsValid 1 refl (hex drawn) 100 refl 2 129 refl

resume-rollback_example :
    (s : Session) × (find (hex drawn) left.sessions ≡ some s)
    × (s.state ≡ offline)
    × ((rollback_resume everyone (resume left (some 2) (hex drawn) 120).0 (some 2)).1
        ≡ SessionManager.success)
    × ((u : Token)
        → find u
            (rollback_resume everyone (resume left (some 2) (hex drawn) 120).0 (some 2)).0.sessions
          ≡ (if same_text (hex drawn) u
              then some (went_offline s s.offline_deadline)
              else find u left.sessions))
    × ((d : ℕ)
        → find d
            (rollback_resume everyone (resume left (some 2) (hex drawn) 120).0 (some 2)).0.bindings
          ≡ find d left.bindings)
unfolding run step new create generate_token hex contains find emplace detach Handle.detach
    Handle.matches erase assign resume Handle.expired Handle.bind
resume-rollback_example = resume-rollback everyone left left-IsValid 2 refl (hex drawn) 120 refl
