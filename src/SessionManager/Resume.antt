-- ===== src/SessionManager/Resume.antt =====
-- Leaving and coming back with the token, in src/session_manager.cpp.
use l_w.Base.{
  ℕ, ◌+◌, ◌≡◌, refl, sym, ap, ◌∙◌, inl, inr, Bool, true, none, some, leb, if◌then◌else◌, nat_eq,
  arith, Option-cases,
}
use l_w.Map.{find, contains, emplace, assign, erase}
use l_w.Map.Laws.{find-emplace, find-assign, find-erase, emplace-Unique}
use l_w.SessionManager.Handle.{Session, is_offline, online, offline}
use l_w.SessionManager.Handle
use l_w.SessionManager.{
  SessionManager, Sessions, Bindings, Token, text_eq, same_text, create, resume, rollback_resume,
  detach, erase_by_connection, erase_expired, restore_checkpoint, restore_sessions, generate_token,
}
use l_w.SessionManager
use l_w.SessionManager.Invariant.{IsValid}

abbrev pub went_offline : Session → ℕ → Session
went_offline s deadline = record s {
  connection = none;
  offline_deadline = deadline;
  state = offline;
}

-- A session leaves through its own connection, if that still exists.
leaves :
    (alive : ℕ → Bool) (s : Session) (c deadline : ℕ)
    → s.state ≡ online
    → s.connection ≡ some c
    → alive c ≡ true
    → Handle.detach alive s (some c) deadline ≡ some (went_offline s deadline)
unfolding Handle.detach Handle.matches
leaves alive s c deadline o h a = rw (o, h) (rw a ground arith)

module _ (alive : ℕ → Bool) (m : SessionManager) (v : IsValid m) (c : ℕ) (a : alive c ≡ true) where
  -- The session of a live connection that is bound always goes offline, until the timeout has run
  -- from now on: the answer names the token, room and player, and the connection is free.
  pub detach_bound :
      (t : Token) (now : ℕ)
      → find c m.bindings ≡ some t
      → (s : Session) × (find t m.sessions ≡ some s)
        × (detach alive m (some c) now ≡ (
          record m {
            sessions = assign t (went_offline s (now + m.reconnect_timeout)) m.sessions;
            bindings = erase c m.bindings;
          },
          SessionManager.token_success t s,
        ))
  unfolding detach
  detach_bound t now b =
      let (s, f, o, h) = v.bound c t b in
      (s, f, rw (b, detach) (rw f (rw (leaves alive s c (now + m.reconnect_timeout) o h a) refl)))

module _ (alive : ℕ → Bool) (m : SessionManager) (v : IsValid m) (c : ℕ) (a : alive c ≡ true)
    (t : Token) (now : ℕ) (b : find c m.bindings ≡ some t) where
  -- After a live connection has left, a connection that is free gets the session back by its token
  -- while the timeout has not run out, with the room and the player that it had, and is refused as
  -- expired from then on.
  pub detach-resume :
      (d later : ℕ)
      → find d (detach alive m (some c) now).0.bindings ≡ none
      → (resume (detach alive m (some c) now).0 (some d) t later).1 ≡ (
          if leb (now + m.reconnect_timeout) later
          then SessionManager.resume_error SessionManager.session_expired
          else record {
            state = SessionManager.success;
            room_id = (detach alive m (some c) now).1.room_id;
            player_id = (detach alive m (some c) now).1.player_id;
          })
  unfolding resume contains Handle.expired Handle.bind
  detach-resume d later free =
      let (s, f, e) = detach_bound alive m v c a t now b in
      let free' : find d (erase c m.bindings) ≡ none =
        sym (ap (λ r. find d r.0.bindings) e) ∙ free in
      let back : find t (assign t (went_offline s (now + m.reconnect_timeout)) m.sessions)
          ≡ some (went_offline s (now + m.reconnect_timeout)) =
        find-assign t t (went_offline s (now + m.reconnect_timeout)) m.sessions
        ∙ (rw ((SessionManager.same_text_iff t t).1 refl) refl) in
      rw e (rw free' (rw back (ground arith)))

abbrev pub came_online : Session → ℕ → Session
came_online s c = record s { connection = some c; state = online }

resume_inv :
    (m : SessionManager) (c : ℕ) (t : Token) (now : ℕ)
    → (resume m (some c) t now).1.state ≡ SessionManager.success
    → (s : Session) × (find t m.sessions ≡ some s)
      × (s.state ≡ offline)
      × (find c m.bindings ≡ none)
      × ((resume m (some c) t now).0 ≡ record m {
        sessions = assign t (came_online s c) m.sessions;
        bindings = emplace c t m.bindings;
      })
unfolding resume contains Handle.expired Handle.bind
resume_inv m c t now e = elim (Option-cases (find t m.sessions)) [
  | inl unknown ↦ absurd (ground arith)
  | inr (s, f) ↦ (s, f, ground arith, ground arith, ground arith)
]

module _ (alive : ℕ → Bool) (m : SessionManager) (v : IsValid m) (c : ℕ) (a : alive c ≡ true) where
  undone :
      (t : Token) (s : Session)
      → find c m.bindings ≡ none
      → rollback_resume alive
          (record m {
            sessions = assign t (came_online s c) m.sessions;
            bindings = emplace c t m.bindings;
          })
          (some c)
        ≡ (
          record m {
            sessions =
                assign t
                  (went_offline s s.offline_deadline)
                  (assign t (came_online s c) m.sessions);
            bindings = erase c (emplace c t m.bindings);
          },
          SessionManager.success,
        )
  unfolding rollback_resume
  undone t s free =
      let b : find c (emplace c t m.bindings) ≡ some t =
        find-emplace c c t m.bindings free ∙ ground arith in
      let f : find t (assign t (came_online s c) m.sessions) ≡ some (came_online s c) =
        find-assign t t (came_online s c) m.sessions
        ∙ (rw ((SessionManager.same_text_iff t t).1 refl) refl) in
      rw (b, rollback_resume)
        (rw f (rw (leaves alive (came_online s c) c s.offline_deadline refl refl a) refl))

  -- A resumption that succeeded is always undone by a rollback while its connection is alive: the
  -- session is offline with the deadline that it had, no other session and no binding differs.
  pub resume-rollback :
      (t : Token) (now : ℕ)
      → (resume m (some c) t now).1.state ≡ SessionManager.success
      → (s : Session) × (find t m.sessions ≡ some s)
        × (s.state ≡ offline)
        × ((rollback_resume alive (resume m (some c) t now).0 (some c)).1 ≡ SessionManager.success)
        × ((u : Token)
            → find u (rollback_resume alive (resume m (some c) t now).0 (some c)).0.sessions ≡ (
                if same_text t u
                then some (went_offline s s.offline_deadline)
                else find u m.sessions))
        × ((d : ℕ)
            → find d (rollback_resume alive (resume m (some c) t now).0 (some c)).0.bindings
              ≡ find d m.bindings)
  resume-rollback t now e =
      let (s, f, off, free, shape) = resume_inv m c t now e in
      (
        s,
        f,
        off,
        rw shape (rw (undone t s free) refl),
        λ u. rw shape (
            rw (undone t s free) (
              find-assign t u (went_offline s s.offline_deadline)
                (assign t (came_online s c) m.sessions)
              ∙ ground (arith, find-assign t u (came_online s c) m.sessions))),
        λ d. rw shape (
            rw (undone t s free) (
              find-erase c d (emplace c t m.bindings)
                (emplace-Unique c t m.bindings v.unique_connections free)
              ∙ ground (arith, find-emplace c d t m.bindings free))),
      )
