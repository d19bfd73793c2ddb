-- ===== src/SessionManager/Outcomes.antt =====
-- What the operations of src/session_manager.cpp change, where they succeed, and that they change
-- nothing else where they do not.
use l_w.Base.{
  ℕ, ◌+◌, ◌≡◌, ◌≢◌, refl, ◌⊎◌, inl, inr, Bool, true, List, Option, none, some, leb, ◌==◌, length,
  nat_eq, arith, Bool-cases, Option-cases, ==_refl,
}
use l_w.Pointers.{lock}
use l_w.Map.{find, contains, emplace, assign, erase}
use l_w.SessionManager.Handle.{Session, is_offline, online, offline}
use l_w.SessionManager.Handle
use l_w.SessionManager.Resume.{went_offline, came_online}
use l_w.SessionManager.{
  SessionManager, success, not_bound, Token, text_eq, create, lookup, resume, rollback_resume,
  detach, erase_by_connection, erase_expired, generate_token,
}

-- The session of a connection.
abbrev pub Holds : SessionManager → ℕ → Token → Session → Type 0
Holds m c t s = (find c m.bindings ≡ some t) × (find t m.sessions ≡ some s)

module _ (m : SessionManager) (c : ℕ) where
  pub lookup_outcome :
      ((t : Token) × (s : Session) × Holds m c t s
        × ((lookup m (some c)).state ≡ success)
        × ((lookup m (some c)).room_id ≡ s.room_id)
        × ((lookup m (some c)).player_id ≡ s.player_id))
      ⊎ ((lookup m (some c)).state ≢ success)
  unfolding lookup
  lookup_outcome = elim (Option-cases (find c m.bindings)) [
    | inl unbound ↦ inr (rw (unbound, lookup) (λ e. cc))
    | inr (t, b) ↦ elim (Option-cases (find t m.sessions)) [
      | inl unknown ↦ inr (rw (b, lookup) (rw unknown (λ e. cc)))
      | inr (s, f) ↦ inl (
        t,
        s,
        (b, f),
        rw (b, lookup) (rw f refl),
        rw (b, lookup) (rw f refl),
        rw (b, lookup) (rw f refl),
      )
    ]
  ]

  pub lookup-not_bound : (lookup m (some c)).state ≡ not_bound → find c m.bindings ≡ none
  unfolding lookup
  lookup-not_bound e = elim (Option-cases (find c m.bindings)) [
    | inl unbound ↦ unbound
    | inr (t, b) ↦ elim (Option-cases (find t m.sessions)) [
      | inl unknown ↦ absurd (ground (arith, b, unknown))
      | inr (s, f) ↦ absurd (ground (arith, b, f))
    ]
  ]

  pub create_outcome :
      (random : Option (List ℕ)) (k p : ℕ)
      → (let t : Token = generate_token random in
          let s : Session = Handle.online_session k p c in
          ((create m random (some c) k p).1.state ≡ success)
          × (find c m.bindings ≡ none)
          × (find t m.sessions ≡ none)
          × ((create m random (some c) k p).0
              ≡ record m { sessions = emplace t s m.sessions; bindings = emplace c t m.bindings }))
        ⊎ (((create m random (some c) k p).1.state ≢ success)
            × ((create m random (some c) k p).0 ≡ m))
  unfolding create contains
  create_outcome random k p =
      let t : Token = generate_token random in
      elim (Option-cases (find c m.bindings)) [
        | inr (other, e) ↦ inr (rw e (λ z. cc), rw e refl)
        | inl free ↦ elim (Bool-cases (length t == 0)) [
          | inl failed ↦ inr (rw (free, failed) (λ z. cc), rw (free, failed) refl)
          | inr drawn ↦ elim (Option-cases (find t m.sessions)) [
            | inr (taken, e) ↦ inr (rw (free, drawn, e) (λ z. cc), rw (free, drawn, e) refl)
            | inl fresh ↦
                inl (rw (free, drawn, fresh) refl, free, fresh, rw (free, drawn, fresh) refl)
          ]
        ]
      ]

  pub resume_outcome :
      (t : Token) (now : ℕ)
      → ((s : Session) × (find c m.bindings ≡ none)
          × (find t m.sessions ≡ some s)
          × (s.state ≡ offline)
          × ((resume m (some c) t now).1.state ≡ success)
          × ((resume m (some c) t now).1.room_id ≡ s.room_id)
          × ((resume m (some c) t now).1.player_id ≡ s.player_id)
          × ((resume m (some c) t now).0 ≡ record m {
            sessions = assign t (came_online s c) m.sessions;
            bindings = emplace c t m.bindings;
          }))
        ⊎ (((resume m (some c) t now).1.state ≢ success) × ((resume m (some c) t now).0 ≡ m))
  unfolding resume contains Handle.expired Handle.bind
  resume_outcome t now = elim (Option-cases (find c m.bindings)) [
    | inr (other, e) ↦ inr (rw e (λ z. cc), rw e refl)
    | inl free ↦ elim (Option-cases (find t m.sessions)) [
      | inl unknown ↦ inr (rw (free, unknown) (λ z. cc), rw (free, unknown) refl)
      | inr (s, f) ↦ elim (Bool-cases (is_offline s.state)) [
        | inr busy ↦ inr (rw (free, f) (rw busy (λ z. cc)), rw (free, f) (rw busy refl))
        | inl off ↦ elim (Bool-cases (leb s.offline_deadline now)) [
          | inl late ↦
              inr (rw (free, f) (rw (off, late) (λ z. cc)), rw (free, f) (rw (off, late) refl))
          | inr early ↦ inl (
            s,
            free,
            f,
            ground arith,
            rw (free, f) (rw (off, early) refl),
            rw (free, f) (rw (off, early) refl),
            rw (free, f) (rw (off, early) refl),
            rw (free, f) (rw (off, early) refl),
          )
        ]
      ]
    ]
  ]

  module _ (t : Token) (s : Session) (h : Holds m c t s) where
    pub erase_by_connection_lem :
        (erase_by_connection m (some c)).0
        ≡ record m { sessions = erase t m.sessions; bindings = erase c m.bindings }
    unfolding erase_by_connection
    erase_by_connection_lem = rw (h.0, erase_by_connection) (rw (h.1) refl)

    module _ (alive : ℕ → Bool) (live : alive c ≡ true) (on : s.state ≡ online)
        (own : s.connection ≡ some c) where
      lets_go :
          (deadline : ℕ) → Handle.detach alive s (some c) deadline ≡ some (went_offline s deadline)
      unfolding Handle.detach Handle.matches lock
      lets_go deadline = rw (on, own) (rw live (rw (==_refl c) refl))

      pub rollback_resume_lem : (rollback_resume alive m (some c)).0 ≡ record m {
        sessions = assign t (went_offline s s.offline_deadline) m.sessions;
        bindings = erase c m.bindings;
      }
      unfolding rollback_resume
      rollback_resume_lem =
          rw (h.0, rollback_resume) (rw (h.1) (rw (lets_go s.offline_deadline) refl))

      pub detach_lem :
          (now : ℕ)
          → (detach alive m (some c) now).0 ≡ record m {
            sessions = assign t (went_offline s (now + m.reconnect_timeout)) m.sessions;
            bindings = erase c m.bindings;
          }
      unfolding detach
      detach_lem now = rw (h.0, detach) (rw (h.1) (rw (lets_go (now + m.reconnect_timeout)) refl))

-- A session that has expired is erased.
pub erase_expired_lem :
    (m : SessionManager) (t : Token) (s : Session) (now : ℕ)
    → find t m.sessions ≡ some s
    → is_offline s.state ≡ true
    → Handle.expired s now ≡ true
    → (erase_expired m t now).0 ≡ record m { sessions = erase t m.sessions }
unfolding erase_expired
erase_expired_lem m t s now f off late = rw (f, erase_expired) (rw (off, late) refl)
