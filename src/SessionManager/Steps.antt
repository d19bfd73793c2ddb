-- ===== src/SessionManager/Steps.antt =====
-- Every operation of src/session_manager.cpp keeps sessions and connections linked.
use l_w.Base.{
  ℕ, ◌+◌, ◌≡◌, refl, ap, subst, inl, inr, Bool, List, [], ◌∷◌, Option, none, some, leb, ◌==◌,
  length, nat_eq, arith, Bool-cases, Option-cases,
}
use l_w.Pointers.{ConnectionPtr}
use l_w.Map.{find, contains, emplace, assign, erase, Unique}
use l_w.Map.Laws.{
  find-emplace, find-assign, find-erase, emplace-Unique, assign-Unique, erase-Unique,
}
use l_w.Checkpoint.{SessionCheckpoint}
use l_w.SessionManager.Handle.{Session, is_offline, online, offline}
use l_w.SessionManager.Handle
use l_w.SessionManager.{
  SessionManager, Sessions, Token, text_eq, same_text, create, resume, rollback_resume, detach,
  erase_by_connection, erase_expired, restore_checkpoint, restore_sessions, generate_token,
}
use l_w.SessionManager.Invariant.{IsValid, put, drop, let_go, forgotten}

-- No operation leaves a connection bound to a session that is not its own.
pub create-IsValid :
    (m : SessionManager) (random : Option (List ℕ)) (connection : ConnectionPtr)
    (room_id player_id : ℕ)
    → IsValid m
    → IsValid (create m random connection room_id player_id).0
unfolding create contains
create-IsValid m random none room_id player_id v = v
create-IsValid m random (some c) room_id player_id v =
    let t : Token = generate_token random in
    elim (Option-cases (find c m.bindings)) [
      | inr (other, e) ↦ rw e v
      | inl free ↦ elim (Bool-cases (length t == 0)) [
        | inl failed ↦ rw (free, failed) v
        | inr drawn ↦ elim (Option-cases (find t m.sessions)) [
          | inr (taken, e) ↦ rw (free, drawn, e) v
          | inl fresh ↦
              let s : Session = Handle.online_session room_id player_id c in
              rw (free, drawn, fresh)
                (put m v c t (emplace t s m.sessions) (emplace c t m.bindings)
                  (emplace-Unique t s m.sessions v.unique_tokens fresh)
                  (emplace-Unique c t m.bindings v.unique_connections free) s free
                  (λ r e. ground arith) refl refl (λ u. find-emplace t u s m.sessions fresh)
                  (λ d. find-emplace c d t m.bindings free))
        ]
      ]
    ]

resumed :
    (m : SessionManager) (c : ℕ) (t : Token) (s s' : Session)
    → IsValid m
    → find c m.bindings ≡ none
    → find t m.sessions ≡ some s
    → s.state ≡ offline
    → s'.state ≡ online
    → s'.connection ≡ some c
    → IsValid (record m { sessions = assign t s' m.sessions; bindings = emplace c t m.bindings })
resumed m c t s s' v free f off on here =
    put m v c t (assign t s' m.sessions) (emplace c t m.bindings)
      (assign-Unique t s' m.sessions v.unique_tokens)
      (emplace-Unique c t m.bindings v.unique_connections free) s' free (λ r e o. ground arith) on
      here (λ u. find-assign t u s' m.sessions) (λ d. find-emplace c d t m.bindings free)

pub resume-IsValid :
    (m : SessionManager) (connection : ConnectionPtr) (t : Token) (now : ℕ)
    → IsValid m
    → IsValid (resume m connection t now).0
unfolding resume contains Handle.expired Handle.bind
resume-IsValid m none t now v = v
resume-IsValid m (some c) t now v = elim (Option-cases (find c m.bindings)) [
  | inr (other, e) ↦ rw e v
  | inl free ↦ elim (Option-cases (find t m.sessions)) [
    | inl unknown ↦ rw (free, unknown) v
    | inr (s, f) ↦ elim (Bool-cases (is_offline s.state)) [
      | inr busy ↦ rw (free, f) (rw busy v)
      | inl off ↦ elim (Bool-cases (leb s.offline_deadline now)) [
        | inl late ↦ rw (free, f) (rw (off, late) v)
        | inr early ↦
            rw (free, f)
              (rw (off, early)
                (resumed m c t s (record s { connection = some c; state = online }) v free f
                  (ground arith) refl refl))
      ]
    ]
  ]
]

-- A session that its own connection leaves.
pub detached :
    (alive : ℕ → Bool) (s : Session) (c deadline : ℕ) {s' : Session}
    → Handle.detach alive s (some c) deadline ≡ some s'
    → (s' ≡ record s { connection = none; offline_deadline = deadline; state = offline })
      × (s.state ≡ online)
      × (s.connection ≡ some c)
unfolding Handle.detach Handle.matches
detached alive s c deadline e = ground arith

pub detach-IsValid :
    (alive : ℕ → Bool) (m : SessionManager) (connection : ConnectionPtr) (now : ℕ)
    → IsValid m
    → IsValid (detach alive m connection now).0
unfolding detach
detach-IsValid alive m none now v = v
detach-IsValid alive m (some c) now v = elim (Option-cases (find c m.bindings)) [
  | inl unbound ↦ rw (unbound, detach) v
  | inr (t, b) ↦ elim (Option-cases (find t m.sessions)) [
    | inl unknown ↦ rw (b, detach) (rw unknown v)
    | inr (s, f) ↦
        elim (Option-cases (Handle.detach alive s (some c) (now + m.reconnect_timeout))) [
          | inl refused ↦ rw (b, detach) (rw f (rw refused v))
          | inr (s', d) ↦
              rw (b, detach)
                (rw f (
                  rw d (
                    let_go m c t s' v b
                      (ap (λ x. x.state) (detached alive s c (now + m.reconnect_timeout) d).0))))
        ]
  ]
]

pub rollback_resume-IsValid :
    (alive : ℕ → Bool) (m : SessionManager) (connection : ConnectionPtr)
    → IsValid m
    → IsValid (rollback_resume alive m connection).0
unfolding rollback_resume
rollback_resume-IsValid alive m none v = v
rollback_resume-IsValid alive m (some c) v = elim (Option-cases (find c m.bindings)) [
  | inl unbound ↦ rw (unbound, rollback_resume) v
  | inr (t, b) ↦ elim (Option-cases (find t m.sessions)) [
    | inl unknown ↦ rw (b, rollback_resume) (rw unknown v)
    | inr (s, f) ↦ elim (Option-cases (Handle.detach alive s (some c) s.offline_deadline)) [
      | inl refused ↦ rw (b, rollback_resume) (rw f (rw refused v))
      | inr (s', d) ↦
          rw (b, rollback_resume)
            (rw f (
              rw d (
                let_go m c t s' v b
                  (ap (λ x. x.state) (detached alive s c s.offline_deadline d).0))))
    ]
  ]
]

pub erase_by_connection-IsValid :
    (m : SessionManager) (connection : ConnectionPtr)
    → IsValid m
    → IsValid (erase_by_connection m connection).0
unfolding erase_by_connection
erase_by_connection-IsValid m none v = v
erase_by_connection-IsValid m (some c) v = elim (Option-cases (find c m.bindings)) [
  | inl unbound ↦ rw (unbound, erase_by_connection) v
  | inr (t, b) ↦ elim (Option-cases (find t m.sessions)) [
    | inl unknown ↦ rw (b, erase_by_connection) (rw unknown v)
    | inr (s, f) ↦
        rw (b, erase_by_connection)
          (rw f (
            drop m v c t (erase t m.sessions) (erase c m.bindings)
              (erase-Unique t m.sessions v.unique_tokens)
              (erase-Unique c m.bindings v.unique_connections) none b (λ r e o. ground arith)
              (λ u. find-erase t u m.sessions v.unique_tokens)
              (λ d. find-erase c d m.bindings v.unique_connections)))
  ]
]

pub erase_expired-IsValid :
    (m : SessionManager) (t : Token) (now : ℕ) → IsValid m → IsValid (erase_expired m t now).0
unfolding erase_expired
erase_expired-IsValid m t now v = elim (Option-cases (find t m.sessions)) [
  | inl unknown ↦ rw (unknown, erase_expired) v
  | inr (s, f) ↦ elim (Bool-cases (is_offline s.state)) [
    | inr busy ↦ rw (f, erase_expired) (rw busy v)
    | inl off ↦ elim (Bool-cases (Handle.expired s now)) [
      | inr early ↦ rw (f, erase_expired) (rw (off, early) v)
      | inl late ↦ rw (f, erase_expired) (rw (off, late) (forgotten m t s v f (ground arith)))
    ]
  ]
]

-- The sessions of a checkpoint come back offline, each token once.
abbrev AllOffline : Sessions → Type 0
AllOffline ss = (t : Token) (s : Session) → find t ss ≡ some s → s.state ≡ offline

restore_sessions-offline :
    (cs : List SessionCheckpoint) (deadline : ℕ) (found : Sessions) {out : Sessions}
    → restore_sessions cs deadline found ≡ some out
    → Unique found
    → AllOffline found
    → Unique out × AllOffline out
unfolding restore_sessions contains
restore_sessions-offline [] deadline found {out} e u a =
    let same : found ≡ out = ground arith in
    (subst (λ x. Unique x) same u, subst (λ x. AllOffline x) same a)
restore_sessions-offline (c ∷ cs) deadline found {out} e u a =
    let s : Session = Handle.offline_session c.room_id c.player_id deadline in
    let fresh : find c.token found ≡ none = ground arith in
    restore_sessions-offline cs deadline (emplace c.token s found) (ground arith)
      (emplace-Unique c.token s found u fresh)
      (λ t r f. elim (Bool-cases (same_text c.token t)) [
        | inl same ↦ ground (arith, find-emplace c.token t s found fresh)
        | inr other ↦ a t r (ground (arith, find-emplace c.token t s found fresh))
      ])

pub restore_checkpoint-IsValid :
    (m : SessionManager) (cs : List SessionCheckpoint) (now : ℕ) {out : SessionManager}
    → restore_checkpoint m cs now ≡ some out
    → IsValid out
unfolding restore_checkpoint find
restore_checkpoint-IsValid m cs now {out} e =
    elim (Option-cases (restore_sessions cs (now + m.reconnect_timeout) [])) [
      | inl refused ↦ absurd (ground arith)
      | inr (ss, r) ↦
          let (u, a) =
            restore_sessions-offline cs (now + m.reconnect_timeout) [] r tt
              (λ t s f. ground arith) in
          let same : record m { sessions = ss; bindings = [] } ≡ out = ground arith in
          subst IsValid same (record {
            unique_tokens = u;
            unique_connections = tt;
            bound = λ c t b. ground arith;
            held = λ t s f o. let off = a t s f in ground arith;
          })
    ]
