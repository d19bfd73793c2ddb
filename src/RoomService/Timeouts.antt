-- ===== src/RoomService/Timeouts.antt =====
-- The sessions that src/room_service.cpp drops when their deadline has passed, with their seats.
use l_w.Base.{
  ℕ, ◌≡◌, refl, sym, ◌∙◌, subst, inl, inr, true, false, List, [], ◌∷◌, none, some, arith, nat_eq,
  not, ◌||◌, is_some, Bool-cases,
}
use l_w.Map.{find, erase, Unique}
use l_w.Map.Laws.{find-erase, erase-Unique}
use l_w.Checkpoint.{SessionCheckpoint}
use l_w.RoomManager
use l_w.RoomManager.{RoomManager}
use l_w.RoomManager.Changes.{leave-IsValid, leave-seats}
use l_w.RoomManager.Seats.{seats}
use l_w.SessionManager.{
  Sessions, Token, text_eq, same_text, same_text_iff, expired_of, expired_sessions, erase_expired,
}
use l_w.SessionManager.Handle.{Session, is_offline}
use l_w.SessionManager.Handle
use l_w.SessionManager.Steps.{erase_expired-IsValid}
use l_w.SessionManager.Outcomes.{erase_expired_lem}
use l_w.RoomService.{RoomService, World, on_base}
use l_w.RoomService.Linked.{drop-Linked}
use l_w.RoomService.Dispatch.{drop_expired, drop_all, handle_session_timeouts}
use l_w.RoomService.Invariant.{IsValid}

-- The session that an item of the list names, offline and past its deadline.
abbrev Waits : Sessions → ℕ → SessionCheckpoint → Type 0
Waits ss now item =
    (x : Session) × (find item.token ss ≡ some x)
    × (x.room_id ≡ item.room_id)
    × (x.player_id ≡ item.player_id)
    × (is_offline x.state ≡ true)
    × (Handle.expired x now ≡ true)

abbrev Fresh : Token → List SessionCheckpoint → Type 0
Fresh t [] = Unit
Fresh t (item ∷ items) = (same_text t item.token ≡ false) × Fresh t items

abbrev Waiting : Sessions → ℕ → List SessionCheckpoint → Type 0
Waiting ss now [] = Unit
Waiting ss now (item ∷ items) = Waits ss now item × Fresh item.token items × Waiting ss now items

apart_sym : (t u : Token) → same_text t u ≡ false → same_text u t ≡ false
apart_sym t u other = elim (Bool-cases (same_text u t)) [
  | inl same ↦
      absurd (ground (arith, other, (same_text_iff t u).1 (sym ((same_text_iff u t).0 same))))
  | inr e ↦ e
]

expired_of-Fresh :
    (ss : Sessions) (now : ℕ) (t : Token) → find t ss ≡ none → Fresh t (expired_of ss now)
unfolding find expired_of
expired_of-Fresh [] now t e = tt
expired_of-Fresh ((u, x) ∷ ss) now t e =
    let other : same_text u t ≡ false = ground arith in
    let rest : Fresh t (expired_of ss now) = expired_of-Fresh ss now t (ground arith) in
    let apart : same_text t u ≡ false = apart_sym u t other in
    elim (Bool-cases (not (is_offline x.state) || not (Handle.expired x now))) [
      | inl stays ↦ rw stays rest
      | inr goes ↦ rw goes (apart, rest)
    ]

-- What `expired_sessions` lists are sessions, each once.
expired_of-Waiting :
    (ss : Sessions) (now : ℕ) (all : Sessions)
    → Unique ss
    → ((t : Token) (x : Session) → find t ss ≡ some x → find t all ≡ some x)
    → Waiting all now (expired_of ss now)
unfolding find expired_of
expired_of-Waiting [] now all u sub = tt
expired_of-Waiting ((t, x) ∷ ss) now all u sub =
    let here : find t all ≡ some x = sub t x (rw ((same_text_iff t t).1 refl) refl) in
    let rest : Waiting all now (expired_of ss now) = expired_of-Waiting ss now all u.1 (λ y z f.
      sub y z (elim (Bool-cases (same_text t y)) [
        | inr other ↦ rw other f
        | inl same ↦
            let e : t ≡ y = (same_text_iff t y).0 same in
            absurd (ground (arith, subst (λ k. find k ss ≡ none) e u.0))
      ])) in
    elim (Bool-cases (not (is_offline x.state) || not (Handle.expired x now))) [
      | inl stays ↦ rw stays rest
      | inr goes ↦
          rw goes
            ((x, here, refl, refl, ground arith, ground arith), expired_of-Fresh ss now t u.0, rest)
    ]

erase-Waiting :
    (ss : Sessions) (now : ℕ) (t : Token) (items : List SessionCheckpoint)
    → Unique ss
    → Fresh t items
    → Waiting ss now items
    → Waiting (erase t ss) now items
erase-Waiting ss now t [] u f v = tt
erase-Waiting ss now t (item ∷ items) u f ((x, e, a, b, off, late), g, v) = (
  (x, find-erase t item.token ss u ∙ (rw (f.0) e), a, b, off, late),
  g,
  erase-Waiting ss now t items u f.1 v,
)

module _ (w : World) (s : RoomService) (v : IsValid s) (item : SessionCheckpoint) (now : ℕ)
    (waits : Waits s.session_manager.sessions now item) where
  abbrev left : RoomManager × RoomManager.NotifyResult
  left = RoomManager.leave w.alive s.room_manager item.room_id item.player_id

  drops :
      left.1.state ≡ RoomManager.success
      → (drop_expired w s item now).0 ≡ record {
        room_manager = left.0;
        session_manager = (erase_expired s.session_manager item.token now).0;
      }
  unfolding drop_expired
  drops e = rw (e, drop_expired) refl

  -- The seat of a session that has expired is taken, so it can be left.
  leave_goes : is_some (seats s.room_manager.rooms item.room_id item.player_id) ≡ true
  leave_goes =
      let (x, f, a, b, _, _) = waits in
      let seat : seats s.room_manager.rooms item.room_id item.player_id ≡ some x.connection =
        rw (← a, ← b) (v.linked.seated item.token x f) in
      rw seat refl

  erases :
      (erase_expired s.session_manager item.token now).0
      ≡ record s.session_manager { sessions = erase item.token s.session_manager.sessions }
  erases =
      let (x, f, a, b, off, late) = waits in
      erase_expired_lem s.session_manager item.token x now f off late

  -- A session that has expired goes with its seat, and the rest stays.
  drop_expired_lem :
      IsValid (drop_expired w s item now).0
      × ((drop_expired w s item now).0.session_manager
          ≡ record s.session_manager { sessions = erase item.token s.session_manager.sessions })
  drop_expired_lem =
      let (x, f, a, b, off, late) = waits in
      elim (leave-seats w.alive s.room_manager v.rooms item.room_id item.player_id) [
        | inr (_, empty, _) ↦ absurd (ground (arith, leave_goes, empty))
        | inl (ok, _, change) ↦ rw (drops ok) (
          record {
            rooms = leave-IsValid w.alive s.room_manager v.rooms item.room_id item.player_id;
            sessions = erase_expired-IsValid s.session_manager item.token now v.sessions;
            linked = rw erases (
                drop-Linked v.linked item.token item.room_id item.player_id x f a b
                  (λ u. find-erase item.token u s.session_manager.sessions v.sessions.unique_tokens)
                  change);
          },
          erases,
        )
      ]

abbrev erase_all : List SessionCheckpoint → Sessions → Sessions
erase_all [] ss = ss
erase_all (item ∷ items) ss = erase_all items (erase item.token ss)

drop_all_lem :
    (w : World) (items : List SessionCheckpoint) (s : RoomService) (now : ℕ)
    → IsValid s
    → Waiting s.session_manager.sessions now items
    → IsValid (drop_all w s items now).0
      × ((drop_all w s items now).0.session_manager
          ≡ record s.session_manager { sessions = erase_all items s.session_manager.sessions })
unfolding drop_all
drop_all_lem w [] s now v l = (v, refl)
drop_all_lem w (item ∷ items) s now v l =
    let (v', e) = drop_expired_lem w s v item now l.0 in
    let (v'', e') = drop_all_lem w items (drop_expired w s item now).0 now v' (
      rw e (
        erase-Waiting s.session_manager.sessions now item.token items v.sessions.unique_tokens l.1
          l.2)) in
    (v'', e' ∙ (rw e refl))

-- What is left of the sessions, and that nothing expired is.
find-erase_all :
    (items : List SessionCheckpoint) (ss : Sessions) (u : Token) {x : Session}
    → Unique ss
    → find u (erase_all items ss) ≡ some x
    → (find u ss ≡ some x) × Fresh u items
find-erase_all [] ss u v e = (e, tt)
find-erase_all (item ∷ items) ss u {x} v e =
    let (f, fresh) =
      find-erase_all items (erase item.token ss) u (erase-Unique item.token ss v) e in
    elim (Bool-cases (same_text item.token u)) [
      | inl same ↦ absurd (ground (arith, find-erase item.token u ss v))
      | inr other ↦
          (ground (arith, find-erase item.token u ss v), (apart_sym item.token u other, fresh))
    ]

erase_all-Unique :
    (items : List SessionCheckpoint) (ss : Sessions) → Unique ss → Unique (erase_all items ss)
erase_all-Unique [] ss v = v
erase_all-Unique (item ∷ items) ss v =
    erase_all-Unique items (erase item.token ss) (erase-Unique item.token ss v)

expired_of-listed :
    (ss : Sessions) (now : ℕ) (u : Token) (x : Session)
    → find u ss ≡ some x
    → is_offline x.state ≡ true
    → Handle.expired x now ≡ true
    → Fresh u (expired_of ss now)
    → ⊥
unfolding find expired_of
expired_of-listed [] now u x e off late f = ground arith
expired_of-listed ((t, y) ∷ ss) now u x e off late f = elim (Bool-cases (same_text t u)) [
  | inl same ↦
      let here : y ≡ x = ground arith in
      let listed : (same_text u t ≡ false) × Fresh u (expired_of ss now) =
        rw (here, off, late) at f in
      absurd (ground (arith, listed.0, (same_text_iff u t).1 (sym ((same_text_iff t u).0 same))))
  | inr other ↦
      expired_of-listed ss now u x (ground arith) off late
        (elim (Bool-cases (not (is_offline y.state) || not (Handle.expired y now))) [
          | inl stays ↦ rw stays at f
          | inr goes ↦
              let g : (same_text u t ≡ false) × Fresh u (expired_of ss now) = rw goes at f in g.1
        ])
]

expired_of-none :
    (ss : Sessions) (now : ℕ)
    → Unique ss
    → ((t : Token) (x : Session)
        → find t ss ≡ some x
        → is_offline x.state ≡ true
        → Handle.expired x now ≡ true
        → ⊥)
    → expired_of ss now ≡ []
unfolding find expired_of
expired_of-none [] now v h = refl
expired_of-none ((t, x) ∷ ss) now v h =
    let rest : expired_of ss now ≡ [] = expired_of-none ss now v.1 (λ u y f.
      h u y (elim (Bool-cases (same_text t u)) [
        | inr other ↦ rw other f
        | inl same ↦
            let e : t ≡ u = (same_text_iff t u).0 same in
            absurd (ground (arith, subst (λ k. find k ss ≡ none) e v.0))
      ])) in
    elim (Bool-cases (not (is_offline x.state) || not (Handle.expired x now))) [
      | inl stays ↦ rw stays rest
      | inr goes ↦
          absurd (h t x (rw ((same_text_iff t t).1 refl) refl) (ground arith) (ground arith))
    ]

erase_all-expired_of :
    (ss : Sessions) (now : ℕ) → Unique ss → expired_of (erase_all (expired_of ss now) ss) now ≡ []
erase_all-expired_of ss now v =
    expired_of-none (erase_all (expired_of ss now) ss) now
      (erase_all-Unique (expired_of ss now) ss v)
      (λ t x f off late.
        let (g, fresh) = find-erase_all (expired_of ss now) ss t {x = x} v f in
        expired_of-listed ss now t x g off late fresh)

module _ (w : World) (s : RoomService) (now : ℕ) (v : IsValid s) where
  expired_Waiting : Waiting s.session_manager.sessions now (expired_sessions s.session_manager now)
  unfolding expired_sessions
  expired_Waiting =
      expired_of-Waiting s.session_manager.sessions now s.session_manager.sessions
        v.sessions.unique_tokens (λ t x f. f)

  pub handle_session_timeouts-IsValid : IsValid (handle_session_timeouts w s now).0
  unfolding handle_session_timeouts
  handle_session_timeouts-IsValid = elim (Bool-cases (on_base w)) [
    | inr away ↦ rw (away, handle_session_timeouts) v
    | inl here ↦
        rw (here, handle_session_timeouts)
          ((drop_all_lem w (expired_sessions s.session_manager now) s now v expired_Waiting).0)
  ]

  -- After the timeouts have been handled in the base loop's thread, no session is past its deadline,
  -- and every seat that is left belongs to a session that is left.
  pub handle_session_timeouts_lem :
      on_base w ≡ true
      → (expired_sessions (handle_session_timeouts w s now).0.session_manager now ≡ [])
        × IsValid (handle_session_timeouts w s now).0
  unfolding handle_session_timeouts expired_sessions
  handle_session_timeouts_lem here =
      let (w', e) =
        drop_all_lem w (expired_sessions s.session_manager now) s now v expired_Waiting in
      rw (here, handle_session_timeouts)
        (rw e (erase_all-expired_of s.session_manager.sessions now v.sessions.unique_tokens), w')
