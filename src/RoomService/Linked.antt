-- ===== src/RoomService/Linked.antt =====
-- How the seats of src/room_manager.cpp and the sessions of src/session_manager.cpp belong together.
use l_w.Base.{
  ℕ, ◌≡◌, ◌≢◌, refl, sym, ◌∙◌, subst, ◌⊎◌, inl, inr, Option, none, some, ◌==◌, ==_iff, ==_refl,
  if◌then◌else◌, nat_eq, arith, Bool-cases, Option-cases,
}
use l_w.Pointers.{WeakPtr}
use l_w.SessionManager.{Token, same_text, same_text_iff}
use l_w.SessionManager.Handle.{Session, offline}

abbrev pub Seating : Type 0
Seating = ℕ → ℕ → Option WeakPtr

abbrev pub Holders : Type 0
Holders = Token → Option Session

-- Every seat is held by the session of exactly one token, every session has its seat and that seat has
-- the session's connection, and a session that is offline has none.
pub record Linked (seat : Seating) (holder : Holders) : Type 0 where
  pub taken :
      (k p : ℕ) (w : WeakPtr)
      → seat k p ≡ some w
      → (t : Token) × (s : Session) × (holder t ≡ some s) × (s.room_id ≡ k) × (s.player_id ≡ p)
  pub seated :
      (t : Token) (s : Session) → holder t ≡ some s → seat s.room_id s.player_id ≡ some s.connection
  pub single :
      (t u : Token) (s r : Session)
      → holder t ≡ some s
      → holder u ≡ some r
      → s.room_id ≡ r.room_id
      → s.player_id ≡ r.player_id
      → t ≡ u
  pub idle : (t : Token) (s : Session) → holder t ≡ some s → s.state ≡ offline → s.connection ≡ none

abbrev pub seat_of : Option Session → Option WeakPtr
seat_of none = none
seat_of (some s) = some s.connection

-- Changes at one token, and at one seat.
abbrev pub Reholds : Holders → Holders → Token → Option Session → Type 0
Reholds before after t o = (u : Token) → after u ≡ (if same_text t u then o else before u)

abbrev pub Reseated : Seating → Seating → ℕ → ℕ → Option WeakPtr → Type 0
Reseated before after k p w =
    (i j : ℕ) → after i j ≡ (if k == i then (if p == j then w else before i j) else before i j)

-- A session and its seat change together.
pub record Changes (seat seat' : Seating) (holder holder' : Holders) (k p : ℕ) (t : Token)
    (o : Option Session) : Type 0 where
  pub at_token : Reholds holder holder' t o
  pub at_seat : Reseated seat seat' k p (seat_of o)
  pub own_seat :
      (s : Session)
      → o ≡ some s
      → (s.room_id ≡ k) × (s.player_id ≡ p) × (s.state ≡ offline → s.connection ≡ none)
  pub before : (r : Session) → holder t ≡ some r → (r.room_id ≡ k) × (r.player_id ≡ p)
  pub alone :
      (u : Token) (r : Session) → holder u ≡ some r → r.room_id ≡ k → r.player_id ≡ p → u ≡ t

module _ {seat seat' : Seating} {holder holder' : Holders} {k p : ℕ} {t : Token}
    {o : Option Session} (c : Changes seat seat' holder holder' k p t o) where
  new_seat : seat' k p ≡ seat_of o
  new_seat = c.at_seat k p ∙ (rw (==_refl k) (rw (==_refl p) refl))

  new_holder : holder' t ≡ o
  new_holder = c.at_token t ∙ (rw ((same_text_iff t t).1 refl) refl)

  old_holder : (u : Token) → t ≢ u → holder' u ≡ holder u
  old_holder u away = c.at_token u ∙ elim (Bool-cases (same_text t u)) [
    | inl same ↦ absurd (away ((same_text_iff t u).0 same))
    | inr other ↦ rw other refl
  ]

  old_seat : (i j : ℕ) → (k ≡ i → p ≡ j → ⊥) → seat' i j ≡ seat i j
  old_seat i j away = c.at_seat i j ∙ ground (arith, away)

  -- What a changed token or another one says about a session that is held now.
  held_by :
      (u : Token) (s : Session)
      → holder' u ≡ some s
      → ((t ≡ u) × (o ≡ some s)) ⊎ ((t ≢ u) × (holder u ≡ some s))
  held_by u s h = elim (Bool-cases (same_text t u)) [
    | inl same ↦
        let e : t ≡ u = (same_text_iff t u).0 same in
        inl (e, sym new_holder ∙ subst (λ x. holder' x ≡ some s) (sym e) h)
    | inr other ↦
        let away : t ≢ u = λ e. ground (arith, (same_text_iff t u).1 e) in
        inr (away, sym (old_holder u away) ∙ h)
  ]

  held_elsewhere :
      Linked seat holder
      → (i j : ℕ) {w : WeakPtr} → (k ≡ i → p ≡ j → ⊥)
      → seat' i j ≡ some w
      → (u : Token) × (s : Session) × (holder' u ≡ some s) × (s.room_id ≡ i) × (s.player_id ≡ j)
  held_elsewhere l i j {w} away h =
      let (u, s, f, a, b) = l.taken i j w (sym (old_seat i j away) ∙ h) in
      let other : t ≢ u = λ e.
        let (x, y) = c.before s (subst (λ z. holder z ≡ some s) (sym e) f) in
        away (sym x ∙ a) (sym y ∙ b) in
      (u, s, old_holder u other ∙ f, a, b)

  held_here :
      {w : WeakPtr}
      → seat' k p ≡ some w
      → (u : Token) × (s : Session) × (holder' u ≡ some s) × (s.room_id ≡ k) × (s.player_id ≡ p)
  held_here {w} h = elim (Option-cases o) [
    | inl gone ↦ absurd (ground (arith, new_seat, gone))
    | inr (s, now) ↦ let (a, b, _) = c.own_seat s now in (t, s, new_holder ∙ now, a, b)
  ]

  pub change-Linked : Linked seat holder → Linked seat' holder'
  change-Linked l = record {
    taken = λ i j w h. elim (Bool-cases (k == i)) [
      | inr other ↦ held_elsewhere l i j {w = w} (λ e e'. ground (arith, (==_iff k i).1 e)) h
      | inl same ↦ elim (Bool-cases (p == j)) [
        | inr other ↦ held_elsewhere l i j {w = w} (λ e e'. ground (arith, (==_iff p j).1 e')) h
        | inl same' ↦
            let a : k ≡ i = (==_iff k i).0 same in
            let b : p ≡ j = (==_iff p j).0 same' in
            let (u, s, f, x, y) = held_here {w = w} (rw (a, b) h) in (u, s, f, x ∙ a, y ∙ b)
      ]
    ];
    seated = λ u s h. elim (held_by u s h) [
      | inl (e, now) ↦ let (a, b, _) = c.own_seat s now in rw (a, b) (new_seat ∙ (rw now refl))
      | inr (away, was) ↦
          old_seat s.room_id s.player_id (λ a b. away (sym (c.alone u s was (sym a) (sym b))))
          ∙ l.seated u s was
    ];
    single = λ u v s r h g a b. elim (held_by u s h) [
      | inl (e, now) ↦ elim (held_by v r g) [
        | inl (e', _) ↦ sym e ∙ e'
        | inr (away, was) ↦
            let (x, y, _) = c.own_seat s now in
            absurd (away (sym (c.alone v r was (sym a ∙ x) (sym b ∙ y))))
      ]
      | inr (away, was) ↦ elim (held_by v r g) [
        | inl (e', now) ↦
            let (x, y, _) = c.own_seat r now in
            absurd (away (sym (c.alone u s was (a ∙ x) (b ∙ y))))
        | inr (_, was') ↦ l.single u v s r was was' a b
      ]
    ];
    idle = λ u s h off. elim (held_by u s h) [
      | inl (e, now) ↦ let (_, _, f) = c.own_seat s now in f off
      | inr (_, was) ↦ l.idle u s was off
    ];
  }

-- The session of a seat, which has no connection when it is offline.
abbrev Fits : ℕ → ℕ → Session → Type 0
Fits k p s = (s.room_id ≡ k) × (s.player_id ≡ p) × (s.state ≡ offline → s.connection ≡ none)

only : {s : Session} {k p : ℕ} → Fits k p s → (r : Session) → some s ≡ some r → Fits k p r
only {s} {k} {p} f r e = let same : s ≡ r = ground arith in subst (Fits k p) same f

module _ {seat : Seating} {holder : Holders} (l : Linked seat holder) (t : Token) (s : Session)
    (here : holder t ≡ some s) {k p : ℕ} (a : s.room_id ≡ k) (b : s.player_id ≡ p) where
  own : (r : Session) → holder t ≡ some r → (r.room_id ≡ k) × (r.player_id ≡ p)
  own r e = let same : s ≡ r = ground arith in rw (← same) (a, b)

  same_token :
      (u : Token) (r : Session) → holder u ≡ some r → r.room_id ≡ k → r.player_id ≡ p → u ≡ t
  same_token u r h x y = l.single u t r s h here (x ∙ sym a) (y ∙ sym b)

module _ {seat seat' : Seating} {holder holder' : Holders} (l : Linked seat holder) (t : Token)
    (k p : ℕ) where
  -- A seat and a session that are both new.
  pub add-Linked :
      (s : Session)
      → seat k p ≡ none
      → holder t ≡ none
      → Fits k p s
      → Reholds holder holder' t (some s)
      → Reseated seat seat' k p (some s.connection)
      → Linked seat' holder'
  add-Linked s empty unknown fits hs fs =
      change-Linked
        (record {
          at_token = hs;
          at_seat = fs;
          own_seat = only fits;
          before = λ r e. absurd (ground arith);
          alone = λ u r h a b.
              let there : seat k p ≡ some r.connection = rw (← a, ← b) (l.seated u r h) in
              absurd (ground arith);
        })
        l

  module _ (s : Session) (here : holder t ≡ some s) (a : s.room_id ≡ k) (b : s.player_id ≡ p) where
    -- A session that goes, with its seat.
    pub drop-Linked :
        Reholds holder holder' t none → Reseated seat seat' k p none → Linked seat' holder'
    drop-Linked hs fs =
        change-Linked
          (record {
            at_token = hs;
            at_seat = fs;
            own_seat = λ r e. absurd (ground arith);
            before = own l t s here a b;
            alone = same_token l t s here a b;
          })
          l

    -- A session that gets another connection, as its seat does.
    pub relink-Linked :
        (s' : Session)
        → Fits k p s'
        → Reholds holder holder' t (some s')
        → Reseated seat seat' k p (some s'.connection)
        → Linked seat' holder'
    relink-Linked s' fits hs fs =
        change-Linked
          (record {
            at_token = hs;
            at_seat = fs;
            own_seat = only fits;
            before = own l t s here a b;
            alone = same_token l t s here a b;
          })
          l
