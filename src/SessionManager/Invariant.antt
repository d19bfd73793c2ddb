-- ===== src/SessionManager/Invariant.antt =====
-- The connections and the sessions of src/session_manager.cpp point at each other.
use l_w.Base.{
  ℕ, ◌≡◌, ◌≢◌, refl, sym, ap, subst, ◌∙◌, inl, inr, Option, none, some, ◌==◌, if◌then◌else◌, nat_eq,
  arith, Bool-cases,
}
use l_w.Map.{find, assign, erase, Unique}
use l_w.Map.Laws.{find-assign, find-erase, assign-Unique, erase-Unique}
use l_w.SessionManager.Handle.{Session, online, offline}
use l_w.SessionManager.{
  SessionManager, Sessions, Bindings, Token, text_eq, same_text, create, resume, rollback_resume,
  detach, erase_by_connection, erase_expired, restore_checkpoint, restore_sessions, generate_token,
}
use l_w.SessionManager

-- Each binding leads to a session that is online through that connection, and each session that is
-- online has its connection bound to it.
pub record IsValid (m : SessionManager) : Type 0 where
  pub unique_tokens : Unique m.sessions
  pub unique_connections : Unique m.bindings
  pub bound :
      (c : ℕ) (t : Token)
      → find c m.bindings ≡ some t
      → (s : Session) × (find t m.sessions ≡ some s) × (s.state ≡ online) × (s.connection ≡ some c)
  pub held :
      (t : Token) (s : Session)
      → find t m.sessions ≡ some s
      → s.state ≡ online
      → (c : ℕ) × (s.connection ≡ some c) × (find c m.bindings ≡ some t)

module _ (m : SessionManager) (v : IsValid m) (c : ℕ) (t : Token) (ss : Sessions) (bs : Bindings)
    (us : Unique ss) (ub : Unique bs) where
  -- A connection that had no session comes to hold the session of a token that was not online.
  pub put :
      (s : Session)
      → find c m.bindings ≡ none
      → ((r : Session) → find t m.sessions ≡ some r → r.state ≢ online)
      → s.state ≡ online
      → s.connection ≡ some c
      → ((u : Token) → find u ss ≡ (if same_text t u then some s else find u m.sessions))
      → ((d : ℕ) → find d bs ≡ (if c == d then some t else find d m.bindings))
      → IsValid (record m { sessions = ss; bindings = bs })
  put s free idle on here fs fb = record {
    unique_tokens = us;
    unique_connections = ub;
    bound = λ d u b. elim (Bool-cases (c == d)) [
      | inl same ↦
          (s, ground (arith, fs u, fb d, SessionManager.same_text_iff t u), on, ground arith)
      | inr other ↦
          let (r, f, o, h) = v.bound d u (sym (rw (fb d, other) refl) ∙ b) in
          (
            r,
            elim (Bool-cases (same_text t u)) [
              | inl same_token ↦
                  let e : t ≡ u = (SessionManager.same_text_iff t u).0 same_token in
                  absurd (idle r (subst (λ k. find k m.sessions ≡ some r) (sym e) f) o)
              | inr other_token ↦ rw (fs u, other_token) f
            ],
            o,
            h,
          )
    ];
    held = λ u r f o. elim (Bool-cases (same_text t u)) [
      | inl same_token ↦
          let e : t ≡ u = (SessionManager.same_text_iff t u).0 same_token in
          let e' : s ≡ r = ground (arith, fs u) in
          (c, ap (λ x. x.connection) (sym e') ∙ here, ground (arith, fb c))
      | inr other_token ↦
          let (d, h, b) = v.held u r (sym (rw (fs u, other_token) refl) ∙ f) o in
          (
            d,
            h,
            elim (Bool-cases (c == d)) [
              | inl same ↦ absurd (ground arith)
              | inr other ↦ rw (fb d, other) b
            ],
          )
    ];
  }

  -- The connection of a token's session is let go: the session is gone, or offline.
  pub drop :
      (x : Option Session)
      → find c m.bindings ≡ some t
      → ((r : Session) → x ≡ some r → r.state ≢ online)
      → ((u : Token) → find u ss ≡ (if same_text t u then x else find u m.sessions))
      → ((d : ℕ) → find d bs ≡ (if c == d then none else find d m.bindings))
      → IsValid (record m { sessions = ss; bindings = bs })
  drop x b0 idle fs fb = record {
    unique_tokens = us;
    unique_connections = ub;
    bound = λ d u b. elim (Bool-cases (c == d)) [
      | inl same ↦ absurd (ground (arith, fb d))
      | inr other ↦
          let (r, f, o, h) = v.bound d u (sym (rw (fb d, other) refl) ∙ b) in
          let (r', f', o', h') = v.bound c t b0 in
          (
            r,
            elim (Bool-cases (same_text t u)) [
              | inl same_token ↦
                  let e : t ≡ u = (SessionManager.same_text_iff t u).0 same_token in
                  let e' : some r' ≡ some r =
                    sym f' ∙ subst (λ k. find k m.sessions ≡ some r) (sym e) f in
                  let e'' : c ≡ d = ground arith in absurd (ground arith)
              | inr other_token ↦ rw (fs u, other_token) f
            ],
            o,
            h,
          )
    ];
    held = λ u r f o. elim (Bool-cases (same_text t u)) [
      | inl same_token ↦ absurd (idle r (sym (rw (fs u, same_token) refl) ∙ f) o)
      | inr other_token ↦
          let (d, h, b) = v.held u r (sym (rw (fs u, other_token) refl) ∙ f) o in
          (
            d,
            h,
            elim (Bool-cases (c == d)) [
              | inl same ↦
                  let e : c ≡ d = ground arith in
                  let e' : some t ≡ some u =
                    sym b0 ∙ subst (λ k. find k m.bindings ≡ some u) (sym e) b in
                  absurd (ground (arith, SessionManager.same_text_iff t u))
              | inr other ↦ rw (fb d, other) b
            ],
          )
    ];
  }

-- A session that goes offline, and one that goes away.
pub let_go :
    (m : SessionManager) (c : ℕ) (t : Token) (s : Session)
    → IsValid m
    → find c m.bindings ≡ some t
    → s.state ≡ offline
    → IsValid (record m { sessions = assign t s m.sessions; bindings = erase c m.bindings })
let_go m c t s v b off =
    drop m v c t (assign t s m.sessions) (erase c m.bindings)
      (assign-Unique t s m.sessions v.unique_tokens)
      (erase-Unique c m.bindings v.unique_connections) (some s) b (λ r e o. ground arith)
      (λ u. find-assign t u s m.sessions) (λ d. find-erase c d m.bindings v.unique_connections)

-- Sessions that are not online may go without a change of the bindings.
pub forgotten :
    (m : SessionManager) (t : Token) (s : Session)
    → IsValid m
    → find t m.sessions ≡ some s
    → s.state ≡ offline
    → IsValid (record m { sessions = erase t m.sessions })
forgotten m t s v f off = record {
  unique_tokens = erase-Unique t m.sessions v.unique_tokens;
  unique_connections = v.unique_connections;
  bound = λ c u b.
      let (r, g, o, h) = v.bound c u b in
      (
        r,
        find-erase t u m.sessions v.unique_tokens ∙ elim (Bool-cases (same_text t u)) [
          | inl same ↦
              let e : t ≡ u = (SessionManager.same_text_iff t u).0 same in
              let e' : some s ≡ some r =
                sym f ∙ subst (λ k. find k m.sessions ≡ some r) (sym e) g in
              absurd (ground arith)
          | inr other ↦ rw other g
        ],
        o,
        h,
      );
  held = λ u r g o. v.held u r (ground (arith, find-erase t u m.sessions v.unique_tokens)) o;
}
