-- ===== src/CheckpointCodec/Written.antt =====
-- The bytes that src/checkpoint_codec.cpp writes, without the size limits.
use l_w.Base.{
  ℕ, ◌+◌, ◌≤◌, ◌≡◌, refl, sym, ap, ◌∙◌, ◌⊎◌, inl, inr, true, List, [], ◌∷◌, ◌++◌, none, some,
  length, arith, append_assoc, append-nil, Bool-cases,
}
use l_w.Bytes.{be32}
use l_w.Game.{PlayerGameState}
use l_w.Checkpoint.{CheckpointMember, RoomCheckpoint, SessionCheckpoint}
use l_w.CheckpointCodec.Outcomes.{Answer, answer, ◌>>=◌, large, bind-eq-answer}
use l_w.CheckpointCodec.Writing.{
  can_append, append_bytes, append_u8, append_each, append_u32, append_u64, be64, append_member,
  append_players, append_stored, append_room, append_rooms, append_sessions, room_state_to_byte,
  int32_to_bits, fits_u32, max_payload_size,
}

abbrev pub flat {ℓ} : {A : Type ℓ} → (A → List ℕ) → List A → List ℕ
flat write [] = []
flat write (x ∷ xs) = write x ++ flat write xs

abbrev pub member_bytes : CheckpointMember → List ℕ
member_bytes m = be64 m.player_id ++ be32 (length m.player_name) ++ m.player_name

abbrev pub player_bytes : PlayerGameState → List ℕ
player_bytes p =
    be64 p.player_id
    ++ be32 (int32_to_bits p.x)
    ++ be32 (int32_to_bits p.y)
    ++ be32 (int32_to_bits p.hp)

abbrev pub room_bytes : RoomCheckpoint → List ℕ
room_bytes room =
    be32 room.room_id
    ++ be64 room.capacity
    ++ be64 room.next_player_id
    ++ (room_state_to_byte room.state ∷ [])
    ++ be64 room.tick_id
    ++ be32 (length room.members)
    ++ (flat member_bytes room.members
        ++ (be32 (length room.game_states) ++ flat player_bytes room.game_states))

abbrev pub session_bytes : SessionCheckpoint → List ℕ
session_bytes s = be32 (length s.token) ++ (s.token ++ (be32 s.room_id ++ be64 s.player_id))

u8-cases :
    (out : List ℕ) (v limit : ℕ)
    → (append_u8 out v limit ≡ none) ⊎ (append_u8 out v limit ≡ some (out ++ v ∷ []))
unfolding append_u8
u8-cases out v limit = elim (Bool-cases (can_append out 1 limit)) [
  | inl fits ↦ inr (rw fits refl)
  | inr full ↦ inl (rw full refl)
]

pub bytes-cases :
    (out source : List ℕ) (limit : ℕ)
    → (append_bytes out source limit ≡ none)
      ⊎ ((append_bytes out source limit ≡ some (out ++ source))
          × (length out + length source ≤ limit))
unfolding append_bytes can_append
bytes-cases out source limit = elim (Bool-cases (can_append out (length source) limit)) [
  | inl fits ↦ inr (rw fits refl, ground (arith, fits))
  | inr full ↦ inl (rw full refl)
]

each-cases :
    (out bs : List ℕ) (limit : ℕ)
    → (append_each out bs limit ≡ none) ⊎ (append_each out bs limit ≡ some (out ++ bs))
unfolding append_each
each-cases out [] limit = inr (ap some (sym (append-nil out)))
each-cases out (b ∷ bs) limit = elim (u8-cases out b limit) [
  | inl full ↦ inl (rw (full, append_each) refl)
  | inr fits ↦ elim (each-cases (out ++ b ∷ []) bs limit) [
    | inl full ↦ inl (rw (fits, append_each) full)
    | inr done ↦ inr (rw (fits, append_each) (done ∙ ap some (append_assoc out (b ∷ []) bs)))
  ]
]

pub u32-cases :
    (out : List ℕ) (v limit : ℕ)
    → (append_u32 out v limit ≡ none) ⊎ (append_u32 out v limit ≡ some (out ++ be32 v))
unfolding append_u32
u32-cases out v limit = each-cases out (be32 v) limit

pub u64-cases :
    (out : List ℕ) (v limit : ℕ)
    → (append_u64 out v limit ≡ none) ⊎ (append_u64 out v limit ≡ some (out ++ be64 v))
unfolding append_u64
u64-cases out v limit = each-cases out (be64 v) limit

append_member_lem :
    (out : List ℕ) (m : CheckpointMember) {r : List ℕ}
    → append_member out m ≡ answer r
    → (out ++ member_bytes m ≡ r) × (fits_u32 (length m.player_name) ≡ true)
unfolding append_member
append_member_lem out m {r} e = ground (
  arith,
  u64-cases out m.player_id max_payload_size,
  u32-cases (out ++ be64 m.player_id) (length m.player_name) max_payload_size,
  bytes-cases ((out ++ be64 m.player_id) ++ be32 (length m.player_name)) m.player_name
      max_payload_size,
  append_assoc out (be64 m.player_id) (be32 (length m.player_name) ++ m.player_name),
  append_assoc (out ++ be64 m.player_id) (be32 (length m.player_name)) m.player_name,
)

append_stored_lem :
    (out : List ℕ) (ms : List CheckpointMember) {r : List ℕ}
    → append_stored out ms ≡ answer r
    → out ++ flat member_bytes ms ≡ r
unfolding append_stored
append_stored_lem out [] {r} e = append-nil out ∙ ground arith
append_stored_lem out (m ∷ ms) {r} e =
    let (mid, first, more) = bind-eq-answer (append_member out m) (λ t. append_stored t ms) e in
    sym (append_assoc out (member_bytes m) (flat member_bytes ms))
    ∙ ap (λ t. t ++ flat member_bytes ms) (append_member_lem out m first).0
    ∙ append_stored_lem mid ms more

append_player :
    (out : List ℕ) (p : PlayerGameState) (ps : List PlayerGameState) {r : List ℕ}
    → append_players out (p ∷ ps) ≡ answer r
    → append_players (out ++ player_bytes p) ps ≡ answer r
unfolding append_players
append_player out p ps {r} e =
    let a = out ++ be64 p.player_id in
    let b = a ++ be32 (int32_to_bits p.x) in
    let c = b ++ be32 (int32_to_bits p.y) in
    let same : c ++ be32 (int32_to_bits p.hp) ≡ out ++ player_bytes p = simp append_assoc refl in
    sym (ap (λ t. append_players t ps) same)
    ∙ ground (
      arith,
      u64-cases out p.player_id max_payload_size,
      u32-cases a (int32_to_bits p.x) max_payload_size,
      u32-cases b (int32_to_bits p.y) max_payload_size,
      u32-cases c (int32_to_bits p.hp) max_payload_size,
    )

append_players_lem :
    (out : List ℕ) (ps : List PlayerGameState) {r : List ℕ}
    → append_players out ps ≡ answer r
    → out ++ flat player_bytes ps ≡ r
append_players_lem out [] {r} e = append-nil out ∙ unfold append_players in ground arith
append_players_lem out (p ∷ ps) {r} e =
    sym (append_assoc out (player_bytes p) (flat player_bytes ps))
    ∙ append_players_lem (out ++ player_bytes p) ps (append_player out p ps e)

append_session :
    (out : List ℕ) (s : SessionCheckpoint) (ss : List SessionCheckpoint) {r : List ℕ}
    → append_sessions out (s ∷ ss) ≡ answer r
    → append_sessions (out ++ session_bytes s) ss ≡ answer r
unfolding append_sessions
append_session out s ss {r} e =
    let a = out ++ be32 (length s.token) in
    let b = a ++ s.token in
    let c = b ++ be32 s.room_id in
    let same : c ++ be64 s.player_id ≡ out ++ session_bytes s = simp append_assoc refl in
    sym (ap (λ t. append_sessions t ss) same)
    ∙ ground (
      arith,
      u32-cases out (length s.token) max_payload_size,
      bytes-cases a s.token max_payload_size,
      u32-cases b s.room_id max_payload_size,
      u64-cases c s.player_id max_payload_size,
    )

pub append_sessions_lem :
    (out : List ℕ) (ss : List SessionCheckpoint) {r : List ℕ}
    → append_sessions out ss ≡ answer r
    → out ++ flat session_bytes ss ≡ r
append_sessions_lem out [] {r} e = append-nil out ∙ unfold append_sessions in ground arith
append_sessions_lem out (s ∷ ss) {r} e =
    sym (append_assoc out (session_bytes s) (flat session_bytes ss))
    ∙ append_sessions_lem (out ++ session_bytes s) ss (append_session out s ss e)

-- A room's record from the game states on.
abbrev append_games : RoomCheckpoint → List ℕ → Answer (List ℕ)
append_games room out = large (append_u32 out (length room.game_states) max_payload_size) >>= λ r.
    append_players r room.game_states

append_games_lem :
    (room : RoomCheckpoint) (out : List ℕ) {r : List ℕ}
    → append_games room out ≡ answer r
    → out ++ (be32 (length room.game_states) ++ flat player_bytes room.game_states) ≡ r
append_games_lem room out {r} e =
    sym (append_assoc out (be32 (length room.game_states)) (flat player_bytes room.game_states))
    ∙ append_players_lem (out ++ be32 (length room.game_states)) room.game_states
        (ground (arith, u32-cases out (length room.game_states) max_payload_size))

abbrev fields_bytes : RoomCheckpoint → List ℕ
fields_bytes room =
    be32 room.room_id
    ++ be64 room.capacity
    ++ be64 room.next_player_id
    ++ (room_state_to_byte room.state ∷ [])
    ++ be64 room.tick_id
    ++ be32 (length room.members)

append_fields :
    (out : List ℕ) (room : RoomCheckpoint) {r : List ℕ}
    → append_room out room ≡ answer r
    → (append_stored (out ++ fields_bytes room) room.members >>= append_games room) ≡ answer r
unfolding append_room
append_fields out room {r} e =
    let a = out ++ be32 room.room_id in
    let b = a ++ be64 room.capacity in
    let c = b ++ be64 room.next_player_id in
    let d = c ++ room_state_to_byte room.state ∷ [] in
    let f = d ++ be64 room.tick_id in
    let same : f ++ be32 (length room.members) ≡ out ++ fields_bytes room =
      simp append_assoc refl in
    sym (ap (λ t. append_stored t room.members >>= append_games room) same)
    ∙ ground (
      arith,
      u32-cases out room.room_id max_payload_size,
      u64-cases a room.capacity max_payload_size,
      u64-cases b room.next_player_id max_payload_size,
      u8-cases c (room_state_to_byte room.state) max_payload_size,
      u64-cases d room.tick_id max_payload_size,
      u32-cases f (length room.members) max_payload_size,
    )

append_room_lem :
    (out : List ℕ) (room : RoomCheckpoint) {r : List ℕ}
    → append_room out room ≡ answer r
    → out ++ room_bytes room ≡ r
append_room_lem out room {r} e =
    let (mid, first, more) =
      bind-eq-answer (append_stored (out ++ fields_bytes room) room.members) (append_games room)
        (append_fields out room e) in
    let games : List ℕ = be32 (length room.game_states) ++ flat player_bytes room.game_states in
    sym (append_assoc out (fields_bytes room) (flat member_bytes room.members ++ games))
    ∙ sym (append_assoc (out ++ fields_bytes room) (flat member_bytes room.members) games)
    ∙ ap (λ t. t ++ games) (append_stored_lem (out ++ fields_bytes room) room.members first)
    ∙ append_games_lem room mid more

pub append_rooms_lem :
    (out : List ℕ) (rooms : List RoomCheckpoint) {r : List ℕ}
    → append_rooms out rooms ≡ answer r
    → out ++ flat room_bytes rooms ≡ r
unfolding append_rooms
append_rooms_lem out [] {r} e = append-nil out ∙ ground arith
append_rooms_lem out (room ∷ rooms) {r} e =
    let (mid, first, more) = bind-eq-answer (append_room out room) (λ t. append_rooms t rooms) e in
    sym (append_assoc out (room_bytes room) (flat room_bytes rooms))
    ∙ ap (λ t. t ++ flat room_bytes rooms) (append_room_lem out room first)
    ∙ append_rooms_lem mid rooms more
