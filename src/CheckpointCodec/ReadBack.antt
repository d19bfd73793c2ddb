-- ===== src/CheckpointCodec/ReadBack.antt =====
-- The reader of src/checkpoint_codec.cpp on bytes that were written.
use l_w.Base.{
  ℕ, ◌+◌, ◌-◌, ◌*◌, ◌/◌, ◌≤◌, ◌<◌, ◌≡◌, refl, true, List, [], ◌∷◌, ◌++◌, some, leb, length, arith,
  le→leb, append_assoc, length-append, All, take-append, drop-append,
}
use l_w.Bytes.{be32, u32_mod, u64_mod, from_i32}
use l_w.Bytes.RoundTrip.{IsInt32, to_i32-from_i32, from_i32-lt}
use l_w.Game.{PlayerGameState}
use l_w.StateMachine.{States, waiting, running, finished}
use l_w.Checkpoint.{CheckpointMember, RoomCheckpoint, SessionCheckpoint}
use l_w.CheckpointCodec.Outcomes.{Answer, answer}
use l_w.CheckpointCodec.Writing.{be64, room_state_to_byte}
use l_w.CheckpointCodec.Reading.{
  shift_in, read_u8, read_u32, read_u64, read_string, read_many, read_member, read_player,
  read_room, read_session, byte_to_room_state,
}
use l_w.CheckpointCodec.Written.{flat, member_bytes, player_bytes, room_bytes, session_bytes}

-- What the fields of a checkpoint hold in the program, by their types.
abbrev pub IsMemberData : CheckpointMember → Type 0
IsMemberData m = (m.player_id < u64_mod) × (length m.player_name < u32_mod)

abbrev pub IsPlayerData : PlayerGameState → Type 0
IsPlayerData p = (p.player_id < u64_mod) × IsInt32 p.x × IsInt32 p.y × IsInt32 p.hp

pub record IsRoomData (c : RoomCheckpoint) : Type 0 where
  pub room_id : c.room_id < u32_mod
  pub capacity : c.capacity < u64_mod
  pub next_player_id : c.next_player_id < u64_mod
  pub tick_id : c.tick_id < u64_mod
  pub member_count : length c.members < u32_mod
  pub members : All IsMemberData c.members
  pub game_state_count : length c.game_states < u32_mod
  pub game_states : All IsPlayerData c.game_states

abbrev pub IsSessionData : SessionCheckpoint → Type 0
IsSessionData s = (length s.token < u32_mod) × (s.room_id < u32_mod) × (s.player_id < u64_mod)

pub read_u32-be32 :
    (v : ℕ) (rest : List ℕ) → v < u32_mod → read_u32 (be32 v ++ rest) ≡ some (v, rest)
unfolding read_u32 shift_in
read_u32-be32 v rest h = ground arith

pub read_u64-be64 :
    (v : ℕ) (rest : List ℕ) → v < u64_mod → read_u64 (be64 v ++ rest) ≡ some (v, rest)
unfolding read_u64 shift_in
read_u64-be64 v rest h = ground arith

pub read_string-append : (xs rest : List ℕ) → read_string (length xs) (xs ++ rest) ≡ some (xs, rest)
unfolding read_string
read_string-append xs rest = ground (
  arith,
  length-append xs rest,
  take-append (length xs) xs rest refl,
  drop-append (length xs) xs rest refl,
)

pub read_many-flat {ℓ} :
    {A : Type 0} (read : List ℕ → Answer (A × List ℕ)) (write : A → List ℕ) (P : A → Type ℓ)
    → ((a : A) (rest : List ℕ) → P a → read (write a ++ rest) ≡ answer (a, rest))
    → (xs : List A) (rest : List ℕ) → All P xs
    → read_many read (length xs) (flat write xs ++ rest) ≡ answer (xs, rest)
unfolding read_many
read_many-flat read write P h [] rest a = refl
read_many-flat read write P h (x ∷ xs) rest a =
    rw (append_assoc (write x) (flat write xs) rest, h x (flat write xs ++ rest) a.0)
      (rw (read_many-flat read write P h xs rest a.1) refl)

read_member-bytes :
    (m : CheckpointMember) (rest : List ℕ)
    → IsMemberData m
    → read_member (member_bytes m ++ rest) ≡ answer (m, rest)
unfolding read_member
read_member-bytes m rest h =
    rw
      (
        read_u64-be64 m.player_id (be32 (length m.player_name) ++ m.player_name ++ rest) h.0,
        read_u32-be32 (length m.player_name) (m.player_name ++ rest) h.1,
        read_string-append m.player_name rest,
      )
      refl

read_player-bytes :
    (p : PlayerGameState) (rest : List ℕ)
    → IsPlayerData p
    → read_player (player_bytes p ++ rest) ≡ answer (p, rest)
unfolding read_player
read_player-bytes p rest (h, x, y, hp) =
    let xs : List ℕ = be32 (from_i32 p.x) ++ be32 (from_i32 p.y) ++ be32 (from_i32 p.hp) ++ rest in
    rw
      (
        read_u64-be64 p.player_id xs h,
        read_u32-be32 (from_i32 p.x) (be32 (from_i32 p.y) ++ be32 (from_i32 p.hp) ++ rest)
            (from_i32-lt p.x),
        read_u32-be32 (from_i32 p.y) (be32 (from_i32 p.hp) ++ rest) (from_i32-lt p.y),
        read_u32-be32 (from_i32 p.hp) rest (from_i32-lt p.hp),
      )
      (rw (to_i32-from_i32 p.x x, to_i32-from_i32 p.y y, to_i32-from_i32 p.hp hp) refl)

pub read_session-bytes :
    (s : SessionCheckpoint) (rest : List ℕ)
    → IsSessionData s
    → read_session (session_bytes s ++ rest) ≡ answer (s, rest)
unfolding read_session
read_session-bytes s rest (h, r, i) =
    let ids : List ℕ = be32 s.room_id ++ be64 s.player_id in
    rw
      (
        read_u32-be32 (length s.token) ((s.token ++ ids) ++ rest) h,
        append_assoc s.token ids rest,
        read_string-append s.token (ids ++ rest),
        read_u32-be32 s.room_id (be64 s.player_id ++ rest) r,
        read_u64-be64 s.player_id rest i,
      )
      refl

-- Each record has at least the size that the decoder counts on.
pub length-flat :
    {A : Type 0} (write : A → List ℕ) (n : ℕ) (xs : List A)
    → ((a : A) → n ≤ length (write a))
    → n * length xs ≤ length (flat write xs)
length-flat write n [] h = omega arith
length-flat write n (x ∷ xs) h =
    omega (arith, h x, length-flat write n xs h, length-append (write x) (flat write xs))

state_byte : (s : States) → byte_to_room_state (room_state_to_byte s) ≡ some s
state_byte waiting = refl
state_byte running = refl
state_byte finished = refl

read_u8-cons : (v : ℕ) (rest : List ℕ) → read_u8 (v ∷ rest) ≡ some (v, rest)
unfolding read_u8
read_u8-cons v rest = ground arith

pub read_room-bytes :
    (c : RoomCheckpoint) (rest : List ℕ)
    → IsRoomData c
    → read_room (room_bytes c ++ rest) ≡ answer (c, rest)
unfolding read_room
read_room-bytes c rest h =
    let players : List ℕ = flat player_bytes c.game_states in
    let games : List ℕ = be32 (length c.game_states) ++ players in
    let members : List ℕ = flat member_bytes c.members in
    let behind : List ℕ = (members ++ games) ++ rest in
    let count : List ℕ = be32 (length c.members) ++ behind in
    let tick : List ℕ = be64 c.tick_id ++ count in
    let state : List ℕ = room_state_to_byte c.state ∷ tick in
    let next : List ℕ = be64 c.next_player_id ++ state in
    let capacity : List ℕ = be64 c.capacity ++ next in
    let split : behind ≡ members ++ (games ++ rest) = append_assoc members games rest in
    let size : length behind ≡ length members + (4 + length players) + length rest =
      omega (arith, length-append (members ++ games) rest, length-append members games) in
    let four : leb 4 (length behind) ≡ true = ground (arith, size) in
    let twelve : 12 * length c.members ≤ length members =
      length-flat member_bytes 12 c.members (λ m. omega arith) in
    let members_fit : leb (length c.members) ((length behind - 4) / 12) ≡ true =
      le→leb _ _ (omega (arith, size, twelve)) in
    let twenty : 20 * length c.game_states ≤ length players =
      length-flat player_bytes 20 c.game_states (λ p. omega arith) in
    let players_fit : leb (length c.game_states) (length (players ++ rest) / 20) ≡ true =
      le→leb _ _ (omega (arith, length-append players rest, twenty)) in
    rw
      (
        read_u32-be32 c.room_id capacity h.room_id,
        read_u64-be64 c.capacity next h.capacity,
        read_u64-be64 c.next_player_id state h.next_player_id,
        read_u8-cons (room_state_to_byte c.state) tick,
        read_u64-be64 c.tick_id count h.tick_id,
        read_u32-be32 (length c.members) behind h.member_count,
        state_byte c.state,
      )
      (rw (four, members_fit)
        (rw
          (
            split,
            read_many-flat read_member member_bytes IsMemberData read_member-bytes c.members
                (games ++ rest) h.members,
          )
          (rw
            (read_u32-be32 (length c.game_states) (players ++ rest) h.game_state_count, players_fit)
            (rw
              (read_many-flat read_player player_bytes IsPlayerData read_player-bytes c.game_states
                rest h.game_states)
              refl))))
