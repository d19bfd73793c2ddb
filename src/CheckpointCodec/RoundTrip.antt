-- ===== src/CheckpointCodec/RoundTrip.antt =====
-- Checkpoints that `CheckpointCodec::encode` of src/checkpoint_codec.cpp wrote, and
-- `CheckpointCodec::decode`.
use l_w.Base.{
  ℕ, ◌+◌, ◌-◌, ◌*◌, ◌/◌, ◌≤◌, ◌<◌, ◌≡◌, refl, sym, ap, ◌∙◌, true, false, List, [], ◌∷◌, ◌++◌, leb,
  le→leb, ◌==◌, ==_refl, length, arith, append-nil, length-append, All, take, drop,
}
use l_w.Bytes.{be32, u32_mod, u64_mod}
use l_w.SessionManager.{same_text}
use l_w.Checkpoint.{RoomCheckpoint, ServerCheckpoint}
use l_w.CheckpointCodec.Outcomes.{answer, ◌>>=◌, large, bind-eq-answer}
use l_w.CheckpointCodec.Writing.{
  be64, append_rooms, append_sessions, checksum, hash_from, valid_checkpoint_keys,
  max_checkpoint_file_size, checkpoint_header_size,
}
use l_w.CheckpointCodec.Written.{
  flat, member_bytes, player_bytes, room_bytes, session_bytes, append_rooms_lem,
  append_sessions_lem, bytes-cases, u32-cases, u64-cases,
}
use l_w.CheckpointCodec.Reading.{read_many, read_room, read_session}
use l_w.CheckpointCodec.ReadBack.{
  IsRoomData, IsSessionData, read_u32-be32, read_u64-be64, read_room-bytes, read_session-bytes,
  read_many-flat, length-flat,
}
use l_w.CheckpointCodec.{
  checkpoint_magic, append_file, encode, decode, Header, read_header, read_payload,
}

-- What the numbers of a checkpoint fit into, by their types in the program.
pub record IsData (c : ServerCheckpoint) : Type 0 where
  pub generation : c.generation < u64_mod
  pub rooms : All IsRoomData c.rooms
  pub sessions : All IsSessionData c.sessions

abbrev header_fields : ServerCheckpoint → List ℕ → List ℕ
header_fields c payload =
    be32 1
    ++ be64 c.generation
    ++ be32 (length c.rooms)
    ++ be32 (length c.sessions)
    ++ be64 (length payload)
    ++ be64 (checksum payload)

append_file_lem :
    (c : ServerCheckpoint) (payload : List ℕ) {bytes : List ℕ}
    → append_file c payload ≡ answer bytes
    → (checkpoint_magic ++ header_fields c payload ++ payload ≡ bytes)
      × (40 + length payload ≤ 0x400_0000)
unfolding append_file
append_file_lem c payload e =
    let a = checkpoint_magic ++ be32 1 in
    let b = a ++ be64 c.generation in
    let d = b ++ be32 (length c.rooms) in
    let f = d ++ be32 (length c.sessions) in
    let g = f ++ be64 (length payload) in
    let h = g ++ be64 (checksum payload) in
    ground (
      arith,
      bytes-cases [] checkpoint_magic max_checkpoint_file_size,
      u32-cases checkpoint_magic 1 max_checkpoint_file_size,
      u64-cases a c.generation max_checkpoint_file_size,
      u32-cases b (length c.rooms) max_checkpoint_file_size,
      u32-cases d (length c.sessions) max_checkpoint_file_size,
      u64-cases f (length payload) max_checkpoint_file_size,
      u64-cases g (checksum payload) max_checkpoint_file_size,
      bytes-cases h payload max_checkpoint_file_size,
    )

abbrev payload_bytes : ServerCheckpoint → List ℕ
payload_bytes c = flat room_bytes c.rooms ++ flat session_bytes c.sessions

pub record IsEncoded (c : ServerCheckpoint) (bytes : List ℕ) : Type 0 where
  pub generation : 0 < c.generation
  pub room_count : length c.rooms < u32_mod
  pub session_count : length c.sessions < u32_mod
  pub keys : valid_checkpoint_keys c ≡ true
  pub shape : checkpoint_magic ++ header_fields c (payload_bytes c) ++ payload_bytes c ≡ bytes
  pub size : 40 + length (payload_bytes c) ≤ 0x400_0000

encode-IsEncoded :
    (c : ServerCheckpoint) {bytes : List ℕ} → encode c ≡ answer bytes → IsEncoded c bytes
unfolding encode
encode-IsEncoded c {bytes} e =
    let chain : (append_rooms [] c.rooms >>= λ r.
    append_sessions r c.sessions >>= λ p. append_file c p)
        ≡ answer bytes =
      ground arith in
    let (r, first, more) =
      bind-eq-answer (append_rooms [] c.rooms)
        (λ r. append_sessions r c.sessions >>= λ p. append_file c p) chain in
    let (p, second, last) =
      bind-eq-answer (append_sessions r c.sessions) (λ p. append_file c p) more in
    let same : payload_bytes c ≡ p =
      ap (λ t. t ++ flat session_bytes c.sessions) (append_rooms_lem [] c.rooms first)
      ∙ append_sessions_lem r c.sessions second in
    let (shape, size) = append_file_lem c (payload_bytes c) (ap (append_file c) same ∙ last) in
    record {
      generation = ground arith;
      room_count = ground arith;
      session_count = ground arith;
      keys = ground arith;
      shape = shape;
      size = size;
    }

hash_from-lt : (bytes : List ℕ) (hash : ℕ) → hash < u64_mod → hash_from hash bytes < u64_mod
unfolding hash_from
hash_from-lt [] hash h = h
hash_from-lt (b ∷ bytes) hash h = hash_from-lt bytes _ (omega arith)

checksum-lt : (bytes : List ℕ) → checksum bytes < u64_mod
unfolding checksum
checksum-lt bytes = hash_from-lt bytes _ (omega arith)

read_header-fields :
    (h : Header)
    → h.version < u32_mod
    → h.generation < u64_mod
    → h.room_count < u32_mod
    → h.session_count < u32_mod
    → h.payload_size < u64_mod
    → h.stored_checksum < u64_mod
    → read_header (
        be32 h.version
        ++ be64 h.generation
        ++ be32 h.room_count
        ++ be32 h.session_count
        ++ be64 h.payload_size
        ++ be64 h.stored_checksum)
      ≡ answer h
unfolding read_header
read_header-fields h v g n m p s =
    let r4 : List ℕ = be64 h.stored_checksum in
    let r3 : List ℕ = be64 h.payload_size ++ r4 in
    let r2 : List ℕ = be32 h.session_count ++ r3 in
    let r1 : List ℕ = be32 h.room_count ++ r2 in
    rw
      (
        read_u32-be32 h.version (be64 h.generation ++ r1) v,
        read_u64-be64 h.generation r1 g,
        read_u32-be32 h.room_count r2 n,
        read_u32-be32 h.session_count r3 m,
        read_u64-be64 h.payload_size r4 p,
        read_u64-be64 h.stored_checksum [] s,
      )
      refl

-- The tests of `decode`, when all of them are passed.
decode_tests :
    (bytes : List ℕ) (h : Header)
    → leb (length bytes) max_checkpoint_file_size ≡ true
    → leb checkpoint_header_size (length bytes) ≡ true
    → same_text (take 4 bytes) checkpoint_magic ≡ true
    → read_header (drop 4 (take checkpoint_header_size bytes)) ≡ answer h
    → (h.version == 1) ≡ true
    → (h.generation == 0) ≡ false
    → (h.payload_size == length bytes - checkpoint_header_size) ≡ true
    → (h.stored_checksum == checksum (drop checkpoint_header_size bytes)) ≡ true
    → decode bytes ≡ read_payload h (drop checkpoint_header_size bytes)
unfolding decode
decode_tests bytes h small large magic head version generation size sum =
    rw (small, large) (rw magic (rw head (rw (version, generation) (rw (size, sum) refl))))

room_size : (x : RoomCheckpoint) → 37 ≤ length (room_bytes x)
room_size x = omega (
  arith,
  length-append (flat member_bytes x.members)
      (be32 (length x.game_states) ++ flat player_bytes x.game_states),
)

module _ (c : ServerCheckpoint) {bytes : List ℕ} (d : IsData c) (v : IsEncoded c bytes) where
  abbrev payload : List ℕ
  payload = payload_bytes c

  abbrev header : Header
  header = record {
    version = 1;
    generation = c.generation;
    room_count = length c.rooms;
    session_count = length c.sessions;
    payload_size = length payload;
    stored_checksum = checksum payload;
  }

  payload_lem : read_payload header payload ≡ answer c
  unfolding read_payload
  payload_lem =
      let rooms : List ℕ = flat room_bytes c.rooms in
      let sessions : List ℕ = flat session_bytes c.sessions in
      let rooms_size : 37 * length c.rooms ≤ length rooms =
        length-flat room_bytes 37 c.rooms (λ x. omega (arith, room_size x)) in
      let sessions_size : 16 * length c.sessions ≤ length sessions =
        length-flat session_bytes 16 c.sessions
          (λ x. omega (arith, length-append x.token (be32 x.room_id ++ be64 x.player_id))) in
      let rooms_fit : leb (length c.rooms) (length payload / 37) ≡ true =
        le→leb _ _ (omega (arith, rooms_size, length-append rooms sessions)) in
      let sessions_fit : leb (length c.sessions) (length sessions / 16) ≡ true =
        le→leb _ _ (omega (arith, sessions_size)) in
      let read_sessions : read_many read_session (length c.sessions) sessions
          ≡ answer (c.sessions, []) =
        ap (read_many read_session (length c.sessions)) (sym (append-nil sessions))
        ∙ read_many-flat read_session session_bytes IsSessionData read_session-bytes c.sessions []
            d.sessions in
      rw
        (
          rooms_fit,
          read_many-flat read_room room_bytes IsRoomData read_room-bytes c.rooms sessions d.rooms,
        )
        (rw sessions_fit (rw read_sessions (rw v.keys refl)))

  decoded : decode bytes ≡ answer c
  decoded =
      ap decode (sym v.shape)
      ∙ decode_tests (checkpoint_magic ++ header_fields c payload ++ payload) header
          (le→leb _ _ (omega (arith, v.size))) (le→leb _ _ (omega arith)) refl
          (read_header-fields header (omega arith) d.generation v.room_count v.session_count
            (omega (arith, v.size)) (checksum-lt payload))
          refl (ground (arith, v.generation)) (ground arith) (==_refl (checksum payload))
      ∙ payload_lem

-- A server checkpoint whose numbers fit into their types, and which `encode` accepts, is read back
-- by `decode` as it was.
pub decode-encode :
    (c : ServerCheckpoint) {bytes : List ℕ}
    → IsData c
    → encode c ≡ answer bytes
    → decode bytes ≡ answer c
decode-encode c d e = decoded c d (encode-IsEncoded c e)

-- What `encode` accepts is written into at least the 40 bytes of the header and at most 64 MiB.
pub length-encode :
    (c : ServerCheckpoint) {bytes : List ℕ}
    → encode c ≡ answer bytes
    → (40 ≤ length bytes) × (length bytes ≤ 0x400_0000)
length-encode c {bytes} e =
    let v = encode-IsEncoded c {bytes = bytes} e in
    let total : length (checkpoint_magic ++ header_fields c (payload_bytes c) ++ payload_bytes c)
        ≡ length bytes =
      ap length v.shape in
    (omega (arith, total), omega (arith, total, v.size))
