-- ===== src/CheckpointCodec.antt =====
-- src/checkpoint_codec.cpp: a server checkpoint as bytes: a header with magic, version, generation,
-- counts, size and checksum, and a payload of rooms and sessions.
pub mod Outcomes
pub mod Writing
pub mod Reading
pub mod Written
pub mod ReadBack
pub mod RoundTrip
mod Tests
use l_w.Base.{
  ℕ, ◌+◌, ◌-◌, ◌/◌, Bool, not, List, [], ◌∷◌, ◌++◌, Option, none, some, ltb, leb, ◌==◌,
  if◌then◌else◌, length, take, drop,
}
use l_w.SessionManager.{same_text}
use l_w.Checkpoint.{RoomCheckpoint, SessionCheckpoint, ServerCheckpoint}
use l_w.CheckpointCodec.Outcomes.{
  States, invalid_checkpoint, malformed_data, unsupported_version, checksum_mismatch, too_large,
  Answer, answer, refuse, ◌>>=◌, ◌>>◌, ensure, large, need,
}
use l_w.CheckpointCodec.Writing.{
  append_bytes, append_u32, append_u64, fits_u32, append_rooms, append_sessions, checksum,
  valid_checkpoint_keys, checkpoint_header_size, max_checkpoint_file_size,
}
use l_w.CheckpointCodec.Reading.{
  read_u32, read_u64, finished, read_many, read_room, read_session, min_room_record_size,
  min_session_record_size,
}

abbrev pub checkpoint_version : ℕ
checkpoint_version = 1

-- "LWCP"
abbrev pub checkpoint_magic : List ℕ
checkpoint_magic = 76 ∷ 87 ∷ 67 ∷ 80 ∷ []

-- The header and the payload, one append after the other.
unfoldable pub append_file : ServerCheckpoint → List ℕ → Answer (List ℕ)
append_file checkpoint payload = do
  r0 ← large (append_bytes [] checkpoint_magic max_checkpoint_file_size)
  r1 ← large (append_u32 r0 checkpoint_version max_checkpoint_file_size)
  r2 ← large (append_u64 r1 checkpoint.generation max_checkpoint_file_size)
  r3 ← large (append_u32 r2 (length checkpoint.rooms) max_checkpoint_file_size)
  r4 ← large (append_u32 r3 (length checkpoint.sessions) max_checkpoint_file_size)
  r5 ← large (append_u64 r4 (length payload) max_checkpoint_file_size)
  r6 ← large (append_u64 r5 (checksum payload) max_checkpoint_file_size)
  large (append_bytes r6 payload max_checkpoint_file_size)

unfoldable pub encode : ServerCheckpoint → Answer (List ℕ)
encode checkpoint = do
  ensure (not (checkpoint.generation == 0)) invalid_checkpoint
  ensure (fits_u32 (length checkpoint.rooms)) too_large
  ensure (fits_u32 (length checkpoint.sessions)) too_large
  ensure (valid_checkpoint_keys checkpoint) invalid_checkpoint
  rooms ← append_rooms [] checkpoint.rooms
  payload ← append_sessions rooms checkpoint.sessions
  append_file checkpoint payload

pub record Header : Type 0 where
  pub version : ℕ
  pub generation : ℕ
  pub room_count : ℕ
  pub session_count : ℕ
  pub payload_size : ℕ
  pub stored_checksum : ℕ

-- The fields of the header, which must end where it does.
unfoldable pub read_header : List ℕ → Answer Header
read_header unread = do
  (version, r0) ← need (read_u32 unread)
  (generation, r1) ← need (read_u64 r0)
  (room_count, r2) ← need (read_u32 r1)
  (session_count, r3) ← need (read_u32 r2)
  (payload_size, r4) ← need (read_u64 r3)
  (stored_checksum, r5) ← need (read_u64 r4)
  ensure (finished r5) malformed_data
  answer (record {
    version = version;
    generation = generation;
    room_count = room_count;
    session_count = session_count;
    payload_size = payload_size;
    stored_checksum = stored_checksum;
  })

-- The rooms and sessions of a payload that the header announces.
unfoldable pub read_payload : Header → List ℕ → Answer ServerCheckpoint
read_payload h payload = do
  ensure (leb h.room_count (length payload / min_room_record_size)) malformed_data
  (rooms, r1) ← read_many read_room h.room_count payload
  ensure (leb h.session_count (length r1 / min_session_record_size)) malformed_data
  (sessions, r2) ← read_many read_session h.session_count r1
  ensure (finished r2) malformed_data
  let checkpoint : ServerCheckpoint = record {
    generation = h.generation;
    rooms = rooms;
    sessions = sessions;
  } in
      ensure (valid_checkpoint_keys checkpoint) invalid_checkpoint >> answer checkpoint

unfoldable pub decode : List ℕ → Answer ServerCheckpoint
decode bytes = do
  ensure (leb (length bytes) max_checkpoint_file_size) too_large
  ensure (leb checkpoint_header_size (length bytes)) malformed_data
  ensure (same_text (take 4 bytes) checkpoint_magic) malformed_data
  h ← read_header (drop 4 (take checkpoint_header_size bytes))
  ensure (h.version == checkpoint_version) unsupported_version
  ensure (not (h.generation == 0)) invalid_checkpoint
  ensure (h.payload_size == length bytes - checkpoint_header_size) malformed_data
  ensure (h.stored_checksum == checksum (drop checkpoint_header_size bytes)) checksum_mismatch
  read_payload h (drop checkpoint_header_size bytes)
