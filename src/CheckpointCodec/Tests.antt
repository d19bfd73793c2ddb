-- ===== src/CheckpointCodec/Tests.antt =====
-- The theorems about src/checkpoint_codec.cpp at a checkpoint of one room with one player.
use l_w.Base.{ℕ, ◌≤◌, ◌≡◌, refl, List, [], ◌∷◌, arith, length}
use l_w.Int.{pos}
use l_w.StateMachine.{running}
use l_w.Checkpoint.{ServerCheckpoint, occurs}
use l_w.SessionManager.{all_lower_hex}
use l_w.CheckpointCodec.{encode, decode, append_file}
use l_w.CheckpointCodec.Outcomes.{answer}
use l_w.CheckpointCodec.Writing.{
  valid_checkpoint_keys, valid_rooms, valid_sessions, append_rooms, append_room, append_stored,
  append_member, append_players, append_sessions, append_bytes, append_u8, append_each, append_u32,
  append_u64, can_append, checksum, hash_from,
}
use l_w.CheckpointCodec.RoundTrip.{IsData, decode-encode, length-encode}
use l_w.Bytes.RoundTrip.{IsInt32}

-- One player `ab` in room 7, and the session of that player.
abbrev stored : ServerCheckpoint
stored = record {
  generation = 3;
  rooms =
      record {
        room_id = 7;
        capacity = 1;
        next_player_id = 2;
        state = running;
        tick_id = 9;
        members = record { player_id = 1; player_name = 97 ∷ 98 ∷ [] } ∷ [];
        game_states = record { player_id = 1; x = pos 0; y = pos 0; hp = pos 100 } ∷ [];
      }
      ∷ [];
  sessions =
      record {
        token =
            48 ∷ 49 ∷ 50 ∷ 51 ∷ 52 ∷ 53 ∷ 54 ∷ 55 ∷ 56 ∷ 57 ∷ 97 ∷ 98 ∷ 99 ∷ 100 ∷ 101 ∷ 102 ∷ 48
            ∷ 49 ∷ 50 ∷ 51 ∷ 52 ∷ 53 ∷ 54 ∷ 55 ∷ 56 ∷ 57 ∷ 97 ∷ 98 ∷ 99 ∷ 100 ∷ 101 ∷ 102 ∷ [];
        room_id = 7;
        player_id = 1;
      }
      ∷ [];
}

abbrev stored_bytes : List ℕ
stored_bytes =
    76 ∷ 87 ∷ 67 ∷ 80 ∷ 0 ∷ 0 ∷ 0 ∷ 1 ∷ 0 ∷ 0 ∷ 0 ∷ 0 ∷ 0 ∷ 0 ∷ 0 ∷ 3 ∷ 0 ∷ 0 ∷ 0 ∷ 1 ∷ 0 ∷ 0 ∷ 0
    ∷ 1 ∷ 0 ∷ 0 ∷ 0 ∷ 0 ∷ 0 ∷ 0 ∷ 0 ∷ 119 ∷ 72 ∷ 93 ∷ 193 ∷ 28 ∷ 9 ∷ 127 ∷ 129 ∷ 24 ∷ 0 ∷ 0 ∷ 0 ∷ 7
    ∷ 0 ∷ 0 ∷ 0 ∷ 0 ∷ 0 ∷ 0 ∷ 0 ∷ 1 ∷ 0 ∷ 0 ∷ 0 ∷ 0 ∷ 0 ∷ 0 ∷ 0 ∷ 2 ∷ 1 ∷ 0 ∷ 0 ∷ 0 ∷ 0 ∷ 0 ∷ 0 ∷ 0
    ∷ 9 ∷ 0 ∷ 0 ∷ 0 ∷ 1 ∷ 0 ∷ 0 ∷ 0 ∷ 0 ∷ 0 ∷ 0 ∷ 0 ∷ 1 ∷ 0 ∷ 0 ∷ 0 ∷ 2 ∷ 97 ∷ 98 ∷ 0 ∷ 0 ∷ 0 ∷ 1
    ∷ 0 ∷ 0 ∷ 0 ∷ 0 ∷ 0 ∷ 0 ∷ 0 ∷ 1 ∷ 0 ∷ 0 ∷ 0 ∷ 0 ∷ 0 ∷ 0 ∷ 0 ∷ 0 ∷ 0 ∷ 0 ∷ 0 ∷ 100 ∷ 0 ∷ 0 ∷ 0
    ∷ 32 ∷ 48 ∷ 49 ∷ 50 ∷ 51 ∷ 52 ∷ 53 ∷ 54 ∷ 55 ∷ 56 ∷ 57 ∷ 97 ∷ 98 ∷ 99 ∷ 100 ∷ 101 ∷ 102 ∷ 48
    ∷ 49 ∷ 50 ∷ 51 ∷ 52 ∷ 53 ∷ 54 ∷ 55 ∷ 56 ∷ 57 ∷ 97 ∷ 98 ∷ 99 ∷ 100 ∷ 101 ∷ 102 ∷ 0 ∷ 0 ∷ 0 ∷ 7
    ∷ 0 ∷ 0 ∷ 0 ∷ 0 ∷ 0 ∷ 0 ∷ 0 ∷ 1 ∷ []

stored-encode : encode stored ≡ answer stored_bytes
unfolding encode valid_checkpoint_keys valid_rooms valid_sessions append_rooms append_room
    append_stored append_member append_players append_sessions append_file append_bytes append_u8
    append_each append_u32 append_u64 can_append checksum hash_from all_lower_hex occurs
stored-encode = refl

stored-IsData : IsData stored
unfolding IsInt32
stored-IsData = record {
  generation = omega arith;
  rooms = (
    record {
      room_id = omega arith;
      capacity = omega arith;
      next_player_id = omega arith;
      tick_id = omega arith;
      member_count = omega arith;
      members = ((omega arith, omega arith), tt);
      game_state_count = omega arith;
      game_states = ((omega arith, omega arith, omega arith, omega arith), tt);
    },
    tt,
  );
  sessions = ((omega arith, omega arith, omega arith), tt);
}

decode-encode_example : decode stored_bytes ≡ answer stored
decode-encode_example = decode-encode stored {bytes = stored_bytes} stored-IsData stored-encode

length-encode_example : (40 ≤ length stored_bytes) × (length stored_bytes ≤ 0x400_0000)
length-encode_example = length-encode stored {bytes = stored_bytes} stored-encode
