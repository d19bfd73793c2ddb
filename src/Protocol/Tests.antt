-- ===== src/Protocol/Tests.antt =====
-- The decoders of src/protocol.cpp at concrete payloads.
use l_w.Base.{ℕ, ◌+◌, ◌*◌, ◌≡◌, ◌↔◌, ◌≤◌, ◌<◌, List, [], ◌∷◌, ◌++◌, some, arith, length}
use l_w.Int.{pos, negsuc}
use l_w.Bytes.{be32, from_i32, u16_mod, u32_mod}
use l_w.Bytes.RoundTrip.{IsInt32}
use l_w.Protocol.{
  decode_join_request, decode_resume_request, decode_move_request, encode_state_snapshot,
  message_code, state_snapshot,
}
use l_w.Map.{find}
use l_w.Game.{Gamestate, snapshot}
use l_w.Game.Invariant.{IsValid}
use l_w.Codec.{encode}
use l_w.Protocol.Frames.{encode-encode_state_snapshot}
use l_w.Protocol.Wire.{
  join_wire, text_wire, decode_join_request_iff, decode_resume_request_iff, decode_move_request_iff,
}

abbrev join_bytes : List ℕ
join_bytes = 0 ∷ 0 ∷ 0 ∷ 7 ∷ 0 ∷ 2 ∷ 97 ∷ 98 ∷ []

abbrev name : List ℕ
name = 97 ∷ 98 ∷ []

abbrev text_bytes : List ℕ
text_bytes = 0 ∷ 2 ∷ 97 ∷ 98 ∷ []

abbrev move_bytes : List ℕ
move_bytes = 255 ∷ 255 ∷ 255 ∷ 255 ∷ 0 ∷ 0 ∷ 0 ∷ 0 ∷ []

decode_join_request_iff_example :
    (decode_join_request join_bytes ≡ some (record { room_id = 7; player_name = name }))
    ↔ ((7 < u32_mod) × (length name < u16_mod) × (join_bytes ≡ join_wire 7 name))
decode_join_request_iff_example = decode_join_request_iff join_bytes 7 name (omega arith)

decode_resume_request_iff_example :
    (decode_resume_request text_bytes ≡ some (record { token = name }))
    ↔ ((1 ≤ length name) × (length name ≤ 128) × (text_bytes ≡ text_wire name))
decode_resume_request_iff_example = decode_resume_request_iff text_bytes name (omega arith)

decode_move_request_iff_example :
    (decode_move_request move_bytes ≡ some (record { dx = negsuc 0; dy = pos 0 })) ↔ (
      IsInt32 (negsuc 0)
      × IsInt32 (pos 0)
      × (move_bytes ≡ be32 (from_i32 (negsuc 0)) ++ be32 (from_i32 (pos 0))))
decode_move_request_iff_example =
    decode_move_request_iff move_bytes (negsuc 0) (pos 0) (omega arith)

abbrev lone : Gamestate
lone = record { players = (4, record { player_id = 4; x = pos 3; y = pos 0; hp = pos 90 }) ∷ [] }

lone-IsValid : IsValid lone
unfolding find
lone-IsValid = record { distinct = ground arith; entries = ground arith; bounded = ground arith }

encode-encode_state_snapshot_example :
    (payload frame : List ℕ) × (encode_state_snapshot 7 12 (snapshot lone) ≡ some payload)
    × (length payload ≡ 14 + 20 * length lone.players)
    × (encode (message_code state_snapshot) payload ≡ some frame)
encode-encode_state_snapshot_example = encode-encode_state_snapshot lone 7 12 lone-IsValid
