-- ===== src/Protocol/Frames.antt =====
-- What the rooms broadcast fits in a frame: src/protocol.cpp, src/codec.cpp and src/game_state.cpp
-- together.
use l_w.Base.{
  ℕ, ◌+◌, ◌*◌, ◌/◌, ◌%◌, ◌<◌, ◌≡◌, refl, true, List, [], ◌∷◌, ◌++◌, some, arith, length, All,
  length-append, nat_eq,
}
use l_w.Int.{ℤ}
use l_w.Bytes.{be16, be32, from_i32, append_u16, append_u32, append_u64, append_i32, u32_mod}
use l_w.Map.{values}
use l_w.Sort.Laws.{sort-All}
use l_w.Game.{PlayerGameState, Gamestate, Players, snapshot}
use l_w.Game.Invariant.{IsValid, IsEntry}
use l_w.Game.Restore.{snapshot_lem}
use l_w.Codec.{encode}
use l_w.Codec.RoundTrip.{encode_total}
use l_w.Protocol.{append_states, ids_fit, encode_state_snapshot, message_code, state_snapshot}

length-append_u64 : (out : List ℕ) (v : ℕ) → length (append_u64 out v) ≡ length out + 8
unfolding append_u64 append_u32
length-append_u64 out v = omega (
  arith,
  length-append (out ++ be32 (v / u32_mod % u32_mod)) (be32 (v % u32_mod)),
  length-append out (be32 (v / u32_mod % u32_mod)),
)

length-append_i32 : (out : List ℕ) (v : ℤ) → length (append_i32 out v) ≡ length out + 4
unfolding append_i32
length-append_i32 out v = omega (arith, length-append out (be32 (from_i32 v)))

length-append_states :
    (out : List ℕ) (ss : List PlayerGameState)
    → length (append_states out ss) ≡ length out + 20 * length ss
unfolding append_states
length-append_states out [] = omega arith
length-append_states out (s ∷ ss) =
    let a : List ℕ = append_u64 out s.player_id in
    let b : List ℕ = append_i32 a s.x in
    let c : List ℕ = append_i32 b s.y in
    omega (
      arith,
      length-append_states (append_i32 c s.hp) ss,
      length-append_i32 c s.hp,
      length-append_i32 b s.y,
      length-append_i32 a s.x,
      length-append_u64 out s.player_id,
    )

ids_fit_lem : (ss : List PlayerGameState) → All (λ s. 0 < s.player_id) ss → ids_fit ss ≡ true
unfolding ids_fit
ids_fit_lem [] a = refl
ids_fit_lem (s ∷ ss) a = ground (arith, a.0, ids_fit_lem ss a.1)

nonzero_ids : (m : Players) → All IsEntry m → All (λ s. 0 < s.player_id) (values m)
nonzero_ids [] a = tt
nonzero_ids ((k, p) ∷ m) a = (omega (arith, a.0), nonzero_ids m a.1)

length-snapshot_head :
    (room_id tick_id n : ℕ)
    → length (append_u16 (append_u64 (append_u32 [] room_id) tick_id) n) ≡ 14
unfolding append_u16 append_u32
length-snapshot_head room_id tick_id n = omega (
  arith,
  length-append (append_u64 (be32 room_id) tick_id) (be16 n),
  length-append_u64 (be32 room_id) tick_id,
)

-- The snapshot of a valid game is always encoded as a message, of 14 bytes and 20 for each player,
-- and that message always as a frame.
pub encode-encode_state_snapshot :
    (g : Gamestate) (room_id tick_id : ℕ)
    → IsValid g
    → (payload frame : List ℕ) × (encode_state_snapshot room_id tick_id (snapshot g) ≡ some payload)
      × (length payload ≡ 14 + 20 * length g.players)
      × (encode (message_code state_snapshot) payload ≡ some frame)
unfolding encode_state_snapshot
encode-encode_state_snapshot g room_id tick_id v =
    let ss : List PlayerGameState = snapshot g in
    let n : length ss ≡ length g.players = (snapshot_lem g v).1 in
    let head : List ℕ = append_u16 (append_u64 (append_u32 [] room_id) tick_id) (length ss) in
    let payload : List ℕ = append_states head ss in
    let size : length payload ≡ 14 + 20 * length g.players =
      omega (
        arith,
        length-append_states head ss,
        length-snapshot_head room_id tick_id (length ss),
        n,
      ) in
    let fits : ids_fit ss ≡ true =
      ids_fit_lem ss
        (unfold snapshot in sort-All _ _ (values g.players) (nonzero_ids g.players v.entries)) in
    (
      payload,
      _,
      ground (arith, fits, n, v.bounded),
      size,
      encode_total (message_code state_snapshot) payload (omega (arith, size, v.bounded)),
    )
