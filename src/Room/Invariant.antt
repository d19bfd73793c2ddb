-- ===== src/Room/Invariant.antt =====
-- What holds of every room of src/room.cpp between two operations.
use l_w.Base.{
  ℕ, ◌≤◌, ◌<◌, ◌≡◌, refl, ◌⊎◌, inl, inr, true, false, List, [], ◌∷◌, none, length, arith, All,
  nat_eq,
}
use l_w.Bytes.{u64_mod}
use l_w.Map.{find, Unique}
use l_w.Map.Keys.{SameKeys}
use l_w.StateMachine.{is_waiting, is_running}
use l_w.Game.{Gamestate, PlayerGameState}
use l_w.Game
use l_w.Game.Invariant
use l_w.Room.{Room, Member, Members, Gamecommand, command_player, new, state, pending_for}

pub record IsMember (e : ℕ × Member) : Type 0 where
  pub own_key : (e.1).player_id ≡ e.0
  pub nonzero : 0 < e.0
  pub name_low : 1 ≤ length (e.1).player_name
  pub name_high : length (e.1).player_name ≤ 32

-- No player has two commands in the queue.
abbrev pub OncePerPlayer : List Gamecommand → Type 0
OncePerPlayer [] = Unit {0}
OncePerPlayer (c ∷ cs) = (pending_for (command_player c) cs ≡ false) × OncePerPlayer cs

-- Before the start there is no game; from then on the game has exactly the members as players.
pub record Before (r : Room) : Type 0 where
  pub machine : is_waiting (state r) ≡ true
  pub no_players : r.game_state.players ≡ []
  pub no_ticks : r.tick_id ≡ 0

pub record Started (r : Room) : Type 0 where
  pub machine : is_waiting (state r) ≡ false
  pub as_many : length r.game_state.players ≡ length r.members
  pub same : SameKeys r.game_state.players r.members

pub record IsValid (r : Room) : Type 0 where
  pub distinct : Unique r.members
  pub each : All IsMember r.members
  pub within : length r.members ≤ r.capacity
  pub counter : r.next_player_id < u64_mod
  pub fresh : (r.next_player_id ≡ 0) ⊎ All (λ e. e.0 < r.next_player_id) r.members
  pub game : Game.Invariant.IsValid r.game_state
  pub phase : Before r ⊎ Started r
  pub clock : r.tick_id < u64_mod
  pub queue : (is_running (state r) ≡ true) ⊎ (r.pending_commands ≡ [])
  pub once : OncePerPlayer r.pending_commands

pub new-IsValid : (room_id capacity : ℕ) → IsValid (new room_id capacity)
unfolding new
new-IsValid room_id capacity = record {
  distinct = tt;
  each = tt;
  within = omega arith;
  counter = omega arith;
  fresh = inr tt;
  game = Game.Invariant.new-IsValid;
  phase = inl (record { machine = refl; no_players = refl; no_ticks = refl });
  clock = omega arith;
  queue = inr refl;
  once = tt;
}

-- An id that the counter has not passed is free.
pub find_unassigned : (next : ℕ) (m : Members) → All (λ e. e.0 < next) m → find next m ≡ none
unfolding find
find_unassigned next [] h = refl
find_unassigned next ((k, v) ∷ m) h = ground (arith, find_unassigned next m h.1)

pub All-lt_mono : (n n' : ℕ) (m : Members) → n ≤ n' → All (λ e. e.0 < n) m → All (λ e. e.0 < n') m
All-lt_mono n n' [] h a = tt
All-lt_mono n n' (e ∷ m) h a = (omega (arith, a.0), All-lt_mono n n' m h a.1)
