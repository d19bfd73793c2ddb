-- ===== src/Game.antt =====
-- src/game_state.cpp: the authoritative state of a running game, one entry for each player.
-- An `int32_t` is an integer: positions and health stay in small ranges (`Game.Invariant`), and a
-- move adds 1 or -1, so no sum leaves 32 bits.
pub mod Invariant
pub mod Moves
pub mod Attacks
pub mod Restore
pub mod Initialize
pub mod Keys
mod Tests
use l_w.Base.{
  ℕ, suc, ◌+◌, Bool, true, false, ◌&&◌, ◌||◌, not, List, [], ◌∷◌, Option, none, some, ltb, ◌==◌,
  if◌then◌else◌, length, nat_eq,
}
use l_w.Int.{ℤ, pos, negsuc, ◌+ℤ◌, ◌-ℤ◌, ltb_ℤ, eqb_ℤ, abs}
use l_w.Map.{find, contains, emplace, assign, erase, values}
use l_w.Sort.{sort}

pub record PlayerGameState : Type 0 where
  pub player_id : ℕ
  pub x : ℤ
  pub y : ℤ
  pub hp : ℤ

pub data States : Type 0 where
  success empty_players invalid_player_id duplicate_player too_many_players : States
  player_not_found invalid_move out_of_bounds invalid_target attacker_not_found : States
  target_not_found attacker_dead target_dead target_out_of_range : States

pub States-discrete : Discrete States
States-discrete = hlevel

pub record Attackresult : Type 0 where
  pub state : States
  pub attacker_id : ℕ
  pub target_player_id : ℕ
  pub remaining_hp : ℤ
  pub target_eliminated : Bool

abbrev pub initial_hp : ℤ
initial_hp = pos 100

abbrev pub min_position : ℤ
min_position = pos 0

abbrev pub max_position : ℤ
max_position = pos 100

abbrev pub attack_damage : ℤ
attack_damage = pos 10

abbrev pub max_players : ℕ
max_players = 101

abbrev pub Players : Type 0
Players = List (ℕ × PlayerGameState)

pub record Gamestate : Type 0 where
  pub players : Players

abbrev pub new : Gamestate
new = record { players = [] }

unfoldable pub player_count : Gamestate → ℕ
player_count g = length g.players

unfoldable pub has_player : Gamestate → ℕ → Bool
has_player g player_id = contains player_id g.players

-- The loop of `initialize` over the given ids, with the ids seen so far.
unfoldable pub check_ids : List (ℕ × Bool) → List ℕ → States
check_ids check [] = success
check_ids check (id ∷ ids) =
    let rest = check_ids (emplace id true check) ids in
    if id == 0 then invalid_player_id else if contains id check then duplicate_player else rest

-- The loop that gives each player a place on the line, from `location` on.
unfoldable pub place : ℕ → List ℕ → Players → Players
place location [] players = players
place location (id ∷ ids) players =
    place (suc location) ids
      (assign id (record { player_id = id; x = pos location; y = pos 0; hp = initial_hp }) players)

unfoldable pub initialize : Gamestate → List ℕ → Gamestate × States
initialize g [] = (g, empty_players)
initialize g (id ∷ ids) =
    if ltb max_players (length (id ∷ ids))
    then (g, too_many_players)
    else elim (check_ids [] (id ∷ ids)) [
      | success ↦ (record { players = place 0 (sort ltb (id ∷ ids)) [] }, success)
      | error ↦ (g, error)
    ]

unfoldable pub remove_player : Gamestate → ℕ → Gamestate × States
remove_player g player_id =
    if player_id == 0
    then (g, invalid_player_id)
    else if not (contains player_id g.players)
    then (g, player_not_found)
    else (record { players = erase player_id g.players }, success)

-- A step of one cell along one axis.
abbrev pub is_unit : ℤ → Bool
is_unit d = eqb_ℤ d (pos 1) || eqb_ℤ d (negsuc 0)

abbrev pub is_step : ℤ → ℤ → Bool
is_step dx dy = (is_unit dx && eqb_ℤ dy (pos 0)) || (is_unit dy && eqb_ℤ dx (pos 0))

abbrev pub out_of_range : ℤ → Bool
out_of_range v = ltb_ℤ v min_position || ltb_ℤ max_position v

unfoldable pub move_player : Gamestate → ℕ → ℤ → ℤ → Gamestate × States
move_player g player_id dx dy =
    if player_id == 0 then (g, invalid_player_id) else elim (find player_id g.players) [
      | none ↦ (g, player_not_found)
      | some p ↦
          if not (is_step dx dy)
          then (g, invalid_move)
          else if out_of_range (p.x +ℤ dx) || out_of_range (p.y +ℤ dy)
          then (g, out_of_bounds)
          else (
            record {
              players = assign player_id (record p { x = p.x +ℤ dx; y = p.y +ℤ dy }) g.players;
            },
            success,
          )
    ]

-- `none`: false is returned, and the output is left alone.
unfoldable pub player_state : Gamestate → ℕ → Option PlayerGameState
player_state g player_id = find player_id g.players

abbrev pub id_before : PlayerGameState → PlayerGameState → Bool
id_before a b = ltb a.player_id b.player_id

unfoldable pub snapshot : Gamestate → List PlayerGameState
snapshot g = sort id_before (values g.players)

-- The tests of `restore` on one entry, with the entries accepted so far.
unfoldable pub acceptable : PlayerGameState → Players → Bool
acceptable p players =
    not (p.player_id == 0)
    && not (contains p.player_id players)
    && not (out_of_range p.x || out_of_range p.y)
    && not (ltb_ℤ p.hp (pos 0) || ltb_ℤ initial_hp p.hp)

unfoldable pub restore_entries : List PlayerGameState → Players → Option Players
restore_entries [] players = some players
restore_entries (p ∷ ps) players =
    let rest = restore_entries ps (emplace p.player_id p players) in
    if acceptable p players then rest else none

-- `none`: false is returned, and the state is left alone.
unfoldable pub restore : Gamestate → List PlayerGameState → Option Gamestate
restore g states =
    if ltb max_players (length states) then none else elim (restore_entries states []) [
      | none ↦ none
      | some players ↦ some (record { players = players })
    ]

abbrev pub attack_error : States → ℕ → ℕ → Attackresult
attack_error state attacker_id target_id = record {
  state = state;
  attacker_id = attacker_id;
  target_player_id = target_id;
  remaining_hp = pos 0;
  target_eliminated = false;
}

abbrev pub distance : PlayerGameState → PlayerGameState → ℕ
distance a t = abs (a.x -ℤ t.x) + abs (a.y -ℤ t.y)

-- The part of `attack_player` behind the lookups.
unfoldable pub strike :
    Gamestate → ℕ → ℕ → PlayerGameState → PlayerGameState → Gamestate × Attackresult
strike g attacker_id target_id a t =
    if not (ltb_ℤ (pos 0) a.hp)
    then (g, attack_error attacker_dead attacker_id target_id)
    else if not (ltb_ℤ (pos 0) t.hp)
    then (g, attack_error target_dead attacker_id target_id)
    else if ltb 1 (distance a t)
    then (g, attack_error target_out_of_range attacker_id target_id)
    else (
      record { players = assign target_id (record t { hp = t.hp -ℤ attack_damage }) g.players },
      record {
        state = success;
        attacker_id = attacker_id;
        target_player_id = target_id;
        remaining_hp = t.hp -ℤ attack_damage;
        target_eliminated = not (ltb_ℤ (pos 0) (t.hp -ℤ attack_damage));
      },
    )

unfoldable pub attack_player : Gamestate → ℕ → ℕ → Gamestate × Attackresult
attack_player g attacker_id target_id =
    if attacker_id == 0 || target_id == 0
    then (g, attack_error invalid_player_id attacker_id target_id)
    else if attacker_id == target_id
    then (g, attack_error invalid_target attacker_id target_id)
    else elim (find attacker_id g.players) [
      | none ↦ (g, attack_error attacker_not_found attacker_id target_id)
      | some a ↦ elim (find target_id g.players) [
        | none ↦ (g, attack_error target_not_found attacker_id target_id)
        | some t ↦ strike g attacker_id target_id a t
      ]
    ]
