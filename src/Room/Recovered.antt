-- ===== src/Room/Recovered.antt =====
-- Whatever a room of src/room.cpp is restored from: if `restore_checkpoint` accepts it, the room is
-- valid.
use l_w.Base.{
  ◌+◌, ◌≤◌, ◌<◌, ◌≡◌, refl, ap, subst, ◌⊎◌, inl, inr, true, List, [], ◌∷◌, some, length, arith, All,
  nat_eq, ◌==◌, ==_iff, is_some, Bool-cases, Option-cases,
}
use l_w.Bytes.{u64_mod}
use l_w.Map.{find, contains, emplace, Unique}
use l_w.Map.Laws.{All-emplace, length-emplace}
use l_w.Map.Keys.{Within, Within-SameKeys}
use l_w.Checkpoint.{RoomCheckpoint}
use l_w.StateMachine.{Roomstatemachine, States, waiting, running, finished, is_waiting}
use l_w.StateMachine
use l_w.Game.{Gamestate, PlayerGameState, Players}
use l_w.Game
use l_w.Game.Invariant
use l_w.Room.{Room, Members}
use l_w.Room.Persist.{
  restore_checkpoint, restore_members, restore_machine, ids_below, all_members, games_match,
  publish,
}
use l_w.Room.Invariant.{IsMember, IsValid, Before, Started}
use l_w.Room.Stored.{restore_members-valid, ids_below_iff}

-- What an accepted checkpoint has passed.
pub record Accepted (q : Room) (c : RoomCheckpoint) (s : Room) : Type 0 where
  members : Members
  machine : Roomstatemachine
  game : Gamestate
  fits : length c.members ≤ q.capacity
  read : restore_members c.members [] ≡ some members
  below : (c.next_player_id ≡ 0) ⊎ (ids_below c.next_player_id members ≡ true)
  moved : restore_machine c c.state ≡ some machine
  match : games_match c members ≡ true
  played : Game.restore Game.new c.game_states ≡ some game
  pub made : publish q c members game machine ≡ s

pub accepted :
    (q : Room) (c : RoomCheckpoint) {s : Room} → restore_checkpoint q c ≡ some s → Accepted q c s
unfolding restore_checkpoint
accepted q c {s} e = elim (Option-cases (restore_members c.members [])) [
  | inl no_members ↦ absurd (ground (arith, no_members))
  | inr (n, read) ↦ elim (Option-cases (restore_machine c c.state)) [
    | inl no_machine ↦ absurd (ground (arith, read, no_machine))
    | inr (machine, moved) ↦ elim (Option-cases (Game.restore Game.new c.game_states)) [
      | inl no_game ↦ absurd (ground (arith, read, moved, no_game))
      | inr (game, played) ↦ record {
        members = n;
        machine = machine;
        game = game;
        fits = ground (arith, read, moved, played);
        read = read;
        below = elim (Bool-cases (c.next_player_id == 0)) [
          | inl last ↦ inl ((==_iff c.next_player_id 0).0 last)
          | inr more ↦ elim (Bool-cases (ids_below c.next_player_id n)) [
            | inl lower ↦ inr lower
            | inr higher ↦ absurd (ground (arith, read, moved, played))
          ]
        ];
        moved = moved;
        match = ground (arith, read, moved, played);
        played = played;
        made = ground (arith, read, moved, played);
      }
    ]
  ]
]

machine_inv :
    (c : RoomCheckpoint) (s : States) {machine : Roomstatemachine}
    → restore_machine c s ≡ some machine
    → (machine.state ≡ s) × (is_waiting s ≡ true → (c.tick_id ≡ 0) × (length c.game_states ≡ 0))
unfolding restore_machine StateMachine.start StateMachine.finish StateMachine.new
machine_inv c waiting e = (ground arith, λ w. ground arith)
machine_inv c running e = (ground arith, λ w. cc)
machine_inv c finished e = (ground arith, λ w. cc)

-- The players that are restored are as many as the entries, and members if the entries are.
players_inv :
    (n : Members) (ps : List PlayerGameState) (players : Players) {result : Players}
    → Game.restore_entries ps players ≡ some result
    → all_members ps n ≡ true
    → All (λ e. is_some (find e.0 n) ≡ true) players
    → (length result ≡ length players + length ps) × All (λ e. is_some (find e.0 n) ≡ true) result
unfolding Game.restore_entries all_members contains
players_inv n [] players {result} e h a =
    let same : players ≡ result = cc in
    (omega (arith, ap length same), subst (All (λ e. is_some (find e.0 n) ≡ true)) same a)
players_inv n (p ∷ ps) players {result} e h a =
    let (fits, more) = Game.Invariant.restore_entries_inv p ps players e in
    let absent = (Game.Invariant.acceptable-IsEntry p players fits).1 in
    let (l, b) =
      players_inv n ps (emplace p.player_id p players) more (ground arith)
        (All-emplace (λ e. is_some (find e.0 n) ≡ true) p.player_id p players a (ground arith)) in
    (omega (arith, l, length-emplace p.player_id p players absent), b)

nobody_inv :
    (ps : List PlayerGameState) {result : Players}
    → length ps ≡ 0
    → Game.restore_entries ps [] ≡ some result
    → result ≡ []
unfolding Game.restore_entries
nobody_inv [] l e = ground arith
nobody_inv (p ∷ ps) l e = absurd (omega arith)

All-Within : (m : Players) (n : Members) → All (λ e. is_some (find e.0 n) ≡ true) m → Within m n
All-Within [] n a = tt
All-Within (e ∷ m) n a = (a.0, All-Within m n a.1)

module _ (q : Room) (c : RoomCheckpoint) (s : Room) (a : Accepted q c s) where
  abbrev result : Room
  result = publish q c a.members a.game a.machine

  read_members : Unique a.members × All IsMember a.members × (length a.members ≡ length c.members)
  read_members =
      let (u, each, l) = restore_members-valid c.members [] a.members tt tt a.read in
      (u, each, omega (arith, l))

  game_valid : Game.Invariant.IsValid a.game
  game_valid = Game.Invariant.restore-IsValid Game.new c.game_states a.played

  phase : Before result ⊎ Started result
  unfolding all_members
  phase =
      let (at, quiet) = machine_inv c c.state a.moved in
      let (_, entries) = Game.Invariant.restore_inv Game.new c.game_states a.played in
      elim (Bool-cases (is_waiting c.state)) [
        | inl waits ↦
            let (no_ticks, no_games) = quiet waits in
            inl (record {
              machine = rw at waits;
              no_players = nobody_inv c.game_states no_games entries;
              no_ticks = no_ticks;
            })
        | inr started ↦
            let (u, _, _) = read_members in
            let (l, within) =
              players_inv a.members c.game_states [] entries (ground (arith, a.match, started))
                tt in
            let many : length c.game_states ≡ length a.members = ground (arith, a.match, started) in
            inr (record {
              machine = rw at started;
              as_many = omega (arith, l, many);
              same =
                  Within-SameKeys a.game.players a.members game_valid.distinct u
                    (omega (arith, l, many)) (All-Within a.game.players a.members within);
            })
      ]

  -- The numbers of a checkpoint have 64 bits.
  accepted-IsValid : c.next_player_id < u64_mod → c.tick_id < u64_mod → IsValid result
  accepted-IsValid counter clock =
      let (u, each, l) = read_members in
      record {
        distinct = u;
        each = each;
        within = omega (arith, l, a.fits);
        counter = counter;
        fresh = elim a.below [
          | inl last ↦ inl last
          | inr lower ↦ inr ((ids_below_iff c.next_player_id a.members).0 lower)
        ];
        game = game_valid;
        phase = phase;
        clock = clock;
        queue = inr refl;
        once = tt;
      }

-- Whatever checkpoint a room accepts, with a counter and a tick of 64 bits, the room is valid then:
-- members under distinct ids that the counter has passed, a game of exactly the members if it has
-- started, and none before.
pub restore_checkpoint-IsValid :
    (q : Room) (c : RoomCheckpoint) {s : Room}
    → c.next_player_id < u64_mod
    → c.tick_id < u64_mod
    → restore_checkpoint q c ≡ some s
    → IsValid s
restore_checkpoint-IsValid q c {s} counter clock e =
    let a = accepted q c {s = s} e in subst IsValid a.made (accepted-IsValid q c s a counter clock)
