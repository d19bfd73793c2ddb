-- ===== src/Room/Leaves.antt =====
-- Leaving a room of src/room.cpp for good.
use l_w.Base.{
  ℕ, ◌<◌, ◌≡◌, refl, ◌⊎◌, inl, inr, true, false, [], none, some, if◌then◌else◌, arith, Option-cases,
  nat_eq, ◌==◌, is_some,
}
use l_w.Map.{find, contains, erase}
use l_w.Map.Laws.{find-erase, erase_absent, erase-Unique, length-erase, All-find, All-erase}
use l_w.Map.Keys.{erase-SameKeys}
use l_w.StateMachine.{is_waiting}
use l_w.Game.{PlayerGameState}
use l_w.Game
use l_w.Game.Invariant
use l_w.Room.{Room, Member, state, leave}
use l_w.Room.Invariant.{IsMember, IsValid, Before, Started}

-- The room without one member; a game that has started loses the player too.
abbrev pub left : Room → ℕ → Room
left r k = record r {
  members = erase k r.members;
  game_state = record { players = erase k r.game_state.players };
}

find_nobody : (k : ℕ) → find {V = PlayerGameState} k [] ≡ none
unfolding find
find_nobody k = refl

module _ (r : Room) (k : ℕ) where
  leave_absent : find k r.members ≡ none → leave r k ≡ (r, false)
  unfolding leave contains
  leave_absent e = rw e

  leave-Before : {m : Member} → find k r.members ≡ some m → Before r → leave r k ≡ (left r k, true)
  unfolding leave contains
  leave-Before e b =
      let nobody : erase k r.game_state.players ≡ r.game_state.players =
        erase_absent k r.game_state.players (rw b.no_players (find_nobody k)) in
      rw (e, b.machine, nobody)

  leave_started :
      {m : Member} {p : PlayerGameState}
      → find k r.members ≡ some m
      → is_waiting (state r) ≡ false
      → 0 < k
      → find k r.game_state.players ≡ some p
      → leave r k ≡ (left r k, true)
  unfolding leave contains
  leave_started e w h f =
      rw (e, w, Game.Invariant.remove_player_present r.game_state k h f)
        (rw (Game.Invariant.remove_player_present r.game_state k h f))

  module _ (v : IsValid r) where
    leave_member : {m : Member} → find k r.members ≡ some m → leave r k ≡ (left r k, true)
    leave_member {m} e = elim v.phase [
      | inl b ↦ leave-Before e b
      | inr s ↦ elim (Option-cases (find k r.game_state.players)) [
        | inl missing ↦ absurd (ground (arith, s.same k))
        | inr (p, f) ↦
            leave_started {p = p} e s.machine (All-find IsMember k r.members v.each e).nonzero f
      ]
    ]

    left-game : Game.Invariant.IsValid (left r k).game_state
    left-game = elim (Option-cases (find k r.game_state.players)) [
      | inl missing ↦ rw (erase_absent k r.game_state.players missing) v.game
      | inr (p, f) ↦ Game.Invariant.erase-IsValid r.game_state k p v.game f
    ]

    left-phase : {m : Member} → find k r.members ≡ some m → Before (left r k) ⊎ Started (left r k)
    unfolding erase
    left-phase {m} e = elim v.phase [
      | inl b ↦
          inl (record { machine = b.machine; no_players = rw b.no_players; no_ticks = b.no_ticks })
      | inr s ↦ elim (Option-cases (find k r.game_state.players)) [
        | inl missing ↦ absurd (ground (arith, s.same k))
        | inr (p, f) ↦ inr (record {
          machine = s.machine;
          as_many = omega (
            arith,
            s.as_many,
            length-erase k r.game_state.players {old = p} f,
            length-erase k r.members {old = m} e,
          );
          same = erase-SameKeys k r.game_state.players r.members v.game.distinct v.distinct s.same;
        })
      ]
    ]

    left-IsValid : {m : Member} → find k r.members ≡ some m → IsValid (left r k)
    left-IsValid {m} e = record {
      distinct = erase-Unique k r.members v.distinct;
      each = All-erase IsMember k r.members v.each;
      within = omega (arith, length-erase k r.members {old = m} e, v.within);
      counter = v.counter;
      fresh = elim v.fresh [
        | inl exhausted ↦ inl exhausted
        | inr below ↦ inr (All-erase (λ x. x.0 < r.next_player_id) k r.members below)
      ];
      game = left-game;
      phase = left-phase e;
      clock = v.clock;
      queue = v.queue;
      once = v.once;
    }

    pub leave-IsValid : IsValid (leave r k).0
    leave-IsValid = elim (Option-cases (find k r.members)) [
      | inl absent ↦ rw (leave_absent absent) v
      | inr (m, e) ↦ rw (leave_member e) (left-IsValid e)
    ]

    -- A member leaves a valid room, and with it the player of that id leaves the game; all other
    -- members and players stay as they were. Whoever is no member is refused, and the room is left as
    -- it was.
    pub leave_lem :
        (((leave r k).1 ≡ true)
          × (is_some (find k r.members) ≡ true)
          × ((j : ℕ) → find j (leave r k).0.members ≡ (if k == j then none else find j r.members))
          × ((j : ℕ)
              → find j (leave r k).0.game_state.players
                ≡ (if k == j then none else find j r.game_state.players)))
        ⊎ (((leave r k).1 ≡ false) × (find k r.members ≡ none) × ((leave r k).0 ≡ r))
    leave_lem = elim (Option-cases (find k r.members)) [
      | inl absent ↦ inr (rw (leave_absent absent), absent, (rw (leave_absent absent)))
      | inr (m, e) ↦ inl (
        rw (leave_member e),
        rw e,
        λ j. rw (leave_member e) (find-erase k j r.members v.distinct),
        λ j. rw (leave_member e) (find-erase k j r.game_state.players v.game.distinct),
      )
    ]
