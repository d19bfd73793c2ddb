-- ===== src/Room/Joins.antt =====
-- Joining and leaving a room of src/room.cpp.
use l_w.Base.{
  ℕ, ◌+◌, ◌%◌, ◌≤◌, ◌<◌, ◌≡◌, ◌≢◌, refl, ◌⊎◌, inl, inr, true, List, none, some, length,
  if◌then◌else◌, arith, All, Bool-cases, nat_eq, ◌==◌, map,
}
use l_w.Bytes.{u64_mod}
use l_w.Map.{find, emplace, values}
use l_w.Map.Laws.{find-emplace, emplace-Unique, length-emplace, All-emplace}
use l_w.StateMachine.{is_waiting}
use l_w.Room.{Room, Member, Joinstates, Joinstates-discrete, state, join, member_info}
use l_w.Room.Invariant.{IsMember, IsValid, find_unassigned, All-lt_mono}

-- What a connection needs to join: a proper name, a room that waits, a free place and an id left.
pub record CanJoin (r : Room) (name : List ℕ) : Type 0 where
  pub name_low : 1 ≤ length name
  pub name_high : length name ≤ 32
  pub waits : is_waiting (state r) ≡ true
  pub room_left : length r.members < r.capacity
  pub id_left : 0 < r.next_player_id

abbrev pub newcomer : Room → ℕ → List ℕ → Member
newcomer r c name = record { player_id = r.next_player_id; player_name = name; connection = some c }

abbrev pub joined : Room → ℕ → List ℕ → Room
joined r c name = record r {
  members = emplace r.next_player_id (newcomer r c name) r.members;
  next_player_id = (r.next_player_id + 1) % u64_mod;
}

module _ (r : Room) (c : ℕ) (name : List ℕ) where
  pub CanJoin-joins :
      CanJoin r name
      → join r (some c) name ≡ (
        joined r c name,
        record {
          state = Joinstates.success;
          player_id = r.next_player_id;
          members = map member_info (values r.members);
        },
      )
  unfolding join
  CanJoin-joins k = ground arith

  pub join_success : (join r (some c) name).1.state ≡ Joinstates.success → CanJoin r name
  unfolding join
  join_success h = ground arith

  join_refused :
      (join r (some c) name).1.state ≢ Joinstates.success
      → ((join r (some c) name).0 ≡ r) × ((join r (some c) name).1.player_id ≡ 0)
  unfolding join
  join_refused h = ground arith

  module _ (v : IsValid r) where
    free : 0 < r.next_player_id → find r.next_player_id r.members ≡ none
    free h = elim v.fresh [
      | inl exhausted ↦ absurd (omega arith)
      | inr below ↦ find_unassigned r.next_player_id r.members below
    ]

    joined-fresh :
        0 < r.next_player_id
        → ((joined r c name).next_player_id ≡ 0)
          ⊎ All (λ e. e.0 < (joined r c name).next_player_id) (joined r c name).members
    joined-fresh h = elim v.fresh [
      | inl exhausted ↦ absurd (omega arith)
      | inr below ↦ elim (Bool-cases (r.next_player_id == 0xffff_ffff_ffff_ffff)) [
        | inl last ↦ inl (ground arith)
        | inr more ↦
            let next : (r.next_player_id + 1) % u64_mod ≡ r.next_player_id + 1 =
              ground (arith, v.counter) in
            inr (
              rw next (
                All-emplace (λ e. e.0 < r.next_player_id + 1) r.next_player_id (newcomer r c name)
                  r.members
                  (All-lt_mono r.next_player_id (r.next_player_id + 1) r.members (omega arith)
                    below)
                  (omega arith)))
      ]
    ]

    joined-IsValid : CanJoin r name → IsValid (joined r c name)
    joined-IsValid k = record {
      distinct = emplace-Unique r.next_player_id _ r.members v.distinct (free k.id_left);
      each = All-emplace IsMember r.next_player_id (newcomer r c name) r.members v.each (record {
        own_key = refl;
        nonzero = k.id_left;
        name_low = k.name_low;
        name_high = k.name_high;
      });
      within = omega (
        arith,
        length-emplace r.next_player_id (newcomer r c name) r.members (free k.id_left),
        k.room_left,
      );
      counter = omega arith;
      fresh = joined-fresh k.id_left;
      game = v.game;
      phase = elim v.phase [
        | inl b ↦
            inl (record { machine = b.machine; no_players = b.no_players; no_ticks = b.no_ticks })
        | inr s ↦ absurd (cc (k.waits, s.machine))
      ];
      clock = v.clock;
      queue = v.queue;
      once = v.once;
    }

    pub join-IsValid : IsValid (join r (some c) name).0
    join-IsValid = elim (Joinstates-discrete (join r (some c) name).1.state Joinstates.success) [
      | yes h ↦ rw (CanJoin-joins (join_success h)) (joined-IsValid (join_success h))
      | no h ↦ rw ((join_refused h).0) v
    ]

    -- Joining a valid room succeeds exactly under the conditions of `CanJoin`; then the id that is
    -- given was in use by nobody, the new member stands under it and all other members are as before.
    -- Otherwise the room is left as it was.
    pub join_lem :
        (((join r (some c) name).1.state ≡ Joinstates.success)
          × CanJoin r name
          × (find r.next_player_id r.members ≡ none)
          × ((join r (some c) name).1.player_id ≡ r.next_player_id)
          × ((j : ℕ)
              → find j (join r (some c) name).0.members
                ≡ (if r.next_player_id == j then some (newcomer r c name) else find j r.members)))
        ⊎ (((join r (some c) name).1.state ≢ Joinstates.success)
            × ¬ CanJoin r name
            × ((join r (some c) name).0 ≡ r))
    join_lem = elim (Joinstates-discrete (join r (some c) name).1.state Joinstates.success) [
      | yes h ↦
          let k = join_success h in
          inl (
            h,
            k,
            free k.id_left,
            (rw (CanJoin-joins k)),
            λ j.
                rw (CanJoin-joins k) (find-emplace r.next_player_id j _ r.members (free k.id_left)),
          )
      | no h ↦ inr (h, λ k. h (rw (CanJoin-joins k)), (join_refused h).0)
    ]

-- Without a connection nothing happens.
pub join-none : (r : Room) (name : List ℕ) → (join r none name).0 ≡ r
unfolding join
join-none r name = refl
