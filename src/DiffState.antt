-- ===== src/DiffState.antt =====
-- diff-state.hpp and diff-state.cpp: the changes of one round, with the digests and the exclude
-- filter of that round. It extends State. `m_next` is never set (nothing calls `setNext`), so a
-- chain of successors is an argument of `diff`. A pointer that may be null is an option.
pub mod Produced
use round_sync.Base.{
  ℕ, ◌==◌, ◌++◌, Bool, true, false, Option, none, some, List, [], ◌∷◌, if◌then◌else◌, Result, ok,
  err, undefined,
}
use round_sync.Ndn.{Ndn}
use round_sync.Leaf.{Leaf}
use round_sync.State.{State, empty_state, find, update, get_digest, plus}

module _ ⦃ndn : Ndn⦄ where
  open ndn use {Name, Component, sha256}

  -- `m_cumulativeInfo` is a round and the cumulative digest of that round;
  -- `m_reexpressingSyncInterestId` is none until an event is set.
  pub record DiffState : Type 0 where
    pub state : State
    pub open state use *
    pub root_digest : Option (List ℕ)
    pub cumulative_digest : Option (List ℕ)
    pub round_digest : Option (List ℕ)
    pub round : ℕ
    pub exclude_filter : List Component
    pub cumulative_info : Option (ℕ × Option (List ℕ))
    pub sync_event : Option ℕ

  -- `make_shared<DiffState>()`
  abbrev pub empty_diff_state : DiffState
  empty_diff_state = record {
    state = empty_state;
    root_digest = none;
    cumulative_digest = none;
    round_digest = none;
    round = 0;
    exclude_filter = [];
    cumulative_info = none;
    sync_event = none;
  }

  unfoldable pub update_diff : DiffState → Name → ℕ → DiffState
  update_diff d info q = record d { state = (update d.state info q).0 }

  unfoldable pub set_root_digest : List ℕ → DiffState → DiffState
  set_root_digest digest d = record d { root_digest = some digest }

  unfoldable pub set_cumulative_digest : List ℕ → DiffState → DiffState
  set_cumulative_digest digest d = record d { cumulative_digest = some digest }

  -- `getRoundDigest()->buf()` reads through a null pointer before the first `updateRoundDigest`.
  unfoldable pub update_cumulative_digest : List ℕ → DiffState → Result DiffState
  update_cumulative_digest previous d = elim d.round_digest [
    | none ↦ err undefined
    | some rd ↦ ok (record d { cumulative_digest = some (sha256 (previous ++ rd)) })
  ]

  unfoldable pub update_round_digest : DiffState → DiffState
  update_round_digest d = record d { round_digest = some (get_digest d.state) }

  unfoldable pub set_round : ℕ → DiffState → DiffState
  set_round r d = record d { round = r }

  unfoldable pub append_exclude : Component → DiffState → DiffState
  append_exclude c d = record d { exclude_filter = d.exclude_filter ++ c ∷ [] }

  unfoldable pub set_cumulative_info : Option (ℕ × Option (List ℕ)) → DiffState → DiffState
  set_cumulative_info info d = record d { cumulative_info = info }

  unfoldable pub set_sync_event : Option ℕ → DiffState → DiffState
  set_sync_event event d = record d { sync_event = event }

  -- `getState()`: a new tree with the leaves of this one.
  unfoldable pub get_state : DiffState → State
  get_state d = plus empty_state d.state

  -- The loop of `diff()` over the successors.
  unfoldable pub accumulate : State → List DiffState → State
  accumulate result [] = result
  accumulate result (d ∷ next) = accumulate (plus result d.state) next

  unfoldable pub diff : List DiffState → State
  unfolding accumulate
  diff next = accumulate empty_state next

  -- The copy that `getStateFrom` makes of one session's part, and `cumulativeOnly`.
  unfoldable pub state_of_leaf : DiffState → Name → ℕ → DiffState × Bool
  unfolding update_diff
  state_of_leaf d prefix q =
      let result = update_diff empty_diff_state prefix q in
      let cumulative_only = q == 0 in
      (
        record result {
          cumulative_info = if cumulative_only then d.cumulative_info else none;
          round = d.round;
          cumulative_digest = d.cumulative_digest;
        },
        cumulative_only,
      )

  unfoldable pub get_state_from : DiffState → Name → Option (DiffState × Bool)
  unfolding state_of_leaf
  get_state_from d prefix = elim (find prefix d.leaves) [
    | none ↦ none
    | some l ↦ some (state_of_leaf d prefix l.seq)
  ]
