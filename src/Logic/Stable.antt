-- ===== src/Logic/Stable.antt =====
-- logic.cpp: the cumulative digests of the rounds that are stable (setStableState and
-- calculateStableStateAndCumulativeDigests).
pub mod Next
pub mod Ranges
pub mod Loops
pub mod Digests
use round_sync.Base.{
  ℕ, zero, suc, ◌+◌, ◌-◌, ◌/◌, ◌==◌, ◌&&◌, not, Bool, true, false, Option, none, some, is_some,
  List, [], ◌∷◌, if◌then◌else◌, ltb, add64, sub64, logic_error, Result, ok, err,
}
use round_sync.Ndn.{Ndn}
use round_sync.State.{State, plus, get_digest}
use round_sync.DiffState.{DiffState, empty_diff_state, get_state, set_cumulative_digest}
use round_sync.Log
use round_sync.Logic.{Logic, millis, stable_state, default_stabilize_cumulative_digest_delay}
use round_sync.Logic.Exec.{Action, pure, raise, lift, get, modify, ◌>>=◌, ◌>>◌}
use round_sync.Logic.Calls.{schedule, cancel}
use round_sync.Logic.Rounds.{Commit, update_diff_log}

module _ ⦃ndn : Ndn⦄ where
  -- The first loop: the first round from `r` that has an entry, with `count` rounds left to try.
  unfoldable pub first_entry : ℕ → ℕ → List DiffState → ℕ
  first_entry zero r log = r
  first_entry (suc count) r log =
      if is_some (Log.find r log) then r else first_entry count (r + 1) log

  -- The second loop, over the entries from the iterator on: it stops at `end_round`.
  unfoldable pub add_rounds : ℕ → State → List DiffState → State × List DiffState
  add_rounds end_round old [] = (old, [])
  add_rounds end_round old (d ∷ ds) =
      let old' = plus old (get_state d) in
      let (result, rest) = add_rounds end_round old' ds in
      if ltb d.round end_round
      then (result, set_cumulative_digest (get_digest old') d ∷ rest)
      else (old, d ∷ ds)

  -- The same with the iterator at the entry of round `r`.
  unfoldable pub add_rounds_from : ℕ → ℕ → State → List DiffState → State × List DiffState
  add_rounds_from r end_round old [] = (old, [])
  add_rounds_from r end_round old (d ∷ ds) =
      if d.round == r
      then add_rounds end_round old (d ∷ ds)
      else let (result, rest) = add_rounds_from r end_round old ds in (result, d ∷ rest)

  -- Both loops. `r++` runs while `r < end_round`, `end_round - init_round` times at most.
  unfoldable pub add_log_rounds : ℕ → ℕ → Logic → Logic
  add_log_rounds init_round end_round l =
      let r = first_entry (end_round - init_round) init_round l.log in
      let (old, log) = add_rounds_from r end_round l.old_state l.log in
      record l { old_state = old; log = log }

  -- The entry of the last round, which is made if there is none.
  unfoldable pub add_last_round : ℕ → Logic → Logic
  add_last_round end_round l = elim (Log.find end_round l.log) [
    | none ↦
        let (c, l') =
          update_diff_log (record { diff = empty_diff_state; shared = false }) end_round l in
        record l' {
          log = Log.put end_round (set_cumulative_digest (get_digest l'.old_state) c.diff) l'.log;
        }
    | some d ↦
        let old = plus l.old_state (get_state d) in
        record l {
          old_state = old;
          log = Log.put end_round (set_cumulative_digest (get_digest old) d) l.log;
        }
  ]

  unfoldable pub calculate_stable_state_and_cumulative_digests : ℕ → ℕ → Logic → Logic
  calculate_stable_state_and_cumulative_digests init_round end_round l =
      add_last_round end_round (add_log_rounds init_round end_round l)

  -- The round to begin with, or the exception.
  unfoldable pub init_round : Logic → Result ℕ
  init_round l =
      if l.stable_round == 0 && l.last_recovery_round == 0
      then ok 1
      else if l.stabilizing_round == l.last_recovery_round
      then ok l.stabilizing_round
      else if not (l.stable_round == 0)
      then ok (add64 l.stable_round 1)
      else err logic_error

  -- `setStableState` runs again after the delay.
  unfoldable pub schedule_stable_state : Logic → Logic
  schedule_stable_state l =
      record (schedule (millis default_stabilize_cumulative_digest_delay) stable_state l) {
        stabilizing_cumulative_digest = some l.next_id;
      }

  -- After the digests: the round is stable, and the next candidate lies half way to the current one.
  unfoldable pub advance_stable_round : Logic → Logic
  advance_stable_round l =
      let s = l.stabilizing_round in
      record l { stable_round = s; stabilizing_round = add64 s (sub64 l.current_round s / 2) }

  unfoldable pub set_stable_state : Action (Unit {0})
  set_stable_state = do
    l ← get
    r ← lift (init_round l)
    modify (calculate_stable_state_and_cumulative_digests r l.stabilizing_round)
    modify advance_stable_round
    modify schedule_stable_state
