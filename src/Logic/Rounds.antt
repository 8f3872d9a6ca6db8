-- ===== src/Logic/Rounds.antt =====
-- logic.cpp: moving between rounds (moveToNewCurrentRound, moveToNewCurrentRoundAfterRecovery), the
-- entries of the log (updateDiffLog) and the comparison of round digests (checkRoundDigests).
pub mod Move
use round_sync.Base.{
  ℕ, zero, suc, ◌+◌, ◌-◌, ◌==◌, Bool, true, false, Option, none, some, List, [], ◌∷◌, if◌then◌else◌,
  leb, ltb, sub64, undefined,
}
use round_sync.Ndn.{Ndn}
use round_sync.DiffState.{DiffState, set_round, update_round_digest, set_sync_event}
use round_sync.Log
use round_sync.Logic.{
  Logic, millis, data_interest, sync_interest, max_rounds_without_recovery,
  default_round_digest_delay,
}
use round_sync.Logic.Exec.{Action, pure, raise, get, modify, ◌>>=◌, ◌>>◌}
use round_sync.Logic.Calls.{schedule, cancel}

module _ ⦃ndn : Ndn⦄ where
  open ndn use {component_eq, from_buffer}

  -- A DiffStatePtr: the object, and whether the log holds the same one.
  pub record Commit : Type 0 where
    pub diff : DiffState
    pub shared : Bool

  -- A write through the pointer, seen in the log where that has the object.
  unfoldable pub write : ℕ → Commit → Logic → Logic
  write r c l = if c.shared then record l { log = Log.put r c.diff l.log } else l

  -- The loop over the rounds from `r`, with `count` rounds to go.
  unfoldable pub fish : ℕ → ℕ → Logic → Logic
  fish zero r l = l
  fish (suc count) r l = fish count (r + 1) (schedule (millis 0) (data_interest r 1) l)

  -- The interest for the current round is sent anew.
  unfoldable pub restart_interest : Logic → Logic
  restart_interest l =
      let l' = cancel l.reexpressing_data_interest_id l in
      record (schedule (millis 0) (data_interest l.current_round 1) l') {
        reexpressing_data_interest_id = some l.next_id;
      }

  unfoldable pub move_to_new_current_round : ℕ → Logic → Logic
  unfolding restart_interest
  move_to_new_current_round r l =
      let l' =
        if leb (sub64 r l.current_round) max_rounds_without_recovery
        then fish (r - l.current_round) l.current_round l
        else record l { recovery_desired = true } in
      restart_interest (record l' { current_round = r; number_data_interest_timeouts = 0 })

  unfoldable pub move_to_new_current_round_after_recovery : ℕ → Logic → Logic
  unfolding restart_interest
  move_to_new_current_round_after_recovery r l = restart_interest (record l { current_round = r })

  -- Sets the round and the round digest, and inserts the commit if the log has none for the round.
  -- Otherwise the log changes only if it has the same object.
  unfoldable pub update_diff_log : Commit → ℕ → Logic → Commit × Logic
  update_diff_log c r l =
      let d = update_round_digest (set_round r c.diff) in
      elim (Log.find r l.log) [
        | none ↦ (record { diff = d; shared = true }, record l { log = Log.insert d l.log })
        | some _ ↦ (record c { diff = d }, write r (record c { diff = d }) l)
      ]

  -- Another digest than ours: fish in the round, and send our digest once that is done.
  unfoldable pub digests_differ : ℕ → DiffState → Logic → Logic
  digests_differ r d l =
      let l' = schedule (millis 0) (data_interest r 1) l in
      let l'' =
        cancel d.sync_event (schedule (millis default_round_digest_delay) (sync_interest r) l') in
      record l'' { log = Log.put r (set_sync_event (some l'.next_id) d) l.log }

  -- The branch where the log has an entry of the round, and the one where it has none.
  unfoldable pub check_entry : ℕ → List ℕ → Option DiffState → Action Bool
  check_entry r digest none = do modify (schedule (millis 0) (data_interest r 1)); pure false
  check_entry r digest (some d) = elim d.round_digest [
    | none ↦ raise undefined
    | some rd ↦
        if component_eq (from_buffer digest) (from_buffer rd)
        then pure true
        else (do modify (digests_differ r d); pure false)
  ]

  unfoldable pub check_round_digests : ℕ → List ℕ → Action Bool
  check_round_digests r digest = do l ← get; check_entry r digest (Log.find r l.log)
