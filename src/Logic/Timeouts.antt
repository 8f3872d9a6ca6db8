-- ===== src/Logic/Timeouts.antt =====
-- logic.cpp: what a node does when an interest of its own is not answered (onDataInterestTimeout and
-- onRecoInterestTimeout; onSyncInterestTimeout does nothing).
pub mod Reco
use round_sync.Base.{
  ℕ, ◌+◌, ◌==◌, ◌&&◌, not, is_some, Bool, true, false, Option, none, some, if◌then◌else◌, ltb, leb,
  add32, sub64, Result, ok, err,
}
use round_sync.Ndn.{Ndn}
use round_sync.State.{get_digest}
use round_sync.Log
use round_sync.Logic.{
  Logic, millis, data_interest, reco_interest, max_data_interest_to_cumulative_only,
  max_data_interest_timeouts, max_reco_interest_timeouts,
}
use round_sync.Logic.Exec.{Action, pure, lift, modify, ◌>>=◌, ◌>>◌, number_at}
use round_sync.Logic.Calls.{schedule}
use round_sync.Logic.Recovery.{schedule_cumulative_only, erase}

module _ ⦃ndn : Ndn⦄ where
  open ndn use {Name, prefix_back}

  -- `syncTimeouts` counts up to 20, at which the log is printed, and stays at -1 then.
  abbrev pub count_timeout : Option ℕ → Option ℕ
  count_timeout none = none
  count_timeout (some n) = if ltb 20 (n + 1) then none else some (n + 1)

  unfoldable pub count_timeouts : ℕ → Logic → Logic
  count_timeouts r l =
      let l' =
        if r == l.current_round
        then record l { sync_timeouts = count_timeout l.sync_timeouts }
        else l in
      record l' { number_data_interest_timeouts = add32 l.number_data_interest_timeouts 1 }

  -- After enough timeouts with nothing left to stabilize, the node tells its cumulative digest.
  unfoldable pub inform_others : Logic → Logic
  inform_others l =
      if leb max_data_interest_to_cumulative_only l.number_data_interest_timeouts
        && l.stable_round == sub64 l.current_round 1
      then schedule_cumulative_only l.stable_round (get_digest l.state)
          (record l { number_data_interest_timeouts = 0 })
      else l

  unfoldable pub retry_data_interest : ℕ → ℕ → Logic → Logic
  retry_data_interest r retries l =
      if ltb r l.current_round
        && not (is_some (Log.find r l.log))
        && ltb retries max_data_interest_timeouts
      then schedule (millis 0) (data_interest r (add32 retries 1)) l
      else l

  unfoldable pub on_data_interest_timeout : Name → ℕ → Action (Unit {0})
  on_data_interest_timeout name retries = do
    r ← lift (number_at name 1)
    modify (count_timeouts r)
    modify inform_others
    modify (retry_data_interest r retries)

  unfoldable pub on_reco_interest_timeout : Name → Logic → Logic
  on_reco_interest_timeout name l =
      let prefix = prefix_back name 1 in
      let n = add32 l.number_reco_interest_timeouts 1 in
      if leb max_reco_interest_timeouts n
      then record l {
        number_reco_interest_timeouts = 0;
        pending_recovery_prefixes = erase prefix l.pending_recovery_prefixes;
      }
      else schedule (millis 0) (reco_interest prefix)
          (record l { number_reco_interest_timeouts = n })
