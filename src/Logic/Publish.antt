-- ===== src/Logic/Publish.antt =====
-- logic.cpp: publishing a sequence number (updateSeqNo) and the replies to interests for data
-- (processDataInterest), for round digests (processSyncInterest) and for a recovery
-- (processRecoInterest).
pub mod Sync
pub mod Own
use round_sync.Base.{
  ℕ, ◌+◌, ◌==◌, ◌||◌, not, Bool, true, false, Option, none, some, List, [], ◌∷◌, if◌then◌else◌, ltb,
  leb, add64, logic_error, Result, ok, err, ndn_error,
}
use round_sync.Ndn.{Ndn}
use round_sync.State.{update}
use round_sync.DiffState.{
  DiffState, empty_diff_state, update_diff, set_cumulative_info, get_state_from,
}
use round_sync.Log
use round_sync.Logic.{Logic, millis, sync_interest}
use round_sync.Logic.Exec.{
  Action, pure, raise, lift, get, modify, ◌>>=◌, ◌>>◌, component_at, number_at,
}
use round_sync.Logic.Calls.{schedule, send_data, send_cumulative_only, send_reco_data}
use round_sync.Logic.Rounds.{
  Commit, write, update_diff_log, move_to_new_current_round, check_round_digests,
}
use round_sync.Logic.Recovery.{pending_now}

module _ ⦃ndn : Ndn⦄ where
  open ndn use {Name, component_value}

  -- The own change of a round, with the cumulative digest of the stable round beside it.
  unfoldable pub own_commit : ℕ → Logic → DiffState
  own_commit q l =
      let d = update_diff empty_diff_state l.session_name q in
      if l.stable_round == 0 then d else elim (Log.find l.stable_round l.log) [
        | none ↦ d
        | some e ↦ set_cumulative_info (some (l.stable_round, e.cumulative_digest)) d
      ]

  -- The reply to the pending interest, if there is one for the current round.
  unfoldable pub answer_data : Name → Commit → Option Name → Action (Unit {0})
  answer_data prefix c none = pure tt
  answer_data prefix c (some name) = do
    d ← send_data prefix name c.diff
    modify λ l. record (write l.current_round (record c { diff = d }) l) {
      pending_data_interest = none;
    }

  unfoldable pub log_commit : DiffState → Action Commit
  log_commit d l =
      let (c, l') = update_diff_log (record { diff = d; shared = false }) l.current_round l in
      (ok c, l')

  -- The branch `isInserted || isUpdated`.
  unfoldable pub publish : ℕ → Action (Unit {0})
  publish q = do
    l ← get
    c ← log_commit (own_commit q l)
    l' ← get
    name ← lift (pending_now l')
    answer_data l'.default_user_prefix c name
    modify (λ k. schedule (millis 0) (sync_interest k.current_round) k)
    modify (λ k. move_to_new_current_round (add64 k.current_round 1) k)
    modify (λ k. record k { sync_timeouts = some 0 })

  -- `m_state.update(m_sessionName, m_seqNo)`: whether it inserted or updated.
  unfoldable pub update_own : ℕ → Action Bool
  update_own q l =
      let (s, u) = update l.state l.session_name q in
      (ok (u.is_inserted || u.is_updated), record l { seq_no = q; state = s })

  unfoldable pub update_seq_no : ℕ → Name → Action (Unit {0})
  update_seq_no q update_prefix = do
    l ← get
    if ltb q l.seq_no || q == 0
        then pure tt
        else do changed ← update_own q; if changed then publish q else pure tt

  -- What the node itself produced in an earlier round, if anything.
  unfoldable pub answer_part : Name → Option (DiffState × Bool) → Action (Unit {0})
  answer_part name none = pure tt
  answer_part name (some (d, false)) = do
    l ← get
    _ ← send_data l.default_user_prefix name d
    pure tt
  answer_part name (some (d, true)) = elim d.cumulative_info [
    | none ↦ raise logic_error
    | some (r, digest) ↦ send_cumulative_only name r digest
  ]

  unfoldable pub answer_earlier : Name → Option DiffState → Action (Unit {0})
  answer_earlier name none = pure tt
  answer_earlier name (some d) = do l ← get; answer_part name (get_state_from d l.session_name)

  unfoldable pub process_data_interest : Name → Action (Unit {0})
  process_data_interest name = do
    r ← lift (number_at name 1)
    modify
        (λ l. if leb l.current_round r then record l { pending_data_interest = some name } else l)
    l ← get
    if ltb l.current_round r
        then modify (move_to_new_current_round r)
        else if ltb r l.current_round
        then answer_earlier name (Log.find r l.log)
        else pure tt

  unfoldable pub process_sync_interest : Name → Action (Unit {0})
  process_sync_interest name = do
    r ← lift (number_at name 2)
    digest ← lift (component_at name 1)
    l ← get
    if leb l.current_round r
        then modify (move_to_new_current_round (add64 r 1))
        else if leb r l.last_recovery_round
        then pure tt
        else do _ ← check_round_digests r (component_value digest); pure tt

  unfoldable pub process_reco_interest : Name → Logic → Logic
  process_reco_interest name l = send_reco_data l.default_user_prefix name l
