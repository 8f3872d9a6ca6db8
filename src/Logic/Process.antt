-- ===== src/Logic/Process.antt =====
-- logic.cpp: the data that a node receives (processData) and the recovery data (processRecoData).
pub mod Reco
pub mod Sent
pub mod Asked
pub mod Absorb
pub mod Seen
pub mod Data
use round_sync.Base.{
  ℕ, zero, suc, ◌+◌, ◌-◌, ◌==◌, ◌&&◌, ◌||◌, not, Bool, true, false, Option, none, some, List, [],
  ◌∷◌, if◌then◌else◌, ltb, leb, add64, sub64, logic_error_pointer, undefined, Result, ok, err,
  ndn_error,
}
use round_sync.Ndn.{Ndn, Block}
use round_sync.Leaf.{Leaf}
use round_sync.State.{State, Updated, update, reset, plus}
use round_sync.Tlv.{data_only, cumulative_only, data_and_cumulative, recovery_data}
use round_sync.DiffState.{DiffState, empty_diff_state, update_diff, append_exclude, set_sync_event}
use round_sync.DataContent.{DataContent, default_content, wire_decode_content}
use round_sync.RecoData.{RecoData, make_reco, wire_decode_reco}
use round_sync.Log
use round_sync.Logic.{
  Logic, MissingDataInfo, millis, sync_interest, on_update, cumulative_only_data,
  back_unstable_rounds, default_round_digest_delay,
}
use round_sync.Logic.Exec.{
  Action, pure, raise, lift, get, modify, ◌>>=◌, ◌>>◌, catch_state_error, component_at, number_at,
}
use round_sync.Logic.Calls.{schedule, cancel, emit}
use round_sync.Logic.Rounds.{
  Commit, write, fish, update_diff_log, move_to_new_current_round,
  move_to_new_current_round_after_recovery,
}
use round_sync.Logic.Stable.{schedule_stable_state}
use round_sync.Logic.Recovery.{erase, check_recovery}

module _ ⦃ndn : Ndn⦄ where
  open ndn use {Name, prefix_back}

  -- The entry of a session in the list for the application, if its number was new.
  unfoldable pub add_missing : Updated → Name → ℕ → List MissingDataInfo → List MissingDataInfo
  add_missing u n q v =
      if u.is_inserted || u.is_updated
      then record { session = n; low = add64 u.old_seq 1; high = q } ∷ v
      else v

  -- The loop over the received leaves, on `m_state`.
  unfoldable pub absorb_state : List Leaf → State → List MissingDataInfo × State
  absorb_state [] s = ([], s)
  absorb_state (leaf ∷ ls) s =
      let (s', u) = update s leaf.session_name leaf.seq in
      let (v, s'') = absorb_state ls s' in (add_missing u leaf.session_name leaf.seq v, s'')

  -- After a recovery that is not yet stable, `m_oldState` is kept up too.
  unfoldable pub absorb_old : ℕ → Leaf → Logic → Logic
  absorb_old r leaf l =
      if leb r l.last_recovery_round && l.stable_round == 0
      then record l { old_state = (update l.old_state leaf.session_name leaf.seq).0 }
      else l

  -- The loop of processData, which updates the commit of the round as well.
  unfoldable pub absorb : ℕ → List Leaf → Commit → Logic → List MissingDataInfo × Commit × Logic
  absorb r [] c l = ([], c, l)
  absorb r (leaf ∷ ls) c l =
      let l1 = absorb_old r leaf l in
      let (s, u) = update l1.state leaf.session_name leaf.seq in
      let c' = record c { diff = update_diff c.diff leaf.session_name leaf.seq } in
      let (v, c'', l2) = absorb r ls c' (write r c' (record l1 { state = s })) in
      (add_missing u leaf.session_name leaf.seq v, c'', l2)

  -- The application's callback, if anything is new.
  unfoldable pub call_back : List MissingDataInfo → Logic → Logic
  call_back [] l = l
  call_back (m ∷ v) l = emit (on_update (m ∷ v)) l

  abbrev pub has_type : ℕ → Option ℕ → Bool
  has_type t none = false
  has_type t (some k) = k == t

  unfoldable pub absorb_leaves : ℕ → List Leaf → Commit → Action Commit
  absorb_leaves r ls c l = let (v, c', l') = absorb r ls c l in (ok c', call_back v l')

  -- A DataOnly or DataAndCumulative with no state is read through a null pointer.
  unfoldable pub absorb_content : ℕ → DataContent → Commit → Action Commit
  absorb_content r content c =
      if has_type data_only content.data_type || has_type data_and_cumulative content.data_type
      then elim content.state [ none ↦ raise undefined | some d ↦ absorb_leaves r d.leaves c ]
      else pure c

  -- A CumulativeOnly is noted under sequence number 0.
  unfoldable pub note_cumulative_only : ℕ → DataContent → Commit → Action Commit
  note_cumulative_only r content c l =
      let c' = record c { diff = update_diff c.diff content.user_prefix cumulative_only_data } in
      if has_type cumulative_only content.data_type then (ok c', write r c' l) else (ok c, l)

  unfoldable pub check_content : DataContent → Action (Unit {0})
  check_content content =
      if has_type cumulative_only content.data_type
        || has_type data_and_cumulative content.data_type
      then check_recovery content.user_prefix content.round_no content.cumulative_digest
      else pure tt

  -- Data for the current round makes the node move to the next one.
  unfoldable pub leave_round : ℕ → Logic → Logic
  leave_round r l =
      if r == l.current_round then move_to_new_current_round (add64 l.current_round 1) l else l

  -- New data for a round that is to be stabilized puts that off.
  unfoldable pub delay_stabilization : ℕ → Logic → Logic
  delay_stabilization r l =
      if leb r l.stabilizing_round
      then schedule_stable_state (cancel l.stabilizing_cumulative_digest l)
      else l

  -- The round digest is sent after a delay, which begins anew with each packet.
  unfoldable pub schedule_round_digest : ℕ → Commit → Logic → Logic
  schedule_round_digest r c l =
      let l' = schedule (millis default_round_digest_delay) (sync_interest r) l in
      write r (record c { diff = set_sync_event (some l.next_id) c.diff })
        (cancel c.diff.sync_event l')

  unfoldable pub record_commit : ℕ → Commit → Logic → Logic
  record_commit r c l =
      let (c', l') = update_diff_log c r l in schedule_round_digest r c' (delay_stabilization r l')

  -- The body of the `try` block.
  unfoldable pub receive : ℕ → Commit → Option Block → Action (Unit {0})
  receive r c block = do
    content ← lift (wire_decode_content default_content block)
    c' ← note_cumulative_only r content c
    check_content content
    c'' ← absorb_content r content c'
    modify (leave_round r)
    modify (record_commit r c'')

  -- The object of the log for the round, or a new one.
  unfoldable pub commit_for : ℕ → Logic → Commit
  commit_for r l = elim (Log.find r l.log) [
    | none ↦ record { diff = empty_diff_state; shared = false }
    | some d ↦ record { diff = d; shared = true }
  ]

  unfoldable pub reset_timeouts : ℕ → Logic → Logic
  reset_timeouts r l = if r == l.current_round then record l { sync_timeouts = some 0 } else l

  unfoldable pub process_data : Name → Option Block → Action (Unit {0})
  process_data full_name block = do
    r ← lift (number_at full_name 2)
    modify (reset_timeouts r)
    l ← get
    if leb r l.stable_round then pure tt else do
      excluded ← lift (component_at full_name 1)
      let c = commit_for r l
      let c' = record c { diff = append_exclude excluded c.diff }
      modify (write r c')
      catch_state_error (receive r c' block)

  -- The last round that is known to have data, and the round after it.
  unfoldable pub adopt_round : ℕ → Logic → Logic
  adopt_round r l =
      if leb l.current_round r
      then move_to_new_current_round_after_recovery (add64 r 1)
          (record l { last_recovery_round = r })
      else record l { last_recovery_round = sub64 l.current_round 1 }

  -- Data of the rounds before the current one is asked for again.
  unfoldable pub fish_back : Logic → Logic
  fish_back l =
      let r =
        if leb l.current_round back_unstable_rounds
        then 1
        else l.current_round - back_unstable_rounds in
      fish (l.current_round - r) r l

  -- No round is stable after a recovery, and the state of this moment is the one to build on.
  unfoldable pub restart_stabilization : Logic → Logic
  restart_stabilization l =
      let l' = record l {
        stabilizing_round = l.last_recovery_round;
        stable_round = 0;
        old_state = plus (reset l.old_state) l.state;
      } in
      schedule_stable_state (cancel l'.stabilizing_cumulative_digest l')

  unfoldable pub absorb_recovery : List Leaf → Logic → Logic
  absorb_recovery ls l =
      let (v, s) = absorb_state ls l.state in call_back v (record l { state = s })

  unfoldable pub recover : RecoData → Action (Unit {0})
  recover reco =
      if not (has_type recovery_data reco.data_type)
      then raise logic_error_pointer
      else elim reco.state [
        | none ↦ raise undefined
        | some d ↦ modify λ l.
            restart_stabilization
              (fish_back (adopt_round reco.round_no (absorb_recovery d.leaves l)))
      ]

  unfoldable pub process_reco_data : Name → Option Block → Action (Unit {0})
  process_reco_data full_name block = do
    modify (λ l. record l {
      pending_recovery_prefixes = erase (prefix_back full_name 2) l.pending_recovery_prefixes;
    })
    catch_state_error (do reco ← lift (wire_decode_reco (make_reco 0 none) block); recover reco)
