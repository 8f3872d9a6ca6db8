-- ===== src/Logic/Entry.antt =====
-- logic.cpp: the constructor and the destructor, the callbacks of the face, and the events of the
-- scheduler. A callback is one action; where the node has a validator, its verdict is an argument.
use round_sync.Base.{
  ℕ, ◌||◌, ◌&&◌, not, Bool, true, false, Option, none, some, List, [], if◌then◌else◌, Result, ok,
  err, ndn_error,
}
use round_sync.Ndn.{Ndn, Block}
use round_sync.State.{empty_state, get_digest}
use round_sync.Logic.{
  Logic, Config, millis, Purpose, for_data, for_sync, for_reco, Event, data_interest, sync_interest,
  stable_state, cumulative_only_event, reco_interest, recovery_check, partition_start,
  partition_stop, filter_set, all_cancelled, shut_down, default_stabilize_cumulative_digest_delay,
}
use round_sync.Logic.Exec.{Action, pure, lift, get, modify, ◌>>=◌, component_at}
use round_sync.Logic.Calls.{
  schedule, emit, send_data_interest, send_sync_interest, send_reco_interest,
}
use round_sync.Logic.Stable.{set_stable_state}
use round_sync.Logic.Recovery.{produce_cumulative_only, check_recovery_digest}
use round_sync.Logic.Publish.{process_data_interest, process_sync_interest, process_reco_interest}
use round_sync.Logic.Process.{process_data, process_reco_data}
use round_sync.Logic.Timeouts.{on_data_interest_timeout, on_reco_interest_timeout}

module _ ⦃ndn : Ndn⦄ where
  open ndn use {
    Name, name_eq, component_eq, empty_name, append, from_number, from_uri, data_component,
    sync_component, reco_component,
  }

  -- The fields as the constructor's initialisers and the first lines of its body set them.
  unfoldable pub initial : Config → ℕ → Logic
  initial c now = record {
    config = c;
    session_name = append c.default_user_prefix (from_number now);
    seq_no = 0;
    reco_prefix = append c.default_user_prefix reco_component;
    state = empty_state;
    old_state = empty_state;
    log = [];
    outstanding_data_interest_name = empty_name;
    outstanding_data_interest_id = 0;
    pending_data_interest = none;
    current_round = 1;
    stabilizing_round = 1;
    stable_round = 0;
    last_recovery_round = 0;
    recovery_desired = false;
    cumulative_digest_events = [];
    reexpressing_data_interest_id = none;
    stabilizing_cumulative_digest = none;
    number_data_interest_timeouts = 0;
    number_reco_interest_timeouts = 0;
    pending_recovery_prefixes = [];
    partitioned = false;
    sync_timeouts = some 0;
    next_id = 1;
    effects = [];
  }

  -- Two prefixes of the test network have a partition injected.
  unfoldable pub inject_partition : Logic → Logic
  inject_partition l =
      if name_eq l.default_user_prefix (from_uri "/ndn/edu/c/c")
        || name_eq l.default_user_prefix (from_uri "/ndn/edu/e/e")
      then schedule (millis 40000) partition_stop (schedule (millis 15000) partition_start l)
      else l

  unfoldable pub make_logic : Config → ℕ → Logic
  make_logic c now =
      let l = initial c now in
      let l1 = emit (filter_set l.reco_prefix) (emit (filter_set l.sync_prefix) l) in
      let l2 = record (schedule (millis 0) (data_interest l1.current_round 1) l1) {
        reexpressing_data_interest_id = some l1.next_id;
      } in
      let l3 =
        record (schedule (millis default_stabilize_cumulative_digest_delay) stable_state l2) {
          stabilizing_cumulative_digest = some l2.next_id;
        } in
      inject_partition l3

  unfoldable pub destroy : Logic → Logic
  destroy l = emit shut_down (emit all_cancelled l)

  unfoldable pub get_root_digest : Logic → List ℕ
  get_root_digest l = get_digest l.state

  -- An interest under the multicast prefix.
  unfoldable pub dispatch_interest : Name → Action (Unit {0})
  dispatch_interest name = do
    c ← lift (component_at name 2)
    if component_eq data_component c then process_data_interest name else do
      c' ← lift (component_at name 3)
      if component_eq sync_component c' then process_sync_interest name else pure tt

  unfoldable pub on_data_and_sync_interest : Name → Action (Unit {0})
  on_data_and_sync_interest name = do
    l ← get
    if l.partitioned then pure tt else dispatch_interest name

  unfoldable pub on_reco_interest : Name → Action (Unit {0})
  on_reco_interest name = do
    l ← get
    if l.partitioned then pure tt else do
      c ← lift (component_at name 1)
      if component_eq reco_component c then modify (process_reco_interest name) else pure tt

  -- `blockFromValue()` of the content; it throws where the content is no block.
  unfoldable pub content_block : Option Block → Result Block
  content_block none = err ndn_error
  content_block (some b) = ok b

  unfoldable pub on_data_validated : Name → Option Block → Action (Unit {0})
  on_data_validated full_name content = do
    c ← lift (component_at full_name 3)
    if not (component_eq data_component c)
        then pure tt
        else do b ← lift (content_block content); process_data full_name (some b)

  unfoldable pub on_reco_data_validated : Name → Option Block → Action (Unit {0})
  on_reco_data_validated full_name content = do
    c ← lift (component_at full_name 2)
    if not (component_eq reco_component c)
        then pure tt
        else do b ← lift (content_block content); process_reco_data full_name (some b)

  -- A node with a validator goes on only with its consent; the callbacks of a refusal do nothing.
  unfoldable pub on_data : Bool → Name → Option Block → Action (Unit {0})
  on_data valid full_name content = do
    l ← get
    if l.partitioned || (l.has_validator && not valid)
        then pure tt
        else on_data_validated full_name content

  unfoldable pub on_reco_data : Bool → Name → Option Block → Action (Unit {0})
  on_reco_data valid full_name content = do
    l ← get
    if l.partitioned || (l.has_validator && not valid)
        then pure tt
        else on_reco_data_validated full_name content

  -- An interest of the node's own that was not answered in its lifetime.
  unfoldable pub on_timeout : Purpose → Name → Action (Unit {0})
  on_timeout (for_data retries) name = on_data_interest_timeout name retries
  on_timeout for_sync name = pure tt
  on_timeout for_reco name = modify (on_reco_interest_timeout name)

  -- The function that an event is bound to.
  unfoldable pub run_event : Event → Action (Unit {0})
  run_event (data_interest r retries) = modify (send_data_interest r retries)
  run_event (sync_interest r) = send_sync_interest r
  run_event stable_state = set_stable_state
  run_event (cumulative_only_event r digest) = produce_cumulative_only r digest
  run_event (reco_interest prefix) = modify (send_reco_interest prefix)
  run_event (recovery_check prefix r digest) = check_recovery_digest prefix r digest
  run_event partition_start = modify (λ l. record l { partitioned = true })
  run_event partition_stop = modify (λ l. record l { partitioned = false })
