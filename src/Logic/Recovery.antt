-- ===== src/Logic/Recovery.antt =====
-- logic.cpp: the comparison of cumulative digests and the request of a recovery (checkRecovery), and
-- the CumulativeOnly packets that a node produces (produceCumulativeOnly).
pub mod Compare
use round_sync.Base.{
  ℕ, ◌==◌, ◌||◌, not, Bool, true, false, Option, none, some, List, [], ◌∷◌, if◌then◌else◌, ltb, leb,
  add64, bytes_eq, undefined, Result, ok, err,
}
use round_sync.Ndn.{Ndn}
use round_sync.DiffState.{DiffState, empty_diff_state, update_diff, set_cumulative_info}
use round_sync.Log
use round_sync.Logic.{
  Logic, millis, random, cumulative_only_event, reco_interest, recovery_check, cumulative_only_data,
  default_delay_sending_cumulative_only, default_retry_check_recovery_delay,
}
use round_sync.Logic.Exec.{Action, pure, raise, lift, get, modify, ◌>>=◌, ◌>>◌, number_at}
use round_sync.Logic.Calls.{schedule, cancel, send_cumulative_only}
use round_sync.Logic.Rounds.{update_diff_log, move_to_new_current_round}

module _ ⦃ndn : Ndn⦄ where
  open ndn use {Name, name_eq, prefix_back}

  -- std::map from a digest to an event: `insert` keeps the entry that is there.
  unfoldable pub find_event : List ℕ → List (List ℕ × ℕ) → Option ℕ
  find_event d [] = none
  find_event d ((k, id) ∷ m) = if bytes_eq k d then some id else find_event d m

  unfoldable pub erase_event : List ℕ → List (List ℕ × ℕ) → List (List ℕ × ℕ)
  erase_event d [] = []
  erase_event d ((k, id) ∷ m) = if bytes_eq k d then erase_event d m else (k, id) ∷ erase_event d m

  unfoldable pub insert_event : List ℕ → ℕ → List (List ℕ × ℕ) → List (List ℕ × ℕ)
  insert_event d id m = elim (find_event d m) [ none ↦ (d, id) ∷ m | some _ ↦ m ]

  -- std::set of names.
  unfoldable pub contains : Name → List Name → Bool
  contains n [] = false
  contains n (m ∷ ms) = if name_eq m n then true else contains n ms

  unfoldable pub erase : Name → List Name → List Name
  erase n [] = []
  erase n (m ∷ ms) = if name_eq m n then erase n ms else m ∷ erase n ms

  -- A cumulative digest is to be sent later, unless one that is equal comes in first.
  unfoldable pub schedule_cumulative_only : ℕ → List ℕ → Logic → Logic
  schedule_cumulative_only r digest l =
      record (schedule (random 0 0 default_delay_sending_cumulative_only)
        (cumulative_only_event r digest) l) {
          cumulative_digest_events = insert_event digest l.next_id l.cumulative_digest_events;
        }

  -- A pending interest for the current round.
  unfoldable pub pending_now : Logic → Result (Option Name)
  pending_now l = elim l.pending_data_interest [
    | none ↦ ok none
    | some name ↦ elim (number_at name 1) [
      | err e ↦ err e
      | ok r ↦ if r == l.current_round then ok (some name) else ok none
    ]
  ]

  -- The reply to the pending interest, if there is one for the current round.
  unfoldable pub answer_cumulative_only : ℕ → List ℕ → Option Name → Action (Unit {0})
  answer_cumulative_only r digest none = pure tt
  answer_cumulative_only r digest (some name) = do
    send_cumulative_only name r (some digest)
    modify (λ l. record l { pending_data_interest = none })

  -- A CumulativeOnly is stored under sequence number 0, and takes a round of its own.
  unfoldable pub store_cumulative_only : ℕ → List ℕ → Logic → Logic
  store_cumulative_only r digest l =
      let d =
        set_cumulative_info (some (r, some digest))
          (update_diff empty_diff_state l.session_name cumulative_only_data) in
      let (_, l') = update_diff_log (record { diff = d; shared = false }) l.current_round l in
      move_to_new_current_round (add64 l'.current_round 1) l'

  unfoldable pub produce_cumulative_only : ℕ → List ℕ → Action (Unit {0})
  produce_cumulative_only r digest = do
    l ← get
    name ← lift (pending_now l)
    answer_cumulative_only r digest name
    modify (store_cumulative_only r digest)

  -- A recovery is requested from a prefix once, until its reply or its last timeout.
  unfoldable pub request_recovery : Name → Logic → Logic
  request_recovery prefix l =
      if contains prefix l.pending_recovery_prefixes
      then l
      else record (schedule (millis 0) (reco_interest prefix) l) {
        pending_recovery_prefixes = prefix ∷ l.pending_recovery_prefixes;
      }

  -- The branch `doRecovery`, with our digest of the round if we have one.
  unfoldable pub do_recovery : Name → ℕ → Option (List ℕ) → Logic → Logic
  do_recovery user_prefix r mine l =
      let l' = record (request_recovery (prefix_back user_prefix 1) l) {
        recovery_desired = false;
      } in
      elim mine [ none ↦ l' | some digest ↦ schedule_cumulative_only r digest l' ]

  -- The digest that the log has for a stable round, compared with the one received.
  unfoldable pub compare_cumulative : Name → ℕ → List ℕ → Option DiffState → Action (Unit {0})
  compare_cumulative user_prefix r digest none = modify (do_recovery user_prefix r none)
  compare_cumulative user_prefix r digest (some d) = elim d.cumulative_digest [
    | none ↦ raise undefined
    | some mine ↦
        if bytes_eq digest mine then pure tt else modify (do_recovery user_prefix r (some mine))
  ]

  -- An equal digest that the node was going to send is not sent any more.
  unfoldable pub cancel_cumulative_only : ℕ → List ℕ → Logic → Logic
  cancel_cumulative_only id digest l = record (cancel (some id) l) {
    cumulative_digest_events = erase_event digest l.cumulative_digest_events;
  }

  -- Whether a recovery is due, at a node that was not going to send that digest itself.
  unfoldable pub decide_recovery : Name → ℕ → List ℕ → Action (Unit {0})
  decide_recovery user_prefix r digest = do
    l ← get
    if ltb r l.last_recovery_round || l.stable_round == 0
        then pure tt
        else if leb r l.stable_round
        then compare_cumulative user_prefix r digest (Log.find r l.log)
        else if not l.recovery_desired
        then modify (
            schedule (millis default_retry_check_recovery_delay)
              (recovery_check user_prefix r digest))
        else modify (do_recovery user_prefix r none)

  unfoldable pub check_found : Name → ℕ → List ℕ → Option ℕ → Action (Unit {0})
  check_found user_prefix r digest (some id) = modify (cancel_cumulative_only id digest)
  check_found user_prefix r digest none = decide_recovery user_prefix r digest

  unfoldable pub check_recovery_digest : Name → ℕ → List ℕ → Action (Unit {0})
  check_recovery_digest user_prefix r digest = do
    l ← get
    check_found user_prefix r digest (find_event digest l.cumulative_digest_events)

  -- `*cumulativeDigest` of a packet that has none reads through a null pointer.
  unfoldable pub check_recovery : Name → ℕ → Option (List ℕ) → Action (Unit {0})
  check_recovery user_prefix r none = raise undefined
  check_recovery user_prefix r (some digest) = check_recovery_digest user_prefix r digest
