-- ===== src/Logic/Held/Same.antt =====
-- logic.cpp: the methods that leave the trees, the log and the packets of a node as they are.
use round_sync.Base.{
  ℕ, zero, suc, ◌+◌, ◌-◌, ◌≡◌, refl, ◌∙◌, Bool-cases, Option, none, some, Option-cases, List, [],
  ◌∷◌, inl, inr, arith, ◌==◌, leb, add64, sub64,
}
use round_sync.Ndn.{Ndn}
use round_sync.DiffState.{DiffState}
use round_sync.State.{get_digest}
use round_sync.Log
use round_sync.Logic.{Logic, MissingDataInfo, millis, data_interest, max_rounds_without_recovery}
use round_sync.Logic.Calls.{
  schedule, cancel, express, reexpress, send_data_interest, digest_to_send, send_sync_interest,
  send_reco_interest, satisfy,
}
use round_sync.Logic.Rounds.{
  fish, restart_interest, move_to_new_current_round, move_to_new_current_round_after_recovery,
}
use round_sync.Logic.Stable.{schedule_stable_state}
use round_sync.Logic.Process.{
  call_back, leave_round, delay_stabilization, reset_timeouts, adopt_round, fish_back,
}
use round_sync.Logic.Recovery.{
  schedule_cumulative_only, request_recovery, do_recovery, compare_cumulative,
  cancel_cumulative_only, decide_recovery, check_found, check_recovery_digest, check_recovery,
  find_event,
}
use round_sync.Logic.Timeouts.{
  count_timeouts, inform_others, retry_data_interest, on_reco_interest_timeout,
}
use round_sync.Logic.Process.Seen.{contents_of}
use round_sync.Logic.Held.{trees}

module _ ⦃ndn : Ndn⦄ where
  open ndn use {Name, Component}

  pub trees-cancel : (id : Option ℕ) (l : Logic) → trees (cancel id l) ≡ trees l
  unfolding cancel contents_of
  trees-cancel none l = refl
  trees-cancel (some id) l = refl

  pub trees-fish : (count r : ℕ) (l : Logic) → trees (fish count r l) ≡ trees l
  unfolding fish schedule contents_of
  trees-fish zero r l = refl
  trees-fish (suc count) r l = trees-fish count (r + 1) (schedule (millis 0) (data_interest r 1) l)

  pub trees-restart_interest : (l : Logic) → trees (restart_interest l) ≡ trees l
  unfolding restart_interest schedule contents_of
  trees-restart_interest l = trees-cancel l.reexpressing_data_interest_id l

  pub trees-move : (r : ℕ) (l : Logic) → trees (move_to_new_current_round r l) ≡ trees l
  unfolding move_to_new_current_round
  trees-move r l = elim (Bool-cases (leb (sub64 r l.current_round) max_rounds_without_recovery)) [
    | inl h ↦ rw h (trees-restart_interest _ ∙ trees-fish (r - l.current_round) l.current_round l)
    | inr h ↦ rw h (trees-restart_interest _)
  ]

  pub trees-schedule_stable_state : (l : Logic) → trees (schedule_stable_state l) ≡ trees l
  unfolding schedule_stable_state schedule contents_of
  trees-schedule_stable_state l = refl

  pub trees-delay_stabilization : (r : ℕ) (l : Logic) → trees (delay_stabilization r l) ≡ trees l
  unfolding delay_stabilization
  trees-delay_stabilization r l = ground (
    arith,
    trees-schedule_stable_state (cancel l.stabilizing_cumulative_digest l),
    trees-cancel l.stabilizing_cumulative_digest l,
  )

  pub trees-leave_round : (r : ℕ) (l : Logic) → trees (leave_round r l) ≡ trees l
  unfolding leave_round
  trees-leave_round r l = elim (Bool-cases (r == l.current_round)) [
    | inl h ↦ rw h (trees-move (add64 l.current_round 1) l)
    | inr h ↦ rw h refl
  ]

  pub trees-call_back : (v : List MissingDataInfo) (l : Logic) → trees (call_back v l) ≡ trees l
  unfolding call_back contents_of
  trees-call_back [] l = refl
  trees-call_back (m ∷ v) l = refl

  pub trees-reset_timeouts : (r : ℕ) (l : Logic) → trees (reset_timeouts r l) ≡ trees l
  unfolding reset_timeouts
  trees-reset_timeouts r l = ground arith

  trees-reexpress : (r : ℕ) (l : Logic) → trees (reexpress r l) ≡ trees l
  unfolding reexpress schedule contents_of
  trees-reexpress r l = trees-cancel l.reexpressing_data_interest_id _

  pub trees-send_data_interest :
      (r retries : ℕ) (l : Logic) → trees (send_data_interest r retries l) ≡ trees l
  unfolding send_data_interest express contents_of
  trees-send_data_interest r retries l = elim (Bool-cases l.partitioned) [
    | inl p ↦ rw (p, send_data_interest) refl
    | inr n ↦ elim (Bool-cases (r == l.current_round)) [
      | inl e ↦ rw (n, e, send_data_interest) (trees-reexpress r _)
      | inr e ↦ rw (n, e, send_data_interest) refl
    ]
  ]

  pub trees-send_reco_interest : (n : Name) (l : Logic) → trees (send_reco_interest n l) ≡ trees l
  unfolding send_reco_interest express contents_of
  trees-send_reco_interest n l = ground arith

  pub trees-satisfy : (n : Name) (l : Logic) → trees (satisfy n l) ≡ trees l
  unfolding satisfy contents_of
  trees-satisfy n l = ground arith

  pub trees-send_sync_interest : (r : ℕ) (l : Logic) → trees (send_sync_interest r l).1 ≡ trees l
  unfolding send_sync_interest digest_to_send express contents_of
  trees-send_sync_interest r l = ground arith

  pub trees-schedule_cumulative_only :
      (r : ℕ) (digest : List ℕ) (l : Logic) → trees (schedule_cumulative_only r digest l) ≡ trees l
  unfolding schedule_cumulative_only schedule contents_of
  trees-schedule_cumulative_only r digest l = refl

  trees-request_recovery : (p : Name) (l : Logic) → trees (request_recovery p l) ≡ trees l
  unfolding request_recovery schedule contents_of
  trees-request_recovery p l = ground arith

  trees-do_recovery :
      (p : Name) (r : ℕ) (mine : Option (List ℕ)) (l : Logic)
      → trees (do_recovery p r mine l) ≡ trees l
  unfolding do_recovery
  trees-do_recovery p r none l = trees-request_recovery _ l
  trees-do_recovery p r (some digest) l =
      trees-schedule_cumulative_only r digest _ ∙ trees-request_recovery _ l

  trees-compare_cumulative :
      (p : Name) (r : ℕ) (digest : List ℕ) (o : Option DiffState) (l : Logic)
      → trees (compare_cumulative p r digest o l).1 ≡ trees l
  unfolding compare_cumulative
  trees-compare_cumulative p r digest none l = trees-do_recovery p r none l
  trees-compare_cumulative p r digest (some d) l = elim (Option-cases d.cumulative_digest) [
    | inl e ↦ rw (e, compare_cumulative) refl
    | inr (mine, e) ↦ ground (arith, e, trees-do_recovery p r (some mine) l)
  ]

  trees-decide_recovery :
      (p : Name) (r : ℕ) (digest : List ℕ) (l : Logic)
      → trees (decide_recovery p r digest l).1 ≡ trees l
  unfolding decide_recovery schedule contents_of
  trees-decide_recovery p r digest l = ground (
    arith,
    trees-compare_cumulative p r digest (Log.find r l.log) l,
    trees-do_recovery p r none l,
  )

  trees-check_found :
      (p : Name) (r : ℕ) (digest : List ℕ) (o : Option ℕ) (l : Logic)
      → trees (check_found p r digest o l).1 ≡ trees l
  unfolding check_found cancel_cumulative_only
  trees-check_found p r digest none l = trees-decide_recovery p r digest l
  trees-check_found p r digest (some id) l = trees-cancel (some id) l

  pub trees-check_recovery_digest :
      (p : Name) (r : ℕ) (digest : List ℕ) (l : Logic)
      → trees (check_recovery_digest p r digest l).1 ≡ trees l
  unfolding check_recovery_digest
  trees-check_recovery_digest p r digest l =
      trees-check_found p r digest (find_event digest l.cumulative_digest_events) l

  pub trees-check_recovery :
      (p : Name) (r : ℕ) (digest : Option (List ℕ)) (l : Logic)
      → trees (check_recovery p r digest l).1 ≡ trees l
  unfolding check_recovery
  trees-check_recovery p r none l = refl
  trees-check_recovery p r (some digest) l = trees-check_recovery_digest p r digest l

  trees-count_timeouts : (r : ℕ) (l : Logic) → trees (count_timeouts r l) ≡ trees l
  unfolding count_timeouts
  trees-count_timeouts r l = ground arith

  trees-inform_others : (l : Logic) → trees (inform_others l) ≡ trees l
  unfolding inform_others
  trees-inform_others l = ground (
    arith,
    trees-schedule_cumulative_only l.stable_round (get_digest l.state)
        (record l { number_data_interest_timeouts = 0 }),
  )

  trees-retry_data_interest : (r n : ℕ) (l : Logic) → trees (retry_data_interest r n l) ≡ trees l
  unfolding retry_data_interest schedule contents_of
  trees-retry_data_interest r n l = ground arith

  pub trees-on_reco_interest_timeout :
      (name : Name) (l : Logic) → trees (on_reco_interest_timeout name l) ≡ trees l
  unfolding on_reco_interest_timeout schedule contents_of
  trees-on_reco_interest_timeout name l = ground arith

  pub trees-timeout_steps :
      (r n : ℕ) (l : Logic)
      → trees (retry_data_interest r n (inform_others (count_timeouts r l))) ≡ trees l
  trees-timeout_steps r n l =
      trees-retry_data_interest r n _
      ∙ trees-inform_others (count_timeouts r l)
      ∙ trees-count_timeouts r l

  pub trees-adopt_round : (r : ℕ) (l : Logic) → trees (adopt_round r l) ≡ trees l
  unfolding adopt_round move_to_new_current_round_after_recovery
  trees-adopt_round r l = elim (Bool-cases (leb l.current_round r)) [
    | inl h ↦ rw h (trees-restart_interest _)
    | inr h ↦ rw h refl
  ]

  pub trees-fish_back : (l : Logic) → trees (fish_back l) ≡ trees l
  unfolding fish_back
  trees-fish_back l = trees-fish _ _ l
