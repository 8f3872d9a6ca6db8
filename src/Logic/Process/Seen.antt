-- ===== src/Logic/Process/Seen.antt =====
-- logic.cpp: what the parts of processData and processRecoData do to the trees and the rounds, and
-- what they tell the application. The log and the calls of the scheduler are left out here.
use round_sync.Base.{
  ℕ, zero, suc, ◌+◌, ◌-◌, ◌≡◌, refl, ap, ◌∙◌, inl, inr, Bool-cases, Option, none, some, List, [],
  ◌∷◌, arith, if◌then◌else◌, ◌==◌, leb, add64, sub64,
}
use round_sync.Ndn.{Ndn}
use round_sync.State.{State}
use round_sync.Logic.{
  Logic, MissingDataInfo, Effect, scheduled, cancelled, expressed, removed_pending, sent, on_update,
  filter_set, all_cancelled, shut_down, millis, data_interest, max_rounds_without_recovery,
}
use round_sync.Logic.Calls.{schedule, cancel}
use round_sync.Logic.Rounds.{
  Commit, write, fish, restart_interest, move_to_new_current_round, update_diff_log,
}
use round_sync.Logic.Stable.{schedule_stable_state}
use round_sync.Logic.Process.{
  call_back, leave_round, delay_stabilization, schedule_round_digest, record_commit, reset_timeouts,
}

module _ ⦃ndn : Ndn⦄ where
  open ndn use {Name, Component}

  -- The lists that the application was called with, the last one first.
  unfoldable pub updates_of : List Effect → List (List MissingDataInfo)
  updates_of [] = []
  updates_of (scheduled id d e ∷ es) = updates_of es
  updates_of (cancelled id ∷ es) = updates_of es
  updates_of (expressed id i p ∷ es) = updates_of es
  updates_of (removed_pending id ∷ es) = updates_of es
  updates_of (sent p ∷ es) = updates_of es
  updates_of (on_update v ∷ es) = v ∷ updates_of es
  updates_of (filter_set n ∷ es) = updates_of es
  updates_of (all_cancelled ∷ es) = updates_of es
  updates_of (shut_down ∷ es) = updates_of es

  -- The contents of the packets that were sent, the last one first.
  unfoldable pub contents_of : List Effect → List (List ℕ)
  contents_of [] = []
  contents_of (scheduled id d e ∷ es) = contents_of es
  contents_of (cancelled id ∷ es) = contents_of es
  contents_of (expressed id i p ∷ es) = contents_of es
  contents_of (removed_pending id ∷ es) = contents_of es
  contents_of (sent p ∷ es) = p.content ∷ contents_of es
  contents_of (on_update v ∷ es) = contents_of es
  contents_of (filter_set n ∷ es) = contents_of es
  contents_of (all_cancelled ∷ es) = contents_of es
  contents_of (shut_down ∷ es) = contents_of es

  -- The trees, the rounds and the calls of the application.
  pub record Seen : Type 0 where
    pub state : State
    pub old_state : State
    pub current_round : ℕ
    pub stabilizing_round : ℕ
    pub stable_round : ℕ
    pub last_recovery_round : ℕ
    pub updates : List (List MissingDataInfo)

  abbrev pub seen : Logic → Seen
  seen l = record {
    state = l.state;
    old_state = l.old_state;
    current_round = l.current_round;
    stabilizing_round = l.stabilizing_round;
    stable_round = l.stable_round;
    last_recovery_round = l.last_recovery_round;
    updates = updates_of l.effects;
  }

  -- The application is called with a list unless that is empty.
  abbrev pub told : List MissingDataInfo → List (List MissingDataInfo) → List (List MissingDataInfo)
  told [] us = us
  told (m ∷ v) us = (m ∷ v) ∷ us

  pub seen-write : (r : ℕ) (c : Commit) (l : Logic) → seen (write r c l) ≡ seen l
  unfolding write
  seen-write r c l = ground arith

  pub seen-cancel : (id : Option ℕ) (l : Logic) → seen (cancel id l) ≡ seen l
  unfolding cancel updates_of
  seen-cancel none l = refl
  seen-cancel (some id) l = refl

  pub seen-fish : (count r : ℕ) (l : Logic) → seen (fish count r l) ≡ seen l
  unfolding fish schedule updates_of
  seen-fish zero r l = refl
  seen-fish (suc count) r l = seen-fish count (r + 1) (schedule (millis 0) (data_interest r 1) l)

  pub seen-restart_interest : (l : Logic) → seen (restart_interest l) ≡ seen l
  unfolding restart_interest schedule updates_of
  seen-restart_interest l = seen-cancel l.reexpressing_data_interest_id l

  pub seen-move :
      (r : ℕ) (l : Logic)
      → seen (move_to_new_current_round r l) ≡ record (seen l) { current_round = r }
  unfolding move_to_new_current_round
  seen-move r l = elim (Bool-cases (leb (sub64 r l.current_round) max_rounds_without_recovery)) [
    | inl h ↦ rw h (
        seen-restart_interest _
        ∙ ap (λ (s : Seen). record s { current_round = r })
            (seen-fish (r - l.current_round) l.current_round l))
    | inr h ↦ rw h (seen-restart_interest _)
  ]

  pub seen-update_diff_log :
      (c : Commit) (r : ℕ) (l : Logic) → seen (update_diff_log c r l).1 ≡ seen l
  unfolding update_diff_log write
  seen-update_diff_log c r l = ground arith

  pub seen-schedule_stable_state : (l : Logic) → seen (schedule_stable_state l) ≡ seen l
  unfolding schedule_stable_state schedule updates_of
  seen-schedule_stable_state l = refl

  pub seen-delay_stabilization : (r : ℕ) (l : Logic) → seen (delay_stabilization r l) ≡ seen l
  unfolding delay_stabilization
  seen-delay_stabilization r l = ground (
    arith,
    seen-schedule_stable_state (cancel l.stabilizing_cumulative_digest l),
    seen-cancel l.stabilizing_cumulative_digest l,
  )

  pub seen-schedule_round_digest :
      (r : ℕ) (c : Commit) (l : Logic) → seen (schedule_round_digest r c l) ≡ seen l
  unfolding schedule_round_digest schedule updates_of
  seen-schedule_round_digest r c l = seen-write r _ _ ∙ seen-cancel c.diff.sync_event _

  pub seen-record_commit : (r : ℕ) (c : Commit) (l : Logic) → seen (record_commit r c l) ≡ seen l
  unfolding record_commit
  seen-record_commit r c l =
      seen-schedule_round_digest r _ _ ∙ seen-delay_stabilization r _ ∙ seen-update_diff_log c r l

  pub seen-leave_round :
      (r : ℕ) (l : Logic)
      → seen (leave_round r l) ≡ record (seen l) {
        current_round = if r == l.current_round then add64 l.current_round 1 else l.current_round;
      }
  unfolding leave_round
  seen-leave_round r l = elim (Bool-cases (r == l.current_round)) [
    | inl h ↦ rw h (seen-move (add64 l.current_round 1) l)
    | inr h ↦ rw h refl
  ]

  pub seen-call_back :
      (v : List MissingDataInfo) (l : Logic)
      → seen (call_back v l) ≡ record (seen l) { updates = told v (updates_of l.effects) }
  unfolding call_back updates_of
  seen-call_back [] l = refl
  seen-call_back (m ∷ v) l = refl

  pub seen-reset_timeouts : (r : ℕ) (l : Logic) → seen (reset_timeouts r l) ≡ seen l
  unfolding reset_timeouts
  seen-reset_timeouts r l = ground arith
