-- ===== src/Logic/Reach/Sends.antt =====
-- logic.cpp: the methods that send or schedule change neither the trees nor the rounds.
use round_sync.Base.{
  ℕ, ◌≡◌, refl, ◌∙◌, Bool-cases, Option, none, some, Option-cases, List, inl, inr, arith, ◌==◌,
}
use round_sync.Ndn.{Ndn}
use round_sync.DiffState.{DiffState}
use round_sync.State.{get_digest}
use round_sync.DataContent.{make_content, well_formed}
use round_sync.Log
use round_sync.Logic.{Logic}
use round_sync.Logic.Calls.{
  schedule, express, reexpress, send_data_interest, digest_to_send, send_sync_interest,
  send_reco_interest, satisfy, send_data, exclude_in_log, send_cumulative_only, send_reco_data,
  info_round, info_digest,
}
use round_sync.Logic.Rounds.{digests_differ, check_entry, check_round_digests}
use round_sync.Logic.Recovery.{
  schedule_cumulative_only, request_recovery, do_recovery, compare_cumulative,
  cancel_cumulative_only, decide_recovery, check_found, check_recovery_digest, check_recovery,
  find_event,
}
use round_sync.Logic.Timeouts.{
  count_timeouts, inform_others, retry_data_interest, on_reco_interest_timeout,
}
use round_sync.Logic.Process.Seen.{seen, updates_of, seen-cancel}

module _ ⦃ndn : Ndn⦄ where
  open ndn use {Name, Component}

  seen-reexpress : (r : ℕ) (l : Logic) → seen (reexpress r l) ≡ seen l
  unfolding reexpress schedule updates_of
  seen-reexpress r l = seen-cancel l.reexpressing_data_interest_id _

  pub seen-send_data_interest :
      (r retries : ℕ) (l : Logic) → seen (send_data_interest r retries l) ≡ seen l
  unfolding send_data_interest express updates_of
  seen-send_data_interest r retries l = elim (Bool-cases l.partitioned) [
    | inl p ↦ rw (p, send_data_interest) refl
    | inr n ↦ elim (Bool-cases (r == l.current_round)) [
      | inl e ↦ rw (n, e, send_data_interest) (seen-reexpress r _)
      | inr e ↦ rw (n, e, send_data_interest) refl
    ]
  ]

  pub seen-send_reco_interest : (n : Name) (l : Logic) → seen (send_reco_interest n l) ≡ seen l
  unfolding send_reco_interest express updates_of
  seen-send_reco_interest n l = ground arith

  pub seen-satisfy : (n : Name) (l : Logic) → seen (satisfy n l) ≡ seen l
  unfolding satisfy updates_of
  seen-satisfy n l = ground arith

  pub seen-send_reco_data : (p n : Name) (l : Logic) → seen (send_reco_data p n l) ≡ seen l
  unfolding send_reco_data updates_of
  seen-send_reco_data p n l = refl

  pub seen-send_sync_interest : (r : ℕ) (l : Logic) → seen (send_sync_interest r l).1 ≡ seen l
  unfolding send_sync_interest digest_to_send express updates_of
  seen-send_sync_interest r l = ground arith

  pub seen-send_data :
      (p n : Name) (d : DiffState) (l : Logic) → seen (send_data p n d l).1 ≡ seen l
  unfolding send_data updates_of
  seen-send_data p n d l =
      elim (Bool-cases (
        well_formed (
          make_content l.session_name (info_round d.cumulative_info) (info_digest d.cumulative_info)
            (some d)))) [ inl w ↦ rw w (seen-satisfy n _) | inr w ↦ rw w refl ]

  seen-exclude_in_log : (r : ℕ) (c : Component) (l : Logic) → seen (exclude_in_log r c l) ≡ seen l
  seen-exclude_in_log r c l = ground arith

  pub seen-send_cumulative_only :
      (n : Name) (r : ℕ) (digest : Option (List ℕ)) (l : Logic)
      → seen (send_cumulative_only n r digest l).1 ≡ seen l
  unfolding send_cumulative_only updates_of
  seen-send_cumulative_only n r digest l =
      elim (Bool-cases (well_formed (make_content l.session_name r digest none))) [
        | inl w ↦ rw w (seen-satisfy n _ ∙ seen-exclude_in_log r _ l)
        | inr w ↦ rw w refl
      ]

  seen-digests_differ : (r : ℕ) (d : DiffState) (l : Logic) → seen (digests_differ r d l) ≡ seen l
  unfolding digests_differ schedule updates_of
  seen-digests_differ r d l = seen-cancel d.sync_event _

  seen-check_entry :
      (r : ℕ) (digest : List ℕ) (o : Option DiffState) (l : Logic)
      → seen (check_entry r digest o l).1 ≡ seen l
  unfolding check_entry schedule updates_of
  seen-check_entry r digest none l = refl
  seen-check_entry r digest (some d) l = ground (arith, seen-digests_differ r d l)

  pub seen-check_round_digests :
      (r : ℕ) (digest : List ℕ) (l : Logic) → seen (check_round_digests r digest l).1 ≡ seen l
  unfolding check_round_digests
  seen-check_round_digests r digest l = seen-check_entry r digest (Log.find r l.log) l

  pub seen-schedule_cumulative_only :
      (r : ℕ) (digest : List ℕ) (l : Logic) → seen (schedule_cumulative_only r digest l) ≡ seen l
  unfolding schedule_cumulative_only schedule updates_of
  seen-schedule_cumulative_only r digest l = refl

  seen-request_recovery : (p : Name) (l : Logic) → seen (request_recovery p l) ≡ seen l
  unfolding request_recovery schedule updates_of
  seen-request_recovery p l = ground arith

  seen-do_recovery :
      (p : Name) (r : ℕ) (mine : Option (List ℕ)) (l : Logic)
      → seen (do_recovery p r mine l) ≡ seen l
  unfolding do_recovery
  seen-do_recovery p r none l = seen-request_recovery _ l
  seen-do_recovery p r (some digest) l =
      seen-schedule_cumulative_only r digest _ ∙ seen-request_recovery _ l

  seen-compare_cumulative :
      (p : Name) (r : ℕ) (digest : List ℕ) (o : Option DiffState) (l : Logic)
      → seen (compare_cumulative p r digest o l).1 ≡ seen l
  unfolding compare_cumulative
  seen-compare_cumulative p r digest none l = seen-do_recovery p r none l
  seen-compare_cumulative p r digest (some d) l = elim (Option-cases d.cumulative_digest) [
    | inl e ↦ rw (e, compare_cumulative) refl
    | inr (mine, e) ↦ ground (arith, e, seen-do_recovery p r (some mine) l)
  ]

  seen-decide_recovery :
      (p : Name) (r : ℕ) (digest : List ℕ) (l : Logic)
      → seen (decide_recovery p r digest l).1 ≡ seen l
  unfolding decide_recovery schedule updates_of
  seen-decide_recovery p r digest l =
      ground (
        arith,
        seen-compare_cumulative p r digest (Log.find r l.log) l,
        seen-do_recovery p r none l,
      )

  seen-check_found :
      (p : Name) (r : ℕ) (digest : List ℕ) (o : Option ℕ) (l : Logic)
      → seen (check_found p r digest o l).1 ≡ seen l
  unfolding check_found cancel_cumulative_only
  seen-check_found p r digest none l = seen-decide_recovery p r digest l
  seen-check_found p r digest (some id) l = seen-cancel (some id) l

  pub seen-check_recovery_digest :
      (p : Name) (r : ℕ) (digest : List ℕ) (l : Logic)
      → seen (check_recovery_digest p r digest l).1 ≡ seen l
  unfolding check_recovery_digest
  seen-check_recovery_digest p r digest l =
      seen-check_found p r digest (find_event digest l.cumulative_digest_events) l

  pub seen-check_recovery :
      (p : Name) (r : ℕ) (digest : Option (List ℕ)) (l : Logic)
      → seen (check_recovery p r digest l).1 ≡ seen l
  unfolding check_recovery
  seen-check_recovery p r none l = refl
  seen-check_recovery p r (some digest) l = seen-check_recovery_digest p r digest l

  seen-count_timeouts : (r : ℕ) (l : Logic) → seen (count_timeouts r l) ≡ seen l
  unfolding count_timeouts
  seen-count_timeouts r l = ground arith

  seen-inform_others : (l : Logic) → seen (inform_others l) ≡ seen l
  unfolding inform_others
  seen-inform_others l = ground (
    arith,
    seen-schedule_cumulative_only l.stable_round (get_digest l.state)
        (record l { number_data_interest_timeouts = 0 }),
  )

  seen-retry_data_interest : (r n : ℕ) (l : Logic) → seen (retry_data_interest r n l) ≡ seen l
  unfolding retry_data_interest schedule updates_of
  seen-retry_data_interest r n l = ground arith

  pub seen-on_reco_interest_timeout :
      (name : Name) (l : Logic) → seen (on_reco_interest_timeout name l) ≡ seen l
  unfolding on_reco_interest_timeout schedule updates_of
  seen-on_reco_interest_timeout name l = ground arith

  -- The three steps of a timeout of a data interest, for its round.
  pub seen-timeout_steps :
      (r n : ℕ) (l : Logic)
      → seen (retry_data_interest r n (inform_others (count_timeouts r l))) ≡ seen l
  seen-timeout_steps r n l =
      seen-retry_data_interest r n _
      ∙ seen-inform_others (count_timeouts r l)
      ∙ seen-count_timeouts r l
