-- ===== src/Logic/Reach/Answers.antt =====
-- logic.cpp: the replies to interests for data change neither the trees nor the rounds.
use round_sync.Base.{
  ℕ, ◌≡◌, refl, ◌∙◌, inl, inr, Bool, true, false, Option, Option-cases, none, some, List, Result,
  ok, err,
}
use round_sync.Ndn.{Ndn}
use round_sync.DiffState.{DiffState, get_state_from}
use round_sync.Logic.{Logic}
use round_sync.Logic.Exec.{proceed}
use round_sync.Logic.Calls.{send_data, send_cumulative_only}
use round_sync.Logic.Rounds.{Commit, write}
use round_sync.Logic.Recovery.{answer_cumulative_only}
use round_sync.Logic.Publish.{answer_data, log_commit, answer_part, answer_earlier}
use round_sync.Logic.Process.Seen.{seen, seen-write, seen-update_diff_log}
use round_sync.Logic.Reach.Sends.{seen-send_data, seen-send_cumulative_only}

module _ ⦃ndn : Ndn⦄ where
  open ndn use {Name, component_value}

  -- An action that goes on after a reply changes what a node has seen only where the rest does.
  pub seen-answer_data :
      (prefix : Name) (c : Commit) (o : Option Name) (l : Logic)
      → seen (answer_data prefix c o l).1 ≡ seen l
  unfolding answer_data
  seen-answer_data prefix c none l = refl
  seen-answer_data prefix c (some name) l =
      go (send_data prefix name c.diff l) (seen-send_data prefix name c.diff l)
    where
      go :
          (x : Result DiffState × Logic)
          → seen x.1 ≡ seen l
          → seen
              (proceed x (λ d k. (
                ok tt,
                record (write k.current_round (record c { diff = d }) k) {
                  pending_data_interest = none;
                },
              ))).1
            ≡ seen l
      go (ok d, k) e = seen-write k.current_round (record c { diff = d }) k ∙ e
      go (err x, k) e = e

  seen-answer_part :
      (name : Name) (o : Option (DiffState × Bool)) (l : Logic)
      → seen (answer_part name o l).1 ≡ seen l
  unfolding answer_part
  seen-answer_part name none l = refl
  seen-answer_part name (some (d, false)) l =
      go (send_data l.default_user_prefix name d l) (seen-send_data l.default_user_prefix name d l)
    where
      go :
          (x : Result DiffState × Logic)
          → seen x.1 ≡ seen l
          → seen (proceed {B = Unit {0}} x (λ _ k. (ok tt, k))).1 ≡ seen l
      go (ok d, k) e = e
      go (err x, k) e = e
  seen-answer_part name (some (d, true)) l = elim (Option-cases d.cumulative_info) [
    | inl e ↦ rw (e, answer_part) refl
    | inr ((r, digest), e) ↦ rw (e, answer_part) (seen-send_cumulative_only name r digest l)
  ]

  pub seen-answer_earlier :
      (name : Name) (o : Option DiffState) (l : Logic) → seen (answer_earlier name o l).1 ≡ seen l
  unfolding answer_earlier
  seen-answer_earlier name none l = refl
  seen-answer_earlier name (some d) l = seen-answer_part name (get_state_from d l.session_name) l

  pub seen-log_commit : (d : DiffState) (l : Logic) → seen (log_commit d l).1 ≡ seen l
  unfolding log_commit
  seen-log_commit d l = seen-update_diff_log (record { diff = d; shared = false }) l.current_round l

  pub seen-answer_cumulative_only :
      (r : ℕ) (digest : List ℕ) (o : Option Name) (l : Logic)
      → seen (answer_cumulative_only r digest o l).1 ≡ seen l
  unfolding answer_cumulative_only
  seen-answer_cumulative_only r digest none l = refl
  seen-answer_cumulative_only r digest (some name) l =
      go (send_cumulative_only name r (some digest) l)
        (seen-send_cumulative_only name r (some digest) l)
    where
      go :
          (x : Result (Unit {0}) × Logic)
          → seen x.1 ≡ seen l
          → seen
              (proceed {B = Unit {0}} x
                (λ _ k. (ok tt, record k { pending_data_interest = none }))).1
            ≡ seen l
      go (ok d, k) e = e
      go (err x, k) e = e
