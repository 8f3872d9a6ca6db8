-- ===== src/Logic/Stable/Digests.antt =====
-- logic.cpp: what calculateStableStateAndCumulativeDigests computes, against the rounds of the log.
use round_sync.Base.{
  ℕ, ◌≤◌, ◌≡◌, refl, sym, ◌∙◌, inl, inr, true, false, none, some, Option-cases, List, arith,
}
use round_sync.Ndn.{Ndn}
use round_sync.State.{plus, get_digest}
use round_sync.State.Lookup.{seq_in, join, join-none, join_assoc}
use round_sync.State.Sorted.{IsValid}
use round_sync.DiffState.{
  DiffState, empty_diff_state, get_state, set_cumulative_digest, set_round, update_round_digest,
}
use round_sync.DiffState.Produced.{AllValid}
use round_sync.Log
use round_sync.Log.{Above, IsOrdered, find-put, find-insert, find_round}
use round_sync.Logic.{Logic}
use round_sync.Logic.Rounds.{update_diff_log}
use round_sync.Logic.Stable.{
  add_log_rounds, add_last_round, calculate_stable_state_and_cumulative_digests,
}
use round_sync.Logic.Stable.Loops.{seq_in-add, within_lem, AllValid-find, add_log_rounds_lem}
use round_sync.Logic.Stable.Ranges.{seq_of_entry, latest_where, before, within}

module _ ⦃ndn : Ndn⦄ where
  open ndn use {Name}

  find-written :
      (r : ℕ) (c d : DiffState) (ds : List DiffState)
      → Log.find r ds ≡ some d
      → c.round ≡ r
      → Log.find r (Log.put r c ds) ≡ some c
  find-written r c d ds f h = find-put r r c ds h ∙ rw f (ground arith)

  -- A new entry of the last round, empty but for its digests.
  abbrev new_entry : ℕ → DiffState
  new_entry e = update_round_digest (set_round e empty_diff_state)

  find-new :
      (e : ℕ) (ds : List DiffState)
      → Log.find e ds ≡ none
      → Log.find e (Log.insert (new_entry e) ds) ≡ some (new_entry e)
  unfolding update_round_digest set_round
  find-new e ds f = find-insert e (new_entry e) ds f ∙ ground arith

  update_diff_log-new :
      (e : ℕ) (l : Logic)
      → Log.find e l.log ≡ none
      → update_diff_log (record { diff = empty_diff_state; shared = false }) e l ≡ (
        record { diff = new_entry e; shared = true },
        record l { log = Log.insert (new_entry e) l.log },
      )
  unfolding update_diff_log
  update_diff_log-new e l f = rw (f, update_diff_log) refl

  add_last_round-new :
      (e : ℕ) (l : Logic)
      → Log.find e l.log ≡ none
      → add_last_round e l ≡ record l {
        log =
            Log.put e
              (set_cumulative_digest (get_digest l.old_state) (new_entry e))
              (Log.insert (new_entry e) l.log);
      }
  unfolding add_last_round
  add_last_round-new e l f = rw (f, add_last_round) (rw (update_diff_log-new e l f) refl)

  add_last_round-entry :
      (e : ℕ) (l : Logic) {d : DiffState}
      → Log.find e l.log ≡ some d
      → add_last_round e l ≡ record l {
        old_state = plus l.old_state (get_state d);
        log =
            Log.put e (set_cumulative_digest (get_digest (plus l.old_state (get_state d))) d) l.log;
      }
  unfolding add_last_round
  add_last_round-entry e l f = rw (f, add_last_round) refl

  -- The entry of the last round has the digest of what is combined in the end.
  add_last_round-digest :
      (e : ℕ) (l : Logic)
      → (d : DiffState) × (Log.find e (add_last_round e l).log ≡ some d)
        × (d.cumulative_digest ≡ some (get_digest (add_last_round e l).old_state))
  unfolding set_cumulative_digest
  add_last_round-digest e l = elim (Option-cases (Log.find e l.log)) [
    | inl f ↦
        let c = set_cumulative_digest (get_digest l.old_state) (new_entry e) in
        rw (add_last_round-new e l f) (
          c,
          find-written e c (new_entry e) (Log.insert (new_entry e) l.log) (find-new e l.log f)
              (unfold update_round_digest set_round in refl),
          refl,
        )
    | inr (d, f) ↦
        let c = set_cumulative_digest (get_digest (plus l.old_state (get_state d))) d in
        rw (add_last_round-entry e l f) (c, find-written e c d l.log f (find_round e l.log f), refl)
  ]

  add_last_round-old_state :
      (e : ℕ) (l : Logic) (n : Name)
      → ((d : DiffState) → Log.find e l.log ≡ some d → IsValid d.leaves)
      → seq_in (add_last_round e l).old_state.leaves n
        ≡ join (seq_in l.old_state.leaves n) (seq_of_entry n (Log.find e l.log))
  add_last_round-old_state e l n v = elim (Option-cases (Log.find e l.log)) [
    | inl f ↦ rw (add_last_round-new e l f, f) (sym (join-none (seq_in l.old_state.leaves n)))
    | inr (d, f) ↦ rw (add_last_round-entry e l f, f) (seq_in-add l.old_state d n (v d f))
  ]

  -- For an ordered log of well-formed trees and rounds `i ≤ e`, stabilizing from `i` to `e`
  -- combines with the old state the trees of exactly the rounds from `i` to `e`: each session gets
  -- the greatest number that it has in them. The log then has an entry of round `e` with the digest
  -- of the result.
  pub calculate-combines :
      (i e : ℕ) (l : Logic)
      → AllValid l.log
      → IsOrdered l.log
      → i ≤ e
      → let l' = calculate_stable_state_and_cumulative_digests i e l in
        ((n : Name)
          → seq_in l'.old_state.leaves n
            ≡ join (seq_in l.old_state.leaves n) (latest_where (within i e) n l.log))
        × (d : DiffState) × (Log.find e l'.log ≡ some d)
        × (d.cumulative_digest ≡ some (get_digest l'.old_state))
  unfolding calculate_stable_state_and_cumulative_digests
  calculate-combines i e l v o h =
      let m = add_log_rounds i e l in
      let digest = add_last_round-digest e m in
      let (combined, kept) = add_log_rounds_lem i e l v o h in
      (
        λ n. cc (
          add_last_round-old_state e m n (λ d f. AllValid-find e l.log v (sym kept ∙ f)),
          combined n,
          kept,
          within_lem i e n l.log h o,
          join_assoc (seq_in l.old_state.leaves n) (latest_where (before i e) n l.log)
              (seq_of_entry n (Log.find e l.log)),
        ),
        digest.0,
        digest.1,
        digest.2,
      )
