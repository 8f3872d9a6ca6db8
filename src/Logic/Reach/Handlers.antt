-- ===== src/Logic/Reach/Handlers.antt =====
-- logic.cpp: each handler keeps the rounds in order and loses no sequence number, whether it returns
-- or throws.
use round_sync.Base.{
  ℕ, ◌+◌, ◌<◌, ◌≡◌, refl, sym, subst, ◌∙◌, inl, inr, Bool-cases, Option, Option-cases, undefined,
  logic_error_pointer, none, arith, ◌||◌, leb, u64_mod, Result, ok, err,
}
use round_sync.Ndn.{Ndn, Block}
use round_sync.DiffState.{append_exclude}
use round_sync.DataContent.{DataContent, default_content, wire_decode_content}
use round_sync.RecoData.{RecoData, make_reco, wire_decode_reco}
use round_sync.Tlv.{recovery_data, data_only, data_and_cumulative}
use round_sync.Logic.{Logic}
use round_sync.Logic.Exec.{proceed, catch_state_error, component_at, number_at}
use round_sync.Logic.Recovery.{erase}
use round_sync.Logic.Rounds.{Commit, write}
use round_sync.Logic.Stable.{
  set_stable_state, init_round, calculate_stable_state_and_cumulative_digests, advance_stable_round,
  schedule_stable_state,
}
use round_sync.Logic.Stable.Next.{calculate_lem}
use round_sync.Logic.Process.{
  has_type, note_cumulative_only, check_content, absorb_content, leave_round, record_commit,
  receive, commit_for, reset_timeouts, process_data, recover, process_reco_data,
}
use round_sync.Logic.Process.Seen.{
  seen, seen-write, seen-record_commit, seen-reset_timeouts, seen-schedule_stable_state,
}
use round_sync.Logic.Reach.{
  ready, Before, IsSound, IsReady, Ensures, Ensures-bind, Ensures-lift, Ensures-modify,
  Ensures-pure, Ensures-raise, Ensures-same,
}
use round_sync.Logic.Reach.Sends.{seen-check_recovery}
use round_sync.Logic.Reach.Parts.{
  stabilized-IsSound, leave_round-IsSound, recovery-IsSound, absorb_leaves-IsReady,
}

module _ ⦃ndn : Ndn⦄ (b : Before) where
  open ndn use {Name, prefix_back}

  seen-note_cumulative_only :
      (r : ℕ) (content : DataContent) (c : Commit) (l : Logic)
      → seen (note_cumulative_only r content c l).1 ≡ seen l
  unfolding note_cumulative_only write
  seen-note_cumulative_only r content c l = ground arith

  seen-check_content :
      (content : DataContent) (l : Logic) → seen (check_content content l).1 ≡ seen l
  unfolding check_content
  seen-check_content content l =
      ground (
        arith,
        seen-check_recovery content.user_prefix content.round_no content.cumulative_digest l,
      )

  absorb_content-Ensures :
      (r : ℕ) (content : DataContent) (c : Commit)
      → Ensures (IsReady b) (absorb_content r content c) (IsReady b)
  unfolding absorb_content
  absorb_content-Ensures r content c =
      elim (Bool-cases
        (has_type data_only content.data_type || has_type data_and_cumulative content.data_type)) [
          | inl k ↦ elim (Option-cases content.state) [
            | inl e ↦ rw (k, e) (Ensures-raise undefined (λ s p. p))
            | inr (d, e) ↦ rw (k, e) record { at = absorb_leaves-IsReady b r d.leaves c }
          ]
          | inr k ↦ rw k (Ensures-pure c (λ s p. p))
        ]

  receive-Ensures :
      (r : ℕ) (c : Commit) (block : Option Block)
      → Ensures (IsReady b) (receive r c block) (IsSound b)
  unfolding receive
  receive-Ensures r c block =
      Ensures-lift (wire_decode_content default_content block) _
        (λ content _.
          Ensures-bind (note_cumulative_only r content c) _
            (Ensures-same _ (seen-note_cumulative_only r content c))
            (λ c'.
              Ensures-bind (check_content content) _ (Ensures-same _ (seen-check_content content))
                (λ _.
                  Ensures-bind (absorb_content r content c') _ (absorb_content-Ensures r content c')
                    (λ c''.
                      Ensures-bind _ _ (Ensures-modify (leave_round r) (leave_round-IsSound b r))
                        (λ _.
                          Ensures-modify (record_commit r c'')
                            λ l p. subst (IsSound b) (sym (seen-record_commit r c'' l)) p)
                        (λ s p. p))
                    ready)
                ready)
            ready)
        ready

  -- Every branch of processData, in a node whose current round has a next one.
  pub process_data-Ensures :
      (name : Name) (block : Option Block)
      → Ensures (IsReady b) (process_data name block) (IsSound b)
  unfolding process_data
  process_data-Ensures name block =
      Ensures-lift (number_at name 2) _
        (λ r _. record {
          at = λ l p.
              let l1 = reset_timeouts r l in
              let p1 : IsReady b (seen l1) = subst (IsReady b) (sym (seen-reset_timeouts r l)) p in
              elim (Bool-cases (leb r l1.stable_round)) [
                | inl old ↦ rw old (p1.0)
                | inr new ↦
                    let c = λ (excluded : ndn.Component). record (commit_for r l1) {
                      diff = append_exclude excluded (commit_for r l1).diff;
                    } in
                    let taken =
                      Ensures-lift {P = IsReady b} {Q = IsSound b} (component_at name 1)
                        (λ excluded k.
                          catch_state_error (receive r (c excluded) block) (write r (c excluded) k))
                        (λ excluded _. record {
                          at = λ k q.
                              (receive-Ensures r (c excluded) block).at (write r (c excluded) k)
                                (subst (IsReady b) (sym (seen-write r (c excluded) k)) q);
                        })
                        ready in
                    rw new (taken.at l1 p1)
              ];
        })
        ready

  recover-Ensures :
      (reco : RecoData)
      → reco.round_no + 1 < u64_mod
      → Ensures (IsSound b) (recover reco) (IsSound b)
  unfolding recover
  recover-Ensures reco w = elim (Bool-cases (has_type recovery_data reco.data_type)) [
    | inr k ↦ rw k (Ensures-raise logic_error_pointer (λ s p. p))
    | inl k ↦ elim (Option-cases reco.state) [
      | inl e ↦ rw (k, e) (Ensures-raise undefined (λ s p. p))
      | inr (d, e) ↦
          rw (k, e) (Ensures-modify _ λ l p. recovery-IsSound b reco.round_no d.leaves l p w)
    ]
  ]

  -- Every branch of processRecoData, when a reply that can be decoded is for a round that has a next
  -- one.
  pub process_reco_data-Ensures :
      (name : Name) (block : Option Block)
      → ((reco : RecoData)
          → wire_decode_reco (make_reco 0 none) block ≡ ok reco
          → reco.round_no + 1 < u64_mod)
      → Ensures (IsSound b) (process_reco_data name block) (IsSound b)
  unfolding process_reco_data
  process_reco_data-Ensures name block h = record {
    at = λ l p.
        (Ensures-lift {P = IsSound b} {Q = IsSound b} (wire_decode_reco (make_reco 0 none) block)
            recover (λ reco e. recover-Ensures reco (h reco e)) (λ s q. q)).at
          (record l {
            pending_recovery_prefixes = erase (prefix_back name 2) l.pending_recovery_prefixes;
          })
          p;
  }

  -- setStableState in all branches.
  pub set_stable_state-Ensures : Ensures (IsSound b) set_stable_state (IsSound b)
  unfolding set_stable_state advance_stable_round
  set_stable_state-Ensures = record { at = λ l p. go l p (init_round l) }
    where
      go :
          (l : Logic)
          → IsSound b (seen l)
          → (o : Result ℕ)
          → IsSound b (
              seen
                (proceed
                  (o, l)
                  (λ r k. (
                    ok tt,
                    schedule_stable_state (
                        advance_stable_round
                          (calculate_stable_state_and_cumulative_digests r l.stabilizing_round k)),
                  ))).1)
      go l p (err e) = p
      go l p (ok r) =
          let k = calculate_stable_state_and_cumulative_digests r l.stabilizing_round l in
          subst (IsSound b)
            (sym (
              seen-schedule_stable_state (advance_stable_round k)
              ∙ rw (calculate_lem r l.stabilizing_round l) refl))
            (stabilized-IsSound b (seen l) k.old_state p)
