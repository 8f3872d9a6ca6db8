-- ===== src/Logic/Held/Receive.antt =====
-- processData and processRecoData (logic.cpp), whole: every branch keeps what a node holds, for
-- packets whose trees have numbers that may be known.
use round_sync.Base.{
  ℕ, ◌≡◌, sym, subst, ◌∙◌, Option, none, some, Option-cases, List, inl, inr, Bool-cases, leb,
  logic_error_pointer, undefined,
}
use round_sync.Ndn.{Ndn, Block}
use round_sync.Leaf.{Leaf}
use round_sync.Tlv.{recovery_data}
use round_sync.State.{State, plus, reset}
use round_sync.State.Known.{Numbers, IsKept, empty-IsKept, plus-IsKept, merge-IsKept}
use round_sync.DiffState.{DiffState, append_exclude}
use round_sync.DataContent.{default_content, wire_decode_content}
use round_sync.RecoData.{RecoData, make_reco, wire_decode_reco}
use round_sync.Log
use round_sync.Log.{find_round}
use round_sync.Logic.{Logic}
use round_sync.Logic.Exec.{
  pure, modify, ◌>>◌, ◌>>=◌, lift, catch_state_error, component_at, number_at,
}
use round_sync.Logic.Rounds.{Commit, write}
use round_sync.Logic.Recovery.{erase}
use round_sync.Logic.Process.{
  has_type, absorb_state, absorb_content, note_cumulative_only, check_content, leave_round,
  record_commit, receive, commit_for, reset_timeouts, process_data, adopt_round, fish_back,
  restart_stabilization, absorb_recovery, recover, process_reco_data,
}
use round_sync.Logic.Held.{
  trees, IsHeld, CommitKept, ContentKept, RecoKept, Keeps, Any, Keeps-bind, Keeps-lift,
  Keeps-modify, Keeps-pure, Keeps-raise, Keeps-if, Keeps-Any, Keeps-catch,
}
use round_sync.Logic.Held.Same.{
  trees-cancel, trees-leave_round, trees-call_back, trees-reset_timeouts, trees-adopt_round,
  trees-fish_back, trees-schedule_stable_state,
}
use round_sync.Logic.Held.Entries.{excluding, find-EntryKept, empty-EntryKept, write-IsHeld}
use round_sync.Logic.Reach.Parts.{absorb_state-merge}
use round_sync.Logic.Held.Handlers.{
  with_state, absorb_content-Keeps, note_cumulative_only-Keeps, trees-check_content,
  record_commit-IsHeld,
}

module _ ⦃ndn : Ndn⦄ (k : Numbers) (me : ndn.Name) where
  open ndn use {Name, prefix_back}

  abbrev Held : Logic → Type 0
  Held l = IsHeld k me (trees l)

  receive-Keeps :
      (r : ℕ) (c : Commit) (block : Option Block)
      → CommitKept k r c
      → ContentKept k block
      → Keeps Held (receive r c block) Any
  unfolding receive
  receive-Keeps r c block h w =
      Keeps-lift (wire_decode_content default_content block) _ (λ content e.
        Keeps-bind (note_cumulative_only r content c) _
          (note_cumulative_only-Keeps k me r content c h)
          (λ c' h'.
            Keeps-bind (check_content content) _
              (Keeps-Any (check_content content)
                (λ l p. subst (IsHeld k me) (sym (trees-check_content k me content l)) p))
              (λ _ _.
                Keeps-bind (absorb_content r content c') _
                  (absorb_content-Keeps k me r content c' h' (w content e))
                  (λ c'' h''.
                    Keeps-modify (λ l. record_commit r c'' (leave_round r l))
                      (λ l p.
                        record_commit-IsHeld k me r c'' (leave_round r l)
                          (subst (IsHeld k me) (sym (trees-leave_round r l)) p) h''.entry)))))

  commit_for-CommitKept : (r : ℕ) (l : Logic) → Held l → CommitKept k r (commit_for r l)
  unfolding commit_for
  commit_for-CommitKept r l p = elim (Option-cases (Log.find r l.log)) [
    | inl e ↦ rw (e, commit_for) (record { entry = empty-EntryKept k; place = λ x. absurd (cc x) })
    | inr (d, e) ↦
        rw (e, commit_for)
          (record {
            entry = find-EntryKept k r l.log d p.log e;
            place = λ _. find_round r l.log {d = d} e;
          })
  ]

  accept-Keeps :
      (name : Name) (r : ℕ) (block : Option Block) (l : Logic)
      → Held l
      → ContentKept k block
      → Keeps Held
          (lift (component_at name 1) >>= λ x.
            let c = record (commit_for r l) { diff = append_exclude x (commit_for r l).diff } in
            modify (write r c) >> catch_state_error (receive r c block))
          Any
  accept-Keeps name r block l p w = Keeps-lift (component_at name 1) _ (λ x _.
      let c : Commit = record (commit_for r l) { diff = append_exclude x (commit_for r l).diff } in
      let g = commit_for-CommitKept r l p in
      let h : CommitKept k r c = record {
        entry = excluding k (commit_for r l).diff x g.entry;
        place = unfold append_exclude in g.place;
      } in
      Keeps-bind (modify (write r c)) (λ _. catch_state_error (receive r c block))
        (Keeps-modify (write r c) (λ m q. write-IsHeld k me r c m q h))
        (λ _ _. Keeps-catch (receive r c block) (receive-Keeps r c block h w)))

  pub process_data-Keeps :
      (name : Name) (block : Option Block)
      → ContentKept k block
      → Keeps Held (process_data name block) Any
  unfolding process_data
  process_data-Keeps name block w = Keeps-lift (number_at name 2) _ (λ r _. record {
    at = λ l p.
        let l1 = reset_timeouts r l in
        let p1 = subst (IsHeld k me) (sym (trees-reset_timeouts r l)) p in
        (Keeps-if {H = Held} {R = Any} (leb r l1.stable_round) (pure tt) _ (λ _. Keeps-pure tt tt)
            (λ _. accept-Keeps name r block l1 p1 w)).at
          l1 p1;
  })

  absorb_recovery-IsHeld :
      (ls : List Leaf) (l : Logic) → Held l → IsKept k ls → Held (absorb_recovery ls l)
  unfolding absorb_recovery
  absorb_recovery-IsHeld ls l p h =
      let kept : IsKept k (absorb_state ls l.state).1.leaves =
        subst (λ (s : State). IsKept k s.leaves) (sym (absorb_state-merge ls l.state))
          (merge-IsKept k l.state ls p.state h) in
      subst (IsHeld k me)
        (sym (
          trees-call_back (absorb_state ls l.state).0
            (record l { state = (absorb_state ls l.state).1 })))
        (with_state k me (trees l) (absorb_state ls l.state).1 l.old_state p kept p.old_state)

  restart_stabilization-IsHeld : (l : Logic) → Held l → Held (restart_stabilization l)
  unfolding restart_stabilization reset
  restart_stabilization-IsHeld l p =
      let old = plus (reset l.old_state) l.state in
      let kept : IsKept k old.leaves =
        plus-IsKept k (reset l.old_state) l.state (empty-IsKept k) p.state in
      subst (IsHeld k me)
        (sym (trees-schedule_stable_state _ ∙ trees-cancel l.stabilizing_cumulative_digest _))
        (with_state k me (trees l) l.state old p p.state kept)

  recover-Keeps :
      (reco : RecoData)
      → ((d : DiffState) → reco.state ≡ some d → IsKept k d.leaves)
      → Keeps Held (recover reco) Any
  unfolding recover
  recover-Keeps reco h = elim (Bool-cases (has_type recovery_data reco.data_type)) [
    | inr e ↦ rw e (Keeps-raise logic_error_pointer)
    | inl e ↦ elim (Option-cases reco.state) [
      | inl f ↦ rw (e, f) (Keeps-raise undefined)
      | inr (d, f) ↦
          rw (e, f)
            (Keeps-modify _ (λ l p.
              restart_stabilization-IsHeld
                (fish_back (adopt_round reco.round_no (absorb_recovery d.leaves l)))
                (subst (IsHeld k me) (sym (trees-fish_back _ ∙ trees-adopt_round reco.round_no _))
                  (absorb_recovery-IsHeld d.leaves l p (h d f)))))
    ]
  ]

  pub process_reco_data-Keeps :
      (name : Name) (block : Option Block)
      → RecoKept k block
      → Keeps Held (process_reco_data name block) Any
  unfolding process_reco_data
  process_reco_data-Keeps name block w = record {
    at = λ l p.
        (Keeps-catch (lift (wire_decode_reco (make_reco 0 none) block) >>= recover) (
            Keeps-lift {H = Held} {Q = Any} (wire_decode_reco (make_reco 0 none) block) recover
              (λ reco e. recover-Keeps reco (w reco e)))).at
          (record l {
            pending_recovery_prefixes = erase (prefix_back name 2) l.pending_recovery_prefixes;
          })
          p;
  }
