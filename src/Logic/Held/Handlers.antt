-- ===== src/Logic/Held/Handlers.antt =====
-- processData and processRecoData (logic.cpp) keep what a node holds, for packets whose trees have
-- numbers that may be known.
use round_sync.Base.{
  ℕ, ◌≡◌, sym, subst, ◌∙◌, some, Option-cases, List, [], ◌∷◌, arith, inl, inr, Bool-cases, ◌==◌,
  ◌&&◌, ◌||◌, leb, undefined,
}
use round_sync.Ndn.{Ndn}
use round_sync.Leaf.{Leaf}
use round_sync.Tlv.{data_only, cumulative_only, data_and_cumulative}
use round_sync.State.{State, update}
use round_sync.State.Known.{Numbers, IsKept, AllKnown, Within-AllKnown, update-IsKept}
use round_sync.DiffState.{DiffState, update_diff, set_sync_event}
use round_sync.DataContent.{DataContent}
use round_sync.Logic.{
  Logic, millis, sync_interest, default_round_digest_delay, cumulative_only_data,
}
use round_sync.Logic.Calls.{schedule, cancel}
use round_sync.Logic.Rounds.{Commit, write, update_diff_log}
use round_sync.Logic.Process.{
  has_type, absorb_old, absorb, absorb_leaves, absorb_content, note_cumulative_only, check_content,
  delay_stabilization, schedule_round_digest, record_commit,
}
use round_sync.Logic.Process.Seen.{contents_of}
use round_sync.Logic.Held.{
  Trees, trees, IsHeld, EntryKept, CommitKept, Keeps, Keeps-pure, Keeps-raise,
}
use round_sync.Logic.Held.Same.{
  trees-cancel, trees-delay_stabilization, trees-call_back, trees-check_recovery,
}
use round_sync.Logic.Held.Entries.{
  awaiting, update_diff-CommitKept, write-IsHeld, update_diff_log-IsHeld,
}

module _ ⦃ndn : Ndn⦄ (k : Numbers) (me : ndn.Name) where
  open ndn use {Name, prefix_back}
  open k use {Known, zero_known}

  -- Another state, or another old state.
  pub with_state :
      (t : Trees) (s old : State)
      → IsHeld k me t
      → IsKept k s.leaves
      → IsKept k old.leaves
      → IsHeld k me (record t { state = s; old_state = old })
  with_state t s old p h w = record {
    session = p.session;
    state = h;
    old_state = w;
    log = p.log;
    ordered = p.ordered;
    contents = p.contents;
  }

  absorb_old-IsHeld :
      (r : ℕ) (leaf : Leaf) (l : Logic)
      → IsHeld k me (trees l)
      → Known leaf.session_name leaf.seq
      → IsHeld k me (trees (absorb_old r leaf l))
  unfolding absorb_old
  absorb_old-IsHeld r leaf l p h =
      elim (Bool-cases (leb r l.last_recovery_round && l.stable_round == 0)) [
        | inl e ↦ rw e (
            with_state (trees l) l.state _ p p.state
              (update-IsKept k l.old_state leaf.session_name leaf.seq p.old_state h))
        | inr e ↦ rw e p
      ]

  absorb-IsHeld :
      (r : ℕ) (ls : List Leaf) (c : Commit) (l : Logic)
      → IsHeld k me (trees l)
      → CommitKept k r c
      → AllKnown k ls
      → CommitKept k r (absorb r ls c l).1 × IsHeld k me (trees (absorb r ls c l).2)
  unfolding absorb
  absorb-IsHeld r [] c l p h w = (h, p)
  absorb-IsHeld r (leaf ∷ ls) c l p h w =
      let l1 = absorb_old r leaf l in
      let p1 = absorb_old-IsHeld r leaf l p (w.0) in
      let s = (update l1.state leaf.session_name leaf.seq).0 in
      let q =
        with_state (trees l1) s l1.old_state p1
          (update-IsKept k l1.state leaf.session_name leaf.seq p1.state (w.0)) p1.old_state in
      let c' : Commit = record c { diff = update_diff c.diff leaf.session_name leaf.seq } in
      let h' = update_diff-CommitKept k r c leaf.session_name leaf.seq h (w.0) in
      absorb-IsHeld r ls c' (write r c' (record l1 { state = s }))
        (write-IsHeld k me r c' (record l1 { state = s }) q h') h' (w.1)

  absorb_leaves-Keeps :
      (r : ℕ) (ls : List Leaf) (c : Commit)
      → CommitKept k r c
      → AllKnown k ls
      → Keeps (λ l. IsHeld k me (trees l)) (absorb_leaves r ls c) (λ c'. CommitKept k r c')
  unfolding absorb_leaves
  absorb_leaves-Keeps r ls c h w = record {
    at = λ l p.
        let (q, m) = absorb-IsHeld r ls c l p h w in
        (q, subst (IsHeld k me) (sym (trees-call_back (absorb r ls c l).0 (absorb r ls c l).2)) m);
  }

  pub absorb_content-Keeps :
      (r : ℕ) (content : DataContent) (c : Commit)
      → CommitKept k r c
      → ((d : DiffState) → content.state ≡ some d → IsKept k d.leaves)
      → Keeps (λ l. IsHeld k me (trees l)) (absorb_content r content c) (λ c'. CommitKept k r c')
  unfolding absorb_content
  absorb_content-Keeps r content c h w =
      elim (Bool-cases
        (has_type data_only content.data_type || has_type data_and_cumulative content.data_type)) [
          | inr e ↦ rw e (Keeps-pure c h)
          | inl e ↦ elim (Option-cases content.state) [
            | inl f ↦ rw (e, f) (Keeps-raise undefined)
            | inr (d, f) ↦
                rw (e, f)
                  (let q = w d f in
                    absorb_leaves-Keeps r d.leaves c h
                      (Within-AllKnown k d.leaves q.valid.sorted q.within))
          ]
        ]

  pub note_cumulative_only-Keeps :
      (r : ℕ) (content : DataContent) (c : Commit)
      → CommitKept k r c
      → Keeps
          (λ l. IsHeld k me (trees l))
          (note_cumulative_only r content c)
          (λ c'. CommitKept k r c')
  unfolding note_cumulative_only
  note_cumulative_only-Keeps r content c h = record {
    at = λ l p.
        let c' : Commit = record c {
          diff = update_diff c.diff content.user_prefix cumulative_only_data;
        } in
        let h' =
          update_diff-CommitKept k r c content.user_prefix 0 h (zero_known content.user_prefix) in
        elim (Bool-cases (has_type cumulative_only content.data_type)) [
          | inl e ↦ rw e (h', write-IsHeld k me r c' l p h')
          | inr e ↦ rw e (h, p)
        ];
  }

  pub trees-check_content :
      (content : DataContent) (l : Logic) → trees (check_content content l).1 ≡ trees l
  unfolding check_content
  trees-check_content content l =
      ground (
        arith,
        trees-check_recovery content.user_prefix content.round_no content.cumulative_digest l,
      )

  pub record_commit-IsHeld :
      (r : ℕ) (c : Commit) (l : Logic)
      → IsHeld k me (trees l)
      → EntryKept k c.diff
      → IsHeld k me (trees (record_commit r c l))
  unfolding record_commit schedule_round_digest schedule contents_of
  record_commit-IsHeld r c l p h =
      let u = update_diff_log c r l in
      let (h', p') = update_diff_log-IsHeld k me c r l p h in
      let m = delay_stabilization r u.1 in
      let n = schedule (millis default_round_digest_delay) (sync_interest r) m in
      let same : trees (cancel u.0.diff.sync_event n) ≡ trees u.1 =
        trees-cancel u.0.diff.sync_event n ∙ trees-delay_stabilization r u.1 in
      write-IsHeld k me r _ (cancel u.0.diff.sync_event n) (subst (IsHeld k me) (sym same) p')
        (record {
          entry = awaiting k u.0.diff (some m.next_id) h'.entry;
          place = unfold set_sync_event in h'.place;
        })
