-- ===== src/Logic/Held/Entries.antt =====
-- The entries of the log (diff-state-container.hpp, and the setters of diff-state.hpp), and the
-- methods of logic.cpp that write them: updateDiffLog, checkRoundDigests and setStableState.
use round_sync.Base.{
  ℕ, ◌<◌, ◌≡◌, refl, sym, subst, Option, some, Option-cases, List, [], ◌∷◌, arith, inl, inr,
  Bool-cases, ◌==◌, ltb, u64_mod,
}
use round_sync.Ndn.{Ndn}
use round_sync.State.{State}
use round_sync.State.Known.{Numbers, IsKept, empty-IsKept, update-IsKept}
use round_sync.DiffState.{
  DiffState, empty_diff_state, update_diff, set_cumulative_digest, update_round_digest, set_round,
  append_exclude, set_cumulative_info, set_sync_event,
}
use round_sync.Log
use round_sync.Log.{IsOrdered, insert-IsOrdered, put-IsOrdered}
use round_sync.Logic.{Logic, millis, default_round_digest_delay, data_interest, sync_interest}
use round_sync.Logic.Calls.{schedule, cancel}
use round_sync.Logic.Rounds.{Commit, write, update_diff_log, digests_differ}
use round_sync.Logic.Process.Seen.{contents_of}
use round_sync.Logic.Held.{Trees, trees, IsHeld, EntryKept, CommitKept, AllEntries}
use round_sync.Logic.Held.Same.{trees-cancel}

module _ ⦃ndn : Ndn⦄ (k : Numbers) where
  open ndn use {Name, Component}
  open k use {Known}

  pub empty-EntryKept : EntryKept k empty_diff_state
  empty-EntryKept = record { kept = empty-IsKept k; round_fits = omega arith }

  pub update_diff-EntryKept :
      (d : DiffState) (n : Name) (q : ℕ)
      → EntryKept k d
      → Known n q
      → EntryKept k (update_diff d n q)
  unfolding update_diff
  update_diff-EntryKept d n q p h = record {
    kept = update-IsKept k d.state n q p.kept h;
    round_fits = p.round_fits;
  }

  pub update_diff-CommitKept :
      (r : ℕ) (c : Commit) (n : Name) (q : ℕ)
      → CommitKept k r c
      → Known n q
      → CommitKept k r (record c { diff = update_diff c.diff n q })
  update_diff-CommitKept r c n q p h = record {
    entry = update_diff-EntryKept c.diff n q p.entry h;
    place = unfold update_diff in p.place;
  }

  pub round-update_diff_log :
      (c : Commit) (r : ℕ) (l : Logic) → (update_diff_log c r l).0.diff.round ≡ r
  unfolding update_diff_log update_round_digest set_round
  round-update_diff_log c r l = elim (Option-cases (Log.find r l.log)) [
    | inl e ↦ rw (e, update_diff_log) refl
    | inr (x, e) ↦ rw (e, update_diff_log) refl
  ]

  -- The setters leave the tree and the round of the cumulative information as they are.
  pub settled :
      (d : DiffState) (r : ℕ) → EntryKept k d → EntryKept k (update_round_digest (set_round r d))
  unfolding update_round_digest set_round
  settled d r p = record { kept = p.kept; round_fits = p.round_fits }

  pub excluding : (d : DiffState) (c : Component) → EntryKept k d → EntryKept k (append_exclude c d)
  unfolding append_exclude
  excluding d c p = record { kept = p.kept; round_fits = p.round_fits }

  pub awaiting : (d : DiffState) (e : Option ℕ) → EntryKept k d → EntryKept k (set_sync_event e d)
  unfolding set_sync_event
  awaiting d e p = record { kept = p.kept; round_fits = p.round_fits }

  pub stabilized :
      (d : DiffState) (digest : List ℕ)
      → EntryKept k d
      → EntryKept k (set_cumulative_digest digest d)
  unfolding set_cumulative_digest
  stabilized d digest p = record { kept = p.kept; round_fits = p.round_fits }

  pub informed :
      (d : DiffState) (r : ℕ) (digest : Option (List ℕ))
      → EntryKept k d
      → r < u64_mod
      → EntryKept k (set_cumulative_info (some (r, digest)) d)
  unfolding set_cumulative_info
  informed d r digest p h = record { kept = p.kept; round_fits = h }

  pub find-EntryKept :
      (r : ℕ) (ds : List DiffState) (d : DiffState)
      → AllEntries k ds
      → Log.find r ds ≡ some d
      → EntryKept k d
  unfolding Log.find
  find-EntryKept r [] d p h = absurd (cc h)
  find-EntryKept r (e ∷ ds) d p h = elim (Bool-cases (e.round == r)) [
    | inl same ↦ let x : e ≡ d = cc (rw same at h) in subst (EntryKept k) x (p.0)
    | inr other ↦ find-EntryKept r ds d (p.1) (rw other at h)
  ]

  insert-AllEntries :
      (c : DiffState) (ds : List DiffState)
      → EntryKept k c
      → AllEntries k ds
      → AllEntries k (Log.insert c ds)
  unfolding Log.insert
  insert-AllEntries c [] h p = (h, tt)
  insert-AllEntries c (d ∷ ds) h p = elim (Bool-cases (ltb c.round d.round)) [
    | inl e ↦ rw e (h, p)
    | inr e ↦ elim (Bool-cases (c.round == d.round)) [
      | inl f ↦ rw (e, f) p
      | inr f ↦ rw (e, f) (p.0, insert-AllEntries c ds h (p.1))
    ]
  ]

  pub put-AllEntries :
      (r : ℕ) (c : DiffState) (ds : List DiffState)
      → EntryKept k c
      → AllEntries k ds
      → AllEntries k (Log.put r c ds)
  unfolding Log.put
  put-AllEntries r c [] h p = tt
  put-AllEntries r c (d ∷ ds) h p = elim (Bool-cases (d.round == r)) [
    | inl e ↦ rw e (h, p.1)
    | inr e ↦ rw e (p.0, put-AllEntries r c ds h (p.1))
  ]

  module _ (me : Name) where
    -- Another log, or another old state.
    pub with_log :
        (t : Trees) (ds : List DiffState) (old : State)
        → IsHeld k me t
        → AllEntries k ds
        → IsOrdered ds
        → IsKept k old.leaves
        → IsHeld k me (record t { log = ds; old_state = old })
    with_log t ds old p h o w = record {
      session = p.session;
      state = p.state;
      old_state = w;
      log = h;
      ordered = o;
      contents = p.contents;
    }

    pub write-IsHeld :
        (r : ℕ) (c : Commit) (l : Logic)
        → IsHeld k me (trees l)
        → CommitKept k r c
        → IsHeld k me (trees (write r c l))
    unfolding write
    write-IsHeld r c l p h = elim (Bool-cases c.shared) [
      | inl e ↦ rw e (
          with_log (trees l) (Log.put r c.diff l.log) l.old_state p
            (put-AllEntries r c.diff l.log h.entry p.log)
            (put-IsOrdered r c.diff l.log (h.place e) p.ordered) p.old_state)
      | inr e ↦ rw e p
    ]

    pub update_diff_log-IsHeld :
        (c : Commit) (r : ℕ) (l : Logic)
        → IsHeld k me (trees l)
        → EntryKept k c.diff
        → CommitKept k r (update_diff_log c r l).0 × IsHeld k me (trees (update_diff_log c r l).1)
    unfolding update_diff_log
    update_diff_log-IsHeld c r l p h =
        let d = update_round_digest (set_round r c.diff) in
        let s = settled c.diff r h in
        let at_round : d.round ≡ r = (unfold update_round_digest set_round in refl) in
        elim (Option-cases (Log.find r l.log)) [
          | inl e ↦
              rw (e, update_diff_log)
                (
                  record { entry = s; place = λ _. at_round },
                  with_log (trees l) (Log.insert d l.log) l.old_state p
                      (insert-AllEntries d l.log s p.log) (insert-IsOrdered d l.log p.ordered)
                      p.old_state,
                )
          | inr (x, e) ↦
              rw (e, update_diff_log)
                (
                  record { entry = s; place = λ _. at_round },
                  write-IsHeld r (record c { diff = d }) l p
                      (record { entry = s; place = λ _. at_round }),
                )
        ]

    pub digests_differ-IsHeld :
        (r : ℕ) (d : DiffState) (l : Logic)
        → IsHeld k me (trees l)
        → EntryKept k d
        → d.round ≡ r
        → IsHeld k me (trees (digests_differ r d l))
    unfolding digests_differ schedule contents_of
    digests_differ-IsHeld r d l p h at_round =
        let l' = schedule (millis 0) (data_interest r 1) l in
        let m =
          cancel d.sync_event (schedule (millis default_round_digest_delay) (sync_interest r) l') in
        let same : trees m ≡ trees l = trees-cancel d.sync_event _ in
        let q : IsHeld k me (trees m) = subst (IsHeld k me) (sym same) p in
        let e = set_sync_event (some l'.next_id) d in
        with_log (trees m) (Log.put r e l.log) m.old_state q
          (put-AllEntries r e l.log (awaiting d (some l'.next_id) h) p.log)
          (put-IsOrdered r e l.log (unfold set_sync_event in at_round) p.ordered) q.old_state
