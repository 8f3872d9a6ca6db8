-- ===== src/Logic/Publish/Own.antt =====
-- logic.cpp: what updateSeqNo does to the state, the log and the rounds, and the move that the sync
-- interest of a node that is ahead brings about.
use round_sync.Base.{
  ℕ, ◌+◌, ◌≤◌, ◌<◌, ◌≡◌, refl, ap, ◌∙◌, inl, inr, true, false, ◌||◌, Option, none, some,
  Option-cases, List, [], ◌∷◌, arith, if◌then◌else◌, ◌==◌, ltb, leb, add64, u64_mod, ok,
}
use round_sync.Ndn.{Ndn}
use round_sync.Leaf.{make_leaf}
use round_sync.State.{State, find, insert, get_digest, update, update_found}
use round_sync.State.Lookup.{seq_in, join, find-none, find_seq, seq_in-update}
use round_sync.DiffState.{
  DiffState, update_diff, set_round, update_round_digest, set_cumulative_info,
}
use round_sync.Log
use round_sync.Log.{find-insert}
use round_sync.Logic.{Logic, millis, sync_interest}
use round_sync.Logic.Calls.{schedule}
use round_sync.Logic.Rounds.{Commit, write, update_diff_log, move_to_new_current_round}
use round_sync.Logic.Rounds.Move.{kept, kept-move_to_new_current_round}
use round_sync.Logic.Calls.{sync_interest_name}
use round_sync.Logic.Publish.{process_sync_interest}
use round_sync.Logic.Publish.Sync.{sync_interest_name-number, sync_interest_name-digest}
use round_sync.Logic.Recovery.{pending_now}
use round_sync.Logic.Publish.{
  own_commit, log_commit, publish, update_own, update_seq_no, answer_data,
}
use round_sync.Logic.Process.Absorb.{is_new}
use round_sync.Logic.Process.Seen.{Seen, seen, seen-move}

module _ ⦃ndn : Ndn⦄ where
  open ndn use {Name, name_eq}

  -- The own change of a round has one leaf.
  own_commit-leaves :
      (q : ℕ) (l : Logic) → (own_commit q l).leaves ≡ make_leaf l.session_name q ∷ []
  unfolding own_commit update_diff update update_found find insert set_cumulative_info
  own_commit-leaves q l = ground arith

  changed-update :
      (s : State) (n : Name) (q : ℕ)
      → ((update s n q).1.is_inserted || (update s n q).1.is_updated) ≡ is_new (seq_in s.leaves n) q
  unfolding update update_found
  changed-update s n q = elim (Option-cases (find n s.leaves)) [
    | inl e ↦ rw (find-none n s.leaves e) (rw (e, update) refl)
    | inr (k, e) ↦ rw (find_seq n s.leaves {l = k} e) (rw (e, update) (ground arith))
  ]

  update_own-changed :
      (q : ℕ) (l : Logic)
      → is_new (seq_in l.state.leaves l.session_name) q ≡ true
      → update_own q l
        ≡ (ok true, record l { seq_no = q; state = (update l.state l.session_name q).0 })
  unfolding update_own
  update_own-changed q l h = rw (changed-update l.state l.session_name q, h) refl

  join-new : (o : Option ℕ) (q : ℕ) → is_new o q ≡ true → join o (some q) ≡ some q
  unfolding join
  join-new none q h = refl
  join-new (some a) q h = rw h refl

  -- The log after a commit for a round.
  log_commit-new :
      (d : DiffState) (l : Logic)
      → Log.find l.current_round l.log ≡ none
      → let e = update_round_digest (set_round l.current_round d) in
        log_commit d l
        ≡ (ok (record { diff = e; shared = true }), record l { log = Log.insert e l.log })
  unfolding log_commit update_diff_log
  log_commit-new d l h = rw (h, update_diff_log) refl

  log_commit-kept :
      (d k : DiffState) (l : Logic)
      → Log.find l.current_round l.log ≡ some k
      → let e = update_round_digest (set_round l.current_round d) in
        log_commit d l ≡ (ok (record { diff = e; shared = false }), l)
  unfolding log_commit update_diff_log write
  log_commit-kept d k l h = rw (h, update_diff_log) refl

  pending_now-none : (l : Logic) → l.pending_data_interest ≡ none → pending_now l ≡ ok none
  unfolding pending_now
  pending_now-none l p = rw p refl

  -- The branch of publish without a pending interest: the commit, the sync interest, the move.
  publish-quiet :
      (q : ℕ) (l : Logic) (c : Commit) (l' : Logic)
      → log_commit (own_commit q l) l ≡ (ok c, l')
      → l'.pending_data_interest ≡ none
      → publish q l ≡ (
        ok tt,
        record (move_to_new_current_round
            (add64 l'.current_round 1)
            (schedule (millis 0) (sync_interest l'.current_round) l')) { sync_timeouts = some 0 },
      )
  unfolding publish answer_data schedule
  publish-quiet q l c l' h p = rw (h, pending_now-none l' p) refl

  -- What is in the log for the round of a publication: the own commit alone, or what was there.
  abbrev pub Committed : Name → ℕ → Option DiffState → List DiffState → List DiffState → ℕ → Type 0
  Committed session q none old new r =
      (e : DiffState) × (Log.find r new ≡ some e)
      × (e.leaves ≡ make_leaf session q ∷ [])
      × (e.round_digest ≡ some (get_digest e.state))
  Committed session q (some k) old new r = new ≡ old

  -- What publish leaves, when no interest is pending and the commit is in `l'`.
  publish-from :
      (q : ℕ) (l : Logic) (c : Commit) (l' : Logic)
      → log_commit (own_commit q l) l ≡ (ok c, l')
      → l'.pending_data_interest ≡ none
      → l'.current_round + 1 < u64_mod
      → ((publish q l).0 ≡ ok tt)
        × ((publish q l).1.current_round ≡ l'.current_round + 1)
        × (kept (publish q l).1 ≡ kept l')
  unfolding schedule
  publish-from q l c l' h p b =
      let m = schedule (millis 0) (sync_interest l'.current_round) l' in
      let moved : (move_to_new_current_round (add64 l'.current_round 1) m).current_round
          ≡ l'.current_round + 1 =
        ap (λ (s : Seen). s.current_round) (seen-move (add64 l'.current_round 1) m) ∙ omega arith in
      rw (publish-quiet q l c l' h p)
        (refl, moved, kept-move_to_new_current_round (add64 l'.current_round 1) m)

  own_entry :
      (r : ℕ) (q : ℕ) (l : Logic) (ds : List DiffState)
      → Log.find r ds ≡ none
      → Committed l.session_name q none ds
          (Log.insert (update_round_digest (set_round r (own_commit q l))) ds)
          r
  unfolding update_round_digest set_round
  own_entry r q l ds f = (
    update_round_digest (set_round r (own_commit q l)),
    find-insert r (update_round_digest (set_round r (own_commit q l))) ds f ∙ ground arith,
    own_commit-leaves q l,
    refl,
  )

  -- What publish leaves, when no interest is pending.
  publish_lem :
      (q : ℕ) (l : Logic)
      → l.pending_data_interest ≡ none
      → l.current_round + 1 < u64_mod
      → ((publish q l).0 ≡ ok tt)
        × ((publish q l).1.current_round ≡ l.current_round + 1)
        × ((publish q l).1.seq_no ≡ l.seq_no)
        × ((publish q l).1.state ≡ l.state)
        × Committed l.session_name q
            (Log.find l.current_round l.log)
            l.log
            (publish q l).1.log
            l.current_round
  publish_lem q l p b = elim (Option-cases (Log.find l.current_round l.log)) [
    | inl f ↦
        let e = update_round_digest (set_round l.current_round (own_commit q l)) in
        let (returned, moved, same) =
          publish-from q l (record { diff = e; shared = true })
            (record l { log = Log.insert e l.log }) (log_commit-new (own_commit q l) l f) p b in
        (
          returned,
          moved,
          ap (λ x. x.0) same,
          ap (λ x. x.1) same,
          rw (f, ap (λ x. x.3) same) (own_entry l.current_round q l l.log f),
        )
    | inr (k, f) ↦
        let e = update_round_digest (set_round l.current_round (own_commit q l)) in
        let (returned, moved, same) =
          publish-from q l (record { diff = e; shared = false }) l
            (log_commit-kept (own_commit q l) k l f) p b in
        (returned, moved, ap (λ x. x.0) same, ap (λ x. x.1) same, rw f (ap (λ x. x.3) same))
  ]

  -- A positive sequence number that is not less than the last and is new to the tree, with no
  -- interest pending and a next round within 64 bits: updateSeqNo returns, the node's session has
  -- that number and the others what they had, and the next round is the current one. A log without
  -- an entry for the round gets one with the own change alone and its digest; a log with an entry
  -- for it is left as it was, without the change.
  pub update_seq_no-publishes :
      (q : ℕ) (prefix : Name) (l : Logic)
      → l.seq_no ≤ q
      → 0 < q
      → is_new (seq_in l.state.leaves l.session_name) q ≡ true
      → l.pending_data_interest ≡ none
      → l.current_round + 1 < u64_mod
      → let (result, l') = update_seq_no q prefix l in
        (result ≡ ok tt)
        × (l'.seq_no ≡ q)
        × ((n : Name)
            → seq_in l'.state.leaves n
              ≡ (if name_eq l.session_name n then some q else seq_in l.state.leaves n))
        × (l'.current_round ≡ l.current_round + 1)
        × Committed l.session_name q (Log.find l.current_round l.log) l.log l'.log l.current_round
  unfolding update_seq_no
  update_seq_no-publishes q prefix l h z new p b =
      let skip : (ltb q l.seq_no || q == 0) ≡ false = ground (arith, h, z) in
      let s = (update l.state l.session_name q).0 in
      let (returned, moved, seq, state, logged) =
        publish_lem q (record l { seq_no = q; state = s }) p b in
      rw (skip, update_own-changed q l new)
        (
          returned,
          seq,
          (λ n.
              ap (λ (t : State). seq_in t.leaves n) state
              ∙ seq_in-update l.state l.session_name n q
              ∙ rw (join-new (seq_in l.state.leaves l.session_name) q new) refl),
          moved,
          logged,
        )

  -- The sync interest of another node for a 64-bit round that is not before the current one moves
  -- the node to the round after it, with the same trees and other rounds. The last round of 64 bits
  -- is followed by round 0.
  pub process_sync_interest-moves :
      (a b : Logic) (r : ℕ) (digest : List ℕ)
      → r < u64_mod
      → b.current_round ≤ r
      → ((process_sync_interest (sync_interest_name a r digest) b).0 ≡ ok tt)
        × (seen (process_sync_interest (sync_interest_name a r digest) b).1
            ≡ record (seen b) { current_round = if r + 1 == u64_mod then 0 else r + 1 })
  unfolding process_sync_interest
  process_sync_interest-moves a b r digest h c =
      let ahead : leb b.current_round r ≡ true = ground (arith, c) in
      let next : add64 r 1 ≡ (if r + 1 == u64_mod then 0 else r + 1) = ground arith in
      rw (sync_interest_name-number a r digest h, sync_interest_name-digest a r digest, ahead)
        (refl, seen-move (add64 r 1) b ∙ ap (λ (k : ℕ). record (seen b) { current_round = k }) next)
