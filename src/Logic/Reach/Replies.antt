-- ===== src/Logic/Reach/Replies.antt =====
-- logic.cpp: publishing a sequence number and the replies to interests keep the rounds in order and
-- lose no sequence number, whether they return or throw.
use round_sync.Base.{
  ℕ, ◌+◌, ◌≤◌, ◌<◌, ◌≡◌, sym, subst, inl, inr, false, Bool-cases, some, List, [], ◌∷◌, arith,
  if◌then◌else◌, ◌==◌, ◌||◌, ltb, leb, add64, u64_mod, ok,
}
use round_sync.Ndn.{Ndn}
use round_sync.Leaf.{make_leaf}
use round_sync.State.{merge}
use round_sync.DiffState.{empty_diff_state, update_diff, set_cumulative_info}
use round_sync.Log
use round_sync.Logic.{Logic, cumulative_only_data, millis, sync_interest}
use round_sync.Logic.Exec.{
  Action, proceed, lift, ◌>>=◌, ◌>>◌, pure, modify, component_at, number_at,
}
use round_sync.Logic.Calls.{schedule}
use round_sync.Logic.Rounds.{
  Commit, update_diff_log, move_to_new_current_round, check_round_digests,
}
use round_sync.Logic.Recovery.{
  pending_now, answer_cumulative_only, store_cumulative_only, produce_cumulative_only,
}
use round_sync.Logic.Publish.{
  own_commit, answer_data, log_commit, publish, update_own, update_seq_no, process_data_interest,
  process_sync_interest,
}
use round_sync.Logic.Process.Seen.{seen, updates_of, seen-update_diff_log}
use round_sync.Logic.Reach.{
  ready, Before, IsSound, IsReady, Ensures, Ensures-bind, Ensures-lift, Ensures-pure, Ensures-get,
  Ensures-if, Ensures-same,
}
use round_sync.Logic.Reach.Sends.{seen-check_round_digests}
use round_sync.Logic.Reach.Parts.{merged-IsSound, move-IsSound}
use round_sync.Logic.Reach.Answers.{
  seen-answer_data, seen-answer_earlier, seen-log_commit, seen-answer_cumulative_only,
}

module _ ⦃ndn : Ndn⦄ (b : Before) where
  open ndn use {Name, component_value}

  -- The move to the next round.
  step-IsSound :
      (l : Logic)
      → IsReady b (seen l)
      → IsSound b (seen (move_to_new_current_round (add64 l.current_round 1) l))
  step-IsSound l (p, w) =
      let up : l.current_round ≤ add64 l.current_round 1 = ground arith in
      let in_range : add64 l.current_round 1 < u64_mod = ground arith in
      move-IsSound b (add64 l.current_round 1) l p up in_range

  -- The sync interest and the move that end a publication.
  abbrev finish_publish : Action (Unit {0})
  finish_publish m =
      let k = schedule (millis 0) (sync_interest m.current_round) m in
      (
        ok tt,
        record (move_to_new_current_round (add64 k.current_round 1) k) { sync_timeouts = some 0 },
      )

  abbrev reply_publish : Commit → Action (Unit {0})
  reply_publish c k =
      proceed (pending_now k, k)
        (λ name. answer_data k.default_user_prefix c name >>= λ _. finish_publish)

  finish_publish-Ensures : Ensures (IsReady b) finish_publish (IsSound b)
  unfolding schedule updates_of
  finish_publish-Ensures = record {
    at = λ m. step-IsSound (schedule (millis 0) (sync_interest m.current_round) m);
  }

  reply_publish-Ensures : (c : Commit) → Ensures (IsReady b) (reply_publish c) (IsSound b)
  reply_publish-Ensures c =
      Ensures-get
        (λ k. lift (pending_now k) >>= λ name.
          answer_data k.default_user_prefix c name >>= λ _. finish_publish)
        λ k p.
          (Ensures-lift {P = IsReady b} {Q = IsSound b} (pending_now k)
              (λ name. answer_data k.default_user_prefix c name >>= λ _. finish_publish)
              (λ name _.
                Ensures-bind (answer_data k.default_user_prefix c name) (λ _. finish_publish)
                  (Ensures-same _ (seen-answer_data k.default_user_prefix c name))
                  (λ _. finish_publish-Ensures) ready)
              ready).at
            k p

  publish-Ensures : (q : ℕ) → Ensures (IsReady b) (publish q) (IsSound b)
  unfolding publish
  publish-Ensures q = record {
    at = λ l p.
        (Ensures-bind {P = IsReady b} {R = IsReady b} {Q = IsSound b} (log_commit (own_commit q l))
            reply_publish
            (Ensures-same (log_commit (own_commit q l)) (seen-log_commit (own_commit q l)))
            reply_publish-Ensures ready).at
          l p;
  }

  update_own-Ensures : (q : ℕ) → Ensures (IsReady b) (update_own q) (IsReady b)
  unfolding update_own merge make_leaf
  update_own-Ensures q = record {
    at = λ l (p, w). (
      merged-IsSound b (seen l) (make_leaf l.session_name q ∷ []) l.old_state (updates_of l.effects)
          p,
      w,
    );
  }

  -- Every branch of updateSeqNo, in a node whose current round has a next one.
  pub update_seq_no-Ensures :
      (q : ℕ) (prefix : Name) → Ensures (IsReady b) (update_seq_no q prefix) (IsSound b)
  unfolding update_seq_no
  update_seq_no-Ensures q prefix = record {
    at = λ l p. elim (Bool-cases (ltb q l.seq_no || q == 0)) [
      | inl skip ↦ rw skip (p.0)
      | inr new ↦ rw new (
          (Ensures-bind {P = IsReady b} {R = IsReady b} {Q = IsSound b} (update_own q) _
              (update_own-Ensures q)
              (λ changed.
                Ensures-if changed (publish q) (pure tt) (λ _. publish-Ensures q)
                  (λ _. Ensures-pure tt ready))
              ready).at
            l p)
    ];
  }

  -- Every branch of processDataInterest, for a round of 64 bits.
  pub process_data_interest-Ensures :
      (name : Name)
      → ((r : ℕ) → number_at name 1 ≡ ok r → r < u64_mod)
      → Ensures (IsReady b) (process_data_interest name) (IsSound b)
  unfolding process_data_interest
  process_data_interest-Ensures name h =
      Ensures-lift (number_at name 1) _
        (λ r e. record {
          at = λ l p.
              let noted =
                if leb l.current_round r
                then record l { pending_data_interest = some name }
                else l in
              let same : seen noted ≡ seen l = ground arith in
              let q : IsReady b (seen noted) = subst (IsReady b) (sym same) p in
              elim (Bool-cases (ltb noted.current_round r)) [
                | inl ahead ↦ rw ahead (
                    let up : noted.current_round ≤ r = ground arith in
                    move-IsSound b r noted (q.0) up (h r e))
                | inr near ↦ elim (Bool-cases (ltb r noted.current_round)) [
                  | inl earlier ↦
                      rw (near, earlier)
                        (subst (IsSound b)
                          (sym (seen-answer_earlier name (Log.find r noted.log) noted)) (q.0))
                  | inr here ↦ rw (near, here) (q.0)
                ]
              ];
        })
        ready

  -- Every branch of processSyncInterest, for a round that has a next one.
  pub process_sync_interest-Ensures :
      (name : Name)
      → ((r : ℕ) → number_at name 2 ≡ ok r → r + 1 < u64_mod)
      → Ensures (IsReady b) (process_sync_interest name) (IsSound b)
  unfolding process_sync_interest
  process_sync_interest-Ensures name h =
      Ensures-lift (number_at name 2) _
        (λ r e.
          Ensures-lift (component_at name 1) _
            (λ digest _. record {
              at = λ l p. elim (Bool-cases (leb l.current_round r)) [
                | inl ahead ↦ rw ahead (
                    let n : r + 1 < u64_mod = h r e in
                    let up : l.current_round ≤ add64 r 1 = ground arith in
                    let in_range : add64 r 1 < u64_mod = ground arith in
                    move-IsSound b (add64 r 1) l (p.0) up in_range)
                | inr near ↦ elim (Bool-cases (leb r l.last_recovery_round)) [
                  | inl old ↦ rw (near, old) (p.0)
                  | inr new ↦
                      rw (near, new)
                        ((Ensures-bind {P = IsReady b} {R = IsReady b} {Q = IsSound b}
                            (check_round_digests r (component_value digest)) (λ _. pure tt)
                            (Ensures-same _ (seen-check_round_digests r (component_value digest)))
                            (λ _. Ensures-pure tt ready) ready).at
                          l p)
                ]
              ];
            })
            ready)
        ready

  store-Ensures :
      (r : ℕ) (digest : List ℕ)
      → Ensures (IsReady b) (modify (store_cumulative_only r digest)) (IsSound b)
  unfolding store_cumulative_only
  store-Ensures r digest = record {
    at = λ l p.
        let d =
          set_cumulative_info (some (r, some digest))
            (update_diff empty_diff_state l.session_name cumulative_only_data) in
        let c : Commit = record { diff = d; shared = false } in
        step-IsSound (update_diff_log c l.current_round l).1
          (subst (IsReady b) (sym (seen-update_diff_log c l.current_round l)) p);
  }

  -- Every branch of produceCumulativeOnly, in a node whose current round has a next one.
  pub produce_cumulative_only-Ensures :
      (r : ℕ) (digest : List ℕ) → Ensures (IsReady b) (produce_cumulative_only r digest) (IsSound b)
  unfolding produce_cumulative_only
  produce_cumulative_only-Ensures r digest = record {
    at = λ l p.
        (Ensures-lift {P = IsReady b} {Q = IsSound b} (pending_now l)
            (λ name.
              answer_cumulative_only r digest name >> modify (store_cumulative_only r digest))
            (λ name _.
              Ensures-bind (answer_cumulative_only r digest name)
                (λ _. modify (store_cumulative_only r digest))
                (Ensures-same _ (seen-answer_cumulative_only r digest name))
                (λ _. store-Ensures r digest) ready)
            ready).at
          l p;
  }
