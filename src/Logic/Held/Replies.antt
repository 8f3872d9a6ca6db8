-- ===== src/Logic/Held/Replies.antt =====
-- updateSeqNo, produceCumulativeOnly and the replies to interests (logic.cpp) keep what a node holds.
use round_sync.Base.{
  ap, Option, ℕ, ◌<◌, ◌≡◌, sym, subst, some, Option-cases, List, arith, inl, inr, false, Bool-cases,
  if◌then◌else◌, ◌==◌, ◌||◌, ltb, leb, add64, u64_mod, Result, ok, err,
}
use round_sync.Ndn.{Ndn}
use round_sync.State.{update}
use round_sync.State.Known.{Numbers, update-IsKept}
use round_sync.DiffState.{empty_diff_state, update_diff, set_cumulative_info}
use round_sync.Log
use round_sync.Logic.{Logic, millis, sync_interest, cumulative_only_data}
use round_sync.Logic.Exec.{Action, proceed, pure, modify, ◌>>◌, ◌>>=◌, component_at, number_at}
use round_sync.Logic.Calls.{schedule}
use round_sync.Logic.Rounds.{
  Commit, update_diff_log, move_to_new_current_round, check_round_digests,
}
use round_sync.Logic.Recovery.{
  pending_now, answer_cumulative_only, store_cumulative_only, produce_cumulative_only,
}
use round_sync.Logic.Publish.{
  own_commit, answer_data, log_commit, publish, update_own, update_seq_no, answer_earlier,
  process_data_interest, process_sync_interest,
}
use round_sync.Logic.Process.Seen.{Seen, seen-update_diff_log, contents_of}
use round_sync.Logic.Held.{
  trees, IsHeld, EntryKept, CommitKept, Keeps, Any, Outcome, Keeps-bind, Keeps-lift, Keeps-modify,
  Keeps-pure, Keeps-if,
}
use round_sync.Logic.Held.Same.{trees-move}
use round_sync.Logic.Held.Entries.{
  empty-EntryKept, informed, find-EntryKept, update_diff-EntryKept, update_diff_log-IsHeld,
}
use round_sync.Logic.Held.Handlers.{with_state}
use round_sync.Logic.Held.Stable.{check_round_digests-Keeps}
use round_sync.Logic.Held.Answers.{
  answer_data-IsHeld, answer_earlier-Keeps, answer_cumulative_only-Keeps,
}

module _ ⦃ndn : Ndn⦄ (k : Numbers) (me : ndn.Name) where
  open ndn use {Name, component_value}
  open k use {Known, zero_known}

  abbrev Held : Logic → Type 0
  Held l = IsHeld k me (trees l)

  move-IsHeld : (r : ℕ) (l : Logic) → Held l → Held (move_to_new_current_round r l)
  move-IsHeld r l p = subst (IsHeld k me) (sym (trees-move r l)) p

  own_commit-EntryKept :
      (q : ℕ) (l : Logic)
      → l.stable_round < u64_mod
      → Known l.session_name q
      → EntryKept k (own_commit q l)
  unfolding own_commit
  own_commit-EntryKept q l w h =
      let d = update_diff empty_diff_state l.session_name q in
      let p = update_diff-EntryKept k empty_diff_state l.session_name q (empty-EntryKept k) h in
      elim (Bool-cases (l.stable_round == 0)) [
        | inl z ↦ rw z p
        | inr z ↦ elim (Option-cases (Log.find l.stable_round l.log)) [
          | inl e ↦ rw (z, e, own_commit) p
          | inr (x, e) ↦ rw (z, e, own_commit) (informed k d l.stable_round x.cumulative_digest p w)
        ]
      ]

  finish : Action (Unit {0})
  finish m =
      let l = schedule (millis 0) (sync_interest m.current_round) m in
      (
        ok tt,
        record (move_to_new_current_round (add64 l.current_round 1) l) { sync_timeouts = some 0 },
      )

  finish-Keeps : Keeps Held finish Any
  unfolding finish schedule contents_of
  finish-Keeps = record {
    at = λ m p.
        let l = schedule (millis 0) (sync_interest m.current_round) m in
        (tt, move-IsHeld (add64 l.current_round 1) l p);
  }

  after_answer :
      (r : Result (Unit {0}) × Logic)
      → Outcome (λ a m. Any a × Held m) Held r
      → Outcome (λ a m. Any a × Held m) Held (proceed r (λ _. finish))
  after_answer (ok a, m) p = finish-Keeps.at m p.1
  after_answer (err e, m) p = p

  -- The rest of `publish`, with what `pendingDataInterest` is.
  answered :
      (c : Commit) (m : Logic) (r : Result (Option Name))
      → CommitKept k m.current_round c
      → Held m
      → Outcome
          (λ a m'. Any a × Held m')
          Held
          (proceed (r, m) (λ name. answer_data m.default_user_prefix c name >>= λ _. finish))
  answered c m (ok name) h p =
      after_answer (answer_data m.default_user_prefix c name m)
        (answer_data-IsHeld k me m.default_user_prefix c name m h p)
  answered c m (err e) h p = p

  publish-IsHeld :
      (q : ℕ) (l : Logic)
      → l.stable_round < u64_mod
      → Known me q
      → Held l
      → Outcome (λ a m. Any a × Held m) Held (publish q l)
  unfolding publish log_commit finish
  publish-IsHeld q l w h p =
      let h' = subst (λ n. Known n q) (sym p.session) h in
      let c : Commit = record { diff = own_commit q l; shared = false } in
      let u = update_diff_log c l.current_round l in
      let (kept, held) =
        update_diff_log-IsHeld k me c l.current_round l p (own_commit-EntryKept q l w h') in
      let same : l.current_round ≡ u.1.current_round =
        sym (ap (λ (s : Seen). s.current_round) (seen-update_diff_log c l.current_round l)) in
      answered u.0 u.1 (pending_now u.1) (subst (λ r. CommitKept k r u.0) same kept) held

  Outcome-Held : (r : Result (Unit {0}) × Logic) → Outcome (λ a m. Any a × Held m) Held r → Held r.1
  Outcome-Held (ok a, m) h = h.1
  Outcome-Held (err e, m) h = h

  -- Every branch of updateSeqNo.
  pub update_seq_no-IsHeld :
      (q : ℕ) (prefix : Name) (l : Logic)
      → l.stable_round < u64_mod
      → Known me q
      → Held l
      → Held (update_seq_no q prefix l).1
  unfolding update_seq_no update_own
  update_seq_no-IsHeld q prefix l w h p =
      let (s, u) = update l.state l.session_name q in
      let m = record l { seq_no = q; state = s } in
      let h' = subst (λ n. Known n q) (sym p.session) h in
      let p' =
        with_state k me (trees l) s l.old_state p
          (update-IsKept k l.state l.session_name q p.state h') p.old_state in
      elim (Bool-cases (ltb q l.seq_no || q == 0)) [
        | inl skip ↦ rw skip p
        | inr new ↦ elim (Bool-cases (u.is_inserted || u.is_updated)) [
          | inl changed ↦ rw (new, changed) (Outcome-Held (publish q m) (publish-IsHeld q m w h p'))
          | inr old ↦ rw (new, old) p'
        ]
      ]

  -- Every branch of processDataInterest and of processSyncInterest.
  pub process_data_interest-Keeps : (name : Name) → Keeps Held (process_data_interest name) Any
  unfolding process_data_interest
  process_data_interest-Keeps name = Keeps-lift (number_at name 1) _ (λ r _. record {
    at = λ l p.
        let m =
          if leb l.current_round r then record l { pending_data_interest = some name } else l in
        let same : trees m ≡ trees l = ground arith in
        let q : Held m = subst (IsHeld k me) (sym same) p in
        (Keeps-if {H = Held} {R = Any} (ltb m.current_round r)
            (modify (move_to_new_current_round r)) _ (λ _. Keeps-modify _ (move-IsHeld r))
            (λ _.
              Keeps-if (ltb r m.current_round) (answer_earlier name (Log.find r m.log)) (pure tt)
                (λ _.
                  answer_earlier-Keeps k me name (Log.find r m.log)
                    (λ d e. find-EntryKept k r m.log d q.log e))
                (λ _. Keeps-pure tt tt))).at
          m q;
  })

  pub process_sync_interest-Keeps : (name : Name) → Keeps Held (process_sync_interest name) Any
  unfolding process_sync_interest
  process_sync_interest-Keeps name = Keeps-lift (number_at name 2) _ (λ r _.
      Keeps-lift (component_at name 1) _ (λ digest _. record {
        at = λ l p.
            (Keeps-if {H = Held} {R = Any} (leb l.current_round r)
                (modify (move_to_new_current_round (add64 r 1))) _
                (λ _. Keeps-modify _ (move-IsHeld (add64 r 1)))
                (λ _.
                  Keeps-if (leb r l.last_recovery_round) (pure tt)
                    (check_round_digests r (component_value digest) >>= λ _. pure tt)
                    (λ _. Keeps-pure tt tt)
                    (λ _.
                      Keeps-bind (check_round_digests r (component_value digest)) (λ _. pure tt)
                        (check_round_digests-Keeps k me r (component_value digest))
                        (λ _ _. Keeps-pure tt tt)))).at
              l p;
      }))

  store-IsHeld :
      (r : ℕ) (digest : List ℕ) (l : Logic)
      → r < u64_mod
      → Held l
      → Held (store_cumulative_only r digest l)
  unfolding store_cumulative_only
  store-IsHeld r digest l w p =
      let d =
        set_cumulative_info (some (r, some digest))
          (update_diff empty_diff_state l.session_name cumulative_only_data) in
      let c : Commit = record { diff = d; shared = false } in
      let u = update_diff_log c l.current_round l in
      let h =
        informed k _ r (some digest)
          (update_diff-EntryKept k empty_diff_state l.session_name 0 (empty-EntryKept k)
            (zero_known l.session_name))
          w in
      move-IsHeld (add64 u.1.current_round 1) u.1
        ((update_diff_log-IsHeld k me c l.current_round l p h).1)

  -- Every branch of produceCumulativeOnly, for a round of 64 bits.
  pub produce_cumulative_only-Keeps :
      (r : ℕ) (digest : List ℕ) → r < u64_mod → Keeps Held (produce_cumulative_only r digest) Any
  unfolding produce_cumulative_only
  produce_cumulative_only-Keeps r digest w = record {
    at = λ l p.
        (Keeps-lift {H = Held} {Q = Any} (pending_now l)
            (λ name.
              answer_cumulative_only r digest name >> modify (store_cumulative_only r digest))
            (λ name _.
              Keeps-bind (answer_cumulative_only r digest name)
                (λ _. modify (store_cumulative_only r digest))
                (answer_cumulative_only-Keeps k me r digest name w)
                (λ _ _. Keeps-modify _ (λ m q. store-IsHeld r digest m w q)))).at
          l p;
  }
