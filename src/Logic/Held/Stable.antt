-- ===== src/Logic/Held/Stable.antt =====
-- setStableState and checkRoundDigests (logic.cpp) keep what the trees and the log hold.
use round_sync.Base.{
  ℕ, ◌-◌, ◌≡◌, refl, sym, subst, Option, none, some, Option-cases, List, [], ◌∷◌, inl, inr, true,
  false, Bool-cases, ◌==◌, ltb, undefined,
}
use round_sync.Ndn.{Ndn}
use round_sync.State.{State, plus, empty_state, get_digest}
use round_sync.State.Known.{Numbers, IsKept, empty-IsKept, plus-IsKept}
use round_sync.DiffState.{DiffState, empty_diff_state, set_cumulative_digest, get_state}
use round_sync.Log
use round_sync.Log.{Above, IsOrdered, put-IsOrdered, find_round}
use round_sync.Logic.{Logic}
use round_sync.Logic.Exec.{pure, modify, ◌>>◌}
use round_sync.Logic.Calls.{schedule}
use round_sync.Logic.Rounds.{
  Commit, update_diff_log, digests_differ, check_entry, check_round_digests,
}
use round_sync.Logic.Stable.{
  add_rounds, add_rounds_from, add_log_rounds, first_entry, add_last_round,
  calculate_stable_state_and_cumulative_digests, set_stable_state, init_round, advance_stable_round,
  schedule_stable_state,
}
use round_sync.Logic.Process.Seen.{contents_of}
use round_sync.Logic.Held.{
  trees, IsHeld, EntryKept, AllEntries, Keeps, Any, Keeps-lift, Keeps-modify, Keeps-pure,
  Keeps-raise, Keeps-if,
}
use round_sync.Logic.Held.Same.{trees-schedule_stable_state}
use round_sync.Logic.Held.Entries.{
  empty-EntryKept, stabilized, find-EntryKept, put-AllEntries, with_log, round-update_diff_log,
  update_diff_log-IsHeld, digests_differ-IsHeld,
}

module _ ⦃ndn : Ndn⦄ (k : Numbers) where
  open ndn use {Name, component_eq, from_buffer}

  get_state-IsKept : (d : DiffState) → EntryKept k d → IsKept k (get_state d).leaves
  unfolding get_state
  get_state-IsKept d p = plus-IsKept k empty_state d.state (empty-IsKept k) p.kept

  add_rounds-IsKept :
      (e : ℕ) (old : State) (ds : List DiffState)
      → IsKept k old.leaves
      → AllEntries k ds
      → IsKept k (add_rounds e old ds).0.leaves × AllEntries k (add_rounds e old ds).1
  unfolding add_rounds
  add_rounds-IsKept e old [] p h = (p, tt)
  add_rounds-IsKept e old (d ∷ ds) p h =
      let old' = plus old (get_state d) in
      let (q, rest) =
        add_rounds-IsKept e old' ds (plus-IsKept k old (get_state d) p (get_state-IsKept d (h.0)))
          (h.1) in
      elim (Bool-cases (ltb d.round e)) [
        | inl b ↦ rw b (q, (stabilized k d (get_digest old') (h.0), rest))
        | inr b ↦ rw b (p, h)
      ]

  add_rounds_from-IsKept :
      (r e : ℕ) (old : State) (ds : List DiffState)
      → IsKept k old.leaves
      → AllEntries k ds
      → IsKept k (add_rounds_from r e old ds).0.leaves × AllEntries k (add_rounds_from r e old ds).1
  unfolding add_rounds_from
  add_rounds_from-IsKept r e old [] p h = (p, tt)
  add_rounds_from-IsKept r e old (d ∷ ds) p h =
      let (q, rest) = add_rounds_from-IsKept r e old ds p (h.1) in
      elim (Bool-cases (d.round == r)) [
        | inl b ↦ rw b (add_rounds-IsKept e old (d ∷ ds) p h)
        | inr b ↦ rw b (q, (h.0, rest))
      ]

  -- The rounds of the entries stay.
  add_rounds-Above :
      (r e : ℕ) (old : State) (ds : List DiffState) → Above r ds → Above r (add_rounds e old ds).1
  unfolding add_rounds set_cumulative_digest
  add_rounds-Above r e old [] a = tt
  add_rounds-Above r e old (d ∷ ds) a =
      let rest = add_rounds-Above r e (plus old (get_state d)) ds a.1 in
      elim (Bool-cases (ltb d.round e)) [ inl b ↦ rw b (a.0, rest) | inr b ↦ rw b a ]

  add_rounds-IsOrdered :
      (e : ℕ) (old : State) (ds : List DiffState) → IsOrdered ds → IsOrdered (add_rounds e old ds).1
  unfolding add_rounds set_cumulative_digest
  add_rounds-IsOrdered e old [] o = tt
  add_rounds-IsOrdered e old (d ∷ ds) o =
      let old' = plus old (get_state d) in
      elim (Bool-cases (ltb d.round e)) [
        | inl b ↦ rw b (add_rounds-Above d.round e old' ds o.0, add_rounds-IsOrdered e old' ds o.1)
        | inr b ↦ rw b o
      ]

  add_rounds_from-Above :
      (q r e : ℕ) (old : State) (ds : List DiffState)
      → Above q ds
      → Above q (add_rounds_from r e old ds).1
  unfolding add_rounds_from
  add_rounds_from-Above q r e old [] a = tt
  add_rounds_from-Above q r e old (d ∷ ds) a = elim (Bool-cases (d.round == r)) [
    | inl b ↦ rw b (add_rounds-Above q e old (d ∷ ds) a)
    | inr b ↦ rw b (a.0, add_rounds_from-Above q r e old ds a.1)
  ]

  add_rounds_from-IsOrdered :
      (r e : ℕ) (old : State) (ds : List DiffState)
      → IsOrdered ds
      → IsOrdered (add_rounds_from r e old ds).1
  unfolding add_rounds_from
  add_rounds_from-IsOrdered r e old [] o = tt
  add_rounds_from-IsOrdered r e old (d ∷ ds) o = elim (Bool-cases (d.round == r)) [
    | inl b ↦ rw b (add_rounds-IsOrdered e old (d ∷ ds) o)
    | inr b ↦
        rw b
          (add_rounds_from-Above d.round r e old ds o.0, add_rounds_from-IsOrdered r e old ds o.1)
  ]

  module _ (me : Name) where
    add_log_rounds-IsHeld :
        (r e : ℕ) (l : Logic) → IsHeld k me (trees l) → IsHeld k me (trees (add_log_rounds r e l))
    unfolding add_log_rounds
    add_log_rounds-IsHeld r e l p =
        let (q, h) =
          add_rounds_from-IsKept (first_entry (e - r) r l.log) e l.old_state l.log p.old_state
            p.log in
        with_log k me (trees l) _ _ p h
          (add_rounds_from-IsOrdered (first_entry (e - r) r l.log) e l.old_state l.log p.ordered) q

    add_last_round-IsHeld :
        (e : ℕ) (l : Logic) → IsHeld k me (trees l) → IsHeld k me (trees (add_last_round e l))
    unfolding add_last_round
    add_last_round-IsHeld e l p = elim (Option-cases (Log.find e l.log)) [
      | inr (d, f) ↦
          let h = find-EntryKept k e l.log d p.log f in
          let old = plus l.old_state (get_state d) in
          rw (f, add_last_round)
            (with_log k me (trees l) (Log.put e (set_cumulative_digest (get_digest old) d) l.log)
              old p (put-AllEntries k e _ l.log (stabilized k d (get_digest old) h) p.log)
              (put-IsOrdered e _ l.log
                (unfold set_cumulative_digest in find_round e l.log {d = d} f) p.ordered)
              (plus-IsKept k l.old_state (get_state d) p.old_state (get_state-IsKept d h)))
      | inl f ↦
          let c : Commit = record { diff = empty_diff_state; shared = false } in
          let (h, q) = update_diff_log-IsHeld k me c e l p (empty-EntryKept k) in
          let u = update_diff_log c e l in
          let digest = get_digest u.1.old_state in
          rw (f, add_last_round)
            (with_log k me (trees u.1) (Log.put e (set_cumulative_digest digest u.0.diff) u.1.log)
              u.1.old_state q
              (put-AllEntries k e _ u.1.log (stabilized k u.0.diff digest h.entry) q.log)
              (put-IsOrdered e _ u.1.log
                (unfold set_cumulative_digest in round-update_diff_log k c e l) q.ordered)
              q.old_state)
    ]

    pub set_stable_state-Keeps : Keeps (λ l. IsHeld k me (trees l)) set_stable_state Any
    unfolding set_stable_state calculate_stable_state_and_cumulative_digests advance_stable_round
    set_stable_state-Keeps = record {
      at = λ l p.
          (Keeps-lift {H = λ m. IsHeld k me (trees m)} (init_round l) _ (λ r _.
              Keeps-modify
                (λ m. schedule_stable_state (
                  advance_stable_round
                    (calculate_stable_state_and_cumulative_digests r l.stabilizing_round m)))
                (λ m q. subst (IsHeld k me) (sym (trees-schedule_stable_state _)) (
                  add_last_round-IsHeld l.stabilizing_round (add_log_rounds r l.stabilizing_round m)
                    (add_log_rounds-IsHeld r l.stabilizing_round m q))))).at
            l p;
    }

    check_entry-Keeps :
        (r : ℕ) (digest : List ℕ) (o : Option DiffState)
        → ((d : DiffState) → o ≡ some d → EntryKept k d × (d.round ≡ r))
        → Keeps (λ l. IsHeld k me (trees l)) (check_entry r digest o) Any
    unfolding check_entry schedule contents_of
    check_entry-Keeps r digest none h = record { at = λ l p. (tt, p) }
    check_entry-Keeps r digest (some d) h = elim (Option-cases d.round_digest) [
      | inl e ↦ rw (e, check_entry) (Keeps-raise undefined)
      | inr (rd, e) ↦
          rw (e, check_entry)
            (Keeps-if (component_eq (from_buffer digest) (from_buffer rd)) (pure true)
              (modify (digests_differ r d) >> pure false) (λ _. Keeps-pure true tt)
              (λ _. record {
                at = λ l p. (tt, digests_differ-IsHeld k me r d l p (h d refl).0 (h d refl).1);
              }))
    ]

    pub check_round_digests-Keeps :
        (r : ℕ) (digest : List ℕ)
        → Keeps (λ l. IsHeld k me (trees l)) (check_round_digests r digest) Any
    unfolding check_round_digests
    check_round_digests-Keeps r digest = record {
      at = λ l p.
          (check_entry-Keeps r digest (Log.find r l.log)
              (λ d e. (find-EntryKept k r l.log d p.log e, find_round r l.log {d = d} e))).at
            l p;
    }
