-- ===== src/Logic/Reach/Parts.antt =====
-- logic.cpp: the parts of the handlers that move the node, take leaves into its state or change the
-- stable rounds, each with what it keeps.
use round_sync.Base.{
  ℕ, ◌+◌, ◌-◌, ◌/◌, ◌≤◌, ◌<◌, ◌≡◌, ◌≢◌, refl, sym, subst, ap, ◌∙◌, Option, List, [], ◌∷◌, arith,
  if◌then◌else◌, ◌==◌, leb, add64, sub64, u64_mod,
}
use round_sync.Ndn.{Ndn}
use round_sync.Leaf.{Leaf}
use round_sync.State.{State, update, merge, plus, reset}
use round_sync.State.Lookup.{seq_in, join, join_assoc, best, seq_in-merge}
use round_sync.Logic.{Logic, MissingDataInfo}
use round_sync.Logic.Rounds.{Commit, move_to_new_current_round}
use round_sync.Logic.Process.{
  absorb, absorb_leaves, leave_round, absorb_state, absorb_recovery, adopt_round, fish_back,
  restart_stabilization,
}
use round_sync.Logic.Process.Absorb.{absorb_lem, follows}
use round_sync.Logic.Process.Seen.{
  Seen, seen, told, seen-move, seen-leave_round, updates_of, seen-call_back,
}
use round_sync.Logic.Process.Reco.{seen-adopt_round, seen-fish_back, seen-restart_stabilization}
use round_sync.Logic.Reach.{Before, IsSound, IsReady}

join_keeps : (k a o : Option ℕ) → join k a ≡ a → join k (join a o) ≡ join a o
join_keeps k a o h = sym (join_assoc k a o) ∙ ap (λ x. join x o) h

module _ ⦃ndn : Ndn⦄ where
  pub absorb_state-merge : (ls : List Leaf) (s : State) → (absorb_state ls s).1 ≡ merge s ls
  unfolding absorb_state merge
  absorb_state-merge [] s = refl
  absorb_state-merge (l ∷ ls) s = absorb_state-merge ls (update s l.session_name l.seq).0

  -- The loop of processRecoData and the call of the application.
  seen-absorb_any :
      (ls : List Leaf) (l : Logic)
      → seen (absorb_recovery ls l) ≡ record (seen l) {
        state = merge l.state ls;
        updates = told (absorb_state ls l.state).0 (updates_of l.effects);
      }
  unfolding absorb_recovery
  seen-absorb_any ls l = seen-call_back _ _ ∙ rw (absorb_state-merge ls l.state) refl

module _ ⦃ndn : Ndn⦄ (b : Before) where
  open ndn use {Name}

  -- A later round within 64 bits.
  pub moved-IsSound :
      (s : Seen) (r : ℕ)
      → IsSound b s
      → s.current_round ≤ r
      → r < u64_mod
      → IsSound b (record s { current_round = r })
  moved-IsSound s r p h w =
      let a : b.reached ≤ r = ground (arith, p.advanced, h) in
      let q : s.last_recovery_round < r = ground (arith, p.recovery, h) in
      let t : s.stabilizing_round ≤ r = ground (arith, p.candidate, h) in
      let z : 0 < r = ground (arith, p.positive, h) in
      record {
        positive = z;
        bounded = w;
        candidate = t;
        stable = p.stable;
        recovery = q;
        restart = p.restart;
        advanced = a;
        grown = p.grown;
      }

  -- Leaves join the state; the old state and the calls of the application may be any.
  pub merged-IsSound :
      (s : Seen) (ls : List Leaf) (old : State) (us : List (List MissingDataInfo))
      → IsSound b s
      → IsSound b (record s { state = merge s.state ls; old_state = old; updates = us })
  merged-IsSound s ls old us p = record {
    positive = p.positive;
    bounded = p.bounded;
    candidate = p.candidate;
    stable = p.stable;
    recovery = p.recovery;
    restart = p.restart;
    advanced = p.advanced;
    grown = λ n.
        rw (seq_in-merge s.state ls n)
          (join_keeps (seq_in b.known n) (seq_in s.state.leaves n) (best n ls) (p.grown n));
  }

  -- The step to the next stable round.
  pub stabilized-IsSound :
      (s : Seen) (old : State)
      → IsSound b s
      → IsSound b (record s {
        old_state = old;
        stable_round = s.stabilizing_round;
        stabilizing_round =
            add64 s.stabilizing_round (sub64 s.current_round s.stabilizing_round / 2);
      })
  stabilized-IsSound s old p =
      let c : s.stabilizing_round ≤ s.current_round = p.candidate in
      let w : s.current_round < u64_mod = p.bounded in
      let d : sub64 s.current_round s.stabilizing_round ≡ s.current_round - s.stabilizing_round =
        omega arith in
      let e : add64 s.stabilizing_round ((s.current_round - s.stabilizing_round) / 2)
          ≡ s.stabilizing_round + (s.current_round - s.stabilizing_round) / 2 =
        omega arith in
      let t : s.stabilizing_round + (s.current_round - s.stabilizing_round) / 2 ≤ s.current_round =
        omega arith in
      let u : s.stabilizing_round
          ≤ s.stabilizing_round + (s.current_round - s.stabilizing_round) / 2 =
        omega arith in
      let low : s.stabilizing_round ≡ 0 → s.stable_round ≡ 0 = λ z. ground (arith, p.stable, z) in
      let absurd_zero : s.stabilizing_round ≡ 0
          → s.last_recovery_round ≢ 0
          → s.stabilizing_round + (s.current_round - s.stabilizing_round) / 2
            ≡ s.last_recovery_round =
        λ z n. elim (n (sym (p.restart (low z) n) ∙ z)) [ ] in
      rw (d, e)
        record {
          positive = p.positive;
          bounded = p.bounded;
          candidate = t;
          stable = u;
          recovery = p.recovery;
          restart = λ z n. absurd_zero z n;
          advanced = p.advanced;
          grown = p.grown;
        }

  -- Only the round that a recovery gives, or the one before the current one, is the candidate then.
  pub restarted-IsSound :
      (s : Seen) (r c : ℕ) (old : State)
      → IsSound b s
      → s.current_round ≤ c
      → c < u64_mod
      → r < c
      → IsSound b (record s {
        old_state = old;
        current_round = c;
        stabilizing_round = r;
        stable_round = 0;
        last_recovery_round = r;
      })
  restarted-IsSound s r c old p h w q =
      let a : b.reached ≤ c = ground (arith, p.advanced, h) in
      let z : 0 < c = ground (arith, p.positive, h) in
      let t : r ≤ c = ground (arith, q) in
      let o : 0 ≤ r = omega arith in
      record {
        positive = z;
        bounded = w;
        candidate = t;
        stable = o;
        recovery = q;
        restart = λ _ _. refl;
        advanced = a;
        grown = p.grown;
      }

  pub move-IsSound :
      (r : ℕ) (l : Logic)
      → IsSound b (seen l)
      → l.current_round ≤ r
      → r < u64_mod
      → IsSound b (seen (move_to_new_current_round r l))
  move-IsSound r l p h w = subst (IsSound b) (sym (seen-move r l)) (moved-IsSound (seen l) r p h w)

  -- Leaving a round that has a next one.
  pub leave_round-IsSound :
      (r : ℕ) (l : Logic) → IsReady b (seen l) → IsSound b (seen (leave_round r l))
  leave_round-IsSound r l (p, w) =
      let c = if r == l.current_round then add64 l.current_round 1 else l.current_round in
      let up : l.current_round ≤ c = ground arith in
      let in_range : c < u64_mod = ground (arith, p.bounded) in
      subst (IsSound b) (sym (seen-leave_round r l)) (moved-IsSound (seen l) c p up in_range)

  -- A recovery with leaves and a round that has a next one.
  pub recovery-IsSound :
      (r : ℕ) (ls : List Leaf) (l : Logic)
      → IsSound b (seen l)
      → r + 1 < u64_mod
      → IsSound b (seen (restart_stabilization (fish_back (adopt_round r (absorb_recovery ls l)))))
  recovery-IsSound r ls l p w =
      let l1 = absorb_recovery ls l in
      let l2 = adopt_round r l1 in
      let absorbed : IsSound b (seen l1) =
        subst (IsSound b) (sym (seen-absorb_any ls l))
          (merged-IsSound (seen l) ls l.old_state _ p) in
      let last = if leb l1.current_round r then r else sub64 l1.current_round 1 in
      let c = if leb l1.current_round r then add64 r 1 else l1.current_round in
      let up : l1.current_round ≤ c = ground arith in
      let in_range : c < u64_mod = ground (arith, absorbed.bounded) in
      let before : last < c = ground (arith, absorbed.bounded, absorbed.positive) in
      let restarted = λ (s : Seen). record s {
        stabilizing_round = s.last_recovery_round;
        stable_round = 0;
        old_state = plus (reset s.old_state) s.state;
      } in
      let e =
        seen-restart_stabilization (fish_back l2)
        ∙ ap restarted (seen-fish_back l2 ∙ seen-adopt_round r l1) in
      subst (IsSound b) (sym e) (restarted-IsSound (seen l1) last c _ absorbed up in_range before)

  -- The leaves of a data packet, and the call of the application.
  seen-absorb_leaves :
      (r : ℕ) (ls : List Leaf) (c : Commit) (l : Logic)
      → seen (absorb_leaves r ls c l).1 ≡ record (seen l) {
        state = merge l.state ls;
        old_state = if follows r l then merge l.old_state ls else l.old_state;
        updates = told (absorb r ls c l).0 (updates_of l.effects);
      }
  unfolding absorb_leaves
  seen-absorb_leaves r ls c l =
      let informed = λ (s : Seen). record s { updates = told (absorb r ls c l).0 s.updates } in
      seen-call_back (absorb r ls c l).0 (absorb r ls c l).2
      ∙ ap informed (ap seen (absorb_lem r ls c l))

  pub absorb_leaves-IsReady :
      (r : ℕ) (ls : List Leaf) (c : Commit) (l : Logic)
      → IsReady b (seen l)
      → IsReady b (seen (absorb_leaves r ls c l).1)
  absorb_leaves-IsReady r ls c l (p, w) =
      subst (IsReady b) (sym (seen-absorb_leaves r ls c l)) (merged-IsSound (seen l) ls _ _ p, w)
