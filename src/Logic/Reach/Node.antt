-- ===== src/Logic/Reach/Node.antt =====
-- logic.cpp: what holds of every node that the callbacks lead to from the constructor.
use round_sync.Base.{ℕ, ◌≤◌, ◌≡◌, sym, subst, arith, ok}
use round_sync.Ndn.{Ndn}
use round_sync.State.Lookup.{seq_in, join_idem}
use round_sync.Logic.{Logic, Config}
use round_sync.Logic.Calls.{schedule}
use round_sync.Logic.Stable.{set_stable_state}
use round_sync.Logic.Stable.Next.{set_stable_state-advances}
use round_sync.Logic.Process.Seen.{seen, updates_of}
use round_sync.Logic.Entry.{initial, inject_partition, make_logic}
use round_sync.Logic.Reach.{Before, IsSound}
use round_sync.Logic.Reach.Events.{path-IsSound}
use round_sync.Logic.Reach.Callbacks.{Reaches, before}

module _ ⦃ndn : Ndn⦄ where
  open ndn use {Name}

  pub seen-make_logic :
      (config : Config) (now : ℕ) → seen (make_logic config now) ≡ seen (initial config now)
  unfolding make_logic inject_partition schedule updates_of
  seen-make_logic config now = ground arith

  pub initial-IsSound :
      (config : Config) (now : ℕ)
      → IsSound (before (initial config now)) (seen (initial config now))
  unfolding initial
  initial-IsSound config now = record {
    positive = omega arith;
    bounded = omega arith;
    candidate = omega arith;
    stable = omega arith;
    recovery = omega arith;
    restart = λ z n. ground (arith, n);
    advanced = omega arith;
    grown = λ n. join_idem _;
  }

  -- What holds of a node holds of it as the earlier one.
  own-IsSound : (b : Before) (l : Logic) → IsSound b (seen l) → IsSound (before l) (seen l)
  own-IsSound b l p =
      let a : l.current_round ≤ l.current_round = omega arith in
      record {
        positive = p.positive;
        bounded = p.bounded;
        candidate = p.candidate;
        stable = p.stable;
        recovery = p.recovery;
        restart = p.restart;
        advanced = a;
        grown = λ n. join_idem (seq_in l.state.leaves n);
      }

  -- Any two nodes of one life that begins with the constructor, the second reached from the first
  -- by callbacks of every kind, each of which returns or throws, where the current round has a next
  -- one of 64 bits before each callback and so have the rounds that interests and recovery replies
  -- name (data interests and scheduled CumulativeOnly packets: a round of 64 bits): for the second
  -- node the rounds are in order, as IsSound has it, its current round is not before that of the
  -- first, it knows every session of the first with at least the same sequence number, and
  -- setStableState returns on it.
  pub Reaches-IsSound :
      (config : Config) (now : ℕ) (l k : Logic)
      → Reaches (make_logic config now) l
      → Reaches l k
      → IsSound (before l) (seen k) × ((set_stable_state k).0 ≡ ok tt)
  Reaches-IsSound config now l k p q =
      let b = before (initial config now) in
      let start =
        subst (IsSound b) (sym (seen-make_logic config now)) (initial-IsSound config now) in
      let reached = path-IsSound b (make_logic config now) l p start in
      let done = path-IsSound (before l) l k q (own-IsSound b l reached) in
      (done, (set_stable_state-advances k done.candidate done.bounded done.restart).0)
