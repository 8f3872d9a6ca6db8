-- ===== src/Logic/Stable/Next.antt =====
-- logic.cpp: what setStableState does to the rounds. It throws only if no round is stable and the
-- candidate is not the round of the last recovery.
use round_sync.Base.{
  ℕ, ◌+◌, ◌-◌, ◌/◌, ◌≤◌, ◌<◌, ◌≡◌, ◌≢◌, inl, inr, false, Bool-cases, ◌∷◌, arith, if◌then◌else◌,
  ◌==◌, ◌&&◌, sub64, add64, u64_mod, ok,
}
use round_sync.Ndn.{Ndn}
use round_sync.DiffState.{empty_diff_state}
use round_sync.Logic.{Logic, stable_state}
use round_sync.Logic.Calls.{schedule}
use round_sync.Logic.Rounds.{Commit, write, update_diff_log}
use round_sync.Logic.Rounds.Move.{events_of}
use round_sync.Logic.Stable.{
  add_log_rounds, add_last_round, calculate_stable_state_and_cumulative_digests, init_round,
  schedule_stable_state, advance_stable_round, set_stable_state,
}

module _ ⦃ndn : Ndn⦄ where
  -- An entry of the log is made or written, and nothing else of the node changes.
  pub update_diff_log_lem :
      (c : Commit) (r : ℕ) (l : Logic)
      → (update_diff_log c r l).1 ≡ record l { log = (update_diff_log c r l).1.log }
  unfolding update_diff_log write
  update_diff_log_lem c r l = ground arith

  add_last_round_lem :
      (r : ℕ) (l : Logic)
      → add_last_round r l
        ≡ record l { old_state = (add_last_round r l).old_state; log = (add_last_round r l).log }
  unfolding add_last_round
  add_last_round_lem r l =
      ground (arith, update_diff_log_lem (record { diff = empty_diff_state; shared = false }) r l)

  -- The digests are kept in the log, and the combined rounds in the old state.
  pub calculate_lem :
      (i e : ℕ) (l : Logic)
      → calculate_stable_state_and_cumulative_digests i e l ≡ record l {
        old_state = (calculate_stable_state_and_cumulative_digests i e l).old_state;
        log = (calculate_stable_state_and_cumulative_digests i e l).log;
      }
  unfolding calculate_stable_state_and_cumulative_digests add_log_rounds
  calculate_lem i e l = add_last_round_lem e _

  -- The round after the last stable one, the round of a recovery, or the first round.
  abbrev pub next_init : Logic → ℕ
  next_init l =
      if l.stable_round == 0 && l.last_recovery_round == 0
      then 1
      else if l.stabilizing_round == l.last_recovery_round
      then l.stabilizing_round
      else add64 l.stable_round 1

  pub init_round-returns :
      (l : Logic)
      → (l.stable_round ≡ 0
          → l.last_recovery_round ≢ 0
          → l.stabilizing_round ≡ l.last_recovery_round)
      → init_round l ≡ ok (next_init l)
  unfolding init_round
  init_round-returns l h = elim (Bool-cases (l.last_recovery_round == 0)) [
    | inl z ↦ ground arith
    | inr n ↦ elim (Bool-cases (l.stable_round == 0)) [
      | inl z ↦
          let e : l.stabilizing_round ≡ l.last_recovery_round =
            h (ground arith) (λ q. ground (arith, q)) in
          ground (arith, e)
      | inr m ↦ ground arith
    ]
  ]

  -- If the candidate is not after the current round, which has 64 bits, and is the round of the
  -- last recovery where there was one and no round is stable, setStableState returns: the candidate
  -- is stable, the next one lies half way from it to the current round, which stays, and
  -- setStableState is scheduled again.
  pub set_stable_state-advances :
      (l : Logic)
      → l.stabilizing_round ≤ l.current_round
      → l.current_round < u64_mod
      → (l.stable_round ≡ 0
          → l.last_recovery_round ≢ 0
          → l.stabilizing_round ≡ l.last_recovery_round)
      → let (result, l') = set_stable_state l in
        (result ≡ ok tt)
        × (l'.stable_round ≡ l.stabilizing_round)
        × (l'.stabilizing_round ≡ l.stabilizing_round + (l.current_round - l.stabilizing_round) / 2)
        × (l'.current_round ≡ l.current_round)
        × (events_of l'.effects ≡ stable_state ∷ events_of l.effects)
  unfolding set_stable_state advance_stable_round schedule_stable_state schedule events_of
  set_stable_state-advances l c b h =
      let e = init_round-returns l h in
      let r = next_init l in
      let s : sub64 l.current_round l.stabilizing_round ≡ l.current_round - l.stabilizing_round =
        omega arith in
      let a : add64 l.stabilizing_round ((l.current_round - l.stabilizing_round) / 2)
          ≡ l.stabilizing_round + (l.current_round - l.stabilizing_round) / 2 =
        omega arith in
      rw e (ground (arith, calculate_lem r l.stabilizing_round l, s, a))
