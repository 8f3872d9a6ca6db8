-- ===== src/Logic/Rounds/Move.antt =====
-- logic.cpp: what moveToNewCurrentRound asks the scheduler for, and which rounds it skips.
use round_sync.Base.{
  ℕ, zero, suc, ◌+◌, ◌-◌, ◌≤◌, ◌<◌, ◌≡◌, refl, ap, ◌∙◌, true, some, Option-cases, inl, inr,
  if◌then◌else◌, leb, sub64, Bool-cases, List, [], ◌∷◌, ◌++◌, arith, u64_mod,
}
use round_sync.Ndn.{Ndn}
use round_sync.State.{State}
use round_sync.DiffState.{DiffState}
use round_sync.Logic.{
  Logic, millis, max_rounds_without_recovery, Event, data_interest, Effect, scheduled, cancelled,
  expressed, removed_pending, sent, on_update, filter_set, all_cancelled, shut_down,
}
use round_sync.Logic.Calls.{schedule, cancel}
use round_sync.Logic.Rounds.{fish, restart_interest, move_to_new_current_round}

module _ ⦃ndn : Ndn⦄ where
  -- The events that were scheduled, the last one first.
  unfoldable pub events_of : List Effect → List Event
  events_of [] = []
  events_of (scheduled id d e ∷ es) = e ∷ events_of es
  events_of (cancelled id ∷ es) = events_of es
  events_of (expressed id i p ∷ es) = events_of es
  events_of (removed_pending id ∷ es) = events_of es
  events_of (sent p ∷ es) = events_of es
  events_of (on_update v ∷ es) = events_of es
  events_of (filter_set n ∷ es) = events_of es
  events_of (all_cancelled ∷ es) = events_of es
  events_of (shut_down ∷ es) = events_of es

  -- The first interests for `count` rounds from `r` on, the last one first.
  unfoldable pub interests : ℕ → ℕ → List Event
  interests r zero = []
  interests r (suc count) = data_interest (r + count) 1 ∷ interests r count

  interests-suc :
      (r count : ℕ) (es : List Event)
      → interests (r + 1) count ++ (data_interest r 1 ∷ es) ≡ interests r (suc count) ++ es
  unfolding interests
  interests-suc r zero es = ground arith
  interests-suc r (suc count) es =
      let e : r + 1 + count ≡ r + suc count = omega arith in
      ground (arith, interests-suc r count es)

  pub events_of-fish :
      (count r : ℕ) (l : Logic)
      → events_of (fish count r l).effects ≡ interests r count ++ events_of l.effects
  unfolding fish schedule events_of
  events_of-fish zero r l = unfold interests in refl
  events_of-fish (suc count) r l =
      events_of-fish count (r + 1) (schedule _ (data_interest r 1) l)
      ∙ interests-suc r count (events_of l.effects)

  -- Apart from the events, a loop of requests changes nothing.
  pub fish_lem :
      (count r : ℕ) (l : Logic)
      → fish count r l
        ≡ record l { next_id = l.next_id + count; effects = (fish count r l).effects }
  unfolding fish schedule
  fish_lem zero r l = ground arith
  fish_lem (suc count) r l =
      ground (arith, fish_lem count (r + 1) (schedule (millis 0) (data_interest r 1) l))

  pub restart_interest_lem :
      (l : Logic)
      → restart_interest l ≡ record l {
        reexpressing_data_interest_id = some l.next_id;
        next_id = l.next_id + 1;
        effects = (restart_interest l).effects;
      }
  unfolding restart_interest schedule cancel
  restart_interest_lem l = elim (Option-cases l.reexpressing_data_interest_id) [
    | inl e ↦ rw (e, cancel) refl
    | inr (id, e) ↦ rw (e, cancel) refl
  ]

  events_of-restart_interest :
      (l : Logic)
      → events_of (restart_interest l).effects
        ≡ data_interest l.current_round 1 ∷ events_of l.effects
  unfolding restart_interest schedule cancel events_of
  events_of-restart_interest l = elim (Option-cases l.reexpressing_data_interest_id) [
    | inl e ↦ rw (e, cancel) refl
    | inr (id, e) ↦ rw (e, cancel) refl
  ]

  -- What a move keeps.
  abbrev pub kept : Logic → ℕ × State × State × List DiffState
  kept l = (l.seq_no, l.state, l.old_state, l.log)

  kept-fish : (count r : ℕ) (l : Logic) → kept (fish count r l) ≡ kept l
  kept-fish count r l = ap kept (fish_lem count r l)

  kept-restart_interest : (l : Logic) → kept (restart_interest l) ≡ kept l
  kept-restart_interest l = ap kept (restart_interest_lem l)

  pub kept-move_to_new_current_round :
      (r : ℕ) (l : Logic) → kept (move_to_new_current_round r l) ≡ kept l
  unfolding move_to_new_current_round
  kept-move_to_new_current_round r l =
      elim (Bool-cases (leb (sub64 r l.current_round) max_rounds_without_recovery)) [
        | inl near ↦
            rw near (kept-restart_interest _ ∙ kept-fish (r - l.current_round) l.current_round l)
        | inr far ↦ rw far (kept-restart_interest _)
      ]

  -- A move to a 64-bit round that is not before the current one schedules the interest for the data
  -- of each round that it leaves behind, from the old current round on, if these are ten at most;
  -- from farther away it schedules none of them, and notes that a recovery is wanted. In both cases
  -- the interest for the new round is scheduled last, and that round is the current one.
  pub move_to_new_current_round-asks :
      (r : ℕ) (l : Logic)
      → l.current_round ≤ r
      → r < u64_mod
      → let near = leb (r - l.current_round) max_rounds_without_recovery in
        let l' = move_to_new_current_round r l in
        (l'.current_round ≡ r)
        × (events_of l'.effects
            ≡ data_interest r 1
              ∷ ((if near then interests l.current_round (r - l.current_round) else [])
                  ++ events_of l.effects))
        × (l'.recovery_desired ≡ (if near then l.recovery_desired else true))
  unfolding move_to_new_current_round
  move_to_new_current_round-asks r l h b =
      let s : sub64 r l.current_round ≡ r - l.current_round = omega arith in
      let arrived =
        λ (m : Logic). record m { current_round = r; number_data_interest_timeouts = 0 } in
      let fished = fish (r - l.current_round) l.current_round l in
      rw s (elim (Bool-cases (leb (r - l.current_round) max_rounds_without_recovery)) [
        | inl near ↦ rw near (
            ground (
              arith,
              events_of-fish (r - l.current_round) l.current_round l,
              fish_lem (r - l.current_round) l.current_round l,
              restart_interest_lem (arrived fished),
              events_of-restart_interest (arrived fished),
            ))
        | inr far ↦ rw far (
            ground (
              arith,
              restart_interest_lem (arrived (record l { recovery_desired = true })),
              events_of-restart_interest (arrived (record l { recovery_desired = true })),
            ))
      ])
