-- ===== src/Logic/Held/Stabilizes.antt =====
-- logic.cpp: what setStableState makes of the rounds of any node that the callbacks lead to.
use round_sync.Base.{ℕ, ◌<◌, ◌≤◌, ◌≡◌, refl, ap, some, List, [], ◌∷◌, All, u64_mod, arith, ok}
use round_sync.Ndn.{Ndn}
use round_sync.State.{get_digest}
use round_sync.State.Lookup.{seq_in, join}
use round_sync.DiffState.{DiffState}
use round_sync.DiffState.Produced.{AllValid}
use round_sync.Log
use round_sync.Logic.{Logic, Config}
use round_sync.Logic.Calls.{schedule}
use round_sync.Logic.Stable.{set_stable_state, advance_stable_round, schedule_stable_state}
use round_sync.Logic.Stable.Ranges.{latest_where, within}
use round_sync.Logic.Stable.Digests.{calculate-combines}
use round_sync.Logic.Stable.Next.{calculate_lem, next_init, init_round-returns}
use round_sync.Logic.Entry.{make_logic}
use round_sync.Logic.Reach.Callbacks.{Reaches, here}
use round_sync.Logic.Reach.Node.{Reaches-IsSound}
use round_sync.Logic.Held.Node.{AllWords, InOrder, Reaches-InOrder}

module _ ⦃ndn : Ndn⦄ where
  open ndn use {Name}

  all_valid :
      (ds : List DiffState) → All (λ (d : DiffState). InOrder d.state.leaves) ds → AllValid ds
  all_valid [] h = tt
  all_valid (d ∷ ds) h = (h.0.0, all_valid ds h.1)

  -- A node as in Logic.Held.Node.Reaches-InOrder, whose candidate is after its stable round:
  -- setStableState returns and the candidate is stable. The old state takes in the trees of exactly
  -- the rounds of the log from the first that is not combined yet (`next_init`) up to the
  -- candidate, each session with its greatest number in them, and the log has an entry of the
  -- candidate with the digest of the result.
  pub Reaches-set_stable_state :
      (config : Config) (now : ℕ) (l : Logic) (p : Reaches (make_logic config now) l)
      → AllWords p
      → l.stable_round < l.stabilizing_round
      → let (result, k) = set_stable_state l in
        (result ≡ ok tt)
        × (k.stable_round ≡ l.stabilizing_round)
        × ((n : Name)
            → seq_in k.old_state.leaves n
              ≡ join
                  (seq_in l.old_state.leaves n)
                  (latest_where (within (next_init l) l.stabilizing_round) n l.log))
        × (d : DiffState) × (Log.find l.stabilizing_round k.log ≡ some d)
        × (d.cumulative_digest ≡ some (get_digest k.old_state))
  unfolding set_stable_state advance_stable_round schedule_stable_state schedule
  Reaches-set_stable_state config now l p w h =
      let (s, _) = Reaches-IsSound config now l l p here in
      let (_, _, valid, ordered) = Reaches-InOrder config now l p w in
      let fits : l.stabilizing_round < u64_mod = omega (arith, s.candidate, s.bounded) in
      let range : next_init l ≤ l.stabilizing_round = ground (arith, h, fits) in
      let (combined, d, found, digest) =
        calculate-combines (next_init l) l.stabilizing_round l (all_valid l.log valid) ordered
          range in
      let same =
        ap (λ (x : Logic). x.stabilizing_round)
          (calculate_lem (next_init l) l.stabilizing_round l) in
      rw (init_round-returns l s.restart) (refl, same, combined, d, found, digest)
