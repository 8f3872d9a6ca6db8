-- ===== src/Tests/Recoveries.antt =====
-- Examples of the theorems on recoveries.
use round_sync.Base.{◌≡◌, ◌≢◌, refl, ◌⊎◌, true, false, some, [], ◌∷◌, if◌then◌else◌, arith, ok}
use round_sync.State.{get_digest}
use round_sync.State.Digest.{Collision}
use round_sync.Logic.{Logic, reco_interest}
use round_sync.Logic.Rounds.Move.{events_of}
use round_sync.Logic.Recovery.{contains, request_recovery}
use round_sync.Logic.Timeouts.{on_reco_interest_timeout}
use round_sync.Logic.Timeouts.Reco.{time_out, request_recovery-once, on_reco_interest_timeout-ends}
use round_sync.Log
use round_sync.Logic.Entry.{initial}
use round_sync.Tests.Demo.{demo, Name}
use round_sync.Logic.Recovery.{check_recovery, find_event}
use round_sync.Logic.Recovery.Compare.{Recovers, check_recovery-agrees}
use round_sync.Tests.Data.{
  alice, bob, one, two, one_leaf, two_leaves, one-IsValid, two-IsValid, one-InRange, two-InRange,
  entry, busy,
}

request_recovery-once_example :
    (request_recovery alice (request_recovery alice busy) ≡ request_recovery alice busy)
    × ((m : Name)
        → contains m (request_recovery alice busy).pending_recovery_prefixes
          ≡ (if demo.name_eq alice m then true else contains m []))
    × (events_of (request_recovery alice busy).effects
        ≡ (if contains alice [] then events_of [] else reco_interest alice ∷ events_of []))
unfolding initial
request_recovery-once_example = request_recovery-once alice busy

-- Two recoveries are pending. After three timeouts of the first, one of each is the end of the other.
abbrev asking : Logic
asking = record busy {
  pending_recovery_prefixes = alice ∷ bob ∷ [];
  number_reco_interest_timeouts = 3;
}

abbrev to_alice : Name
to_alice = (4 ∷ []) ∷ alice

abbrev to_bob : Name
to_bob = (4 ∷ []) ∷ bob

on_reco_interest_timeout-ends_example :
    let l' = on_reco_interest_timeout to_bob (time_out (to_alice ∷ []) asking) in
    (events_of l'.effects ≡ reco_interest alice ∷ events_of [])
    × (l'.number_reco_interest_timeouts ≡ 0)
    × ((m : Name)
        → contains m l'.pending_recovery_prefixes
          ≡ (if demo.name_eq bob m then false else contains m (alice ∷ bob ∷ [])))
unfolding initial
on_reco_interest_timeout-ends_example =
    on_reco_interest_timeout-ends (to_alice ∷ []) to_bob asking refl

-- The digest of another tree, for round 1, which is stable here.
abbrev settled : Logic
settled = record busy {
  log = record (entry 1 two) { cumulative_digest = some (get_digest two) } ∷ [];
  stable_round = 2;
}

check_recovery-agrees_example :
    let (result, k) = check_recovery alice 1 (some (get_digest one)) settled in
    (result ≡ ok tt)
    × (((one_leaf ≡ two_leaves) × (k ≡ settled))
        ⊎ ((one_leaf ≢ two_leaves)
            × Recovers (demo.prefix_back alice 1) 1 (get_digest two) settled k)
        ⊎ Collision)
check_recovery-agrees_example =
    check_recovery-agrees alice 1 one two
      (record (entry 1 two) { cumulative_digest = some (get_digest two) }) settled
      (unfold Log.find in refl) refl (unfold initial in omega arith) (omega arith) (omega arith)
      (unfold initial find_event in refl) one-IsValid two-IsValid one-InRange two-InRange
