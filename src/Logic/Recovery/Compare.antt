-- ===== src/Logic/Recovery/Compare.antt =====
-- logic.cpp: what checkRecovery does with the cumulative digest of another node, for a round that is
-- stable here.
use round_sync.Base.{
  ℕ, ◌<◌, ◌≤◌, ◌≡◌, ◌≢◌, refl, ap, ◌∙◌, ◌⊎◌, inl, inr, true, false, Bool-cases, none, some, List,
  ◌∷◌, arith, if◌then◌else◌, ltb, leb, ◌==◌, bytes_eq, bytes_eq_refl, bytes_eq_sound, ok,
}
use round_sync.Ndn.{Ndn}
use round_sync.State.{State, get_digest}
use round_sync.State.Sorted.{IsValid}
use round_sync.State.Digest.{InRange, Collision, get_digest_sound}
use round_sync.DiffState.{DiffState}
use round_sync.Log
use round_sync.Logic.{Logic, Event, cumulative_only_event, reco_interest}
use round_sync.Logic.Calls.{schedule}
use round_sync.Logic.Rounds.Move.{events_of}
use round_sync.Logic.Recovery.{
  find_event, contains, schedule_cumulative_only, do_recovery, compare_cumulative, decide_recovery,
  check_found, check_recovery_digest, check_recovery,
}
use round_sync.Logic.Timeouts.Reco.{request_recovery-once}
use round_sync.State.Compare.{get_digest-leaves}

module _ ⦃ndn : Ndn⦄ where
  open ndn use {Name, name_eq, prefix_back}

  -- The node `k` after checkRecovery found other digests at `l`: it asked `prefix` for a recovery
  -- unless it had already, and is to send its own digest `mine` of round `r`.
  pub record Recovers (prefix : Name) (r : ℕ) (mine : List ℕ) (l k : Logic) : Type 0 where
    pub pending :
        (m : Name)
        → contains m k.pending_recovery_prefixes
          ≡ (if name_eq prefix m then true else contains m l.pending_recovery_prefixes)
    pub events :
        events_of k.effects
        ≡ cumulative_only_event r mine
          ∷ (if contains prefix l.pending_recovery_prefixes
              then events_of l.effects
              else reco_interest prefix ∷ events_of l.effects)
    pub undesired : k.recovery_desired ≡ false

  events_of-schedule_cumulative_only :
      (r : ℕ) (digest : List ℕ) (l : Logic)
      → events_of (schedule_cumulative_only r digest l).effects
        ≡ cumulative_only_event r digest ∷ events_of l.effects
  unfolding schedule_cumulative_only schedule events_of
  events_of-schedule_cumulative_only r digest l = refl

  do_recovery-Recovers :
      (user_prefix : Name) (r : ℕ) (mine : List ℕ) (l : Logic)
      → Recovers (prefix_back user_prefix 1) r mine l (do_recovery user_prefix r (some mine) l)
  unfolding do_recovery
  do_recovery-Recovers user_prefix r mine l =
      let (_, pending, events) = request_recovery-once (prefix_back user_prefix 1) l in
      record {
        pending = λ m. (unfold schedule_cumulative_only schedule in pending m);
        events =
            events_of-schedule_cumulative_only r mine _
            ∙ ap (λ (es : List Event). cumulative_only_event r mine ∷ es) events;
        undesired = unfold schedule_cumulative_only schedule in refl;
      }

  -- The digest of a stable round that is in the log.
  check_recovery-compares :
      (user_prefix : Name) (r : ℕ) (digest mine : List ℕ) (d : DiffState) (l : Logic)
      → Log.find r l.log ≡ some d
      → d.cumulative_digest ≡ some mine
      → l.last_recovery_round ≤ r
      → r ≤ l.stable_round
      → 0 < l.stable_round
      → find_event digest l.cumulative_digest_events ≡ none
      → check_recovery user_prefix r (some digest) l
        ≡ (ok tt, if bytes_eq digest mine then l else do_recovery user_prefix r (some mine) l)
  unfolding check_recovery check_recovery_digest check_found decide_recovery compare_cumulative
  check_recovery-compares user_prefix r digest mine d l f e q s p v =
      let late : ltb r l.last_recovery_round ≡ false = ground (arith, q) in
      let some_stable : (l.stable_round == 0) ≡ false = ground (arith, p) in
      let stable : leb r l.stable_round ≡ true = ground (arith, s) in
      rw (v, check_found)
        (rw (late, some_stable, stable, f, compare_cumulative)
          (rw e
            (elim (Bool-cases (bytes_eq digest mine)) [ inl x ↦ rw x refl | inr x ↦ rw x refl ])))

  -- The cumulative digest that another node's tree has, of a round that is stable here and not
  -- before the last recovery, where the log has an entry of it with the digest of a tree, that
  -- digest is not one that this node is to send itself, both trees are well formed and their
  -- numbers have 64 bits: checkRecovery returns. Either both trees have the same leaves and nothing
  -- at all happens, or they differ and, as Recovers has it, a recovery is asked for unless one is
  -- pending, and the own digest is to be sent, or SHA-256 has a collision.
  pub check_recovery-agrees :
      (user_prefix : Name) (r : ℕ) (s t : State) (d : DiffState) (l : Logic)
      → Log.find r l.log ≡ some d
      → d.cumulative_digest ≡ some (get_digest t)
      → l.last_recovery_round ≤ r
      → r ≤ l.stable_round
      → 0 < l.stable_round
      → find_event (get_digest s) l.cumulative_digest_events ≡ none
      → IsValid s.leaves
      → IsValid t.leaves
      → InRange s.leaves
      → InRange t.leaves
      → let (result, k) = check_recovery user_prefix r (some (get_digest s)) l in
        (result ≡ ok tt)
        × (((s.leaves ≡ t.leaves) × (k ≡ l))
            ⊎ ((s.leaves ≢ t.leaves) × Recovers (prefix_back user_prefix 1) r (get_digest t) l k)
            ⊎ Collision)
  check_recovery-agrees user_prefix r s t d l f e q b p v w w' i i' =
      let done =
        check_recovery-compares user_prefix r (get_digest s) (get_digest t) d l f e q b p v in
      elim (Bool-cases (bytes_eq (get_digest s) (get_digest t))) [
        | inl x ↦ (
          ap (λ z. z.0) done,
          elim (get_digest_sound s t w w' i i' (bytes_eq_sound _ _ x)) [
            | inl same ↦ inl (same, ap (λ z. z.1) done ∙ rw x refl)
            | inr collision ↦ inr (inr collision)
          ],
        )
        | inr x ↦ (
          ap (λ z. z.0) done,
          inr (
              inl (
                λ same. cc (x, bytes_eq_refl (get_digest s), get_digest-leaves s t same),
                rw (done, x) (do_recovery-Recovers user_prefix r (get_digest t) l),
              )),
        )
      ]
