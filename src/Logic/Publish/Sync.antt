-- ===== src/Logic/Publish/Sync.antt =====
-- logic.cpp: what a node makes of the sync interest of another: the digests of the two rounds agree
-- exactly where their trees do.
use round_sync.Base.{
  ℕ, ◌<◌, ◌≡◌, ◌≢◌, refl, sym, ap, ◌∙◌, ◌⊎◌, inl, inr, true, false, Bool-cases, Option, none, some,
  List, ◌∷◌, arith, if◌then◌else◌, leb, u64_mod, ok,
}
use round_sync.Ndn.{Ndn}
use round_sync.State.{State, get_digest}
use round_sync.State.Sorted.{IsValid}
use round_sync.State.Compare.{get_digest-leaves}
use round_sync.State.Digest.{InRange, Collision, get_digest_sound}
use round_sync.DiffState.{DiffState}
use round_sync.Log
use round_sync.Logic.{Logic, data_interest, sync_interest}
use round_sync.Logic.Exec.{component_at, number_at}
use round_sync.Logic.Calls.{schedule, cancel, sync_interest_name}
use round_sync.Logic.Rounds.{digests_differ, check_entry, check_round_digests}
use round_sync.Logic.Rounds.Move.{events_of}
use round_sync.Logic.Publish.{process_sync_interest}

module _ ⦃ndn : Ndn⦄ where
  open ndn use {
    Name, empty_name, append, append_name, from_number, sync_component, component_eq,
    component_eq_iff, from_buffer, component_value, component_value_from_buffer, get_back_last,
    get_back_before, to_number_from_number,
  }

  -- The name of a sync interest up to its round.
  abbrev up_to_type : Logic → Name
  up_to_type a = append (append_name empty_name a.sync_prefix) sync_component

  pub sync_interest_name-number :
      (a : Logic) (r : ℕ) (digest : List ℕ)
      → r < u64_mod
      → number_at (sync_interest_name a r digest) 2 ≡ ok r
  unfolding sync_interest_name
  sync_interest_name-number a r digest h = ground (
    arith,
    get_back_before (append (up_to_type a) (from_number r)) (from_buffer digest) 0,
    get_back_last (up_to_type a) (from_number r),
    to_number_from_number r h,
  )

  pub sync_interest_name-digest :
      (a : Logic) (r : ℕ) (digest : List ℕ)
      → component_at (sync_interest_name a r digest) 1 ≡ ok (from_buffer digest)
  unfolding sync_interest_name
  sync_interest_name-digest a r digest =
      ground (arith, get_back_last (append (up_to_type a) (from_number r)) (from_buffer digest))

  events_of-cancel :
      (id : Option ℕ) (l : Logic) → events_of (cancel id l).effects ≡ events_of l.effects
  unfolding cancel events_of
  events_of-cancel none l = refl
  events_of-cancel (some id) l = refl

  events_of-digests_differ :
      (r : ℕ) (d : DiffState) (l : Logic)
      → events_of (digests_differ r d l).effects
        ≡ sync_interest r ∷ data_interest r 1 ∷ events_of l.effects
  unfolding digests_differ schedule events_of
  events_of-digests_differ r d l = events_of-cancel d.sync_event _

  from_buffer-injective : (x y : List ℕ) → from_buffer x ≡ from_buffer y → x ≡ y
  from_buffer-injective x y h =
      sym (component_value_from_buffer x) ∙ ap component_value h ∙ component_value_from_buffer y

  check_round_digests-entry :
      (r : ℕ) (digest rd : List ℕ) (d : DiffState) (b : Logic)
      → Log.find r b.log ≡ some d
      → d.round_digest ≡ some rd
      → check_round_digests r digest b ≡ (
          if component_eq (from_buffer digest) (from_buffer rd)
          then (ok true, b)
          else (ok false, digests_differ r d b))
  unfolding check_round_digests check_entry
  check_round_digests-entry r digest rd d b f e = rw f (ground (arith, e))

  -- The answer to a sync interest of a round that is past and after the last recovery.
  process_sync_interest-entry :
      (a b : Logic) (r : ℕ) (digest rd : List ℕ) (d : DiffState)
      → r < u64_mod
      → r < b.current_round
      → b.last_recovery_round < r
      → Log.find r b.log ≡ some d
      → d.round_digest ≡ some rd
      → process_sync_interest (sync_interest_name a r digest) b ≡ (
        ok tt,
        if component_eq (from_buffer digest) (from_buffer rd) then b else digests_differ r d b,
      )
  unfolding process_sync_interest
  process_sync_interest-entry a b r digest rd d h c q f e =
      let late : leb b.current_round r ≡ false = ground (arith, c) in
      let later : leb r b.last_recovery_round ≡ false = ground (arith, q) in
      rw (sync_interest_name-number a r digest h, sync_interest_name-digest a r digest, late, later)
        (rw (component_value_from_buffer digest, check_round_digests-entry r digest rd d b f e)
          (elim (Bool-cases (component_eq (from_buffer digest) (from_buffer rd))) [
            | inl x ↦ rw x refl
            | inr x ↦ rw x refl
          ]))

  -- The sync interest that another node sends for a 64-bit round that is past here and after the
  -- last recovery, where this node's log has an entry with its digest, both trees are well formed
  -- and their numbers have 64 bits: either both have the same leaves and nothing at all happens, or
  -- they differ, processSyncInterest returns, and the events for the data of the round and for the
  -- own digest are scheduled, or SHA-256 has a collision.
  pub process_sync_interest-agrees :
      (a b : Logic) (r : ℕ) (s : State) (d : DiffState)
      → r < u64_mod
      → r < b.current_round
      → b.last_recovery_round < r
      → Log.find r b.log ≡ some d
      → d.round_digest ≡ some (get_digest d.state)
      → IsValid s.leaves
      → IsValid d.state.leaves
      → InRange s.leaves
      → InRange d.state.leaves
      → ((s.leaves ≡ d.state.leaves)
          × (process_sync_interest (sync_interest_name a r (get_digest s)) b ≡ (ok tt, b)))
        ⊎ ((s.leaves ≢ d.state.leaves)
            × ((process_sync_interest (sync_interest_name a r (get_digest s)) b).0 ≡ ok tt)
            × (events_of (process_sync_interest (sync_interest_name a r (get_digest s)) b).1.effects
                ≡ sync_interest r ∷ data_interest r 1 ∷ events_of b.effects))
        ⊎ Collision
  process_sync_interest-agrees a b r s d h c q f e v w i k =
      let mine = get_digest d.state in
      let answer = process_sync_interest-entry a b r (get_digest s) mine d h c q f e in
      let test = component_eq_iff (from_buffer (get_digest s)) (from_buffer mine) in
      elim (Bool-cases (component_eq (from_buffer (get_digest s)) (from_buffer mine))) [
        | inl x ↦ elim (get_digest_sound s d.state v w i k (from_buffer-injective _ _ (test.0 x))) [
          | inl same ↦ inl (same, rw answer (rw x refl))
          | inr collision ↦ inr (inr collision)
        ]
        | inr x ↦ inr (
            inl (
              λ same. cc (x, test.1 (ap from_buffer (get_digest-leaves s d.state same))),
              rw answer refl,
              rw answer (rw x (events_of-digests_differ r d b)),
            ))
      ]
