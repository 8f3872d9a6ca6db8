-- ===== src/Logic/Timeouts/Reco.antt =====
-- logic.cpp: how long recovery interests are repeated, and that a recovery is requested from a
-- prefix once at a time.
use round_sync.Base.{
  ◌+◌, ◌<◌, length, leb, add32, ◌≡◌, refl, sym, ap, ◌∙◌, inl, inr, true, false, Bool-cases, List,
  [], ◌∷◌, arith, if◌then◌else◌,
}
use round_sync.Ndn.{Ndn}
use round_sync.State.Lookup.{name_eq_refl}
use round_sync.Logic.{Logic, Event, millis, reco_interest, max_reco_interest_timeouts}
use round_sync.Logic.Calls.{schedule}
use round_sync.Logic.Recovery.{contains, erase, request_recovery}
use round_sync.Logic.Rounds.Move.{events_of}
use round_sync.Logic.Timeouts.{on_reco_interest_timeout}

module _ ⦃ndn : Ndn⦄ where
  open ndn use {Name, name_eq, name_eq_iff, prefix_back}

  contains-erase :
      (n m : Name) (ns : List Name)
      → contains m (erase n ns) ≡ (if name_eq n m then false else contains m ns)
  unfolding contains erase
  contains-erase n m [] = ground arith
  contains-erase n m (k ∷ ns) =
      ground (arith, contains-erase n m ns, name_eq_iff k n, name_eq_iff k m, name_eq_iff n m)

  request_recovery-pending :
      (p : Name) (l : Logic)
      → contains p l.pending_recovery_prefixes ≡ true
      → request_recovery p l ≡ l
  unfolding request_recovery
  request_recovery-pending p l c = rw (c, request_recovery) refl

  request_recovery-new :
      (p : Name) (l : Logic)
      → contains p l.pending_recovery_prefixes ≡ false
      → request_recovery p l ≡ record (schedule (millis 0) (reco_interest p) l) {
        pending_recovery_prefixes = p ∷ l.pending_recovery_prefixes;
      }
  unfolding request_recovery
  request_recovery-new p l c = rw (c, request_recovery) refl

  contains-head :
      (p m : Name) (ns : List Name)
      → contains m (p ∷ ns) ≡ (if name_eq p m then true else contains m ns)
  unfolding contains
  contains-head p m ns = refl

  contains-if :
      (p m : Name) (ns : List Name)
      → contains p ns ≡ true
      → contains m ns ≡ (if name_eq p m then true else contains m ns)
  contains-if p m ns c = elim (Bool-cases (name_eq p m)) [
    | inl e ↦ rw e (ap (λ (k : Name). contains k ns) (sym ((name_eq_iff p m).0 e)) ∙ c)
    | inr e ↦ rw e refl
  ]

  -- A request makes the prefix pending and leaves the others as they were, and it schedules an
  -- interest unless the prefix was pending already. A second request changes nothing.
  pub request_recovery-once :
      (p : Name) (l : Logic)
      → (request_recovery p (request_recovery p l) ≡ request_recovery p l)
        × ((m : Name)
            → contains m (request_recovery p l).pending_recovery_prefixes
              ≡ (if name_eq p m then true else contains m l.pending_recovery_prefixes))
        × (events_of (request_recovery p l).effects ≡ (
            if contains p l.pending_recovery_prefixes
            then events_of l.effects
            else reco_interest p ∷ events_of l.effects))
  request_recovery-once p l = elim (Bool-cases (contains p l.pending_recovery_prefixes)) [
    | inl c ↦
        let e = request_recovery-pending p l c in
        (
          ap (request_recovery p) e,
          λ m.
              ap (λ (k : Logic). contains m k.pending_recovery_prefixes) e
              ∙ contains-if p m l.pending_recovery_prefixes c,
          rw (e, c) refl,
        )
    | inr c ↦
        let asked = record (schedule (millis 0) (reco_interest p) l) {
          pending_recovery_prefixes = p ∷ l.pending_recovery_prefixes;
        } in
        let e = request_recovery-new p l c in
        let pending : contains p (p ∷ l.pending_recovery_prefixes) ≡ true =
          contains-head p p l.pending_recovery_prefixes ∙ rw (name_eq_refl p) refl in
        (
          ap (request_recovery p) e ∙ request_recovery-pending p asked pending ∙ sym e,
          λ m.
              ap (λ (k : Logic). contains m k.pending_recovery_prefixes) e
              ∙ contains-head p m l.pending_recovery_prefixes,
          rw (e, c) (unfold schedule events_of in refl),
        )
  ]

  -- Timeouts of recovery interests with these names, one after the other.
  unfoldable pub time_out : List Name → Logic → Logic
  time_out [] l = l
  time_out (name ∷ names) l = time_out names (on_reco_interest_timeout name l)

  -- The interests that are scheduled again, the last one first.
  abbrev pub repeated : List Name → List Event → List Event
  repeated [] es = es
  repeated (name ∷ names) es = repeated names (reco_interest (prefix_back name 1) ∷ es)

  on_reco_interest_timeout-repeats :
      (name : Name) (l : Logic)
      → l.number_reco_interest_timeouts + 1 < max_reco_interest_timeouts
      → on_reco_interest_timeout name l
        ≡ schedule
            (millis 0)
            (reco_interest (prefix_back name 1))
            (record l { number_reco_interest_timeouts = l.number_reco_interest_timeouts + 1 })
  unfolding on_reco_interest_timeout
  on_reco_interest_timeout-repeats name l h =
      let next : add32 l.number_reco_interest_timeouts 1 ≡ l.number_reco_interest_timeouts + 1 =
        omega (arith, h) in
      let more : leb max_reco_interest_timeouts (l.number_reco_interest_timeouts + 1) ≡ false =
        ground (arith, h) in
      rw next (rw more refl)

  on_reco_interest_timeout-gives_up :
      (name : Name) (l : Logic)
      → l.number_reco_interest_timeouts + 1 ≡ max_reco_interest_timeouts
      → on_reco_interest_timeout name l ≡ record l {
        number_reco_interest_timeouts = 0;
        pending_recovery_prefixes = erase (prefix_back name 1) l.pending_recovery_prefixes;
      }
  unfolding on_reco_interest_timeout
  on_reco_interest_timeout-gives_up name l h =
      let next : add32 l.number_reco_interest_timeouts 1 ≡ max_reco_interest_timeouts =
        omega (arith, h) in
      rw next refl

  -- Timeouts of recovery interests one after another, of any prefixes, from a count below five, the
  -- last of which brings it to five: each one before the last schedules its interest again, the
  -- last schedules none, the recovery of its prefix is not pending any more, the others are pending
  -- as before, and the count is 0.
  pub on_reco_interest_timeout-ends :
      (names : List Name) (last : Name) (l : Logic)
      → l.number_reco_interest_timeouts + length names + 1 ≡ max_reco_interest_timeouts
      → let l' = on_reco_interest_timeout last (time_out names l) in
        (events_of l'.effects ≡ repeated names (events_of l.effects))
        × (l'.number_reco_interest_timeouts ≡ 0)
        × ((m : Name)
            → contains m l'.pending_recovery_prefixes ≡ (
                if name_eq (prefix_back last 1) m
                then false
                else contains m l.pending_recovery_prefixes))
  unfolding time_out schedule events_of
  on_reco_interest_timeout-ends [] last l h =
      rw (on_reco_interest_timeout-gives_up last l (omega (arith, h)))
        (refl, refl, λ m. contains-erase (prefix_back last 1) m l.pending_recovery_prefixes)
  on_reco_interest_timeout-ends (name ∷ names) last l h =
      let again =
        schedule (millis 0) (reco_interest (prefix_back name 1))
          (record l { number_reco_interest_timeouts = l.number_reco_interest_timeouts + 1 }) in
      rw (on_reco_interest_timeout-repeats name l (omega (arith, h)))
        (on_reco_interest_timeout-ends names last again (omega (arith, h)))
