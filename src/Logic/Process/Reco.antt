-- ===== src/Logic/Process/Reco.antt =====
-- logic.cpp: what processRecoData makes of a recovery reply, and the whole way from sendRecoData on
-- one node to processRecoData on another.
use round_sync.Base.{
  ℕ, ◌+◌, ◌<◌, ◌≡◌, refl, sym, subst, ap, ◌∙◌, inl, inr, Bool-cases, Option, none, some, List, [],
  ◌∷◌, length, arith, if◌then◌else◌, ltb, leb, add64, sub64, u64_mod, ok,
}
use round_sync.Ndn.{Ndn, Block}
use round_sync.Leaf.{Leaf}
use round_sync.Tlv.{tlv, recovery_data}
use round_sync.State.{State, find, merge, plus, reset}
use round_sync.State.Lookup.{seq_in, join, seq_in-merge}
use round_sync.State.Sorted.{IsSorted, IsValid, merge-IsValid, leaves_ext}
use round_sync.State.Merge.{seq_in-plus, plus_empty, plus-IsValid, best-eq-seq_in}
use round_sync.State.Digest.{InRange}
use round_sync.DiffState.{DiffState, empty_diff_state}
use round_sync.RecoData.{RecoData, make_reco, wire_encode_reco, wire_decode_reco}
use round_sync.RecoData
use round_sync.RecoData.RoundTrip.{wire_decode_reco-encode}
use round_sync.Logic.{Logic}
use round_sync.Logic.Calls.{send_reco_data}
use round_sync.Logic.Rounds.{move_to_new_current_round_after_recovery}
use round_sync.Logic.Process.{
  absorb_recovery, adopt_round, fish_back, restart_stabilization, recover, process_reco_data,
}
use round_sync.Logic.Process.Absorb.{missing, absorb_state_lem}
use round_sync.Logic.Process.Seen.{
  Seen, seen, told, updates_of, contents_of, seen-fish, seen-restart_interest, seen-cancel,
  seen-schedule_stable_state, seen-call_back,
}

module _ ⦃ndn : Ndn⦄ where
  open ndn use {Name}

  -- What a node has seen after a reply of round `r`: it has all leaves, no round is stable, and the
  -- candidate is the last round that is known to have data, the one before the current round.
  abbrev pub recovered : ℕ → List Leaf → Seen → Seen
  recovered r ls s =
      let last = if leb s.current_round r then r else sub64 s.current_round 1 in
      record s {
        state = merge s.state ls;
        old_state = plus (reset s.old_state) (merge s.state ls);
        current_round = if leb s.current_round r then add64 r 1 else s.current_round;
        stabilizing_round = last;
        stable_round = 0;
        last_recovery_round = last;
        updates = told (missing s.state.leaves ls) s.updates;
      }

  seen-absorb_recovery :
      (ls : List Leaf) (l : Logic)
      → IsSorted ls
      → seen (absorb_recovery ls l) ≡ record (seen l) {
        state = merge l.state ls;
        updates = told (missing l.state.leaves ls) (updates_of l.effects);
      }
  unfolding absorb_recovery
  seen-absorb_recovery ls l o = rw (absorb_state_lem ls l.state o) (seen-call_back _ _)

  pub seen-adopt_round :
      (r : ℕ) (l : Logic)
      → seen (adopt_round r l) ≡ record (seen l) {
        current_round = if leb l.current_round r then add64 r 1 else l.current_round;
        last_recovery_round = if leb l.current_round r then r else sub64 l.current_round 1;
      }
  unfolding adopt_round move_to_new_current_round_after_recovery
  seen-adopt_round r l = elim (Bool-cases (leb l.current_round r)) [
    | inl h ↦ rw h (seen-restart_interest _)
    | inr h ↦ rw h refl
  ]

  pub seen-fish_back : (l : Logic) → seen (fish_back l) ≡ seen l
  unfolding fish_back
  seen-fish_back l = seen-fish _ _ l

  pub seen-restart_stabilization :
      (l : Logic)
      → seen (restart_stabilization l) ≡ record (seen l) {
        stabilizing_round = l.last_recovery_round;
        stable_round = 0;
        old_state = plus (reset l.old_state) l.state;
      }
  unfolding restart_stabilization
  seen-restart_stabilization l = seen-schedule_stable_state _ ∙ seen-cancel _ _

  seen-recovered :
      (r : ℕ) (ls : List Leaf) (l : Logic)
      → IsSorted ls
      → seen (restart_stabilization (fish_back (adopt_round r (absorb_recovery ls l))))
        ≡ recovered r ls (seen l)
  seen-recovered r ls l o =
      let l1 = absorb_recovery ls l in
      let l2 = adopt_round r l1 in
      let restarted = λ (s : Seen). record s {
        stabilizing_round = s.last_recovery_round;
        stable_round = 0;
        old_state = plus (reset s.old_state) s.state;
      } in
      let adopted = λ (s : Seen). record s {
        current_round = if leb s.current_round r then add64 r 1 else s.current_round;
        last_recovery_round = if leb s.current_round r then r else sub64 s.current_round 1;
      } in
      seen-restart_stabilization (fish_back l2)
      ∙ ap restarted
          (seen-fish_back l2 ∙ seen-adopt_round r l1 ∙ ap adopted (seen-absorb_recovery ls l o))

  -- A reply that can be decoded restarts the node.
  process_reco_data_lem :
      (name : Name) (block : Option Block) (l : Logic) {reco : RecoData} {d : DiffState}
      → wire_decode_reco (make_reco 0 none) block ≡ ok reco
      → reco.data_type ≡ some recovery_data
      → reco.state ≡ some d
      → IsSorted d.leaves
      → ((process_reco_data name block l).0 ≡ ok tt)
        × (seen (process_reco_data name block l).1 ≡ recovered reco.round_no d.leaves (seen l))
  unfolding process_reco_data recover
  process_reco_data_lem name block l {reco} {d} h t s o =
      rw h (rw (t, s) (refl, seen-recovered reco.round_no d.leaves _ o))

  plus_onto_reset :
      (w : Option (List ℕ)) (s : State)
      → IsValid s.leaves
      → (plus (record { leaves = []; wire = w }) s).leaves ≡ s.leaves
  plus_onto_reset w s v =
      leaves_ext _ _ (plus-IsValid _ s (record { sorted = tt; fresh = tt })) v λ n.
        seq_in-plus (record { leaves = []; wire = w }) s n v ∙ (unfold seq_in find join in refl)

  seq_in-merge_sorted :
      (s : State) (ls : List Leaf) (n : Name)
      → IsSorted ls
      → seq_in (merge s ls).leaves n ≡ join (seq_in s.leaves n) (seq_in ls n)
  seq_in-merge_sorted s ls n o =
      seq_in-merge s ls n ∙ ap (join (seq_in s.leaves n)) (best-eq-seq_in n ls o)

  -- The rounds and the trees after a recovery.
  pub record IsRecovered (r : ℕ) (ls : List Leaf) (s t : Seen) : Type 0 where
    pub joined : (n : Name) → seq_in t.state.leaves n ≡ join (seq_in s.state.leaves n) (seq_in ls n)
    pub merged : t.state ≡ merge s.state ls
    pub rebuilt : t.old_state.leaves ≡ t.state.leaves
    pub no_stable : t.stable_round ≡ 0
    pub candidate : t.stabilizing_round ≡ t.last_recovery_round
    pub last : t.last_recovery_round + 1 ≡ t.current_round
    pub current : t.current_round ≡ (if ltb s.current_round (r + 1) then r + 1 else s.current_round)
    pub updates : t.updates ≡ told (missing s.state.leaves ls) s.updates

  recovered-IsRecovered :
      (r : ℕ) (ls : List Leaf) (s : Seen)
      → IsValid ls
      → IsValid s.state.leaves
      → 0 < s.current_round
      → s.current_round < u64_mod
      → r + 1 < u64_mod
      → IsRecovered r ls s (recovered r ls s)
  unfolding reset
  recovered-IsRecovered r ls s v w p q b = record {
    joined = λ n. seq_in-merge_sorted s.state ls n v.sorted;
    merged = refl;
    rebuilt = plus_onto_reset s.old_state.wire (merge s.state ls) (merge-IsValid s.state ls w);
    no_stable = refl;
    candidate = refl;
    last = ground arith;
    current = ground arith;
    updates = refl;
  }

  -- A recovery reply that decodes to a well-formed tree and a round with a successor of 64 bits, at
  -- a node with a well-formed tree and a positive current round of 64 bits: processRecoData
  -- returns; for each session the node has the greater of its number and the one received, the old
  -- state has exactly these leaves, no round is stable, the candidate is the round of the last
  -- recovery and the one before the current round, the current round is the later of its own and
  -- the one after the reply's, and the application is called with the leaves that were new, if
  -- there are any.
  pub process_reco_data-restarts :
      (name : Name) (block : Option Block) (l : Logic) {reco : RecoData} {d : DiffState}
      → wire_decode_reco (make_reco 0 none) block ≡ ok reco
      → reco.data_type ≡ some recovery_data
      → reco.state ≡ some d
      → IsValid d.leaves
      → IsValid l.state.leaves
      → 0 < l.current_round
      → l.current_round < u64_mod
      → reco.round_no + 1 < u64_mod
      → ((process_reco_data name block l).0 ≡ ok tt)
        × IsRecovered reco.round_no d.leaves (seen l) (seen (process_reco_data name block l).1)
  process_reco_data-restarts name block l {reco} {d} h t s v w p q b =
      let (returned, taken) = process_reco_data_lem name block l h t s v.sorted in
      (
        returned,
        subst (IsRecovered reco.round_no d.leaves (seen l)) (sym taken)
            (recovered-IsRecovered reco.round_no d.leaves (seen l) v w p q b),
      )

  -- The DiffState that sendRecoData makes, and the bytes of the reply.
  abbrev pub whole_state : Logic → DiffState
  whole_state a = record empty_diff_state { state = plus empty_diff_state.state a.state }

  abbrev pub reco_bytes : Logic → List ℕ
  reco_bytes a =
      (wire_encode_reco (make_reco (sub64 a.current_round 1) (some (whole_state a))) []).0

  pub contents_of-send_reco_data :
      (prefix name : Name) (a : Logic)
      → contents_of (send_reco_data prefix name a).effects ≡ reco_bytes a ∷ contents_of a.effects
  unfolding send_reco_data RecoData.encode make_reco contents_of
  contents_of-send_reco_data prefix name a = refl

  -- The reply of one node to another's recovery interest, where both trees are well formed, the
  -- sender's numbers have 64 bits, both current rounds are positive and have 64 bits, and the reply
  -- has fewer than 2 ^ 64 bytes: it is one block, the other node's processRecoData returns, and
  -- that node then has for each session the greater of the numbers of both, and is in the later of
  -- their rounds.
  pub process_reco_data-send_reco_data :
      (prefix reply name : Name) (a b : Logic)
      → IsValid a.state.leaves
      → InRange a.state.leaves
      → IsValid b.state.leaves
      → 0 < a.current_round
      → a.current_round < u64_mod
      → 0 < b.current_round
      → b.current_round < u64_mod
      → length (reco_bytes a) < u64_mod
      → (k : Block) × (contents_of (send_reco_data prefix reply a).effects
          ≡ tlv k.type k.value ∷ contents_of a.effects)
        × ((process_reco_data name (some k) b).0 ≡ ok tt)
        × ((n : Name)
            → seq_in (process_reco_data name (some k) b).1.state.leaves n
              ≡ join (seq_in b.state.leaves n) (seq_in a.state.leaves n))
        × ((process_reco_data name (some k) b).1.current_round
            ≡ (if ltb b.current_round a.current_round then a.current_round else b.current_round))
  process_reco_data-send_reco_data prefix reply name a b v i w p q p' q' h =
      let same : (whole_state a).state.leaves ≡ a.state.leaves = plus_empty a.state v in
      let round : sub64 a.current_round 1 + 1 ≡ a.current_round = ground arith in
      let (k, bytes, reco, decoded, kind, number, d, state, leaves) =
        wire_decode_reco-encode (sub64 a.current_round 1) (whole_state a) (make_reco 0 none)
          (omega arith) (rw same v) (rw same i) h in
      let all : d.leaves ≡ a.state.leaves = leaves ∙ same in
      let (returned, done) =
        process_reco_data-restarts name (some k) b decoded kind state (rw all v) w p' q'
          (rw number (rw round q)) in
      (
        k,
        contents_of-send_reco_data prefix reply a
            ∙ ap (λ (x : List ℕ). x ∷ contents_of a.effects) bytes,
        returned,
        λ n.
            done.joined n
            ∙ ap (λ (ls : List Leaf). join (seq_in b.state.leaves n) (seq_in ls n)) all,
        done.current ∙ (rw number (rw round refl)),
      )
