-- ===== src/Logic/Process/Data.antt =====
-- logic.cpp: what processData does with a packet: what it takes in, when it moves to the next round,
-- and which exceptions leave it.
use round_sync.Base.{
  ℕ, ◌<◌, ◌≡◌, ◌≢◌, refl, ap, ◌∙◌, false, some, List, arith, if◌then◌else◌, ◌==◌, ◌&&◌, leb, add64,
  ok, err, data_content_error,
}
use round_sync.Ndn.{Ndn, Block}
use round_sync.Leaf.{Leaf}
use round_sync.State.{merge}
use round_sync.State.Sorted.{IsSorted}
use round_sync.Tlv.{data_only, cumulative_only, data_and_cumulative}
use round_sync.DiffState.{DiffState, append_exclude}
use round_sync.DataContent.{DataContent, default_content, wire_decode_content}
use round_sync.DataContent.RoundTrip.{wire_decode_content_refuses}
use round_sync.Logic.{Logic}
use round_sync.Logic.Exec.{component_at, number_at}
use round_sync.Logic.Rounds.{Commit, write}
use round_sync.Logic.Process.{
  absorb, absorb_leaves, absorb_content, note_cumulative_only, check_content, receive, commit_for,
  reset_timeouts, process_data,
}
use round_sync.Logic.Process.Absorb.{missing, follows, absorb_lem, absorb-missing}
use round_sync.Logic.Process.Seen.{
  Seen, seen, told, updates_of, seen-write, seen-record_commit, seen-leave_round, seen-call_back,
  seen-reset_timeouts,
}

module _ ⦃ndn : Ndn⦄ where
  open ndn use {Name, Component}

  -- What a node has seen after a packet of round `r` with new leaves.
  abbrev pub absorbed : ℕ → List Leaf → Logic → Seen
  absorbed r ls l = record (seen l) {
    state = merge l.state ls;
    old_state = if follows r l then merge l.old_state ls else l.old_state;
    current_round = if r == l.current_round then add64 l.current_round 1 else l.current_round;
    updates = told (missing l.state.leaves ls) (updates_of l.effects);
  }

  absorb_leaves_lem :
      (r : ℕ) (ls : List Leaf) (c : Commit) (l : Logic)
      → IsSorted ls
      → (d : Commit) × ((absorb_leaves r ls c l).0 ≡ ok d)
        × (seen (absorb_leaves r ls c l).1
            ≡ record (absorbed r ls l) { current_round = l.current_round })
  unfolding absorb_leaves
  absorb_leaves_lem r ls c l o = (
    (absorb r ls c l).1,
    refl,
    rw (absorb-missing r ls c l o, absorb_lem r ls c l) (seen-call_back _ _),
  )

  -- The part of processData after the content is decoded, for a content with a state alone.
  receive_lem :
      (r : ℕ) (c : Commit) (b : Block) (l : Logic) {content : DataContent} {d : DiffState}
      → wire_decode_content default_content (some b) ≡ ok content
      → content.data_type ≡ some data_only
      → content.state ≡ some d
      → IsSorted d.leaves
      → ((receive r c (some b) l).0 ≡ ok tt)
        × (seen (receive r c (some b) l).1 ≡ absorbed r d.leaves l)
  unfolding receive note_cumulative_only check_content absorb_content
  receive_lem r c b l {content} {d} h t s o =
      let (c', e, f) = absorb_leaves_lem r d.leaves c l o in
      rw (h, t, s)
        (rw e (
          refl,
          seen-record_commit r c' _
              ∙ seen-leave_round r _
              ∙ ap
                  (λ (s : Seen). record s {
                    current_round =
                        if r == s.current_round then add64 s.current_round 1 else s.current_round;
                  })
                  f,
        ))

  absorbed-seen :
      (r : ℕ) (ls : List Leaf) (l m : Logic) → seen l ≡ seen m → absorbed r ls l ≡ absorbed r ls m
  absorbed-seen r ls l m h =
      ap
        (λ (s : Seen). record s {
          state = merge s.state ls;
          old_state =
              if leb r s.last_recovery_round && s.stable_round == 0
              then merge s.old_state ls
              else s.old_state;
          current_round = if r == s.current_round then add64 s.current_round 1 else s.current_round;
          updates = told (missing s.state.leaves ls) s.updates;
        })
        h

  -- Data for a round after the stable one, which decodes to a DataOnly with a tree in order:
  -- processData returns; the state takes in every leaf, and so does the old state while it follows
  -- a recovery; the application is called with the leaves that were new, if there are any; a packet
  -- for the current round moves the node to the next one; the other rounds stay.
  pub process_data-absorbs :
      (name : Name) (b : Block) (l : Logic) {r : ℕ} {x : Component} {content : DataContent}
      {d : DiffState}
      → number_at name 2 ≡ ok r
      → component_at name 1 ≡ ok x
      → l.stable_round < r
      → wire_decode_content default_content (some b) ≡ ok content
      → content.data_type ≡ some data_only
      → content.state ≡ some d
      → IsSorted d.leaves
      → ((process_data name (some b) l).0 ≡ ok tt)
        × (seen (process_data name (some b) l).1 ≡ absorbed r d.leaves l)
  unfolding process_data
  process_data-absorbs name b l {r} {x} {content} {d} n e lt h t s o =
      let m = reset_timeouts r l in
      let c = commit_for r m in
      let c' = record c { diff = append_exclude x c.diff } in
      let m' = write r c' m in
      let same : seen m' ≡ seen l = seen-write r c' m ∙ seen-reset_timeouts r l in
      let late : leb r m.stable_round ≡ false =
        ap (λ (s : Seen). leb r s.stable_round) (seen-reset_timeouts r l) ∙ ground (arith, lt) in
      let (returned, taken) = receive_lem r c' b m' h t s o in
      rw (n, late, e) (rw returned (refl, taken ∙ absorbed-seen r d.leaves m' l same))

  receive-refuses :
      (r : ℕ) (c : Commit) (b : Block) (l : Logic)
      → wire_decode_content default_content (some b) ≡ err data_content_error
      → receive r c (some b) l ≡ (err data_content_error, l)
  unfolding receive
  receive-refuses r c b l h = rw h refl

  -- Only `State::Error` is caught: for a round after the stable one, the error of a content that is
  -- of none of the three types leaves processData. The node's trees and rounds are what they were,
  -- and the application is not called.
  pub process_data-throws :
      (name : Name) (b : Block) (l : Logic) {r : ℕ} {x : Component}
      → number_at name 2 ≡ ok r
      → component_at name 1 ≡ ok x
      → l.stable_round < r
      → b.type ≢ data_only
      → b.type ≢ cumulative_only
      → b.type ≢ data_and_cumulative
      → ((process_data name (some b) l).0 ≡ err data_content_error)
        × (seen (process_data name (some b) l).1 ≡ seen l)
  unfolding process_data
  process_data-throws name b l {r} {x} n e lt p q t =
      let m = reset_timeouts r l in
      let c = commit_for r m in
      let c' = record c { diff = append_exclude x c.diff } in
      let late : leb r m.stable_round ≡ false =
        ap (λ (s : Seen). leb r s.stable_round) (seen-reset_timeouts r l) ∙ ground (arith, lt) in
      let refused = wire_decode_content_refuses default_content b p q t in
      rw (n, late, e)
        (rw (receive-refuses r c' b (write r c' m) refused.0)
          (refl, seen-write r c' m ∙ seen-reset_timeouts r l))
