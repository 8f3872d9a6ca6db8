-- ===== src/Logic/Held/Sends.antt =====
-- sendData, sendCumulativeOnly and sendRecoData (logic.cpp) send what the node holds.
use round_sync.Base.{
  ℕ, ◌<◌, ◌≡◌, refl, sym, subst, Option, none, some, Option-cases, List, [], ◌∷◌, arith, inl, inr,
  Bool-cases, sub64, u64_mod,
}
use round_sync.Ndn.{Ndn}
use round_sync.State.{plus, empty_state}
use round_sync.State.Known.{Numbers, IsKept, empty-IsKept, plus-IsKept}
use round_sync.DiffState.{DiffState, empty_diff_state, append_exclude}
use round_sync.DataContent.{DataContent, make_content, well_formed, wire_encode_content}
use round_sync.DataContent
use round_sync.RecoData.{make_reco, wire_encode_reco}
use round_sync.RecoData
use round_sync.Log
use round_sync.Log.{put-IsOrdered, find_round}
use round_sync.Logic.{Logic}
use round_sync.Logic.Calls.{
  satisfy, send_data, send_cumulative_only, send_reco_data, exclude_in_log, digest_component,
  packet_of, info_round, info_digest,
}
use round_sync.Logic.Process.Seen.{contents_of}
use round_sync.Logic.Held.{Trees, trees, IsHeld, EntryKept, Speaks, Keeps, Any}
use round_sync.Logic.Held.Same.{trees-satisfy}
use round_sync.Logic.Held.Packets.{content-Speaks, reco-Speaks}
use round_sync.Logic.Held.Entries.{excluding, find-EntryKept, put-AllEntries, with_log}

module _ ⦃ndn : Ndn⦄ (k : Numbers) (me : ndn.Name) where
  open ndn use {Name}
  open k use {Known, zero_known}

  with_packet :
      (t : Trees) (c : List ℕ)
      → IsHeld k me t
      → Speaks k c
      → IsHeld k me (record t { contents = c ∷ t.contents })
  with_packet t c p h = record {
    session = p.session;
    state = p.state;
    old_state = p.old_state;
    log = p.log;
    ordered = p.ordered;
    contents = (h, p.contents);
  }

  satisfy-IsHeld :
      (n : Name) (l : Logic) → IsHeld k me (trees l) → IsHeld k me (trees (satisfy n l))
  satisfy-IsHeld n l p = subst (IsHeld k me) (sym (trees-satisfy n l)) p

  pub send_data-Keeps :
      (prefix name : Name) (d : DiffState)
      → EntryKept k d
      → Keeps
          (λ l. IsHeld k me (trees l))
          (send_data prefix name d)
          (λ d'. EntryKept k d' × (d'.round ≡ d.round))
  unfolding append_exclude send_data make_content DataContent.encode contents_of
  send_data-Keeps prefix name d h = record {
    at = λ l p.
        let c =
          make_content l.session_name (info_round d.cumulative_info) (info_digest d.cumulative_info)
            (some d) in
        let packet = packet_of l name (wire_encode_content c []).0 in
        elim (Bool-cases (well_formed c)) [
          | inr e ↦ rw e p
          | inl e ↦ rw e (
            (excluding k d (digest_component packet) h, refl),
            satisfy-IsHeld name _ (
                with_packet (trees l) _ p (
                  content-Speaks k c h.round_fits
                    (λ x y. subst (λ (z : DiffState). IsKept k z.leaves) (some_eq y) h.kept))),
          )
        ];
  }
    where
      some_eq : {a b : DiffState} → some a ≡ some b → a ≡ b
      some_eq y = cc y

  exclude_in_log-IsHeld :
      (r : ℕ) (c : ndn.Component) (l : Logic)
      → IsHeld k me (trees l)
      → IsHeld k me (trees (exclude_in_log r c l))
  exclude_in_log-IsHeld r c l p = elim (Option-cases (Log.find r l.log)) [
    | inl e ↦ rw (e, exclude_in_log) p
    | inr (d, e) ↦
        rw (e, exclude_in_log)
          (with_log k me (trees l) (Log.put r (append_exclude c d) l.log) l.old_state p
            (put-AllEntries k r _ l.log (excluding k d c (find-EntryKept k r l.log d p.log e))
              p.log)
            (put-IsOrdered r _ l.log (unfold append_exclude in find_round r l.log {d = d} e)
              p.ordered)
            p.old_state)
  ]

  pub send_cumulative_only-Keeps :
      (name : Name) (r : ℕ) (digest : Option (List ℕ))
      → r < u64_mod
      → Keeps (λ l. IsHeld k me (trees l)) (send_cumulative_only name r digest) Any
  unfolding send_cumulative_only make_content DataContent.encode contents_of
  send_cumulative_only-Keeps name r digest h = record {
    at = λ l p.
        let c = make_content l.session_name r digest none in
        let packet = packet_of l name (wire_encode_content c []).0 in
        let m = exclude_in_log r (digest_component packet) l in
        elim (Bool-cases (well_formed c)) [
          | inr e ↦ rw e p
          | inl e ↦ rw e (
            tt,
            satisfy-IsHeld name _ (
                with_packet (trees m) _ (exclude_in_log-IsHeld r (digest_component packet) l p)
                  (content-Speaks k c h (λ x y. absurd (cc y)))),
          )
        ];
  }

  pub send_reco_data-IsHeld :
      (prefix name : Name) (l : Logic)
      → l.current_round < u64_mod
      → IsHeld k me (trees l)
      → IsHeld k me (trees (send_reco_data prefix name l))
  unfolding send_reco_data make_reco RecoData.encode contents_of
  send_reco_data-IsHeld prefix name l w p = with_packet (trees l) _ p (
      reco-Speaks k (sub64 l.current_round 1)
        (record empty_diff_state { state = plus empty_diff_state.state l.state }) (omega arith)
        (plus-IsKept k empty_state l.state (empty-IsKept k) p.state))
