-- ===== src/Network/Exchange.antt =====
-- A recovery reply on its way from one node to another (logic.cpp, reco-data.cpp), and what two
-- nodes have after a reply each way.
use round_sync.Base.{
  ℕ, ◌+◌, ◌<◌, ◌≡◌, refl, sym, subst, ap, ◌∙◌, Option, none, some, List, length, if◌then◌else◌, ltb,
  sub64, u64_mod, arith, ok,
}
use round_sync.Ndn.{Ndn}
use round_sync.Leaf.{Leaf}
use round_sync.Tlv.{recovery_data, length-tlv}
use round_sync.State.{State, merge}
use round_sync.State.Lookup.{seq_in, join, join_comm, join_assoc, join_idem}
use round_sync.State.Sorted.{leaves_ext}
use round_sync.State.Merge.{plus_empty}
use round_sync.State.Known.{Numbers, IsKept, IsKept-InRange, merge-IsKept}
use round_sync.DiffState.{DiffState}
use round_sync.RecoData.{RecoData, make_reco, wire_decode_reco}
use round_sync.RecoData.RoundTrip.{wire_decode_reco-encode}
use round_sync.Logic.{Logic}
use round_sync.Logic.Process.{process_reco_data}
use round_sync.Logic.Process.Reco.{process_reco_data-restarts, whole_state, reco_bytes}
use round_sync.Logic.Held.Packets.{parse-tlv, reco_block-type}
use round_sync.Network.{block_from_value, one_block}

pub join_both : (a b : Option ℕ) → join a (join b a) ≡ join b a
join_both a b = join_comm a (join b a) ∙ join_assoc b a a ∙ ap (join b) (join_idem a)

module _ ⦃ndn : Ndn⦄ where
  open ndn use {Name}

  -- A node after the recovery reply of another.
  abbrev pub after_reply : Name → Logic → Logic → Logic
  after_reply name a b = (process_reco_data name (block_from_value (reco_bytes a)) b).1

module _ ⦃ndn : Ndn⦄ (k : Numbers) where
  open ndn use {Name, parse}

  -- A node that can take part: its tree can be sent, and its round has 64 bits.
  pub record CanReply (a : Logic) : Type 0 where
    pub kept : IsKept k a.state.leaves
    pub positive : 0 < a.current_round
    pub bounded : a.current_round < u64_mod

  -- The reply of a node, as another gets it: the round before the current one and all leaves.
  pub reply_lem :
      (a : Logic)
      → CanReply a
      → length (reco_bytes a) < u64_mod
      → (r : RecoData) × (wire_decode_reco (make_reco 0 none) (block_from_value (reco_bytes a))
          ≡ ok r)
        × (r.data_type ≡ some recovery_data)
        × (r.round_no + 1 ≡ a.current_round)
        × (d : DiffState) × (r.state ≡ some d)
        × (d.leaves ≡ a.state.leaves)
  unfolding block_from_value
  reply_lem a h small =
      let same : (whole_state a).state.leaves ≡ a.state.leaves = plus_empty a.state h.kept.valid in
      let round : sub64 a.current_round 1 + 1 ≡ a.current_round =
        ground (arith, h.positive, h.bounded) in
      let (b, bytes, r, decoded, kind, number, d, state, leaves) =
        wire_decode_reco-encode (sub64 a.current_round 1) (whole_state a) (make_reco 0 none)
          (omega arith) (rw same h.kept.valid)
          (rw same (IsKept-InRange k a.state.leaves h.kept.valid.sorted h.kept.within)) small in
      let (t, _) = reco_block-type b (make_reco 0 none) r decoded in
      let fits : length b.value < u64_mod =
        omega (arith, ap length bytes, length-tlv b.type b.value) in
      let arrives : one_block (parse (reco_bytes a)) ≡ some b =
        ap (λ x. one_block (parse x)) bytes ∙ ap one_block (parse-tlv b t fits) in
      (
        r,
        ap (wire_decode_reco (make_reco 0 none)) arrives ∙ decoded,
        kind,
        rw number round,
        d,
        state,
        leaves ∙ same,
      )

  -- What the other node has then.
  pub reply-recovers :
      (name : Name) (a b : Logic)
      → CanReply a
      → CanReply b
      → length (reco_bytes a) < u64_mod
      → ((process_reco_data name (block_from_value (reco_bytes a)) b).0 ≡ ok tt)
        × CanReply (after_reply name a b)
        × ((after_reply name a b).state ≡ merge b.state a.state.leaves)
        × ((n : Name)
            → seq_in (after_reply name a b).state.leaves n
              ≡ join (seq_in b.state.leaves n) (seq_in a.state.leaves n))
        × ((after_reply name a b).current_round
            ≡ (if ltb b.current_round a.current_round then a.current_round else b.current_round))
  reply-recovers name a b h g small =
      let (r, decoded, kind, round, d, state, leaves) = reply_lem a h small in
      let (returned, done) =
        process_reco_data-restarts name (block_from_value (reco_bytes a)) b decoded kind state
          (rw leaves h.kept.valid) g.kept.valid g.positive g.bounded (rw round h.bounded) in
      let merged : (after_reply name a b).state ≡ merge b.state a.state.leaves =
        done.merged ∙ ap (merge b.state) leaves in
      let current : (after_reply name a b).current_round
          ≡ (if ltb b.current_round a.current_round then a.current_round else b.current_round) =
        done.current ∙ (rw round refl) in
      (
        returned,
        record {
          kept =
              subst (λ (s : State). IsKept k s.leaves) (sym merged)
                (merge-IsKept k b.state a.state.leaves g.kept h.kept);
          positive = ground (arith, current, h.positive, g.positive);
          bounded = ground (arith, current, h.bounded, g.bounded);
        },
        merged,
        (λ n.
            done.joined n
            ∙ ap (λ (ls : List Leaf). join (seq_in b.state.leaves n) (seq_in ls n)) leaves),
        current,
      )

  pub replies-agree :
      (name name' : Name) (a b : Logic)
      → CanReply a
      → CanReply b
      → let b' = after_reply name a b in
        let a' = after_reply name' b' a in
        length (reco_bytes a) < u64_mod
        → length (reco_bytes b') < u64_mod
        → (a'.state.leaves ≡ b'.state.leaves)
          × (a'.current_round ≡ b'.current_round)
          × ((n : Name)
              → seq_in a'.state.leaves n ≡ join (seq_in a.state.leaves n) (seq_in b.state.leaves n))
  replies-agree name name' a b h g small small' =
      let b' = after_reply name a b in
      let (_, h', _, joined, round) = reply-recovers name a b h g small in
      let (_, g', _, joined', round') = reply-recovers name' b' a h' h small' in
      let numbers = λ (n : Name).
        joined' n
        ∙ ap (join (seq_in a.state.leaves n)) (joined n)
        ∙ join_both (seq_in a.state.leaves n) (seq_in b.state.leaves n) in
      (
        leaves_ext _ _ g'.kept.valid h'.kept.valid (λ n. numbers n ∙ sym (joined n)),
        ground (arith, round, round'),
        λ n. numbers n ∙ join_comm (seq_in b.state.leaves n) (seq_in a.state.leaves n),
      )
