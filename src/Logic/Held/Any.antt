-- ===== src/Logic/Held/Any.antt =====
-- data-content.cpp and reco-data.cpp: a tree that is read from any block at all has its numbers in 64
-- bits.
use round_sync.Base.{
  ◌≡◌, sym, subst, ◌∙◌, inl, inr, ◌==◌, Bool-cases, Option, Option-cases, none, some, List, [], ◌∷◌,
  ok, >>=-ok,
}
use round_sync.Ndn.{Ndn, Block}
use round_sync.Tlv.{elements, tlv, state_type, cumulative_info_type, recovery_data}
use round_sync.State.{State}
use round_sync.State.Wire.{wire_decode}
use round_sync.State.Compare.{words}
use round_sync.State.Known.{IsKept, wire_decode-IsKept}
use round_sync.DiffState.{DiffState, empty_diff_state}
use round_sync.DataContent.{
  DataContent, default_content, decode_digest, decode_round, decode_prefix, decode_state,
  decode_parts, is_content_type, wire_decode_content,
}
use round_sync.RecoData.{
  RecoData, make_reco, decode_reco_state, decode_reco_round, wire_decode_reco,
}
use round_sync.Logic.Held.{ContentKept, RecoKept}
use round_sync.Logic.Held.Packets.{StateKept}

module _ ⦃ndn : Ndn⦄ where
  open ndn use {Name, read_number, read_name, read_component}

  decode_digest-state :
      (c r : DataContent) (bs : List Block) → decode_digest c bs ≡ ok r → r.state ≡ c.state
  unfolding decode_digest
  decode_digest-state c r [] h = cc h
  decode_digest-state c r (b ∷ bs) h = elim (Option-cases (read_component b)) [
    | inl e ↦ cc (rw (e, decode_digest) at h)
    | inr (cd, e) ↦ cc (rw (e, decode_digest) at h)
  ]

  decode_round-state :
      (c r : DataContent) (bs : List Block) → decode_round c bs ≡ ok r → r.state ≡ c.state
  unfolding decode_round
  decode_round-state c r [] h = cc h
  decode_round-state c r (b ∷ bs) h = elim (Option-cases (read_number b.value)) [
    | inl e ↦ cc (rw (e, decode_round) at h)
    | inr (n, e) ↦ decode_digest-state (record c { round_no = n }) r bs (rw (e, decode_round) at h)
  ]

  decode_prefix-state :
      (c r : DataContent) (bs : List Block) → decode_prefix c bs ≡ ok r → r.state ≡ c.state
  unfolding decode_prefix
  decode_prefix-state c r [] h = cc h
  decode_prefix-state c r (b ∷ bs) h = elim (Option-cases (read_name b)) [
    | inl e ↦ cc (rw (e, decode_prefix) at h)
    | inr (n, e) ↦
        decode_round-state (record c { user_prefix = n }) r bs (rw (e, decode_prefix) at h)
  ]

  -- The tree that is read from a block.
  decoded-StateKept :
      (o : Option DiffState) (b : Block) (s : State)
      → wire_decode empty_diff_state.state (some b) ≡ ok s
      → o ≡ some (record empty_diff_state { state = s })
      → StateKept words o
  decoded-StateKept o b s h e d q =
      subst (λ (x : DiffState). IsKept words x.leaves) (some_eq (sym e ∙ q))
        (wire_decode-IsKept words (λ n m w. w) (some b) s h)
    where
      some_eq : {x y : DiffState} → some x ≡ some y → x ≡ y
      some_eq z = cc z

  decode_state-StateKept :
      (c r : DataContent) (bs : List Block)
      → StateKept words c.state
      → decode_state c bs ≡ ok r
      → StateKept words r.state
  unfolding decode_state
  decode_state-StateKept c r [] k h = subst (StateKept words) (ok_eq h) k
    where
      ok_eq : {x y : DataContent} → ok x ≡ ok y → x.state ≡ y.state
      ok_eq z = cc z
  decode_state-StateKept c r (b ∷ bs) k h = elim (Bool-cases (b.type == state_type)) [
    | inr e ↦ subst (StateKept words) (ok_eq (rw e at h)) k
    | inl e ↦
        let (s, decoded, made) =
          >>=-ok (wire_decode empty_diff_state.state (some b)) _ (rw e at h) in
        decoded-StateKept r.state b s decoded (sym (ok_eq made))
  ]
    where
      ok_eq : {x y : DataContent} → ok x ≡ ok y → x.state ≡ y.state
      ok_eq z = cc z

  decode_parts-StateKept :
      (c r : DataContent) (bs : List Block)
      → StateKept words c.state
      → decode_parts c bs ≡ ok r
      → StateKept words r.state
  unfolding decode_parts
  decode_parts-StateKept c r [] k h = subst (StateKept words) (ok_eq h) k
    where
      ok_eq : {x y : DataContent} → ok x ≡ ok y → x.state ≡ y.state
      ok_eq z = cc z
  decode_parts-StateKept c r (b ∷ bs) k h = elim (Bool-cases (b.type == cumulative_info_type)) [
    | inr e ↦ decode_state-StateKept c r (b ∷ bs) k (rw e at h)
    | inl e ↦
        let (fields, _, made) = >>=-ok (elements b) _ (rw e at h) in
        let (c', prefix, rest) = >>=-ok (decode_prefix c fields) _ made in
        decode_state-StateKept c' r bs
          (subst (StateKept words) (sym (decode_prefix-state c c' fields prefix)) k) rest
  ]

  -- A tree that is read from any content at all.
  pub any-ContentKept : (content : Option Block) → ContentKept words content
  unfolding wire_decode_content default_content
  any-ContentKept none c h = cc h
  any-ContentKept (some b) c h = elim (Bool-cases (is_content_type b.type)) [
    | inr e ↦ absurd (cc (rw e at h))
    | inl e ↦
        let (parts, _, made) = >>=-ok (elements b) _ (rw e at h) in
        decode_parts-StateKept
          (record default_content { data_type = some b.type; wire = some (tlv b.type b.value) }) c
          parts (λ d q. absurd (cc q)) made
  ]

  decode_reco_state-StateKept :
      (o r : RecoData) (bs : List Block) → decode_reco_state o bs ≡ ok r → StateKept words r.state
  unfolding decode_reco_state
  decode_reco_state-StateKept o r [] h = absurd (cc h)
  decode_reco_state-StateKept o r (b ∷ bs) h =
      let (s, decoded, made) = >>=-ok (wire_decode empty_diff_state.state (some b)) _ h in
      decoded-StateKept r.state b s decoded (sym (ok_eq made))
    where
      ok_eq : {x y : RecoData} → ok x ≡ ok y → x.state ≡ y.state
      ok_eq z = cc z

  decode_reco_round-StateKept :
      (o r : RecoData) (bs : List Block) → decode_reco_round o bs ≡ ok r → StateKept words r.state
  unfolding decode_reco_round
  decode_reco_round-StateKept o r [] h = absurd (cc h)
  decode_reco_round-StateKept o r (b ∷ bs) h = elim (Option-cases (read_number b.value)) [
    | inl e ↦ absurd (cc (rw (e, decode_reco_round) at h))
    | inr (n, e) ↦
        decode_reco_state-StateKept (record o { round_no = n }) r bs
          (rw (e, decode_reco_round) at h)
  ]

  pub any-RecoKept : (content : Option Block) → RecoKept words content
  unfolding wire_decode_reco
  any-RecoKept none r h = cc h
  any-RecoKept (some b) r h = elim (Bool-cases (b.type == recovery_data)) [
    | inr e ↦ absurd (cc (rw e at h))
    | inl e ↦
        let (parts, _, made) = >>=-ok (elements b) _ (rw e at h) in
        decode_reco_round-StateKept
          (record (make_reco 0 none) { data_type = some b.type; wire = some (tlv b.type b.value) })
          r parts made
  ]
