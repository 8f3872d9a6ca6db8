-- ===== src/Logic/Held/Packets.antt =====
-- What a node sends speaks of numbers that it holds: the contents that sendData, sendCumulativeOnly
-- and sendRecoData (logic.cpp) encode, read back by either decoder.
use round_sync.Base.{
  ℕ, ◌<◌, ◌≡◌, refl, sym, subst, ap, ◌∙◌, Option, none, some, List, [], ◌∷◌, arith, length,
  append-nil, u64_mod, ok, Bool-cases, inl, inr, false, ◌==◌,
}
use round_sync.Ndn.{Ndn, Block}
use round_sync.Leaf.{Leaf}
use round_sync.Tlv.{parse-wire_of, tlv, recovery_data, length-tlv}
use round_sync.State.Known.{Numbers, IsKept, IsKept-InRange}
use round_sync.DiffState.{DiffState}
use round_sync.DataContent.{
  DataContent, default_content, wire_encode_content, wire_decode_content, is_content_type,
}
use round_sync.DataContent.RoundTrip.{wire_decode_content-encode, leaves_of, IsSendable}
use round_sync.RecoData.{RecoData, make_reco, wire_encode_reco, wire_decode_reco}
use round_sync.RecoData.RoundTrip.{wire_decode_reco-encode}
use round_sync.Logic.Held.{ContentKept, RecoKept, Speaks}

module _ ⦃ndn : Ndn⦄ where
  open ndn use {parse}

  pub parse-tlv :
      (b : Block)
      → b.type < u64_mod
      → length b.value < u64_mod
      → parse (tlv b.type b.value) ≡ some (b ∷ [])
  parse-tlv b h w =
      ap parse (sym (append-nil (tlv b.type b.value))) ∙ parse-wire_of (b ∷ []) (h, w, tt)

  -- A block that one of the decoders takes is none of the other's.
  content_block-type :
      (b : Block) (r : DataContent)
      → wire_decode_content default_content (some b) ≡ ok r
      → (b.type < u64_mod) × ((b.type == recovery_data) ≡ false)
  unfolding wire_decode_content
  content_block-type b r h = elim (Bool-cases (is_content_type b.type)) [
    | inr e ↦ absurd (cc (rw e at h))
    | inl e ↦ ground (arith, e)
  ]

  pub reco_block-type :
      (b : Block) (o r : RecoData)
      → wire_decode_reco o (some b) ≡ ok r
      → (b.type < u64_mod) × (is_content_type b.type ≡ false)
  unfolding wire_decode_reco
  reco_block-type b o r h = elim (Bool-cases (b.type == recovery_data)) [
    | inr e ↦ absurd (cc (rw e at h))
    | inl e ↦ ground (arith, e)
  ]

module _ ⦃ndn : Ndn⦄ (k : Numbers) where
  open ndn use {Name, parse, parse_nil, parse_cons}

  abbrev pub StateKept : Option DiffState → Type 0
  StateKept o = (d : DiffState) → o ≡ some d → IsKept k d.leaves

  -- The one block of a content.
  kept_leaves : (o p : Option DiffState) → leaves_of o ≡ leaves_of p → StateKept p → StateKept o
  kept_leaves o none e h d s = absurd (cc (ap leaves_of (sym s) ∙ e))
  kept_leaves o (some q) e h d s =
      subst (IsKept k) (sym (some_eq (ap leaves_of (sym s) ∙ e))) (h q refl)
    where
      some_eq : {a b : List Leaf} → some a ≡ some b → a ≡ b
      some_eq y = cc y

  sendable : (o : Option DiffState) → StateKept o → IsSendable o
  sendable none h = tt
  sendable (some d) h =
      let p = h d refl in (p.valid, IsKept-InRange k d.state.leaves p.valid.sorted p.within)

  same_block :
      (b k : Block) (bytes : List ℕ)
      → bytes ≡ tlv b.type b.value
      → b.type < u64_mod
      → length bytes < u64_mod
      → parse bytes ≡ some (k ∷ [])
      → b ≡ k
  same_block b k bytes e t w p =
      let small : length b.value < u64_mod =
        omega (arith, ap length e, length-tlv b.type b.value) in
      head_eq (sym (ap parse e ∙ parse-tlv b t small) ∙ p)
    where
      head_eq : {a c : Block} → some (a ∷ []) ≡ some (c ∷ []) → a ≡ c
      head_eq y = cc y

  -- A content that is sent.
  pub content-Speaks :
      (c : DataContent)
      → c.round_no < u64_mod
      → StateKept c.state
      → Speaks k (wire_encode_content c []).0
  content-Speaks c n h small b p =
      let (sent, bytes, r, decoded, carried) =
        wire_decode_content-encode c n (sendable c.state h) small in
      let (t, other) = content_block-type sent r decoded in
      let same = same_block sent b (wire_encode_content c []).0 bytes t small p in
      subst (λ x. ContentKept k (some x) × RecoKept k (some x)) same
        (
          λ c' e.
              kept_leaves c'.state c.state
                (ap leaves_of (state_eq (sym e ∙ decoded)) ∙ carried.leaves) h,
          unfold wire_decode_reco in λ r' e. absurd (cc (rw other at e)),
        )
    where
      state_eq : {a c : DataContent} → ok a ≡ ok c → a.state ≡ c.state
      state_eq y = cc y

  -- A recovery reply that is sent.
  pub reco-Speaks :
      (n : ℕ) (d : DiffState)
      → n < u64_mod
      → IsKept k d.leaves
      → Speaks k (wire_encode_reco (make_reco n (some d)) []).0
  reco-Speaks n d w h small b p =
      let (sent, bytes, r, decoded, _, _, e, state, leaves) =
        wire_decode_reco-encode n d (make_reco 0 none) w h.valid
          (IsKept-InRange k d.leaves h.valid.sorted h.within) small in
      let (t, other) = reco_block-type sent (make_reco 0 none) r decoded in
      let same = same_block sent b (wire_encode_reco (make_reco n (some d)) []).0 bytes t small p in
      subst (λ x. ContentKept k (some x) × RecoKept k (some x)) same
        (
          unfold wire_decode_content in λ c' q. absurd (cc (rw other at q)),
          λ r' q.
              kept_leaves r'.state (some d)
                (ap leaves_of (state_eq (sym q ∙ decoded) ∙ state) ∙ ap (λ x. some x) leaves)
                (λ d' y. subst (IsKept k) (ap (λ (x : DiffState). x.leaves) (some_eq y)) h),
        )
    where
      state_eq : {a c : RecoData} → ok a ≡ ok c → a.state ≡ c.state
      state_eq y = cc y

      some_eq : {a c : DiffState} → some a ≡ some c → a ≡ c
      some_eq y = cc y
