-- ===== src/RecoData/RoundTrip.antt =====
-- reco-data.cpp: the encoder of a recovery reply, and the way back.
use round_sync.Base.{
  ℕ, ◌<◌, ◌≡◌, refl, ap, ◌∙◌, Option, some, List, [], ◌∷◌, ◌++◌, append_assoc, append-nil, length,
  length-append, arith, ok, u64_mod,
}
use round_sync.Ndn.{Ndn, Block}
use round_sync.Tlv.{
  Encoded, tlv, number_block, prepend_header_lem, wire_of, Fits, elements-wire_of, length-tlv,
  recovery_data, round_no_type, state_type,
}
use round_sync.State.Sorted.{IsValid}
use round_sync.State.Digest.{InRange}
use round_sync.State.Wire.{leaves_wire}
use round_sync.State.Encoding.{wire_decode_lem}
use round_sync.DiffState.{DiffState, empty_diff_state}
use round_sync.DataContent.Encoding.{state_blocks, encode_state_lem}
use round_sync.RecoData.{RecoData, make_reco, wire_encode_reco, decode_reco_round, wire_decode_reco}

module _ ⦃ndn : Ndn⦄ where
  open ndn use {read_number, read_number_bytes, number_bytes}

  abbrev round_block : ℕ → Block
  round_block n = record { type = round_no_type; value = number_bytes n }

  abbrev pub reco_value : ℕ → Option DiffState → List ℕ
  reco_value n o = wire_of (round_block n ∷ state_blocks o)

  pub wire_encode_reco_lem :
      (n : ℕ) (o : Option DiffState) (buffer : List ℕ)
      → wire_encode_reco (make_reco n o) buffer ≡ (
        tlv recovery_data (reco_value n o) ++ buffer,
        length (tlv recovery_data (reco_value n o)),
      )
  unfolding wire_encode_reco make_reco
  wire_encode_reco_lem n o buffer = ground (
    arith,
    encode_state_lem o buffer,
    append_assoc (number_block round_no_type n) (wire_of (state_blocks o)) buffer,
    length-append (number_block round_no_type n) (wire_of (state_blocks o)),
    prepend_header_lem recovery_data (reco_value n o) buffer,
  )

  bounds :
      (n : ℕ) (d : DiffState)
      → length (reco_value n (some d)) < u64_mod
      → Fits (round_block n ∷ state_blocks (some d))
  bounds n d h =
      let a = length-append (number_block round_no_type n) (wire_of (state_blocks (some d))) in
      let b = length-append (tlv state_type (leaves_wire d.state.leaves)) [] in
      let c = length-tlv round_no_type (number_bytes n) in
      let e = length-tlv state_type (leaves_wire d.state.leaves) in
      (omega arith, omega (arith, a, c), (omega arith, omega (arith, a, b, e), tt))

  -- A recovery reply with a round of 64 bits, a well-formed tree with numbers of 64 bits, and an
  -- encoding of fewer than 2 ^ 64 bytes: what `wireEncode` writes is one block, and `wireDecode`
  -- reads from it the type, the round and the leaves.
  pub wire_decode_reco-encode :
      (n : ℕ) (d : DiffState) (old : RecoData)
      → n < u64_mod
      → IsValid d.state.leaves
      → InRange d.state.leaves
      → length (wire_encode_reco (make_reco n (some d)) []).0 < u64_mod
      → (b : Block) × ((wire_encode_reco (make_reco n (some d)) []).0 ≡ tlv b.type b.value)
        × (r : RecoData) × (wire_decode_reco old (some b) ≡ ok r)
        × (r.data_type ≡ some recovery_data)
        × (r.round_no ≡ n)
        × (e : DiffState) × (r.state ≡ some e)
        × (e.state.leaves ≡ d.state.leaves)
  unfolding wire_decode_reco
  wire_decode_reco-encode n d old h v i l =
      let bytes = tlv recovery_data (reco_value n (some d)) in
      let e : (wire_encode_reco (make_reco n (some d)) []).0 ≡ bytes =
        ap (λ (x : Encoded). x.0) (wire_encode_reco_lem n (some d) []) ∙ append-nil bytes in
      let small : length (reco_value n (some d)) < u64_mod =
        omega (arith, ap length e, length-tlv recovery_data (reco_value n (some d))) in
      let f = bounds n d small in
      let (t, decoded, same) = wire_decode_lem d.state.leaves v i f.2.1 in
      let received = record empty_diff_state { state = t } in
      (
        record { type = recovery_data; value = reco_value n (some d) },
        e,
        record old {
          round_no = n;
          state = some received;
          data_type = some recovery_data;
          wire = some bytes;
        },
        rw (elements-wire_of recovery_data (round_block n ∷ state_blocks (some d)) f)
            (unfold decode_reco_round in ground (arith, read_number_bytes n h, decoded)),
        refl,
        refl,
        received,
        refl,
        same,
      )
