-- ===== src/RecoData.antt =====
-- reco-data.hpp and reco-data.cpp: the content of a recovery reply, a round and a whole state.
pub mod RoundTrip
use round_sync.Base.{
  ℕ, ◌+◌, ◌==◌, Option, none, some, List, [], ◌∷◌, if◌then◌else◌, Result, ok, err, ◌>>=◌,
  reco_data_error, ndn_error, undefined,
}
use round_sync.Ndn.{Ndn, Block}
use round_sync.Tlv.{
  Encoded, tlv, prepend_header, prepend_number_block, elements, recovery_data, round_no_type,
  state_type,
}
use round_sync.State.{State}
use round_sync.State.Wire.{wire_decode}
use round_sync.DiffState.{DiffState, empty_diff_state}
use round_sync.DataContent.{encode_state}

module _ ⦃ndn : Ndn⦄ where
  open ndn use {read_number}

  pub record RecoData : Type 0 where
    pub round_no : ℕ
    pub state : Option DiffState
    pub data_type : Option ℕ
    pub wire : Option (List ℕ)

  unfoldable pub make_reco : ℕ → Option DiffState → RecoData
  make_reco round_no state = record {
    round_no = round_no;
    state = state;
    data_type = none;
    wire = none;
  }

  -- `template<bool T> wireEncode(block)`
  unfoldable pub wire_encode_reco : RecoData → List ℕ → Encoded
  wire_encode_reco r buffer =
      let (b, n) = encode_state r.state buffer in
      let (b', n') = prepend_number_block round_no_type r.round_no b in
      prepend_header recovery_data (b', n + n')

  -- `wireEncode()`, which keeps its result in `m_wire`.
  unfoldable pub encode : RecoData → RecoData × List ℕ
  encode r = elim r.wire [
    | some w ↦ (r, w)
    | none ↦ let (bytes, n) = wire_encode_reco r [] in (record r { wire = some bytes }, bytes)
  ]

  unfoldable pub decode_reco_state : RecoData → List Block → Result RecoData
  decode_reco_state r [] = err undefined
  decode_reco_state r (b ∷ rest) = wire_decode empty_diff_state.state (some b) >>= λ (s : State).
      ok (record r { state = some (record empty_diff_state { state = s }) })

  unfoldable pub decode_reco_round : RecoData → List Block → Result RecoData
  unfolding decode_reco_state
  decode_reco_round r [] = err undefined
  decode_reco_round r (b ∷ rest) = elim (read_number b.value) [
    | none ↦ err ndn_error
    | some n ↦ decode_reco_state (record r { round_no = n }) rest
  ]

  unfoldable pub wire_decode_reco : RecoData → Option Block → Result RecoData
  unfolding decode_reco_round
  wire_decode_reco r none = err reco_data_error
  wire_decode_reco r (some b) =
      if b.type == recovery_data
      then (elements b >>= λ (bs : List Block).
          decode_reco_round (record r { data_type = some b.type; wire = some (tlv b.type b.value) })
            bs)
      else err reco_data_error
