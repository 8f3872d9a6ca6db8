-- ===== src/Tests/Contents.antt =====
-- Examples of the theorems on the contents of packets.
use round_sync.Base.{◌≡◌, none, some, [], ◌∷◌, ◌++◌, length, arith, ok}
use round_sync.Ndn.{Block}
use round_sync.Tlv.{tlv, recovery_data}
use round_sync.Leaf.{make_leaf}
use round_sync.State.Wire.{encode_leaf, wire_encode_block}
use round_sync.DiffState.{DiffState}
use round_sync.DataContent.{
  DataContent, default_content, encode_state, encode_cumulative, kind_of, wire_encode_content,
  wire_decode_content,
}
use round_sync.DataContent.Encoding.{content_kind, content_value, wire_encode_content_lem}
use round_sync.DataContent.RoundTrip.{Carries, wire_decode_content-encode}
use round_sync.RecoData.{RecoData, make_reco, wire_encode_reco, wire_decode_reco}
use round_sync.RecoData.RoundTrip.{wire_decode_reco-encode}
use round_sync.Tests.Demo.{demo}
use round_sync.Tests.Data.{alice, two, two_leaves, two-IsValid, two-InRange, entry}

-- The state of round 1 with a cumulative digest of round 3.
abbrev both : DataContent
both = record {
  user_prefix = alice;
  round_no = 3;
  cumulative_digest = some (9 ∷ 9 ∷ []);
  state = some (entry 1 two);
  data_type = none;
  wire = none;
}

wire_encode_content_lem_example : wire_encode_content both (7 ∷ []) ≡ (
  tlv (content_kind both) (content_value both) ++ (7 ∷ []),
  length (tlv (content_kind both) (content_value both)),
)
wire_encode_content_lem_example = wire_encode_content_lem both (7 ∷ [])

wire_decode_content-encode_example :
    (b : Block) × ((wire_encode_content both []).0 ≡ tlv b.type b.value)
    × (r : DataContent) × (wire_decode_content default_content (some b) ≡ ok r)
    × Carries both r
unfolding wire_encode_content encode_state encode_cumulative kind_of wire_encode_block encode_leaf
    make_leaf
wire_decode_content-encode_example =
    wire_decode_content-encode both (omega arith) (two-IsValid, two-InRange) (omega arith)

wire_decode_reco-encode_example :
    (b : Block) × ((wire_encode_reco (make_reco 3 (some (entry 1 two))) []).0 ≡ tlv b.type b.value)
    × (r : RecoData) × (wire_decode_reco (make_reco 0 none) (some b) ≡ ok r)
    × (r.data_type ≡ some recovery_data)
    × (r.round_no ≡ 3)
    × (e : DiffState) × (r.state ≡ some e)
    × (e.state.leaves ≡ two_leaves)
unfolding wire_encode_reco make_reco encode_state wire_encode_block encode_leaf make_leaf
wire_decode_reco-encode_example =
    wire_decode_reco-encode 3 (entry 1 two) (make_reco 0 none) (omega arith) two-IsValid two-InRange
      (omega arith)
