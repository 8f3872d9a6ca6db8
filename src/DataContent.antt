-- ===== src/DataContent.antt =====
-- data-content.hpp and data-content.cpp: the content of a Data packet. It has the state of a round,
-- or the cumulative digest of a round with its producer, or both.
pub mod Encoding
pub mod RoundTrip
use round_sync.Base.{
  ℕ, ◌+◌, ◌==◌, ◌&&◌, ◌||◌, not, is_some, Bool, true, false, Option, none, some, List, [], ◌∷◌,
  if◌then◌else◌, Result, ok, err, ◌>>=◌, data_content_error, ndn_error, undefined,
}
use round_sync.Ndn.{Ndn, Block}
use round_sync.Leaf.{name_wire}
use round_sync.Tlv.{
  Encoded, prepend, tlv, prepend_header, prepend_number_block, elements, data_only, cumulative_only,
  data_and_cumulative, cumulative_info_type, round_no_type, state_type,
}
use round_sync.State.{State}
use round_sync.State.Wire.{wire_encode_block, wire_decode}
use round_sync.DiffState.{DiffState, empty_diff_state}

module _ ⦃ndn : Ndn⦄ where
  open ndn use {Name, name_eq, empty_name, read_name, read_number, component_type, read_component}

  -- `m_dataType` is none until a decode sets it.
  pub record DataContent : Type 0 where
    pub user_prefix : Name
    pub round_no : ℕ
    pub cumulative_digest : Option (List ℕ)
    pub state : Option DiffState
    pub data_type : Option ℕ
    pub wire : Option (List ℕ)

  unfoldable pub make_content : Name → ℕ → Option (List ℕ) → Option DiffState → DataContent
  make_content user_prefix round_no cumulative_digest state = record {
    user_prefix = user_prefix;
    round_no = round_no;
    cumulative_digest = cumulative_digest;
    state = state;
    data_type = none;
    wire = none;
  }

  unfoldable pub default_content : DataContent
  unfolding make_content
  default_content = make_content empty_name 0 none none

  unfoldable pub encode_state : Option DiffState → List ℕ → Encoded
  encode_state none buffer = (buffer, 0)
  encode_state (some d) buffer = prepend_header state_type (wire_encode_block d.state buffer)

  unfoldable pub encode_cumulative : DataContent → Option (List ℕ) → List ℕ → Encoded
  encode_cumulative c none buffer = (buffer, 0)
  encode_cumulative c (some digest) buffer =
      let (b, n) = prepend (tlv component_type digest) buffer in
      let (b', n') = prepend_number_block round_no_type c.round_no b in
      let (b'', n'') = prepend (name_wire c.user_prefix) b' in
      prepend_header cumulative_info_type (b'', n + n' + n'')

  unfoldable pub kind_of : Bool → Bool → ℕ
  kind_of has_state has_digest =
      if not (has_state && has_digest)
      then if has_state
        then data_only
        else if has_digest
        then cumulative_only
        else data_and_cumulative
      else data_and_cumulative

  -- `template<bool T> wireEncode(block)`
  unfoldable pub wire_encode_content : DataContent → List ℕ → Encoded
  wire_encode_content c buffer =
      let (b, n) = encode_state c.state buffer in
      let (b', n') = encode_cumulative c c.cumulative_digest b in
      prepend_header (kind_of (is_some c.state) (is_some c.cumulative_digest)) (b', n + n')

  -- `wireEncode()`, which keeps its result in `m_wire`.
  unfoldable pub encode : DataContent → DataContent × List ℕ
  encode c = elim c.wire [
    | some w ↦ (c, w)
    | none ↦ let (bytes, n) = wire_encode_content c [] in (record c { wire = some bytes }, bytes)
  ]

  -- The elements of a cumulative information: the prefix, the round and the digest.
  unfoldable pub decode_digest : DataContent → List Block → Result DataContent
  decode_digest c [] = err undefined
  decode_digest c (b ∷ rest) = elim (read_component b) [
    | none ↦ err ndn_error
    | some cd ↦ ok (record c { cumulative_digest = some cd })
  ]

  unfoldable pub decode_round : DataContent → List Block → Result DataContent
  unfolding decode_digest
  decode_round c [] = err undefined
  decode_round c (b ∷ rest) = elim (read_number b.value) [
    | none ↦ err ndn_error
    | some r ↦ decode_digest (record c { round_no = r }) rest
  ]

  unfoldable pub decode_prefix : DataContent → List Block → Result DataContent
  unfolding decode_round
  decode_prefix c [] = err undefined
  decode_prefix c (b ∷ rest) = elim (read_name b) [
    | none ↦ err ndn_error
    | some n ↦ decode_round (record c { user_prefix = n }) rest
  ]

  unfoldable pub decode_state : DataContent → List Block → Result DataContent
  decode_state c [] = ok c
  decode_state c (b ∷ rest) =
      if b.type == state_type
      then (wire_decode empty_diff_state.state (some b) >>= λ (s : State).
          ok (record c { state = some (record empty_diff_state { state = s }) }))
      else ok c

  unfoldable pub decode_parts : DataContent → List Block → Result DataContent
  decode_parts c [] = ok c
  decode_parts c (b ∷ rest) =
      if b.type == cumulative_info_type
      then (elements b >>= λ (bs : List Block).
          decode_prefix c bs >>= λ (c' : DataContent). decode_state c' rest)
      else decode_state c (b ∷ rest)

  abbrev pub is_content_type : ℕ → Bool
  is_content_type t = t == data_and_cumulative || t == data_only || t == cumulative_only

  unfoldable pub wire_decode_content : DataContent → Option Block → Result DataContent
  wire_decode_content c none = err data_content_error
  wire_decode_content c (some b) =
      if is_content_type b.type
      then (elements b >>= λ (bs : List Block).
          decode_parts (record c { data_type = some b.type; wire = some (tlv b.type b.value) }) bs)
      else err data_content_error

  unfoldable pub well_formed : DataContent → Bool
  well_formed c =
      (not (name_eq c.user_prefix empty_name) && is_some c.cumulative_digest)
      || (c.round_no == 0 && not (is_some c.cumulative_digest) && is_some c.state)
