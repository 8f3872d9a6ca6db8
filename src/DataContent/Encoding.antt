-- ===== src/DataContent/Encoding.antt =====
-- data-content.cpp: the encoder against a plain description of its bytes.
use round_sync.Base.{
  ℕ, ◌+◌, ◌≡◌, refl, sym, ap, ◌∙◌, Option, none, some, is_some, List, [], ◌∷◌, ◌++◌, append_assoc,
  append-nil, length, length-append, arith,
}
use round_sync.Ndn.{Ndn, Block}
use round_sync.Leaf.{name_wire}
use round_sync.Tlv.{
  Encoded, tlv, number_block, prepend_header, prepend_header_lem, wire_of, wire_of-append,
  cumulative_info_type, round_no_type, state_type,
}
use round_sync.State.Wire.{leaves_wire}
use round_sync.State.Encoding.{wire_encode_block_lem}
use round_sync.DiffState.{DiffState}
use round_sync.DataContent.{
  DataContent, encode_state, encode_cumulative, kind_of, wire_encode_content,
}

-- Three parts that are put in front of a buffer, and their count.
pub three_parts :
    (x y z buffer : List ℕ)
    → ◌≡◌ {A = Encoded}
        (x ++ (y ++ (z ++ buffer)), length z + length y + length x)
        ((x ++ (y ++ (z ++ []))) ++ buffer, length (x ++ (y ++ (z ++ []))))
three_parts x y z buffer = ground (
  arith,
  append-nil z,
  append_assoc x (y ++ z) buffer,
  append_assoc y z buffer,
  length-append x (y ++ z),
  length-append y z,
)

module _ ⦃ndn : Ndn⦄ where
  open ndn use {
    Name, name_type, name_type_lt, name_value, empty_name, read_name, read_name_value, read_number,
    read_number_bytes, number_bytes, component_type, component_type_lt, read_component,
    read_component_value,
  }

  abbrev pub state_blocks : Option DiffState → List Block
  state_blocks none = []
  state_blocks (some d) = record { type = state_type; value = leaves_wire d.state.leaves } ∷ []

  abbrev pub info_fields : DataContent → List ℕ → List Block
  info_fields c digest =
      record { type = name_type; value = name_value c.user_prefix }
      ∷ record { type = round_no_type; value = number_bytes c.round_no }
      ∷ record { type = component_type; value = digest }
      ∷ []

  abbrev pub info_blocks : DataContent → Option (List ℕ) → List Block
  info_blocks c none = []
  info_blocks c (some digest) =
      record { type = cumulative_info_type; value = wire_of (info_fields c digest) } ∷ []

  abbrev pub content_kind : DataContent → ℕ
  content_kind c = kind_of (is_some c.state) (is_some c.cumulative_digest)

  -- The elements of a content: the cumulative information, then the state.
  abbrev pub content_value : DataContent → List ℕ
  content_value c = wire_of (info_blocks c c.cumulative_digest ++ state_blocks c.state)

  pub encode_state_lem :
      (o : Option DiffState) (buffer : List ℕ)
      → encode_state o buffer
        ≡ (wire_of (state_blocks o) ++ buffer, length (wire_of (state_blocks o)))
  unfolding encode_state
  encode_state_lem none buffer = refl
  encode_state_lem (some d) buffer = ground (
    arith,
    wire_encode_block_lem d.state buffer,
    prepend_header_lem state_type (leaves_wire d.state.leaves) buffer,
    append-nil (tlv state_type (leaves_wire d.state.leaves)),
  )

  pub encode_cumulative_lem :
      (c : DataContent) (o : Option (List ℕ)) (buffer : List ℕ)
      → encode_cumulative c o buffer
        ≡ (wire_of (info_blocks c o) ++ buffer, length (wire_of (info_blocks c o)))
  unfolding encode_cumulative
  encode_cumulative_lem c none buffer = refl
  encode_cumulative_lem c (some digest) buffer =
      ap (prepend_header cumulative_info_type) (
        three_parts (name_wire c.user_prefix) (number_block round_no_type c.round_no)
          (tlv component_type digest) buffer)
      ∙ prepend_header_lem cumulative_info_type (wire_of (info_fields c digest)) buffer
      ∙ ap (λ (x : List ℕ). (x ++ buffer, length x))
          (sym (append-nil (tlv cumulative_info_type (wire_of (info_fields c digest)))))

  -- The encoder writes one TLV element of the content's kind in front of the buffer, and counts its
  -- bytes.
  pub wire_encode_content_lem :
      (c : DataContent) (buffer : List ℕ)
      → wire_encode_content c buffer ≡ (
        tlv (content_kind c) (content_value c) ++ buffer,
        length (tlv (content_kind c) (content_value c)),
      )
  unfolding wire_encode_content
  wire_encode_content_lem c buffer = ground (
    arith,
    encode_state_lem c.state buffer,
    encode_cumulative_lem c c.cumulative_digest (wire_of (state_blocks c.state) ++ buffer),
    wire_of-append (info_blocks c c.cumulative_digest) (state_blocks c.state),
    append_assoc (wire_of (info_blocks c c.cumulative_digest)) (wire_of (state_blocks c.state))
        buffer,
    length-append (wire_of (info_blocks c c.cumulative_digest)) (wire_of (state_blocks c.state)),
    prepend_header_lem (content_kind c) (content_value c) buffer,
  )
