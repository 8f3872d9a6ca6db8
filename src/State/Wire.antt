-- ===== src/State/Wire.antt =====
-- `wireEncode` and `wireDecode` of state.cpp: the encoder, which runs from the last leaf to the
-- first, against a plain description of the bytes, and the way back.
use round_sync.Base.{
  ℕ, ◌+◌, Option, none, some, List, [], ◌∷◌, ◌++◌, ◌==◌, if◌then◌else◌, Result, ok, err, ◌>>=◌,
  state_error, ndn_error, undefined,
}
use round_sync.Ndn.{Ndn, Block}
use round_sync.Leaf.{Leaf, name_wire}
use round_sync.Tlv.{
  Encoded, prepend, tlv, number_block, prepend_header, prepend_number_block, elements, wire_of,
  state_leaf_type, seq_no_type, state_type,
}
use round_sync.State.{State, update}

module _ ⦃ndn : Ndn⦄ where
  open ndn use {
    Name, name_type, name_type_lt, name_value, read_name, read_name_value, read_number,
    read_number_bytes, number_bytes, parse,
  }

  -- One round of the loop, on the leaf's fields from the last to the first.
  unfoldable pub encode_leaf : Leaf → List ℕ → Encoded
  encode_leaf l buffer =
      let (b, n) = prepend_number_block seq_no_type l.seq buffer in
      let (b', n') = prepend (name_wire l.session_name) b in
      prepend_header state_leaf_type (b', n + n')

  unfoldable pub encode_leaves : List Leaf → List ℕ → Encoded
  encode_leaves [] buffer = (buffer, 0)
  encode_leaves (l ∷ ls) buffer =
      let (b, n) = encode_leaves ls buffer in let (b', n') = encode_leaf l b in (b', n + n')

  -- `template<bool T> wireEncode(block)`
  unfoldable pub wire_encode_block : State → List ℕ → Encoded
  unfolding encode_leaves
  wire_encode_block s buffer = encode_leaves s.leaves buffer

  -- `m_wire = buffer.block()`. By default ndn-cxx verifies there that the length of the element is
  -- that of the buffer, and throws unless the bytes are exactly one TLV element.
  unfoldable pub keep_block : State → List ℕ → Option (List Block) → Result (State × List ℕ)
  keep_block s bytes none = err ndn_error
  keep_block s bytes (some []) = err ndn_error
  keep_block s bytes (some (b ∷ [])) = ok (record s { wire = some bytes }, bytes)
  keep_block s bytes (some (b ∷ c ∷ bs)) = err ndn_error

  -- `wireEncode()`, which keeps its result in `m_wire`.
  unfoldable pub wire_encode : State → Result (State × List ℕ)
  unfolding keep_block
  wire_encode s = elim s.wire [
    | some w ↦ ok (s, w)
    | none ↦ let (bytes, n) = wire_encode_block s [] in keep_block s bytes (parse bytes)
  ]

  -- The rest of an element `StateLeaf`, once its name is read.
  unfoldable pub decode_seq : State → Name → List Block → Result State
  decode_seq s info [] = err state_error
  decode_seq s info (v ∷ rest) = elim (read_number v.value) [
    | none ↦ err ndn_error
    | some q ↦ ok (update s info q).0
  ]

  unfoldable pub decode_fields : State → List Block → Result State
  unfolding decode_seq
  decode_fields s [] = err undefined
  decode_fields s (n ∷ rest) = elim (read_name n) [
    | none ↦ err ndn_error
    | some info ↦ decode_seq s info rest
  ]

  unfoldable pub decode_elements : State → List Block → Result State
  unfolding decode_fields
  decode_elements s [] = ok s
  decode_elements s (b ∷ bs) =
      let leaf = (elements b >>= decode_fields s) in
      let after_leaf = (leaf >>= λ (t : State). decode_elements t bs) in
      let skipped = decode_elements s bs in
      if b.type == state_leaf_type then after_leaf else skipped

  unfoldable pub wire_decode : State → Option Block → Result State
  unfolding decode_elements
  wire_decode s none = err state_error
  wire_decode s (some b) =
      if b.type == state_type
      then (elements b >>= λ (bs : List Block).
          decode_elements (record s { wire = some (tlv b.type b.value) }) bs)
      else err state_error

  -- A leaf as a TLV element.
  abbrev pub leaf_value : Leaf → List ℕ
  leaf_value l = name_wire l.session_name ++ number_block seq_no_type l.seq

  abbrev pub leaf_block : Leaf → Block
  leaf_block l = record { type = state_leaf_type; value = leaf_value l }

  abbrev pub leaf_blocks : List Leaf → List Block
  leaf_blocks [] = []
  leaf_blocks (l ∷ ls) = leaf_block l ∷ leaf_blocks ls

  abbrev pub leaves_wire : List Leaf → List ℕ
  leaves_wire ls = wire_of (leaf_blocks ls)
