-- ===== src/State/Encoding.antt =====
-- state.cpp: the encoder against a plain description of its bytes, the way back through `wireDecode`,
-- and when `wireEncode()` returns.
use round_sync.Base.{
  ◌⊎◌, ◌≢◌, err, ndn_error, state_error, ℕ, ◌+◌, ◌<◌, ◌≤◌, ◌≡◌, refl, sym, ap, ◌∙◌, none, some, inl,
  inr, List, [], ◌∷◌, ◌++◌, append_assoc, append-nil, length, length-append, arith, ok, ◌>>=◌,
  u64_mod,
}
use round_sync.Ndn.{Ndn, Block}
use round_sync.Leaf.{Leaf, name_wire}
use round_sync.Tlv.{
  parse-wire_of, Encoded, tlv, number_block, prepend_header_lem, elements, wire_of, Fits,
  elements-wire_of, length-tlv, state_leaf_type, seq_no_type, state_type,
}
use round_sync.State.{State, update, merge, empty_state}
use round_sync.State.Sorted.{IsValid}
use round_sync.State.Merge.{merge_onto_empty}
use round_sync.State.Digest.{InRange}
use round_sync.State.Wire.{
  encode_leaf, encode_leaves, wire_encode_block, keep_block, wire_encode, decode_fields,
  decode_elements, wire_decode, leaf_value, leaf_block, leaf_blocks, leaves_wire,
}

module _ ⦃ndn : Ndn⦄ where
  open ndn use {
    Name, name_type, name_type_lt, name_value, read_name, read_name_value, read_number,
    read_number_bytes, number_bytes, parse,
  }

  encode_leaf_lem :
      (l : Leaf) (buffer : List ℕ)
      → encode_leaf l buffer ≡ (
        tlv state_leaf_type (leaf_value l) ++ buffer,
        length (tlv state_leaf_type (leaf_value l)),
      )
  unfolding encode_leaf
  encode_leaf_lem l buffer = ground (
    arith,
    prepend_header_lem state_leaf_type (leaf_value l) buffer,
    append_assoc (name_wire l.session_name) (number_block seq_no_type l.seq) buffer,
    length-append (name_wire l.session_name) (number_block seq_no_type l.seq),
  )

  -- The encoder writes the leaves in their order, and counts its bytes.
  pub encode_leaves_lem :
      (ls : List Leaf) (buffer : List ℕ)
      → encode_leaves ls buffer ≡ (leaves_wire ls ++ buffer, length (leaves_wire ls))
  unfolding encode_leaves
  encode_leaves_lem [] buffer = refl
  encode_leaves_lem (l ∷ ls) buffer = ground (
    arith,
    encode_leaves_lem ls buffer,
    encode_leaf_lem l (leaves_wire ls ++ buffer),
    append_assoc (tlv state_leaf_type (leaf_value l)) (leaves_wire ls) buffer,
    length-append (tlv state_leaf_type (leaf_value l)) (leaves_wire ls),
  )

  -- Every leaf's element is within 64 bits if the whole encoding is.
  pub leaf_blocks-Fits :
      (ls : List Leaf) → length (leaves_wire ls) < u64_mod → Fits (leaf_blocks ls)
  leaf_blocks-Fits [] h = tt
  leaf_blocks-Fits (l ∷ ls) h =
      let n = length-append (tlv state_leaf_type (leaf_value l)) (leaves_wire ls) in
      let m = length-tlv state_leaf_type (leaf_value l) in
      (omega arith, omega (arith, n, m), leaf_blocks-Fits ls (omega (arith, n)))

  abbrev leaf_fields : Leaf → List Block
  leaf_fields l =
      record { type = name_type; value = name_value l.session_name }
      ∷ record { type = seq_no_type; value = number_bytes l.seq }
      ∷ []

  leaf_value-wire : (l : Leaf) → leaf_value l ≡ wire_of (leaf_fields l)
  leaf_value-wire l =
      ap (λ (x : List ℕ). name_wire l.session_name ++ x)
        (sym (append-nil (number_block seq_no_type l.seq)))

  elements-leaf :
      (l : Leaf) → length (leaf_value l) < u64_mod → elements (leaf_block l) ≡ ok (leaf_fields l)
  elements-leaf l h =
      ap (λ (v : List ℕ). elements (record { type = state_leaf_type; value = v }))
        (leaf_value-wire l)
      ∙ elements-wire_of state_leaf_type (leaf_fields l) (
        name_type_lt,
        omega (arith, split, name),
        (omega arith, omega (arith, split, number), tt),
      )
    where
      split :
          length (leaf_value l)
          ≡ length (name_wire l.session_name) + length (number_block seq_no_type l.seq)
      split = length-append (name_wire l.session_name) (number_block seq_no_type l.seq)

      name : length (name_value l.session_name) ≤ length (name_wire l.session_name)
      name = length-tlv name_type (name_value l.session_name)

      number : length (number_bytes l.seq) ≤ length (number_block seq_no_type l.seq)
      number = length-tlv seq_no_type (number_bytes l.seq)

  decode_leaf :
      (s : State) (l : Leaf)
      → l.seq < u64_mod
      → length (leaf_value l) < u64_mod
      → (elements (leaf_block l) >>= decode_fields s) ≡ ok (update s l.session_name l.seq).0
  unfolding decode_fields
  decode_leaf s l r h =
      rw (elements-leaf l h)
        (ground (arith, read_name_value l.session_name, read_number_bytes l.seq r))

  -- Decoding the encoded leaves updates the state with each of them.
  pub decode_elements_lem :
      (s : State) (ls : List Leaf)
      → InRange ls
      → length (leaves_wire ls) < u64_mod
      → decode_elements s (leaf_blocks ls) ≡ ok (merge s ls)
  unfolding decode_elements merge
  decode_elements_lem s [] r h = refl
  decode_elements_lem s (l ∷ ls) r h =
      let n = length-append (tlv state_leaf_type (leaf_value l)) (leaves_wire ls) in
      let m = length-tlv state_leaf_type (leaf_value l) in
      rw (decode_leaf s l r.0 (omega (arith, n, m)))
        (decode_elements_lem (update s l.session_name l.seq).0 ls r.1 (omega (arith, n)))

  pub wire_decode_lem :
      (ls : List Leaf)
      → IsValid ls
      → InRange ls
      → length (leaves_wire ls) < u64_mod
      → (t : State) × (wire_decode empty_state
            (some (record { type = state_type; value = leaves_wire ls }))
          ≡ ok t)
        × (t.leaves ≡ ls)
  unfolding wire_decode
  wire_decode_lem ls v r h =
      let w = some (tlv state_type (leaves_wire ls)) in
      (
        merge (record { leaves = []; wire = w }) ls,
        rw (elements-wire_of state_type (leaf_blocks ls) (leaf_blocks-Fits ls h))
            (decode_elements_lem (record { leaves = []; wire = w }) ls r h),
        merge_onto_empty w ls v,
      )

  pub wire_encode_block_lem :
      (s : State) (buffer : List ℕ)
      → wire_encode_block s buffer ≡ (leaves_wire s.leaves ++ buffer, length (leaves_wire s.leaves))
  unfolding wire_encode_block
  wire_encode_block_lem s buffer = encode_leaves_lem s.leaves buffer

  block_bytes : (s : State) → (wire_encode_block s []).0 ≡ leaves_wire s.leaves
  block_bytes s =
      ap (λ (x : Encoded). x.0) (wire_encode_block_lem s []) ∙ append-nil (leaves_wire s.leaves)

  -- `wireDecode` of an encoded tree on a new state, for a well-formed tree with numbers of 64 bits
  -- and fewer than 2 ^ 64 bytes: the same leaves come back.
  pub wire_decode-encode :
      (s : State)
      → IsValid s.leaves
      → InRange s.leaves
      → length (wire_encode_block s []).0 < u64_mod
      → (t : State) × (wire_decode empty_state
            (some (record { type = state_type; value = (wire_encode_block s []).0 }))
          ≡ ok t)
        × (t.leaves ≡ s.leaves)
  wire_decode-encode s v r h =
      rw (block_bytes s) (wire_decode_lem s.leaves v r (rw (block_bytes s) at h))

  keep_block-one :
      (s : State) (ls : List Leaf)
      → ((l : Leaf) × (ls ≡ l ∷ [])
          × (keep_block s (leaves_wire ls) (some (leaf_blocks ls))
              ≡ ok (record s { wire = some (leaves_wire (l ∷ [])) }, leaves_wire (l ∷ []))))
        ⊎ ((length ls ≢ 1)
            × (keep_block s (leaves_wire ls) (some (leaf_blocks ls)) ≡ err ndn_error))
  unfolding keep_block
  keep_block-one s [] = inr ((λ e. omega (arith, e)), refl)
  keep_block-one s (l ∷ []) = inl (l, refl, refl)
  keep_block-one s (k ∷ l ∷ ls) = inr ((λ e. omega (arith, e)), refl)

  -- `wireEncode()` of a tree without a cached block, whose leaves take fewer than 2 ^ 64 bytes:
  -- either the tree has exactly one leaf, and `wireEncode()` returns and keeps the element of that
  -- leaf, which `wireDecode` refuses with State::Error, or it has another number of leaves, and
  -- `wireEncode()` throws.
  pub wire_encode_cases :
      (s : State)
      → s.wire ≡ none
      → length (leaves_wire s.leaves) < u64_mod
      → ((l : Leaf) × (s.leaves ≡ l ∷ [])
          × (wire_encode s
              ≡ ok (record s { wire = some (leaves_wire (l ∷ [])) }, leaves_wire (l ∷ [])))
          × (parse (leaves_wire (l ∷ [])) ≡ some (leaf_block l ∷ []))
          × (wire_decode empty_state (some (leaf_block l)) ≡ err state_error))
        ⊎ ((length s.leaves ≢ 1) × (wire_encode s ≡ err ndn_error))
  unfolding wire_encode wire_decode wire_encode_block
  wire_encode_cases s h small =
      let read = parse-wire_of (leaf_blocks s.leaves) (leaf_blocks-Fits s.leaves small) in
      let encoded : wire_encode s
          ≡ keep_block s (leaves_wire s.leaves) (some (leaf_blocks s.leaves)) =
        rw (h, block_bytes s, read) refl in
      elim (keep_block-one s s.leaves) [
        | inl (l, one, kept) ↦ inl (
          l,
          one,
          encoded ∙ kept,
          ap (λ (ls : List Leaf). parse (leaves_wire ls)) (sym one)
              ∙ read
              ∙ ap (λ (ls : List Leaf). some (leaf_blocks ls)) one,
          refl,
        )
        | inr (other, kept) ↦ inr (other, encoded ∙ kept)
      ]
