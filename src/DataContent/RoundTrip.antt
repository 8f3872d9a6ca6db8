-- ===== src/DataContent/RoundTrip.antt =====
-- data-content.cpp: what `wireEncode` writes comes back through `wireDecode`, for a content with a
-- state, with a cumulative digest, with both or with neither.
use round_sync.Base.{
  ℕ, ◌<◌, ◌≡◌, refl, ap, ◌∙◌, Option, none, some, is_some, Bool, true, false, ◌≢◌,
  data_content_error, List, [], ◌++◌, append-nil, length, length-append, arith, if◌then◌else◌, ok,
  err, u64_mod,
}
use round_sync.Ndn.{Ndn, Block}
use round_sync.Leaf.{Leaf, name_wire}
use round_sync.Tlv.{
  Encoded, tlv, number_block, wire_of, Fits, elements-wire_of, length-tlv, cumulative_info_type,
  round_no_type, state_type, data_only, cumulative_only, data_and_cumulative,
}
use round_sync.State.Sorted.{IsValid}
use round_sync.State.Digest.{InRange}
use round_sync.State.Wire.{leaves_wire}
use round_sync.State.Encoding.{wire_decode_lem}
use round_sync.DiffState.{DiffState, empty_diff_state}
use round_sync.DataContent.{
  DataContent, is_content_type, default_content, kind_of, wire_encode_content, decode_prefix,
  decode_state, decode_parts, wire_decode_content,
}
use round_sync.DataContent.Encoding.{
  state_blocks, info_fields, info_blocks, content_kind, content_value, wire_encode_content_lem,
}

module _ ⦃ndn : Ndn⦄ where
  open ndn use {
    Name, name_type, name_type_lt, name_value, empty_name, read_name, read_name_value, read_number,
    read_number_bytes, number_bytes, component_type, component_type_lt, read_component,
    read_component_value,
  }

  abbrev pub leaves_of : Option DiffState → Option (List Leaf)
  leaves_of none = none
  leaves_of (some d) = some d.state.leaves

  -- The trees that are sent: well formed, with numbers within 64 bits.
  abbrev pub IsSendable : Option DiffState → Type 0
  IsSendable none = Unit {0}
  IsSendable (some d) = IsValid d.state.leaves × InRange d.state.leaves

  -- What a receiver has of a content: all but the objects' identities, and the prefix and the round
  -- only beside a digest.
  pub record Carries (c r : DataContent) : Type 0 where
    pub kind : r.data_type ≡ some (content_kind c)
    pub digest : r.cumulative_digest ≡ c.cumulative_digest
    pub prefix : r.user_prefix ≡ (if is_some c.cumulative_digest then c.user_prefix else empty_name)
    pub round : r.round_no ≡ (if is_some c.cumulative_digest then c.round_no else 0)
    pub leaves : leaves_of r.state ≡ leaves_of c.state

  state_bound :
      (d : DiffState)
      → length (wire_of (state_blocks (some d))) < u64_mod
      → length (leaves_wire d.state.leaves) < u64_mod
  state_bound d h = omega (
    arith,
    length-append (tlv state_type (leaves_wire d.state.leaves)) [],
    length-tlv state_type (leaves_wire d.state.leaves),
  )

  decode_state_lem :
      (c : DataContent) (o : Option DiffState)
      → c.state ≡ none
      → IsSendable o
      → length (wire_of (state_blocks o)) < u64_mod
      → (p : Option DiffState) × (decode_state c (state_blocks o) ≡ ok (record c { state = p }))
        × (leaves_of p ≡ leaves_of o)
  unfolding decode_state
  decode_state_lem c none e s h = (none, ground arith, refl)
  decode_state_lem c (some d) e s h =
      let (t, decoded, same) = wire_decode_lem d.state.leaves s.0 s.1 (state_bound d h) in
      (some (record empty_diff_state { state = t }), rw decoded refl, ap some same)

  decode_parts-state :
      (c : DataContent) (o : Option DiffState)
      → decode_parts c (state_blocks o) ≡ decode_state c (state_blocks o)
  unfolding decode_parts decode_state
  decode_parts-state c none = refl
  decode_parts-state c (some d) = refl

  decode_prefix_lem :
      (c r : DataContent) (digest : List ℕ)
      → c.round_no < u64_mod
      → decode_prefix r (info_fields c digest)
        ≡ ok (record r {
          user_prefix = c.user_prefix;
          round_no = c.round_no;
          cumulative_digest = some digest;
        })
  unfolding decode_prefix
  decode_prefix_lem c r digest h = ground (
    arith,
    read_name_value c.user_prefix,
    read_number_bytes c.round_no h,
    read_component_value digest,
  )

  info_fields-Fits :
      (c : DataContent) (digest : List ℕ)
      → length (wire_of (info_fields c digest)) < u64_mod
      → Fits (info_fields c digest)
  info_fields-Fits c digest h =
      let a =
        length-append (name_wire c.user_prefix)
          (number_block round_no_type c.round_no ++ (tlv component_type digest ++ [])) in
      let b =
        length-append (number_block round_no_type c.round_no) (tlv component_type digest ++ []) in
      let d = length-append (tlv component_type digest) [] in
      (
        name_type_lt,
        omega (arith, a, length-tlv name_type (name_value c.user_prefix)),
        (
          omega arith,
          omega (arith, a, b, length-tlv round_no_type (number_bytes c.round_no)),
          (component_type_lt, omega (arith, a, b, d, length-tlv component_type digest), tt),
        ),
      )

  -- What `wireDecode` starts from: the content that has no field yet.
  abbrev started : DataContent → DataContent
  started r = record default_content { data_type = r.data_type; wire = r.wire }

  decode_parts_lem :
      (c r : DataContent) (o : Option (List ℕ))
      → c.round_no < u64_mod
      → IsSendable c.state
      → length (wire_of (info_blocks c o ++ state_blocks c.state)) < u64_mod
      → (p : Option DiffState) × (decode_parts (started r) (info_blocks c o ++ state_blocks c.state)
          ≡ ok (record r {
            user_prefix = if is_some o then c.user_prefix else empty_name;
            round_no = if is_some o then c.round_no else 0;
            cumulative_digest = o;
            state = p;
          }))
        × (leaves_of p ≡ leaves_of c.state)
  unfolding default_content
  decode_parts_lem c r none n s h =
      let (p, e, same) = decode_state_lem (started r) c.state refl s h in
      (p, decode_parts-state (started r) c.state ∙ e, same)
  decode_parts_lem c r (some digest) n s h =
      let info = wire_of (info_fields c digest) in
      let a = length-append (tlv cumulative_info_type info) (wire_of (state_blocks c.state)) in
      let r' = record r {
        user_prefix = c.user_prefix;
        round_no = c.round_no;
        cumulative_digest = some digest;
        state = none;
      } in
      let (p, e, same) = decode_state_lem r' c.state refl s (omega (arith, a)) in
      (
        p,
        unfold decode_parts in
            (rw
              (
                elements-wire_of cumulative_info_type (info_fields c digest) (
                    info_fields-Fits c digest
                      (omega (arith, a, length-tlv cumulative_info_type info))),
                decode_prefix_lem c (started r) digest n,
              )
              e),
        same,
      )

  is_content_type-kind_of : (a b : Bool) → is_content_type (kind_of a b) ≡ true
  unfolding kind_of
  is_content_type-kind_of true true = refl
  is_content_type-kind_of true false = refl
  is_content_type-kind_of false true = refl
  is_content_type-kind_of false false = refl

  state_blocks-Fits :
      (p : Option DiffState) → length (wire_of (state_blocks p)) < u64_mod → Fits (state_blocks p)
  state_blocks-Fits none h = tt
  state_blocks-Fits (some d) h = (omega arith, state_bound d h, tt)

  blocks-Fits :
      (c : DataContent) (o : Option (List ℕ)) (p : Option DiffState)
      → length (wire_of (info_blocks c o ++ state_blocks p)) < u64_mod
      → Fits (info_blocks c o ++ state_blocks p)
  blocks-Fits c none p h = state_blocks-Fits p h
  blocks-Fits c (some digest) p h =
      let info = wire_of (info_fields c digest) in
      let a = length-append (tlv cumulative_info_type info) (wire_of (state_blocks p)) in
      (
        omega arith,
        omega (arith, a, length-tlv cumulative_info_type info),
        state_blocks-Fits p (omega (arith, a)),
      )

  wire_decode_content_lem :
      (c : DataContent)
      → c.round_no < u64_mod
      → IsSendable c.state
      → length (content_value c) < u64_mod
      → (r : DataContent) × (wire_decode_content default_content
            (some (record { type = content_kind c; value = content_value c }))
          ≡ ok r)
        × Carries c r
  unfolding wire_decode_content
  wire_decode_content_lem c n s h =
      let r = record c {
        data_type = some (content_kind c);
        wire = some (tlv (content_kind c) (content_value c));
      } in
      let (p, e, same) = decode_parts_lem c r c.cumulative_digest n s h in
      (
        record r {
          user_prefix = if is_some c.cumulative_digest then c.user_prefix else empty_name;
          round_no = if is_some c.cumulative_digest then c.round_no else 0;
          state = p;
        },
        rw
            (
              is_content_type-kind_of (is_some c.state) (is_some c.cumulative_digest),
              elements-wire_of (content_kind c)
                  (info_blocks c c.cumulative_digest ++ state_blocks c.state)
                  (blocks-Fits c c.cumulative_digest c.state h),
            )
            e,
        record { kind = refl; digest = refl; prefix = refl; round = refl; leaves = same },
      )

  -- A content with a round of 64 bits, a tree, if any, that is well formed with numbers of 64 bits,
  -- and an encoding of fewer than 2 ^ 64 bytes: what `wireEncode` writes is one block, and
  -- `wireDecode` reads from it what `Carries` says, that is all that was written.
  pub wire_decode_content-encode :
      (c : DataContent)
      → c.round_no < u64_mod
      → IsSendable c.state
      → length (wire_encode_content c []).0 < u64_mod
      → (b : Block) × ((wire_encode_content c []).0 ≡ tlv b.type b.value)
        × (r : DataContent) × (wire_decode_content default_content (some b) ≡ ok r)
        × Carries c r
  wire_decode_content-encode c n s h =
      let bytes = tlv (content_kind c) (content_value c) in
      let e : (wire_encode_content c []).0 ≡ bytes =
        ap (λ (x : Encoded). x.0) (wire_encode_content_lem c []) ∙ append-nil bytes in
      let (r, decoded, carried) =
        wire_decode_content_lem c n s
          (omega (arith, ap length e, length-tlv (content_kind c) (content_value c))) in
      (record { type = content_kind c; value = content_value c }, e, r, decoded, carried)

  -- A block of any other type is refused, and so is a missing one, by `DataContent::Error`.
  pub wire_decode_content_refuses :
      (c : DataContent) (b : Block)
      → b.type ≢ data_only
      → b.type ≢ cumulative_only
      → b.type ≢ data_and_cumulative
      → (wire_decode_content c (some b) ≡ err data_content_error)
        × (wire_decode_content c none ≡ err data_content_error)
  unfolding wire_decode_content
  wire_decode_content_refuses c b p q r = ground arith
