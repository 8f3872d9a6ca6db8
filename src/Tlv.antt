-- ===== src/Tlv.antt =====
-- tlv.hpp, and how the encoders of state.cpp, data-content.cpp and reco-data.cpp use ndn-cxx's
-- EncodingBuffer: a buffer grows at its front, and each call returns the bytes that it put there.
use round_sync.Base.{
  ℕ, ◌+◌, ◌<◌, ◌≤◌, ◌≡◌, refl, sym, ap, ◌∙◌, none, some, List, [], ◌∷◌, ◌++◌, append_assoc, length,
  length-append, arith, Result, ok, err, ndn_error, u64_mod,
}
use round_sync.Ndn.{Ndn, Block}

-- `enum DataType`
abbrev pub data_only : ℕ
data_only = 128

abbrev pub cumulative_only : ℕ
cumulative_only = 129

abbrev pub data_and_cumulative : ℕ
data_and_cumulative = 130

abbrev pub state_leaf_type : ℕ
state_leaf_type = 131

abbrev pub seq_no_type : ℕ
seq_no_type = 132

abbrev pub round_no_type : ℕ
round_no_type = 133

abbrev pub state_type : ℕ
state_type = 134

abbrev pub cumulative_info_type : ℕ
cumulative_info_type = 135

abbrev pub recovery_data : ℕ
recovery_data = 136

-- The buffer after a call, and the number of bytes that the call put in front.
abbrev pub Encoded : Type 0
Encoded = List ℕ × ℕ

abbrev pub prepend : List ℕ → List ℕ → Encoded
prepend bytes buffer = (bytes ++ buffer, length bytes)

module _ ⦃ndn : Ndn⦄ where
  open ndn use {var_number, number_bytes, parse, parse_nil, parse_cons}

  -- One TLV element.
  abbrev pub tlv : ℕ → List ℕ → List ℕ
  tlv t v = var_number t ++ (var_number (length v) ++ v)

  abbrev pub number_block : ℕ → ℕ → List ℕ
  number_block t n = tlv t (number_bytes n)

  -- `block.prependVarNumber(length)` and then `block.prependVarNumber(type)`, after `length` bytes
  -- of the value: the buffer, and all that the element takes.
  abbrev pub prepend_header : ℕ → Encoded → Encoded
  prepend_header t (buffer, len) = (
    var_number t ++ (var_number len ++ buffer),
    len + length (var_number len) + length (var_number t),
  )

  abbrev pub prepend_number_block : ℕ → ℕ → List ℕ → Encoded
  prepend_number_block t n = prepend (number_block t n)

  -- `parse()`, with the exception for a value that is no sequence of elements.
  unfoldable pub elements : Block → Result (List Block)
  elements b = elim (parse b.value) [ none ↦ err ndn_error | some bs ↦ ok bs ]

  -- A sequence of elements, written out and parsed back.
  abbrev pub wire_of : List Block → List ℕ
  wire_of [] = []
  wire_of (b ∷ bs) = tlv b.type b.value ++ wire_of bs

  pub wire_of-append : (bs cs : List Block) → wire_of (bs ++ cs) ≡ wire_of bs ++ wire_of cs
  wire_of-append [] cs = refl
  wire_of-append (b ∷ bs) cs =
      ap (λ (x : List ℕ). tlv b.type b.value ++ x) (wire_of-append bs cs)
      ∙ sym (append_assoc (tlv b.type b.value) (wire_of bs) (wire_of cs))

  -- Types and lengths are within 64 bits.
  abbrev pub Fits : List Block → Type 0
  Fits [] = Unit {0}
  Fits (b ∷ bs) = (b.type < u64_mod) × (length b.value < u64_mod) × Fits bs

  pub tlv_append :
      (t : ℕ) (v rest : List ℕ)
      → tlv t v ++ rest ≡ var_number t ++ (var_number (length v) ++ (v ++ rest))
  tlv_append t v rest =
      append_assoc (var_number t) (var_number (length v) ++ v) rest
      ∙ ap (λ (x : List ℕ). var_number t ++ x) (append_assoc (var_number (length v)) v rest)

  pub parse-wire_of : (bs : List Block) → Fits bs → parse (wire_of bs) ≡ some bs
  parse-wire_of [] f = parse_nil
  parse-wire_of (b ∷ bs) f =
      ap parse (tlv_append b.type b.value (wire_of bs))
      ∙ parse_cons b.type b.value (wire_of bs) bs f.0 f.1 (parse-wire_of bs f.2)

  pub elements-wire_of :
      (t : ℕ) (bs : List Block)
      → Fits bs
      → elements (record { type = t; value = wire_of bs }) ≡ ok bs
  unfolding elements
  elements-wire_of t bs f = rw (parse-wire_of bs f, elements) refl

  pub length-tlv : (t : ℕ) (v : List ℕ) → length v ≤ length (tlv t v)
  length-tlv t v = omega (
    arith,
    length-append (var_number t) (var_number (length v) ++ v),
    length-append (var_number (length v)) v,
  )

  header_count :
      (t : ℕ) (v : List ℕ)
      → length v + length (var_number (length v)) + length (var_number t) ≡ length (tlv t v)
  header_count t v = omega (
    arith,
    length-append (var_number t) (var_number (length v) ++ v),
    length-append (var_number (length v)) v,
  )

  -- A header that is written after its value makes a TLV element, and the count is its length.
  pub prepend_header_lem :
      (t : ℕ) (v buffer : List ℕ)
      → prepend_header t (v ++ buffer, length v) ≡ (tlv t v ++ buffer, length (tlv t v))
  prepend_header_lem t v buffer = λ i. (sym (tlv_append t v buffer) i, header_count t v i)
