-- ===== src/Printing.antt =====
-- What the program prints: operator<< of a leaf (leaf.cpp) and of a data type (tlv.cpp), pD
-- (data-content.cpp), and printState, printRoundLog, printDigest and digestToStr (logic.cpp). A text
-- is the list of its bytes. The lines of the logging macros are left out.
pub mod Decimal
pub mod Trees
pub mod Rounds
use Prim.Native.Char.{code}
use Prim.Native.String.{String}
use round_sync.Base.{
  ℕ, zero, suc, ◌+◌, ◌-◌, ◌/◌, ◌%◌, ◌≡◌, ◌≢◌, Option, none, some, List, [], ◌∷◌, ◌++◌, All, ltb,
  ◌==◌, if◌then◌else◌, Result, ok, err, undefined,
}
use round_sync.Ndn.{Ndn}
use round_sync.Leaf.{Leaf}
use round_sync.Tlv.{
  data_only, cumulative_only, data_and_cumulative, state_leaf_type, seq_no_type, round_no_type,
  state_type, cumulative_info_type, recovery_data,
}
use round_sync.State.{State}
use round_sync.DiffState.{DiffState, get_state}
use round_sync.Logic.{Logic}

-- The bytes of a text in ASCII.
abbrev pub codes : String → List ℕ
codes String.[] = []
codes (String.◌∷◌ c s) = code c ∷ codes s

-- `os << n` for a number of 64 bits, which has 20 digits at most.
unfoldable pub decimal_digits : ℕ → ℕ → List ℕ
decimal_digits zero n = []
decimal_digits (suc places) n =
    let rest = decimal_digits places (n / 10) in
    if ltb n 10 then (b'0' + n) ∷ [] else rest ++ ((b'0' + n % 10) ∷ [])

unfoldable pub decimal : ℕ → List ℕ
decimal n = decimal_digits 20 n

-- A hexadecimal digit in lower case.
abbrev pub hex_digit : ℕ → ℕ
hex_digit n = if ltb n 10 then b'0' + n else b'a' + n - 10

unfoldable pub data_type_text : ℕ → List ℕ
data_type_text t =
    if t == data_only
    then codes "DataOny"
    else if t == cumulative_only
    then codes "CumulativeOnly"
    else if t == data_and_cumulative
    then codes "DataAndCumulative"
    else if t == state_leaf_type
    then codes "StateLeaf"
    else if t == seq_no_type
    then codes "SeqNo"
    else if t == round_no_type
    then codes "RoundNo"
    else if t == state_type
    then codes "State"
    else if t == cumulative_info_type
    then codes "CumulativeInfo"
    else if t == recovery_data
    then codes "RecoveryData"
    else codes "(invalid value)"

module _ ⦃ndn : Ndn⦄ where
  open ndn use {Name, hashed_walk}

  -- What is printed by code of others: ndn-cxx writes a name as its URI, which can be read back and
  -- has a parenthesis only as `%28`; Crypto++'s HexEncoder writes two digits for each byte.
  pub record Printer : Type 0 where
    pub to_uri : Name → List ℕ
    pub read_uri : List ℕ → Option Name
    pub read_uri_to_uri : (n : Name) → read_uri (to_uri n) ≡ some n
    pub to_uri_escapes : (n : Name) → All (λ c. c ≢ b'(') (to_uri n)
    pub hex_encode : List ℕ → List ℕ
    pub hex_encode_nil : hex_encode [] ≡ []
    pub hex_encode_cons :
        (b : ℕ) (bs : List ℕ)
        → hex_encode (b ∷ bs) ≡ hex_digit (b / 16) ∷ hex_digit (b % 16) ∷ hex_encode bs

module _ ⦃ndn : Ndn⦄ ⦃printer : Printer⦄ where
  open ndn use {hashed_walk}
  open printer use {to_uri, hex_encode}

  -- `os << leaf`
  unfoldable pub print_leaf : Leaf → List ℕ
  print_leaf l = to_uri l.session_name ++ (b'(' ∷ (decimal l.seq ++ (b')' ∷ [])))

  unfoldable pub print_leaves : List Leaf → List ℕ
  print_leaves [] = []
  print_leaves (l ∷ ls) = print_leaf l ++ (b'\n' ∷ print_leaves ls)

  -- The loop of printState walks the leaves through the hashed index.
  unfoldable pub print_state : State → List ℕ
  print_state s = print_leaves (hashed_walk Leaf s.leaves)

  -- `digest->buf()` reads through a null pointer.
  unfoldable pub digest_to_str : Option (List ℕ) → Result (List ℕ)
  digest_to_str none = err undefined
  digest_to_str (some digest) = ok (hex_encode digest)

  unfoldable pub print_digest : Option (List ℕ) → List ℕ → List ℕ
  print_digest digest name =
      codes "  "
      ++ (name
          ++ (codes ": " ++ elim digest [
            | some d ↦ hex_encode d ++ (b'\n' ∷ [])
            | none ↦ codes "NULL" ++ (b'\n' ∷ [])
          ]))

  -- The same text as printDigest, for data-content.cpp.
  unfoldable pub p_d : Option (List ℕ) → List ℕ → List ℕ
  p_d digest name =
      codes "  "
      ++ (name
          ++ (codes ": " ++ elim digest [
            | some d ↦ hex_encode d ++ (b'\n' ∷ [])
            | none ↦ codes "NULL" ++ (b'\n' ∷ [])
          ]))

  -- The body of the loop of printRoundLog.
  unfoldable pub print_entry : DiffState → List ℕ
  print_entry d =
      codes "    round: "
      ++ (decimal d.round
          ++ (b'\n'
              ∷ (print_digest d.cumulative_digest (codes "cd")
                  ++ (print_digest d.round_digest (codes "rd") ++ print_state (get_state d)))))

  -- The loop, which ends at the first round that is not before the current one.
  unfoldable pub print_entries : ℕ → List DiffState → List ℕ
  print_entries current [] = []
  print_entries current (d ∷ ds) =
      let rest = print_entries current ds in
      if ltb d.round current then print_entry d ++ rest else []

  -- At `now`, the milliseconds of the system's clock.
  unfoldable pub print_round_log : ℕ → Logic → List ℕ
  print_round_log now l =
      let bar = codes "=======================================" ++ (b'\n' ∷ []) in
      print_state l.state
      ++ (decimal now
          ++ (codes " "
              ++ (b'\n'
                  ∷ b'\n'
                  ∷ b'\n'
                  ∷ b'\n'
                  ∷ (bar ++ (print_entries l.current_round l.log ++ bar)))))
