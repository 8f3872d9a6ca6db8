-- ===== src/Ndn.antt =====
-- What the program takes from ndn-cxx: names and their components, TLV blocks, SHA-256 and the
-- implicit digest of a Data packet. None of it is in the repository, so it is an interface: the
-- operations that the program calls, with the documented laws that its code relies on.
use Prim.Native.String.{String}
use mathlib.Core.List.{Perm}
use round_sync.Base.{
  ℕ, ◌≡◌, ◌↔◌, ◌<◌, ◌+◌, Bool, true, false, Option, some, List, [], ◌∷◌, ◌++◌, length, u64_mod,
}

-- ndn::Block: the type and the value of one TLV element.
pub record Block : Type 0 where
  pub type : ℕ
  pub value : List ℕ

pub record Ndn : Type 1 where
  -- ndn::Name and ndn::name::Component.
  pub Name : Type 0
  pub Component : Type 0
  pub name_eq : Name → Name → Bool
  pub name_eq_iff : (a b : Name) → (name_eq a b ≡ true) ↔ (a ≡ b)
  pub name_lt : Name → Name → Bool
  pub name_lt_irrefl : (a : Name) → name_lt a a ≡ false
  pub name_lt_trans : (a b c : Name) → name_lt a b ≡ true → name_lt b c ≡ true → name_lt a c ≡ true
  pub name_lt_total : (a b : Name) → name_lt a b ≡ false → name_lt b a ≡ false → a ≡ b
  pub component_eq : Component → Component → Bool
  pub component_eq_iff : (a b : Component) → (component_eq a b ≡ true) ↔ (a ≡ b)
  pub empty_name : Name
  pub from_uri : String → Name
  pub append : Name → Component → Name
  pub append_name : Name → Name → Name
  -- `get(-i)`, which throws where the name has fewer components, and `getPrefix(-i)`.
  pub get_back : Name → ℕ → Option Component
  pub prefix_back : Name → ℕ → Name
  pub get_back_last : (n : Name) (c : Component) → get_back (append n c) 1 ≡ some c
  pub get_back_before :
      (n : Name) (c : Component) (i : ℕ) → get_back (append n c) (i + 2) ≡ get_back n (i + 1)
  pub prefix_back_last : (n : Name) (c : Component) → prefix_back (append n c) 1 ≡ n
  -- `Component::fromNumber` and `toNumber`, which throws at a component that is no number.
  pub from_number : ℕ → Component
  pub to_number : Component → Option ℕ
  pub to_number_from_number : (n : ℕ) → n < u64_mod → to_number (from_number n) ≡ some n
  pub to_number_lt : (c : Component) (n : ℕ) → to_number c ≡ some n → n < u64_mod
  -- The component that holds a buffer, `value()` and `Component("...")` at the three markers.
  pub from_buffer : List ℕ → Component
  pub component_value : Component → List ℕ
  pub component_value_from_buffer : (b : List ℕ) → component_value (from_buffer b) ≡ b
  pub data_component : Component
  pub sync_component : Component
  pub reco_component : Component
  -- SHA-256, and the bytes that `Digest << uint64_t` feeds to it.
  pub sha256 : List ℕ → List ℕ
  pub length_sha256 : (b : List ℕ) → length (sha256 b) ≡ 32
  pub uint64_bytes : ℕ → List ℕ
  pub uint64_bytes_injective :
      (a b : ℕ) → a < u64_mod → b < u64_mod → uint64_bytes a ≡ uint64_bytes b → a ≡ b
  -- VarNumber and nonNegativeInteger, the two ways in which TLV writes a number.
  pub var_number : ℕ → List ℕ
  pub number_bytes : ℕ → List ℕ
  pub read_number : List ℕ → Option ℕ
  pub read_number_bytes : (n : ℕ) → n < u64_mod → read_number (number_bytes n) ≡ some n
  pub read_number_lt : (b : List ℕ) (n : ℕ) → read_number b ≡ some n → n < u64_mod
  -- `Block::parse`: the elements of a value, none where it is no sequence of TLV elements.
  pub parse : List ℕ → Option (List Block)
  pub parse_nil : parse [] ≡ some []
  pub parse_cons :
      (t : ℕ) (v rest : List ℕ) (bs : List Block)
      → t < u64_mod
      → length v < u64_mod
      → parse rest ≡ some bs
      → parse (var_number t ++ (var_number (length v) ++ (v ++ rest)))
        ≡ some (record { type = t; value = v } ∷ bs)
  -- `Name::wireEncode`, `Name(Block)` and `name::Component(Block)`; the last two throw.
  pub name_value : Name → List ℕ
  pub read_name : Block → Option Name
  pub name_type : ℕ
  pub name_type_lt : name_type < u64_mod
  pub read_name_value :
      (n : Name) → read_name (record { type = name_type; value = name_value n }) ≡ some n
  pub component_type : ℕ
  pub component_type_lt : component_type < u64_mod
  pub read_component : Block → Option (List ℕ)
  pub read_component_value :
      (b : List ℕ) → read_component (record { type = component_type; value = b }) ≡ some b
  -- An encoded name is self-delimiting.
  pub name_wire_prefix :
      (a b : Name) (x y : List ℕ)
      → var_number name_type ++ (var_number (length (name_value a)) ++ name_value a) ++ x
        ≡ var_number name_type ++ (var_number (length (name_value b)) ++ name_value b) ++ y
      → (a ≡ b) × (x ≡ y)
  -- The order in which a walk over a hashed index gives the elements.
  pub hashed_walk : (A : Type 0) → List A → List A
  pub hashed_walk_perm : (A : Type 0) (xs : List A) → Perm (hashed_walk A xs) xs
  -- The last component of `Data::getFullName`, once the packet is signed: from its name, its
  -- content, its freshness period and the signing identity.
  pub implicit_digest : Name → List ℕ → ℕ → Name → Component
