-- ===== src/Tests/Demo.antt =====
-- A test network: names are lists of components with the last one first, a component is a list of
-- numbers that begins with its kind, and the digest pads its input to 32 bytes.
use mathlib.Core.List.{reverse, reverse_perm}
use native.Mathlib.Numerals.{towards_suc}
use round_sync.Base.{
  ℕ, zero, suc, ◌+◌, ◌<◌, ◌≡◌, refl, ap, Option, none, some, List, [], ◌∷◌, ◌++◌, length, arith,
  if◌then◌else◌, ltb, ◌==◌, u64_mod,
}
use round_sync.Ndn.{Ndn, Block}
use round_sync.Tests.Order.{Order, number_order, list_order}
use round_sync.Tests.Bytes.{
  parse, parse_cons, name_bytes, read_bytes, read_bytes-name_bytes, name_bytes_injective,
  split_bytes,
}

abbrev pub Component : Type 0
Component = List ℕ

abbrev pub Name : Type 0
Name = List Component

abbrev component_order : Order Component
component_order = list_order number_order

abbrev name_order : Order Name
name_order = list_order component_order

abbrev pad : ℕ → List ℕ → List ℕ
pad zero xs = []
pad (suc n) [] = 0 ∷ pad n []
pad (suc n) (x ∷ xs) = x ∷ pad n xs

pub length-pad : (n : ℕ) (xs : List ℕ) → length (pad n xs) ≡ n
length-pad zero xs = refl
length-pad (suc n) [] = ap suc (length-pad n [])
length-pad (suc n) (x ∷ xs) = ap suc (length-pad n xs)

abbrev get_back : Name → ℕ → Option Component
get_back [] i = none
get_back (c ∷ n) zero = none
get_back (c ∷ n) (suc zero) = some c
get_back (c ∷ n) (suc (suc i)) = get_back n (suc i)

abbrev prefix_back : Name → ℕ → Name
prefix_back [] i = []
prefix_back (c ∷ n) zero = c ∷ n
prefix_back (c ∷ n) (suc i) = prefix_back n i

pub prefix_zero : (n : Name) → prefix_back n zero ≡ n
prefix_zero [] = refl
prefix_zero (c ∷ n) = refl

pub get_back_before :
    (n : Name) (c : Component) (i : ℕ) → get_back (c ∷ n) (i + 2) ≡ get_back n (i + 1)
get_back_before n c i = simp towards_suc refl

abbrev to_number : Component → Option ℕ
to_number (zero ∷ n ∷ []) = if ltb n u64_mod then some n else none
to_number _ = none

abbrev tail : List ℕ → List ℕ
tail [] = []
tail (x ∷ xs) = xs

abbrev read_one : List ℕ → Option ℕ
read_one (n ∷ []) = if ltb n u64_mod then some n else none
read_one _ = none

abbrev read_name : Block → Option Name
read_name b = if b.type == 7 then read_bytes b.value else none

abbrev read_component : Block → Option (List ℕ)
read_component b = if b.type == 8 then some b.value else none

pub name_wire_prefix :
    (a b : Name) (x y : List ℕ)
    → (7 ∷ length (name_bytes a) ∷ name_bytes a) ++ x
      ≡ (7 ∷ length (name_bytes b) ∷ name_bytes b) ++ y
    → (a ≡ b) × (x ≡ y)
name_wire_prefix a b x y e =
    let (same, rest) =
      split_bytes (name_bytes a) (name_bytes b) x y (ground arith) (ground arith) in
    (name_bytes_injective a b same, rest)

pub parse_step :
    (t : ℕ) (v rest : List ℕ) (bs : List Block)
    → t < u64_mod
    → length v < u64_mod
    → parse rest ≡ some bs
    → parse (t ∷ length v ∷ (v ++ rest)) ≡ some (record { type = t; value = v } ∷ bs)
parse_step t v rest bs _ _ h = parse_cons t v rest bs h

pub single_injective :
    (a b : ℕ) → a < u64_mod → b < u64_mod → ◌≡◌ {A = List ℕ} (a ∷ []) (b ∷ []) → a ≡ b
single_injective a b _ _ e = ground arith

pub bounded : (n : ℕ) → n < u64_mod → (if ltb n u64_mod then some n else none) ≡ some n
bounded n h = ground arith

pub to_number_lt : (c : Component) (n : ℕ) → to_number c ≡ some n → n < u64_mod
to_number_lt (zero ∷ k ∷ []) n h = ground arith
to_number_lt [] n h = cc
to_number_lt (x ∷ []) n h = ground arith
to_number_lt (zero ∷ k ∷ y ∷ c) n h = cc
to_number_lt (suc x ∷ k ∷ c) n h = ground arith

pub read_one_lt : (b : List ℕ) (n : ℕ) → read_one b ≡ some n → n < u64_mod
read_one_lt (k ∷ []) n h = ground arith
read_one_lt [] n h = cc
read_one_lt (x ∷ y ∷ b) n h = cc

pub small : (n : ℕ) → n < 100 → n < u64_mod
small n h = omega arith

instance abbrev pub demo : Ndn
demo = record {
  Name = Name;
  Component = Component;
  name_eq = name_order.eq;
  name_eq_iff = name_order.eq_iff;
  name_lt = name_order.lt;
  name_lt_irrefl = name_order.lt_irrefl;
  name_lt_trans = name_order.lt_trans;
  name_lt_total = name_order.lt_total;
  component_eq = component_order.eq;
  component_eq_iff = component_order.eq_iff;
  empty_name = [];
  from_uri = λ s. (5 ∷ []) ∷ [];
  append = λ n c. c ∷ n;
  append_name = λ n m. m ++ n;
  get_back = get_back;
  prefix_back = prefix_back;
  get_back_last = λ n c. refl;
  get_back_before = get_back_before;
  prefix_back_last = λ n c. prefix_zero n;
  from_number = λ n. 0 ∷ n ∷ [];
  to_number = to_number;
  to_number_from_number = bounded;
  to_number_lt = to_number_lt;
  from_buffer = λ b. 1 ∷ b;
  component_value = tail;
  component_value_from_buffer = λ b. refl;
  data_component = 2 ∷ [];
  sync_component = 3 ∷ [];
  reco_component = 4 ∷ [];
  sha256 = pad 32;
  length_sha256 = length-pad 32;
  uint64_bytes = λ n. n ∷ [];
  uint64_bytes_injective = single_injective;
  var_number = λ n. n ∷ [];
  number_bytes = λ n. n ∷ [];
  read_number = read_one;
  read_number_bytes = bounded;
  read_number_lt = read_one_lt;
  parse = parse;
  parse_nil = refl;
  parse_cons = parse_step;
  name_value = name_bytes;
  read_name = read_name;
  name_type = 7;
  name_type_lt = small 7 (omega arith);
  read_name_value = read_bytes-name_bytes;
  component_type = 8;
  component_type_lt = small 8 (omega arith);
  read_component = read_component;
  read_component_value = λ b. refl;
  name_wire_prefix = name_wire_prefix;
  hashed_walk = λ A xs. reverse xs;
  hashed_walk_perm = λ A xs. reverse_perm xs;
  implicit_digest = λ name content freshness identity. 6 ∷ content;
}
