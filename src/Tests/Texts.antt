-- ===== src/Tests/Texts.antt =====
-- Examples of the theorems on what is printed. The test names are printed as their numbers, each 50
-- higher, with a 1 after each component.
use round_sync.Base.{
  ℕ, ◌+◌, ◌-◌, ◌/◌, ◌%◌, ◌≡◌, ◌≢◌, refl, Option, false, ap, ◌∙◌, some, List, [], ◌∷◌, All, arith,
  if◌then◌else◌, ◌==◌,
}
use round_sync.Printing.{
  Printer, codes, hex_digit, decimal, decimal_digits, print_state, print_digest, print_entries,
  data_type_text,
}
use round_sync.Printing.Trees.{print_state-injective}
use round_sync.Printing.Rounds.{
  print_digest-injective, entries_before, print_all, print_entries-entries_before,
}
use round_sync.Tests.Demo.{demo, Name, Component}
use round_sync.Tests.Data.{two, two_leaves, two-IsValid, two-InRange, rounds}

put_component : Component → List ℕ → List ℕ
put_component [] rest = 1 ∷ rest
put_component (x ∷ c) rest = (x + 50) ∷ put_component c rest

put_name : Name → List ℕ
put_name [] = []
put_name (c ∷ n) = put_component c (put_name n)

add_first : ℕ → Name → Name
add_first x [] = (x ∷ []) ∷ []
add_first x (c ∷ n) = (x ∷ c) ∷ n

read_name : List ℕ → Name
read_name [] = []
read_name (k ∷ ks) = if k == 1 then [] ∷ read_name ks else add_first (k - 50) (read_name ks)

read_name-put_component :
    (c : Component) (rest : List ℕ) → read_name (put_component c rest) ≡ c ∷ read_name rest
unfolding read_name put_component add_first
read_name-put_component [] rest = refl
read_name-put_component (x ∷ c) rest =
    let other : (x + 50 == 1) ≡ false = ground arith in
    let back : x + 50 - 50 ≡ x = omega arith in
    rw (other, read_name-put_component c rest, back) refl

read_name-put_name : (n : Name) → read_name (put_name n) ≡ n
unfolding put_name
read_name-put_name [] = unfold read_name in refl
read_name-put_name (c ∷ n) =
    read_name-put_component c (put_name n) ∙ ap (λ (m : Name). c ∷ m) (read_name-put_name n)

no_parenthesis :
    (c : Component) (rest : List ℕ)
    → All (λ x. x ≢ b'(') rest
    → All (λ x. x ≢ b'(') (put_component c rest)
unfolding put_component
no_parenthesis [] rest h = (λ e. omega (arith, e), h)
no_parenthesis (x ∷ c) rest h = (λ e. omega (arith, e), no_parenthesis c rest h)

put_name-escapes : (n : Name) → All (λ x. x ≢ b'(') (put_name n)
unfolding put_name
put_name-escapes [] = tt
put_name-escapes (c ∷ n) = no_parenthesis c (put_name n) (put_name-escapes n)

abbrev hex : List ℕ → List ℕ
hex [] = []
hex (b ∷ bs) = hex_digit (b / 16) ∷ hex_digit (b % 16) ∷ hex bs

instance abbrev printer : Printer
printer = record {
  to_uri = put_name;
  read_uri = λ t. some (read_name t);
  read_uri_to_uri = λ n. ap some (read_name-put_name n);
  to_uri_escapes = put_name-escapes;
  hex_encode = hex;
  hex_encode_nil = refl;
  hex_encode_cons = λ b bs. refl;
}

decimal_test : decimal 4096 ≡ codes "4096"
unfolding decimal decimal_digits
decimal_test = refl

data_type_test : data_type_text 128 ≡ codes "DataOny"
unfolding data_type_text
data_type_test = refl

digest_test : print_digest (some (171 ∷ 7 ∷ [])) (codes "rd") ≡ codes "  rd: ab07\n"
unfolding print_digest
digest_test = refl

print_state-injective_example : two_leaves ≡ two_leaves
print_state-injective_example =
    print_state-injective two (record two { wire = some [] }) two-IsValid two-IsValid two-InRange
      two-InRange (unfold print_state in refl)

abbrev digest : Option (List ℕ)
digest = some (171 ∷ 7 ∷ [])

print_digest-injective_example : digest ≡ digest
print_digest-injective_example =
    print_digest-injective digest digest (codes "rd") (omega arith, (omega arith, tt))
      (omega arith, (omega arith, tt)) refl

print_entries-entries_before_example : print_entries 3 rounds ≡ print_all (entries_before 3 rounds)
print_entries-entries_before_example =
    print_entries-entries_before 3 rounds ((omega arith, tt), (tt, tt))
