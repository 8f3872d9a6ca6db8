-- ===== src/Tests/Bytes.antt =====
-- A plain TLV format for the test network: a type, a length and the bytes of the value, each number
-- in one element.
use round_sync.Base.{
  ℕ, zero, suc, ◌≡◌, refl, ap, Option, none, some, List, [], ◌∷◌, ◌++◌, length, arith,
}
use round_sync.Ndn.{Block}

-- The first `n` bytes, and the elements after them.
abbrev pub scan : List ℕ → ℕ → Option (List ℕ × List Block)
scan [] zero = some ([], [])
scan [] (suc n) = none
scan (x ∷ xs) (suc n) = elim (scan xs n) [ none ↦ none | some (v, bs) ↦ some (x ∷ v, bs) ]
scan (t ∷ []) zero = none
scan (t ∷ n ∷ xs) zero = elim (scan xs n) [
  | none ↦ none
  | some (v, bs) ↦ some ([], record { type = t; value = v } ∷ bs)
]

abbrev pub blocks : Option (List ℕ × List Block) → Option (List Block)
blocks none = none
blocks (some (v, bs)) = some bs

abbrev pub parse : List ℕ → Option (List Block)
parse xs = blocks (scan xs zero)

scan-zero : (xs : List ℕ) {v : List ℕ} {bs : List Block} → scan xs zero ≡ some (v, bs) → v ≡ []
scan-zero [] h = ground arith
scan-zero (t ∷ []) h = cc
scan-zero (t ∷ n ∷ xs) h = ground arith

scan-append :
    (v rest : List ℕ) (bs : List Block)
    → scan rest zero ≡ some ([], bs)
    → scan (v ++ rest) (length v) ≡ some (v, bs)
scan-append [] rest bs h = h
scan-append (x ∷ v) rest bs h = rw (scan-append v rest bs h) refl

scan_of_parse : (xs : List ℕ) (bs : List Block) → parse xs ≡ some bs → scan xs zero ≡ some ([], bs)
scan_of_parse xs bs h = result (scan xs zero) refl h
  where
    result :
        (o : Option (List ℕ × List Block))
        → scan xs zero ≡ o
        → blocks o ≡ some bs
        → scan xs zero ≡ some ([], bs)
    result none e k = cc
    result (some (v, cs)) e k = rw e (ground (arith, scan-zero xs e))

pub parse_cons :
    (t : ℕ) (v rest : List ℕ) (bs : List Block)
    → parse rest ≡ some bs
    → parse (t ∷ length v ∷ (v ++ rest)) ≡ some (record { type = t; value = v } ∷ bs)
parse_cons t v rest bs h = ground (arith, scan-append v rest bs (scan_of_parse rest bs h))

-- A name is the sequence of its components, each an element of type 8.
abbrev pub name_bytes : List (List ℕ) → List ℕ
name_bytes [] = []
name_bytes (c ∷ n) = 8 ∷ length c ∷ (c ++ name_bytes n)

abbrev component_blocks : List (List ℕ) → List Block
component_blocks [] = []
component_blocks (c ∷ n) = record { type = 8; value = c } ∷ component_blocks n

parse-name_bytes : (n : List (List ℕ)) → parse (name_bytes n) ≡ some (component_blocks n)
parse-name_bytes [] = refl
parse-name_bytes (c ∷ n) = parse_cons 8 c (name_bytes n) (component_blocks n) (parse-name_bytes n)

abbrev values : List Block → List (List ℕ)
values [] = []
values (b ∷ bs) = b.value ∷ values bs

values-component_blocks : (n : List (List ℕ)) → values (component_blocks n) ≡ n
values-component_blocks [] = refl
values-component_blocks (c ∷ n) = ap (λ (m : List (List ℕ)). c ∷ m) (values-component_blocks n)

abbrev pub read_bytes : List ℕ → Option (List (List ℕ))
read_bytes v = elim (parse v) [ none ↦ none | some bs ↦ some (values bs) ]

pub read_bytes-name_bytes : (n : List (List ℕ)) → read_bytes (name_bytes n) ≡ some n
read_bytes-name_bytes n = rw (parse-name_bytes n, read_bytes) (ap some (values-component_blocks n))

pub name_bytes_injective : (a b : List (List ℕ)) → name_bytes a ≡ name_bytes b → a ≡ b
name_bytes_injective a b e = cc (read_bytes-name_bytes a, read_bytes-name_bytes b, ap read_bytes e)

pub split_bytes : (a b x y : List ℕ) → length a ≡ length b → a ++ x ≡ b ++ y → (a ≡ b) × (x ≡ y)
split_bytes [] [] x y h e = (refl, e)
split_bytes [] (c ∷ b) x y h e = absurd (omega arith)
split_bytes (c ∷ a) [] x y h e = absurd (omega arith)
split_bytes (c ∷ a) (d ∷ b) x y h e = ground (arith, split_bytes a b x y)
