-- ===== src/Printing/Rounds.antt =====
-- logic.cpp: the rounds that printRoundLog prints, and the digests that printDigest prints.
use round_sync.Base.{
  ℕ, ◌/◌, ◌%◌, ◌≤◌, ◌<◌, ◌≡◌, ◌≢◌, refl, sym, ap, Bool-cases, inl, inr, Option, none, some, List,
  [], ◌∷◌, ◌++◌, All, arith, ltb, if◌then◌else◌,
}
use round_sync.Ndn.{Ndn}
use round_sync.DiffState.{DiffState}
use round_sync.Log.{Above, IsOrdered}
use round_sync.Printing.{Printer, codes, hex_digit, print_digest, print_entry, print_entries}

hex_digit-injective : (a b : ℕ) → a < 16 → b < 16 → hex_digit a ≡ hex_digit b → a ≡ b
hex_digit-injective a b h k e = ground (arith, e)

append_cancel : (xs ys zs : List ℕ) → xs ++ ys ≡ xs ++ zs → ys ≡ zs
append_cancel [] ys zs e = e
append_cancel (x ∷ xs) ys zs e = append_cancel xs ys zs (cc e)

-- A byte from its two digits.
same_byte :
    (b c : ℕ)
    → b < 256
    → c < 256
    → hex_digit (b / 16) ≡ hex_digit (c / 16)
    → hex_digit (b % 16) ≡ hex_digit (c % 16)
    → b ≡ c
same_byte b c h k e f =
    let high = hex_digit-injective (b / 16) (c / 16) (omega arith) (omega arith) e in
    let low = hex_digit-injective (b % 16) (c % 16) (omega arith) (omega arith) f in
    omega (arith, high, low)

module _ ⦃ndn : Ndn⦄ ⦃printer : Printer⦄ where
  open printer use {hex_encode, hex_encode_nil, hex_encode_cons}

  abbrev pub IsByte : ℕ → Type 0
  IsByte b = b < 256

  hex_encode-injective :
      (d d' : List ℕ)
      → All IsByte d
      → All IsByte d'
      → hex_encode d ++ (b'\n' ∷ []) ≡ hex_encode d' ++ (b'\n' ∷ [])
      → d ≡ d'
  hex_encode-injective [] [] h k e = refl
  hex_encode-injective [] (c ∷ cs) h k e =
      absurd (ground (arith, rw (hex_encode_nil, hex_encode_cons c cs) at e))
  hex_encode-injective (b ∷ bs) [] h k e =
      absurd (ground (arith, rw (hex_encode_nil, hex_encode_cons b bs) at e))
  hex_encode-injective (b ∷ bs) (c ∷ cs) h k e =
      let e' = rw (hex_encode_cons b bs, hex_encode_cons c cs) at e in
      cc (same_byte b c h.0 k.0 (cc e') (cc e'), hex_encode-injective bs cs h.1 k.1 (cc e'))

  hex_encode-not_null :
      (d : List ℕ) → All IsByte d → hex_encode d ++ (b'\n' ∷ []) ≢ codes "NULL" ++ (b'\n' ∷ [])
  hex_encode-not_null [] h e = ground (arith, rw hex_encode_nil at e)
  hex_encode-not_null (b ∷ bs) h e =
      let e' : hex_digit (b / 16) ≡ b'N' = cc (rw (hex_encode_cons b bs) at e) in
      ground (arith, e', h.0)

  -- The bytes of a digest, where there is one.
  abbrev pub AllBytes : Option (List ℕ) → Type 0
  AllBytes none = Unit {0}
  AllBytes (some d) = All IsByte d

  -- Two digests, each null or a list of bytes, for which printDigest prints the same text under the
  -- same name, are equal.
  pub print_digest-injective :
      (d d' : Option (List ℕ)) (name : List ℕ)
      → AllBytes d
      → AllBytes d'
      → print_digest d name ≡ print_digest d' name
      → d ≡ d'
  unfolding print_digest
  print_digest-injective d d' name h k e =
      go d d' h k
        (append_cancel (codes ": ") _ _ (append_cancel name _ _ (append_cancel (codes "  ") _ _ e)))
    where
      go :
          (d d' : Option (List ℕ))
          → AllBytes d
          → AllBytes d'
          → elim d [ some x ↦ hex_encode x ++ (b'\n' ∷ []) | none ↦ codes "NULL" ++ (b'\n' ∷ []) ]
            ≡ elim d' [
              | some x ↦ hex_encode x ++ (b'\n' ∷ [])
              | none ↦ codes "NULL" ++ (b'\n' ∷ [])
            ]
          → d ≡ d'
      go none none h k e = refl
      go none (some x) h k e = absurd (hex_encode-not_null x k (sym e))
      go (some x) none h k e = absurd (hex_encode-not_null x h e)
      go (some x) (some y) h k e = ap some (hex_encode-injective x y h k e)

  -- The entries of the rounds before `current`, wherever they stand in the log.
  abbrev pub entries_before : ℕ → List DiffState → List DiffState
  entries_before current [] = []
  entries_before current (d ∷ ds) =
      let rest = entries_before current ds in if ltb d.round current then d ∷ rest else rest

  abbrev pub print_all : List DiffState → List ℕ
  print_all [] = []
  print_all (d ∷ ds) = print_entry d ++ print_all ds

  none_before :
      (current r : ℕ) (ds : List DiffState)
      → current ≤ r
      → Above r ds
      → entries_before current ds ≡ []
  none_before current r [] h a = refl
  none_before current r (d ∷ ds) h a = ground (arith, none_before current r ds h a.1, a.0)

  -- On a log in the order of its rounds, the loop of printRoundLog, which stops at the first round
  -- that is not before the current one, prints exactly the entries of the log whose round is before
  -- it.
  pub print_entries-entries_before :
      (current : ℕ) (ds : List DiffState)
      → IsOrdered ds
      → print_entries current ds ≡ print_all (entries_before current ds)
  unfolding print_entries
  print_entries-entries_before current [] o = refl
  print_entries-entries_before current (d ∷ ds) o = elim (Bool-cases (ltb d.round current)) [
    | inl e ↦
        rw e (ap (λ (x : List ℕ). print_entry d ++ x) (print_entries-entries_before current ds o.1))
    | inr e ↦ rw (e, none_before current d.round ds (ground (arith, e)) o.0) refl
  ]
