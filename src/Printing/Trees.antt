-- ===== src/Printing/Trees.antt =====
-- logic.cpp: what printState prints determines the tree.
use mathlib.Core.List.{Permᴰ}
use mathlib.Core.Logic.{∥∥₁_elim}
use mathlib.Core.Bool.{Bool-set}
use round_sync.Base.{
  ℕ, ◌<◌, ◌≡◌, ◌≢◌, refl, sym, ap, ◌∙◌, Bool, true, ◌&&◌, some, List, [], ◌∷◌, ◌++◌, append_assoc,
  All, arith, ltb, u64_mod,
}
use round_sync.Ndn.{Ndn}
use round_sync.Leaf.{Leaf}
use round_sync.State.{State}
use round_sync.State.Lookup.{best, seq_in}
use round_sync.State.Sorted.{IsValid, leaves_ext}
use round_sync.State.Merge.{best-Perm, best-eq-seq_in}
use round_sync.State.Digest.{InRange}
use round_sync.Printing.{Printer, decimal, print_leaf, print_leaves, print_state}
use round_sync.Printing.Decimal.{decimal-injective, decimal-IsDigit, IsDigit}

-- Texts that end at the first `c` are told apart by what follows.
split_at :
    (c : ℕ) (xs ys rest rest' : List ℕ)
    → All (λ x. x ≢ c) xs
    → All (λ x. x ≢ c) ys
    → xs ++ (c ∷ rest) ≡ ys ++ (c ∷ rest')
    → (xs ≡ ys) × (rest ≡ rest')
split_at c [] [] rest rest' h k e = (refl, cc e)
split_at c [] (y ∷ ys) rest rest' h k e = absurd (k.0 (cc e))
split_at c (x ∷ xs) [] rest rest' h k e = absurd (h.0 (cc e))
split_at c (x ∷ xs) (y ∷ ys) rest rest' h k e =
    let (same, after) = split_at c xs ys rest rest' h.1 k.1 (cc e) in (cc (e, same), after)

module _ ⦃ndn : Ndn⦄ ⦃printer : Printer⦄ where
  open ndn use {Name, name_eq, hashed_walk, hashed_walk_perm}
  open printer use {to_uri, read_uri, read_uri_to_uri, to_uri_escapes}

  plain : (cs : List ℕ) → All IsDigit cs → All (λ c. c ≢ b')') cs
  plain [] h = tt
  plain (c ∷ cs) h = (λ e. omega (arith, h.0, e), plain cs h.1)

  same_name : (m n : Name) → to_uri m ≡ to_uri n → m ≡ n
  same_name m n e = some_eq (sym (read_uri_to_uri m) ∙ ap read_uri e ∙ read_uri_to_uri n)
    where
      some_eq : {a b : Name} → some a ≡ some b → a ≡ b
      some_eq h = cc h

  -- The first leaf and the rest of a printed tree.
  print_leaf-injective :
      (l k : Leaf) (rest rest' : List ℕ)
      → l.seq < u64_mod
      → k.seq < u64_mod
      → print_leaf l ++ (b'\n' ∷ rest) ≡ print_leaf k ++ (b'\n' ∷ rest')
      → (l.session_name ≡ k.session_name) × (l.seq ≡ k.seq) × (rest ≡ rest')
  unfolding print_leaf
  print_leaf-injective l k rest rest' h h' e =
      let parts : (m : Leaf) (r : List ℕ)
          → (to_uri m.session_name ++ (b'(' ∷ (decimal m.seq ++ (b')' ∷ [])))) ++ (b'\n' ∷ r)
            ≡ to_uri m.session_name ++ (b'(' ∷ (decimal m.seq ++ (b')' ∷ b'\n' ∷ r))) =
        λ m r.
          append_assoc (to_uri m.session_name) (b'(' ∷ (decimal m.seq ++ (b')' ∷ []))) (b'\n' ∷ r)
          ∙ ap (λ (z : List ℕ). to_uri m.session_name ++ (b'(' ∷ z))
              (append_assoc (decimal m.seq) (b')' ∷ []) (b'\n' ∷ r)) in
      let (names, after) =
        split_at b'(' (to_uri l.session_name) (to_uri k.session_name) _ _
          (to_uri_escapes l.session_name) (to_uri_escapes k.session_name)
          (sym (parts l rest) ∙ e ∙ parts k rest') in
      let (digits, end) =
        split_at b')' (decimal l.seq) (decimal k.seq) _ _ (plain _ (decimal-IsDigit l.seq))
          (plain _ (decimal-IsDigit k.seq)) after in
      (
        same_name l.session_name k.session_name names,
        decimal-injective l.seq k.seq h h' digits,
        cc end,
      )

  not_empty : (l : Leaf) (rest : List ℕ) → print_leaf l ++ (b'\n' ∷ rest) ≢ []
  not_empty l rest e = absurd (go (print_leaf l) e)
    where
      go : (cs : List ℕ) → cs ++ (b'\n' ∷ rest) ≢ []
      go [] h = cc h
      go (c ∷ cs) h = cc h

  -- Leaves that are printed alike have the same numbers.
  best-print_leaves :
      (ls ks : List Leaf)
      → InRange ls
      → InRange ks
      → print_leaves ls ≡ print_leaves ks
      → (n : Name) → best n ls ≡ best n ks
  unfolding print_leaves best
  best-print_leaves [] [] r s e n = refl
  best-print_leaves [] (k ∷ ks) r s e n = absurd (not_empty k (print_leaves ks) (sym e))
  best-print_leaves (l ∷ ls) [] r s e n = absurd (not_empty l (print_leaves ls) e)
  best-print_leaves (l ∷ ls) (k ∷ ks) r s e n =
      let (names, seqs, after) = print_leaf-injective l k _ _ r.0 s.0 e in
      rw (names, seqs, best-print_leaves ls ks r.1 s.1 after n) refl

  fits : List Leaf → Bool
  fits [] = true
  fits (l ∷ ls) = ltb l.seq u64_mod && fits ls

  fits-Permᴰ : {ls ks : List Leaf} → Permᴰ ls ks → fits ls ≡ fits ks
  unfolding fits
  fits-Permᴰ Permᴰ.nil = refl
  fits-Permᴰ (Permᴰ.cons e p) = rw e (ground (arith, fits-Permᴰ p))
  fits-Permᴰ (Permᴰ.swap {a' = a} {b' = b} {l = l} e f) = rw (e, f) (ground arith)
  fits-Permᴰ (Permᴰ.trans p q) = fits-Permᴰ p ∙ fits-Permᴰ q

  InRange-fits : (ls : List Leaf) → InRange ls → fits ls ≡ true
  unfolding fits
  InRange-fits [] r = refl
  InRange-fits (l ∷ ls) r = ground (arith, InRange-fits ls r.1, r.0)

  fits-InRange : (ls : List Leaf) → fits ls ≡ true → InRange ls
  unfolding fits
  fits-InRange [] h = tt
  fits-InRange (l ∷ ls) h = (ground (arith, h), fits-InRange ls (ground (arith, h)))

  walk-InRange : (ls : List Leaf) → InRange ls → InRange (hashed_walk Leaf ls)
  walk-InRange ls r =
      fits-InRange (hashed_walk Leaf ls)
        (∥∥₁_elim (hashed_walk_perm Leaf ls) (Bool-set _ _) fits-Permᴰ ∙ InRange-fits ls r)

  -- Two well-formed trees whose numbers have 64 bits, and for which printState prints the same
  -- text, have the same leaves, whatever the order in which the hashed index is walked.
  pub print_state-injective :
      (s t : State)
      → IsValid s.leaves
      → IsValid t.leaves
      → InRange s.leaves
      → InRange t.leaves
      → print_state s ≡ print_state t
      → s.leaves ≡ t.leaves
  unfolding print_state
  print_state-injective s t v w r q e =
      let walked : (ls : List Leaf) (n : Name)
          → IsValid ls
          → best n (hashed_walk Leaf ls) ≡ seq_in ls n =
        λ ls n h. best-Perm n (hashed_walk_perm Leaf ls) ∙ best-eq-seq_in n ls h.sorted in
      leaves_ext s.leaves t.leaves v w (λ n.
        sym (walked s.leaves n v)
        ∙ best-print_leaves (hashed_walk Leaf s.leaves) (hashed_walk Leaf t.leaves)
            (walk-InRange s.leaves r) (walk-InRange t.leaves q) e n
        ∙ walked t.leaves n w)
