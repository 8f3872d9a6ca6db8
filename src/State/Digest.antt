-- ===== src/State/Digest.antt =====
-- `getDigest` (state.cpp): the digest is fixed by the leaves, and it tells different trees apart
-- unless SHA-256 has a collision, which the proof then exhibits.
use round_sync.Base.{
  ℕ, ◌<◌, ◌≡◌, refl, sym, ap, ◌∙◌, ◌≢◌, ◌⊎◌, inl, inr, List, [], ◌∷◌, ◌++◌, length, length-append,
  arith, bytes_eq, bytes_eq_refl, bytes_eq_sound, Bool-cases, u64_mod,
}
use round_sync.Ndn.{Ndn}
use round_sync.Leaf.{Leaf, leaf_digest, name_wire}
use round_sync.State.{State, digest_input, get_digest}
use round_sync.State.Sorted.{IsValid, AllFresh, leaf_eq}

append_split : (a b x y : List ℕ) → length a ≡ length b → a ++ x ≡ b ++ y → (a ≡ b) × (x ≡ y)
append_split [] [] x y h e = (refl, e)
append_split [] (c ∷ b) x y h e = absurd (omega arith)
append_split (c ∷ a) [] x y h e = absurd (omega arith)
append_split (c ∷ a) (d ∷ b) x y h e = ground (arith, append_split a b x y)

module _ ⦃ndn : Ndn⦄ where
  open ndn use {Name, sha256, length_sha256, uint64_bytes, uint64_bytes_injective, name_wire_prefix}

  -- Two inputs on which SHA-256 agrees.
  abbrev pub Collision : Type 0
  Collision = (x : List ℕ) × (y : List ℕ) × (x ≢ y) × (sha256 x ≡ sha256 y)

  abbrev pub InRange : List Leaf → Type 0
  InRange [] = Unit {0}
  InRange (l ∷ ls) = (l.seq < u64_mod) × InRange ls

  -- Equal digests have equal inputs, or there is a collision.
  sha256_inputs : (x y : List ℕ) → sha256 x ≡ sha256 y → (x ≡ y) ⊎ Collision
  sha256_inputs x y e = elim (Bool-cases (bytes_eq x y)) [
    | inl same ↦ inl (bytes_eq_sound x y same)
    | inr other ↦ inr (x, y, (λ (p : x ≡ y). cc (bytes_eq_refl x, other, ap (bytes_eq x) p)), e)
  ]

  leaf_digest_sound :
      (a b : Name) (p q : ℕ)
      → p < u64_mod
      → q < u64_mod
      → leaf_digest a p ≡ leaf_digest b q
      → ((a ≡ b) × (p ≡ q)) ⊎ Collision
  unfolding leaf_digest
  leaf_digest_sound a b p q hp hq e =
      elim (sha256_inputs (name_wire a ++ uint64_bytes p) (name_wire b ++ uint64_bytes q) e) [
        | inl same ↦
            let (n, x) = name_wire_prefix a b (uint64_bytes p) (uint64_bytes q) same in
            inl (n, uint64_bytes_injective p q hp hq x)
        | inr c ↦ inr c
      ]

  length-leaf_digest : (a : Name) (p : ℕ) → length (leaf_digest a p) ≡ 32
  unfolding leaf_digest
  length-leaf_digest a p = length_sha256 _

  digest_input_sound :
      (ls ks : List Leaf)
      → AllFresh ls
      → AllFresh ks
      → InRange ls
      → InRange ks
      → digest_input ls ≡ digest_input ks
      → (ls ≡ ks) ⊎ Collision
  unfolding digest_input
  digest_input_sound [] [] f g r s e = inl refl
  digest_input_sound [] (k ∷ ks) f g r s e = absurd (
      omega (
        arith,
        ap length e,
        length-append k.digest (digest_input ks),
        ap length g.0,
        length-leaf_digest k.session_name k.seq,
      ))
  digest_input_sound (l ∷ ls) [] f g r s e = absurd (
      omega (
        arith,
        ap length e,
        length-append l.digest (digest_input ls),
        ap length f.0,
        length-leaf_digest l.session_name l.seq,
      ))
  digest_input_sound (l ∷ ls) (k ∷ ks) f g r s e =
      let (d, rest) =
        append_split l.digest k.digest (digest_input ls) (digest_input ks)
          (omega (
            arith,
            ap length f.0,
            ap length g.0,
            length-leaf_digest l.session_name l.seq,
            length-leaf_digest k.session_name k.seq,
          ))
          e in
      elim (leaf_digest_sound l.session_name k.session_name l.seq k.seq r.0 s.0
        (sym f.0 ∙ d ∙ g.0)) [
          | inr c ↦ inr c
          | inl (n, q) ↦ elim (digest_input_sound ls ks f.1 g.1 r.1 s.1 rest) [
            | inl same ↦ inl (cc (leaf_eq l k f.0 g.0 n q, same))
            | inr c ↦ inr c
          ]
        ]

  -- Two well-formed trees with numbers of 64 bits and the same digest have the same leaves, or
  -- SHA-256 has a collision.
  pub get_digest_sound :
      (s t : State)
      → IsValid s.leaves
      → IsValid t.leaves
      → InRange s.leaves
      → InRange t.leaves
      → get_digest s ≡ get_digest t
      → (s.leaves ≡ t.leaves) ⊎ Collision
  unfolding get_digest
  get_digest_sound s t v w r q e =
      elim (sha256_inputs (digest_input s.leaves) (digest_input t.leaves) e) [
        | inl same ↦ digest_input_sound s.leaves t.leaves v.fresh w.fresh r q same
        | inr c ↦ inr c
      ]
