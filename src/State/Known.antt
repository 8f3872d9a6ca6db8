-- ===== src/State/Known.antt =====
-- state.cpp: which numbers a tree holds. What holds of every number that a tree is updated with
-- holds of every number in it; it stays a well-formed tree. The decoder makes such trees too.
use round_sync.Base.{
  ℕ, ◌<◌, ◌≡◌, refl, sym, subst, ap, ◌∙◌, ◌⊎◌, inl, inr, Bool-cases, Option, Option-cases, none,
  some, List, [], ◌∷◌, arith, ltb, ◌==◌, u64_mod, ok, ◌>>=◌, >>=-ok,
}
use round_sync.Ndn.{Ndn, Block}
use round_sync.Tlv.{elements, tlv, state_type, state_leaf_type}
use round_sync.Leaf.{Leaf}
use round_sync.State.{State, empty_state, find, update, merge, plus}
use round_sync.State.Lookup.{seq_in, join, seq_in-update, seq_in-merge}
use round_sync.State.Sorted.{IsSorted, IsValid, update-IsValid, merge-IsValid, seq_in-Above}
use round_sync.State.Merge.{best-eq-seq_in, seq_in-plus, plus-IsValid}
use round_sync.State.Digest.{InRange}
use round_sync.State.Wire.{decode_seq, decode_fields, decode_elements, wire_decode}

-- The greater of two numbers is one of them.
join_cases : (a b : Option ℕ) (q : ℕ) → join a b ≡ some q → (a ≡ some q) ⊎ (b ≡ some q)
unfolding join
join_cases none b q h = inr h
join_cases (some a) none q h = inl h
join_cases (some a) (some b) q h = elim (Bool-cases (ltb a b)) [
  | inl e ↦ inr (ground (arith, h, e))
  | inr e ↦ inl (ground (arith, h, e))
]

module _ ⦃ndn : Ndn⦄ where
  open ndn use {Name, name_eq, name_eq_iff, read_number, read_number_lt, read_name}

  -- The numbers that may be known of a session. They have 64 bits, and 0, the mark of a
  -- CumulativeOnly, is one of them.
  pub record Numbers : Type 1 where
    pub Known : Name → ℕ → Type 0
    pub zero_known : (n : Name) → Known n 0
    pub bounded : (n : Name) (q : ℕ) → Known n q → q < u64_mod

module _ ⦃ndn : Ndn⦄ (k : Numbers) where
  open ndn use {Name, name_eq, name_eq_iff}
  open k use {Known, zero_known, bounded}

  abbrev pub Within : List Leaf → Type 0
  Within ls = (n : Name) (q : ℕ) → seq_in ls n ≡ some q → Known n q

  -- A well-formed tree with numbers that may be known.
  pub record IsKept (ls : List Leaf) : Type 0 where
    pub valid : IsValid ls
    pub within : Within ls

  pub empty-IsKept : IsKept []
  unfolding seq_in find
  empty-IsKept = record { valid = record { sorted = tt; fresh = tt }; within = λ n q h. cc h }

  either :
      (a b : Option ℕ) (n : Name)
      → ((q : ℕ) → a ≡ some q → Known n q)
      → ((q : ℕ) → b ≡ some q → Known n q)
      → (q : ℕ) → join a b ≡ some q
      → Known n q
  either a b n f g q h = elim (join_cases a b q h) [ inl e ↦ f q e | inr e ↦ g q e ]

  pub update-IsKept :
      (s : State) (n : Name) (q : ℕ) → IsKept s.leaves → Known n q → IsKept (update s n q).0.leaves
  update-IsKept s n q p h = record {
    valid = update-IsValid s n q p.valid;
    within = λ m r e. elim (Bool-cases (name_eq n m)) [
      | inl same ↦
          let here : join (seq_in s.leaves n) (some q) ≡ some r =
            sym (rw same at (seq_in-update s n m q)) ∙ e in
          subst (λ x. Known x r) ((name_eq_iff n m).0 same)
            (either (seq_in s.leaves n) (some q) n (p.within n)
              (λ x y. subst (Known n) (some_eq y) h) r here)
      | inr other ↦ p.within m r (sym (rw other at (seq_in-update s n m q)) ∙ e)
    ];
  }
    where
      some_eq : {a b : ℕ} → some a ≡ some b → a ≡ b
      some_eq y = cc y

  pub merge-IsKept :
      (s : State) (ls : List Leaf) → IsKept s.leaves → IsKept ls → IsKept (merge s ls).leaves
  merge-IsKept s ls p h = record {
    valid = merge-IsValid s ls p.valid;
    within = λ n q e. either (seq_in s.leaves n) (seq_in ls n) n (p.within n) (h.within n) q (
        ap (join (seq_in s.leaves n)) (sym (best-eq-seq_in n ls h.valid.sorted))
        ∙ sym (seq_in-merge s ls n)
        ∙ e);
  }

  pub plus-IsKept : (s t : State) → IsKept s.leaves → IsKept t.leaves → IsKept (plus s t).leaves
  plus-IsKept s t p h = record {
    valid = plus-IsValid s t p.valid;
    within = λ n q e.
        either (seq_in s.leaves n) (seq_in t.leaves n) n (p.within n) (h.within n) q
          (sym (seq_in-plus s t n h.valid) ∙ e);
  }

  abbrev pub AllKnown : List Leaf → Type 0
  AllKnown [] = Unit {0}
  AllKnown (l ∷ ls) = Known l.session_name l.seq × AllKnown ls

  -- Each leaf of such a tree has a number that may be known.
  pub Within-AllKnown : (ls : List Leaf) → IsSorted ls → Within ls → AllKnown ls
  unfolding seq_in find
  Within-AllKnown [] o w = tt
  Within-AllKnown (l ∷ ls) o w = (
    w l.session_name l.seq (rw ((name_eq_iff l.session_name l.session_name).1 refl) refl),
    Within-AllKnown ls o.1 rest,
  )
    where
      rest : Within ls
      rest n q h = elim (Bool-cases (name_eq l.session_name n)) [
        | inl same ↦ absurd (
            ground
              (arith, (name_eq_iff l.session_name n).0 same, seq_in-Above l.session_name ls o.0, h))
        | inr other ↦ w n q (rw other h)
      ]

  AllKnown-InRange : (ls : List Leaf) → AllKnown ls → InRange ls
  AllKnown-InRange [] h = tt
  AllKnown-InRange (l ∷ ls) h = (bounded l.session_name l.seq h.0, AllKnown-InRange ls h.1)

  -- A tree of numbers that may be known is one that can be encoded.
  pub IsKept-InRange : (ls : List Leaf) → IsSorted ls → Within ls → InRange ls
  IsKept-InRange ls o w = AllKnown-InRange ls (Within-AllKnown ls o w)

  module _ (any : (n : Name) (q : ℕ) → q < u64_mod → Known n q) where
    open ndn use {read_number, read_number_lt, read_name}

    decode_seq-IsKept :
        (s : State) (n : Name) (bs : List Block) (t : State)
        → IsKept s.leaves
        → decode_seq s n bs ≡ ok t
        → IsKept t.leaves
    unfolding decode_seq
    decode_seq-IsKept s n [] t p h = cc h
    decode_seq-IsKept s n (v ∷ rest) t p h = elim (Option-cases (read_number v.value)) [
      | inl e ↦ cc (rw (e, decode_seq) at h)
      | inr (q, e) ↦
          subst (λ (x : State). IsKept x.leaves) (ok_eq (rw (e, decode_seq) at h))
            (update-IsKept s n q p (any n q (read_number_lt v.value q e)))
    ]
      where
        ok_eq : {a b : State} → ok a ≡ ok b → a ≡ b
        ok_eq y = cc y

    decode_fields-IsKept :
        (s : State) (bs : List Block) (t : State)
        → IsKept s.leaves
        → decode_fields s bs ≡ ok t
        → IsKept t.leaves
    unfolding decode_fields
    decode_fields-IsKept s [] t p h = cc h
    decode_fields-IsKept s (b ∷ rest) t p h = elim (Option-cases (read_name b)) [
      | inl e ↦ cc (rw (e, decode_fields) at h)
      | inr (n, e) ↦ decode_seq-IsKept s n rest t p (rw (e, decode_fields) at h)
    ]

    decode_elements-IsKept :
        (s : State) (bs : List Block) (t : State)
        → IsKept s.leaves
        → decode_elements s bs ≡ ok t
        → IsKept t.leaves
    unfolding decode_elements
    decode_elements-IsKept s [] t p h =
        let e : s ≡ t = cc h in subst (λ (x : State). IsKept x.leaves) e p
    decode_elements-IsKept s (b ∷ bs) t p h = elim (Bool-cases (b.type == state_leaf_type)) [
      | inr other ↦ decode_elements-IsKept s bs t p (rw other at h)
      | inl leaf ↦
          let (u, e, rest) =
            >>=-ok (elements b >>= decode_fields s) (λ (x : State). decode_elements x bs)
              (rw leaf at h) in
          let (fs, _, e') = >>=-ok (elements b) (decode_fields s) e in
          decode_elements-IsKept u bs t (decode_fields-IsKept s fs u p e') rest
    ]

    -- What the decoder makes of any block at all is a well-formed tree.
    pub wire_decode-IsKept :
        (b : Option Block) (t : State) → wire_decode empty_state b ≡ ok t → IsKept t.leaves
    unfolding wire_decode
    wire_decode-IsKept none t h = cc h
    wire_decode-IsKept (some b) t h = elim (Bool-cases (b.type == state_type)) [
      | inr other ↦ cc (rw other at h)
      | inl same ↦
          let (bs, _, e) =
            >>=-ok (elements b)
              (decode_elements (record { leaves = []; wire = some (tlv b.type b.value) }))
              (rw same at h) in
          decode_elements-IsKept (record { leaves = []; wire = some (tlv b.type b.value) }) bs t
            empty-IsKept e
    ]
