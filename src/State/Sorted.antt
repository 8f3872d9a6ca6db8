-- ===== src/State/Sorted.antt =====
-- The index `ordered` of leaf-container.hpp: its leaves have distinct names in increasing order,
-- and the digests that they keep are those of their fields. Such a list is fixed by its lookups.
use round_sync.Base.{
  ℕ, ◌≡◌, refl, ap, inl, inr, true, none, some, List, [], ◌∷◌, arith, Bool-cases, Option-cases,
}
use round_sync.Ndn.{Ndn}
use round_sync.Leaf.{
  Leaf, leaf_digest, make_leaf, set_seq, IsFresh, make_leaf-IsFresh, set_seq-IsFresh,
}
use round_sync.State.{State, find, insert, modify, update, update_found, merge}
use round_sync.State.Lookup.{seq_in, name_eq_refl}

module _ ⦃ndn : Ndn⦄ where
  open ndn use {Name, name_eq, name_eq_iff, name_lt, name_lt_irrefl, name_lt_trans, name_lt_total}

  -- Every name in the list comes after `n`.
  abbrev pub Above : Name → List Leaf → Type 0
  Above n [] = Unit {0}
  Above n (l ∷ ls) = (name_lt n l.session_name ≡ true) × Above n ls

  abbrev pub IsSorted : List Leaf → Type 0
  IsSorted [] = Unit {0}
  IsSorted (l ∷ ls) = Above l.session_name ls × IsSorted ls

  abbrev pub AllFresh : List Leaf → Type 0
  AllFresh [] = Unit {0}
  AllFresh (l ∷ ls) = IsFresh l × AllFresh ls

  -- A well-formed container.
  pub record IsValid (ls : List Leaf) : Type 0 where
    pub sorted : IsSorted ls
    pub fresh : AllFresh ls

  Above-trans : (a b : Name) (ls : List Leaf) → name_lt a b ≡ true → Above b ls → Above a ls
  Above-trans a b [] h p = tt
  Above-trans a b (l ∷ ls) h p = (name_lt_trans a b l.session_name h p.0, Above-trans a b ls h p.1)

  Above-insert :
      (n : Name) (a : Leaf) (ls : List Leaf)
      → name_lt n a.session_name ≡ true
      → Above n ls
      → Above n (insert a ls)
  unfolding insert
  Above-insert n a [] h p = (h, tt)
  Above-insert n a (l ∷ ls) h p = ground (arith, Above-insert n a ls h p.1)

  insert-IsSorted :
      (a : Leaf) (ls : List Leaf)
      → find a.session_name ls ≡ none
      → IsSorted ls
      → IsSorted (insert a ls)
  unfolding insert find
  insert-IsSorted a [] h s = (tt, tt)
  insert-IsSorted a (l ∷ ls) h s = ground (
    arith,
    insert-IsSorted a ls,
    Above-insert l.session_name a ls,
    Above-trans a.session_name l.session_name ls,
    name_lt_total a.session_name l.session_name,
    name_eq_iff l.session_name a.session_name,
  )

  insert-AllFresh : (a : Leaf) (ls : List Leaf) → IsFresh a → AllFresh ls → AllFresh (insert a ls)
  unfolding insert
  insert-AllFresh a [] h s = (h, tt)
  insert-AllFresh a (l ∷ ls) h s = ground (arith, insert-AllFresh a ls h s.1)

  set_seq_name : (q : ℕ) (l : Leaf) → (set_seq q l).session_name ≡ l.session_name
  unfolding set_seq
  set_seq_name q l = ground arith

  Above-modify :
      (n m : Name) (q : ℕ) (ls : List Leaf) → Above n ls → Above n (modify m (set_seq q) ls)
  unfolding modify
  Above-modify n m q [] p = tt
  Above-modify n m q (l ∷ ls) p = ground (arith, set_seq_name q l, Above-modify n m q ls p.1)

  modify-IsSorted :
      (n : Name) (q : ℕ) (ls : List Leaf) → IsSorted ls → IsSorted (modify n (set_seq q) ls)
  unfolding modify
  modify-IsSorted n q [] s = tt
  modify-IsSorted n q (l ∷ ls) s =
      ground (
        arith,
        set_seq_name q l,
        modify-IsSorted n q ls s.1,
        Above-modify l.session_name n q ls s.0,
      )

  modify-AllFresh :
      (n : Name) (q : ℕ) (ls : List Leaf) → AllFresh ls → AllFresh (modify n (set_seq q) ls)
  unfolding modify
  modify-AllFresh n q [] s = tt
  modify-AllFresh n q (l ∷ ls) s =
      ground (arith, set_seq-IsFresh q l s.0, modify-AllFresh n q ls s.1)

  -- An update keeps a well-formed tree well formed: its names distinct and in order, its digests
  -- those of its fields.
  pub update-IsValid :
      (s : State) (n : Name) (q : ℕ) → IsValid s.leaves → IsValid (update s n q).0.leaves
  unfolding update update_found make_leaf
  update-IsValid s n q v = elim (Option-cases (find n s.leaves)) [
    | inl e ↦
        rw (e, update)
          (record {
            sorted = insert-IsSorted (make_leaf n q) s.leaves e v.sorted;
            fresh = insert-AllFresh (make_leaf n q) s.leaves (make_leaf-IsFresh n q) v.fresh;
          })
    | inr (l, e) ↦
        rw (e, update)
          (ground
            (arith, modify-IsSorted n q s.leaves v.sorted, modify-AllFresh n q s.leaves v.fresh))
  ]

  pub merge-IsValid : (s : State) (ls : List Leaf) → IsValid s.leaves → IsValid (merge s ls).leaves
  unfolding merge
  merge-IsValid s [] v = v
  merge-IsValid s (l ∷ ls) v =
      merge-IsValid (update s l.session_name l.seq).0 ls (update-IsValid s l.session_name l.seq v)

  pub Above-find : (n : Name) (ls : List Leaf) → Above n ls → find n ls ≡ none
  unfolding find
  Above-find n [] p = refl
  Above-find n (l ∷ ls) p =
      ground (arith, Above-find n ls p.1, name_eq_iff l.session_name n, name_lt_irrefl n)

  pub leaf_eq :
      (l k : Leaf) → IsFresh l → IsFresh k → l.session_name ≡ k.session_name → l.seq ≡ k.seq → l ≡ k
  leaf_eq l k f g p q = ground (arith, ap (λ (n : Name). leaf_digest n k.seq) p)

  seq_in-head : (l : Leaf) (ls : List Leaf) → seq_in (l ∷ ls) l.session_name ≡ some l.seq
  unfolding seq_in find
  seq_in-head l ls = rw (name_eq_refl l.session_name)

  pub seq_in-Above : (n : Name) (ls : List Leaf) → Above n ls → seq_in ls n ≡ none
  unfolding seq_in
  seq_in-Above n ls p = rw (Above-find n ls p)

  -- Both lists begin with the same name: else the smaller of the two is in one list only.
  head_names :
      (l k : Leaf) (ls ks : List Leaf)
      → IsSorted (l ∷ ls)
      → IsSorted (k ∷ ks)
      → ((n : Name) → seq_in (l ∷ ls) n ≡ seq_in (k ∷ ks) n)
      → l.session_name ≡ k.session_name
  head_names l k ls ks s t h = ground (
    arith,
    name_lt_total l.session_name k.session_name,
    Above-trans l.session_name k.session_name ks,
    Above-trans k.session_name l.session_name ls,
    seq_in-Above l.session_name (k ∷ ks),
    seq_in-Above k.session_name (l ∷ ls),
    seq_in-head l ls,
    seq_in-head k ks,
    h l.session_name,
    h k.session_name,
  )

  tail_lookups :
      (l k : Leaf) (ls ks : List Leaf) (n : Name)
      → Above l.session_name ls
      → Above k.session_name ks
      → l.session_name ≡ k.session_name
      → seq_in (l ∷ ls) n ≡ seq_in (k ∷ ks) n
      → seq_in ls n ≡ seq_in ks n
  tail_lookups l k ls ks n p q e h = elim (Bool-cases (name_eq l.session_name n)) [
    | inl same ↦ ground (
      arith,
      (name_eq_iff l.session_name n).0 same,
      seq_in-Above l.session_name ls p,
      seq_in-Above k.session_name ks q,
    )
    | inr other ↦
        unfold seq_in find in
        ground (arith, other, h, name_eq_iff l.session_name n, name_eq_iff k.session_name n)
  ]

  -- Two well-formed containers with the same lookups are the same list of leaves.
  pub leaves_ext :
      (ls ks : List Leaf)
      → IsValid ls
      → IsValid ks
      → ((n : Name) → seq_in ls n ≡ seq_in ks n)
      → ls ≡ ks
  leaves_ext [] [] v w h = refl
  leaves_ext [] (k ∷ ks) v w h =
      cc (h k.session_name, seq_in-head k ks, seq_in-Above k.session_name [] tt)
  leaves_ext (l ∷ ls) [] v w h =
      cc (h l.session_name, seq_in-head l ls, seq_in-Above l.session_name [] tt)
  leaves_ext (l ∷ ls) (k ∷ ks) v w h =
      let e = head_names l k ls ks v.sorted w.sorted h in
      let eq : ls ≡ ks =
        leaves_ext ls ks (record { sorted = v.sorted.1; fresh = v.fresh.1 })
          (record { sorted = w.sorted.1; fresh = w.fresh.1 })
          (λ n. tail_lookups l k ls ks n v.sorted.0 w.sorted.0 e (h n)) in
      let seqs : l.seq ≡ k.seq =
        cc (h l.session_name, ap (seq_in (k ∷ ks)) e, seq_in-head l ls, seq_in-head k ks) in
      cc (leaf_eq l k v.fresh.0 w.fresh.0 e seqs, eq)
