-- ===== src/State/Merge.antt =====
-- `operator+=` (state.cpp): the combination keeps the greater number of each session, whatever the
-- order of the walk, and is a join: commutative, associative and idempotent.
use mathlib.Core.List.{Perm, Permᴰ}
use mathlib.Core.Logic.{∥∥₁_elim}
use round_sync.Base.{ℕ, ◌≡◌, refl, sym, ap, ◌∙◌, Option, some, List, [], ◌∷◌, arith}
use round_sync.Ndn.{Ndn}
use round_sync.Leaf.{Leaf}
use round_sync.State.{State, find, merge, plus, empty_state}
use round_sync.State.Lookup.{
  seq_in, join, best, join_comm, join_assoc, join_idem, join-none, seq_in-merge,
}
use round_sync.State.Sorted.{IsValid, IsSorted, merge-IsValid, leaves_ext, seq_in-Above}

Option-set : IsSet (Option ℕ)
Option-set = hlevel

module _ ⦃ndn : Ndn⦄ where
  open ndn use {Name, name_eq, name_eq_iff, hashed_walk, hashed_walk_perm}

  best-swap : (n : Name) (a b : Leaf) (ls : List Leaf) → best n (a ∷ b ∷ ls) ≡ best n (b ∷ a ∷ ls)
  unfolding best
  best-swap n a b ls = ground (
    arith,
    join_assoc (some a.seq) (some b.seq) (best n ls),
    join_assoc (some b.seq) (some a.seq) (best n ls),
    join_comm (some a.seq) (some b.seq),
  )

  best-Permᴰ : (n : Name) {ls ks : List Leaf} → Permᴰ ls ks → best n ls ≡ best n ks
  unfolding best
  best-Permᴰ n Permᴰ.nil = refl
  best-Permᴰ n (Permᴰ.cons e p) = rw e (ground (arith, best-Permᴰ n p))
  best-Permᴰ n (Permᴰ.swap {a' = a} {b' = b} {l = l} e f) = rw (e, f) (best-swap n b a l)
  best-Permᴰ n (Permᴰ.trans p q) = best-Permᴰ n p ∙ best-Permᴰ n q

  pub best-Perm : (n : Name) {ls ks : List Leaf} → Perm ls ks → best n ls ≡ best n ks
  best-Perm n p = ∥∥₁_elim p (Option-set _ _) (best-Permᴰ n)

  -- In a container, whose names are distinct, the greatest number of a session is its only one.
  pub best-eq-seq_in : (n : Name) (ls : List Leaf) → IsSorted ls → best n ls ≡ seq_in ls n
  unfolding best seq_in find
  best-eq-seq_in n [] s = refl
  best-eq-seq_in n (l ∷ ls) s = ground (
    arith,
    best-eq-seq_in n ls s.1,
    seq_in-Above l.session_name ls s.0,
    name_eq_iff l.session_name n,
    join-none (some l.seq),
  )

  pub plus-IsValid : (s t : State) → IsValid s.leaves → IsValid (plus s t).leaves
  unfolding plus
  plus-IsValid s t v = merge-IsValid s (hashed_walk Leaf t.leaves) v

  -- The combination with a well-formed tree has for each session the greater of its two numbers.
  pub seq_in-plus :
      (s t : State) (n : Name)
      → IsValid t.leaves
      → seq_in (plus s t).leaves n ≡ join (seq_in s.leaves n) (seq_in t.leaves n)
  unfolding plus
  seq_in-plus s t n v =
      seq_in-merge s (hashed_walk Leaf t.leaves) n
      ∙ ap (join (seq_in s.leaves n))
          (best-Perm n (hashed_walk_perm Leaf t.leaves) ∙ best-eq-seq_in n t.leaves v.sorted)

  pub plus_comm :
      (s t : State) → IsValid s.leaves → IsValid t.leaves → (plus s t).leaves ≡ (plus t s).leaves
  plus_comm s t v w = leaves_ext _ _ (plus-IsValid s t v) (plus-IsValid t s w) λ n.
      seq_in-plus s t n w
      ∙ join_comm (seq_in s.leaves n) (seq_in t.leaves n)
      ∙ sym (seq_in-plus t s n v)

  pub plus_assoc :
      (s t u : State)
      → IsValid s.leaves
      → IsValid t.leaves
      → IsValid u.leaves
      → (plus (plus s t) u).leaves ≡ (plus s (plus t u)).leaves
  plus_assoc s t u v w x =
      leaves_ext _ _ (plus-IsValid (plus s t) u (plus-IsValid s t v)) (plus-IsValid s (plus t u) v)
        λ n. cc (
          seq_in-plus (plus s t) u n x,
          seq_in-plus s t n w,
          seq_in-plus s (plus t u) n (plus-IsValid t u w),
          seq_in-plus t u n x,
          join_assoc (seq_in s.leaves n) (seq_in t.leaves n) (seq_in u.leaves n),
        )

  pub plus_idem : (s : State) → IsValid s.leaves → (plus s s).leaves ≡ s.leaves
  plus_idem s v =
      leaves_ext _ _ (plus-IsValid s s v) v λ n. seq_in-plus s s n v ∙ join_idem (seq_in s.leaves n)

  -- `*result += other` on a new tree copies the leaves.
  pub plus_empty : (s : State) → IsValid s.leaves → (plus empty_state s).leaves ≡ s.leaves
  plus_empty s v =
      leaves_ext _ _ (plus-IsValid empty_state s (record { sorted = tt; fresh = tt })) v
        λ n. seq_in-plus empty_state s n v ∙ (unfold seq_in find join in refl)

  -- On a tree with no leaves, the updates of a container's leaves give the same leaves.
  pub merge_onto_empty :
      (w : Option (List ℕ)) (ls : List Leaf)
      → IsValid ls
      → (merge (record { leaves = []; wire = w }) ls).leaves ≡ ls
  merge_onto_empty w ls v =
      leaves_ext _ _ (merge-IsValid s ls (record { sorted = tt; fresh = tt })) v
        λ n. seq_in-merge s ls n ∙ (unfold seq_in find join in best-eq-seq_in n ls v.sorted)
    where
      s : State
      s = record { leaves = []; wire = w }

  -- The operator is a join on well-formed trees.
  pub record IsJoin (s t u : State) : Type 0 where
    pub comm : (plus s t).leaves ≡ (plus t s).leaves
    pub assoc : (plus (plus s t) u).leaves ≡ (plus s (plus t u)).leaves
    pub idem : (plus s s).leaves ≡ s.leaves

  -- On well-formed trees the combination is commutative, associative and idempotent.
  pub plus-IsJoin :
      (s t u : State) → IsValid s.leaves → IsValid t.leaves → IsValid u.leaves → IsJoin s t u
  plus-IsJoin s t u v w x = record {
    comm = plus_comm s t v w;
    assoc = plus_assoc s t u v w x;
    idem = plus_idem s v;
  }

  -- A well-formed tree that takes in the same updates in another order has the same leaves.
  pub merge_order :
      (s : State) {ls ks : List Leaf}
      → IsValid s.leaves
      → Perm ls ks
      → (merge s ls).leaves ≡ (merge s ks).leaves
  merge_order s {ls} {ks} v p =
      leaves_ext _ _ (merge-IsValid s ls v) (merge-IsValid s ks v)
        λ n. cc (seq_in-merge s ls n, seq_in-merge s ks n, best-Perm n p)
