-- ===== src/State/Lookup.antt =====
-- What `find` gives after an update of the tree (state.cpp): the tree as a map from session names
-- to sequence numbers.
use round_sync.Base.{
  ℕ, ◌≡◌, refl, sym, inl, inr, true, Option, none, some, List, [], ◌∷◌, arith, ltb, if◌then◌else◌,
  Option-cases,
}
use round_sync.Ndn.{Ndn}
use round_sync.Leaf.{Leaf, make_leaf, set_seq}
use round_sync.State.{State, find, insert, modify, update, update_found, merge}

-- The greater of two sequence numbers, where a session may be unknown on either side.
unfoldable pub join : Option ℕ → Option ℕ → Option ℕ
join none o = o
join (some a) none = some a
join (some a) (some b) = some (if ltb a b then b else a)

pub join_comm : (a b : Option ℕ) → join a b ≡ join b a
unfolding join
join_comm none none = refl
join_comm none (some b) = refl
join_comm (some a) none = refl
join_comm (some a) (some b) = ground arith

pub join_assoc : (a b c : Option ℕ) → join (join a b) c ≡ join a (join b c)
unfolding join
join_assoc none b c = refl
join_assoc (some a) none c = refl
join_assoc (some a) (some b) none = refl
join_assoc (some a) (some b) (some c) = ground arith

pub join-none : (a : Option ℕ) → join a none ≡ a
unfolding join
join-none none = refl
join-none (some a) = refl

pub join_idem : (a : Option ℕ) → join a a ≡ a
unfolding join
join_idem none = refl
join_idem (some a) = ground arith

module _ ⦃ndn : Ndn⦄ where
  open ndn use {Name, name_eq, name_eq_iff, name_lt, name_lt_irrefl}

  -- The sequence number of a session, `none` where the tree does not have it.
  abbrev pub seq_of : Option Leaf → Option ℕ
  seq_of none = none
  seq_of (some l) = some l.seq

  unfoldable pub seq_in : List Leaf → Name → Option ℕ
  seq_in ls n = seq_of (find n ls)

  pub name_eq_refl : (n : Name) → name_eq n n ≡ true
  name_eq_refl n = (name_eq_iff n n).1 refl

  seq_in-insert :
      (a : Leaf) (m : Name) (ls : List Leaf)
      → find a.session_name ls ≡ none
      → seq_in (insert a ls) m ≡ (if name_eq a.session_name m then some a.seq else seq_in ls m)
  unfolding seq_in find insert
  seq_in-insert a m [] h = ground arith
  seq_in-insert a m (l ∷ ls) h = ground (
    arith,
    seq_in-insert a m ls,
    name_eq_iff l.session_name a.session_name,
    name_eq_iff l.session_name m,
    name_eq_iff a.session_name m,
  )

  seq_in-modify :
      (n m : Name) (q : ℕ) (ls : List Leaf) {l : Leaf}
      → find n ls ≡ some l
      → ltb l.seq q ≡ true
      → seq_in (modify n (set_seq q) ls) m ≡ (if name_eq n m then some q else seq_in ls m)
  unfolding seq_in find modify set_seq
  seq_in-modify n m q [] h lt = cc
  seq_in-modify n m q (k ∷ ks) {l} h lt = ground (
    arith,
    seq_in-modify n m q ks {l = l},
    name_eq_iff k.session_name n,
    name_eq_iff k.session_name m,
    name_eq_iff n m,
  )

  -- The leaf that `find` gives has the name that was looked for.
  pub find_name : (n : Name) (ls : List Leaf) {l : Leaf} → find n ls ≡ some l → l.session_name ≡ n
  unfolding find
  find_name n [] h = cc
  find_name n (k ∷ ks) {l} h = ground (arith, find_name n ks {l = l}, name_eq_iff k.session_name n)

  pub find_seq :
      (n : Name) (ls : List Leaf) {l : Leaf} → find n ls ≡ some l → seq_in ls n ≡ some l.seq
  unfolding seq_in
  find_seq n ls h = rw h

  pub find-none : (n : Name) (ls : List Leaf) → find n ls ≡ none → seq_in ls n ≡ none
  unfolding seq_in
  find-none n ls h = rw h

  -- After an update, a session has the greater of the number it had and the new one; the other
  -- sessions have what they had.
  pub seq_in-update :
      (s : State) (n m : Name) (q : ℕ)
      → seq_in (update s n q).0.leaves m
        ≡ (if name_eq n m then join (seq_in s.leaves n) (some q) else seq_in s.leaves m)
  unfolding update update_found make_leaf join
  seq_in-update s n m q = elim (Option-cases (find n s.leaves)) [
    | inl e ↦
        rw (e, update)
          (ground (arith, find-none n s.leaves e, seq_in-insert (make_leaf n q) m s.leaves))
    | inr (l, e) ↦
        rw (e, update)
          (ground (
            arith,
            find_seq n s.leaves {l = l} e,
            seq_in-modify n m q s.leaves {l = l} e,
            name_eq_iff n m,
          ))
  ]

  -- The greatest number that a walk gives for a session.
  unfoldable pub best : Name → List Leaf → Option ℕ
  best n [] = none
  best n (l ∷ ls) = if name_eq l.session_name n then join (some l.seq) (best n ls) else best n ls

  pub seq_in-merge :
      (s : State) (ls : List Leaf) (m : Name)
      → seq_in (merge s ls).leaves m ≡ join (seq_in s.leaves m) (best m ls)
  unfolding merge best
  seq_in-merge s [] m = sym (join-none (seq_in s.leaves m))
  seq_in-merge s (l ∷ ls) m = ground (
    arith,
    seq_in-merge (update s l.session_name l.seq).0 ls m,
    seq_in-update s l.session_name m l.seq,
    name_eq_iff l.session_name m,
    join_assoc (seq_in s.leaves m) (some l.seq) (best m ls),
  )
