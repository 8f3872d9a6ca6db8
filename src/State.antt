-- ===== src/State.antt =====
-- state.hpp, state.cpp and leaf-container.hpp: the sync tree. The container has two unique indices
-- over the session names; its leaves are listed in the order of `ordered`, the index by name.
-- `find` and a plain walk use `hashed`, which gives the leaves in an order of its own.
pub mod Lookup
pub mod Sorted
pub mod Merge
pub mod Digest
pub mod Wire
pub mod Encoding
pub mod Known
pub mod Compare
use round_sync.Base.{
  ℕ, Bool, true, false, Option, none, some, List, [], ◌∷◌, ◌++◌, ◌==◌, ltb, ◌||◌, if◌then◌else◌,
  is_some,
}
use round_sync.Ndn.{Ndn}
use round_sync.Leaf.{Leaf, make_leaf, set_seq}

module _ ⦃ndn : Ndn⦄ where
  open ndn use {Name, name_eq, name_lt, sha256, hashed_walk}

  -- `m_wire` is the encoding that was computed or decoded last, while it is valid.
  pub record State : Type 0 where
    pub leaves : List Leaf
    pub wire : Option (List ℕ)

  abbrev pub empty_state : State
  empty_state = record { leaves = []; wire = none }

  unfoldable pub find : Name → List Leaf → Option Leaf
  find n [] = none
  find n (l ∷ ls) = if name_eq l.session_name n then some l else find n ls

  -- `insert` of a session that is not in the container.
  unfoldable pub insert : Leaf → List Leaf → List Leaf
  insert a [] = a ∷ []
  insert a (l ∷ ls) = if name_lt a.session_name l.session_name then a ∷ l ∷ ls else l ∷ insert a ls

  -- `modify` of the leaf that `find` gave.
  unfoldable pub modify : Name → (Leaf → Leaf) → List Leaf → List Leaf
  modify n f [] = []
  modify n f (l ∷ ls) = if name_eq l.session_name n then f l ∷ ls else l ∷ modify n f ls

  unfoldable pub get_seq_no : State → Name → ℕ
  get_seq_no s info = elim (find info s.leaves) [ none ↦ 0 | some l ↦ l.seq ]

  -- The 3-tuple (isInserted, isUpdated, oldSeqNo).
  pub record Updated : Type 0 where
    pub is_inserted : Bool
    pub is_updated : Bool
    pub old_seq : ℕ

  unfoldable pub update_found : State → Name → ℕ → Option Leaf → State × Updated
  update_found s info q none = (
    record s { leaves = insert (make_leaf info q) s.leaves },
    record { is_inserted = true; is_updated = false; old_seq = 0 },
  )
  update_found s info q (some l) =
      if l.seq == q || ltb q l.seq
      then (s, record { is_inserted = false; is_updated = false; old_seq = 0 })
      else (
        record s { leaves = modify info (set_seq q) s.leaves },
        record { is_inserted = false; is_updated = true; old_seq = l.seq },
      )

  unfoldable pub update : State → Name → ℕ → State × Updated
  unfolding update_found
  update s info q = update_found (record s { wire = none }) info q (find info s.leaves)

  -- The loop of `getDigest` feeds the leaves' digests in the order of their names.
  unfoldable pub digest_input : List Leaf → List ℕ
  digest_input [] = []
  digest_input (l ∷ ls) = l.digest ++ digest_input ls

  unfoldable pub get_digest : State → List ℕ
  unfolding digest_input
  get_digest s = sha256 (digest_input s.leaves)

  -- `m_leaves.clear()`, which leaves `m_wire` as it is.
  unfoldable pub reset : State → State
  reset s = record s { leaves = [] }

  -- The loop of `operator+=` over a walk of the other state's leaves.
  unfoldable pub merge : State → List Leaf → State
  merge s [] = s
  merge s (l ∷ ls) = merge (update s l.session_name l.seq).0 ls

  -- `operator+=` walks the other state's leaves through the hashed index.
  unfoldable pub plus : State → State → State
  unfolding merge
  plus s t = merge s (hashed_walk Leaf t.leaves)
