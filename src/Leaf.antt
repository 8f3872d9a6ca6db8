-- ===== src/Leaf.antt =====
-- leaf.hpp and leaf.cpp: a session's name, its sequence number and the digest of the two, which
-- the object keeps and updates.
use round_sync.Base.{ℕ, List, [], ◌++◌, ltb, if◌then◌else◌, length, ◌≡◌, refl, arith}
use round_sync.Ndn.{Ndn}

module _ ⦃ndn : Ndn⦄ where
  open ndn use {Name, sha256, uint64_bytes, var_number, name_type, name_value, append, from_number}

  -- `Name::wireEncode()`
  abbrev pub name_wire : Name → List ℕ
  name_wire n = var_number name_type ++ (var_number (length (name_value n)) ++ name_value n)

  pub record Leaf : Type 0 where
    pub session_name : Name
    pub seq : ℕ
    pub digest : List ℕ

  -- `m_digest << getSessionName().wireEncode() << getSeq()`
  unfoldable pub leaf_digest : Name → ℕ → List ℕ
  leaf_digest n q = sha256 (name_wire n ++ uint64_bytes q)

  unfoldable pub update_digest : Leaf → Leaf
  update_digest l = record l { digest = leaf_digest l.session_name l.seq }

  -- The digest object is empty until `updateDigest`.
  unfoldable pub make_leaf : Name → ℕ → Leaf
  unfolding update_digest
  make_leaf n q = update_digest (record { session_name = n; seq = q; digest = sha256 [] })

  unfoldable pub make_session_leaf : Name → ℕ → ℕ → Leaf
  unfolding make_leaf
  make_session_leaf user_prefix session q = make_leaf (append user_prefix (from_number session)) q

  unfoldable pub set_seq : ℕ → Leaf → Leaf
  unfolding update_digest
  set_seq q l = if ltb l.seq q then update_digest (record l { seq = q }) else l

  -- The digest that a leaf keeps is the one of its fields.
  abbrev pub IsFresh : Leaf → Type 0
  IsFresh l = l.digest ≡ leaf_digest l.session_name l.seq

  pub make_leaf-IsFresh : (n : Name) (q : ℕ) → IsFresh (make_leaf n q)
  unfolding make_leaf
  make_leaf-IsFresh n q = refl

  pub set_seq-IsFresh : (q : ℕ) (l : Leaf) → IsFresh l → IsFresh (set_seq q l)
  unfolding set_seq
  set_seq-IsFresh q l h = ground arith
