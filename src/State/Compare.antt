-- ===== src/State/Compare.antt =====
-- state.cpp: the digests of two trees after any updates compare what the updates say.
use round_sync.Base.{
  ℕ, refl, ◌<◌, ◌≡◌, ◌≢◌, sym, ap, ◌∙◌, ◌⊎◌, inl, inr, Option, some, Bool-cases, List, [], ◌∷◌,
  bytes_eq, bytes_eq_refl, bytes_eq_sound, u64_mod, arith,
}
use round_sync.Ndn.{Ndn}
use round_sync.Leaf.{Leaf}
use round_sync.State.{State, find, update, merge, get_digest}
use round_sync.State.Lookup.{seq_in, join, best, seq_in-merge}
use round_sync.State.Sorted.{IsValid, leaves_ext, merge-IsValid}
use round_sync.State.Known.{Numbers, IsKept, update-IsKept, IsKept-InRange}
use round_sync.State.Digest.{InRange, Collision, get_digest_sound}

module _ ⦃ndn : Ndn⦄ where
  open ndn use {Name, name_eq}

  -- The number that a session has in the tree after the updates.
  abbrev pub after : State → List Leaf → Name → Option ℕ
  after s ls n = join (seq_in s.leaves n) (best n ls)

  -- Any number of 64 bits.
  abbrev pub words : Numbers
  words = record { Known = λ n q. q < u64_mod; zero_known = λ n. omega arith; bounded = λ n q h. h }

  seq_in-InRange :
      (ls : List Leaf) → InRange ls → (n : Name) (q : ℕ) → seq_in ls n ≡ some q → q < u64_mod
  unfolding seq_in find
  seq_in-InRange [] r n q h = absurd (cc h)
  seq_in-InRange (l ∷ ls) r n q h = elim (Bool-cases (name_eq l.session_name n)) [
    | inl e ↦ let same : l.seq ≡ q = some_eq (rw e at h) in omega (arith, same, r.0)
    | inr e ↦ seq_in-InRange ls r.1 n q (rw e at h)
  ]
    where
      some_eq : {a b : ℕ} → some a ≡ some b → a ≡ b
      some_eq y = cc y

  updates-IsKept :
      (s : State) (ls : List Leaf)
      → IsKept words s.leaves
      → InRange ls
      → IsKept words (merge s ls).leaves
  unfolding merge
  updates-IsKept s [] k r = k
  updates-IsKept s (l ∷ ls) k r =
      updates-IsKept (update s l.session_name l.seq).0 ls
        (update-IsKept words s l.session_name l.seq k r.0) r.1

  merge-InRange :
      (s : State) (ls : List Leaf)
      → IsValid s.leaves
      → InRange s.leaves
      → InRange ls
      → InRange (merge s ls).leaves
  merge-InRange s ls v r q =
      let k = updates-IsKept s ls (record { valid = v; within = seq_in-InRange s.leaves r }) q in
      IsKept-InRange words (merge s ls).leaves k.valid.sorted k.within

  pub get_digest-leaves : (s t : State) → s.leaves ≡ t.leaves → get_digest s ≡ get_digest t
  unfolding get_digest
  get_digest-leaves s t h = rw h refl

  -- Two well-formed trees, each of which then takes in updates of its own, with numbers of 64 bits
  -- throughout: either the updates leave every session with the same number in both, as `after` has
  -- it, and the digests are equal, or they do not, and the digests differ, or SHA-256 has a
  -- collision.
  pub get_digest-compares :
      (s t : State) (ls ks : List Leaf)
      → IsValid s.leaves
      → IsValid t.leaves
      → InRange s.leaves
      → InRange t.leaves
      → InRange ls
      → InRange ks
      → (((n : Name) → after s ls n ≡ after t ks n)
          × (get_digest (merge s ls) ≡ get_digest (merge t ks)))
        ⊎ (¬ ((n : Name) → after s ls n ≡ after t ks n)
            × (get_digest (merge s ls) ≢ get_digest (merge t ks)))
        ⊎ Collision
  get_digest-compares s t ls ks v w r q i j =
      let v' = merge-IsValid s ls v in
      let w' = merge-IsValid t ks w in
      elim (Bool-cases (bytes_eq (get_digest (merge s ls)) (get_digest (merge t ks)))) [
        | inl x ↦
            let e = bytes_eq_sound (get_digest (merge s ls)) (get_digest (merge t ks)) x in
            elim (get_digest_sound (merge s ls) (merge t ks) v' w' (merge-InRange s ls v r i)
              (merge-InRange t ks w q j) e) [
                | inl same ↦ inl (
                  λ n.
                      sym (seq_in-merge s ls n)
                      ∙ ap (λ (xs : List Leaf). seq_in xs n) same
                      ∙ seq_in-merge t ks n,
                  e,
                )
                | inr collision ↦ inr (inr collision)
              ]
        | inr x ↦
            let differ : get_digest (merge s ls) ≢ get_digest (merge t ks) =
              λ e. cc (x, bytes_eq_refl (get_digest (merge s ls)), e) in
            inr (
              inl (
                λ same. differ (
                    get_digest-leaves (merge s ls) (merge t ks) (
                      leaves_ext (merge s ls).leaves (merge t ks).leaves v' w'
                        (λ n. seq_in-merge s ls n ∙ same n ∙ sym (seq_in-merge t ks n)))),
                differ,
              ))
      ]
