-- ===== src/Logic/Stable/Loops.antt =====
-- logic.cpp: the two loops of calculateStableStateAndCumulativeDigests over the log, against the
-- rounds that they combine.
use round_sync.Base.{
  ℕ, zero, suc, ◌+◌, ◌-◌, ◌≤◌, ◌≡◌, refl, sym, subst, ap, ◌∙◌, inl, inr, true, false, Bool-cases,
  Option, none, some, Option-cases, List, [], ◌∷◌, arith, ◌==◌, ltb, leb,
}
use round_sync.Ndn.{Ndn}
use round_sync.State.{State, empty_state, plus}
use round_sync.State.Lookup.{seq_in, join, join-none, join_assoc}
use round_sync.State.Sorted.{IsValid}
use round_sync.Leaf.{Leaf}
use round_sync.State.Merge.{seq_in-plus, plus-IsValid, plus_empty}
use round_sync.DiffState.{DiffState, get_state, set_cumulative_digest}
use round_sync.DiffState.Produced.{AllValid}
use round_sync.Log
use round_sync.Log.{Above, IsOrdered, find-put, find-insert, find_round}
use round_sync.Logic.{Logic}
use round_sync.Logic.Stable.{first_entry, add_rounds, add_rounds_from, add_log_rounds}
use round_sync.Logic.Stable.Ranges.{
  seq_of_entry, latest_where, latest-yes, latest-no, before, within, before-Above, within-Above,
}

module _ ⦃ndn : Ndn⦄ where
  open ndn use {Name}

  pub seq_in-add :
      (old : State) (d : DiffState) (n : Name)
      → IsValid d.leaves
      → seq_in (plus old (get_state d)).leaves n
        ≡ join (seq_in old.leaves n) (seq_in d.state.leaves n)
  unfolding get_state
  seq_in-add old d n v =
      seq_in-plus old (get_state d) n
        (plus-IsValid empty_state d.state (record { sorted = tt; fresh = tt }))
      ∙ ap (λ (ls : List Leaf). join (seq_in old.leaves n) (seq_in ls n)) (plus_empty d.state v)

  abbrev pub From : ℕ → List DiffState → Type 0
  From i [] = Unit {0}
  From i (d ∷ ds) = (i ≤ d.round) × From i ds

  pub Above-From : (i r : ℕ) (ds : List DiffState) → i ≤ r → Above r ds → From i ds
  Above-From i r [] h a = tt
  Above-From i r (d ∷ ds) h a = (omega arith, Above-From i r ds h a.1)

  -- The walk from an entry of a round not before `i` on.
  pub add_rounds_lem :
      (i e : ℕ) (old : State) (n : Name) (ds : List DiffState)
      → AllValid ds
      → IsOrdered ds
      → From i ds
      → seq_in (add_rounds e old ds).0.leaves n
        ≡ join (seq_in old.leaves n) (latest_where (before i e) n ds)
  unfolding add_rounds
  add_rounds_lem i e old n [] v o a = unfold latest_where in sym (join-none (seq_in old.leaves n))
  add_rounds_lem i e old n (d ∷ ds) v o a = elim (Bool-cases (ltb d.round e)) [
    | inl h ↦
        let b : before i e d.round ≡ true = ground (arith, h, a.0) in
        rw h (
          cc (
            latest-yes (before i e) n d ds b,
            add_rounds_lem i e (plus old (get_state d)) n ds v.1 o.1 a.1,
            seq_in-add old d n v.0,
            join_assoc (seq_in old.leaves n) (seq_in d.state.leaves n)
                (latest_where (before i e) n ds),
          ))
    | inr h ↦
        let b : before i e d.round ≡ false = ground (arith, h) in
        rw h (
          cc (
            latest-no (before i e) n d ds b,
            before-Above i e d.round n ds o.0 (ground (arith, h)),
            join-none (seq_in old.leaves n),
          ))
  ]

  pub Above-find : (i r : ℕ) (ds : List DiffState) → i ≤ r → Above r ds → Log.find i ds ≡ none
  unfolding Log.find
  Above-find i r [] h a = refl
  Above-find i r (d ∷ ds) h a = ground (arith, Above-find i r ds h a.1)

  pub find_same :
      (i : ℕ) (d : DiffState) (ds : List DiffState)
      → (d.round == i) ≡ true
      → Log.find i (d ∷ ds) ≡ some d
  unfolding Log.find
  find_same i d ds q = rw q refl

  pub join-none_left : (a : Option ℕ) → join none a ≡ a
  unfolding join
  join-none_left a = refl

  pub find_other :
      (i : ℕ) (d : DiffState) (ds : List DiffState)
      → (d.round == i) ≡ false
      → Log.find i (d ∷ ds) ≡ Log.find i ds
  unfolding Log.find
  find_other i d ds q = rw q refl

  pub add_rounds_from_lem :
      (i e : ℕ) (old : State) (n : Name) (ds : List DiffState)
      → AllValid ds
      → IsOrdered ds
      → (Log.find i ds ≡ none → e ≤ i)
      → seq_in (add_rounds_from i e old ds).0.leaves n
        ≡ join (seq_in old.leaves n) (latest_where (before i e) n ds)
  unfolding add_rounds_from
  add_rounds_from_lem i e old n [] v o h =
      unfold latest_where in sym (join-none (seq_in old.leaves n))
  add_rounds_from_lem i e old n (d ∷ ds) v o h = elim (Bool-cases (d.round == i)) [
    | inl q ↦ rw q (
        add_rounds_lem i e old n (d ∷ ds) v o
          (ground (arith, q), Above-From i d.round ds (ground (arith, q)) o.0))
    | inr q ↦ elim (Bool-cases (before i e d.round)) [
      | inl b ↦
          let absent = find_other i d ds q ∙ Above-find i d.round ds (ground (arith, b)) o.0 in
          absurd (ground (arith, b, h absent))
      | inr b ↦ rw q (
          add_rounds_from_lem i e old n ds v.1 o.1 (λ f. h (find_other i d ds q ∙ f))
          ∙ ap (join (seq_in old.leaves n)) (sym (latest-no (before i e) n d ds b)))
    ]
  ]

  pub before-absent :
      (i e : ℕ) (n : Name) (ds : List DiffState)
      → Log.find i ds ≡ none
      → latest_where (before (i + 1) e) n ds ≡ latest_where (before i e) n ds
  unfolding latest_where Log.find
  before-absent i e n [] f = refl
  before-absent i e n (d ∷ ds) f = ground (arith, before-absent i e n ds)

  -- The first round with an entry: the rounds before it have nothing.
  pub first_entry_lem :
      (count i e : ℕ) (n : Name) (ds : List DiffState)
      → i + count ≡ e
      → (Log.find (first_entry count i ds) ds ≡ none → e ≤ first_entry count i ds)
        × (latest_where (before (first_entry count i ds) e) n ds ≡ latest_where (before i e) n ds)
  unfolding first_entry
  first_entry_lem zero i e n ds h = (λ f. omega (arith, h), refl)
  first_entry_lem (suc count) i e n ds h = elim (Option-cases (Log.find i ds)) [
    | inl f ↦
        let (a, b) = first_entry_lem count (i + 1) e n ds (omega (arith, h)) in
        rw f (a, b ∙ before-absent i e n ds f)
    | inr (d, f) ↦ rw f (λ g. cc (f, g), refl)
  ]

  pub find-add_rounds :
      (e : ℕ) (old : State) (ds : List DiffState)
      → Log.find e (add_rounds e old ds).1 ≡ Log.find e ds
  unfolding add_rounds Log.find set_cumulative_digest
  find-add_rounds e old [] = refl
  find-add_rounds e old (d ∷ ds) = ground (arith, find-add_rounds e (plus old (get_state d)) ds)

  pub find-add_rounds_from :
      (i e : ℕ) (old : State) (ds : List DiffState)
      → Log.find e (add_rounds_from i e old ds).1 ≡ Log.find e ds
  unfolding add_rounds_from Log.find
  find-add_rounds_from i e old [] = refl
  find-add_rounds_from i e old (d ∷ ds) =
      ground (arith, find-add_rounds e old (d ∷ ds), find-add_rounds_from i e old ds)

  -- With the entry of the last round added, its bound is included.
  pub within_lem :
      (i e : ℕ) (n : Name) (ds : List DiffState)
      → i ≤ e
      → IsOrdered ds
      → latest_where (within i e) n ds
        ≡ join (latest_where (before i e) n ds) (seq_of_entry n (Log.find e ds))
  within_lem i e n [] h o = unfold latest_where Log.find join in refl
  within_lem i e n (d ∷ ds) h o = elim (Bool-cases (ltb d.round e)) [
    | inl b ↦
        let f = find_other e d ds (ground (arith, b)) in
        elim (Bool-cases (leb i d.round)) [
          | inl a ↦ cc (
            f,
            latest-yes (within i e) n d ds (ground (arith, a, b)),
            latest-yes (before i e) n d ds (ground (arith, a, b)),
            within_lem i e n ds h o.1,
            join_assoc (seq_in d.state.leaves n) (latest_where (before i e) n ds)
                (seq_of_entry n (Log.find e ds)),
          )
          | inr a ↦ cc (
            f,
            latest-no (within i e) n d ds (ground (arith, a)),
            latest-no (before i e) n d ds (ground (arith, a)),
            within_lem i e n ds h o.1,
          )
        ]
    | inr b ↦
        let none_before = latest-no (before i e) n d ds (ground (arith, b)) in
        let rest_before = before-Above i e d.round n ds o.0 (ground (arith, b)) in
        elim (Bool-cases (d.round == e)) [
          | inl q ↦ cc (
            none_before,
            rest_before,
            latest-yes (within i e) n d ds (ground (arith, q)),
            within-Above i e d.round n ds o.0 (ground (arith, q)),
            find_same e d ds q,
            join-none (seq_in d.state.leaves n),
            join-none_left (seq_in d.state.leaves n),
          )
          | inr q ↦ cc (
            none_before,
            rest_before,
            latest-no (within i e) n d ds (ground (arith, q, b)),
            within-Above i e d.round n ds o.0 (ground (arith, b)),
            find_other e d ds q,
            Above-find e d.round ds (ground (arith, b)) o.0,
            join-none_left none,
          )
        ]
  ]

  pub AllValid-find :
      (r : ℕ) (ds : List DiffState) {d : DiffState}
      → AllValid ds
      → Log.find r ds ≡ some d
      → IsValid d.leaves
  AllValid-find r [] {d} v f = unfold Log.find in cc f
  AllValid-find r (k ∷ ds) {d} v f = elim (Bool-cases (k.round == r)) [
    | inl q ↦
        let e : k ≡ d = cc (f, find_same r k ds q) in
        subst (λ (x : DiffState). IsValid x.leaves) e v.0
    | inr q ↦ AllValid-find r ds {d = d} v.1 (sym (find_other r k ds q) ∙ f)
  ]

  -- What the loops leave: the rounds before the last one are combined, and no entry came or went.
  pub add_log_rounds_lem :
      (i e : ℕ) (l : Logic)
      → AllValid l.log
      → IsOrdered l.log
      → i ≤ e
      → let l' = add_log_rounds i e l in
        ((n : Name)
          → seq_in l'.old_state.leaves n
            ≡ join (seq_in l.old_state.leaves n) (latest_where (before i e) n l.log))
        × (Log.find e l'.log ≡ Log.find e l.log)
  unfolding add_log_rounds
  add_log_rounds_lem i e l v o h =
      let r = first_entry (e - i) i l.log in
      let step = λ (n : Name). first_entry_lem (e - i) i e n l.log (omega arith) in
      (
        λ n.
            add_rounds_from_lem r e l.old_state n l.log v o (step n).0
            ∙ ap (join (seq_in l.old_state.leaves n)) (step n).1,
        find-add_rounds_from r e l.old_state l.log,
      )
