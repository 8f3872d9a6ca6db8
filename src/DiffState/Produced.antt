-- ===== src/DiffState/Produced.antt =====
-- What one session produced in a round (`getStateFrom`, diff-state.cpp), and the accumulated
-- differences of a chain (`diff`).
use round_sync.Base.{
  ℕ, ◌≡◌, refl, sym, ◌∙◌, ◌⊎◌, inl, inr, Bool, Option, none, some, Option-cases, List, [], ◌∷◌,
  ◌==◌, if◌then◌else◌,
}
use round_sync.Ndn.{Ndn}
use round_sync.Leaf.{make_leaf}
use round_sync.State.{State, empty_state, find, insert, update, update_found, plus}
use round_sync.State.Lookup.{seq_in, join, join-none, join_assoc, find_seq, find-none}
use round_sync.State.Sorted.{IsValid}
use round_sync.State.Merge.{seq_in-plus}
use round_sync.DiffState.{DiffState, get_state_from, state_of_leaf, accumulate, diff}

module _ ⦃ndn : Ndn⦄ where
  open ndn use {Name, name_eq}

  -- The part of one session, as it is handed on: its number, the round and the cumulative digest.
  -- A part with number 0 is a CumulativeOnly, and only that one keeps the cumulative information.
  pub record IsPart (d : DiffState) (n : Name) (q : ℕ) (p : DiffState) (only : Bool) : Type 0 where
    pub leaf : p.leaves ≡ make_leaf n q ∷ []
    pub same_round : p.round ≡ d.round
    pub same_digest : p.cumulative_digest ≡ d.cumulative_digest
    pub flag : only ≡ (q == 0)
    pub info : p.cumulative_info ≡ (if q == 0 then d.cumulative_info else none)
    pub no_exclude : p.exclude_filter ≡ []

  pub state_of_leaf-IsPart :
      (d : DiffState) (n : Name) (q : ℕ)
      → IsPart d n q (state_of_leaf d n q).0 (state_of_leaf d n q).1
  unfolding state_of_leaf update update_found find insert
  state_of_leaf-IsPart d n q = record {
    leaf = refl;
    same_round = refl;
    same_digest = refl;
    flag = refl;
    info = refl;
    no_exclude = refl;
  }

  -- `getStateFrom` gives nothing where the session has no part in the round, and else what `IsPart`
  -- says of its number.
  pub get_state_from_cases :
      (d : DiffState) (n : Name)
      → ((seq_in d.leaves n ≡ none) × (get_state_from d n ≡ none))
        ⊎ ((q : ℕ) × (p : DiffState) × (only : Bool) × (seq_in d.leaves n ≡ some q)
            × (get_state_from d n ≡ some (p, only))
            × IsPart d n q p only)
  unfolding get_state_from
  get_state_from_cases d n = elim (Option-cases (find n d.leaves)) [
    | inl e ↦ inl (find-none n d.leaves e, rw (e, get_state_from) refl)
    | inr (l, e) ↦ inr (
      l.seq,
      (state_of_leaf d n l.seq).0,
      (state_of_leaf d n l.seq).1,
      find_seq n d.leaves {l = l} e,
      rw (e, get_state_from) refl,
      state_of_leaf-IsPart d n l.seq,
    )
  ]

  -- The greatest number that a chain of rounds has for a session.
  abbrev pub latest : Name → List DiffState → Option ℕ
  latest n [] = none
  latest n (d ∷ next) = join (seq_in d.leaves n) (latest n next)

  abbrev pub AllValid : List DiffState → Type 0
  AllValid [] = Unit {0}
  AllValid (d ∷ next) = IsValid d.leaves × AllValid next

  accumulate_lem :
      (result : State) (next : List DiffState) (n : Name)
      → AllValid next
      → seq_in (accumulate result next).leaves n ≡ join (seq_in result.leaves n) (latest n next)
  unfolding accumulate
  accumulate_lem result [] n v = sym (join-none (seq_in result.leaves n))
  accumulate_lem result (d ∷ next) n v = cc (
    accumulate_lem (plus result d.state) next n v.1,
    seq_in-plus result d.state n v.0,
    join_assoc (seq_in result.leaves n) (seq_in d.leaves n) (latest n next),
  )

  -- Over a chain of rounds with well-formed trees, `diff` has for each session the greatest number
  -- of the rounds that follow.
  pub seq_in-diff :
      (next : List DiffState) (n : Name)
      → AllValid next
      → seq_in (diff next).leaves n ≡ latest n next
  unfolding diff
  seq_in-diff next n v = accumulate_lem empty_state next n v ∙ (unfold seq_in find join in refl)
