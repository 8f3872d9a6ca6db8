-- ===== src/Logic/Stable/Ranges.antt =====
-- logic.cpp: the number of a session in the rounds of a range of the log.
use round_sync.Base.{
  ℕ, ◌+◌, ◌≤◌, ◌≡◌, refl, Bool, true, false, Option, none, some, List, [], ◌∷◌, arith,
  if◌then◌else◌, ◌&&◌, ltb, leb,
}
use round_sync.Ndn.{Ndn}
use round_sync.State.Lookup.{seq_in, join}
use round_sync.DiffState.{DiffState}
use round_sync.Log.{Above}

module _ ⦃ndn : Ndn⦄ where
  open ndn use {Name}

  -- The number of a session in the entry of one round.
  abbrev pub seq_of_entry : Name → Option DiffState → Option ℕ
  seq_of_entry n none = none
  seq_of_entry n (some d) = seq_in d.state.leaves n

  -- The greatest number that a session has in the rounds that pass a test.
  unfoldable pub latest_where : (ℕ → Bool) → Name → List DiffState → Option ℕ
  latest_where p n [] = none
  latest_where p n (d ∷ ds) =
      if p d.round
      then join (seq_in d.state.leaves n) (latest_where p n ds)
      else latest_where p n ds

  pub latest-yes :
      (p : ℕ → Bool) (n : Name) (d : DiffState) (ds : List DiffState)
      → p d.round ≡ true
      → latest_where p n (d ∷ ds) ≡ join (seq_in d.state.leaves n) (latest_where p n ds)
  unfolding latest_where
  latest-yes p n d ds h = rw h refl

  pub latest-no :
      (p : ℕ → Bool) (n : Name) (d : DiffState) (ds : List DiffState)
      → p d.round ≡ false
      → latest_where p n (d ∷ ds) ≡ latest_where p n ds
  unfolding latest_where
  latest-no p n d ds h = rw h refl

  abbrev pub before : ℕ → ℕ → ℕ → Bool
  before i e r = leb i r && ltb r e

  abbrev pub within : ℕ → ℕ → ℕ → Bool
  within i e r = leb i r && leb r e

  pub before-Above :
      (i e r : ℕ) (n : Name) (ds : List DiffState)
      → Above r ds
      → e ≤ r + 1
      → latest_where (before i e) n ds ≡ none
  unfolding latest_where
  before-Above i e r n [] a h = refl
  before-Above i e r n (d ∷ ds) a h = ground (arith, before-Above i e r n ds a.1 h)

  pub within-Above :
      (i e r : ℕ) (n : Name) (ds : List DiffState)
      → Above r ds
      → e ≤ r
      → latest_where (within i e) n ds ≡ none
  unfolding latest_where
  within-Above i e r n [] a h = refl
  within-Above i e r n (d ∷ ds) a h = ground (arith, within-Above i e r n ds a.1 h)
