-- ===== src/Log.antt =====
-- diff-state-container.hpp: the log of rounds, a container of shared DiffState objects with one
-- unique index, ordered by round. `put` is a write to the object that the log holds for a round.
use round_sync.Base.{
  ℕ, ◌<◌, ◌≡◌, refl, Option, none, some, List, [], ◌∷◌, arith, ltb, ◌==◌, if◌then◌else◌,
}
use round_sync.Ndn.{Ndn}
use round_sync.DiffState.{DiffState}

module _ ⦃ndn : Ndn⦄ where
  unfoldable pub find : ℕ → List DiffState → Option DiffState
  find r [] = none
  find r (d ∷ ds) = if d.round == r then some d else find r ds

  -- At the place of its round; an element with the round of another is not inserted.
  unfoldable pub insert : DiffState → List DiffState → List DiffState
  insert c [] = c ∷ []
  insert c (d ∷ ds) =
      if ltb c.round d.round
      then c ∷ d ∷ ds
      else if c.round == d.round
      then d ∷ ds
      else d ∷ insert c ds

  unfoldable pub put : ℕ → DiffState → List DiffState → List DiffState
  put r c [] = []
  put r c (d ∷ ds) = if d.round == r then c ∷ ds else d ∷ put r c ds

  -- An entry that is inserted for a round that the log did not have is found there, and the other
  -- rounds have what they had.
  pub find-insert :
      (r : ℕ) (c : DiffState) (ds : List DiffState)
      → find c.round ds ≡ none
      → find r (insert c ds) ≡ (if c.round == r then some c else find r ds)
  unfolding find insert
  find-insert r c [] h = refl
  find-insert r c (d ∷ ds) h = ground (arith, find-insert r c ds)

  pub find-put :
      (r q : ℕ) (c : DiffState) (ds : List DiffState)
      → c.round ≡ r
      → find q (put r c ds)
        ≡ (if r == q then elim (find r ds) [ none ↦ none | some d ↦ some c ] else find q ds)
  unfolding find put
  find-put r q c [] h = ground arith
  find-put r q c (d ∷ ds) h = ground (arith, find-put r q c ds h)

  pub find_round : (r : ℕ) (ds : List DiffState) {d : DiffState} → find r ds ≡ some d → d.round ≡ r
  unfolding find
  find_round r [] h = cc
  find_round r (d ∷ ds) {d = e} h = ground (arith, find_round r ds {d = e})

  -- Rounds grow strictly along the log.
  abbrev pub Above : ℕ → List DiffState → Type 0
  Above r [] = Unit {0}
  Above r (d ∷ ds) = (r < d.round) × Above r ds

  abbrev pub IsOrdered : List DiffState → Type 0
  IsOrdered [] = Unit {0}
  IsOrdered (d ∷ ds) = Above d.round ds × IsOrdered ds

  Above-trans : (q r : ℕ) (ds : List DiffState) → q < r → Above r ds → Above q ds
  Above-trans q r [] h a = tt
  Above-trans q r (d ∷ ds) h a = (omega arith, Above-trans q r ds h a.1)

  Above-insert :
      (r : ℕ) (c : DiffState) (ds : List DiffState)
      → r < c.round
      → Above r ds
      → Above r (insert c ds)
  unfolding insert
  Above-insert r c [] h a = (h, tt)
  Above-insert r c (d ∷ ds) h a = ground (arith, Above-insert r c ds h a.1)

  -- Inserting keeps the rounds of the log strictly growing.
  pub insert-IsOrdered :
      (c : DiffState) (ds : List DiffState) → IsOrdered ds → IsOrdered (insert c ds)
  unfolding insert
  insert-IsOrdered c [] o = (tt, tt)
  insert-IsOrdered c (d ∷ ds) o =
      ground (
        arith,
        insert-IsOrdered c ds o.1,
        Above-insert d.round c ds,
        Above-trans c.round d.round ds,
      )

  Above-put :
      (q r : ℕ) (c : DiffState) (ds : List DiffState)
      → c.round ≡ r
      → Above q ds
      → Above q (put r c ds)
  unfolding put
  Above-put q r c [] h a = tt
  Above-put q r c (d ∷ ds) h a = ground (arith, Above-put q r c ds h a.1)

  pub put-IsOrdered :
      (r : ℕ) (c : DiffState) (ds : List DiffState)
      → c.round ≡ r
      → IsOrdered ds
      → IsOrdered (put r c ds)
  unfolding put
  put-IsOrdered r c [] h o = tt
  put-IsOrdered r c (d ∷ ds) h o =
      ground (arith, put-IsOrdered r c ds h o.1, Above-put d.round r c ds h o.0)
