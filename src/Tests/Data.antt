-- ===== src/Tests/Data.antt =====
-- The data of the examples: two sessions, their trees, and two nodes.
use round_sync.Base.{ℕ, refl, false, none, some, List, [], ◌∷◌, arith}
use round_sync.Leaf.{Leaf, make_leaf}
use round_sync.State.{State, get_digest}
use round_sync.State.Sorted.{IsValid}
use round_sync.State.Digest.{InRange}
use round_sync.DiffState.{DiffState, empty_diff_state}
use round_sync.Logic.{Logic, Config}
use round_sync.Logic.Entry.{initial}
use round_sync.Tests.Demo.{demo, Name}

abbrev pub alice : Name
alice = (0 ∷ 11 ∷ []) ∷ (10 ∷ []) ∷ []

abbrev pub bob : Name
bob = (0 ∷ 12 ∷ []) ∷ (20 ∷ []) ∷ []

abbrev pub two_leaves : List Leaf
two_leaves = make_leaf alice 2 ∷ make_leaf bob 1 ∷ []

abbrev pub one_leaf : List Leaf
one_leaf = make_leaf alice 3 ∷ []

abbrev pub two : State
two = record { leaves = two_leaves; wire = none }

abbrev pub one : State
one = record { leaves = one_leaf; wire = none }

pub two-IsValid : IsValid two_leaves
unfolding make_leaf
two-IsValid = record { sorted = ((refl, tt), (tt, tt)); fresh = (refl, (refl, tt)) }

pub one-IsValid : IsValid one_leaf
unfolding make_leaf
one-IsValid = record { sorted = (tt, tt); fresh = (refl, tt) }

pub empty-IsValid : IsValid []
empty-IsValid = record { sorted = tt; fresh = tt }

pub two-InRange : InRange two_leaves
unfolding make_leaf
two-InRange = (omega arith, (omega arith, tt))

pub one-InRange : InRange one_leaf
unfolding make_leaf
one-InRange = (omega arith, tt)

-- The entries of two rounds.
abbrev pub entry : ℕ → State → DiffState
entry r s = record empty_diff_state { state = s; round = r; round_digest = some (get_digest s) }

abbrev pub rounds : List DiffState
rounds = entry 1 two ∷ entry 3 one ∷ []

abbrev pub config : Config
config = record {
  sync_prefix = (1 ∷ 1 ∷ []) ∷ [];
  default_user_prefix = (10 ∷ []) ∷ [];
  default_signing_id = [];
  has_validator = false;
  data_interest_lifetime = 1000;
  sync_interest_lifetime = 1000;
  data_freshness = 1000;
}

-- A node that has just started, and one in round 4 with a log.
abbrev pub started : Logic
started = initial config 11

abbrev pub busy : Logic
busy = record started { state = two; log = rounds; current_round = 4; stabilizing_round = 3 }
