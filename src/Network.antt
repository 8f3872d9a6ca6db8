-- ===== src/Network.antt =====
-- Any number of nodes that run logic.cpp and exchange packets over a network that may lose, delay,
-- repeat and reorder them, and hand any packet to any node, under any name, as either kind of reply.
pub mod Published
pub mod Exchange
pub mod Agree
pub mod Gather
use round_sync.Base.{
  ℕ, ◌+◌, ◌<◌, ◌≡◌, ◌⊎◌, Bool, Option, none, some, List, [], ◌∷◌, length, if◌then◌else◌, ◌==◌,
  u64_mod,
}
use round_sync.Ndn.{Ndn, Block}
use round_sync.Logic.{
  Logic, Config, Event, data_interest, sync_interest, stable_state, cumulative_only_event,
  reco_interest, recovery_check, partition_start, partition_stop,
}
use round_sync.Logic.Process.Seen.{contents_of}
use round_sync.Logic.Entry.{make_logic}
use round_sync.Logic.Reach.Callbacks.{
  Callback, publication, incoming_interest, incoming_reco_interest, incoming_data,
  incoming_reco_data, timeout, scheduled_event, run, InRounds,
}

module _ ⦃ndn : Ndn⦄ where
  open ndn use {Name, parse}

  -- `blockFromValue()` of a content: its one element, none where it throws.
  abbrev pub one_block : Option (List Block) → Option Block
  one_block none = none
  one_block (some []) = none
  one_block (some (b ∷ [])) = some b
  one_block (some (b ∷ c ∷ bs)) = none

  unfoldable pub block_from_value : List ℕ → Option Block
  block_from_value bytes = one_block (parse bytes)

  abbrev pub Among : List ℕ → List (List ℕ) → Type 0
  Among c [] = ⊥
  Among c (d ∷ ds) = (d ≡ c) ⊎ Among c ds

  -- A packet that one of the nodes sent before.
  pub record Delivered (nodes : ℕ → Logic) (content : Option Block) : Type 0 where
    pub sender : ℕ
    pub bytes : List ℕ
    pub was_sent : Among bytes (contents_of (nodes sender).effects)
    pub small : length bytes < u64_mod
    pub parsed : content ≡ block_from_value bytes

  -- What a node is called with: publications that are `published`, and packets of the nodes.
  abbrev pub Arrives : (ℕ → ℕ → Type 0) → (ℕ → Logic) → ℕ → Callback → Type 0
  Arrives published nodes i (publication q prefix) = published i q × (q < u64_mod)
  Arrives published nodes i (incoming_interest name) = Unit {0}
  Arrives published nodes i (incoming_reco_interest name) = Unit {0}
  Arrives published nodes i (incoming_data valid name content) = Delivered nodes content
  Arrives published nodes i (incoming_reco_data valid name content) = Delivered nodes content
  Arrives published nodes i (timeout purpose name) = Unit {0}
  Arrives published nodes i (scheduled_event e) = Unit {0}

  abbrev pub with_node : ℕ → Logic → (ℕ → Logic) → ℕ → Logic
  with_node i l nodes j = if i == j then l else nodes j

  -- One node runs one callback, while its current round has a next one.
  pub data Step (published : ℕ → ℕ → Type 0) (nodes : ℕ → Logic) : (ℕ → Logic) → Type 0 where
    act :
        (i : ℕ) (c : Callback)
        → (nodes i).current_round + 1 < u64_mod
        → InRounds c
        → Arrives published nodes i c
        → Step published nodes (with_node i (run c (nodes i)).1 nodes)

  pub data Runs (published : ℕ → ℕ → Type 0) (start : ℕ → Logic) : (ℕ → Logic) → Type 0 where
    begin : Runs published start start
    next :
        {nodes nodes' : ℕ → Logic}
        → Runs published start nodes
        → Step published nodes nodes'
        → Runs published start nodes'

  abbrev pub new_nodes : (ℕ → Config) → (ℕ → ℕ) → ℕ → Logic
  new_nodes configs times i = make_logic (configs i) (times i)
