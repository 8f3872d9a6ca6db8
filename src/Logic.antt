-- ===== src/Logic.antt =====
-- logic.hpp: the constants and the state of a node, and what its handlers ask of the scheduler and
-- of the face. The scheduler, the face and the validator are ndn-cxx's: a handler's calls of them
-- are recorded as effects, the last one first. A call that returns an identifier gets the next one.
pub mod Exec
pub mod Calls
pub mod Rounds
pub mod Stable
pub mod Recovery
pub mod Publish
pub mod Process
pub mod Timeouts
pub mod Entry
pub mod Reach
pub mod Held
use round_sync.Base.{ℕ, ◌+◌, ◌*◌, Bool, true, false, Option, none, some, List, [], ◌∷◌}
use round_sync.Ndn.{Ndn}
use round_sync.State.{State, empty_state}
use round_sync.DiffState.{DiffState}

-- EMPTY_DIGEST_VALUE, the SHA-256 of no bytes.
abbrev pub empty_digest : List ℕ
empty_digest =
    0xe3 ∷ 0xb0 ∷ 0xc4 ∷ 0x42 ∷ 0x98 ∷ 0xfc ∷ 0x1c ∷ 0x14 ∷ 0x9a ∷ 0xfb ∷ 0xf4 ∷ 0xc8 ∷ 0x99 ∷ 0x6f
    ∷ 0xb9 ∷ 0x24 ∷ 0x27 ∷ 0xae ∷ 0x41 ∷ 0xe4 ∷ 0x64 ∷ 0x9b ∷ 0x93 ∷ 0x4c ∷ 0xa4 ∷ 0x95 ∷ 0x99
    ∷ 0x1b ∷ 0x78 ∷ 0x52 ∷ 0xb8 ∷ 0x55 ∷ []

-- Times are in milliseconds.
abbrev pub default_round_digest_delay : ℕ
default_round_digest_delay = 1000

abbrev pub default_stabilize_cumulative_digest_delay : ℕ
default_stabilize_cumulative_digest_delay = 5 * default_round_digest_delay

abbrev pub max_rounds_without_recovery : ℕ
max_rounds_without_recovery = 10

abbrev pub back_unstable_rounds : ℕ
back_unstable_rounds = 5

abbrev pub default_retry_check_recovery_delay : ℕ
default_retry_check_recovery_delay = 2000

abbrev pub default_delay_sending_cumulative_only : ℕ
default_delay_sending_cumulative_only = 1000

abbrev pub cumulative_only_data : ℕ
cumulative_only_data = 0

abbrev pub max_data_interest_to_cumulative_only : ℕ
max_data_interest_to_cumulative_only = 5

abbrev pub max_data_interest_timeouts : ℕ
max_data_interest_timeouts = 5

abbrev pub max_reco_interest_timeouts : ℕ
max_reco_interest_timeouts = 5

abbrev pub default_data_interest_lifetime : ℕ
default_data_interest_lifetime = 1000

abbrev pub default_sync_interest_lifetime : ℕ
default_sync_interest_lifetime = 1000

abbrev pub default_data_freshness : ℕ
default_data_freshness = 1000

-- The time after which an event is due: fixed, or a base and a uniform random number in a range.
pub data Delay : Type 0 where
  millis : ℕ → Delay
  random : ℕ → ℕ → ℕ → Delay

-- Whose callbacks an interest was expressed with.
pub data Purpose : Type 0 where
  for_data : ℕ → Purpose
  for_sync for_reco : Purpose

module _ ⦃ndn : Ndn⦄ where
  open ndn use {Name, Component}

  -- The functions that are bound to scheduled events, with their arguments.
  pub data Event : Type 0 where
    data_interest : ℕ → ℕ → Event
    sync_interest : ℕ → Event
    stable_state : Event
    cumulative_only_event : ℕ → List ℕ → Event
    reco_interest : Name → Event
    recovery_check : Name → ℕ → List ℕ → Event
    partition_start partition_stop : Event

  pub record Interest : Type 0 where
    pub name : Name
    pub must_be_fresh : Bool
    pub lifetime : ℕ
    pub exclude : List Component

  -- A signed Data packet; the empty identity stands for the key chain's default.
  pub record Packet : Type 0 where
    pub name : Name
    pub content : List ℕ
    pub freshness : ℕ
    pub identity : Name

  pub record MissingDataInfo : Type 0 where
    pub session : Name
    pub low : ℕ
    pub high : ℕ

  pub data Effect : Type 0 where
    scheduled : ℕ → Delay → Event → Effect
    cancelled : ℕ → Effect
    expressed : ℕ → Interest → Purpose → Effect
    removed_pending : ℕ → Effect
    sent : Packet → Effect
    on_update : List MissingDataInfo → Effect
    filter_set : Name → Effect
    all_cancelled shut_down : Effect

  -- What the constructor is given.
  pub record Config : Type 0 where
    pub sync_prefix : Name
    pub default_user_prefix : Name
    pub default_signing_id : Name
    pub has_validator : Bool
    pub data_interest_lifetime : ℕ
    pub sync_interest_lifetime : ℕ
    pub data_freshness : ℕ

  -- `sync_timeouts` and `partitioned` are globals of logic.cpp; `none` is the value -1 of the first.
  -- `outstanding_data_interest_id` is 0 where no interest is outstanding.
  pub record Logic : Type 0 where
    pub config : Config
    pub open config use *
    pub session_name : Name
    pub seq_no : ℕ
    pub reco_prefix : Name
    pub state : State
    pub old_state : State
    pub log : List DiffState
    pub outstanding_data_interest_name : Name
    pub outstanding_data_interest_id : ℕ
    pub pending_data_interest : Option Name
    pub current_round : ℕ
    pub stabilizing_round : ℕ
    pub stable_round : ℕ
    pub last_recovery_round : ℕ
    pub recovery_desired : Bool
    pub cumulative_digest_events : List (List ℕ × ℕ)
    pub reexpressing_data_interest_id : Option ℕ
    pub stabilizing_cumulative_digest : Option ℕ
    pub number_data_interest_timeouts : ℕ
    pub number_reco_interest_timeouts : ℕ
    pub pending_recovery_prefixes : List Name
    pub partitioned : Bool
    pub sync_timeouts : Option ℕ
    pub next_id : ℕ
    pub effects : List Effect
