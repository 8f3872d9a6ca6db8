-- ===== src/Logic/Reach/Callbacks.antt =====
-- logic.cpp: the life of a node as a sequence of callbacks: a call of updateSeqNo, an interest or
-- data that came, a timeout, an event of the scheduler.
use round_sync.Base.{ℕ, ◌+◌, ◌<◌, ◌≡◌, Bool, Option, none, u64_mod, ok}
use round_sync.Ndn.{Ndn, Block}
use round_sync.RecoData.{RecoData, make_reco, wire_decode_reco}
use round_sync.Logic.{Logic, Purpose, Event, cumulative_only_event}
use round_sync.Logic.Exec.{Action, number_at}
use round_sync.Logic.Publish.{update_seq_no}
use round_sync.Logic.Entry.{
  on_data_and_sync_interest, on_reco_interest, on_data, on_reco_data, on_timeout, run_event,
}
use round_sync.Logic.Reach.{Before}

module _ ⦃ndn : Ndn⦄ where
  open ndn use {Name, component_eq, data_component, sync_component, reco_component}

  pub data Callback : Type 0 where
    publication : ℕ → Name → Callback
    incoming_interest : Name → Callback
    incoming_reco_interest : Name → Callback
    incoming_data : Bool → Name → Option Block → Callback
    incoming_reco_data : Bool → Name → Option Block → Callback
    timeout : Purpose → Name → Callback
    scheduled_event : Event → Callback

  unfoldable pub run : Callback → Action (Unit {0})
  run (publication q prefix) = update_seq_no q prefix
  run (incoming_interest name) = on_data_and_sync_interest name
  run (incoming_reco_interest name) = on_reco_interest name
  run (incoming_data valid name content) = on_data valid name content
  run (incoming_reco_data valid name content) = on_reco_data valid name content
  run (timeout purpose name) = on_timeout purpose name
  run (scheduled_event e) = run_event e

  -- The rounds that a packet names are of 64 bits, and have a next one where the node uses that.
  abbrev pub InRounds : Callback → Type 0
  InRounds (publication q prefix) = Unit {0}
  InRounds (incoming_interest name) =
      ((r : ℕ) → number_at name 1 ≡ ok r → r < u64_mod)
      × ((r : ℕ) → number_at name 2 ≡ ok r → r + 1 < u64_mod)
  InRounds (incoming_reco_interest name) = Unit {0}
  InRounds (incoming_data valid name content) = Unit {0}
  InRounds (incoming_reco_data valid name content) =
      (reco : RecoData)
      → wire_decode_reco (make_reco 0 none) content ≡ ok reco
      → reco.round_no + 1 < u64_mod
  InRounds (timeout purpose name) = Unit {0}
  InRounds (scheduled_event (cumulative_only_event r digest)) = r < u64_mod
  InRounds (scheduled_event e) = Unit {0}

  -- One node after another, while the current round has a next one.
  pub data Reaches (l : Logic) : Logic → Type 0 where
    here : Reaches l l
    after :
        {k : Logic}
        → Reaches l k
        → k.current_round + 1 < u64_mod
        → (c : Callback) → InRounds c
        → Reaches l (run c k).1

  abbrev pub before : Logic → Before
  before l = record { known = l.state.leaves; reached = l.current_round }
