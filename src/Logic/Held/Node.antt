-- ===== src/Logic/Held/Node.antt =====
-- logic.cpp: the trees of every node that the callbacks lead to from the constructor, whatever packets
-- it receives.
use round_sync.Base.{ℕ, ◌<◌, refl, sym, subst, List, [], ◌∷◌, All, u64_mod}
use round_sync.Ndn.{Ndn}
use round_sync.Leaf.{Leaf}
use round_sync.State.Sorted.{IsValid}
use round_sync.State.Digest.{InRange}
use round_sync.State.Compare.{words}
use round_sync.State.Known.{IsKept, IsKept-InRange}
use round_sync.DiffState.{DiffState}
use round_sync.Log.{IsOrdered}
use round_sync.Logic.{Logic, Config}
use round_sync.Logic.Process.Seen.{seen}
use round_sync.Logic.Entry.{initial, make_logic}
use round_sync.Logic.Reach.{Before, IsSound}
use round_sync.Logic.Reach.Callbacks.{
  Callback, publication, incoming_interest, incoming_reco_interest, incoming_data,
  incoming_reco_data, timeout, scheduled_event, Reaches, here, after, before,
}
use round_sync.Logic.Reach.Events.{path-IsSound}
use round_sync.Logic.Reach.Node.{initial-IsSound, seen-make_logic}
use round_sync.Logic.Held.{trees, IsHeld, AllEntries}
use round_sync.Logic.Held.Path.{Genuine, run-IsHeld, make_logic-IsHeld}
use round_sync.Logic.Held.Any.{any-ContentKept, any-RecoKept}

module _ ⦃ndn : Ndn⦄ where
  open ndn use {Name}

  -- The numbers that the application publishes have 64 bits.
  abbrev pub Words : Callback → Type 0
  Words (publication q prefix) = q < u64_mod
  Words (incoming_interest name) = Unit {0}
  Words (incoming_reco_interest name) = Unit {0}
  Words (incoming_data valid name content) = Unit {0}
  Words (incoming_reco_data valid name content) = Unit {0}
  Words (timeout purpose name) = Unit {0}
  Words (scheduled_event e) = Unit {0}

  abbrev pub AllWords : {l k : Logic} → Reaches l k → Type 0
  AllWords here = Unit {0}
  AllWords (after p w c r) = AllWords p × Words c

  Words-Genuine : (me : Name) (c : Callback) → Words c → Genuine words me c
  Words-Genuine me (publication q prefix) w = w
  Words-Genuine me (incoming_interest name) w = tt
  Words-Genuine me (incoming_reco_interest name) w = tt
  Words-Genuine me (incoming_data valid name content) w = any-ContentKept content
  Words-Genuine me (incoming_reco_data valid name content) w = any-RecoKept content
  Words-Genuine me (timeout purpose name) w = tt
  Words-Genuine me (scheduled_event e) w = tt

  path-IsHeld :
      (me : Name) (b : Before) (l k : Logic) (p : Reaches l k)
      → AllWords p
      → IsSound b (seen l)
      → IsHeld words me (trees l)
      → IsHeld words me (trees k)
  path-IsHeld me b l k here w s h = h
  path-IsHeld me b l k (after {k = m} p n c r) w s h =
      run-IsHeld words me b c m (Words-Genuine me c w.1) r (path-IsSound b l m p s, n)
        (path-IsHeld me b l m p w.0 s h)

  abbrev pub InOrder : List Leaf → Type 0
  InOrder ls = IsValid ls × InRange ls

  kept-InOrder : (ls : List Leaf) → IsKept words ls → InOrder ls
  kept-InOrder ls h = (h.valid, IsKept-InRange words ls h.valid.sorted h.within)

  log-InOrder :
      (ds : List DiffState)
      → AllEntries words ds
      → All (λ (d : DiffState). InOrder d.state.leaves) ds
  log-InOrder [] h = tt
  log-InOrder (d ∷ ds) h = (kept-InOrder d.state.leaves h.0.kept, log-InOrder ds h.1)

  -- Every node that callbacks of every kind lead to from the constructor, each of which returns or
  -- throws, with any packets at all, where published numbers have 64 bits, the current round has a
  -- next one of 64 bits before each callback and so have the rounds that interests and recovery
  -- replies name (data interests and scheduled CumulativeOnly packets: a round of 64 bits): the
  -- state, the old state and every entry of the log have well-formed trees whose numbers have 64
  -- bits, and the rounds of the log grow strictly.
  pub Reaches-InOrder :
      (config : Config) (now : ℕ) (l : Logic) (p : Reaches (make_logic config now) l)
      → AllWords p
      → InOrder l.state.leaves
        × InOrder l.old_state.leaves
        × All (λ (d : DiffState). InOrder d.state.leaves) l.log
        × IsOrdered l.log
  Reaches-InOrder config now l p w =
      let me = (initial config now).session_name in
      let b = before (initial config now) in
      let start =
        subst (IsSound b) (sym (seen-make_logic config now)) (initial-IsSound config now) in
      let h =
        path-IsHeld me b (make_logic config now) l p w start
          (make_logic-IsHeld words me config now refl) in
      (kept-InOrder _ h.state, kept-InOrder _ h.old_state, log-InOrder _ h.log, h.ordered)
