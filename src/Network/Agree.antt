-- ===== src/Network/Agree.antt =====
-- Two nodes of any run that answer each other's recovery interests (logic.cpp).
use round_sync.Base.{◌∷◌, ℕ, ◌<◌, ◌≡◌, length, u64_mod}
use round_sync.Ndn.{Ndn}
use round_sync.State.Lookup.{seq_in, join}
use round_sync.Logic.{Logic, Config}
use round_sync.Logic.Calls.{send_reco_data}
use round_sync.Logic.Process.Seen.{contents_of}
use round_sync.Logic.Process.Reco.{reco_bytes, contents_of-send_reco_data}
use round_sync.Network.{Runs, new_nodes}
use round_sync.Network.Published.{numbers, runs-NodeHolds}
use round_sync.Network.Exchange.{CanReply, after_reply, replies-agree}

module _ ⦃ndn : Ndn⦄ (configs : ℕ → Config) (times : ℕ → ℕ) (published : ℕ → ℕ → Type 0) where
  open ndn use {Name}

  -- Every node of a run can reply to a recovery interest.
  pub Runs-CanReply :
      (nodes : ℕ → Logic)
      → Runs published (new_nodes configs times) nodes
      → (i : ℕ) → CanReply (numbers configs times published) (nodes i)
  Runs-CanReply nodes path i =
      let p = runs-NodeHolds configs times published nodes path i in
      record { kept = p.held.state; positive = p.sound.positive; bounded = p.sound.bounded }

  -- Two nodes of a run as in Network.Published.Runs-Published, where the second gets the reply of
  -- the first to a recovery interest, and then the first gets the reply of the second, and both
  -- replies, which are what sendRecoData sends, have fewer than 2 ^ 64 bytes: both nodes then have
  -- the same leaves and the same current round, and for each session the greater of the numbers
  -- that the two had.
  pub process_reco_data-agrees :
      (nodes : ℕ → Logic)
      → Runs published (new_nodes configs times) nodes
      → (i j : ℕ) (name name' : Name) → length (reco_bytes (nodes i)) < u64_mod
      → length (reco_bytes (after_reply name (nodes i) (nodes j))) < u64_mod
      → let b = after_reply name (nodes i) (nodes j) in
        let a = after_reply name' b (nodes i) in
        ((l : Logic) (prefix reply : Name)
          → contents_of (send_reco_data prefix reply l).effects
            ≡ reco_bytes l ∷ contents_of l.effects)
        × (a.state.leaves ≡ b.state.leaves)
        × (a.current_round ≡ b.current_round)
        × ((n : Name)
            → seq_in a.state.leaves n
              ≡ join (seq_in (nodes i).state.leaves n) (seq_in (nodes j).state.leaves n))
  process_reco_data-agrees nodes path i j name name' small small' =
      let (leaves, round, joined) =
        replies-agree (numbers configs times published) name name' (nodes i) (nodes j)
          (Runs-CanReply nodes path i) (Runs-CanReply nodes path j) small small' in
      (λ l prefix reply. contents_of-send_reco_data prefix reply l, leaves, round, joined)
