-- ===== src/Network/Gather.antt =====
-- Any number of nodes of a run (logic.cpp): one gets the recovery replies of all, and then they get
-- its own.
use round_sync.Base.{
  ℕ, ◌<◌, ◌≤◌, ◌≡◌, refl, sym, ap, ◌∙◌, Option, List, [], ◌∷◌, length, All, u64_mod, arith,
}
use round_sync.Ndn.{Ndn}
use round_sync.State.Lookup.{seq_in, join, join_assoc}
use round_sync.State.Sorted.{leaves_ext}
use round_sync.State.Known.{Numbers}
use round_sync.Logic.{Logic, Config}
use round_sync.Logic.Process.Reco.{reco_bytes}
use round_sync.Network.{Runs, new_nodes}
use round_sync.Network.Published.{numbers}
use round_sync.Network.Exchange.{CanReply, after_reply, reply-recovers, join_both}
use round_sync.Network.Agree.{Runs-CanReply}

module _ ⦃ndn : Ndn⦄ (names : ℕ → ndn.Name) where
  open ndn use {Name}

  -- A node after the replies of the nodes `ks`, one after another.
  unfoldable pub gather : (ℕ → Logic) → List ℕ → Logic → Logic
  gather nodes [] a = a
  gather nodes (k ∷ ks) a = gather nodes ks (after_reply (names k) (nodes k) a)

  -- The greatest number of a session, of `known` and those of the nodes `ks`.
  abbrev pub greatest : (ℕ → Logic) → Name → List ℕ → Option ℕ → Option ℕ
  greatest nodes n [] known = known
  greatest nodes n (k ∷ ks) known =
      greatest nodes n ks (join known (seq_in (nodes k).state.leaves n))

  -- All that one node knows is known to another, which is not behind it.
  record Below (a b : Logic) : Type 0 where
    pub numbers :
        (n : Name)
        → join (seq_in a.state.leaves n) (seq_in b.state.leaves n) ≡ seq_in b.state.leaves n
    pub rounds : a.current_round ≤ b.current_round

  module _ (known : Numbers) (nodes : ℕ → Logic) (ready : (i : ℕ) → CanReply known (nodes i)) where
    abbrev Small : ℕ → Type 0
    Small k = length (reco_bytes (nodes k)) < u64_mod

    joined_below : (x y z : Option ℕ) → join x y ≡ y → join x (join y z) ≡ join y z
    joined_below x y z h = sym (join_assoc x y z) ∙ ap (λ (w : Option ℕ). join w z) h

    after_reply-CanReply :
        (k : ℕ) (a : Logic)
        → Small k
        → CanReply known a
        → CanReply known (after_reply (names k) (nodes k) a)
    after_reply-CanReply k a s h =
        let (_, h', _, _, _) = reply-recovers known (names k) (nodes k) a (ready k) h s in h'

    after_reply-Below :
        (k : ℕ) (p a : Logic)
        → Small k
        → CanReply known a
        → Below p a
        → Below p (after_reply (names k) (nodes k) a)
    after_reply-Below k p a s h b =
        let (_, _, _, joined, round) = reply-recovers known (names k) (nodes k) a (ready k) h s in
        record {
          numbers = λ n. rw (joined n) (joined_below _ _ _ (b.numbers n));
          rounds = ground (arith, round, b.rounds);
        }

    sender-Below :
        (k : ℕ) (a : Logic)
        → Small k
        → CanReply known a
        → Below (nodes k) (after_reply (names k) (nodes k) a)
    sender-Below k a s h =
        let (_, _, _, joined, round) = reply-recovers known (names k) (nodes k) a (ready k) h s in
        record { numbers = λ n. rw (joined n) (join_both _ _); rounds = ground (arith, round) }

    gather-CanReply :
        (ks : List ℕ) (a : Logic)
        → All Small ks
        → CanReply known a
        → CanReply known (gather nodes ks a)
    unfolding gather
    gather-CanReply [] a s h = h
    gather-CanReply (k ∷ ks) a s h = gather-CanReply ks _ s.1 (after_reply-CanReply k a s.0 h)

    gather-Below :
        (ks : List ℕ) (p a : Logic)
        → All Small ks
        → CanReply known a
        → Below p a
        → Below p (gather nodes ks a)
    unfolding gather
    gather-Below [] p a s h b = b
    gather-Below (k ∷ ks) p a s h b =
        gather-Below ks p _ s.1 (after_reply-CanReply k a s.0 h) (after_reply-Below k p a s.0 h b)

    gather-AllBelow :
        (ks : List ℕ) (a : Logic)
        → All Small ks
        → CanReply known a
        → All (λ k. Below (nodes k) (gather nodes ks a)) ks
    unfolding gather
    gather-AllBelow [] a s h = tt
    gather-AllBelow (k ∷ ks) a s h =
        let h' = after_reply-CanReply k a s.0 h in
        (gather-Below ks (nodes k) _ s.1 h' (sender-Below k a s.0 h), gather-AllBelow ks _ s.1 h')

    seq_in-gather :
        (ks : List ℕ) (a : Logic)
        → All Small ks
        → CanReply known a
        → (n : Name)
        → seq_in (gather nodes ks a).state.leaves n ≡ greatest nodes n ks (seq_in a.state.leaves n)
    unfolding gather
    seq_in-gather [] a s h n = refl
    seq_in-gather (k ∷ ks) a s h n =
        let (_, h', _, joined, _) = reply-recovers known (names k) (nodes k) a (ready k) h s.0 in
        seq_in-gather ks _ s.1 h' n ∙ ap (greatest nodes n ks) (joined n)

    -- A node that gets the reply of one that knows all that it knows.
    abbrev pub Agrees : Logic → Name → Logic → Type 0
    Agrees b name a =
        ((after_reply name b a).state.leaves ≡ b.state.leaves)
        × ((after_reply name b a).current_round ≡ b.current_round)

    Below-Agrees :
        (name : Name) (b a : Logic)
        → CanReply known b
        → CanReply known a
        → length (reco_bytes b) < u64_mod
        → Below a b
        → Agrees b name a
    Below-Agrees name b a h g s l =
        let (_, g', _, joined, round) = reply-recovers known name b a h g s in
        (
          leaves_ext _ _ g'.kept.valid h.kept.valid (λ n. joined n ∙ l.numbers n),
          ground (arith, round, l.rounds),
        )

    Below-AllAgree :
        (name : Name) (b : Logic) (ks : List ℕ)
        → CanReply known b
        → length (reco_bytes b) < u64_mod
        → All (λ k. Below (nodes k) b) ks
        → All (λ k. Agrees b name (nodes k)) ks
    Below-AllAgree name b [] h s l = tt
    Below-AllAgree name b (k ∷ ks) h s l =
        (Below-Agrees name b (nodes k) h (ready k) s l.0, Below-AllAgree name b ks h s l.1)

    pub replies-AllAgree :
        (name : Name) (ks : List ℕ) (a : Logic)
        → All Small ks
        → CanReply known a
        → length (reco_bytes (gather nodes ks a)) < u64_mod
        → All (λ k. Agrees (gather nodes ks a) name (nodes k)) ks
          × ((n : Name)
              → seq_in (gather nodes ks a).state.leaves n
                ≡ greatest nodes n ks (seq_in a.state.leaves n))
    replies-AllAgree name ks a s h t = (
      Below-AllAgree name (gather nodes ks a) ks (gather-CanReply ks a s h) t
          (gather-AllBelow ks a s h),
      seq_in-gather ks a s h,
    )

module _ ⦃ndn : Ndn⦄ (configs : ℕ → Config) (times : ℕ → ℕ) (published : ℕ → ℕ → Type 0)
    (names : ℕ → ndn.Name) where
  open ndn use {Name}

  -- A node of a run as in Network.Published.Runs-Published gets the recovery replies of any others,
  -- one after another, and then each of these gets its reply, where all these replies have fewer
  -- than 2 ^ 64 bytes: each of them then has the same leaves and the same current round as that
  -- node, which has for each session the greatest number that it and the others had.
  pub gather-agrees :
      (nodes : ℕ → Logic)
      → Runs published (new_nodes configs times) nodes
      → (h : ℕ) (ks : List ℕ) → All (λ k. length (reco_bytes (nodes k)) < u64_mod) ks
      → length (reco_bytes (gather names nodes ks (nodes h))) < u64_mod
      → let b = gather names nodes ks (nodes h) in
        All
          (λ k.
            ((after_reply (names h) b (nodes k)).state.leaves ≡ b.state.leaves)
            × ((after_reply (names h) b (nodes k)).current_round ≡ b.current_round))
          ks
        × ((n : Name)
            → seq_in b.state.leaves n ≡ greatest names nodes n ks (seq_in (nodes h).state.leaves n))
  gather-agrees nodes path h ks s t =
      replies-AllAgree names (numbers configs times published) nodes
        (Runs-CanReply configs times published nodes path) (names h) ks (nodes h) s
        (Runs-CanReply configs times published nodes path h) t
