-- ===== src/Network/Published.antt =====
-- Over all callbacks of all nodes: a node knows no sequence number that was not published by a node
-- of that session.
use round_sync.Base.{
  ℕ, ◌<◌, ◌≡◌, refl, sym, subst, ◌⊎◌, inl, inr, Bool-cases, Option, none, some, List, [], ◌∷◌, ◌==◌,
  u64_mod, arith,
}
use round_sync.Ndn.{Ndn, Block}
use round_sync.State.Lookup.{seq_in}
use round_sync.State.Sorted.{IsValid}
use round_sync.State.Known.{Numbers}
use round_sync.DataContent.{wire_decode_content}
use round_sync.RecoData.{wire_decode_reco}
use round_sync.Logic.{Logic, Config}
use round_sync.Logic.Process.Seen.{seen}
use round_sync.Logic.Entry.{initial}
use round_sync.Logic.Reach.{IsSound}
use round_sync.Logic.Reach.Callbacks.{
  Callback, publication, incoming_interest, incoming_reco_interest, incoming_data,
  incoming_reco_data, timeout, scheduled_event, run, before,
}
use round_sync.Logic.Reach.Events.{run-Ensures}
use round_sync.Logic.Reach.Node.{initial-IsSound, seen-make_logic}
use round_sync.Logic.Held.{trees, IsHeld, ContentKept, RecoKept, Speaks, AllSpeak}
use round_sync.Logic.Held.Path.{Genuine, run-IsHeld, make_logic-IsHeld}
use round_sync.Network.{
  block_from_value, one_block, Among, Delivered, Arrives, Step, act, Runs, begin, next, new_nodes,
}

module _ ⦃ndn : Ndn⦄ (configs : ℕ → Config) (times : ℕ → ℕ) (published : ℕ → ℕ → Type 0) where
  open ndn use {Name, parse}

  abbrev pub session : ℕ → Name
  session i = (initial (configs i) (times i)).session_name

  -- Number 0, the mark of a CumulativeOnly, or a number that a node of the session published.
  abbrev pub Published : Name → ℕ → Type 0
  Published n q = (q ≡ 0) ⊎ ((j : ℕ) × (session j ≡ n) × published j q)

  abbrev pub numbers : Numbers
  numbers = record {
    Known = λ n q. (q < u64_mod) × Published n q;
    zero_known = λ n. (omega arith, inl refl);
    bounded = λ n q h. h.0;
  }

  -- What holds of every node.
  pub record NodeHolds (i : ℕ) (l : Logic) : Type 0 where
    pub sound : IsSound (before (initial (configs i) (times i))) (seen l)
    pub held : IsHeld numbers (session i) (trees l)

  new_node : (i : ℕ) → NodeHolds i (new_nodes configs times i)
  new_node i = record {
    sound =
        subst (IsSound _) (sym (seen-make_logic (configs i) (times i)))
          (initial-IsSound (configs i) (times i));
    held = make_logic-IsHeld numbers (session i) (configs i) (times i) refl;
  }

  among : (c : List ℕ) (cs : List (List ℕ)) → AllSpeak numbers cs → Among c cs → Speaks numbers c
  among c [] h m = absurd m
  among c (d ∷ cs) h (inl e) = subst (Speaks numbers) e (h.0)
  among c (d ∷ cs) h (inr m) = among c cs (h.1) m

  block_kept :
      (o : Option (List Block))
      → ((b : Block) → o ≡ some (b ∷ []) → ContentKept numbers (some b) × RecoKept numbers (some b))
      → ContentKept numbers (one_block o) × RecoKept numbers (one_block o)
  unfolding wire_decode_content wire_decode_reco
  block_kept none h = (λ c e. absurd (cc e), λ r e. absurd (cc e))
  block_kept (some []) h = (λ c e. absurd (cc e), λ r e. absurd (cc e))
  block_kept (some (b ∷ [])) h = h b refl
  block_kept (some (b ∷ c ∷ bs)) h = (λ c e. absurd (cc e), λ r e. absurd (cc e))

  delivered :
      (nodes : ℕ → Logic) (content : Option Block)
      → ((i : ℕ) → NodeHolds i (nodes i))
      → Delivered nodes content
      → ContentKept numbers content × RecoKept numbers content
  unfolding block_from_value
  delivered nodes content h d =
      subst (λ x. ContentKept numbers x × RecoKept numbers x) (sym d.parsed)
        (block_kept (parse d.bytes) (among d.bytes _ (h d.sender).held.contents d.was_sent d.small))

  Arrives-Genuine :
      (nodes : ℕ → Logic) (i : ℕ) (c : Callback)
      → ((j : ℕ) → NodeHolds j (nodes j))
      → Arrives published nodes i c
      → Genuine numbers (session i) c
  Arrives-Genuine nodes i (publication q prefix) h a = (a.1, inr (i, refl, a.0))
  Arrives-Genuine nodes i (incoming_interest name) h a = tt
  Arrives-Genuine nodes i (incoming_reco_interest name) h a = tt
  Arrives-Genuine nodes i (incoming_data valid name content) h a = (delivered nodes content h a).0
  Arrives-Genuine nodes i (incoming_reco_data valid name content) h a =
      (delivered nodes content h a).1
  Arrives-Genuine nodes i (timeout purpose name) h a = tt
  Arrives-Genuine nodes i (scheduled_event e) h a = tt

  step-NodeHolds :
      (nodes nodes' : ℕ → Logic)
      → Step published nodes nodes'
      → ((i : ℕ) → NodeHolds i (nodes i))
      → (j : ℕ) → NodeHolds j (nodes' j)
  step-NodeHolds nodes nodes' (act i c w r a) h j =
      let p = h i in
      let ran : NodeHolds i (run c (nodes i)).1 = record {
        sound =
            (run-Ensures (before (initial (configs i) (times i))) c r).at (nodes i) (p.sound, w);
        held =
            run-IsHeld numbers (session i) (before (initial (configs i) (times i))) c (nodes i)
              (Arrives-Genuine nodes i c h a) r (p.sound, w) p.held;
      } in
      elim (Bool-cases (i == j)) [
        | inr other ↦ rw other (h j)
        | inl same ↦
            let e : i ≡ j = ground (arith, same) in
            rw same (subst (λ x. NodeHolds x (run c (nodes i)).1) e ran)
      ]

  pub runs-NodeHolds :
      (nodes : ℕ → Logic)
      → Runs published (new_nodes configs times) nodes
      → (i : ℕ) → NodeHolds i (nodes i)
  runs-NodeHolds nodes begin i = new_node i
  runs-NodeHolds nodes' (next {nodes} path s) i =
      step-NodeHolds nodes nodes' s (runs-NodeHolds nodes path) i

  -- Any number of nodes, each with a session of its configuration, run callbacks one at a time, in
  -- any order, from what the constructors made. A callback gets a publication that `published` has,
  -- with a number of 64 bits; an interest, a timeout or a scheduled event; or, as data or as a
  -- recovery reply and under any name, the content of a packet of fewer than 2 ^ 64 bytes that one
  -- of the nodes sent before. Before each callback the current round of its node has a next one of
  -- 64 bits, and so have the rounds that interests and recovery replies name (data interests and
  -- scheduled CumulativeOnly packets: a round of 64 bits). Then the tree of every node is well
  -- formed, and each number that it has of a session is 0, the mark of a CumulativeOnly, or was
  -- published by a node of that session.
  pub Runs-Published :
      (nodes : ℕ → Logic)
      → Runs published (new_nodes configs times) nodes
      → (i : ℕ)
      → IsValid (nodes i).state.leaves
        × ((n : Name) (q : ℕ) → seq_in (nodes i).state.leaves n ≡ some q → Published n q)
  Runs-Published nodes path i =
      let p = (runs-NodeHolds nodes path i).held.state in (p.valid, λ n q e. (p.within n q e).1)
