-- ===== src/Logic/Reach.antt =====
-- logic.cpp: what holds of the rounds and the state of a node between two callbacks (logic.hpp
-- describes the round variables), and the rules by which an action is shown to keep it, whether it
-- returns or throws.
pub mod Sends
pub mod Parts
pub mod Handlers
pub mod Answers
pub mod Replies
pub mod Callbacks
pub mod Events
pub mod Node
use round_sync.Base.{
  ℕ, ◌+◌, ◌≤◌, ◌<◌, ◌≡◌, ◌≢◌, refl, sym, subst, Bool, true, false, List, Exception, Result, ok, err,
  if◌then◌else◌, u64_mod, Option,
}
use round_sync.Ndn.{Ndn}
use round_sync.Leaf.{Leaf}
use round_sync.State.Lookup.{seq_in, join}
use round_sync.Logic.{Logic}
use round_sync.Logic.Exec.{
  Action, pure, raise, lift, get, modify, ◌>>=◌, proceed, catch_state_error, swallow,
}
use round_sync.Logic.Process.Seen.{Seen, seen}

module _ ⦃ndn : Ndn⦄ where
  open ndn use {Name}

  -- What was known before: the leaves of the state, and the current round.
  pub record Before : Type 0 where
    pub known : List Leaf
    pub reached : ℕ

  -- The rounds are in order, and nothing that was known is lost. Without a stable round the
  -- candidate is the round of the last recovery, if there was one.
  pub record IsSound (b : Before) (s : Seen) : Type 0 where
    pub positive : 0 < s.current_round
    pub bounded : s.current_round < u64_mod
    pub candidate : s.stabilizing_round ≤ s.current_round
    pub stable : s.stable_round ≤ s.stabilizing_round
    pub recovery : s.last_recovery_round < s.current_round
    pub restart :
        s.stable_round ≡ 0 → s.last_recovery_round ≢ 0 → s.stabilizing_round ≡ s.last_recovery_round
    pub advanced : b.reached ≤ s.current_round
    pub grown :
        (n : Name) → join (seq_in b.known n) (seq_in s.state.leaves n) ≡ seq_in s.state.leaves n

  -- There is a next round within 64 bits.
  abbrev pub IsReady : Before → Seen → Type 0
  IsReady b s = IsSound b s × (s.current_round + 1 < u64_mod)

  pub ready : {b : Before} → (s : Seen) → IsReady b s → IsSound b s
  ready s p = p.0

  -- From a node with `P` the action leaves one with `Q`, whether it returns or throws.
  pub record Ensures {A : Type 0} (P : Seen → Type 0) (m : Action A) (Q : Seen → Type 0)
      : Type 0 where
    pub at : (l : Logic) → P (seen l) → Q (seen (m l).1)

module _ ⦃ndn : Ndn⦄ {P R Q : Seen → Type 0} where
  pub Ensures-bind :
      {A B : Type 0} (m : Action A) (f : A → Action B)
      → Ensures P m R
      → ((a : A) → Ensures R (f a) Q)
      → ((s : Seen) → R s → Q s)
      → Ensures P (m >>= f) Q
  Ensures-bind {A} {B} m f hm hf weaken = record { at = λ l p. go (m l) (hm.at l p) }
    where
      go : (r : Result A × Logic) → R (seen r.1) → Q (seen (proceed r f).1)
      go (ok a, l) p = (hf a).at l p
      go (err e, l) p = weaken (seen l) p

module _ ⦃ndn : Ndn⦄ {P Q : Seen → Type 0} where
  pub Ensures-lift :
      {A B : Type 0} (r : Result A) (f : A → Action B)
      → ((a : A) → r ≡ ok a → Ensures P (f a) Q)
      → ((s : Seen) → P s → Q s)
      → Ensures P (lift r >>= f) Q
  Ensures-lift (ok a) f hf weaken = hf a refl
  Ensures-lift (err e) f hf weaken = record { at = λ l. weaken (seen l) }

  pub Ensures-modify :
      (f : Logic → Logic) → ((l : Logic) → P (seen l) → Q (seen (f l))) → Ensures P (modify f) Q
  Ensures-modify f h = record { at = h }

  pub Ensures-pure : {A : Type 0} (a : A) → ((s : Seen) → P s → Q s) → Ensures P (pure a) Q
  Ensures-pure a weaken = record { at = λ l. weaken (seen l) }

  pub Ensures-raise :
      {A : Type 0} (e : Exception) → ((s : Seen) → P s → Q s) → Ensures P (raise {A = A} e) Q
  Ensures-raise e weaken = record { at = λ l. weaken (seen l) }

  pub Ensures-get :
      {B : Type 0} (f : Logic → Action B)
      → ((l : Logic) → P (seen l) → Q (seen (f l l).1))
      → Ensures P (get >>= f) Q
  Ensures-get f h = record { at = h }

  pub Ensures-if :
      {A : Type 0} (b : Bool) (m n : Action A)
      → (b ≡ true → Ensures P m Q)
      → (b ≡ false → Ensures P n Q)
      → Ensures P (if b then m else n) Q
  Ensures-if true m n hm hn = hm refl
  Ensures-if false m n hm hn = hn refl

module _ ⦃ndn : Ndn⦄ {P : Seen → Type 0} where
  -- An action that shows nothing keeps every property of what a node has seen.
  pub Ensures-same :
      {A : Type 0} (m : Action A) → ((l : Logic) → seen (m l).1 ≡ seen l) → Ensures P m P
  Ensures-same m h = record { at = λ l p. subst P (sym (h l)) p }
