-- ===== src/Logic/Held.antt =====
-- logic.cpp: which numbers a node holds, in its trees, in the entries of its log and in the packets
-- that it sends, and that its log is ordered; and the rules by which an action keeps an invariant,
-- whether it returns or throws.
pub mod Same
pub mod Packets
pub mod Entries
pub mod Stable
pub mod Sends
pub mod Answers
pub mod Handlers
pub mod Receive
pub mod Replies
pub mod Path
pub mod Any
pub mod Node
pub mod Stabilizes
use round_sync.Base.{
  ℕ, ◌<◌, ◌≡◌, refl, sym, subst, Bool, true, false, Option, none, some, List, [], ◌∷◌, length,
  if◌then◌else◌, u64_mod, Exception, Result, ok, err,
}
use round_sync.Ndn.{Ndn, Block}
use round_sync.State.{State}
use round_sync.State.Known.{Numbers, IsKept}
use round_sync.DiffState.{DiffState}
use round_sync.DataContent.{DataContent, default_content, wire_decode_content}
use round_sync.RecoData.{RecoData, make_reco, wire_decode_reco}
use round_sync.Log.{IsOrdered}
use round_sync.Logic.{Logic}
use round_sync.Logic.Rounds.{Commit}
use round_sync.Logic.Exec.{
  Action, pure, raise, lift, get, modify, ◌>>=◌, proceed, catch_state_error, swallow,
}
use round_sync.Logic.Calls.{info_round}
use round_sync.Logic.Process.Seen.{contents_of}

module _ ⦃ndn : Ndn⦄ where
  open ndn use {Name, parse}

  -- The trees of a node, those of its log, and what it sent.
  pub record Trees : Type 0 where
    pub session_name : Name
    pub state : State
    pub old_state : State
    pub log : List DiffState
    pub contents : List (List ℕ)

  abbrev pub trees : Logic → Trees
  trees l = record {
    session_name = l.session_name;
    state = l.state;
    old_state = l.old_state;
    log = l.log;
    contents = contents_of l.effects;
  }

module _ ⦃ndn : Ndn⦄ (k : Numbers) where
  open ndn use {Name, parse}

  -- The tree that is read from a block, as a content and as a recovery reply.
  abbrev pub ContentKept : Option Block → Type 0
  ContentKept block =
      (c : DataContent)
      → wire_decode_content default_content block ≡ ok c
      → (d : DiffState) → c.state ≡ some d
      → IsKept k d.leaves

  abbrev pub RecoKept : Option Block → Type 0
  RecoKept block =
      (r : RecoData)
      → wire_decode_reco (make_reco 0 none) block ≡ ok r
      → (d : DiffState) → r.state ≡ some d
      → IsKept k d.leaves

  -- The content of a packet of fewer than 2 ^ 64 bytes, whichever of the two it is read as.
  abbrev pub Speaks : List ℕ → Type 0
  Speaks bytes =
      length bytes < u64_mod
      → (b : Block) → parse bytes ≡ some (b ∷ [])
      → ContentKept (some b) × RecoKept (some b)

  abbrev pub AllSpeak : List (List ℕ) → Type 0
  AllSpeak [] = Unit {0}
  AllSpeak (c ∷ cs) = Speaks c × AllSpeak cs

  -- The entry of a round: its tree, and the round that its cumulative information names.
  pub record EntryKept (d : DiffState) : Type 0 where
    pub kept : IsKept k d.leaves
    pub round_fits : info_round d.cumulative_info < u64_mod

  abbrev pub AllEntries : List DiffState → Type 0
  AllEntries [] = Unit {0}
  AllEntries (d ∷ ds) = EntryKept d × AllEntries ds

  -- A commit that stands for the entry of round `r` where it is shared with the log.
  pub record CommitKept (r : ℕ) (c : Commit) : Type 0 where
    pub entry : EntryKept c.diff
    pub place : c.shared ≡ true → c.diff.round ≡ r

  pub record IsHeld (me : Name) (t : Trees) : Type 0 where
    pub session : t.session_name ≡ me
    pub state : IsKept k t.state.leaves
    pub old_state : IsKept k t.old_state.leaves
    pub log : AllEntries t.log
    pub ordered : IsOrdered t.log
    pub contents : AllSpeak t.contents

module _ ⦃ndn : Ndn⦄ where
  -- How an action ends: with `Q` of its value and the node, or with an exception and `E`.
  abbrev pub Outcome :
      {A : Type 0} → (A → Logic → Type 0) → (Logic → Type 0) → Result A × Logic → Type 0
  Outcome Q E (ok a, l) = Q a l
  Outcome Q E (err e, l) = E l

  -- The action keeps `H`, and what it returns has `R`.
  pub record Keeps {A : Type 0} (H : Logic → Type 0) (m : Action A) (R : A → Type 0) : Type 0 where
    pub at : (l : Logic) → H l → Outcome (λ a l'. R a × H l') H (m l)

  abbrev pub Any : {A : Type 0} → A → Type 0
  Any a = Unit {0}

module _ ⦃ndn : Ndn⦄ (H : Logic → Type 0) where
  Outcome-Any : {A : Type 0} (r : Result A × Logic) → H r.1 → Outcome (λ a l'. Any a × H l') H r
  Outcome-Any (ok a, l) h = (tt, h)
  Outcome-Any (err e, l) h = h

module _ ⦃ndn : Ndn⦄ {H : Logic → Type 0} where
  pub Keeps-bind :
      {A B : Type 0} {R : A → Type 0} {Q : B → Type 0} (m : Action A) (f : A → Action B)
      → Keeps H m R
      → ((a : A) → R a → Keeps H (f a) Q)
      → Keeps H (m >>= f) Q
  Keeps-bind {A} {B} {R} {Q} m f hm hf = record { at = λ l p. go (m l) (hm.at l p) }
    where
      go :
          (r : Result A × Logic)
          → Outcome (λ a l'. R a × H l') H r
          → Outcome (λ b l'. Q b × H l') H (proceed r f)
      go (ok a, l) (q, p) = (hf a q).at l p
      go (err e, l) p = p

  pub Keeps-lift :
      {A B : Type 0} {Q : B → Type 0} (r : Result A) (f : A → Action B)
      → ((a : A) → r ≡ ok a → Keeps H (f a) Q)
      → Keeps H (lift r >>= f) Q
  Keeps-lift (ok a) f hf = hf a refl
  Keeps-lift (err e) f hf = record { at = λ l p. p }

  pub Keeps-modify : (f : Logic → Logic) → ((l : Logic) → H l → H (f l)) → Keeps H (modify f) Any
  Keeps-modify f h = record { at = λ l p. (tt, h l p) }

  pub Keeps-pure : {A : Type 0} {R : A → Type 0} (a : A) → R a → Keeps H (pure a) R
  Keeps-pure a r = record { at = λ l p. (r, p) }

  pub Keeps-raise : {A : Type 0} {R : A → Type 0} (e : Exception) → Keeps H (raise {A = A} e) R
  Keeps-raise e = record { at = λ l p. p }

  pub Keeps-if :
      {A : Type 0} {R : A → Type 0} (b : Bool) (m n : Action A)
      → (b ≡ true → Keeps H m R)
      → (b ≡ false → Keeps H n R)
      → Keeps H (if b then m else n) R
  Keeps-if true m n hm hn = hm refl
  Keeps-if false m n hm hn = hn refl

  -- What an action leaves, whether it returned or threw.
  pub Keeps-after :
      {A : Type 0} {R : A → Type 0} (m : Action A) → Keeps H m R → (l : Logic) → H l → H (m l).1
  Keeps-after {A} {R} m h l p = go (m l) (h.at l p)
    where
      go : (r : Result A × Logic) → Outcome (λ a l'. R a × H l') H r → H r.1
      go (ok a, l) q = q.1
      go (err e, l) q = q

  pub Keeps-catch : (m : Action (Unit {0})) → Keeps H m Any → Keeps H (catch_state_error m) Any
  Keeps-catch m h = record {
    at = λ l p. Outcome-Any H (swallow (m l).0, (m l).1) (Keeps-after m h l p);
  }

  -- An action whose every outcome has the invariant.
  pub Keeps-Any : {A : Type 0} (m : Action A) → ((l : Logic) → H l → H (m l).1) → Keeps H m Any
  Keeps-Any m h = record { at = λ l p. Outcome-Any H (m l) (h l p) }
