-- ===== src/Logic/Held/Path.antt =====
-- logic.cpp: every callback keeps what a node holds, for packets and publications with numbers that
-- may be known.
use round_sync.Base.{
  ℕ, ◌<◌, ◌≡◌, refl, sym, subst, Bool, true, false, Option, some, if◌then◌else◌, ◌&&◌, ◌||◌, not,
  arith, u64_mod, Result, ok, err,
}
use round_sync.Ndn.{Ndn, Block}
use round_sync.State.Known.{Numbers, empty-IsKept}
use round_sync.Logic.{
  Logic, Config, Purpose, for_data, for_sync, for_reco, Event, data_interest, sync_interest,
  stable_state, cumulative_only_event, reco_interest, recovery_check, partition_start,
  partition_stop,
}
use round_sync.Logic.Exec.{Action, pure, lift, ◌>>=◌, modify, component_at, number_at}
use round_sync.Logic.Calls.{schedule}
use round_sync.Logic.Publish.{process_reco_interest}
use round_sync.Logic.Process.Seen.{seen, contents_of}
use round_sync.Logic.Timeouts.{on_data_interest_timeout}
use round_sync.Logic.Entry.{
  initial, make_logic, inject_partition, dispatch_interest, on_data_and_sync_interest,
  on_reco_interest, content_block, on_data_validated, on_reco_data_validated, on_data, on_reco_data,
  on_timeout, run_event,
}
use round_sync.Logic.Reach.{Before, IsReady}
use round_sync.Logic.Reach.Callbacks.{
  Callback, publication, incoming_interest, incoming_reco_interest, incoming_data,
  incoming_reco_data, timeout, scheduled_event, run, InRounds,
}
use round_sync.Logic.Reach.Events.{content_block-some}
use round_sync.Logic.Held.{
  trees, IsHeld, ContentKept, RecoKept, Keeps, Any, Keeps-lift, Keeps-pure, Keeps-if, Keeps-Any,
  Keeps-after,
}
use round_sync.Logic.Held.Same.{
  trees-send_data_interest, trees-send_sync_interest, trees-send_reco_interest,
  trees-check_recovery_digest, trees-on_reco_interest_timeout, trees-timeout_steps,
}
use round_sync.Logic.Held.Stable.{set_stable_state-Keeps}
use round_sync.Logic.Held.Sends.{send_reco_data-IsHeld}
use round_sync.Logic.Held.Receive.{process_data-Keeps, process_reco_data-Keeps}
use round_sync.Logic.Held.Replies.{
  update_seq_no-IsHeld, process_data_interest-Keeps, process_sync_interest-Keeps,
  produce_cumulative_only-Keeps,
}

module _ ⦃ndn : Ndn⦄ (k : Numbers) (me : ndn.Name) where
  open ndn use {Name, component_eq, data_component, sync_component, reco_component}
  open k use {Known}

  -- What comes from outside has numbers that may be known.
  abbrev pub Genuine : Callback → Type 0
  Genuine (publication q prefix) = Known me q
  Genuine (incoming_interest name) = Unit {0}
  Genuine (incoming_reco_interest name) = Unit {0}
  Genuine (incoming_data valid name content) = ContentKept k content
  Genuine (incoming_reco_data valid name content) = RecoKept k content
  Genuine (timeout purpose name) = Unit {0}
  Genuine (scheduled_event e) = Unit {0}

  abbrev Held : Logic → Type 0
  Held l = IsHeld k me (trees l)

  same : {A : Type 0} (m : Action A) → ((l : Logic) → trees (m l).1 ≡ trees l) → Keeps Held m Any
  same m h = Keeps-Any m (λ l p. subst (IsHeld k me) (sym (h l)) p)

  event-Keeps : (e : Event) → InRounds (scheduled_event e) → Keeps Held (run_event e) Any
  unfolding run_event
  event-Keeps (data_interest r retries) g = same _ (trees-send_data_interest r retries)
  event-Keeps (sync_interest r) g = same _ (trees-send_sync_interest r)
  event-Keeps stable_state g = set_stable_state-Keeps k me
  event-Keeps (cumulative_only_event r digest) g = produce_cumulative_only-Keeps k me r digest g
  event-Keeps (reco_interest prefix) g = same _ (trees-send_reco_interest prefix)
  event-Keeps (recovery_check prefix r digest) g =
      same _ (trees-check_recovery_digest prefix r digest)
  event-Keeps partition_start g = same _ (λ l. refl)
  event-Keeps partition_stop g = same _ (λ l. refl)

  timeout-Keeps : (purpose : Purpose) (name : Name) → Keeps Held (on_timeout purpose name) Any
  unfolding on_timeout on_data_interest_timeout
  timeout-Keeps (for_data retries) name =
      Keeps-lift (number_at name 1) _ (λ r _. same _ (trees-timeout_steps r retries))
  timeout-Keeps for_sync name = Keeps-pure tt tt
  timeout-Keeps for_reco name = same _ (trees-on_reco_interest_timeout name)

  dispatch-Keeps : (name : Name) → Keeps Held (dispatch_interest name) Any
  unfolding dispatch_interest
  dispatch-Keeps name = Keeps-lift (component_at name 2) _ (λ c _.
      Keeps-if (component_eq data_component c) _ _ (λ _. process_data_interest-Keeps k me name)
        (λ _. Keeps-lift (component_at name 3) _ (λ c' _.
          Keeps-if (component_eq sync_component c') _ _ (λ _. process_sync_interest-Keeps k me name)
            (λ _. Keeps-pure tt tt))))

  interest-Keeps : (name : Name) → Keeps Held (on_data_and_sync_interest name) Any
  unfolding on_data_and_sync_interest
  interest-Keeps name = record {
    at = λ l.
        (Keeps-if {H = Held} {R = Any} l.partitioned (pure tt) (dispatch_interest name)
            (λ _. Keeps-pure tt tt) (λ _. dispatch-Keeps name)).at
          l;
  }

  if-after :
      (c : Bool) (m n : Action (Unit {0})) (l : Logic)
      → Held (m l).1
      → Held (n l).1
      → Held ((if c then m else n) l).1
  if-after true m n l p q = p
  if-after false m n l p q = q

  lift-after :
      {A : Type 0} (r : Result A) (f : A → Action (Unit {0})) (l : Logic)
      → Held l
      → ((a : A) → Held (f a l).1)
      → Held ((lift r >>= f) l).1
  lift-after (ok a) f l p h = h a
  lift-after (err e) f l p h = p

  -- A reply to a recovery interest names a round of 64 bits.
  reco_interest-IsHeld :
      (name : Name) (l : Logic)
      → l.current_round < u64_mod
      → Held l
      → Held (on_reco_interest name l).1
  unfolding on_reco_interest process_reco_interest
  reco_interest-IsHeld name l w p =
      let reply = λ (c : ndn.Component).
        if component_eq reco_component c then modify (process_reco_interest name) else pure tt in
      if-after l.partitioned (pure tt) (lift (component_at name 1) >>= reply) l p (
        lift-after (component_at name 1) reply l p (λ c.
          if-after (component_eq reco_component c) (modify (process_reco_interest name)) (pure tt) l
            (send_reco_data-IsHeld k me l.default_user_prefix name l w p) p))

  validated-Keeps :
      (name : Name) (content : Option Block)
      → ContentKept k content
      → Keeps Held (on_data_validated name content) Any
  unfolding on_data_validated
  validated-Keeps name content g = Keeps-lift (component_at name 3) _ (λ c _.
      Keeps-if (not (component_eq data_component c)) _ _ (λ _. Keeps-pure tt tt)
        (λ _. Keeps-lift (content_block content) _ (λ x e.
          process_data-Keeps k me name (some x)
            (subst (ContentKept k) (content_block-some content x e) g))))

  data-Keeps :
      (valid : Bool) (name : Name) (content : Option Block)
      → ContentKept k content
      → Keeps Held (on_data valid name content) Any
  unfolding on_data
  data-Keeps valid name content g = record {
    at = λ l.
        (Keeps-if {H = Held} {R = Any} (l.partitioned || (l.has_validator && not valid)) (pure tt)
            (on_data_validated name content) (λ _. Keeps-pure tt tt)
            (λ _. validated-Keeps name content g)).at
          l;
  }

  reco_validated-Keeps :
      (name : Name) (content : Option Block)
      → RecoKept k content
      → Keeps Held (on_reco_data_validated name content) Any
  unfolding on_reco_data_validated
  reco_validated-Keeps name content g = Keeps-lift (component_at name 2) _ (λ c _.
      Keeps-if (not (component_eq reco_component c)) _ _ (λ _. Keeps-pure tt tt)
        (λ _. Keeps-lift (content_block content) _ (λ x e.
          process_reco_data-Keeps k me name (some x)
            (subst (RecoKept k) (content_block-some content x e) g))))

  reco_data-Keeps :
      (valid : Bool) (name : Name) (content : Option Block)
      → RecoKept k content
      → Keeps Held (on_reco_data valid name content) Any
  unfolding on_reco_data
  reco_data-Keeps valid name content g = record {
    at = λ l.
        (Keeps-if {H = Held} {R = Any} (l.partitioned || (l.has_validator && not valid)) (pure tt)
            (on_reco_data_validated name content) (λ _. Keeps-pure tt tt)
            (λ _. reco_validated-Keeps name content g)).at
          l;
  }

  pub run-IsHeld :
      (b : Before) (c : Callback) (l : Logic)
      → Genuine c
      → InRounds c
      → IsReady b (seen l)
      → Held l
      → Held (run c l).1
  unfolding run
  run-IsHeld b (publication q prefix) l g r (s, w) p =
      let fits : l.stable_round < u64_mod = ground (arith, s.stable, s.candidate, s.bounded) in
      update_seq_no-IsHeld k me q prefix l fits g p
  run-IsHeld b (incoming_interest name) l g r s p = Keeps-after _ (interest-Keeps name) l p
  run-IsHeld b (incoming_reco_interest name) l g r s p = reco_interest-IsHeld name l (s.0.bounded) p
  run-IsHeld b (incoming_data valid name content) l g r s p =
      Keeps-after _ (data-Keeps valid name content g) l p
  run-IsHeld b (incoming_reco_data valid name content) l g r s p =
      Keeps-after _ (reco_data-Keeps valid name content g) l p
  run-IsHeld b (timeout purpose name) l g r s p = Keeps-after _ (timeout-Keeps purpose name) l p
  run-IsHeld b (scheduled_event e) l g r s p = Keeps-after _ (event-Keeps e r) l p

  trees-make_logic :
      (config : Config) (now : ℕ) → trees (make_logic config now) ≡ trees (initial config now)
  unfolding make_logic inject_partition schedule contents_of
  trees-make_logic config now = ground arith

  initial-IsHeld :
      (config : Config) (now : ℕ)
      → (initial config now).session_name ≡ me
      → Held (initial config now)
  unfolding initial contents_of
  initial-IsHeld config now h = record {
    session = h;
    state = empty-IsKept k;
    old_state = empty-IsKept k;
    log = tt;
    ordered = tt;
    contents = tt;
  }

  -- The node that the constructor makes.
  pub make_logic-IsHeld :
      (config : Config) (now : ℕ)
      → (initial config now).session_name ≡ me
      → Held (make_logic config now)
  make_logic-IsHeld config now h =
      subst (IsHeld k me) (sym (trees-make_logic config now)) (initial-IsHeld config now h)
