-- ===== src/Logic/Reach/Events.antt =====
-- logic.cpp: each callback keeps the rounds in order and loses no sequence number, and so do all of
-- them one after another.
use round_sync.Base.{
  ◌≡◌, refl, sym, subst, Bool, Option, none, some, if◌then◌else◌, ◌&&◌, ◌||◌, not, ok,
}
use round_sync.Ndn.{Ndn, Block}
use round_sync.RecoData.{make_reco, wire_decode_reco}
use round_sync.Logic.{
  Logic, Purpose, for_data, for_sync, for_reco, Event, data_interest, sync_interest, stable_state,
  cumulative_only_event, reco_interest, recovery_check, partition_start, partition_stop,
}
use round_sync.Logic.Exec.{Action, pure, lift, ◌>>=◌, modify, component_at, number_at}
use round_sync.Logic.Publish.{process_reco_interest}
use round_sync.Logic.Process.Seen.{seen}
use round_sync.Logic.Timeouts.{on_data_interest_timeout}
use round_sync.Logic.Entry.{
  dispatch_interest, on_data_and_sync_interest, on_reco_interest, content_block, on_data_validated,
  on_reco_data_validated, on_data, on_reco_data, on_timeout, run_event,
}
use round_sync.Logic.Reach.{
  ready, Before, IsSound, IsReady, Ensures, Ensures-lift, Ensures-pure, Ensures-same, Ensures-if,
}
use round_sync.Logic.Reach.Sends.{
  seen-send_data_interest, seen-send_sync_interest, seen-send_reco_interest, seen-send_reco_data,
  seen-check_recovery_digest, seen-on_reco_interest_timeout, seen-timeout_steps,
}
use round_sync.Logic.Reach.Handlers.{
  process_data-Ensures, process_reco_data-Ensures, set_stable_state-Ensures,
}
use round_sync.Logic.Reach.Replies.{
  update_seq_no-Ensures, process_data_interest-Ensures, process_sync_interest-Ensures,
  produce_cumulative_only-Ensures,
}
use round_sync.Logic.Reach.Callbacks.{
  Callback, publication, incoming_interest, incoming_reco_interest, incoming_data,
  incoming_reco_data, timeout, scheduled_event, run, InRounds, Reaches, here, after,
}

module _ ⦃ndn : Ndn⦄ where
  pub content_block-some :
      (content : Option Block) (k : Block) → content_block content ≡ ok k → content ≡ some k
  unfolding content_block
  content_block-some none k h = cc
  content_block-some (some a) k h = cc

module _ ⦃ndn : Ndn⦄ (b : Before) where
  open ndn use {Name, component_eq, data_component, sync_component, reco_component}

  weaken :
      {A : Type 0} (m : Action A)
      → Ensures (IsSound b) m (IsSound b)
      → Ensures (IsReady b) m (IsSound b)
  weaken m h = record { at = λ l p. h.at l (p.0) }

  same :
      {A : Type 0} (m : Action A)
      → ((l : Logic) → seen (m l).1 ≡ seen l)
      → Ensures (IsReady b) m (IsSound b)
  same m h = weaken m (Ensures-same m h)

  dispatch-Ensures :
      (name : Name)
      → InRounds (incoming_interest name)
      → Ensures (IsReady b) (dispatch_interest name) (IsSound b)
  unfolding dispatch_interest
  dispatch-Ensures name (h, h') =
      Ensures-lift (component_at name 2) _
        (λ c _.
          Ensures-if (component_eq data_component c) _ _
            (λ _. process_data_interest-Ensures b name h)
            (λ _.
              Ensures-lift (component_at name 3) _
                (λ c' _.
                  Ensures-if (component_eq sync_component c') _ _
                    (λ _. process_sync_interest-Ensures b name h') (λ _. Ensures-pure tt ready))
                ready))
        ready

  interest-Ensures :
      (name : Name)
      → InRounds (incoming_interest name)
      → Ensures (IsReady b) (on_data_and_sync_interest name) (IsSound b)
  unfolding on_data_and_sync_interest
  interest-Ensures name h = record {
    at = λ l.
        (Ensures-if l.partitioned (pure tt) (dispatch_interest name) (λ _. Ensures-pure tt ready)
            (λ _. dispatch-Ensures name h)).at
          l;
  }

  answer-Ensures :
      (name : Name) → Ensures (IsReady b) (modify (process_reco_interest name)) (IsSound b)
  unfolding process_reco_interest
  answer-Ensures name = same _ (λ l. seen-send_reco_data l.default_user_prefix name l)

  reco_interest-Ensures : (name : Name) → Ensures (IsReady b) (on_reco_interest name) (IsSound b)
  unfolding on_reco_interest
  reco_interest-Ensures name = record {
    at = λ l.
        (Ensures-if l.partitioned (pure tt)
            (lift (component_at name 1) >>= λ c.
              if component_eq reco_component c
              then modify (process_reco_interest name)
              else pure tt)
            (λ _. Ensures-pure tt ready)
            (λ _.
              Ensures-lift (component_at name 1) _
                (λ c _.
                  Ensures-if (component_eq reco_component c) _ _ (λ _. answer-Ensures name)
                    (λ _. Ensures-pure tt ready))
                ready)).at
          l;
  }

  event-Ensures : (e : Event) → Ensures (IsReady b) (run_event e) (IsSound b)
  unfolding run_event
  event-Ensures (data_interest r retries) = same _ (seen-send_data_interest r retries)
  event-Ensures (sync_interest r) = same _ (seen-send_sync_interest r)
  event-Ensures stable_state = weaken _ (set_stable_state-Ensures b)
  event-Ensures (cumulative_only_event r digest) = produce_cumulative_only-Ensures b r digest
  event-Ensures (reco_interest prefix) = same _ (seen-send_reco_interest prefix)
  event-Ensures (recovery_check prefix r digest) =
      same _ (seen-check_recovery_digest prefix r digest)
  event-Ensures partition_start = same _ (λ l. refl)
  event-Ensures partition_stop = same _ (λ l. refl)

  timeout-Ensures :
      (purpose : Purpose) (name : Name) → Ensures (IsReady b) (on_timeout purpose name) (IsSound b)
  unfolding on_timeout on_data_interest_timeout
  timeout-Ensures (for_data retries) name =
      Ensures-lift (number_at name 1) _ (λ r _. same _ (seen-timeout_steps r retries)) ready
  timeout-Ensures for_sync name = Ensures-pure tt ready
  timeout-Ensures for_reco name = same _ (seen-on_reco_interest_timeout name)

  validated-Ensures :
      (name : Name) (content : Option Block)
      → Ensures (IsReady b) (on_data_validated name content) (IsSound b)
  unfolding on_data_validated
  validated-Ensures name content =
      Ensures-lift (component_at name 3) _
        (λ c _.
          Ensures-if (not (component_eq data_component c)) _ _ (λ _. Ensures-pure tt ready)
            (λ _.
              Ensures-lift (content_block content) _ (λ k _. process_data-Ensures b name (some k))
                ready))
        ready

  data-Ensures :
      (valid : Bool) (name : Name) (content : Option Block)
      → Ensures (IsReady b) (on_data valid name content) (IsSound b)
  unfolding on_data
  data-Ensures valid name content = record {
    at = λ l.
        (Ensures-if (l.partitioned || (l.has_validator && not valid)) (pure tt)
            (on_data_validated name content) (λ _. Ensures-pure tt ready)
            (λ _. validated-Ensures name content)).at
          l;
  }

  reco_validated-Ensures :
      (valid : Bool) (name : Name) (content : Option Block)
      → InRounds (incoming_reco_data valid name content)
      → Ensures (IsReady b) (on_reco_data_validated name content) (IsSound b)
  unfolding on_reco_data_validated
  reco_validated-Ensures valid name content h =
      Ensures-lift (component_at name 2) _
        (λ c _.
          Ensures-if (not (component_eq reco_component c)) _ _ (λ _. Ensures-pure tt ready)
            (λ _.
              Ensures-lift (content_block content) _
                (λ k e. weaken _ (
                  process_reco_data-Ensures b name (some k) (λ reco d. h reco (
                    subst (λ o. wire_decode_reco (make_reco 0 none) o ≡ ok reco)
                      (sym (content_block-some content k e)) d))))
                ready))
        ready

  reco_data-Ensures :
      (valid : Bool) (name : Name) (content : Option Block)
      → InRounds (incoming_reco_data valid name content)
      → Ensures (IsReady b) (on_reco_data valid name content) (IsSound b)
  unfolding on_reco_data
  reco_data-Ensures valid name content h = record {
    at = λ l.
        (Ensures-if (l.partitioned || (l.has_validator && not valid)) (pure tt)
            (on_reco_data_validated name content) (λ _. Ensures-pure tt ready)
            (λ _. reco_validated-Ensures valid name content h)).at
          l;
  }

  pub run-Ensures : (c : Callback) → InRounds c → Ensures (IsReady b) (run c) (IsSound b)
  unfolding run
  run-Ensures (publication q prefix) h = update_seq_no-Ensures b q prefix
  run-Ensures (incoming_interest name) h = interest-Ensures name h
  run-Ensures (incoming_reco_interest name) h = reco_interest-Ensures name
  run-Ensures (incoming_data valid name content) h = data-Ensures valid name content
  run-Ensures (incoming_reco_data valid name content) h = reco_data-Ensures valid name content h
  run-Ensures (timeout purpose name) h = timeout-Ensures purpose name
  run-Ensures (scheduled_event e) h = event-Ensures e

  pub path-IsSound : (l k : Logic) → Reaches l k → IsSound b (seen l) → IsSound b (seen k)
  path-IsSound l k here p = p
  path-IsSound l k' (after {k} path w c h) p = (run-Ensures c h).at k (path-IsSound l k path p, w)
