-- ===== src/Logic/Calls.antt =====
-- logic.cpp: scheduling, and the methods that send: sendDataInterest, sendSyncInterest,
-- sendRecoInterest, sendData, sendCumulativeOnly and sendRecoData.
use round_sync.Base.{
  ℕ, ◌+◌, ◌==◌, ◌&&◌, not, true, false, Option, none, some, List, [], ◌∷◌, if◌then◌else◌, sub64,
  logic_error, undefined,
}
use round_sync.Ndn.{Ndn}
use round_sync.State.{plus}
use round_sync.DiffState.{DiffState, empty_diff_state, append_exclude}
use round_sync.DataContent.{DataContent, make_content, well_formed}
use round_sync.DataContent
use round_sync.RecoData.{make_reco}
use round_sync.RecoData
use round_sync.Log
use round_sync.Logic.{
  Logic, Delay, random, Purpose, for_data, for_sync, for_reco, Event, data_interest, Interest,
  Packet, Effect, scheduled, cancelled, expressed, removed_pending, sent, empty_digest,
}
use round_sync.Logic.Exec.{Action, pure, raise, get, modify, ◌>>=◌, ◌>>◌}

module _ ⦃ndn : Ndn⦄ where
  open ndn use {
    Name, Component, name_eq, empty_name, append, append_name, from_number, from_buffer,
    data_component, sync_component, reco_component, implicit_digest,
  }

  abbrev pub emit : Effect → Logic → Logic
  emit e l = record l { effects = e ∷ l.effects }

  unfoldable pub schedule : Delay → Event → Logic → Logic
  schedule d e l = record l {
    next_id = l.next_id + 1;
    effects = scheduled l.next_id d e ∷ l.effects;
  }

  unfoldable pub cancel : Option ℕ → Logic → Logic
  cancel none l = l
  cancel (some id) l = record l { effects = cancelled id ∷ l.effects }

  unfoldable pub express : Interest → Purpose → Logic → Logic
  express i p l = record l {
    next_id = l.next_id + 1;
    effects = expressed l.next_id i p ∷ l.effects;
  }

  abbrev pub exclude_of : Option DiffState → List Component
  exclude_of none = []
  exclude_of (some d) = d.exclude_filter

  unfoldable pub data_interest_name : Logic → ℕ → Name
  data_interest_name l r =
      append (append (append_name empty_name l.sync_prefix) data_component) (from_number r)

  -- The periodic sending of the interest of the current round. The new event is scheduled first.
  unfoldable pub reexpress : ℕ → Logic → Logic
  reexpress r l =
      let l' = schedule (random l.data_interest_lifetime 100 500) (data_interest r 1) l in
      record (cancel l.reexpressing_data_interest_id l') {
        reexpressing_data_interest_id = some l.next_id;
      }

  unfoldable pub send_data_interest : ℕ → ℕ → Logic → Logic
  send_data_interest r retries l =
      if l.partitioned
      then l
      else let name = data_interest_name l r in
        let interest : Interest = record {
          name = name;
          must_be_fresh = false;
          lifetime = l.data_interest_lifetime;
          exclude = exclude_of (Log.find r l.log);
        } in
        let l' = express interest (for_data retries) l in
        if r == l.current_round
        then reexpress r (record l' {
          outstanding_data_interest_name = name;
          outstanding_data_interest_id = l.next_id;
        })
        else l'

  -- The round digest of a round, the empty one where the log has no entry.
  unfoldable pub digest_to_send : Option DiffState → Action (List ℕ)
  digest_to_send none l = pure empty_digest l
  digest_to_send (some d) l = elim d.round_digest [ none ↦ raise undefined l | some rd ↦ pure rd l ]

  unfoldable pub sync_interest_name : Logic → ℕ → List ℕ → Name
  sync_interest_name l r digest =
      append (append (append (append_name empty_name l.sync_prefix) sync_component) (from_number r))
        (from_buffer digest)

  unfoldable pub send_sync_interest : ℕ → Action (Unit {0})
  send_sync_interest r = do
    l ← get
    if l.partitioned then pure tt else do
      digest ← digest_to_send (Log.find r l.log)
      modify (
          express
            (record {
              name = sync_interest_name l r digest;
              must_be_fresh = true;
              lifetime = l.sync_interest_lifetime;
              exclude = [];
            })
            for_sync)

  unfoldable pub send_reco_interest : Name → Logic → Logic
  send_reco_interest user_prefix l =
      if l.partitioned
      then l
      else express
          (record {
            name = append (append_name empty_name user_prefix) reco_component;
            must_be_fresh = true;
            lifetime = l.sync_interest_lifetime;
            exclude = [];
          })
          for_reco l

  abbrev pub packet_of : Logic → Name → List ℕ → Packet
  packet_of l name content = record {
    name = name;
    content = content;
    freshness = l.data_freshness;
    identity = l.default_signing_id;
  }

  -- `getFullName().get(-1)` of a signed packet.
  abbrev pub digest_component : Packet → Component
  digest_component p = implicit_digest p.name p.content p.freshness p.identity

  -- The check of whether a packet satisfies the node's own outstanding interest.
  unfoldable pub satisfy : Name → Logic → Logic
  satisfy name l =
      if name_eq l.outstanding_data_interest_name name && not (l.outstanding_data_interest_id == 0)
      then record l {
        outstanding_data_interest_id = 0;
        effects = removed_pending l.outstanding_data_interest_id ∷ l.effects;
      }
      else l

  abbrev pub info_round : Option (ℕ × Option (List ℕ)) → ℕ
  info_round none = 0
  info_round (some (r, digest)) = r

  abbrev pub info_digest : Option (ℕ × Option (List ℕ)) → Option (List ℕ)
  info_digest none = none
  info_digest (some (r, digest)) = digest

  -- Returns the DiffState with the new packet in its exclude filter.
  unfoldable pub send_data : Name → Name → DiffState → Action DiffState
  send_data node_prefix name d = do
    l ← get
    let c =
        make_content l.session_name (info_round d.cumulative_info) (info_digest d.cumulative_info)
          (some d)
    if not (well_formed c) then raise logic_error else do
      let p = packet_of l name (DataContent.encode c).1
      modify (emit (sent p))
      modify (satisfy name)
      pure (append_exclude (digest_component p) d)

  abbrev pub exclude_in_log : ℕ → Component → Logic → Logic
  exclude_in_log r c l = elim (Log.find r l.log) [
    | none ↦ l
    | some d ↦ record l { log = Log.put r (append_exclude c d) l.log }
  ]

  unfoldable pub send_cumulative_only : Name → ℕ → Option (List ℕ) → Action (Unit {0})
  send_cumulative_only name r digest = do
    l ← get
    let c = make_content l.session_name r digest none
    if not (well_formed c) then raise logic_error else do
      let p = packet_of l name (DataContent.encode c).1
      modify (exclude_in_log r (digest_component p))
      modify (emit (sent p))
      modify (satisfy name)

  -- The state of the last round, in a DiffState of its own.
  unfoldable pub send_reco_data : Name → Name → Logic → Logic
  send_reco_data node_prefix name l =
      let d = record empty_diff_state { state = plus empty_diff_state.state l.state } in
      let r = make_reco (sub64 l.current_round 1) (some d) in
      emit (sent (packet_of l name (RecoData.encode r).1)) l
