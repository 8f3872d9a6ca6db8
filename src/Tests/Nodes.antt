-- ===== src/Tests/Nodes.antt =====
-- Examples of the theorems on nodes and sockets.
use round_sync.Base.{
  true, All, ℕ, ◌-◌, ◌≡◌, ◌≢◌, refl, ◌⊎◌, false, none, some, List, [], ◌∷◌, ◌++◌, if◌then◌else◌,
  arith, u64_mod, ok, err, data_content_error,
}
use round_sync.Ndn.{Block}
use round_sync.Tlv.{tlv, recovery_data, state_type, elements}
use round_sync.Leaf.{make_leaf}
use round_sync.State.{get_digest, update, insert, plus, merge, find, update_found}
use round_sync.State.Lookup.{seq_in, join}
use round_sync.State.Digest.{Collision}
use round_sync.State.Wire.{
  leaves_wire, wire_decode, decode_elements, decode_fields, decode_seq, encode_leaf,
  wire_encode_block,
}
use round_sync.DiffState.{DiffState, empty_diff_state}
use round_sync.DataContent.{
  DataContent, make_content, default_content, decode_parts, decode_state, wire_decode_content,
  wire_encode_content, encode_state, encode_cumulative, kind_of,
}
use round_sync.RecoData.{
  RecoData, make_reco, wire_encode_reco, wire_decode_reco, decode_reco_round, decode_reco_state,
}
use round_sync.Logic.{Logic, data_interest, sync_interest, stable_state}
use round_sync.Logic.Calls.{schedule, send_data, send_reco_data, sync_interest_name}
use round_sync.Logic.Rounds.{move_to_new_current_round}
use round_sync.Logic.Rounds.Move.{events_of, interests, move_to_new_current_round-asks}
use round_sync.Logic.Stable.{set_stable_state, calculate_stable_state_and_cumulative_digests}
use round_sync.Logic.Stable.Next.{set_stable_state-advances}
use round_sync.Logic.Stable.Ranges.{latest_where, within}
use round_sync.Logic.Stable.Digests.{calculate-combines}
use round_sync.Logic.Process.{absorb, process_data, process_reco_data}
use round_sync.Logic.Process.Absorb.{missing, absorb-missing}
use round_sync.Logic.Process.Seen.{seen, contents_of}
use round_sync.Logic.Process.Data.{absorbed, process_data-absorbs, process_data-throws}
use round_sync.Logic.Process.Sent.{process_data-send_data}
use round_sync.Logic.Process.Reco.{
  IsRecovered, process_reco_data-restarts, process_reco_data-send_reco_data,
}
use round_sync.Logic.Publish.{update_seq_no, process_sync_interest}
use round_sync.Logic.Publish.Sync.{process_sync_interest-agrees}
use round_sync.Logic.Publish.Own.{Committed, update_seq_no-publishes, process_sync_interest-moves}
use round_sync.Socket.{Socket, publish_data, data_name}
use round_sync.Socket.Publish.{publish_data-next}
use round_sync.Logic.Reach.{IsSound}
use round_sync.Logic.Reach.Callbacks.{
  run, publication, incoming_data, scheduled_event, here, after, before,
}
use round_sync.Logic.Held.Node.{InOrder, Reaches-InOrder}
use round_sync.Logic.Reach.Node.{Reaches-IsSound}
use round_sync.Log
use round_sync.Log.{IsOrdered}
use round_sync.Logic.Entry.{initial, make_logic, inject_partition}
use round_sync.Tests.Demo.{demo, Name}
use round_sync.Tests.Data.{
  config, one, two, one_leaf, two_leaves, one-IsValid, two-IsValid, empty-IsValid, one-InRange,
  two-InRange, entry, rounds, started, busy,
}

move_to_new_current_round-asks_example :
    ((move_to_new_current_round 7 busy).current_round ≡ 7)
    × (events_of (move_to_new_current_round 7 busy).effects
        ≡ data_interest 7 1 ∷ (interests 4 3 ++ []))
    × ((move_to_new_current_round 7 busy).recovery_desired ≡ false)
unfolding events_of initial
move_to_new_current_round-asks_example =
    move_to_new_current_round-asks 7 busy (omega arith) (omega arith)

set_stable_state-advances_example :
    let (result, l') = set_stable_state busy in
    (result ≡ ok tt)
    × (l'.stable_round ≡ 3)
    × (l'.stabilizing_round ≡ 3)
    × (l'.current_round ≡ 4)
    × (events_of l'.effects ≡ stable_state ∷ [])
unfolding events_of initial
set_stable_state-advances_example =
    set_stable_state-advances busy (omega arith) (omega arith) (λ a b. absurd (b refl))

calculate-combines_example :
    let l' = calculate_stable_state_and_cumulative_digests 1 3 busy in
    ((n : Name)
      → seq_in l'.old_state.leaves n ≡ join (seq_in [] n) (latest_where (within 1 3) n rounds))
    × (d : DiffState) × (Log.find 3 l'.log ≡ some d)
    × (d.cumulative_digest ≡ some (get_digest l'.old_state))
unfolding initial
calculate-combines_example =
    calculate-combines 1 3 busy (two-IsValid, (one-IsValid, tt)) ((omega arith, tt), (tt, tt))
      (omega arith)

absorb-missing_example :
    (absorb 4 one_leaf (record { diff = entry 4 one; shared = false }) busy).0
    ≡ missing two_leaves one_leaf
unfolding initial
absorb-missing_example =
    absorb-missing 4 one_leaf (record { diff = entry 4 one; shared = false }) busy
      one-IsValid.sorted

process_sync_interest-agrees_example :
    ((two_leaves ≡ one_leaf)
      × (process_sync_interest (sync_interest_name started 3 (get_digest two)) busy
          ≡ (ok tt, busy)))
    ⊎ ((two_leaves ≢ one_leaf)
        × ((process_sync_interest (sync_interest_name started 3 (get_digest two)) busy).0 ≡ ok tt)
        × (events_of
              (process_sync_interest (sync_interest_name started 3 (get_digest two)) busy).1.effects
            ≡ sync_interest 3 ∷ data_interest 3 1 ∷ events_of busy.effects))
    ⊎ Collision
unfolding initial
process_sync_interest-agrees_example =
    process_sync_interest-agrees started busy 3 two (entry 3 one) (omega arith) (omega arith)
      (omega arith) (unfold Log.find in refl) refl two-IsValid one-IsValid two-InRange one-InRange

process_sync_interest-moves_example :
    ((process_sync_interest (sync_interest_name started (u64_mod - 1) []) busy).0 ≡ ok tt)
    × (seen (process_sync_interest (sync_interest_name started (u64_mod - 1) []) busy).1
        ≡ record (seen busy) { current_round = 0 })
unfolding initial
process_sync_interest-moves_example =
    process_sync_interest-moves started busy (u64_mod - 1) [] (omega arith) (omega arith)

update_seq_no-publishes_example :
    let (result, l') = update_seq_no 1 [] started in
    (result ≡ ok tt)
    × (l'.seq_no ≡ 1)
    × ((n : Name)
        → seq_in l'.state.leaves n
          ≡ (if demo.name_eq started.session_name n then some 1 else seq_in [] n))
    × (l'.current_round ≡ 2)
    × Committed started.session_name 1 (Log.find 1 []) [] l'.log 1
unfolding seq_in find initial
update_seq_no-publishes_example =
    update_seq_no-publishes 1 [] started (omega arith) (omega arith) refl refl (omega arith)

-- A packet of round 4 with Alice's third number, and what it is decoded to.
abbrev state_bytes : List ℕ
state_bytes = leaves_wire one_leaf

abbrev data_block : Block
data_block = record { type = 128; value = tlv state_type state_bytes }

abbrev decoded : DataContent
decoded = record {
  user_prefix = [];
  round_no = 0;
  cumulative_digest = none;
  state = some (record empty_diff_state { state = one });
  data_type = some 128;
  wire = some (tlv 128 (tlv state_type state_bytes));
}

-- The full name of a data packet: its round, a component and its digest.
abbrev data_packet : Name
data_packet = (6 ∷ []) ∷ (0 ∷ 4 ∷ []) ∷ (2 ∷ []) ∷ []

data_block-decoded : wire_decode_content default_content (some data_block) ≡ ok decoded
unfolding wire_decode_content default_content make_content decode_parts decode_state wire_decode
    decode_elements decode_fields decode_seq elements make_leaf update update_found find insert
data_block-decoded = refl

process_data-absorbs_example :
    ((process_data data_packet (some data_block) busy).0 ≡ ok tt)
    × (seen (process_data data_packet (some data_block) busy).1 ≡ absorbed 4 one_leaf busy)
unfolding initial
process_data-absorbs_example =
    process_data-absorbs data_packet data_block busy refl refl (omega arith) data_block-decoded refl
      refl one-IsValid.sorted

process_data-throws_example :
    ((process_data data_packet (some (record { type = 5; value = [] })) busy).0
      ≡ err data_content_error)
    × (seen (process_data data_packet (some (record { type = 5; value = [] })) busy).1 ≡ seen busy)
unfolding initial
process_data-throws_example =
    process_data-throws data_packet (record { type = 5; value = [] }) busy refl refl (omega arith)
      (λ (e : ◌≡◌ {A = ℕ} 5 128). omega (arith, e)) (λ (e : ◌≡◌ {A = ℕ} 5 129). omega (arith, e))
      (λ (e : ◌≡◌ {A = ℕ} 5 130). omega (arith, e))

process_data-send_data_example :
    (k : Block) × (contents_of (send_data [] data_packet (entry 4 one) started).1.effects
      ≡ tlv k.type k.value ∷ contents_of started.effects)
    × ((process_data data_packet (some k) busy).0 ≡ ok tt)
    × (seen (process_data data_packet (some k) busy).1 ≡ absorbed 4 one_leaf busy)
unfolding initial make_content wire_encode_content encode_state encode_cumulative kind_of
    wire_encode_block encode_leaf make_leaf
process_data-send_data_example =
    process_data-send_data [] data_packet data_packet (entry 4 one) started busy refl one-IsValid
      one-InRange (omega arith) refl refl (omega arith)

-- A recovery reply of round 6, and what it is decoded to.
abbrev reco_block : Block
reco_block = record { type = recovery_data; value = 133 ∷ 1 ∷ 6 ∷ tlv state_type state_bytes }

abbrev decoded_reco : RecoData
decoded_reco = record {
  round_no = 6;
  state = some (record empty_diff_state { state = one });
  data_type = some recovery_data;
  wire = some (tlv recovery_data (133 ∷ 1 ∷ 6 ∷ tlv state_type state_bytes));
}

reco_block-decoded : wire_decode_reco (make_reco 0 none) (some reco_block) ≡ ok decoded_reco
unfolding wire_decode_reco make_reco decode_reco_round decode_reco_state wire_decode decode_elements
    decode_fields decode_seq elements make_leaf update update_found find insert
reco_block-decoded = refl

process_reco_data-restarts_example :
    ((process_reco_data data_packet (some reco_block) busy).0 ≡ ok tt)
    × IsRecovered 6 one_leaf
        (seen busy)
        (seen (process_reco_data data_packet (some reco_block) busy).1)
unfolding initial
process_reco_data-restarts_example =
    process_reco_data-restarts data_packet (some reco_block) busy reco_block-decoded refl refl
      one-IsValid two-IsValid (omega arith) (omega arith) (omega arith)

process_reco_data-send_reco_data_example :
    (k : Block) × (contents_of (send_reco_data [] data_packet busy).effects
      ≡ tlv k.type k.value ∷ contents_of busy.effects)
    × ((process_reco_data data_packet (some k) started).0 ≡ ok tt)
    × ((n : demo.Name)
        → seq_in (process_reco_data data_packet (some k) started).1.state.leaves n
          ≡ join (seq_in [] n) (seq_in two_leaves n))
    × ((process_reco_data data_packet (some k) started).1.current_round ≡ 4)
unfolding initial make_reco wire_encode_reco encode_state wire_encode_block encode_leaf make_leaf
    plus merge update update_found find insert
process_reco_data-send_reco_data_example =
    process_reco_data-send_reco_data [] data_packet data_packet busy started two-IsValid two-InRange
      empty-IsValid (omega arith) (omega arith) (omega arith) (omega arith) (omega arith)

abbrev shop : Socket
shop = record {
  user_prefix = (10 ∷ []) ∷ [];
  signing_id = [];
  has_validator = false;
  registered = [];
  logic = started;
  ims = [];
  calls = [];
}

publish_data-next_example :
    let (result, t) = publish_data (8 ∷ 8 ∷ []) 1000 [] shop in
    (result ≡ ok tt)
    × (t.ims
        ≡ record {
          name = data_name started.session_name 1;
          content = 8 ∷ 8 ∷ [];
          freshness = 1000;
          identity = [];
        }
          ∷ [])
    × (t.logic.seq_no ≡ 1)
    × (seq_in t.logic.state.leaves started.session_name ≡ some 1)
unfolding initial seq_in find
publish_data-next_example =
    publish_data-next (8 ∷ 8 ∷ []) 1000 [] shop refl (omega arith) refl (omega arith)

-- A node that publishes its first number and then runs setStableState.
abbrev new_node : Logic
new_node = make_logic config 11

abbrev published : Logic
published = (run (publication 1 []) new_node).1

new_node-current_round : new_node.current_round ≡ 1
unfolding make_logic initial inject_partition schedule
new_node-current_round = refl

published-current_round : published.current_round ≡ 2
unfolding run make_logic initial inject_partition schedule seq_in find
published-current_round =
    let (_, _, _, moved, _) =
      update_seq_no-publishes 1 [] new_node (omega arith) (omega arith) refl refl (omega arith) in
    moved

Reaches-IsSound_example :
    let k = (run (scheduled_event stable_state) published).1 in
    IsSound (before published) (seen k) × ((set_stable_state k).0 ≡ ok tt)
Reaches-IsSound_example =
    Reaches-IsSound config 11 published (run (scheduled_event stable_state) published).1
      (after here (rw new_node-current_round (omega arith)) (publication 1 []) tt)
      (after here (rw published-current_round (omega arith)) (scheduled_event stable_state) tt)

-- A packet of no known kind, after the publication.
Reaches-InOrder_example :
    let k = (run (incoming_data true [] none) published).1 in
    InOrder k.state.leaves
    × InOrder k.old_state.leaves
    × All (λ (d : DiffState). InOrder d.state.leaves) k.log
    × IsOrdered k.log
Reaches-InOrder_example =
    Reaches-InOrder config 11 (run (incoming_data true [] none) published).1
      (after (after here (rw new_node-current_round (omega arith)) (publication 1 []) tt)
        (rw published-current_round (omega arith)) (incoming_data true [] none) tt)
      ((tt, omega arith), tt)
