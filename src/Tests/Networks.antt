-- ===== src/Tests/Networks.antt =====
-- Examples of the theorems on a network: its first node publishes a number and answers a recovery
-- interest of the second.
use round_sync.Base.{All, ℕ, ◌+◌, ◌<◌, ◌≡◌, refl, some, [], ◌∷◌, length, arith, u64_mod}
use round_sync.State.Lookup.{seq_in, join}
use round_sync.State.Sorted.{IsValid}
use round_sync.State.{find, update, update_found, insert, plus, merge, get_digest, digest_input}
use round_sync.State.Wire.{wire_encode_block, encode_leaves, encode_leaf}
use round_sync.Leaf.{make_leaf, leaf_digest}
use round_sync.DiffState.{update_diff, update_round_digest, set_round, set_cumulative_info}
use round_sync.DataContent.{encode_state}
use round_sync.RecoData.{make_reco, wire_encode_reco}
use round_sync.Log
use round_sync.Logic.Recovery.{pending_now}
use round_sync.Logic.Rounds.{
  write, update_diff_log, move_to_new_current_round, fish, restart_interest,
}
use round_sync.Logic.Publish.{
  update_seq_no, update_own, publish, log_commit, own_commit, answer_data,
}
use round_sync.Logic.{Logic, Config}
use round_sync.Logic.Calls.{send_reco_data, schedule, cancel}
use round_sync.Logic.Entry.{make_logic, initial, inject_partition}
use round_sync.Logic.Process.Seen.{contents_of}
use round_sync.Logic.Process.Reco.{reco_bytes}
use round_sync.Logic.Publish.Own.{update_seq_no-publishes}
use round_sync.Logic.Reach.Callbacks.{run, publication}
use round_sync.Network.{Runs, begin, next, act, new_nodes, with_node}
use round_sync.Network.Published.{numbers, Published, Runs-Published}
use round_sync.Network.Agree.{Runs-CanReply, process_reco_data-agrees}
use round_sync.Network.Gather.{gather, greatest, gather-agrees}
use round_sync.Network.Exchange.{after_reply, reply-recovers}
use round_sync.Tests.Demo.{demo, Name}
use round_sync.Tests.Data.{config}

abbrev configs : ℕ → Config
configs i = config

abbrev times : ℕ → ℕ
times i = 11 + i

-- The first node publishes number 1.
abbrev OneNumber : ℕ → ℕ → Type 0
OneNumber i q = (i ≡ 0) × (q ≡ 1)

abbrev start : ℕ → Logic
start = new_nodes configs times

abbrev later : ℕ → Logic
later = with_node 0 (run (publication 1 []) (start 0)).1 start

start-current_round : (start 0).current_round ≡ 1
unfolding make_logic initial inject_partition schedule
start-current_round = refl

path : Runs OneNumber start later
path =
    next begin (
      act 0 (publication 1 []) (rw start-current_round (omega arith)) tt
        ((refl, refl), omega arith))

later-published :
    (seq_in (later 0).state.leaves (start 0).session_name ≡ some 1) × ((later 0).current_round ≡ 2)
unfolding run make_logic initial inject_partition schedule seq_in find
later-published =
    let (_, _, numbers, moved, _) =
      update_seq_no-publishes 1 [] (start 0) (omega arith) (omega arith) refl refl (omega arith) in
    (numbers (start 0).session_name, moved)

Runs-Published_example :
    IsValid (later 0).state.leaves
    × ((n : Name) (q : ℕ)
        → seq_in (later 0).state.leaves n ≡ some q
        → Published configs times OneNumber n q)
Runs-Published_example = Runs-Published configs times OneNumber later path 0

small : length (reco_bytes (later 0)) < u64_mod
unfolding run update_seq_no update_own publish log_commit own_commit update_diff update_diff_log
    update_round_digest set_round answer_data pending_now move_to_new_current_round fish
    restart_interest schedule cancel make_logic initial inject_partition update update_found find
    insert make_leaf Log.find Log.insert wire_encode_reco make_reco encode_state wire_encode_block
    encode_leaves encode_leaf plus merge get_digest digest_input leaf_digest write
    set_cumulative_info
small = omega arith

small' : length (reco_bytes (after_reply [] (later 0) (later 1))) < u64_mod
unfolding run update_seq_no update_own publish log_commit own_commit update_diff update_diff_log
    update_round_digest set_round answer_data pending_now move_to_new_current_round fish
    restart_interest schedule cancel make_logic initial inject_partition update update_found find
    insert make_leaf Log.find Log.insert wire_encode_reco make_reco encode_state wire_encode_block
    encode_leaves encode_leaf plus merge get_digest digest_input leaf_digest write
    set_cumulative_info
small' =
    let ready = Runs-CanReply configs times OneNumber later path in
    let (_, _, merged, _, _) =
      reply-recovers (numbers configs times OneNumber) [] (later 0) (later 1) (ready 0) (ready 1)
        small in
    rw merged (omega arith)

process_reco_data-agrees_example :
    let b = after_reply [] (later 0) (later 1) in
    let a = after_reply [] b (later 0) in
    ((l : Logic) (prefix reply : Name)
      → contents_of (send_reco_data prefix reply l).effects ≡ reco_bytes l ∷ contents_of l.effects)
    × (a.state.leaves ≡ b.state.leaves)
    × (a.current_round ≡ b.current_round)
    × ((n : Name)
        → seq_in a.state.leaves n
          ≡ join (seq_in (later 0).state.leaves n) (seq_in (later 1).state.leaves n))
process_reco_data-agrees_example =
    process_reco_data-agrees configs times OneNumber later path 0 1 [] [] small small'

abbrev names : ℕ → Name
names i = []

small2 : length (reco_bytes (later 2)) < u64_mod
unfolding run update_seq_no update_own publish log_commit own_commit update_diff update_diff_log
    update_round_digest set_round answer_data pending_now move_to_new_current_round fish
    restart_interest schedule cancel make_logic initial inject_partition update update_found find
    insert make_leaf Log.find Log.insert wire_encode_reco make_reco encode_state wire_encode_block
    encode_leaves encode_leaf plus merge get_digest digest_input leaf_digest write
    set_cumulative_info
small2 = omega arith

small_gathered : length (reco_bytes (gather names later (0 ∷ 2 ∷ []) (later 1))) < u64_mod
unfolding run update_seq_no update_own publish log_commit own_commit update_diff update_diff_log
    update_round_digest set_round answer_data pending_now move_to_new_current_round fish
    restart_interest schedule cancel make_logic initial inject_partition update update_found find
    insert make_leaf Log.find Log.insert wire_encode_reco make_reco encode_state wire_encode_block
    encode_leaves encode_leaf plus merge get_digest digest_input leaf_digest write
    set_cumulative_info gather
small_gathered =
    let ready = Runs-CanReply configs times OneNumber later path in
    let known = numbers configs times OneNumber in
    let (_, ready', merged, _, _) =
      reply-recovers known [] (later 0) (later 1) (ready 0) (ready 1) small in
    let (_, _, merged', _, _) =
      reply-recovers known [] (later 2) (after_reply [] (later 0) (later 1)) (ready 2) ready'
        small2 in
    rw (merged', merged) (omega arith)

-- The second node gets the replies of the first and the third.
gather-agrees_example :
    let b = gather names later (0 ∷ 2 ∷ []) (later 1) in
    All
      (λ k.
        ((after_reply [] b (later k)).state.leaves ≡ b.state.leaves)
        × ((after_reply [] b (later k)).current_round ≡ b.current_round))
      (0 ∷ 2 ∷ [])
    × ((n : Name)
        → seq_in b.state.leaves n
          ≡ greatest names later n (0 ∷ 2 ∷ []) (seq_in (later 1).state.leaves n))
gather-agrees_example =
    gather-agrees configs times OneNumber names later path 1 (0 ∷ 2 ∷ []) (small, (small2, tt))
      small_gathered
