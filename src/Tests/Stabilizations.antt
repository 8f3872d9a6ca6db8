-- ===== src/Tests/Stabilizations.antt =====
-- Examples of the theorem on a stabilization, at a node that has published its first number.
use round_sync.Base.{ok, ◌<◌, ◌≡◌, refl, some, [], arith}
use round_sync.State.Lookup.{seq_in, join}
use round_sync.State.{find, update, update_found, insert, plus, merge, get_digest, digest_input}
use round_sync.State.Wire.{wire_encode_block, encode_leaves, encode_leaf}
use round_sync.Leaf.{make_leaf, leaf_digest}
use round_sync.DiffState.{update_diff, update_round_digest, set_round, set_cumulative_info}
use round_sync.DataContent.{encode_state}
use round_sync.RecoData.{make_reco, wire_encode_reco}
use round_sync.Log
use round_sync.Logic.Recovery.{pending_now}
use round_sync.Logic.Rounds.{
  write, update_diff_log, move_to_new_current_round, fish, restart_interest,
}
use round_sync.Logic.Publish.{
  update_seq_no, update_own, publish, log_commit, own_commit, answer_data,
}
use round_sync.Logic.{Logic}
use round_sync.Logic.Calls.{schedule, cancel}
use round_sync.Logic.Entry.{make_logic, initial, inject_partition}
use round_sync.Logic.Reach.Callbacks.{run, publication}
use round_sync.Tests.Demo.{demo, Name}
use round_sync.Tests.Data.{config}
use round_sync.Logic.Stable.{set_stable_state}
use round_sync.Logic.Stable.Ranges.{latest_where, within}
use round_sync.Logic.Stable.Next.{next_init}
use round_sync.Logic.Reach.Callbacks.{here, after}
use round_sync.DiffState.{DiffState}
use round_sync.Logic.Held.Stabilizes.{Reaches-set_stable_state}

abbrev new_node : Logic
new_node = make_logic config 11

abbrev published : Logic
published = (run (publication 1 []) new_node).1

new_node-current_round : new_node.current_round ≡ 1
unfolding make_logic initial inject_partition schedule
new_node-current_round = refl

not_stable : published.stable_round < published.stabilizing_round
unfolding run update_seq_no update_own publish log_commit own_commit update_diff update_diff_log
    update_round_digest set_round answer_data pending_now move_to_new_current_round fish
    restart_interest schedule cancel make_logic initial inject_partition update update_found find
    insert make_leaf Log.find Log.insert wire_encode_reco make_reco encode_state wire_encode_block
    encode_leaves encode_leaf plus merge get_digest digest_input leaf_digest write
    set_cumulative_info
not_stable = omega arith

Reaches-set_stable_state_example :
    let (result, k) = set_stable_state published in
    (result ≡ ok tt)
    × (k.stable_round ≡ published.stabilizing_round)
    × ((n : Name)
        → seq_in k.old_state.leaves n
          ≡ join (seq_in published.old_state.leaves n) (
              latest_where
                (within (next_init published) published.stabilizing_round)
                n
                published.log))
    × (d : DiffState) × (Log.find published.stabilizing_round k.log ≡ some d)
    × (d.cumulative_digest ≡ some (get_digest k.old_state))
Reaches-set_stable_state_example =
    Reaches-set_stable_state config 11 published
      (after here (rw new_node-current_round (omega arith)) (publication 1 []) tt) (tt, omega arith)
      not_stable
