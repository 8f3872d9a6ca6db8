-- ===== src/Tests/Answers.antt =====
-- An example of the theorem on an interest and its answer: the first node has published number 2 in
-- round 1, which the second asks for.
use round_sync.Base.{◌≡◌, refl, none, some, [], ◌∷◌, arith, ok}
use round_sync.Ndn.{Block}
use round_sync.Leaf.{make_leaf}
use round_sync.Tlv.{tlv}
use round_sync.State.{State, find, insert, update, update_found}
use round_sync.State.Lookup.{seq_in}
use round_sync.State.Wire.{wire_encode_block, encode_leaf, encode_leaves}
use round_sync.DiffState.{state_of_leaf, update_diff}
use round_sync.DataContent.{
  make_content, wire_encode_content, encode_state, encode_cumulative, kind_of,
}
use round_sync.Log
use round_sync.Logic.{Logic}
use round_sync.Logic.Entry.{initial}
use round_sync.Logic.Publish.{process_data_interest}
use round_sync.Logic.Process.{process_data}
use round_sync.Logic.Process.Seen.{seen, contents_of}
use round_sync.Logic.Process.Data.{absorbed}
use round_sync.Logic.Process.Asked.{process_data-process_data_interest}
use round_sync.Tests.Demo.{demo, Name}
use round_sync.Tests.Data.{entry, started, busy}

abbrev own_tree : State
own_tree = record { leaves = make_leaf started.session_name 2 ∷ []; wire = none }

abbrev publisher : Logic
publisher = record started { log = entry 1 own_tree ∷ []; current_round = 4 }

-- An interest for round 1, and the name of a packet of round 4.
abbrev interest : Name
interest = (0 ∷ 1 ∷ []) ∷ (2 ∷ []) ∷ []

abbrev packet : Name
packet = (6 ∷ []) ∷ (0 ∷ 4 ∷ []) ∷ (2 ∷ []) ∷ []

process_data-process_data_interest_example :
    (k : Block) × ((process_data_interest interest publisher).0 ≡ ok tt)
    × (contents_of (process_data_interest interest publisher).1.effects
        ≡ tlv k.type k.value ∷ contents_of publisher.effects)
    × ((process_data packet (some k) busy).0 ≡ ok tt)
    × (seen (process_data packet (some k) busy).1
        ≡ absorbed 4 (make_leaf publisher.session_name 2 ∷ []) busy)
unfolding initial seq_in find make_leaf state_of_leaf update_diff update update_found insert
    make_content wire_encode_content encode_state encode_cumulative kind_of wire_encode_block
    encode_leaves encode_leaf Log.find
process_data-process_data_interest_example =
    process_data-process_data_interest interest packet (entry 1 own_tree) 2 publisher busy refl
      (omega arith) refl refl (omega arith) (omega arith) (omega arith) refl refl (omega arith)
