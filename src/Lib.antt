-- ===== src/Lib.antt =====
-- RoundSync: the synchronization of data sets over NDN in rounds, with recovery by whole states.
--
-- The program. An application uses a Socket (socket.cpp), which stores what it publishes and hands
-- the sequence numbers to a Logic (logic.cpp). The Logic keeps a tree of sessions and their numbers
-- (State: state.cpp, leaf.cpp, leaf-container.hpp), and a log of rounds (diff-state.cpp,
-- diff-state-container.hpp). A node waits for the data of its current round; data that arrives, and
-- data of its own, takes it to the next round. Round digests are compared by sync interests. Rounds
-- become stable after a delay, and then have a cumulative digest, which travels with the data
-- (DataContent: data-content.cpp); where it differs, a node asks for a whole state (RecoData:
-- reco-data.cpp).
--
-- The files.
--   Base           numbers, tests, 64-bit arithmetic, lists, results and exceptions.
--   Ndn            ndn-cxx, Boost's hashed index and SHA-256 as an interface: names, components, TLV,
--                  digests, with the laws that the code relies on. Every module takes it as an
--                  instance argument. Tests/Demo.antt gives a concrete instance.
--   Tlv            tlv.hpp and the front-growing EncodingBuffer.
--   Leaf, State    leaf.cpp, state.cpp and leaf-container.hpp. The container is the list of its leaves
--                  in the order of the index `ordered`; a walk over the index `hashed` is some
--                  permutation of them. State/Lookup, State/Sorted, State/Merge, State/Digest: the
--                  tree as a map, its well-formedness, `operator+=`, the digest. State/Known: which
--                  numbers a tree holds. State/Compare: the digests of two trees after updates.
--                  State/Wire: encoder and decoder, where EncodingBuffer::block(), which verifies
--                  the length of its element, stands on the interface's `parse`; State/Encoding:
--                  their theorems.
--   DiffState      diff-state.cpp and diff-state.hpp; `m_next` is the list that `diff` is given.
--   DataContent, RecoData   the two contents of packets, each with its round trip.
--   Log            diff-state-container.hpp. Its elements are shared objects: a Commit
--                  (Logic/Rounds) is such a pointer with whether the log holds the object, and a
--                  write through it is seen in the log where it does.
--   Logic          logic.hpp and logic.cpp. A handler is an action on the record Logic (Logic/Exec):
--                  it returns or throws, and what it changed until then stays. Calls of the
--                  scheduler, the face and the application are recorded as effects, the last one
--                  first. Logic/Calls: the methods that send. Logic/Rounds: moves between rounds,
--                  updateDiffLog, checkRoundDigests. Logic/Stable: setStableState and
--                  calculateStableStateAndCumulativeDigests. Logic/Recovery: checkRecovery and
--                  produceCumulativeOnly. Logic/Publish: updateSeqNo and the handlers of interests.
--                  Logic/Process: processData and processRecoData. Logic/Timeouts: the timeouts.
--                  Logic/Entry: constructor, destructor, callbacks and events. Logic/Reach: the
--                  callbacks of a node one after another, as a step relation (Logic/Reach/
--                  Callbacks), with what they keep. Logic/Held: which numbers a node
--                  holds in its trees, its log and its packets, and the order of the log. The
--                  other child modules hold the theorems.
--   Network        any number of nodes whose callbacks run one at a time in any order, on packets
--                  that one of them sent; the network may lose, delay, repeat and reorder them.
--                  `block_from_value` is ndn-cxx's blockFromValue, on top of the interface.
--   Printing       what operator<< of a leaf and of a data type, pD, printState, printRoundLog,
--                  printDigest and digestToStr write, as text.
--   Socket         socket.cpp, with the theorem on publishing in Socket/Publish.
--   Tests          a test network, and an instance of each theorem.
--
-- Bounds. Sequence numbers and rounds are natural numbers with the wrap-around of uint64_t written
-- out (add64, sub64), the counters of timeouts with that of unsigned (add32). Loops are structural;
-- those over rounds run for the number of rounds that lie between their bounds, computed before
-- the loop, so none needs fuel beyond that.
--
-- A read through a null pointer or past the end, where the code has one, is the exception
-- `undefined`. Times are milliseconds, and a random delay is recorded with its range.
--
-- Not modelled: where the handlers print, the logging macros (logger.hpp), the empty callbacks for
-- failed registrations and validations, and what ndn-cxx does with the packets.
pub mod Base
pub mod Ndn
pub mod Leaf
pub mod Tlv
pub mod State
pub mod DiffState
pub mod DataContent
pub mod RecoData
pub mod Log
pub mod Logic
pub mod Network
pub mod Printing
pub mod Socket
pub mod Tests
