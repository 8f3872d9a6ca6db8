-- ===== src/Socket/Publish.antt =====
-- socket.cpp: publishData hands out consecutive sequence numbers, each with a packet of its own.
use round_sync.Base.{
  ℕ, ◌+◌, ◌<◌, ◌≡◌, refl, ◌∙◌, true, none, some, List, ◌∷◌, arith, add64, u64_mod, ok,
}
use round_sync.Ndn.{Ndn}
use round_sync.State.Lookup.{seq_in, name_eq_refl}
use round_sync.Logic.{Logic}
use round_sync.Logic.Publish.Own.{update_seq_no-publishes}
use round_sync.Logic.Process.Absorb.{is_new}
use round_sync.Socket.{Socket, data_name, publish_data}

module _ ⦃ndn : Ndn⦄ where
  open ndn use {Name}

  -- The next sequence number of the socket is new to its Logic.
  abbrev pub IsNext : Logic → Type 0
  IsNext l = is_new (seq_in l.state.leaves l.session_name) (l.seq_no + 1) ≡ true

  -- A publication under any prefix, known or not, at a socket whose next number has 64 bits and is
  -- new to the tree, with no interest pending and a next round within 64 bits: publishData returns,
  -- the packet that is stored carries the next sequence number, and it is the last number and that
  -- of the session in the tree from then on.
  pub publish_data-next :
      (content : List ℕ) (freshness : ℕ) (prefix : Name) (s : Socket)
      → IsNext s.logic
      → s.logic.seq_no + 1 < u64_mod
      → s.logic.pending_data_interest ≡ none
      → s.logic.current_round + 1 < u64_mod
      → let (result, t) = publish_data content freshness prefix s in
        (result ≡ ok tt)
        × (t.ims
            ≡ record {
              name = data_name s.logic.session_name (s.logic.seq_no + 1);
              content = content;
              freshness = freshness;
              identity = s.signing_id;
            }
              ∷ s.ims)
        × (t.logic.seq_no ≡ s.logic.seq_no + 1)
        × (seq_in t.logic.state.leaves s.logic.session_name ≡ some (s.logic.seq_no + 1))
  unfolding publish_data
  publish_data-next content freshness prefix s new b p c =
      let next : add64 s.logic.seq_no 1 ≡ s.logic.seq_no + 1 = omega arith in
      let (returned, seq, numbers, moved, logged) =
        update_seq_no-publishes (s.logic.seq_no + 1) prefix s.logic (omega arith) (omega arith) new
          p c in
      rw next (
        returned,
        refl,
        seq,
        numbers s.logic.session_name ∙ rw (name_eq_refl s.logic.session_name) refl,
      )
