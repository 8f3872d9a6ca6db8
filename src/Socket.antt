-- ===== src/Socket.antt =====
-- socket.hpp and socket.cpp: publishing data of an application under the sequence numbers of Logic,
-- and fetching the data of others. The in-memory storage is ndn-cxx's: what it holds is the list of
-- packets that were inserted, and the result of its `find` is an argument. The face is that of Logic,
-- so what a socket asks of it is recorded here, the last call first.
pub mod Publish
use round_sync.Base.{
  ℕ, zero, suc, ◌+◌, Bool, true, false, not, Option, none, some, List, [], ◌∷◌, ◌&&◌, if◌then◌else◌,
  add64, Result, ok, err,
}
use round_sync.Ndn.{Ndn}
use round_sync.Logic.{
  Logic, Config, Packet, default_data_interest_lifetime, default_sync_interest_lifetime,
  default_data_freshness,
}
use round_sync.Logic.Publish.{update_seq_no}
use round_sync.Logic.Entry.{make_logic}

module _ ⦃ndn : Ndn⦄ where
  open ndn use {Name, append, append_name, empty_name, from_number}

  -- A call of the face; an interest is always for fresh data. `on_data` marks the interests whose
  -- timeout is left to the caller.
  pub data Call : Type 0 where
    express : Name → ℕ → Call
    express_with : Name → Call
    put : Packet → Call
    set_filter unset_filter : Name → Call
    deliver : Name → Call

  pub record Socket : Type 0 where
    pub user_prefix : Name
    pub signing_id : Name
    pub has_validator : Bool
    pub registered : List Name
    pub logic : Logic
    pub ims : List Packet
    pub calls : List Call

  -- The Logic gets the socket's prefixes, the default times, and neither its identity nor its validator.
  unfoldable pub make_socket : Name → Name → Name → Bool → ℕ → Socket
  make_socket sync_prefix user_prefix signing_id has_validator now = record {
    user_prefix = user_prefix;
    signing_id = signing_id;
    has_validator = has_validator;
    registered = user_prefix ∷ [];
    logic =
        make_logic
          (record {
            sync_prefix = sync_prefix;
            default_user_prefix = user_prefix;
            default_signing_id = empty_name;
            has_validator = false;
            data_interest_lifetime = default_data_interest_lifetime;
            sync_interest_lifetime = default_sync_interest_lifetime;
            data_freshness = default_data_freshness;
          })
          now;
    ims = [];
    calls = set_filter user_prefix ∷ [];
  }

  abbrev pub data_name : Name → ℕ → Name
  data_name session q = append (append_name empty_name session) (from_number q)

  -- The result is that of `updateSeqNo`.
  unfoldable pub publish_data : List ℕ → ℕ → Name → Socket → Result (Unit {0}) × Socket
  publish_data content freshness prefix s =
      let q = add64 s.logic.seq_no 1 in
      let p : Packet = record {
        name = data_name s.logic.session_name q;
        content = content;
        freshness = freshness;
        identity = s.signing_id;
      } in
      let (result, l) = update_seq_no q prefix s.logic in
      (result, record s { ims = p ∷ s.ims; logic = l })

  unfoldable pub fetch_data : Name → ℕ → ℕ → Socket → Socket
  fetch_data session q retries s = record s {
    calls = express (data_name session q) retries ∷ s.calls;
  }

  -- The caller's own handler is called at a timeout.
  unfoldable pub fetch_data_with : Name → ℕ → Socket → Socket
  fetch_data_with session q s = record s { calls = express_with (data_name session q) ∷ s.calls }

  -- `found` is what the storage has for the interest.
  unfoldable pub on_interest : Option Packet → Socket → Socket
  on_interest none s = s
  on_interest (some p) s = record s { calls = put p ∷ s.calls }

  unfoldable pub on_data : Bool → Name → Socket → Socket
  on_data valid name s =
      if s.has_validator && not valid then s else record s { calls = deliver name ∷ s.calls }

  -- `nRetries <= 0` gives up; a number of retries below 0 is read as 0.
  unfoldable pub on_data_timeout : Name → ℕ → Socket → Socket
  on_data_timeout name zero s = s
  on_data_timeout name (suc retries) s = record s { calls = express name retries ∷ s.calls }

  unfoldable pub unset_filters : List Name → List Call → List Call
  unset_filters [] calls = calls
  unset_filters (n ∷ ns) calls = unset_filters ns (unset_filter n ∷ calls)

  -- `m_ims.erase("/")` erases all that is stored.
  unfoldable pub destroy : Socket → Socket
  destroy s = record s { calls = unset_filters s.registered s.calls; ims = [] }
