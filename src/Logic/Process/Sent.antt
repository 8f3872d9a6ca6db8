-- ===== src/Logic/Process/Sent.antt =====
-- logic.cpp: the whole way from sendData on one node to processData on another, for a round's tree
-- without a cumulative digest.
use round_sync.Base.{
  ℕ, ◌<◌, ◌≡◌, refl, ap, ◌∙◌, inl, inr, Bool-cases, Option, none, some, List, [], ◌∷◌, length,
  arith, u64_mod, ok,
}
use round_sync.Ndn.{Ndn, Block}
use round_sync.Leaf.{Leaf}
use round_sync.Tlv.{tlv, data_only}
use round_sync.State.Sorted.{IsValid}
use round_sync.State.Digest.{InRange}
use round_sync.DiffState.{DiffState}
use round_sync.DataContent.{
  DataContent, make_content, default_content, kind_of, wire_encode_content, wire_decode_content,
  well_formed,
}
use round_sync.DataContent
use round_sync.DataContent.RoundTrip.{leaves_of, wire_decode_content-encode}
use round_sync.Logic.{Logic}
use round_sync.Logic.Exec.{component_at, number_at}
use round_sync.Logic.Calls.{send_data, satisfy}
use round_sync.Logic.Process.{process_data}
use round_sync.Logic.Process.Data.{absorbed, process_data-absorbs}
use round_sync.Logic.Process.Seen.{seen, contents_of}

module _ ⦃ndn : Ndn⦄ where
  open ndn use {Name, Component, name_eq, empty_name}

  abbrev pub content_of : Logic → DiffState → DataContent
  content_of a d = make_content a.session_name 0 none (some d)

  abbrev pub data_bytes : Logic → DiffState → List ℕ
  data_bytes a d = (wire_encode_content (content_of a d) []).0

  contents_of-satisfy :
      (n : Name) (l : Logic) → contents_of (satisfy n l).effects ≡ contents_of l.effects
  unfolding satisfy contents_of
  contents_of-satisfy n l = ground arith

  pub send_data-sends :
      (prefix name : Name) (d : DiffState) (a : Logic)
      → d.cumulative_info ≡ none
      → contents_of (send_data prefix name d a).1.effects ≡ data_bytes a d ∷ contents_of a.effects
  unfolding send_data well_formed make_content DataContent.encode contents_of
  send_data-sends prefix name d a h = elim (Bool-cases (name_eq a.session_name empty_name)) [
    | inl e ↦ rw h (rw e (contents_of-satisfy name _))
    | inr e ↦ rw h (rw e (contents_of-satisfy name _))
  ]

  -- A received tree with the leaves of a known list.
  state_with :
      (o : Option DiffState) {ls : List Leaf}
      → leaves_of o ≡ some ls
      → (d : DiffState) × (o ≡ some d) × (d.leaves ≡ ls)
  state_with none h = cc h
  state_with (some d) h = (d, refl, cc h)

  -- What one node sends of a round that it has no cumulative digest for, where the tree is well
  -- formed, its numbers have 64 bits, and the content has fewer than 2 ^ 64 bytes: it is one block.
  -- Another node that gets it, under a name of a round after its stable one, returns from
  -- processData and has seen exactly what `absorbed` says for all leaves of that round.
  pub process_data-send_data :
      (prefix reply name : Name) (d : DiffState) (a b : Logic) {r : ℕ} {x : Component}
      → d.cumulative_info ≡ none
      → IsValid d.state.leaves
      → InRange d.state.leaves
      → length (data_bytes a d) < u64_mod
      → number_at name 2 ≡ ok r
      → component_at name 1 ≡ ok x
      → b.stable_round < r
      → (k : Block) × (contents_of (send_data prefix reply d a).1.effects
          ≡ tlv k.type k.value ∷ contents_of a.effects)
        × ((process_data name (some k) b).0 ≡ ok tt)
        × (seen (process_data name (some k) b).1 ≡ absorbed r d.state.leaves b)
  unfolding make_content
  process_data-send_data prefix reply name d a b {r} {x} none_info v i h n e lt =
      let (k, bytes, content, decoded, carried) =
        wire_decode_content-encode (content_of a d) (ground arith) (v, i) h in
      let kind : content.data_type ≡ some data_only = carried.kind ∙ (unfold kind_of in refl) in
      let (received, state, leaves) = state_with content.state carried.leaves in
      let (returned, taken) =
        process_data-absorbs name k b n e lt decoded kind state (rw leaves v.sorted) in
      (
        k,
        send_data-sends prefix reply d a none_info
            ∙ ap (λ (y : List ℕ). y ∷ contents_of a.effects) bytes,
        returned,
        taken ∙ ap (λ (ls : List Leaf). absorbed r ls b) leaves,
      )
