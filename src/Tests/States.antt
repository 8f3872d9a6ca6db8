-- ===== src/Tests/States.antt =====
-- Examples of the theorems on trees, digests and the log.
use mathlib.Core.List.{reverse, reverse_perm}
use round_sync.Base.{
  ◌∷◌, ◌≢◌, length, err, ndn_error, state_error, ℕ, ◌≡◌, refl, Bool, ok, ◌⊎◌, none, some, [], arith,
}
use round_sync.Leaf.{Leaf, make_leaf}
use round_sync.State.{State, empty_state, find, update, merge, plus, get_digest}
use round_sync.State.Lookup.{seq_in, join, seq_in-update}
use round_sync.State.Sorted.{IsValid, update-IsValid}
use round_sync.State.Merge.{IsJoin, plus-IsJoin, seq_in-plus, merge_order}
use round_sync.State.Compare.{after, get_digest-compares}
use round_sync.State.Digest.{Collision, get_digest_sound}
use round_sync.State.Wire.{
  encode_leaf, wire_encode, wire_encode_block, wire_decode, leaf_block, leaves_wire,
}
use round_sync.State.Encoding.{wire_decode-encode, wire_encode_cases}
use round_sync.Tlv.{state_type}
use round_sync.DiffState.{DiffState, get_state_from, diff}
use round_sync.DiffState.Produced.{IsPart, get_state_from_cases, latest, seq_in-diff}
use round_sync.Tests.Demo.{demo, Name}
use round_sync.Tests.Data.{
  alice, bob, one, two, one_leaf, two_leaves, one-IsValid, two-IsValid, empty-IsValid, two-InRange,
  one-InRange, entry, rounds,
}

plus-IsJoin_example : IsJoin two one empty_state
plus-IsJoin_example = plus-IsJoin two one empty_state two-IsValid one-IsValid empty-IsValid

seq_in-plus_example :
    seq_in (plus two one).leaves alice ≡ join (seq_in two_leaves alice) (seq_in one_leaf alice)
seq_in-plus_example = seq_in-plus two one alice one-IsValid

merge_order_example : (merge one (reverse two_leaves)).leaves ≡ (merge one two_leaves).leaves
merge_order_example = merge_order one one-IsValid (reverse_perm two_leaves)

get_digest_sound_example : (two_leaves ≡ two_leaves) ⊎ Collision
get_digest_sound_example =
    get_digest_sound two (record two { wire = some [] }) two-IsValid two-IsValid two-InRange
      two-InRange (unfold get_digest in refl)

-- The second tree gets the number of bob that the first has, and the first the greater one of alice.
get_digest-compares_example :
    (((n : Name) → after two one_leaf n ≡ after one two_leaves n)
      × (get_digest (merge two one_leaf) ≡ get_digest (merge one two_leaves)))
    ⊎ (¬ ((n : Name) → after two one_leaf n ≡ after one two_leaves n)
        × (get_digest (merge two one_leaf) ≢ get_digest (merge one two_leaves)))
    ⊎ Collision
get_digest-compares_example =
    get_digest-compares two one one_leaf two_leaves two-IsValid one-IsValid two-InRange one-InRange
      one-InRange two-InRange

update-IsValid_example : IsValid (update one bob 4).0.leaves
update-IsValid_example = update-IsValid one bob 4 one-IsValid

seq_in-update_example : seq_in (update one alice 2).0.leaves alice ≡ some 3
unfolding join seq_in find make_leaf
seq_in-update_example = seq_in-update one alice alice 2

wire_decode-encode_example :
    (t : State) × (wire_decode empty_state
        (some (record { type = state_type; value = (wire_encode_block two []).0 }))
      ≡ ok t)
    × (t.leaves ≡ two_leaves)
unfolding wire_encode_block make_leaf encode_leaf
wire_decode-encode_example = wire_decode-encode two two-IsValid two-InRange (omega arith)

wire_encode_cases_example :
    ((l : Leaf) × (one_leaf ≡ l ∷ [])
      × (wire_encode one
          ≡ ok (record one { wire = some (leaves_wire (l ∷ [])) }, leaves_wire (l ∷ [])))
      × (demo.parse (leaves_wire (l ∷ [])) ≡ some (leaf_block l ∷ []))
      × (wire_decode empty_state (some (leaf_block l)) ≡ err state_error))
    ⊎ ((length one_leaf ≢ 1) × (wire_encode one ≡ err ndn_error))
unfolding make_leaf
wire_encode_cases_example = wire_encode_cases one refl (omega arith)

get_state_from_cases_example :
    ((seq_in two_leaves bob ≡ none) × (get_state_from (entry 1 two) bob ≡ none))
    ⊎ ((q : ℕ) × (p : DiffState) × (only : Bool) × (seq_in two_leaves bob ≡ some q)
        × (get_state_from (entry 1 two) bob ≡ some (p, only))
        × IsPart (entry 1 two) bob q p only)
get_state_from_cases_example = get_state_from_cases (entry 1 two) bob

seq_in-diff_example : seq_in (diff rounds).leaves alice ≡ latest alice rounds
seq_in-diff_example = seq_in-diff rounds alice (two-IsValid, (one-IsValid, tt))
