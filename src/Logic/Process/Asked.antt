-- ===== src/Logic/Process/Asked.antt =====
-- logic.cpp: the whole way of an interest for an earlier round (processDataInterest), and of the data
-- that answers it (processData).
use round_sync.Base.{
  ℕ, ◌<◌, ◌≡◌, refl, sym, ap, ◌∙◌, inl, inr, ◌==◌, true, false, Bool-cases, Option-cases, none,
  some, [], ◌∷◌, length, leb, ltb, arith, u64_mod, ok,
}
use round_sync.Ndn.{Ndn, Block}
use round_sync.Leaf.{make_leaf}
use round_sync.Tlv.{tlv}
use round_sync.State.{find}
use round_sync.State.Lookup.{seq_in, find_seq, find-none}
use round_sync.State.Sorted.{IsValid}
use round_sync.State.Digest.{InRange}
use round_sync.DiffState.{DiffState, get_state_from, state_of_leaf}
use round_sync.DiffState.Produced.{state_of_leaf-IsPart}
use round_sync.DataContent.{well_formed, make_content}
use round_sync.DataContent
use round_sync.Log
use round_sync.Logic.{Logic}
use round_sync.Logic.Exec.{component_at, number_at}
use round_sync.Logic.Calls.{send_data}
use round_sync.Logic.Publish.{process_data_interest, answer_earlier, answer_part}
use round_sync.Logic.Process.{process_data}
use round_sync.Logic.Process.Data.{absorbed}
use round_sync.Logic.Process.Seen.{seen, contents_of}
use round_sync.Logic.Process.Sent.{data_bytes, process_data-send_data}

module _ ⦃ndn : Ndn⦄ where
  open ndn use {Name, Component, name_eq, empty_name}

  -- What a session has in a round, as a node hands it on.
  abbrev pub own_part : DiffState → Name → ℕ → DiffState
  own_part d n q = (state_of_leaf d n q).0

  get_state_from-own_part :
      (d : DiffState) (n : Name) (q : ℕ)
      → seq_in d.leaves n ≡ some q
      → get_state_from d n ≡ some (state_of_leaf d n q)
  unfolding get_state_from
  get_state_from-own_part d n q h = elim (Option-cases (find n d.leaves)) [
    | inl e ↦ absurd (cc (h, find-none n d.leaves e))
    | inr (l, e) ↦
        let same : l.seq ≡ q = some_eq (sym (find_seq n d.leaves {l = l} e) ∙ h) in
        rw (e, get_state_from) (rw same refl)
  ]
    where
      some_eq : {a b : ℕ} → some a ≡ some b → a ≡ b
      some_eq y = cc y

  send_data-returns :
      (prefix name : Name) (d : DiffState) (a : Logic)
      → d.cumulative_info ≡ none
      → (x : DiffState) × (send_data prefix name d a ≡ (ok x, (send_data prefix name d a).1))
  unfolding send_data well_formed make_content DataContent.encode
  send_data-returns prefix name d a h = elim (Bool-cases (name_eq a.session_name empty_name)) [
    | inl e ↦ rw h (rw e (_, refl))
    | inr e ↦ rw h (rw e (_, refl))
  ]

  answer_part-sends :
      (name : Name) (p : DiffState) (a : Logic)
      → p.cumulative_info ≡ none
      → answer_part name (some (p, false)) a ≡ (ok tt, (send_data a.default_user_prefix name p a).1)
  unfolding answer_part
  answer_part-sends name p a h =
      let (x, e) = send_data-returns a.default_user_prefix name p a h in rw e refl

  -- An interest for an earlier round, in which the node has a number.
  process_data_interest-sends :
      (interest : Name) (d : DiffState) (q : ℕ) (a : Logic) {r : ℕ}
      → number_at interest 1 ≡ ok r
      → r < a.current_round
      → Log.find r a.log ≡ some d
      → seq_in d.leaves a.session_name ≡ some q
      → 0 < q
      → process_data_interest interest a
        ≡ (ok tt, (send_data a.default_user_prefix interest (own_part d a.session_name q) a).1)
  unfolding process_data_interest answer_earlier
  process_data_interest-sends interest d q a {r} n c f h z =
      let early : leb a.current_round r ≡ false = ground (arith, c) in
      let past : ltb a.current_round r ≡ false = ground (arith, c) in
      let before : ltb r a.current_round ≡ true = ground (arith, c) in
      let part = state_of_leaf-IsPart d a.session_name q in
      let number : (q == 0) ≡ false = ground (arith, z) in
      let none_info : (own_part d a.session_name q).cumulative_info ≡ none =
        part.info ∙ rw number refl in
      let only : (state_of_leaf d a.session_name q).1 ≡ false = part.flag ∙ number in
      rw n (
        rw (early, past, before, f)
          (rw (get_state_from-own_part d a.session_name q h, only)
            (answer_part-sends interest (own_part d a.session_name q) a none_info)))

  -- A data interest for a round before the current one, of which the log has an entry with a
  -- positive number of 64 bits of this node's session, where the content for it has fewer than 2 ^
  -- 64 bytes: processDataInterest returns and has sent one block. Another node that gets it, under
  -- a name of a round after its stable one, returns from processData and has seen exactly what
  -- `absorbed` says for that session and number.
  pub process_data-process_data_interest :
      (interest name : Name) (d : DiffState) (q : ℕ) (a b : Logic) {r s : ℕ} {x : Component}
      → number_at interest 1 ≡ ok r
      → r < a.current_round
      → Log.find r a.log ≡ some d
      → seq_in d.leaves a.session_name ≡ some q
      → 0 < q
      → q < u64_mod
      → length (data_bytes a (own_part d a.session_name q)) < u64_mod
      → number_at name 2 ≡ ok s
      → component_at name 1 ≡ ok x
      → b.stable_round < s
      → (k : Block) × ((process_data_interest interest a).0 ≡ ok tt)
        × (contents_of (process_data_interest interest a).1.effects
            ≡ tlv k.type k.value ∷ contents_of a.effects)
        × ((process_data name (some k) b).0 ≡ ok tt)
        × (seen (process_data name (some k) b).1 ≡ absorbed s (make_leaf a.session_name q ∷ []) b)
  process_data-process_data_interest interest name d q a b {r} {s} {x} n c f h z w small m e lt =
      let part = state_of_leaf-IsPart d a.session_name q in
      let p = own_part d a.session_name q in
      let number : (q == 0) ≡ false = ground (arith, z) in
      let none_info : p.cumulative_info ≡ none = part.info ∙ rw number refl in
      let answered = process_data_interest-sends interest d q a n c f h z in
      let valid : IsValid p.leaves =
        rw part.leaf (record { sorted = (tt, tt); fresh = (unfold make_leaf in refl, tt) }) in
      let fits : InRange p.leaves = rw part.leaf (unfold make_leaf in w, tt) in
      let (k, bytes, returned, taken) =
        process_data-send_data a.default_user_prefix interest name p a b none_info valid fits small
          m e lt in
      (k, ap (λ z. z.0) answered, rw answered bytes, returned, taken ∙ rw part.leaf refl)
