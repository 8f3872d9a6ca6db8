-- ===== src/Logic/Process/Absorb.antt =====
-- logic.cpp: the loops of processData and processRecoData over the received leaves, against a plain
-- description of the list that the application is called with.
use round_sync.Base.{
  ℕ, ◌≡◌, refl, ap, ◌∙◌, inl, inr, Bool, true, false, Bool-cases, Option, none, some, Option-cases,
  List, [], ◌∷◌, arith, if◌then◌else◌, ◌==◌, ◌&&◌, ltb, leb, add64,
}
use round_sync.Ndn.{Ndn}
use round_sync.Leaf.{Leaf}
use round_sync.State.{State, find, update, update_found, merge}
use round_sync.State.Lookup.{seq_in, find_seq, find-none, seq_in-update}
use round_sync.State.Sorted.{Above, IsSorted}
use round_sync.DiffState.{update_diff}
use round_sync.Logic.{Logic, MissingDataInfo}
use round_sync.Logic.Rounds.{Commit, write}
use round_sync.Logic.Process.{add_missing, absorb_state, absorb_old, absorb}

-- A session is new, or its number is greater than the one known.
abbrev pub is_new : Option ℕ → ℕ → Bool
is_new none q = true
is_new (some a) q = ltb a q

-- The number after the one known; an unknown session begins at 1.
abbrev pub next_of : Option ℕ → ℕ
next_of none = 1
next_of (some a) = add64 a 1

module _ ⦃ndn : Ndn⦄ where
  open ndn use {Name, name_eq, name_eq_iff, name_lt, name_lt_irrefl}

  -- The received leaves that are new to a tree, each with the range of numbers that it brings.
  unfoldable pub missing : List Leaf → List Leaf → List MissingDataInfo
  missing known [] = []
  missing known (l ∷ ls) =
      if is_new (seq_in known l.session_name) l.seq
      then record {
        session = l.session_name;
        low = next_of (seq_in known l.session_name);
        high = l.seq;
      }
        ∷ missing known ls
      else missing known ls

  missing-cons :
      (known : List Leaf) (l : Leaf) (ls : List Leaf)
      → (if is_new (seq_in known l.session_name) l.seq
          then record {
            session = l.session_name;
            low = next_of (seq_in known l.session_name);
            high = l.seq;
          }
            ∷ missing known ls
          else missing known ls)
        ≡ missing known (l ∷ ls)
  unfolding missing
  missing-cons known l ls = refl

  add_missing-update :
      (s : State) (n : Name) (q : ℕ) (v : List MissingDataInfo)
      → add_missing (update s n q).1 n q v ≡ (
          if is_new (seq_in s.leaves n) q
          then record { session = n; low = next_of (seq_in s.leaves n); high = q } ∷ v
          else v)
  unfolding add_missing update update_found
  add_missing-update s n q v = elim (Option-cases (find n s.leaves)) [
    | inl e ↦ rw (find-none n s.leaves e) (rw (e, update) (ground arith))
    | inr (l, e) ↦ rw (find_seq n s.leaves {l = l} e) (rw (e, update) (ground arith))
  ]

  missing-update :
      (s : State) (n : Name) (q : ℕ) (ls : List Leaf)
      → Above n ls
      → missing (update s n q).0.leaves ls ≡ missing s.leaves ls
  unfolding missing
  missing-update s n q [] a = refl
  missing-update s n q (l ∷ ls) a =
      let e : seq_in (update s n q).0.leaves l.session_name ≡ seq_in s.leaves l.session_name =
        ground (
          arith,
          seq_in-update s n l.session_name q,
          name_eq_iff n l.session_name,
          name_lt_irrefl n,
          a.0,
        ) in
      rw (e, missing-update s n q ls a.1) refl

  -- The loop of processRecoData.
  pub absorb_state_lem :
      (ls : List Leaf) (s : State)
      → IsSorted ls
      → absorb_state ls s ≡ (missing s.leaves ls, merge s ls)
  unfolding absorb_state merge missing
  absorb_state_lem [] s o = refl
  absorb_state_lem (l ∷ ls) s o =
      let t = (update s l.session_name l.seq).0 in
      ground (
        arith,
        absorb_state_lem ls t o.1,
        missing-update s l.session_name l.seq ls o.0,
        add_missing-update s l.session_name l.seq (missing s.leaves ls),
      )

  -- One leaf: the state, the old state while it follows a recovery, and the shared commit.
  abbrev absorb_one : ℕ → Leaf → Commit → Logic → Logic
  absorb_one r leaf c l =
      let l1 = absorb_old r leaf l in
      write r c (record l1 { state = (update l1.state leaf.session_name leaf.seq).0 })

  abbrev pub follows : ℕ → Logic → Bool
  follows r l = leb r l.last_recovery_round && l.stable_round == 0

  absorb_one_lem :
      (r : ℕ) (leaf : Leaf) (c : Commit) (l : Logic)
      → absorb_one r leaf c l ≡ record l {
        state = (update l.state leaf.session_name leaf.seq).0;
        old_state =
            if follows r l then (update l.old_state leaf.session_name leaf.seq).0 else l.old_state;
        log = (absorb_one r leaf c l).log;
      }
  unfolding absorb_old write
  absorb_one_lem r leaf c l = elim (Bool-cases (follows r l)) [
    | inl f ↦ elim (Bool-cases c.shared) [ inl h ↦ rw (f, h) refl | inr h ↦ rw (f, h) refl ]
    | inr f ↦ elim (Bool-cases c.shared) [ inl h ↦ rw (f, h) refl | inr h ↦ rw (f, h) refl ]
  ]

  merge_if :
      (b : Bool) (s : State) (leaf : Leaf) (ls : List Leaf)
      → (if b
          then merge (if b then (update s leaf.session_name leaf.seq).0 else s) ls
          else if b
          then (update s leaf.session_name leaf.seq).0
          else s)
        ≡ (if b then merge s (leaf ∷ ls) else s)
  unfolding merge
  merge_if true s leaf ls = refl
  merge_if false s leaf ls = refl

  -- The same loop in processData: it keeps the log and the old state up as well.
  pub absorb_lem :
      (r : ℕ) (ls : List Leaf) (c : Commit) (l : Logic)
      → (absorb r ls c l).2 ≡ record l {
        state = merge l.state ls;
        old_state = if follows r l then merge l.old_state ls else l.old_state;
        log = (absorb r ls c l).2.log;
      }
  unfolding absorb
  absorb_lem r [] c l = unfold merge in ground arith
  absorb_lem r (leaf ∷ ls) c l =
      let d = record c { diff = update_diff c.diff leaf.session_name leaf.seq } in
      absorb_lem r ls d (absorb_one r leaf d l)
      ∙ rw (absorb_one_lem r leaf d l)
          (rw (merge_if (follows r l) l.old_state leaf ls) (unfold merge in refl))

  absorb_old-state : (r : ℕ) (leaf : Leaf) (l : Logic) → (absorb_old r leaf l).state ≡ l.state
  unfolding absorb_old
  absorb_old-state r leaf l = ground arith

  absorb-cons :
      (r : ℕ) (leaf : Leaf) (ls : List Leaf) (c : Commit) (l : Logic)
      → let d = record c { diff = update_diff c.diff leaf.session_name leaf.seq } in
        (absorb r (leaf ∷ ls) c l).0
        ≡ add_missing
            (update l.state leaf.session_name leaf.seq).1
            leaf.session_name
            leaf.seq
            (absorb r ls d (absorb_one r leaf d l)).0
  unfolding absorb
  absorb-cons r leaf ls c l =
      let d = record c { diff = update_diff c.diff leaf.session_name leaf.seq } in
      ap
        (λ (s : State).
          add_missing (update s leaf.session_name leaf.seq).1 leaf.session_name leaf.seq
            (absorb r ls d (absorb_one r leaf d l)).0)
        (absorb_old-state r leaf l)

  -- For received leaves in order, the list for the application is that of the leaves that were new
  -- before the loop, each with the range from the number after the known one.
  pub absorb-missing :
      (r : ℕ) (ls : List Leaf) (c : Commit) (l : Logic)
      → IsSorted ls
      → (absorb r ls c l).0 ≡ missing l.state.leaves ls
  absorb-missing r [] c l o = unfold absorb missing in refl
  absorb-missing r (leaf ∷ ls) c l o =
      let d = record c { diff = update_diff c.diff leaf.session_name leaf.seq } in
      let l' = absorb_one r leaf d l in
      absorb-cons r leaf ls c l
      ∙ ap (add_missing (update l.state leaf.session_name leaf.seq).1 leaf.session_name leaf.seq) (
          absorb-missing r ls d l' o.1
          ∙ ap (λ (m : Logic). missing m.state.leaves ls) (absorb_one_lem r leaf d l)
          ∙ missing-update l.state leaf.session_name leaf.seq ls o.0)
      ∙ add_missing-update l.state leaf.session_name leaf.seq (missing l.state.leaves ls)
      ∙ missing-cons l.state.leaves leaf ls
