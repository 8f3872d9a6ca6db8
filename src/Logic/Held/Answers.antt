-- ===== src/Logic/Held/Answers.antt =====
-- The replies that are made with sendData and sendCumulativeOnly (logic.cpp): answers to a pending
-- interest and to interests for earlier rounds.
use round_sync.Base.{
  Result, ok, err, ap, ◌∙◌, ℕ, ◌<◌, ◌≡◌, refl, sym, subst, Option, none, some, Option-cases, List,
  arith, inl, inr, true, false, Bool, Bool-cases, ◌==◌, u64_mod, logic_error,
}
use round_sync.Ndn.{Ndn}
use round_sync.State.{find}
use round_sync.State.Lookup.{find_seq}
use round_sync.State.Known.{Numbers}
use round_sync.DiffState.{DiffState, empty_diff_state, get_state_from, state_of_leaf}
use round_sync.Logic.{Logic}
use round_sync.Logic.Exec.{pure, modify, proceed}
use round_sync.Logic.Calls.{send_data, send_cumulative_only}
use round_sync.Logic.Rounds.{Commit, write}
use round_sync.Logic.Recovery.{answer_cumulative_only}
use round_sync.Logic.Publish.{answer_data, answer_part, answer_earlier}
use round_sync.Logic.Process.Seen.{Seen}
use round_sync.Logic.Held.{
  trees, IsHeld, EntryKept, CommitKept, Outcome, Keeps, Any, Keeps-bind, Keeps-modify, Keeps-pure,
  Keeps-raise,
}
use round_sync.Logic.Reach.Sends.{seen-send_data}
use round_sync.Logic.Held.Entries.{write-IsHeld, update_diff-EntryKept, empty-EntryKept}
use round_sync.Logic.Held.Sends.{send_data-Keeps, send_cumulative_only-Keeps}

module _ ⦃ndn : Ndn⦄ (k : Numbers) (me : ndn.Name) where
  open ndn use {Name}
  open k use {Known, zero_known}

  pub answer_cumulative_only-Keeps :
      (r : ℕ) (digest : List ℕ) (o : Option Name)
      → r < u64_mod
      → Keeps (λ l. IsHeld k me (trees l)) (answer_cumulative_only r digest o) Any
  unfolding answer_cumulative_only
  answer_cumulative_only-Keeps r digest none h = Keeps-pure tt tt
  answer_cumulative_only-Keeps r digest (some name) h =
      Keeps-bind (send_cumulative_only name r (some digest))
        (λ _. modify (λ l. record l { pending_data_interest = none }))
        (send_cumulative_only-Keeps k me name r (some digest) h)
        (λ _ _. Keeps-modify (λ l. record l { pending_data_interest = none }) (λ l p. p))

  after_send :
      (c : Commit) (l : Logic)
      → CommitKept k l.current_round c
      → (r : Result DiffState × Logic) → r.1.current_round ≡ l.current_round
      → Outcome
          (λ d m. (EntryKept k d × (d.round ≡ c.diff.round)) × IsHeld k me (trees m))
          (λ m. IsHeld k me (trees m))
          r
      → Outcome
          (λ a m. Any a × IsHeld k me (trees m))
          (λ m. IsHeld k me (trees m))
          (proceed r (λ d. modify (λ m. record (write m.current_round (record c { diff = d }) m) {
            pending_data_interest = none;
          })))
  after_send c l h (ok d, m) same ((entry, round), q) = (
    tt,
    write-IsHeld k me m.current_round (record c { diff = d }) m q
        (record { entry = entry; place = λ x. round ∙ h.place x ∙ sym same }),
  )
  after_send c l h (err e, m) same q = q

  -- The commit that is sent is that of the current round.
  pub answer_data-IsHeld :
      (prefix : Name) (c : Commit) (o : Option Name) (l : Logic)
      → CommitKept k l.current_round c
      → IsHeld k me (trees l)
      → Outcome
          (λ a m. Any a × IsHeld k me (trees m))
          (λ m. IsHeld k me (trees m))
          (answer_data prefix c o l)
  unfolding answer_data
  answer_data-IsHeld prefix c none l h p = (tt, p)
  answer_data-IsHeld prefix c (some name) l h p =
      after_send c l h (send_data prefix name c.diff l)
        (ap (λ (x : Seen). x.current_round) (seen-send_data prefix name c.diff l))
        ((send_data-Keeps k me prefix name c.diff h.entry).at l p)

  -- The part of a session in an entry is an entry itself.
  state_of_leaf-EntryKept :
      (d : DiffState) (n : Name) (q : ℕ)
      → EntryKept k d
      → Known n q
      → EntryKept k (state_of_leaf d n q).0
  unfolding state_of_leaf
  state_of_leaf-EntryKept d n q p h =
      let u = update_diff-EntryKept k empty_diff_state n q (empty-EntryKept k) h in
      record {
        kept = u.kept;
        round_fits = elim (Bool-cases (q == 0)) [
          | inl e ↦ rw e p.round_fits
          | inr e ↦ rw e (omega arith)
        ];
      }

  get_state_from-EntryKept :
      (d : DiffState) (n : Name) (x : DiffState) (only : Bool)
      → EntryKept k d
      → get_state_from d n ≡ some (x, only)
      → EntryKept k x
  unfolding get_state_from
  get_state_from-EntryKept d n x only p h = elim (Option-cases (find n d.leaves)) [
    | inl e ↦ absurd (cc (rw (e, get_state_from) at h))
    | inr (leaf, e) ↦
        let same : (state_of_leaf d n leaf.seq).0 ≡ x = cc (rw (e, get_state_from) at h) in
        subst (EntryKept k) same (
          state_of_leaf-EntryKept d n leaf.seq p
            (p.kept.within n leaf.seq (find_seq n d.leaves {l = leaf} e)))
  ]

  answer_part-Keeps :
      (name : Name) (o : Option (DiffState × Bool))
      → ((d : DiffState) (only : Bool) → o ≡ some (d, only) → EntryKept k d)
      → Keeps (λ l. IsHeld k me (trees l)) (answer_part name o) Any
  unfolding answer_part
  answer_part-Keeps name none h = Keeps-pure tt tt
  answer_part-Keeps name (some (d, false)) h = record {
    at = λ l p.
        (Keeps-bind {H = λ m. IsHeld k me (trees m)}
            {R = λ (x : DiffState). EntryKept k x × (x.round ≡ d.round)} {Q = Any}
            (send_data l.default_user_prefix name d) (λ _. pure tt)
            (send_data-Keeps k me l.default_user_prefix name d (h d false refl))
            (λ _ _. Keeps-pure tt tt)).at
          l p;
  }
  answer_part-Keeps name (some (d, true)) h = elim (Option-cases d.cumulative_info) [
    | inl e ↦ rw (e, answer_part) (Keeps-raise logic_error)
    | inr ((r, digest), e) ↦
        rw (e, answer_part)
          (send_cumulative_only-Keeps k me name r digest (rw e at ((h d true refl).round_fits)))
  ]

  pub answer_earlier-Keeps :
      (name : Name) (o : Option DiffState)
      → ((d : DiffState) → o ≡ some d → EntryKept k d)
      → Keeps (λ l. IsHeld k me (trees l)) (answer_earlier name o) Any
  unfolding answer_earlier
  answer_earlier-Keeps name none h = Keeps-pure tt tt
  answer_earlier-Keeps name (some d) h = record {
    at = λ l p.
        (answer_part-Keeps name (get_state_from d l.session_name)
            (λ x only e. get_state_from-EntryKept d l.session_name x only (h d refl) e)).at
          l p;
  }
