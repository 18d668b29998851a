-- ===== src/SequenceManager/Ids.antt =====
-- Correlation ids: which slots may share one, and where they come from.
use perf_analyzer.Prelude.{
  ℕ, zero, ◌≡◌, ◌≢◌, ◌+◌, ◌%◌, refl, ap, ◌∙◌, ◌⊎◌, inl, inr, false, List, some, arith, suc,
  get_elem?, set, replicate, get_elem?-set_self, lt_of_get_elem?,
}
use perf_analyzer.SequenceManager.{
  SequenceStatus, SequenceManager, Draws, Settings, status_at, in_use, fill_status,
  init_new_sequence, init_sequence_statuses, new_status,
}
use perf_analyzer.SequenceManager.Lookup.{
  get_elem?-set_cases, in_use_ne, Renewed, init_new_sequence-Renewed,
}

-- Two slots may share no id but the initial 0.
abbrev pub IsDistinct : List SequenceStatus → Type 0
IsDistinct ss =
    (i j : ℕ) (s t : SequenceStatus)
    → get_elem? ss i ≡ some s
    → get_elem? ss j ≡ some t
    → s.seq_id ≡ t.seq_id
    → (i ≡ j) ⊎ (s.seq_id ≡ 0)

-- The new id is one that no slot holds, or the one that the slot had.
abbrev IsFresh : List SequenceStatus → ℕ → ℕ → Type 0
IsFresh ss i id =
    (in_use id ss ≡ false)
    ⊎ ((old : SequenceStatus) × (get_elem? ss i ≡ some old) × (id ≡ old.seq_id))

fresh_apart :
    (ss : List SequenceStatus) (i j : ℕ) (id : ℕ) (t : SequenceStatus)
    → IsDistinct ss
    → IsFresh ss i id
    → i ≢ j
    → get_elem? ss j ≡ some t
    → id ≡ t.seq_id
    → id ≡ 0
fresh_apart ss i j id t d (inl unused) n g e = absurd (in_use_ne id ss j unused g e)
fresh_apart ss i j id t d (inr (old, found, same)) n g e = ground (arith, d i j old t found g)

set-IsDistinct :
    (ss : List SequenceStatus) (i : ℕ) (v : SequenceStatus)
    → IsDistinct ss
    → IsFresh ss i v.seq_id
    → IsDistinct (set ss i v)
set-IsDistinct ss i v d f j k s t gj gk e = elim (get_elem?-set_cases ss i j v gj) [
  | inl (ij, sv) ↦ elim (get_elem?-set_cases ss i k v gk) [
    | inl (ik, tv) ↦ inl (omega arith)
    | inr (nk, hk) ↦ ground (arith, fresh_apart ss i k v.seq_id t d f nk hk)
  ]
  | inr (nj, hj) ↦ elim (get_elem?-set_cases ss i k v gk) [
    | inl (ik, tv) ↦ ground (arith, fresh_apart ss i j v.seq_id s d f nj hj)
    | inr (nk, hk) ↦ d j k s t hj hk e
  ]
]

seq_id-fill_status :
    (d : Draws) (c : Settings) (s : SequenceStatus) → (fill_status d c s).seq_id ≡ s.seq_id
unfolding fill_status
seq_id-fill_status d c s = ground arith

slot_after :
    (d : Draws) (m : SequenceManager) (i : ℕ) {m' : SequenceManager} (r : Renewed d m i m')
    → (new : SequenceStatus) × (m'.sequence_statuses ≡ set m.sequence_statuses i new)
      × (status_at m' i ≡ some new)
      × (new.seq_id ≡ r.id)
slot_after d m i r =
    let v : SequenceStatus = fill_status d m.settings (record (r.old) { seq_id = r.id }) in
    (
      v,
      r.statuses,
      ap (λ ss. get_elem? ss i) (r.statuses)
          ∙ get_elem?-set_self m.sequence_statuses i v (lt_of_get_elem? _ _ (r.found)),
      seq_id-fill_status d m.settings (record (r.old) { seq_id = r.id }),
    )

-- If two slots share no id but the initial 0, then none do after a new sequence was started in one of
-- them. Slots with the id 0 may still share it, running or not.
pub init_new_sequence-IsDistinct :
    (d : Draws) (m : SequenceManager) (i : ℕ) {m' : SequenceManager}
    → init_new_sequence d m i ≡ some m'
    → IsDistinct m.sequence_statuses
    → IsDistinct m'.sequence_statuses
init_new_sequence-IsDistinct d m i h apart =
    let r = init_new_sequence-Renewed d m i h in
    let (v, statuses, _, e) = slot_after d m i r in
    let fresh : IsFresh m.sequence_statuses i v.seq_id = elim (r.chosen) [
      | inl (unused, c) ↦ inl (rw (e, c) unused)
      | inr (_, c) ↦ inr (r.old, r.found, e ∙ c)
    ] in
    rw statuses (set-IsDistinct m.sequence_statuses i v apart fresh)

get_elem?-replicate {ℓ} :
    {A : Type ℓ} (n i : ℕ) (a : A) {s : A} → get_elem? (replicate n a) i ≡ some s → s ≡ a
get_elem?-replicate zero i a h = cc
get_elem?-replicate (suc n) zero a h = cc
get_elem?-replicate (suc n) (suc i) a h = get_elem?-replicate n i a h

-- New slots have the initial id 0.
pub init_sequence_statuses-IsDistinct :
    (n : ℕ) (m : SequenceManager) → IsDistinct (init_sequence_statuses n m).sequence_statuses
unfolding init_sequence_statuses
init_sequence_statuses-IsDistinct n m i j s t gi gj e =
    inr (rw (get_elem?-replicate n i new_status gi) refl)

-- The id that is next in the range of the settings.
abbrev pub next_in_range : SequenceManager → ℕ
next_in_range m = m.start_sequence_id + m.curr_seq_id % m.sequence_id_range

-- Some slot has the id.
abbrev pub IsHeld : ℕ → SequenceManager → Type 0
IsHeld id m =
    (j : ℕ) × (t : SequenceStatus) × (get_elem? m.sequence_statuses j ≡ some t) × (t.seq_id ≡ id)
