-- ===== src/SequenceManager/Lookup.antt =====
-- What the operations of the sequence manager do to its slots.
use perf_analyzer.Prelude.{
  ℕ, zero, suc, ◌≡◌, ◌≢◌, refl, ap, ◌⊎◌, inl, inr, Bool, true, false, List, [], ◌∷◌, some, arith,
  get_elem?, set, if◌then◌else◌, Option-cases,
}
use perf_analyzer.SequenceManager.{
  SequenceStatus, SequenceManager, Draws, status_at, in_use, candidate_id, get_next_seq_id,
  fill_status, init_new_sequence,
}

-- A slot after a write is the one written, or the one that was there.
pub get_elem?-set_cases {ℓ} :
    {A : Type ℓ} (xs : List A) (i j : ℕ) (v : A) {t : A}
    → get_elem? (set xs i v) j ≡ some t
    → ((i ≡ j) × (t ≡ v)) ⊎ ((i ≢ j) × (get_elem? xs j ≡ some t))
get_elem?-set_cases [] i j v h = cc
get_elem?-set_cases (x ∷ xs) zero zero v h = inl (refl, cc)
get_elem?-set_cases (x ∷ xs) zero (suc j) v h = inr (omega arith, h)
get_elem?-set_cases (x ∷ xs) (suc i) zero v h = inr (omega arith, h)
get_elem?-set_cases (x ∷ xs) (suc i) (suc j) v h = elim (get_elem?-set_cases xs i j v h) [
  | inl (e, f) ↦ inl (ap suc e, f)
  | inr (n, f) ↦ inr (omega arith, f)
]

pub in_use_ne :
    (id : ℕ) (ss : List SequenceStatus) (j : ℕ) {t : SequenceStatus}
    → in_use id ss ≡ false
    → get_elem? ss j ≡ some t
    → id ≢ t.seq_id
unfolding in_use
in_use_ne id [] j h g = cc
in_use_ne id (s ∷ ss) zero h g = ground arith
in_use_ne id (s ∷ ss) (suc j) h g = in_use_ne id ss j (ground arith) g

-- A renewed slot: its new id is the old one, or the next candidate where no slot holds that.
pub record Renewed (d : Draws) (m : SequenceManager) (i : ℕ) (m' : SequenceManager) : Type 0 where
  pub old : SequenceStatus
  pub id : ℕ
  pub found : status_at m i ≡ some old
  pub chosen :
      ((in_use (candidate_id m) m.sequence_statuses ≡ false) × (id ≡ candidate_id m))
      ⊎ ((in_use (candidate_id m) m.sequence_statuses ≡ true) × (id ≡ old.seq_id))
  pub statuses :
      m'.sequence_statuses
      ≡ set m.sequence_statuses i (fill_status d m.settings (record old { seq_id = id }))
  pub settings : m'.settings ≡ m.settings

next_id_cases :
    (b : Bool) (old next : ℕ)
    → ((b ≡ false) × ((if b then old else next) ≡ next))
      ⊎ ((b ≡ true) × ((if b then old else next) ≡ old))
next_id_cases true old next = inr (refl, refl)
next_id_cases false old next = inl (refl, refl)

pub init_new_sequence-Renewed :
    (d : Draws) (m : SequenceManager) (i : ℕ) {m' : SequenceManager}
    → init_new_sequence d m i ≡ some m'
    → Renewed d m i m'
unfolding init_new_sequence get_next_seq_id
init_new_sequence-Renewed d m i h = elim (Option-cases (status_at m i)) [
  | inl e ↦ absurd (ground arith)
  | inr (s, e) ↦ record {
    old = s;
    id = if in_use (candidate_id m) m.sequence_statuses then s.seq_id else candidate_id m;
    found = e;
    chosen = next_id_cases (in_use (candidate_id m) m.sequence_statuses) s.seq_id _;
    statuses = ground arith;
    settings = ground arith;
  }
]
