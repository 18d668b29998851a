-- ===== src/ProfileDataCollector/Updates.antt =====
-- Looking up experiments after an update, or after one was added.
use perf_analyzer.Prelude.{
  ◌≡◌, ◌≢◌, sym, ◌∙◌, Bool, true, List, [], ◌∷◌, ◌++◌, Option, none, some, Bool-cases, inl, inr,
  subst,
}
use perf_analyzer.ProfileDataCollector.{Experiment, find_experiment, update_experiment}

module _ {Mode : Type 0} (same : Mode → Mode → Bool) where
  -- What an update leaves under its own mode.
  abbrev pub found_or_new :
      (Experiment Mode → Experiment Mode)
      → Experiment Mode
      → Option (Experiment Mode)
      → Experiment Mode
  found_or_new change new none = new
  found_or_new change new (some e) = change e

  -- An update of the experiment that is found leaves it under its mode.
  unfoldable pub Keeps : (Experiment Mode → Experiment Mode) → Experiment Mode → Type 0
  Keeps change new =
      (e : Experiment Mode) → same e.mode new.mode ≡ true → same (change e).mode new.mode ≡ true

  pub find-update_self :
      (change : Experiment Mode → Experiment Mode) (new : Experiment Mode)
      (es : List (Experiment Mode))
      → Keeps change new
      → same new.mode new.mode ≡ true
      → find_experiment same new.mode (update_experiment same change new es)
        ≡ some (found_or_new change new (find_experiment same new.mode es))
  unfolding find_experiment update_experiment Keeps
  find-update_self change new [] keeps itself = rw itself
  find-update_self change new (e ∷ es) keeps itself = elim (Bool-cases (same e.mode new.mode)) [
    | inl h ↦ rw (h, keeps e h)
    | inr h ↦ rw (h, h, find-update_self change new es keeps itself)
  ]

  pub find-update_other :
      (change : Experiment Mode → Experiment Mode) (new : Experiment Mode) (other : Mode)
      (es : List (Experiment Mode))
      → Keeps change new
      → ((a b : Mode) → same a b ≡ true → a ≡ b)
      → new.mode ≢ other
      → find_experiment same other (update_experiment same change new es)
        ≡ find_experiment same other es
  unfolding find_experiment update_experiment Keeps
  find-update_other change new other [] keeps sound ne = elim (Bool-cases (same new.mode other)) [
    | inl h ↦ absurd (ne (sound _ _ h))
    | inr h ↦ rw h
  ]
  find-update_other change new other (e ∷ es) keeps sound ne =
      elim (Bool-cases (same e.mode new.mode)) [
        | inl h ↦ elim (Bool-cases (same e.mode other)) [
          | inl g ↦ absurd (ne (sym (sound _ _ h) ∙ sound _ _ g))
          | inr g ↦ elim (Bool-cases (same (change e).mode other)) [
            | inl k ↦ absurd (ne (sym (sound _ _ (keeps e h)) ∙ sound _ _ k))
            | inr k ↦ rw (h, k, g)
          ]
        ]
        | inr h ↦ rw (h, find-update_other change new other es keeps sound ne)
      ]

  -- Adding at the end of a list without the mode.
  pub find-append_self :
      (new : Experiment Mode) (es : List (Experiment Mode))
      → find_experiment same new.mode es ≡ none
      → same new.mode new.mode ≡ true
      → find_experiment same new.mode (es ++ (new ∷ [])) ≡ some new
  unfolding find_experiment
  find-append_self new [] h itself = rw itself
  find-append_self new (e ∷ es) h itself = elim (Bool-cases (same e.mode new.mode)) [
    | inl k ↦ let f = rw k at h in cc
    | inr k ↦
        let f : find_experiment same new.mode es ≡ none = rw k at h in
        rw k (find-append_self new es f itself)
  ]

  pub find-append_other :
      (new : Experiment Mode) (other : Mode) (es : List (Experiment Mode))
      → ((a b : Mode) → same a b ≡ true → a ≡ b)
      → new.mode ≢ other
      → find_experiment same other (es ++ (new ∷ [])) ≡ find_experiment same other es
  unfolding find_experiment
  find-append_other new other [] sound ne = elim (Bool-cases (same new.mode other)) [
    | inl h ↦ absurd (ne (sound _ _ h))
    | inr h ↦ rw h
  ]
  find-append_other new other (e ∷ es) sound ne = elim (Bool-cases (same e.mode other)) [
    | inl k ↦ rw k
    | inr k ↦ rw k (find-append_other new other es sound ne)
  ]

  pub find-same :
      (id : Mode) (es : List (Experiment Mode)) {e : Experiment Mode}
      → find_experiment same id es ≡ some e
      → same e.mode id ≡ true
  unfolding find_experiment
  find-same id [] h = cc
  find-same id (x ∷ es) {e = e} h = elim (Bool-cases (same x.mode id)) [
    | inl k ↦
        let f : some x ≡ some e = rw k at h in
        let g : x ≡ e = cc in subst (λ (y : Experiment Mode). same y.mode id ≡ true) g k
    | inr k ↦ let f : find_experiment same id es ≡ some e = rw k at h in find-same id es f
  ]
