-- ===== src/ProfileDataCollector/Experiments.antt =====
-- The experiments as a map from modes.
use perf_analyzer.Prelude.{
  ℕ, ◌≡◌, ◌≢◌, refl, sym, ap, ◌∙◌, Bool, true, false, List, [], ◌∷◌, ◌++◌, Option, none, some, inl,
  inr, ◌⊎◌, ◌<◌, length, ◌==◌, arith, ℕ_discrete,
}
use perf_analyzer.ProfileDataCollector.Updates.{
  Keeps, found_or_new, find-update_self, find-update_other, find-append_self, find-append_other,
  find-same,
}
use mathlib.Core.List.{append-nil}
use perf_analyzer.Profiler.Window.{RequestRecord}
use perf_analyzer.ProfileDataCollector.{
  back, Experiment, find_experiment, update_experiment, add_boundaries, add_window_to, add_window,
  add_data,
}

back_lem :
    (xs : List ℕ)
    → 0 < length xs
    → (init : List ℕ) × (b : ℕ) × (back xs ≡ some b) × (xs ≡ init ++ (b ∷ []))
unfolding back
back_lem [] h = absurd (omega arith)
back_lem (x ∷ []) h = ([], x, refl, refl)
back_lem (x ∷ y ∷ xs) h =
    let (init, b, e, split) = back_lem (y ∷ xs) (omega arith) in
    (x ∷ init, b, e, ap (λ l. x ∷ l) split)

snoc_twice : (xs : List ℕ) (x y : ℕ) → (xs ++ (x ∷ [])) ++ (y ∷ []) ≡ xs ++ (x ∷ y ∷ [])
snoc_twice [] x y = refl
snoc_twice (z ∷ zs) x y = ap (λ l. z ∷ l) (snoc_twice zs x y)

module _ {Mode : Type 0} (same : Mode → Mode → Bool) where
  -- How a window from `start` to `end` extends the boundaries: its end is added, and before it its
  -- start unless that is the last boundary.
  abbrev pub Extends : ℕ → ℕ → List ℕ → List ℕ → Type 0
  Extends start end before after =
      (init : List ℕ) × (b : ℕ) × (before ≡ init ++ (b ∷ []))
      × (((b ≡ start) × (after ≡ before ++ (end ∷ [])))
          ⊎ ((b ≢ start) × (after ≡ before ++ (start ∷ end ∷ []))))

  -- What is recorded of a window under a mode, by what was recorded before.
  abbrev pub Records :
      Mode → ℕ → ℕ → List RequestRecord → Option (Experiment Mode) → Experiment Mode → Type 0
  Records id start end rs none e =
      e ≡ record { mode = id; requests = rs; window_boundaries = start ∷ end ∷ [] }
  Records id start end rs (some old) e =
      (e.mode ≡ old.mode)
      × (e.requests ≡ old.requests ++ rs)
      × Extends start end old.window_boundaries e.window_boundaries

  -- An experiment that was recorded before has a boundary.
  abbrev pub HasBoundary : Option (Experiment Mode) → Type 0
  HasBoundary none = Unit
  HasBoundary (some e) = 0 < length e.window_boundaries

  add_boundaries-Extends :
      (start end : ℕ) (e : Experiment Mode)
      → 0 < length e.window_boundaries
      → (e' : Experiment Mode) × (add_boundaries same start end e ≡ some e')
        × (e'.mode ≡ e.mode)
        × (e'.requests ≡ e.requests)
        × Extends start end e.window_boundaries e'.window_boundaries
  unfolding add_boundaries
  add_boundaries-Extends start end e h =
      let (init, b, at, split) = back_lem e.window_boundaries h in
      elim (ℕ_discrete b start) [
        | yes y ↦
            let t : (b == start) ≡ true = ground arith in
            (
              record e { window_boundaries = e.window_boundaries ++ (end ∷ []) },
              rw (at, t),
              refl,
              refl,
              (init, b, split, inl (y, refl)),
            )
        | no n ↦
            let t : (b == start) ≡ false = ground arith in
            (
              record e { window_boundaries = e.window_boundaries ++ (start ∷ end ∷ []) },
              rw (at, t)
                  (ap (λ bs. some (record e { window_boundaries = bs }))
                    (snoc_twice e.window_boundaries start end)),
              refl,
              refl,
              (init, b, split, inr (n, refl)),
            )
      ]

  -- What a window leaves behind: the experiment of its mode, and the others as they were.
  abbrev Windowed :
      Mode
      → ℕ
      → ℕ
      → Option (Experiment Mode)
      → List (Experiment Mode)
      → List (Experiment Mode)
      → Type 0
  Windowed id start end o es ws =
      ((w : Experiment Mode) × (find_experiment same id ws ≡ some w) × Records id start end [] o w)
      × ((other : Mode)
          → id ≢ other
          → find_experiment same other ws ≡ find_experiment same other es)

  add_window_to-Windowed :
      (id : Mode) (start end : ℕ) (es : List (Experiment Mode)) (o : Option (Experiment Mode))
      → find_experiment same id es ≡ o
      → HasBoundary o
      → same id id ≡ true
      → ((a b : Mode) → same a b ≡ true → a ≡ b)
      → (ws : List (Experiment Mode)) × (add_window_to same id start end o es ≡ some ws)
        × Windowed id start end o es ws
  unfolding Keeps
  add_window_to-Windowed id start end es none at h itself sound =
      let new : Experiment Mode = record {
        mode = id;
        requests = [];
        window_boundaries = start ∷ end ∷ [];
      } in
      (
        es ++ (new ∷ []),
        refl,
        (
          (new, find-append_self same new es at itself, refl),
          λ other ne. find-append_other same new other es sound ne,
        ),
      )
  add_window_to-Windowed id start end es (some old) at h itself sound =
      let (e, added, mode, requests, extends) = add_boundaries-Extends start end old h in
      let here : same e.mode id ≡ true = ap (λ m. same m id) mode ∙ find-same same id es at in
      let change : Experiment Mode → Experiment Mode = λ x. e in
      let new : Experiment Mode = record e { mode = id } in
      (
        update_experiment same change new es,
        rw added,
        (
          (
            e,
            find-update_self same change new es (λ x k. here) itself
                ∙ ap (λ o. some (found_or_new same change new o)) at,
            (mode, requests ∙ sym (append-nil old.requests), extends),
          ),
          λ other ne. find-update_other same change new other es (λ x k. here) sound ne,
        ),
      )

  with_data :
      (id : Mode) (start end : ℕ) (rs : List RequestRecord) (o : Option (Experiment Mode))
      (w : Experiment Mode)
      → Records id start end [] o w
      → Records id start end rs o (record w { requests = w.requests ++ rs })
  with_data id start end rs none w e =
      ap (λ (x : Experiment Mode). record x { requests = x.requests ++ rs }) e
  with_data id start end rs (some old) w (mode, requests, extends) =
      (mode, ap (λ l. l ++ rs) (requests ∙ append-nil old.requests), extends)

-- A measurement adds its window and then its records. Where the equality of modes is reflexive at
-- the mode and never holds of two modes, and an experiment that is there has a boundary, this does not
-- fail. The experiment of the mode is found afterwards: a new one with the window's start and end and
-- the records; or the one that was there, with the records after the ones it had, and after its
-- boundaries the window's end, or the window's start and end where the last boundary is not the
-- start. Every other mode finds what it found before.
pub add_window-add_data :
    {Mode : Type 0} (same : Mode → Mode → Bool) (id : Mode) (start end : ℕ)
    (rs : List RequestRecord) (es : List (Experiment Mode))
    → HasBoundary same (find_experiment same id es)
    → same id id ≡ true
    → ((a b : Mode) → same a b ≡ true → a ≡ b)
    → (ws : List (Experiment Mode)) × (add_window same id start end es ≡ some ws)
      × ((e : Experiment Mode) × (find_experiment same id (add_data same id rs ws) ≡ some e)
          × Records same id start end rs (find_experiment same id es) e)
      × ((other : Mode)
          → id ≢ other
          → find_experiment same other (add_data same id rs ws) ≡ find_experiment same other es)
unfolding add_window add_data Keeps
add_window-add_data {Mode} same id start end rs es boundary itself sound =
    let (ws, added, ((w, found, recorded), others)) =
      add_window_to-Windowed same id start end es (find_experiment same id es) refl boundary itself
        sound in
    let data_ : Experiment Mode = record { mode = id; requests = rs; window_boundaries = [] } in
    let change : Experiment Mode → Experiment Mode =
      λ e. record e { requests = e.requests ++ rs } in
    (
      ws,
      added,
      (
        change w,
        find-update_self same change data_ ws (λ e k. k) itself
            ∙ ap (λ o. some (found_or_new same change data_ o)) found,
        with_data same id start end rs (find_experiment same id es) w recorded,
      ),
      λ other ne.
          find-update_other same change data_ other ws (λ e k. k) sound ne ∙ others other ne,
    )
