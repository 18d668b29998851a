-- ===== src/Profiler/Window/Partition.antt =====
-- The scan by indices is a partition of the records.
use perf_analyzer.Prelude.{
  count, ℕ, suc, ◌+◌, ◌-◌, ◌≤◌, ◌≡◌, inl, inr, refl, sym, ap, ◌∙◌, Bool, true, false, not, ◌&&◌,
  List, [], ◌∷◌, ◌++◌, map, Option, none, some, leb, if◌then◌else◌, length, get_elem?, arith, All,
  Bool-cases,
}
use perf_analyzer.Profiler.Window.Ends.{end_of, IsAnswered, request_end-end_of}
use perf_analyzer.Profiler.Window.{
  RequestRecord, Measured, request_end, one_if, take_record, scan, found, pick, erase_at,
  erase_backwards, sort, valid_latency_measurement,
}
use perf_analyzer.Profiler.Window.Sorted.{Sorted, sort-Sorted, count-sort}

-- Whether the window counts a request that ends at `end`, and whether it takes the record.
abbrev pub counts : ℕ → ℕ → RequestRecord → Option ℕ → Bool
counts first second r none = false
counts first second r (some end) = leb r.start_time end && (leb first end && leb end second)

abbrev pub takes : ℕ → ℕ → RequestRecord → Option ℕ → Bool
takes first second r none = true
takes first second r (some end) = counts first second r (some end)

abbrev pub filter : (RequestRecord → Bool) → List RequestRecord → List RequestRecord
filter p [] = []
filter p (r ∷ rs) = if p r then r ∷ filter p rs else filter p rs

abbrev pub latency : RequestRecord → Option ℕ → ℕ
latency r none = 0
latency r (some end) = end - r.start_time

abbrev positions : (RequestRecord → Bool) → ℕ → List RequestRecord → List ℕ
positions p i [] = []
positions p i (r ∷ rs) = if p r then i ∷ positions p (suc i) rs else positions p (suc i) rs

positions-suc :
    (p : RequestRecord → Bool) (i : ℕ) (rs : List RequestRecord)
    → positions p (suc i) rs ≡ map suc (positions p i rs)
positions-suc p i [] = refl
positions-suc p i (r ∷ rs) = elim (Bool-cases (p r)) [
  | inl e ↦ rw (e, positions-suc p (suc i) rs)
  | inr e ↦ rw (e, positions-suc p (suc i) rs)
]

pick-suc :
    (r : RequestRecord) (rs : List RequestRecord) (is : List ℕ)
    → pick (r ∷ rs) (map suc is) ≡ pick rs is
unfolding pick
pick-suc r rs [] = refl
pick-suc r rs (i ∷ is) = ap (found (get_elem? rs i)) (pick-suc r rs is)

pick-positions :
    (p : RequestRecord → Bool) (rs : List RequestRecord) → pick rs (positions p 0 rs) ≡ filter p rs
unfolding pick
pick-positions p [] = refl
pick-positions p (r ∷ rs) =
    let rest : pick (r ∷ rs) (positions p 1 rs) ≡ filter p rs =
      ap (pick (r ∷ rs)) (positions-suc p 0 rs)
      ∙ pick-suc r rs (positions p 0 rs)
      ∙ pick-positions p rs in
    elim (Bool-cases (p r)) [ inl e ↦ rw (e, rest) | inr e ↦ rw (e, rest) ]

erase-suc :
    (r : RequestRecord) (rs : List RequestRecord) (is : List ℕ)
    → erase_backwards (map suc is) (r ∷ rs) ≡ r ∷ erase_backwards is rs
unfolding erase_backwards erase_at
erase-suc r rs [] = refl
erase-suc r rs (i ∷ is) = ap (erase_at (suc i)) (erase-suc r rs is)

erase-positions :
    (p : RequestRecord → Bool) (rs : List RequestRecord)
    → erase_backwards (positions p 0 rs) rs ≡ filter (λ r. not (p r)) rs
unfolding erase_backwards erase_at
erase-positions p [] = refl
erase-positions p (r ∷ rs) =
    let rest : erase_backwards (positions p 1 rs) (r ∷ rs) ≡ r ∷ filter (λ x. not (p x)) rs =
      ap (λ is. erase_backwards is (r ∷ rs)) (positions-suc p 0 rs)
      ∙ erase-suc r rs (positions p 0 rs)
      ∙ ap (λ l. r ∷ l) (erase-positions p rs) in
    elim (Bool-cases (p r)) [ inl e ↦ rw e (ap (erase_at 0) rest) | inr e ↦ rw e rest ]

-- How many of the records have a flag set.
abbrev pub number : (RequestRecord → Bool) → List RequestRecord → ℕ
number p [] = 0
number p (r ∷ rs) = one_if (p r) + number p rs

-- The responses of a record, less the null one.
abbrev pub responses : List RequestRecord → ℕ
responses [] = 0
responses (r ∷ rs) = (length r.response_timestamps - one_if r.has_null_last_response) + responses rs

abbrev pub counted : ℕ → ℕ → RequestRecord → Bool
counted first second r = counts first second r (end_of r)

abbrev pub taken : ℕ → ℕ → RequestRecord → Bool
taken first second r = takes first second r (end_of r)

abbrev pub latencies : List RequestRecord → List ℕ
latencies rs = map (λ r. latency r (end_of r)) rs

-- What a scan that began with `m` and ended with `n` has added: the counted requests, and the
-- positions of the taken ones.
abbrev Adds : List RequestRecord → List ℕ → Measured → Measured → Type 0
Adds valid at m n =
    (n.valid_latencies ≡ m.valid_latencies ++ latencies valid)
    × (n.valid_sequence_count ≡ m.valid_sequence_count + number (λ r. r.sequence_end) valid)
    × (n.delayed_request_count ≡ m.delayed_request_count + number (λ r. r.delayed) valid)
    × (n.response_count ≡ m.response_count + responses valid)
    × (n.erase_indices ≡ m.erase_indices ++ at)

one_if-le : (b : Bool) → one_if b ≤ 1
one_if-le true = omega arith
one_if-le false = omega arith

snoc-append {ℓ} : {A : Type ℓ} (xs ys : List A) (x : A) → (xs ++ (x ∷ [])) ++ ys ≡ xs ++ (x ∷ ys)
snoc-append [] ys x = refl
snoc-append (z ∷ zs) ys x = ap (λ l. z ∷ l) (snoc-append zs ys x)

prepend_none :
    (first second i : ℕ) (r : RequestRecord) (valid : List RequestRecord) (at : List ℕ)
    (m n : Measured)
    → Adds valid at (take_record first second i r none m) n
    → Adds valid (i ∷ at) m n
unfolding take_record
prepend_none first second i r valid at m n (a, b, c, d, e) =
    (a, b, c, d, e ∙ snoc-append m.erase_indices at i)

prepend_kept :
    (first second i end : ℕ) (r : RequestRecord) (valid : List RequestRecord) (at : List ℕ)
    (m n : Measured)
    → counts first second r (some end) ≡ false
    → Adds valid at (take_record first second i r (some end) m) n
    → Adds valid at m n
unfolding take_record
prepend_kept first second i end r valid at m n h adds = rw h at adds

prepend_counted :
    (first second i end : ℕ) (r : RequestRecord) (valid : List RequestRecord) (at : List ℕ)
    (m n : Measured)
    → counts first second r (some end) ≡ true
    → some end ≡ end_of r
    → IsAnswered r
    → Adds valid at (take_record first second i r (some end) m) n
    → Adds (r ∷ valid) (i ∷ at) m n
unfolding take_record
prepend_counted first second i end r valid at m n h e answered adds =
    let (a, b, c, d, f) = rw h at adds in
    let flag : one_if r.has_null_last_response ≤ 1 = one_if-le r.has_null_last_response in
    (
      a
          ∙ snoc-append m.valid_latencies (latencies valid) (end - r.start_time)
          ∙ ap (λ o. m.valid_latencies ++ (latency r o ∷ latencies valid)) e,
      omega (arith, b),
      omega (arith, c),
      omega (arith, d, flag, answered),
      f ∙ snoc-append m.erase_indices at i,
    )

prepend :
    (first second i : ℕ) (r : RequestRecord) (rs : List RequestRecord) (m n : Measured)
    → IsAnswered r
    → (o : Option ℕ) → o ≡ end_of r
    → Adds
        (filter (counted first second) rs)
        (positions (taken first second) (suc i) rs)
        (take_record first second i r o m)
        n
    → Adds (filter (counted first second) (r ∷ rs)) (positions (taken first second) i (r ∷ rs)) m n
prepend first second i r rs m n answered none e adds =
    let c : counted first second r ≡ false = ap (counts first second r) (sym e) in
    let t : taken first second r ≡ true = ap (takes first second r) (sym e) in
    rw (c, t) (prepend_none first second i r _ _ m n adds)
prepend first second i r rs m n answered (some end) e adds =
    elim (Bool-cases (counts first second r (some end))) [
      | inl h ↦
          let c : counted first second r ≡ true = ap (counts first second r) (sym e) ∙ h in
          let t : taken first second r ≡ true = ap (takes first second r) (sym e) ∙ h in
          rw (c, t) (prepend_counted first second i end r _ _ m n h e answered adds)
      | inr h ↦
          let c : counted first second r ≡ false = ap (counts first second r) (sym e) ∙ h in
          let t : taken first second r ≡ false = ap (takes first second r) (sym e) ∙ h in
          rw (c, t) (prepend_kept first second i end r _ _ m n h adds)
    ]

append-nil {ℓ} : {A : Type ℓ} (xs : List A) → xs ≡ xs ++ []
append-nil [] = refl
append-nil (x ∷ xs) = ap (λ l. x ∷ l) (append-nil xs)

scan-Adds :
    (first second i : ℕ) (rs : List RequestRecord) (m : Measured)
    → All IsAnswered rs
    → Adds
        (filter (counted first second) rs)
        (positions (taken first second) i rs)
        m
        (scan first second i rs m)
unfolding scan
scan-Adds first second i [] m a = (
  append-nil m.valid_latencies,
  omega arith,
  omega arith,
  omega arith,
  append-nil m.erase_indices,
)
scan-Adds first second i (r ∷ rs) m (answered, a) =
    prepend first second i r rs m _ answered (request_end r) (request_end-end_of r answered)
      (scan-Adds first second (suc i) rs (take_record first second i r (request_end r) m) a)

-- Where every record has a response, and a request ends with the last response that is not null, the
-- window takes exactly the records that end within it after they began, and the ones whose only
-- response is null, in their order, and leaves exactly the others, in theirs. The latencies, in ascending order, are those of the former alone, each as often
-- as it was measured; the counts of responses (the null ones not counted), of ended sequences and
-- of delayed requests are theirs, the last on top of what the caller passes.
pub valid_latency_measurement_lem :
    (first second delayed : ℕ) (rs : List RequestRecord)
    → All IsAnswered rs
    → (m : Measured) × (valid_latency_measurement first second delayed rs
        ≡ (m, filter (taken first second) rs, filter (λ r. not (taken first second r)) rs))
      × Sorted m.valid_latencies
      × ((n : ℕ)
          → count n m.valid_latencies ≡ count n (latencies (filter (counted first second) rs)))
      × (m.response_count ≡ responses (filter (counted first second) rs))
      × (m.valid_sequence_count ≡ number (λ r. r.sequence_end) (filter (counted first second) rs))
      × (m.delayed_request_count
          ≡ delayed + number (λ r. r.delayed) (filter (counted first second) rs))
unfolding valid_latency_measurement
valid_latency_measurement_lem first second delayed rs a =
    let start : Measured = record {
      valid_latencies = [];
      valid_sequence_count = 0;
      delayed_request_count = delayed;
      response_count = 0;
      erase_indices = [];
    } in
    let m : Measured = scan first second 0 rs start in
    let (l, b, c, d, e) = scan-Adds first second 0 rs start a in
    (
      record m { valid_latencies = sort m.valid_latencies },
      ap
            (λ is. (
              record m { valid_latencies = sort m.valid_latencies },
              pick rs is,
              erase_backwards is rs,
            ))
            e
          ∙ rw (pick-positions (taken first second) rs, erase-positions (taken first second) rs),
      sort-Sorted m.valid_latencies,
      λ n. count-sort n m.valid_latencies ∙ ap (count n) l,
      omega (arith, d),
      omega (arith, b),
      c,
    )
