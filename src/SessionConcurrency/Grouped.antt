-- ===== src/SessionConcurrency/Grouped.antt =====
-- The sessions into which the payloads of a dataset are grouped.
use perf_analyzer.Prelude.{
  ℕ, suc, ◌+◌, ◌<◌, ◌≡◌, ◌≢◌, refl, sym, ap, ◌∙◌, false, List, [], ◌∷◌, ◌++◌, map, some, ltb,
  if◌then◌else◌, length, All, arith, count, count-append, concat, All-Perm, length-map,
}
use mathlib.Core.List.{append_assoc, append-nil, Permᴰ}
use perf_analyzer.SessionConcurrency.{
  Payload, same_id, push_payload, create_session_id_to_payloads_map, dataset_of,
  group_payloads_by_session,
}
use perf_analyzer.SessionConcurrency.Pushed.{
  positions, Sessions, key_of, payloads_of, same_id_self, different, payloads_of-push, Distinct,
  push-Distinct, Filled, push-Filled, count-push,
}

-- The loop when every session id is there.
abbrev push_all : ℕ → List (List ℕ) → Sessions → Sessions
push_all i [] m = m
push_all i (id ∷ ids) m = push_all (suc i) ids (push_payload id i m)

create_lem :
    (i : ℕ) (payloads : List Payload) (ids : List (List ℕ)) (m : Sessions)
    → map (λ p. p.session_id) payloads ≡ map some ids
    → create_session_id_to_payloads_map i payloads m ≡ some (push_all i ids m)
unfolding create_session_id_to_payloads_map
create_lem i [] [] m h = refl
create_lem i [] (id ∷ ids) m h = cc
create_lem i (p ∷ ps) [] m h = cc
create_lem i (p ∷ ps) (id ∷ ids) m h =
    let e : p.session_id ≡ some id = cc in
    let rest : map (λ p. p.session_id) ps ≡ map some ids = cc in
    rw e (create_lem (suc i) ps ids (push_payload id i m) rest)

payloads_of-push_all :
    (key : List ℕ) (i : ℕ) (ids : List (List ℕ)) (m : Sessions)
    → payloads_of key (push_all i ids m) ≡ payloads_of key m ++ positions key i ids
payloads_of-push_all key i [] m = sym (append-nil (payloads_of key m))
payloads_of-push_all key i (id ∷ ids) m =
    payloads_of-push_all key (suc i) ids (push_payload id i m)
    ∙ ap (λ l. l ++ positions key (suc i) ids) (payloads_of-push key id i m)
    ∙ append_assoc (payloads_of key m) (if same_id key id then i ∷ [] else [])
        (positions key (suc i) ids)

push_all-Distinct :
    (i : ℕ) (ids : List (List ℕ)) (m : Sessions) → Distinct m → Distinct (push_all i ids m)
push_all-Distinct i [] m u = u
push_all-Distinct i (id ∷ ids) m u =
    push_all-Distinct (suc i) ids (push_payload id i m) (push-Distinct id i m u)

push_all-Filled :
    (i : ℕ) (ids : List (List ℕ)) (m : Sessions) → All Filled m → All Filled (push_all i ids m)
push_all-Filled i [] m a = a
push_all-Filled i (id ∷ ids) m a =
    push_all-Filled (suc i) ids (push_payload id i m) (push-Filled id i m a)

count-push_all :
    (n i : ℕ) (ids : List (List ℕ)) (m : Sessions)
    → count n (concat (map dataset_of (push_all i ids m)))
      ≡ count n (concat (map dataset_of m))
        + (if ltb n i then 0 else (if ltb n (i + length ids) then 1 else 0))
count-push_all n i [] m = ground arith
count-push_all n i (id ∷ ids) m =
    let rest = count-push_all n (suc i) ids (push_payload id i m) in
    let one = count-push n id i m in ground (arith, rest, one)

-- The dataset of each session of the map is what the map holds under its id.
own_payloads : (m : Sessions) → Distinct m → All (λ g. payloads_of (key_of g) m ≡ dataset_of g) m
own_payloads [] u = tt
own_payloads ((k, d) ∷ rest) (a, u) = (rw (same_id_self k), later rest a (own_payloads rest u))
  where
    later :
        (gs : Sessions)
        → All (λ g. k ≢ key_of g) gs
        → All (λ g. payloads_of (key_of g) rest ≡ dataset_of g) gs
        → All (λ g. payloads_of (key_of g) ((k, d) ∷ rest) ≡ dataset_of g) gs
    later [] a o = tt
    later (g ∷ gs) (n, a) (e, o) =
        let f : same_id (key_of g) k ≡ false = different (λ h. n (sym h)) in (rw f e, later gs a o)

-- A session of a dataset with these session ids: the indices of its payloads, from the first to the
-- last.
abbrev pub IsSession : List (List ℕ) → List ℕ → Type 0
IsSession ids session = (id : List ℕ) × (session ≡ positions id 0 ids) × (0 < length session)

count-Perm :
    (n : ℕ) {xs ys : Sessions}
    → Permᴰ xs ys
    → count n (concat (map dataset_of xs)) ≡ count n (concat (map dataset_of ys))
count-Perm n Permᴰ.nil = refl
count-Perm n (Permᴰ.cons {a = a} {b = b} {l₁ = l₁} {l₂ = l₂} e d) =
    count-append n (dataset_of a) (concat (map dataset_of l₁))
    ∙ ap (λ x. count n (dataset_of x) + count n (concat (map dataset_of l₁))) e
    ∙ ap (λ k. count n (dataset_of b) + k) (count-Perm n d)
    ∙ sym (count-append n (dataset_of b) (concat (map dataset_of l₂)))
count-Perm n (Permᴰ.swap {a = a} {b = b} {a' = a'} {b' = b'} {l = l} e f) =
    let rest = concat (map dataset_of l) in
    omega (
      arith,
      count-append n (dataset_of a) (dataset_of b ++ rest),
      count-append n (dataset_of b) rest,
      count-append n (dataset_of a') (dataset_of b' ++ rest),
      count-append n (dataset_of b') rest,
      ap (λ x. count n (dataset_of x)) e,
      ap (λ x. count n (dataset_of x)) f,
    )
count-Perm n (Permᴰ.trans d e) = count-Perm n d ∙ count-Perm n e

as_sessions :
    (ids : List (List ℕ)) (m : Sessions) (gs : Sessions)
    → ((key : List ℕ) → payloads_of key m ≡ positions key 0 ids)
    → All (λ g. payloads_of (key_of g) m ≡ dataset_of g) gs
    → All Filled gs
    → All (λ g. IsSession ids (dataset_of g)) gs
as_sessions ids m [] h o a = tt
as_sessions ids m (g ∷ gs) h (e, o) (p, a) =
    ((key_of g, sym e ∙ h (key_of g), p), as_sessions ids m gs h o a)

All-map :
    (ids : List (List ℕ)) (gs : Sessions)
    → All (λ g. IsSession ids (dataset_of g)) gs
    → All (IsSession ids) (map dataset_of gs)
All-map ids [] a = tt
All-map ids (g ∷ gs) (p, a) = (p, All-map ids gs a)

-- A dataset of one stream whose payloads have all a session id is grouped, in whatever order the
-- map is walked, into sessions: each is the indices of all of the payloads with one session id, from
-- the first to the last, and every payload of the dataset stands in them once.
pub group_payloads_by_session-IsSession :
    (order : Sessions → Sessions)
    → ((m : Sessions) → Permᴰ (order m) m)
    → (payloads : List Payload) (ids : List (List ℕ))
    → map (λ p. p.session_id) payloads ≡ map some ids
    → (sessions : List (List ℕ)) × (group_payloads_by_session order (payloads ∷ []) ≡ some sessions)
      × All (IsSession ids) sessions
      × ((n : ℕ) → count n (concat sessions) ≡ (if ltb n (length payloads) then 1 else 0))
unfolding group_payloads_by_session
group_payloads_by_session-IsSession order perm payloads ids h =
    let m : Sessions = push_all 0 ids [] in
    let made : create_session_id_to_payloads_map 0 payloads [] ≡ some m =
      create_lem 0 payloads ids [] h in
    let all : All (λ g. IsSession ids (dataset_of g)) m =
      as_sessions ids m m (λ key. payloads_of-push_all key 0 ids [])
        (own_payloads m (push_all-Distinct 0 ids [] tt)) (push_all-Filled 0 ids [] tt) in
    let len : length payloads ≡ length ids =
      sym (length-map payloads (λ p. p.session_id)) ∙ ap length h ∙ length-map ids some in
    (
      map dataset_of (order m),
      rw made,
      All-map ids (order m) (All-Perm (λ g. IsSession ids (dataset_of g)) (perm m) all),
      λ n. count-Perm n (perm m) ∙ let e = count-push_all n 0 ids [] in ground (arith, e, len),
    )
