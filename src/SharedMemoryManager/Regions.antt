-- ===== src/SharedMemoryManager/Regions.antt =====
-- The map of regions: registering and unregistering.
use perf_analyzer.Prelude.{
  ℕ, ◌≡◌, ◌≢◌, ◌⊎◌, inl, inr, refl, ap, subst, sym, ◌∙◌, true, false, [], ◌∷◌, none, some, ◌==◌,
  arith, ℕ_discrete, Option-cases,
}
use perf_analyzer.Status.{Status, ok, err, generic_error}
use perf_analyzer.SharedMemoryManager.{
  MemoryType, cpu, gpu, MemoryInfo, MemoryMap, find, erase, register, register_cuda_memory,
  register_system_memory, unregister,
}

-- No name is registered twice.
abbrev pub IsDistinct : MemoryMap → Type 0
IsDistinct [] = Unit
IsDistinct ((n, i) ∷ m) = (find n m ≡ none) × IsDistinct m

find-erase_ne : (a b : ℕ) (m : MemoryMap) → a ≢ b → find a (erase b m) ≡ find a m
unfolding find erase
find-erase_ne a b [] h = refl
find-erase_ne a b ((n, i) ∷ m) h = elim (ℕ_discrete b n) [
  | yes e ↦
      let f : (a == n) ≡ false = ground arith in let g : (b == n) ≡ true = ground arith in rw (f, g)
  | no e ↦ let g : (b == n) ≡ false = ground arith in rw (g, find-erase_ne a b m h)
]

find-erase_self : (a : ℕ) (m : MemoryMap) → IsDistinct m → find a (erase a m) ≡ none
unfolding find erase
find-erase_self a [] d = refl
find-erase_self a ((n, i) ∷ m) (fresh, d) = elim (ℕ_discrete a n) [
  | yes e ↦ let g : (a == n) ≡ true = ground arith in rw g (ap (λ x. find x m) e ∙ fresh)
  | no e ↦ let g : (a == n) ≡ false = ground arith in rw (g, g, find-erase_self a m d)
]

erase-hit : (a n : ℕ) (i : MemoryInfo) (m : MemoryMap) → a ≡ n → erase a ((n, i) ∷ m) ≡ m
unfolding erase
erase-hit a n i m e = let g : (a == n) ≡ true = ground arith in rw g

erase-miss :
    (a n : ℕ) (i : MemoryInfo) (m : MemoryMap) → a ≢ n → erase a ((n, i) ∷ m) ≡ (n, i) ∷ erase a m
unfolding erase
erase-miss a n i m e = let g : (a == n) ≡ false = ground arith in rw g

erase-IsDistinct : (a : ℕ) (m : MemoryMap) → IsDistinct m → IsDistinct (erase a m)
unfolding erase
erase-IsDistinct a [] d = tt
erase-IsDistinct a ((n, i) ∷ m) (fresh, d) = elim (ℕ_discrete a n) [
  | yes e ↦ subst IsDistinct (sym (erase-hit a n i m e)) d
  | no e ↦
      subst IsDistinct (sym (erase-miss a n i m e))
        (find-erase_ne n a m (λ e'. e (sym e')) ∙ fresh, erase-IsDistinct a m d)
]

find-cons :
    (a name : ℕ) (i : MemoryInfo) (m : MemoryMap) → a ≢ name → find a ((name, i) ∷ m) ≡ find a m
unfolding find
find-cons a name i m h = let g : (a == name) ≡ false = ground arith in rw g

unregister-cons :
    (name : ℕ) (k : MemoryType) (i : MemoryInfo) (m : MemoryMap)
    → unregister name k ((name, i) ∷ m) ≡ (ok, m)
unfolding unregister find erase
unregister-cons name k i m = let g : (name == name) ≡ true = ground arith in rw g

register-free :
    (name : ℕ) (i : MemoryInfo) (m : MemoryMap)
    → find name m ≡ none
    → register name i m ≡ (ok, (name, i) ∷ m)
unfolding register
register-free name i m e = rw e

register-taken :
    (name : ℕ) (i j : MemoryInfo) (m : MemoryMap)
    → find name m ≡ some j
    → register name i m ≡ (err generic_error, m)
unfolding register
register-taken name i j m e = rw e

-- What a registration of a region does.
abbrev pub Registers : ℕ → MemoryInfo → MemoryMap → Status × MemoryMap → Type 0
Registers name region m r =
    IsDistinct r.1
    × ((a : ℕ) → a ≢ name → find a r.1 ≡ find a m)
    × (((find name m ≡ none)
          × (r.0 ≡ ok)
          × (find name r.1 ≡ some region)
          × (unregister name region.kind r.1 ≡ (ok, m)))
        ⊎ ((find name m ≢ none) × (r ≡ (err generic_error, m))))

find-cons_self : (name : ℕ) (i : MemoryInfo) (m : MemoryMap) → find name ((name, i) ∷ m) ≡ some i
unfolding find
find-cons_self name i m = let g : (name == name) ≡ true = ground arith in rw g

register-Registers :
    (name : ℕ) (i : MemoryInfo) (m : MemoryMap)
    → IsDistinct m
    → Registers name i m (register name i m)
register-Registers name i m d = elim (Option-cases (find name m)) [
  | inl e ↦ subst (Registers name i m) (sym (register-free name i m e)) (
    (e, d),
    λ a h. find-cons a name i m h,
    inl (e, refl, find-cons_self name i m, unregister-cons name i.kind i m),
  )
  | inr (j, e) ↦
      subst (Registers name i m) (sym (register-taken name i j m e))
        (d, λ a h. refl, inr (λ n. ground arith, refl))
]

-- A region that is passed to a registration: it has no offset, and a system region has device 0.
abbrev pub region_of : ℕ → ℕ → MemoryType → ℕ → MemoryInfo
region_of ptr byte_size kind device_id = record {
  offset = 0;
  byte_size = byte_size;
  mapped_addr = ptr;
  kind = kind;
  device_id = device_id;
}

-- In a map of distinct names, registering a system or a CUDA region under a name that is free
-- succeeds. The name then stands for the region at that address, of that size, without an offset,
-- of the kind cpu on device 0 or of the kind gpu on the device; no other name is changed, the names
-- stay distinct, and unregistering the name with its kind gives back the map. Under a name that is
-- taken it fails and changes nothing.
pub register_lem :
    (name ptr byte_size device_id : ℕ) (m : MemoryMap)
    → IsDistinct m
    → Registers name (region_of ptr byte_size cpu 0) m (register_system_memory name ptr byte_size m)
      × Registers name
          (region_of ptr byte_size gpu device_id)
          m
          (register_cuda_memory name ptr byte_size device_id m)
unfolding register_system_memory register_cuda_memory
register_lem name ptr byte_size device_id m d = (
  register-Registers name (region_of ptr byte_size cpu 0) m d,
  register-Registers name (region_of ptr byte_size gpu device_id) m d,
)

unregister-free :
    (name : ℕ) (k : MemoryType) (m : MemoryMap)
    → find name m ≡ none
    → unregister name k m ≡ (err generic_error, m)
unfolding unregister
unregister-free name k m e = rw e

unregister-taken :
    (name : ℕ) (k : MemoryType) (j : MemoryInfo) (m : MemoryMap)
    → find name m ≡ some j
    → unregister name k m ≡ (ok, erase name m)
unfolding unregister
unregister-taken name k j m e = rw e

abbrev pub Unregisters : ℕ → MemoryMap → Status × MemoryMap → Type 0
Unregisters name m r =
    IsDistinct r.1
    × ((a : ℕ) → a ≢ name → find a r.1 ≡ find a m)
    × (find name r.1 ≡ none)
    × (((find name m ≡ none) × (r ≡ (err generic_error, m))) ⊎ ((find name m ≢ none) × (r.0 ≡ ok)))

-- In a map of distinct names, unregistering a name that is there succeeds even where its region
-- is of another kind than the one that is passed; it removes it and no other, and keeps the names
-- distinct; a name that is not there is an
-- error that changes nothing.
pub unregister_lem :
    (name : ℕ) (k : MemoryType) (m : MemoryMap)
    → IsDistinct m
    → Unregisters name m (unregister name k m)
unregister_lem name k m d = elim (Option-cases (find name m)) [
  | inl e ↦
      subst (Unregisters name m) (sym (unregister-free name k m e))
        (d, λ a h. refl, e, inl (e, refl))
  | inr (j, e) ↦ subst (Unregisters name m) (sym (unregister-taken name k j m e)) (
    erase-IsDistinct name m d,
    λ a h. find-erase_ne a name m h,
    find-erase_self name m d,
    inr (λ n. ground arith, refl),
  )
]
