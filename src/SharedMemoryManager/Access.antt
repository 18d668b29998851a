-- ===== src/SharedMemoryManager/Access.antt =====
-- The bounds that GetMemoryInfo checks.
use perf_analyzer.Prelude.{
  ℕ, ◌+◌, ◌-◌, ◌≤◌, ◌<◌, ◌≡◌, ◌⊎◌, inl, inr, refl, ap, ◌∙◌, true, false, none, some, ltb, ◌||◌,
  add_u64, sub_u64, u64_mod, arith, dec_lt,
}
use perf_analyzer.Status.{ok, err, generic_error}
use perf_analyzer.SharedMemoryManager.{
  MemoryType, cpu, gpu, MemoryInfo, MemoryMap, find, kind_offset, memory_of, own_offset,
  shm_region_end, address, get_memory_info,
}

-- A region as the two registrations make it, without an offset, and with a size from 1 to the largest
-- size_t.
abbrev pub IsRegion : MemoryInfo → Type 0
IsRegion i = (i.offset ≡ 0) × (0 < i.byte_size) × (i.byte_size < u64_mod)

kind_offset-zero : (k : MemoryType) (o : ℕ) → o ≡ 0 → kind_offset k o ≡ 0
kind_offset-zero cpu o e = e
kind_offset-zero gpu o e = refl

own_offset-zero : (i : MemoryInfo) → IsRegion i → own_offset i ≡ 0
unfolding own_offset
own_offset-zero i (o, pos, fits) = kind_offset-zero i.kind i.offset o

region_end : (i : MemoryInfo) → IsRegion i → shm_region_end i ≡ i.byte_size - 1
unfolding shm_region_end
region_end i (o, pos, fits) =
    let t : ltb 0 i.byte_size ≡ true = ground arith in
    rw (t, own_offset-zero i (o, pos, fits)) (omega arith)

inside_range :
    (offset byte_size : ℕ) (i : MemoryInfo)
    → IsRegion i
    → ltb (i.byte_size - 1) offset ≡ false
    → ltb (i.byte_size - 1) (sub_u64 (add_u64 offset byte_size) 1) ≡ false
    → memory_of (some i) offset byte_size ≡ (ok, some (i.mapped_addr + offset, i.kind, i.device_id))
unfolding memory_of address
inside_range offset byte_size i region t u =
    let plain : i.mapped_addr + 0 + offset ≡ i.mapped_addr + offset = omega arith in
    rw (region_end i region, t, u, own_offset-zero i region, plain)

outside_range :
    (offset byte_size : ℕ) (i : MemoryInfo)
    → IsRegion i
    → ltb (i.byte_size - 1) offset || ltb (i.byte_size - 1) (sub_u64 (add_u64 offset byte_size) 1)
      ≡ true
    → memory_of (some i) offset byte_size ≡ (err generic_error, none)
unfolding memory_of
outside_range offset byte_size i region t = rw (region_end i region, t)

-- Of a region of at least one byte without an offset, and for a range of at least one byte whose end does not pass the largest
-- size_t, the call succeeds exactly where the range lies inside of the region, and then it gives
-- the address that many bytes into the region, and the region's kind and device.
pub get_memory_info_lem :
    (name offset byte_size : ℕ) (i : MemoryInfo) (m : MemoryMap)
    → find name m ≡ some i
    → IsRegion i
    → 0 < byte_size
    → offset + byte_size < u64_mod
    → ((offset + byte_size ≤ i.byte_size)
        × (get_memory_info name offset byte_size m
            ≡ (ok, some (i.mapped_addr + offset, i.kind, i.device_id))))
      ⊎ ((i.byte_size < offset + byte_size)
          × (get_memory_info name offset byte_size m ≡ (err generic_error, none)))
unfolding get_memory_info
get_memory_info_lem name offset byte_size i m here region pos fits =
    let (o, p, f) = region in
    elim (dec_lt i.byte_size (offset + byte_size)) [
      | yes over ↦
          let t : ltb (i.byte_size - 1) offset
                || ltb (i.byte_size - 1) (sub_u64 (add_u64 offset byte_size) 1)
              ≡ true =
            ground arith in
          inr (
            over,
            ap (λ r. memory_of r offset byte_size) here ∙ outside_range offset byte_size i region t,
          )
      | no inside ↦
          let t : ltb (i.byte_size - 1) offset ≡ false = ground arith in
          let u : ltb (i.byte_size - 1) (sub_u64 (add_u64 offset byte_size) 1) ≡ false =
            ground arith in
          inl (
            omega arith,
            ap (λ r. memory_of r offset byte_size) here
                ∙ inside_range offset byte_size i region t u,
          )
    ]

-- Where the sum of the offset and the size wraps, the call succeeds for a range far larger than the
-- region: any offset inside of it, with a size of 2 ^ 64 less a positive number below that offset.
pub get_memory_info_wraps :
    (name offset back : ℕ) (i : MemoryInfo) (m : MemoryMap)
    → find name m ≡ some i
    → IsRegion i
    → offset < i.byte_size
    → 0 < back
    → back < offset
    → (i.byte_size < offset + (u64_mod - back))
      × (get_memory_info name offset (u64_mod - back) m
          ≡ (ok, some (i.mapped_addr + offset, i.kind, i.device_id)))
unfolding get_memory_info
get_memory_info_wraps name offset back i m here region inside pos less =
    let (o, p, f) = region in
    let t : ltb (i.byte_size - 1) offset ≡ false = ground arith in
    let u : ltb (i.byte_size - 1) (sub_u64 (add_u64 offset (u64_mod - back)) 1) ≡ false =
      ground arith in
    (
      omega arith,
      ap (λ r. memory_of r offset (u64_mod - back)) here
          ∙ inside_range offset (u64_mod - back) i region t u,
    )
