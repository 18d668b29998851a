-- ===== src/SharedMemoryManager.antt =====
-- SharedMemoryManager (src/client_backend/triton_c_api/shared_memory_manager.{h,cc}): the map from
-- the names of shared memory regions to their addresses and sizes. A name is a number, for only its
-- equality is used, and the map is a list of names with their regions. The lock makes each
-- operation one step. The messages of errors carry no state.
pub mod Regions
pub mod Access
use perf_analyzer.Prelude.{
  ℕ, zero, suc, ◌+◌, ◌-◌, ◌*◌, ◌≤◌, ◌<◌, ◌≡◌, refl, Bool, true, false, List, [], ◌∷◌, Option, none,
  some, ltb, leb, ◌==◌, if◌then◌else◌, add_u64, sub_u64, ◌&&◌, ◌||◌,
}
use perf_analyzer.Status.{Status, ok, err, generic_error}

-- TRITONSERVER_MemoryType, of which these two are used.
pub data MemoryType : Type 0 where
  cpu gpu : MemoryType

abbrev pub same_kind : MemoryType → MemoryType → Bool
same_kind cpu cpu = true
same_kind gpu gpu = true
same_kind cpu gpu = false
same_kind gpu cpu = false

pub record MemoryInfo : Type 0 where
  pub offset : ℕ
  pub byte_size : ℕ
  pub mapped_addr : ℕ
  pub kind : MemoryType
  pub device_id : ℕ

-- shared_memory_map_
abbrev pub MemoryMap : Type 0
MemoryMap = List (ℕ × MemoryInfo)

abbrev pub is_some : Option MemoryInfo → Bool
is_some none = false
is_some (some i) = true

unfoldable pub find : ℕ → MemoryMap → Option MemoryInfo
find name [] = none
find name ((n, i) ∷ m) = if name == n then some i else find name m

unfoldable pub erase : ℕ → MemoryMap → MemoryMap
erase name [] = []
erase name ((n, i) ∷ m) = if name == n then m else (n, i) ∷ erase name m

unfoldable pub register : ℕ → MemoryInfo → MemoryMap → Status × MemoryMap
register name i m = if is_some (find name m) then (err generic_error, m) else (ok, (name, i) ∷ m)

unfoldable pub register_cuda_memory : ℕ → ℕ → ℕ → ℕ → MemoryMap → Status × MemoryMap
unfolding register
register_cuda_memory name dev_ptr byte_size device_id m =
    register name
      (record {
        offset = 0;
        byte_size = byte_size;
        mapped_addr = dev_ptr;
        kind = gpu;
        device_id = device_id;
      })
      m

unfoldable pub register_system_memory : ℕ → ℕ → ℕ → MemoryMap → Status × MemoryMap
unfolding register
register_system_memory name ptr byte_size m =
    register name
      (record { offset = 0; byte_size = byte_size; mapped_addr = ptr; kind = cpu; device_id = 0 }) m

-- The offset of a region counts for a system region only.
abbrev pub kind_offset : MemoryType → ℕ → ℕ
kind_offset cpu offset = offset
kind_offset gpu offset = 0

unfoldable pub own_offset : MemoryInfo → ℕ
own_offset i = kind_offset i.kind i.offset

unfoldable pub shm_region_end : MemoryInfo → ℕ
unfolding own_offset
shm_region_end i =
    if ltb 0 i.byte_size then add_u64 (own_offset i) (i.byte_size - 1) else own_offset i

unfoldable pub address : MemoryInfo → ℕ → ℕ
unfolding own_offset
address i offset = i.mapped_addr + own_offset i + offset

unfoldable pub memory_of : Option MemoryInfo → ℕ → ℕ → Status × Option (ℕ × MemoryType × ℕ)
unfolding shm_region_end address
memory_of none offset byte_size = (err generic_error, none)
memory_of (some i) offset byte_size =
    let total_req_shm = sub_u64 (add_u64 offset byte_size) 1 in
    if ltb (shm_region_end i) offset || ltb (shm_region_end i) total_req_shm
    then (err generic_error, none)
    else (ok, some (address i offset, i.kind, i.device_id))

-- The address, the kind and the device of the range, or the error.
unfoldable pub get_memory_info : ℕ → ℕ → ℕ → MemoryMap → Status × Option (ℕ × MemoryType × ℕ)
unfolding memory_of
get_memory_info name offset byte_size m = memory_of (find name m) offset byte_size

unfoldable pub unregister : ℕ → MemoryType → MemoryMap → Status × MemoryMap
unregister name memory_type m =
    if is_some (find name m) then (ok, erase name m) else (err generic_error, m)

unfoldable pub has_kind : MemoryType → MemoryMap → Bool
has_kind k [] = false
has_kind k ((n, i) ∷ m) = same_kind i.kind k || has_kind k m

-- The loop advances an iterator over the map whose element UnregisterHelper has just erased, which
-- is undefined: `none`.
unfoldable pub unregister_all : MemoryType → MemoryMap → Option (Status × MemoryMap)
unfolding has_kind
unregister_all k m = if has_kind k m then none else some (ok, m)
