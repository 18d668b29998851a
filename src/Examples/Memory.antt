-- ===== src/Examples/Memory.antt =====
-- Runs of the shared memory manager and of the periodic concurrency manager.
use perf_analyzer.Prelude.{
  ◌+◌, ◌-◌, ◌*◌, ◌≤◌, ◌<◌, ◌≡◌, ◌⊎◌, refl, [], ◌∷◌, none, some, arith, u64_mod,
}
use perf_analyzer.Status.{ok, err, generic_error}
use perf_analyzer.SharedMemoryManager.{
  cpu, gpu, MemoryInfo, MemoryMap, find, get_memory_info, unregister, register_system_memory,
  register_cuda_memory,
}
use perf_analyzer.SharedMemoryManager.Regions.{
  IsDistinct, Registers, Unregisters, region_of, register_lem, unregister_lem,
}
use perf_analyzer.SharedMemoryManager.Access.{get_memory_info_lem, get_memory_info_wraps}
use perf_analyzer.PeriodicConcurrencyManager.{Range, run_experiment}
use perf_analyzer.PeriodicConcurrencyManager.Rounds.{Counts, rounds, requests_started}

abbrev page : MemoryInfo
page = record { offset = 0; byte_size = 4096; mapped_addr = 65536; kind = cpu; device_id = 0 }

abbrev regions : MemoryMap
regions = (3, page) ∷ []

third_region : find 3 regions ≡ some page
unfolding find
third_region = refl

regions-IsDistinct : IsDistinct regions
unfolding find
regions-IsDistinct = (refl, tt)

get_memory_info_example :
    ((100 + 200 ≤ 4096) × (get_memory_info 3 100 200 regions ≡ (ok, some (65536 + 100, cpu, 0))))
    ⊎ ((4096 < 100 + 200) × (get_memory_info 3 100 200 regions ≡ (err generic_error, none)))
get_memory_info_example =
    get_memory_info_lem 3 100 200 page regions third_region (refl, omega arith, omega arith)
      (omega arith) (omega arith)

get_memory_info_wraps_example :
    (4096 < 100 + (u64_mod - 50))
    × (get_memory_info 3 100 (u64_mod - 50) regions ≡ (ok, some (65536 + 100, cpu, 0)))
get_memory_info_wraps_example =
    get_memory_info_wraps 3 100 50 page regions third_region (refl, omega arith, omega arith)
      (omega arith) (omega arith) (omega arith)

register_example :
    Registers 5 (region_of 8192 64 cpu 0) regions (register_system_memory 5 8192 64 regions)
    × Registers 5 (region_of 8192 64 gpu 1) regions (register_cuda_memory 5 8192 64 1 regions)
register_example = register_lem 5 8192 64 1 regions regions-IsDistinct

unregister_example : Unregisters 3 regions (unregister 3 cpu regions)
unregister_example = unregister_lem 3 cpu regions regions-IsDistinct

abbrev ten_by_three : Range
ten_by_three = record { start = 7; end = 10; step = 3 }

requests_started_example :
    Counts (10 + 2 * 3) 4 0 (rounds ten_by_three 4 (run_experiment ten_by_three))
requests_started_example =
    requests_started ten_by_three 1 2 1
      (omega arith, omega arith, omega arith, omega arith, omega arith, omega arith) refl
      (omega arith) (omega arith) refl
