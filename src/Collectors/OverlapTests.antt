-- ===== src/Collectors/OverlapTests.antt =====
-- Overlapping collections of the memory and the system collector at concrete inputs.
use system_monitor_go.Base.{◌≡◌, refl, arith, List, [], ◌∷◌, All, ok, seconds, to_int64}
use system_monitor_go.Base.Floats.{whole}
use system_monitor_go.Collectors.Master.{blank_system}
use system_monitor_go.Collectors.CacheTests.{
  memory_answers, some_memory, memory_settings, host_answers, one_process, host_settings, named,
  counted, late_time, sized,
}
use system_monitor_go.Collectors.Goroutines.{Action, begin, move, run, idle}
use system_monitor_go.Collectors.Memory as Memory
use system_monitor_go.Collectors.Memory.Hardware.{get_memory_hardware_info, used_modules}
use system_monitor_go.Collectors.Memory.Cache as MemoryCache
use system_monitor_go.Collectors.Memory.Steps as MemorySteps
use system_monitor_go.Collectors.Memory.Overlap as MemoryOverlap
use system_monitor_go.Collectors.System as System
use system_monitor_go.Collectors.System.Cache as SystemCache
use system_monitor_go.Collectors.System.Steps as SystemSteps
use system_monitor_go.Collectors.System.Overlap as SystemOverlap

abbrev told : Memory.Answers whole.F
told = memory_answers (ok some_memory)

-- A round and a `Collect` that store in the other order than they read.
abbrev crossing : List (Action (MemorySteps.Phase whole.F))
crossing =
    begin (MemorySteps.asking told)
    ∷ begin (MemorySteps.checking 9 told)
    ∷ move 10 1
    ∷ move 10 0
    ∷ move 10 1
    ∷ move 11 0
    ∷ move 11 1
    ∷ move 12 1
    ∷ move 13 0
    ∷ []

run-statics_example :
    All
      (MemoryOverlap.Replies whole (MemoryCache.statics sized))
      (run
        (MemorySteps.step whole)
        crossing
        (idle (Memory.new_memory_collector whole memory_settings))).phases
unfolding Memory.collect_static_info get_memory_hardware_info used_modules to_int64
run-statics_example =
    MemoryOverlap.run-statics whole (MemoryCache.statics sized) memory_settings crossing
      ((sized, refl, refl), ((sized, refl, refl), (tt, (tt, (tt, (tt, (tt, (tt, (tt, tt)))))))))

abbrev told_host : System.Answers
told_host = host_answers (ok one_process)

told_named : System.collect_static_info told_host ≡ ok named
unfolding System.collect_static_info
told_named = refl

tells_named : SystemOverlap.TellsStatics (SystemCache.statics named) told_host
tells_named s e = cc (e, told_named)

abbrev losing : List (Action SystemSteps.Phase)
losing = SystemOverlap.overlap late_time late_time late_time told_host told_host

run-names_example :
    All
      (SystemOverlap.Replies (SystemCache.statics named))
      (run SystemSteps.step losing (idle (System.new_system_collector host_settings))).phases
run-names_example =
    SystemOverlap.run-names (SystemCache.statics named) host_settings losing
      (tells_named, (tt, (tt, (tells_named, (tt, (tt, (tt, (tt, tt))))))))

overlap-lost_names_example :
    SystemCache.statics (counted blank_system) ≡ SystemCache.statics blank_system
unfolding System.collect_static_info System.collect System.collect_system_info System.after_static
    System.store System.collect_dynamic_info System.count_processes System.add_count SystemCache.run
    System.new_system_collector seconds to_int64 run SystemSteps.step SystemSteps.asked
    SystemSteps.checked SystemSteps.with_static SystemSteps.measured
overlap-lost_names_example =
    SystemOverlap.overlap-lost_names host_settings late_time late_time late_time told_host told_host
      named (counted named) (counted blank_system) [] late_time late_time told_host
      (counted blank_system) (omega arith) refl refl refl refl
