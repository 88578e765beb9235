-- ===== src/Tests/Thread.antt =====
-- A thread object that is detached before it is started.
use linux_system_learning.Prelude.{true, [], ◌∷◌}
use linux_system_learning.Prelude.Outcome.{Ensures}
use linux_system_learning.Thread.{new_thread, calls_detach, calls_join, calls_start, call_all}
use linux_system_learning.Thread.Detached.{IsLeaking, detach_first-IsLeaking}

detach_first-IsLeaking_example :
    Ensures IsLeaking (call_all (new_thread 0) (calls_detach ∷ calls_start true ∷ calls_join ∷ []))
detach_first-IsLeaking_example = detach_first-IsLeaking 0 (calls_start true ∷ calls_join ∷ [])
