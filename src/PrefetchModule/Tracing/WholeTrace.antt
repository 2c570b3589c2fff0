-- ===== src/PrefetchModule/Tracing/WholeTrace.antt =====
-- A whole trace: from the start of the first tracer to its stop.
use prefetch.Common.{ℕ, List, ◌∷◌, ◌++◌}
use prefetch.PrefetchModule.TraceBuffer.Steps.{Event, report}
use prefetch.PrefetchModule.Inodes.{InodeLists}
use prefetch.PrefetchModule.Inodes.Filling.{all_inodes}
use prefetch.PrefetchModule.Tracing.{CachedFile, Tracing}
use prefetch.PrefetchModule.Tracing.Walks.{all_events}

-- What happens to the buffer from the start to the stop: both runs report an overflow first, and the
-- events `between` come from other code.
abbrev pub whole : List Event → (ℕ → CachedFile) → InodeLists → List Event
whole between files lists = report ∷ (between ++ (report ∷ all_events files (all_inodes lists)))
