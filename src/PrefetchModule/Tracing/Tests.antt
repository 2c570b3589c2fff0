-- ===== src/PrefetchModule/Tracing/Tests.antt =====
-- A trace of one file, from the start to the stop.
use prefetch.Common.{
  ℕ, Bool, true, false, not, List, [], ◌∷◌, take, pos, ◌==◌, if◌then◌else◌, if_both, arith,
}
use prefetch.PrefetchModule.TraceBuffer.{initial_trace}
use prefetch.PrefetchModule.TraceBuffer.Steps.{run}
use prefetch.PrefetchModule.FileCache.Walk.{InOrder, from}
use prefetch.PrefetchModule.Inodes.{InodeLists, is_pushed}
use prefetch.PrefetchModule.Inodes.Filling.{in_use_of}
use prefetch.PrefetchModule.Tracing.{CachedFile, Tracing}
use prefetch.PrefetchModule.Tracing.Walks.{AreOrdered}
use prefetch.PrefetchModule.Tracing.Runs.{Fits}
use prefetch.PrefetchModule.Tests.{opened, cached, touched, host, first}

-- Inode 1 is in use, with cached pages; any other has none.
abbrev pub lists : InodeLists
lists = record {
  of_super_blocks = [];
  in_use = (record { number = 1; i_count = 1; i_mapping = true; i_state = 0 }) ∷ [];
  unused = [];
}

abbrev pages_of : ℕ → List ℕ
pages_of number = if number == 1 then cached else []

abbrev untouched_files : ℕ → CachedFile
untouched_files number = record { host = host; pages = pages_of number; referenced = λ p. false }

abbrev pub touched_files : ℕ → CachedFile
touched_files number = record { host = host; pages = pages_of number; referenced = touched }

abbrev idle : Tracing
idle = record {
  trace = run initial_trace opened;
  lists = lists;
  files = untouched_files;
  tracers_count = pos 0;
  clearing_in_progress = false;
}

abbrev lookup : List ℕ → ℕ → ℕ → List ℕ
lookup pages first n = take n (from first pages)

abbrev dirty : ℕ → Bool
dirty state = not (state == 0)

pub lists-Fits : Fits 512 lists
unfolding in_use_of is_pushed
lists-Fits = omega arith

pub touched-AreOrdered : AreOrdered touched_files
touched-AreOrdered n = if_both (InOrder 0) (n == 1) _ _ (omega arith) tt
