-- ===== src/PrefetchModule/Boot/Tests.antt =====
-- A boot with two phases.
use prefetch.Common.{◌≡◌, refl, true, false, none, [], ◌∷◌, take, pos, arith, not, ◌==◌}
use prefetch.PrefetchModule.TraceBuffer.{initial_trace, get_trace_marker}
use prefetch.PrefetchModule.TraceBuffer.Steps.{add, release, run}
use prefetch.PrefetchModule.FileCache.Walk.{from}
use prefetch.PrefetchModule.Boot.{Boot, BootEnv, prefetch_start_boot_phase}
use prefetch.PrefetchModule.Boot.Phases.{
  InPhase, IsWorking, HasEnded, prefetch_start_boot_phase-InPhase,
}
use prefetch.PrefetchModule.Tracing.Tests.{lists, touched_files, touched-AreOrdered, lists-Fits}
use prefetch.PrefetchModule.Tests.{opened, opened-Refines, first}

abbrev pub env : BootEnv
env = record {
  sort = λ bytes. bytes;
  save_file = λ phase content. none;
  allocated = true;
  gang_lookup = λ pages first n. take n (from first pages);
  pagevec_size = 14;
  ivec_size = 512;
  is_dirty = λ state. not (state == 0);
  unset = record { position = 77; generation = 5 };
}

works : IsWorking env 13
works = record {
  given = refl;
  lookup_lem = λ pages first n. refl;
  pagevec = omega arith;
  written = λ phase content. refl;
}

-- The phase "a" has started, a page was released, and pages of a file have been used.
abbrev pub in_first : Boot
in_first = record {
  tracing = record {
    trace = run (run initial_trace opened) (release ∷ add first ∷ []);
    lists = lists;
    files = touched_files;
    tracers_count = pos 1;
    clearing_in_progress = false;
  };
  boot_start_marker = get_trace_marker (run initial_trace opened);
  boot_phase_name = b'a' ∷ [];
  boot_tracing_running = true;
  saved = [];
  prefetched = (b'a' ∷ []) ∷ [];
}

in_first-InPhase : InPhase in_first [] (release ∷ add first ∷ [])
in_first-InPhase = record {
  start = run initial_trace opened;
  held = opened-Refines;
  quiet = tt;
  now = refl;
  marked = refl;
}

prefetch_start_boot_phase-InPhase_example :
    HasEnded env 13 works in_first []
      (release ∷ add first ∷ [])
      (prefetch_start_boot_phase env in_first (b'b' ∷ [])).0
    × ((prefetch_start_boot_phase env in_first (b'b' ∷ [])).1 ≡ none)
prefetch_start_boot_phase-InPhase_example =
    prefetch_start_boot_phase-InPhase env 13 works in_first [] (release ∷ add first ∷ [])
      (b'b' ∷ []) in_first-InPhase touched-AreOrdered lists-Fits refl refl
