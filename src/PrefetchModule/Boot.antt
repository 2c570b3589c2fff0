-- ===== src/PrefetchModule/Boot.antt =====
-- The phases of a boot in prefetch.c: each is traced, and the fragment of the trace that belongs to it
-- is saved when the next phase starts or the tracing stops.
pub mod Phases
pub mod Tests
use prefetch.Common.{
  ℕ, Bool, true, false, not, if◌then◌else◌, Option, none, some, List, [], ◌∷◌, take,
}
use prefetch.PrefetchModule.TraceBuffer.{
  TraceMarker, Errno, einval, enomem, Result, ok, err, get_prefetch_trace_fragment,
}
use prefetch.PrefetchModule.Tracing.{
  Tracing, Command, start_tracing, continue_tracing, stop_tracing, WalkResult, walk_pages,
}

-- A file `/.prefetch-boot-trace.<phase>` that was written.
pub record SavedTrace : Type 0 where
  pub phase : List ℕ
  pub content : List ℕ

-- The variables of boot tracing, the traces saved so far and the phases whose traces were prefetched,
-- the latest first.
pub record Boot : Type 0 where
  pub tracing : Tracing
  pub boot_start_marker : TraceMarker
  pub boot_phase_name : List ℕ
  pub boot_tracing_running : Bool
  pub saved : List SavedTrace
  pub prefetched : List (List ℕ)

-- What the kernel does for the module: `sort` on the bytes of a trace, whether a trace can be written
-- to the file of a phase, whether memory is given, the lookup of pages, the size of the window onto the
-- lists of inodes, the test for `I_DIRTY`, and the value of a marker variable that was never set.
pub record BootEnv : Type 0 where
  pub sort : List ℕ → List ℕ
  pub save_file : List ℕ → List ℕ → Option Errno
  pub allocated : Bool
  pub gang_lookup : List ℕ → ℕ → ℕ → List ℕ
  pub pagevec_size : ℕ
  pub ivec_size : ℕ
  pub is_dirty : ℕ → Bool
  pub unset : TraceMarker

abbrev pub phase_name_max : ℕ
phase_name_max = 10

unfoldable pub marker_or : TraceMarker → Option TraceMarker → TraceMarker
marker_or old none = old
marker_or old (some marker) = marker

unfoldable pub write_trace : Boot → List ℕ → List ℕ → Option Errno → Boot × Option Errno
write_trace b phase content (some e) = (b, some e)
write_trace b phase content none =
    (record b { saved = (record { phase = phase; content = content }) ∷ b.saved }, none)

module _ (env : BootEnv) where
  -- A run of tracing, by its state and marker.
  unfoldable pub state_after : Tracing → Option WalkResult → Tracing × Option TraceMarker
  state_after st none = (st, none)
  state_after st (some r) = (r.state, r.marker)

  unfoldable pub trace_run : Command → Tracing → Tracing × Option TraceMarker
  trace_run command st = state_after st (
      walk_pages env.gang_lookup env.pagevec_size env.ivec_size env.is_dirty command env.allocated
        env.allocated st)

  -- `prefetch_save_trace_fragment`
  unfoldable pub save_fragment : Boot → List ℕ → Result (List ℕ) → Boot × Option Errno
  save_fragment b phase (err e) = (b, some e)
  save_fragment b phase (ok fragment) =
      write_trace b phase (env.sort fragment) (env.save_file phase (env.sort fragment))

  unfoldable pub prefetch_save_boot_trace : Boot → List ℕ → TraceMarker → Boot × Option Errno
  prefetch_save_boot_trace b phase_name end_phase_marker =
      if not env.allocated
      then (b, some enomem)
      else save_fragment b phase_name (
          get_prefetch_trace_fragment b.tracing.trace b.boot_start_marker end_phase_marker
            env.allocated)

  -- The phase that was traced ends.
  unfoldable pub end_phase : Boot → Tracing × Option TraceMarker → Boot
  end_phase b (tracing, marker) =
      let end_marker = marker_or env.unset marker in
      let (b', e) =
        prefetch_save_boot_trace (record b { tracing = tracing }) b.boot_phase_name end_marker in
      record b' { boot_start_marker = end_marker }

  unfoldable pub first_phase : Boot → Tracing × Option TraceMarker → Boot
  first_phase b (tracing, marker) = record b {
    tracing = tracing;
    boot_start_marker = marker_or b.boot_start_marker marker;
  }

  unfoldable pub enter_phase : Boot → List ℕ → Boot
  enter_phase b phase_name = record b {
    boot_phase_name = take phase_name_max phase_name;
    boot_tracing_running = true;
    prefetched = phase_name ∷ b.prefetched;
  }

  unfoldable pub prefetch_start_boot_phase : Boot → List ℕ → Boot × Option Errno
  prefetch_start_boot_phase b phase_name =
      if not env.allocated
      then (b, some enomem)
      else if b.boot_tracing_running
      then (enter_phase (end_phase b (trace_run continue_tracing b.tracing)) phase_name, none)
      else (enter_phase (first_phase b (trace_run start_tracing b.tracing)) phase_name, none)

  unfoldable pub stop_phase : Boot → Tracing × Option TraceMarker → Boot × Option Errno
  stop_phase b (tracing, marker) =
      prefetch_save_boot_trace (record b { tracing = tracing; boot_tracing_running = false })
        b.boot_phase_name (marker_or env.unset marker)

  unfoldable pub prefetch_stop_boot_tracing : Boot → Boot × Option Errno
  prefetch_stop_boot_tracing b =
      if not b.boot_tracing_running
      then (b, some einval)
      else stop_phase b (trace_run stop_tracing b.tracing)
