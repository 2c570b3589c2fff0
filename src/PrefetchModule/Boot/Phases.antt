-- ===== src/PrefetchModule/Boot/Phases.antt =====
-- What is saved for a phase of the boot: the records that were added since the phase before it.
use prefetch.Common.{
  ℕ, suc, ◌≡◌, refl, sym, ap, ◌∙◌, Bool, true, false, not, if◌then◌else◌, Option, none, some, List,
  [], ◌∷◌, ◌++◌, take, subst,
}
use prefetch.Trace.{TraceRecord}
use prefetch.ProcessTrace.ReadData.Laws.{records_bytes}
use prefetch.PrefetchModule.TraceBuffer.{
  PrefetchTrace, TraceMarker, Errno, ok, get_trace_marker, get_prefetch_trace_fragment,
}
use prefetch.PrefetchModule.TraceBuffer.Steps.{Event, report, run, log_run, Refines, run-Refines}
use prefetch.PrefetchModule.TraceBuffer.Fragment.{
  NoClear, NoClear-sized, added, log_run_grows, run-Refines_fragment,
}
use prefetch.PrefetchModule.FileCache.Walk.{from}
use prefetch.PrefetchModule.Inodes.Filling.{all_inodes}
use prefetch.PrefetchModule.Tracing.{Tracing, continue_tracing}
use prefetch.PrefetchModule.Tracing.Walks.{
  AreOrdered, all_events, run-append, all_events-NoClear, NoClear-append,
}
use prefetch.PrefetchModule.Tracing.Runs.{Fits, continue_lem}
use prefetch.PrefetchModule.Boot.{
  Boot, BootEnv, marker_or, write_trace, state_after, trace_run, save_fragment,
  prefetch_save_boot_trace, end_phase, enter_phase, prefetch_start_boot_phase,
}

-- The start marker of the phase stands where the buffer held the log `rs`, and since then the events
-- `es` have happened, without a clearing.
pub record InPhase (b : Boot) (rs : List TraceRecord) (es : List Event) : Type 0 where
  pub start : PrefetchTrace
  pub held : Refines start (some rs)
  pub quiet : NoClear es
  pub now : b.tracing.trace ≡ run start es
  pub marked : b.boot_start_marker ≡ get_trace_marker start

-- Memory is given and the file of a phase can be written.
pub record IsWorking (env : BootEnv) (size : ℕ) : Type 0 where
  pub given : env.allocated ≡ true
  pub lookup_lem :
      (pages : List ℕ) (first n : ℕ) → env.gang_lookup pages first n ≡ take n (from first pages)
  pub pagevec : env.pagevec_size ≡ suc size
  pub written : (phase content : List ℕ) → env.save_file phase content ≡ none

both_set :
    (a r : Bool) (x y z : Boot × Option Errno)
    → a ≡ true
    → r ≡ true
    → (if not a then x else if r then y else z) ≡ y
both_set a r x y z h k = rw (h, k)

module _ (env : BootEnv) (size : ℕ) (works : IsWorking env size) where
  -- A run of tracing between the phases.
  continue_run :
      (st : Tracing)
      → AreOrdered st.files
      → Fits env.ivec_size st.lists
      → st.clearing_in_progress ≡ false
      → let (st', marker) = trace_run env continue_tracing st in
        (st'.trace ≡ run st.trace (report ∷ all_events st.files (all_inodes st.lists)))
        × (marker ≡ some (get_trace_marker st'.trace))
  unfolding trace_run state_after
  continue_run st o fits d =
      let (r, e, m, s) =
        continue_lem env.gang_lookup size works.lookup_lem env.ivec_size env.is_dirty st o fits d in
      rw (works.given, works.pagevec, e, state_after) (ap Tracing.trace s, m)

  saved_lem :
      (b : Boot) (phase : List ℕ) (marker : TraceMarker) (bytes : List ℕ)
      → get_prefetch_trace_fragment b.tracing.trace b.boot_start_marker marker true ≡ ok bytes
      → (prefetch_save_boot_trace env b phase marker).0
        ≡ record b { saved = (record { phase = phase; content = env.sort bytes }) ∷ b.saved }
  unfolding prefetch_save_boot_trace save_fragment write_trace
  saved_lem b phase marker bytes h =
      rw (works.given, h, save_fragment, works.written phase (env.sort bytes), write_trace) refl

  -- A phase that ends: the events since its start are `es`, then those of the run.
  abbrev pub phase_events : Boot → List Event → List Event
  phase_events b es = es ++ (report ∷ all_events b.tracing.files (all_inodes b.tracing.lists))

  ended :
      (b : Boot) (rs : List TraceRecord) (es : List Event) (p : InPhase b rs es)
      → AreOrdered b.tracing.files
      → Fits env.ivec_size b.tracing.lists
      → b.tracing.clearing_in_progress ≡ false
      → let b' = end_phase env b (trace_run env continue_tracing b.tracing) in
        (b'.saved
          ≡ (record {
            phase = b.boot_phase_name;
            content = env.sort (records_bytes (added rs (phase_events b es)));
          })
            ∷ b.saved)
        × (b'.boot_start_marker ≡ get_trace_marker b'.tracing.trace)
        × (b'.tracing.trace ≡ run (InPhase.start p) (phase_events b es))
  unfolding end_phase marker_or run
  ended b rs es p o fits d =
      let st = (trace_run env continue_tracing b.tracing).0 in
      let marker = marker_or env.unset (trace_run env continue_tracing b.tracing).1 in
      let events = phase_events b es in
      let (traced, given) = continue_run b.tracing o fits d in
      let more = report ∷ all_events b.tracing.files (all_inodes b.tracing.lists) in
      let whole : st.trace ≡ run p.start events =
        traced ∙ ap (λ t. run t more) p.now ∙ run-append p.start es more in
      let at : marker ≡ get_trace_marker st.trace = ap (marker_or env.unset) given in
      let quiet =
        NoClear-append es more p.quiet
          (all_events-NoClear b.tracing.files (all_inodes b.tracing.lists)) in
      let fragment : get_prefetch_trace_fragment st.trace b.boot_start_marker marker true
          ≡ ok (records_bytes (added rs events)) =
        ap (λ m. get_prefetch_trace_fragment st.trace m marker true) p.marked
        ∙ ap (λ m. get_prefetch_trace_fragment st.trace (get_trace_marker p.start) m true) at
        ∙ ap
            (λ t.
              get_prefetch_trace_fragment t (get_trace_marker p.start) (get_trace_marker t) true)
            whole
        ∙ run-Refines_fragment p.start events [] rs p.held quiet tt in
      let saved =
        saved_lem (record b { tracing = st }) b.boot_phase_name marker
          (records_bytes (added rs events)) fragment in
      (
        ap Boot.saved saved,
        at ∙ sym (ap (λ c. get_trace_marker (Tracing.trace (Boot.tracing c))) saved),
        ap (λ c. Tracing.trace (Boot.tracing c)) saved ∙ whole,
      )

  -- The phase `b` has ended and been saved, and the next phase has started there.
  abbrev pub HasEnded : Boot → List TraceRecord → List Event → Boot → Type 0
  HasEnded b rs es b' =
      (b'.saved
        ≡ (record {
          phase = b.boot_phase_name;
          content = env.sort (records_bytes (added rs (phase_events b es)));
        })
          ∷ b.saved)
      × ((fs : List TraceRecord) × (log_run (some rs) (phase_events b es) ≡ some (rs ++ fs))
          × InPhase b' (rs ++ fs) [])

  entered :
      (b : Boot) (rs : List TraceRecord) (es : List Event) (phase_name : List ℕ)
      → InPhase b rs es
      → AreOrdered b.tracing.files
      → Fits env.ivec_size b.tracing.lists
      → b.tracing.clearing_in_progress ≡ false
      → HasEnded b rs es
          (enter_phase env (end_phase env b (trace_run env continue_tracing b.tracing)) phase_name)
  unfolding enter_phase run
  entered b rs es phase_name p o fits d =
      let (saved, marked, now) = ended b rs es p o fits d in
      let events = phase_events b es in
      let more = report ∷ all_events b.tracing.files (all_inodes b.tracing.lists) in
      let quiet =
        NoClear-append es more p.quiet
          (all_events-NoClear b.tracing.files (all_inodes b.tracing.lists)) in
      let (fs, grown) = log_run_grows rs events quiet in
      let held =
        subst (Refines (run p.start events)) grown
          (run-Refines p.start (some rs) events (NoClear-sized events quiet) p.held) in
      (
        saved,
        (
          fs,
          grown,
          record {
            start = run p.start events;
            held = held;
            quiet = tt;
            now = now;
            marked = marked ∙ ap get_trace_marker now;
          },
        ),
      )

  -- While boot tracing runs, the start of the next phase succeeds; it saves under the name of the phase
  -- that ends, sorted, what was added to the trace since that phase started, with a record for each
  -- range of pages whose flags are set, of the files of the inodes in use; and the next phase starts at
  -- that very place, in a buffer that holds all of it. The window of the walk holds as many inodes as are
  -- in use, nobody clears the trace, the memory is given and the file can be written.
  pub prefetch_start_boot_phase-InPhase :
      (b : Boot) (rs : List TraceRecord) (es : List Event) (phase_name : List ℕ)
      → InPhase b rs es
      → AreOrdered b.tracing.files
      → Fits env.ivec_size b.tracing.lists
      → b.tracing.clearing_in_progress ≡ false
      → b.boot_tracing_running ≡ true
      → HasEnded b rs es (prefetch_start_boot_phase env b phase_name).0
        × ((prefetch_start_boot_phase env b phase_name).1 ≡ none)
  unfolding prefetch_start_boot_phase
  prefetch_start_boot_phase-InPhase b rs es phase_name p o fits d running =
      subst (λ (q : Boot × Option Errno). HasEnded b rs es q.0 × (q.1 ≡ none))
        (sym (both_set env.allocated b.boot_tracing_running _ _ _ works.given running))
        (entered b rs es phase_name p o fits d, refl)
