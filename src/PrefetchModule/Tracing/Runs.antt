-- ===== src/PrefetchModule/Tracing/Runs.antt =====
-- One run of `walk_pages`: the start of the first tracer, the stop of the last one, and a run between
-- them.
use prefetch.Common.{
  ℕ, suc, ◌≤◌, Bool, length, if_both, ◌≡◌, refl, ap, ◌∙◌, true, false, none, some, List, [], ◌∷◌,
  ◌++◌, take, arith, pos, ap₂,
}
use prefetch.PrefetchModule.TraceBuffer.{PrefetchTrace, report_overflow, get_trace_marker}
use prefetch.PrefetchModule.TraceBuffer.Steps.{report, step, run}
use prefetch.PrefetchModule.FileCache.Walk.{from}
use prefetch.PrefetchModule.Inodes.{ListedInode, InodeLists, is_pushed}
use prefetch.PrefetchModule.Inodes.Filling.{in_use_of, all_inodes}
use prefetch.PrefetchModule.Inodes.Laws.{walk_inodes_lem}
use prefetch.PrefetchModule.Tracing.{
  visited, show_visited, Walked, CachedFile, continue_tracing, Tracing, WalkResult, after_walk,
  count_before, count_after, is_clearing, is_one, is_invalid, marker_of, session_create, walk_pages,
  prefetch_start_trace, prefetch_stop_trace,
}
use prefetch.PrefetchModule.Tracing.Walks.{
  AreOrdered, all_clean, all_events, events_of, show_inodes_lem,
}

-- No more inodes are in use than the window holds; then the walk comes to each of them.
abbrev pub Fits : ℕ → InodeLists → Type 0
Fits ivec_size lists = length (all_inodes lists) ≤ ivec_size

in_use_of-le : (is : List ListedInode) → length (in_use_of is) ≤ length is
unfolding in_use_of
in_use_of-le [] = omega arith
in_use_of-le (i ∷ is) =
    if_both (λ (js : List ListedInode). length js ≤ length (i ∷ is)) (is_pushed i) _ _
      (omega (arith, in_use_of-le is)) (omega (arith, in_use_of-le is))

visited_all :
    (ivec_size : ℕ) (is_dirty : ℕ → Bool) (gang_lookup : List ℕ → ℕ → ℕ → List ℕ) (size : ℕ)
    (lists : InodeLists)
    → Fits ivec_size lists
    → visited gang_lookup size ivec_size is_dirty true lists ≡ some (all_inodes lists)
unfolding visited
visited_all ivec_size is_dirty gang_lookup size lists fits =
    let le = in_use_of-le (lists.of_super_blocks ++ (lists.in_use ++ lists.unused)) in
    walk_inodes_lem ivec_size is_dirty lists fits _ (omega (arith, le))

report_marker : (t : PrefetchTrace) → get_trace_marker (report_overflow t) ≡ get_trace_marker t
unfolding report_overflow get_trace_marker
report_marker t = ground arith

module _ (gang_lookup : List ℕ → ℕ → ℕ → List ℕ) (size : ℕ)
    (lookup_lem : (pages : List ℕ) (first n : ℕ)
      → gang_lookup pages first n ≡ take n (from first pages))
    (ivec_size : ℕ) (is_dirty : ℕ → Bool) where
  -- The walk shows all inodes in use, and ends.
  all_shown :
      (clearing : Bool) (t : PrefetchTrace) (files : ℕ → CachedFile) (lists : InodeLists)
      → AreOrdered files
      → Fits ivec_size lists
      → (w : Walked) × (show_visited gang_lookup
            (suc size)
            clearing
            session_create
            t
            files
            (visited gang_lookup (suc size) ivec_size is_dirty true lists)
          ≡ some w)
        × (w.trace ≡ run t (events_of clearing (all_events files (all_inodes lists))))
        × (w.files ≡ all_clean files (all_inodes lists))
  unfolding show_visited
  all_shown clearing t files lists o fits =
      let (w, e, tr, fl) =
        show_inodes_lem gang_lookup size lookup_lem clearing session_create t files
          (all_inodes lists) o in
      let seen = visited_all ivec_size is_dirty gang_lookup (suc size) lists fits in
      (w, ap (show_visited gang_lookup (suc size) clearing session_create t files) seen ∙ e, tr, fl)

  -- The first tracer: the flags of all pages are cleared, nothing is added to the trace, and the marker
  -- is where the trace ends.
  pub prefetch_start_trace_lem :
      (st : Tracing)
      → AreOrdered st.files
      → Fits ivec_size st.lists
      → st.tracers_count ≡ pos 0
      → (r : WalkResult) × (prefetch_start_trace gang_lookup
            (suc size)
            ivec_size
            is_dirty
            true
            true
            st
          ≡ some r)
        × (r.marker ≡ some (get_trace_marker st.trace))
        × (r.state ≡ record {
          trace = report_overflow st.trace;
          lists = st.lists;
          files = all_clean st.files (all_inodes st.lists);
          tracers_count = pos 1;
          clearing_in_progress = false;
        })
  unfolding prefetch_start_trace walk_pages after_walk count_before count_after is_clearing is_one
      marker_of is_invalid events_of run
  prefetch_start_trace_lem st o fits c =
      let (w, e, tr, fl) = all_shown true (report_overflow st.trace) st.files st.lists o fits in
      rw (c, e)
        (
          record {
            state = record {
              trace = w.trace;
              lists = st.lists;
              files = w.files;
              tracers_count = pos 1;
              clearing_in_progress = false;
            };
            marker = some (get_trace_marker (report_overflow st.trace));
            ret = none;
            bad_unlock = false;
            invalid_count = false;
          },
          refl,
          ap some (report_marker st.trace),
          ap₂
              (λ t fs. record {
                trace = t;
                lists = st.lists;
                files = fs;
                tracers_count = pos 1;
                clearing_in_progress = false;
              })
              tr fl,
        )

  -- The last tracer: the ranges of the pages that are referenced are added, and the marker is where the
  -- trace ends then.
  pub stop_lem :
      (st : Tracing)
      → AreOrdered st.files
      → Fits ivec_size st.lists
      → st.tracers_count ≡ pos 1
      → st.clearing_in_progress ≡ false
      → (r : WalkResult) × (prefetch_stop_trace gang_lookup
            (suc size)
            ivec_size
            is_dirty
            true
            true
            st
          ≡ some r)
        × (r.marker ≡ some (get_trace_marker r.state.trace))
        × (r.state ≡ record {
          trace = run st.trace (report ∷ all_events st.files (all_inodes st.lists));
          lists = st.lists;
          files = all_clean st.files (all_inodes st.lists);
          tracers_count = pos 0;
          clearing_in_progress = false;
        })
  unfolding prefetch_stop_trace walk_pages after_walk count_before count_after is_clearing is_one
      marker_of is_invalid events_of run step
  stop_lem st o fits c d =
      let (w, e, tr, fl) = all_shown false (report_overflow st.trace) st.files st.lists o fits in
      rw (c, d, e)
        (
          record {
            state = record {
              trace = w.trace;
              lists = st.lists;
              files = w.files;
              tracers_count = pos 0;
              clearing_in_progress = false;
            };
            marker = some (get_trace_marker w.trace);
            ret = none;
            bad_unlock = false;
            invalid_count = false;
          },
          refl,
          refl,
          ap₂
              (λ t fs. record {
                trace = t;
                lists = st.lists;
                files = fs;
                tracers_count = pos 0;
                clearing_in_progress = false;
              })
              tr fl,
        )

  -- A run between a start and a stop, in the same way.
  pub continue_lem :
      (st : Tracing)
      → AreOrdered st.files
      → Fits ivec_size st.lists
      → st.clearing_in_progress ≡ false
      → (r : WalkResult) × (walk_pages gang_lookup
            (suc size)
            ivec_size
            is_dirty
            continue_tracing
            true
            true
            st
          ≡ some r)
        × (r.marker ≡ some (get_trace_marker r.state.trace))
        × (r.state ≡ record {
          trace = run st.trace (report ∷ all_events st.files (all_inodes st.lists));
          lists = st.lists;
          files = all_clean st.files (all_inodes st.lists);
          tracers_count = st.tracers_count;
          clearing_in_progress = false;
        })
  unfolding walk_pages after_walk count_before count_after is_clearing is_one marker_of is_invalid
      events_of run step
  continue_lem st o fits d =
      let (w, e, tr, fl) = all_shown false (report_overflow st.trace) st.files st.lists o fits in
      rw (d, e)
        (
          record {
            state = record {
              trace = w.trace;
              lists = st.lists;
              files = w.files;
              tracers_count = st.tracers_count;
              clearing_in_progress = false;
            };
            marker = some (get_trace_marker w.trace);
            ret = none;
            bad_unlock = false;
            invalid_count = false;
          },
          refl,
          refl,
          ap₂
              (λ t fs. record {
                trace = t;
                lists = st.lists;
                files = fs;
                tracers_count = st.tracers_count;
                clearing_in_progress = false;
              })
              tr fl,
        )
