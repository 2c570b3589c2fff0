-- ===== src/PrefetchModule/TraceBuffer/Fragment.antt =====
-- The fragment between two markers of the trace buffer: what `get_prefetch_trace_fragment` gives while
-- other critical sections interleave, its errors, and markers that a clearing has made stale.
use prefetch.PrefetchModule.TraceBuffer.Steps.{
  Event, add, clear_begin, clear_end, release, report, run, log_step, log_run, capacity, AllSized,
  Refines, run-Refines, run-initial-Refines,
}
use prefetch.Common.{
  ℕ, ◌-◌, ◌*◌, ◌≤◌, ◌<◌, ◌≡◌, refl, sym, ap, ◌∙◌, true, none, some, List, [], ◌∷◌, ◌++◌, arith,
  drop, length, length-append, ltb, ◌⊎◌, inl, inr, Bool-cases, ltb→lt, ltb→ge, drop-append, subst,
}
use mathlib.Core.List.{append-nil, append_assoc}
use prefetch.Trace.{TraceRecord}
use prefetch.Trace.Bytes.{record_size}
use prefetch.ProcessTrace.ReadData.Laws.{records_bytes}
use prefetch.PrefetchModule.TraceBuffer.{
  PrefetchTrace, initial_trace, get_trace_marker, TraceMarker, ok, err, esrch, copy_bytes,
  get_prefetch_trace_fragment,
}
use prefetch.PrefetchModule.TraceBuffer.Log.{
  IsLog, get_prefetch_trace_fragment_lem, get_prefetch_trace_fragment_ok,
  get_prefetch_trace_fragment_lost, length-copy_bytes, copy-records,
}

-- No clearing among the events.
abbrev pub NoClear : List Event → Type 0
NoClear [] = Unit {0}
NoClear (add r ∷ es) = NoClear es
NoClear (clear_begin ∷ es) = ⊥
NoClear (clear_end mem ∷ es) = ⊥
NoClear (release ∷ es) = NoClear es
NoClear (report ∷ es) = NoClear es

pub NoClear-sized : (es : List Event) → NoClear es → AllSized es
NoClear-sized [] n = tt
NoClear-sized (add r ∷ es) n = (tt, NoClear-sized es n)
NoClear-sized (clear_begin ∷ es) n = elim n [ ]
NoClear-sized (clear_end mem ∷ es) n = elim n [ ]
NoClear-sized (release ∷ es) n = (tt, NoClear-sized es n)
NoClear-sized (report ∷ es) n = (tt, NoClear-sized es n)

-- Without a clearing the log only grows.
pub log_run_grows :
    (rs : List TraceRecord) (es : List Event)
    → NoClear es
    → (fs : List TraceRecord) × (log_run (some rs) es ≡ some (rs ++ fs))
unfolding log_run log_step
log_run_grows rs [] n = ([], ap some (sym (append-nil rs)))
log_run_grows rs (add r ∷ es) n = elim (Bool-cases (ltb (length rs) capacity)) [
  | inl fits ↦ rw fits (
      let (fs, e) = log_run_grows (rs ++ r ∷ []) es n in
      ((r ∷ []) ++ fs, e ∙ ap some (append_assoc rs (r ∷ []) fs)))
  | inr full ↦ rw full (log_run_grows rs es n)
]
log_run_grows rs (clear_begin ∷ es) n = elim n [ ]
log_run_grows rs (clear_end mem ∷ es) n = elim n [ ]
log_run_grows rs (release ∷ es) n = log_run_grows rs es n
log_run_grows rs (report ∷ es) n = log_run_grows rs es n

-- The records that the events `between` add to the log `rs`.
unfoldable pub added : List TraceRecord → List Event → List TraceRecord
added rs es = drop (length rs) (elim (log_run (some rs) es) [ none ↦ [] | some after ↦ after ])

-- From a buffer that holds the log `rs`.
pub run-Refines_fragment :
    (t : PrefetchTrace) (between after : List Event) (rs : List TraceRecord)
    → Refines t (some rs)
    → NoClear between
    → NoClear after
    → get_prefetch_trace_fragment
        (run (run t between) after)
        (get_trace_marker t)
        (get_trace_marker (run t between))
        true
      ≡ ok (records_bytes (added rs between))
unfolding added
run-Refines_fragment t between after rs ht nb na =
    let u = run t between in
    let v = run u after in
    let (fs, grown) = log_run_grows rs between nb in
    let (ys, more) = log_run_grows (rs ++ fs) after na in
    let hu =
      subst (Refines u) grown (run-Refines t (some rs) between (NoClear-sized between nb) ht) in
    let hv =
      subst (Refines v) (more ∙ ap some (append_assoc rs fs ys))
        (run-Refines u (some (rs ++ fs)) after (NoClear-sized after na) hu) in
    rw grown (
      get_prefetch_trace_fragment_lem t u v rs fs ys ht.0 hu.0 hv.0
      ∙ ap (λ l. ok (records_bytes l)) (sym (drop-append rs fs)))

-- Two markers with no clearing between them or after: the fragment holds just the records that were
-- added between the markers.
pub run-fragment :
    (before between after : List Event) (rs : List TraceRecord)
    → AllSized before
    → NoClear between
    → NoClear after
    → log_run none before ≡ some rs
    → get_prefetch_trace_fragment
        (run (run (run initial_trace before) between) after)
        (get_trace_marker (run initial_trace before))
        (get_trace_marker (run (run initial_trace before) between))
        true
      ≡ ok (records_bytes (added rs between))
run-fragment before between after rs sized nb na held =
    run-Refines_fragment (run initial_trace before) between after rs
      (subst (Refines (run initial_trace before)) held (run-initial-Refines before sized)) nb na

-- Every result for two markers of one generation, in order, where the memory is given: no bytes if they
-- are equal, `ESRCH` if the end is not in the buffer any more, and else the bytes between them, just
-- as many as the markers are apart.
get_prefetch_trace_fragment_cases :
    (t : PrefetchTrace) (rs : List TraceRecord) (start_marker end_marker : TraceMarker)
    → IsLog t rs
    → start_marker.generation ≡ end_marker.generation
    → start_marker.position < end_marker.position
    → (t.buffer_used < end_marker.position
        × (get_prefetch_trace_fragment t start_marker end_marker true ≡ err esrch))
      ⊎ (end_marker.position ≤ t.buffer_used
          × ((bytes : List ℕ) × (get_prefetch_trace_fragment t start_marker end_marker true
                ≡ ok bytes)
              × (length bytes ≡ end_marker.position - start_marker.position)))
get_prefetch_trace_fragment_cases t rs a b h g k =
    elim (Bool-cases (ltb t.buffer_used b.position)) [
      | inl lost ↦
          inl (ltb→lt _ _ lost, get_prefetch_trace_fragment_lost t a b g k (ltb→lt _ _ lost))
      | inr kept ↦ inr (
        ltb→ge _ _ kept,
        (
          copy_bytes t.buffer a.position (b.position - a.position),
          get_prefetch_trace_fragment_ok t a b g (omega arith) (ltb→ge _ _ kept),
          length-copy_bytes t rs a.position (b.position - a.position) h
              (omega (arith, ltb→ge _ _ kept)),
        ),
      )
    ]

-- The generation of a marker is always 0, so markers that were taken before a clearing are not
-- noticed: they give the records that stand at their positions since.
pub stale_fragment :
    (t u v : PrefetchTrace) (rs gs ys : List TraceRecord)
    → IsLog t []
    → IsLog u rs
    → IsLog v (gs ++ ys)
    → length gs ≡ length rs
    → get_prefetch_trace_fragment v (get_trace_marker t) (get_trace_marker u) true
      ≡ ok (records_bytes gs)
unfolding get_trace_marker copy_bytes
stale_fragment t u v rs gs ys ht hu hv same =
    let lv = length-append {0} gs ys in
    let size : u.buffer_used - t.buffer_used ≡ record_size * length gs =
      omega (arith, ht.used, hu.used) in
    get_prefetch_trace_fragment_ok v (get_trace_marker t) (get_trace_marker u) refl
      (omega (arith, ht.used)) (omega (arith, hu.used, hv.used, lv))
    ∙ rw (hv.allocated, size, ht.used)
        (ap ok (copy-records hv.mem v.buffer_used [] gs ys hv.content (omega (arith, hv.used, lv))))
