-- ===== src/PrefetchModule/TraceBuffer/Steps.antt =====
-- The critical sections of the trace buffer in any order, against a log of records: any number of
-- tracers, releases of pages and clearings interleave, one critical section at a time.
use prefetch.Common.{
  ℕ, ◌+◌, ◌≡◌, refl, ◌∙◌, Bool, true, Option, none, some, List, [], ◌∷◌, ◌++◌, arith, length, ltb,
  if◌then◌else◌, inl, inr, Bool-cases, ltb→lt, ltb→ge, if_both, ◌&&◌, not,
}
use prefetch.Trace.{TraceRecord}
use prefetch.PrefetchModule.TraceBuffer.{
  PrefetchTrace, initial_trace, prefetch_trace_size, prefetch_trace_add, reset, install, clear_with,
  report_overflow, count_release,
}
use prefetch.PrefetchModule.TraceBuffer.Log.{
  IsLog, prefetch_trace_add-IsLog, prefetch_trace_add_full, prefetch_trace_add_size,
}

-- One critical section. `clear_begin` is the first of `clear_trace`, and `clear_end` the second, with
-- the memory that was allocated between them.
pub data Event : Type 0 where
  add : TraceRecord → Event
  clear_begin : Event
  clear_end : List ℕ → Event
  release : Event
  report : Event

unfoldable pub step : PrefetchTrace → Event → PrefetchTrace
step t (add r) = prefetch_trace_add t r
step t clear_begin = clear_with t t.buffer none
step t (clear_end mem) = install t t.buffer mem
step t release = count_release t
step t report = report_overflow t

unfoldable pub run : PrefetchTrace → List Event → PrefetchTrace
run t [] = t
run t (e ∷ es) = run (step t e) es

-- The log that the buffer stands for; `none` before the first clearing. It holds 16383 records.
abbrev pub TraceLog : Type 0
TraceLog = Option (List TraceRecord)

abbrev pub capacity : ℕ
capacity = 16383

unfoldable pub log_step : TraceLog → Event → TraceLog
log_step (some rs) (add r) = if ltb (length rs) capacity then some (rs ++ r ∷ []) else some rs
log_step none (add r) = none
log_step (some rs) clear_begin = some []
log_step none clear_begin = none
log_step log (clear_end mem) = some []
log_step log release = log
log_step log report = log

unfoldable pub log_run : TraceLog → List Event → TraceLog
log_run log [] = log
log_run log (e ∷ es) = log_run (log_step log e) es

-- The memory that is installed has the size that was asked for.
abbrev pub IsSized : Event → Type 0
IsSized (clear_end mem) = length mem ≡ prefetch_trace_size
IsSized e = Unit {0}

abbrev pub AllSized : List Event → Type 0
AllSized [] = Unit {0}
AllSized (e ∷ es) = IsSized e × AllSized es

pub record IsUnallocated (t : PrefetchTrace) : Type 0 where
  pub absent : t.buffer ≡ none
  pub empty : t.buffer_size ≡ 0
  pub unused : t.buffer_used ≡ 0

abbrev pub Refines : PrefetchTrace → TraceLog → Type 0
Refines t none = IsUnallocated t
Refines t (some rs) = IsLog t rs × (t.buffer_size ≡ prefetch_trace_size)

-- The log depends on the buffer alone.
IsLog-same :
    {t : PrefetchTrace} {rs : List TraceRecord} (overflow reported : Bool) (released : ℕ)
    → IsLog t rs
    → IsLog
        (record t {
          overflow = overflow;
          overflow_reported = reported;
          page_release_traced = released;
        })
        rs
IsLog-same o p n h = record {
  mem = h.mem;
  allocated = h.allocated;
  whole = h.whole;
  small = h.small;
  used = h.used;
  room = h.room;
  content = h.content;
}

Refines-same :
    (t : PrefetchTrace) (log : TraceLog) (overflow reported : Bool) (released : ℕ)
    → Refines t log
    → Refines
        (record t {
          overflow = overflow;
          overflow_reported = reported;
          page_release_traced = released;
        })
        log
Refines-same t none o p n h = record { absent = h.absent; empty = h.empty; unused = h.unused }
Refines-same t (some rs) o p n (h, size) = (IsLog-same o p n h, size)

add-Refines :
    (t : PrefetchTrace) (log : TraceLog) (r : TraceRecord)
    → Refines t log
    → Refines (prefetch_trace_add t r) (log_step log (add r))
unfolding log_step
add-Refines t none r h =
    rw
      (prefetch_trace_add_full t r (omega (arith, h.empty)) (omega (arith, h.empty))
        (omega (arith, h.empty, h.unused)))
      (Refines-same t none true t.overflow_reported t.page_release_traced h)
add-Refines t (some rs) r (h, size) = elim (Bool-cases (ltb (length rs) capacity)) [
  | inl fits ↦ rw fits (
    prefetch_trace_add-IsLog t rs r h (omega (arith, h.used, ltb→lt _ _ fits)),
    prefetch_trace_add_size t r ∙ size,
  )
  | inr full ↦ rw full (
      rw (prefetch_trace_add_full t r h.small (omega (arith, h.used, ltb→ge _ _ full)) h.room)
        (Refines-same t (some rs) true t.overflow_reported t.page_release_traced (h, size)))
]

reset-Refines :
    (t : PrefetchTrace) (mem : List ℕ)
    → t.buffer ≡ some mem
    → length mem ≡ t.buffer_size
    → t.buffer_size ≡ prefetch_trace_size
    → Refines (reset t) (some [])
unfolding reset
reset-Refines t mem a b c = (
  record {
    mem = mem;
    allocated = a;
    whole = b;
    small = omega arith;
    used = refl;
    room = omega arith;
    content = refl;
  },
  c,
)

-- Each critical section does to the buffer what it does to the log.
pub step-Refines :
    (t : PrefetchTrace) (log : TraceLog) (e : Event)
    → IsSized e
    → Refines t log
    → Refines (step t e) (log_step log e)
unfolding step log_step clear_with install count_release report_overflow
step-Refines t log (add r) s h = add-Refines t log r h
step-Refines t none clear_begin s h = rw (h.absent, clear_with) h
step-Refines t (some rs) clear_begin s (h, size) =
    rw (h.allocated, clear_with) (reset-Refines t h.mem h.allocated h.whole size)
step-Refines t none (clear_end mem) s h =
    rw (h.absent, install)
      (reset-Refines (record t { buffer = some mem; buffer_size = prefetch_trace_size }) mem refl s
        refl)
step-Refines t (some rs) (clear_end mem) s (h, size) =
    rw (h.allocated, install) (reset-Refines t h.mem h.allocated h.whole size)
step-Refines t none release s h =
    Refines-same t none t.overflow t.overflow_reported (t.page_release_traced + 1) h
step-Refines t (some rs) release s h =
    Refines-same t (some rs) t.overflow t.overflow_reported (t.page_release_traced + 1) h
step-Refines t none report s h =
    if_both (λ u. Refines u none) (t.overflow && not t.overflow_reported) _ t
      (Refines-same t none t.overflow true t.page_release_traced h) h
step-Refines t (some rs) report s h =
    if_both (λ u. Refines u (some rs)) (t.overflow && not t.overflow_reported) _ t
      (Refines-same t (some rs) t.overflow true t.page_release_traced h) h

pub run-Refines :
    (t : PrefetchTrace) (log : TraceLog) (es : List Event)
    → AllSized es
    → Refines t log
    → Refines (run t es) (log_run log es)
unfolding run log_run
run-Refines t log [] s h = h
run-Refines t log (e ∷ es) (s, ss) h =
    run-Refines (step t e) (log_step log e) es ss (step-Refines t log e s h)

initial-Refines : Refines initial_trace none
initial-Refines = record { absent = refl; empty = refl; unused = refl }

-- In every order of the critical sections the buffer is the log: it holds the records that were added
-- since the last clearing and still fitted, one after the other.
pub run-initial-Refines :
    (es : List Event) → AllSized es → Refines (run initial_trace es) (log_run none es)
run-initial-Refines es s = run-Refines initial_trace none es s initial-Refines
