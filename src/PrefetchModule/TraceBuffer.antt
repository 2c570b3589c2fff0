-- ===== src/PrefetchModule/TraceBuffer.antt =====
-- The trace buffer of prefetch.c: `prefetch_trace_add`, `clear_trace`, the markers, and the fragment
-- between two of them. Each function is one critical section of `prefetch_trace_lock`, but for
-- `clear_trace`, which drops the lock to allocate and has two.
pub mod Log
pub mod Steps
pub mod Fragment
use prefetch.Common.{
  ℕ, ◌+◌, ◌-◌, ◌*◌, Bool, true, false, not, ◌&&◌, ltb, leb, ◌==◌, if◌then◌else◌, Option, none, some,
  List, [], ◌++◌, take, drop, length, add32,
}
use prefetch.Trace.{TraceRecord}
use prefetch.Trace.Bytes.{record_size, record_bytes}

abbrev pub prefetch_trace_size : ℕ
prefetch_trace_size = 256 * 1024

-- `prefetch_trace_t` without its lock; `buffer` is the memory that the pointer leads to.
pub record PrefetchTrace : Type 0 where
  pub buffer_used : ℕ
  pub buffer_size : ℕ
  pub buffer : Option (List ℕ)
  pub overflow : Bool
  pub overflow_reported : Bool
  pub page_release_traced : ℕ

abbrev pub initial_trace : PrefetchTrace
initial_trace = record {
  buffer_used = 0;
  buffer_size = 0;
  buffer = none;
  overflow = false;
  overflow_reported = false;
  page_release_traced = 0;
}

unfoldable pub write_at : List ℕ → ℕ → List ℕ → List ℕ
write_at mem offset bytes = take offset mem ++ (bytes ++ drop (offset + length bytes) mem)

unfoldable pub store_record : Option (List ℕ) → ℕ → TraceRecord → Option (List ℕ)
store_record none offset r = none
store_record (some mem) offset r = some (write_at mem offset (record_bytes r))

unfoldable pub prefetch_trace_add : PrefetchTrace → TraceRecord → PrefetchTrace
prefetch_trace_add t r =
    if leb t.buffer_size (add32 t.buffer_used record_size)
    then record t { overflow = true }
    else record t {
      buffer = store_record t.buffer t.buffer_used r;
      buffer_used = add32 t.buffer_used record_size;
    }

-- The end of `clear_trace`.
unfoldable pub reset : PrefetchTrace → PrefetchTrace
reset t = record t {
  buffer_used = 0;
  overflow = false;
  overflow_reported = false;
  page_release_traced = 0;
}

-- The second critical section, with the memory that was allocated between the two.
unfoldable pub install : PrefetchTrace → Option (List ℕ) → List ℕ → PrefetchTrace
install t (some old) mem = reset t
install t none mem = reset (record t { buffer = some mem; buffer_size = prefetch_trace_size })

unfoldable pub clear_with : PrefetchTrace → Option (List ℕ) → Option (List ℕ) → PrefetchTrace
clear_with t (some old) allocated = reset t
clear_with t none none = t
clear_with t none (some mem) = install t t.buffer mem

-- The whole call, with nobody in between; `allocated` is what `alloc_trace_buffer` gives.
unfoldable pub clear_trace : PrefetchTrace → Option (List ℕ) → PrefetchTrace
clear_trace t allocated = clear_with t t.buffer allocated

-- The first critical section of `walk_pages`: an overflow is reported once.
unfoldable pub report_overflow : PrefetchTrace → PrefetchTrace
report_overflow t =
    if t.overflow && not t.overflow_reported then record t { overflow_reported = true } else t

-- The count of `prefetch_add_page_to_trace`, which takes no lock.
unfoldable pub count_release : PrefetchTrace → PrefetchTrace
count_release t = record t { page_release_traced = t.page_release_traced + 1 }

pub record TraceMarker : Type 0 where
  pub position : ℕ
  pub generation : ℕ

unfoldable pub get_trace_marker : PrefetchTrace → TraceMarker
get_trace_marker t = record { position = t.buffer_used; generation = 0 }

pub data Errno : Type 0 where
  einval erange enospc enomem esrch etxtbsy enfile enametoolong efault : Errno

pub data Result {ℓ} (A : Type ℓ) : Type ℓ where
  ok : A → Result A
  err : Errno → Result A

unfoldable pub prefetch_trace_fragment_size : TraceMarker → TraceMarker → Result ℕ
prefetch_trace_fragment_size start_marker end_marker =
    if not (start_marker.generation == end_marker.generation)
    then err einval
    else if ltb end_marker.position start_marker.position
    then err erange
    else ok (end_marker.position - start_marker.position)

unfoldable pub trace_marker_position_in_buffer : PrefetchTrace → TraceMarker → Result ℕ
trace_marker_position_in_buffer t marker =
    if ltb t.buffer_used marker.position then err enospc else ok marker.position

unfoldable pub copy_bytes : Option (List ℕ) → ℕ → ℕ → List ℕ
copy_bytes none start len = []
copy_bytes (some mem) start len = take len (drop start mem)

-- The copy under the lock, of `fragment_size` bytes.
unfoldable pub copy_fragment : PrefetchTrace → ℕ → Result ℕ → Result ℕ → Result (List ℕ)
copy_fragment t fragment_size (err e) end_position = err esrch
copy_fragment t fragment_size (ok start) (err e) = err esrch
copy_fragment t fragment_size (ok start) (ok stop) =
    if leb stop start
    then err etxtbsy
    else if not (stop - start == fragment_size)
    then err etxtbsy
    else ok (copy_bytes t.buffer start (stop - start))

unfoldable pub fragment_of_size :
    PrefetchTrace → TraceMarker → TraceMarker → Bool → Result ℕ → Result (List ℕ)
fragment_of_size t start_marker end_marker allocated (err e) = err e
fragment_of_size t start_marker end_marker allocated (ok fragment_size) =
    if fragment_size == 0
    then ok []
    else if not allocated
    then err enomem
    else copy_fragment t fragment_size (trace_marker_position_in_buffer t start_marker)
        (trace_marker_position_in_buffer t end_marker)

-- `allocated` says whether the memory for the fragment is given.
unfoldable pub get_prefetch_trace_fragment :
    PrefetchTrace → TraceMarker → TraceMarker → Bool → Result (List ℕ)
get_prefetch_trace_fragment t start_marker end_marker allocated =
    fragment_of_size t start_marker end_marker allocated
      (prefetch_trace_fragment_size start_marker end_marker)
