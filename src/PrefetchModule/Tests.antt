-- ===== src/PrefetchModule/Tests.antt =====
-- Runs of the kernel module's functions, and its theorems at concrete inputs.
use prefetch.Common.{
  ℕ, zero, suc, ◌≡◌, ◌≢◌, refl, Bool, true, false, ◌&&◌, ◌==◌, if◌then◌else◌, Option, none, some,
  List, [], ◌∷◌, ◌++◌, take, length, pos, arith, ◌-◌, ◌*◌,
}
use prefetch.Trace.{TraceRecord, trace_record}
use prefetch.Trace.Bytes.{record_size}
use prefetch.ProcessTrace.ReadData.Laws.{records_bytes}
use prefetch.PrefetchModule.TraceBuffer.{
  prefetch_trace_size, initial_trace, get_trace_marker, ok, get_prefetch_trace_fragment,
}
use prefetch.PrefetchModule.TraceBuffer.Log.{IsLog}
use prefetch.PrefetchModule.TraceBuffer.Steps.{
  Event, add, clear_begin, clear_end, release, report, run, log_run, log_step, AllSized, Refines,
  run-initial-Refines,
}
use prefetch.PrefetchModule.TraceBuffer.Fragment.{added, run-fragment}
use prefetch.PrefetchModule.FileCache.{
  Inode, Session, PageWalk, device_of, device_of_super, same, walk_file_cache,
}
use prefetch.PrefetchModule.FileCache.Ranges.{
  PageRange, covers, has_page, runs, pending, pending_then,
}
use prefetch.PrefetchModule.FileCache.Walk.{from}
use prefetch.PrefetchModule.FileCache.Recorded.{file_ranges, record_ranges}
use prefetch.PrefetchModule.FileCache.Complete.{
  range_events, walk_file_cache_complete, walk_file_cache-Refines,
}
use prefetch.PrefetchModule.Prefetching.{
  KernelOps, found, failed, null, Prefetch, returned, prefetch_do_prefetch,
}
use prefetch.PrefetchModule.Prefetching.Balance.{Releases, prefetch_do_prefetch-Releases}
use prefetch.PrefetchModule.Prefetching.Readaheads.{reads, available}
use prefetch.PrefetchModule.Prefetching.Sequence.{prefetch_do_prefetch-reads}

pub zeros : ℕ → List ℕ
zeros zero = []
zeros (suc n) = 0 ∷ zeros n

length-zeros : (n : ℕ) → length (zeros n) ≡ n
unfolding zeros
length-zeros zero = refl
length-zeros (suc n) = omega (arith, length-zeros n)

abbrev pub first : TraceRecord
first = trace_record 8388609 4711 32 16

abbrev second : TraceRecord
second = trace_record 8388609 4711 64 1

abbrev third : TraceRecord
third = trace_record 8388609 4712 0 4

abbrev pub opened : List Event
opened = clear_begin ∷ clear_end (zeros prefetch_trace_size) ∷ report ∷ []

opened_sized : AllSized opened
opened_sized = (tt, (length-zeros prefetch_trace_size, (tt, tt)))

run-initial-Refines_example :
    Refines
      (run initial_trace (opened ++ add first ∷ release ∷ add second ∷ []))
      (log_run none (opened ++ add first ∷ release ∷ add second ∷ []))
run-initial-Refines_example =
    run-initial-Refines (opened ++ add first ∷ release ∷ add second ∷ [])
      (tt, (length-zeros prefetch_trace_size, (tt, (tt, (tt, (tt, tt))))))

opened_log : log_run none opened ≡ some []
unfolding log_run log_step
opened_log = refl

run-fragment_example :
    get_prefetch_trace_fragment
      (run
        (run (run initial_trace opened) (add first ∷ release ∷ add second ∷ []))
        (add third ∷ []))
      (get_trace_marker (run initial_trace opened))
      (get_trace_marker (run (run initial_trace opened) (add first ∷ release ∷ add second ∷ [])))
      true
    ≡ ok (records_bytes (added [] (add first ∷ release ∷ add second ∷ [])))
run-fragment_example =
    run-fragment opened (add first ∷ release ∷ add second ∷ []) (add third ∷ []) [] opened_sized tt
      tt opened_log

added_two : added [] (add first ∷ release ∷ add second ∷ []) ≡ first ∷ second ∷ []
unfolding added log_run log_step
added_two = refl

one-IsLog : IsLog (run initial_trace (opened ++ add first ∷ [])) (first ∷ [])
unfolding log_run log_step
one-IsLog =
    (run-initial-Refines (opened ++ add first ∷ [])
      (tt, (length-zeros prefetch_trace_size, (tt, (tt, tt))))).0

-- A file with the pages 0 to 3, 7 and 8 in the cache, of which 0, 1, 3 and 8 are referenced.
abbrev pub cached : List ℕ
cached = 0 ∷ 1 ∷ 2 ∷ 3 ∷ 7 ∷ 8 ∷ []

pub touched : ℕ → Bool
touched p = has_page (0 ∷ 1 ∷ 3 ∷ 8 ∷ []) p

abbrev lookup : ℕ → ℕ → List ℕ
lookup first n = take n (from first cached)

abbrev pub host : Option Inode
host = some (record { i_ino = 4711; i_sb = some (record { s_bdev = some 8388609 }) })

abbrev no_counts : Session
no_counts = record {
  inodes_walked = 0;
  pages_walked = 0;
  pages_referenced = 0;
  pages_referenced_debug = 0;
  page_blocks = 0;
}

touched_ranges :
    file_ranges touched cached
    ≡ (record { start = 0; len = 2 })
      ∷ (record { start = 3; len = 1 })
      ∷ (record { start = 8; len = 1 })
      ∷ []
unfolding file_ranges touched has_page runs same pending_then pending
touched_ranges = refl

walk_file_cache_complete_example :
    (w : PageWalk) × (ranges : List PageRange) × (walk_file_cache false host lookup 3 9 no_counts
        initial_trace touched
      ≡ some w)
    × (w.trace ≡ record_ranges false host initial_trace ranges)
    × (covers ranges 3 ≡ (has_page cached 3 && touched 3))
    × (w.referenced 3 ≡ (if has_page cached 3 then false else touched 3))
    × (w.session.pages_referenced ≡ w.session.pages_referenced_debug)
walk_file_cache_complete_example =
    walk_file_cache_complete host lookup 2 cached (λ first n. refl) (omega arith) 9 no_counts
      initial_trace touched (omega arith) false 3 refl (omega arith)

pub opened-Refines : Refines (run initial_trace opened) (some [])
unfolding log_run log_step
opened-Refines = run-initial-Refines opened opened_sized

on_device : device_of host ≡ some (8388609, 4711)
unfolding device_of device_of_super
on_device = refl

walk_file_cache-Refines_example :
    (w : PageWalk) × (walk_file_cache false host lookup 3 9 no_counts
        (run initial_trace opened)
        touched
      ≡ some w)
    × Refines w.trace (log_run (some []) (range_events 8388609 4711 (file_ranges touched cached)))
walk_file_cache-Refines_example =
    walk_file_cache-Refines host lookup 2 cached (λ first n. refl) (omega arith) 9 no_counts
      (run initial_trace opened) touched (omega arith) [] 8388609 4711 on_device opened-Refines

-- A kernel with the device 8:1 alone, on which the file 4712 is missing.
abbrev pub small_kernel : KernelOps
small_kernel = record {
  user_get_super = λ device. device == 8388609;
  iget = λ device number. if number == 4712 then failed else found;
  get_empty_filp = λ n. true;
  readahead = λ device number start len. pos 0;
}

small_kernel_inodes : (device number : ℕ) → small_kernel.iget device number ≢ null
small_kernel_inodes device number h = ground arith

abbrev other : TraceRecord
other = trace_record 8388610 4711 0 4

abbrev eighteen : List TraceRecord
eighteen =
    first ∷ third ∷ second ∷ other ∷ other ∷ other ∷ other ∷ other ∷ other ∷ other ∷ other ∷ other
    ∷ other ∷ other ∷ other ∷ other ∷ second ∷ second ∷ []

prefetch_do_prefetch-reads_example :
    (t : Prefetch) × (prefetch_do_prefetch small_kernel eighteen (record_size * length eighteen)
      ≡ returned none t)
    × (reads t.calls ≡ available small_kernel (take (length eighteen - 15) eighteen))
prefetch_do_prefetch-reads_example =
    prefetch_do_prefetch-reads small_kernel (λ n. refl) small_kernel_inodes eighteen

-- Only the first three records are looked at, and the file of the second is missing.
eighteen-available :
    available small_kernel (take (length eighteen - 15) eighteen) ≡ first ∷ second ∷ []
eighteen-available = refl

prefetch_do_prefetch-Releases_example :
    Releases (prefetch_do_prefetch small_kernel eighteen (record_size * length eighteen))
prefetch_do_prefetch-Releases_example =
    prefetch_do_prefetch-Releases small_kernel eighteen (record_size * length eighteen)
