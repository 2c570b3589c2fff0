-- ===== src/PrefetchModule/FileCache/Complete.antt =====
-- The whole walk of a file: it ends, and the trace, the flags and the counters after it.
use prefetch.Common.{
  ℕ, suc, ◌<◌, ◌≡◌, refl, sym, ap, ◌∙◌, Bool, true, false, ◌==◌, ◌&&◌, if◌then◌else◌, Option, some,
  List, [], ◌∷◌, arith, length, take, word_mod, subst,
}
use prefetch.Trace.{TraceRecord}
use prefetch.PrefetchModule.TraceBuffer.{PrefetchTrace}
use prefetch.PrefetchModule.TraceBuffer.Steps.{
  Event, add, step, run, log_run, AllSized, Refines, run-Refines,
}
use prefetch.PrefetchModule.FileCache.{
  Inode, Session, PageWalk, device_of, add_for, record_range, add_previous, first_page, visit_pages,
  start_walk, walk_file_cache,
}
use prefetch.PrefetchModule.FileCache.Ranges.{PageRange, runs, pending_then, covers, has_page}
use prefetch.PrefetchModule.FileCache.Walk.{InOrder, from, enter, walk_file_cache_lem}
use prefetch.PrefetchModule.FileCache.Recorded.{
  file_ranges, covers-file_ranges, record_ranges, Agrees, walk_trace, visit_pages_flags,
  add_previous_flags, add_previous_counted, visit_pages-IsCounted,
}

Agrees-refl : (f : ℕ → Bool) (ps : List ℕ) → Agrees f f ps
Agrees-refl f [] = tt
Agrees-refl f (p ∷ ps) = (refl, Agrees-refl f ps)

unfoldable pub walked :
    Bool → Option Inode → Session → PrefetchTrace → (ℕ → Bool) → List ℕ → PageWalk
walked clearing host session trace referenced pages =
    add_previous clearing host
      (visit_pages clearing host (enter (start_walk session trace referenced) pages) pages)

pub walked_eq :
    (clearing : Bool) (host : Option Inode) (session : Session) (trace : PrefetchTrace)
    (referenced : ℕ → Bool) (pages : List ℕ)
    → some (
        add_previous clearing host
          (visit_pages clearing host (enter (start_walk session trace referenced) pages) pages))
      ≡ some (walked clearing host session trace referenced pages)
unfolding walked
walked_eq clearing host session trace referenced pages = refl

pub walked_trace :
    (clearing : Bool) (host : Option Inode) (session : Session) (trace : PrefetchTrace)
    (referenced : ℕ → Bool) (pages : List ℕ)
    → InOrder 0 pages
    → (walked clearing host session trace referenced pages).trace
      ≡ record_ranges clearing host trace (file_ranges referenced pages)
unfolding walked enter start_walk first_page file_ranges visit_pages add_previous record_ranges
walked_trace clearing host session trace referenced [] o = refl
walked_trace clearing host session trace referenced (p ∷ ps) o =
    let w = enter (start_walk session trace referenced) (p ∷ ps) in
    walk_trace clearing host referenced w 0 (p ∷ ps) o (omega arith)
      (Agrees-refl referenced (p ∷ ps))

pub walked_flags :
    (clearing : Bool) (host : Option Inode) (session : Session) (trace : PrefetchTrace)
    (referenced : ℕ → Bool) (pages : List ℕ) (page : ℕ)
    → (walked clearing host session trace referenced pages).referenced page
      ≡ (if has_page pages page then false else referenced page)
unfolding walked enter start_walk first_page visit_pages has_page add_previous
walked_flags clearing host session trace referenced [] page = refl
walked_flags clearing host session trace referenced (p ∷ ps) page =
    let w = enter (start_walk session trace referenced) (p ∷ ps) in
    ap (λ g. g page) (add_previous_flags clearing host (visit_pages clearing host w (p ∷ ps)))
    ∙ visit_pages_flags clearing host w (p ∷ ps) page

walked_counters :
    (clearing : Bool) (host : Option Inode) (session : Session) (trace : PrefetchTrace)
    (referenced : ℕ → Bool) (pages : List ℕ)
    → session.pages_referenced ≡ session.pages_referenced_debug
    → session.pages_referenced < word_mod
    → (walked clearing host session trace referenced pages).session.pages_referenced
      ≡ (walked clearing host session trace referenced pages).session.pages_referenced_debug
unfolding walked enter start_walk first_page visit_pages add_previous
walked_counters clearing host session trace referenced [] h k = h
walked_counters clearing host session trace referenced (p ∷ ps) h k =
    let w = enter (start_walk session trace referenced) (p ∷ ps) in
    add_previous_counted clearing host (visit_pages clearing host w (p ∷ ps))
      (visit_pages-IsCounted clearing host w (p ∷ ps) (ground arith))

pub record_ranges_clearing :
    (host : Option Inode) (t : PrefetchTrace) (rs : List PageRange)
    → record_ranges true host t rs ≡ t
unfolding record_ranges record_range
record_ranges_clearing host t [] = refl
record_ranges_clearing host t (r ∷ rs) = record_ranges_clearing host t rs

abbrev pub range_event : ℕ → ℕ → PageRange → Event
range_event device inode_no r =
    add
      (record { device = device; inode_no = inode_no; range_start = r.start; range_length = r.len })

abbrev pub range_events : ℕ → ℕ → List PageRange → List Event
range_events device inode_no [] = []
range_events device inode_no (r ∷ rs) =
    range_event device inode_no r ∷ range_events device inode_no rs

range_events_sized :
    (device inode_no : ℕ) (rs : List PageRange) → AllSized (range_events device inode_no rs)
range_events_sized device inode_no [] = tt
range_events_sized device inode_no (r ∷ rs) = (tt, range_events_sized device inode_no rs)

add_for_device :
    (host : Option Inode) (device inode_no : ℕ) (t : PrefetchTrace) (r : PageRange)
    → device_of host ≡ some (device, inode_no)
    → record_range false host t r.start r.len ≡ step t (range_event device inode_no r)
unfolding record_range add_for step
add_for_device host device inode_no t r h = rw (h, add_for)

pub record_ranges-run :
    (host : Option Inode) (device inode_no : ℕ)
    → device_of host ≡ some (device, inode_no)
    → (t : PrefetchTrace) (rs : List PageRange)
    → record_ranges false host t rs ≡ run t (range_events device inode_no rs)
unfolding record_ranges record_range run
record_ranges-run host device inode_no h t [] = refl
record_ranges-run host device inode_no h t (r ∷ rs) =
    ap (λ u. record_ranges false host u rs) (add_for_device host device inode_no t r h)
    ∙ record_ranges-run host device inode_no h (step t (range_event device inode_no r)) rs

module _ (host : Option Inode) (gang_lookup : ℕ → ℕ → List ℕ) (size : ℕ) (pages : List ℕ)
    (lookup_lem : (first n : ℕ) → gang_lookup first n ≡ take n (from first pages))
    (o : InOrder 0 pages) (fuel : ℕ) (session : Session) (trace : PrefetchTrace)
    (referenced : ℕ → Bool) (enough : length pages < fuel) where
  -- The lookups give the pages of the file in ascending order, and any number above 0 of them at once.
  -- The walk ends; it has recorded ranges, in order, which cover any `page` just if it is a page of the
  -- file and was referenced (while the flags are only cleared, `record_ranges` adds none of them); the flag of `page` is cleared if it is a page of the file and
  -- unchanged otherwise; and the two counts of referenced pages, which agreed before, still do.
  pub walk_file_cache_complete :
      (clearing : Bool) (page : ℕ)
      → session.pages_referenced ≡ session.pages_referenced_debug
      → session.pages_referenced < word_mod
      → (w : PageWalk) × (ranges : List PageRange) × (walk_file_cache clearing host gang_lookup
            (suc size)
            fuel
            session
            trace
            referenced
          ≡ some w)
        × (w.trace ≡ record_ranges clearing host trace ranges)
        × (covers ranges page ≡ (has_page pages page && referenced page))
        × (w.referenced page ≡ (if has_page pages page then false else referenced page))
        × (w.session.pages_referenced ≡ w.session.pages_referenced_debug)
  unfolding walked
  walk_file_cache_complete clearing page same_count small = (
    walked clearing host session trace referenced pages,
    file_ranges referenced pages,
    walk_file_cache_lem clearing host gang_lookup size pages lookup_lem o fuel session trace
        referenced enough,
    walked_trace clearing host session trace referenced pages o,
    covers-file_ranges referenced pages page,
    walked_flags clearing host session trace referenced pages page,
    walked_counters clearing host session trace referenced pages same_count small,
  )

  -- A clearing run adds nothing to the trace.
  pub walk_file_cache_clearing :
      (w : PageWalk) × (walk_file_cache true host gang_lookup
          (suc size)
          fuel
          session
          trace
          referenced
        ≡ some w)
      × (w.trace ≡ trace)
  unfolding walked
  walk_file_cache_clearing = (
    walked true host session trace referenced pages,
    walk_file_cache_lem true host gang_lookup size pages lookup_lem o fuel session trace referenced
        enough,
    walked_trace true host session trace referenced pages o
        ∙ record_ranges_clearing host trace (file_ranges referenced pages),
  )

  -- A tracing run of a file on a device, from a buffer that holds the log `rs`: afterwards the buffer
  -- holds that log with one record for each range, as far as they fit.
  pub walk_file_cache-Refines :
      (rs : List TraceRecord) (device inode_no : ℕ)
      → device_of host ≡ some (device, inode_no)
      → Refines trace (some rs)
      → (w : PageWalk) × (walk_file_cache false host gang_lookup
            (suc size)
            fuel
            session
            trace
            referenced
          ≡ some w)
        × Refines w.trace
            (log_run (some rs) (range_events device inode_no (file_ranges referenced pages)))
  unfolding walked
  walk_file_cache-Refines rs device inode_no on_device h =
      let ranges = file_ranges referenced pages in
      let events = range_events device inode_no ranges in
      (
        walked false host session trace referenced pages,
        walk_file_cache_lem false host gang_lookup size pages lookup_lem o fuel session trace
            referenced enough,
        subst (λ t. Refines t (log_run (some rs) events))
            (sym (
              walked_trace false host session trace referenced pages o
              ∙ record_ranges-run host device inode_no on_device trace ranges))
            (run-Refines trace (some rs) events (range_events_sized device inode_no ranges) h),
      )

positive : (p : ℕ) → 0 < p → (p == 0) ≡ false
positive p h = ground arith

-- A file whose first cached page is not page 0 gets a range of no pages, if that page is referenced.
pub file_ranges_empty :
    (referenced : ℕ → Bool) (p : ℕ) (ps : List ℕ)
    → referenced p ≡ true
    → 0 < p
    → file_ranges referenced (p ∷ ps)
      ≡ (record { start = 0; len = 0 }) ∷ runs referenced true p 1 ps
unfolding file_ranges runs pending_then
file_ranges_empty referenced p ps h k = rw (h, positive p k) refl
