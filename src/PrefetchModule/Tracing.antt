-- ===== src/PrefetchModule/Tracing.antt =====
-- The runs of tracing in prefetch.c: `walk_pages` over the inodes that the windowed walk comes to, and
-- the functions that start, continue and stop a trace with it.
pub mod Walks
pub mod Runs
pub mod WholeTrace
pub mod Tests
use prefetch.Common.{
  ℕ, zero, suc, Bool, true, false, not, ◌&&◌, ◌||◌, if◌then◌else◌, Option, none, some, List, [],
  ◌∷◌, ◌++◌, ◌==◌, length, add32, ℤ, pos, negsuc, is_neg, ◌+ℤ◌,
}
use prefetch.PrefetchModule.TraceBuffer.{
  PrefetchTrace, report_overflow, TraceMarker, get_trace_marker, Errno, enomem,
}
use prefetch.PrefetchModule.Inodes.{ListedInode, InodeLists, walk_inodes}
use prefetch.PrefetchModule.FileCache.{Inode, Session, PageWalk, walk_file_cache}

-- The cached pages of the file of an inode, and their flags.
pub record CachedFile : Type 0 where
  pub host : Option Inode
  pub pages : List ℕ
  pub referenced : ℕ → Bool

-- The trace, the kernel's lists of inodes, the files by the numbers of their inodes, and the variables
-- of the runs.
pub record Tracing : Type 0 where
  pub trace : PrefetchTrace
  pub lists : InodeLists
  pub files : ℕ → CachedFile
  pub tracers_count : ℤ
  pub clearing_in_progress : Bool

-- `kzalloc` of the session.
abbrev pub session_create : Session
session_create = record {
  inodes_walked = 0;
  pages_walked = 0;
  pages_referenced = 0;
  pages_referenced_debug = 0;
  page_blocks = 0;
}

pub data Command : Type 0 where
  start_tracing : Command
  stop_tracing : Command
  continue_tracing : Command

-- A file after the walk has been to it.
pub record Shown : Type 0 where
  pub session : Session
  pub trace : PrefetchTrace
  pub file : CachedFile

-- What the walk has done: the session, the trace, and the files.
pub record Walked : Type 0 where
  pub session : Session
  pub trace : PrefetchTrace
  pub files : ℕ → CachedFile

unfoldable pub shown : CachedFile → Option PageWalk → Option Shown
shown f none = none
shown f (some w) =
    some (record {
      session = w.session;
      trace = w.trace;
      file = record f { referenced = w.referenced };
    })

unfoldable pub set_file : ℕ → CachedFile → (ℕ → CachedFile) → ℕ → CachedFile
set_file number f files n = if n == number then f else files n

-- What `walk_pages` leaves: the state, the marker if it stores one, its result, whether it releases
-- `inode_lock` without holding it, and whether it warns that the count of tracers is invalid.
pub record WalkResult : Type 0 where
  pub state : Tracing
  pub marker : Option TraceMarker
  pub ret : Option Errno
  pub bad_unlock : Bool
  pub invalid_count : Bool

-- `atomic_inc_return(&tracers_count) == 1`
unfoldable pub is_one : ℤ → Bool
is_one (pos zero) = false
is_one (pos (suc zero)) = true
is_one (pos (suc (suc n))) = false
is_one (negsuc n) = false

unfoldable pub count_before : Command → ℤ → ℤ
count_before start_tracing n = n +ℤ pos 1
count_before stop_tracing n = n
count_before continue_tracing n = n

unfoldable pub is_clearing : Command → ℤ → Bool
is_clearing start_tracing n = is_one (n +ℤ pos 1)
is_clearing stop_tracing n = false
is_clearing continue_tracing n = false

unfoldable pub count_after : Command → ℤ → ℤ
count_after start_tracing n = n
count_after stop_tracing n = n +ℤ negsuc 0
count_after continue_tracing n = n

-- The marker that is stored, with the trace before and after the walk.
unfoldable pub marker_of : Command → Bool → PrefetchTrace → PrefetchTrace → Option TraceMarker
marker_of start_tracing clearing before after =
    if clearing then some (get_trace_marker before) else none
marker_of stop_tracing clearing before after = some (get_trace_marker after)
marker_of continue_tracing clearing before after = some (get_trace_marker after)

unfoldable pub is_invalid : Command → ℤ → Bool
is_invalid start_tracing n = false
is_invalid stop_tracing n = is_neg n
is_invalid continue_tracing n = false

-- `gang_lookup` is the lookup in the radix tree that holds these pages, for at most `pagevec_size`.
module _ (gang_lookup : List ℕ → ℕ → ℕ → List ℕ) (pagevec_size : ℕ) where
  -- `none` means that the fuel of the file's walk ran out.
  unfoldable pub show_inode :
      Bool → Session → PrefetchTrace → ListedInode → CachedFile → Option Shown
  show_inode clearing session t i f =
      let counted = record session { inodes_walked = add32 session.inodes_walked 1 } in
      if i.i_mapping
      then shown f (
          walk_file_cache clearing f.host (gang_lookup f.pages) pagevec_size (suc (length f.pages))
            counted t f.referenced)
      else some (record { session = counted; trace = t; file = f })

  -- The loop over the inodes.
  unfoldable pub show_inodes :
      Bool → Session → PrefetchTrace → (ℕ → CachedFile) → List ListedInode → Option Walked
  show_inodes clearing session t files [] =
      some (record { session = session; trace = t; files = files })
  show_inodes clearing session t files (i ∷ is) =
      elim (show_inode clearing session t i (files i.number)) [
        | none ↦ none
        | some w ↦ show_inodes clearing w.session w.trace (set_file i.number w.file files) is
      ]

  unfoldable pub show_visited :
      Bool → Session → PrefetchTrace → (ℕ → CachedFile) → Option (List ListedInode) → Option Walked
  show_visited clearing session t files none = none
  show_visited clearing session t files (some is) = show_inodes clearing session t files is

  -- From `inode_walk_start` on, which has the lock or has failed to allocate its page; then there is no
  -- inode to show.
  unfoldable pub after_walk : Command → Bool → Tracing → Bool → Option Walked → Option WalkResult
  after_walk command clearing st locked none = none
  after_walk command clearing st locked (some w) =
      let n = count_after command st.tracers_count in
      some (record {
        state = record {
          trace = w.trace;
          lists = st.lists;
          files = if locked then w.files else st.files;
          tracers_count = n;
          clearing_in_progress = not clearing && st.clearing_in_progress;
        };
        marker = marker_of command clearing st.trace w.trace;
        ret = none;
        bad_unlock = not locked;
        invalid_count = is_invalid command n;
      })

  -- The inodes that the walk comes to: it shows each before it goes on, which does not change the lists.
  -- `ivec_size` is the size of the window, and `is_dirty` tests a state for `I_DIRTY`; without the page
  -- for the window there is no inode to show.
  module _ (ivec_size : ℕ) (is_dirty : ℕ → Bool) where
    unfoldable pub visited : Bool → InodeLists → Option (List ListedInode)
    visited page lists =
        let listed = lists.of_super_blocks ++ (lists.in_use ++ lists.unused) in
        if page then walk_inodes ivec_size is_dirty (suc (length listed)) lists else some []

    -- `session` and `page` say whether the session and the page for the inodes are allocated.
    unfoldable pub walk_pages : Command → Bool → Bool → Tracing → Option WalkResult
    walk_pages command session page st =
        let trace = report_overflow st.trace in
        let clearing = is_clearing command st.tracers_count in
        let st' = record st {
          trace = trace;
          tracers_count = count_before command st.tracers_count;
          clearing_in_progress = clearing || st.clearing_in_progress;
        } in
        if not session
        then some (record {
          state = record st { trace = trace };
          marker = none;
          ret = some enomem;
          bad_unlock = false;
          invalid_count = false;
        })
        else after_walk command clearing st' page (
            show_visited st'.clearing_in_progress session_create trace st.files
              (visited page st.lists))

    unfoldable pub prefetch_start_trace : Bool → Bool → Tracing → Option WalkResult
    prefetch_start_trace session page st = walk_pages start_tracing session page st

    unfoldable pub prefetch_continue_trace : Bool → Bool → Tracing → Option WalkResult
    prefetch_continue_trace session page st = walk_pages continue_tracing session page st

    unfoldable pub prefetch_stop_trace : Bool → Bool → Tracing → Option WalkResult
    prefetch_stop_trace session page st = walk_pages stop_tracing session page st
