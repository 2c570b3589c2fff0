-- ===== src/PrefetchModule/FileCache.antt =====
-- The walk of a file's page cache in prefetch.c: `walk_file_cache`, the ranges of referenced pages
-- that it adds to the trace, and the release hook of a page. The radix tree of the page cache is the
-- kernel's: its lookup is a parameter.
pub mod Ranges
pub mod Walk
pub mod Recorded
pub mod Complete
use prefetch.Common.{
  ℕ, zero, suc, Bool, true, false, not, ◌&&◌, ◌||◌, leb, ◌==◌, if◌then◌else◌, Option, none, some,
  List, [], ◌∷◌, add32, ℤ, pos, negsuc,
}
use prefetch.Trace.{TraceRecord}
use prefetch.PrefetchModule.TraceBuffer.{PrefetchTrace, prefetch_trace_add, count_release}

-- The counters of `struct session`.
pub record Session : Type 0 where
  pub inodes_walked : ℕ
  pub pages_walked : ℕ
  pub pages_referenced : ℕ
  pub pages_referenced_debug : ℕ
  pub page_blocks : ℕ

pub record SuperBlock : Type 0 where
  pub s_bdev : Option ℕ

pub record Inode : Type 0 where
  pub i_ino : ℕ
  pub i_sb : Option SuperBlock

-- `inode && inode->i_sb && inode->i_sb->s_bdev`: the device that the file is on.
unfoldable pub device_of_super : Option SuperBlock → Option ℕ
device_of_super none = none
device_of_super (some sb) = sb.s_bdev

unfoldable pub device_of : Option Inode → Option (ℕ × ℕ)
device_of none = none
device_of (some inode) = elim (device_of_super inode.i_sb) [
  | none ↦ none
  | some device ↦ some (device, inode.i_ino)
]

unfoldable pub add_for : PrefetchTrace → Option (ℕ × ℕ) → ℕ → ℕ → PrefetchTrace
add_for t none start len = t
add_for t (some (device, inode_no)) start len =
    prefetch_trace_add t
      (record { device = device; inode_no = inode_no; range_start = start; range_length = len })

-- What `add_referenced_page_range` does to the trace; `clearing` is `clearing_in_progress`.
unfoldable pub record_range : Bool → Option Inode → PrefetchTrace → ℕ → ℕ → PrefetchTrace
record_range clearing host t start len =
    if not clearing then add_for t (device_of host) start len else t

-- The state and the local variables of `walk_file_cache`. `referenced` is the flag of each page of the
-- file, by its index.
pub record PageWalk : Type 0 where
  pub session : Session
  pub trace : PrefetchTrace
  pub referenced : ℕ → Bool
  pub page0 : Option ℕ
  pub previous_page_referenced : Bool
  pub start : ℕ
  pub len : ℕ

unfoldable pub add_referenced_page_range : Bool → Option Inode → PageWalk → PageWalk
add_referenced_page_range clearing host w =
    let s = w.session in
    record w {
      session = record s {
        pages_referenced = add32 s.pages_referenced w.len;
        page_blocks = add32 s.page_blocks 1;
      };
      trace = record_range clearing host w.trace w.start w.len;
    }

unfoldable pub add_previous : Bool → Option Inode → PageWalk → PageWalk
add_previous clearing host w =
    if w.previous_page_referenced then add_referenced_page_range clearing host w else w

-- `TestClearPageReferenced`: what it leaves of the flags.
unfoldable pub clear_flag : (ℕ → Bool) → ℕ → ℕ → Bool
clear_flag referenced index page = if page == index then false else referenced page

unfoldable pub count_page : Session → Bool → Session
count_page s current = record s {
  pages_walked = add32 s.pages_walked 1;
  pages_referenced_debug =
      if current then add32 s.pages_referenced_debug 1 else s.pages_referenced_debug;
}

unfoldable pub same : Bool → Bool → Bool
same true b = b
same false b = not b

-- The page is counted and its flag is cleared.
unfoldable pub take_flag : PageWalk → ℕ → PageWalk
take_flag w index = record w {
  session = count_page w.session (w.referenced index);
  referenced = clear_flag w.referenced index;
}

-- `len++`, and the flag that the next page is compared with.
unfoldable pub extend_run : PageWalk → Bool → PageWalk
extend_run w current = record w { len = add32 w.len 1; previous_page_referenced = current }

unfoldable pub next_run : PageWalk → ℕ → Bool → PageWalk
next_run w index current = record w {
  page0 = some index;
  start = index;
  len = 1;
  previous_page_referenced = current;
}

-- The body of the loop over the pages of one lookup.
unfoldable pub visit_page : Bool → Option Inode → PageWalk → ℕ → PageWalk
visit_page clearing host w index =
    let current = w.referenced index in
    let w' = take_flag w index in
    if (index == add32 w.start w.len) && same w.previous_page_referenced current
    then extend_run w' current
    else next_run (add_previous clearing host w') index current

unfoldable pub visit_pages : Bool → Option Inode → PageWalk → List ℕ → PageWalk
visit_pages clearing host w [] = w
visit_pages clearing host w (index ∷ indexes) =
    visit_pages clearing host (visit_page clearing host w index) indexes

-- `if (!page0)`, with the first page of the lookup.
unfoldable pub first_page : PageWalk → Option ℕ → ℕ → PageWalk
first_page w (some seen) index = w
first_page w none index = record w {
  page0 = some index;
  previous_page_referenced = w.referenced index;
}

-- The loop. `gang_lookup first` gives the next pages of the tree, from the index `first` on, and at
-- most `PAGEVEC_SIZE` of them; `none` means that the fuel ran out.
unfoldable pub walk_loop :
    Bool → Option Inode → (ℕ → ℕ → List ℕ) → ℕ → ℕ → PageWalk → Option PageWalk
walk_loop clearing host gang_lookup pagevec_size zero w = none
walk_loop clearing host gang_lookup pagevec_size (suc fuel) w =
    elim (gang_lookup (add32 w.start w.len) pagevec_size) [
      | [] ↦ some (add_previous clearing host w)
      | index ∷ indexes ↦
          walk_loop clearing host gang_lookup pagevec_size fuel
            (visit_pages clearing host (first_page w w.page0 index) (index ∷ indexes))
    ]

unfoldable pub start_walk : Session → PrefetchTrace → (ℕ → Bool) → PageWalk
start_walk session trace referenced = record {
  session = session;
  trace = trace;
  referenced = referenced;
  page0 = none;
  previous_page_referenced = false;
  start = 0;
  len = 0;
}

unfoldable pub walk_file_cache :
    Bool
    → Option Inode
    → (ℕ → ℕ → List ℕ)
    → ℕ
    → ℕ
    → Session
    → PrefetchTrace
    → (ℕ → Bool)
    → Option PageWalk
walk_file_cache clearing host gang_lookup pagevec_size fuel session trace referenced =
    walk_loop clearing host gang_lookup pagevec_size fuel (start_walk session trace referenced)

-- `atomic_read(&tracers_count) > 0`.
unfoldable pub is_positive : ℤ → Bool
is_positive (pos zero) = false
is_positive (pos (suc n)) = true
is_positive (negsuc n) = false

-- `prefetch_add_page_to_trace`, for a page with these flags, this index and this file.
unfoldable pub prefetch_add_page_to_trace :
    ℤ → PrefetchTrace → Bool → Bool → Option Inode → ℕ → PrefetchTrace
prefetch_add_page_to_trace tracers_count t referenced swap_cache host index =
    if not (is_positive tracers_count)
    then t
    else if not referenced
    then t
    else if swap_cache
    then t
    else add_for (count_release t) (device_of host) index 1
