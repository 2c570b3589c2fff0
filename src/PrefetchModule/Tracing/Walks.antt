-- ===== src/PrefetchModule/Tracing/Walks.antt =====
-- One walk over the visited inodes: it ends, and what it leaves in the trace and in the flags.
use mathlib.Core.Path.{fun_ext}
use prefetch.Common.{
  ℕ, suc, ◌≡◌, refl, sym, ◌==◌, subst, ap, ◌∙◌, Bool, true, false, if◌then◌else◌, Option, none,
  some, List, [], ◌∷◌, ◌++◌, length, take, arith, if_both, add32,
}
use prefetch.PrefetchModule.TraceBuffer.{PrefetchTrace}
use prefetch.PrefetchModule.TraceBuffer.Steps.{
  Event, add, clear_begin, clear_end, release, report, step, run,
}
use prefetch.PrefetchModule.TraceBuffer.Fragment.{NoClear}
use prefetch.PrefetchModule.FileCache.{
  Inode, Session, device_of, record_range, add_for, walk_file_cache,
}
use prefetch.PrefetchModule.FileCache.Ranges.{PageRange, has_page}
use prefetch.PrefetchModule.FileCache.Walk.{InOrder, from, walk_file_cache_lem}
use prefetch.PrefetchModule.FileCache.Recorded.{file_ranges, record_ranges}
use prefetch.PrefetchModule.FileCache.Complete.{
  range_events, walked, walked_trace, walked_flags, walked_eq, record_ranges_clearing,
  record_ranges-run,
}
use prefetch.PrefetchModule.Inodes.{ListedInode}
use prefetch.PrefetchModule.Tracing.{
  CachedFile, Shown, shown, Walked, show_inode, set_file, show_inodes,
}

-- The records that a walk which is not clearing adds for a file.
unfoldable pub device_events : Option (ℕ × ℕ) → List PageRange → List Event
device_events none rs = []
device_events (some (device, inode_no)) rs = range_events device inode_no rs

unfoldable pub file_events : ListedInode → CachedFile → List Event
file_events i f =
    if i.i_mapping then device_events (device_of f.host) (file_ranges f.referenced f.pages) else []

-- The flags of the file's pages are cleared.
unfoldable pub clean : ListedInode → CachedFile → CachedFile
clean i f =
    if i.i_mapping
    then record f {
      referenced = λ page. if has_page f.pages page then false else f.referenced page;
    }
    else f

unfoldable pub cleaned : ListedInode → (ℕ → CachedFile) → ℕ → CachedFile
cleaned i files = set_file i.number (clean i (files i.number)) files

-- The records for the files of some inodes, one after the other, and the files after that.
unfoldable pub all_events : (ℕ → CachedFile) → List ListedInode → List Event
all_events files [] = []
all_events files (i ∷ is) = file_events i (files i.number) ++ all_events (cleaned i files) is

unfoldable pub all_clean : (ℕ → CachedFile) → List ListedInode → ℕ → CachedFile
all_clean files [] = files
all_clean files (i ∷ is) = all_clean (cleaned i files) is

-- The pages of each file are in order.
abbrev pub AreOrdered : (ℕ → CachedFile) → Type 0
AreOrdered files = (n : ℕ) → InOrder 0 (files n).pages

clean-InOrder : (i : ListedInode) (f : CachedFile) → InOrder 0 f.pages → InOrder 0 (clean i f).pages
unfolding clean
clean-InOrder i f o = if_both (λ (g : CachedFile). InOrder 0 g.pages) i.i_mapping _ _ o o

cleaned-AreOrdered :
    (i : ListedInode) (files : ℕ → CachedFile) → AreOrdered files → AreOrdered (cleaned i files)
unfolding cleaned set_file
cleaned-AreOrdered i files o n =
    if_both (λ (g : CachedFile). InOrder 0 g.pages) (n == i.number) _ _
      (clean-InOrder i (files i.number) (o i.number)) (o n)

pub run-append : (t : PrefetchTrace) (es fs : List Event) → run (run t es) fs ≡ run t (es ++ fs)
unfolding run
run-append t [] fs = refl
run-append t (e ∷ es) fs = run-append (step t e) es fs

record_ranges-device_events :
    (host : Option Inode) (o : Option (ℕ × ℕ))
    → device_of host ≡ o
    → (t : PrefetchTrace) (rs : List PageRange)
    → record_ranges false host t rs ≡ run t (device_events o rs)
unfolding record_ranges record_range device_events run add_for
record_ranges-device_events host none h t [] = refl
record_ranges-device_events host none h t (r ∷ rs) =
    rw (h, add_for) (record_ranges-device_events host none h t rs)
record_ranges-device_events host (some (device, inode_no)) h t rs =
    record_ranges-run host device inode_no h t rs

-- What is added to the trace: nothing while the flags are cleared.
unfoldable pub events_of : Bool → List Event → List Event
events_of true es = []
events_of false es = es

events_of-nil : (clearing : Bool) (t : PrefetchTrace) → t ≡ run t (events_of clearing [])
unfolding events_of run
events_of-nil true t = refl
events_of-nil false t = refl

events_of-append :
    (clearing : Bool) (es fs : List Event)
    → events_of clearing es ++ events_of clearing fs ≡ events_of clearing (es ++ fs)
unfolding events_of
events_of-append true es fs = refl
events_of-append false es fs = refl

ranges_events :
    (clearing : Bool) (host : Option Inode) (t : PrefetchTrace) (rs : List PageRange)
    → record_ranges clearing host t rs
      ≡ run t (events_of clearing (device_events (device_of host) rs))
unfolding events_of run
ranges_events true host t rs = record_ranges_clearing host t rs
ranges_events false host t rs = record_ranges-device_events host (device_of host) refl t rs

module _ (gang_lookup : List ℕ → ℕ → ℕ → List ℕ) (size : ℕ)
    (lookup_lem : (pages : List ℕ) (first n : ℕ)
      → gang_lookup pages first n ≡ take n (from first pages)) where
  show_inode_lem :
      (clearing : Bool) (session : Session) (t : PrefetchTrace) (i : ListedInode) (f : CachedFile)
      → InOrder 0 f.pages
      → (s : Shown) × (show_inode gang_lookup (suc size) clearing session t i f ≡ some s)
        × (s.trace ≡ run t (events_of clearing (file_events i f)))
        × (s.file ≡ clean i f)
  unfolding show_inode shown file_events clean events_of run
  show_inode_lem clearing session t i f o =
      let counted = record session { inodes_walked = add32 session.inodes_walked 1 } in
      by_mapping clearing counted t f o i.i_mapping
    where
      by_mapping :
          (clearing : Bool) (counted : Session) (t : PrefetchTrace) (f : CachedFile)
          → InOrder 0 f.pages
          → (b : Bool)
          → (s : Shown) × ((if b
                then shown f (
                    walk_file_cache clearing f.host
                      (gang_lookup f.pages)
                      (suc size)
                      (suc (length f.pages))
                      counted
                      t
                      f.referenced)
                else some (record { session = counted; trace = t; file = f }))
              ≡ some s)
            × (s.trace
                ≡ run t (
                    events_of clearing (
                      if b
                      then device_events (device_of f.host) (file_ranges f.referenced f.pages)
                      else [])))
            × (s.file ≡ (
                if b
                then record f {
                  referenced = λ page. if has_page f.pages page then false else f.referenced page;
                }
                else f))
      by_mapping clearing counted t f o true =
          let w = walked clearing f.host counted t f.referenced f.pages in
          let done =
            walk_file_cache_lem clearing f.host (gang_lookup f.pages) size f.pages
              (lookup_lem f.pages) o (suc (length f.pages)) counted t f.referenced (omega arith) in
          (
            record {
              session = w.session;
              trace = w.trace;
              file = record f { referenced = w.referenced };
            },
            ap (shown f) (done ∙ walked_eq clearing f.host counted t f.referenced f.pages),
            walked_trace clearing f.host counted t f.referenced f.pages o
                ∙ ranges_events clearing f.host t (file_ranges f.referenced f.pages),
            ap (λ g. record f { referenced = g })
                (fun_ext
                  (λ page. walked_flags clearing f.host counted t f.referenced f.pages page)),
          )
      by_mapping true counted t f o false =
          (record { session = counted; trace = t; file = f }, refl, refl, refl)
      by_mapping false counted t f o false =
          (record { session = counted; trace = t; file = f }, refl, refl, refl)

  pub show_inodes_lem :
      (clearing : Bool) (session : Session) (t : PrefetchTrace) (files : ℕ → CachedFile)
      (is : List ListedInode)
      → AreOrdered files
      → (w : Walked) × (show_inodes gang_lookup (suc size) clearing session t files is ≡ some w)
        × (w.trace ≡ run t (events_of clearing (all_events files is)))
        × (w.files ≡ all_clean files is)
  unfolding show_inodes all_events all_clean cleaned
  show_inodes_lem clearing session t files [] o =
      (record { session = session; trace = t; files = files }, refl, events_of-nil clearing t, refl)
  show_inodes_lem clearing session t files (i ∷ is) o =
      let (s, e, tr, fl) = show_inode_lem clearing session t i (files i.number) (o i.number) in
      let next = set_file i.number s.file files in
      let same : next ≡ cleaned i files = ap (λ f. set_file i.number f files) fl in
      let (w, e', tr', fl') =
        show_inodes_lem clearing s.session s.trace next is
          (subst AreOrdered (sym same) (cleaned-AreOrdered i files o)) in
      (
        w,
        rw (e, show_inodes) e',
        tr'
            ∙ ap (λ fs. run s.trace (events_of clearing (all_events fs is))) same
            ∙ ap (λ u. run u (events_of clearing (all_events (cleaned i files) is))) tr
            ∙ run-append t (events_of clearing (file_events i (files i.number)))
                (events_of clearing (all_events (cleaned i files) is))
            ∙ ap (run t) (
                events_of-append clearing (file_events i (files i.number))
                  (all_events (cleaned i files) is)),
        fl' ∙ ap (λ fs. all_clean fs is) same,
      )

range_events-NoClear :
    (device inode_no : ℕ) (rs : List PageRange) → NoClear (range_events device inode_no rs)
range_events-NoClear device inode_no [] = tt
range_events-NoClear device inode_no (r ∷ rs) = range_events-NoClear device inode_no rs

device_events-NoClear : (o : Option (ℕ × ℕ)) (rs : List PageRange) → NoClear (device_events o rs)
unfolding device_events
device_events-NoClear none rs = tt
device_events-NoClear (some (device, inode_no)) rs = range_events-NoClear device inode_no rs

pub NoClear-append : (es fs : List Event) → NoClear es → NoClear fs → NoClear (es ++ fs)
NoClear-append [] fs n m = m
NoClear-append (add r ∷ es) fs n m = NoClear-append es fs n m
NoClear-append (clear_begin ∷ es) fs n m = elim n [ ]
NoClear-append (clear_end mem ∷ es) fs n m = elim n [ ]
NoClear-append (release ∷ es) fs n m = NoClear-append es fs n m
NoClear-append (report ∷ es) fs n m = NoClear-append es fs n m

file_events-NoClear : (i : ListedInode) (f : CachedFile) → NoClear (file_events i f)
unfolding file_events
file_events-NoClear i f =
    if_both NoClear i.i_mapping _ _
      (device_events-NoClear (device_of f.host) (file_ranges f.referenced f.pages)) tt

pub all_events-NoClear :
    (files : ℕ → CachedFile) (is : List ListedInode) → NoClear (all_events files is)
unfolding all_events
all_events-NoClear files [] = tt
all_events-NoClear files (i ∷ is) =
    NoClear-append (file_events i (files i.number)) (all_events (cleaned i files) is)
      (file_events-NoClear i (files i.number)) (all_events-NoClear (cleaned i files) is)
