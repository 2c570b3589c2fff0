-- ===== src/PrefetchModule/FileCache/Recorded.antt =====
-- What the walk of a file leaves: the ranges in the trace, the flags of the pages, the counters.
use prefetch.Common.{
  ℕ, ◌+◌, ◌-◌, ◌<◌, ◌≡◌, refl, sym, ap, ◌∙◌, Bool, true, false, ◌&&◌, ◌||◌, ◌==◌, if◌then◌else◌,
  Option, List, [], ◌∷◌, arith, All, add32, add32_small, word_mod, Bool-cases, inl, inr, subst, ap₂,
  if_both,
}
use prefetch.PrefetchModule.TraceBuffer.{PrefetchTrace}
use prefetch.PrefetchModule.FileCache.{
  Inode, PageWalk, extend_run, next_run, record_range, add_referenced_page_range, visit_page,
  visit_pages, take_flag, count_page, clear_flag, add_previous, same,
}
use prefetch.PrefetchModule.FileCache.Ranges.{
  PageRange, pending, pending_then, runs, covers, has_page, in_range, covers-runs, same_eq,
  ==_to_eq, long_same, long_at,
}
use prefetch.PrefetchModule.FileCache.Walk.{InOrder, visit_page_next}

-- The ranges that the walk of a file adds. The first page is compared with the page before page 0.
unfoldable pub file_ranges : (ℕ → Bool) → List ℕ → List PageRange
file_ranges referenced [] = []
file_ranges referenced (p ∷ ps) = runs referenced (referenced p) 0 0 (p ∷ ps)

-- They cover the pages of the file that are referenced, and no others.
pub covers-file_ranges :
    (referenced : ℕ → Bool) (pages : List ℕ) (page : ℕ)
    → covers (file_ranges referenced pages) page ≡ (has_page pages page && referenced page)
unfolding file_ranges has_page in_range covers
covers-file_ranges referenced [] page = refl
covers-file_ranges referenced (p ∷ ps) page =
    covers-runs referenced (referenced p) 0 0 (p ∷ ps) page
    ∙ ap (λ b. b || (has_page (p ∷ ps) page && referenced page)) (none_yet (referenced p) page)
  where
    none_yet : (b : Bool) (page : ℕ) → (b && in_range 0 0 page) ≡ false
    none_yet true page = ground arith
    none_yet false page = refl

unfoldable pub record_ranges : Bool → Option Inode → PrefetchTrace → List PageRange → PrefetchTrace
record_ranges clearing host t [] = t
record_ranges clearing host t (r ∷ rs) =
    record_ranges clearing host (record_range clearing host t r.start r.len) rs

record_ranges-pending :
    (clearing : Bool) (host : Option Inode) (w : PageWalk)
    → (add_previous clearing host w).trace
      ≡ record_ranges clearing host w.trace (pending w.previous_page_referenced w.start w.len)
unfolding add_previous record_ranges pending add_referenced_page_range
record_ranges-pending clearing host w = by_previous w.previous_page_referenced
  where
    by_previous :
        (b : Bool)
        → (if b then add_referenced_page_range clearing host w else w).trace
          ≡ record_ranges clearing host w.trace (pending b w.start w.len)
    by_previous true = refl
    by_previous false = refl

record_ranges-pending_then :
    (clearing : Bool) (host : Option Inode) (w : PageWalk) (rs : List PageRange)
    → record_ranges clearing host (add_previous clearing host w).trace rs
      ≡ record_ranges clearing host w.trace
          (pending_then w.previous_page_referenced w.start w.len rs)
unfolding add_previous record_ranges pending_then add_referenced_page_range
record_ranges-pending_then clearing host w rs = by_previous w.previous_page_referenced
  where
    by_previous :
        (b : Bool)
        → record_ranges clearing host
            (if b then add_referenced_page_range clearing host w else w).trace
            rs
          ≡ record_ranges clearing host w.trace (pending_then b w.start w.len rs)
    by_previous true = refl
    by_previous false = refl

-- The pages still have the flags `f`.
abbrev pub Agrees : (ℕ → Bool) → (ℕ → Bool) → List ℕ → Type 0
Agrees referenced f ps = All (λ p. referenced p ≡ f p) ps

clear_flag-Agrees :
    (referenced f : ℕ → Bool) (p first : ℕ) (ps : List ℕ)
    → p < first
    → InOrder first ps
    → Agrees referenced f ps
    → Agrees (clear_flag referenced p) f ps
unfolding clear_flag
clear_flag-Agrees referenced f p first [] h o a = tt
clear_flag-Agrees referenced f p first (q ∷ ps) h o a =
    (ground (arith, a.0), clear_flag-Agrees referenced f p (q + 1) ps (omega arith) o.2 a.1)

visit_page_flags :
    (clearing : Bool) (host : Option Inode) (w : PageWalk) (p : ℕ)
    → (visit_page clearing host w p).referenced ≡ clear_flag w.referenced p
unfolding visit_page extend_run next_run take_flag add_previous add_referenced_page_range
visit_page_flags clearing host w p =
    if_both (λ v. PageWalk.referenced v ≡ clear_flag w.referenced p) _ _ _ refl
      (if_both (λ v. PageWalk.referenced v ≡ clear_flag w.referenced p) w.previous_page_referenced _
        _ refl refl)

visit_page_ranges :
    (clearing : Bool) (host : Option Inode) (f : ℕ → Bool) (w : PageWalk) (p : ℕ) (ps : List ℕ)
    → w.start + w.len < word_mod
    → p < word_mod - 1
    → w.referenced p ≡ f p
    → let v = visit_page clearing host w p in
      record_ranges clearing host v.trace (runs f v.previous_page_referenced v.start v.len ps)
      ≡ record_ranges clearing host w.trace
          (runs f w.previous_page_referenced w.start w.len (p ∷ ps))
unfolding visit_page extend_run next_run take_flag runs
visit_page_ranges clearing host f w p ps s k e =
    rw (← e, add32_small w.start w.len s)
      (elim (Bool-cases
        ((p == w.start + w.len) && same w.previous_page_referenced (w.referenced p))) [
          | inl long ↦ rw long (
              ap₂ (λ b n. record_ranges clearing host w.trace (runs f b w.start n ps))
                (sym (same_eq _ _ (long_same (p == w.start + w.len) _ long)))
                (add32_small w.len 1
                  (omega (arith, ==_to_eq _ _ (long_at (p == w.start + w.len) _ long)))))
          | inr cut ↦ rw cut (
              record_ranges-pending_then clearing host (take_flag w p)
                (runs f (w.referenced p) p 1 ps))
        ])

runs-nil :
    (clearing : Bool) (host : Option Inode) (f : ℕ → Bool) (w : PageWalk)
    → (add_previous clearing host w).trace
      ≡ record_ranges clearing host w.trace (runs f w.previous_page_referenced w.start w.len [])
unfolding runs
runs-nil clearing host f w = record_ranges-pending clearing host w

visit_page-Agrees :
    (clearing : Bool) (host : Option Inode) (f : ℕ → Bool) (w : PageWalk) (p : ℕ) (ps : List ℕ)
    → InOrder (p + 1) ps
    → Agrees w.referenced f ps
    → Agrees (visit_page clearing host w p).referenced f ps
visit_page-Agrees clearing host f w p ps o a =
    subst (λ g. Agrees g f ps) (sym (visit_page_flags clearing host w p))
      (clear_flag-Agrees w.referenced f p (p + 1) ps (omega arith) o a)

pub walk_trace :
    (clearing : Bool) (host : Option Inode) (f : ℕ → Bool) (w : PageWalk) (first : ℕ) (ps : List ℕ)
    → InOrder first ps
    → w.start + w.len < word_mod
    → Agrees w.referenced f ps
    → (add_previous clearing host (visit_pages clearing host w ps)).trace
      ≡ record_ranges clearing host w.trace (runs f w.previous_page_referenced w.start w.len ps)
unfolding visit_pages
walk_trace clearing host f w first [] o s a = runs-nil clearing host f w
walk_trace clearing host f w first (p ∷ ps) o s a =
    walk_trace clearing host f (visit_page clearing host w p) (p + 1) ps o.2
      (omega (arith, visit_page_next clearing host w p s o.1))
      (visit_page-Agrees clearing host f w p ps o.2 (a.1))
    ∙ visit_page_ranges clearing host f w p ps s o.1 (a.0)

pub visit_pages_flags :
    (clearing : Bool) (host : Option Inode) (w : PageWalk) (ps : List ℕ) (page : ℕ)
    → (visit_pages clearing host w ps).referenced page
      ≡ (if has_page ps page then false else w.referenced page)
unfolding visit_pages has_page clear_flag
visit_pages_flags clearing host w [] page = refl
visit_pages_flags clearing host w (p ∷ ps) page =
    visit_pages_flags clearing host (visit_page clearing host w p) ps page
    ∙ ap (λ g. if has_page ps page then false else g page) (visit_page_flags clearing host w p)
    ∙ ground arith

pub add_previous_flags :
    (clearing : Bool) (host : Option Inode) (w : PageWalk)
    → (add_previous clearing host w).referenced ≡ w.referenced
unfolding add_previous add_referenced_page_range
add_previous_flags clearing host w =
    if_both (λ v. PageWalk.referenced v ≡ w.referenced) w.previous_page_referenced _ w refl refl

-- The pages that are counted as referenced, with those of the range that is still open.
abbrev pub counted : PageWalk → ℕ
counted w =
    if w.previous_page_referenced
    then add32 w.session.pages_referenced w.len
    else w.session.pages_referenced

abbrev pub IsCounted : PageWalk → Type 0
IsCounted w = counted w ≡ w.session.pages_referenced_debug

visit_page-IsCounted :
    (clearing : Bool) (host : Option Inode) (w : PageWalk) (p : ℕ)
    → IsCounted w
    → IsCounted (visit_page clearing host w p)
unfolding visit_page extend_run next_run take_flag count_page add_previous add_referenced_page_range
    same
visit_page-IsCounted clearing host w p h = ground arith

pub visit_pages-IsCounted :
    (clearing : Bool) (host : Option Inode) (w : PageWalk) (ps : List ℕ)
    → IsCounted w
    → IsCounted (visit_pages clearing host w ps)
unfolding visit_pages
visit_pages-IsCounted clearing host w [] h = h
visit_pages-IsCounted clearing host w (p ∷ ps) h =
    visit_pages-IsCounted clearing host (visit_page clearing host w p) ps
      (visit_page-IsCounted clearing host w p h)

pub add_previous_counted :
    (clearing : Bool) (host : Option Inode) (w : PageWalk)
    → IsCounted w
    → (add_previous clearing host w).session.pages_referenced
      ≡ (add_previous clearing host w).session.pages_referenced_debug
unfolding add_previous add_referenced_page_range
add_previous_counted clearing host w h = ground arith
