-- ===== src/PrefetchModule/FileCache/Walk.antt =====
-- The loop of `walk_file_cache` visits every page of the file once, in ascending order, however the
-- lookups cut them into batches, and it ends.
use prefetch.Common.{
  ℕ, zero, suc, ◌+◌, ◌-◌, ◌≤◌, ◌<◌, ◌≡◌, refl, sym, ap, ◌∙◌, Bool, ltb, if◌then◌else◌, Option, none,
  some, List, [], ◌∷◌, ◌++◌, arith, length, add32, add32_small, take, drop, length-drop, word_mod,
  Bool-cases, inl, inr, ltb→lt, ltb→ge, lt→ltb, ge→ltb, if_both,
}
use prefetch.PrefetchModule.TraceBuffer.{PrefetchTrace}
use prefetch.PrefetchModule.FileCache.{
  Inode, Session, PageWalk, extend_run, next_run, visit_page, visit_pages, take_flag, add_previous,
  first_page, walk_loop, start_walk, walk_file_cache,
}

-- The pages from the index `first` on.
unfoldable pub from : ℕ → List ℕ → List ℕ
from first [] = []
from first (p ∷ ps) = let rest = from first ps in if ltb p first then rest else p ∷ ps

-- Ascending page indexes, none of them the last of the word.
abbrev pub InOrder : ℕ → List ℕ → Type 0
InOrder first [] = Unit {0}
InOrder first (p ∷ ps) = (first ≤ p) × (p < word_mod - 1) × InOrder (p + 1) ps

from_all : (first : ℕ) (ps : List ℕ) → InOrder first ps → from first ps ≡ ps
unfolding from
from_all first [] h = refl
from_all first (p ∷ ps) h = rw (ge→ltb p first h.0) refl

from_step :
    (low first p : ℕ) (ps qs : List ℕ)
    → InOrder low ps
    → from first ps ≡ p ∷ qs
    → (from (p + 1) ps ≡ qs) × (first ≤ p) × (p < word_mod - 1)
unfolding from
from_step low first p [] qs h e = cc
from_step low first p (x ∷ ps) qs h e = elim (Bool-cases (ltb x first)) [
  | inl before ↦
      let e' : from first ps ≡ p ∷ qs = ground (arith, e) in
      let (a, b, c) = from_step (x + 1) first p ps qs h.2 e' in
      (rw (lt→ltb x (p + 1) (omega (arith, ltb→lt _ _ before))) a, b, c)
  | inr here ↦
      let e' : x ∷ ps ≡ p ∷ qs = ground (arith, e) in
      let head : x ≡ p = cc in
      let rest : ps ≡ qs = cc in
      (
        rw (lt→ltb x (p + 1) (omega arith))
            (ap (λ k. from (k + 1) ps) (sym head) ∙ from_all (x + 1) ps h.2 ∙ rest),
        omega (arith, ltb→ge _ _ here),
        omega arith,
      )
]

pub visit_page_next :
    (clearing : Bool) (host : Option Inode) (w : PageWalk) (p : ℕ)
    → w.start + w.len < word_mod
    → p < word_mod - 1
    → (visit_page clearing host w p).start + (visit_page clearing host w p).len ≡ p + 1
unfolding visit_page extend_run next_run take_flag
visit_page_next clearing host w p h k = ground arith

-- `page0` is set at the first page.
HasFirst : PageWalk → Type 0
HasFirst w = (q : ℕ) × (w.page0 ≡ some q)

visit_page-HasFirst :
    (clearing : Bool) (host : Option Inode) (w : PageWalk) (p : ℕ)
    → HasFirst w
    → HasFirst (visit_page clearing host w p)
unfolding visit_page extend_run next_run take_flag HasFirst
visit_page-HasFirst clearing host w p (q, h) =
    if_both (λ v. (r : ℕ) × (PageWalk.page0 v ≡ some r)) _ _ _ (q, h) (p, refl)

unfoldable pub enter : PageWalk → List ℕ → PageWalk
enter w [] = w
enter w (p ∷ ps) = first_page w w.page0 p

enter_entered : (w : PageWalk) (ps : List ℕ) → HasFirst w → enter w ps ≡ w
unfolding enter HasFirst first_page
enter_entered w [] h = refl
enter_entered w (p ∷ ps) (q, h) = rw h

enter-HasFirst : (w : PageWalk) (p : ℕ) (ps : List ℕ) → HasFirst (enter w (p ∷ ps))
unfolding enter HasFirst first_page
enter-HasFirst w p ps = by_page0 w.page0 refl
  where
    by_page0 : (o : Option ℕ) → w.page0 ≡ o → HasFirst (first_page w o p)
    by_page0 none e = (p, refl)
    by_page0 (some q) e = (q, e)

enter_next : (w : PageWalk) (ps : List ℕ) → (enter w ps).start + (enter w ps).len ≡ w.start + w.len
unfolding enter first_page
enter_next w [] = refl
enter_next w (p ∷ ps) = by_page0 w.page0
  where
    by_page0 : (o : Option ℕ) → (first_page w o p).start + (first_page w o p).len ≡ w.start + w.len
    by_page0 none = refl
    by_page0 (some q) = refl

-- The pages `rest` are left.
record Left (pages : List ℕ) (w : PageWalk) (rest : List ℕ) : Type 0 where
  ahead : from (w.start + w.len) pages ≡ rest
  small : w.start + w.len < word_mod

visit_page-Left :
    (pages : List ℕ) (clearing : Bool) (host : Option Inode) (w : PageWalk) (p : ℕ) (ps : List ℕ)
    → InOrder 0 pages
    → Left pages w (p ∷ ps)
    → Left pages (visit_page clearing host w p) ps
visit_page-Left pages clearing host w p ps o h =
    let (a, b, c) = from_step 0 (w.start + w.len) p pages ps o h.ahead in
    let e = visit_page_next clearing host w p h.small c in
    record { ahead = ap (λ k. from k pages) e ∙ a; small = omega arith }

visit_pages-Left :
    (pages : List ℕ) (clearing : Bool) (host : Option Inode) (w : PageWalk) (ps qs : List ℕ)
    → InOrder 0 pages
    → HasFirst w
    → Left pages w (ps ++ qs)
    → HasFirst (visit_pages clearing host w ps) × Left pages (visit_pages clearing host w ps) qs
unfolding visit_pages
visit_pages-Left pages clearing host w [] qs o f h = (f, h)
visit_pages-Left pages clearing host w (p ∷ ps) qs o f h =
    visit_pages-Left pages clearing host (visit_page clearing host w p) ps qs o
      (visit_page-HasFirst clearing host w p f)
      (visit_page-Left pages clearing host w p (ps ++ qs) o h)

visit_pages-append :
    (clearing : Bool) (host : Option Inode) (w : PageWalk) (ps qs : List ℕ)
    → visit_pages clearing host (visit_pages clearing host w ps) qs
      ≡ visit_pages clearing host w (ps ++ qs)
unfolding visit_pages
visit_pages-append clearing host w [] qs = refl
visit_pages-append clearing host w (p ∷ ps) qs =
    visit_pages-append clearing host (visit_page clearing host w p) ps qs

take-drop : (n : ℕ) (ps : List ℕ) → take n ps ++ drop n ps ≡ ps
take-drop zero ps = refl
take-drop (suc n) [] = refl
take-drop (suc n) (p ∷ ps) = ap (◌∷◌ p) (take-drop n ps)

module _ (clearing : Bool) (host : Option Inode) (gang_lookup : ℕ → ℕ → List ℕ) (size : ℕ)
    (pages : List ℕ) (lookup_lem : (first n : ℕ) → gang_lookup first n ≡ take n (from first pages))
    (o : InOrder 0 pages) where
  Walks : ℕ → PageWalk → List ℕ → Type 0
  Walks fuel w rest =
      walk_loop clearing host gang_lookup (suc size) fuel w
      ≡ some (add_previous clearing host (visit_pages clearing host (enter w rest) rest))

  batch :
      (fuel : ℕ) (w : PageWalk) (rest : List ℕ)
      → length rest < suc fuel
      → Left pages w rest
      → ((v : PageWalk) (qs : List ℕ) → length qs < fuel → Left pages v qs → Walks fuel v qs)
      → elim (take (suc size) rest) [
        | [] ↦ some (add_previous clearing host w)
        | index ∷ indexes ↦
            walk_loop clearing host gang_lookup
              (suc size)
              fuel
              (visit_pages clearing host (first_page w w.page0 index) (index ∷ indexes))
      ]
        ≡ some (add_previous clearing host (visit_pages clearing host (enter w rest) rest))
  unfolding Walks visit_pages enter
  batch fuel w [] f h ih = refl
  batch fuel w (p ∷ ps) f h ih =
      let ps' = take size ps in
      let qs = drop size ps in
      let w' = enter w (p ∷ ps) in
      let v = visit_pages clearing host w' (p ∷ ps') in
      let whole = take-drop size ps in
      let left : Left pages w' (p ∷ (ps' ++ qs)) = record {
        ahead = ap (λ k. from k pages) (enter_next w (p ∷ ps)) ∙ h.ahead ∙ ap (◌∷◌ p) (sym whole);
        small = omega (arith, enter_next w (p ∷ ps), h.small);
      } in
      let (entered, left') =
        visit_pages-Left pages clearing host w' (p ∷ ps') qs o (enter-HasFirst w p ps) left in
      ih v qs (omega (arith, length-drop {0} size ps)) left'
      ∙ ap (λ u. some (add_previous clearing host (visit_pages clearing host u qs)))
          (enter_entered v qs entered)
      ∙ ap (λ u. some (add_previous clearing host u))
          (visit_pages-append clearing host w' (p ∷ ps') qs
            ∙ ap (λ l. visit_pages clearing host w' (p ∷ l)) whole)

  walk_loop_lem :
      (fuel : ℕ) (w : PageWalk) (rest : List ℕ)
      → length rest < fuel
      → Left pages w rest
      → Walks fuel w rest
  unfolding Walks walk_loop
  walk_loop_lem zero w rest f h = absurd (omega arith)
  walk_loop_lem (suc fuel) w rest f h =
      let next : gang_lookup (add32 w.start w.len) (suc size) ≡ take (suc size) rest =
        ap (λ k. gang_lookup k (suc size)) (add32_small w.start w.len h.small)
        ∙ lookup_lem (w.start + w.len) (suc size)
        ∙ ap (take (suc size)) h.ahead in
      rw (next, Walks, walk_loop) (batch fuel w rest f h (walk_loop_lem fuel))

  -- The walk ends, and what it has done is a single pass over the pages of the file.
  pub walk_file_cache_lem :
      (fuel : ℕ) (session : Session) (trace : PrefetchTrace) (referenced : ℕ → Bool)
      → length pages < fuel
      → walk_file_cache clearing host gang_lookup (suc size) fuel session trace referenced
        ≡ some (
            add_previous clearing host
              (visit_pages clearing host (enter (start_walk session trace referenced) pages) pages))
  unfolding walk_file_cache start_walk Walks
  walk_file_cache_lem fuel session trace referenced f =
      walk_loop_lem fuel (start_walk session trace referenced) pages f
        (record { ahead = from_all 0 pages o; small = omega arith })
