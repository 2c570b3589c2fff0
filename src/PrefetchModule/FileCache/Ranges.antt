-- ===== src/PrefetchModule/FileCache/Ranges.antt =====
-- The ranges of pages that the walk of a file should add: the runs of referenced pages of an ascending
-- list of page indexes, and which pages they cover.
use prefetch.Common.{
  ℕ, ◌+◌, ◌≡◌, refl, Bool, true, false, ◌&&◌, ◌||◌, ltb, leb, ◌==◌, if◌then◌else◌, List, [], ◌∷◌,
  arith, Bool-cases, inl, inr, sym, ap, ◌∙◌,
}
use prefetch.PrefetchModule.FileCache.{same}

pub record PageRange : Type 0 where
  pub start : ℕ
  pub len : ℕ

-- The range [`start`, `start + len`), if its pages are referenced.
unfoldable pub pending : Bool → ℕ → ℕ → List PageRange
pending true start len = record { start = start; len = len } ∷ []
pending false start len = []

unfoldable pub pending_then : Bool → ℕ → ℕ → List PageRange → List PageRange
pending_then true start len rs = record { start = start; len = len } ∷ rs
pending_then false start len rs = rs

-- The runs of pages that have the same flag as their predecessor and follow it without a gap.
unfoldable pub runs : (ℕ → Bool) → Bool → ℕ → ℕ → List ℕ → List PageRange
runs referenced previous start len [] = pending previous start len
runs referenced previous start len (page ∷ pages) =
    let longer = runs referenced previous start (len + 1) pages in
    let next = runs referenced (referenced page) page 1 pages in
    if (page == start + len) && same previous (referenced page)
    then longer
    else pending_then previous start len next

unfoldable pub in_range : ℕ → ℕ → ℕ → Bool
in_range start len page = leb start page && ltb page (start + len)

unfoldable pub covers : List PageRange → ℕ → Bool
covers [] page = false
covers (r ∷ rs) page = in_range r.start r.len page || covers rs page

unfoldable pub has_page : List ℕ → ℕ → Bool
has_page [] page = false
has_page (p ∷ ps) page = (p == page) || has_page ps page

pub ==_to_eq : (a b : ℕ) → (a == b) ≡ true → a ≡ b
==_to_eq a b h = ground arith

or-false : (a : Bool) → (a || false) ≡ a
or-false true = refl
or-false false = refl

pub same_eq : (a b : Bool) → same a b ≡ true → a ≡ b
unfolding same
same_eq true b h = ground arith
same_eq false b h = ground arith

covers-pending_then :
    (previous : Bool) (start len : ℕ) (rs : List PageRange) (page : ℕ)
    → covers (pending_then previous start len rs) page
      ≡ ((previous && in_range start len page) || covers rs page)
unfolding covers pending_then
covers-pending_then true start len rs page = refl
covers-pending_then false start len rs page = refl

covers-pending :
    (previous : Bool) (start len page : ℕ)
    → covers (pending previous start len) page ≡ (previous && in_range start len page)
unfolding covers pending
covers-pending true start len page = ground arith
covers-pending false start len page = refl

long_step :
    (f g more : Bool) (start len p page : ℕ)
    → (p ≡ page → f ≡ g)
    → p ≡ start + len
    → ((f && in_range start (len + 1) page) || (more && g))
      ≡ ((f && in_range start len page) || (((p == page) || more) && g))
unfolding in_range
long_step true g more start len p page h e = ground (arith, h)
long_step false g more start len p page h e = ground (arith, h)

cut_step :
    (f g more before : Bool) (p page : ℕ)
    → (p ≡ page → f ≡ g)
    → (before || ((f && in_range p 1 page) || (more && g)))
      ≡ (before || (((p == page) || more) && g))
unfolding in_range
cut_step f g more true p page h = refl
cut_step true g more false p page h = ground (arith, h)
cut_step false g more false p page h = ground (arith, h)

pub long_at : (a b : Bool) → (a && b) ≡ true → a ≡ true
long_at true b h = refl
long_at false b h = h

pub long_same : (a b : Bool) → (a && b) ≡ true → b ≡ true
long_same true b h = h
long_same false b h = absurd (ground (arith, h))

-- The runs cover the pages that are referenced, and no others.
pub covers-runs :
    (referenced : ℕ → Bool) (previous : Bool) (start len : ℕ) (pages : List ℕ) (page : ℕ)
    → covers (runs referenced previous start len pages) page
      ≡ ((previous && in_range start len page) || (has_page pages page && referenced page))
unfolding runs has_page
covers-runs referenced true start len [] page =
    covers-pending true start len page ∙ sym (or-false _)
covers-runs referenced false start len [] page = covers-pending false start len page
covers-runs referenced previous start len (p ∷ pages) page =
    let flag = λ (e : p ≡ page). ap referenced e in
    elim (Bool-cases ((p == start + len) && same previous (referenced p))) [
      | inl long ↦
          let eq = same_eq previous (referenced p) (long_same (p == start + len) _ long) in
          rw long (
            covers-runs referenced previous start (len + 1) pages page
            ∙ long_step previous (referenced page) (has_page pages page) start len p page
                (λ e. eq ∙ flag e) (==_to_eq p (start + len) (long_at _ _ long)))
      | inr cut ↦ rw cut (
          covers-pending_then previous start len _ page
          ∙ ap (◌||◌ (previous && in_range start len page))
              (covers-runs referenced (referenced p) p 1 pages page)
          ∙ cut_step (referenced p) (referenced page) (has_page pages page)
              (previous && in_range start len page) p page flag)
    ]
