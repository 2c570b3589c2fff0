-- ===== src/RemapBlocks/Load/Rounds.antt =====
-- What one round of the loop over a line does.
use prefetch.Common.{
  arith, ℕ, ◌+◌, ◌-◌, ◌≤◌, ◌<◌, ◌^◌, ◌≡◌, ◌⊎◌, inl, inr, refl, ap, ◌∙◌, Bool, true, ◌&&◌, ◌||◌, ltb,
  leb, Bool-cases, Option, none, some, ℤ,
}
use prefetch.RemapBlocks.Splay.{Extent, end_of, Tree, leaf, node}
use prefetch.RemapBlocks.Splay.Split.{
  IsExtent, InTree, IsOrdered, Before, Behind, IsSplit, InTree-imp,
}
use prefetch.RemapBlocks.Load.{
  beyond, Remap, Setup, Span, skip, Round, exited, ended, go_on, stop_with, inside_extent,
  after_gap, at_root, insert_new_extent,
}
use prefetch.RemapBlocks.Load.Cover.{
  covers, in_tree, in_tree_root, IsFree, extent_insert-Adds, new_extent, insert_new_extent_tree,
}
use prefetch.RemapBlocks.Load.Primed.{IsPrimed, IsRootBehind}

abbrev pub in_span : ℕ → Span → Bool
in_span x s = leb s.blocknr x && ltb x (s.blocknr + s.len)

-- The block numbers behind the span have 32 bits.
abbrev pub IsSpan : Span → Type 0
IsSpan s = s.blocknr + s.len < 2 ^ 32

-- Ordered extents, with the blocks of others and of a span.
abbrev pub Joins : Remap → Span → Remap → Type 0
Joins st s st' =
    IsOrdered st'.extent_tree
    × ((x : ℕ) → in_tree x st'.extent_tree ≡ (in_tree x st.extent_tree || in_span x s))

abbrev pub Fits : Remap → Span → Round → Type 0
Fits st s exited = Unit {0}
Fits st s (ended st') = Joins st s st'
Fits st s (go_on st' s') =
    IsOrdered st'.extent_tree
    × IsSpan s'
    × ((x : ℕ)
        → (in_tree x st'.extent_tree || in_span x s') ≡ (in_tree x st.extent_tree || in_span x s))
    × ((s'.len < s.len)
        ⊎ ((s'.len ≡ s.len)
            × IsPrimed s'.blocknr st'.extent_tree
            × (IsRootBehind s.blocknr st.extent_tree → ⊥)))

module _ (c : Setup) (ino : ℕ) (good : c.first_ino ≤ ino) (given : c.allocated ≡ true) where
  -- The first blocks of a span are inserted as an extent.
  insert_span :
      (st : Remap) (s : Span) (n : ℕ) (st' : Remap)
      → IsOrdered st.extent_tree
      → 0 < n
      → s.blocknr + n < 2 ^ 32
      → IsFree (new_extent st s.blocknr n s.offset) st.extent_tree
      → insert_new_extent c st s.blocknr n s.offset ino ≡ some st'
      → Joins st (record s { len = n }) st'
  insert_span st s n st' o some_n fits free e =
      let new = new_extent st s.blocknr n s.offset in
      let (o', adds) =
        extent_insert-Adds new st.extent_tree st'.extent_tree (some_n, omega arith) o free
          (insert_new_extent_tree c st s.blocknr n s.offset ino st' good given e) in
      (o', λ x. adds x ∙ ap (λ b. in_tree x st.extent_tree || b) (covers_new x))
    where
      covers_new :
          (x : ℕ) → covers x (new_extent st s.blocknr n s.offset) ≡ in_span x (record s { len = n })
      covers_new x = ground arith

  stop_with-Fits :
      (st : Remap) (s : Span) (o : Option Remap)
      → ((st' : Remap) → o ≡ some st' → Joins st s st')
      → Fits st s (stop_with o)
  unfolding stop_with
  stop_with-Fits st s none h = tt
  stop_with-Fits st s (some st') h = h st' refl

  -- The rest of the span when its first block is in an extent of the tree.
  inside_extent-Fits :
      (st : Remap) (s : Span) (ext : Extent)
      → IsOrdered st.extent_tree
      → ((x : ℕ) → covers x ext ≡ true → in_tree x st.extent_tree ≡ true)
      → IsSpan s
      → ext.block ≤ s.blocknr
      → s.blocknr < end_of ext
      → Fits st s (inside_extent ext st s)
  unfolding inside_extent skip
  inside_extent-Fits st s ext o cov fits from to =
      elim (Bool-cases (leb (s.blocknr + s.len) (end_of ext))) [
        | inl all ↦ rw all (o, λ x. ground (arith, cov x))
        | inr part ↦ rw part (o, ground arith, λ x. ground (arith, cov x), inl (ground arith))
      ]

  -- Two parts of a span, one after the other.
  widen :
      (st st' : Remap) (s first rest : Span) (r : Round)
      → Joins st first st'
      → ((x : ℕ) → in_span x s ≡ (in_span x first || in_span x rest))
      → rest.len < s.len
      → Fits st' rest r
      → Fits st s r
  widen st st' s first rest exited j parts lt f = tt
  widen st st' s first rest (ended st2) j parts lt (o, f) =
      (o, λ x. ground (arith, f x, j.1 x, parts x))
  widen st st' s first rest (go_on st2 s2) j parts lt (o, fits, f, progress) =
      (o, fits, λ x. ground (arith, f x, j.1 x, parts x), inl (ground arith))

  covers_root :
      (x : ℕ) (l : Tree) (ext : Extent) (r : Tree)
      → covers x ext ≡ true
      → in_tree x (node l ext r) ≡ true
  covers_root x l ext r h = ground (arith, in_tree_root x l ext r)

  -- What lies before the extent at the root is inserted, and the rest lies in it or behind it.
  after_gap-Fits :
      (st : Remap) (s : Span) (ext : Extent) (o : Option Remap)
      → ((x : ℕ) → covers x ext ≡ true → in_tree x st.extent_tree ≡ true)
      → IsSpan s
      → IsExtent ext
      → s.blocknr < ext.block
      → ext.block ≤ s.blocknr + s.len
      → ((st' : Remap) → o ≡ some st' → Joins st (record s { len = ext.block - s.blocknr }) st')
      → Fits st s (after_gap c ino ext (skip s (ext.block - s.blocknr)) o)
  unfolding after_gap skip
  after_gap-Fits st s ext none cov fits h from to joins = tt
  after_gap-Fits st s ext (some st') cov fits h from to joins =
      let first = record s { len = ext.block - s.blocknr } in
      let rest = skip s (ext.block - s.blocknr) in
      let j = joins st' refl in
      let length_left : rest.len ≡ s.len - (ext.block - s.blocknr) = omega arith in
      let inner : ltb rest.blocknr (end_of ext) ≡ true = ground arith in
      rw inner (
        widen st st' s first rest (inside_extent ext st' rest) j (λ x. ground arith) (omega arith)
          (inside_extent-Fits st' rest ext j.0 (λ x k. ground (arith, cov x k, j.1 x)) (omega arith)
            (omega arith) (omega arith)))

  IsFree-before_root :
      (st : Remap) (b n : ℕ) (offset : ℤ) (l : Tree) (ext : Extent) (r : Tree)
      → IsOrdered (node l ext r)
      → InTree (Before b) l
      → b + n < 2 ^ 32
      → b + n ≤ ext.block
      → IsFree (new_extent st b n offset) (node l ext r)
  IsFree-before_root st b n offset l ext r o before fits to = (
    InTree-imp (λ x p. inl (omega arith)) l before,
    inr (omega arith),
    InTree-imp (λ x p. inr (omega arith)) r o.1,
  )

  -- The root ends before the block.
  past_root :
      (st : Remap) (s : Span) (l : Tree) (ext : Extent) (r : Tree)
      → let st1 = record st { extent_tree = node l ext r } in
        IsOrdered (node l ext r)
        → InTree (Before s.blocknr) l
        → InTree (Behind s.blocknr) r
        → IsSpan s
        → 0 < s.len
        → end_of ext ≤ s.blocknr
        → Fits st1 s (beyond c st1 ino s r)
  unfolding beyond
  past_root st s l ext leaf o before behind fits some_len past =
      let st1 = record st { extent_tree = node l ext leaf } in
      stop_with-Fits st1 s (insert_new_extent c st1 s.blocknr s.len s.offset ino) (λ st' e.
        insert_span st1 s s.len st' o some_len fits
          (InTree-imp (λ x p. inl (omega arith)) l before, inl (omega arith), tt) e)
  past_root st s l ext (node l' e' r') o before behind fits some_len past =
      (o, fits, λ x. refl, inr (refl, (past, behind), λ h. omega arith))

  pub at_root-Fits :
      (st : Remap) (s : Span) (t : Tree)
      → IsOrdered t
      → IsSplit s.blocknr t
      → IsSpan s
      → 0 < s.len
      → Fits (record st { extent_tree = t }) s (at_root c (record st { extent_tree = t }) ino s t)
  unfolding at_root
  at_root-Fits st s leaf o k fits some_len =
      let st1 = record st { extent_tree = leaf } in
      stop_with-Fits st1 s (insert_new_extent c st1 s.blocknr s.len s.offset ino)
        (λ st' e. insert_span st1 s s.len st' tt some_len fits tt e)
  at_root-Fits st s (node l ext r) o (before, behind) fits some_len =
      let st1 = record st { extent_tree = node l ext r } in
      elim (Bool-cases (ltb s.blocknr ext.block)) [
        | inl gap ↦ rw gap (elim (Bool-cases (ltb (s.blocknr + s.len) ext.block)) [
          | inl all ↦ rw all (
              stop_with-Fits st1 s (insert_new_extent c st1 s.blocknr s.len s.offset ino) (λ st' e.
                insert_span st1 s s.len st' o some_len fits
                  (IsFree-before_root st1 s.blocknr s.len s.offset l ext r o before fits
                    (ground arith))
                  e))
          | inr part ↦ rw part (
              after_gap-Fits st1 s ext
                (insert_new_extent c st1 s.blocknr (ext.block - s.blocknr) s.offset ino)
                (λ x h. covers_root x l ext r h) fits o.2 (ground arith) (ground arith)
                (λ st' e.
                  insert_span st1 s (ext.block - s.blocknr) st' o (ground arith) (ground arith)
                    (IsFree-before_root st1 s.blocknr (ext.block - s.blocknr) s.offset l ext r o
                      before (ground arith) (ground arith))
                    e))
        ])
        | inr from ↦ rw from (elim (Bool-cases (ltb s.blocknr (end_of ext))) [
          | inl to ↦ rw to (
              inside_extent-Fits st1 s ext o (λ x h. covers_root x l ext r h) fits (ground arith)
                (ground arith))
          | inr past ↦ rw past (past_root st s l ext r o before behind fits some_len (ground arith))
        ])
      ]
