-- ===== src/RemapBlocks/Load/Line.antt =====
-- What a line of the input adds to the extents.
use prefetch.Common.{
  arith, ℕ, zero, suc, ◌+◌, ◌*◌, ◌%◌, ◌≤◌, ◌<◌, ◌≡◌, ◌⊎◌, inl, inr, sym, ap, ◌∙◌, subst, true, ◌||◌,
  ◌==◌, Bool-cases, word_mod,
}
use prefetch.RemapBlocks.Splay.{extent_splay}
use prefetch.RemapBlocks.Splay.Split.{IsOrdered, IsSplit, extent_splay-IsSplit}
use prefetch.RemapBlocks.Splay.Ascending.{extent_splay-IsOrdered}
use prefetch.RemapBlocks.Load.{
  Remap, Setup, Span, Round, exited, ended, go_on, load_round, Loaded, exhausted, failed, loaded,
  load_extent,
}
use prefetch.RemapBlocks.Load.Cover.{in_tree-extent_splay}
use prefetch.RemapBlocks.Load.Primed.{IsPrimed, IsRootBehind, primed_splay}
use prefetch.RemapBlocks.Load.Rounds.{in_span, IsSpan, Joins, Fits, at_root-Fits}

module _ (c : Setup) (ino : ℕ) (good : c.first_ino ≤ ino) (given : c.allocated ≡ true) where
  -- How the loop over a line ends.
  abbrev pub IsLoaded : Remap → Span → Loaded → Type 0
  IsLoaded st s exhausted = ⊥
  IsLoaded st s failed = Unit {0}
  IsLoaded st s (loaded st') = Joins st s st'

  -- The rounds suffice for the blocks that are left.
  abbrev Suffices : ℕ → Remap → Span → Type 0
  Suffices rounds st s =
      (2 * s.len + 1 ≤ rounds) ⊎ ((2 * s.len ≤ rounds) × IsPrimed s.blocknr st.extent_tree)

  empty_span : (st : Remap) (s : Span) → IsOrdered st.extent_tree → s.len ≡ 0 → Joins st s st
  empty_span st s o h = (o, λ x. ground arith)

  -- The tree of the round: splayed for the span's first block.
  abbrev splayed : Remap → Span → Remap
  splayed st s = record st { extent_tree = extent_splay (s.blocknr % word_mod) st.extent_tree }

  load_round-Fits :
      (st : Remap) (s : Span)
      → IsOrdered st.extent_tree
      → IsSpan s
      → 0 < s.len
      → Fits (splayed st s) s (load_round c st ino s)
  unfolding load_round
  load_round-Fits st s o fits some_len =
      let b = s.blocknr % word_mod in
      let small : b ≡ s.blocknr = omega arith in
      at_root-Fits c ino good given st s (extent_splay b st.extent_tree)
        (extent_splay-IsOrdered b st.extent_tree o)
        (subst (λ n. IsSplit n (extent_splay b st.extent_tree)) small
          (extent_splay-IsSplit b st.extent_tree o))
        fits some_len

  primed_root :
      (st : Remap) (s : Span)
      → IsOrdered st.extent_tree
      → IsSpan s
      → IsPrimed s.blocknr st.extent_tree
      → IsRootBehind s.blocknr (splayed st s).extent_tree
  primed_root st s o fits p =
      let b = s.blocknr % word_mod in
      let small : b ≡ s.blocknr = omega arith in
      subst (λ n. IsRootBehind s.blocknr (extent_splay n st.extent_tree)) (sym small)
        (primed_splay s.blocknr st.extent_tree o p)

  Suffices-next :
      (rounds : ℕ) (st st' : Remap) (s s' : Span)
      → IsOrdered st.extent_tree
      → IsSpan s
      → Suffices (suc rounds) st s
      → (s'.len < s.len)
        ⊎ ((s'.len ≡ s.len)
            × IsPrimed s'.blocknr st'.extent_tree
            × (IsRootBehind s.blocknr (splayed st s).extent_tree → ⊥))
      → Suffices rounds st' s'
  Suffices-next rounds st st' s s' o fits (inl enough) (inl less) = inl (omega arith)
  Suffices-next rounds st st' s s' o fits (inl enough) (inr (same, primed, ahead)) =
      inr (omega arith, primed)
  Suffices-next rounds st st' s s' o fits (inr (enough, primed)) (inl less) = inl (omega arith)
  Suffices-next rounds st st' s s' o fits (inr (enough, primed)) (inr (same, primed', ahead)) =
      absurd (ahead (primed_root st s o fits primed))

  after_round :
      (rounds : ℕ) (st : Remap) (s : Span) (r : Round)
      → IsOrdered st.extent_tree
      → IsSpan s
      → Suffices (suc rounds) st s
      → Fits (splayed st s) s r
      → ((st' : Remap) (s' : Span)
          → IsOrdered st'.extent_tree
          → IsSpan s'
          → Suffices rounds st' s'
          → IsLoaded st' s' (load_extent c rounds st' ino s'))
      → IsLoaded st s (elim r [
        | exited ↦ failed
        | ended st' ↦ loaded st'
        | go_on st' s' ↦ load_extent c rounds st' ino s'
      ])
  after_round rounds st s exited o fits enough f next = tt
  after_round rounds st s (ended st') o fits enough (o', f) next = (
    o',
    λ x.
        f x
        ∙ ap (λ b. b || in_span x s) (in_tree-extent_splay x (s.blocknr % word_mod) st.extent_tree),
  )
  after_round rounds st s (go_on st' s') o fits enough (o', fits', f, progress) next =
      relate (load_extent c rounds st' ino s')
        (next st' s' o' fits' (Suffices-next rounds st st' s s' o fits enough progress))
    where
      relate : (r : Loaded) → IsLoaded st' s' r → IsLoaded st s r
      relate exhausted h = h
      relate failed h = tt
      relate (loaded st2) (o2, h) = (
        o2,
        λ x.
            h x
            ∙ f x
            ∙ ap (λ b. b || in_span x s)
                (in_tree-extent_splay x (s.blocknr % word_mod) st.extent_tree),
      )

  pub load_extent-IsLoaded :
      (rounds : ℕ) (st : Remap) (s : Span)
      → IsOrdered st.extent_tree
      → IsSpan s
      → Suffices rounds st s
      → IsLoaded st s (load_extent c rounds st ino s)
  unfolding load_extent
  load_extent-IsLoaded zero st s o fits enough = elim (Bool-cases (s.len == 0)) [
    | inl none_left ↦ rw (IsLoaded, none_left) (empty_span st s o (ground arith))
    | inr more ↦ absurd (ground arith)
  ]
  load_extent-IsLoaded (suc rounds) st s o fits enough = elim (Bool-cases (s.len == 0)) [
    | inl none_left ↦ rw (IsLoaded, none_left) (empty_span st s o (ground arith))
    | inr more ↦
        rw (IsLoaded, more)
          (after_round rounds st s (load_round c st ino s) o fits enough
            (load_round-Fits st s o fits (ground arith))
            (λ st' s' o' fits' enough'. load_extent-IsLoaded rounds st' s' o' fits' enough'))
  ]
