-- ===== src/RemapBlocks/Load/Chunks.antt =====
-- The places that the loading gives the extents: one after the other, in the order of their insertion.
use mathlib.Core.List.{append_assoc, Permᴰ}
use mathlib.Core.List.Permᴰ
use prefetch.Common.{
  arith, ℕ, zero, suc, ◌+◌, ◌≤◌, ◌≡◌, ◌⊎◌, inl, inr, refl, sym, ap, subst, List, [], ◌∷◌, ◌++◌, All,
  All-perm, AllPairs, AllPairs-perm, middle-Permᴰ,
}
use prefetch.RemapBlocks.Splay.{Extent}
use prefetch.RemapBlocks.Load.{InodeExtents, append_extent, add_extent}

-- All extents of the inodes.
unfoldable pub extents_of : List InodeExtents → List Extent
extents_of [] = []
extents_of (iext ∷ inodes) = iext.extents ++ extents_of inodes

-- The offsets of two extents do not overlap.
abbrev pub AreOffsetsApart : Extent → Extent → Type 0
AreOffsetsApart e f =
    (e.chunk_offset + e.len ≤ f.chunk_offset) ⊎ (f.chunk_offset + f.len ≤ e.chunk_offset)

pub offsets_flip : (e f : Extent) → AreOffsetsApart e f → AreOffsetsApart f e
offsets_flip e f (inl h) = inr h
offsets_flip e f (inr h) = inl h

-- Offsets up to a number of blocks that do not overlap.
abbrev pub AreChunks : ℕ → List Extent → Type 0
AreChunks last es = All (λ e. e.chunk_offset + e.len ≤ last) es × AllPairs AreOffsetsApart es

pub AreChunks-perm :
    (last : ℕ) {es fs : List Extent} → Permᴰ es fs → AreChunks last es → AreChunks last fs
AreChunks-perm last p (within, apart) = (
  All-perm (λ e. e.chunk_offset + e.len ≤ last) p within,
  AllPairs-perm AreOffsetsApart offsets_flip p apart,
)

-- The next extent starts where the others end.
pub next_chunk :
    (last : ℕ) (e : Extent) (es : List Extent)
    → e.chunk_offset ≡ last
    → AreChunks last es
    → AreChunks (last + e.len) (e ∷ es)
next_chunk last e es at (within, apart) =
    let (all, behind) = others es within in ((omega arith, all), (behind, apart))
  where
    others :
        (es : List Extent)
        → All (λ f. f.chunk_offset + f.len ≤ last) es
        → All (λ f. f.chunk_offset + f.len ≤ last + e.len) es × All (AreOffsetsApart e) es
    others [] h = (tt, tt)
    others (f ∷ fs) (h, hs) =
        let (all, behind) = others fs hs in ((omega arith, all), (inr (omega arith), behind))

pub extents_of-end :
    (inodes : List InodeExtents) (ino : ℕ)
    → extents_of (inodes ++ record { ino = ino; extents = [] } ∷ []) ≡ extents_of inodes
unfolding extents_of
extents_of-end [] ino = refl
extents_of-end (x ∷ inodes) ino = ap (λ es. x.extents ++ es) (extents_of-end inodes ino)

-- The extent is added to an inode, or it is in no inode of the table.
pub extents_of-add_extent :
    (inodes : List InodeExtents) (i : ℕ) (e : Extent)
    → Permᴰ (e ∷ extents_of inodes) (extents_of (add_extent inodes i e))
      ⊎ (extents_of (add_extent inodes i e) ≡ extents_of inodes)
unfolding extents_of add_extent append_extent
extents_of-add_extent [] i e = inr refl
extents_of-add_extent (x ∷ xs) zero e = inl (
    subst (Permᴰ (e ∷ x.extents ++ extents_of xs))
      (sym (append_assoc x.extents (e ∷ []) (extents_of xs)))
      (middle-Permᴰ e x.extents (extents_of xs)))
extents_of-add_extent (x ∷ xs) (suc i) e = elim (extents_of-add_extent xs i e) [
  | inl p ↦
      inl (Permᴰ.trans (middle-Permᴰ e x.extents (extents_of xs)) (Permᴰ.append_left x.extents p))
  | inr same ↦ inr (ap (λ es. x.extents ++ es) same)
]
