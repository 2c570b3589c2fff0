-- ===== src/RemapBlocks/Copy/Inode.antt =====
-- All blocks of the extents of an inode arrive at their targets.
use prefetch.Common.{
  arith, ℕ, zero, suc, ◌+◌, ◌-◌, ◌≤◌, ◌<◌, ◌^◌, ◌≡◌, ◌≢◌, ◌⊎◌, inl, inr, refl, ap, ◌∙◌, subst, Bool,
  true, false, not, ltb, if◌then◌else◌, Bool-cases, some, List, [], ◌∷◌, min, All, AllPairs,
}
use prefetch.RemapBlocks.Splay.{Extent}
use prefetch.RemapBlocks.FreeExtents.Runs.{AreSpread}
use prefetch.RemapBlocks.FreeExtents.Lookup.{IsConsecutive}
use prefetch.RemapBlocks.Load.Chunks.{AreOffsetsApart}
use prefetch.RemapBlocks.Copy.{
  read_list, CopySetup, read_blocks, write_pieces, write_buffer, copy_chunks, copy_extents,
  copy_inode_blocks,
}
use prefetch.RemapBlocks.Copy.Targets.{target, target_injective}
use prefetch.RemapBlocks.Copy.Pieces.{
  length-read_list, HaveMoved, HaveMoved-none, write_pieces-HaveMoved,
}

-- pread and pwrite succeed, and the buffer is allocated.
pub record IsWorking (c : CopySetup) : Type 0 where
  pub reads : (b n : ℕ) → c.can_read b n ≡ true
  pub writes : (b n : ℕ) → c.can_write b n ≡ true
  pub given : c.allocated ≡ true

-- The offsets of an extent are within those of the targets, it fits into the buffer, and none of its
-- blocks is a target.
abbrev pub IsMovable : CopySetup → ℕ → Extent → Type 0
IsMovable c last e =
    (e.chunk_offset + e.len ≤ last)
    × (e.len ≤ c.remap_buf_blocks)
    × ((i o : ℕ) → i < e.len → o < last → e.block + i ≢ target c.free_extents o)

-- The block is the target of no block of the extents.
abbrev pub IsUntouched : CopySetup → ℕ → List Extent → Type 0
IsUntouched c x es =
    All (λ e. (i : ℕ) → i < e.len → x ≢ target c.free_extents (e.chunk_offset + i)) es

-- The offsets of the extents do not overlap.
abbrev pub AreDisjoint : List Extent → Type 0
AreDisjoint es = AllPairs AreOffsetsApart es

-- The blocks of an extent have come to their targets.
abbrev pub HasArrived : {D : Type 0} → CopySetup → (ℕ → D) → (ℕ → D) → Extent → Type 0
HasArrived c dev dev' e =
    (i : ℕ) → i < e.len → dev' (target c.free_extents (e.chunk_offset + i)) ≡ dev (e.block + i)

-- All blocks of the extents have come to their targets, and no other block has changed.
abbrev pub HaveArrived : {D : Type 0} → CopySetup → List Extent → (ℕ → D) → (ℕ → D) → Type 0
HaveArrived c es dev dev' =
    All (HasArrived c dev dev') es × ((x : ℕ) → IsUntouched c x es → dev' x ≡ dev x)

-- An offset of one extent has none of the targets of the others.
apart :
    (e : Extent) (i : ℕ) (es : List Extent)
    → i < e.len
    → All
        (λ f. (e.chunk_offset + e.len ≤ f.chunk_offset) ⊎ (f.chunk_offset + f.len ≤ e.chunk_offset))
        es
    → All (λ f. (j : ℕ) → j < f.len → e.chunk_offset + i ≢ f.chunk_offset + j) es
apart e i [] lt d = tt
apart e i (f ∷ es) lt (inl p, d) = (λ j lt' same. absurd (omega arith), apart e i es lt d)
apart e i (f ∷ es) lt (inr p, d) = (λ j lt' same. absurd (omega arith), apart e i es lt d)

pub if_given {ℓ} : {A : Type ℓ} (b : Bool) (x y : A) → b ≡ true → (if not b then x else y) ≡ y
if_given b x y h = rw h refl

module _ (c : CopySetup) (last : ℕ) (h : IsConsecutive 0 c.free_extents last)
    (small : last < 2 ^ 32) (spread : AreSpread c.free_extents) where
  untouched :
      (es : List Extent) (o : ℕ)
      → All (IsMovable c last) es
      → All (λ f. (j : ℕ) → j < f.len → o ≢ f.chunk_offset + j) es
      → o < last
      → IsUntouched c (target c.free_extents o) es
  untouched [] o m a lt = tt
  untouched (f ∷ es) o (mf, m) (af, a) lt = (
    λ j lt' same. af j lt' (
        target_injective c.free_extents last h small spread o (f.chunk_offset + j) lt
          (omega (arith, mf.0)) same),
    untouched es o m a lt,
  )

module _ {D : Type 0} (c : CopySetup) (last : ℕ) (h : IsConsecutive 0 c.free_extents last)
    (small : last < 2 ^ 32) (spread : AreSpread c.free_extents) (works : IsWorking c) where
  pub write_buffer-HaveMoved :
      (offset k s : ℕ) (dev : ℕ → D)
      → offset + k ≤ last
      → (dev' : ℕ → D) × (write_buffer c offset (read_blocks c s k dev) dev ≡ some dev')
        × HaveMoved c last h small spread works.writes offset k s dev dev dev'
  unfolding write_buffer read_blocks
  write_buffer-HaveMoved offset k s dev fits =
      let (dev', done, moved) =
        write_pieces-HaveMoved c last h small spread works.writes k offset k s dev dev (omega arith)
          fits in
      (
        dev',
        rw (works.reads s k, write_buffer)
            (ap (λ n. write_pieces c n offset (read_list k s dev) dev) (length-read_list k s dev)
              ∙ done),
        moved,
      )

  -- The loop after the last block.
  pub copy_chunks_end :
      (rounds : ℕ) (e : Extent) (curpos : ℕ) (dev : ℕ → D)
      → e.len ≤ curpos
      → copy_chunks c rounds e curpos dev ≡ some dev
  unfolding copy_chunks
  copy_chunks_end zero e curpos dev le =
      let done : ltb curpos e.len ≡ false = ground arith in rw (copy_chunks, done) refl
  copy_chunks_end (suc rounds) e curpos dev le =
      let done : ltb curpos e.len ≡ false = ground arith in rw (copy_chunks, done) refl

  -- An extent that fits into the buffer is one chunk.
  copy_chunks-HaveMoved :
      (rounds : ℕ) (e : Extent) (dev : ℕ → D)
      → e.chunk_offset + e.len ≤ last
      → e.len ≤ c.remap_buf_blocks
      → e.len ≤ rounds
      → (dev' : ℕ → D) × (copy_chunks c rounds e 0 dev ≡ some dev')
        × HaveMoved c last h small spread works.writes e.chunk_offset e.len
            (e.block + 0)
            dev
            dev
            dev'
  unfolding copy_chunks
  copy_chunks-HaveMoved zero e dev fits one enough =
      let nothing : 0 ≡ e.len = omega arith in
      (
        dev,
        copy_chunks_end zero e 0 dev enough,
        subst
            (λ n.
              HaveMoved c last h small spread works.writes e.chunk_offset n (e.block + 0) dev dev
                dev)
            nothing
            (HaveMoved-none c last h small spread works.writes e.chunk_offset (e.block + 0) dev
              dev),
      )
  copy_chunks-HaveMoved (suc rounds) e dev fits one enough = elim (Bool-cases (ltb 0 e.len)) [
    | inr done ↦
        let nothing : 0 ≡ e.len = ground arith in
        (
          dev,
          rw (copy_chunks, done) refl,
          subst
              (λ n.
                HaveMoved c last h small spread works.writes e.chunk_offset n (e.block + 0) dev dev
                  dev)
              nothing
              (HaveMoved-none c last h small spread works.writes e.chunk_offset (e.block + 0) dev
                dev),
        )
    | inl more ↦
        let (dev', done, moved) =
          write_buffer-HaveMoved e.chunk_offset e.len (e.block + 0) dev fits in
        let all : min (e.len - 0) c.remap_buf_blocks ≡ e.len = omega arith in
        (
          dev',
          rw (copy_chunks, more, all, done)
              (copy_chunks_end rounds e (0 + min (e.len - 0) c.remap_buf_blocks) dev'
                (omega arith)),
          moved,
        )
  ]

  copy_extent :
      (e : Extent) (dev : ℕ → D)
      → IsMovable c last e
      → (dev' : ℕ → D) × (copy_chunks c e.len e 0 dev ≡ some dev')
        × HasArrived c dev dev' e
        × ((x : ℕ) → IsUntouched c x (e ∷ []) → dev' x ≡ dev x)
  copy_extent e dev (fits, one, elsewhere) =
      let (dev', done, (moved, keep)) = copy_chunks-HaveMoved e.len e dev fits one (omega arith) in
      (
        dev',
        done,
        λ i lt. let from : e.block + 0 + i ≡ e.block + i = omega arith in moved i lt ∙ ap dev from,
        λ x (other, nothing). keep x other,
      )

  -- What arrives of the other extents is what they held at the start.
  since_start :
      (e : Extent) (es : List Extent) (dev dev1 dev2 : ℕ → D)
      → IsMovable c last e
      → ((x : ℕ) → IsUntouched c x (e ∷ []) → dev1 x ≡ dev x)
      → All (HasArrived c dev1 dev2) es
      → All (IsMovable c last) es
      → All (HasArrived c dev dev2) es
  since_start e [] dev dev1 dev2 me keep a m = tt
  since_start e (f ∷ es) dev dev1 dev2 me keep (af, a) (mf, m) = (
    λ i lt.
        af i lt
        ∙ keep (f.block + i) (λ j lt'. mf.2 i (e.chunk_offset + j) lt (omega (arith, me.0)), tt),
    since_start e es dev dev1 dev2 me keep a m,
  )

  copy_extents-HaveArrived :
      (es : List Extent) (dev : ℕ → D)
      → All (IsMovable c last) es
      → AreDisjoint es
      → (dev' : ℕ → D) × (copy_extents c es dev ≡ some dev') × HaveArrived c es dev dev'
  unfolding copy_extents
  copy_extents-HaveArrived [] dev m d = (dev, refl, (tt, λ x u. refl))
  copy_extents-HaveArrived (e ∷ es) dev (me, m) (de, d) =
      let (dev1, done, arrived, keep) = copy_extent e dev me in
      let (dev2, rest, (others, keep')) = copy_extents-HaveArrived es dev1 m d in
      (
        dev2,
        rw (copy_extents, done) rest,
        (
          (
            λ i lt.
                keep' (target c.free_extents (e.chunk_offset + i)) (
                  untouched c last h small spread es (e.chunk_offset + i) m (apart e i es lt de)
                    (omega (arith, me.0)))
                ∙ arrived i lt,
            since_start e es dev dev1 dev2 me keep others m,
          ),
          λ x (u, us). keep' x us ∙ keep x (u, tt),
        ),
      )

  -- Where all reads and writes succeed and memory is given, the copying of an inode's extents succeeds, and
  -- then each of their blocks is at its target and all
  -- blocks that are no targets are as they were: however the free extents cut the data. The
  -- extents fit into the buffer, and their blocks are no targets themselves.
  pub copy_inode_blocks-HaveArrived :
      (es : List Extent) (dev : ℕ → D)
      → All (IsMovable c last) es
      → AreDisjoint es
      → (dev' : ℕ → D) × (copy_inode_blocks c es dev ≡ some dev') × HaveArrived c es dev dev'
  unfolding copy_inode_blocks
  copy_inode_blocks-HaveArrived es dev m d =
      let (dev', done, arrived) = copy_extents-HaveArrived es dev m d in
      (dev', if_given c.allocated _ _ works.given ∙ done, arrived)
