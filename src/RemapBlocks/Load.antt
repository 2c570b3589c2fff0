-- ===== src/RemapBlocks/Load.antt =====
-- The extents that are to be moved: the table of inodes with its hash chains, `insert_new_extent` and
-- the loop of `load_extents`.
pub mod Cover
pub mod Primed
pub mod Rounds
pub mod Line
pub mod Lines
pub mod Chunks
pub mod Offsets
use prefetch.Common.{
  ℕ, zero, suc, ◌+◌, ◌-◌, ◌*◌, ◌%◌, Bool, true, false, not, ◌&&◌, ltb, leb, ◌==◌, if◌then◌else◌,
  Option, none, some, List, [], ◌∷◌, ◌++◌, get_elem?, length, set, ℤ, pos, negsuc, ◌+ℤ◌, sub32,
  word_mod,
}
use prefetch.RemapBlocks.Splay.{Extent, end_of, Tree, leaf, node, extent_splay, extent_insert}

-- `struct inode_extents`: its list of extents, in the order of their insertion.
pub record InodeExtents : Type 0 where
  pub ino : ℕ
  pub extents : List Extent

-- The variables that the loading changes. A chain of the hash table holds positions in `inodes`, the
-- latest first.
pub record Remap : Type 0 where
  pub extent_tree : Tree
  pub inodes : List InodeExtents
  pub inode_hash : ℕ → List ℕ
  pub remap_blocks : ℕ

unfoldable pub no_extents : Remap
no_extents = record { extent_tree = leaf; inodes = []; inode_hash = λ slot. []; remap_blocks = 0 }

-- The chain from some entry on.
unfoldable pub find_in_chain : List InodeExtents → ℕ → List ℕ → Option ℕ
find_in_chain inodes ino [] = none
find_in_chain inodes ino (i ∷ chain) = elim (get_elem? inodes i) [
  | none ↦ none
  | some act ↦ elim (act.ino == ino) [ true ↦ some i | false ↦ find_in_chain inodes ino chain ]
]

unfoldable pub append_extent : InodeExtents → Extent → InodeExtents
append_extent iext ext = record iext { extents = iext.extents ++ ext ∷ [] }

-- The extent is added to the inode at a position of the table.
unfoldable pub add_extent : List InodeExtents → ℕ → Extent → List InodeExtents
add_extent [] i ext = []
add_extent (x ∷ xs) zero ext = append_extent x ext ∷ xs
add_extent (x ∷ xs) (suc i) ext = x ∷ add_extent xs i ext

-- What is left of the extent of a line.
pub record Span : Type 0 where
  pub blocknr : ℕ
  pub len : ℕ
  pub offset : ℤ

unfoldable pub skip : Span → ℕ → Span
skip s n = record { blocknr = s.blocknr + n; len = sub32 s.len n; offset = s.offset +ℤ pos n }

-- How a round ends.
pub data Round : Type 0 where
  exited : Round
  ended : Remap → Round
  go_on : Remap → Span → Round

unfoldable pub stop_with : Option Remap → Round
stop_with none = exited
stop_with (some st) = ended st

-- The block is in the extent.
unfoldable pub inside_extent : Extent → Remap → Span → Round
inside_extent ext st s =
    if leb (s.blocknr + s.len) (end_of ext)
    then ended st
    else go_on st (skip s (end_of ext - s.blocknr))

-- The tree to the right of the node of an extent, which its place tells from the others.
unfoldable pub find_right : ℕ → Tree → Option Tree
find_right chunk leaf = none
find_right chunk (node l e r) = elim (e.chunk_offset == chunk) [
  | true ↦ some r
  | false ↦ elim (find_right chunk l) [ none ↦ find_right chunk r | some t ↦ some t ]
]

unfoldable pub right_of : ℕ → Tree → Tree
right_of chunk t = elim (find_right chunk t) [ none ↦ leaf | some r ↦ r ]

-- How the loop over one line ends.
pub data Loaded : Type 0 where
  exhausted : Loaded
  failed : Loaded
  loaded : Remap → Loaded

-- A line of the file, as strchr, strncmp and sscanf take it apart.
pub data InputLine : Type 0 where
  no_space : InputLine
  unmapped : InputLine
  unreadable : InputLine
  extent : ℤ → ℕ → ℤ → ℕ → InputLine

unfoldable pub with_tree : Remap → Option Tree → Option Remap
with_tree st none = none
with_tree st (some t) = some (record st { extent_tree = t })

-- The size of the hash table, the first inode that is not reserved, whether malloc gives memory, and
-- whether realloc makes the array of so many inodes longer: if it is not empty, where it lies, since the
-- hash table goes on pointing there.
pub record Setup : Type 0 where
  pub inode_hash_size : ℕ
  pub first_ino : ℕ
  pub allocated : Bool
  pub grows : ℕ → Bool

abbrev pub inode_alloc_entries : ℕ
inode_alloc_entries = 8192

module _ (c : Setup) where
  unfoldable pub lookup_inode : Remap → ℕ → Option ℕ
  lookup_inode st ino = find_in_chain st.inodes ino (st.inode_hash (ino % c.inode_hash_size))

  -- The table with the new inode, which is its last; none is the exit, or that the array has moved.
  unfoldable pub create_new_inode : Remap → ℕ → Option Remap
  create_new_inode st ino =
      let slot = ino % c.inode_hash_size in
      if (length st.inodes % inode_alloc_entries == 0) && not (c.grows (length st.inodes))
      then none
      else some (record st {
        inodes = st.inodes ++ record { ino = ino; extents = [] } ∷ [];
        inode_hash =
            λ s. if s == slot then length st.inodes ∷ st.inode_hash slot else st.inode_hash s;
      })

  unfoldable pub good_inode : ℕ → Bool
  good_inode ino = leb c.first_ino ino

  unfoldable pub link_extent : Remap → ℕ → Extent → Option Remap
  link_extent st i ext =
      with_tree
        (record st {
          inodes = add_extent st.inodes i ext;
          remap_blocks = st.remap_blocks + ext.len;
        })
        (extent_insert ext st.extent_tree)

  unfoldable pub at_new_inode : ℕ → Extent → Option Remap → Option Remap
  at_new_inode i ext none = none
  at_new_inode i ext (some st) = link_extent st i ext

  unfoldable pub at_inode : Remap → ℕ → Extent → Option ℕ → Option Remap
  at_inode st ino ext (some i) = link_extent st i ext
  at_inode st ino ext none = at_new_inode (length st.inodes) ext (create_new_inode st ino)

  -- none is the exit.
  unfoldable pub insert_new_extent : Remap → ℕ → ℕ → ℤ → ℕ → Option Remap
  insert_new_extent st blocknr len offset ino =
      if not (good_inode ino)
      then some st
      else if not c.allocated
      then none
      else at_inode st ino
          (record {
            block = blocknr % word_mod;
            len = len;
            offset = offset;
            chunk_offset = st.remap_blocks;
          })
          (lookup_inode st ino)

  -- The extent is before the block; the tree is what lies to its right.
  unfoldable pub beyond : Remap → ℕ → Span → Tree → Round
  beyond st ino s leaf = stop_with (insert_new_extent st s.blocknr s.len s.offset ino)
  beyond st ino s (node l' e' r') = go_on st s

  -- After the blocks before the extent were inserted: what is left of the span starts at the extent.
  unfoldable pub after_gap : ℕ → Extent → Span → Option Remap → Round
  after_gap ino ext s none = exited
  after_gap ino ext s (some st) =
      if ltb s.blocknr (end_of ext)
      then inside_extent ext st s
      else beyond st ino s (right_of ext.chunk_offset st.extent_tree)

  unfoldable pub at_root : Remap → ℕ → Span → Tree → Round
  at_root st ino s leaf = stop_with (insert_new_extent st s.blocknr s.len s.offset ino)
  at_root st ino s (node l ext r) =
      if ltb s.blocknr ext.block
      then if ltb (s.blocknr + s.len) ext.block
        then stop_with (insert_new_extent st s.blocknr s.len s.offset ino)
        else after_gap ino ext (skip s (ext.block - s.blocknr))
            (insert_new_extent st s.blocknr (ext.block - s.blocknr) s.offset ino)
      else if ltb s.blocknr (end_of ext)
      then inside_extent ext st s
      else beyond st ino s r

  unfoldable pub load_round : Remap → ℕ → Span → Round
  load_round st ino s =
      let t = extent_splay (s.blocknr % word_mod) st.extent_tree in
      at_root (record st { extent_tree = t }) ino s t

  -- `while (len)`, for some rounds.
  unfoldable pub load_extent : ℕ → Remap → ℕ → Span → Loaded
  load_extent zero st ino s = elim (s.len == 0) [ true ↦ loaded st | false ↦ exhausted ]
  load_extent (suc rounds) st ino s = elim (s.len == 0) [
    | true ↦ loaded st
    | false ↦ elim (load_round st ino s) [
      | exited ↦ failed
      | ended st' ↦ loaded st'
      | go_on st' s' ↦ load_extent rounds st' ino s'
    ]
  ]

  -- The round for a block number below 0, `-(n + 1)`, which every extent lies behind.
  unfoldable pub at_root_below : Remap → ℕ → ℕ → ℕ → ℤ → Tree → Round
  at_root_below st ino n len offset leaf =
      stop_with (insert_new_extent st (sub32 0 (suc n % word_mod)) len offset ino)
  at_root_below st ino n len offset (node l ext r) =
      let gap = ext.block + suc n in
      if ltb len gap
      then stop_with (insert_new_extent st (sub32 0 (suc n % word_mod)) len offset ino)
      else after_gap ino ext
          (record { blocknr = ext.block; len = sub32 len gap; offset = offset +ℤ pos gap })
          (insert_new_extent st (sub32 0 (suc n % word_mod)) (gap % word_mod) offset ino)

  unfoldable pub after_below : ℕ → ℕ → Round → Loaded
  after_below len ino exited = failed
  after_below len ino (ended st) = loaded st
  after_below len ino (go_on st s) = load_extent (2 * len + 1) st ino s

  unfoldable pub load_below : Remap → ℕ → ℕ → ℕ → ℤ → Loaded
  load_below st ino n len offset = elim (len == 0) [
    | true ↦ loaded st
    | false ↦
        let t = extent_splay (sub32 0 (suc n % word_mod)) st.extent_tree in
        after_below len ino (at_root_below (record st { extent_tree = t }) ino n len offset t)
  ]

  -- Two rounds for each block are enough for a line, and one more.
  unfoldable pub load_line : Remap → InputLine → Loaded
  load_line st no_space = failed
  load_line st unmapped = loaded st
  load_line st unreadable = failed
  load_line st (extent (pos blocknr) len offset ino) =
      load_extent (2 * len + 1) st ino (record { blocknr = blocknr; len = len; offset = offset })
  load_line st (extent (negsuc n) len offset ino) = load_below st ino n len offset

  unfoldable pub load_extents : Remap → List InputLine → Loaded
  load_extents st [] = loaded st
  load_extents st (line ∷ lines) = elim (load_line st line) [
    | exhausted ↦ exhausted
    | failed ↦ failed
    | loaded st' ↦ load_extents st' lines
  ]
