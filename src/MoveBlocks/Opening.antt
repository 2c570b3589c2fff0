-- ===== src/MoveBlocks/Opening.antt =====
-- `open_filesystem` of e2moveblocks and of e2blockmap, with what libext2fs tells it.
use prefetch.Common.{
  ℕ, ◌-◌, Bool, false, not, ◌&&◌, ◌==◌, if◌then◌else◌, Option, none, some, word_mod,
}
use Prim.Native.Nat.{bit_and}

-- The flags of `ext2fs_check_if_mounted`.
pub record MountFlags : Type 0 where
  pub mounted : Bool
  pub busy : Bool

-- The feature sets of a superblock, and those that the library supports.
pub record Features : Type 0 where
  pub compat : ℕ
  pub incompat : ℕ
  pub ro_compat : ℕ

-- What the calls on one device give: the flags, the superblock's features once it is open, and whether
-- its bitmaps can be read; `none` is an error.
pub record Device : Type 0 where
  pub check_if_mounted : Option MountFlags
  pub features : Option Features
  pub read_bitmaps : Bool

-- `features & ~supported`, on words.
unfoldable pub has_unsupported : ℕ → ℕ → Bool
has_unsupported features supported = not (bit_and features (word_mod - 1 - supported) == 0)

unfoldable pub are_supported : Features → Features → Bool
are_supported supported f =
    if has_unsupported f.compat supported.compat
    then false
    else if has_unsupported f.incompat supported.incompat
    then false
    else not (has_unsupported f.ro_compat supported.ro_compat)

unfoldable pub with_features : Features → Device → Option Features → Bool
with_features supported d none = false
with_features supported d (some f) = are_supported supported f && d.read_bitmaps

unfoldable pub may_open : Bool → Option MountFlags → Bool
may_open force none = false
may_open force (some flags) =
    if flags.mounted && not force then false else not (flags.busy && not force)

-- The program is built with `ENABLE_HTREE` and without `ENABLE_COMPRESSION`. `force` is the option of
-- e2moveblocks; e2blockmap never forces.
unfoldable pub open_filesystem : Features → Device → Bool → Bool
open_filesystem supported d force =
    if may_open force d.check_if_mounted then with_features supported d d.features else false
