-- ===== src/RemapBlocks/Load/Cover.antt =====
-- Which blocks the extents of the tree cover, and what an insertion adds.
use prefetch.Common.{
  refl, length, arith, ℕ, ◌%◌, ◌≤◌, ◌≡◌, ◌⊎◌, sym, ap, ◌∙◌, Bool, true, false, not, ◌&&◌, ◌||◌, ltb,
  leb, le→leb, if◌then◌else◌, Option, none, some, List, [], ◌∷◌, ◌++◌, word_mod, ℤ,
}
use prefetch.RemapBlocks.Splay.{Extent, end_of, Tree, node, extent_splay, extent_insert}
use prefetch.RemapBlocks.Splay.Order.{in_order, in_order-extent_splay}
use prefetch.RemapBlocks.Splay.Split.{IsExtent, InTree, IsOrdered}
use prefetch.RemapBlocks.Splay.Ascending.{All-in_order, in_order-IsAscending}
use prefetch.RemapBlocks.Splay.Insert.{Inserted, extent_insert_lem, Inserted-IsOrdered}
use prefetch.RemapBlocks.Load.{
  Remap, Setup, with_tree, link_extent, create_new_inode, at_new_inode, at_inode, insert_new_extent,
  good_inode, lookup_inode,
}

abbrev pub covers : ℕ → Extent → Bool
covers x e = leb e.block x && ltb x (end_of e)

unfoldable pub is_covered : ℕ → List Extent → Bool
is_covered x [] = false
is_covered x (e ∷ es) = covers x e || is_covered x es

-- The block is in an extent of the tree.
abbrev pub in_tree : ℕ → Tree → Bool
in_tree x t = is_covered x (in_order t)

is_covered-insert :
    (x : ℕ) (xs : List Extent) (e : Extent) (ys : List Extent)
    → is_covered x (xs ++ e ∷ ys) ≡ (is_covered x (xs ++ ys) || covers x e)
unfolding is_covered
is_covered-insert x [] e ys = ground arith
is_covered-insert x (y ∷ xs) e ys = ground (arith, is_covered-insert x xs e ys)

pub in_tree_root :
    (x : ℕ) (l : Tree) (e : Extent) (r : Tree)
    → in_tree x (node l e r) ≡ (is_covered x (in_order l ++ in_order r) || covers x e)
unfolding in_order
in_tree_root x l e r = is_covered-insert x (in_order l) e (in_order r)

pub in_tree-extent_splay : (x b : ℕ) (t : Tree) → in_tree x (extent_splay b t) ≡ in_tree x t
in_tree-extent_splay x b t = ap (is_covered x) (in_order-extent_splay b t)

Inserted-covers :
    (x : ℕ) (new : Extent) (old : List Extent) (o : Option Tree)
    → Inserted new old o
    → (t : Tree) → o ≡ some t
    → in_tree x t ≡ (is_covered x old || covers x new)
Inserted-covers x new old none i t e = absurd (cc e)
Inserted-covers x new old (some t') (xs, ys, parts, now, before, behind) t e =
    let same : t' ≡ t = cc e in
    ap (in_tree x) (sym same)
    ∙ ap (is_covered x) now
    ∙ is_covered-insert x xs new ys
    ∙ ap (λ es. is_covered x es || covers x new) (sym parts)

-- Disjoint from each extent of the tree.
abbrev pub IsFree : Extent → Tree → Type 0
IsFree new t = InTree (λ x. (end_of x ≤ new.block) ⊎ (end_of new ≤ x.block)) t

-- The tree after the insertion of an extent that is disjoint from all: ordered, with its blocks.
abbrev pub Adds : Tree → Extent → Tree → Type 0
Adds t new t' = IsOrdered t' × ((x : ℕ) → in_tree x t' ≡ (in_tree x t || covers x new))

pub extent_insert-Adds :
    (new : Extent) (t t' : Tree)
    → IsExtent new
    → IsOrdered t
    → IsFree new t
    → extent_insert new t ≡ some t'
    → Adds t new t'
extent_insert-Adds new t t' h o d e =
    let i = extent_insert_lem new t h o in
    (
      Inserted-IsOrdered new (in_order t) (extent_insert new t) h (in_order-IsAscending t o)
          (All-in_order (λ x. (end_of x ≤ new.block) ⊎ (end_of new ≤ x.block)) t d) i t' e,
      λ x. Inserted-covers x new (in_order t) (extent_insert new t) i t' e,
    )

abbrev pub new_extent : Remap → ℕ → ℕ → ℤ → Extent
new_extent st blocknr len offset = record {
  block = blocknr % word_mod;
  len = len;
  offset = offset;
  chunk_offset = st.remap_blocks;
}

both_pass :
    {A : Type 0} (a b : Bool) (x y z : A)
    → a ≡ true
    → b ≡ true
    → (if not a then x else if not b then y else z) ≡ z
both_pass a b x y z h k = rw (h, k)

module _ (c : Setup) where
  with_tree-some :
      (st : Remap) (o : Option Tree) (st' : Remap)
      → with_tree st o ≡ some st'
      → o ≡ some st'.extent_tree
  unfolding with_tree
  with_tree-some st none st' e = absurd (cc e)
  with_tree-some st (some t) st' e =
      ap (λ (o : Option Remap). elim o [ none ↦ none | some s ↦ some s.extent_tree ]) e

  at_new_inode_tree :
      (st : Remap) (ino i : ℕ) (ext : Extent) (b : Bool) (table : Remap) (st' : Remap)
      → table.extent_tree ≡ st.extent_tree
      → at_new_inode c i ext (if b then none else some table) ≡ some st'
      → extent_insert ext st.extent_tree ≡ some st'.extent_tree
  unfolding at_new_inode link_extent
  at_new_inode_tree st ino i ext true table st' same e = absurd (cc e)
  at_new_inode_tree st ino i ext false table st' same e =
      ap (extent_insert ext) (sym same)
      ∙ with_tree-some _ (extent_insert ext table.extent_tree) st' e

  at_inode_tree :
      (st : Remap) (ino : ℕ) (ext : Extent) (o : Option ℕ) (st' : Remap)
      → at_inode c st ino ext o ≡ some st'
      → extent_insert ext st.extent_tree ≡ some st'.extent_tree
  unfolding at_inode link_extent create_new_inode
  at_inode_tree st ino ext (some i) st' e =
      with_tree-some _ (extent_insert ext st.extent_tree) st' e
  at_inode_tree st ino ext none st' e =
      at_new_inode_tree st ino (length st.inodes) ext _ _ st' refl e

  pub insert_new_extent_tree :
      (st : Remap) (blocknr len : ℕ) (offset : ℤ) (ino : ℕ) (st' : Remap)
      → c.first_ino ≤ ino
      → c.allocated ≡ true
      → insert_new_extent c st blocknr len offset ino ≡ some st'
      → extent_insert (new_extent st blocknr len offset) st.extent_tree ≡ some st'.extent_tree
  unfolding insert_new_extent good_inode
  insert_new_extent_tree st blocknr len offset ino st' good given e =
      let passes =
        both_pass (leb c.first_ino ino) c.allocated _ _ _ (le→leb c.first_ino ino good) given in
      at_inode_tree st ino (new_extent st blocknr len offset) (lookup_inode c st ino) st'
        (sym passes ∙ e)
