-- ===== src/PrefetchModule/Prefetching/Readaheads.antt =====
-- Which pages `prefetch_do_prefetch` reads ahead.
use prefetch.Common.{
  ℕ, ◌+◌, ◌≡◌, ◌≢◌, refl, sym, ap, ◌∙◌, Bool, true, false, ◌&&◌, if◌then◌else◌, Option, none, some,
  List, [], ◌∷◌, ◌++◌, subst,
}
use prefetch.Trace.{TraceRecord}
use prefetch.PrefetchModule.Prefetching.{
  KernelOps, IgetResult, found, failed, null, Call, got_super, dropped_super, got_inode, put_inode,
  got_filp, put_filp, read_ahead, Prefetch, iput, put_file, Iteration, next, out, oops, read_pages,
  open_filp, with_inode, open_file,
}
use prefetch.PrefetchModule.Prefetching.Balance.{put_file_keeps, iput_sb, iput_inode}

-- The ranges that were read ahead, the first one first.
abbrev pub reads : List Call → List TraceRecord
reads [] = []
reads (read_ahead device number start len ∷ cs) =
    reads cs
    ++ (record { device = device; inode_no = number; range_start = start; range_length = len }) ∷ []
reads (got_super _ ∷ cs) = reads cs
reads (dropped_super _ ∷ cs) = reads cs
reads (got_inode _ _ ∷ cs) = reads cs
reads (put_inode _ _ ∷ cs) = reads cs
reads (got_filp ∷ cs) = reads cs
reads (put_filp ∷ cs) = reads cs

abbrev pub is_found : IgetResult → Bool
is_found found = true
is_found failed = false
is_found null = false

-- The device of the record and its file are there.
abbrev pub is_available : KernelOps → TraceRecord → Bool
is_available k r = k.user_get_super r.device && is_found (k.iget r.device r.inode_no)

abbrev pub available : KernelOps → List TraceRecord → List TraceRecord
available k [] = []
available k (r ∷ rs) = if is_available k r then r ∷ available k rs else available k rs

abbrev pub super_of : KernelOps → ℕ → Option ℕ
super_of k device = if k.user_get_super device then some device else none

abbrev pub inode_of : KernelOps → TraceRecord → Option (ℕ × ℕ)
inode_of k r = if is_found (k.iget r.device r.inode_no) then some (r.device, r.inode_no) else none

-- The device and the inode are those of the previous record.
abbrev pub IsCurrent : KernelOps → Prefetch → Option TraceRecord → Type 0
IsCurrent k s none = s.sb ≡ none
IsCurrent k s (some p) =
    (s.sb ≡ super_of k p.device) × (k.user_get_super p.device ≡ true → s.inode ≡ inode_of k p)

-- The iteration goes on, is at `r`, and has read `r` ahead if it is available.
abbrev pub HasRead : KernelOps → List TraceRecord → TraceRecord → Iteration → Type 0
HasRead k before r (next s) =
    (s.prev_record ≡ some r)
    × IsCurrent k s (some r)
    × (reads s.calls ≡ (if is_available k r then before ++ r ∷ [] else before))
HasRead k before r (out s) = ⊥
HasRead k before r (oops s) = ⊥

-- What the two decisions on a record give.
pub is_available_at :
    (k : KernelOps) (r : TraceRecord) (a b : Bool)
    → k.user_get_super r.device ≡ a
    → is_found (k.iget r.device r.inode_no) ≡ b
    → is_available k r ≡ (a && b)
is_available_at k r a b h i = rw (h, i)

pub super_of_at :
    (k : KernelOps) (s : Prefetch) (device : ℕ)
    → k.user_get_super device ≡ true
    → s.sb ≡ some device
    → s.sb ≡ super_of k device
super_of_at k s device h e = rw h e

pub inode_of_at :
    (k : KernelOps) (r : TraceRecord) (b : Bool)
    → is_found (k.iget r.device r.inode_no) ≡ b
    → inode_of k r ≡ (if b then some (r.device, r.inode_no) else none)
inode_of_at k r b h = rw h

pub read_pages_read :
    (k : KernelOps) (s : Prefetch) (r : TraceRecord) (b : Bool)
    → k.user_get_super r.device ≡ true
    → is_found (k.iget r.device r.inode_no) ≡ b
    → s.sb ≡ some r.device
    → s.inode ≡ (if b then some (r.device, r.inode_no) else none)
    → HasRead k (reads s.calls) r (read_pages k s s.inode r)
unfolding read_pages
read_pages_read k s r true h i sb e =
    subst (λ o. HasRead k (reads s.calls) r (read_pages k s o r)) (sym e)
      (
        refl,
        (super_of_at k s r.device h sb, λ _. e ∙ sym (inode_of_at k r true i)),
        rw (is_available_at k r true true h i) refl,
      )
read_pages_read k s r false h i sb e =
    subst (λ o. HasRead k (reads s.calls) r (read_pages k s o r)) (sym e)
      (
        refl,
        (super_of_at k s r.device h sb, λ _. e ∙ sym (inode_of_at k r false i)),
        rw (is_available_at k r true false h i) refl,
      )

module _ (k : KernelOps) (filps_given : (n : ℕ) → k.get_empty_filp n ≡ true)
    (no_null : (device number : ℕ) → k.iget device number ≢ null) where
  reads-put_file : (s : Prefetch) (b : Bool) → reads (put_file s b).calls ≡ reads s.calls
  unfolding put_file
  reads-put_file s false = refl
  reads-put_file s true = refl

  open_filp_read :
      (s : Prefetch) (r : TraceRecord)
      → k.user_get_super r.device ≡ true
      → is_found (k.iget r.device r.inode_no) ≡ true
      → s.sb ≡ some r.device
      → s.inode ≡ some (r.device, r.inode_no)
      → HasRead k (reads s.calls) r (open_filp k s r)
  unfolding open_filp
  open_filp_read s r h i sb e = rw (filps_given s.filps) (
      read_pages_read k (record s { filps = s.filps + 1; file = true; calls = got_filp ∷ s.calls })
        r true h i sb e)

  with_inode_read :
      (s : Prefetch) (r : TraceRecord) (o : IgetResult)
      → k.iget r.device r.inode_no ≡ o
      → k.user_get_super r.device ≡ true
      → s.sb ≡ some r.device
      → s.inode ≡ none
      → HasRead k (reads s.calls) r (with_inode k s r.device r o)
  unfolding with_inode
  with_inode_read s r null q h sb e = no_null r.device r.inode_no q
  with_inode_read s r failed q h sb e =
      let i = ap is_found q in
      (
        refl,
        (super_of_at k s r.device h sb, λ _. e ∙ sym (inode_of_at k r false i)),
        rw (is_available_at k r true false h i) refl,
      )
  with_inode_read s r found q h sb e =
      let opened = record s {
        inode = some (r.device, r.inode_no);
        calls = got_inode r.device r.inode_no ∷ s.calls;
      } in
      let kept = put_file_keeps opened opened.file in
      subst (λ before. HasRead k before r (open_filp k (put_file opened opened.file) r))
        (reads-put_file opened opened.file)
        (open_filp_read (put_file opened opened.file) r h (ap is_found q) (kept.0 ∙ sb) kept.1)

  reads-iput : (s : Prefetch) (o : Option (ℕ × ℕ)) → reads (iput s o).calls ≡ reads s.calls
  unfolding iput
  reads-iput s none = refl
  reads-iput s (some (device, number)) = refl

  pub open_file_read :
      (s : Prefetch) (r : TraceRecord)
      → k.user_get_super r.device ≡ true
      → s.sb ≡ some r.device
      → HasRead k (reads s.calls) r (open_file k s r.device r)
  unfolding open_file
  open_file_read s r h sb =
      subst
        (λ before.
          HasRead k before r
            (with_inode k (iput s s.inode) r.device r (k.iget r.device r.inode_no)))
        (reads-iput s s.inode)
        (with_inode_read (iput s s.inode) r (k.iget r.device r.inode_no) refl h
          (iput_sb s s.inode ∙ sb) (iput_inode s))
