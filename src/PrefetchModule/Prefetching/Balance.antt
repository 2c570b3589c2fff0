-- ===== src/PrefetchModule/Prefetching/Balance.antt =====
-- Every device, inode and file that `prefetch_do_prefetch` acquires it releases, on every path but the
-- dereference of NULL.
use prefetch.Common.{
  ℕ, ◌+◌, ◌-◌, ◌*◌, ◌≡◌, refl, ◌∙◌, Bool, true, false, leb, Option, none, some, List, [], ◌∷◌,
  arith, Bool-cases, if_both, inl, inr,
}
use prefetch.Trace.{TraceRecord}
use prefetch.Trace.Bytes.{record_size}
use prefetch.PrefetchModule.TraceBuffer.{enfile}
use prefetch.PrefetchModule.Prefetching.{
  KernelOps, IgetResult, found, failed, null, Call, got_super, dropped_super, got_inode, put_inode,
  got_filp, put_filp, Prefetch, initial_prefetch, drop_super, iput, put_file, get_super,
  other_device, other_file, open_device, Iteration, next, out, oops, read_pages, open_filp,
  with_inode, open_file, on_device, prefetch_record, release, Outcome, returned, crashed,
  prefetch_loop, prefetch_do_prefetch,
}

abbrev pub count : (Call → ℕ) → List Call → ℕ
count weight [] = 0
count weight (c ∷ cs) = weight c + count weight cs

abbrev pub is_got_super : Call → ℕ
is_got_super (got_super _) = 1
is_got_super _ = 0

abbrev pub is_dropped_super : Call → ℕ
is_dropped_super (dropped_super _) = 1
is_dropped_super _ = 0

abbrev pub is_got_inode : Call → ℕ
is_got_inode (got_inode _ _) = 1
is_got_inode _ = 0

abbrev pub is_put_inode : Call → ℕ
is_put_inode (put_inode _ _) = 1
is_put_inode _ = 0

abbrev pub is_got_filp : Call → ℕ
is_got_filp got_filp = 1
is_got_filp _ = 0

abbrev pub is_put_filp : Call → ℕ
is_put_filp put_filp = 1
is_put_filp _ = 0

abbrev pub held {ℓ} : {A : Type ℓ} → Option A → ℕ
held none = 0
held (some a) = 1

abbrev pub held_file : Bool → ℕ
held_file true = 1
held_file false = 0

-- What was acquired and not released is what the variables hold.
pub record IsBalanced (s : Prefetch) : Type 0 where
  pub supers : count is_got_super s.calls ≡ count is_dropped_super s.calls + held s.sb
  pub inodes : count is_got_inode s.calls ≡ count is_put_inode s.calls + held s.inode
  pub filps : count is_got_filp s.calls ≡ count is_put_filp s.calls + held_file s.file

drop_super-IsBalanced : (s : Prefetch) → IsBalanced s → IsBalanced (drop_super s s.sb)
unfolding drop_super
drop_super-IsBalanced s h = ground arith

iput-IsBalanced : (s : Prefetch) → IsBalanced s → IsBalanced (iput s s.inode)
unfolding iput
iput-IsBalanced s h = ground arith

put_file-IsBalanced : (s : Prefetch) → IsBalanced s → IsBalanced (put_file s s.file)
unfolding put_file
put_file-IsBalanced s h = ground arith

get_super-IsBalanced :
    (k : KernelOps) (s : Prefetch) (device : ℕ)
    → s.sb ≡ none
    → IsBalanced s
    → IsBalanced (get_super k s device)
unfolding get_super
get_super-IsBalanced k s device e h = ground arith

pub drop_super_sb : (s : Prefetch) → (drop_super s s.sb).sb ≡ none
unfolding drop_super
drop_super_sb s = ground arith

pub iput_inode : (s : Prefetch) → (iput s s.inode).inode ≡ none
unfolding iput
iput_inode s = ground arith

put_file_file : (s : Prefetch) → (put_file s s.file).file ≡ false
unfolding put_file
put_file_file s = ground arith

open_device-IsBalanced :
    (k : KernelOps) (s : Prefetch) (r : TraceRecord) → IsBalanced s → IsBalanced (open_device k s r)
unfolding open_device
open_device-IsBalanced k s r h =
    if_both IsBalanced (other_device s.prev_record r) _ s
      (get_super-IsBalanced k (drop_super s s.sb) r.device (drop_super_sb s)
        (drop_super-IsBalanced s h))
      h

-- An iteration that does not crash keeps the balance.
abbrev pub KeepsBalance : Iteration → Type 0
KeepsBalance (next s) = IsBalanced s
KeepsBalance (out s) = IsBalanced s
KeepsBalance (oops s) = Unit {0}

read_pages_balance :
    (k : KernelOps) (s : Prefetch) (o : Option (ℕ × ℕ)) (r : TraceRecord)
    → IsBalanced s
    → KeepsBalance (read_pages k s o r)
unfolding read_pages
read_pages_balance k s none r h = record { supers = h.supers; inodes = h.inodes; filps = h.filps }
read_pages_balance k s (some (device, number)) r h = record {
  supers = omega (arith, h.supers);
  inodes = omega (arith, h.inodes);
  filps = omega (arith, h.filps);
}

open_filp_balance :
    (k : KernelOps) (s : Prefetch) (r : TraceRecord)
    → s.file ≡ false
    → IsBalanced s
    → KeepsBalance (open_filp k s r)
unfolding open_filp
open_filp_balance k s r e h =
    if_both KeepsBalance (k.get_empty_filp s.filps) _ _
      (read_pages_balance k
        (record s { filps = s.filps + 1; file = true; calls = got_filp ∷ s.calls }) s.inode r
        (ground arith))
      (record { supers = h.supers; inodes = h.inodes; filps = h.filps })

with_inode_balance :
    (k : KernelOps) (s : Prefetch) (device : ℕ) (r : TraceRecord) (i : IgetResult)
    → s.inode ≡ none
    → IsBalanced s
    → KeepsBalance (with_inode k s device r i)
unfolding with_inode
with_inode_balance k s device r failed e h = record {
  supers = h.supers;
  inodes = h.inodes;
  filps = h.filps;
}
with_inode_balance k s device r null e h = tt
with_inode_balance k s device r found e h =
    let opened = record s {
      inode = some (device, r.inode_no);
      calls = got_inode device r.inode_no ∷ s.calls;
    } in
    open_filp_balance k (put_file opened opened.file) r (put_file_file opened)
      (put_file-IsBalanced opened (ground arith))

on_device_balance :
    (k : KernelOps) (s : Prefetch) (o : Option ℕ) (r : TraceRecord)
    → IsBalanced s
    → KeepsBalance (on_device k s o r)
unfolding on_device open_file
on_device_balance k s none r h = record { supers = h.supers; inodes = h.inodes; filps = h.filps }
on_device_balance k s (some device) r h =
    if_both KeepsBalance (other_file s.prev_record r) _ _
      (with_inode_balance k (iput s s.inode) device r _ (iput_inode s) (iput-IsBalanced s h))
      (read_pages_balance k s s.inode r h)

pub prefetch_record_balance :
    (k : KernelOps) (s : Prefetch) (r : TraceRecord)
    → IsBalanced s
    → KeepsBalance (prefetch_record k s r)
unfolding prefetch_record
prefetch_record_balance k s r h =
    on_device_balance k (open_device k s r) _ r (open_device-IsBalanced k s r h)

-- Nothing is held any more.
pub record IsReleased (s : Prefetch) : Type 0 where
  pub supers : count is_got_super s.calls ≡ count is_dropped_super s.calls
  pub inodes : count is_got_inode s.calls ≡ count is_put_inode s.calls
  pub filps : count is_got_filp s.calls ≡ count is_put_filp s.calls

pub iput_sb : (s : Prefetch) (o : Option (ℕ × ℕ)) → (iput s o).sb ≡ s.sb
unfolding iput
iput_sb s none = refl
iput_sb s (some (device, number)) = refl

pub put_file_keeps :
    (s : Prefetch) (b : Bool) → ((put_file s b).sb ≡ s.sb) × ((put_file s b).inode ≡ s.inode)
unfolding put_file
put_file_keeps s false = (refl, refl)
put_file_keeps s true = (refl, refl)

released :
    (s : Prefetch) → IsBalanced s → s.sb ≡ none → s.inode ≡ none → s.file ≡ false → IsReleased s
released s h a b c = ground arith

release-IsReleased : (s : Prefetch) → IsBalanced s → IsReleased (release s)
unfolding release
release-IsReleased s h =
    let a = drop_super s s.sb in
    let b = iput a a.inode in
    let c = put_file b b.file in
    let kept = put_file_keeps b b.file in
    released c (put_file-IsBalanced b (iput-IsBalanced a (drop_super-IsBalanced s h)))
      (kept.0 ∙ iput_sb a a.inode ∙ drop_super_sb s) (kept.1 ∙ iput_inode a) (put_file_file b)

abbrev pub Releases : Outcome → Type 0
Releases (returned e s) = IsReleased s
Releases (crashed s) = Unit {0}

loop_Releases :
    (k : KernelOps) (records : List TraceRecord) (left : ℕ) (s : Prefetch)
    → IsBalanced s
    → Releases (prefetch_loop k records left s)
unfolding prefetch_loop
loop_Releases k [] left s h = release-IsReleased s h
loop_Releases k (r ∷ records) left s h = elim (Bool-cases (leb (record_size * record_size) left)) [
  | inl more ↦ rw more (
      by_iteration (loop_Releases k records (left - record_size)) (prefetch_record k s r)
        (prefetch_record_balance k s r h))
  | inr done ↦ rw done (release-IsReleased s h)
]
  where
    by_iteration :
        ((s' : Prefetch)
          → IsBalanced s'
          → Releases (prefetch_loop k records (left - record_size) s'))
        → (i : Iteration) → KeepsBalance i
        → Releases (elim i [
          | next s' ↦ prefetch_loop k records (left - record_size) s'
          | out s' ↦ returned (some enfile) (release s')
          | oops s' ↦ crashed s'
        ])
    by_iteration rest (next s') b = rest s' b
    by_iteration rest (out s') b = release-IsReleased s' b
    by_iteration rest (oops s') b = tt

-- The prefetching of a trace releases as many devices, inodes and files as it acquires, whether it
-- ends with the trace or because no file is given, unless it dereferences a NULL inode.
pub prefetch_do_prefetch-Releases :
    (k : KernelOps) (records : List TraceRecord) (trace_size : ℕ)
    → Releases (prefetch_do_prefetch k records trace_size)
unfolding prefetch_do_prefetch
prefetch_do_prefetch-Releases k records trace_size =
    loop_Releases k records trace_size initial_prefetch
      (record { supers = refl; inodes = refl; filps = refl })
