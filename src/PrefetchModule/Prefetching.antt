-- ===== src/PrefetchModule/Prefetching.antt =====
-- `prefetch_do_prefetch` of prefetch.c: the loop over the records of a trace that opens devices and
-- files and reads their pages ahead, and `prefetch_start_prefetch`. The kernel's functions that it
-- calls are the parameter `KernelOps`.
pub mod Balance
pub mod Readaheads
pub mod Sequence
use prefetch.Common.{
  ℕ, ◌+◌, ◌-◌, ◌*◌, Bool, true, false, not, ◌&&◌, ◌||◌, leb, ◌==◌, if◌then◌else◌, Option, none,
  some, List, [], ◌∷◌, ℤ, is_neg,
}
use prefetch.Trace.{TraceRecord}
use prefetch.Trace.Bytes.{record_size}
use prefetch.PrefetchModule.TraceBuffer.{Errno, einval, enomem, enfile}

-- `iget` gives an inode, an error pointer or NULL.
pub data IgetResult : Type 0 where
  found : IgetResult
  failed : IgetResult
  null : IgetResult

-- `user_get_super` by device, `iget` by device and inode number, whether the n-th call of
-- `get_empty_filp` gives a file, and `force_page_cache_readahead`.
pub record KernelOps : Type 0 where
  pub user_get_super : ℕ → Bool
  pub iget : ℕ → ℕ → IgetResult
  pub get_empty_filp : ℕ → Bool
  pub readahead : ℕ → ℕ → ℕ → ℕ → ℤ

-- What was acquired, released and read ahead.
pub data Call : Type 0 where
  got_super dropped_super : ℕ → Call
  got_inode put_inode : ℕ → ℕ → Call
  got_filp put_filp : Call
  read_ahead : ℕ → ℕ → ℕ → ℕ → Call

-- The local variables, the number of calls of `get_empty_filp`, and the calls, the latest first. An
-- inode is named by its device and number; of `file` only whether it is NULL is read.
pub record Prefetch : Type 0 where
  pub prev_record : Option TraceRecord
  pub sb : Option ℕ
  pub inode : Option (ℕ × ℕ)
  pub file : Bool
  pub readaheads_failed : ℕ
  pub filps : ℕ
  pub calls : List Call

abbrev pub initial_prefetch : Prefetch
initial_prefetch = record {
  prev_record = none;
  sb = none;
  inode = none;
  file = false;
  readaheads_failed = 0;
  filps = 0;
  calls = [];
}

unfoldable pub drop_super : Prefetch → Option ℕ → Prefetch
drop_super s none = s
drop_super s (some device) = record s { sb = none; calls = dropped_super device ∷ s.calls }

unfoldable pub iput : Prefetch → Option (ℕ × ℕ) → Prefetch
iput s none = s
iput s (some (device, number)) = record s {
  inode = none;
  calls = put_inode device number ∷ s.calls;
}

unfoldable pub put_file : Prefetch → Bool → Prefetch
put_file s false = s
put_file s true = record s { file = false; calls = put_filp ∷ s.calls }

unfoldable pub get_super : KernelOps → Prefetch → ℕ → Prefetch
get_super k s device =
    if k.user_get_super device
    then record s { sb = some device; calls = got_super device ∷ s.calls }
    else record s { sb = none }

-- `prev_record == NULL || prev_record->device != record->device`.
unfoldable pub other_device : Option TraceRecord → TraceRecord → Bool
other_device none r = true
other_device (some prev) r = not (prev.device == r.device)

unfoldable pub other_file : Option TraceRecord → TraceRecord → Bool
other_file none r = true
other_file (some prev) r = not (prev.device == r.device) || not (prev.inode_no == r.inode_no)

unfoldable pub open_device : KernelOps → Prefetch → TraceRecord → Prefetch
open_device k s r =
    if other_device s.prev_record r then get_super k (drop_super s s.sb) r.device else s

-- How an iteration ends: with the next one, with `goto out`, or with a dereference of NULL.
pub data Iteration : Type 0 where
  next : Prefetch → Iteration
  out : Prefetch → Iteration
  oops : Prefetch → Iteration

-- The end of an iteration. The file is read ahead if there is an inode.
unfoldable pub read_pages : KernelOps → Prefetch → Option (ℕ × ℕ) → TraceRecord → Iteration
read_pages k s none r = next (record s { prev_record = some r })
read_pages k s (some (device, number)) r =
    let result = k.readahead device number r.range_start r.range_length in
    next (record s {
      prev_record = some r;
      readaheads_failed = if is_neg result then s.readaheads_failed + 1 else s.readaheads_failed;
      calls = read_ahead device number r.range_start r.range_length ∷ s.calls;
    })

-- From `if (file) put_filp(file)` on.
unfoldable pub open_filp : KernelOps → Prefetch → TraceRecord → Iteration
open_filp k s r =
    let given = k.get_empty_filp s.filps in
    let asked = record s { filps = s.filps + 1 } in
    if given
    then read_pages k (record asked { file = true; calls = got_filp ∷ s.calls }) s.inode r
    else out asked

unfoldable pub with_inode : KernelOps → Prefetch → ℕ → TraceRecord → IgetResult → Iteration
with_inode k s device r failed = next (record s { prev_record = some r })
with_inode k s device r null = oops s
with_inode k s device r found =
    let opened = record s {
      inode = some (device, r.inode_no);
      calls = got_inode device r.inode_no ∷ s.calls;
    } in
    open_filp k (put_file opened opened.file) r

unfoldable pub open_file : KernelOps → Prefetch → ℕ → TraceRecord → Iteration
open_file k s device r = with_inode k (iput s s.inode) device r (k.iget device r.inode_no)

unfoldable pub on_device : KernelOps → Prefetch → Option ℕ → TraceRecord → Iteration
on_device k s none r = next (record s { prev_record = some r })
on_device k s (some device) r =
    if other_file s.prev_record r then open_file k s device r else read_pages k s s.inode r

unfoldable pub prefetch_record : KernelOps → Prefetch → TraceRecord → Iteration
prefetch_record k s r = let s' = open_device k s r in on_device k s' s'.sb r

-- The end of the function, from `out` on.
unfoldable pub release : Prefetch → Prefetch
release s = let a = drop_super s s.sb in let b = iput a a.inode in put_file b b.file

pub data Outcome : Type 0 where
  returned : Option Errno → Prefetch → Outcome
  crashed : Prefetch → Outcome

-- The loop. `left` is the number of bytes from `record` to the end of the trace, which holds `records`
-- from there on. The bound adds `sizeof(prefetch_trace_record_t)` to a pointer to records.
unfoldable pub prefetch_loop : KernelOps → List TraceRecord → ℕ → Prefetch → Outcome
prefetch_loop k [] left s = returned none (release s)
prefetch_loop k (r ∷ records) left s =
    if leb (record_size * record_size) left
    then elim (prefetch_record k s r) [
      | next s' ↦ prefetch_loop k records (left - record_size) s'
      | out s' ↦ returned (some enfile) (release s')
      | oops s' ↦ crashed s'
    ]
    else returned none (release s)

unfoldable pub prefetch_do_prefetch : KernelOps → List TraceRecord → ℕ → Outcome
prefetch_do_prefetch k records trace_size = prefetch_loop k records trace_size initial_prefetch

-- What a start returns and whether the loop runs in a thread, now, or not at all.
pub data Start : Type 0 where
  refused : Errno → Start
  in_thread : Start
  ran : Outcome → Start

-- `allocated` says whether `kmalloc` gives the parameters, `thread` what `kernel_thread` returns.
unfoldable pub prefetch_start_prefetch_async : Bool → ℤ → Start
prefetch_start_prefetch_async allocated thread =
    if not allocated then refused enomem else if is_neg thread then refused einval else in_thread

unfoldable pub prefetch_start_prefetch : KernelOps → List TraceRecord → ℕ → Bool → Bool → ℤ → Start
prefetch_start_prefetch k records trace_size async allocated thread =
    if async
    then prefetch_start_prefetch_async allocated thread
    else ran (prefetch_do_prefetch k records trace_size)
