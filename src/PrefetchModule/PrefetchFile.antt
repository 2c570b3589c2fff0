-- ===== src/PrefetchModule/PrefetchFile.antt =====
-- `do_prefetch_from_file` of prefetch.c: a saved trace is read, and prefetching starts with it.
pub mod Reading
mod Tests
use prefetch.Common.{
  ℕ, zero, suc, ◌-◌, Bool, true, false, not, leb, ◌==◌, if◌then◌else◌, Option, none, some, List, [],
  ◌++◌, take, length, ℤ, pos, negsuc, ltb, ◌^◌, ◌%◌, word_mod,
}
use prefetch.PrefetchModule.TraceBuffer.{Errno, Result, ok, err}

-- How the call ends: the trace is given to `prefetch_start_prefetch`, whose result it returns, or it
-- returns 0 or an error before.
pub data FileOutcome : Type 0 where
  open_failed : Errno → FileOutcome
  empty_trace : FileOutcome
  no_buffer : FileOutcome
  read_failed : Errno → FileOutcome
  prefetch_started : List ℕ → FileOutcome

-- A value that is assigned to an `int`.
unfoldable pub int_of : ℕ → ℤ
int_of n = let w = n % word_mod in if ltb w (2 ^ 31) then pos w else negsuc (word_mod - 1 - w)

-- `kernel_read`, by position and number of bytes.
module _ (kernel_read : ℕ → ℕ → Result (List ℕ)) where
  -- What is in the buffer after the loop; none says that the rounds did not suffice.
  unfoldable pub read_loop : ℕ → ℕ → List ℕ → Option (Result (List ℕ))
  read_loop zero file_size data_read =
      if leb file_size (length data_read) then some (ok data_read) else none
  read_loop (suc rounds) file_size data_read =
      if leb file_size (length data_read)
      then some (ok data_read)
      else elim (kernel_read (length data_read) (file_size - length data_read)) [
        | err e ↦ some (err e)
        | ok bytes ↦
            let more = read_loop rounds file_size (data_read ++ bytes) in
            if length bytes == 0 then some (ok data_read) else more
      ]

  unfoldable pub after_loop : ℕ → Option (Result (List ℕ)) → Option FileOutcome
  after_loop file_size none = none
  after_loop file_size (some (err e)) = some (read_failed e)
  after_loop file_size (some (ok data_read)) = some (prefetch_started (take file_size data_read))

  -- The rest, by the size as an `int`.
  unfoldable pub with_size : ℤ → Bool → Option FileOutcome
  with_size (pos zero) allocated = some empty_trace
  with_size (pos (suc n)) allocated =
      if not allocated then some no_buffer else after_loop (suc n) (read_loop (suc n) (suc n) [])
  with_size (negsuc n) allocated = some empty_trace

  -- By the error of open_file, `i_size`, of which an `int` keeps the low 32 bits, and whether the buffer
  -- is allocated.
  unfoldable pub do_prefetch_from_file : Option Errno → ℕ → Bool → Option FileOutcome
  do_prefetch_from_file (some e) i_size allocated = some (open_failed e)
  do_prefetch_from_file none i_size allocated = with_size (int_of i_size) allocated
