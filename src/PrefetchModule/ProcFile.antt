-- ===== src/PrefetchModule/ProcFile.antt =====
-- The commands that are written to the proc file of prefetch.c: `prefetch_proc_write`.
pub mod Commands
pub mod Refused
mod Tests
use prefetch.Common.{
  ℕ, zero, suc, Bool, true, false, not, ◌&&◌, ◌||◌, leb, ◌==◌, if◌then◌else◌, Option, none, some,
  List, [], ◌∷◌, drop, length,
}
use prefetch.MoveBlocks.Layout.Text.{until_nul}
use prefetch.PrefetchModule.TraceBuffer.{
  Errno, einval, enomem, enametoolong, efault, Result, ok, err, clear_trace,
}
use prefetch.PrefetchModule.Tracing.{Command, start_tracing, stop_tracing}
use prefetch.PrefetchModule.Boot.{
  Boot, BootEnv, phase_name_max, trace_run, prefetch_start_boot_phase, prefetch_stop_boot_tracing,
}

abbrev pub clear_trace_text : List ℕ
clear_trace_text = b'c' ∷ b'l' ∷ b'e' ∷ b'a' ∷ b'r' ∷ 32 ∷ b't' ∷ b'r' ∷ b'a' ∷ b'c' ∷ b'e' ∷ []

abbrev pub mode_async_text : List ℕ
mode_async_text = b'm' ∷ b'o' ∷ b'd' ∷ b'e' ∷ 32 ∷ b'a' ∷ b's' ∷ b'y' ∷ b'n' ∷ b'c' ∷ []

abbrev pub mode_sync_text : List ℕ
mode_sync_text = b'm' ∷ b'o' ∷ b'd' ∷ b'e' ∷ 32 ∷ b's' ∷ b'y' ∷ b'n' ∷ b'c' ∷ []

abbrev pub enable_text : List ℕ
enable_text = b'e' ∷ b'n' ∷ b'a' ∷ b'b' ∷ b'l' ∷ b'e' ∷ []

abbrev pub disable_text : List ℕ
disable_text = b'd' ∷ b'i' ∷ b's' ∷ b'a' ∷ b'b' ∷ b'l' ∷ b'e' ∷ []

abbrev pub prefetch_enable_text : List ℕ
prefetch_enable_text =
    b'p' ∷ b'r' ∷ b'e' ∷ b'f' ∷ b'e' ∷ b't' ∷ b'c' ∷ b'h' ∷ 32 ∷ b'e' ∷ b'n' ∷ b'a' ∷ b'b' ∷ b'l'
    ∷ b'e' ∷ []

abbrev pub prefetch_disable_text : List ℕ
prefetch_disable_text =
    b'p' ∷ b'r' ∷ b'e' ∷ b'f' ∷ b'e' ∷ b't' ∷ b'c' ∷ b'h' ∷ 32 ∷ b'd' ∷ b'i' ∷ b's' ∷ b'a' ∷ b'b'
    ∷ b'l' ∷ b'e' ∷ []

abbrev pub start_text : List ℕ
start_text = b's' ∷ b't' ∷ b'a' ∷ b'r' ∷ b't' ∷ []

abbrev pub stop_text : List ℕ
stop_text = b's' ∷ b't' ∷ b'o' ∷ b'p' ∷ []

abbrev pub boot_tracing_start_phase_text : List ℕ
boot_tracing_start_phase_text =
    b'b' ∷ b'o' ∷ b'o' ∷ b't' ∷ 32 ∷ b't' ∷ b'r' ∷ b'a' ∷ b'c' ∷ b'i' ∷ b'n' ∷ b'g' ∷ 32 ∷ b's'
    ∷ b't' ∷ b'a' ∷ b'r' ∷ b't' ∷ 32 ∷ b'p' ∷ b'h' ∷ b'a' ∷ b's' ∷ b'e' ∷ []

abbrev pub boot_tracing_stop_text : List ℕ
boot_tracing_stop_text =
    b'b' ∷ b'o' ∷ b'o' ∷ b't' ∷ 32 ∷ b't' ∷ b'r' ∷ b'a' ∷ b'c' ∷ b'i' ∷ b'n' ∷ b'g' ∷ 32 ∷ b's'
    ∷ b't' ∷ b'o' ∷ b'p' ∷ []

-- The variables of the module.
pub record Module : Type 0 where
  pub boot : Boot
  pub async_prefetching : Bool
  pub prefetching_module_enabled : Bool
  pub prefetch_enabled : Bool

abbrev pub path_max : ℕ
path_max = 4096

unfoldable pub param_match : List ℕ → List ℕ → Bool
param_match line [] = true
param_match [] (p ∷ ps) = false
param_match (c ∷ cs) (p ∷ ps) = (c == p) && param_match cs ps

-- The optional newline at the end.
unfoldable pub strip_newline : List ℕ → List ℕ
strip_newline [] = []
strip_newline (c ∷ []) = if c == 10 then [] else c ∷ []
strip_newline (c ∷ d ∷ ds) = c ∷ strip_newline (d ∷ ds)

-- `isspace` of the kernel.
unfoldable pub is_space : ℕ → Bool
is_space c = (leb 9 c && leb c 13) || ((c == 32) || (c == 160))

unfoldable pub skip_spaces : List ℕ → List ℕ
skip_spaces [] = []
skip_spaces (c ∷ cs) = if is_space c then skip_spaces cs else c ∷ cs

-- At most so many bytes up to the next white space.
unfoldable pub word : ℕ → List ℕ → List ℕ
word zero s = []
word (suc n) [] = []
word (suc n) (c ∷ cs) = if is_space c then [] else c ∷ word n cs

-- `sscanf` with the format `" %10s"`.
unfoldable pub scan_word : List ℕ → Option (List ℕ)
scan_word s = elim (skip_spaces s) [ [] ↦ none | c ∷ cs ↦ some (word phase_name_max (c ∷ cs)) ]

-- The environment of boot tracing, and the buffer that `clear_trace` is given.
module _ (env : BootEnv) (new_buffer : Option (List ℕ)) where
  unfoldable pub clear_command : Module → Module
  clear_command m =
      let b = m.boot in
      let t = b.tracing in
      record m { boot = record b { tracing = record t { trace = clear_trace t.trace new_buffer } } }

  unfoldable pub trace_command : Command → Module → Module
  trace_command command m =
      let b = m.boot in
      record m { boot = record b { tracing = (trace_run env command b.tracing).0 } }

  -- The result of the phase's start is not looked at.
  unfoldable pub phase_command : Module → Option (List ℕ) → Module × Option Errno
  phase_command m none = (m, some einval)
  phase_command m (some phase_name) =
      (record m { boot = (prefetch_start_boot_phase env m.boot phase_name).0 }, none)

  unfoldable pub boot_command : Module → List ℕ → Module × Option Errno
  boot_command m name =
      if param_match name boot_tracing_start_phase_text
      then if not env.allocated
        then (m, none)
        else phase_command m (scan_word (drop (length boot_tracing_start_phase_text) name))
      else if param_match name boot_tracing_stop_text
      then (record m { boot = (prefetch_stop_boot_tracing env m.boot).0 }, none)
      else (m, none)

  unfoldable pub dispatch : Module → List ℕ → Module × Option Errno
  dispatch m name =
      if param_match name clear_trace_text
      then (clear_command m, none)
      else if param_match name mode_async_text
      then (record m { async_prefetching = true }, none)
      else if param_match name mode_sync_text
      then (record m { async_prefetching = false }, none)
      else if param_match name enable_text
      then (record m { prefetching_module_enabled = true }, none)
      else if param_match name disable_text
      then (record m { prefetching_module_enabled = false }, none)
      else if param_match name prefetch_enable_text
      then (record m { prefetch_enabled = true }, none)
      else if param_match name prefetch_disable_text
      then (record m { prefetch_enabled = false }, none)
      else if param_match name start_text
      then (trace_command start_tracing m, none)
      else if param_match name stop_text
      then (trace_command stop_tracing m, none)
      else boot_command m name

  unfoldable pub answer : ℕ → Module × Option Errno → Module × Result ℕ
  answer count (m, none) = (m, ok count)
  answer count (m, some e) = (m, err e)

  -- `copied`: copy_from_user gets all bytes.
  unfoldable pub prefetch_proc_write : Module → List ℕ → Bool → Module × Result ℕ
  prefetch_proc_write m buffer copied =
      if leb path_max (length buffer)
      then (m, err enametoolong)
      else if not env.allocated
      then (m, err enomem)
      else if not copied
      then (m, err efault)
      else answer (length buffer) (dispatch m (until_nul (strip_newline buffer)))
