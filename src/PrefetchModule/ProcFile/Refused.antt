-- ===== src/PrefetchModule/ProcFile/Refused.antt =====
-- Writes to the proc file that fail.
use prefetch.Common.{
  ℕ, ◌≡◌, refl, Bool, not, if◌then◌else◌, if_both, Option, none, some, List, length, leb, drop,
}
use prefetch.MoveBlocks.Layout.Text.{until_nul}
use prefetch.PrefetchModule.TraceBuffer.{Errno, Result, err}
use prefetch.PrefetchModule.Boot.{BootEnv}
use prefetch.PrefetchModule.ProcFile.{
  clear_trace_text, mode_async_text, mode_sync_text, enable_text, disable_text,
  prefetch_enable_text, prefetch_disable_text, start_text, stop_text, boot_tracing_start_phase_text,
  boot_tracing_stop_text, Module, param_match, strip_newline, scan_word, phase_command,
  boot_command, dispatch, answer, prefetch_proc_write, path_max,
}

-- An error comes with the module as it was.
unfoldable Keeps : Module → Module × Option Errno → Type 0
Keeps m q = (e : Errno) → q.1 ≡ some e → q.0 ≡ m

abbrev KeepsOnError : Module → Module × Result ℕ → Type 0
KeepsOnError m q = (e : Errno) → q.1 ≡ err e → q.0 ≡ m

done : (m m' : Module) → Keeps m (m', none)
unfolding Keeps
done m m' e h = absurd (cc h)

either :
    (m : Module) (b : Bool) (x y : Module × Option Errno)
    → Keeps m x
    → Keeps m y
    → Keeps m (if b then x else y)
either m = if_both (Keeps m)

command :
    (m : Module) (b : Bool) (m' : Module) (y : Module × Option Errno)
    → Keeps m y
    → Keeps m (if b then (m', none) else y)
command m b m' y k = either m b (m', none) y (done m m') k

module _ (env : BootEnv) (new_buffer : Option (List ℕ)) (m : Module) where
  phase_command-Keeps : (o : Option (List ℕ)) → Keeps m (phase_command env new_buffer m o)
  unfolding phase_command Keeps
  phase_command-Keeps none e h = refl
  phase_command-Keeps (some phase_name) e h = absurd (cc h)

  boot_command-Keeps : (name : List ℕ) → Keeps m (boot_command env new_buffer m name)
  unfolding boot_command
  boot_command-Keeps name =
      either m (param_match name boot_tracing_start_phase_text) _ _
        (either m (not env.allocated) _ _ (done m m)
          (phase_command-Keeps (scan_word (drop (length boot_tracing_start_phase_text) name))))
        (either m (param_match name boot_tracing_stop_text) _ _ (done m _) (done m m))

  dispatch-Keeps : (name : List ℕ) → Keeps m (dispatch env new_buffer m name)
  unfolding dispatch
  dispatch-Keeps name = command m (param_match name clear_trace_text) _ _ (
      command m (param_match name mode_async_text) _ _ (
        command m (param_match name mode_sync_text) _ _ (
          command m (param_match name enable_text) _ _ (
            command m (param_match name disable_text) _ _ (
              command m (param_match name prefetch_enable_text) _ _ (
                command m (param_match name prefetch_disable_text) _ _ (
                  command m (param_match name start_text) _ _
                    (command m (param_match name stop_text) _ _ (boot_command-Keeps name)))))))))

  answer-Keeps :
      (count : ℕ) (q : Module × Option Errno)
      → Keeps m q
      → KeepsOnError m (answer env new_buffer count q)
  unfolding answer Keeps
  answer-Keeps count (m', none) k e h = absurd (cc h)
  answer-Keeps count (m', some f) k e h = k f refl

  -- A write that returns an error has changed nothing in the module.
  pub prefetch_proc_write-refused :
      (buffer : List ℕ) (copied : Bool) (e : Errno)
      → (prefetch_proc_write env new_buffer m buffer copied).1 ≡ err e
      → (prefetch_proc_write env new_buffer m buffer copied).0 ≡ m
  unfolding prefetch_proc_write
  prefetch_proc_write-refused buffer copied =
      if_both (KeepsOnError m) (leb path_max (length buffer)) _ _ (λ e h. refl)
        (if_both (KeepsOnError m) (not env.allocated) _ _ (λ e h. refl)
          (if_both (KeepsOnError m) (not copied) _ _ (λ e h. refl)
            (answer-Keeps (length buffer) _ (dispatch-Keeps (until_nul (strip_newline buffer))))))
