-- ===== src/PrefetchModule/ProcFile/Tests.antt =====
-- Writes to the proc file at concrete inputs.
use prefetch.Common.{ℕ, ◌≡◌, refl, true, false, none, List, [], ◌∷◌, ◌++◌, length, arith}
use prefetch.PrefetchModule.TraceBuffer.{err, ok, einval}
use prefetch.PrefetchModule.Boot.Tests.{env, in_first}
use prefetch.MoveBlocks.Layout.Text.{until_nul}
use prefetch.PrefetchModule.ProcFile.{
  Module, answer, dispatch, boot_command, param_match, phase_command, scan_word, skip_spaces,
  is_space, strip_newline, boot_tracing_start_phase_text, prefetch_proc_write,
}
use prefetch.PrefetchModule.ProcFile.Commands.{
  start_phase, IsRequest, text, perform, line_end, prefetch_proc_write-text,
}
use prefetch.PrefetchModule.ProcFile.Refused.{prefetch_proc_write-refused}

abbrev booting : Module
booting = record {
  boot = in_first;
  async_prefetching = false;
  prefetching_module_enabled = true;
  prefetch_enabled = true;
}

abbrev next_phase : List ℕ
next_phase = b'k' ∷ b'd' ∷ b'e' ∷ []

next_phase-IsRequest : IsRequest (start_phase next_phase)
unfolding IsRequest is_space
next_phase-IsRequest =
    (omega arith, omega arith, ((refl, refl), ((refl, refl), ((refl, refl), tt))))

prefetch_proc_write-text_example :
    prefetch_proc_write env none booting (text (start_phase next_phase) ++ line_end true) true ≡ (
      perform env none (start_phase next_phase) booting,
      ok (length (text (start_phase next_phase) ++ line_end true)),
    )
prefetch_proc_write-text_example =
    prefetch_proc_write-text env none booting refl (start_phase next_phase) true
      next_phase-IsRequest

no_phase :
    (prefetch_proc_write env none booting (boot_tracing_start_phase_text ++ 32 ∷ 10 ∷ []) true).1
    ≡ err einval
unfolding prefetch_proc_write answer dispatch boot_command param_match phase_command scan_word
    skip_spaces is_space strip_newline until_nul
no_phase = refl

prefetch_proc_write-refused_example :
    (prefetch_proc_write env none booting (boot_tracing_start_phase_text ++ 32 ∷ 10 ∷ []) true).0
    ≡ booting
prefetch_proc_write-refused_example =
    prefetch_proc_write-refused env none booting (boot_tracing_start_phase_text ++ 32 ∷ 10 ∷ [])
      true einval no_phase
