-- ===== src/PrefetchModule/ProcFile/Commands.antt =====
-- Each command of the proc file by its text.
use mathlib.Core.List.{append-nil}
use prefetch.Common.{
  ℕ, ◌≤◌, ◌<◌, zero, suc, ◌≡◌, refl, ap, ◌∙◌, Bool, true, false, not, ◌==◌, if◌then◌else◌, Option,
  none, some, List, [], ◌∷◌, ◌++◌, length, length-append, All, arith, leb,
}
use prefetch.MoveBlocks.Layout.Text.{until_nul}
use prefetch.PrefetchModule.TraceBuffer.{ok}
use prefetch.PrefetchModule.Tracing.{start_tracing, stop_tracing}
use prefetch.PrefetchModule.Boot.{
  BootEnv, phase_name_max, prefetch_start_boot_phase, prefetch_stop_boot_tracing,
}
use prefetch.PrefetchModule.ProcFile.{
  clear_trace_text, mode_async_text, mode_sync_text, enable_text, disable_text,
  prefetch_enable_text, prefetch_disable_text, start_text, stop_text, boot_tracing_start_phase_text,
  boot_tracing_stop_text, Module, param_match, strip_newline, is_space, skip_spaces, word,
  scan_word, clear_command, trace_command, phase_command, boot_command, dispatch, answer,
  prefetch_proc_write, path_max,
}

-- What can be asked of the module.
pub data Request : Type 0 where
  clear mode_async mode_sync enable disable prefetch_on prefetch_off start stop : Request
  start_phase : List ℕ → Request
  stop_phases : Request

unfoldable pub text : Request → List ℕ
text clear = clear_trace_text
text mode_async = mode_async_text
text mode_sync = mode_sync_text
text enable = enable_text
text disable = disable_text
text prefetch_on = prefetch_enable_text
text prefetch_off = prefetch_disable_text
text start = start_text
text stop = stop_text
text (start_phase phase_name) = boot_tracing_start_phase_text ++ 32 ∷ phase_name
text stop_phases = boot_tracing_stop_text

-- A byte of a word: no white space and not zero.
abbrev pub IsLetter : ℕ → Type 0
IsLetter c = (is_space c ≡ false) × ((c == 0) ≡ false)

-- A text is written with a newline at its end, or without.
abbrev pub line_end : Bool → List ℕ
line_end true = 10 ∷ []
line_end false = []

-- The name of a phase is a word of at most ten bytes.
unfoldable pub IsRequest : Request → Type 0
IsRequest (start_phase phase_name) =
    (1 ≤ length phase_name) × (length phase_name ≤ phase_name_max) × All IsLetter phase_name
IsRequest _ = Unit {0}

-- What a request does to the module.
unfoldable pub perform : BootEnv → Option (List ℕ) → Request → Module → Module
perform env new_buffer clear m = clear_command env new_buffer m
perform env new_buffer mode_async m = record m { async_prefetching = true }
perform env new_buffer mode_sync m = record m { async_prefetching = false }
perform env new_buffer enable m = record m { prefetching_module_enabled = true }
perform env new_buffer disable m = record m { prefetching_module_enabled = false }
perform env new_buffer prefetch_on m = record m { prefetch_enabled = true }
perform env new_buffer prefetch_off m = record m { prefetch_enabled = false }
perform env new_buffer start m = trace_command env new_buffer start_tracing m
perform env new_buffer stop m = trace_command env new_buffer stop_tracing m
perform env new_buffer (start_phase phase_name) m = record m {
  boot = (prefetch_start_boot_phase env m.boot phase_name).0;
}
perform env new_buffer stop_phases m = record m { boot = (prefetch_stop_boot_tracing env m.boot).0 }

strip_newline_end : (s : List ℕ) → strip_newline (s ++ 10 ∷ []) ≡ s
unfolding strip_newline
strip_newline_end [] = refl
strip_newline_end (c ∷ []) = refl
strip_newline_end (c ∷ d ∷ ds) = ap (λ s. c ∷ s) (strip_newline_end (d ∷ ds))

letter_lem : (c : ℕ) → is_space c ≡ false → (c == 10) ≡ false
unfolding is_space
letter_lem c h = ground arith

strip_newline_word : (s : List ℕ) → All IsLetter s → strip_newline s ≡ s
unfolding strip_newline
strip_newline_word [] h = refl
strip_newline_word (c ∷ []) ((space, nul), h) = rw (letter_lem c space) refl
strip_newline_word (c ∷ d ∷ ds) (l, h) = ap (λ s. c ∷ s) (strip_newline_word (d ∷ ds) h)

until_nul_word : (s : List ℕ) → All IsLetter s → until_nul s ≡ s
unfolding until_nul
until_nul_word [] h = refl
until_nul_word (c ∷ cs) ((space, nul), h) = rw (nul, until_nul_word cs h) refl

word_lem : (n : ℕ) (s : List ℕ) → length s ≤ n → All IsLetter s → word n s ≡ s
unfolding word
word_lem zero [] le h = refl
word_lem zero (c ∷ cs) le h = absurd (omega arith)
word_lem (suc n) [] le h = refl
word_lem (suc n) (c ∷ cs) le ((space, nul), h) =
    rw space (ap (λ s. c ∷ s) (word_lem n cs (omega arith) h))

scan_word_blank : (s : List ℕ) → scan_word (32 ∷ s) ≡ scan_word s
unfolding scan_word skip_spaces is_space
scan_word_blank s = refl

skip_spaces_word : (c : ℕ) (cs : List ℕ) → is_space c ≡ false → skip_spaces (c ∷ cs) ≡ c ∷ cs
unfolding skip_spaces
skip_spaces_word c cs space = rw space refl

scan_word_lem :
    (s : List ℕ) → 1 ≤ length s → length s ≤ phase_name_max → All IsLetter s → scan_word s ≡ some s
unfolding scan_word
scan_word_lem [] one le h = absurd (omega arith)
scan_word_lem (c ∷ cs) one le ((space, nul), h) =
    rw (scan_word, skip_spaces_word c cs space)
      (ap some (word_lem phase_name_max (c ∷ cs) le ((space, nul), h)))

if_given {ℓ} : {A : Type ℓ} (b : Bool) (x y : A) → b ≡ true → (if not b then x else y) ≡ y
if_given b x y h = rw h refl

strip_text : (r : Request) → IsRequest r → strip_newline (text r) ≡ text r
unfolding text IsRequest strip_newline
strip_text (start_phase (c ∷ cs)) (one, le, h) =
    ap (λ s. boot_tracing_start_phase_text ++ 32 ∷ s) (strip_newline_word (c ∷ cs) h)
strip_text (start_phase []) (one, le, h) = absurd (omega arith)
strip_text clear h = refl
strip_text mode_async h = refl
strip_text mode_sync h = refl
strip_text enable h = refl
strip_text disable h = refl
strip_text prefetch_on h = refl
strip_text prefetch_off h = refl
strip_text start h = refl
strip_text stop h = refl
strip_text stop_phases h = refl

until_nul-text : (r : Request) → IsRequest r → until_nul (text r) ≡ text r
unfolding text IsRequest until_nul
until_nul-text (start_phase phase_name) (one, le, h) =
    ap (λ s. boot_tracing_start_phase_text ++ 32 ∷ s) (until_nul_word phase_name h)
until_nul-text clear h = refl
until_nul-text mode_async h = refl
until_nul-text mode_sync h = refl
until_nul-text enable h = refl
until_nul-text disable h = refl
until_nul-text prefetch_on h = refl
until_nul-text prefetch_off h = refl
until_nul-text start h = refl
until_nul-text stop h = refl
until_nul-text stop_phases h = refl

length-text : (r : Request) → IsRequest r → length (text r) < 64
unfolding text IsRequest
length-text (start_phase phase_name) (one, le, h) = omega arith
length-text clear h = omega arith
length-text mode_async h = omega arith
length-text mode_sync h = omega arith
length-text enable h = omega arith
length-text disable h = omega arith
length-text prefetch_on h = omega arith
length-text prefetch_off h = omega arith
length-text start h = omega arith
length-text stop h = omega arith
length-text stop_phases h = omega arith

short_lem : (n : ℕ) → n < path_max → leb path_max n ≡ false
short_lem n h = ground arith

newline_lem : (newline : Bool) → length (line_end newline) ≤ 1
newline_lem true = omega arith
newline_lem false = omega arith

module _ (env : BootEnv) (new_buffer : Option (List ℕ)) (m : Module)
    (given : env.allocated ≡ true) where
  dispatch-text :
      (r : Request)
      → IsRequest r
      → dispatch env new_buffer m (text r) ≡ (perform env new_buffer r m, none)
  unfolding dispatch boot_command text IsRequest perform param_match phase_command
  dispatch-text (start_phase phase_name) (one, le, h) =
      if_given env.allocated _ _ given
      ∙ ap (phase_command env new_buffer m)
          (scan_word_blank phase_name ∙ scan_word_lem phase_name one le h)
  dispatch-text clear h = refl
  dispatch-text mode_async h = refl
  dispatch-text mode_sync h = refl
  dispatch-text enable h = refl
  dispatch-text disable h = refl
  dispatch-text prefetch_on h = refl
  dispatch-text prefetch_off h = refl
  dispatch-text start h = refl
  dispatch-text stop h = refl
  dispatch-text stop_phases h = refl

  line_lem :
      (r : Request) (newline : Bool)
      → IsRequest r
      → until_nul (strip_newline (text r ++ line_end newline)) ≡ text r
  line_lem r true h = ap until_nul (strip_newline_end (text r)) ∙ until_nul-text r h
  line_lem r false h =
      ap until_nul (ap strip_newline (append-nil (text r)) ∙ strip_text r h) ∙ until_nul-text r h

  -- The text of a request, with or without a newline at its end, makes the module do what was asked for,
  -- and the write returns that all bytes were taken, when memory is given and the bytes can be copied.
  pub prefetch_proc_write-text :
      (r : Request) (newline : Bool)
      → IsRequest r
      → let buffer = text r ++ line_end newline in
        prefetch_proc_write env new_buffer m buffer true
        ≡ (perform env new_buffer r m, ok (length buffer))
  unfolding prefetch_proc_write answer
  prefetch_proc_write-text r newline h =
      let buffer = text r ++ line_end newline in
      let short : leb path_max (length buffer) ≡ false = short_lem (length buffer) (
        omega (
          arith,
          length-append (text r) (line_end newline),
          length-text r h,
          newline_lem newline,
        )) in
      rw short (
        if_given env.allocated _ _ given
        ∙ ap (answer env new_buffer (length buffer))
            (ap (dispatch env new_buffer m) (line_lem r newline h) ∙ dispatch-text r h))
