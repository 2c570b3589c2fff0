-- ===== src/ProcessTrace/Main/Laws.antt =====
-- The `sort-sum` command from files to stdout.
use Prim.Native.String.{String}
use mathlib.Core.List.{append-nil, append_assoc}
use prefetch.Common.{
  ℕ, ◌+◌, ◌<◌, ◌≡◌, refl, sym, ap, ap₂, ◌∙◌, Bool, true, Option, none, some, List, [], ◌∷◌, ◌++◌,
  arith, All, word_mod, ◌⊎◌, length, length-append, Bool-cases, inl, inr, if◌then◌else◌,
}
use prefetch.Trace.{TraceRecord, IsTraceRecord}
use prefetch.Trace.Posix.{Posix, RegularFiles, Stdout, Buffered}
use text.Mathlib.Text.{◌==◌ as str_eq}
use prefetch.ProcessTrace.UnitTests.{unittest_ranges_overlap_passes}
use prefetch.ProcessTrace.{RecordData}
use prefetch.ProcessTrace.Overlap.{Fits}
use prefetch.ProcessTrace.Separated.{Separated}
use prefetch.ProcessTrace.Canonical.{SamePages, trace_records}
use prefetch.ProcessTrace.SortSum.{StdSort, trace_file_data_sorted_sum}
use prefetch.ProcessTrace.SortSum.Laws.{sorted_sum_lem}
use prefetch.ProcessTrace.ReadData.{read_done}
use prefetch.ProcessTrace.ReadData.Laws.{number}
use prefetch.ProcessTrace.ReadData.RoundTrip.{trace_bytes, read-trace_bytes, output-written}
use prefetch.ProcessTrace.Main.{
  read_files, sort_sum, main, parse_options, exits, Opt, command, help, unittests, missing_argument,
  unknown,
}

-- All records of the files, one file after the other.
abbrev pub all_records : List (List TraceRecord) → List TraceRecord
all_records [] = []
all_records (rs ∷ rss) = rs ++ all_records rss

number-append :
    (index : ℕ) (rs qs : List TraceRecord)
    → number index (rs ++ qs) ≡ number index rs ++ number (index + length rs) qs
number-append index [] qs = ap (λ i. number i qs) (omega arith)
number-append index (r ∷ rs) qs =
    ap (◌∷◌ (record { trace_record = r; index = index })) (
      number-append (index + 1) rs qs
      ∙ ap (λ i. number (index + 1) rs ++ number i qs) (omega arith))

module _ (px : Posix) (rf : RegularFiles px) where
  -- The files hold the traces, and the fuel is more than any of them has records.
  abbrev pub Hold : ℕ → List (List ℕ × px.FileName) → List (List TraceRecord) → Type 0
  Hold fuel [] [] = Unit {0}
  Hold fuel [] (rs ∷ rss) = ⊥
  Hold fuel (f ∷ files) [] = ⊥
  Hold fuel ((stack, name) ∷ files) (rs ∷ rss) =
      ((fd : px.Fd) × (px.open_rdonly name ≡ some fd) × rf.At fd (trace_bytes rs) 0)
      × All IsTraceRecord rs
      × (length rs < fuel)
      × Hold fuel files rss

  read_files-Hold :
      (fuel : ℕ) (files : List (List ℕ × px.FileName)) (rss : List (List TraceRecord)) (index : ℕ)
      (records : List RecordData)
      → Hold fuel files rss
      → read_files px fuel files index records
        ≡ read_done (index + length (all_records rss)) (records ++ number index (all_records rss))
  unfolding read_files
  read_files-Hold fuel [] [] index records h = ap₂ read_done (omega arith) (sym (append-nil _))
  read_files-Hold fuel [] (rs ∷ rss) index records h = absurd h
  read_files-Hold fuel (f ∷ files) [] index records h = absurd h
  read_files-Hold fuel ((stack, name) ∷ files) (rs ∷ rss) index records h =
      let (fd, opened, there) = h.0 in
      rw
        (
          read-trace_bytes px rf fuel stack name fd rs index records opened there h.1 h.2,
          read_files,
        )
        (read_files-Hold fuel files rss (index + length rs) (records ++ number index rs) h.3
          ∙ ap₂ read_done (omega (arith, length-append rs (all_records rss))) (
              append_assoc records (number index rs) _
              ∙ ap (λ q. records ++ q) (sym (number-append index rs (all_records rss)))))

abbrev pub DoesNotWrap : TraceRecord → Type 0
DoesNotWrap r = r.range_start + r.range_length < word_mod

number-Fits : (index : ℕ) (rs : List TraceRecord) → All DoesNotWrap rs → All Fits (number index rs)
number-Fits index [] h = tt
number-Fits index (r ∷ rs) h = (h.0, number-Fits (index + 1) rs h.1)

abbrev status : Bool → Option ℕ
status ok = if ok then some 0 else some 1

status_cases : (ok : Bool) → (status ok ≡ some 0) ⊎ (status ok ≡ some 1)
status_cases ok = ground arith

ok_of_status : (ok : Bool) → status ok ≡ some 0 → ok ≡ true
ok_of_status ok e = ground arith

module _ (px : Posix) (rf : RegularFiles px) (io : Stdout) (b : Buffered io) (std : StdSort) where
  -- The command ends with status 0 or 1, and at status 0 stdout has received one trace file: its
  -- records stand for the pages of all the input files, in order, disjoint and apart. The ends of the
  -- ranges that are read fit into 32 bits.
  pub sort_sum_lem :
      (fuel : ℕ) (files : List (List ℕ × px.FileName)) (rss : List (List TraceRecord))
      (out : io.Out)
      → Hold px rf fuel files rss
      → All DoesNotWrap (all_records rss)
      → let inputs = number 0 (all_records rss) in
        let sum = trace_file_data_sorted_sum std inputs in
        let run = sort_sum px io std fuel files out in
        ((run.0 ≡ some 0) ⊎ (run.0 ≡ some 1))
        × (run.0 ≡ some 0 → b.written run.1 ≡ b.written out ++ trace_bytes (trace_records sum))
        × SamePages sum inputs
        × Separated sum
  unfolding sort_sum
  sort_sum_lem fuel files rss out h fits =
      let pages = sorted_sum_lem std (number 0 (all_records rss)) (number-Fits 0 _ fits) in
      rw (read_files-Hold px rf fuel files rss 0 [] h, sort_sum)
        (status_cases _, λ e. output-written io b out _ (ok_of_status _ e), pages.0, pages.1)

module _ (px : Posix) (io : Stdout) (std : StdSort) where
  exits_at_once :
      (fuel : ℕ) (opts : List Opt) (n : ℕ) (files : List (List ℕ × px.FileName)) (out : io.Out)
      → parse_options opts none ≡ exits n
      → main px io std fuel opts files out ≡ (some n, out)
  unfolding main
  exits_at_once fuel opts n files out e = rw (e, main)

  unittests_exit :
      (opts : List Opt) (chosen : Option String) → parse_options (unittests ∷ opts) chosen ≡ exits 0
  unfolding parse_options
  unittests_exit opts chosen = rw unittest_ranges_overlap_passes

  abbrev Dispatched : ℕ → List Opt → List (List ℕ × px.FileName) → io.Out → Type 0
  Dispatched fuel opts files out =
      ((c : String) × (opts ≡ command c ∷ [])
        × (str_eq c "sort-sum" ≡ true)
        × (main px io std fuel opts files out ≡ sort_sum px io std fuel files out))
      ⊎ ((n : ℕ) × (main px io std fuel opts files out ≡ (some n, out)))

  dispatch :
      (fuel : ℕ) (opts : List Opt) (files : List (List ℕ × px.FileName)) (out : io.Out)
      → Dispatched fuel opts files out
  unfolding main
  dispatch fuel [] files out = inr (1, refl)
  dispatch fuel (command c ∷ []) files out = elim (Bool-cases (str_eq c "sort-sum")) [
    | inl e ↦ inl (c, refl, e, rw e)
    | inr e ↦ inr (1, rw e)
  ]
  dispatch fuel (command c ∷ command d ∷ opts) files out = inr (1, refl)
  dispatch fuel (command c ∷ help ∷ opts) files out = inr (0, refl)
  dispatch fuel (command c ∷ unittests ∷ opts) files out = inr (
    0,
    exits_at_once fuel (command c ∷ unittests ∷ opts) 0 files out (unittests_exit opts (some c)),
  )
  dispatch fuel (command c ∷ missing_argument ∷ opts) files out = inr (1, refl)
  dispatch fuel (command c ∷ unknown ∷ opts) files out = inr (1, refl)
  dispatch fuel (help ∷ opts) files out = inr (0, refl)
  dispatch fuel (unittests ∷ opts) files out =
      inr (0, exits_at_once fuel (unittests ∷ opts) 0 files out (unittests_exit opts none))
  dispatch fuel (missing_argument ∷ opts) files out = inr (1, refl)
  dispatch fuel (unknown ∷ opts) files out = inr (1, refl)

-- The program writes to stdout only if its options are one command, `sort-sum`, and nothing else;
-- then it is `sort_sum`. With any other options it exits at once, and `--unittests` in front of all
-- others exits with status 0.
main_cases :
    (px : Posix) (io : Stdout) (std : StdSort) (fuel : ℕ) (opts : List Opt)
    (files : List (List ℕ × px.FileName)) (out : io.Out)
    → (((c : String) × (opts ≡ command c ∷ [])
          × (str_eq c "sort-sum" ≡ true)
          × (main px io std fuel opts files out ≡ sort_sum px io std fuel files out))
        ⊎ ((n : ℕ) × (main px io std fuel opts files out ≡ (some n, out))))
      × (main px io std fuel (unittests ∷ opts) files out ≡ (some 0, out))
main_cases px io std fuel opts files out = (
  dispatch px io std fuel opts files out,
  exits_at_once px io std fuel (unittests ∷ opts) 0 files out (unittests_exit px io std opts none),
)
