-- ===== src/ProcessTrace/Main.antt =====
-- `main` of prefetch-initscripts/prefetch-process-trace.cpp. The options come as `getopt_long` hands
-- them out, one by one; usage and error messages are left out, and so is a failure of `strdup`.
pub mod Laws
use Prim.Native.String.{String}
use text.Mathlib.Text.{◌==◌ as str_eq}
use prefetch.Common.{ℕ, ◌≡◌, Bool, true, false, Option, none, some, List, [], ◌∷◌, if◌then◌else◌}
use prefetch.Trace.Posix.{Posix, Stdout}
use prefetch.ProcessTrace.{RecordData}
use prefetch.ProcessTrace.UnitTests.{unittest_ranges_overlap}
use prefetch.ProcessTrace.SortSum.{StdSort, trace_file_data_sorted_sum}
use prefetch.ProcessTrace.ReadData.{
  ReadData, read_done, read_error, out_of_fuel, trace_file_read_data, output_trace_file_data,
}

pub data Opt : Type 0 where
  command : String → Opt
  help : Opt
  unittests : Opt
  missing_argument : Opt
  unknown : Opt

-- The option loop: an exit with its status, or the command to run.
pub data Parsed : Type 0 where
  exits : ℕ → Parsed
  runs : Option String → Parsed

-- A failure of the tests of `ranges_overlap` exits with 7; one of `trace_merge` only prints.
pub parse_options : List Opt → Option String → Parsed
parse_options [] chosen = runs chosen
parse_options (command c ∷ opts) none = parse_options opts (some c)
parse_options (command c ∷ opts) (some d) = exits 1
parse_options (help ∷ opts) chosen = exits 0
parse_options (unittests ∷ opts) chosen = exits (if unittest_ranges_overlap then 0 else 7)
parse_options (missing_argument ∷ opts) chosen = exits 1
parse_options (unknown ∷ opts) chosen = exits 1

module _ (px : Posix) where
  -- the loop over the file arguments, each with what the stack holds at its call
  pub read_files : ℕ → List (List ℕ × px.FileName) → ℕ → List RecordData → ReadData
  read_files fuel [] index records = read_done index records
  read_files fuel ((stack, filename) ∷ files) index records =
      elim (trace_file_read_data px fuel stack filename index records) [
        | out_of_fuel ↦ out_of_fuel
        | read_error index' records' ↦ read_error index' records'
        | read_done index' records' ↦ read_files fuel files index' records'
      ]

-- The exit status, `none` if the fuel of a read ran out, and what stdout is then.
module _ (px : Posix) (io : Stdout) (std : StdSort) where
  pub sort_sum : ℕ → List (List ℕ × px.FileName) → io.Out → Option ℕ × io.Out
  sort_sum fuel files out = elim (read_files px fuel files 0 []) [
    | out_of_fuel ↦ (none, out)
    | read_error index records ↦ (some 1, out)
    | read_done index records ↦
        let (ok, out') = output_trace_file_data io out (trace_file_data_sorted_sum std records) in
        (if ok then some 0 else some 1, out')
  ]

  pub main : ℕ → List Opt → List (List ℕ × px.FileName) → io.Out → Option ℕ × io.Out
  unfolding parse_options
  main fuel opts files out = elim (parse_options opts none) [
    | exits status ↦ (some status, out)
    | runs chosen ↦ elim chosen [
      | none ↦ (some 1, out)
      | some c ↦ if str_eq c "sort-sum" then sort_sum fuel files out else (some 1, out)
    ]
  ]
