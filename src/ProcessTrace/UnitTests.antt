-- ===== src/ProcessTrace/UnitTests.antt =====
-- The unit tests of prefetch-initscripts/prefetch-process-trace.cpp, which `--unittests` runs.
use Prim.Native.String.{String}
use prefetch.Common.{
  ℕ, ◌≡◌, refl, Bool, true, false, not, ◌&&◌, ◌||◌, List, [], ◌∷◌, ◌++◌, if◌then◌else◌,
}
use prefetch.ProcessTrace.{
  RecordData, eq_record_data, ranges_overlap, is_unmergeable, merge_records, trace_merge,
}

-- `false` is the exit with status 7.
ranges_overlap_test : Bool → ℕ → ℕ → ℕ → ℕ → Bool
ranges_overlap_test result start1 len1 start2 len2 =
    let r = ranges_overlap start1 len1 start2 len2 in
    let s = ranges_overlap start2 len2 start1 len1 in
    if (r && not result) || (not r && result)
    then false
    else if (s && not result) || (not s && result)
    then false
    else true

pub unittest_ranges_overlap : Bool
unfolding ranges_overlap_test ranges_overlap
unittest_ranges_overlap =
    ranges_overlap_test true 0 1 1 1
    && (ranges_overlap_test true 0 2 2 2
        && (ranges_overlap_test true 1 2 3 1
            && (ranges_overlap_test true 1 3 3 5
                && (ranges_overlap_test true 1 3 2 7
                    && (ranges_overlap_test true 1 6 3 4
                        && (ranges_overlap_test true 0 4 0 9
                            && (ranges_overlap_test true 1 1 1 7
                                && (ranges_overlap_test true 2 2 1 7
                                    && (ranges_overlap_test true 2 2 0 4
                                        && (ranges_overlap_test false 1 2 4 1
                                            && (ranges_overlap_test false 1 1 3 7
                                                && (ranges_overlap_test false 1 1 6 3
                                                    && ranges_overlap_test false 10 10 22
                                                        222))))))))))))

record TestRecordData : Type 0 where
  device : ℕ
  inode_no : ℕ

abbrev inode1_7 : TestRecordData
inode1_7 = record { device = 1; inode_no = 7 }

abbrev inode1_8 : TestRecordData
inode1_8 = record { device = 1; inode_no = 8 }

abbrev inode2_7 : TestRecordData
inode2_7 = record { device = 2; inode_no = 7 }

-- `push_test_record` appends to the container; here it is the record that it appends.
abbrev test_record : TestRecordData → ℕ → ℕ → ℕ → RecordData
test_record other index start len = record {
  trace_record = record {
    device = other.device;
    inode_no = other.inode_no;
    range_start = start;
    range_length = len;
  };
  index = index;
}

-- `operator==` of the containers
eq_containers : List RecordData → List RecordData → Bool
unfolding eq_record_data
eq_containers [] [] = true
eq_containers (x ∷ xs) (y ∷ ys) = eq_record_data x y && eq_containers xs ys
eq_containers _ _ = false

-- A test that fails prints its name; the result lists those names.
trace_merge_test : String → List RecordData → List RecordData → List String
unfolding eq_containers trace_merge is_unmergeable merge_records ranges_overlap
trace_merge_test name input expected =
    if eq_containers expected (trace_merge input) then [] else name ∷ []

abbrev unrelated : List RecordData
unrelated = test_record inode1_7 0 1 2 ∷ test_record inode1_7 1 4 1 ∷ []

abbrev other_inode : List RecordData
other_inode = test_record inode1_7 0 1 2 ∷ test_record inode1_8 1 1 2 ∷ []

abbrev other_device : List RecordData
other_device = test_record inode1_7 0 1 2 ∷ test_record inode2_7 1 1 2 ∷ []

abbrev long_input : List RecordData
long_input =
    test_record inode1_7 0 29 1
    ∷ test_record inode1_7 1 32 3
    ∷ test_record inode1_7 2 35 1
    ∷ test_record inode1_7 3 37 2
    ∷ test_record inode1_7 4 37 6
    ∷ test_record inode1_7 4 42 1
    ∷ []

pub unittest_trace_merge : List String
unfolding trace_merge_test
unittest_trace_merge =
    trace_merge_test "Empty trace" [] []
    ++ trace_merge_test "One record" (test_record inode1_7 0 0 1 ∷ [])
        (test_record inode1_7 0 0 1 ∷ [])
    ++ trace_merge_test "Two unrelated in the same inode" unrelated unrelated
    ++ trace_merge_test "Two unrelated in different inode" other_inode other_inode
    ++ trace_merge_test "Two unrelated in different device, the same inode" other_device
        other_device
    ++ trace_merge_test "Two consecutive merged"
        (test_record inode1_7 0 1 1 ∷ test_record inode1_7 1 2 1 ∷ [])
        (test_record inode1_7 0 1 2 ∷ [])
    ++ trace_merge_test "Two the same merged"
        (test_record inode1_7 0 1 3 ∷ test_record inode1_7 1 1 3 ∷ [])
        (test_record inode1_7 0 1 3 ∷ [])
    ++ trace_merge_test "Three consecutive merged"
        (test_record inode1_7 0 1 1 ∷ test_record inode1_7 1 2 1 ∷ test_record inode1_7 2 3 2 ∷ [])
        (test_record inode1_7 0 1 4 ∷ [])
    ++ trace_merge_test "Three overlapping merged"
        (test_record inode1_7 0 1 2 ∷ test_record inode1_7 1 2 2 ∷ test_record inode1_7 2 3 2 ∷ [])
        (test_record inode1_7 0 1 4 ∷ [])
    ++ trace_merge_test "Two consecutive merged with not merged before"
        (test_record inode1_7 0 0 2 ∷ test_record inode1_7 1 4 1 ∷ test_record inode1_7 2 5 1 ∷ [])
        (test_record inode1_7 0 0 2 ∷ test_record inode1_7 1 4 2 ∷ [])
    ++ trace_merge_test "Two consecutive merged with not merged after"
        (test_record inode1_7 0 4 1 ∷ test_record inode1_7 1 5 1 ∷ test_record inode1_7 2 10 2 ∷ [])
        (test_record inode1_7 0 4 2 ∷ test_record inode1_7 2 10 2 ∷ [])
    ++ trace_merge_test "Two overlapping merged with not merged after"
        (test_record inode1_7 0 0 4 ∷ test_record inode1_7 1 0 9 ∷ test_record inode1_7 2 10 7 ∷ [])
        (test_record inode1_7 0 0 9 ∷ test_record inode1_7 2 10 7 ∷ [])
    ++ trace_merge_test "Two overlapping merged with not merged after" long_input (
        test_record inode1_7 0 29 1
        ∷ test_record inode1_7 1 32 4
        ∷ test_record inode1_7 3 37 6
        ∷ [])

-- All the tests pass.
pub unittest_ranges_overlap_passes : unittest_ranges_overlap ≡ true
unfolding unittest_ranges_overlap
unittest_ranges_overlap_passes = refl

unittest_trace_merge_passes : unittest_trace_merge ≡ []
unfolding unittest_trace_merge
unittest_trace_merge_passes = refl
