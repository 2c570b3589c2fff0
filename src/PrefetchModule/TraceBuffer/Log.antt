-- ===== src/PrefetchModule/TraceBuffer/Log.antt =====
-- The trace buffer as a log: what it holds are the records that were added, and the fragment between
-- two markers is the records added between them.
use prefetch.Common.{
  ℕ, zero, suc, ◌+◌, ◌-◌, ◌*◌, ◌^◌, ◌≤◌, ◌<◌, ◌≡◌, refl, sym, ap, ◌∙◌, true, false, Option, none,
  some, List, [], ◌∷◌, ◌++◌, arith, take, drop, length, length-append, length-take, length-drop,
  take-append, drop-append, leb, add32,
}
use mathlib.Core.List.{append-nil, append_assoc}
use prefetch.Trace.{TraceRecord}
use prefetch.Trace.Bytes.{record_size, record_bytes, length-record_bytes}
use prefetch.ProcessTrace.ReadData.Laws.{records_bytes}
use prefetch.PrefetchModule.TraceBuffer.{
  PrefetchTrace, write_at, store_record, prefetch_trace_add, get_trace_marker, TraceMarker, ok, err,
  esrch, copy_bytes, copy_fragment, fragment_of_size, prefetch_trace_fragment_size,
  trace_marker_position_in_buffer, get_prefetch_trace_fragment,
}

-- The buffer holds the records `rs`, one after the other.
pub record IsLog (t : PrefetchTrace) (rs : List TraceRecord) : Type 0 where
  pub mem : List ℕ
  pub allocated : t.buffer ≡ some mem
  pub whole : length mem ≡ t.buffer_size
  pub small : t.buffer_size < 2 ^ 31
  pub used : t.buffer_used ≡ record_size * length rs
  pub room : t.buffer_used ≤ t.buffer_size
  pub content : take t.buffer_used mem ≡ records_bytes rs

records_bytes-append :
    (xs ys : List TraceRecord) → records_bytes (xs ++ ys) ≡ records_bytes xs ++ records_bytes ys
records_bytes-append [] ys = refl
records_bytes-append (x ∷ xs) ys =
    ap (◌++◌ (record_bytes x)) (records_bytes-append xs ys)
    ∙ sym (append_assoc (record_bytes x) (records_bytes xs) (records_bytes ys))

records_bytes-snoc :
    (rs : List TraceRecord) (r : TraceRecord)
    → records_bytes (rs ++ r ∷ []) ≡ records_bytes rs ++ record_bytes r
records_bytes-snoc rs r =
    records_bytes-append rs (r ∷ []) ∙ ap (◌++◌ (records_bytes rs)) (append-nil (record_bytes r))

length-records_bytes : (rs : List TraceRecord) → length (records_bytes rs) ≡ record_size * length rs
length-records_bytes [] = refl
length-records_bytes (r ∷ rs) = omega (
  arith,
  length-append {0} (record_bytes r) (records_bytes rs),
  length-record_bytes r,
  length-records_bytes rs,
)

length-write_at :
    (mem : List ℕ) (offset : ℕ) (bytes : List ℕ)
    → offset + length bytes ≤ length mem
    → length (write_at mem offset bytes) ≡ length mem
unfolding write_at
length-write_at mem offset bytes h =
    let rest = drop (offset + length bytes) mem in
    omega (
      arith,
      length-append {0} (take offset mem) (bytes ++ rest),
      length-append {0} bytes rest,
      length-take {0} offset mem,
      length-drop {0} (offset + length bytes) mem,
    )

-- The bytes up to the end of what was written.
take-write_at :
    (mem : List ℕ) (offset : ℕ) (bytes : List ℕ)
    → offset + length bytes ≤ length mem
    → take (offset + length bytes) (write_at mem offset bytes) ≡ take offset mem ++ bytes
unfolding write_at
take-write_at mem offset bytes h =
    let front = take offset mem ++ bytes in
    let rest = drop (offset + length bytes) mem in
    let regroup = sym (append_assoc (take offset mem) bytes rest) in
    let len : length front ≡ offset + length bytes =
      omega (arith, length-append {0} (take offset mem) bytes, length-take {0} offset mem) in
    ap (take (offset + length bytes)) regroup
    ∙ ap (λ n. take n (front ++ rest)) (sym len)
    ∙ take-append front rest

-- A record that fits is added to the log; one that does not only sets `overflow`.
pub prefetch_trace_add-IsLog :
    (t : PrefetchTrace) (rs : List TraceRecord) (r : TraceRecord)
    → IsLog t rs
    → t.buffer_used + record_size < t.buffer_size
    → IsLog (prefetch_trace_add t r) (rs ++ r ∷ [])
unfolding prefetch_trace_add store_record
prefetch_trace_add-IsLog t rs r h fits =
    let fit : leb t.buffer_size (add32 t.buffer_used record_size) ≡ false =
      ground (arith, h.small) in
    let sum : add32 t.buffer_used record_size ≡ t.buffer_used + record_size =
      omega (arith, h.small) in
    let len = length-record_bytes r in
    let bound : t.buffer_used + length (record_bytes r) ≤ length h.mem = omega (arith, h.whole) in
    let more = length-append {0} rs (r ∷ []) in
    rw (fit, h.allocated, sum)
      (record {
        mem = write_at h.mem t.buffer_used (record_bytes r);
        allocated = refl;
        whole = length-write_at h.mem t.buffer_used (record_bytes r) bound ∙ h.whole;
        small = h.small;
        used = omega (arith, h.used, more);
        room = omega arith;
        content =
            ap (λ n. take (t.buffer_used + n) (write_at h.mem t.buffer_used (record_bytes r)))
              (sym len)
            ∙ take-write_at h.mem t.buffer_used (record_bytes r) bound
            ∙ ap (λ b. b ++ record_bytes r) h.content
            ∙ sym (records_bytes-snoc rs r);
      })

pub prefetch_trace_add_full :
    (t : PrefetchTrace) (r : TraceRecord)
    → t.buffer_size < 2 ^ 31
    → t.buffer_size ≤ t.buffer_used + record_size
    → t.buffer_used ≤ t.buffer_size
    → prefetch_trace_add t r ≡ record t { overflow = true }
unfolding prefetch_trace_add
prefetch_trace_add_full t r small full room = ground arith

pub prefetch_trace_add_size :
    (t : PrefetchTrace) (r : TraceRecord) → (prefetch_trace_add t r).buffer_size ≡ t.buffer_size
unfolding prefetch_trace_add
prefetch_trace_add_size t r = ground arith

take-take : (mem : List ℕ) (len used : ℕ) → len ≤ used → take len mem ≡ take len (take used mem)
take-take mem zero used h = refl
take-take mem (suc len) zero h = absurd (omega arith)
take-take [] (suc len) (suc used) h = refl
take-take (x ∷ mem) (suc len) (suc used) h = ap (◌∷◌ x) (take-take mem len used (omega arith))

take-drop-take :
    (mem : List ℕ) (start len used : ℕ)
    → start + len ≤ used
    → take len (drop start mem) ≡ take len (drop start (take used mem))
take-drop-take mem zero len used h = take-take mem len used (omega arith)
take-drop-take [] (suc start) len zero h = refl
take-drop-take [] (suc start) len (suc used) h = refl
take-drop-take (x ∷ mem) (suc start) len zero h = absurd (omega arith)
take-drop-take (x ∷ mem) (suc start) len (suc used) h =
    take-drop-take mem start len used (omega arith)

-- The part of a buffer that the records `fs` take.
pub copy-records :
    (mem : List ℕ) (used : ℕ) (xs fs ys : List TraceRecord)
    → take used mem ≡ records_bytes (xs ++ (fs ++ ys))
    → record_size * (length xs + length fs) ≤ used
    → take (record_size * length fs) (drop (record_size * length xs) mem) ≡ records_bytes fs
copy-records mem used xs fs ys content h =
    let a = records_bytes xs in
    let b = records_bytes fs in
    let c = records_bytes ys in
    let la = length-records_bytes xs in
    let lb = length-records_bytes fs in
    take-drop-take mem (record_size * length xs) (record_size * length fs) used (omega arith)
    ∙ ap (λ m. take (record_size * length fs) (drop (record_size * length xs) m))
        (content ∙ records_bytes-append xs (fs ++ ys) ∙ ap (◌++◌ a) (records_bytes-append fs ys))
    ∙ ap (λ n. take (record_size * length fs) (drop n (a ++ (b ++ c)))) (sym la)
    ∙ ap (take (record_size * length fs)) (drop-append a (b ++ c))
    ∙ ap (λ n. take n (b ++ c)) (sym lb)
    ∙ take-append b c

copy_bytes_zero : (buffer : Option (List ℕ)) (start : ℕ) → copy_bytes buffer start 0 ≡ []
unfolding copy_bytes
copy_bytes_zero none start = refl
copy_bytes_zero (some mem) start = refl

-- Markers of one generation, in order and within what the buffer holds, give the bytes between them.
pub get_prefetch_trace_fragment_ok :
    (t : PrefetchTrace) (start_marker end_marker : TraceMarker)
    → start_marker.generation ≡ end_marker.generation
    → start_marker.position ≤ end_marker.position
    → end_marker.position ≤ t.buffer_used
    → get_prefetch_trace_fragment t start_marker end_marker true
      ≡ ok (copy_bytes t.buffer start_marker.position (end_marker.position - start_marker.position))
unfolding get_prefetch_trace_fragment fragment_of_size prefetch_trace_fragment_size copy_fragment
    trace_marker_position_in_buffer
get_prefetch_trace_fragment_ok t start_marker end_marker g h k =
    let zero_size = copy_bytes_zero t.buffer start_marker.position in ground (arith, zero_size)

pub length-copy_bytes :
    (t : PrefetchTrace) (rs : List TraceRecord) (start len : ℕ)
    → IsLog t rs
    → start + len ≤ t.buffer_used
    → length (copy_bytes t.buffer start len) ≡ len
unfolding copy_bytes
length-copy_bytes t rs start len h k = rw h.allocated (
    omega
      (arith, h.whole, h.room, length-take {0} len (drop start h.mem), length-drop {0} start h.mem))

pub get_prefetch_trace_fragment_lost :
    (t : PrefetchTrace) (start_marker end_marker : TraceMarker)
    → start_marker.generation ≡ end_marker.generation
    → start_marker.position < end_marker.position
    → t.buffer_used < end_marker.position
    → get_prefetch_trace_fragment t start_marker end_marker true ≡ err esrch
unfolding get_prefetch_trace_fragment fragment_of_size prefetch_trace_fragment_size copy_fragment
    trace_marker_position_in_buffer
get_prefetch_trace_fragment_lost t start_marker end_marker g h k = ground arith

-- The fragment between two markers is the bytes of the records that were added between them, however
-- many were added after the second.
pub get_prefetch_trace_fragment_lem :
    (t u v : PrefetchTrace) (xs fs ys : List TraceRecord)
    → IsLog t xs
    → IsLog u (xs ++ fs)
    → IsLog v (xs ++ (fs ++ ys))
    → get_prefetch_trace_fragment v (get_trace_marker t) (get_trace_marker u) true
      ≡ ok (records_bytes fs)
unfolding get_trace_marker copy_bytes
get_prefetch_trace_fragment_lem t u v xs fs ys ht hu hv =
    let lu = length-append {0} xs fs in
    let lv = length-append {0} xs (fs ++ ys) in
    let lw = length-append {0} fs ys in
    let size : u.buffer_used - t.buffer_used ≡ record_size * length fs =
      omega (arith, ht.used, hu.used, lu) in
    get_prefetch_trace_fragment_ok v (get_trace_marker t) (get_trace_marker u) refl
      (omega (arith, ht.used, hu.used, lu)) (omega (arith, hu.used, hv.used, lu, lv, lw))
    ∙ rw (hv.allocated, size, ht.used)
        (ap ok
          (copy-records hv.mem v.buffer_used xs fs ys hv.content (omega (arith, hv.used, lv, lw))))
