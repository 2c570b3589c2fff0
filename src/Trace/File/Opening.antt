-- ===== src/Trace/File/Opening.antt =====
-- What `open_trace_file` accepts.
use prefetch.Common.{
  ℕ, ◌≤◌, ◌≡◌, ap, ◌∙◌, true, none, some, List, [], ◌++◌, length, length-take, take, drop, drop_all,
  arith, sym,
}
use mathlib.Core.List.{append-nil}
use prefetch.Trace.Bytes.{header_size}
use prefetch.Trace.Posix.{Posix, RegularFiles}
use prefetch.Trace.File.{
  TraceHeader, trace_file_magic, version_major_supported, header_at, strncmp_eq, check_header,
  open_trace_file,
}

-- The header has the signature, a version that the tools know, and data behind itself.
pub record IsSupported (h : TraceHeader) : Type 0 where
  pub magic_matches : h.magic ≡ trace_file_magic
  pub version_matches : h.version_major ≡ version_major_supported
  pub data_behind : header_size ≤ h.data_start

strncmp_eq_magic : (m : List ℕ) → m ≡ trace_file_magic → strncmp_eq 4 m trace_file_magic ≡ true
unfolding strncmp_eq
strncmp_eq_magic m e = rw e

magic_of_strncmp_eq :
    (m : List ℕ) → length m ≤ 4 → strncmp_eq 4 m trace_file_magic ≡ true → m ≡ trace_file_magic
unfolding strncmp_eq
magic_of_strncmp_eq m short h = ground arith

header_at_magic : (bs : List ℕ) → length (header_at bs).magic ≤ 4
unfolding header_at
header_at_magic bs = omega (arith, length-take 4 bs)

module _ (px : Posix) (rf : RegularFiles px) where
  open px use {FileName, Fd, open_rdonly, read, lseek_set}
  open rf use {At, read_at, lseek_at}

  -- the buffer after the read
  abbrev pub buffer : List ℕ → List ℕ → List ℕ
  buffer stack bytes = take header_size bytes ++ drop (length (take header_size bytes)) stack

  open_step :
      (stack bytes : List ℕ) (name : FileName) (fd : Fd)
      → open_rdonly name ≡ some fd
      → At fd bytes 0
      → open_trace_file px stack name
        ≡ check_header px (read fd header_size).1 (header_at (buffer stack bytes))
  unfolding open_trace_file
  open_step stack bytes name fd e at =
      rw (e, open_trace_file) (rw (read_at fd bytes 0 header_size at).0)

  check_header_supported :
      (fd : Fd) (h : TraceHeader) → IsSupported h → check_header px fd h ≡ lseek_set fd h.data_start
  unfolding check_header
  check_header_supported fd h s =
      rw (strncmp_eq_magic h.magic s.magic_matches)
        (ground (arith, s.version_matches, s.data_behind))

  check_header_refused :
      (fd : Fd) (h : TraceHeader)
      → length h.magic ≤ 4
      → ¬ IsSupported h
      → check_header px fd h ≡ none
  unfolding check_header
  check_header_refused fd h short refused =
      let curried : h.magic ≡ trace_file_magic
          → h.version_major ≡ version_major_supported
          → header_size ≤ h.data_start
          → ⊥ =
        λ a b c. refused (record { magic_matches = a; version_matches = b; data_behind = c }) in
      ground (arith, magic_of_strncmp_eq h.magic short, curried)

  -- Where the file can be opened, `open_trace_file` succeeds exactly if the header in its buffer is
  -- supported, and then the descriptor stands at the start of the data. The buffer holds the first
  -- ten bytes of the file, and what the stack held behind the end of a shorter file.
  pub open_trace_file_lem :
      (stack bytes : List ℕ) (name : FileName) (fd : Fd)
      → open_rdonly name ≡ some fd
      → At fd bytes 0
      → let h = header_at (buffer stack bytes) in
        (IsSupported h
          → (fd' : Fd) × (open_trace_file px stack name ≡ some fd') × At fd' bytes h.data_start)
        × (¬ IsSupported h → open_trace_file px stack name ≡ none)
  open_trace_file_lem stack bytes name fd e at = (
    λ s.
        let (fd', sought, there) =
          lseek_at _ bytes _ (header_at (buffer stack bytes)).data_start
            (read_at fd bytes 0 header_size at).1 in
        (fd', open_step stack bytes name fd e at ∙ check_header_supported _ _ s ∙ sought, there),
    λ refused.
        open_step stack bytes name fd e at
        ∙ check_header_refused _ _ (header_at_magic (buffer stack bytes)) refused,
  )

  full_buffer :
      (stack bytes : List ℕ)
      → header_size ≤ length bytes
      → length stack ≡ header_size
      → buffer stack bytes ≡ take header_size bytes
  full_buffer stack bytes long size =
      let none_left : drop (length (take header_size bytes)) stack ≡ [] =
        drop_all _ stack (omega (arith, length-take header_size bytes)) in
      rw none_left (append-nil _)

  -- With ten bytes or more in the file the old contents of the stack do not matter. An empty file is
  -- accepted when the stack still holds the supported header of an earlier file.
  pub open_trace_file_stack :
      (stack bytes : List ℕ) (name : FileName) (fd : Fd)
      → open_rdonly name ≡ some fd
      → At fd bytes 0
      → length stack ≡ header_size
      → (header_size ≤ length bytes
          → (stack' : List ℕ) → length stack' ≡ header_size
          → open_trace_file px stack' name ≡ open_trace_file px stack name)
        × (bytes ≡ []
            → IsSupported (header_at stack)
            → (fd' : Fd) × (open_trace_file px stack name ≡ some fd'))
  open_trace_file_stack stack bytes name fd e at size = (
    λ long stack' size'.
        open_step stack' bytes name fd e at
        ∙ ap (λ b. check_header px (read fd header_size).1 (header_at b))
            (full_buffer stack' bytes long size' ∙ sym (full_buffer stack bytes long size))
        ∙ sym (open_step stack bytes name fd e at),
    λ empty s.
        let (fd', opened, _) =
          (open_trace_file_lem stack bytes name fd e at).0 (rw (empty, buffer) s) in
        (fd', opened),
  )
