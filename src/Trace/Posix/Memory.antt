-- ===== src/Trace/Posix/Memory.antt =====
-- Files in memory and a stdout with limited room, which meet the interface: the concrete inputs of
-- the tests run on them.
use prefetch.Common.{
  ℕ, ◌+◌, ◌-◌, ◌≡◌, refl, ap₂, Bool, true, false, Option, none, some, List, ◌++◌, arith, length,
  take, drop, leb, if◌then◌else◌,
}
use prefetch.Trace.Posix.{Posix, RegularFiles, Stdout, Buffered}

pub record MemoryFd : Type 0 where
  pub content : List ℕ
  pub offset : ℕ

-- A file is named by its content, or does not exist.
abbrev pub memory_files : Posix
memory_files = record {
  FileName = Option (List ℕ);
  Fd = MemoryFd;
  open_rdonly = λ name. elim name [
    | none ↦ none
    | some bytes ↦ some (record { content = bytes; offset = 0 })
  ];
  read = λ fd n. (
    some (take n (drop fd.offset fd.content)),
    record fd { offset = fd.offset + length (take n (drop fd.offset fd.content)) },
  );
  lseek_set = λ fd target. some (record fd { offset = target });
  close = λ fd. true;
}

abbrev pub memory_regular : RegularFiles memory_files
memory_regular = record {
  At = λ fd bytes offset. (fd.content ≡ bytes) × (fd.offset ≡ offset);
  read_at = λ fd bytes offset n h.
      (rw (h.0, h.1), (h.0, ap₂ (λ b o. o + length (take n (drop o b))) h.0 h.1));
  lseek_at = λ fd bytes offset target h. (record fd { offset = target }, refl, (h.0, refl));
}

pub record MemoryOut : Type 0 where
  pub bytes : List ℕ
  pub room : ℕ
  pub error : Bool

abbrev pub memory_fwrite : MemoryOut → List ℕ → ℕ × MemoryOut
memory_fwrite out item =
    if leb (length item) out.room
    then (1, record out { bytes = out.bytes ++ item; room = out.room - length item })
    else (0, record out { error = true })

abbrev pub memory_stdout : Stdout
memory_stdout = record { Out = MemoryOut; fwrite = memory_fwrite; ferror = λ out. out.error }

pub memory_fwrite_written :
    (out : MemoryOut) (item : List ℕ)
    → (memory_fwrite out item).1.error ≡ false
    → ((memory_fwrite out item).0 ≡ 1) × ((memory_fwrite out item).1.bytes ≡ out.bytes ++ item)
memory_fwrite_written out item h = ground arith

abbrev pub memory_buffered : Buffered memory_stdout
memory_buffered = record { written = λ out. out.bytes; fwrite_written = memory_fwrite_written }
