-- ===== src/Io.antt =====
-- Files and the calls of the operating system that the sources use, and the loops that repeat a
-- call until a whole buffer is through: `PWriteAll` and `ReadAll` of parakv/core/index/wal.cc,
-- `SegmentFile::PWrite` and `SegmentFile::PRead` of parakv/core/segment/segment_file.cc.
-- What the operating system answers is an argument: a list with the outcome of each call to
-- come. A call beyond the list transfers all that it can. So each loop recurs on the list.
pub mod Ranges
pub mod Loops
use para_kv.Prelude.{
  ℕ, zero, suc, ◌+◌, ◌-◌, ◌*◌, min, Bool, true, false, List, [], ◌∷◌, ◌++◌, length, take, drop,
  get_or, ltb, leb, ◌==◌, if◌then◌else◌,
}
use para_kv.Prelude.Bytes.{Bytes}
use para_kv.Status.{Status, ok, io_error, corruption}

-- The contents of an open file.
pub record File : Type 0 where
  pub size : ℕ
  pub byte : ℕ → ℕ

-- One `read`, `pread` or `pwrite`: it moves at most so many bytes, is interrupted (`EINTR`), or
-- fails.
pub data Transfer : Type 0 where
  moved : ℕ → Transfer
  interrupted failed : Transfer

-- `n` bytes from `off` on.
unfoldable pub read_range : File → ℕ → ℕ → Bytes
read_range f off zero = []
read_range f off (suc n) = f.byte off ∷ read_range f (off + 1) n

unfoldable pub write_range : File → ℕ → Bytes → File
write_range f off [] = f
write_range f off (b ∷ bs) = record {
  size = if ltb f.size (off + length (b ∷ bs)) then off + length (b ∷ bs) else f.size;
  byte = λ i. if ltb i off then f.byte i else get_or (b ∷ bs) (i - off) (f.byte i);
}

pub record Written : Type 0 where
  pub status : Status
  pub file : File
  pub script : List Transfer

-- `PWriteAll` and `SegmentFile::PWrite`.
unfoldable pub pwrite_all : List Transfer → File → Bytes → ℕ → Written
pwrite_all [] f buf off = record { status = ok; file = write_range f off buf; script = [] }
pwrite_all (t ∷ s) f [] off = record { status = ok; file = f; script = t ∷ s }
pwrite_all (failed ∷ s) f (b ∷ buf) off = record { status = io_error; file = f; script = s }
pwrite_all (interrupted ∷ s) f (b ∷ buf) off = pwrite_all s f (b ∷ buf) off
pwrite_all (moved m ∷ s) f (b ∷ buf) off =
    let n = min m (length (b ∷ buf)) in
    pwrite_all s (write_range f off (take n (b ∷ buf))) (drop n (b ∷ buf)) (off + n)

pub record ReadState : Type 0 where
  pub status : Status
  pub eof : Bool
  pub buf : Bytes
  pub pos : ℕ
  pub script : List Transfer

-- What `ReadAll` returns when `read` returns 0.
abbrev pub exhausted : ℕ → ℕ → Bytes → List Transfer → ReadState
exhausted total pos acc s =
    if total == 0
    then record { status = ok; eof = true; buf = acc; pos = pos; script = s }
    else record { status = corruption; eof = false; buf = acc; pos = pos; script = s }

-- `ReadAll`: `count` bytes are still wanted, `total` are read, and stand in `acc`.
unfoldable pub read_all : List Transfer → File → ℕ → ℕ → ℕ → Bytes → ReadState
read_all [] f pos count total acc =
    let n = min count (f.size - pos) in
    if n == count
    then record {
      status = ok;
      eof = false;
      buf = acc ++ read_range f pos count;
      pos = pos + count;
      script = [];
    }
    else exhausted (total + n) (pos + n) (acc ++ read_range f pos n) []
read_all (t ∷ s) f pos zero total acc = record {
  status = ok;
  eof = false;
  buf = acc;
  pos = pos;
  script = t ∷ s;
}
read_all (failed ∷ s) f pos (suc c) total acc = record {
  status = io_error;
  eof = false;
  buf = acc;
  pos = pos;
  script = s;
}
read_all (interrupted ∷ s) f pos (suc c) total acc = read_all s f pos (suc c) total acc
read_all (moved m ∷ s) f pos (suc c) total acc =
    let n = min (suc m) (min (suc c) (f.size - pos)) in
    let rest = read_all s f (pos + n) (suc c - n) (total + n) (acc ++ read_range f pos n) in
    if n == 0 then exhausted total pos acc s else rest

pub record PRead : Type 0 where
  pub status : Status
  pub buf : Bytes
  pub script : List Transfer

-- `SegmentFile::PRead`: the end of the file is a corruption.
unfoldable pub pread_all : List Transfer → File → ℕ → ℕ → Bytes → PRead
pread_all [] f off count acc =
    if leb count (f.size - off)
    then record { status = ok; buf = acc ++ read_range f off count; script = [] }
    else record { status = corruption; buf = acc ++ read_range f off (f.size - off); script = [] }
pread_all (t ∷ s) f off zero acc = record { status = ok; buf = acc; script = t ∷ s }
pread_all (failed ∷ s) f off (suc c) acc = record { status = io_error; buf = acc; script = s }
pread_all (interrupted ∷ s) f off (suc c) acc = pread_all s f off (suc c) acc
pread_all (moved m ∷ s) f off (suc c) acc =
    let n = min (suc m) (min (suc c) (f.size - off)) in
    let rest = pread_all s f (off + n) (suc c - n) (acc ++ read_range f off n) in
    if n == 0 then record { status = corruption; buf = acc; script = s } else rest

-- No call to come fails.
abbrev pub NoFailure : List Transfer → Type 0
NoFailure [] = Unit
NoFailure (moved _ ∷ s) = NoFailure s
NoFailure (interrupted ∷ s) = NoFailure s
NoFailure (failed ∷ s) = ⊥
