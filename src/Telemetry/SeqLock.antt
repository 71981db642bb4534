-- ===== src/Telemetry/SeqLock.antt =====
-- `SeqLock` of src/telemetry/Stats.h, as one writer and one reader that interleave word by word. A
-- value is `n` words. The fences make each access take effect in the order of the program.
use infinity_clicker.Base.{
  ℕ, zero, suc, ◌+◌, ◌%◌, ◌^◌, Bool, true, false, if◌then◌else◌, ltb, ◌==◌, List, [], ◌∷◌,
}
pub mod Whole

-- `uint32_t`
abbrev u32 : ℕ → ℕ
u32 n = n % 2 ^ 32

module _ (A : Type 0) (n : ℕ) where
  -- The words of a value, from word 0 to word `n - 1`.
  abbrev pub Words : Type 0
  Words = ℕ → A

  abbrev pub put : Words → ℕ → A → Words
  put d i a j = if j == i then a else d j

  -- `write`: not called, or after the first store, with the sequence number that it read.
  pub data Writer : Type 0 where
    between : Writer
    copying : (v : Words) (s i : ℕ) → Writer

  -- `read`: before an attempt, with the attempts left; in one, at a word; or returned.
  pub data Reader : Type 0 where
    trying : (attempts : ℕ) (out : Words) → Reader
    reading : (attempts s1 i : ℕ) (out : Words) → Reader
    got : Words → Reader
    gave_up : Reader

  pub record SeqLock : Type 0 where
    pub seq : ℕ
    pub words : Words
    pub writer : Writer
    pub reader : Reader

  -- An access of one of the two threads.
  pub data Access : Type 0 where
    write_begin : Words → Access
    write_word write_end read_begin read_word read_end : Access

  unfoldable pub begin_write : Words → Writer → SeqLock → SeqLock
  begin_write v between l = record l { seq = u32 (l.seq + 1); writer = copying v l.seq 0 }
  begin_write v (copying u s i) l = l

  unfoldable pub copy_word : Writer → SeqLock → SeqLock
  copy_word between l = l
  copy_word (copying v s i) l =
      if ltb i n then record l { words = put l.words i (v i); writer = copying v s (i + 1) } else l

  unfoldable pub end_write : Writer → SeqLock → SeqLock
  end_write between l = l
  end_write (copying v s i) l =
      if ltb i n then l else record l { seq = u32 (s + 2); writer = between }

  unfoldable pub begin_read : Reader → SeqLock → SeqLock
  begin_read (trying zero out) l = record l { reader = gave_up }
  begin_read (trying (suc k) out) l = record l {
    reader = if l.seq % 2 == 1 then trying k out else reading k l.seq 0 out;
  }
  begin_read _ l = l

  unfoldable pub take_word : Reader → SeqLock → SeqLock
  take_word (reading k s1 i out) l =
      if ltb i n then record l { reader = reading k s1 (i + 1) (put out i (l.words i)) } else l
  take_word _ l = l

  unfoldable pub end_read : Reader → SeqLock → SeqLock
  end_read (reading k s1 i out) l =
      if ltb i n then l else record l { reader = if l.seq == s1 then got out else trying k out }
  end_read _ l = l

  -- An access that is not the next one of its thread changes nothing.
  unfoldable pub access : Access → SeqLock → SeqLock
  access (write_begin v) l = begin_write v l.writer l
  access write_word l = copy_word l.writer l
  access write_end l = end_write l.writer l
  access read_begin l = begin_read l.reader l
  access read_word l = take_word l.reader l
  access read_end l = end_read l.reader l

  unfoldable pub interleave : List Access → SeqLock → SeqLock
  interleave [] l = l
  interleave (a ∷ rest) l = interleave rest (access a l)

  -- A lock that has not been written, and a reader at the start of its loop.
  abbrev pub fresh_lock : Words → Words → SeqLock
  fresh_lock first out = record {
    seq = 0;
    words = first;
    writer = between;
    reader = trying 1000 out;
  }
