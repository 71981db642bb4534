-- ===== src/Telemetry/SeqLock/Whole.antt =====
-- A read of `SeqLock` in src/telemetry/Stats.h that succeeds gives a whole value.
use infinity_clicker.Base.{
  ℕ, zero, suc, ◌+◌, ◌*◌, ◌%◌, ◌^◌, ◌≤◌, ◌<◌, ◌≡◌, refl, ap, sym, ◌∙◌, arith, ltb, ◌==◌, Bool-cases,
  ==_iff, inl, inr, List, [], ◌∷◌, All,
}
use infinity_clicker.Telemetry.SeqLock.{
  Words, put, Writer, between, copying, Reader, trying, reading, got, gave_up, SeqLock, Access,
  write_begin, write_word, write_end, read_begin, read_word, read_end, begin_write, copy_word,
  end_write, begin_read, take_word, end_read, access, interleave, fresh_lock,
}

module _ (A : Type 0) (n : ℕ) (P : Words A n → Type 0) where
  -- The first `n` words are those of one value.
  abbrev pub Holds : Words A n → Type 0
  Holds d = (w : Words A n) × P w × ((j : ℕ) → j < n → d j ≡ w j)

  abbrev WriterKept : ℕ → ℕ → Words A n → Writer A n → Type 0
  WriterKept left seq d between = (seq % 2 ≡ 0) × (seq + 2 * left < 2 ^ 32) × Holds d
  WriterKept left seq d (copying v s i) =
      (seq ≡ s + 1)
      × (s % 2 ≡ 0)
      × (s + 2 + 2 * left < 2 ^ 32)
      × P v
      × ((j : ℕ) → j < i → d j ≡ v j)

  -- As long as the number is the one that was read first, no word has changed since.
  abbrev ReaderKept : ℕ → Words A n → Reader A n → Type 0
  ReaderKept seq d (trying k out) = Unit
  ReaderKept seq d (reading k s1 i out) =
      (s1 % 2 ≡ 0) × (s1 ≤ seq) × (s1 ≡ seq → (j : ℕ) → j < i → out j ≡ d j)
  ReaderKept seq d (got out) = Holds out
  ReaderKept seq d gave_up = Unit

  -- `left` writes are still to begin.
  record IsSound (left : ℕ) (l : SeqLock A n) : Type 0 where
    writer_kept : WriterKept left l.seq l.words l.writer
    reader_kept : ReaderKept l.seq l.words l.reader

  -- The writes that the accesses begin.
  abbrev pub writes : List (Access A n) → ℕ
  writes [] = 0
  writes (write_begin v ∷ rest) = suc (writes rest)
  writes (_ ∷ rest) = writes rest

  abbrev pub Satisfies : Access A n → Type 0
  Satisfies (write_begin v) = P v
  Satisfies _ = Unit

  reader_moves :
      (seq seq' : ℕ) (d d' : Words A n) (r : Reader A n)
      → seq < seq'
      → ReaderKept seq d r
      → ReaderKept seq' d' r
  reader_moves seq seq' d d' (trying k out) h r = _
  reader_moves seq seq' d d' (reading k s1 i out) h r =
      (r.0, omega (arith, r.1, h), λ e. absurd (omega (arith, r.1, h, e)))
  reader_moves seq seq' d d' (got out) h r = r
  reader_moves seq seq' d d' gave_up h r = _

  reader_at_odd :
      (seq : ℕ) (d d' : Words A n) (r : Reader A n)
      → seq % 2 ≡ 1
      → ReaderKept seq d r
      → ReaderKept seq d' r
  reader_at_odd seq d d' (trying k out) h r = _
  reader_at_odd seq d d' (reading k s1 i out) h r =
      (r.0, r.1, λ e. absurd (omega (arith, r.0, h, e)))
  reader_at_odd seq d d' (got out) h r = r
  reader_at_odd seq d d' gave_up h r = _

  abbrev lock : ℕ → Words A n → Writer A n → Reader A n → SeqLock A n
  lock seq d w r = record { seq = seq; words = d; writer = w; reader = r }

  put_below :
      (d e : Words A n) (i : ℕ) (a : A)
      → ((j : ℕ) → j < i → d j ≡ e j)
      → a ≡ e i
      → (j : ℕ) → j < i + 1
      → put A n d i a j ≡ e j
  put_below d e i a h same j l = elim (Bool-cases (j == i)) [
    | inl q ↦ rw q (same ∙ ap e (sym ((==_iff j i).0 q)))
    | inr q ↦ rw q (h j (ground arith))
  ]

  Holds-WriterKept :
      (left seq : ℕ) (d : Words A n) (w : Writer A n)
      → seq % 2 ≡ 0
      → WriterKept left seq d w
      → Holds d
  Holds-WriterKept left seq d between e k = k.2
  Holds-WriterKept left seq d (copying v s i) e k = absurd (omega (arith, e, k.0, k.1))

  begin_write-IsSound :
      (v : Words A n) (left seq : ℕ) (d : Words A n) (w : Writer A n) (r : Reader A n)
      → P v
      → IsSound (suc left) (lock seq d w r)
      → IsSound left (begin_write A n v w (lock seq d w r))
  unfolding begin_write
  begin_write-IsSound v left seq d between r p k =
      let (even, few, _) = k.writer_kept in
      let next : (seq + 1) % 2 ^ 32 ≡ seq + 1 = omega (arith, few) in
      record {
        writer_kept = (next, even, omega (arith, few), p, λ j l. absurd (omega arith));
        reader_kept = reader_moves seq _ d d r (omega (arith, next)) k.reader_kept;
      }
  begin_write-IsSound v left seq d (copying u s i) r p k =
      let (odd, even, few, pu, same) = k.writer_kept in
      record {
        writer_kept = (odd, even, omega (arith, few), pu, same);
        reader_kept = k.reader_kept;
      }

  copy_word-IsSound :
      (left seq : ℕ) (d : Words A n) (w : Writer A n) (r : Reader A n)
      → IsSound left (lock seq d w r)
      → IsSound left (copy_word A n w (lock seq d w r))
  unfolding copy_word
  copy_word-IsSound left seq d between r k = k
  copy_word-IsSound left seq d (copying v s i) r k = elim (Bool-cases (ltb i n)) [
    | inl b ↦
        (let (odd, even, few, p, same) = k.writer_kept in
          rw b (record {
            writer_kept = (odd, even, few, p, put_below d v i (v i) same refl);
            reader_kept =
                reader_at_odd seq d (put A n d i (v i)) r (omega (arith, odd, even)) k.reader_kept;
          }))
    | inr b ↦ rw b k
  ]

  end_write-IsSound :
      (left seq : ℕ) (d : Words A n) (w : Writer A n) (r : Reader A n)
      → IsSound left (lock seq d w r)
      → IsSound left (end_write A n w (lock seq d w r))
  unfolding end_write
  end_write-IsSound left seq d between r k = k
  end_write-IsSound left seq d (copying v s i) r k = elim (Bool-cases (ltb i n)) [
    | inl b ↦ rw b k
    | inr b ↦
        (let (odd, even, few, p, same) = k.writer_kept in
          let next : (s + 2) % 2 ^ 32 ≡ s + 2 = omega (arith, few) in
          rw b (record {
            writer_kept = (
              omega (arith, next, even),
              omega (arith, next, few),
              (v, p, λ j l. same j (ground arith)),
            );
            reader_kept = reader_moves seq _ d d r (omega (arith, next, odd)) k.reader_kept;
          }))
  ]

  begin_read-IsSound :
      (left seq : ℕ) (d : Words A n) (w : Writer A n) (r : Reader A n)
      → IsSound left (lock seq d w r)
      → IsSound left (begin_read A n r (lock seq d w r))
  unfolding begin_read
  begin_read-IsSound left seq d w (trying zero out) k = record {
    writer_kept = k.writer_kept;
    reader_kept = _;
  }
  begin_read-IsSound left seq d w (trying (suc m) out) k = elim (Bool-cases (seq % 2 == 1)) [
    | inl b ↦ rw b (record { writer_kept = k.writer_kept; reader_kept = _ })
    | inr b ↦ rw b (record {
      writer_kept = k.writer_kept;
      reader_kept = (ground arith, omega arith, λ e j l. absurd (omega arith));
    })
  ]
  begin_read-IsSound left seq d w (reading m s1 i out) k = k
  begin_read-IsSound left seq d w (got out) k = k
  begin_read-IsSound left seq d w gave_up k = k

  take_word-IsSound :
      (left seq : ℕ) (d : Words A n) (w : Writer A n) (r : Reader A n)
      → IsSound left (lock seq d w r)
      → IsSound left (take_word A n r (lock seq d w r))
  unfolding take_word
  take_word-IsSound left seq d w (reading m s1 i out) k = elim (Bool-cases (ltb i n)) [
    | inl b ↦
        (let (even, low, same) = k.reader_kept in
          rw b (record {
            writer_kept = k.writer_kept;
            reader_kept = (even, low, λ e. put_below out d i (d i) (same e) refl);
          }))
    | inr b ↦ rw b k
  ]
  take_word-IsSound left seq d w (trying m out) k = k
  take_word-IsSound left seq d w (got out) k = k
  take_word-IsSound left seq d w gave_up k = k

  end_read-IsSound :
      (left seq : ℕ) (d : Words A n) (w : Writer A n) (r : Reader A n)
      → IsSound left (lock seq d w r)
      → IsSound left (end_read A n r (lock seq d w r))
  unfolding end_read
  end_read-IsSound left seq d w (reading m s1 i out) k = elim (Bool-cases (ltb i n)) [
    | inl b ↦ rw b k
    | inr b ↦ rw b (elim (Bool-cases (seq == s1)) [
      | inl q ↦
          (let (even, low, same) = k.reader_kept in
            let e = (==_iff seq s1).0 q in
            let (w0, p, whole) =
              Holds-WriterKept left seq d w (ap (λ x. x % 2) e ∙ even) k.writer_kept in
            rw q (record {
              writer_kept = k.writer_kept;
              reader_kept = (w0, p, λ j l. same (sym e) j (ground arith) ∙ whole j l);
            }))
      | inr q ↦ rw q (record { writer_kept = k.writer_kept; reader_kept = _ })
    ])
  ]
  end_read-IsSound left seq d w (trying m out) k = k
  end_read-IsSound left seq d w (got out) k = k
  end_read-IsSound left seq d w gave_up k = k

  access-IsSound :
      (a : Access A n) (rest : List (Access A n)) (l : SeqLock A n)
      → Satisfies a
      → IsSound (writes (a ∷ rest)) l
      → IsSound (writes rest) (access A n a l)
  unfolding access
  access-IsSound (write_begin v) rest l p k =
      begin_write-IsSound v (writes rest) l.seq l.words l.writer l.reader p k
  access-IsSound write_word rest l p k = copy_word-IsSound _ l.seq l.words l.writer l.reader k
  access-IsSound write_end rest l p k = end_write-IsSound _ l.seq l.words l.writer l.reader k
  access-IsSound read_begin rest l p k = begin_read-IsSound _ l.seq l.words l.writer l.reader k
  access-IsSound read_word rest l p k = take_word-IsSound _ l.seq l.words l.writer l.reader k
  access-IsSound read_end rest l p k = end_read-IsSound _ l.seq l.words l.writer l.reader k

  interleave-IsSound :
      (accesses : List (Access A n)) (l : SeqLock A n)
      → All Satisfies accesses
      → IsSound (writes accesses) l
      → IsSound 0 (interleave A n accesses l)
  unfolding interleave
  interleave-IsSound [] l p k = k
  interleave-IsSound (a ∷ rest) l p k =
      interleave-IsSound rest (access A n a l) p.1 (access-IsSound a rest l p.0 k)

  abbrev pub Returned : Reader A n → Type 0
  Returned (got out) = Holds out
  Returned _ = Unit

  returned : (seq : ℕ) (d : Words A n) (r : Reader A n) → ReaderKept seq d r → Returned r
  returned seq d (trying m out) k = _
  returned seq d (reading m s1 i out) k = _
  returned seq d (got out) k = k
  returned seq d gave_up k = _

  -- However a writer and a reader interleave, word by word, a read that returns true gives the words
  -- of one single value, never parts of two: `P` holds of it if it holds of the first value and of
  -- all those that are written. Fewer than 2 ^ 31 values are written, so that the 32-bit sequence
  -- number does not come back to the one that a read began with.
  pub interleave-whole :
      (accesses : List (Access A n)) (first out : Words A n)
      → P first
      → All Satisfies accesses
      → 2 * writes accesses < 2 ^ 32
      → Returned (interleave A n accesses (fresh_lock A n first out)).reader
  interleave-whole accesses first out p ps few =
      let l = interleave A n accesses (fresh_lock A n first out) in
      let sound = interleave-IsSound accesses (fresh_lock A n first out) ps (record {
        writer_kept = (refl, omega (arith, few), (first, p, λ j l. refl));
        reader_kept = _;
      }) in
      returned l.seq l.words l.reader sound.reader_kept
