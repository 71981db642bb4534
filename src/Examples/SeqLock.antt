-- ===== src/Examples/SeqLock.antt =====
-- A reader that a writer overtakes: its first attempt ends with words of two values.
use infinity_clicker.Base.{ℕ, ◌≡◌, refl, arith, List, [], ◌∷◌}
use infinity_clicker.Telemetry.SeqLock.{
  Words, Access, write_begin, write_word, write_end, read_begin, read_word, read_end, interleave,
  fresh_lock,
}
use infinity_clicker.Telemetry.SeqLock.Whole.{Returned, interleave-whole}

-- Both words are the number.
abbrev twice : ℕ → Words ℕ 2
twice a j = a

abbrev overtaken : List (Access ℕ 2)
overtaken =
    read_begin
    ∷ read_word
    ∷ write_begin (twice 7)
    ∷ write_word
    ∷ write_word
    ∷ write_end
    ∷ read_word
    ∷ read_end
    ∷ read_begin
    ∷ read_word
    ∷ read_word
    ∷ read_end
    ∷ []

abbrev Equal : Words ℕ 2 → Type 0
Equal v = v 0 ≡ v 1

interleave-whole_example :
    Returned ℕ 2 Equal (interleave ℕ 2 overtaken (fresh_lock ℕ 2 (twice 3) (twice 0))).reader
interleave-whole_example =
    interleave-whole ℕ 2 Equal overtaken (twice 3) (twice 0) refl
      (_, (_, (refl, (_, (_, (_, (_, (_, (_, (_, (_, (_, _)))))))))))) (omega arith)
