-- ===== src/Json/RoundTrip/Exact.antt =====
-- The values that src/core/Json.cpp writes without loss.
use infinity_clicker.Base.{ℕ, suc, ◌≡◌, true, some}
use Prim.Native.Nat.{max}
use infinity_clicker.Json.{
  NumArith, Value, Items, Members, number, array, object, no_items, item, no_members, member,
}
use infinity_clicker.Json.Writer.{write_number}
use infinity_clicker.Json.RoundTrip.Tokens.{number_word}

module _ (na : NumArith) where
  -- How deep the containers are nested.
  abbrev mutual
    pub nesting : Value na → ℕ
    nesting (array xs) = nesting_items xs
    nesting (object ms) = nesting_members ms
    nesting _ = 0

    pub nesting_items : Items na → ℕ
    nesting_items no_items = 0
    nesting_items (item v xs) = max (suc (nesting v)) (nesting_items xs)

    pub nesting_members : Members na → ℕ
    nesting_members no_members = 0
    nesting_members (member k v ms) = max (suc (nesting v)) (nesting_members ms)

  -- Every number is finite, and what it is written as is read as that number.
  abbrev mutual
    pub IsExact : Value na → Type 0
    IsExact (number n) =
        (number_word (write_number na n) ≡ true)
        × (na.read (write_number na n) ≡ some n)
        × (na.finite n ≡ true)
    IsExact (array xs) = AreExact xs
    IsExact (object ms) = HaveExact ms
    IsExact _ = Unit

    pub AreExact : Items na → Type 0
    AreExact no_items = Unit
    AreExact (item v xs) = IsExact v × AreExact xs

    pub HaveExact : Members na → Type 0
    HaveExact no_members = Unit
    HaveExact (member k v ms) = IsExact v × HaveExact ms
