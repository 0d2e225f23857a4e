-- ===== src/Net/Delimiter.antt =====
-- `pre_check` of server/lib-net-tokio/src/net/mod.rs: the position of a delimiter in a buffer.
use prim.Prelude.{
  ℕ, zero, suc, ◌+◌, Option, none, some, [], ◌∷◌, length, drop, ◌==◌, ltb, if◌then◌else◌,
}
use prim.External.ByteOrder.{Bytes}

-- `MSG_DELIMITER` of server/lib/src/entity/msg.rs
abbrev pub msg_delimiter : Bytes
msg_delimiter = 255 ∷ 255 ∷ 255 ∷ 255 ∷ []

-- The comparisons of four bytes with the delimiter, one byte after the other: `none` where all
-- four agree, otherwise how far to go on.
unfoldable pub advance : Bytes → Option ℕ
advance (a ∷ b ∷ c ∷ d ∷ rest) =
    if a == 255
    then (if b == 255
        then (if c == 255 then (if d == 255 then none else some 4) else some 3)
        else some 2)
    else some 1
advance _ = some 1

-- The loop at index `i`, with the bytes from there on. The fuel is their number.
unfoldable pub search_from : ℕ → ℕ → Bytes → ℕ
unfolding advance
search_from zero i rest = i + length rest
search_from (suc fuel) i rest =
    if ltb (length rest) 4
    then i + length rest
    else elim (advance rest) [ none ↦ i | some k ↦ search_from fuel (i + k) (drop k rest) ]

unfoldable pub pre_check : Bytes → ℕ
unfolding search_from
pre_check msg = search_from (length msg) 0 msg
