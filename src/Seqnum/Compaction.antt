-- ===== src/Seqnum/Compaction.antt =====
-- The task that `save` of server/seqnum/src/service/handler/seqnum.rs spawns for a file that is too
-- long.
use prim.Prelude.{
  ℕ, zero, suc, ◌≤◌, ◌≡◌, refl, none, some, length, take, ltb, if◌then◌else◌, arith, slice, drop,
  le→leb, le→ltb, length-take,
}
use prim.External.ByteOrder.{Bytes, ByteOrder}
use prim.Entity.Reqwest.{read_at}
use prim.Seqnum.Record.{from_bytes}
use prim.Seqnum.Store.{NumberMap}
use prim.Seqnum.Loading.{note}

-- Where the loop that reads the old file is after some rounds.
pub data Reading : Type 0 where
  panicked : Reading
  finished running : NumberMap → Reading

module _ ⦃bo : ByteOrder⦄ where
  -- One round at a time, as many as the fuel: `read_exact_at(buf, 0)` reads at offset 0 in every
  -- round.
  unfoldable pub read_old : ℕ → Bytes → NumberMap → Reading
  unfolding note
  read_old zero file numbers = running numbers
  read_old (suc rounds) file numbers =
      if ltb (length file) 24 then finished numbers else elim (from_bytes (take 24 file)) [
        | none ↦ panicked
        | some (key, n) ↦ read_old rounds file (note key n numbers)
      ]

  from_bytes-some : (buf : Bytes) → length buf ≡ 24 → (e : ℕ × ℕ) × (from_bytes buf ≡ some e)
  unfolding from_bytes read_at slice
  from_bytes-some buf h = (
    (bo.read 16 (take 16 buf), bo.read 8 (take 8 (drop 16 buf))),
    rw (le→leb 16 (length buf) (omega arith), le→leb 24 (length buf) (omega arith)) refl,
  )

  -- The loop that reads the old file of at least one record does not end, and does not panic: it
  -- is still running after every number of rounds, since each one reads the first record again.
  pub read_old_lem :
      (rounds : ℕ) (file : Bytes) (numbers : NumberMap)
      → 24 ≤ length file
      → (later : NumberMap) × (read_old rounds file numbers ≡ running later)
  unfolding read_old
  read_old_lem zero file numbers h = (numbers, refl)
  read_old_lem (suc rounds) file numbers h =
      let ((key, n), found) = from_bytes-some (take 24 file) (omega (arith, length-take 24 file)) in
      let (later, e) = read_old_lem rounds file (note key n numbers) h in
      (later, rw (le→ltb (length file) 24 h, found) e)
