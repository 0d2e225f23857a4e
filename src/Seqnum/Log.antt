-- ===== src/Seqnum/Log.antt =====
-- The files of the service as lists of records: what loading them finds.
use prim.Prelude.{
  ℕ, zero, suc, ◌*◌, ◌^◌, ◌≤◌, ◌<◌, ◌≡◌, refl, sym, ap, ◌∙◌, ◌⊎◌, some, List, [], ◌∷◌, ◌++◌, map,
  append_assoc, append-nil, length, length-append, drop, length-drop, take-append, drop-append,
  le→ltb, arith,
}
use prim.External.ByteOrder.{Bytes, ByteOrder}
use prim.Entity.Reqwest.{read_at}
use prim.Entity.Reqwest.Fields.{read_at-append, write_at-after, length-nil}
use prim.Seqnum.Record.{as_bytes, from_bytes}
use prim.Seqnum.Store.{NumberMap, modify, append_to, create_below}
use prim.Seqnum.Loading.{note, load_file, load_files}

abbrev pub Entry : Type 0
Entry = ℕ × ℕ

-- The entry fits a record.
abbrev pub IsEntry : Entry → Type 0
IsEntry (key, n) = (key < 2 ^ 128) × (n < 2 ^ 64)

abbrev pub AreEntries : List Entry → Type 0
AreEntries [] = Unit {0}
AreEntries (e ∷ log) = IsEntry e × AreEntries log

abbrev pub AreLogs : List (List Entry) → Type 0
AreLogs [] = Unit {0}
AreLogs (log ∷ logs) = AreEntries log × AreLogs logs

-- The log, or some log, has a record of the number for the key.
abbrev pub Recorded : ℕ → ℕ → List Entry → Type 0
Recorded key n [] = ⊥
Recorded key n ((k, m) ∷ log) = ((k ≡ key) × (m ≡ n)) ⊎ Recorded key n log

abbrev pub Kept : ℕ → ℕ → List (List Entry) → Type 0
Kept key n [] = ⊥
Kept key n (log ∷ logs) = Recorded key n log ⊎ Kept key n logs

-- The records noted one after the other.
unfoldable pub noted : List Entry → NumberMap → NumberMap
unfolding note
noted [] numbers = numbers
noted ((key, n) ∷ log) numbers = noted log (note key n numbers)

unfoldable pub all_noted : List (List Entry) → NumberMap → NumberMap
unfolding noted
all_noted [] numbers = numbers
all_noted (log ∷ logs) numbers = all_noted logs (noted log numbers)

module _ ⦃bo : ByteOrder⦄ where
  abbrev pub encode_entry : Entry → Bytes
  encode_entry (key, n) = bo.write 16 key ++ bo.write 8 n

  abbrev pub encode : List Entry → Bytes
  encode [] = []
  encode (e ∷ log) = encode_entry e ++ encode log

  length-encode_entry : (e : Entry) → length (encode_entry e) ≡ 24
  length-encode_entry (key, n) = omega (
    arith,
    length-append (bo.write 16 key) (bo.write 8 n),
    bo.length-write 16 key,
    bo.length-write 8 n,
  )

  pub length-encode : (log : List Entry) → length (encode log) ≡ 24 * length log
  length-encode [] = refl
  length-encode (e ∷ log) =
      omega (
        arith,
        length-append (encode_entry e) (encode log),
        length-encode_entry e,
        length-encode log,
      )

  pub encode-append : (log log' : List Entry) → encode (log ++ log') ≡ encode log ++ encode log'
  encode-append [] log' = refl
  encode-append (e ∷ log) log' =
      rw (encode-append log log', append_assoc (encode_entry e) (encode log) (encode log')) refl

  -- A record read from its bytes, wherever they came from.
  pub from_bytes-encode_entry : (e : Entry) → IsEntry e → from_bytes (encode_entry e) ≡ some e
  unfolding from_bytes
  from_bytes-encode_entry (key, n) h =
      let last : read_at 16 8 (bo.write 16 key ++ bo.write 8 n) ≡ some n =
        ap (λ (r : Bytes). read_at 16 8 (bo.write 16 key ++ r)) (sym (append-nil (bo.write 8 n)))
        ∙ read_at-append 16 8 n (bo.write 16 key) [] (bo.length-write 16 key) h.1 in
      rw (read_at-append 0 16 key [] (bo.write 8 n) refl h.0, last) refl

  pub as_bytes-encode_entry :
      (key n : ℕ) (buf : Bytes)
      → length buf ≡ 24
      → as_bytes key n buf ≡ some (encode_entry (key, n))
  unfolding as_bytes
  as_bytes-encode_entry key n buf h =
      let nothing : drop 8 (drop 16 buf) ≡ [] =
        length-nil (drop 8 (drop 16 buf))
          (omega (arith, length-drop 8 (drop 16 buf), length-drop 16 buf)) in
      rw
        (
          write_at-after 0 16 key [] buf refl (omega arith),
          write_at-after 16 8 n (bo.write 16 key) (drop 16 buf) (bo.length-write 16 key)
              (omega (arith, length-drop 16 buf)),
          nothing,
          append-nil (bo.write 8 n),
        )
        refl

  pub load_file-encode :
      (fuel : ℕ) (log : List Entry) (numbers : NumberMap)
      → AreEntries log
      → length log ≤ fuel
      → load_file fuel (encode log) numbers ≡ some (noted log numbers)
  unfolding load_file noted
  load_file-encode zero [] numbers h enough = refl
  load_file-encode zero (e ∷ log) numbers h enough = absurd (omega arith)
  load_file-encode (suc fuel) [] numbers h enough = refl
  load_file-encode (suc fuel) (e ∷ log) numbers h enough =
      rw
        (
          le→ltb (length (encode (e ∷ log))) 24 (omega (arith, length-encode (e ∷ log))),
          take-append 24 (encode_entry e) (encode log) (length-encode_entry e),
          drop-append 24 (encode_entry e) (encode log) (length-encode_entry e),
          from_bytes-encode_entry e h.0,
        )
        (load_file-encode fuel log (note e.0 e.1 numbers) h.1 (omega arith))

  pub load_files-encode :
      (logs : List (List Entry)) (numbers : NumberMap)
      → AreLogs logs
      → load_files (map encode logs) numbers ≡ some (all_noted logs numbers)
  unfolding load_files all_noted
  load_files-encode [] numbers h = refl
  load_files-encode (log ∷ logs) numbers h =
      rw (load_file-encode (length (encode log)) log numbers h.0 (omega (arith, length-encode log)))
        (load_files-encode logs (noted log numbers) h.1)

  pub append_to-encode :
      (id : ℕ) (e : Entry) (logs : List (List Entry))
      → append_to id (encode_entry e) (map encode logs)
        ≡ map encode (modify id (λ log. log ++ (e ∷ [])) logs)
  unfolding append_to modify
  append_to-encode id e [] = refl
  append_to-encode zero e (log ∷ logs) =
      ap (λ (f : Bytes). f ∷ map encode logs)
        (sym (encode-append log (e ∷ []) ∙ ap (◌++◌ (encode log)) (append-nil (encode_entry e))))
  append_to-encode (suc id) e (log ∷ logs) = ap (◌∷◌ (encode log)) (append_to-encode id e logs)

  pub create_below-encode :
      (n : ℕ) (logs : List (List Entry))
      → create_below n (map encode logs) ≡ map encode (create_below n logs)
  unfolding create_below
  create_below-encode zero logs = refl
  create_below-encode (suc n) [] = ap (◌∷◌ []) (create_below-encode n [])
  create_below-encode (suc n) (log ∷ logs) = ap (◌∷◌ (encode log)) (create_below-encode n logs)
