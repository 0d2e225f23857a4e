-- ===== src/Seqnum/Store.antt =====
-- The state of the service: `SeqnumMap` of server/seqnum/src/service/mod.rs, `SeqNum` of
-- service/handler/seqnum.rs, and the directory of files `seqnum-0`, `seqnum-1`, ...
use prim.Prelude.{
  ℕ, zero, suc, Bool, Option, none, some, List, [], ◌∷◌, ◌++◌, length, ◌==◌, if◌then◌else◌,
}
use prim.External.ByteOrder.{Bytes}

-- From keys to numbers: `AHashMap<u128, u64>`, `DashMap<u128, AtomicU64>`.
abbrev pub NumberMap : Type 0
NumberMap = ℕ → Option ℕ

abbrev pub no_numbers : NumberMap
no_numbers k = none

unfoldable pub insert : ℕ → ℕ → NumberMap → NumberMap
insert key n numbers k = if k == key then some n else numbers k

-- A worker: the id in the name of its file, the length that it believes the file has, and whether
-- it waits for a compaction (`file_rx`).
pub record Worker : Type 0 where
  pub file : ℕ
  pub size : ℕ
  pub waiting : Bool

-- `files` lists the files by their ids, which are handed out one after the other from 0.
pub record Store : Type 0 where
  pub counters : NumberMap
  pub files : List Bytes
  pub next_id : ℕ
  pub workers : List Worker

module _ {A : Type 0} where
  -- `OpenOptions::new().create(true).append(true)` for the ids below the first argument: a file
  -- that is missing is created empty.
  unfoldable pub create_below : ℕ → List (List A) → List (List A)
  create_below zero files = files
  create_below (suc n) [] = [] ∷ create_below n []
  create_below (suc n) (file ∷ files) = file ∷ create_below n files

  -- The element with an index replaced by its image.
  unfoldable pub modify : ℕ → (A → A) → List A → List A
  modify i f [] = []
  modify zero f (x ∷ xs) = f x ∷ xs
  modify (suc i) f (x ∷ xs) = x ∷ modify i f xs

-- A write to a file that is open for appending.
unfoldable pub append_to : ℕ → Bytes → List Bytes → List Bytes
unfolding modify
append_to id new files = modify id (λ file. file ++ new) files

-- The length of a file; 0 where there is none.
unfoldable pub size_of : ℕ → List Bytes → ℕ
size_of i [] = 0
size_of zero (file ∷ files) = length file
size_of (suc i) (file ∷ files) = size_of i files
