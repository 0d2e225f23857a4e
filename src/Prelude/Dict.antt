-- ===== src/Prelude/Dict.antt =====
-- `DashMap<u32, V>` and `DashSet<u32>`: association lists and lists of keys. The order in which the
-- program visits the entries is not specified; here it is that of the list.
use mathlib.Core.Path.{◌≡◌, refl}
use mathlib.Core.Logic.{◌≢◌}
use mathlib.Core.Bool.{Bool, true, false}
use mathlib.Core.List.{List, [], ◌∷◌}
use mathlib.Core.Option.{Option, none, some}
use native.Mathlib.Omega.{arith}
use Prim.Native.Nat.{ℕ}
use prim.Prelude.Tests.{◌==◌, if◌then◌else◌}

abbrev pub Dict {ℓ} : Type ℓ → Type ℓ
Dict V = List (ℕ × V)

module _ {ℓ} {V : Type ℓ} where
  -- `remove`
  abbrev pub erase : ℕ → Dict V → Dict V
  erase key [] = []
  erase key ((id, value) ∷ entries) =
      let rest = erase key entries in if id == key then rest else (id, value) ∷ rest

  -- `get`
  abbrev pub lookup : ℕ → Dict V → Option V
  lookup key [] = none
  lookup key ((id, value) ∷ entries) = if id == key then some value else lookup key entries

  -- An entry that was there is replaced.
  abbrev pub insert : ℕ → V → Dict V → Dict V
  insert key value entries = (key, value) ∷ erase key entries

  pub lookup-erase_self : (key : ℕ) (entries : Dict V) → lookup key (erase key entries) ≡ none
  lookup-erase_self key [] = refl
  lookup-erase_self key ((id, value) ∷ entries) = ground (arith, lookup-erase_self key entries)

  pub lookup-erase_ne :
      (other key : ℕ) (entries : Dict V)
      → other ≢ key
      → lookup other (erase key entries) ≡ lookup other entries
  lookup-erase_ne other key [] apart = refl
  lookup-erase_ne other key ((id, value) ∷ entries) apart =
      ground (arith, lookup-erase_ne other key entries apart)

  pub lookup-insert_ne :
      (other key : ℕ) (value : V) (entries : Dict V)
      → other ≢ key
      → lookup other (insert key value entries) ≡ lookup other entries
  lookup-insert_ne other key value entries apart =
      ground (arith, lookup-erase_ne other key entries apart)

  pub lookup-insert_self :
      (key : ℕ) (value : V) (entries : Dict V) → lookup key (insert key value entries) ≡ some value
  lookup-insert_self key value entries = ground arith

abbrev pub contains : ℕ → List ℕ → Bool
contains k [] = false
contains k (j ∷ s) = if k == j then true else contains k s

abbrev pub include : ℕ → List ℕ → List ℕ
include k s = if contains k s then s else k ∷ s

abbrev pub exclude : ℕ → List ℕ → List ℕ
exclude k [] = []
exclude k (j ∷ s) = if k == j then exclude k s else j ∷ exclude k s

pub contains-include_self : (k : ℕ) (s : List ℕ) → contains k (include k s) ≡ true
contains-include_self k s = ground arith

pub contains-exclude_self : (k : ℕ) (s : List ℕ) → contains k (exclude k s) ≡ false
contains-exclude_self k [] = refl
contains-exclude_self k (j ∷ s) = ground (arith, contains-exclude_self k s)

pub contains-exclude_ne : (j k : ℕ) (s : List ℕ) → j ≢ k → contains j (exclude k s) ≡ contains j s
contains-exclude_ne j k [] h = refl
contains-exclude_ne j k (i ∷ s) h = ground (arith, contains-exclude_ne j k s h)
