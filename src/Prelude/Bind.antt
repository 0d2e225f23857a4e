-- ===== src/Prelude/Bind.antt =====
-- Sequencing of steps that may panic: `none` is a Rust panic (a slice out of range, an `unwrap`).
use mathlib.Core.Option.{Option, none, some}

infixl 5 ◌>>=◌
abbrev pub ◌>>=◌ {ℓ κ} : {A : Type ℓ} {B : Type κ} → Option A → (A → Option B) → Option B
none >>= f = none
some a >>= f = f a
