-- ===== src/Base/Maps.antt =====
-- A total map as a function, changed at one key.
use Prim.Native.Nat.{ℕ}
use rv32umos.Base.Tests.{◌==◌, if◌then◌else◌}

abbrev pub update {ℓ} : {A : Type ℓ} → (ℕ → A) → ℕ → A → ℕ → A
update f i v j = if j == i then v else f j
