-- ===== src/Base/Words.antt =====
-- u64 and u128 arithmetic, with its wrap-around.
use Prim.Native.Nat.{ℕ, ◌+◌, ◌-◌, ◌%◌, ◌^◌}

abbrev pub u64_mod : ℕ
u64_mod = 2 ^ 64

abbrev pub u128_mod : ℕ
u128_mod = 2 ^ 128

-- `u128::MAX`
abbrev pub u128_max : ℕ
u128_max = 2 ^ 128 - 1

abbrev pub add64 : ℕ → ℕ → ℕ
add64 a b = (a + b) % u64_mod

abbrev pub sub64 : ℕ → ℕ → ℕ
sub64 a b = (a + u64_mod - b) % u64_mod

abbrev pub add128 : ℕ → ℕ → ℕ
add128 a b = (a + b) % u128_mod

abbrev pub sub128 : ℕ → ℕ → ℕ
sub128 a b = (a + u128_mod - b) % u128_mod

-- `x as u64`
abbrev pub as_u64 : ℕ → ℕ
as_u64 x = x % u64_mod
