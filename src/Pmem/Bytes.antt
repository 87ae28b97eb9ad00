-- ===== src/Pmem/Bytes.antt =====
-- Little-endian serialization of u64 and u128 (`vstd::bytes` as serialization_t.rs uses it).
use verified_storage.Base.{
  ℕ, zero, suc, ◌+◌, ◌*◌, ◌/◌, ◌%◌, ◌<◌, ◌≡◌, refl, List, [], ◌∷◌, length, arith, ap,
}

-- `count` bytes of `x`, the lowest first.
unfoldable pub to_le_bytes : ℕ → ℕ → List ℕ
to_le_bytes zero x = []
to_le_bytes (suc count) x = x % 256 ∷ to_le_bytes count (x / 256)

unfoldable pub from_le_bytes : List ℕ → ℕ
from_le_bytes [] = 0
from_le_bytes (b ∷ bs) = b + 256 * from_le_bytes bs

-- Every element is a byte.
abbrev pub AreBytes : List ℕ → Type 0
AreBytes [] = Unit {0}
AreBytes (b ∷ bs) = (b < 256) × AreBytes bs

abbrev pub spec_u64_to_le_bytes : ℕ → List ℕ
spec_u64_to_le_bytes = to_le_bytes 8

abbrev pub spec_u128_to_le_bytes : ℕ → List ℕ
spec_u128_to_le_bytes = to_le_bytes 16

pub length-to_le_bytes : (count x : ℕ) → length (to_le_bytes count x) ≡ count
unfolding to_le_bytes
length-to_le_bytes zero x = refl
length-to_le_bytes (suc count) x = ap suc (length-to_le_bytes count (x / 256))

pub AreBytes-to_le_bytes : (count x : ℕ) → AreBytes (to_le_bytes count x)
unfolding to_le_bytes
AreBytes-to_le_bytes zero x = tt
AreBytes-to_le_bytes (suc count) x = (omega arith, AreBytes-to_le_bytes count (x / 256))

-- `256 ^ count` by recursion, so that it computes with the count.
abbrev pub bytes_mod : ℕ → ℕ
bytes_mod zero = 1
bytes_mod (suc count) = 256 * bytes_mod count

pub from_le_bytes-to_le_bytes :
    (count x : ℕ) → x < bytes_mod count → from_le_bytes (to_le_bytes count x) ≡ x
unfolding to_le_bytes from_le_bytes
from_le_bytes-to_le_bytes zero x h = omega arith
from_le_bytes-to_le_bytes (suc count) x h =
    omega (arith, from_le_bytes-to_le_bytes count (x / 256) (omega arith))

pub to_le_bytes-from_le_bytes :
    (bs : List ℕ) → AreBytes bs → to_le_bytes (length bs) (from_le_bytes bs) ≡ bs
unfolding to_le_bytes from_le_bytes
to_le_bytes-from_le_bytes [] h = refl
to_le_bytes-from_le_bytes (b ∷ bs) (hb, hs) =
    let low : (b + 256 * from_le_bytes bs) % 256 ≡ b = omega arith in
    let high : (b + 256 * from_le_bytes bs) / 256 ≡ from_le_bytes bs = omega arith in
    rw (low, high) (ap (λ t. b ∷ t) (to_le_bytes-from_le_bytes bs hs))

pub from_le_bytes-lt : (bs : List ℕ) → AreBytes bs → from_le_bytes bs < bytes_mod (length bs)
unfolding from_le_bytes
from_le_bytes-lt [] h = omega arith
from_le_bytes-lt (b ∷ bs) (hb, hs) = omega (arith, from_le_bytes-lt bs hs)
