-- ===== src/Pmem/Medium.antt =====
-- The hardware and the CRC crate, which the program only calls: what a read returns, and the CRC
-- of a sequence of bytes. pmemspec_t.rs and serialization_t.rs state what is assumed of them.
use verified_storage.Base.{
  ℕ, suc, ◌+◌, ◌≤◌, ◌⊎◌, ◌<◌, ◌≡◌, Bool, true, false, List, [], ◌∷◌, refl, length, ap, ap₂,
}
use verified_storage.Pmem.Bytes.{spec_u64_to_le_bytes, AreBytes}

-- `observe_byte addr b` is what a read finds at an address where `b` was last written. An
-- operation reads an address at most once, so a function of the address stands for any corruption
-- during it.
pub record Medium : Type 0 where
  pub crc : List ℕ → ℕ
  pub observe_byte : ℕ → ℕ → ℕ
  pub impervious_to_corruption : Bool

-- `CDB_FALSE` and `CDB_TRUE`
abbrev pub cdb_value : Bool → ℕ
cdb_value false = 0xa32842d19001605e
cdb_value true = 0xab21aa73069531b7

-- What a read of the bytes from an address on returns (`maybe_corrupted`).
unfoldable pub observe : Medium → ℕ → List ℕ → List ℕ
observe m addr [] = []
observe m addr (b ∷ bs) = m.observe_byte addr b ∷ observe m (suc addr) bs

-- What is assumed: a medium impervious to corruption returns what was written, a matching CRC
-- shows the absence of corruption (`axiom_serialized_val_uncorrupted`), and corruption does not
-- turn one corruption-detecting boolean into the other (`axiom_corruption_detecting_boolean`).
pub record IsSound (m : Medium) : Type 0 where
  pub crc_lt : (bs : List ℕ) → m.crc bs < 0x1_0000_0000_0000_0000
  pub byte_lt : (addr b : ℕ) → b < 256 → m.observe_byte addr b < 256
  pub impervious : m.impervious_to_corruption ≡ true → (addr b : ℕ) → m.observe_byte addr b ≡ b
  pub crc_detects :
      (addr crc_addr : ℕ) (bs : List ℕ)
      → (crc_addr + 8 ≤ addr) ⊎ (addr + length bs ≤ crc_addr)
      → observe m crc_addr (spec_u64_to_le_bytes (m.crc bs))
        ≡ spec_u64_to_le_bytes (m.crc (observe m addr bs))
      → observe m addr bs ≡ bs
  pub cdb_detects :
      (addr : ℕ) (written seen : Bool)
      → observe m addr (spec_u64_to_le_bytes (cdb_value written))
        ≡ spec_u64_to_le_bytes (cdb_value seen)
      → seen ≡ written

pub length-observe : (m : Medium) (addr : ℕ) (bs : List ℕ) → length (observe m addr bs) ≡ length bs
unfolding observe
length-observe m addr [] = refl
length-observe m addr (b ∷ bs) = ap suc (length-observe m (suc addr) bs)

module _ {m : Medium} (sound : IsSound m) where
  pub AreBytes-observe : (addr : ℕ) (bs : List ℕ) → AreBytes bs → AreBytes (observe m addr bs)
  unfolding observe
  AreBytes-observe addr [] h = tt
  AreBytes-observe addr (b ∷ bs) (hb, hs) =
      (sound.byte_lt addr b hb, AreBytes-observe (suc addr) bs hs)

  pub observe_impervious :
      m.impervious_to_corruption ≡ true → (addr : ℕ) (bs : List ℕ) → observe m addr bs ≡ bs
  unfolding observe
  observe_impervious h addr [] = refl
  observe_impervious h addr (b ∷ bs) =
      ap₂ ◌∷◌ (sound.impervious h addr b) (observe_impervious h (suc addr) bs)
