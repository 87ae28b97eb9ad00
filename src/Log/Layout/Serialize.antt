-- ===== src/Log/Layout/Serialize.antt =====
-- Serialization of the metadata records is a bijection with their 32 bytes.
use verified_storage.Base.{
  ℕ, ◌+◌, ◌≤◌, ◌<◌, ◌≡◌, refl, List, [], ◌∷◌, ◌++◌, length, take, drop, arith, ap, suc, zero,
  length-append, length-take, length-drop, take-append-drop, ◌∙◌, u64_mod, u128_mod,
}
use verified_storage.Pmem.Bytes.{
  to_le_bytes, from_le_bytes, from_le_bytes-to_le_bytes, to_le_bytes-from_le_bytes, AreBytes,
  length-to_le_bytes, AreBytes-to_le_bytes,
}
use verified_storage.Log.Layout.{
  GlobalMetadata, RegionMetadata, LogMetadata, serialize_global, deserialize_global,
  serialize_region, deserialize_region, serialize_log, deserialize_log, field,
}

pub take-append {ℓ} : {A : Type ℓ} (xs ys : List A) (n : ℕ) → length xs ≡ n → take n (xs ++ ys) ≡ xs
take-append [] ys zero e = refl
take-append [] ys (suc n) e = absurd (omega arith)
take-append (x ∷ xs) ys zero e = absurd (omega arith)
take-append (x ∷ xs) ys (suc n) e = ap (λ t. x ∷ t) (take-append xs ys n (omega arith))

pub drop-append {ℓ} : {A : Type ℓ} (xs ys : List A) (n : ℕ) → length xs ≡ n → drop n (xs ++ ys) ≡ ys
drop-append [] ys zero e = refl
drop-append [] ys (suc n) e = absurd (omega arith)
drop-append (x ∷ xs) ys zero e = absurd (omega arith)
drop-append (x ∷ xs) ys (suc n) e = drop-append xs ys n (omega arith)

AreBytes-take : (n : ℕ) (bs : List ℕ) → AreBytes bs → AreBytes (take n bs)
AreBytes-take zero bs h = tt
AreBytes-take (suc n) [] h = tt
AreBytes-take (suc n) (b ∷ bs) (hb, hs) = (hb, AreBytes-take n bs hs)

AreBytes-drop : (n : ℕ) (bs : List ℕ) → AreBytes bs → AreBytes (drop n bs)
AreBytes-drop zero bs h = h
AreBytes-drop (suc n) [] h = tt
AreBytes-drop (suc n) (b ∷ bs) (hb, hs) = AreBytes-drop n bs hs

pub AreBytes-append : (xs ys : List ℕ) → AreBytes xs → AreBytes ys → AreBytes (xs ++ ys)
AreBytes-append [] ys hx hy = hy
AreBytes-append (x ∷ xs) ys (h, hx) hy = (h, AreBytes-append xs ys hx hy)

-- A record of two u64 and a u128, field by field.
abbrev pack : ℕ → ℕ → ℕ → List ℕ
pack a b c = to_le_bytes 8 a ++ (to_le_bytes 8 b ++ to_le_bytes 16 c)

pub length-pack : (a b c : ℕ) → length (pack a b c) ≡ 32
length-pack a b c =
    rw (length-append, length-append, length-to_le_bytes, length-to_le_bytes, length-to_le_bytes)

pub AreBytes-pack : (a b c : ℕ) → AreBytes (pack a b c)
AreBytes-pack a b c =
    AreBytes-append (to_le_bytes 8 a) (to_le_bytes 8 b ++ to_le_bytes 16 c)
      (AreBytes-to_le_bytes 8 a)
      (AreBytes-append (to_le_bytes 8 b) (to_le_bytes 16 c) (AreBytes-to_le_bytes 8 b)
        (AreBytes-to_le_bytes 16 c))

field_first : (a b c : ℕ) → a < u64_mod → field (pack a b c) 0 8 ≡ a
field_first a b c h =
    ap from_le_bytes (
      take-append (to_le_bytes 8 a) (to_le_bytes 8 b ++ to_le_bytes 16 c) 8
        (length-to_le_bytes 8 a))
    ∙ from_le_bytes-to_le_bytes 8 a h

field_second : (a b c : ℕ) → b < u64_mod → field (pack a b c) 8 8 ≡ b
field_second a b c h =
    ap (λ t. from_le_bytes (take 8 t))
      (drop-append (to_le_bytes 8 a) (to_le_bytes 8 b ++ to_le_bytes 16 c) 8
        (length-to_le_bytes 8 a))
    ∙ ap from_le_bytes (take-append (to_le_bytes 8 b) (to_le_bytes 16 c) 8 (length-to_le_bytes 8 b))
    ∙ from_le_bytes-to_le_bytes 8 b h

field_third : (a b c : ℕ) → c < u128_mod → field (pack a b c) 16 16 ≡ c
unfolding to_le_bytes
field_third a b c h = from_le_bytes-to_le_bytes 16 c h

-- The bytes of one field come back from its value.
pub bytes_of_field :
    (bs : List ℕ) (pos n : ℕ)
    → AreBytes bs
    → pos + n ≤ length bs
    → to_le_bytes n (field bs pos n) ≡ take n (drop pos bs)
bytes_of_field bs pos n h fits = rw size at (
    to_le_bytes-from_le_bytes (take n (drop pos bs))
      (AreBytes-take n (drop pos bs) (AreBytes-drop pos bs h)))
  where
    size : length (take n (drop pos bs)) ≡ n
    size = length-take n (drop pos bs) (omega (arith, length-drop pos bs))

pub take_all {ℓ} : {A : Type ℓ} (n : ℕ) (xs : List A) → length xs ≡ n → take n xs ≡ xs
take_all zero [] e = refl
take_all zero (x ∷ xs) e = absurd (omega arith)
take_all (suc n) [] e = refl
take_all (suc n) (x ∷ xs) e = ap (λ t. x ∷ t) (take_all n xs (omega arith))

pub drop-drop {ℓ} : {A : Type ℓ} (n m : ℕ) (xs : List A) → drop m (drop n xs) ≡ drop (n + m) xs
drop-drop zero m xs = ap (λ k. drop k xs) (omega arith)
drop-drop (suc n) zero [] = let e : suc (n + 0) ≡ suc n + 0 = omega arith in ap (λ k. drop k []) e
drop-drop (suc n) (suc m) [] =
    let e : suc (n + suc m) ≡ suc n + suc m = omega arith in ap (λ k. drop k []) e
drop-drop (suc n) m (x ∷ xs) =
    let e : suc (n + m) ≡ suc n + m = omega arith in drop-drop n m xs ∙ ap (λ k. drop k (x ∷ xs)) e

three_fields :
    (bs : List ℕ)
    → length bs ≡ 32
    → take 8 (drop 0 bs) ++ (take 8 (drop 8 bs) ++ take 16 (drop 16 bs)) ≡ bs
three_fields bs e = rw (
  take_all 16 (drop 16 bs) (omega (arith, length-drop 16 bs)),
  ← drop-drop 8 8 bs,
  take-append-drop 8 (drop 8 bs),
  take-append-drop 8 bs,
)

pack-field :
    (bs : List ℕ)
    → length bs ≡ 32
    → AreBytes bs
    → pack (field bs 0 8) (field bs 8 8) (field bs 16 16) ≡ bs
pack-field bs e h =
    rw
      (
        bytes_of_field bs 0 8 h (omega arith),
        bytes_of_field bs 8 8 h (omega arith),
        bytes_of_field bs 16 16 h (omega arith),
      )
      (three_fields bs e)

-- Global metadata whose fields fit their integer types is what its 32 bytes deserialize to.
pub deserialize-serialize_global :
    (g : GlobalMetadata)
    → g.version_number < u64_mod
    → g.length_of_region_metadata < u64_mod
    → g.program_guid < u128_mod
    → deserialize_global (serialize_global g) ≡ g
unfolding deserialize_global serialize_global
deserialize-serialize_global g ha hb hc = λ i. record {
  version_number = field_first g.version_number g.length_of_region_metadata g.program_guid ha i;
  length_of_region_metadata =
      field_second g.version_number g.length_of_region_metadata g.program_guid hb i;
  program_guid = field_third g.version_number g.length_of_region_metadata g.program_guid hc i;
}

-- Region metadata whose fields fit their integer types is what its 32 bytes deserialize to.
pub deserialize-serialize_region :
    (g : RegionMetadata)
    → g.region_size < u64_mod
    → g.log_area_len < u64_mod
    → g.log_id < u128_mod
    → deserialize_region (serialize_region g) ≡ g
unfolding deserialize_region serialize_region
deserialize-serialize_region g ha hb hc = λ i. record {
  region_size = field_first g.region_size g.log_area_len g.log_id ha i;
  log_area_len = field_second g.region_size g.log_area_len g.log_id hb i;
  log_id = field_third g.region_size g.log_area_len g.log_id hc i;
}

-- Log metadata whose fields fit their integer types is what its 32 bytes deserialize to.
pub deserialize-serialize_log :
    (g : LogMetadata)
    → g.log_length < u64_mod
    → g.padding < u64_mod
    → g.head < u128_mod
    → deserialize_log (serialize_log g) ≡ g
unfolding deserialize_log serialize_log
deserialize-serialize_log g ha hb hc = λ i. record {
  log_length = field_first g.log_length g.padding g.head ha i;
  padding = field_second g.log_length g.padding g.head hb i;
  head = field_third g.log_length g.padding g.head hc i;
}

module _ (bs : List ℕ) (size : length bs ≡ 32) (h : AreBytes bs) where
  -- Any 32 bytes are the serialization of the global metadata that they deserialize to.
  pub serialize-deserialize_global : serialize_global (deserialize_global bs) ≡ bs
  unfolding deserialize_global serialize_global
  serialize-deserialize_global = pack-field bs size h

  -- Any 32 bytes are the serialization of the region metadata that they deserialize to.
  pub serialize-deserialize_region : serialize_region (deserialize_region bs) ≡ bs
  unfolding deserialize_region serialize_region
  serialize-deserialize_region = pack-field bs size h

  -- Any 32 bytes are the serialization of the log metadata that they deserialize to.
  pub serialize-deserialize_log : serialize_log (deserialize_log bs) ≡ bs
  unfolding deserialize_log serialize_log
  serialize-deserialize_log = pack-field bs size h

pub length-serialize_global : (g : GlobalMetadata) → length (serialize_global g) ≡ 32
unfolding serialize_global
length-serialize_global g = length-pack g.version_number g.length_of_region_metadata g.program_guid

pub length-serialize_region : (g : RegionMetadata) → length (serialize_region g) ≡ 32
unfolding serialize_region
length-serialize_region g = length-pack g.region_size g.log_area_len g.log_id

pub length-serialize_log : (g : LogMetadata) → length (serialize_log g) ≡ 32
unfolding serialize_log
length-serialize_log g = length-pack g.log_length g.padding g.head

pub AreBytes-serialize_log : (g : LogMetadata) → AreBytes (serialize_log g)
unfolding serialize_log
AreBytes-serialize_log g = AreBytes-pack g.log_length g.padding g.head

pub AreBytes-serialize_global : (g : GlobalMetadata) → AreBytes (serialize_global g)
unfolding serialize_global
AreBytes-serialize_global g =
    AreBytes-pack g.version_number g.length_of_region_metadata g.program_guid

pub AreBytes-serialize_region : (g : RegionMetadata) → AreBytes (serialize_region g)
unfolding serialize_region
AreBytes-serialize_region g = AreBytes-pack g.region_size g.log_area_len g.log_id
