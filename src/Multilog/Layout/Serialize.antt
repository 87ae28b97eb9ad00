-- ===== src/Multilog/Layout/Serialize.antt =====
-- layout_v.rs of the multilog: the serialization of the region metadata.
use verified_storage.Base.{
  ℕ, ◌+◌, ◌<◌, ◌≡◌, sym, ap, ◌∙◌, List, ◌++◌, take, drop, u64_mod, u128_mod, length, length-append,
  length-drop, take-append-drop, arith,
}
use verified_storage.Pmem.Bytes.{
  to_le_bytes, from_le_bytes, from_le_bytes-to_le_bytes, length-to_le_bytes, bytes_mod, AreBytes,
  AreBytes-to_le_bytes,
}
use verified_storage.Log.Layout.{field}
use verified_storage.Log.Layout.Serialize.{
  take-append, drop-append, drop-drop, take_all, bytes_of_field, AreBytes-append,
}
use verified_storage.Multilog.Layout.{RegionMetadata, serialize_region, deserialize_region}

-- The first field of a record, and the rest of it.
field_first : (n x : ℕ) (rest : List ℕ) → x < bytes_mod n → field (to_le_bytes n x ++ rest) 0 n ≡ x
field_first n x rest h =
    ap from_le_bytes (take-append (to_le_bytes n x) rest n (length-to_le_bytes n x))
    ∙ from_le_bytes-to_le_bytes n x h

field_rest :
    (n x : ℕ) (rest : List ℕ) (pos size : ℕ)
    → field (to_le_bytes n x ++ rest) (n + pos) size ≡ field rest pos size
field_rest n x rest pos size =
    ap (λ t. from_le_bytes (take size t))
      (sym (drop-drop n pos (to_le_bytes n x ++ rest))
        ∙ ap (drop pos) (drop-append (to_le_bytes n x) rest n (length-to_le_bytes n x)))

field_only : (n x : ℕ) → x < bytes_mod n → field (to_le_bytes n x) 0 n ≡ x
field_only n x h =
    ap from_le_bytes (take_all n (to_le_bytes n x) (length-to_le_bytes n x))
    ∙ from_le_bytes-to_le_bytes n x h

-- The bytes from a field on.
abbrev from_log_area_len : RegionMetadata → List ℕ
from_log_area_len g = to_le_bytes 8 g.log_area_len ++ to_le_bytes 16 g.multilog_id

abbrev from_region_size : RegionMetadata → List ℕ
from_region_size g = to_le_bytes 8 g.region_size ++ from_log_area_len g

abbrev from_padding : RegionMetadata → List ℕ
from_padding g = to_le_bytes 8 g.padding ++ from_region_size g

abbrev from_which_log : RegionMetadata → List ℕ
from_which_log g = to_le_bytes 4 g.which_log ++ from_padding g

-- Region metadata of a multilog whose fields fit their integer types is what its 48 bytes
-- deserialize to.
pub deserialize-serialize_multilog_region :
    (g : RegionMetadata)
    → g.num_logs < 0x1_0000_0000
    → g.which_log < 0x1_0000_0000
    → g.padding < u64_mod
    → g.region_size < u64_mod
    → g.log_area_len < u64_mod
    → g.multilog_id < u128_mod
    → deserialize_region (serialize_region g) ≡ g
unfolding deserialize_region serialize_region
deserialize-serialize_multilog_region g ha hb hc hd he hf = λ i. record {
  num_logs = field_first 4 g.num_logs (from_which_log g) ha i;
  which_log =
      (field_rest 4 g.num_logs (from_which_log g) 0 4
          ∙ field_first 4 g.which_log (from_padding g) hb)
        i;
  padding =
      (field_rest 4 g.num_logs (from_which_log g) 4 8
          ∙ field_rest 4 g.which_log (from_padding g) 0 8
          ∙ field_first 8 g.padding (from_region_size g) hc)
        i;
  region_size =
      (field_rest 4 g.num_logs (from_which_log g) 12 8
          ∙ field_rest 4 g.which_log (from_padding g) 8 8
          ∙ field_rest 8 g.padding (from_region_size g) 0 8
          ∙ field_first 8 g.region_size (from_log_area_len g) hd)
        i;
  log_area_len =
      (field_rest 4 g.num_logs (from_which_log g) 20 8
          ∙ field_rest 4 g.which_log (from_padding g) 16 8
          ∙ field_rest 8 g.padding (from_region_size g) 8 8
          ∙ field_rest 8 g.region_size (from_log_area_len g) 0 8
          ∙ field_first 8 g.log_area_len (to_le_bytes 16 g.multilog_id) he)
        i;
  multilog_id =
      (field_rest 4 g.num_logs (from_which_log g) 28 16
          ∙ field_rest 4 g.which_log (from_padding g) 24 16
          ∙ field_rest 8 g.padding (from_region_size g) 16 16
          ∙ field_rest 8 g.region_size (from_log_area_len g) 8 16
          ∙ field_rest 8 g.log_area_len (to_le_bytes 16 g.multilog_id) 0 16
          ∙ field_only 16 g.multilog_id hf)
        i;
}

pub length-serialize_multilog_region : (g : RegionMetadata) → length (serialize_region g) ≡ 48
unfolding serialize_region
length-serialize_multilog_region g = rw (
  length-append, length-append, length-append, length-append, length-append, length-to_le_bytes,
  length-to_le_bytes, length-to_le_bytes, length-to_le_bytes, length-to_le_bytes,
  length-to_le_bytes,
)

pub AreBytes-serialize_multilog_region : (g : RegionMetadata) → AreBytes (serialize_region g)
unfolding serialize_region
AreBytes-serialize_multilog_region g = AreBytes-append _ _ (AreBytes-to_le_bytes 4 g.num_logs) (
    AreBytes-append _ _ (AreBytes-to_le_bytes 4 g.which_log) (
      AreBytes-append _ _ (AreBytes-to_le_bytes 8 g.padding) (
        AreBytes-append _ _ (AreBytes-to_le_bytes 8 g.region_size) (
          AreBytes-append _ _ (AreBytes-to_le_bytes 8 g.log_area_len)
            (AreBytes-to_le_bytes 16 g.multilog_id)))))

six_fields :
    (bs : List ℕ)
    → length bs ≡ 48
    → take 4 (drop 0 bs)
        ++ (take 4 (drop 4 bs)
            ++ (take 8 (drop 8 bs)
                ++ (take 8 (drop 16 bs) ++ (take 8 (drop 24 bs) ++ take 16 (drop 32 bs)))))
      ≡ bs
six_fields bs e = rw (
  take_all 16 (drop 32 bs) (omega (arith, length-drop 32 bs)),
  ← drop-drop 24 8 bs,
  take-append-drop 8 (drop 24 bs),
  ← drop-drop 16 8 bs,
  take-append-drop 8 (drop 16 bs),
  ← drop-drop 8 8 bs,
  take-append-drop 8 (drop 8 bs),
  ← drop-drop 4 4 bs,
  take-append-drop 4 (drop 4 bs),
  take-append-drop 4 bs,
)

-- Any 48 bytes are the serialization of the region metadata that they deserialize to.
pub serialize-deserialize_multilog_region :
    (bs : List ℕ) → length bs ≡ 48 → AreBytes bs → serialize_region (deserialize_region bs) ≡ bs
unfolding deserialize_region serialize_region
serialize-deserialize_multilog_region bs e h =
    rw
      (
        bytes_of_field bs 0 4 h (omega arith),
        bytes_of_field bs 4 4 h (omega arith),
        bytes_of_field bs 8 8 h (omega arith),
        bytes_of_field bs 16 8 h (omega arith),
        bytes_of_field bs 24 8 h (omega arith),
        bytes_of_field bs 32 16 h (omega arith),
      )
      (six_fields bs e)
