-- ===== src/Log/Tests/Bytes.antt =====
-- The writes of an append and of a commit leave bytes in the region.
use verified_storage.Base.{
  ℕ, zero, suc, List, [], ◌∷◌, take, drop, leb, sub64, length, not, inl, inr, Bool-cases,
}
use verified_storage.Pmem.Bytes.{AreBytes, AreBytes-to_le_bytes}
use verified_storage.Pmem.Medium.{Medium, cdb_value}
use verified_storage.Pmem.Wrpm
use verified_storage.Pmem.Wrpm.{Wrpm}
use verified_storage.Log.Layout.Serialize.{AreBytes-serialize_log}
use verified_storage.Log.Impl.{LogInfo, LogImpl, append_bytes, update_log_metadata}
use verified_storage.Log.Fresh.{FlushesToBytes, write-FlushesToBytes, flush-FlushesToBytes}

pub AreBytes-take : (n : ℕ) (bytes : List ℕ) → AreBytes bytes → AreBytes (take n bytes)
AreBytes-take zero bytes h = tt
AreBytes-take (suc n) [] h = tt
AreBytes-take (suc n) (b ∷ bytes) (hb, hs) = (hb, AreBytes-take n bytes hs)

pub AreBytes-drop : (n : ℕ) (bytes : List ℕ) → AreBytes bytes → AreBytes (drop n bytes)
AreBytes-drop zero bytes h = h
AreBytes-drop (suc n) [] h = tt
AreBytes-drop (suc n) (b ∷ bytes) (hb, hs) = AreBytes-drop n bytes hs

pub append_bytes-FlushesToBytes :
    (info : LogInfo) (w : Wrpm) (bytes : List ℕ)
    → AreBytes bytes
    → FlushesToBytes w.pm_region
    → FlushesToBytes (append_bytes info w bytes).pm_region
unfolding append_bytes Wrpm.write
append_bytes-FlushesToBytes info w bytes hb h =
    let before_wrap = sub64 info.log_area_len info.head_log_area_offset in
    let room = sub64 before_wrap info.log_plus_pending_length in
    elim (Bool-cases (leb before_wrap info.log_plus_pending_length)) [
      | inl wrapped ↦ rw wrapped (write-FlushesToBytes w.pm_region _ bytes hb h)
      | inr straight ↦ elim (Bool-cases (leb (length bytes) room)) [
        | inl short ↦ rw (straight, short) (write-FlushesToBytes w.pm_region _ bytes hb h)
        | inr long ↦
            rw (straight, long)
              (write-FlushesToBytes _ _ (drop room bytes) (AreBytes-drop room bytes hb) (
                write-FlushesToBytes w.pm_region _ (take room bytes) (AreBytes-take room bytes hb)
                  h))
      ]
    ]

pub update_log_metadata-FlushesToBytes :
    (m : Medium) (self : LogImpl) (w : Wrpm)
    → FlushesToBytes w.pm_region
    → FlushesToBytes (update_log_metadata m self w).1.pm_region
unfolding update_log_metadata Wrpm.write Wrpm.flush
update_log_metadata-FlushesToBytes m self w h = flush-FlushesToBytes _ (
    write-FlushesToBytes _ _ _ (AreBytes-to_le_bytes 8 (cdb_value (not self.cdb))) (
      flush-FlushesToBytes _ (
        write-FlushesToBytes _ _ _ (AreBytes-to_le_bytes 8 _)
          (write-FlushesToBytes w.pm_region _ _ (AreBytes-serialize_log _) h))))
