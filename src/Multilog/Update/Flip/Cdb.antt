-- ===== src/Multilog/Update/Flip/Cdb.antt =====
-- The corruption-detecting boolean of a region: what is read of it after it is written, and after a
-- crash while it is.
use verified_storage.Base.{
  ℕ, ◌+◌, ◌≤◌, ◌<◌, ◌≡◌, refl, sym, ap, ◌∙◌, ◌⊎◌, inl, inr, Bool, true, false, not, some, length,
  arith, List, if◌then◌else◌, u64_mod,
}
use verified_storage.Pmem.Bytes.{
  from_le_bytes, spec_u64_to_le_bytes, length-to_le_bytes, from_le_bytes-to_le_bytes,
}
use verified_storage.Pmem.View.{
  Region, Mem, CanCrashAs, committed, write, flush, len-flush, settled-flush, committed-flush,
  extract_bytes-write,
}
use verified_storage.Pmem.Crash.{crash_single_chunk}
use verified_storage.Pmem.Medium.{cdb_value}
use verified_storage.Log.Recover.{check_cdb}
use verified_storage.Multilog.Layout.{
  absolute_pos_of_log_cdb, absolute_pos_of_log_metadata_for_cdb_false,
  absolute_pos_of_log_metadata_for_cdb_true, get_log_metadata_pos, deserialize_log_cdb,
}
use verified_storage.Multilog.Inv.Crash.{cdb_agree}

cdb_value-lt : (b : Bool) → cdb_value b < u64_mod
cdb_value-lt true = omega arith
cdb_value-lt false = omega arith

check_cdb_value : (b : Bool) → check_cdb (cdb_value b) ≡ some b
check_cdb_value true = refl
check_cdb_value false = refl

pub unused_pos :
    (b : Bool)
    → (if b
        then absolute_pos_of_log_metadata_for_cdb_false
        else absolute_pos_of_log_metadata_for_cdb_true)
      ≡ get_log_metadata_pos (not b)
unused_pos true = refl
unused_pos false = refl

abbrev pub cdb_bytes : Bool → List ℕ
cdb_bytes b = spec_u64_to_le_bytes (cdb_value b)

pub cdb_len : (b : Bool) → length (cdb_bytes b) ≡ 8
cdb_len b = length-to_le_bytes 8 (cdb_value b)

pub cdb_extracted :
    (r : Region) (b : Bool)
    → check_cdb
        (deserialize_log_cdb (committed (flush (write r absolute_pos_of_log_cdb (cdb_bytes b)))))
      ≡ some b
cdb_extracted r b =
    ap (λ bytes. check_cdb (from_le_bytes bytes))
      (extract_bytes-write r absolute_pos_of_log_cdb (cdb_bytes b) 8 (cdb_len b))
    ∙ ap check_cdb (from_le_bytes-to_le_bytes 8 (cdb_value b) (cdb_value-lt b))
    ∙ check_cdb_value b

-- A crash while the boolean is written to a settled region leaves the old one or the new one.
pub cdb_after_crash :
    (r : Region) (mem : Mem) (old new : Bool)
    → absolute_pos_of_log_cdb + 8 ≤ r.len
    → check_cdb (deserialize_log_cdb (committed (flush r))) ≡ some old
    → CanCrashAs (write (flush r) absolute_pos_of_log_cdb (cdb_bytes new)) mem
    → (check_cdb (deserialize_log_cdb mem) ≡ some old)
      ⊎ (check_cdb (deserialize_log_cdb mem) ≡ some new)
cdb_after_crash r mem old new fits e crash =
    elim (crash_single_chunk (flush r) mem 12 (cdb_bytes new) (cdb_len new)
      (λ k p q. settled-flush r k) crash) [
        | inl same ↦ inl (
            cdb_agree (committed (flush r)) mem (λ k p q. sym (same k (omega (arith, len-flush r))))
              e)
        | inr written ↦ inr (
            cdb_agree (committed (flush (write (flush r) absolute_pos_of_log_cdb (cdb_bytes new))))
              mem
              (λ k p q.
                committed-flush (write (flush r) absolute_pos_of_log_cdb (cdb_bytes new)) k
                ∙ sym (written k (omega (arith, len-flush r))))
              (cdb_extracted (flush r) new))
      ]
