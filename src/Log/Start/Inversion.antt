-- ===== src/Log/Start/Inversion.antt =====
-- What a successful recovery says of the contents.
use verified_storage.Base.{
  ℕ, ◌%◌, ◌≡◌, sym, ◌∙◌, Bool, some, none, Option-cases, inl, inr, ◌⊎◌, arith, [],
}
use verified_storage.Pmem.View.{Mem}
use verified_storage.Pmem.Medium.{Medium}
use verified_storage.Log.Layout.{deserialize_region_metadata, deserialize_log_metadata}
use verified_storage.Log.Recover.{
  recover_cdb, recover_given_cdb, recover_state, extract_log, deserialize_and_check_log_cdb,
  recover_abstract_log_from_region_given_metadata,
}
use verified_storage.Log.Spec.{AbstractLogState}
use verified_storage.Log.Impl.{LogInfo}
use verified_storage.Log.Inv.{MetadataConsistent, InfoValid}

-- The volatile state that the metadata describes.
abbrev pub info_of : Mem → Bool → LogInfo
info_of mem cdb = record {
  log_area_len = (deserialize_region_metadata mem).log_area_len;
  head = (deserialize_log_metadata mem cdb).head;
  head_log_area_offset =
      (deserialize_log_metadata mem cdb).head % (deserialize_region_metadata mem).log_area_len;
  log_length = (deserialize_log_metadata mem cdb).log_length;
  log_plus_pending_length = (deserialize_log_metadata mem cdb).log_length;
}

-- The abstract state that they recover to.
abbrev pub state_of : Mem → LogInfo → AbstractLogState
state_of mem info = record {
  head = info.head;
  log = extract_log mem info.log_area_len info.head info.log_length;
  pending = [];
  capacity = info.log_area_len;
}

module _ (m : Medium) (mem : Mem) (log_id : ℕ) where
  recover_cdb_inv :
      (cdb : Bool) → recover_cdb m mem ≡ some cdb → deserialize_and_check_log_cdb mem ≡ some cdb
  unfolding recover_cdb
  recover_cdb_inv cdb h = ground arith

  recover_given_metadata :
      (cdb : Bool) {s : AbstractLogState}
      → recover_given_cdb m mem log_id cdb ≡ some s
      → MetadataConsistent m mem log_id cdb (info_of mem cdb)
  unfolding recover_given_cdb
  recover_given_metadata cdb h = ground arith

  recover_given_info :
      (cdb : Bool) {s : AbstractLogState}
      → recover_given_cdb m mem log_id cdb ≡ some s
      → InfoValid (info_of mem cdb)
  unfolding recover_given_cdb recover_abstract_log_from_region_given_metadata
  recover_given_info cdb h = ground arith

  recover_given_state :
      (cdb : Bool) {s : AbstractLogState}
      → recover_given_cdb m mem log_id cdb ≡ some s
      → state_of mem (info_of mem cdb) ≡ s
  unfolding recover_given_cdb recover_abstract_log_from_region_given_metadata
  recover_given_state cdb h = ground arith

  pub recover_state_inv :
      {s : AbstractLogState}
      → recover_state m mem log_id ≡ some s
      → (cdb : Bool) × (deserialize_and_check_log_cdb mem ≡ some cdb)
        × MetadataConsistent m mem log_id cdb (info_of mem cdb)
        × InfoValid (info_of mem cdb)
        × (state_of mem (info_of mem cdb) ≡ s)
  unfolding recover_state
  recover_state_inv {s} h = go (Option-cases (recover_cdb m mem))
    where
      go :
          (recover_cdb m mem ≡ none) ⊎ ((cdb : Bool) × (recover_cdb m mem ≡ some cdb))
          → (cdb : Bool) × (deserialize_and_check_log_cdb mem ≡ some cdb)
            × MetadataConsistent m mem log_id cdb (info_of mem cdb)
            × InfoValid (info_of mem cdb)
            × (state_of mem (info_of mem cdb) ≡ s)
      go (inl e) = absurd (cc (h, none_of e))
        where
          none_of : recover_cdb m mem ≡ none → recover_state m mem log_id ≡ none
          none_of e = rw (e, recover_state)
      go (inr (cdb, e)) = (
        cdb,
        recover_cdb_inv cdb e,
        recover_given_metadata cdb given,
        recover_given_info cdb given,
        recover_given_state cdb given,
      )
        where
          given : recover_given_cdb m mem log_id cdb ≡ some s
          given = sym state ∙ h
            where
              state : recover_state m mem log_id ≡ recover_given_cdb m mem log_id cdb
              state = rw (e, recover_state)
