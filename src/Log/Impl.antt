-- ===== src/Log/Impl.antt =====
-- logimpl_v.rs: the log's volatile state and the operations that run on it.
pub mod Err
use verified_storage.Base.{
  ℕ, ◌+◌, ◌-◌, Bool, true, false, not, List, [], ◌++◌, ltb, leb, ◌==◌, if◌then◌else◌, length, take,
  drop, add64, sub64, add128, sub128, as_u64, u64_mod, u128_max, Outcome, ok, err,
}
use verified_storage.Pmem.Bytes.{spec_u64_to_le_bytes}
use verified_storage.Pmem.Medium.{Medium, cdb_value, observe}
use verified_storage.Pmem.View.{Region, extract_bytes, committed}
use verified_storage.Pmem.Wrpm
use verified_storage.Pmem.Wrpm.{Wrpm}
use verified_storage.Log.Layout.{
  LogMetadata, serialize_log, absolute_pos_of_log_area, absolute_pos_of_log_cdb,
  absolute_pos_of_log_metadata_for_cdb_true, absolute_pos_of_log_metadata_for_cdb_false,
  length_of_log_metadata,
}
use verified_storage.Log.Recover.{crc_log}
use Err.{
  LogErr, insufficient_space_for_append, cant_read_before_head, cant_read_past_tail,
  cant_advance_head_position_before_head, cant_advance_head_position_beyond_tail,
}

pub record LogInfo : Type 0 where
  pub log_area_len : ℕ
  pub head : ℕ
  pub head_log_area_offset : ℕ
  pub log_length : ℕ
  pub log_plus_pending_length : ℕ

-- `UntrustedLogImpl` without its ghost abstract state, which the invariant relates to it.
pub record LogImpl : Type 0 where
  pub cdb : Bool
  pub info : LogInfo

-- A method that changes the log returns its result, the new log and the new region.
abbrev pub Ran : Type 0 → Type 0
Ran A = Outcome LogErr A × LogImpl × Wrpm

-- The write of an append: where it goes, and whether it wraps.
unfoldable pub append_bytes : LogInfo → Wrpm → List ℕ → Wrpm
append_bytes info w bytes =
    let num_bytes = length bytes in
    let before_wrap = sub64 info.log_area_len info.head_log_area_offset in
    if leb before_wrap info.log_plus_pending_length
    then Wrpm.write w
        (sub64 (add64 absolute_pos_of_log_area info.log_plus_pending_length) before_wrap) bytes
    else (let write_addr =
          add64 (add64 absolute_pos_of_log_area info.log_plus_pending_length)
            info.head_log_area_offset in
        let max_len_without_wrapping = sub64 before_wrap info.log_plus_pending_length in
        if leb num_bytes max_len_without_wrapping
        then Wrpm.write w write_addr bytes
        else Wrpm.write (Wrpm.write w write_addr (take max_len_without_wrapping bytes))
            absolute_pos_of_log_area (drop max_len_without_wrapping bytes))

unfoldable pub tentatively_append : LogImpl → Wrpm → List ℕ → Ran ℕ
tentatively_append self w bytes =
    let info = self.info in
    let available_space = sub64 info.log_area_len info.log_plus_pending_length in
    let num_bytes = as_u64 (length bytes) in
    let room = sub128 (sub128 u128_max info.log_plus_pending_length) info.head in
    if ltb available_space num_bytes
    then (err (insufficient_space_for_append available_space), self, w)
    else if ltb room num_bytes
    then (err (insufficient_space_for_append (as_u64 room)), self, w)
    else (let old_pending_tail = add128 info.head info.log_plus_pending_length in
        if num_bytes == 0 then (ok old_pending_tail, self, w) else (
          ok old_pending_tail,
          record self {
            info = record info {
              log_plus_pending_length = add64 info.log_plus_pending_length num_bytes;
            };
          },
          append_bytes info w bytes,
        ))

module _ (m : Medium) where
  -- Writes the metadata that the boolean does not select, then flips the boolean.
  unfoldable pub update_log_metadata : LogImpl → Wrpm → LogImpl × Wrpm
  update_log_metadata self w =
      let unused_metadata_pos : ℕ =
        if self.cdb
        then absolute_pos_of_log_metadata_for_cdb_false
        else absolute_pos_of_log_metadata_for_cdb_true in
      let log_metadata : LogMetadata = record {
        head = self.info.head;
        padding = 0;
        log_length = self.info.log_length;
      } in
      let log_crc = crc_log m log_metadata in
      let w₁ = Wrpm.write w unused_metadata_pos (serialize_log log_metadata) in
      let w₂ =
        Wrpm.write w₁ (unused_metadata_pos + length_of_log_metadata)
          (spec_u64_to_le_bytes log_crc) in
      let w₃ = Wrpm.flush w₂ in
      let new_cdb = cdb_value (not self.cdb) in
      let w₄ = Wrpm.write w₃ absolute_pos_of_log_cdb (spec_u64_to_le_bytes new_cdb) in
      (record self { cdb = not self.cdb }, Wrpm.flush w₄)

  unfoldable pub commit : LogImpl → Wrpm → Ran (Unit {0})
  commit self w =
      let self' : LogImpl = record self {
        info = record self.info { log_length = self.info.log_plus_pending_length };
      } in
      let (self'', w') = update_log_metadata self' w in (ok tt, self'', w')

  unfoldable pub advance_head : LogImpl → Wrpm → ℕ → Ran (Unit {0})
  advance_head self w new_head =
      let info = self.info in
      if ltb new_head info.head
      then (err (cant_advance_head_position_before_head info.head), self, w)
      else if ltb info.log_length (sub128 new_head info.head)
      then (
        err (cant_advance_head_position_beyond_tail (add128 info.head info.log_length)),
        self,
        w,
      )
      else (let amount_of_advancement = as_u64 (sub128 new_head info.head) in
          let before_wrap = sub64 info.log_area_len info.head_log_area_offset in
          let new_head_log_area_offset : ℕ =
            if ltb amount_of_advancement before_wrap
            then add64 amount_of_advancement info.head_log_area_offset
            else sub64 amount_of_advancement before_wrap in
          let self' : LogImpl = record self {
            info = record info {
              head = new_head;
              head_log_area_offset = new_head_log_area_offset;
              log_length = sub64 info.log_length amount_of_advancement;
              log_plus_pending_length = sub64 info.log_plus_pending_length amount_of_advancement;
            };
          } in
          let (self'', w') = update_log_metadata self' w in (ok tt, self'', w'))

  -- `pm_region.read(addr, num_bytes)`
  unfoldable pub read_bytes : Region → ℕ → ℕ → List ℕ
  read_bytes r addr num_bytes = observe m addr (extract_bytes (committed r) addr num_bytes)

  unfoldable pub read : LogImpl → Wrpm → ℕ → ℕ → Outcome LogErr (List ℕ)
  read self w pos len =
      let info = self.info in
      let relative_pos = as_u64 (sub128 pos info.head) in
      let before_wrap = sub64 info.log_area_len info.head_log_area_offset in
      let tail = add128 info.head info.log_length in
      let max_len_without_wrapping = sub64 before_wrap relative_pos in
      let addr = add64 (add64 absolute_pos_of_log_area relative_pos) info.head_log_area_offset in
      if ltb pos info.head
      then err (cant_read_before_head info.head)
      else if ltb info.log_length len
      then err (cant_read_past_tail tail)
      else if ltb (sub64 info.log_length len) (sub128 pos info.head)
      then err (cant_read_past_tail tail)
      else if len == 0
      then ok []
      else if leb before_wrap relative_pos
      then ok (
          read_bytes w.pm_region (sub64 (add64 absolute_pos_of_log_area relative_pos) before_wrap)
            len)
      else if leb len max_len_without_wrapping
      then ok (read_bytes w.pm_region addr len)
      else ok (
          read_bytes w.pm_region addr max_len_without_wrapping
          ++ read_bytes w.pm_region absolute_pos_of_log_area (sub64 len max_len_without_wrapping))

unfoldable pub get_head_tail_and_capacity : LogImpl → Outcome LogErr (ℕ × ℕ × ℕ)
get_head_tail_and_capacity self =
    ok (self.info.head, add128 self.info.head self.info.log_length, self.info.log_area_len)
