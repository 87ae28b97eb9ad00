-- ===== src/Multilog/Impl.antt =====
-- multilogimpl_v.rs: the multilog's volatile state and the operations that run on it. That of one
-- of its logs, `LogInfo`, is the one of a single log, which the file declares anew.
pub mod Err
use verified_storage.Base.{
  ℕ, zero, suc, ◌+◌, ◌-◌, Bool, not, List, [], ◌++◌, ltb, leb, ◌==◌, if◌then◌else◌, length, get_or,
  take, drop, update, add64, sub64, add128, sub128, as_u64, u128_max, Outcome, ok, err,
}
use verified_storage.Pmem.Bytes.{spec_u64_to_le_bytes}
use verified_storage.Pmem.Medium.{Medium, cdb_value}
use verified_storage.Pmem.Regions.{WrpmRegions, region_at, in_region}
use verified_storage.Pmem.Regions
use verified_storage.Log.Layout.{
  LogMetadata, serialize_log, absolute_pos_of_log_area, length_of_log_metadata,
}
use verified_storage.Log.Recover.{crc_log}
use verified_storage.Log.Impl.{LogInfo, read_bytes}
use verified_storage.Multilog.Layout.{
  absolute_pos_of_log_cdb, absolute_pos_of_log_metadata_for_cdb_false,
  absolute_pos_of_log_metadata_for_cdb_true,
}
use Err.{
  MultiLogErr, invalid_log_index, insufficient_space_for_append, cant_read_before_head,
  cant_read_past_tail, cant_advance_head_position_before_head,
  cant_advance_head_position_beyond_tail,
}

-- `UntrustedMultiLogImpl` without its ghost abstract state, which the invariant relates to it.
pub record MultiLogImpl : Type 0 where
  pub num_logs : ℕ
  pub cdb : Bool
  pub infos : List LogInfo

-- The information of an index out of range.
abbrev pub no_info : LogInfo
no_info = record {
  log_area_len = 0;
  head = 0;
  head_log_area_offset = 0;
  log_length = 0;
  log_plus_pending_length = 0;
}

abbrev pub info_at : List LogInfo → ℕ → LogInfo
info_at infos i = get_or infos i no_info

-- A method that changes the multilog returns its result, the new multilog and the new regions.
abbrev pub Ran : Type 0 → Type 0
Ran A = Outcome MultiLogErr A × MultiLogImpl × WrpmRegions

-- The write of an append: where it goes, and whether it wraps.
unfoldable pub append_bytes : LogInfo → WrpmRegions → ℕ → List ℕ → WrpmRegions
append_bytes info ws which_log bytes =
    let before_wrap = sub64 info.log_area_len info.head_log_area_offset in
    if leb before_wrap info.log_plus_pending_length
    then Regions.write ws which_log
        (sub64 (add64 absolute_pos_of_log_area info.log_plus_pending_length) before_wrap) bytes
    else (let write_addr =
          add64 (add64 absolute_pos_of_log_area info.log_plus_pending_length)
            info.head_log_area_offset in
        let max_len_without_wrapping = sub64 before_wrap info.log_plus_pending_length in
        if leb (length bytes) max_len_without_wrapping
        then Regions.write ws which_log write_addr bytes
        else Regions.write
            (Regions.write ws which_log write_addr (take max_len_without_wrapping bytes)) which_log
            absolute_pos_of_log_area (drop max_len_without_wrapping bytes))

unfoldable pub tentatively_append : MultiLogImpl → WrpmRegions → ℕ → List ℕ → Ran ℕ
tentatively_append self ws which_log bytes =
    if leb self.num_logs which_log
    then (err invalid_log_index, self, ws)
    else (let info = info_at self.infos which_log in
        let available_space = sub64 info.log_area_len info.log_plus_pending_length in
        let num_bytes = as_u64 (length bytes) in
        let room = sub128 (sub128 u128_max info.log_plus_pending_length) info.head in
        if ltb available_space num_bytes
        then (err (insufficient_space_for_append available_space), self, ws)
        else if ltb room num_bytes
        then (err (insufficient_space_for_append (as_u64 room)), self, ws)
        else (let old_pending_tail = add128 info.head info.log_plus_pending_length in
            if num_bytes == 0 then (ok old_pending_tail, self, ws) else (
              ok old_pending_tail,
              record self {
                infos = update self.infos which_log (record info {
                  log_plus_pending_length = add64 info.log_plus_pending_length num_bytes;
                });
              },
              append_bytes info ws which_log bytes,
            )))

-- The loop of `commit`, over `count` logs from one on.
unfoldable pub commit_infos : ℕ → ℕ → List LogInfo → List LogInfo
commit_infos zero current_log infos = infos
commit_infos (suc count) current_log infos =
    let info = info_at infos current_log in
    commit_infos count (suc current_log)
      (update infos current_log (record info { log_length = info.log_plus_pending_length }))

module _ (m : Medium) where
  -- What the loop of `update_log_metadata` does to one log.
  unfoldable pub write_log_metadata : LogInfo → ℕ → WrpmRegions → ℕ → WrpmRegions
  write_log_metadata info unused_metadata_pos ws current_log =
      let log_metadata : LogMetadata = record {
        head = info.head;
        padding = 0;
        log_length = info.log_length;
      } in
      let log_crc = crc_log m log_metadata in
      let ws₁ = Regions.write ws current_log unused_metadata_pos (serialize_log log_metadata) in
      Regions.write ws₁ current_log (unused_metadata_pos + length_of_log_metadata)
        (spec_u64_to_le_bytes log_crc)

  -- The loop of `update_log_metadata`, over `count` logs from one on.
  unfoldable pub write_each_log_metadata : ℕ → ℕ → List LogInfo → ℕ → WrpmRegions → WrpmRegions
  write_each_log_metadata zero current_log infos unused_metadata_pos ws = ws
  write_each_log_metadata (suc count) current_log infos unused_metadata_pos ws =
      write_each_log_metadata count (suc current_log) infos unused_metadata_pos
        (write_log_metadata (info_at infos current_log) unused_metadata_pos ws current_log)

  -- Writes the metadata that the boolean does not select in every region, then flips the boolean in
  -- the first.
  unfoldable pub update_log_metadata : MultiLogImpl → WrpmRegions → MultiLogImpl × WrpmRegions
  update_log_metadata self ws =
      let unused_metadata_pos : ℕ =
        if self.cdb
        then absolute_pos_of_log_metadata_for_cdb_false
        else absolute_pos_of_log_metadata_for_cdb_true in
      let ws₁ = write_each_log_metadata self.num_logs 0 self.infos unused_metadata_pos ws in
      let ws₂ = Regions.flush ws₁ in
      let new_cdb = cdb_value (not self.cdb) in
      let ws₃ = Regions.write ws₂ 0 absolute_pos_of_log_cdb (spec_u64_to_le_bytes new_cdb) in
      (record self { cdb = not self.cdb }, Regions.flush ws₃)

  unfoldable pub commit : MultiLogImpl → WrpmRegions → Ran (Unit {0})
  commit self ws =
      let self' : MultiLogImpl = record self { infos = commit_infos self.num_logs 0 self.infos } in
      let (self'', ws') = update_log_metadata self' ws in (ok tt, self'', ws')

  unfoldable pub advance_head : MultiLogImpl → WrpmRegions → ℕ → ℕ → Ran (Unit {0})
  advance_head self ws which_log new_head =
      if leb self.num_logs which_log
      then (err invalid_log_index, self, ws)
      else (let info = info_at self.infos which_log in
          if ltb new_head info.head
          then (err (cant_advance_head_position_before_head info.head), self, ws)
          else if ltb info.log_length (sub128 new_head info.head)
          then (
            err (cant_advance_head_position_beyond_tail (add128 info.head info.log_length)),
            self,
            ws,
          )
          else (let amount_of_advancement = as_u64 (sub128 new_head info.head) in
              let before_wrap = sub64 info.log_area_len info.head_log_area_offset in
              let new_head_log_area_offset : ℕ =
                if ltb amount_of_advancement before_wrap
                then add64 amount_of_advancement info.head_log_area_offset
                else sub64 amount_of_advancement before_wrap in
              let new_info : LogInfo = record info {
                head = new_head;
                head_log_area_offset = new_head_log_area_offset;
                log_length = sub64 info.log_length amount_of_advancement;
                log_plus_pending_length = sub64 info.log_plus_pending_length amount_of_advancement;
              } in
              let self' : MultiLogImpl = record self {
                infos = update self.infos which_log new_info;
              } in
              let (self'', ws') = update_log_metadata self' ws in (ok tt, self'', ws')))

  unfoldable pub read : MultiLogImpl → WrpmRegions → ℕ → ℕ → ℕ → Outcome MultiLogErr (List ℕ)
  read self ws which_log pos len =
      if leb self.num_logs which_log
      then err invalid_log_index
      else (let info = info_at self.infos which_log in
          let region = region_at ws.pm_regions which_log in
          let here = in_region m which_log in
          let relative_pos = as_u64 (sub128 pos info.head) in
          let before_wrap = sub64 info.log_area_len info.head_log_area_offset in
          let tail = add128 info.head info.log_length in
          let max_len_without_wrapping = sub64 before_wrap relative_pos in
          let addr =
            add64 (add64 absolute_pos_of_log_area relative_pos) info.head_log_area_offset in
          if ltb pos info.head
          then err (cant_read_before_head info.head)
          else if ltb info.log_length len
          then err (cant_read_past_tail tail)
          else if ltb (sub64 info.log_length len) (sub128 pos info.head)
          then err (cant_read_past_tail tail)
          else if len == 0
          then ok []
          else if leb before_wrap relative_pos
          then ok (
              read_bytes here region
                (sub64 (add64 absolute_pos_of_log_area relative_pos) before_wrap) len)
          else if leb len max_len_without_wrapping
          then ok (read_bytes here region addr len)
          else ok (
              read_bytes here region addr max_len_without_wrapping
              ++ read_bytes here region absolute_pos_of_log_area
                  (sub64 len max_len_without_wrapping)))

unfoldable pub get_head_tail_and_capacity :
    MultiLogImpl → WrpmRegions → ℕ → Outcome MultiLogErr (ℕ × ℕ × ℕ)
get_head_tail_and_capacity self ws which_log =
    if leb self.num_logs which_log
    then err invalid_log_index
    else (let info = info_at self.infos which_log in
        ok (info.head, add128 info.head info.log_length, info.log_area_len))
