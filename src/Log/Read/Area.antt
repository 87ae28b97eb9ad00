-- ===== src/Log/Read/Area.antt =====
-- `read` of logimpl_v.rs within the log.
use verified_storage.Base.{
  ℕ, zero, suc, ◌+◌, ◌-◌, ◌≤◌, ◌<◌, ◌≡◌, refl, sym, ap, ap₂, ◌∙◌, inl, inr, length, get_or, arith,
  List, take, drop, [], ◌++◌, lt_or_le, length-drop, length-take, get_or-drop, get_or-take, ok,
  u64_mod, true, ◌≢◌,
}
use verified_storage.Pmem.View.{committed, extract_bytes, extract_bytes_of_list}
use verified_storage.Pmem.Medium.{Medium, IsSound, observe}
use verified_storage.Pmem.Wrpm.{Wrpm}
use verified_storage.Log.Layout.{absolute_pos_of_log_area, relative_log_pos_to_log_area_offset}
use verified_storage.Log.Layout.Serialize.{drop-drop}
use verified_storage.Log.Spec.{AbstractLogState}
use verified_storage.Log.Spec
use verified_storage.Log.Impl.{LogImpl, read, read_bytes}
use verified_storage.Log.Inv.{InfoValid, Describes, AreaHolds, IsValid, log_addr}
use verified_storage.Log.Read.{
  observe_log, observe_log-append, observe_log_impervious, observe-eq-observe_log, take-append-take,
  area_small,
}

module _ (m : Medium) (self : LogImpl) {s : AbstractLogState} (w : Wrpm) (v : InfoValid self.info)
    (d : Describes self.info s) (held : AreaHolds w.pm_region self.info s)
    (small : absolute_pos_of_log_area + self.info.log_area_len < u64_mod) where
  -- A read of consecutive bytes of the log (`lemma_read_of_continuous_range`).
  read_of_continuous_range :
      (rel n addr : ℕ)
      → rel + n ≤ self.info.log_length
      → n
          + relative_log_pos_to_log_area_offset rel self.info.head_log_area_offset
              self.info.log_area_len
        ≤ self.info.log_area_len
      → addr ≡ log_addr self.info rel
      → read_bytes m w.pm_region addr n ≡ observe_log m self.info rel (take n (drop rel s.log))
  unfolding read_bytes
  read_of_continuous_range rel n addr inside fits e =
      ap (λ t. observe m addr t) bytes
      ∙ ap (λ a. observe m a (take n (drop rel s.log))) e
      ∙ observe-eq-observe_log m self.info rel (take n (drop rel s.log)) (omega (arith, v.area))
          (omega (arith, len))
    where
      len : length (take n (drop rel s.log)) ≡ n
      len = length-take n (drop rel s.log) (omega (arith, length-drop rel s.log, d.log_len))

      at :
          (i : ℕ)
          → i < n
          → (committed w.pm_region).at (addr + i) ≡ get_or (take n (drop rel s.log)) i 0
      at i lt =
          ap (λ a. (committed w.pm_region).at a) step
          ∙ held.log_bytes (rel + i) (omega arith)
          ∙ sym (get_or-take n (drop rel s.log) i 0 lt ∙ get_or-drop rel s.log i 0)
        where
          step : addr + i ≡ log_addr self.info (rel + i)
          step = unfold relative_log_pos_to_log_area_offset in ground (arith, e, v.area)

      bytes : extract_bytes (committed w.pm_region) addr n ≡ take n (drop rel s.log)
      bytes = extract_bytes_of_list (committed w.pm_region) addr (take n (drop rel s.log)) n len at

  read_nothing :
      (pos : ℕ) → s.head ≤ pos → pos ≤ s.head + length s.log → read m self w pos 0 ≡ ok []
  unfolding read
  read_nothing pos lo hi = ground (arith, small, d.head, d.log_len)

  -- The three ways to read a part of the log, with the wrap-around of the arithmetic gone.
  module _ (pos len : ℕ) (lo : s.head ≤ pos) (hi : pos + len ≤ s.head + length s.log)
      (some_bytes : len ≢ 0) where
    read_beyond_wrap :
        self.info.log_area_len ≤ self.info.head_log_area_offset + (pos - s.head)
        → read m self w pos len
          ≡ ok (read_bytes m w.pm_region (log_addr self.info (pos - s.head)) len)
    unfolding read relative_log_pos_to_log_area_offset
    read_beyond_wrap h = ground (arith, small, d.head, d.log_len, v.offset)

    read_before_wrap :
        self.info.head_log_area_offset + (pos - s.head) + len ≤ self.info.log_area_len
        → read m self w pos len
          ≡ ok (read_bytes m w.pm_region (log_addr self.info (pos - s.head)) len)
    unfolding read relative_log_pos_to_log_area_offset
    read_before_wrap h = ground (arith, small, d.head, d.log_len, v.offset)

    read_across_wrap :
        self.info.head_log_area_offset + (pos - s.head) < self.info.log_area_len
        → self.info.log_area_len < self.info.head_log_area_offset + (pos - s.head) + len
        → (k : ℕ) → k ≡ self.info.log_area_len - self.info.head_log_area_offset - (pos - s.head)
        → read m self w pos len
          ≡ ok (
              read_bytes m w.pm_region (log_addr self.info (pos - s.head)) k
              ++ read_bytes m w.pm_region absolute_pos_of_log_area (len - k))
    unfolding read relative_log_pos_to_log_area_offset
    read_across_wrap h h' k e = ground (arith, small, d.head, d.log_len, v.offset)

    -- The rest of a read that wraps begins at the log area.
    across_wrap :
        (k : ℕ)
        → self.info.head_log_area_offset + (pos - s.head) < self.info.log_area_len
        → self.info.log_area_len < self.info.head_log_area_offset + (pos - s.head) + len
        → k ≡ self.info.log_area_len - self.info.head_log_area_offset - (pos - s.head)
        → read_bytes m w.pm_region (log_addr self.info (pos - s.head)) k
            ++ read_bytes m w.pm_region absolute_pos_of_log_area (len - k)
          ≡ observe_log m self.info (pos - s.head) (Spec.read s pos len)
    across_wrap k h h' e =
        ap₂ ◌++◌ first second
        ∙ ap (λ n. observe_log m self.info rel part ++ observe_log m self.info n rest) position
        ∙ sym (observe_log-append m self.info rel part rest)
        ∙ ap (observe_log m self.info rel) whole
      where
        rel : ℕ
        rel = pos - s.head

        part : List ℕ
        part = take k (drop rel s.log)

        rest : List ℕ
        rest = take (len - k) (drop (rel + k) s.log)

        part_len : length part ≡ k
        part_len = length-take k (drop rel s.log) (omega (arith, length-drop rel s.log, d.log_len))

        position : rel + k ≡ rel + length part
        position = omega (arith, part_len)

        whole : part ++ rest ≡ Spec.read s pos len
        whole =
            ap (λ t. part ++ take (len - k) t) (sym (drop-drop rel k s.log))
            ∙ take-append-take k len (drop rel s.log) (omega arith)

        first :
            read_bytes m w.pm_region (log_addr self.info rel) k ≡ observe_log m self.info rel part
        first =
            read_of_continuous_range rel k (log_addr self.info rel)
              (omega (arith, d.head, d.log_len))
              (unfold relative_log_pos_to_log_area_offset in ground (arith, e, h)) refl

        second :
            read_bytes m w.pm_region absolute_pos_of_log_area (len - k)
            ≡ observe_log m self.info (rel + k) rest
        second =
            read_of_continuous_range (rel + k) (len - k) absolute_pos_of_log_area
              (omega (arith, d.head, d.log_len))
              (unfold relative_log_pos_to_log_area_offset in
                ground (arith, e, h, h', v.log_le, v.pending_le, d.log_len, d.head))
              (unfold relative_log_pos_to_log_area_offset in ground (arith, e, h))

    read_some :
        read m self w pos len ≡ ok (observe_log m self.info (pos - s.head) (Spec.read s pos len))
    read_some =
        elim (lt_or_le (self.info.head_log_area_offset + (pos - s.head)) self.info.log_area_len) [
          | inr wrapped ↦
              read_beyond_wrap wrapped
              ∙ ap ok (
                  read_of_continuous_range (pos - s.head) len (log_addr self.info (pos - s.head))
                    (omega (arith, d.log_len))
                    (unfold relative_log_pos_to_log_area_offset in
                      ground (arith, wrapped, v.log_le, v.pending_le, d.log_len, v.offset))
                    refl)
          | inl straight ↦
              elim (lt_or_le self.info.log_area_len
                (self.info.head_log_area_offset + (pos - s.head) + len)) [
                  | inr fits ↦
                      read_before_wrap fits
                      ∙ ap ok (
                          read_of_continuous_range (pos - s.head) len
                            (log_addr self.info (pos - s.head)) (omega (arith, d.log_len))
                            (unfold relative_log_pos_to_log_area_offset in
                              ground (arith, straight, fits))
                            refl)
                  | inl long ↦
                      read_across_wrap straight long
                        (self.info.log_area_len - self.info.head_log_area_offset - (pos - s.head))
                        refl
                      ∙ ap ok (
                          across_wrap
                            (self.info.log_area_len
                              - self.info.head_log_area_offset
                              - (pos - s.head))
                            straight long refl)
                ]
        ]

-- A read of a part of the log, of what the log area holds.
pub read_of_area :
    (m : Medium) (self : LogImpl) {s : AbstractLogState} (w : Wrpm) (pos len : ℕ)
    → InfoValid self.info
    → Describes self.info s
    → AreaHolds w.pm_region self.info s
    → absolute_pos_of_log_area + self.info.log_area_len < u64_mod
    → s.head ≤ pos
    → pos + len ≤ s.head + length s.log
    → read m self w pos len ≡ ok (observe_log m self.info (pos - s.head) (Spec.read s pos len))
read_of_area m self w pos zero v d held small lo hi =
    read_nothing m self w v d held small pos lo (omega arith)
read_of_area m self w pos (suc len) v d held small lo hi =
    read_some m self w v d held small pos (suc len) lo hi (omega arith)

-- A read of a part of the log succeeds. Its bytes are those of the abstract log, each as it is
-- found at the address of its position; the addresses go round at the end of the log area.
pub read_within :
    {m : Medium} {log_id : ℕ} {self : LogImpl} {s : AbstractLogState} (w : Wrpm) (pos len : ℕ)
    → IsValid m w.pm_region log_id self s
    → s.head ≤ pos
    → pos + len ≤ s.head + length s.log
    → read m self w pos len ≡ ok (observe_log m self.info (pos - s.head) (Spec.read s pos len))
read_within {m} {self = self} w pos len v lo hi =
    read_of_area m self w pos len v.info v.describes v.area (area_small w v) lo hi

-- On a medium impervious to corruption a read of a part of the log returns it.
pub read_impervious :
    {m : Medium} {log_id : ℕ} {self : LogImpl} {s : AbstractLogState} (w : Wrpm) (pos len : ℕ)
    → IsSound m
    → m.impervious_to_corruption ≡ true
    → IsValid m w.pm_region log_id self s
    → s.head ≤ pos
    → pos + len ≤ s.head + length s.log
    → read m self w pos len ≡ ok (Spec.read s pos len)
read_impervious {self = self} {s} w pos len sound h v lo hi =
    read_within w pos len v lo hi
    ∙ ap ok (observe_log_impervious self.info sound h (pos - s.head) (Spec.read s pos len))
