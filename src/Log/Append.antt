-- ===== src/Log/Append.antt =====
-- The writes of an append, of logimpl_v.rs: what they leave, and what a crash during them can
-- leave.
pub mod Call
use mathlib.Core.List.{append_assoc}
use mathlib.Core.Path.{transport}
use verified_storage.Base.{
  ℕ, ◌+◌, ◌-◌, ◌≤◌, ◌<◌, ◌≡◌, refl, sym, ap, ◌∙◌, ◌⊎◌, inl, inr, Bool, true, false, some, none,
  length, arith, u64_mod, u128_max, u128_mod, List, [], ◌∷◌, ◌++◌, take, drop, leb, ltb,
  if◌then◌else◌, Outcome, ok, err, lt_or_le, length-take, length-drop, take-append-drop, sub64,
  add64, lt→leb, le→leb, lt→ltb, le→ltb, eq_or_ne,
}
use verified_storage.Pmem.View.{Region, Mem}
use verified_storage.Pmem.View
use verified_storage.Pmem.Medium.{Medium}
use verified_storage.Pmem.Wrpm
use verified_storage.Pmem.Wrpm.{Wrpm, AllOnlyCrashIn}
use verified_storage.Log.Layout.{absolute_pos_of_log_area, relative_log_pos_to_log_area_offset}
use verified_storage.Log.Recover.{recover_state}
use verified_storage.Log.Spec.{AbstractLogState, drop_pending_appends}
use verified_storage.Log.Spec
use verified_storage.Log.Impl.Err.{LogErr, insufficient_space_for_append}
use verified_storage.Log.Impl.{LogInfo, LogImpl, append_bytes, tentatively_append}
use verified_storage.Log.Inv.{InfoValid, IsValid, log_addr}
use verified_storage.Log.Inv.Crash.{recover_after_crash}
use verified_storage.Log.Inv.Append.{max_len_without_wrapping, appended, IsValid-append_piece}

-- The writes of an append, with the wrap-around of the u64 arithmetic gone.
unfoldable pub plain_append : LogInfo → Wrpm → List ℕ → Wrpm
plain_append info w bytes =
    if leb (length bytes) (max_len_without_wrapping info)
    then Wrpm.write w (log_addr info info.log_plus_pending_length) bytes
    else Wrpm.write
        (Wrpm.write w (log_addr info info.log_plus_pending_length)
          (take (max_len_without_wrapping info) bytes))
        absolute_pos_of_log_area (drop (max_len_without_wrapping info) bytes)

pub append_bytes-eq :
    (info : LogInfo) (w : Wrpm) (bytes : List ℕ)
    → InfoValid info
    → absolute_pos_of_log_area + info.log_area_len < u64_mod
    → info.log_plus_pending_length + length bytes ≤ info.log_area_len
    → append_bytes info w bytes ≡ plain_append info w bytes
unfolding append_bytes plain_append relative_log_pos_to_log_area_offset
append_bytes-eq info w bytes v small space = ground arith

-- Where an append wraps: its second part begins at the log area, and fits there.
module _ {info : LogInfo} (v : InfoValid info) (n len rest : ℕ)
    (all : n ≡ max_len_without_wrapping info) (long : max_len_without_wrapping info < len)
    (space : info.log_plus_pending_length + len ≤ info.log_area_len) where
  pub wrapped_addr :
      log_addr (appended info n) (info.log_plus_pending_length + n) ≡ absolute_pos_of_log_area
  unfolding relative_log_pos_to_log_area_offset
  wrapped_addr = ground arith

  pub rest_fits :
      rest ≡ len - max_len_without_wrapping info → rest ≤ max_len_without_wrapping (appended info n)
  unfolding relative_log_pos_to_log_area_offset
  rest_fits e = ground arith

-- The contents that recover to an abstract state.
abbrev pub RecoversTo : Medium → ℕ → AbstractLogState → Mem → Type 0
RecoversTo m log_id s mem = recover_state m mem log_id ≡ some s

IsValid-eq :
    {m : Medium} {r r' : Region} {log_id : ℕ} {self self' : LogImpl} {s s' : AbstractLogState}
    → r ≡ r'
    → self ≡ self'
    → s ≡ s'
    → IsValid m r log_id self s
    → IsValid m r' log_id self' s'
IsValid-eq {m} {r} {r'} {log_id} e f g v = transport (λ i. IsValid m (e i) log_id (f i) (g i)) v

module _ {m : Medium} {log_id : ℕ} {self : LogImpl} {s : AbstractLogState} (w : Wrpm)
    (v : IsValid m w.pm_region log_id self s) (bytes : List ℕ)
    (space : self.info.log_plus_pending_length + length bytes ≤ self.info.log_area_len)
    (tail : self.info.head + self.info.log_plus_pending_length + length bytes ≤ u128_max)
    (before : AllOnlyCrashIn (RecoversTo m log_id (drop_pending_appends s)) w.history) where
  -- What the writes of an append leave, and could have left at a crash.
  abbrev Appended : Wrpm → Type 0
  Appended w' =
      IsValid m w'.pm_region log_id (record self { info = appended self.info (length bytes) })
        (Spec.tentatively_append s bytes)
      × AllOnlyCrashIn (RecoversTo m log_id (drop_pending_appends s)) w'.history

  plain_append_straight :
      length bytes ≤ max_len_without_wrapping self.info → Appended (plain_append self.info w bytes)
  unfolding plain_append Wrpm.write
  plain_append_straight fits =
      rw (le→leb (length bytes) (max_len_without_wrapping self.info) fits)
        (after, (recover_after_crash after.consistent, before))
    where
      after :
          IsValid m
            (View.write w.pm_region (log_addr self.info self.info.log_plus_pending_length) bytes)
            log_id
            (record self { info = appended self.info (length bytes) })
            (Spec.tentatively_append s bytes)
      after = IsValid-append_piece v bytes fits space tail

  plain_append_wrapping :
      max_len_without_wrapping self.info < length bytes → Appended (plain_append self.info w bytes)
  unfolding plain_append Wrpm.write
  plain_append_wrapping long =
      rw (lt→leb (length bytes) (max_len_without_wrapping self.info) long) (
        both,
        (recover_after_crash both.consistent, (recover_after_crash first.consistent, before)),
      )
    where
      k : ℕ
      k = max_len_without_wrapping self.info

      len₁ : length (take k bytes) ≡ k
      len₁ = length-take k bytes (omega arith)

      len₂ : length (drop k bytes) ≡ length bytes - k
      len₂ = length-drop k bytes

      first :
          IsValid m
            (View.write w.pm_region
              (log_addr self.info self.info.log_plus_pending_length)
              (take k bytes))
            log_id
            (record self { info = appended self.info (length (take k bytes)) })
            (Spec.tentatively_append s (take k bytes))
      first =
          IsValid-append_piece v (take k bytes) (omega (arith, len₁)) (omega (arith, len₁))
            (omega (arith, len₁))

      wrapped :
          log_addr
            (appended self.info (length (take k bytes)))
            (self.info.log_plus_pending_length + length (take k bytes))
          ≡ absolute_pos_of_log_area
      wrapped = wrapped_addr v.info (length (take k bytes)) (length bytes) 0 len₁ long space

      total :
          self.info.log_plus_pending_length + length (take k bytes) + length (drop k bytes)
          ≡ self.info.log_plus_pending_length + length bytes
      total = omega (arith, len₁, len₂)

      both :
          IsValid m
            (View.write
              (View.write w.pm_region
                (log_addr self.info self.info.log_plus_pending_length)
                (take k bytes))
              absolute_pos_of_log_area
              (drop k bytes))
            log_id
            (record self { info = appended self.info (length bytes) })
            (Spec.tentatively_append s bytes)
      both =
          IsValid-eq
            (ap
              (λ a.
                View.write
                  (View.write w.pm_region (log_addr self.info self.info.log_plus_pending_length)
                    (take k bytes))
                  a (drop k bytes))
              wrapped)
            (ap (λ n. record self { info = record self.info { log_plus_pending_length = n } })
              total)
            (ap (λ t. record s { pending = t })
              (append_assoc s.pending (take k bytes) (drop k bytes)
                ∙ ap (λ t. s.pending ++ t) (take-append-drop k bytes)))
            (IsValid-append_piece first (drop k bytes)
              (rest_fits v.info (length (take k bytes)) (length bytes) (length (drop k bytes)) len₁
                long space len₂)
              (omega (arith, len₁, len₂)) (omega (arith, len₁, len₂)))

  -- The writes append to the pending bytes, and at each a crash leaves the log as it was.
  pub append_bytes_lem :
      absolute_pos_of_log_area + self.info.log_area_len < u64_mod
      → Appended (append_bytes self.info w bytes)
  append_bytes_lem small =
      rw (append_bytes-eq self.info w bytes v.info small space)
        (elim (lt_or_le (max_len_without_wrapping self.info) (length bytes)) [
          | inl long ↦ plain_append_wrapping long
          | inr short ↦ plain_append_straight short
        ])
