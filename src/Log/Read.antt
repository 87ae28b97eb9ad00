-- ===== src/Log/Read.antt =====
-- `read` of logimpl_v.rs: what a read of the log finds.
pub mod Area
pub mod Refused
use verified_storage.Base.{
  ℕ, zero, suc, ◌+◌, ◌-◌, ◌≤◌, ◌<◌, ◌≡◌, refl, sym, ap, ap₂, ◌∙◌, inl, inr, length, get_or, arith,
  List, take, drop, [], ◌∷◌, ◌++◌, lt_or_le, length-drop, length-take, get_or-drop, get_or-take, ok,
  err, u64_mod, u128_max, true, ◌≢◌,
}
use verified_storage.Pmem.View.{Region, committed, extract_bytes, extract_bytes_of_list}
use verified_storage.Pmem.Medium.{Medium, IsSound, observe}
use verified_storage.Pmem.Wrpm.{Wrpm}
use verified_storage.Log.Layout.{absolute_pos_of_log_area, relative_log_pos_to_log_area_offset}
use verified_storage.Log.Layout.Serialize.{drop-drop}
use verified_storage.Log.Spec.{AbstractLogState}
use verified_storage.Log.Spec
use verified_storage.Log.Impl.Err.{cant_read_before_head, cant_read_past_tail}
use verified_storage.Log.Impl.{LogInfo, LogImpl, read, read_bytes, get_head_tail_and_capacity}
use verified_storage.Log.Inv.{InfoValid, Describes, AreaHolds, IsValid, log_addr}

-- What a read of the log finds, if its bytes from a position on were last written as given.
abbrev pub observe_log : Medium → LogInfo → ℕ → List ℕ → List ℕ
observe_log m info pos [] = []
observe_log m info pos (b ∷ bs) =
    m.observe_byte (log_addr info pos) b ∷ observe_log m info (suc pos) bs

pub observe_log-append :
    (m : Medium) (info : LogInfo) (pos : ℕ) (xs ys : List ℕ)
    → observe_log m info pos (xs ++ ys)
      ≡ observe_log m info pos xs ++ observe_log m info (pos + length xs) ys
observe_log-append m info pos [] ys = ap (λ k. observe_log m info k ys) (omega arith)
observe_log-append m info pos (x ∷ xs) ys =
    ap (λ t. m.observe_byte (log_addr info pos) x ∷ t)
      (observe_log-append m info (suc pos) xs ys
        ∙ ap (λ k. observe_log m info (suc pos) xs ++ observe_log m info k ys) (omega arith))

pub observe_log_impervious :
    {m : Medium} (info : LogInfo)
    → IsSound m
    → m.impervious_to_corruption ≡ true
    → (pos : ℕ) (bs : List ℕ) → observe_log m info pos bs ≡ bs
observe_log_impervious info sound h pos [] = refl
observe_log_impervious {m} info sound h pos (b ∷ bs) =
    ap₂ ◌∷◌ (sound.impervious h (log_addr info pos) b)
      (observe_log_impervious info sound h (suc pos) bs)

-- Without a wrap, consecutive addresses are consecutive positions.
pub observe-eq-observe_log :
    (m : Medium) (info : LogInfo) (pos : ℕ) (bs : List ℕ)
    → 0 < info.log_area_len
    → length bs
        + relative_log_pos_to_log_area_offset pos info.head_log_area_offset info.log_area_len
      ≤ info.log_area_len
    → observe m (log_addr info pos) bs ≡ observe_log m info pos bs
unfolding observe
observe-eq-observe_log m info pos [] area fits = refl
observe-eq-observe_log m info pos (b ∷ []) area fits = refl
observe-eq-observe_log m info pos (b ∷ c ∷ bs) area fits =
    ap (λ t. m.observe_byte (log_addr info pos) b ∷ t)
      (ap (λ a. observe m a (c ∷ bs)) (sym next)
        ∙ observe-eq-observe_log m info (suc pos) (c ∷ bs) area (omega (arith, next, fits)))
  where
    next : log_addr info (suc pos) ≡ suc (log_addr info pos)
    next = unfold relative_log_pos_to_log_area_offset in ground arith

take_nil {ℓ} : (A : Type ℓ) (n : ℕ) → take {A = A} n [] ≡ []
take_nil A zero = refl
take_nil A (suc n) = refl

pub take-append-take {ℓ} :
    {A : Type ℓ} (k len : ℕ) (xs : List A)
    → k ≤ len
    → take k xs ++ take (len - k) (drop k xs) ≡ take len xs
take-append-take zero len xs h = ap (λ n. take n xs) (omega arith)
take-append-take (suc k) zero xs h = absurd (omega arith)
take-append-take {A = A} (suc k) (suc len) [] h = take_nil A (suc len - suc k)
take-append-take (suc k) (suc len) (x ∷ xs) h =
    let e : suc len - suc k ≡ len - k = omega arith in
    rw e (ap (λ t. x ∷ t) (take-append-take k len xs (omega arith)))

pub area_small :
    {m : Medium} {log_id : ℕ} {self : LogImpl} {s : AbstractLogState} (w : Wrpm)
    → IsValid m w.pm_region log_id self s
    → absolute_pos_of_log_area + self.info.log_area_len < u64_mod
area_small w v = omega (arith, v.metadata.fits, v.region_fits)
