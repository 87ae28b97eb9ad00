-- ===== src/Log/Start/Checks.antt =====
-- pmemutil_v.rs: what a passed CRC check, and a boolean that was read, say.
use verified_storage.Base.{
  ℕ, ◌+◌, ◌≤◌, ◌<◌, ◌≡◌, sym, ap, ◌∙◌, ◌⊎◌, inl, inr, Bool, true, false, length, arith, List, suc,
  zero, seq_new, some, none, Option-cases, Bool-cases, ◌==◌, ==→eq, eq→==,
}
use verified_storage.Pmem.Bytes.{
  from_le_bytes, AreBytes, to_le_bytes-from_le_bytes, spec_u64_to_le_bytes,
}
use verified_storage.Pmem.View.{Mem, extract_bytes}
use verified_storage.Pmem.Medium.{
  Medium, IsSound, observe, AreBytes-observe, observe_impervious, length-observe, cdb_value,
}
use verified_storage.Log.Recover.{check_cdb}

-- Contents made of bytes.
abbrev pub OfBytes : Mem → Type 0
OfBytes mem = (a : ℕ) → mem.at a < 256

AreBytes-seq_new : (n : ℕ) (f : ℕ → ℕ) → ((i : ℕ) → f i < 256) → AreBytes (seq_new n f)
AreBytes-seq_new zero f h = tt
AreBytes-seq_new (suc n) f h = (h 0, AreBytes-seq_new n (λ i. f (suc i)) (λ i. h (suc i)))

pub AreBytes-extract_bytes :
    (mem : Mem) (pos len : ℕ) → OfBytes mem → AreBytes (extract_bytes mem pos len)
unfolding extract_bytes
AreBytes-extract_bytes mem pos len h =
    AreBytes-seq_new len (λ i. mem.at (pos + i)) (λ i. h (pos + i))

check_cdb_inv : (v : ℕ) (b : Bool) → check_cdb v ≡ some b → v ≡ cdb_value b
check_cdb_inv v true h = ground arith
check_cdb_inv v false h = ground arith

module _ {m : Medium} (sound : IsSound m) where
  -- A CRC that matches what was read shows that it is what was written.
  pub crc_match :
      (addr crc_addr : ℕ) (bs cs : List ℕ)
      → AreBytes bs
      → AreBytes cs
      → length cs ≡ 8
      → (crc_addr + 8 ≤ addr) ⊎ (addr + length bs ≤ crc_addr)
      → from_le_bytes cs ≡ m.crc bs
      → from_le_bytes (observe m crc_addr cs) ≡ m.crc (observe m addr bs)
      → observe m addr bs ≡ bs
  crc_match addr crc_addr bs cs hb hc eight apart stored seen =
      sound.crc_detects addr crc_addr bs apart (
        ap (λ t. observe m crc_addr (spec_u64_to_le_bytes t)) (sym stored)
        ∙ ap (observe m crc_addr) written
        ∙ sym found
        ∙ ap spec_u64_to_le_bytes seen)
    where
      written : spec_u64_to_le_bytes (from_le_bytes cs) ≡ cs
      written = rw eight at (to_le_bytes-from_le_bytes cs hc)

      found : spec_u64_to_le_bytes (from_le_bytes (observe m crc_addr cs)) ≡ observe m crc_addr cs
      found = rw (length-observe m crc_addr cs ∙ eight) at (
          to_le_bytes-from_le_bytes (observe m crc_addr cs) (AreBytes-observe sound crc_addr cs hc))

  -- Where the bytes stored for a CRC, apart from those it covers, are the CRC of the latter, either
  -- the bytes read are those stored, and the check of the CRC read passes, or the check fails, and
  -- the medium is not impervious to corruption.
  pub crc_check_cases :
      (addr crc_addr : ℕ) (bs cs : List ℕ)
      → AreBytes bs
      → AreBytes cs
      → length cs ≡ 8
      → (crc_addr + 8 ≤ addr) ⊎ (addr + length bs ≤ crc_addr)
      → from_le_bytes cs ≡ m.crc bs
      → ((observe m addr bs ≡ bs)
          × ((from_le_bytes (observe m crc_addr cs) == m.crc (observe m addr bs)) ≡ true))
        ⊎ (((from_le_bytes (observe m crc_addr cs) == m.crc (observe m addr bs)) ≡ false)
            × (m.impervious_to_corruption ≡ false))
  crc_check_cases addr crc_addr bs cs hb hc eight apart stored =
      elim (Bool-cases (from_le_bytes (observe m crc_addr cs) == m.crc (observe m addr bs))) [
        | inl pass ↦ inl (
          crc_match addr crc_addr bs cs hb hc eight apart stored
              (==→eq (from_le_bytes (observe m crc_addr cs)) (m.crc (observe m addr bs)) pass),
          pass,
        )
        | inr fail ↦ inr (fail, corrupted fail (Bool-cases m.impervious_to_corruption))
      ]
    where
      corrupted :
          (from_le_bytes (observe m crc_addr cs) == m.crc (observe m addr bs)) ≡ false
          → (m.impervious_to_corruption ≡ true) ⊎ (m.impervious_to_corruption ≡ false)
          → m.impervious_to_corruption ≡ false
      corrupted fail (inr h) = h
      corrupted fail (inl h) = cc (
        fail,
        eq→== (from_le_bytes (observe m crc_addr cs)) (m.crc (observe m addr bs)) (
            ap from_le_bytes (observe_impervious sound h crc_addr cs)
            ∙ stored
            ∙ ap m.crc (sym (observe_impervious sound h addr bs))),
      )

  -- Where eight bytes are stored that encode a corruption-detecting boolean, either what is read
  -- encodes the same boolean, or it encodes none, and the medium is not impervious to corruption.
  pub read_cdb_cases :
      (addr : ℕ) (bs : List ℕ) (b : Bool)
      → AreBytes bs
      → length bs ≡ 8
      → check_cdb (from_le_bytes bs) ≡ some b
      → (check_cdb (from_le_bytes (observe m addr bs)) ≡ some b)
        ⊎ ((check_cdb (from_le_bytes (observe m addr bs)) ≡ none)
            × (m.impervious_to_corruption ≡ false))
  read_cdb_cases addr bs b hb eight stored =
      cases (Option-cases (check_cdb (from_le_bytes (observe m addr bs))))
        (Bool-cases m.impervious_to_corruption)
    where
      written : spec_u64_to_le_bytes (cdb_value b) ≡ bs
      written =
          ap spec_u64_to_le_bytes (sym (check_cdb_inv (from_le_bytes bs) b stored))
          ∙ (rw eight at (to_le_bytes-from_le_bytes bs hb))

      found : spec_u64_to_le_bytes (from_le_bytes (observe m addr bs)) ≡ observe m addr bs
      found =
          rw (length-observe m addr bs ∙ eight) at
            (to_le_bytes-from_le_bytes (observe m addr bs) (AreBytes-observe sound addr bs hb))

      same : (c : Bool) → check_cdb (from_le_bytes (observe m addr bs)) ≡ some c → c ≡ b
      same c e = sound.cdb_detects addr b c (
          ap (observe m addr) written
          ∙ sym found
          ∙ ap spec_u64_to_le_bytes (check_cdb_inv (from_le_bytes (observe m addr bs)) c e))

      cases :
          (check_cdb (from_le_bytes (observe m addr bs)) ≡ none)
            ⊎ ((c : Bool) × (check_cdb (from_le_bytes (observe m addr bs)) ≡ some c))
          → (m.impervious_to_corruption ≡ true) ⊎ (m.impervious_to_corruption ≡ false)
          → (check_cdb (from_le_bytes (observe m addr bs)) ≡ some b)
            ⊎ ((check_cdb (from_le_bytes (observe m addr bs)) ≡ none)
                × (m.impervious_to_corruption ≡ false))
      cases (inr (c, e)) i = inl (e ∙ ap some (same c e))
      cases (inl e) (inr i) = inr (e, i)
      cases (inl e) (inl i) =
          cc (e, stored, ap (λ t. check_cdb (from_le_bytes t)) (observe_impervious sound i addr bs))
