-- ===== src/Pmem/Mock.antt =====
-- pmemmock_t.rs: a vector of bytes in place of persistent memory. A write overwrites it at once; its
-- view pretends that writes stay outstanding.
use verified_storage.Base.{
  ℕ, ◌+◌, ◌-◌, ◌≤◌, ◌<◌, ◌≡◌, sym, ap, ◌∙◌, ◌⊎◌, inl, inr, List, ◌++◌, length, get_or, take, drop,
  seq_new, arith, length-append, length-take, length-drop, get_or-append_left, get_or-append_right,
  get_or-take, get_or-drop, lt_or_le,
}
use verified_storage.Pmem.View
use verified_storage.Pmem.View.{
  Region, flush_byte, flush_byte-flush, extract_bytes_of_list, committed, committed-flush, write_in,
  write_out, len-write, len-flush, extract_bytes, NoOutstandingWritesInRange,
  committed-flush_settled,
}

pub record Mock : Type 0 where
  pub contents : List ℕ

-- `vec![0; region_size]`
unfoldable pub new : ℕ → Mock
new region_size = record { contents = seq_new region_size (λ i. 0) }

abbrev pub get_region_size : Mock → ℕ
get_region_size mock = length mock.contents

unfoldable pub read : Mock → ℕ → ℕ → List ℕ
read mock addr num_bytes = take num_bytes (drop addr mock.contents)

-- `splice(addr .. addr + bytes.len(), bytes)`
unfoldable pub write : Mock → ℕ → List ℕ → Mock
write mock addr bytes = record {
  contents = take addr mock.contents ++ (bytes ++ drop (addr + length bytes) mock.contents);
}

unfoldable pub flush : Mock → Mock
flush mock = mock

-- The contents are those of the view after a flush (`inv`).
pub record IsMockOf (mock : Mock) (r : Region) : Type 0 where
  pub same_len : length mock.contents ≡ r.len
  pub same_bytes : (a : ℕ) → a < r.len → get_or mock.contents a 0 ≡ (committed (View.flush r)).at a

module _ (mock : Mock) (addr : ℕ) (bytes : List ℕ)
    (inside : addr + length bytes ≤ length mock.contents) where
  front_len : length (take addr mock.contents) ≡ addr
  front_len = length-take addr mock.contents (omega arith)

  length-write : length (write mock addr bytes).contents ≡ length mock.contents
  unfolding write
  length-write = omega (
    arith,
    length-append (take addr mock.contents) (bytes ++ drop (addr + length bytes) mock.contents),
    length-append bytes (drop (addr + length bytes) mock.contents),
    front_len,
    length-drop (addr + length bytes) mock.contents,
  )

  write_before :
      (a : ℕ) → a < addr → get_or (write mock addr bytes).contents a 0 ≡ get_or mock.contents a 0
  unfolding write
  write_before a h =
      get_or-append_left (take addr mock.contents) _ a 0 (omega (arith, front_len))
      ∙ get_or-take addr mock.contents a 0 h

  write_at :
      (a : ℕ)
      → addr ≤ a
      → a < addr + length bytes
      → get_or (write mock addr bytes).contents a 0 ≡ get_or bytes (a - addr) 0
  unfolding write
  write_at a h k =
      get_or-append_right (take addr mock.contents) _ a 0 (omega (arith, front_len))
      ∙ get_or-append_left bytes _ _ 0 (omega (arith, front_len))
      ∙ ap (λ i. get_or bytes (a - i) 0) front_len

  write_behind :
      (a : ℕ)
      → addr + length bytes ≤ a
      → get_or (write mock addr bytes).contents a 0 ≡ get_or mock.contents a 0
  unfolding write
  write_behind a h =
      get_or-append_right (take addr mock.contents) _ a 0 (omega (arith, front_len))
      ∙ get_or-append_right bytes _ _ 0 (omega (arith, front_len))
      ∙ get_or-drop (addr + length bytes) mock.contents _ 0
      ∙ ap (λ i. get_or mock.contents i 0) (omega (arith, front_len))

-- A write to the mock, inside the region, is a write to its view.
pub write-IsMockOf :
    (mock : Mock) (r : Region) (addr : ℕ) (bytes : List ℕ)
    → IsMockOf mock r
    → addr + length bytes ≤ r.len
    → IsMockOf (write mock addr bytes) (View.write r addr bytes)
write-IsMockOf mock r addr bytes v h = record {
  same_len = length-write mock addr bytes inside ∙ v.same_len ∙ sym (len-write r addr bytes);
  same_bytes = λ a lt.
      same a (rw len-write at lt) (lt_or_le a addr) (lt_or_le a (addr + length bytes))
      ∙ sym (committed-flush (View.write r addr bytes) a);
}
  where
    inside : addr + length bytes ≤ length mock.contents
    inside = omega (arith, v.same_len)

    old : (a : ℕ) → a < r.len → get_or mock.contents a 0 ≡ flush_byte (r.state a)
    old a lt = v.same_bytes a lt ∙ committed-flush r a

    same :
        (a : ℕ)
        → a < r.len
        → (a < addr) ⊎ (addr ≤ a)
        → (a < addr + length bytes) ⊎ (addr + length bytes ≤ a)
        → get_or (write mock addr bytes).contents a 0
          ≡ flush_byte ((View.write r addr bytes).state a)
    same a lt (inl before) _ =
        write_before mock addr bytes inside a before
        ∙ old a lt
        ∙ ap flush_byte (sym (write_out r addr bytes a (inl before)))
    same a lt (inr lo) (inl hi) =
        write_at mock addr bytes inside a lo hi
        ∙ ap flush_byte (sym (write_in r addr bytes a lo hi))
    same a lt (inr lo) (inr behind) =
        write_behind mock addr bytes inside a behind
        ∙ old a lt
        ∙ ap flush_byte (sym (write_out r addr bytes a (inr behind)))

-- A flush of the mock, which does nothing, is a flush of its view.
pub flush-IsMockOf :
    (mock : Mock) (r : Region) → IsMockOf mock r → IsMockOf (flush mock) (View.flush r)
unfolding flush
flush-IsMockOf mock r v = record {
  same_len = v.same_len ∙ sym (len-flush r);
  same_bytes = λ a lt.
      v.same_bytes a (rw len-flush at lt)
      ∙ committed-flush r a
      ∙ sym (flush_byte-flush r a)
      ∙ sym (committed-flush (View.flush r) a);
}

-- A read of the mock, inside the region and where no write is outstanding, returns what its view has
-- committed.
pub read-committed :
    (mock : Mock) (r : Region) (addr num_bytes : ℕ)
    → IsMockOf mock r
    → addr + num_bytes ≤ r.len
    → NoOutstandingWritesInRange r addr (addr + num_bytes)
    → read mock addr num_bytes ≡ extract_bytes (committed r) addr num_bytes
unfolding read
read-committed mock r addr num_bytes v inside settled = sym (
    extract_bytes_of_list (committed r) addr (take num_bytes (drop addr mock.contents)) num_bytes
      (length-take num_bytes (drop addr mock.contents)
        (omega (arith, length-drop addr mock.contents, v.same_len)))
      (λ i lt. sym (
        get_or-take num_bytes (drop addr mock.contents) i 0 lt
        ∙ get_or-drop addr mock.contents i 0
        ∙ v.same_bytes (addr + i) (omega arith)
        ∙ committed-flush_settled r (addr + i) (settled (addr + i) (omega arith) (omega arith)))))
