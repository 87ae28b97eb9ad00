-- ===== src/Pmem/View.antt =====
-- pmemspec_t.rs: the view of a persistent memory region. A region is a length and a byte for each
-- address; only the addresses below the length mean anything. Its contents, `Mem`, are a `Seq<u8>`
-- in the same form.
use Prim.Native.Nat.{◌/◌}
use verified_storage.Base.{
  ℕ, ◌+◌, ◌-◌, ◌≤◌, ◌<◌, ◌≡◌, refl, ap, ◌⊎◌, ◌&&◌, Option, none, some, List, leb, ltb,
  if◌then◌else◌, length, get_or, seq_new, length-seq_new, seq_new_ext, seq_new-get_or, arith,
}

pub record PersistentMemoryByte : Type 0 where
  pub state_at_last_flush : ℕ
  pub outstanding_write : Option ℕ

abbrev pub write_byte : PersistentMemoryByte → ℕ → PersistentMemoryByte
write_byte b v = record b { outstanding_write = some v }

abbrev pub flush_byte : PersistentMemoryByte → ℕ
flush_byte b = elim b.outstanding_write [ none ↦ b.state_at_last_flush | some v ↦ v ]

pub record Region : Type 0 where
  pub len : ℕ
  pub state : ℕ → PersistentMemoryByte

pub record Mem : Type 0 where
  pub len : ℕ
  pub at : ℕ → ℕ

unfoldable pub write : Region → ℕ → List ℕ → Region
write r addr bytes = record r {
  state = λ pos.
      if leb addr pos && ltb pos (addr + length bytes)
      then write_byte (r.state pos) (get_or bytes (pos - addr) 0)
      else r.state pos;
}

unfoldable pub flush : Region → Region
flush r = record r {
  state =
      λ pos. record { state_at_last_flush = flush_byte (r.state pos); outstanding_write = none };
}

abbrev pub NoOutstandingWritesInRange : Region → ℕ → ℕ → Type 0
NoOutstandingWritesInRange r i j = (k : ℕ) → i ≤ k → k < j → (r.state k).outstanding_write ≡ none

abbrev pub NoOutstandingWrites : Region → Type 0
NoOutstandingWrites r = NoOutstandingWritesInRange r 0 r.len

abbrev pub committed : Region → Mem
committed r = record { len = r.len; at = λ a. (r.state a).state_at_last_flush }

-- The address range of a persistence chunk is `addr / 8 ≡ chunk`.
abbrev pub const_persistence_chunk_size : ℕ
const_persistence_chunk_size = 8

abbrev pub ChunkIgnoringOutstandingWrites : Region → ℕ → Mem → Type 0
ChunkIgnoringOutstandingWrites r chunk m =
    (addr : ℕ)
    → addr < r.len
    → addr / const_persistence_chunk_size ≡ chunk
    → m.at addr ≡ (r.state addr).state_at_last_flush

abbrev pub ChunkAfterFlush : Region → ℕ → Mem → Type 0
ChunkAfterFlush r chunk m =
    (addr : ℕ)
    → addr < r.len
    → addr / const_persistence_chunk_size ≡ chunk
    → m.at addr ≡ flush_byte (r.state addr)

-- Each chunk is flushed or not, as a whole.
pub record CanCrashAs (r : Region) (m : Mem) : Type 0 where
  pub same_len : m.len ≡ r.len
  pub chunks : (chunk : ℕ) → ChunkIgnoringOutstandingWrites r chunk m ⊎ ChunkAfterFlush r chunk m

-- `mem.subrange(pos, pos + len)`
unfoldable pub extract_bytes : Mem → ℕ → ℕ → List ℕ
extract_bytes mem pos len = seq_new len (λ i. mem.at (pos + i))

-- A byte of a region that was written, and one that was not.
pub write_in :
    (r : Region) (addr : ℕ) (bytes : List ℕ) (pos : ℕ)
    → addr ≤ pos
    → pos < addr + length bytes
    → (write r addr bytes).state pos ≡ write_byte (r.state pos) (get_or bytes (pos - addr) 0)
unfolding write
write_in r addr bytes pos h k = ground arith

pub write_out :
    (r : Region) (addr : ℕ) (bytes : List ℕ) (pos : ℕ)
    → (pos < addr) ⊎ (addr + length bytes ≤ pos)
    → (write r addr bytes).state pos ≡ r.state pos
unfolding write
write_out r addr bytes pos h = ground arith

settled_byte-write :
    (r : Region) (addr : ℕ) (bytes : List ℕ) (pos : ℕ)
    → ((write r addr bytes).state pos).state_at_last_flush ≡ (r.state pos).state_at_last_flush
unfolding write
settled_byte-write r addr bytes pos = ground arith

-- A write never changes what is committed.
pub committed-write :
    (r : Region) (addr : ℕ) (bytes : List ℕ) → committed (write r addr bytes) ≡ committed r
unfolding write
committed-write r addr bytes =
    λ i. record { len = r.len; at = λ a. settled_byte-write r addr bytes a i }

pub len-write : (r : Region) (addr : ℕ) (bytes : List ℕ) → (write r addr bytes).len ≡ r.len
unfolding write
len-write r addr bytes = refl

pub length-extract_bytes : (mem : Mem) (pos len : ℕ) → length (extract_bytes mem pos len) ≡ len
unfolding extract_bytes
length-extract_bytes mem pos len = length-seq_new len (λ i. mem.at (pos + i))

-- Contents that agree on a range have the same bytes there.
abbrev pub AgreeIn : Mem → Mem → ℕ → ℕ → Type 0
AgreeIn a b lo hi = (k : ℕ) → lo ≤ k → k < hi → a.at k ≡ b.at k

pub extract_bytes_agree :
    (a b : Mem) (pos len : ℕ)
    → AgreeIn a b pos (pos + len)
    → extract_bytes a pos len ≡ extract_bytes b pos len
unfolding extract_bytes
extract_bytes_agree a b pos len h =
    seq_new_ext len (λ i. a.at (pos + i)) (λ i. b.at (pos + i))
      (λ i lt. h (pos + i) (omega arith) (omega arith))

-- Contents that hold a list at a position.
pub extract_bytes_of_list :
    (mem : Mem) (pos : ℕ) (bytes : List ℕ) (len : ℕ)
    → length bytes ≡ len
    → ((i : ℕ) → i < len → mem.at (pos + i) ≡ get_or bytes i 0)
    → extract_bytes mem pos len ≡ bytes
unfolding extract_bytes
extract_bytes_of_list mem pos bytes len e h = seq_new-get_or bytes len (λ i. mem.at (pos + i)) 0 e h

-- A byte of a flushed region.
pub flush_state :
    (r : Region) (pos : ℕ)
    → (flush r).state pos
      ≡ record { state_at_last_flush = flush_byte (r.state pos); outstanding_write = none }
unfolding flush
flush_state r pos = refl

pub len-flush : (r : Region) → (flush r).len ≡ r.len
unfolding flush
len-flush r = refl

pub settled-flush : (r : Region) (pos : ℕ) → ((flush r).state pos).outstanding_write ≡ none
unfolding flush
settled-flush r pos = refl

-- Where no write is outstanding, a flush changes nothing.
pub committed-flush_settled :
    (r : Region) (pos : ℕ)
    → (r.state pos).outstanding_write ≡ none
    → (committed (flush r)).at pos ≡ (committed r).at pos
unfolding flush
committed-flush_settled r pos h = rw (h, flush_byte) refl

pub flush_byte-flush :
    (r : Region) (pos : ℕ) → flush_byte ((flush r).state pos) ≡ flush_byte (r.state pos)
unfolding flush
flush_byte-flush r pos = refl

-- The bytes written are what the contents have there after a flush
-- (`lemma_write_reflected_after_flush_committed`).
pub extract_bytes-write :
    (r : Region) (addr : ℕ) (bytes : List ℕ) (len : ℕ)
    → length bytes ≡ len
    → extract_bytes (committed (flush (write r addr bytes))) addr len ≡ bytes
unfolding flush
extract_bytes-write r addr bytes len e =
    extract_bytes_of_list (committed (flush (write r addr bytes))) addr bytes len e
      (λ i lt. at_written i (omega arith))
  where
    at_written :
        (i : ℕ)
        → i < length bytes
        → (committed (flush (write r addr bytes))).at (addr + i) ≡ get_or bytes i 0
    at_written i lt =
        rw (write_in r addr bytes (addr + i) (omega arith) (omega arith), flush_byte)
          (ap (λ k. get_or bytes k 0) (omega arith))

pub committed-flush :
    (r : Region) (pos : ℕ) → (committed (flush r)).at pos ≡ flush_byte (r.state pos)
unfolding flush
committed-flush r pos = refl
