-- ===== src/Log/Spec.antt =====
-- logspec_t.rs: the abstract state of a log, and what each operation does to it.
use verified_storage.Base.{ℕ, ◌-◌, List, [], ◌++◌, take, drop}

pub record AbstractLogState : Type 0 where
  pub head : ℕ
  pub log : List ℕ
  pub pending : List ℕ
  pub capacity : ℕ

abbrev pub initialize : ℕ → AbstractLogState
initialize capacity = record { head = 0; log = []; pending = []; capacity = capacity }

abbrev pub tentatively_append : AbstractLogState → List ℕ → AbstractLogState
tentatively_append s bytes = record s { pending = s.pending ++ bytes }

abbrev pub commit : AbstractLogState → AbstractLogState
commit s = record s { log = s.log ++ s.pending; pending = [] }

-- `subrange(new_head - head, log.len())`
abbrev pub advance_head : AbstractLogState → ℕ → AbstractLogState
advance_head s new_head = record s { head = new_head; log = drop (new_head - s.head) s.log }

-- `subrange(pos - head, pos - head + len)`
abbrev pub read : AbstractLogState → ℕ → ℕ → List ℕ
read s pos len = take len (drop (pos - s.head) s.log)

abbrev pub drop_pending_appends : AbstractLogState → AbstractLogState
drop_pending_appends s = record s { pending = [] }
