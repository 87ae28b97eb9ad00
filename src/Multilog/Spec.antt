-- ===== src/Multilog/Spec.antt =====
-- multilogspec_t.rs: the abstract state of a multilog. That of one of its logs is the abstract state
-- of a single log, which the file declares anew.
use verified_storage.Base.{ℕ, List, map, length, get_or, update}
use verified_storage.Log.Spec
use verified_storage.Log.Spec.{AbstractLogState}

pub record AbstractMultiLogState : Type 0 where
  pub states : List AbstractLogState

-- An index out of range gives an empty log.
abbrev pub log_at : AbstractMultiLogState → ℕ → AbstractLogState
log_at s which_log = get_or s.states which_log (Spec.initialize 0)

abbrev pub num_logs : AbstractMultiLogState → ℕ
num_logs s = length s.states

abbrev pub initialize : List ℕ → AbstractMultiLogState
initialize capacities = record { states = map Spec.initialize capacities }

abbrev pub tentatively_append : AbstractMultiLogState → ℕ → List ℕ → AbstractMultiLogState
tentatively_append s which_log bytes = record {
  states = update s.states which_log (Spec.tentatively_append (log_at s which_log) bytes);
}

abbrev pub commit : AbstractMultiLogState → AbstractMultiLogState
commit s = record { states = map Spec.commit s.states }

abbrev pub advance_head : AbstractMultiLogState → ℕ → ℕ → AbstractMultiLogState
advance_head s which_log new_head = record {
  states = update s.states which_log (Spec.advance_head (log_at s which_log) new_head);
}

abbrev pub read : AbstractMultiLogState → ℕ → ℕ → ℕ → List ℕ
read s which_log pos len = Spec.read (log_at s which_log) pos len

abbrev pub drop_pending_appends : AbstractMultiLogState → AbstractMultiLogState
drop_pending_appends s = record { states = map Spec.drop_pending_appends s.states }
