-- ===== src/Multilog/Recovered.antt =====
-- layout_v.rs of the multilog: what a recovered state is made of.
use verified_storage.Base.{
  ℕ, zero, suc, ◌+◌, ◌<◌, ◌≡◌, refl, sym, ap, ◌∙◌, inl, inr, Bool, Option, none, some, Option-cases,
  List, [], ◌∷◌, length, get_or, arith,
}
use verified_storage.Pmem.View.{Mem}
use verified_storage.Pmem.Regions.{no_mem}
use verified_storage.Pmem.Medium.{Medium}
use verified_storage.Log.Spec.{AbstractLogState, initialize}
use verified_storage.Multilog.Spec.{AbstractMultiLogState, num_logs}
use verified_storage.Multilog.Layout.{deserialize_region_metadata}
use verified_storage.Multilog.Recover.{
  and_states, recover_abstract_log_from_region_given_cdb, recover_regions, recover_given_cdb,
  recover_cdb, recover_all,
}

and_states_inv :
    (first : Option AbstractLogState) (rest : Option (List AbstractLogState))
    {states : List AbstractLogState}
    → and_states first rest ≡ some states
    → (s : AbstractLogState) × (others : List AbstractLogState) × (first ≡ some s)
      × (rest ≡ some others)
      × (states ≡ s ∷ others)
and_states_inv none rest h = absurd (cc h)
and_states_inv (some s) none h = absurd (cc h)
and_states_inv (some s) (some others) h = (s, others, refl, refl, cc h)

-- The logs are those that the regions give at their indices.
abbrev pub AreLogsOf : Medium → List Mem → ℕ → ℕ → ℕ → Bool → List AbstractLogState → Type 0
AreLogsOf m mems multilog_id count first cdb states =
    (length states ≡ length mems)
    × ((i : ℕ)
        → i < length mems
        → recover_abstract_log_from_region_given_cdb m (get_or mems i no_mem) multilog_id count
            (first + i) cdb
          ≡ some (get_or states i (initialize 0)))

recover_regions_inv :
    (m : Medium) (mems : List Mem) (multilog_id count first : ℕ) (cdb : Bool)
    (states : List AbstractLogState)
    → recover_regions m mems multilog_id count first cdb ≡ some states
    → AreLogsOf m mems multilog_id count first cdb states
unfolding recover_regions
recover_regions_inv m [] multilog_id count first cdb states h =
    (sym (ap (λ o. elim o [ some xs ↦ length xs | none ↦ 0 ]) h), λ i lt. absurd (omega arith))
recover_regions_inv m (mem ∷ mems) multilog_id count first cdb states h =
    let (s, others, here, there, e) =
      and_states_inv (recover_abstract_log_from_region_given_cdb m mem multilog_id count first cdb)
        (recover_regions m mems multilog_id count (suc first) cdb) h in
    let (len, each) = recover_regions_inv m mems multilog_id count (suc first) cdb others there in
    rw e (ap suc len, at s others here each)
  where
    at :
        (s : AbstractLogState) (others : List AbstractLogState)
        → recover_abstract_log_from_region_given_cdb m mem multilog_id count first cdb ≡ some s
        → ((i : ℕ)
            → i < length mems
            → recover_abstract_log_from_region_given_cdb m
                (get_or mems i no_mem)
                multilog_id
                count
                (suc first + i)
                cdb
              ≡ some (get_or others i (initialize 0)))
        → (i : ℕ) → i < suc (length mems)
        → recover_abstract_log_from_region_given_cdb m
            (get_or (mem ∷ mems) i no_mem)
            multilog_id
            count
            (first + i)
            cdb
          ≡ some (get_or (s ∷ others) i (initialize 0))
    at s others here each zero lt =
        ap (λ k. recover_abstract_log_from_region_given_cdb m mem multilog_id count k cdb)
          (omega arith)
        ∙ here
    at s others here each (suc i) lt =
        ap
          (λ k.
            recover_abstract_log_from_region_given_cdb m (get_or mems i no_mem) multilog_id count k
              cdb)
          (omega arith)
        ∙ each i (omega arith)

recover_given_cdb_inv :
    (m : Medium) (mems : List Mem) (multilog_id : ℕ) (cdb : Bool) (s : AbstractMultiLogState)
    → recover_given_cdb m mems multilog_id cdb ≡ some s
    → recover_regions m mems multilog_id (length mems) 0 cdb ≡ some s.states
unfolding recover_given_cdb
recover_given_cdb_inv m mems multilog_id cdb s h =
    elim (Option-cases (recover_regions m mems multilog_id (length mems) 0 cdb)) [
      | inl e ↦ absurd (cc (sym h ∙ none_of e))
      | inr (states, e) ↦
          e ∙ ap (λ o. elim o [ some t ↦ some t.states | none ↦ none ]) (sym (some_of states e) ∙ h)
    ]
  where
    none_of :
        recover_regions m mems multilog_id (length mems) 0 cdb ≡ none
        → recover_given_cdb m mems multilog_id cdb ≡ none
    none_of e = rw (e, recover_given_cdb)

    some_of :
        (states : List AbstractLogState)
        → recover_regions m mems multilog_id (length mems) 0 cdb ≡ some states
        → recover_given_cdb m mems multilog_id cdb ≡ some (record { states = states })
    some_of states e = rw (e, recover_given_cdb)

-- A multilog that is recovered has a log for each region, which is what the region gives at its
-- index, and all of them with the boolean that is read from the first region.
pub recover_all-AreLogsOf :
    (m : Medium) (mems : List Mem) (multilog_id : ℕ) (s : AbstractMultiLogState)
    → recover_all m mems multilog_id ≡ some s
    → (cdb : Bool) × (recover_cdb m (get_or mems 0 no_mem) ≡ some cdb)
      × AreLogsOf m mems multilog_id (length mems) 0 cdb s.states
unfolding recover_all
recover_all-AreLogsOf m [] multilog_id s h = absurd (cc h)
recover_all-AreLogsOf m (mem ∷ mems) multilog_id s h = elim (Option-cases (recover_cdb m mem)) [
  | inl e ↦ absurd (failed e)
  | inr (cdb, e) ↦ (
    cdb,
    e,
    recover_regions_inv m (mem ∷ mems) multilog_id (length (mem ∷ mems)) 0 cdb s.states
        (recover_given_cdb_inv m (mem ∷ mems) multilog_id cdb s (found cdb e)),
  )
]
  where
    failed : recover_cdb m mem ≡ none → ⊥
    failed e = ground arith

    found :
        (cdb : Bool)
        → recover_cdb m mem ≡ some cdb
        → recover_given_cdb m (mem ∷ mems) multilog_id cdb ≡ some s
    found cdb e = ground arith

-- A region that gives a log was set up as that region of that multilog.
region_identity :
    (m : Medium) (mem : Mem) (multilog_id count which_log : ℕ) (cdb : Bool) {s : AbstractLogState}
    → recover_abstract_log_from_region_given_cdb m mem multilog_id count which_log cdb ≡ some s
    → ((deserialize_region_metadata mem).multilog_id ≡ multilog_id)
      × ((deserialize_region_metadata mem).num_logs ≡ count)
      × ((deserialize_region_metadata mem).which_log ≡ which_log)
unfolding recover_abstract_log_from_region_given_cdb
region_identity m mem multilog_id count which_log cdb h = ground arith

-- Where a multilog is recovered, the metadata of every region has the identifier of the multilog,
-- the number of regions, and the index of the region.
pub recover_all_in_order :
    (m : Medium) (mems : List Mem) (multilog_id : ℕ) (s : AbstractMultiLogState) (i : ℕ)
    → recover_all m mems multilog_id ≡ some s
    → i < length mems
    → let g = deserialize_region_metadata (get_or mems i no_mem) in
      (g.multilog_id ≡ multilog_id) × (g.num_logs ≡ num_logs s) × (g.which_log ≡ i)
recover_all_in_order m mems multilog_id s i h lt =
    let (cdb, _, (len, each)) = recover_all-AreLogsOf m mems multilog_id s h in
    let (same_id, same_count, same_index) =
      region_identity m (get_or mems i no_mem) multilog_id (length mems) (0 + i) cdb (each i lt) in
    (same_id, same_count ∙ sym len, same_index ∙ omega arith)
