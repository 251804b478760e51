-- ===== src/Examples/Transfers.antt =====
-- The theorems on releases, drops, exports and restores, at concrete states.
use state_spectre.Prelude.{◌⊎◌}
use state_spectre.Replies.{is_ok}
use state_spectre.Pull.Guards.{may_export, answers, Untouched}
use state_spectre.Prelude.{
  ℕ, ◌+◌, ◌≡◌, refl, true, false, ◌&&◌, not, none, some, List, [], ◌∷◌, ◌==◌, if◌then◌else◌, arith,
  nat_eq, list_eq, length, remove_elem,
}
use state_spectre.Prelude.Table.{find}
use state_spectre.State.{
  Daemon, Object, ObjectState, VersionKey, job_uid_Eq, version_key_Eq, version_key_eq, role_key_Eq,
}
use state_spectre.Objects.{
  find_object, in_transfer, release_object, with_holders, release_hold, nothing_released,
}
use state_spectre.Objects.Holders.{AllCounted}
use state_spectre.Objects.Releases.{transferring, release_object_lem, release_hold_lem}
use state_spectre.Retention.{
  enforce_sealed_retention, handle_drop_canonical_version, version_key, role_key,
}
use state_spectre.Retention.Kept.{retention-spares, points_to, drop_version_lem}
use state_spectre.Pull.{PullIo, PullRequest, export_object, handle_pull_tensor}
use state_spectre.Pull.Guards.{size_of, pull-sealed_member, pull-leaves}
use state_spectre.Restore.{RestoreIo, RestoreRequest}
use state_spectre.Catalog.Runs.{
  CanonicalCall, perform_all, perform_all-AllCounted, seal, pull, restore, drop_version, sweep,
}
use state_spectre.Examples.{no_io, uid, job, weights, version_three, with_object, sealed_state}

abbrev valid_state : Daemon
valid_state = with_object ObjectState.valid_pinned

abbrev sealed_weights : Object
sealed_weights = weights ObjectState.sealed

valid_state-AllCounted : AllCounted valid_state
unfolding find
valid_state-AllCounted id = ground arith

sealed_state-AllCounted : AllCounted sealed_state
unfolding find
sealed_state-AllCounted id = ground arith

release_object_lem_example :
    let o = weights ObjectState.valid_pinned in
    let (released, d') = release_object o valid_state in
    (released ≡ not (in_transfer o))
    × (d' ≡ (if in_transfer o then valid_state else d'))
    × ((id : ℕ)
        → find_object d' id
          ≡ (if not (in_transfer o) && o.object_id == id then none else find_object valid_state id))
    × ((id : ℕ)
        → find id d'.leases
          ≡ (if not (in_transfer o) && o.lease_id == id then none else find id valid_state.leases))
    × ((key : List ℕ)
        → find key d'.object_by_key ≡ (
            if not (in_transfer o) && list_eq.beq o.key_str key
            then none
            else find key valid_state.object_by_key))
release_object_lem_example = release_object_lem (weights ObjectState.valid_pinned) valid_state

release_hold_lem_example :
    let o = weights ObjectState.valid_pinned in
    let (d', r') = release_hold 1 (find_object valid_state 1) (valid_state, nothing_released) in
    let left = remove_elem 1 o.holders in
    let freed = length left == 0 && not (in_transfer o) in
    (find_object d' 1 ≡ (if freed then none else some (with_holders left o)))
    × (r'.released_count ≡ nothing_released.released_count + 1)
    × (r'.freed_count
        ≡ (if freed then nothing_released.freed_count + 1 else nothing_released.freed_count))
    × (r'.bytes_freed
        ≡ (if freed then nothing_released.bytes_freed + o.nbytes else nothing_released.bytes_freed))
unfolding find
release_hold_lem_example =
    release_hold_lem 1 1 valid_state nothing_released {o = weights ObjectState.valid_pinned} refl
      refl refl

retention-spares_example :
    (find version_three (enforce_sealed_retention uid 0 sealed_state).manifests
      ≡ find version_three sealed_state.manifests)
    × ((enforce_sealed_retention uid 0 sealed_state).latest_sealed ≡ sealed_state.latest_sealed)
unfolding find
retention-spares_example = retention-spares uid 0 version_three sealed_state refl

drop_version_lem_example :
    let d' = (handle_drop_canonical_version uid 0 3 sealed_state).0 in
    ((k : VersionKey)
      → find k d'.manifests
        ≡ (if version_key_eq (version_key uid 0 3) k then none else find k sealed_state.manifests))
    × (points_to 3 (find (role_key uid 0) d'.latest_sealed) ≡ false)
    × ((id : ℕ)
        → find_object d' id ≡ (
            if transferring (find_object sealed_state id)
            then find_object sealed_state id
            else find_object d' id))
unfolding find
drop_version_lem_example =
    drop_version_lem uid 0 3 sealed_state {job = job} sealed_state-AllCounted refl refl

abbrev pull_request : PullRequest
pull_request = record { job = uid; model_role = 0; model_version = 3; object_id = 1 }

abbrev quiet : PullIo
quiet = record {
  read_ok = true;
  while_reading = λ d. d;
  sent = λ id n. true;
  while_sending = λ d. d;
}

-- a pull of an object that the sealed manifest does not name
abbrev pull_other : PullRequest
pull_other = record pull_request { object_id = 2 }

pull-sealed_member_example :
    ((may_export pull_other sealed_state ≡ true)
      × (answers
            (size_of (find_object sealed_state 2))
            (handle_pull_tensor quiet pull_other sealed_state).1
          ≡ true))
    ⊎ ((may_export pull_other sealed_state ≡ false)
        × (is_ok (handle_pull_tensor quiet pull_other sealed_state).1 ≡ false)
        × Untouched sealed_state (handle_pull_tensor quiet pull_other sealed_state).0)
pull-sealed_member_example = pull-sealed_member quiet pull_other sealed_state

pull-leaves_example :
    find_object (export_object quiet pull_request uid sealed_weights sealed_state).0 1
    ≡ some sealed_weights
unfolding find
pull-leaves_example =
    pull-leaves quiet pull_request uid sealed_weights sealed_state (λ d. refl) (λ d. refl) refl refl
      refl refl

abbrev restore_request : RestoreRequest
restore_request = record { rank_id = 1; rank_epoch = 5; object_id = 1; gpu_id = 0; numa_node = 0 }

abbrev quiet_restore : RestoreIo
quiet_restore = record { drains = no_io; read_ok = true; while_reading = λ d. d }

abbrev calls : List CanonicalCall
calls =
    seal (record {
      job = uid;
      model_role = 0;
      model_version = 3;
      expected_param_ids = [];
      fail_if_missing = true;
      promote = true;
    })
    ∷ pull quiet pull_request
    ∷ restore quiet_restore restore_request
    ∷ sweep 20000000
    ∷ drop_version uid 0 3
    ∷ []

perform_all-AllCounted_example : AllCounted (perform_all calls valid_state)
perform_all-AllCounted_example =
    perform_all-AllCounted calls valid_state
      (tt, ((λ d h. h, λ d h. h), ((λ d h. h, λ i d h. h), (tt, (tt, tt))))) valid_state-AllCounted
