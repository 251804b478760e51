-- ===== src/Examples/ObjectsAndVersions.antt =====
-- The theorems on canonical objects and model versions, at concrete states.
use state_spectre.Seal.{covers, covers_all, seal_gathered}
use state_spectre.Commit.{commit_creator}
use state_spectre.Slots.{
  alloc_scan, allocate_slots, busy_at, local_slots, slots_for_bytes, try_alloc_in_window,
}
use state_spectre.Drain.{allocate_or_drain}
use state_spectre.Evict.{place_canonical, quota_allows_pinned, reserve}
use state_spectre.Prelude.{
  List, ℕ, ◌+◌, ◌^◌, ◌≡◌, refl, true, false, ◌&&◌, none, some, [], ◌∷◌, if◌then◌else◌, arith,
  nat_eq, list_eq, mem,
}
use state_spectre.Prelude.Table.{find}
use state_spectre.State.{
  JobRecord, Daemon, Lease, Object, ObjectState, Manifest, job_uid_Eq, version_key_Eq, role_key_Eq,
  is_readable, is_creating, is_sealed, is_attachable, canonical_tid,
}
use state_spectre.Leases.{epoch_valid, find_lease}
use state_spectre.Offload.{OffloadGrant}
use state_spectre.Objects.{find_job, find_object}
use state_spectre.Objects.Holders.{AllCounted}
use state_spectre.Objects.Releases.{holds}
use state_spectre.Evict.{EvictRequest, create_object, handle_request_canonical_evict}
use state_spectre.Seal.Immutable.{is_refused, Refused, evict-seal}
use state_spectre.Evict.Outcomes.{create_object-enters}
use state_spectre.Commit.{
  CommitRequest, attached, hashes_agree, commit_candidate, handle_commit_canonical_object,
}
use state_spectre.Commit.Outcomes.{creates, live, commit-won, commit-candidate}
use state_spectre.Seal.{
  seal_members, sort_asc, insert_asc, seal_member, SealRequest, gather, seal_version,
  handle_seal_model_version,
}
use state_spectre.Retention.{version_key}
use state_spectre.Seal.Listing.{
  ManifestFilter, ManifestEntry, entry_of, list_members, handle_get_manifest, lists, chosen,
  get_manifest-lists,
}
use state_spectre.Objects.Holders.{distinct}
use state_spectre.Seal.Members.{readable_of, bytes_at}
use state_spectre.Seal.Sealed.{ascending, frozen}
use state_spectre.Seal.Published.{seal_version-freezes, seal-fails}
use state_spectre.Replies.{Reply, ok, err}
use state_spectre.Examples.{
  idle, no_io, uid, job, key, lease_two, weights, version_three, sealed_three, with_object,
  sealed_state,
}

abbrev evict : EvictRequest
evict = record {
  rank_id = 1;
  rank_epoch = 5;
  key = key;
  gpu_id = 0;
  numa_node = 0;
  dedup_mode = 0;
  attach_if_exists = true;
  create_if_missing = true;
  allow_duplicate_candidate = false;
}

abbrev second_rank : EvictRequest
second_rank = record evict { rank_id = 2 }

abbrev valid_state : Daemon
valid_state = with_object ObjectState.valid_pinned

abbrev valid_weights : Object
valid_weights = weights ObjectState.valid_pinned

abbrev grant : OffloadGrant
grant = record { lease_id = 1; slot_id = 0; arena_id = 0; arena_offset = 0; capacity = 4096 }

create_object-enters_example :
    let d' = (create_object no_io evict job (49 ∷ []) idle).0 in
    (1 ≡ idle.next_object_id)
    × (2 ^ 63 + 1 ≡ canonical_tid 1)
    × (find (49 ∷ []) d'.object_by_key ≡ some 1)
    × ((o : Object) × (find_object d' 1 ≡ some o)
        × (is_creating o.state ≡ true)
        × (o.holders ≡ 1 ∷ [])
        × (o.refcount ≡ 1)
        × (o.creating_rank ≡ 1)
        × (o.lease_id ≡ grant.lease_id)
        × (o.base_slot ≡ grant.slot_id)
        × (o.synthetic_tid ≡ 2 ^ 63 + 1))
unfolding create_object reserve quota_allows_pinned place_canonical allocate_or_drain allocate_slots
    local_slots find try_alloc_in_window slots_for_bytes alloc_scan busy_at
create_object-enters_example =
    create_object-enters no_io evict job (49 ∷ []) idle {id = 1} {tid = 2 ^ 63 + 1} {g = grant} refl

abbrev creating_state : Daemon
creating_state = with_object ObjectState.creating

abbrev commit_request : CommitRequest
commit_request = record {
  rank_id = 1;
  rank_epoch = 5;
  object_id = 1;
  lease_id = 1;
  content_hash_lo = 21;
  content_hash_hi = 22;
}

commit-won_example :
    (creates commit_request (weights ObjectState.creating) ≡ true)
    × (live (find (2 ^ 63 + 1) creating_state.locations) ≡ true)
    × ((o' : Object) × (find_object
            (handle_commit_canonical_object commit_request creating_state).0
            1
          ≡ some o')
        × (is_readable o'.state ≡ true)
        × (o'.content_hash_lo ≡ 21)
        × (o'.content_hash_hi ≡ 22)
        × (o'.holders ≡ 1 ∷ []))
unfolding find handle_commit_canonical_object epoch_valid commit_creator
commit-won_example =
    commit-won commit_request creating_state {o = weights ObjectState.creating} refl refl refl

-- a candidate of rank 2 under lease 9, on slot 1
abbrev candidate_lease : Lease
candidate_lease = record lease_two {
  lease_id = 9;
  base_slot = 1;
  slot_count = 1;
  owner_rank = 2;
  tensor_id = 2 ^ 63 + 2 ^ 62 + 2;
}

abbrev with_candidate : Daemon
with_candidate = record valid_state { leases = (9, candidate_lease) ∷ [] }

abbrev candidate_request : CommitRequest
candidate_request = record commit_request {
  rank_id = 2;
  lease_id = 9;
  content_hash_lo = 11;
  content_hash_hi = 12;
}

commit-candidate_example :
    let (d', r) = commit_candidate candidate_request valid_weights with_candidate in
    let attaches =
      is_attachable valid_weights.state && hashes_agree candidate_request valid_weights in
    (find_lease d' 9 ≡ none)
    × (find (2 ^ 63 + 2 ^ 62 + 2) d'.locations ≡ none)
    × (r ≡ (if attaches then ok attached else r))
    × (holds 2 (find_object d' 1)
        ≡ (if attaches then true else holds 2 (find_object with_candidate 1)))
    × (d'.objects ≡ (if attaches then d'.objects else with_candidate.objects))
unfolding find
commit-candidate_example =
    commit-candidate candidate_request valid_weights candidate_lease with_candidate refl

abbrev seal_request : SealRequest
seal_request = record {
  job = uid;
  model_role = 0;
  model_version = 3;
  expected_param_ids = 9 ∷ [];
  fail_if_missing = true;
  promote = false;
}

valid_state-AllCounted : AllCounted valid_state
unfolding find
valid_state-AllCounted id = ground arith

abbrev sealed_manifest : Manifest
sealed_manifest = answer (handle_seal_model_version seal_request valid_state).1
  where
    answer : Reply Manifest → Manifest
    answer (ok m) = m
    answer (err e) = sealed_three

seal_version-freezes_example :
    let d' = (seal_version seal_request uid valid_state).0 in
    (ascending sealed_manifest.object_ids ≡ true)
    × (distinct sealed_manifest.object_ids ≡ true)
    × (sealed_manifest.total_nbytes ≡ bytes_at valid_state.objects sealed_manifest.object_ids)
    × ((id : ℕ)
        → mem id sealed_manifest.object_ids ≡ readable_of uid 0 3 (find_object valid_state id))
    × ((id : ℕ)
        → find_object d' id ≡ (
            if mem id sealed_manifest.object_ids
            then frozen 1000 (find_object valid_state id)
            else find_object valid_state id))
unfolding seal_version gather covers_all covers find seal_gathered handle_seal_model_version
seal_version-freezes_example =
    seal_version-freezes seal_request uid valid_state {man = sealed_manifest} valid_state-AllCounted
      refl refl refl

evict-seal_example :
    let d' = (handle_seal_model_version seal_request valid_state).0 in
    (is_refused (handle_request_canonical_evict no_io evict d').1 ≡ true)
    × Refused d' (handle_request_canonical_evict no_io evict d').0
unfolding handle_seal_model_version seal_version gather covers_all covers find seal_gathered
    seal_members sort_asc insert_asc seal_member
evict-seal_example =
    evict-seal no_io seal_request evict valid_state {job = job} {job' = job} {man = sealed_manifest}
      refl refl refl refl refl refl

seal-fails_example :
    let d' = (handle_seal_model_version seal_request creating_state).0 in
    (d'.objects ≡ creating_state.objects)
    × (d'.latest_sealed ≡ creating_state.latest_sealed)
    × ((man : Manifest) × (find version_three d'.manifests ≡ some man)
        × (is_sealed man.state ≡ false))
unfolding find handle_seal_model_version seal_version gather
seal-fails_example = seal-fails seal_request creating_state {job = job} refl refl

abbrev first_stage : ManifestFilter
first_stage = record {
  pp_present = true;
  pp_rank = 0;
  tp_present = false;
  tp_rank = 0;
  ep_present = false;
  ep_rank = 0;
  etp_present = false;
  etp_rank = 0;
  expert_present = false;
  expert_id = 0;
}

abbrev listing : List ManifestEntry
listing = entry_of sealed_state 1 (weights ObjectState.sealed) ∷ []

get_manifest-lists_example :
    ((j : JobRecord) × (man : Manifest) × (find_job sealed_state uid ≡ some j)
      × (find (version_key j.uid 0 3) sealed_state.manifests ≡ some man)
      × (is_sealed man.state ≡ true)
      × ((id : ℕ)
          → lists id listing
            ≡ (mem id man.object_ids && chosen first_stage (find_object sealed_state id))))
    × ((handle_get_manifest uid 0 3 first_stage sealed_state).0 ≡ record sealed_state {
      metrics = (handle_get_manifest uid 0 3 first_stage sealed_state).0.metrics;
    })
unfolding find handle_get_manifest list_members
get_manifest-lists_example = get_manifest-lists uid 0 3 first_stage sealed_state {es = listing} refl
