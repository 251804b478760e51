-- ===== src/Restore/Guards.antt =====
-- src/daemon/canonical_rollout.cpp: a local restore and its release, and what a warm-up does to the object.
use state_spectre.Prelude.{ℕ, suc, ◌-◌, ◌≡◌, true, false, some, ◌==◌, arith, nat_eq, length}
use state_spectre.Prelude.Table.{find-insert}
use state_spectre.State.{Daemon, Object}
use state_spectre.Leases.{epoch_valid}
use state_spectre.Objects.{find_object, put_object, maybe_free_object}
use state_spectre.Restore.{serve_restore, handle_release_canonical_restore}

kept-maybe_free :
    (o : Object) (d : Daemon) → (length o.holders == 0) ≡ false → (maybe_free_object o d).1 ≡ d
unfolding maybe_free_object
kept-maybe_free o d held = ground arith

-- Between the serving of a restore and its release the object counts one more restore; after both it
-- is as it was, the time of the last access apart, if some rank holds it.
pub restore_balance :
    (o : Object) (base rank epoch : ℕ) (d : Daemon)
    → epoch_valid d rank epoch ≡ true
    → (length o.holders == 0) ≡ false
    → let d1 = (serve_restore o base d).0 in
      let d2 = (handle_release_canonical_restore rank epoch o.object_id d1).0 in
      (find_object d1 o.object_id
        ≡ some (record o { restore_refcount = suc o.restore_refcount; last_access_ns = d.clock }))
      × (find_object d2 o.object_id ≡ some (record o { last_access_ns = d.clock }))
      × (d2.slots ≡ d.slots)
      × (d2.leases ≡ d.leases)
unfolding serve_restore handle_release_canonical_restore epoch_valid
restore_balance o base rank epoch d live held =
    let served = record o { restore_refcount = suc o.restore_refcount; last_access_ns = d.clock } in
    let given = record o {
      restore_refcount = suc o.restore_refcount - 1;
      last_access_ns = d.clock;
    } in
    let d1 = (serve_restore o base d).0 in
    let there = find-insert o.object_id o.object_id served d.objects in
    let back = find-insert o.object_id o.object_id given d1.objects in
    let kept = kept-maybe_free given (put_object given d1) held in
    (
      ground (arith, there),
      ground (arith, live, there, back, kept),
      ground (arith, live, there, kept),
      ground (arith, live, there, kept),
    )
