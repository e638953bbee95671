-- ===== src/Examples/Tables.antt =====
-- The smaller tables.
use mini_control_public.Prelude.{◌≡◌, refl, List, [], ◌∷◌, some, update_where, delete_where}
use mini_control_public.Text.{codes, text_eq}
use mini_control_public.Db.{Db, ok, not_found, err, failure}
use mini_control_public.Vms.{
  Vm, vm_ready, vm_busy, upsert_vm, update_vm_state, delete_vm, set_worker_vms_offline,
  collect_vm_ids_for_worker, delete_missing_vms_for_worker, list_vms_by_worker, get_vm,
  list_all_vms, update_heartbeat, set_worker_offline, list_workers, upsert_worker,
}
use mini_control_public.Examples.Tokens.{holder}
use mini_control_public.Releases.{
  Release, inserted, insert_release, get_latest_release, get_release_by_version,
}

abbrev nobody : Db
nobody = record { members = []; workers = []; workstations = [] }

abbrev box : Vm
box = record {
  id = codes "v";
  worker_id = codes "w";
  state = vm_ready;
  ip_address = [];
  state_since = 1;
  created_at = 1;
}

abbrev other_box : Vm
other_box = record box { id = codes "o"; worker_id = codes "x" }

abbrev boxes : List Vm
boxes = box ∷ other_box ∷ []

unknown_worker : upsert_vm 2 [] box [] ≡ err failure
unfolding upsert_vm
unknown_worker = refl

state_changes :
    get_vm (codes "v") (update_vm_state 2 (codes "v") vm_busy boxes)
    ≡ ok (record box { state = vm_busy; state_since = 2 })
unfolding get_vm update_vm_state text_eq update_where
state_changes = refl

gone_box : get_vm (codes "v") (delete_vm (codes "v") boxes) ≡ err not_found
unfolding get_vm delete_vm text_eq delete_where
gone_box = refl

offline_boxes : list_all_vms (set_worker_vms_offline (codes "w") boxes) ≡ other_box ∷ []
unfolding list_all_vms set_worker_vms_offline text_eq delete_where
offline_boxes = refl

missing_box :
    delete_missing_vms_for_worker (codes "w") (codes "o" ∷ []) boxes
    ≡ (codes "v" ∷ [], other_box ∷ [])
unfolding delete_missing_vms_for_worker text_eq delete_where
missing_box = refl

all_missing :
    delete_missing_vms_for_worker (codes "w") [] boxes
    ≡ (collect_vm_ids_for_worker (codes "w") (list_vms_by_worker (codes "w") boxes), other_box ∷ [])
unfolding delete_missing_vms_for_worker collect_vm_ids_for_worker list_vms_by_worker text_eq
    delete_where
all_missing = refl

nobody_beats :
    list_workers (set_worker_offline (codes "w") (update_heartbeat 3 (codes "w") nobody)) ≡ []
unfolding list_workers set_worker_offline update_heartbeat update_where
nobody_beats = refl

known_again :
    upsert_worker 3 holder (record nobody { workers = holder ∷ [] })
    ≡ ok (record nobody { workers = record holder { last_heartbeat = some 3 } ∷ [] })
unfolding upsert_worker text_eq update_where
known_again = refl

abbrev build : Release
build = record {
  id = codes "r";
  version = codes "1.0";
  sha256 = codes "00";
  size_bytes = 1;
  signing_identity = codes "me";
  file_path = codes "/r/1.0";
  uploaded_at = 4;
}

first_build : insert_release 4 (codes "r") build [] ≡ inserted build (build ∷ [])
unfolding insert_release
first_build = refl

latest_build : get_latest_release (build ∷ []) ≡ get_release_by_version (build ∷ []) (codes "1.0")
unfolding get_latest_release get_release_by_version text_eq
latest_build = refl
