-- ===== src/Workers/Listing.antt =====
-- The list of workers that a member or an administrator gets.
use mini_control_public.Prelude.{
  ◌≡◌, ◌∙◌, ap, sym, refl, List, [], ◌∷◌, ◌++◌, Option, map, keep_if, Bool-cases, inl, inr,
}
use mini_control_public.Text.{Text, text_eq}
use mini_control_public.Model.{Worker, Workstation, Member}
use mini_control_public.Db.{Db}
use mini_control_public.Http.{reply}
use mini_control_public.Vms.{list_workers}
use mini_control_public.Workstations.{list_all_workstations}
use mini_control_public.Workers.{
  BrowserVm, browser_vm, VmsByWorker, append_vm, group_vms, filtered, handle_list_workers,
}

append_nil : (xs : List BrowserVm) → xs ++ [] ≡ xs
append_nil [] = refl
append_nil (x ∷ xs) = ap (λ r. x ∷ r) (append_nil xs)

append_assoc : (xs ys zs : List BrowserVm) → (xs ++ ys) ++ zs ≡ xs ++ (ys ++ zs)
append_assoc [] ys zs = refl
append_assoc (x ∷ xs) ys zs = ap (λ r. x ∷ r) (append_assoc xs ys zs)

-- The machines of a worker, by a filter.
abbrev pub vms_of : Text → List Workstation → List BrowserVm
vms_of worker_id ws = map browser_vm (keep_if (λ w. text_eq worker_id w.worker_id) ws)

group_vms-get :
    (ws : List Workstation) (vms : VmsByWorker) (i : Text)
    → group_vms ws vms i ≡ vms i ++ vms_of i ws
unfolding group_vms
group_vms-get [] vms i = sym (append_nil (vms i))
group_vms-get (w ∷ ws) vms i = elim (Bool-cases (text_eq i w.worker_id)) [
  | inl here ↦
      group_vms-get ws (append_vm w.worker_id (browser_vm w) vms) i
      ∙ rw here (append_assoc (vms i) (browser_vm w ∷ []) (vms_of i ws))
  | inr away ↦ group_vms-get ws (append_vm w.worker_id (browser_vm w) vms) i ∙ rw away refl
]

-- A worker with the machines on it, of those that the member owns, or of all for an administrator.
abbrev pub with_vms : Option Member → Db → Worker → Worker × List BrowserVm
with_vms m db w = (w, vms_of w.id (filtered m (list_all_workstations db)))

-- The list has all workers in the order of the table's query, each with the machines on it in the
-- order of theirs: those that the member owns, or all for an administrator.
pub list_workers-with_vms :
    (m : Option Member) (db : Db)
    → handle_list_workers m db ≡ reply 200 (map (with_vms m db) (list_workers db))
unfolding handle_list_workers
list_workers-with_vms m db = ap (reply 200) (same (list_workers db))
  where
    grouped : Worker → Worker × List BrowserVm
    grouped w = (w, group_vms (filtered m (list_all_workstations db)) (λ i. []) w.id)

    same : (ws : List Worker) → map grouped ws ≡ map (with_vms m db) ws
    same [] = refl
    same (w ∷ ws) =
        rw (group_vms-get (filtered m (list_all_workstations db)) (λ i. []) w.id, same ws) refl
