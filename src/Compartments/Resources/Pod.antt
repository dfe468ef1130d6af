-- ===== src/Compartments/Resources/Pod.antt =====
-- Adding, changing and deleting the pods of a compartment.
use quadletman.Prelude.{Bool, true, false, List, [], ◌∷◌, ◌++◌, none, some, Text, codes, text_eq}
use quadletman.Quadlet.Units.{Resource, Templates, named, tidy}
use quadletman.Quadlet.Sync.{only_used}
use quadletman.Compartments.Patterns.{update_where, delete_where}
use quadletman.Compartments.Lifecycle.{
  World, Host, Action, daemon_reload, ◌>>◌, for_each, persist_unit, call,
}
use quadletman.Compartments.Resources.{
  Store, Result, done, missing, not_found, conflict, raised, blocked, write_failed, is_id,
  insert_row, resources_of, row_of, names_where, with_settings, message, remove_unit, cleanup,
  if_user, write_network,
}

-- The compartment, the templates, how the host answers in this call, whether the Linux user is there,
-- which files can be removed, and whether `cleanup_resource_config_dir` raises nothing.
module _ (comp : Text) (t : Templates) (host : Host) (user_exists : Bool) (unlinks : Text → Bool)
    (cleans : Bool) where
  unfoldable pub write_pod : Resource → Action
  unfolding persist_unit tidy
  write_pod r = persist_unit host (r.qm_name ++ codes ".pod", tidy (t.pod comp r))

  abbrev pub added_pod : Resource → Store → World × Bool → Store × Result
  added_pod r st (w, true) = (
    record st {
      world = w;
      events =
          st.events ++ (codes "pod_add", message (codes "Pod ") r.qm_name (codes " added")) ∷ [];
    },
    done,
  )
  added_pod r st (w, false) =
      (record st { world = w; pods = delete_where (is_id r.id) st.pods }, write_failed true)

  -- the files of `add_pod`: the networks that containers use, and the pod
  unfoldable pub write_new_pod : Resource → Store → Action
  unfolding write_network write_pod ◌>>◌ call for_each only_used resources_of
  write_new_pod r st = if_user user_exists (
      for_each (write_network comp t host) (only_used st.containers (resources_of comp st.networks))
      >> write_pod r
      >> call host daemon_reload)

  unfoldable pub add_pod : Resource → Store → Store × Result
  unfolding insert_row write_new_pod delete_where
  add_pod r st = elim (insert_row (record { compartment_id = comp; resource = r }) st.pods) [
    | none ↦ (st, conflict)
    | some rows ↦ added_pod r (record st { pods = rows }) (write_new_pod r st st.world)
  ]

  abbrev pub updated_pod : Resource → Store → World × Bool → Store × Result
  updated_pod given st (w, true) = (
    record st {
      world = w;
      events =
          st.events
          ++ (codes "pod_update", message (codes "Pod ") given.qm_name (codes " updated")) ∷ [];
    },
    done,
  )
  updated_pod given st (w, false) = (record st { world = w }, write_failed false)

  unfoldable pub update_pod : Text → Resource → Store → Store × Result
  unfolding row_of write_pod ◌>>◌ call
  update_pod id given st = elim (row_of comp id st.pods) [
    | none ↦ (st, not_found)
    | some row ↦
        updated_pod given
          (record st {
            pods =
                update_where (is_id id)
                  (λ r. record r { resource = with_settings given r.resource }) st.pods;
          })
          (if_user user_exists
            (write_pod (with_settings given row.resource) >> call host daemon_reload) st.world)
  ]

  abbrev pub deleted_pod : Text → Store → World × Bool → Store × Result
  deleted_pod id st (w, true) =
      (record st { world = w; pods = delete_where (is_id id) st.pods }, done)
  deleted_pod id st (w, false) = (record st { world = w }, raised)

  abbrev pub free_pod : Text → Text → Store → List Text → Store × Result
  free_pod id name st (b ∷ bs) = (st, blocked (b ∷ bs))
  free_pod id name st [] = deleted_pod id st (
      (remove_unit unlinks (name ++ codes ".pod") >> call host daemon_reload >> cleanup cleans)
        st.world)

  unfoldable pub delete_pod : Text → Store → Store × Result
  unfolding row_of named names_where text_eq remove_unit ◌>>◌ call delete_where
  delete_pod id st = elim (row_of comp id st.pods) [
    | none ↦ (st, missing)
    | some row ↦ elim (named row.resource.qm_name) [
      | none ↦ (st, raised)
      | some name ↦ free_pod id name st (names_where (λ c. text_eq c.pod name) st.containers)
    ]
  ]
