-- ===== src/Compartments/Resources/Network.antt =====
-- Adding, changing and deleting the networks of a compartment.
use quadletman.Prelude.{
  Bool, true, false, not, ◌&&◌, List, [], ◌∷◌, ◌++◌, none, some, if◌then◌else◌, any, Text, codes,
  text_eq,
}
use quadletman.Prelude.Dict.{remove}
use quadletman.Quadlet.Units.{Resource, Templates, named}
use quadletman.Compartments.Patterns.{update_where, delete_where}
use quadletman.Compartments.Lifecycle.{World, Host, Action, daemon_reload, ◌>>◌, call}
use quadletman.Compartments.Resources.{
  ResourceRow, Store, Result, done, missing, conflict, raised, blocked, write_failed, is_id,
  insert_row, row_of, names_where, message, remove_unit, cleanup, if_user, suppress, write_network,
}

-- The compartment, the templates, how the host answers in this call, whether the Linux user is there,
-- which files can be removed, and whether `cleanup_resource_config_dir` raises nothing.
module _ (comp : Text) (t : Templates) (host : Host) (user_exists : Bool) (unlinks : Text → Bool)
    (cleans : Bool) where
  abbrev pub added_network : Resource → Store → World × Bool → Store × Result
  added_network r st (w, true) = (
    record st {
      world = w;
      events =
          st.events
          ++ (codes "network_create", message (codes "Network ") r.qm_name (codes " created")) ∷ [];
    },
    done,
  )
  added_network r st (w, false) =
      (record st { world = w; networks = delete_where (is_id r.id) st.networks }, write_failed true)

  -- the files of `add_network`: the network that is written has no `network_name`
  unfoldable pub write_new_network : Resource → Action
  unfolding write_network ◌>>◌ call remove
  write_new_network r = if_user user_exists (
      write_network comp t host (record r { settings = remove (codes "network_name") r.settings })
      >> call host daemon_reload)

  unfoldable pub add_network : Resource → Store → Store × Result
  unfolding insert_row write_new_network delete_where
  add_network r st =
      elim (insert_row (record { compartment_id = comp; resource = r }) st.networks) [
        | none ↦ (st, conflict)
        | some rows ↦ added_network r (record st { networks = rows }) (write_new_network r st.world)
      ]

  abbrev pub updated_network : Resource → Store → World × Bool → Store × Result
  updated_network given st (w, true) = (
    record st {
      world = w;
      events =
          st.events
          ++ (codes "network_update", message (codes "Network ") given.qm_name (codes " updated"))
            ∷ [];
    },
    done,
  )
  updated_network given st (w, false) = (record st { world = w }, write_failed false)

  -- another row has the name
  abbrev pub is_taken : Text → Text → List ResourceRow → Bool
  is_taken id name rows =
      any
        (λ r.
          not (is_id id r) && (text_eq r.compartment_id comp && text_eq r.resource.qm_name name))
        rows

  -- `update_network`, which changes the name as well
  unfoldable pub update_network : Text → Resource → Store → Store × Result
  unfolding row_of write_network ◌>>◌ call any text_eq
  update_network id given st = elim (row_of comp id st.networks) [
    | none ↦ (st, missing)
    | some row ↦
        let changed = record given { id = row.resource.id } in
        if is_taken id given.qm_name st.networks
        then (st, conflict)
        else updated_network given
            (record st {
              networks =
                  update_where (is_id id)
                    (λ r. record r { resource = record given { id = r.resource.id } }) st.networks;
            })
            (if_user user_exists (write_network comp t host changed >> call host daemon_reload)
              st.world)
  ]

  abbrev pub deleted_network : Text → Text → Store → World × Bool → Store × Result
  deleted_network id name st (w, true) = (
    record st {
      world = w;
      networks = delete_where (is_id id) st.networks;
      events =
          st.events
          ++ (codes "network_delete", message (codes "Network ") name (codes " deleted")) ∷ [];
    },
    done,
  )
  deleted_network id name st (w, false) = (record st { world = w }, raised)

  abbrev pub free_network : Text → Text → Store → List Text → Store × Result
  free_network id name st (b ∷ bs) = (st, blocked (b ∷ bs))
  free_network id name st [] = deleted_network id name st (
      (if_user user_exists (suppress (remove_unit unlinks (name ++ codes ".network")))
          >> if_user user_exists (suppress (call host daemon_reload))
          >> cleanup cleans)
        st.world)

  unfoldable pub delete_network : Text → Store → Store × Result
  unfolding row_of named names_where text_eq remove_unit ◌>>◌ call delete_where
  delete_network id st = elim (row_of comp id st.networks) [
    | none ↦ (st, missing)
    | some row ↦ elim (named row.resource.qm_name) [
      | none ↦ (st, raised)
      | some name ↦
          free_network id name st (names_where (λ c. text_eq c.network name) st.containers)
    ]
  ]
