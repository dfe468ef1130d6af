-- ===== src/Compartments/Resources/Image.antt =====
-- Adding, changing and deleting the images of a compartment.
use quadletman.Prelude.{Bool, true, false, List, [], ◌∷◌, ◌++◌, none, some, Text, codes, text_eq}
use quadletman.Quadlet.Units.{Resource, Templates, named, tidy}
use quadletman.Compartments.Patterns.{update_where, delete_where}
use quadletman.Compartments.Lifecycle.{World, Host, Action, daemon_reload, ◌>>◌, persist_unit, call}
use quadletman.Compartments.Resources.{
  Store, Result, done, missing, not_found, conflict, raised, blocked, write_failed, is_id,
  insert_row, row_of, names_where, with_settings, message, remove_unit, cleanup, if_user,
}

-- The compartment, the templates, how the host answers in this call, whether the Linux user is there,
-- which files can be removed, and whether `cleanup_resource_config_dir` raises nothing.
module _ (comp : Text) (t : Templates) (host : Host) (user_exists : Bool) (unlinks : Text → Bool)
    (cleans : Bool) where
  unfoldable pub write_image : Resource → Action
  unfolding ◌>>◌ persist_unit tidy call
  write_image r = if_user user_exists (
      persist_unit host (r.qm_name ++ codes ".image", tidy (t.image comp r))
      >> call host daemon_reload)

  abbrev pub added_image : Resource → Store → World × Bool → Store × Result
  added_image r st (w, true) = (
    record st {
      world = w;
      events =
          st.events
          ++ (codes "image_add", message (codes "Image ") r.qm_name (codes " added")) ∷ [];
    },
    done,
  )
  added_image r st (w, false) =
      (record st { world = w; images = delete_where (is_id r.id) st.images }, write_failed true)

  -- `add_image`, of a resource with the id that is drawn
  unfoldable pub add_image : Resource → Store → Store × Result
  unfolding insert_row write_image delete_where
  add_image r st = elim (insert_row (record { compartment_id = comp; resource = r }) st.images) [
    | none ↦ (st, conflict)
    | some rows ↦ added_image r (record st { images = rows }) (write_image r st.world)
  ]

  abbrev pub updated_image : Resource → Store → World × Bool → Store × Result
  updated_image given st (w, true) = (
    record st {
      world = w;
      events =
          st.events
          ++ (codes "image_update", message (codes "Image ") given.qm_name (codes " updated")) ∷ [];
    },
    done,
  )
  updated_image given st (w, false) = (record st { world = w }, write_failed false)

  unfoldable pub update_image : Text → Resource → Store → Store × Result
  unfolding row_of write_image
  update_image id given st = elim (row_of comp id st.images) [
    | none ↦ (st, not_found)
    | some row ↦
        updated_image given
          (record st {
            images =
                update_where (is_id id)
                  (λ r. record r { resource = with_settings given r.resource }) st.images;
          })
          (write_image (with_settings given row.resource) st.world)
  ]

  abbrev pub deleted_image : Text → Store → World × Bool → Store × Result
  deleted_image id st (w, true) =
      (record st { world = w; images = delete_where (is_id id) st.images }, done)
  deleted_image id st (w, false) = (record st { world = w }, raised)

  abbrev pub free_image : Text → Text → Store → List Text → Store × Result
  free_image id name st (b ∷ bs) = (st, blocked (b ∷ bs))
  free_image id name st [] = deleted_image id st (
      (remove_unit unlinks (name ++ codes ".image") >> call host daemon_reload >> cleanup cleans)
        st.world)

  unfoldable pub delete_image : Text → Store → Store × Result
  unfolding row_of named names_where text_eq remove_unit ◌>>◌ call delete_where
  delete_image id st = elim (row_of comp id st.images) [
    | none ↦ (st, missing)
    | some row ↦ elim (named row.resource.qm_name) [
      | none ↦ (st, raised)
      | some name ↦
          free_image id name st
            (names_where (λ c. text_eq c.image (name ++ codes ".image")) st.containers)
    ]
  ]
