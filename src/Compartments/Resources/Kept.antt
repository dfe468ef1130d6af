-- ===== src/Compartments/Resources/Kept.antt =====
-- What one operation on an image does to rows and units that fit each other.
use quadletman.Prelude.{
  Bool, true, false, not, List, [], ◌∷◌, ◌++◌, some, ◌≡◌, refl, sym, subst, inl, inr, arith,
  Option-cases, all, any, Text, codes, text_eq, text_eq_refl,
}
use quadletman.Prelude.Dict.{insert}
use quadletman.Quadlet.Units.{Resource, Templates, named}
use quadletman.Compartments.Patterns.{update_where, delete_where}
use quadletman.Compartments.Lifecycle.{World, Host, call, daemon_reload}
use quadletman.Compartments.Lifecycle.Resync.{named-same}
use quadletman.Compartments.Resources.{
  ResourceRow, Store, Result, done, missing, not_found, conflict, raised, blocked, write_failed,
  is_id, clashes, insert_row, row_of, names_where, with_settings,
}
use quadletman.Compartments.Resources.Image.{
  write_image, add_image, added_image, update_image, updated_image, delete_image, deleted_image,
  free_image,
}
use quadletman.Compartments.Resources.Tables.{
  AreDistinct, changed, added-AreDistinct, deleted-AreDistinct, changed-AreDistinct, rows-IsApart,
  row_of-found,
}
use quadletman.Compartments.Resources.Undone.{insert_row-undone, insert_row-some}
use quadletman.Compartments.Resources.Filed.{
  file_of, content_of, is_filed, all-inserted, all-added, all-changed, all-deleted,
}
use quadletman.Compartments.Resources.Steps.{write_image-cases, removal-cases}

module _ (comp : Text) (t : Templates) where
  -- The constraints of the table hold, and each image of the compartment has its unit.
  abbrev pub IsFiled : Store → Type 0
  IsFiled st = AreDistinct st.images × (all (is_filed comp t st.world.disk) st.images ≡ true)

  -- The files are behind the rows, or the rows behind the files.
  abbrev pub is_ahead : Result → Bool
  is_ahead (write_failed rolled_back) = not rolled_back
  is_ahead raised = true
  is_ahead done = false
  is_ahead missing = false
  is_ahead not_found = false
  is_ahead conflict = false
  is_ahead (blocked names) = false

  module _ (host : Host) (unlinks : Text → Bool) (cleans : Bool) where
    -- a new row whose file is written, whether the daemon is reloaded or not
    added-IsFiled :
        (r : Resource) (st : Store) (rows : List ResourceRow)
        → insert_row (record { compartment_id = comp; resource = r }) st.images ≡ some rows
        → IsFiled st
        → (b : Bool) (w : World)
        → w.disk ≡ insert (file_of comp t r) (content_of comp t r) st.world.disk
        → IsFiled
            (added_image comp t host true unlinks cleans r (record st { images = rows }) (w, b)).0
    unfolding insert_row
    added-IsFiled r st rows h f true w e =
        let row : ResourceRow = record { compartment_id = comp; resource = r } in
        let fresh : any (clashes row) st.images ≡ false = ground (arith, h) in
        let more = insert_row-some row st.images rows h in
        (
          subst AreDistinct (sym more) (added-AreDistinct row st.images fresh f.0),
          rw (more, e) (all-added comp t st.world.disk row st.images (text_eq_refl comp) fresh f.1),
        )
    added-IsFiled r st rows h f false w e =
        let row : ResourceRow = record { compartment_id = comp; resource = r } in
        let fresh : any (clashes row) st.images ≡ false = ground (arith, h) in
        let undone = insert_row-undone row st.images rows h in
        (
          subst AreDistinct (sym undone) f.0,
          rw (undone, e)
              (all-inserted comp t st.world.disk (content_of comp t r) row st.images
                (text_eq_refl comp) fresh f.1),
        )

    unwritten-IsFiled :
        (r : Resource) (st : Store) (rows : List ResourceRow)
        → insert_row (record { compartment_id = comp; resource = r }) st.images ≡ some rows
        → IsFiled st
        → IsFiled
            (added_image comp t host true unlinks cleans r
              (record st { images = rows })
              (st.world, false)).0
    unwritten-IsFiled r st rows h f =
        let row : ResourceRow = record { compartment_id = comp; resource = r } in
        let undone = insert_row-undone row st.images rows h in
        (subst AreDistinct (sym undone) f.0, rw undone f.1)

    pub add_image-IsFiled :
        (r : Resource) (st : Store)
        → IsFiled st
        → IsFiled (add_image comp t host true unlinks cleans r st).0
    unfolding add_image
    add_image-IsFiled r st f =
        let row : ResourceRow = record { compartment_id = comp; resource = r } in
        elim (Option-cases (insert_row row st.images)) [
          | inl h ↦
              let same : add_image comp t host true unlinks cleans r st ≡ (st, conflict) =
                ground (arith, h) in
              subst (λ (o : Store × Result). IsFiled o.0) (sym same) f
          | inr (rows, h) ↦
              let run : add_image comp t host true unlinks cleans r st
                  ≡ added_image comp t host true unlinks cleans r (record st { images = rows })
                      (write_image comp t host true unlinks cleans r st.world) =
                ground (arith, h) in
              let step : (o : World × Bool) → Store = λ o.
                (added_image comp t host true unlinks cleans r (record st { images = rows }) o).0 in
              subst (λ (o : Store × Result). IsFiled o.0) (sym run)
                (elim (write_image-cases comp t host unlinks cleans r st.world) [
                  | inl e ↦
                      subst (λ (o : World × Bool). IsFiled (step o)) (sym e)
                        (unwritten-IsFiled r st rows h f)
                  | inr e ↦
                      subst (λ (o : World × Bool). IsFiled (step o)) (sym e)
                        (added-IsFiled r st rows h f (host.succeeds daemon_reload) _ refl)
                ])
        ]

    updated-IsFiled :
        (id : Text) (given : Resource) (st : Store) (row : ResourceRow)
        → row_of comp id st.images ≡ some row
        → IsFiled st
        → (w : World)
        → w.disk
          ≡ insert
              (file_of comp t row.resource)
              (content_of comp t (with_settings given row.resource))
              st.world.disk
        → IsFiled
            (record st { images = update_where (is_id id) (changed given) st.images; world = w })
    updated-IsFiled id given st row h f w e =
        let found = row_of-found comp id row st.images h in
        (
          changed-AreDistinct given (is_id id) st.images f.0,
          rw e (
              all-changed comp t id given st.world.disk row st.images found.1 found.0
                (rows-IsApart comp id row st.images f.0 h) f.1),
        )

    finish_update :
        (given : Resource) (st : Store) (b : Bool) (w : World)
        → IsFiled (record st { world = w })
        → is_ahead (updated_image comp t host true unlinks cleans given st (w, b)).1 ≡ false
        → IsFiled (updated_image comp t host true unlinks cleans given st (w, b)).0
    finish_update given st true w f a = f
    finish_update given st false w f a = absurd (ground (arith, a))

    pub update_image-IsFiled :
        (id : Text) (given : Resource) (st : Store)
        → IsFiled st
        → is_ahead (update_image comp t host true unlinks cleans id given st).1 ≡ false
        → IsFiled (update_image comp t host true unlinks cleans id given st).0
    unfolding update_image call
    update_image-IsFiled id given st f = elim (Option-cases (row_of comp id st.images)) [
      | inl h ↦
          let same : update_image comp t host true unlinks cleans id given st ≡ (st, not_found) =
            ground (arith, h) in
          subst (λ (o : Store × Result). is_ahead o.1 ≡ false → IsFiled o.0) (sym same) (λ a. f)
      | inr (row, h) ↦
          let st' : Store = record st {
            images = update_where (is_id id) (changed given) st.images;
          } in
          let run : update_image comp t host true unlinks cleans id given st
              ≡ updated_image comp t host true unlinks cleans given st' (
                  write_image comp t host true unlinks cleans (with_settings given row.resource)
                    st.world) =
            ground (arith, h) in
          subst (λ (o : Store × Result). is_ahead o.1 ≡ false → IsFiled o.0) (sym run)
            (elim (write_image-cases comp t host unlinks cleans (with_settings given row.resource)
              st.world) [
                | inl e ↦
                    subst
                      (λ (o : World × Bool).
                        let u = updated_image comp t host true unlinks cleans given st' o in
                        is_ahead u.1 ≡ false → IsFiled u.0)
                      (sym e) (λ a. absurd (ground (arith, a)))
                | inr e ↦
                    subst
                      (λ (o : World × Bool).
                        let u = updated_image comp t host true unlinks cleans given st' o in
                        is_ahead u.1 ≡ false → IsFiled u.0)
                      (sym e)
                      (let w =
                          (call host daemon_reload (record st.world {
                            disk =
                                insert (file_of comp t row.resource)
                                  (content_of comp t (with_settings given row.resource))
                                  st.world.disk;
                          })).0 in
                        finish_update given st' (host.succeeds daemon_reload) w
                          (updated-IsFiled id given st row h f w refl))
              ])
    ]

    finish_deletion :
        (id : Text) (st : Store) (b : Bool) (w : World)
        → IsFiled (record st { images = delete_where (is_id id) st.images; world = w })
        → is_ahead (deleted_image comp t host true unlinks cleans id st (w, b)).1 ≡ false
        → IsFiled (deleted_image comp t host true unlinks cleans id st (w, b)).0
    finish_deletion id st true w f a = f
    finish_deletion id st false w f a = absurd (ground (arith, a))

    free_image-IsFiled :
        (id : Text) (st : Store) (row : ResourceRow) (using : List Text)
        → row_of comp id st.images ≡ some row
        → IsFiled st
        → is_ahead (free_image comp t host true unlinks cleans id row.resource.qm_name st using).1
          ≡ false
        → IsFiled (free_image comp t host true unlinks cleans id row.resource.qm_name st using).0
    free_image-IsFiled id st row (b ∷ bs) h f = λ a. f
    free_image-IsFiled id st row [] h f =
        let found = row_of-found comp id row st.images h in
        let step : (o : World × Bool) → Type 0 = λ o.
          is_ahead (deleted_image comp t host true unlinks cleans id st o).1 ≡ false
          → IsFiled (deleted_image comp t host true unlinks cleans id st o).0 in
        elim (removal-cases comp t host unlinks cleans (file_of comp t row.resource) st.world) [
          | inl e ↦ subst step (sym e) (λ a. absurd (ground (arith, a)))
          | inr (b, w, e, k) ↦ subst step (sym e) (
              finish_deletion id st b w (
                deleted-AreDistinct (is_id id) st.images f.0,
                rw k (
                    all-deleted comp t id st.world.disk row st.images found.1 found.0
                      (rows-IsApart comp id row st.images f.0 h) f.1),
              ))
        ]

    pub delete_image-IsFiled :
        (id : Text) (st : Store)
        → IsFiled st
        → is_ahead (delete_image comp t host true unlinks cleans id st).1 ≡ false
        → IsFiled (delete_image comp t host true unlinks cleans id st).0
    unfolding delete_image
    delete_image-IsFiled id st f =
        let step : (o : Store × Result) → Type 0 = λ o. is_ahead o.1 ≡ false → IsFiled o.0 in
        elim (Option-cases (row_of comp id st.images)) [
          | inl h ↦
              let same : delete_image comp t host true unlinks cleans id st ≡ (st, missing) =
                ground (arith, h) in
              subst step (sym same) (λ a. f)
          | inr (row, h) ↦ elim (Option-cases (named row.resource.qm_name)) [
            | inl n ↦
                let same : delete_image comp t host true unlinks cleans id st ≡ (st, raised) =
                  ground (arith, h, n) in
                subst step (sym same) (λ a. f)
            | inr (name, n) ↦
                let using =
                  names_where (λ c. text_eq c.image (name ++ codes ".image")) st.containers in
                let run : delete_image comp t host true unlinks cleans id st
                    ≡ free_image comp t host true unlinks cleans id name st using =
                  ground (arith, h, n) in
                let own = named-same row.resource.qm_name name n in
                subst step (sym run) (
                  subst
                    (λ (m : Text). step (free_image comp t host true unlinks cleans id m st using))
                    (sym own) (free_image-IsFiled id st row using h f))
          ]
        ]
