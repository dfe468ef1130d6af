-- ===== src/Compartments/Resources/Undone.antt =====
-- The compensation of an addition whose files could not be written.
use quadletman.Prelude.{
  Bool, true, false, List, [], ◌∷◌, ◌++◌, none, some, ◌≡◌, refl, sym, subst, inl, inr, arith,
  Bool-cases, Option-cases, any, Text, text_eq_iff, text_eq_refl,
}
use quadletman.Quadlet.Units.{Resource, Templates}
use quadletman.Compartments.Patterns.{delete_where}
use quadletman.Compartments.Lifecycle.{World, Host}
use quadletman.Compartments.Resources.{
  ResourceRow, Store, Result, done, conflict, write_failed, is_id, clashes, insert_row,
}
use quadletman.Compartments.Resources.Image.{write_image, add_image, added_image}
use quadletman.Compartments.Resources.Network.{write_new_network, add_network, added_network}
use quadletman.Compartments.Resources.Pod.{write_new_pod, add_pod, added_pod}

-- a row that could be inserted and is deleted again
delete-insert :
    (row : ResourceRow) (rows : List ResourceRow)
    → any (clashes row) rows ≡ false
    → delete_where (is_id row.resource.id) (rows ++ row ∷ []) ≡ rows
unfolding any clashes delete_where
delete-insert row [] h = rw (text_eq_refl row.resource.id) refl
delete-insert row (r ∷ rows) h =
    let ih = delete-insert row rows (ground (arith, h)) in
    let other : is_id row.resource.id r ≡ false = ground (
      arith,
      h,
      text_eq_iff row.resource.id r.resource.id,
      text_eq_iff r.resource.id row.resource.id,
    ) in
    rw (other, ih) refl

pub insert_row-undone :
    (row : ResourceRow) (rows rows' : List ResourceRow)
    → insert_row row rows ≡ some rows'
    → delete_where (is_id row.resource.id) rows' ≡ rows
unfolding insert_row
insert_row-undone row rows rows' h = elim (Bool-cases (any (clashes row) rows)) [
  | inl c ↦ ground (arith, h, c)
  | inr c ↦
      subst (λ (l : List ResourceRow). delete_where (is_id row.resource.id) l ≡ rows)
        (ground (arith, h, c)) (delete-insert row rows c)
]

-- What the addition of a row to one table may come to, from the store before to the one behind it.
abbrev pub IsSettled : (Store → List ResourceRow) → ResourceRow → Store → Store × Result → Type 0
IsSettled table row st (st', done) = table st' ≡ table st ++ row ∷ []
IsSettled table row st (st', conflict) = (st' ≡ st) × (any (clashes row) (table st) ≡ true)
IsSettled table row st (st', write_failed b) = (b ≡ true) × (st' ≡ record st { world = st'.world })
IsSettled table row st (st', r) = ⊥

pub insert_row-some :
    (row : ResourceRow) (rows rows' : List ResourceRow)
    → insert_row row rows ≡ some rows'
    → rows' ≡ rows ++ row ∷ []
unfolding insert_row
insert_row-some row rows rows' h = ground (arith, h)

pub insert_row-none :
    (row : ResourceRow) (rows : List ResourceRow)
    → insert_row row rows ≡ none
    → any (clashes row) rows ≡ true
unfolding insert_row
insert_row-none row rows h = ground (arith, h)

module _ (comp : Text) (t : Templates) (host : Host) (user_exists : Bool) (unlinks : Text → Bool)
    (cleans : Bool) where
  added_image-IsSettled :
      (r : Resource) (st : Store) (rows : List ResourceRow) (o : World × Bool)
      → insert_row (record { compartment_id = comp; resource = r }) st.images ≡ some rows
      → IsSettled
          (λ s. s.images)
          (record { compartment_id = comp; resource = r })
          st
          (added_image comp t host user_exists unlinks cleans r (record st { images = rows }) o)
  added_image-IsSettled r st rows (w, true) h = insert_row-some _ st.images rows h
  added_image-IsSettled r st rows (w, false) h = (
    refl,
    rw (insert_row-undone (record { compartment_id = comp; resource = r }) st.images rows h) refl,
  )

  add_image-IsSettled :
      (r : Resource) (st : Store)
      → IsSettled
          (λ s. s.images)
          (record { compartment_id = comp; resource = r })
          st
          (add_image comp t host user_exists unlinks cleans r st)
  unfolding add_image
  add_image-IsSettled r st =
      let row : ResourceRow = record { compartment_id = comp; resource = r } in
      elim (Option-cases (insert_row row st.images)) [
        | inl h ↦
            let taken : add_image comp t host user_exists unlinks cleans r st ≡ (st, conflict) =
              ground (arith, h) in
            subst (λ (o : Store × Result). IsSettled (λ s. s.images) row st o) (sym taken)
              (refl, insert_row-none row st.images h)
        | inr (rows, h) ↦
            let added : add_image comp t host user_exists unlinks cleans r st
                ≡ added_image comp t host user_exists unlinks cleans r (record st { images = rows })
                    (write_image comp t host user_exists unlinks cleans r st.world) =
              ground (arith, h) in
            subst (λ (o : Store × Result). IsSettled (λ s. s.images) row st o) (sym added)
              (added_image-IsSettled r st rows _ h)
      ]

  added_network-IsSettled :
      (r : Resource) (st : Store) (rows : List ResourceRow) (o : World × Bool)
      → insert_row (record { compartment_id = comp; resource = r }) st.networks ≡ some rows
      → IsSettled
          (λ s. s.networks)
          (record { compartment_id = comp; resource = r })
          st
          (added_network comp t host user_exists unlinks cleans r (record st { networks = rows }) o)
  added_network-IsSettled r st rows (w, true) h = insert_row-some _ st.networks rows h
  added_network-IsSettled r st rows (w, false) h = (
    refl,
    rw (insert_row-undone (record { compartment_id = comp; resource = r }) st.networks rows h) refl,
  )

  add_network-IsSettled :
      (r : Resource) (st : Store)
      → IsSettled
          (λ s. s.networks)
          (record { compartment_id = comp; resource = r })
          st
          (add_network comp t host user_exists unlinks cleans r st)
  unfolding add_network
  add_network-IsSettled r st =
      let row : ResourceRow = record { compartment_id = comp; resource = r } in
      elim (Option-cases (insert_row row st.networks)) [
        | inl h ↦
            let taken : add_network comp t host user_exists unlinks cleans r st ≡ (st, conflict) =
              ground (arith, h) in
            subst (λ (o : Store × Result). IsSettled (λ s. s.networks) row st o) (sym taken)
              (refl, insert_row-none row st.networks h)
        | inr (rows, h) ↦
            let added : add_network comp t host user_exists unlinks cleans r st
                ≡ added_network comp t host user_exists unlinks cleans r
                    (record st { networks = rows })
                    (write_new_network comp t host user_exists unlinks cleans r st.world) =
              ground (arith, h) in
            subst (λ (o : Store × Result). IsSettled (λ s. s.networks) row st o) (sym added)
              (added_network-IsSettled r st rows _ h)
      ]

  added_pod-IsSettled :
      (r : Resource) (st : Store) (rows : List ResourceRow) (o : World × Bool)
      → insert_row (record { compartment_id = comp; resource = r }) st.pods ≡ some rows
      → IsSettled
          (λ s. s.pods)
          (record { compartment_id = comp; resource = r })
          st
          (added_pod comp t host user_exists unlinks cleans r (record st { pods = rows }) o)
  added_pod-IsSettled r st rows (w, true) h = insert_row-some _ st.pods rows h
  added_pod-IsSettled r st rows (w, false) h = (
    refl,
    rw (insert_row-undone (record { compartment_id = comp; resource = r }) st.pods rows h) refl,
  )

  add_pod-IsSettled :
      (r : Resource) (st : Store)
      → IsSettled
          (λ s. s.pods)
          (record { compartment_id = comp; resource = r })
          st
          (add_pod comp t host user_exists unlinks cleans r st)
  unfolding add_pod
  add_pod-IsSettled r st =
      let row : ResourceRow = record { compartment_id = comp; resource = r } in
      elim (Option-cases (insert_row row st.pods)) [
        | inl h ↦
            let taken : add_pod comp t host user_exists unlinks cleans r st ≡ (st, conflict) =
              ground (arith, h) in
            subst (λ (o : Store × Result). IsSettled (λ s. s.pods) row st o) (sym taken)
              (refl, insert_row-none row st.pods h)
        | inr (rows, h) ↦
            let added : add_pod comp t host user_exists unlinks cleans r st
                ≡ added_pod comp t host user_exists unlinks cleans r (record st { pods = rows })
                    (write_new_pod comp t host user_exists unlinks cleans r st st.world) =
              ground (arith, h) in
            subst (λ (o : Store × Result). IsSettled (λ s. s.pods) row st o) (sym added)
              (added_pod-IsSettled r st rows _ h)
      ]

  -- Adding an image, a network or a pod, whatever the host answers: either its row is the new last one
  -- of the table; or the id or the name was taken, and nothing is changed; or a unit could not be
  -- written or the daemon not be reloaded, and then the failure says that it was rolled back, and all
  -- tables and the event log are as before.
  pub add-IsSettled :
      (r : Resource) (st : Store)
      → IsSettled
          (λ s. s.images)
          (record { compartment_id = comp; resource = r })
          st
          (add_image comp t host user_exists unlinks cleans r st)
        × (IsSettled
              (λ s. s.networks)
              (record { compartment_id = comp; resource = r })
              st
              (add_network comp t host user_exists unlinks cleans r st)
            × IsSettled
                (λ s. s.pods)
                (record { compartment_id = comp; resource = r })
                st
                (add_pod comp t host user_exists unlinks cleans r st))
  add-IsSettled r st =
      (add_image-IsSettled r st, (add_network-IsSettled r st, add_pod-IsSettled r st))
