-- ===== src/Compartments/Resources/Steps.antt =====
-- What writing and removing the unit of an image may come to.
use quadletman.Prelude.{
  Bool, true, false, ◌≡◌, refl, ap, ◌∙◌, ◌⊎◌, inl, inr, arith, Bool-cases, Text,
}
use quadletman.Prelude.Dict.{insert, remove}
use quadletman.Quadlet.Units.{Resource, Templates}
use quadletman.Compartments.Lifecycle.{
  World, Host, persist_unit, call, ◌>>◌, after_success, daemon_reload,
}
use quadletman.Compartments.Lifecycle.Resync.{safe_unit_name-same, Checked-cases}
use quadletman.Sanitized.Names.{safe_unit_name}
use quadletman.Compartments.Resources.{remove_unit, cleanup}
use quadletman.Compartments.Resources.Image.{write_image}
use quadletman.Compartments.Resources.Filed.{file_of, content_of}

module _ (comp : Text) (t : Templates) (host : Host) (unlinks : Text → Bool) (cleans : Bool) where
  pub persist_unit-cases :
      (f c : Text) (w : World)
      → (persist_unit host (f, c) w ≡ (w, false))
        ⊎ (persist_unit host (f, c) w ≡ (record w { disk = insert f c w.disk }, true))
  unfolding persist_unit
  persist_unit-cases f c w = elim (Checked-cases (safe_unit_name f)) [
    | inr (e, h) ↦ inl (ground (arith, h))
    | inl (name, h) ↦
        let same = safe_unit_name-same f name h in
        elim (Bool-cases (host.writes name)) [
          | inr e ↦ inl (ground (arith, h, e))
          | inl e ↦ inr (ground (arith, h, e, same))
        ]
  ]

  pub write_image-cases :
      (r : Resource) (w : World)
      → (write_image comp t host true unlinks cleans r w ≡ (w, false))
        ⊎ (write_image comp t host true unlinks cleans r w
            ≡ call host daemon_reload
                (record w { disk = insert (file_of comp t r) (content_of comp t r) w.disk }))
  unfolding write_image ◌>>◌
  write_image-cases r w = elim (persist_unit-cases (file_of comp t r) (content_of comp t r) w) [
    | inl e ↦ inl (ap (λ (o : World × Bool). after_success o (call host daemon_reload)) e)
    | inr e ↦ inr (ap (λ (o : World × Bool). after_success o (call host daemon_reload)) e)
  ]

  pub remove_unit-cases :
      (f : Text) (w : World)
      → (remove_unit unlinks f w ≡ (w, false))
        ⊎ (remove_unit unlinks f w ≡ (record w { disk = remove f w.disk }, true))
  unfolding remove_unit
  remove_unit-cases f w = elim (Checked-cases (safe_unit_name f)) [
    | inr (e, h) ↦ inl (ground (arith, h))
    | inl (name, h) ↦
        let same = safe_unit_name-same f name h in
        elim (Bool-cases (unlinks name)) [
          | inr e ↦ inl (ground (arith, h, e))
          | inl e ↦ inr (ground (arith, h, e, same))
        ]
  ]

  pub removal-cases :
      (f : Text) (w : World)
      → ((remove_unit unlinks f >> call host daemon_reload >> cleanup cleans) w ≡ (w, false))
        ⊎ ((b : Bool) × (w' : World) × ((remove_unit unlinks f
                  >> call host daemon_reload
                  >> cleanup cleans)
                w
              ≡ (w', b))
            × (w'.disk ≡ remove f w.disk))
  unfolding ◌>>◌ call
  removal-cases f w =
      let next : (o : World × Bool) → World × Bool =
        λ o. after_success (after_success o (call host daemon_reload)) (cleanup cleans) in
      let removed = (call host daemon_reload (record w { disk = remove f w.disk })).0 in
      elim (remove_unit-cases f w) [
        | inl e ↦ inl (ap next e)
        | inr e ↦ elim (Bool-cases (host.succeeds daemon_reload)) [
          | inl k ↦ inr (cleans, removed, ap next e ∙ rw k refl, refl)
          | inr k ↦ inr (false, removed, ap next e ∙ rw k refl, refl)
        ]
      ]
