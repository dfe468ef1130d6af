-- ===== src/Compartments/Resources/Synced.antt =====
-- The units of the images of a compartment, through any sequence of additions, changes and deletions.
use quadletman.Prelude.{Bool, true, false, not, ◌&&◌, List, [], ◌∷◌, ◌≡◌, arith, Text, codes}
use quadletman.Quadlet.Units.{Resource, Templates}
use quadletman.Quadlet.Sync.{resource_files, issues}
use quadletman.Compartments.Lifecycle.{Host}
use quadletman.Compartments.Resources.{Store, Result, resources_of}
use quadletman.Compartments.Resources.Image.{add_image, update_image, delete_image}
use quadletman.Compartments.Resources.Filed.{issues-filed}
use quadletman.Compartments.Resources.Kept.{
  IsFiled, is_ahead, add_image-IsFiled, update_image-IsFiled, delete_image-IsFiled,
}

-- How the host answers in one operation.
pub record Reply : Type 0 where
  pub host : Host
  pub unlinks : Text → Bool
  pub cleans : Bool

pub data Edit : Type 0 where
  adds : Reply → Resource → Edit
  updates : Reply → Text → Resource → Edit
  deletes : Reply → Text → Edit

module _ (comp : Text) (t : Templates) where
  unfoldable pub edit : Edit → Store → Store × Result
  unfolding add_image update_image delete_image
  edit (adds a r) st = add_image comp t a.host true a.unlinks a.cleans r st
  edit (updates a id r) st = update_image comp t a.host true a.unlinks a.cleans id r st
  edit (deletes a id) st = delete_image comp t a.host true a.unlinks a.cleans id st

  unfoldable pub edits : List Edit → Store → Store
  unfolding edit
  edits [] st = st
  edits (e ∷ es) st = edits es (edit e st).0

  -- no operation left the rows ahead of the files or the files ahead of the rows
  unfoldable pub none_ahead : List Edit → Store → Bool
  unfolding edit
  none_ahead [] st = true
  none_ahead (e ∷ es) st =
      let rest = none_ahead es (edit e st).0 in not (is_ahead comp t (edit e st).1) && rest

  edit-IsFiled :
      (e : Edit) (st : Store)
      → IsFiled comp t st
      → is_ahead comp t (edit e st).1 ≡ false
      → IsFiled comp t (edit e st).0
  unfolding edit
  edit-IsFiled (adds a r) st f h = add_image-IsFiled comp t a.host a.unlinks a.cleans r st f
  edit-IsFiled (updates a id r) st f h =
      update_image-IsFiled comp t a.host a.unlinks a.cleans id r st f h
  edit-IsFiled (deletes a id) st f h =
      delete_image-IsFiled comp t a.host a.unlinks a.cleans id st f h

  edits-IsFiled :
      (es : List Edit) (st : Store)
      → IsFiled comp t st
      → none_ahead es st ≡ true
      → IsFiled comp t (edits es st)
  unfolding edits none_ahead
  edits-IsFiled [] st f h = f
  edits-IsFiled (e ∷ es) st f h =
      edits-IsFiled es (edit e st).0 (edit-IsFiled e st f (ground (arith, h))) (ground (arith, h))

  -- From a state in which ids and names are unique and each image of the compartment has its unit on
  -- disk, any sequence of additions, changes and deletions of its images, with its Linux user there and
  -- whatever the host answers: if no change reports a failed write and no deletion raises, the sync
  -- check finds no issue at the units of its images. Additions that fail, conflicts, unknown ids and
  -- blocked deletions do no harm.
  pub edits-synced :
      (es : List Edit) (st : Store)
      → IsFiled comp t st
      → none_ahead es st ≡ true
      → issues
          (edits es st).world.disk
          (resource_files (t.image comp) (codes ".image") (resources_of comp (edits es st).images))
        ≡ []
  edits-synced es st f h =
      issues-filed comp t (edits es st).world.disk (edits es st).images (edits-IsFiled es st f h).1
