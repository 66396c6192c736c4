-- ===== src/Storage.antt =====
-- `pinstore` of DataManager/storage/pinstore.go over the row of `pgRooter`
-- (DataManager/storage/pgrooter.go). A cid and a path are numbers, and 0 is the empty text. IPFS is a
-- service: its requests are parameters, and what it has pinned is not rolled back with the row. The
-- mutex and errors of the database are not modelled.
pub mod Roots
mod Examples
use pbooru.Prelude.{ℕ, Bool, Option, Outcome, err, if◌then◌else◌, none, ok, some, ◌==◌}

-- the errors that the code tells apart by their text
pub data IpfsError : Type 0 where
  -- "pin/update: 'to' cid was already recursively pinned"
  already_pinned : IpfsError
  -- "pin/update: 'from' cid was not recursively pinned already"
  not_pinned : IpfsError
  other_error : IpfsError

-- requests on what is pinned, `Pins`
pub record Ipfs (Pins : Type 0) : Type 0 where
  pub patch_link : ℕ → ℕ → ℕ → Outcome IpfsError ℕ
  pub patch_rm_link : ℕ → ℕ → Outcome IpfsError ℕ
  pub pin_ls : ℕ → Pins → Bool
  pub pin_update : ℕ → ℕ → Pins → Option IpfsError × Pins
  pub unpin : ℕ → Pins → Option IpfsError × Pins
  pub pin : ℕ → Pins → Option IpfsError × Pins

-- the row of `roots`, if it is there, and the pins
pub record World (Pins : Type 0) : Type 0 where
  pub row : Option ℕ
  pub pins : Pins

abbrev pub cid_v1_unixfs_dir : ℕ
cid_v1_unixfs_dir = 1

-- pgRooter.Root: the root, and the row, which is inserted where it is missing
unfoldable pub root_row : Option ℕ → ℕ × Option ℕ
root_row none = (0, some 0)
root_row (some cid) = (cid, some cid)

module _ {Pins : Type 0} where
  -- an old pin is destroyed if the new root is pinned already
  unfoldable pub unpin_old : Ipfs Pins → ℕ → Option IpfsError × Pins → Option IpfsError × Pins
  unpin_old ipfs old_root (none, pins) = (none, pins)
  unpin_old ipfs old_root (some already_pinned, pins) = ipfs.unpin old_root pins
  unpin_old ipfs old_root (some not_pinned, pins) = (some not_pinned, pins)
  unpin_old ipfs old_root (some other_error, pins) = (some other_error, pins)

  -- a new pin, where the old root was not pinned
  unfoldable pub pin_new : Ipfs Pins → ℕ → Option IpfsError × Pins → Option IpfsError × Pins
  pin_new ipfs new_root (none, pins) = (none, pins)
  pin_new ipfs new_root (some not_pinned, pins) = ipfs.pin new_root pins
  pin_new ipfs new_root (some already_pinned, pins) = (some already_pinned, pins)
  pin_new ipfs new_root (some other_error, pins) = (some other_error, pins)

  unfoldable pub update_pin : Ipfs Pins → ℕ → ℕ → Pins → Option IpfsError × Pins
  unfolding unpin_old pin_new
  update_pin ipfs old_root new_root pins =
      if old_root == 0
      then ipfs.pin new_root pins
      else if old_root == new_root
      then (if ipfs.pin_ls old_root pins then (none, pins) else ipfs.pin new_root pins)
      else pin_new ipfs new_root (unpin_old ipfs old_root (ipfs.pin_update old_root new_root pins))

  -- Unlock: the row as the transaction left it, or the row before it
  unfoldable pub unlock :
      Option ℕ → Option ℕ → Option IpfsError × Pins → Option IpfsError × World Pins
  unlock before written (none, pins) = (none, record { row = written; pins = pins })
  unlock before written (some why, pins) = (some why, record { row = before; pins = pins })

  unfoldable pub store_at :
      Ipfs Pins → ℕ → World Pins → Outcome IpfsError ℕ → Option IpfsError × World Pins
  unfolding unlock update_pin
  store_at ipfs root w (err why) = (some why, w)
  store_at ipfs root w (ok new_root) =
      unlock w.row (some new_root) (update_pin ipfs root new_root w.pins)

  unfoldable pub store : Ipfs Pins → ℕ → ℕ → World Pins → Option IpfsError × World Pins
  unfolding store_at root_row
  store ipfs cid destination w =
      let root = if (root_row w.row).0 == 0 then cid_v1_unixfs_dir else (root_row w.row).0 in
      store_at ipfs root w (ipfs.patch_link root destination cid)

  unfoldable pub remove_at :
      Ipfs Pins → ℕ → World Pins → Outcome IpfsError ℕ → Option IpfsError × World Pins
  unfolding unlock update_pin root_row
  remove_at ipfs old_root w (err why) = (some why, w)
  remove_at ipfs old_root w (ok new_root) =
      unlock w.row (root_row w.row).1 (update_pin ipfs old_root new_root w.pins)

  unfoldable pub remove : Ipfs Pins → ℕ → World Pins → Option IpfsError × World Pins
  unfolding remove_at root_row
  remove ipfs target w =
      let old_root = (root_row w.row).0 in
      remove_at ipfs old_root w (ipfs.patch_rm_link old_root target)
