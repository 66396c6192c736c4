-- ===== src/Storage/Roots.antt =====
-- The row of `roots` after `Store` and `Remove` of DataManager/storage/pinstore.go.
use pbooru.Prelude.{
  Option, Outcome, ap, err, if◌then◌else◌, none, ok, refl, some, sym, ℕ, ◌==◌, ◌∙◌, ◌≡◌, ◌≢◌,
}
use pbooru.Storage.{
  IpfsError, Ipfs, World, cid_v1_unixfs_dir, root_row, update_pin, unlock, store_at, store,
  remove_at, remove,
}

-- the root that the row stands for
abbrev pub root_of : Option ℕ → ℕ
root_of none = 0
root_of (some cid) = cid

root_row-root : (o : Option ℕ) → root_of o ≡ (root_row o).0
unfolding root_row
root_row-root none = refl
root_row-root (some cid) = refl

root_of-root_row : (o : Option ℕ) → root_of o ≡ root_of (root_row o).1
unfolding root_row
root_of-root_row none = refl
root_of-root_row (some cid) = refl

module _ {Pins : Type 0} where
  unlock-row :
      (before written : Option ℕ) (r : Option IpfsError × Pins)
      → ((unlock before written r).0 ≡ r.0)
        × (r.0 ≡ none → (unlock before written r).1.row ≡ written)
        × (r.0 ≢ none → (unlock before written r).1.row ≡ before)
  unfolding unlock
  unlock-row before written (none, pins) = (refl, λ e. refl, λ n. absurd (n refl))
  unlock-row before written (some why, pins) = (refl, λ e. cc, λ n. refl)

  stored :
      (ipfs : Ipfs Pins) (root : ℕ) (w : World Pins) (patched : Outcome IpfsError ℕ)
      → ((store_at ipfs root w patched).0 ≢ none → (store_at ipfs root w patched).1.row ≡ w.row)
        × ((store_at ipfs root w patched).0 ≡ none
            → (new_root : ℕ) × (patched ≡ ok new_root)
              × ((store_at ipfs root w patched).1.row ≡ some new_root))
  unfolding store_at
  stored ipfs root w (err why) = (λ n. refl, λ e. cc)
  stored ipfs root w (ok new_root) =
      let (same, written, before) =
        unlock-row w.row (some new_root) (update_pin ipfs root new_root w.pins) in
      (λ n. before (λ z. n (same ∙ z)), λ e. (new_root, refl, written (sym same ∙ e)))

  unlocked :
      (before written : Option ℕ) (r : Option IpfsError × Pins)
      → root_of before ≡ root_of written
      → root_of (unlock before written r).1.row ≡ root_of before
  unfolding unlock
  unlocked before written (none, pins) e = sym e
  unlocked before written (some why, pins) e = refl

  kept :
      (ipfs : Ipfs Pins) (old_root : ℕ) (w : World Pins) (patched : Outcome IpfsError ℕ)
      → root_of (remove_at ipfs old_root w patched).1.row ≡ root_of w.row
  unfolding remove_at
  kept ipfs old_root w (err why) = refl
  kept ipfs old_root w (ok new_root) =
      unlocked w.row (root_row w.row).1 (update_pin ipfs old_root new_root w.pins)
        (root_of-root_row w.row)

  -- If `Store` returns an error the row is as it was. Else IPFS has linked the file into the root of the
  -- row, or into the empty directory where there was none, and the row holds the new root.
  pub store-row :
      (ipfs : Ipfs Pins) (cid destination : ℕ) (w : World Pins)
      → ((store ipfs cid destination w).0 ≢ none → (store ipfs cid destination w).1.row ≡ w.row)
        × ((store ipfs cid destination w).0 ≡ none
            → (new_root : ℕ) × (ipfs.patch_link
                  (if root_of w.row == 0 then cid_v1_unixfs_dir else root_of w.row)
                  destination
                  cid
                ≡ ok new_root)
              × ((store ipfs cid destination w).1.row ≡ some new_root))
  unfolding store root_row
  store-row ipfs cid destination w =
      let root = if (root_row w.row).0 == 0 then cid_v1_unixfs_dir else (root_row w.row).0 in
      let (failed, done) = stored ipfs root w (ipfs.patch_link root destination cid) in
      (
        failed,
        λ e.
            let (new_root, linked, row) = done e in
            (
              new_root,
              ap (λ z. ipfs.patch_link (if z == 0 then cid_v1_unixfs_dir else z) destination cid)
                    (root_row-root w.row)
                  ∙ linked,
              row,
            ),
      )

  -- `Remove` never changes the root that the row stands for, with or without an error.
  pub root_of-remove :
      (ipfs : Ipfs Pins) (target : ℕ) (w : World Pins)
      → root_of (remove ipfs target w).1.row ≡ root_of w.row
  unfolding remove root_row
  root_of-remove ipfs target w =
      kept ipfs (root_row w.row).0 w (ipfs.patch_rm_link (root_row w.row).0 target)
