-- ===== src/Storage/Examples.antt =====
-- Runs of the theorems with an IPFS whose pins are a list, and a link that adds up the numbers.
use pbooru.Prelude.{
  List, Option, [], if◌then◌else◌, keep, mem, none, not, ok, some, ℕ, ◌+◌, ◌-◌, ◌==◌, ◌∷◌, ◌≡◌, ◌≢◌,
}
use pbooru.Storage.{IpfsError, not_pinned, Ipfs, World, store}
use pbooru.Storage.Roots.{store-row}

abbrev update_list : ℕ → ℕ → List ℕ → Option IpfsError × List ℕ
update_list old new pins =
    if mem old pins then (none, new ∷ keep (λ p. not (p == old)) pins) else (some not_pinned, pins)

abbrev ipfs : Ipfs (List ℕ)
ipfs = record {
  patch_link = λ root destination cid. ok (root + destination + cid);
  patch_rm_link = λ root target. ok (root - target);
  pin_ls = mem;
  pin_update = update_list;
  unpin = λ old pins. (none, keep (λ p. not (p == old)) pins);
  pin = λ new pins. (none, new ∷ pins);
}

abbrev world : World (List ℕ)
world = record { row = some 9; pins = 9 ∷ [] }

store-row_example :
    ((store ipfs 3 4 world).0 ≢ none → (store ipfs 3 4 world).1.row ≡ some 9)
    × ((store ipfs 3 4 world).0 ≡ none
        → (new_root : ℕ) × (ipfs.patch_link 9 4 3 ≡ ok new_root)
          × ((store ipfs 3 4 world).1.row ≡ some new_root))
store-row_example = store-row ipfs 3 4 world
