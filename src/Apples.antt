-- ===== src/Apples.antt =====
-- The perceptual hashes of DataManager/dupgen.go: `phs`, `phsFromHash`, `hash`, `distance` and
-- `appleTreeThreshold`. A `uint64` is a number below 2^64, and an `|` of numbers without a common bit
-- is written as their sum. `imgsim.Distance` is a package's function and a parameter here.
pub mod Bits
pub mod Words
pub mod Grow
mod Examples
use Prim.Native.Nat.{◌/◌, ◌%◌}
use pbooru.Prelude.{ℕ, Bool, leb, ◌*◌, ◌+◌, ◌==◌, ◌||◌}

pub record Phs : Type 0 where
  pub postid : ℕ
  pub h1 : ℕ
  pub h2 : ℕ
  pub h3 : ℕ
  pub h4 : ℕ

abbrev pub apple_tree_distance_thres : ℕ
apple_tree_distance_thres = 4

unfoldable pub apple_tree_threshold : ℕ → Bool
apple_tree_threshold dist = leb dist apple_tree_distance_thres

-- the uint16 of two bytes
abbrev pub uint16 : ℕ → ℕ → ℕ
uint16 high low = (high * 256 + low) % 65536

-- the bytes are those of binary.BigEndian.PutUint64, the highest first
unfoldable pub phs_from_hash : ℕ → ℕ → Phs
phs_from_hash postid hash = record {
  postid = postid;
  h1 = uint16 (hash / 72057594037927936 % 256) (hash / 281474976710656 % 256);
  h2 = uint16 (hash / 1099511627776 % 256) (hash / 4294967296 % 256);
  h3 = uint16 (hash / 16777216 % 256) (hash / 65536 % 256);
  h4 = uint16 (hash / 256 % 256) (hash % 256);
}

unfoldable pub to_hash : Phs → ℕ
to_hash p = p.h1 + p.h2 * 65536 + p.h3 * 4294967296 + p.h4 * 281474976710656

-- h1 = $2 OR h2 = $3 OR h3 = $4 OR h4 = $5
unfoldable pub shares_word : Phs → Phs → Bool
shares_word a b = a.h1 == b.h1 || a.h2 == b.h2 || a.h3 == b.h3 || a.h4 == b.h4

module _ (image_distance : ℕ → ℕ → ℕ) where
  unfoldable pub distance : Phs → Phs → ℕ
  unfolding to_hash
  distance a b = image_distance (to_hash a) (to_hash b)
