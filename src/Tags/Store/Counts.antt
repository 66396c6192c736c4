-- ===== src/Tags/Store/Counts.antt =====
-- What a recount does to the count column, and what a purge leaves in the search count cache.
use pbooru.Prelude.{
  ℕ, ◌≡◌, ap, true, false, ◌&&◌, List, [], ◌∷◌, arith, mem, ◌==◌, ==_iff, if◌then◌else◌, Bool-cases,
  inl, inr,
}
use pbooru.Database.{Table, has_row}
use pbooru.Tags.Store.{Store, count_posts, recount_rows, purge_count_cache}

-- the count column of every tag is the number of its posts
abbrev pub IsCounted : Table → Table → Type 0
IsCounted ptm tags = (id n : ℕ) → has_row id n tags ≡ true → n ≡ count_posts id ptm

-- A recount of the tags whose posts changed keeps every count right.
pub recount_rows-IsCounted :
    (changed : List ℕ) (ptm ptm' tags : Table)
    → ((t : ℕ) → mem t changed ≡ false → count_posts t ptm' ≡ count_posts t ptm)
    → IsCounted ptm tags
    → IsCounted ptm' (recount_rows changed ptm' tags)
unfolding recount_rows
recount_rows-IsCounted changed ptm ptm' [] same h id n r = cc
recount_rows-IsCounted changed ptm ptm' ((x, k) ∷ rows) same h id n r =
    elim (Bool-cases (id == x && n == (if mem x changed then count_posts x ptm' else k))) [
      | inl e ↦
          let e' : id ≡ x = (==_iff id x).0 (ground arith) in
          ground (arith, ap (λ z. count_posts z ptm') e', h x k, same x)
      | inr e ↦
          recount_rows-IsCounted changed ptm ptm' rows same (λ i m q. h i m (ground arith)) id n
            (ground arith)
    ]

-- A purge changes the search count cache only.
pub record SameTags (s s' : Store) : Type 0 where
  pub posts : s'.post_tag_mappings ≡ s.post_tag_mappings
  pub aliased : s'.alias ≡ s.alias
  pub family : s'.parent_tags ≡ s.parent_tags
  pub dns : s'.dns_tag_mapping ≡ s.dns_tag_mapping
  pub counts : s'.tags ≡ s.tags

pub purge_count_cache-SameTags : (tags : List ℕ) (s : Store) → SameTags s (purge_count_cache tags s)
unfolding purge_count_cache
purge_count_cache-SameTags [] s = ground arith
purge_count_cache-SameTags (t ∷ tags) s = ground arith
