-- ===== src/Posts/Counts/Removal.antt =====
-- `Remove` and `Reinstate` of DataManager/posts.go and the cached numbers of results.
use mathlib.Core.Path.{subst}
use pbooru.Tags.Store.{count_posts}
use pbooru.Posts.Counts.{
  is_anchored, tags_of, IsFresh, reset_tables, purge-All, IsRight, reset_total,
}
use pbooru.PostTags.Statements.{IsUnique}
use pbooru.Database.{Table, has_row, snd_where, mem-snd_where}
use pbooru.Posts.Search.Exact.{wanted, has_any, has_all, sel_exact, keep-eq}
use pbooru.Posts.Search.{alt_of, sel, count_of, where_clause}
use pbooru.Prelude.{
  All-keep, ==_iff, ==_refl, Bool, Bool-cases, List, [], ap, arith, false, inl, inr, is_empty, keep,
  mem, mem-append, not, ok, refl, sym, true, ℕ, ◌++◌, ◌==◌, ◌||◌, ◌∙◌, ◌∷◌, ◌≡◌, ◌≤◌,
}
use pbooru.Posts.{
  Post, Criteria, Tables, set_removed, set_and_reset, clear_empty, World, reset_cache_tags,
}

-- Marking a post leaves the count of a search that does not want the post.
alt_of-set_removed :
    (g p : ℕ) (flag : Bool) (posts : List Post)
    → alt_of g (set_removed p flag posts) ≡ alt_of g posts
unfolding alt_of set_removed
alt_of-set_removed g p flag [] = refl
alt_of-set_removed g p flag (x ∷ posts) = ground (arith, alt_of-set_removed g p flag posts)

abbrev pub after : ℕ → Bool → Tables → Tables
after p flag db = record db { posts = set_removed p flag db.posts }

pub wanted-after :
    (s : Criteria) (p : ℕ) (flag : Bool) (db : Tables) (x : Post)
    → wanted s (after p flag db) x ≡ wanted s db x
unfolding wanted where_clause
wanted-after s p flag db x = rw (alt_of-set_removed s.alt_group p flag db.posts) refl

abbrev untagged : ℕ → Criteria → Table → Bool
untagged p s ptm = not (has_all p s.and ptm) || not (is_empty s.or || has_any p s.or ptm)

keep-set_removed :
    (s : Criteria) (db : Tables) (p : ℕ) (flag : Bool) (posts : List Post)
    → untagged p s db.post_tag_mappings ≡ true
    → keep (wanted s db) (set_removed p flag posts) ≡ keep (wanted s db) posts
unfolding set_removed wanted
keep-set_removed s db p flag [] h = refl
keep-set_removed s db p flag (x ∷ posts) h = elim (Bool-cases (x.id == p)) [
  | inl e ↦
      let same : x.id ≡ p = (==_iff x.id p).0 e in
      let h' : untagged x.id s db.post_tag_mappings ≡ true = rw same h in
      ground (arith, e, h', keep-set_removed s db p flag posts h)
  | inr e ↦ ground (arith, e, keep-set_removed s db p flag posts h)
]

any_untagged :
    (p : ℕ) (tags : List ℕ) (ptm : Table)
    → ((t : ℕ) → mem t tags ≡ true → has_row p t ptm ≡ false)
    → has_any p tags ptm ≡ false
unfolding has_any
any_untagged p [] ptm h = refl
any_untagged p (t ∷ tags) ptm h = ground (
  arith,
  h t (ground (arith, ==_refl t)),
  any_untagged p tags ptm (λ k m. h k (ground (arith, m))),
)

all_untagged :
    (p : ℕ) (tags : List ℕ) (ptm : Table)
    → is_empty tags ≡ false
    → ((t : ℕ) → mem t tags ≡ true → has_row p t ptm ≡ false)
    → has_all p tags ptm ≡ false
unfolding has_all
all_untagged p [] ptm e h = cc
all_untagged p (t ∷ tags) ptm e h = ground (arith, h t (ground (arith, ==_refl t)))

avoids-untagged :
    (p : ℕ) (s : Criteria) (ptm : Table)
    → is_anchored s ≡ true
    → ((t : ℕ) → mem t (snd_where (p ∷ []) ptm) ≡ true → mem t (tags_of s) ≡ false)
    → untagged p s ptm ≡ true
avoids-untagged p s ptm anchored avoids = elim (Bool-cases (is_empty s.and)) [
  | inl a ↦ ground (
    arith,
    anchored,
    a,
    any_untagged p s.or ptm (λ t m. none t (
        ground (
          arith,
          m,
          mem-append t s.and (s.or ++ (s.filter ++ s.unless)),
          mem-append t s.or (s.filter ++ s.unless),
        ))),
  )
  | inr a ↦ ground (
    arith,
    all_untagged p s.and ptm a
        (λ t m. none t (ground (arith, m, mem-append t s.and (s.or ++ (s.filter ++ s.unless))))),
  )
]
  where
    none : (t : ℕ) → mem t (tags_of s) ≡ true → has_row p t ptm ≡ false
    none t m = elim (Bool-cases (has_row p t ptm)) [
      | inl h ↦ absurd (ground (arith, m, h, mem-snd_where p t ptm, avoids t))
      | inr h ↦ h
    ]

-- one row for a post and a tag, and one tombstone for a post
abbrev pub IsKeyed : Tables → Type 0
IsKeyed db = IsUnique db.post_tag_mappings × ((p : ℕ) → count_posts p db.tombstone ≤ 1)

sel-after :
    (s : Criteria) (p : ℕ) (flag : Bool) (db : Tables)
    → IsKeyed db
    → untagged p s db.post_tag_mappings ≡ true
    → sel s (after p flag db) ≡ sel s db
sel-after s p flag db (u, once) h =
    sel_exact s (after p flag db) u (λ q _. once q)
    ∙ keep-eq _ _ (set_removed p flag db.posts) (wanted-after s p flag db)
    ∙ keep-set_removed s db p flag db.posts h
    ∙ sym (sel_exact s db u (λ q _. once q))

count_of-after :
    (s : Criteria) (p : ℕ) (flag : Bool) (db : Tables)
    → IsKeyed db
    → untagged p s db.post_tag_mappings ≡ true
    → count_of s (after p flag db) ≡ count_of s db
unfolding count_of
count_of-after s p flag db k h = rw (sel-after s p flag db k h) refl

-- Let every cached count of a search with a tag that a post must have, or may have, be right, and the
-- number of all posts be right where it is set. After a post is removed or reinstated that is still so,
-- and every tag of a cached search is still mapped to it.
pub set_and_reset-IsFresh :
    (flag : Bool) (p : ℕ) (w w' : World)
    → IsKeyed w.tables
    → IsFresh w
    → set_and_reset flag p w ≡ ok w'
    → IsFresh w'
unfolding set_and_reset clear_empty
set_and_reset-IsFresh flag p w w' k fresh h =
    let tags = snd_where (p ∷ []) w.tables.post_tag_mappings in
    let marked : World = record w { tables = after p flag w.tables; total_posts = 0 } in
    let reset : World = reset_cache_tags tags marked in
    let out : World = clear_empty (record reset { purged_posts = w.purged_posts ++ p ∷ [] }) in
    let same : out ≡ w' = ground (arith, h) in
    subst IsFresh same (
      All-keep _ _ _ reset.search_count_cache
          (λ c q _. (
            q.0,
            λ s e a.
                q.1 s e a
                ∙ sym (
                    count_of-after s p flag w.tables k
                      (avoids-untagged p s w.tables.post_tag_mappings a (λ t m. q.2 s t e m)))
                ∙ ap (count_of s) (sym (reset_tables tags marked)),
          ))
          (purge-All (IsRight w.tables) tags marked fresh.0),
      λ ne. absurd (ne (reset_total tags marked)),
    )
