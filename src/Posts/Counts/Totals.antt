-- ===== src/Posts/Counts/Totals.antt =====
-- TotalPosts of a search (DataManager/posts.go), from the cache or counted.
use pbooru.Posts.Search.Exact.{keep-eq}
use pbooru.Posts.Counts.{IsMapped, IsRight, is_anchored, IsFresh, tags_of}
use pbooru.Database.{Table, has_row, pair_with, has_row-append}
use pbooru.Text.{text_eq_iff}
use pbooru.Posts.Search.{
  bool_eq, same_criteria, same_key, cc_get, count_id, count_all, count_of, sel, where_clause,
  cc_set, total, cc_insert, cached_count, get_total_posts, total_of,
}
use pbooru.Prelude.{
  All, All-map, ==_iff, Bool, Bool-cases, List, [], ap, arith, false, inl, inr, not, some, sym,
  true, ℕ, ◌∷◌, ◌≡◌, ==_refl, if◌then◌else◌, mem, none, refl, ◌++◌, ◌∙◌, ◌⊎◌, Option, ◌==◌,
}
use pbooru.Posts.{nil, PostCollector, Criteria, Tables, Key, of, CountRow, all_posts, World}

bool_eq→eq : (a b : Bool) → bool_eq a b ≡ true → a ≡ b
unfolding bool_eq
bool_eq→eq true b h = sym h
bool_eq→eq false b h = ground (arith, h)

same_criteria→eq : (a b : Criteria) → same_criteria a b ≡ true → a ≡ b
unfolding same_criteria
same_criteria→eq a b h =
    let e1 : a.and ≡ b.and = (text_eq_iff a.and b.and).0 (ground (arith, h)) in
    let e2 : a.or ≡ b.or = (text_eq_iff a.or b.or).0 (ground (arith, h)) in
    let e3 : a.filter ≡ b.filter = (text_eq_iff a.filter b.filter).0 (ground (arith, h)) in
    let e4 : a.unless ≡ b.unless = (text_eq_iff a.unless b.unless).0 (ground (arith, h)) in
    let e5 : a.mime_ids ≡ b.mime_ids = (text_eq_iff a.mime_ids b.mime_ids).0 (ground (arith, h)) in
    let e6 : a.alt_group ≡ b.alt_group = (==_iff a.alt_group b.alt_group).0 (ground (arith, h)) in
    let e7 : a.collect_alts ≡ b.collect_alts =
      bool_eq→eq a.collect_alts b.collect_alts (ground (arith, h)) in
    let e8 : a.tombstone ≡ b.tombstone = bool_eq→eq a.tombstone b.tombstone (ground (arith, h)) in
    λ i. record {
      and = e1 i;
      or = e2 i;
      filter = e3 i;
      unless = e4 i;
      mime_ids = e5 i;
      alt_group = e6 i;
      collect_alts = e7 i;
      tombstone = e8 i;
    }

same_key→eq : (k : Key) (s : Criteria) → same_key k (of s) ≡ true → k ≡ of s
unfolding same_key
same_key→eq nil s h = cc
same_key→eq all_posts s h = cc
same_key→eq (of a) s h = ap of (same_criteria→eq a s h)

cc_get-right :
    (s : Criteria) (n : ℕ) (db : Tables) (m : Table) (rows : List CountRow)
    → All (λ c. IsMapped m c × IsRight db c) rows
    → is_anchored s ≡ true
    → cc_get (of s) rows ≡ some n
    → n ≡ count_of s db
unfolding cc_get
cc_get-right s n db m [] a anchored h = cc
cc_get-right s n db m (c ∷ rows) (p, a) anchored h = elim (Bool-cases (same_key c.str (of s))) [
  | inl e ↦
      let right : c.count ≡ count_of s db = p.1 s (same_key→eq c.str s e) anchored in
      ground (arith, h, e, right)
  | inr e ↦ cc_get-right s n db m rows a anchored (ground (arith, h, e))
]

count_all-eq :
    (pc : PostCollector) (db : Tables)
    → count_id pc ≡ all_posts
    → count_all db.posts ≡ count_of pc.search db
unfolding count_id count_all count_of sel where_clause
count_all-eq pc db h = ground (
  arith,
  keep-eq (λ p. not p.removed) (where_clause pc.search db.posts) db.posts (λ p. ground (arith, h)),
)

has_row-pair_with_self :
    (c t : ℕ) (tags : List ℕ) (m : Table)
    → mem t tags ≡ true
    → has_row c t (pair_with c tags ++ m) ≡ true
has_row-pair_with_self c t tags m h =
    ground (arith, has_row-append c t (pair_with c tags) m, paired c t tags, h)
  where
    paired : (c t : ℕ) (tags : List ℕ) → has_row c t (pair_with c tags) ≡ mem t tags
    paired c t [] = unfold pair_with in refl
    paired c t (x ∷ tags) = step c t x tags (paired c t tags)
      where
        step :
            (c t x : ℕ) (tags : List ℕ)
            → has_row c t (pair_with c tags) ≡ mem t tags
            → has_row c t (pair_with c (x ∷ tags)) ≡ mem t (x ∷ tags)
        step c t x tags ih = unfold pair_with in ground (arith, ih, ==_refl c)

tags_of_key : Key → List ℕ
tags_of_key (of s) = tags_of s
tags_of_key _ = []

count_of_key : Key → Tables → ℕ
count_of_key (of s) db = count_of s db
count_of_key _ db = 0

cc_insert-IsFresh :
    (o : Option ℕ) (s : Criteria) (w : World)
    → IsFresh w
    → IsFresh (cc_insert o s (count_of s w.tables) w)
unfolding cc_insert tags_of_key count_of_key
cc_insert-IsFresh (some c) s w fresh = fresh
cc_insert-IsFresh none s w fresh = (
  (
    (
      λ s' t same m.
          has_row-pair_with_self w.next_cache t (tags_of s) w.search_count_tags
            (ap (λ k. mem t (tags_of_key k)) same ∙ m),
      λ s' same anchored. ap (λ k. count_of_key k w.tables) same,
    ),
    All-map _ _ w.search_count_cache
        (λ c p. (
          λ s' t same m. ground (
            arith,
            has_row-append c.id t (pair_with w.next_cache (tags_of s)) w.search_count_tags,
            p.0 s' t same m,
          ),
          p.1,
        ))
        fresh.0,
  ),
  fresh.1,
)

cached_count-exact :
    (s : Criteria) (o : Option ℕ) (w : World)
    → IsFresh w
    → ((n : ℕ) → o ≡ some n → n ≡ count_of s w.tables)
    → ((cached_count s o w).0 ≡ count_of s w.tables) × IsFresh (cached_count s o w).1
unfolding cached_count cc_set
cached_count-exact s (some n) w fresh right = (right n refl, fresh)
cached_count-exact s none w fresh right =
    (refl, cc_insert-IsFresh (cc_get (of s) w.search_count_cache) s w fresh)

get_total_posts-exact :
    (w : World)
    → IsFresh w
    → ((get_total_posts w).0 ≡ count_all w.tables.posts) × IsFresh (get_total_posts w).1
unfolding get_total_posts
get_total_posts-exact w fresh = elim (Bool-cases (w.total_posts == 0)) [
  | inl e ↦ rw e (refl, (fresh.0, λ _. refl))
  | inr e ↦ rw e (fresh.1 (ground (arith, e)), fresh)
]

Key-cases :
    (pc : PostCollector)
    → ((count_id pc ≡ nil) × (pc.empty_set ≡ true))
      ⊎ ((count_id pc ≡ all_posts) × (pc.empty_set ≡ false))
      ⊎ ((count_id pc ≡ of pc.search) × (pc.empty_set ≡ false))
unfolding count_id
Key-cases pc = ground arith

-- Let the cached counts be right where the search has a tag that a post must have, or may have. Then
-- the total of a collector is 0 for an empty set, and else the number of its results, if its search
-- has such a tag, or asks for all posts, or was not counted before; and the cached counts stay so.
pub total_exact :
    (pc : PostCollector) (w : World)
    → IsFresh w
    → ((is_anchored pc.search ≡ true)
        ⊎ (count_id pc ≡ all_posts)
        ⊎ (cc_get (of pc.search) w.search_count_cache ≡ none))
    → ((total pc w).0 ≡ (if pc.empty_set then 0 else count_of pc.search w.tables))
      × IsFresh (total pc w).1
unfolding total total_of
total_exact pc w fresh known = elim (Key-cases pc) [
  | inl (e, empty) ↦ rw (e, empty) (refl, fresh)
  | inr (inl (e, full)) ↦
      let (n, fresh') = get_total_posts-exact w fresh in
      rw (e, full) (n ∙ count_all-eq pc w.tables e, fresh')
  | inr (inr (e, full)) ↦ rw (e, full) (cached_count-exact pc.search _ w fresh (known_right e))
]
  where
    known_right :
        count_id pc ≡ of pc.search
        → (n : ℕ) → cc_get (of pc.search) w.search_count_cache ≡ some n
        → n ≡ count_of pc.search w.tables
    known_right e n found = elim known [
      | inl anchored ↦
          cc_get-right pc.search n w.tables w.search_count_tags w.search_count_cache fresh.0
            anchored found
      | inr (inl a) ↦ absurd (ground (arith, e, a))
      | inr (inr none') ↦ absurd (ground (arith, found, none'))
    ]
