-- ===== src/Posts/Counts/Stale.antt =====
-- The cached counts that `Remove` of DataManager/posts.go leaves wrong.
use pbooru.Posts.Counts.{reset_tables}
use mathlib.Core.Path.{subst}
use pbooru.Text.{text_eq_refl}
use pbooru.Posts.Counts.Removal.{IsKeyed, after, wanted-after}
use pbooru.Posts.Search.Exact.{has_any, wanted, mem-fst_where, sel_exact, keep-eq}
use pbooru.Database.{
  has_key, Table, has_row, fst, fst_where, has_row-keep, snd_where, mem-snd_where,
}
use pbooru.Posts.Search.{
  bool_eq, same_key, count_of, same_criteria, where_clause, count_id, total, total_of, cc_get,
  cached_count,
}
use pbooru.Prelude.{
  ==_iff, ==_refl, Bool, Bool-cases, List, [], ap, arith, false, inl, inr, keep, length, mem, not,
  ok, refl, sym, true, ℕ, ◌&&◌, ◌++◌, ◌+◌, ◌==◌, ◌∙◌, ◌∷◌, ◌≡◌,
}
use pbooru.Posts.{
  Post, PostCollector, World, CountRow, cc_purge, reset_cache_tags, Criteria, set_removed,
  set_and_reset, reset_cache_tag, Tables, clear_empty, of,
}

bool_eq_refl : (b : Bool) → bool_eq b b ≡ true
unfolding bool_eq
bool_eq_refl true = refl
bool_eq_refl false = refl

same_key_refl : (s : Criteria) → same_key (of s) (of s) ≡ true
unfolding same_key same_criteria
same_key_refl s = ground (
  arith,
  text_eq_refl s.and,
  text_eq_refl s.or,
  text_eq_refl s.filter,
  text_eq_refl s.unless,
  text_eq_refl s.mime_ids,
  ==_refl s.alt_group,
  bool_eq_refl s.collect_alts,
  bool_eq_refl s.tombstone,
)

has_key-keep :
    (test : ℕ → Bool) (k : ℕ) (m : Table)
    → has_key k (keep (λ row. test (fst row)) m) ≡ (has_key k m && test k)
unfolding has_key
has_key-keep test k [] = refl
has_key-keep test k ((x, y) ∷ m) =
    ground (arith, has_key-keep test k m, ==_iff k x, λ (e : k ≡ x). ap test e)

-- the row comes first, is mapped, and to none of the tags
abbrev Stays : List ℕ → CountRow → World → Type 0
Stays tags c w =
    ((rest : List CountRow) × (w.search_count_cache ≡ c ∷ rest))
    × (has_key c.id w.search_count_tags ≡ true)
    × ((t : ℕ) → mem t tags ≡ true → has_row c.id t w.search_count_tags ≡ false)

keep-first :
    (test : CountRow → Bool) (c : CountRow) (rows : List CountRow)
    → ((rest : List CountRow) × (rows ≡ c ∷ rest))
    → test c ≡ true
    → (rest : List CountRow) × (keep test rows ≡ c ∷ rest)
keep-first test c rows (rest, e) h = (keep test rest, rw e (ground (arith, h)))

cc_purge-Stays :
    (t : ℕ) (tags : List ℕ) (c : CountRow) (w : World)
    → Stays (t ∷ tags) c w
    → Stays tags c (cc_purge t w)
unfolding cc_purge
cc_purge-Stays t tags c w (first, key, unmapped) =
    let doomed = fst_where (t ∷ []) w.search_count_tags in
    let out : mem c.id doomed ≡ false = mem-fst_where c.id (t ∷ []) w.search_count_tags ∙ single in
    (
      keep-first (λ (d : CountRow). not (mem d.id doomed)) c w.search_count_cache first
          (ground (arith, out)),
      ground (arith, has_key-keep (λ x. not (mem x doomed)) c.id w.search_count_tags, key, out),
      λ k m. ground (
        arith,
        has_row-keep (λ row. not (mem (fst row) doomed)) c.id k w.search_count_tags,
        unmapped k (ground (arith, m)),
      ),
    )
  where
    single : has_any c.id (t ∷ []) w.search_count_tags ≡ false
    single = unfold has_any in ground (arith, unmapped t (ground (arith, ==_refl t)))

reset-Stays :
    (tags : List ℕ) (c : CountRow) (w : World)
    → Stays tags c w
    → Stays [] c (reset_cache_tags tags w)
unfolding reset_cache_tags reset_cache_tag
reset-Stays [] c w h = h
reset-Stays (t ∷ tags) c w h =
    reset-Stays tags c _
      (cc_purge-Stays t tags c (record w { purged_searches = w.purged_searches ++ t ∷ 0 ∷ [] }) h)

abbrev is_wanted : Criteria → Tables → ℕ → Post → Bool
is_wanted s db p x = wanted s db x && x.id == p

keep-removed :
    (s : Criteria) (db : Tables) (p : ℕ) (posts : List Post)
    → length (keep (wanted s db) (set_removed p true posts))
        + length (keep (is_wanted s db p) posts)
      ≡ length (keep (wanted s db) posts)
unfolding set_removed
keep-removed s db p [] = refl
keep-removed s db p (x ∷ posts) = elim (Bool-cases (x.id == p)) [
  | inl e ↦ ground (arith, e, gone x, keep-removed s db p posts)
  | inr e ↦ ground (arith, e, keep-removed s db p posts)
]
  where
    gone : (x : Post) → wanted s db (record x { removed = true }) ≡ false
    gone x = unfold wanted in unfold where_clause in refl

count_of-removed :
    (s : Criteria) (p : ℕ) (db : Tables)
    → IsKeyed db
    → s.collect_alts ≡ false
    → count_of s (after p true db) + length (keep (is_wanted s db p) db.posts) ≡ count_of s db
unfolding count_of
count_of-removed s p db (u, once) single =
    let new' =
      sel_exact s (after p true db) u (λ q _. once q)
      ∙ keep-eq _ _ (set_removed p true db.posts) (wanted-after s p true db) in
    let old = sel_exact s db u (λ q _. once q) in
    ground (arith, single, ap length new', ap length old, keep-removed s db p db.posts)

-- A search that lists posts by the absence of tags is counted and cached, with a right count. A wanted
-- post that has none of the search's tags is removed. Then the cached count stays, and the total of
-- the next search is one more than the number of its results.
pub total_stale :
    (pc : PostCollector) (p : ℕ) (w w' : World) (c : CountRow) (rest : List CountRow)
    → IsKeyed w.tables
    → count_id pc ≡ of pc.search
    → pc.search.collect_alts ≡ false
    → w.search_count_cache ≡ c ∷ rest
    → c.str ≡ of pc.search
    → c.count ≡ count_of pc.search w.tables
    → has_key c.id w.search_count_tags ≡ true
    → ((t : ℕ)
        → has_row p t w.tables.post_tag_mappings ≡ true
        → has_row c.id t w.search_count_tags ≡ false)
    → length (keep (λ x. wanted pc.search w.tables x && x.id == p) w.tables.posts) ≡ 1
    → set_and_reset true p w ≡ ok w'
    → (total pc w').0 ≡ count_of pc.search w'.tables + 1
unfolding set_and_reset clear_empty
total_stale pc p w w' c rest keyed counted single cached str right key apart one h =
    let tags = snd_where (p ∷ []) w.tables.post_tag_mappings in
    let marked : World = record w { tables = after p true w.tables; total_posts = 0 } in
    let reset : World = reset_cache_tags tags marked in
    let out : World = clear_empty (record reset { purged_posts = w.purged_posts ++ p ∷ [] }) in
    let (first, key', _) = reset-Stays tags c marked (
      (rest, cached),
      key,
      λ t m. apart t (sym (mem-snd_where p t w.tables.post_tag_mappings) ∙ m),
    ) in
    let (rest', kept) =
      keep-first (λ (d : CountRow). has_key d.id reset.search_count_tags) c reset.search_count_cache
        first key' in
    subst (λ v. (total pc v).0 ≡ count_of pc.search v.tables + 1) (ground (arith, h))
      (found out rest' kept
        ∙ ground (
          arith,
          right,
          one,
          count_of-removed pc.search p w.tables keyed single,
          ap (count_of pc.search) (reset_tables tags marked),
        ))
  where
    found :
        (v : World) (rest' : List CountRow)
        → v.search_count_cache ≡ c ∷ rest'
        → (total pc v).0 ≡ c.count
    found v rest' e =
        unfold total in
        unfold total_of in
        rw (counted, e)
          (unfold cc_get in rw str (unfold cached_count in ground (arith, same_key_refl pc.search)))
