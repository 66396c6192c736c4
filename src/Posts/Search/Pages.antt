-- ===== src/Posts/Search/Pages.antt =====
-- The pages of a search (DataManager/posts.go).
use mathlib.Core.Path.{subst}
use pbooru.Posts.Search.Ordered.{length-res}
use pbooru.Posts.Counts.Totals.{total_exact}
use pbooru.Posts.Counts.{IsFresh, is_anchored}
use pbooru.Posts.Search.{
  search2, take, drop, total, total_of, get_total_posts, cached_count, count_id, cc_set, cc_insert,
  is_random, res, cc_get, count_of,
}
use pbooru.Prelude.{
  List, [], ap, arith, false, length, refl, suc, true, zero, ℕ, ◌++◌, ◌+◌, ◌∷◌, ◌≡◌, ◌≤◌, ◌⊎◌,
  Bool-cases, if◌then◌else◌, inl, inr, leb, ltb, none, sym, ◌*◌, ◌||◌, ◌∙◌,
}
use pbooru.Posts.OrderBy.{OrderBy}
use pbooru.Posts.{PostCollector, World, Post, all_posts, of}

-- The pages that a user turns, each with a new collector.
unfoldable pub pages :
    OrderBy → (List Post → List Post) → PostCollector → ℕ → ℕ → ℕ → World → List Post
pages B shuffle pc limit zero offset w = []
pages B shuffle pc limit (suc n) offset w =
    let (page, w') = search2 B shuffle pc limit offset w in
    page ++ pages B shuffle pc limit n (offset + limit) w'

take-nil : (n : ℕ) → take n [] ≡ []
unfolding take
take-nil zero = refl
take-nil (suc n) = refl

drop-all : (n : ℕ) (posts : List Post) → length posts ≤ n → drop n posts ≡ []
unfolding drop
drop-all zero [] h = refl
drop-all zero (p ∷ posts) h = absurd (omega arith)
drop-all (suc n) [] h = refl
drop-all (suc n) (p ∷ posts) h = drop-all n posts (omega arith)

drop-nil : (n : ℕ) → drop n [] ≡ []
unfolding drop
drop-nil zero = refl
drop-nil (suc n) = refl

drop-drop : (m n : ℕ) (posts : List Post) → drop n (drop m posts) ≡ drop (m + n) posts
unfolding drop
drop-drop zero n posts = ap (λ k. drop k posts) (omega arith)
drop-drop (suc m) n [] = drop-nil n ∙ sym (drop-nil (suc m + n))
drop-drop (suc m) n (p ∷ posts) =
    let e : suc (m + n) ≡ suc m + n = omega arith in
    drop-drop m n posts ∙ ap (λ k. drop k (p ∷ posts)) e

take-add :
    (m n : ℕ) (posts : List Post) → take m posts ++ take n (drop m posts) ≡ take (m + n) posts
unfolding take drop
take-add zero n posts = ap (λ k. take k posts) (omega arith)
take-add (suc m) n [] = take-nil n ∙ sym (take-nil (suc m + n))
take-add (suc m) n (p ∷ posts) =
    let e : suc (m + n) ≡ suc m + n = omega arith in
    ap (λ r. p ∷ r) (take-add m n posts) ∙ ap (λ k. take k (p ∷ posts)) e

total-tables : (pc : PostCollector) (w : World) → (total pc w).1.tables ≡ w.tables
unfolding total total_of get_total_posts cached_count cc_set cc_insert
total-tables pc w = ground arith

search2-world :
    (B : OrderBy) (shuffle : List Post → List Post) (pc : PostCollector) (limit offset : ℕ)
    (w : World)
    → pc.empty_set ≡ false
    → (search2 B shuffle pc limit offset w).1 ≡ (total pc w).1
unfolding search2
search2-world B shuffle pc limit offset w full = ground (arith, full)

known_or :
    (pc : PostCollector) (w : World)
    → ((is_anchored pc.search ≡ true) ⊎ (count_id pc ≡ all_posts))
    → (is_anchored pc.search ≡ true)
      ⊎ (count_id pc ≡ all_posts)
      ⊎ (cc_get (of pc.search) w.search_count_cache ≡ none)
known_or pc w (inl a) = inl a
known_or pc w (inr a) = inr (inl a)

search2-IsFresh :
    (B : OrderBy) (shuffle : List Post → List Post) (pc : PostCollector) (limit offset : ℕ)
    (w : World)
    → IsFresh w
    → ((is_anchored pc.search ≡ true) ⊎ (count_id pc ≡ all_posts))
    → pc.empty_set ≡ false
    → IsFresh (search2 B shuffle pc limit offset w).1
search2-IsFresh B shuffle pc limit offset w fresh known full =
    subst IsFresh (sym (search2-world B shuffle pc limit offset w full))
      (total_exact pc w fresh (known_or pc w known)).1

-- One page: what is left of the results after the offset, as far as the limit.
search2-page :
    (B : OrderBy) (shuffle : List Post → List Post) (pc : PostCollector) (limit offset : ℕ)
    (w : World)
    → IsFresh w
    → ((is_anchored pc.search ≡ true) ⊎ (count_id pc ≡ all_posts))
    → is_random pc.order ≡ false
    → pc.empty_set ≡ false
    → (search2 B shuffle pc limit offset w).0 ≡ take limit (drop offset (res B pc w.tables))
search2-page B shuffle pc limit offset w fresh known fixed full =
    let n : (total pc w).0 ≡ length (res B pc w.tables) =
      (total_exact pc w fresh (known_or pc w known)).0 ∙ counted ∙ sym (length-res B pc w.tables) in
    elim (Bool-cases (leb (total pc w).0 0 || ltb (total pc w).0 offset)) [
      | inl e ↦
          stopped e
          ∙ sym (take-nil limit)
          ∙ ap (take limit) (sym (drop-all offset (res B pc w.tables) (ground (arith, n, e))))
      | inr e ↦ turned e
    ]
  where
    counted :
        (if pc.empty_set then 0 else count_of pc.search w.tables) ≡ count_of pc.search w.tables
    counted = ground (arith, full)

    stopped :
        (leb (total pc w).0 0 || ltb (total pc w).0 offset) ≡ true
        → (search2 B shuffle pc limit offset w).0 ≡ []
    stopped e = unfold search2 in ground (arith, full, fixed, e)

    turned :
        (leb (total pc w).0 0 || ltb (total pc w).0 offset) ≡ false
        → (search2 B shuffle pc limit offset w).0 ≡ take limit (drop offset (res B pc w.tables))
    turned e = unfold search2 in ground (arith, full, fixed, e)

-- Let the cached counts be right, and let the search have a tag that a post must have, or may have, or
-- ask for all posts. Then the pages of a search that is not in random order, one after another, are the
-- results from the first page's offset on, as far as the pages reach: no post is missed between two
-- pages, and none is listed by both.
pub pages_exact :
    (B : OrderBy) (shuffle : List Post → List Post) (pc : PostCollector) (limit n offset : ℕ)
    (w : World)
    → IsFresh w
    → ((is_anchored pc.search ≡ true) ⊎ (count_id pc ≡ all_posts))
    → is_random pc.order ≡ false
    → pc.empty_set ≡ false
    → pages B shuffle pc limit n offset w ≡ take (n * limit) (drop offset (res B pc w.tables))
unfolding pages
pages_exact B shuffle pc limit zero offset w fresh known fixed full =
    let e : 0 ≡ 0 * limit = omega arith in
    none_taken ∙ ap (λ k. take k (drop offset (res B pc w.tables))) e
  where
    none_taken : [] ≡ take 0 (drop offset (res B pc w.tables))
    none_taken = unfold take in refl
pages_exact B shuffle pc limit (suc n) offset w fresh known fixed full =
    let rows = res B pc w.tables in
    let after = (search2 B shuffle pc limit offset w).1 in
    let e : limit + n * limit ≡ suc n * limit = grind arith in
    let same : after.tables ≡ w.tables =
      ap (λ (u : World). u.tables) (search2-world B shuffle pc limit offset w full)
      ∙ total-tables pc w in
    let next =
      pages_exact B shuffle pc limit n (offset + limit) after
        (search2-IsFresh B shuffle pc limit offset w fresh known full) known fixed full in
    ap (λ r. r ++ pages B shuffle pc limit n (offset + limit) after)
      (search2-page B shuffle pc limit offset w fresh known fixed full)
    ∙ ap (λ r. take limit (drop offset rows) ++ r)
        (next
          ∙ ap (λ db. take (n * limit) (drop (offset + limit) (res B pc db))) same
          ∙ ap (take (n * limit)) (sym (drop-drop offset limit rows)))
    ∙ take-add limit (n * limit) (drop offset rows)
    ∙ ap (λ k. take k (drop offset rows)) e
