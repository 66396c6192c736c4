-- ===== src/Posts/Search/Exact.antt =====
-- Which posts the statement of DataManager/post_search.go selects.
use pbooru.PostTags.Statements.{IsUnique}
use pbooru.Tags.Store.{count_posts}
use pbooru.Posts.Search.{where_clause, join, count_rows, filtered, join_all, times, joins, sel}
use pbooru.Database.{Table, fst_where, has_row, fst, has_row-keep}
use pbooru.Prelude.{
  ==_iff, Bool, Bool-cases, List, List-cases, [], ap, arith, false, if◌then◌else◌, inl, inr,
  is_empty, keep, ltb, mem, not, refl, sym, true, ℕ, ◌&&◌, ◌==◌, ◌||◌, ◌∙◌, ◌∷◌, ◌≡◌, ◌≤◌,
}
use pbooru.Posts.{Post, Criteria, Tables}

unfoldable pub has_any : ℕ → List ℕ → Table → Bool
has_any p [] ptm = false
has_any p (t ∷ tags) ptm = has_row p t ptm || has_any p tags ptm

unfoldable pub has_all : ℕ → List ℕ → Table → Bool
has_all p [] ptm = true
has_all p (t ∷ tags) ptm = has_row p t ptm && has_all p tags ptm

-- what a search asks of a post
unfoldable pub wanted : Criteria → Tables → Post → Bool
unfolding where_clause has_any has_all
wanted s db p =
    where_clause s db.posts p
    && has_all p.id s.and db.post_tag_mappings
    && (is_empty s.or || has_any p.id s.or db.post_tag_mappings)
    && not (
        has_any p.id s.filter db.post_tag_mappings
        && not (has_any p.id s.unless db.post_tag_mappings))
    && (not s.tombstone || ltb 0 (count_posts p.id db.tombstone))

pub keep-keep {ℓ} :
    {A : Type ℓ} (p q : A → Bool) (xs : List A) → keep p (keep q xs) ≡ keep (λ x. q x && p x) xs
keep-keep p q [] = refl
keep-keep p q (x ∷ xs) = ground (arith, keep-keep p q xs)

pub keep-eq {ℓ} :
    {A : Type ℓ} (p q : A → Bool) (xs : List A) → ((x : A) → p x ≡ q x) → keep p xs ≡ keep q xs
keep-eq p q [] h = refl
keep-eq p q (x ∷ xs) h = ground (arith, keep-eq p q xs h, h x)

keep-true {ℓ} : {A : Type ℓ} (p : A → Bool) (xs : List A) → ((x : A) → p x ≡ true) → keep p xs ≡ xs
keep-true p [] h = refl
keep-true p (x ∷ xs) h = ground (arith, keep-true p xs h, h x)

join-keep :
    (count : Post → ℕ) (test : Post → Bool) (rows : List Post)
    → ((p : Post) → count p ≡ (if test p then 1 else 0))
    → join count rows ≡ keep test rows
unfolding join times
join-keep count test [] h = refl
join-keep count test (p ∷ rows) h = elim (Bool-cases (test p)) [
  | inl e ↦ rw (h p, e) (ground (arith, join-keep count test rows h))
  | inr e ↦ rw (h p, e) (ground (arith, join-keep count test rows h))
]

count_rows-eq :
    (p t : ℕ) (ptm : Table) → IsUnique ptm → count_rows p t ptm ≡ (if has_row p t ptm then 1 else 0)
unfolding count_rows
count_rows-eq p t [] u = refl
count_rows-eq p t ((x, k) ∷ ptm) (fresh, u) = elim (Bool-cases (p == x && t == k)) [
  | inl e ↦
      let same : has_row p t ptm ≡ false =
        rw ((==_iff p x).0 (ground (arith, e))) (rw ((==_iff t k).0 (ground (arith, e))) fresh) in
      ground (arith, e, same, count_rows-eq p t ptm u)
  | inr e ↦ ground (arith, e, count_rows-eq p t ptm u)
]

has_any-cons :
    (p x y : ℕ) (tags : List ℕ) (ptm : Table)
    → has_any p tags ((x, y) ∷ ptm) ≡ (p == x && mem y tags || has_any p tags ptm)
unfolding has_any
has_any-cons p x y [] ptm = ground arith
has_any-cons p x y (t ∷ tags) ptm =
    ground (arith, has_any-cons p x y tags ptm, ==_iff t y, ==_iff y t)

none_any : (p : ℕ) (tags : List ℕ) → has_any p tags [] ≡ false
unfolding has_any
none_any p [] = refl
none_any p (t ∷ tags) = none_any p tags

pub mem-fst_where :
    (p : ℕ) (tags : List ℕ) (ptm : Table) → mem p (fst_where tags ptm) ≡ has_any p tags ptm
unfolding fst_where
mem-fst_where p tags [] = sym (none_any p tags)
mem-fst_where p tags ((x, y) ∷ ptm) =
    ground (arith, mem-fst_where p tags ptm, has_any-cons p x y tags ptm)

has_any-keep :
    (test : ℕ → Bool) (p : ℕ) (tags : List ℕ) (ptm : Table)
    → has_any p tags (keep (λ row. test (fst row)) ptm) ≡ (has_any p tags ptm && test p)
unfolding has_any
has_any-keep test p [] ptm = refl
has_any-keep test p (t ∷ tags) ptm =
    ground (arith, has_any-keep test p tags ptm, has_row-keep (λ row. test (fst row)) p t ptm)

mem-filtered :
    (s : Criteria) (ptm : Table) (p : ℕ)
    → mem p (filtered s ptm) ≡ (has_any p s.filter ptm && not (has_any p s.unless ptm))
unfolding filtered
mem-filtered s ptm p = elim (List-cases s.unless) [
  | inl e ↦ rw e (ground (arith, mem-fst_where p s.filter ptm, no_tags))
  | inr (t, tags, e) ↦ rw e (
      ground (
        arith,
        mem-fst_where p s.filter (keep (λ row. not (mem (fst row) (fst_where (t ∷ tags) ptm))) ptm),
        has_any-keep (λ x. not (mem x (fst_where (t ∷ tags) ptm))) p s.filter ptm,
        mem-fst_where p (t ∷ tags) ptm,
      ))
]
  where
    no_tags : has_any p [] ptm ≡ false
    no_tags = unfold has_any in refl

join_all-eq :
    (tags : List ℕ) (ptm : Table) (rows : List Post)
    → IsUnique ptm
    → join_all tags ptm rows ≡ keep (λ (p : Post). has_all p.id tags ptm) rows
unfolding join_all has_all
join_all-eq [] ptm rows u = sym (keep-true (λ (p : Post). true) rows (λ p. refl))
join_all-eq (t ∷ tags) ptm rows u =
    join_all-eq tags ptm (join (λ (p : Post). count_rows p.id t ptm) rows) u
    ∙ ap (keep (λ (p : Post). has_all p.id tags ptm))
        (join-keep _ (λ (p : Post). has_row p.id t ptm) rows (λ p. count_rows-eq p.id t ptm u))
    ∙ keep-keep _ _ rows

or_stage :
    (tags : List ℕ) (ptm : Table) (posts : List Post)
    → (if is_empty tags then posts else keep (λ (p : Post). mem p.id (fst_where tags ptm)) posts)
      ≡ keep (λ (p : Post). is_empty tags || has_any p.id tags ptm) posts
or_stage [] ptm posts = sym (keep-true _ posts (λ p. refl))
or_stage (t ∷ tags) ptm posts = keep-eq _ _ posts (λ p. mem-fst_where p.id (t ∷ tags) ptm)

any_empty :
    (p : ℕ) (tags : List ℕ) (ptm : Table) → is_empty tags ≡ true → has_any p tags ptm ≡ false
unfolding has_any
any_empty p [] ptm h = refl
any_empty p (t ∷ tags) ptm h = cc

filter_stage :
    (s : Criteria) (ptm : Table) (posts : List Post)
    → (if is_empty s.filter
        then posts
        else keep (λ (p : Post). not (mem p.id (filtered s ptm))) posts)
      ≡ keep
          (λ (p : Post). not (has_any p.id s.filter ptm && not (has_any p.id s.unless ptm)))
          posts
filter_stage s ptm posts = elim (Bool-cases (is_empty s.filter)) [
  | inl e ↦ rw e (sym (keep-true _ posts (λ p. ground (arith, any_empty p.id s.filter ptm e))))
  | inr e ↦ rw e (keep-eq _ _ posts (λ p. ap not (mem-filtered s ptm p.id)))
]

tombstone_stage :
    (flag : Bool) (ts : Table) (posts : List Post)
    → ((p : ℕ) → flag ≡ true → count_posts p ts ≤ 1)
    → (if flag then join (λ (p : Post). count_posts p.id ts) posts else posts)
      ≡ keep (λ (p : Post). not flag || ltb 0 (count_posts p.id ts)) posts
tombstone_stage false ts posts once = sym (keep-true _ posts (λ p. refl))
tombstone_stage true ts posts once = join-keep _ _ posts (λ p. ground (arith, once p.id refl))

joins-eq :
    (s : Criteria) (db : Tables)
    → IsUnique db.post_tag_mappings
    → ((p : ℕ) → s.tombstone ≡ true → count_posts p db.tombstone ≤ 1)
    → joins s db
      ≡ keep
          (λ (p : Post). not s.tombstone || ltb 0 (count_posts p.id db.tombstone))
          (keep
            (λ (p : Post). not (
              has_any p.id s.filter db.post_tag_mappings
              && not (has_any p.id s.unless db.post_tag_mappings)))
            (keep
              (λ (p : Post). has_all p.id s.and db.post_tag_mappings)
              (keep
                (λ (p : Post). is_empty s.or || has_any p.id s.or db.post_tag_mappings)
                db.posts)))
unfolding joins
joins-eq s db u once =
    tombstone_stage s.tombstone db.tombstone _ once
    ∙ ap (keep _) (
        filter_stage s db.post_tag_mappings _
        ∙ ap (keep _) (
            join_all-eq s.and db.post_tag_mappings _ u
            ∙ ap (keep _) (or_stage s.or db.post_tag_mappings db.posts)))

plain :
    (s : Criteria) (db : Tables) (p : Post)
    → (not s.tombstone && is_empty s.or && is_empty s.and && is_empty s.filter) ≡ true
    → where_clause s db.posts p ≡ wanted s db p
plain s db p h = elim (List-cases s.and) [
  | inl a ↦ elim (List-cases s.or) [
    | inl o ↦ elim (List-cases s.filter) [
      | inl f ↦ unfold wanted has_any has_all in rw (a, o, f) (ground (arith, h))
      | inr (t, tags, e) ↦
          absurd (let no' : is_empty s.filter ≡ false = rw e in ground (arith, no', h))
    ]
    | inr (t, tags, e) ↦ absurd (let no' : is_empty s.or ≡ false = rw e in ground (arith, no', h))
  ]
  | inr (t, tags, e) ↦ absurd (let no' : is_empty s.and ≡ false = rw e in ground (arith, no', h))
]

-- With one row for a post and a tag and, if tombstones are asked for, one tombstone for a post at most,
-- the statement of a search selects every post once, in the order of the table, if it is not removed,
-- has one of the asked mime types and is in the asked group, has all tags of `and`, one of `or` if
-- there are any, none of `filter` unless it has one of `unless`, and a tombstone if that is asked.
pub sel_exact :
    (s : Criteria) (db : Tables)
    → IsUnique db.post_tag_mappings
    → ((p : ℕ) → s.tombstone ≡ true → count_posts p db.tombstone ≤ 1)
    → sel s db ≡ keep (wanted s db) db.posts
unfolding sel
sel_exact s db u once =
    elim (Bool-cases (not s.tombstone && is_empty s.or && is_empty s.and && is_empty s.filter)) [
      | inl e ↦ rw e (keep-eq _ _ db.posts (λ p. plain s db p e))
      | inr e ↦
          rw (e, joins-eq s db u once, keep-keep, keep-keep, keep-keep, keep-keep)
            (keep-eq _ _ db.posts (λ p. unfold wanted in ground arith))
    ]
