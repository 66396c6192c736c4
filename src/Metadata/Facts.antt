-- ===== src/Metadata/Facts.antt =====
-- What the actions on metadata (DataManager/posts_modify.go) do to the metadata of all posts.
use pbooru.Tags.Store.{create, delete}
use pbooru.Log.{Logger}
use pbooru.Database.{has_row, has_row-keep, fst, snd}
use pbooru.Text.{text_eq, Text, text_eq_iff}
use pbooru.Prelude.{
  ==_iff, Bool, Bool-cases, List, [], arith, false, if◌then◌else◌, inl, inr, keep, mem, not, ok,
  refl, true, ℕ, ◌&&◌, ◌==◌, ◌||◌, ◌∷◌, ◌≡◌,
}
use pbooru.Metadata.{
  MetaData, MetaRow, State, meta, date, has_meta, update_post_creation_date, add_data, remove_data,
  is_row, Error, no_log, data_log,
}

-- the post has the metadata
unfoldable pub has : ℕ → MetaData → State → Bool
unfolding has_meta
has p (date d) s = has_row p d s.post_creation_dates
has p (meta n v) s = has_meta p n v s.post_metadata

unfoldable pub same : MetaData → MetaData → Bool
unfolding text_eq
same (date d) (date e) = d == e
same (meta n v) (meta m w) = n == m && text_eq v w
same _ _ = false

-- the namespace is in the table, which the foreign key of post_metadata asks for
unfoldable pub is_known : MetaData → List ℕ → Bool
is_known (date d) names = true
is_known (meta n v) names = mem n names

-- what an action leaves
unfoldable pub added : ℕ → MetaData → State → State
unfolding update_post_creation_date has_meta
added p (date d) s =
    if has_row p d s.post_creation_dates
    then s
    else update_post_creation_date p
        (record s { post_creation_dates = (p, d) ∷ s.post_creation_dates })
added p (meta n v) s = if has_meta p n v s.post_metadata then s else record s {
  post_metadata = record { post = p; namespace = n; metadata = v } ∷ s.post_metadata;
}

unfoldable pub removed : ℕ → MetaData → State → State
unfolding update_post_creation_date is_row
removed p (date d) s = update_post_creation_date p (record s {
  post_creation_dates = keep (λ row. not (fst row == p && snd row == d)) s.post_creation_dates;
})
removed p (meta n v) s = record s {
  post_metadata = keep (λ r. not (is_row p n v r)) s.post_metadata;
}

pub add_data-eq :
    (p : ℕ) (m : MetaData) (s : State)
    → is_known m s.namespaces ≡ true
    → (l : Logger State Error) × (add_data p m s ≡ ok (added p m s, l))
unfolding add_data added is_known
add_data-eq p (date d) s k = elim (Bool-cases (has_row p d s.post_creation_dates)) [
  | inl e ↦ (no_log, ground (arith, e))
  | inr e ↦ (data_log create p (date d), ground (arith, e))
]
add_data-eq p (meta n v) s k = elim (Bool-cases (has_meta p n v s.post_metadata)) [
  | inl e ↦ (no_log, ground (arith, e, k))
  | inr e ↦ (data_log create p (meta n v), ground (arith, e, k))
]

pub remove_data-eq :
    (p : ℕ) (m : MetaData) (s : State)
    → is_known m s.namespaces ≡ true
    → (l : Logger State Error) × (remove_data p m s ≡ ok (removed p m s, l))
unfolding remove_data removed is_known
remove_data-eq p (date d) s k = (data_log delete p (date d), refl)
remove_data-eq p (meta n v) s k = (data_log delete p (meta n v), ground (arith, k))

has_meta-keep :
    (x n p m : ℕ) (v w : Text) (rows : List MetaRow)
    → has_meta x n v (keep (λ r. not (is_row p m w r)) rows)
      ≡ (has_meta x n v rows && not (x == p && (n == m && text_eq v w)))
unfolding has_meta is_row
has_meta-keep x n p m v w [] = refl
has_meta-keep x n p m v w (r ∷ rows) = ground (
  arith,
  has_meta-keep x n p m v w rows,
  ==_iff r.post x,
  ==_iff r.post p,
  ==_iff x p,
  ==_iff r.namespace n,
  ==_iff r.namespace m,
  ==_iff n m,
  text_eq_iff r.metadata v,
  text_eq_iff r.metadata w,
  text_eq_iff v w,
)

pub has-added :
    (x p : ℕ) (m m' : MetaData) (s : State)
    → has x m (added p m' s) ≡ (x == p && same m m' || has x m s)
unfolding has added same update_post_creation_date has_meta is_row
has-added x p (date d) (date e) s = ground arith
has-added x p (date d) (meta n v) s = ground arith
has-added x p (meta n v) (date d) s = ground arith
has-added x p (meta n v) (meta k w) s =
    ground (arith, ==_iff p x, ==_iff x p, ==_iff k n, ==_iff n k, text_eq_iff w v, text_eq_iff v w)

pub has-removed :
    (x p : ℕ) (m m' : MetaData) (s : State)
    → has x m (removed p m' s) ≡ (has x m s && not (x == p && same m m'))
unfolding has removed same update_post_creation_date
has-removed x p (date d) (date e) s =
    ground
      (arith, has_row-keep (λ row. not (fst row == p && snd row == e)) x d s.post_creation_dates)
has-removed x p (date d) (meta n v) s = ground arith
has-removed x p (meta n v) (date d) s = ground arith
has-removed x p (meta n v) (meta k w) s = ground (arith, has_meta-keep x n p k v w s.post_metadata)
