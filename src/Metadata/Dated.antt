-- ===== src/Metadata/Dated.antt =====
-- The creation date of a post is its first date (DataManager/posts_modify.go).
use mathlib.Core.Path.{subst}
use pbooru.Tags.Store.{Action, create, delete}
use pbooru.Database.{Table, fst, snd, has_row}
use pbooru.Log.{Logger, call_fn}
use pbooru.Text.{Text}
use pbooru.Prelude.{
  All, ==_iff, Bool-cases, List, [], ap, arith, false, inl, inr, keep, mem, not, ok, refl, some,
  sym, ℕ, ◌&&◌, ◌==◌, ◌∙◌, ◌∷◌, ◌≡◌,
}
use pbooru.Metadata.{
  MetaData, State, meta, date, min_created, set_date, set_description, MetaAction, write_log,
  log_data, add_data, PostRow, remove_data, Error, LogRow, no_log, change_description, data_log,
  update_post_creation_date, logged_data, has_meta, logged_description, is_row, l_post_description,
}

-- posts.creation_date is the least of the post's dates, and NULL where it has none
abbrev pub IsDated : State → Type 0
IsDated s = All (λ (r : PostRow). r.creation_date ≡ min_created r.id s.post_creation_dates) s.posts

min_created-keep :
    (x p d : ℕ) (dates : Table)
    → (x == p) ≡ false
    → min_created x (keep (λ row. not (fst row == p && snd row == d)) dates) ≡ min_created x dates
unfolding min_created
min_created-keep x p d [] h = refl
min_created-keep x p d ((y, e) ∷ dates) h =
    ground (arith, h, min_created-keep x p d dates h, ==_iff y x, ==_iff y p, ==_iff x p)

set_date-All :
    (p : ℕ) (dates dates' : Table) (posts : List PostRow)
    → ((x : ℕ) → (x == p) ≡ false → min_created x dates' ≡ min_created x dates)
    → All (λ (r : PostRow). r.creation_date ≡ min_created r.id dates) posts
    → All
        (λ (r : PostRow). r.creation_date ≡ min_created r.id dates')
        (set_date p (min_created p dates') posts)
unfolding set_date
set_date-All p dates dates' [] same a = tt
set_date-All p dates dates' (r ∷ posts) same (e, a) = elim (Bool-cases (r.id == p)) [
  | inl k ↦
      let at : r.id ≡ p = (==_iff r.id p).0 k in
      rw k (ap (λ z. min_created z dates') (sym at), set_date-All p dates dates' posts same a)
  | inr k ↦ rw k (e ∙ sym (same r.id k), set_date-All p dates dates' posts same a)
]

set_description-All :
    (p : ℕ) (t : Text) (dates : Table) (posts : List PostRow)
    → All (λ (r : PostRow). r.creation_date ≡ min_created r.id dates) posts
    → All (λ (r : PostRow). r.creation_date ≡ min_created r.id dates) (set_description p t posts)
unfolding set_description
set_description-All p t dates [] a = tt
set_description-All p t dates (r ∷ posts) (e, a) = elim (Bool-cases (r.id == p)) [
  | inl k ↦ rw k (e, set_description-All p t dates posts a)
  | inr k ↦ rw k (e, set_description-All p t dates posts a)
]

pub data Command : Type 0 where
  add : ℕ → MetaData → Command
  remove : ℕ → MetaData → Command
  describe : ℕ → Text → Command

unfoldable pub action_of : Command → MetaAction
action_of (add p m) = add_data p m
action_of (remove p m) = remove_data p m
action_of (describe p t) = change_description p t

-- the log functions leave posts and dates
abbrev pub Quiet : Logger State Error → Type 0
Quiet l =
    (log : ℕ) (s s' : State)
    → call_fn l.fn log s ≡ ok s'
    → (s'.posts ≡ s.posts) × (s'.post_creation_dates ≡ s.post_creation_dates)

write_log-Quiet :
    (p : ℕ) (row : LogRow) (log : ℕ) (s s' : State)
    → write_log p row log s ≡ ok s'
    → (s'.posts ≡ s.posts) × (s'.post_creation_dates ≡ s.post_creation_dates)
unfolding write_log
write_log-Quiet p row log s s' h = ground (arith, h)

log_data-Quiet : (a : Action) (p : ℕ) (m : MetaData) → Quiet (data_log a p m)
unfolding log_data call_fn
log_data-Quiet a p (date d) log s s' h = write_log-Quiet p (logged_data a p (date d)) log s s' h
log_data-Quiet a p (meta n v) log s s' h = elim (Bool-cases (mem n s.namespaces)) [
  | inl e ↦ write_log-Quiet p (logged_data a p (meta n v)) log s s' (ground (arith, e, h))
  | inr e ↦ absurd (ground (arith, e, h))
]

no_log-Quiet : Quiet no_log
unfolding call_fn
no_log-Quiet log s s' h = ground (arith, h)

abbrev Fine : State × Logger State Error → Type 0
Fine r = IsDated r.0 × Quiet r.1

fine : (r0 r : State × Logger State Error) → r0 ≡ r → Fine r0 → Fine r
fine r0 r e f = subst Fine e f

pub action_of-Fine :
    (c : Command) (s : State) (r : State × Logger State Error)
    → IsDated s
    → action_of c s ≡ ok r
    → Fine r
unfolding action_of add_data remove_data update_post_creation_date change_description
action_of-Fine (add p (date d)) s r a h = elim (Bool-cases (has_row p d s.post_creation_dates)) [
  | inl e ↦ fine (s, no_log) r (ground (arith, e, h)) (a, no_log-Quiet)
  | inr e ↦
      fine
        (
          update_post_creation_date p
              (record s { post_creation_dates = (p, d) ∷ s.post_creation_dates }),
          data_log create p (date d),
        )
        r (ground (arith, e, h))
        (
          set_date-All p s.post_creation_dates ((p, d) ∷ s.post_creation_dates) s.posts
              (λ x k. unfold min_created in ground (arith, k, ==_iff p x, ==_iff x p)) a,
          log_data-Quiet create p (date d),
        )
]
action_of-Fine (add p (meta n v)) s r a h = elim (Bool-cases (mem n s.namespaces)) [
  | inl e ↦ elim (Bool-cases (has_meta p n v s.post_metadata)) [
    | inl k ↦ fine (s, no_log) r (ground (arith, e, k, h)) (a, no_log-Quiet)
    | inr k ↦
        fine
          (
            record s {
              post_metadata = record { post = p; namespace = n; metadata = v } ∷ s.post_metadata;
            },
            data_log create p (meta n v),
          )
          r (ground (arith, e, k, h)) (a, log_data-Quiet create p (meta n v))
  ]
  | inr e ↦ absurd (ground (arith, e, h))
]
action_of-Fine (remove p (date d)) s r a h =
    fine
      (
        update_post_creation_date p (record s {
          post_creation_dates =
              keep (λ row. not (fst row == p && snd row == d)) s.post_creation_dates;
        }),
        data_log delete p (date d),
      )
      r (ground (arith, h))
      (
        set_date-All p s.post_creation_dates _ s.posts
            (λ x k. min_created-keep x p d s.post_creation_dates k) a,
        log_data-Quiet delete p (date d),
      )
action_of-Fine (remove p (meta n v)) s r a h = elim (Bool-cases (mem n s.namespaces)) [
  | inl e ↦
      fine
        (
          record s { post_metadata = keep (λ q. not (is_row p n v q)) s.post_metadata },
          data_log delete p (meta n v),
        )
        r (ground (arith, e, h)) (a, log_data-Quiet delete p (meta n v))
  | inr e ↦ absurd (ground (arith, e, h))
]
action_of-Fine (describe p t) s r a h =
    fine
      (
        record s { posts = set_description p t s.posts },
        record {
          tables = l_post_description ∷ [];
          fn = some (write_log p (logged_description p t));
        },
      )
      r (ground (arith, h))
      (
        set_description-All p t s.post_creation_dates s.posts a,
        λ log u u' e. write_log-Quiet p (logged_description p t) log u u' (unfold call_fn in e),
      )
