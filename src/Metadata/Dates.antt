-- ===== src/Metadata/Dates.antt =====
-- Creation dates under runs of actions (DataManager/log.go, posts_modify.go).
use mathlib.Core.Path.{subst}
use pbooru.Database.{Table}
use pbooru.Log.{Logger, call_fn, call_all, run_actions, insert_log, exec, valid, Db}
use pbooru.Prelude.{
  All, >>=-eq-ok, Bool-cases, List, [], arith, if◌then◌else◌, inl, inr, is_empty, map, ok, sym, ℕ,
  ◌++◌, ◌∙◌, ◌∷◌, ◌≡◌,
}
use pbooru.Metadata.{State, min_created, PostRow, Error}
use pbooru.Metadata.Dated.{IsDated, action_of, Quiet, action_of-Fine, Command}

call_all-Quiet :
    (logs : List (Logger State Error)) (log : ℕ) (s s' : State)
    → All Quiet logs
    → call_all logs log s ≡ ok s'
    → (s'.posts ≡ s.posts) × (s'.post_creation_dates ≡ s.post_creation_dates)
unfolding call_all
call_all-Quiet [] log s s' q h = ground (arith, h)
call_all-Quiet (l ∷ logs) log s s' (q, qs) h =
    let (s1, e, h1) = >>=-eq-ok (call_fn l.fn log s) (call_all logs log) h in
    let (p1, d1) = q log s s1 e in
    let (p2, d2) = call_all-Quiet logs log s1 s' qs h1 in (p2 ∙ p1, d2 ∙ d1)

All-snoc {ℓ κ} :
    {A : Type ℓ} (P : A → Type κ) (xs : List A) (x : A) → All P xs → P x → All P (xs ++ x ∷ [])
All-snoc P [] x a p = (p, tt)
All-snoc P (y ∷ xs) x (q, a) p = (q, All-snoc P xs x a p)

run_actions-IsDated :
    (cs : List Command) (s : State) (logs : List (Logger State Error))
    (r : State × List (Logger State Error))
    → IsDated s
    → All Quiet logs
    → run_actions (map action_of cs) s logs ≡ ok r
    → IsDated r.0 × All Quiet r.1
unfolding run_actions
run_actions-IsDated [] s logs r a q h =
    let e : (s, logs) ≡ r = ground (arith, h) in
    subst (λ (z : State × List (Logger State Error)). IsDated z.0 × All Quiet z.1) e (a, q)
run_actions-IsDated (c ∷ cs) s logs r a q h =
    let ((s1, l), acted, rest) = >>=-eq-ok (action_of c s) _ h in
    let (a1, q1) = action_of-Fine c s (s1, l) a acted in
    elim (Bool-cases (valid l)) [
      | inl e ↦
          run_actions-IsDated cs s1 (logs ++ l ∷ []) r a1 (All-snoc Quiet logs l q q1)
            (ground (arith, e, rest))
      | inr e ↦ run_actions-IsDated cs s1 logs r a1 q (ground (arith, e, rest))
    ]

logged-IsDated :
    (user : ℕ) (db db' : Db State) (s : State) (logs : List (Logger State Error))
    → IsDated s
    → All Quiet logs
    → (if is_empty logs
        then ok (record db { domain = s })
        else insert_log user logs (record db { domain = s }))
      ≡ ok db'
    → IsDated db'.domain
unfolding insert_log
logged-IsDated user db db' s [] a q rest =
    let done : s ≡ db'.domain = ground (arith, rest) in subst IsDated done a
logged-IsDated user db db' s (l ∷ logs) a q rest =
    let (s', called, rest') = >>=-eq-ok (call_all (l ∷ logs) db.next_log s) _ rest in
    let done : s' ≡ db'.domain = ground (arith, rest') in
    let (posts, dates) = call_all-Quiet (l ∷ logs) db.next_log s s' q called in
    subst IsDated done (
      subst
        (λ (z : List PostRow × Table).
          All (λ (r : PostRow). r.creation_date ≡ min_created r.id z.1) z.0)
        (λ i. (sym posts i, sym dates i)) a)

-- The creation date of every post stays the first of the post's dates, and unset where it has none,
-- under every run of actions that add or remove dates and other metadata, or change descriptions.
pub exec-IsDated :
    (user : ℕ) (cs : List Command) (db db' : Db State)
    → IsDated db.domain
    → exec user (map action_of cs) db ≡ ok db'
    → IsDated db'.domain
unfolding exec
exec-IsDated user cs db db' a h =
    let ((s, logs), ran, rest) = >>=-eq-ok (run_actions (map action_of cs) db.domain []) _ h in
    let (a', q) = run_actions-IsDated cs db.domain [] (s, logs) a tt ran in
    logged-IsDated user db db' s logs a' q rest
