-- ===== src/Comics/History/Runs.antt =====
-- Runs of actions on comics (DataManager/log.go) and what they log.
use pbooru.Rows.{replay}
use pbooru.Comics.History.Written.{ok_inj}
use mathlib.Core.List.{append_assoc, append-nil}
use pbooru.Comics.Actions
use pbooru.Comics.History.Steps
use pbooru.Log.{call_all, call_fn, run_actions, exec, Db, valid, insert_log}
use pbooru.Comics.History.{
  Ensures, Entries, Writes, both, IsWritten, replay_all, IsWritten-both, no_entries, IsWritten-none,
  replay_all-both,
}
use pbooru.Rows.Serial.{IsSerial}
use pbooru.Text.{Text}
use pbooru.Prelude.{
  >>=-eq-ok, Bool-cases, List, [], ap, arith, if◌then◌else◌, inl, inr, is_empty, map, ok, refl, sym,
  ℕ, ◌++◌, ◌∙◌, ◌∷◌, ◌≡◌,
}
use mathlib.Core.Path.{subst}
use pbooru.Ints.{ℤ}
use pbooru.Comics.{State, ComicAction, ComicLogger, ComicPage}

pub data Command : Type 0 where
  create_comic : Text → Command
  edit_comic : ℕ → Text → Command
  delete_comic : ℕ → Command
  create_chapter : ℕ → ℤ → Text → Command
  edit_chapter : ℕ → ℤ → Text → Command
  delete_chapter : ℕ → Command
  shift_pages : ℕ → ℤ → ℕ → ℤ → Command
  create_page : ComicPage → Command
  edit_page : ℕ → ComicPage → Command
  delete_page : ℕ → Command

unfoldable pub action_of : Command → ComicAction
action_of (Command.create_comic title) = Actions.create_comic title
action_of (Command.edit_comic id title) = Actions.edit_comic id title
action_of (Command.delete_comic id) = Actions.delete_comic id
action_of (Command.create_chapter comic order title) = Actions.create_chapter comic order title
action_of (Command.edit_chapter id order title) = Actions.edit_chapter id order title
action_of (Command.delete_chapter id) = Actions.delete_chapter id
action_of (Command.shift_pages chapter by symbol n) =
    Actions.shift_chapter_pages chapter by symbol n
action_of (Command.create_page p) = Actions.create_comic_page p
action_of (Command.edit_page id p) = Actions.edit_comic_page id p
action_of (Command.delete_page id) = Actions.delete_comic_page id

action_of-Step :
    (c : Command) (s : State) → IsSerial s.serials.page s.tables.pages → Ensures s (action_of c s)
unfolding action_of
action_of-Step (Command.create_comic title) s h = Steps.create_comic-Step s h title
action_of-Step (Command.edit_comic id title) s h = Steps.edit_comic-Step s h id title
action_of-Step (Command.delete_comic id) s h = Steps.delete_comic-Step s h id
action_of-Step (Command.create_chapter comic order title) s h =
    Steps.create_chapter-Step s h comic order title
action_of-Step (Command.edit_chapter id order title) s h =
    Steps.edit_chapter-Step s h id order title
action_of-Step (Command.delete_chapter id) s h = Steps.delete_chapter-Step s h id
action_of-Step (Command.shift_pages chapter by symbol n) s h =
    Steps.shift_chapter_pages-Step s h chapter by symbol n
action_of-Step (Command.create_page p) s h = Steps.create_comic_page-Step s h p
action_of-Step (Command.edit_page id p) s h = Steps.edit_comic_page-Step s h id p
action_of-Step (Command.delete_page id) s h = Steps.delete_comic_page-Step s h id

call_all-snoc :
    (logs : List ComicLogger) (l : ComicLogger) (log : ℕ) (s s' : State)
    → call_all (logs ++ l ∷ []) log s ≡ ok s'
    → (s1 : State) × (call_all logs log s ≡ ok s1) × (call_fn l.fn log s1 ≡ ok s')
unfolding call_all
call_all-snoc [] l log s s' h =
    let (s1, e, h1) = >>=-eq-ok (call_fn l.fn log s) ok h in (s, refl, ground (arith, e, h1))
call_all-snoc (k ∷ logs) l log s s' h =
    let (s1, e, h1) = >>=-eq-ok (call_fn k.fn log s) (call_all (logs ++ l ∷ []) log) h in
    let (s2, e2, h2) = call_all-snoc logs l log s1 s' h1 in (s2, ground (arith, e, e2), h2)

-- the loggers of a list write these entries, one after another
abbrev WritesAll : List ComicLogger → Entries → Type 0
WritesAll logs es =
    (log : ℕ) (s s' : State)
    → call_all logs log s ≡ ok s'
    → IsWritten log es s.history s'.history × (s'.tables ≡ s.tables)

WritesAll-snoc :
    (logs : List ComicLogger) (l : ComicLogger) (es fs : Entries)
    → WritesAll logs es
    → Writes l fs
    → WritesAll (logs ++ l ∷ []) (both es fs)
WritesAll-snoc logs l es fs all one log s s' h =
    let (s1, h1, h2) = call_all-snoc logs l log s s' h in
    let (w1, t1) = all log s s1 h1 in
    let (w2, t2) = one log s1 s' h2 in (IsWritten-both es fs w1 w2, t2 ∙ t1)

both_assoc : (es fs gs : Entries) → both (both es fs) gs ≡ both es (both fs gs)
both_assoc es fs gs = λ i. record {
  comics = append_assoc es.comics fs.comics gs.comics i;
  chapters = append_assoc es.chapters fs.chapters gs.chapters i;
  pages = append_assoc es.pages fs.pages gs.pages i;
}

-- what a run leaves, given loggers that write some entries
abbrev Ran : State → Entries → State × List ComicLogger → Type 0
Ran s es r =
    (fs : Entries) × WritesAll r.1 (both es fs)
    × (replay_all fs s.tables ≡ r.0.tables)
    × (r.0.history ≡ s.history)

both_none : (es : Entries) → both es no_entries ≡ es
both_none es = λ i. record {
  comics = append-nil es.comics i;
  chapters = append-nil es.chapters i;
  pages = append-nil es.pages i;
}

run_actions-Ran :
    (cs : List Command) (s : State) (logs : List ComicLogger) (es : Entries)
    (r : State × List ComicLogger)
    → IsSerial s.serials.page s.tables.pages
    → WritesAll logs es
    → run_actions (map action_of cs) s logs ≡ ok r
    → Ran s es r
unfolding run_actions
run_actions-Ran [] s logs es r serial all h =
    subst (Ran s es) (ok_inj h)
      (no_entries, subst (WritesAll logs) (sym (both_none es)) all, unfold replay in refl, refl)
run_actions-Ran (c ∷ cs) s logs es r serial all h =
    let ((s1, l), acted, rest) = >>=-eq-ok (action_of c s) _ h in
    let step = action_of-Step c s serial (s1, l) acted in
    elim (Bool-cases (valid l)) [
      | inl e ↦
          let (fs, w, t, same) =
            run_actions-Ran cs s1 (logs ++ l ∷ []) (both es step.entries) r step.serial
              (WritesAll-snoc logs l es step.entries all step.writes) (ground (arith, e, rest)) in
          (
            both step.entries fs,
            subst (WritesAll r.1) (both_assoc es step.entries fs) w,
            replay_all-both step.entries fs s.tables ∙ ap (replay_all fs) step.replayed ∙ t,
            same ∙ step.history,
          )
      | inr e ↦
          let (fs, w, t, same) =
            run_actions-Ran cs s1 logs es r step.serial all (ground (arith, e, rest)) in
          (fs, w, ap (replay_all fs) (sym (step.silent e)) ∙ t, same ∙ step.history)
    ]

abbrev IsTold : Db State → State → Type 0
IsTold db s =
    (es : Entries) × IsWritten db.next_log es db.domain.history s.history
    × (replay_all es db.domain.tables ≡ s.tables)

told :
    (db : Db State) (s s' : State) (logs : List ComicLogger) (es : Entries)
    → WritesAll logs es
    → replay_all es db.domain.tables ≡ s.tables
    → s.history ≡ db.domain.history
    → call_all logs db.next_log s ≡ ok s'
    → IsTold db s'
told db s s' logs es w t same called =
    let (written, kept) = w db.next_log s s' called in
    (es, subst (λ h. IsWritten db.next_log es h s'.history) same written, t ∙ sym kept)

logged :
    (user : ℕ) (db db' : Db State) (s : State) (logs : List ComicLogger) (es : Entries)
    → WritesAll logs es
    → replay_all es db.domain.tables ≡ s.tables
    → s.history ≡ db.domain.history
    → (if is_empty logs
        then ok (record db { domain = s })
        else insert_log user logs (record db { domain = s }))
      ≡ ok db'
    → IsTold db db'.domain
unfolding insert_log
logged user db db' s [] es w t same rest =
    let done : s ≡ db'.domain = ground (arith, rest) in
    subst (IsTold db) done (told db s s [] es w t same (unfold call_all in refl))
logged user db db' s (l ∷ logs) es w t same rest =
    let (s', called, rest') = >>=-eq-ok (call_all (l ∷ logs) db.next_log s) _ rest in
    let done : s' ≡ db'.domain = ground (arith, rest') in
    subst (IsTold db) done (told db s s' (l ∷ logs) es w t same called)

-- A run of actions on comics, chapters and pages that succeeds appends entries to the log tables, all
-- under the id of the run's log. These entries, replayed one after another on the tables before the
-- run, give the tables after it.
pub exec-replayed :
    (user : ℕ) (cs : List Command) (db db' : Db State)
    → IsSerial db.domain.serials.page db.domain.tables.pages
    → exec user (map action_of cs) db ≡ ok db'
    → (es : Entries) × IsWritten db.next_log es db.domain.history db'.domain.history
      × (replay_all es db.domain.tables ≡ db'.domain.tables)
unfolding exec
exec-replayed user cs db db' serial h =
    let ((s, logs), ran, rest) = >>=-eq-ok (run_actions (map action_of cs) db.domain []) _ h in
    let (es, w, t, same) =
      run_actions-Ran cs db.domain [] no_entries (s, logs) serial nothing_written ran in
    logged user db db' s logs es w t same rest
  where
    nothing_written : WritesAll [] no_entries
    nothing_written log s s' e =
        subst (λ (v : State). IsWritten log no_entries s.history v.history × (v.tables ≡ s.tables))
          (ok_inj (unfold call_all in e)) (IsWritten-none log s.history, refl)
