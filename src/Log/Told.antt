-- ===== src/Log/Told.antt =====
-- What the actions of a run tell their log, apart from how `UserActions.exec` and `spine.insert` of
-- DataManager/log.go go about it: relations between the states before and after.
use mathlib.Core.Path.{subst}
use mathlib.Core.List.{append_assoc, append-nil}
use pbooru.Prelude.{
  >>=-eq-ok, Bool, Bool-cases, List, Option-cases, Outcome, [], ap, arith, false, inl, inr,
  is_empty, mem, none, ok, refl, some, sym, true, ℕ, ◌++◌, ◌∙◌, ◌||◌, ◌∷◌, ◌≡◌,
}
use pbooru.Log.{Logger, LoggingAction, call_all, call_fn, has_fn, run_actions, valid}

-- the tables and the log function of an action
abbrev pub Told : Type 0 → Type 0 → Type 0
Told S E = List ℕ × (ℕ → S → Outcome E S)

-- The actions, one after another, lead from a state to another and tell the list. An action with no
-- table or with no log function tells nothing.
pub data Acted {S E : Type 0} : List (LoggingAction S E) → S → S → List (Told S E) → Type 0 where
  acted_none : (s : S) → Acted [] s s []
  tells :
      (act : LoggingAction S E) (actions : List (LoggingAction S E)) (s s1 s' : S) (l : Logger S E)
      (fn : ℕ → S → Outcome E S) (told : List (Told S E))
      → act s ≡ ok (s1, l)
      → is_empty l.tables ≡ false
      → l.fn ≡ some fn
      → Acted actions s1 s' told
      → Acted (act ∷ actions) s s' ((l.tables, fn) ∷ told)
  no_table :
      (act : LoggingAction S E) (actions : List (LoggingAction S E)) (s s1 s' : S) (l : Logger S E)
      (told : List (Told S E))
      → act s ≡ ok (s1, l)
      → l.tables ≡ []
      → Acted actions s1 s' told
      → Acted (act ∷ actions) s s' told
  no_function :
      (act : LoggingAction S E) (actions : List (LoggingAction S E)) (s s1 s' : S) (l : Logger S E)
      (told : List (Told S E))
      → act s ≡ ok (s1, l)
      → l.fn ≡ none
      → Acted actions s1 s' told
      → Acted (act ∷ actions) s s' told

-- the log functions, in the order of the list, lead from a state to another
pub data Called {S E : Type 0} (log : ℕ) : List (Told S E) → S → S → Type 0 where
  called_none : (s : S) → Called log [] s s
  calls :
      (ts : List ℕ) (fn : ℕ → S → Outcome E S) (told : List (Told S E)) (s s1 s' : S)
      → fn log s ≡ ok s1
      → Called log told s1 s'
      → Called log ((ts, fn) ∷ told) s s'

module _ {S E : Type 0} where
  -- a table is told
  abbrev pub names : ℕ → List (Told S E) → Bool
  names t [] = false
  names t ((ts, fn) ∷ told) = mem t ts || names t told

  abbrev pub logger : Told S E → Logger S E
  logger (ts, fn) = record { tables = ts; fn = some fn }

  abbrev pub loggers : List (Told S E) → List (Logger S E)
  loggers [] = []
  loggers (x ∷ told) = logger x ∷ loggers told

  pub run_actions-Acted :
      (actions : List (LoggingAction S E)) (s s' : S) (logs logs' : List (Logger S E))
      → run_actions actions s logs ≡ ok (s', logs')
      → (told : List (Told S E)) × Acted actions s s' told × (logs' ≡ logs ++ loggers told)
  unfolding run_actions valid has_fn
  run_actions-Acted [] s s' logs logs' h =
      let same : s ≡ s' = ground (arith, h) in
      let logs_same : logs ≡ logs' = ground (arith, h) in
      (
        [],
        subst (λ z. Acted {S = S} {E = E} [] s z []) same (acted_none s),
        sym logs_same ∙ sym (append-nil logs),
      )
  run_actions-Acted (act ∷ actions) s s' logs logs' h =
      let ((s1, l), e, h1) = >>=-eq-ok (act s) _ h in
      elim (Bool-cases (is_empty l.tables)) [
        | inl empty ↦
            let (told, acted, same) =
              run_actions-Acted actions s1 s' logs logs' (ground (arith, h1, empty)) in
            (told, no_table act actions s s1 s' l told e (is_empty-eq l.tables empty) acted, same)
        | inr some_table ↦ elim (Option-cases l.fn) [
          | inl silent ↦
              let (told, acted, same) =
                run_actions-Acted actions s1 s' logs logs' (ground (arith, h1, silent)) in
              (told, no_function act actions s s1 s' l told e silent acted, same)
          | inr (fn, fn_is) ↦
              let (told, acted, same) =
                run_actions-Acted actions s1 s' (logs ++ l ∷ []) logs'
                  (ground (arith, h1, some_table, fn_is)) in
              let l_is : l ≡ logger (l.tables, fn) =
                ap (λ z. record { tables = l.tables; fn = z }) fn_is in
              (
                (l.tables, fn) ∷ told,
                tells act actions s s1 s' l fn told e some_table fn_is acted,
                same
                    ∙ append_assoc logs (l ∷ []) (loggers told)
                    ∙ ap (λ z. logs ++ z ∷ loggers told) l_is,
              )
        ]
      ]
    where
      is_empty-eq : (ts : List ℕ) → is_empty ts ≡ true → ts ≡ []
      is_empty-eq [] e = refl
      is_empty-eq (t ∷ ts) e = cc

  pub call_all-Called :
      (told : List (Told S E)) (log : ℕ) (s s' : S)
      → call_all (loggers told) log s ≡ ok s'
      → Called log told s s'
  unfolding call_all call_fn
  call_all-Called [] log s s' h =
      let same : s ≡ s' = ground (arith, h) in
      subst (λ z. Called {S = S} {E = E} log [] s z) same (called_none s)
  call_all-Called ((ts, fn) ∷ told) log s s' h =
      let (s1, e, h1) = >>=-eq-ok (fn log s) _ h in
      calls ts fn told s s1 s' e (call_all-Called told log s1 s' h1)
