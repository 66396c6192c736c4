-- ===== src/Duplicates/Reports.antt =====
-- `updateDupeReports` of DataManager/duplicates.go, on the tables duplicate_report and
-- duplicate_report_posts. A report of type 1 asks to pluck its posts, its fruit, from its post.
pub mod Tidy
use pbooru.Prelude.{
  ℕ, Bool, true, false, not, ◌&&◌, ◌||◌, List, [], ◌∷◌, mem, keep, ltb, ◌==◌, if◌then◌else◌,
}

-- a row of duplicate_report; `approved` is whether the time is set
pub record Report : Type 0 where
  pub id : ℕ
  pub post : ℕ
  pub approved : Bool
  pub report_type : ℕ

-- a row of duplicate_report_posts
pub record Fruit : Type 0 where
  pub id : ℕ
  pub report : ℕ
  pub post : ℕ

-- approved IS NULL AND report_type = 1
unfoldable pub is_open : Report → Bool
is_open r = not r.approved && r.report_type == 1

-- JOIN duplicate_report dr ON dr.id = drp.report_id
unfoldable pub has_open : ℕ → List Report → Bool
unfolding is_open
has_open id [] = false
has_open id (r ∷ reports) = r.id == id && is_open r || has_open id reports

unfoldable pub replace_fruit : ℕ → ℕ → List Report → List Fruit → List Fruit
unfolding has_open
replace_fruit p q reports [] = []
replace_fruit p q reports (f ∷ fruits) =
    (if f.post == q && has_open f.report reports then record f { post = p } else f)
    ∷ replace_fruit p q reports fruits

unfoldable pub replace_fruits : ℕ → List ℕ → List Report → List Fruit → List Fruit
unfolding replace_fruit
replace_fruits p [] reports fruits = fruits
replace_fruits p (q ∷ inferior) reports fruits =
    replace_fruits p inferior reports (replace_fruit p q reports fruits)

-- another row of the same report and post, with a greater id
unfoldable pub has_later : Fruit → List Fruit → Bool
has_later a [] = false
has_later a (b ∷ fruits) =
    a.report == b.report && a.post == b.post && ltb a.id b.id || has_later a fruits

unfoldable pub replace_report : ℕ → ℕ → List Report → List Report
unfolding is_open
replace_report p q [] = []
replace_report p q (r ∷ reports) =
    (if r.post == q && is_open r then record r { post = p } else r) ∷ replace_report p q reports

unfoldable pub replace_reports : ℕ → List ℕ → List Report → List Report
unfolding replace_report
replace_reports p [] reports = reports
replace_reports p (q ∷ inferior) reports = replace_reports p inferior (replace_report p q reports)

-- a report of that id is about the post
unfoldable pub is_about : ℕ → ℕ → List Report → Bool
is_about id post [] = false
is_about id post (r ∷ reports) = r.id == id && r.post == post || is_about id post reports

unfoldable pub has_fruit : ℕ → List Fruit → Bool
has_fruit id [] = false
has_fruit id (f ∷ fruits) = f.report == id || has_fruit id fruits

unfoldable pub update_dupe_reports :
    ℕ → List ℕ → List Report → List Fruit → List Report × List Fruit
unfolding replace_fruits has_later replace_reports is_about has_fruit
update_dupe_reports p inferior reports fruits =
    let moved = replace_fruits p inferior reports fruits in
    let single = keep (λ a. not (has_later a moved)) moved in
    let reports' = replace_reports p inferior reports in
    let fruits' = keep (λ f. not (is_about f.report f.post reports')) single in
    (keep (λ r. r.approved || has_fruit r.id fruits') reports', fruits')
