-- ===== src/Duplicates/Reports/Tidy.antt =====
-- The duplicate reports after `updateDupeReports` of DataManager/duplicates.go.
use pbooru.Prelude.{
  ℕ, ◌≡◌, refl, sym, ◌∙◌, ap, Bool, true, false, not, ◌&&◌, ◌||◌, List, [], ◌∷◌, map, arith, mem,
  keep, if◌then◌else◌, Bool-cases, inl, inr,
}
use pbooru.Duplicates.Reports.{
  Report, Fruit, is_open, has_open, replace_fruit, replace_fruits, has_later, replace_report,
  replace_reports, is_about, has_fruit, update_dupe_reports,
}

abbrev pub all {ℓ} : {A : Type ℓ} → (A → Bool) → List A → Bool
all test [] = true
all test (x ∷ xs) = test x && all test xs

all-keep {ℓ} :
    {A : Type ℓ} (test kept : A → Bool) (xs : List A)
    → all test xs ≡ true
    → all test (keep kept xs) ≡ true
all-keep test kept [] h = refl
all-keep test kept (x ∷ xs) h = ground (arith, all-keep test kept xs)

keep-all {ℓ} : {A : Type ℓ} (kept : A → Bool) (xs : List A) → all kept (keep kept xs) ≡ true
keep-all kept [] = refl
keep-all kept (x ∷ xs) = ground (arith, keep-all kept xs)

all_weaken {ℓ} :
    {A : Type ℓ} (test test' : A → Bool) (xs : List A)
    → ((x : A) → test x ≡ true → test' x ≡ true)
    → all test xs ≡ true
    → all test' xs ≡ true
all_weaken test test' [] w h = refl
all_weaken test test' (x ∷ xs) w h = ground (arith, all_weaken test test' xs w, w x)

abbrev moved_fruit : ℕ → List ℕ → List Report → Fruit → Fruit
moved_fruit p inferior reports f =
    if mem f.post inferior && has_open f.report reports then record f { post = p } else f

replace_fruit-map :
    (p q : ℕ) (inferior : List ℕ) (reports : List Report) (fruits : List Fruit)
    → mem p inferior ≡ false
    → map (moved_fruit p inferior reports) (replace_fruit p q reports fruits)
      ≡ map (moved_fruit p (q ∷ inferior) reports) fruits
unfolding replace_fruit
replace_fruit-map p q inferior reports [] out = refl
replace_fruit-map p q inferior reports (f ∷ fruits) out =
    ground (arith, replace_fruit-map p q inferior reports fruits out, out)

map_same :
    (p : ℕ) (reports : List Report) (fruits : List Fruit)
    → fruits ≡ map (moved_fruit p [] reports) fruits
map_same p reports [] = refl
map_same p reports (f ∷ fruits) = ap (λ fs. f ∷ fs) (map_same p reports fruits)

replace_fruits-map :
    (p : ℕ) (inferior : List ℕ) (reports : List Report) (fruits : List Fruit)
    → mem p inferior ≡ false
    → replace_fruits p inferior reports fruits ≡ map (moved_fruit p inferior reports) fruits
unfolding replace_fruits
replace_fruits-map p [] reports fruits out = map_same p reports fruits
replace_fruits-map p (q ∷ inferior) reports fruits out =
    replace_fruits-map p inferior reports (replace_fruit p q reports fruits) (ground (arith, out))
    ∙ replace_fruit-map p q inferior reports fruits (ground (arith, out))

abbrev moved_report : ℕ → List ℕ → Report → Report
moved_report p inferior r = if mem r.post inferior && is_open r then record r { post = p } else r

replace_report-map :
    (p q : ℕ) (inferior : List ℕ) (reports : List Report)
    → mem p inferior ≡ false
    → map (moved_report p inferior) (replace_report p q reports)
      ≡ map (moved_report p (q ∷ inferior)) reports
unfolding replace_report
replace_report-map p q inferior [] out = refl
replace_report-map p q inferior (r ∷ reports) out =
    ground (arith, replace_report-map p q inferior reports out, out)

map_same_reports : (p : ℕ) (reports : List Report) → reports ≡ map (moved_report p []) reports
map_same_reports p [] = refl
map_same_reports p (r ∷ reports) = ap (λ rs. r ∷ rs) (map_same_reports p reports)

replace_reports-map :
    (p : ℕ) (inferior : List ℕ) (reports : List Report)
    → mem p inferior ≡ false
    → replace_reports p inferior reports ≡ map (moved_report p inferior) reports
unfolding replace_reports
replace_reports-map p [] reports out = map_same_reports p reports
replace_reports-map p (q ∷ inferior) reports out =
    replace_reports-map p inferior (replace_report p q reports) (ground (arith, out))
    ∙ replace_report-map p q inferior reports (ground (arith, out))

all-moved_fruit :
    (p : ℕ) (inferior : List ℕ) (reports : List Report) (fruits : List Fruit)
    → mem p inferior ≡ false
    → all
        (λ f. not (has_open f.report reports && mem f.post inferior))
        (map (moved_fruit p inferior reports) fruits)
      ≡ true
all-moved_fruit p inferior reports [] out = refl
all-moved_fruit p inferior reports (f ∷ fruits) out =
    ground (arith, all-moved_fruit p inferior reports fruits out, out)

all-moved_report :
    (p : ℕ) (inferior : List ℕ) (reports : List Report)
    → mem p inferior ≡ false
    → all (λ r. not (is_open r && mem r.post inferior)) (map (moved_report p inferior) reports)
      ≡ true
unfolding is_open
all-moved_report p inferior [] out = refl
all-moved_report p inferior (r ∷ reports) out =
    ground (arith, all-moved_report p inferior reports out, out)

has_open-moved_report :
    (p id : ℕ) (inferior : List ℕ) (reports : List Report)
    → has_open id (map (moved_report p inferior) reports) ≡ has_open id reports
unfolding has_open is_open
has_open-moved_report p id inferior [] = refl
has_open-moved_report p id inferior (r ∷ reports) =
    ground (arith, has_open-moved_report p id inferior reports)

has_open-keep :
    (id : ℕ) (kept : Report → Bool) (reports : List Report)
    → has_open id (keep kept reports) ≡ true
    → has_open id reports ≡ true
unfolding has_open
has_open-keep id kept [] h = cc
has_open-keep id kept (r ∷ reports) h = ground (arith, has_open-keep id kept reports)

is_about-keep :
    (id post : ℕ) (kept : Report → Bool) (reports : List Report)
    → is_about id post reports ≡ false
    → is_about id post (keep kept reports) ≡ false
unfolding is_about
is_about-keep id post kept [] h = refl
is_about-keep id post kept (r ∷ reports) h = ground (arith, is_about-keep id post kept reports)

-- No open report to pluck is about one of the posts or has one among its fruit, no fruit is the
-- post of its report, and each report that is not approved has a fruit.
pub record IsTidy (inferior : List ℕ) (reports : List Report) (fruits : List Fruit) : Type 0 where
  pub posts : all (λ r. not (is_open r && mem r.post inferior)) reports ≡ true
  pub plucked : all (λ f. not (has_open f.report reports && mem f.post inferior)) fruits ≡ true
  pub others : all (λ f. not (is_about f.report f.post reports)) fruits ≡ true
  pub fruitful : all (λ r. r.approved || has_fruit r.id fruits) reports ≡ true

-- After the reports were updated they are tidy: no open report to pluck is about an inferior or has
-- one among its fruit, no fruit is the post of its report, and each report that is not approved
-- has a fruit. The superior is not among the inferiors.
pub update_dupe_reports-IsTidy :
    (p : ℕ) (inferior : List ℕ) (reports : List Report) (fruits : List Fruit)
    → mem p inferior ≡ false
    → IsTidy inferior
        (update_dupe_reports p inferior reports fruits).0
        (update_dupe_reports p inferior reports fruits).1
unfolding update_dupe_reports
update_dupe_reports-IsTidy p inferior reports fruits out =
    let moved = replace_fruits p inferior reports fruits in
    let single = keep (λ a. not (has_later a moved)) moved in
    let reports' = replace_reports p inferior reports in
    let test = λ (f : Fruit). not (is_about f.report f.post reports') in
    let fruits' = keep test single in
    let kept = λ (r : Report). r.approved || has_fruit r.id fruits' in
    let r_map = replace_reports-map p inferior reports out in
    let closed = λ (f : Fruit). not (has_open f.report reports && mem f.post inferior) in
    let plucked1 : all closed moved ≡ true =
      ap (all closed) (replace_fruits-map p inferior reports fruits out)
      ∙ all-moved_fruit p inferior reports fruits out in
    let opens : (f : Fruit)
        → has_open f.report (keep kept reports') ≡ true
        → has_open f.report reports ≡ true =
      λ f h.
        sym (ap (has_open f.report) r_map ∙ has_open-moved_report p f.report inferior reports)
        ∙ has_open-keep f.report kept reports' h in
    record {
      posts = all-keep _ kept reports' (
          ap (all (λ r. not (is_open r && mem r.post inferior))) r_map
          ∙ all-moved_report p inferior reports out);
      plucked =
          all_weaken closed _ fruits'
            (λ f h. elim (Bool-cases (has_open f.report (keep kept reports'))) [
              | inl e ↦ ground (arith, opens f e, h, e)
              | inr e ↦ ground (arith, e)
            ])
            (all-keep closed test single (all-keep closed _ moved plucked1));
      others =
          all_weaken test _ fruits'
            (λ f h. ground (arith, is_about-keep f.report f.post kept reports', h))
            (keep-all test single);
      fruitful = keep-all kept reports';
    }
