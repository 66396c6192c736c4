-- ===== src/Paginator/Examples.antt =====
-- The buttons of a page in the middle of a list (handlers/paginator/paginator.go).
use pbooru.Paginator.Bounds.{paginate_bounds}
use pbooru.Prelude.{All, arith, keep, length, refl, ◌≡◌, ◌≤◌}
use pbooru.Paginator.{Paginator, Page, make, limits, max, paginate, min}

abbrev middle : Paginator
middle = record { current = 7; last = 12; plength = 4 }

make_runs : make 7 116 10 4 ≡ middle
unfolding make
make_runs = refl

limits_run : limits middle ≡ (6, 9)
unfolding limits max min
limits_run = refl

paginate_bounds_example :
    All (λ b. (1 ≤ b.href) × (b.href ≤ 12)) (paginate middle)
    × (length (keep (λ (b : Page). b.is_current) (paginate middle)) ≡ 1)
    × (length (paginate middle) ≤ 8)
paginate_bounds_example = paginate_bounds middle (omega arith)
