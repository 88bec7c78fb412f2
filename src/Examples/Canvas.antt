-- ===== src/Examples/Canvas.antt =====
-- A page that is set up and drawn.
use incubator_htrace.Prelude.{ℕ, suc, ◌≡◌, refl, true, List, [], ◌∷◌, arith}
use incubator_htrace.Canvas.{Command, save, restore, is_plain, IsCanvas, run}
use incubator_htrace.Canvas.Bars.{SpanWidget}
use incubator_htrace.Canvas.Page.{Coordinates, Scene, group, row}
use incubator_htrace.Canvas.Drawing.{canvas_too_small, draw_page}
use incubator_htrace.Canvas.Setup.{draw_page-Restores}
use incubator_htrace.Examples.Data.{store, whole_pixels}

abbrev coordinates : Coordinates ℕ
coordinates = record {
  view_x = 1000;
  view_y = 600;
  x_b = 200;
  x_d = 250;
  x_s = 950;
  canvas_y = 600;
}

-- A context whose drawing state is a number that every command changes.
abbrev count : Command ℕ → ℕ × List ℕ → ℕ × List ℕ
count save (d, ds) = (d, d ∷ ds)
count restore (d, []) = (d, [])
count restore (d, e ∷ es) = (e, es)
count c (d, ds) = (suc d, ds)

count-restore :
    (s : ℕ × List ℕ) (d : ℕ) (ds : List ℕ)
    → s.1 ≡ d ∷ ds
    → ((count restore s).0 ≡ d) × ((count restore s).1 ≡ ds)
count-restore (c, []) d ds e = cc
count-restore (c, f ∷ fs) d ds e = (ground arith, ground arith)

count-plain : (c : Command ℕ) (s : ℕ × List ℕ) → is_plain c ≡ true → (count c s).1 ≡ s.1
count-plain save s h = cc
count-plain restore s h = cc
count-plain c s h = refl

count-IsCanvas : IsCanvas count (λ s. s.0) (λ s. s.1)
count-IsCanvas = record {
  state-save = λ s. refl;
  saved-save = λ s. refl;
  state-restore = λ s d ds e. (count-restore s d ds e).0;
  saved-restore = λ s d ds e. (count-restore s d ds e).1;
  saved-plain = λ c s h. count-plain c s h;
}

abbrev widget : SpanWidget ℕ
widget = record {
  x0 = 0;
  x_b = 205;
  x_d = 250;
  x_f = 950;
  x_t = 10;
  y0 = 4;
  y_f = 20;
  begin = 0;
  end = 100;
}

abbrev scene : Scene ℕ
scene = record {
  widgets = group (record { x0 = 0; x_f = 950; y0 = 0; y_f = 24 }) ∷ row widget 1 ∷ [];
  coordinates = coordinates;
}

draw_page-Restores_example :
    ((run count (λ s. s.0) (λ s. s.1) (draw_page store scene) (5, 1 ∷ [])).0 ≡ 5)
    × ((run count (λ s. s.0) (λ s. s.1) (draw_page store scene) (5, 1 ∷ [])).1 ≡ 1 ∷ [])
unfolding canvas_too_small
draw_page-Restores_example =
    draw_page-Restores count (λ s. s.0) (λ s. s.1) count-IsCanvas store scene refl (5, 1 ∷ [])
