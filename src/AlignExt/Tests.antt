-- ===== src/AlignExt/Tests.antt =====
-- Alignment to 8 (align_ext/src/lib.rs).
use jinux.Base.{◌≡◌, refl, some, none}
use jinux.AlignExt.{align_up, align_down}

twelve_up : align_up 12 8 ≡ some 16
unfolding align_up
twelve_up = refl

three_refused : align_down 12 3 ≡ none
unfolding align_down
three_refused = refl
