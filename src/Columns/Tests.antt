-- ===== src/Columns/Tests.antt =====
-- Runs of the fitting of texts, and the witnesses of the theorems.
use volute.Prelude.{ℕ, ◌≤◌, ◌<◌, ◌≡◌, refl, max, [], ◌∷◌, length, leb, if◌then◌else◌, All, arith}
use volute.Bytes.{codes}
use volute.Terminal.{Text}
use volute.Columns.{width, truncate, wrap}
use volute.Columns.Laws.{Truncated, truncate-Truncated}
use volute.Columns.Wrap.{wrap-fits}
use volute.Columns.Wrap.Content.{visible, joined, wrap-visible}

-- East Asian characters take two columns.
abbrev toy_width : ℕ → ℕ
toy_width c = if leb 0x1100 c then 2 else 1

abbrev sentence : Text
sentence = codes "a few words, and incomprehensibilities"

toy_width-fits : (text : Text) → All (λ c. (1 ≤ toy_width c) × (toy_width c ≤ max 12 1)) text
toy_width-fits [] = tt
toy_width-fits (c ∷ cs) = ((ground arith, ground arith), toy_width-fits cs)

wrap-fits_example :
    All (λ line. width toy_width line ≤ max 12 1) (wrap toy_width sentence 12)
    × (0 < length (wrap toy_width sentence 12))
wrap-fits_example = wrap-fits toy_width sentence 12 refl

wrap-visible_example : visible (joined (wrap toy_width sentence 12)) ≡ visible sentence
wrap-visible_example = wrap-visible toy_width sentence 12 refl (toy_width-fits sentence)

truncate-Truncated_example :
    Truncated toy_width sentence 9 (codes "...") (truncate toy_width sentence 9 (codes "..."))
    × (width toy_width (truncate toy_width sentence 9 (codes "...")) ≤ 9)
truncate-Truncated_example = truncate-Truncated toy_width sentence 9 (codes "...")
