-- ===== src/Prelude/Trimming.antt =====
-- `strings.TrimSpace` on texts with nothing to trim.
use Prim.Native.Nat.{ℕ}
use mathlib.Core.Path.{◌≡◌, sym, ap, ◌∙◌}
use mathlib.Core.Bool.{false}
use mathlib.Core.List.{[], ◌∷◌, ◌++◌, reverse, reverse-append, reverse-reverse}
use ludus.Prelude.Text.{Text, is_space, trim_left, trim_space}

-- A text that neither begins nor ends with space.
pub trim_space-trimmed :
    (c : ℕ) (s : Text) (d : ℕ)
    → is_space c ≡ false
    → is_space d ≡ false
    → trim_space (c ∷ (s ++ d ∷ [])) ≡ c ∷ (s ++ d ∷ [])
unfolding trim_space trim_left
trim_space-trimmed c s d hc hd = rw hc (
    ap (λ t. reverse (trim_left t)) (reverse-append (c ∷ s) (d ∷ []))
    ∙ rw hd
        (ap reverse (sym (reverse-append (c ∷ s) (d ∷ []))) ∙ reverse-reverse (c ∷ (s ++ d ∷ []))))
