-- ===== src/Common/Texts.antt =====
-- Searches in C strings, and the elements of a list that pass a test.
use Prim.Native.Nat.{ℕ}
use mathlib.Core.Path.{◌≡◌, refl, ap}
use mathlib.Core.Bool.{Bool, true, false, ◌&&◌}
use mathlib.Core.Option.{Option, none, some}
use mathlib.Core.List.{List, [], ◌∷◌}
use hifetch.Common.Tests.{◌==◌, if◌then◌else◌}

-- `strncmp(text, word, strlen(word)) == 0`
unfoldable pub starts_with : List ℕ → List ℕ → Bool
starts_with text [] = true
starts_with [] (_ ∷ _) = false
starts_with (c ∷ text) (d ∷ word) = c == d && starts_with text word

-- `strstr(text, word)`: the rest of the text from the first occurrence on.
unfoldable pub strstr : List ℕ → List ℕ → Option (List ℕ)
strstr [] word = if starts_with [] word then some [] else none
strstr (c ∷ text) word =
    let rest = strstr text word in if starts_with (c ∷ text) word then some (c ∷ text) else rest

abbrev pub is_some {ℓ} : {A : Type ℓ} → Option A → Bool
is_some none = false
is_some (some a) = true

pub strstr-nil : (text : List ℕ) → is_some (strstr text []) ≡ true
unfolding strstr starts_with
strstr-nil [] = refl
strstr-nil (c ∷ text) = refl

module _ {ℓ} {A : Type ℓ} where
  unfoldable pub filter : (A → Bool) → List A → List A
  filter keep [] = []
  filter keep (x ∷ xs) = if keep x then x ∷ filter keep xs else filter keep xs

  pub filter_all :
      (keep : A → Bool) → ((a : A) → keep a ≡ true) → (xs : List A) → filter keep xs ≡ xs
  unfolding filter
  filter_all keep all [] = refl
  filter_all keep all (x ∷ xs) = rw (all x) (ap (λ r. x ∷ r) (filter_all keep all xs))
