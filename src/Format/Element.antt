-- ===== src/Format/Element.antt =====
-- A read of an array within its bounds.
use atomix_js.Prelude.{ℕ, ◌≡◌, refl, List, some, get_elem?}
use atomix_js.Prelude.Result.{ok}
use atomix_js.Format.{element}

pub element_lem {ℓ} :
    {A : Type ℓ} (xs : List A) (i : ℕ) (x : A) → get_elem? xs i ≡ some x → element xs i ≡ ok x
unfolding element
element_lem xs i x e = rw (element, e) refl
