-- ===== src/Base/Perms.antt =====
-- Predicates on permuted lists.
use mathlib.Core.List.{Permᴰ}
use zero_latency_yolo.Base.{List, All, subst}

pub All-Permᴰ {ℓ κ} :
    {A : Type ℓ} (P : A → Type κ) {xs ys : List A} → Permᴰ xs ys → All P xs → All P ys
All-Permᴰ P Permᴰ.nil h = tt
All-Permᴰ P (Permᴰ.cons e d) h = (subst P e h.0, All-Permᴰ P d h.1)
All-Permᴰ P (Permᴰ.swap e₁ e₂) h = (subst P e₂ h.1.0, (subst P e₁ h.0, h.1.1))
All-Permᴰ P (Permᴰ.trans d₁ d₂) h = All-Permᴰ P d₂ (All-Permᴰ P d₁ h)
