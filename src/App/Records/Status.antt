-- ===== src/App/Records/Status.antt =====
-- A status is a string: what the guards of the handlers say of it.
use mathlib.Core.Bool.{false≢true}
use aacp.Prelude.{
  String, ◌≡◌, sym, ◌∙◌, ◌⊎◌, inl, inr, false, not, ◌&&◌, Bool-cases, arith, str_eq, eq_iff,
}

pub either_status :
    (a b s : String) → (not (str_eq s a) && not (str_eq s b)) ≡ false → (s ≡ a) ⊎ (s ≡ b)
either_status a b s h = elim (Bool-cases (str_eq s a)) [
  | inl same ↦ inl ((eq_iff s a).0 same)
  | inr other ↦ inr ((eq_iff s b).0 (ground arith))
]

pub is_status : (a s : String) → not (str_eq s a) ≡ false → s ≡ a
is_status a s h = (eq_iff s a).0 (ground arith)

pub clash : {A : Type 0} (x y b : String) → str_eq x y ≡ false → b ≡ x → b ≡ y → A
clash x y b d e h = absurd (false≢true (sym d ∙ (eq_iff x y).1 (sym e ∙ h)))
