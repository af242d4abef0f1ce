-- ===== src/Base/Outcomes.antt =====
-- Rust's `Result`, and how a call stops early: by an error that `?` passes on, or by a panic
-- (`expect`, `unwrap`).
pub data Result {ℓ} (E A : Type ℓ) : Type ℓ where
  ok : A → Result E A
  err : E → Result E A

pub data Stop {ℓ} (E : Type ℓ) : Type ℓ where
  raised : E → Stop E
  panicked : Stop E
