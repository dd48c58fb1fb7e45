-- ===== src/Base/Fallible.antt =====
-- What a fallible function of the program returns: `Result<A, E>`.
pub data Result {ℓ} (A E : Type ℓ) : Type ℓ where
  ok : A → Result A E
  err : E → Result A E
