-- ===== src/Fs/Result.antt =====
-- Go's (value, error) pairs in fs/, and the panics that the code can run into.
use go9p.Base.{List, ℕ}

abbrev pub Text : Type 0
Text = List ℕ

pub data Result {ℓ} (A : Type ℓ) : Type ℓ where
  ok : A → Result A
  err : Text → Result A
  panic : Result A
