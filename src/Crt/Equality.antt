-- ===== src/Crt/Equality.antt =====
-- strcmp decides equality.
use amsserver.Base.{Bytes, ◌≡◌, true, ◌↔◌, ◌∷◌, arith}
use amsserver.Crt.Text.{equal}

pub equal_iff : (left right : Bytes) → (equal left right ≡ true) ↔ (left ≡ right)
unfolding equal
equal_iff (c ∷ left) (d ∷ right) = ground (equal_iff left right, arith)
equal_iff _ _ = ground arith
