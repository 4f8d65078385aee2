-- ===== src/Crt/Search.antt =====
-- strstr and sscanf_s on a text of items: `name=value`, joined by '&'.
use amsserver.Crt.Scan.{before}
use amsserver.Base.{refl, ◌≡◌, ◌∷◌, [], true, false, ℕ, Bytes, ◌≢◌, Bool, ◌++◌, arith, ◌==◌, ◌||◌}
use amsserver.Crt.Text.{strstr, starts_with}

-- The byte `c` is not in the text.
abbrev pub Lacks : ℕ → Bytes → Type 0
Lacks c [] = Unit {0}
Lacks c (x ∷ s) = (x ≢ c) × Lacks c s

abbrev pub has : ℕ → Bytes → Bool
has c [] = false
has c (x ∷ s) = x == c || has c s

-- A key with '=' and without '&' does not start inside a value, which has no '='.
starts_with-value :
    (key v rest : Bytes)
    → has b'=' key ≡ true
    → has b'&' key ≡ false
    → Lacks b'=' v
    → starts_with key (v ++ b'&' ∷ rest) ≡ false
unfolding starts_with
starts_with-value [] v rest h k l = cc
starts_with-value (c ∷ key) [] rest h k l = ground arith
starts_with-value (c ∷ key) (x ∷ v) rest h k l = ground (arith, starts_with-value key v rest)

pub strstr-value :
    (key v rest : Bytes)
    → has b'=' key ≡ true
    → has b'&' key ≡ false
    → Lacks b'=' v
    → strstr (v ++ b'&' ∷ rest) key ≡ strstr rest key
unfolding strstr
strstr-value key [] rest h k l = rw (starts_with-value key [] rest h k l)
strstr-value key (x ∷ v) rest h k l =
    rw (starts_with-value key (x ∷ v) rest h k l) (strstr-value key v rest h k l.1)

pub before-value : (v rest : Bytes) → Lacks b'&' v → before b'&' (v ++ b'&' ∷ rest) ≡ v
unfolding before
before-value [] rest l = refl
before-value (x ∷ v) rest l = ground (arith, before-value v rest l.1)

pub before_all : (c : ℕ) (v : Bytes) → Lacks c v → before c v ≡ v
unfolding before
before_all c [] l = refl
before_all c (x ∷ v) l = ground (arith, before_all c v l.1)
