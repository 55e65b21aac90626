-- ===== src/Crypto/Tests.antt =====
-- Runs and instances for Common/crypto.cpp.
use tycho_sipwitchqt.Prelude.{ℕ, zero, suc, ◌≡◌, refl, ap, Option, some, [], ◌∷◌, arith}
use tycho_sipwitchqt.UString.{Bytes, codes}
use tycho_sipwitchqt.Crypto.{random, pad, unpad}
use tycho_sipwitchqt.Crypto.Padding.{IsReliable, unpad-pad}

abbrev sevens : ℕ → Bytes
sevens zero = []
sevens (suc n) = 7 ∷ sevens n

abbrev generator : ℕ → Option Bytes
generator n = some (sevens n)

generator-IsReliable : IsReliable generator
unfolding random
generator-IsReliable zero = refl
generator-IsReliable (suc n) = ap suc (generator-IsReliable n)

pad_runs : pad generator (codes "abc") 8 ≡ 97 ∷ 98 ∷ 99 ∷ 7 ∷ 7 ∷ 7 ∷ 7 ∷ 5 ∷ []
unfolding pad
pad_runs = refl

unpad-pad_example : unpad sevens (pad generator (codes "abc") 16) 0 ≡ some (codes "abc")
unpad-pad_example =
    unpad-pad generator generator-IsReliable sevens (codes "abc") 16 (omega arith) (omega arith)
