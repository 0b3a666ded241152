-- ===== src/Base64/Tests.antt =====
-- The base64 theorems at concrete inputs.
use silly.Common.{ℕ, ◌≡◌, List, [], ◌∷◌, true, arith, some, ◌>>=◌}
use silly.Base64.{encodex, ldecode}
use silly.Base64.RoundTrip.{ldecode-encodex}

-- "Man!"
abbrev text : List ℕ
text = 77 ∷ 97 ∷ 110 ∷ 33 ∷ []

ldecode-encodex_example : (encodex true text >>= ldecode) ≡ some text
ldecode-encodex_example =
    ldecode-encodex true text (omega arith, (omega arith, (omega arith, (omega arith, tt))))
      (omega arith)
