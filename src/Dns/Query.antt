-- ===== src/Dns/Query.antt =====
-- luaclib-src/ldns.c: the checks of a name, and the query that `lquestion` builds.
use silly.Common.{
  ℕ, suc, ◌+◌, ◌/◌, ◌%◌, List, [], ◌∷◌, ◌++◌, Option, none, some, Bool, false, not, ◌&&◌, ◌||◌, ltb,
  leb, ◌==◌, if◌then◌else◌, length,
}
use silly.Common.Int.{ℤ, pos, negsuc}
use silly.Dns.{dot}

unfoldable pub ldotcount : List ℕ → ℕ
ldotcount [] = 0
ldotcount (c ∷ name) = if c == dot then suc (ldotcount name) else ldotcount name

-- The loop of `lvalidname` with the length of the label so far.
unfoldable pub valid_from : ℕ → List ℕ → Bool
valid_from label_len [] = not (ltb 63 label_len)
valid_from label_len (c ∷ name) =
    not ((c == dot) && ((label_len == 0) || ltb 63 label_len))
    && valid_from (if c == dot then 0 else label_len + 1) name

unfoldable pub lvalidname : List ℕ → Bool
unfolding valid_from
lvalidname name = if (length name == 0) || ltb 253 (length name) then false else valid_from 0 name

-- The two bytes of a field, the high one first.
unfoldable pub pack_u16 : ℕ → List ℕ
pack_u16 v = v / 256 % 256 ∷ v % 256 ∷ []

unfoldable pub q_header : ℕ → List ℕ
unfolding pack_u16
q_header id = pack_u16 id ++ 1 ∷ 0 ∷ 0 ∷ 1 ∷ 0 ∷ 0 ∷ 0 ∷ 0 ∷ 0 ∷ 1 ∷ []

-- One character more in front of the first label.
unfoldable pub cons_label : ℕ → List (List ℕ) → List (List ℕ)
cons_label c [] = (c ∷ []) ∷ []
cons_label c (l ∷ ls) = if c == dot then [] ∷ l ∷ ls else (c ∷ l) ∷ ls

-- The parts of a name that `memchr` finds between the dots.
unfoldable pub labels : List ℕ → List (List ℕ)
unfolding cons_label
labels [] = [] ∷ []
labels (c ∷ name) = cons_label c (labels name)

-- The body of the loop of `q_name`: an empty label is skipped.
unfoldable pub q_label : List ℕ → List ℕ
q_label [] = []
q_label (c ∷ l) = length (c ∷ l) % 256 ∷ c ∷ l

unfoldable pub q_labels : List (List ℕ) → List ℕ
unfolding q_label
q_labels [] = []
q_labels (l ∷ ls) = q_label l ++ q_labels ls

unfoldable pub q_name : List ℕ → List ℕ
unfolding labels q_labels
q_name name = q_labels (labels name) ++ 0 ∷ []

unfoldable pub q_type : ℕ → List ℕ
unfolding pack_u16
q_type qtype = pack_u16 qtype ++ 0 ∷ 1 ∷ []

-- The EDNS0 record: the root, type 41, 4096 bytes of UDP, no flags and no data.
unfoldable pub q_opt : List ℕ
q_opt = 0 ∷ 0 ∷ 41 ∷ 16 ∷ 0 ∷ 0 ∷ 0 ∷ 0 ∷ 0 ∷ 0 ∷ 0 ∷ []

-- `luaL_argcheck`: the integer between the bounds.
unfoldable pub in_range : ℕ → ℕ → ℤ → Option ℕ
in_range lo hi (pos n) = if leb lo n && leb n hi then some n else none
in_range lo hi (negsuc n) = none

unfoldable pub build_query : List ℕ → Option ℕ → Option ℕ → Option (List ℕ)
unfolding q_header q_name q_type q_opt
build_query name (some qtype) (some id) =
    some (q_header id ++ (q_name name ++ (q_type qtype ++ q_opt)))
build_query name _ _ = none

-- `none` is the error that `luaL_argcheck` raises.
unfoldable pub lquestion : List ℕ → ℤ → ℤ → Option (List ℕ)
unfolding build_query in_range
lquestion name qtype id = build_query name (in_range 1 65535 qtype) (in_range 0 65535 id)
