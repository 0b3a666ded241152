-- ===== src/Dns/Access.antt =====
-- luaclib-src/ldns.c: reads that stay inside a message.
use silly.Common.{ℕ, zero, suc, ◌+◌, ◌<◌, ◌≤◌, ◌≡◌, List, [], ◌∷◌, arith, length, drop}
use silly.Dns.{Parse, outside, invalid, done, ◌>>=◌, byte, unpack_u16, unpack_u32}
use silly.Dns.Record.{address_bytes}

-- The reader stayed inside its buffers, and `P` holds of what it returned.
abbrev pub Inside {ℓ} : {A : Type ℓ} → (A → Type 0) → Parse A → Type 0
Inside P outside = ⊥
Inside P invalid = Unit {0}
Inside P (done a) = P a

abbrev pub Always {ℓ} : {A : Type ℓ} → A → Type 0
Always a = Unit {0}

pub >>=-Inside {ℓ κ} :
    {A : Type ℓ} {B : Type κ} (P : A → Type 0) (Q : B → Type 0) (m : Parse A) (f : A → Parse B)
    → Inside P m
    → ((a : A) → P a → Inside Q (f a))
    → Inside Q (m >>= f)
>>=-Inside P Q outside f h k = h
>>=-Inside P Q invalid f h k = tt
>>=-Inside P Q (done a) f h k = k a h

pub Inside-map {ℓ} :
    {A : Type ℓ} (P Q : A → Type 0) (m : Parse A) → ((a : A) → P a → Q a) → Inside P m → Inside Q m
Inside-map P Q outside k h = h
Inside-map P Q invalid k h = tt
Inside-map P Q (done a) k h = k a h

pub byte-Inside : (p : List ℕ) (i : ℕ) → i < length p → Inside Always (byte p i)
unfolding byte
byte-Inside [] i h = absurd (omega arith)
byte-Inside (x ∷ xs) zero h = tt
byte-Inside (x ∷ xs) (suc i) h = byte-Inside xs i (omega arith)

pub unpack_u16-Inside : (p : List ℕ) (i : ℕ) → i + 2 ≤ length p → Inside Always (unpack_u16 p i)
unfolding unpack_u16
unpack_u16-Inside p i h =
    >>=-Inside Always Always (byte p i) _ (byte-Inside p i (omega arith)) λ a _.
      >>=-Inside Always Always (byte p (i + 1)) _ (byte-Inside p (i + 1) (omega arith)) λ b _. tt

pub unpack_u32-Inside : (p : List ℕ) (i : ℕ) → i + 4 ≤ length p → Inside Always (unpack_u32 p i)
unfolding unpack_u32
unpack_u32-Inside p i h =
    >>=-Inside Always Always (byte p i) _ (byte-Inside p i (omega arith)) λ a _.
      >>=-Inside Always Always (byte p (i + 1)) _ (byte-Inside p (i + 1) (omega arith)) λ b _.
        >>=-Inside Always Always (byte p (i + 2)) _ (byte-Inside p (i + 2) (omega arith)) λ c _.
          >>=-Inside Always Always (byte p (i + 3)) _ (byte-Inside p (i + 3) (omega arith))
            λ d _. tt

pub address_bytes-Inside :
    (n : ℕ) (p : List ℕ) (i : ℕ) → i + n ≤ length p → Inside Always (address_bytes n p i)
unfolding address_bytes
address_bytes-Inside zero p i h = tt
address_bytes-Inside (suc n) p i h =
    >>=-Inside Always Always (byte p i) _ (byte-Inside p i (omega arith)) λ b _.
      >>=-Inside Always Always (address_bytes n p (i + 1)) _
        (address_bytes-Inside n p (i + 1) (omega arith)) λ bs _. tt

-- What stands at a position, by the part of the message that begins there.
pub byte-drop : (p : List ℕ) (i x : ℕ) (r : List ℕ) → drop i p ≡ x ∷ r → byte p i ≡ done x
unfolding byte
byte-drop [] zero x r e = cc
byte-drop [] (suc i) x r e = cc
byte-drop (y ∷ p) zero x r e = cc
byte-drop (y ∷ p) (suc i) x r e = byte-drop p i x r e
