-- ===== src/Base/Strings.antt =====
-- Byte strings: `std::string` and `string_view` are lists of the byte values 0 to 255.
use Prim.Native.Char.{code}
use Prim.Native.Nat.{ℕ, ◌<◌}
use Prim.Native.String.{String}
use mathlib.Core.Path.{◌≡◌, refl}
use mathlib.Core.Logic.{◌↔◌}
use mathlib.Core.Bool.{Bool, true, false, ◌&&◌, ◌||◌}
use mathlib.Core.List.{List, [], ◌∷◌, ◌++◌, reverse}
use native.Mathlib.Omega.{arith}
use apt_cacher_ng.Base.Tests.{◌==◌}

abbrev pub Bytes : Type 0
Bytes = List ℕ

-- The bytes of an ASCII literal.
abbrev pub codes : String → Bytes
codes String.[] = []
codes (String.◌∷◌ c s) = code c ∷ codes s

module _ {ℓ κ} {A : Type ℓ} (P : A → Type κ) where
  abbrev pub All : List A → Type κ
  All [] = Unit
  All (x ∷ xs) = P x × All xs

  pub All-append : (xs ys : List A) → All xs → All ys → All (xs ++ ys)
  All-append [] ys hx hy = hy
  All-append (x ∷ xs) ys (px, hx) hy = (px, All-append xs ys hx hy)

pub All-imp : {P Q : ℕ → Type 0} (s : Bytes) → ((c : ℕ) → P c → Q c) → All P s → All Q s
All-imp [] k h = tt
All-imp (c ∷ s) k h = (k c h.0, All-imp s k h.1)

abbrev pub AreBytes : Bytes → Type 0
AreBytes = All (λ c. c < 256)

abbrev pub null : Bytes → Bool
null [] = true
null (c ∷ s) = false

-- `==` of two strings.
unfoldable pub equal : Bytes → Bytes → Bool
equal (c ∷ s) (d ∷ t) = c == d && equal s t
equal (c ∷ s) [] = false
equal [] t = null t

pub equal_iff : (s t : Bytes) → (equal s t ≡ true) ↔ (s ≡ t)
unfolding equal
equal_iff [] [] = ground arith
equal_iff [] (d ∷ t) = ground arith
equal_iff (c ∷ s) [] = ground arith
equal_iff (c ∷ s) (d ∷ t) = ground (arith, equal_iff s t)

pub equal_refl : (a : Bytes) → equal a a ≡ true
equal_refl a = (equal_iff a a).1 refl

-- `startsWith(where, what)` of astrop.h.
unfoldable pub starts_with : Bytes → Bytes → Bool
starts_with s [] = true
starts_with [] (y ∷ ys) = false
starts_with (x ∷ xs) (y ∷ ys) = x == y && starts_with xs ys

-- Membership of a byte in a set of characters.
unfoldable pub mem_byte : ℕ → Bytes → Bool
mem_byte c [] = false
mem_byte c (x ∷ xs) = c == x || mem_byte c xs

-- `endsWith(where, what)`.
unfoldable pub ends_with : Bytes → Bytes → Bool
unfolding starts_with
ends_with s what = starts_with (reverse s) (reverse what)
