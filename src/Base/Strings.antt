-- ===== src/Base/Strings.antt =====
-- Python's `str` as a list of code points, and the parts of `str` that the program uses.
use Prim.Native.Nat.{ℕ}
use Prim.Native.Char.{code}
use Prim.Native.String.{String}
use mathlib.Core.Path.{◌≡◌}
use mathlib.Core.Logic.{◌↔◌}
use mathlib.Core.Bool.{Bool, true, false, ◌&&◌, ◌||◌}
use mathlib.Core.List.{List, [], ◌∷◌, reverse}
use native.Mathlib.Omega.{arith}
use portal_mcp_server.Base.Tests.{leb, nat_beq, EqTest, if◌then◌else◌}

abbrev pub Text : Type 0
Text = List ℕ

abbrev pub codes : String → Text
codes String.[] = []
codes (String.◌∷◌ c s) = code c ∷ codes s

unfoldable pub text_eq : Text → Text → Bool
text_eq [] [] = true
text_eq (x ∷ xs) (y ∷ ys) = nat_beq x y && text_eq xs ys
text_eq _ _ = false

pub text_eq_iff : (a b : Text) → (text_eq a b ≡ true) ↔ (a ≡ b)
unfolding text_eq
text_eq_iff [] [] = ground arith
text_eq_iff [] (y ∷ ys) = ground arith
text_eq_iff (x ∷ xs) [] = ground arith
text_eq_iff (x ∷ xs) (y ∷ ys) = ground (arith, text_eq_iff xs ys)

instance abbrev pub text_has_eq : EqTest Text
text_has_eq = record { test = text_eq; decides = text_eq_iff }

-- `str.isspace`
abbrev pub is_space : ℕ → Bool
is_space c =
    leb 9 c && leb c 13
    || leb 28 c && leb c 32
    || nat_beq c 133
    || nat_beq c 160
    || nat_beq c 5760
    || leb 8192 c && leb c 8202
    || nat_beq c 8232
    || nat_beq c 8233
    || nat_beq c 8239
    || nat_beq c 8287
    || nat_beq c 12288

unfoldable pub lstrip : Text → Text
lstrip [] = []
lstrip (c ∷ cs) = if is_space c then lstrip cs else c ∷ cs

-- `str.strip`
unfoldable pub strip : Text → Text
unfolding lstrip
strip s = reverse (lstrip (reverse (lstrip s)))
