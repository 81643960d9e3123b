-- ===== src/Prelude/Text.antt =====
-- Texts as lists of bytes, for std::string and std::string_view: equality, emptiness, `find` of a
-- byte followed by `substr`, and the literals of the source.
use Prim.Native.Nat.{ℕ}
use Prim.Native.Char.{code}
use Prim.Native.String.{String}
use mathlib.Core.Path.{◌≡◌, refl}
use mathlib.Core.Logic.{◌↔◌}
use mathlib.Core.Bool.{Bool, true, false, ◌&&◌}
use mathlib.Core.Option.{Option, none, some}
use mathlib.Core.List.{List, [], ◌∷◌, ◌++◌}
use native.Mathlib.Omega.{arith}
use roq_fix_proxy.Prelude.Tests.{Eq, nat_beq, nat_beq_iff, if◌then◌else◌}

abbrev pub Text : Type 0
Text = List ℕ

-- The bytes of a literal.
abbrev pub codes : String → Text
codes String.[] = []
codes (String.◌∷◌ c s) = code c ∷ codes s

unfoldable pub text_beq : Text → Text → Bool
text_beq [] [] = true
text_beq [] (b ∷ t) = false
text_beq (a ∷ s) [] = false
text_beq (a ∷ s) (b ∷ t) = nat_beq a b && text_beq s t

pub text_beq_iff : (s t : Text) → (text_beq s t ≡ true) ↔ (s ≡ t)
unfolding text_beq
text_beq_iff [] [] = ((λ e. refl), (λ e. refl))
text_beq_iff [] (b ∷ t) = ((λ e. cc), (λ e. cc))
text_beq_iff (a ∷ s) [] = ((λ e. cc), (λ e. cc))
text_beq_iff (a ∷ s) (b ∷ t) = (
  (λ e. ground (arith, nat_beq_iff a b, text_beq_iff s t)),
  (λ e. ground (arith, nat_beq_iff a b, text_beq_iff s t)),
)

instance abbrev pub text_eq : Eq Text
text_eq = record { equals = text_beq; equals_iff = text_beq_iff }

-- std::empty(text)
abbrev pub is_empty : Text → Bool
is_empty [] = true
is_empty (c ∷ t) = false

-- The text behind the first byte `c`: find(c) and, unless npos, substr(pos + 1).
unfoldable pub after_first : ℕ → Text → Option Text
after_first c [] = none
after_first c (a ∷ t) = if nat_beq a c then some t else after_first c t

-- The text before the first byte `c`: find_first_of(c) and, unless npos, substr(0, pos).
unfoldable pub before_first : ℕ → Text → Option Text
before_first c [] = none
before_first c (a ∷ t) =
    let rest = before_first c t in
    if nat_beq a c then some [] else elim rest [ none ↦ none | some s ↦ some (a ∷ s) ]

-- The byte `c` does not stand in the text.
abbrev pub Lacks : ℕ → Text → Type 0
Lacks c [] = Unit {0}
Lacks c (a ∷ t) = (nat_beq a c ≡ false) × Lacks c t

pub Lacks-append : (c : ℕ) (s t : Text) → Lacks c s → Lacks c t → Lacks c (s ++ t)
Lacks-append c [] t hs ht = ht
Lacks-append c (a ∷ s) t hs ht = (hs.0, Lacks-append c s t hs.1 ht)

-- The search stops at the first occurrence.
pub after_first-append : (c : ℕ) (s t : Text) → Lacks c s → after_first c (s ++ c ∷ t) ≡ some t
unfolding after_first
after_first-append c [] t h = ground (arith, nat_beq_iff c c)
after_first-append c (a ∷ s) t h = ground (arith, after_first-append c s t h.1)

pub before_first-append : (c : ℕ) (s t : Text) → Lacks c s → before_first c (s ++ c ∷ t) ≡ some s
unfolding before_first
before_first-append c [] t h = ground (arith, nat_beq_iff c c)
before_first-append c (a ∷ s) t h = ground (arith, before_first-append c s t h.1)

-- Without the byte there is nothing to split at.
pub after_first-Lacks : (c : ℕ) (s : Text) → Lacks c s → after_first c s ≡ none
unfolding after_first
after_first-Lacks c [] h = refl
after_first-Lacks c (a ∷ s) h = ground (arith, after_first-Lacks c s h.1)
