-- ===== src/Prelude/Bags.antt =====
-- Lists of numbers as bags: how often a number stands in a list.
use Prim.Native.Nat.{ℕ, ◌+◌}
use mathlib.Core.Path.{◌≡◌, sym, subst}
use mathlib.Core.List.{List, [], ◌∷◌, ◌++◌}
use mathlib.Core.List.{Permᴰ}
use native.Mathlib.Omega.{arith}
use perf_analyzer.Prelude.Tests.{◌==◌, if◌then◌else◌}
use perf_analyzer.Prelude.Lists.{All}

abbrev pub count : ℕ → List ℕ → ℕ
count n [] = 0
count n (x ∷ xs) = (if n == x then 1 else 0) + count n xs

pub count-append : (n : ℕ) (xs ys : List ℕ) → count n (xs ++ ys) ≡ count n xs + count n ys
count-append n [] ys = omega arith
count-append n (x ∷ xs) ys = omega (arith, count-append n xs ys)

-- The members of the lists, in one list.
abbrev pub concat {ℓ} : {A : Type ℓ} → List (List A) → List A
concat [] = []
concat (xs ∷ xss) = xs ++ concat xss

-- A reordered list has the same members.
pub All-Perm {ℓ κ} :
    {A : Type ℓ} (P : A → Type κ) {xs ys : List A} → Permᴰ xs ys → All P ys → All P xs
All-Perm P Permᴰ.nil a = tt
All-Perm P (Permᴰ.cons e d) (p, a) = (subst P (sym e) p, All-Perm P d a)
All-Perm P (Permᴰ.swap e f) (p, (q, a)) = (subst P (sym e) q, (subst P (sym f) p, a))
All-Perm P (Permᴰ.trans d e) a = All-Perm P d (All-Perm P e a)
