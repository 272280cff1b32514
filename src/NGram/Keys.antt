-- ===== src/NGram/Keys.antt =====
-- The time steps of an NGram: Python's integers, which may be negative, and names.
use Prim.Native.String.{String}
use text.Mathlib.Text as Text
use text.Mathlib.TextEquality.{eq_iff}
use petastorm.Prelude.{
  ◌↔◌, refl, ◌≡◌, ℕ, ◌+◌, ◌-◌, Bool, true, false, List, [], ◌∷◌, leb, ltb, ◌==◌, if◌then◌else◌,
}

-- `negsuc n` is -(n + 1).
pub data ℤ : Type 0 where
  pos negsuc : ℕ → ℤ

unfoldable pub add : ℤ → ℕ → ℤ
add (ℤ.pos m) n = ℤ.pos (m + n)
add (ℤ.negsuc m) n = if ltb m n then ℤ.pos (n - (m + 1)) else ℤ.negsuc (m - n)

unfoldable pub le : ℤ → ℤ → Bool
le (ℤ.pos m) (ℤ.pos n) = leb m n
le (ℤ.pos m) (ℤ.negsuc n) = false
le (ℤ.negsuc m) (ℤ.pos n) = true
le (ℤ.negsuc m) (ℤ.negsuc n) = leb n m

unfoldable pub same_key : ℤ → ℤ → Bool
same_key (ℤ.pos m) (ℤ.pos n) = m == n
same_key (ℤ.negsuc m) (ℤ.negsuc n) = m == n
same_key _ _ = false

-- `high - low`, where `low` is not the greater one
unfoldable pub distance : ℤ → ℤ → ℕ
distance (ℤ.pos m) (ℤ.pos n) = n - m
distance (ℤ.pos m) (ℤ.negsuc n) = 0
distance (ℤ.negsuc m) (ℤ.pos n) = m + 1 + n
distance (ℤ.negsuc m) (ℤ.negsuc n) = m - n

unfoldable pub min_key : ℤ → List ℤ → ℤ
unfolding le
min_key k [] = k
min_key k (l ∷ ls) = min_key (if le k l then k else l) ls

unfoldable pub max_key : ℤ → List ℤ → ℤ
unfolding le
max_key k [] = k
max_key k (l ∷ ls) = max_key (if le k l then l else k) ls

abbrev pub same_name : String → String → Bool
same_name s t = Text.◌==◌ s t

pub same_name_iff : (s t : String) → (same_name s t ≡ true) ↔ (s ≡ t)
same_name_iff s t = eq_iff s t

pub same_name_self : (s : String) → same_name s s ≡ true
same_name_self s = (same_name_iff s s).1 refl

unfoldable pub mem_name : String → List String → Bool
mem_name s [] = false
mem_name s (t ∷ ts) = if same_name s t then true else mem_name s ts
