-- ===== src/Unischema/Dicts.antt =====
-- The fields of a schema as a dictionary.
use Prim.Native.String.{String}
use petastorm.Prelude.{
  ◌≡◌, refl, ◌∙◌, true, false, none, some, List, [], ◌∷◌, arith, Bool-cases, inl, inr,
}
use petastorm.NGram.Keys.{same_name, same_name_iff, mem_name}
use petastorm.DataLoader.{Row}
use petastorm.Codecs.{UnischemaField}
use petastorm.RowGroupWorker.Rows.{lookup, set_key}
use petastorm.Unischema.{ordered_dict, init, names}
use petastorm.Unischema.Writing.{lookup-set_key}

-- A dictionary has each key once.
abbrev pub IsDict : {X : Type 0} → Row X → Type 0
IsDict [] = Unit {0}
IsDict ((k, x) ∷ r) = (lookup r k ≡ none) × IsDict r

set_key-IsDict : {X : Type 0} (k : String) (v : X) (r : Row X) → IsDict r → IsDict (set_key k v r)
unfolding set_key lookup
set_key-IsDict k v [] h = (refl, tt)
set_key-IsDict k v ((j, w) ∷ r) (fresh, h) = elim (Bool-cases (same_name j k)) [
  | inl same ↦ rw (set_key, same) (fresh, h)
  | inr other ↦
      let away : same_name k j ≡ false = ground (arith, same_name_iff k j, same_name_iff j k) in
      rw (set_key, other) (lookup-set_key k j v r ∙ rw away fresh, set_key-IsDict k v r h)
]

ordered_dict-IsDict :
    {D : Type 0} (fs : List (UnischemaField D)) (d : Row (UnischemaField D))
    → IsDict d
    → IsDict (ordered_dict d fs)
unfolding ordered_dict
ordered_dict-IsDict [] d h = h
ordered_dict-IsDict (f ∷ fs) d h =
    ordered_dict-IsDict fs (set_key f.name f d) (set_key-IsDict f.name f d h)

-- The fields of a new schema have different names.
pub init-IsDict :
    {D : Type 0} (name : String) (fs : List (UnischemaField D)) → IsDict (init name fs).fields
unfolding init
init-IsDict name fs = ordered_dict-IsDict fs [] tt

pub lookup-mem_name :
    {X : Type 0} (r : Row X) (n : String) (x : X)
    → lookup r n ≡ some x
    → mem_name n (names r) ≡ true
unfolding lookup mem_name
lookup-mem_name [] n x h = cc
lookup-mem_name ((k, y) ∷ r) n x h = elim (Bool-cases (same_name k n)) [
  | inl same ↦
      let here : same_name n k ≡ true = ground (arith, same_name_iff k n, same_name_iff n k) in
      rw here refl
  | inr other ↦ let ih = lookup-mem_name r n x (ground (arith, h, other)) in ground (arith, ih)
]
