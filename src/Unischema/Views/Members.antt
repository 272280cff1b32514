-- ===== src/Unischema/Views/Members.antt =====
-- Fields that come from a schema, in whatever order they are listed.
use Prim.Native.String.{String}
use mathlib.Core.List.{Permᴰ}
use mathlib.Core.List.Permᴰ.{nil, cons, swap, trans}
use petastorm.Prelude.{
  ◌≡◌, refl, ap, ◌∙◌, sym, Bool, true, false, none, some, List, [], ◌∷◌, map, if◌then◌else◌, arith,
  Bool-cases, Option-cases, inl, inr,
}
use petastorm.NGram.Keys.{same_name, same_name_iff, same_name_self, mem_name}
use petastorm.DataLoader.{Row}
use petastorm.Codecs.{UnischemaField}
use petastorm.RowGroupWorker.Rows.{lookup}
use petastorm.Unischema.Dicts.{IsDict}
use petastorm.Unischema.Views.{keep_fields}
use petastorm.Unischema.Views.Lookups.{last_named, IsNamed, last_named-keep_fields}

module _ {D : Type 0} where
  abbrev pub field_names : List (UnischemaField D) → List String
  field_names fs = map (λ f. f.name) fs

  -- The fields of a list are those that the schema has under their names.
  abbrev pub AreOf : Row (UnischemaField D) → List (UnischemaField D) → Type 0
  AreOf fields [] = Unit {0}
  AreOf fields (f ∷ fs) = (lookup fields f.name ≡ some f) × AreOf fields fs

  AreOf-perm :
      (fields : Row (UnischemaField D)) {xs ys : List (UnischemaField D)}
      → Permᴰ xs ys
      → AreOf fields ys
      → AreOf fields xs
  AreOf-perm fields nil h = tt
  AreOf-perm fields (cons e p) (a, h) = (rw e a, AreOf-perm fields p h)
  AreOf-perm fields (swap e d) (a, r) = (rw e (r.0), (rw d a, r.1))
  AreOf-perm fields (trans p q) h = AreOf-perm fields p (AreOf-perm fields q h)

  names_perm :
      (n : String) {xs ys : List (UnischemaField D)}
      → Permᴰ xs ys
      → mem_name n (field_names xs) ≡ mem_name n (field_names ys)
  unfolding mem_name
  names_perm n nil = refl
  names_perm n (cons {a = a} {b = b} e p) =
      let k : a.name ≡ b.name = ap (λ (f : UnischemaField D). f.name) e in
      rw (k, names_perm n p) refl
  names_perm n (swap {a = a} {b = b} {a' = c} {b' = d} e f) =
      let k : a.name ≡ d.name = ap (λ (f : UnischemaField D). f.name) e in
      let l : b.name ≡ c.name = ap (λ (f : UnischemaField D). f.name) f in rw (k, l) (ground arith)
  names_perm n (trans p q) = names_perm n p ∙ names_perm n q

  pub last_named-AreOf :
      (fields : Row (UnischemaField D)) (fs : List (UnischemaField D)) (n : String)
      → AreOf fields fs
      → last_named n fs ≡ (if mem_name n (field_names fs) then lookup fields n else none)
  unfolding mem_name
  last_named-AreOf fields [] n h = refl
  last_named-AreOf fields (f ∷ fs) n (a, h) =
      let ih = last_named-AreOf fields fs n h in
      elim (Bool-cases (same_name n f.name)) [
        | inl same ↦
            let n_f = (same_name_iff n f.name).0 same in
            let same' : same_name f.name n ≡ true = (same_name_iff f.name n).1 (sym n_f) in
            let found : lookup fields n ≡ some f = rw n_f a in
            rw (ih, same, same')
              (elim (Bool-cases (mem_name n (field_names fs))) [
                | inl e ↦ rw (e, found) refl
                | inr e ↦ rw (e, found) refl
              ])
        | inr other ↦
            let other' : same_name f.name n ≡ false =
              ground (arith, same_name_iff n f.name, same_name_iff f.name n) in
            rw (ih, other, other')
              (elim (Bool-cases (mem_name n (field_names fs))) [
                | inl e ↦ rw e (elim (Option-cases (lookup fields n)) [
                  | inl z ↦ rw z refl
                  | inr (g, z) ↦ rw z refl
                ])
                | inr e ↦ rw e refl
              ])
      ]

  keep_fields-AreOf :
      (all fields : Row (UnischemaField D)) (keep : String → Bool)
      → IsDict fields
      → IsNamed fields
      → ((n : String) (f : UnischemaField D) → lookup fields n ≡ some f → lookup all n ≡ some f)
      → AreOf all (keep_fields keep fields)
  unfolding keep_fields lookup
  keep_fields-AreOf all [] keep d named sub = tt
  keep_fields-AreOf all ((k, f) ∷ fields) keep (fresh, d) (e, named) sub =
      let later : (n : String) (g : UnischemaField D)
          → lookup fields n ≡ some g
          → lookup ((k, f) ∷ fields) n ≡ some g =
        (λ n g x. ground (arith, same_name_iff k n, fresh, x)) in
      let ih = keep_fields-AreOf all fields keep d named (λ n g x. sub n g (later n g x)) in
      elim (Bool-cases (keep k)) [
        | inl kept ↦
            rw (keep_fields, kept)
              (ap (λ (m : String). lookup all m) e ∙ sub k f (rw (same_name_self k) refl), ih)
        | inr dropped ↦ rw (keep_fields, dropped) ih
      ]

  pub keep_fields-last_named :
      (fields : Row (UnischemaField D)) (fs : List (UnischemaField D)) (keep : String → Bool)
      (n : String)
      → IsDict fields
      → IsNamed fields
      → Permᴰ fs (keep_fields keep fields)
      → last_named n fs ≡ (if keep n then lookup fields n else none)
  keep_fields-last_named fields fs keep n d named p =
      let kept = keep_fields-AreOf fields fields keep d named (λ m f x. x) in
      last_named-AreOf fields fs n (AreOf-perm fields p kept)
      ∙ ap (λ (b : Bool). if b then lookup fields n else none) (names_perm n p)
      ∙ sym (last_named-AreOf fields (keep_fields keep fields) n kept)
      ∙ last_named-keep_fields keep fields n d named
