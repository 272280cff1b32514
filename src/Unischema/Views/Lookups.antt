-- ===== src/Unischema/Views/Lookups.antt =====
-- What is found under a name in a new schema, and among the fields of an old one that are kept.
use Prim.Native.String.{String}
use petastorm.Prelude.{
  ◌≡◌, refl, ◌∙◌, sym, Bool, true, false, Option, none, some, List, [], ◌∷◌, ◌++◌, if◌then◌else◌,
  arith, Bool-cases, Option-cases, inl, inr,
}
use petastorm.NGram.Keys.{same_name, same_name_iff}
use petastorm.DataLoader.{Row}
use petastorm.Codecs.{UnischemaField}
use petastorm.RowGroupWorker.Rows.{lookup, set_key}
use petastorm.Unischema.{ordered_dict, init}
use petastorm.Unischema.Writing.{lookup-set_key}
use petastorm.Unischema.Dicts.{IsDict}
use petastorm.Unischema.Views.{keep_fields}

module _ {D : Type 0} where
  abbrev pub or_else :
      Option (UnischemaField D) → Option (UnischemaField D) → Option (UnischemaField D)
  or_else none o = o
  or_else (some g) o = some g

  -- The last field of a name.
  abbrev pub last_named : String → List (UnischemaField D) → Option (UnischemaField D)
  last_named n [] = none
  last_named n (f ∷ fs) = or_else (last_named n fs) (if same_name f.name n then some f else none)

  lookup-ordered_dict :
      (fs : List (UnischemaField D)) (d : Row (UnischemaField D)) (n : String)
      → lookup (ordered_dict d fs) n ≡ or_else (last_named n fs) (lookup d n)
  unfolding ordered_dict
  lookup-ordered_dict [] d n = refl
  lookup-ordered_dict (f ∷ fs) d n =
      lookup-ordered_dict fs (set_key f.name f d) n ∙ elim (Option-cases (last_named n fs)) [
        | inr (g, e) ↦ rw e refl
        | inl e ↦
            rw (e, lookup-set_key f.name n f d)
              (elim (Bool-cases (same_name f.name n)) [
                | inl same ↦ rw same refl
                | inr other ↦ rw other refl
              ])
      ]

  -- The last field of a name is what a schema finds under it.
  pub lookup-init :
      (name : String) (fs : List (UnischemaField D)) (n : String)
      → lookup (init name fs).fields n ≡ last_named n fs
  unfolding init lookup
  lookup-init name fs n =
      lookup-ordered_dict fs [] n
      ∙ elim (Option-cases (last_named n fs)) [ inr (g, e) ↦ rw e refl | inl e ↦ rw e refl ]

  pub last_named-append :
      (n : String) (xs ys : List (UnischemaField D))
      → last_named n (xs ++ ys) ≡ or_else (last_named n ys) (last_named n xs)
  last_named-append n [] ys = elim (Option-cases (last_named n ys)) [
    | inr (g, e) ↦ rw e refl
    | inl e ↦ rw e refl
  ]
  last_named-append n (x ∷ xs) ys =
      rw (last_named-append n xs ys)
        (elim (Option-cases (last_named n ys)) [ inr (g, e) ↦ rw e refl | inl e ↦ rw e refl ])

  -- A schema keeps each field under its own name.
  abbrev pub IsNamed : Row (UnischemaField D) → Type 0
  IsNamed [] = Unit {0}
  IsNamed ((k, f) ∷ fields) = (f.name ≡ k) × IsNamed fields

  set_key-IsNamed :
      (f : UnischemaField D) (fields : Row (UnischemaField D))
      → IsNamed fields
      → IsNamed (set_key f.name f fields)
  unfolding set_key
  set_key-IsNamed f [] h = (refl, tt)
  set_key-IsNamed f ((k, g) ∷ fields) (e, h) = elim (Bool-cases (same_name k f.name)) [
    | inl same ↦ let k_f = (same_name_iff k f.name).0 same in rw (set_key, same) (sym k_f, h)
    | inr other ↦ rw (set_key, other) (e, set_key-IsNamed f fields h)
  ]

  ordered_dict-IsNamed :
      (fs : List (UnischemaField D)) (d : Row (UnischemaField D))
      → IsNamed d
      → IsNamed (ordered_dict d fs)
  unfolding ordered_dict
  ordered_dict-IsNamed [] d h = h
  ordered_dict-IsNamed (f ∷ fs) d h =
      ordered_dict-IsNamed fs (set_key f.name f d) (set_key-IsNamed f d h)

  -- Every new schema, so every view and every transformed schema, keeps each field under its own name.
  pub init-IsNamed : (name : String) (fs : List (UnischemaField D)) → IsNamed (init name fs).fields
  unfolding init
  init-IsNamed name fs = ordered_dict-IsNamed fs [] tt

  missing-keep_fields :
      (keep : String → Bool) (fields : Row (UnischemaField D)) (n : String)
      → IsNamed fields
      → lookup fields n ≡ none
      → last_named n (keep_fields keep fields) ≡ none
  unfolding keep_fields lookup
  missing-keep_fields keep [] n named h = refl
  missing-keep_fields keep ((k, f) ∷ fields) n (e, named) h = elim (Bool-cases (same_name k n)) [
    | inl same ↦ absurd (ground (arith, h, same))
    | inr other ↦
        let ih = missing-keep_fields keep fields n named (ground (arith, h, other)) in
        elim (Bool-cases (keep k)) [
          | inl kept ↦ rw (kept, ih, e, other) refl
          | inr dropped ↦ rw (dropped, ih) refl
        ]
  ]

  pub last_named-keep_fields :
      (keep : String → Bool) (fields : Row (UnischemaField D)) (n : String)
      → IsDict fields
      → IsNamed fields
      → last_named n (keep_fields keep fields) ≡ (if keep n then lookup fields n else none)
  unfolding keep_fields lookup
  last_named-keep_fields keep [] n d named = elim (Bool-cases (keep n)) [
    | inl kept ↦ rw kept refl
    | inr dropped ↦ rw dropped refl
  ]
  last_named-keep_fields keep ((k, f) ∷ fields) n (fresh, d) (e, named) =
      elim (Bool-cases (same_name k n)) [
        | inl same ↦
            let k_n = (same_name_iff k n).0 same in
            let none_else : last_named n (keep_fields keep fields) ≡ none =
              missing-keep_fields keep fields n named (rw k_n at fresh) in
            elim (Bool-cases (keep n)) [
              | inl kept ↦
                  let kept' : keep k ≡ true = rw k_n kept in
                  rw (kept, kept', none_else, e, same) refl
              | inr dropped ↦
                  let dropped' : keep k ≡ false = rw k_n dropped in
                  rw (dropped, dropped', none_else) refl
            ]
        | inr other ↦
            let ih = last_named-keep_fields keep fields n d named in
            elim (Bool-cases (keep k)) [
              | inl kept ↦
                  let fn : same_name f.name n ≡ false = rw e other in
                  rw (kept, ih, other)
                    (elim (Bool-cases (keep n)) [
                      | inl kept_n ↦ rw kept_n (elim (Option-cases (lookup fields n)) [
                        | inl z ↦ rw (z, fn) refl
                        | inr (g, z) ↦ rw z refl
                      ])
                      | inr dropped_n ↦ rw (dropped_n, fn) refl
                    ])
              | inr dropped ↦ rw (dropped, ih, other) refl
            ]
      ]
