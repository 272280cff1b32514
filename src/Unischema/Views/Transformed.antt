-- ===== src/Unischema/Views/Transformed.antt =====
-- petastorm/transform.py: the fields of a transformed schema, by their names.
use Prim.Native.String.{String}
use petastorm.Prelude.{
  ℕ, ◌≡◌, refl, ap, ◌∙◌, sym, not, Option, none, some, List, [], ◌∷◌, ◌++◌, map, leb, if◌then◌else◌,
  arith, Bool-cases, Option-cases, inl, inr,
}
use petastorm.NGram.Keys.{same_name, same_name_iff, mem_name}
use petastorm.Codecs.{UnischemaField}
use petastorm.RowGroupWorker.Rows.{lookup}
use petastorm.Unischema.{Unischema}
use petastorm.Unischema.Dicts.{IsDict}
use petastorm.Unischema.Views.{
  keep_fields, EditField, TransformSpec, edited_unischema_field, index, insert, sorted, selected,
  transform_schema,
}
use petastorm.Unischema.Views.Lookups.{
  last_named, or_else, lookup-init, last_named-append, IsNamed, last_named-keep_fields,
}

module _ {D : Type 0} where
  last_named-selected :
      (ns : List String) (fs : List (UnischemaField D)) (n : String)
      → last_named n (selected ns fs) ≡ (if mem_name n ns then last_named n fs else none)
  unfolding selected
  last_named-selected ns [] n = elim (Bool-cases (mem_name n ns)) [
    | inl e ↦ rw e refl
    | inr e ↦ rw e refl
  ]
  last_named-selected ns (f ∷ fs) n =
      let ih = last_named-selected ns fs n in
      elim (Bool-cases (same_name f.name n)) [
        | inl same ↦ let f_n = (same_name_iff f.name n).0 same in rw f_n (ground (arith, ih, same))
        | inr other ↦ ground (arith, ih, other)
      ]

  last_named-insert :
      (at_name : String → ℕ) (f : UnischemaField D) (gs : List (UnischemaField D)) (n : String)
      → last_named n (insert (λ h. at_name h.name) f gs) ≡ last_named n (f ∷ gs)
  unfolding insert
  last_named-insert at_name f [] n = refl
  last_named-insert at_name f (g ∷ gs) n =
      elim (Bool-cases (leb (at_name f.name) (at_name g.name))) [
        | inl before ↦ rw before refl
        | inr after ↦
            rw (after, last_named-insert at_name f gs n)
              (elim (Option-cases (last_named n gs)) [
                | inr (h, z) ↦ rw z refl
                | inl z ↦ rw z (elim (Bool-cases (same_name f.name n)) [
                  | inr other ↦ rw other (elim (Bool-cases (same_name g.name n)) [
                    | inl same ↦ rw same refl
                    | inr neither ↦ rw neither refl
                  ])
                  | inl same ↦ elim (Bool-cases (same_name g.name n)) [
                    | inr other ↦ rw (same, other) refl
                    | inl both ↦
                        let e : f.name ≡ g.name =
                          (same_name_iff f.name n).0 same ∙ sym ((same_name_iff g.name n).0 both) in
                        let k : at_name f.name ≡ at_name g.name = ap at_name e in
                        absurd (ground (arith, after, k))
                  ]
                ])
              ])
      ]

  last_named-sorted :
      (at_name : String → ℕ) (fs : List (UnischemaField D)) (n : String)
      → last_named n (sorted (λ h. at_name h.name) fs) ≡ last_named n fs
  unfolding sorted
  last_named-sorted at_name [] n = refl
  last_named-sorted at_name (f ∷ fs) n =
      last_named-insert at_name f (sorted (λ h. at_name h.name) fs) n
      ∙ ap (λ o. or_else o (if same_name f.name n then some f else none))
          (last_named-sorted at_name fs n)

  -- The field that a transformation leaves under a name, without the selection.
  abbrev pub edited : Unischema D → TransformSpec D → String → Option (UnischemaField D)
  edited schema spec n = or_else (last_named n (map edited_unischema_field spec.edit_fields)) (
      if mem_name n (map (λ (e : EditField D). e.name) spec.edit_fields ++ spec.removed_fields)
      then none
      else lookup schema.fields n)

  -- The schema after a transformation, name by name: a field that is edited is as the last edit of that
  -- name says, a removed field is gone, and any other one is as before; where fields are selected,
  -- exactly those of them that are there are left.
  pub lookup-transform_schema :
      (schema : Unischema D) (spec : TransformSpec D) (n : String)
      → IsDict schema.fields
      → IsNamed schema.fields
      → lookup (transform_schema schema spec).fields n ≡ elim spec.selected_fields [
        | none ↦ edited schema spec n
        | some ns ↦ if mem_name n ns then edited schema spec n else none
      ]
  unfolding transform_schema
  lookup-transform_schema schema spec n d named =
      let exclude = map (λ (e : EditField D). e.name) spec.edit_fields ++ spec.removed_fields in
      let kept = keep_fields (λ k. not (mem_name k exclude)) schema.fields in
      let fields = kept ++ map edited_unischema_field spec.edit_fields in
      let turned : (if not (mem_name n exclude) then lookup schema.fields n else none)
          ≡ (if mem_name n exclude then none else lookup schema.fields n) =
        elim (Bool-cases (mem_name n exclude)) [ inl e ↦ rw e refl | inr e ↦ rw e refl ] in
      let all : last_named n fields ≡ edited schema spec n =
        last_named-append n kept (map edited_unischema_field spec.edit_fields)
        ∙ ap (or_else (last_named n (map edited_unischema_field spec.edit_fields))) (
            last_named-keep_fields (λ k. not (mem_name k exclude)) schema.fields n d named
            ∙ turned) in
      elim (Option-cases spec.selected_fields) [
        | inl e ↦ rw e (lookup-init _ fields n ∙ all)
        | inr (ns, e) ↦ rw e (
            lookup-init _ (sorted (λ f. index ns f.name) (selected ns fields)) n
            ∙ last_named-sorted (index ns) (selected ns fields) n
            ∙ last_named-selected ns fields n
            ∙ ap (λ o. if mem_name n ns then o else none) all)
      ]
