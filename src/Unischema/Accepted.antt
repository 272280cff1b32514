-- ===== src/Unischema/Accepted.antt =====
-- The rows that a schema accepts.
use Prim.Native.String.{String}
use petastorm.Prelude.{
  ◌≡◌, refl, true, Option, none, some, List, [], ◌∷◌, map, ok, arith, Bool-cases, Option-cases, inl,
  inr,
}
use petastorm.NGram.Keys.{same_name, same_name_iff, same_name_self, mem_name}
use petastorm.DataLoader.{Row}
use petastorm.Tensors.{each}
use petastorm.Codecs.{Objects, UnischemaField}
use petastorm.Codecs.Laws.{Laws, is_restored}
use petastorm.RowGroupWorker.Rows.{NullableRow, lookup, set_key, get_key, select_cols, decode_row}
use petastorm.Unischema.{
  Unischema, names, all_among, same_keys, insert_explicit_nulls, encode_field, encode_items,
  dict_to_spark_row, decoders,
}
use petastorm.Unischema.Writing.{
  lookup-set_key, mem_name-lookup, nulls_keep, nulls_add, encode_items-each, value_of,
}
use petastorm.Unischema.RoundTrip.{decode_row-dict_to_spark_row}
use petastorm.Unischema.Dicts.{IsDict, lookup-mem_name}

insert_null :
    {V D : Type 0} (k : String) (f : UnischemaField D) (fields : Row (UnischemaField D))
    (row full : NullableRow V)
    → lookup row k ≡ none
    → f.nullable ≡ true
    → insert_explicit_nulls fields (set_key k none row) ≡ ok full
    → insert_explicit_nulls ((k, f) ∷ fields) row ≡ ok full
unfolding insert_explicit_nulls
insert_null k f fields row full missing may h = rw (insert_explicit_nulls, missing, may) h

module _ {V D : Type 0} (o : Objects V D) where
  -- Each value belongs to a field that encodes it.
  abbrev pub IsEncodable : Row (UnischemaField D) → NullableRow V → Type 0
  IsEncodable fields [] = Unit {0}
  IsEncodable fields ((n, v) ∷ row) =
      ((f : UnischemaField D) × (e : Option V) × (lookup fields n ≡ some f)
        × (encode_field o f v ≡ ok e))
      × IsEncodable fields row

  set_key-IsEncodable :
      (fields : Row (UnischemaField D)) (k : String) (v : Option V) (row : NullableRow V)
      (f : UnischemaField D) (e : Option V)
      → lookup fields k ≡ some f
      → encode_field o f v ≡ ok e
      → IsEncodable fields row
      → IsEncodable fields (set_key k v row)
  unfolding set_key
  set_key-IsEncodable fields k v [] f e a b h = ((f, e, a, b), tt)
  set_key-IsEncodable fields k v ((j, w) ∷ row) f e a b (one, h) =
      elim (Bool-cases (same_name j k)) [
        | inl same ↦
            let j_k = (same_name_iff j k).0 same in rw (set_key, same) ((f, e, rw j_k a, b), h)
        | inr other ↦ rw (set_key, other) (one, set_key-IsEncodable fields k v row f e a b h)
      ]

  encode_items-total :
      (fields : Row (UnischemaField D)) (row : NullableRow V)
      → IsEncodable fields row
      → (out : NullableRow V) × (encode_items o fields row ≡ ok out)
  unfolding encode_items get_key
  encode_items-total fields [] h = ([], refl)
  encode_items-total fields ((n, v) ∷ row) ((f, e, a, b), h) =
      let (rest, r) = encode_items-total fields row h in
      ((n, e) ∷ rest, rw (encode_items, get_key, a) (rw (b, r) refl))

  -- Every field that a row leaves out may be `None`.
  abbrev pub IsComplete : Row (UnischemaField D) → NullableRow V → Type 0
  IsComplete fields row =
      (n : String) (f : UnischemaField D)
      → lookup fields n ≡ some f
      → lookup row n ≡ none
      → f.nullable ≡ true

  insert_explicit_nulls-total :
      (all fields : Row (UnischemaField D)) (row : NullableRow V)
      → IsDict fields
      → ((n : String) (f : UnischemaField D) → lookup fields n ≡ some f → lookup all n ≡ some f)
      → IsComplete fields row
      → IsEncodable all row
      → (full : NullableRow V) × (insert_explicit_nulls fields row ≡ ok full) × IsEncodable all full
  unfolding insert_explicit_nulls lookup encode_field
  insert_explicit_nulls-total all [] row d sub c h = (row, refl, h)
  insert_explicit_nulls-total all ((k, f) ∷ fields) row (fresh, d) sub c h =
      let self = same_name_self k in
      let later : (n : String) (g : UnischemaField D)
          → lookup fields n ≡ some g
          → lookup ((k, f) ∷ fields) n ≡ some g =
        (λ n g x. ground (arith, same_name_iff k n, fresh, x)) in
      let known : lookup all k ≡ some f = sub k f (rw self refl) in
      let sub' = (λ (n : String) (g : UnischemaField D) (x : lookup fields n ≡ some g).
        sub n g (later n g x)) in
      elim (Option-cases (lookup row k)) [
        | inr (w, there) ↦
            let (full, a, b) =
              insert_explicit_nulls-total all fields row d sub' (λ n g x y. c n g (later n g x) y)
                h in
            (full, rw (insert_explicit_nulls, there) a, b)
        | inl missing ↦
            let may = c k f (rw self refl) missing in
            let (full, a, b) =
              insert_explicit_nulls-total all fields (set_key k none row) d sub'
                (λ n g x y. c n g (later n g x) (ground (arith, y, lookup-set_key k n none row)))
                (set_key-IsEncodable all k none row f none known (rw may refl) h) in
            (full, insert_null k f fields row full missing may a, b)
      ]

  all_among-fields :
      (fields : Row (UnischemaField D)) (row : NullableRow V)
      → IsEncodable fields row
      → all_among (names row) (names fields) ≡ true
  unfolding all_among
  all_among-fields fields [] h = refl
  all_among-fields fields ((n, v) ∷ row) ((f, e, a, b), h) =
      rw (lookup-mem_name fields n f a, all_among-fields fields row h) refl

  all_among-names :
      {X : Type 0} (ns : List String) (row : Row X)
      → ((n : String) → mem_name n ns ≡ true → mem_name n (names row) ≡ true)
      → all_among ns (names row) ≡ true
  unfolding all_among mem_name
  all_among-names [] row h = refl
  all_among-names (n ∷ ns) row h =
      rw (h n (rw (same_name_self n) refl), all_among-names ns row (λ m i. h m (ground (arith, i))))
        refl

  select_cols-total :
      (encoded : NullableRow V) (ns : List String)
      → ((n : String) → mem_name n ns ≡ true → (e : Option V) × (lookup encoded n ≡ some e))
      → (out : NullableRow V) × (select_cols encoded ns ≡ ok out)
  unfolding select_cols each get_key mem_name
  select_cols-total encoded [] h = ([], refl)
  select_cols-total encoded (n ∷ ns) h =
      let (e, a) = h n (rw (same_name_self n) refl) in
      let (rest, r) = select_cols-total encoded ns (λ m i. h m (ground (arith, i))) in
      ((n, e) ∷ rest, ground (arith, a, r))

  -- A field of the schema has a value once the nulls are inserted.
  filled :
      (fields : Row (UnischemaField D)) (row full : NullableRow V) (n : String)
      → insert_explicit_nulls fields row ≡ ok full
      → mem_name n (names fields) ≡ true
      → (v : Option V) × (lookup full n ≡ some v)
  filled fields row full n h i =
      let (f, known) = mem_name-lookup fields n i in
      elim (Option-cases (lookup row n)) [
        | inl missing ↦ (none, nulls_add fields row full n f h missing known)
        | inr (v, given) ↦ (v, nulls_keep fields row full n v h given)
      ]

  -- A schema writes every row of which each value belongs to a field that encodes it and which leaves out
  -- nullable fields only.
  dict_to_spark_row-total :
      (u : Unischema D) (row : NullableRow V)
      → IsDict u.fields
      → IsComplete u.fields row
      → IsEncodable u.fields row
      → (out : NullableRow V) × (dict_to_spark_row o u row ≡ ok out)
  unfolding dict_to_spark_row same_keys
  dict_to_spark_row-total u row d c h =
      let (full, a, fits) = insert_explicit_nulls-total u.fields u.fields row d (λ n f x. x) c h in
      let (encoded, b) = encode_items-total u.fields full fits in
      let known = all_among-fields u.fields full fits in
      let all_there =
        all_among-names (names u.fields) full
          (λ n i. let (v, x) = filled u.fields row full n a i in lookup-mem_name full n v x) in
      let (out, r) = select_cols-total encoded (names u.fields) (λ n i.
        let (v, x) = filled u.fields row full n a i in
        let (f, e, p, q, z) = encode_items-each o u.fields full encoded n v b x in (e, z)) in
      (out, rw (a, known, all_there, b) r)

module _ {V D : Type 0} (o : Objects V D) (laws : Laws o) where
  -- A row goes through a dataset: when each of its values belongs to a field of the schema that encodes
  -- it and gives it back, and when it leaves out nullable fields only, the schema writes it, and what
  -- `decode_row` makes of what was written has exactly the fields of the schema, in the schema's order,
  -- with the values of the row, and `None` where the row has none.
  pub written_and_read :
      (u : Unischema D) (row : NullableRow V)
      → IsDict u.fields
      → IsComplete o u.fields row
      → IsEncodable o u.fields row
      → ((n : String) (f : UnischemaField D) (v : V)
          → lookup u.fields n ≡ some f
          → lookup row n ≡ some (some v)
          → is_restored laws f v ≡ true)
      → (out : NullableRow V) × (dict_to_spark_row o u row ≡ ok out)
        × (decode_row out (decoders o u.fields)
            ≡ ok (map (λ n. (n, value_of row n)) (names u.fields)))
  written_and_read u row d c h fits =
      let (out, written) = dict_to_spark_row-total o u row d c h in
      (out, written, decode_row-dict_to_spark_row o laws u row out fits written)
