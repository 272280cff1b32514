-- ===== src/Unischema/Writing.antt =====
-- What a row is when its nulls are inserted, when it is written, and when it is read back.
use Prim.Native.String.{String}
use petastorm.Prelude.{
  ◌≡◌, refl, true, false, Option, none, some, List, [], ◌∷◌, map, if◌then◌else◌, Result, ok, arith,
  Bool-cases, Option-cases, Result-cases, inl, inr,
}
use petastorm.NGram.Keys.{mem_name, same_name, same_name_iff, same_name_self}
use petastorm.DataLoader.{Row}
use petastorm.Tensors.{each}
use petastorm.Codecs.{Objects, UnischemaField}
use petastorm.RowGroupWorker.Rows.{
  NullableRow, lookup, set_key, get_key, select_cols, decode_value, decode_row,
}
use petastorm.Unischema.{
  names, insert_explicit_nulls, encode_field, encode_items, decode_field, decoders,
}

pub lookup-set_key :
    {V : Type 0} (k n : String) (v : V) (d : Row V)
    → lookup (set_key k v d) n ≡ (if same_name k n then some v else lookup d n)
unfolding lookup set_key
lookup-set_key k n v [] = refl
lookup-set_key k n v ((j, w) ∷ d) =
    ground (arith, same_name_iff k n, same_name_iff j k, same_name_iff j n, lookup-set_key k n v d)

module _ {V D : Type 0} where
  -- Inserting nulls keeps the values that are there, and adds one for each field that is not.
  pub nulls_keep :
      (fields : Row (UnischemaField D)) (row full : NullableRow V) (n : String) (v : Option V)
      → insert_explicit_nulls fields row ≡ ok full
      → lookup row n ≡ some v
      → lookup full n ≡ some v
  unfolding insert_explicit_nulls
  nulls_keep [] row full n v h e = let same : row ≡ full = cc in rw (← same) e
  nulls_keep ((k, f) ∷ fields) row full n v h e = elim (Option-cases (lookup row k)) [
    | inr (w, found) ↦ nulls_keep fields row full n v (ground (arith, h, found)) e
    | inl missing ↦ nulls_keep fields (set_key k none row) full n v (ground (arith, h, missing)) (
        rw (lookup-set_key k n none row) (elim (Bool-cases (same_name k n)) [
          | inl same ↦
              let k_n = (same_name_iff k n).0 same in let m = rw k_n at missing in absurd (cc)
          | inr other ↦ rw (other, e) refl
        ]))
  ]

  pub nulls_add :
      (fields : Row (UnischemaField D)) (row full : NullableRow V) (n : String)
      (f : UnischemaField D)
      → insert_explicit_nulls fields row ≡ ok full
      → lookup row n ≡ none
      → lookup fields n ≡ some f
      → lookup full n ≡ some none
  unfolding insert_explicit_nulls lookup
  nulls_add [] row full n f h e found = cc
  nulls_add ((k, g) ∷ fields) row full n f h e found = elim (Bool-cases (same_name k n)) [
    | inl same ↦
        let k_n = (same_name_iff k n).0 same in
        let missing : lookup row k ≡ none = rw k_n e in
        nulls_keep fields (set_key k none row) full n none (ground (arith, h, missing))
          (rw (lookup-set_key k n none row, same) refl)
    | inr other ↦ elim (Option-cases (lookup row k)) [
      | inr (w, there) ↦
          nulls_add fields row full n f (ground (arith, h, there)) e (ground (arith, found, other))
      | inl missing ↦
          nulls_add fields (set_key k none row) full n f (ground (arith, h, missing))
            (rw (lookup-set_key k n none row, other) e) (ground (arith, found, other))
    ]
  ]

pub mem_name-lookup :
    {X : Type 0} (fields : Row X) (n : String)
    → mem_name n (names fields) ≡ true
    → (f : X) × (lookup fields n ≡ some f)
unfolding mem_name lookup
mem_name-lookup [] n h = cc
mem_name-lookup ((k, f) ∷ fields) n h = elim (Bool-cases (same_name k n)) [
  | inl same ↦ (f, rw same refl)
  | inr other ↦
      let away : same_name n k ≡ false = ground (arith, same_name_iff k n, same_name_iff n k) in
      let (g, found) = mem_name-lookup fields n (ground (arith, h, away)) in
      (g, rw (other, found) refl)
]

-- The value of a row under a name, or `None`.
abbrev pub value_of : {V : Type 0} → NullableRow V → String → Option V
value_of row n = elim (lookup row n) [ none ↦ none | some v ↦ v ]

module _ {V D : Type 0} (o : Objects V D) where
  -- Every value is encoded by the field of its name.
  pub encode_items-each :
      (fields : Row (UnischemaField D)) (full encoded : NullableRow V) (n : String) (v : Option V)
      → encode_items o fields full ≡ ok encoded
      → lookup full n ≡ some v
      → (f : UnischemaField D) × (e : Option V) × (lookup fields n ≡ some f)
        × (encode_field o f v ≡ ok e)
        × (lookup encoded n ≡ some e)
  unfolding encode_items lookup get_key
  encode_items-each fields [] encoded n v h found = cc
  encode_items-each fields ((k, w) ∷ full) encoded n v h found =
      elim (Option-cases (lookup fields k)) [
        | inl missing ↦ absurd (ground (arith, h, missing))
        | inr (f, by_name) ↦ elim (Result-cases (encode_field o f w)) [
          | inr (x, fails) ↦ absurd (ground (arith, h, by_name, fails))
          | inl (e, gives) ↦ elim (Result-cases (encode_items o fields full)) [
            | inr (x, fails) ↦ absurd (ground (arith, h, by_name, gives, fails))
            | inl (rest, others) ↦
                let split : (k, e) ∷ rest ≡ encoded = ground (arith, h, by_name, gives, others) in
                elim (Bool-cases (same_name k n)) [
                  | inl same ↦
                      let k_n = (same_name_iff k n).0 same in
                      let w_v : w ≡ v = ground (arith, found, same) in
                      (f, e, rw (← k_n) by_name, rw (← w_v) gives, rw (← split) (rw same refl))
                  | inr other ↦
                      let (g, d, a, b, c) =
                        encode_items-each fields full rest n v others
                          (ground (arith, found, other)) in
                      (g, d, a, b, rw (← split) (rw (other, c) refl))
                ]
          ]
        ]
      ]

  pub lookup-decoders :
      (fields : Row (UnischemaField D)) (n : String) (f : UnischemaField D)
      → lookup fields n ≡ some f
      → lookup (decoders o fields) n ≡ some (decode_field o f)
  unfolding lookup
  lookup-decoders [] n f h = cc
  lookup-decoders ((k, g) ∷ fields) n f h = elim (Bool-cases (same_name k n)) [
    | inl same ↦ let e : g ≡ f = ground (arith, h, same) in rw (same, e) refl
    | inr other ↦ rw other (lookup-decoders fields n f (ground (arith, h, other)))
  ]

  decode_row_step :
      (schema : Row (V → Result V)) (n : String) (g : V → Result V) (e w : Option V)
      (row r : NullableRow V)
      → lookup schema n ≡ some g
      → decode_value g e ≡ ok w
      → decode_row row schema ≡ ok r
      → decode_row ((n, e) ∷ row) schema ≡ ok ((n, w) ∷ r)
  unfolding decode_row
  decode_row_step schema n g e w row r a b c = rw (decode_row, a) (rw (b, c) refl)

  -- Decoding what `select_cols` gives, when each of its values decodes to a value of `row`.
  pub decode_selected :
      (schema : Row (V → Result V)) (encoded row : NullableRow V) (ns : List String)
      (out : NullableRow V)
      → ((n : String)
          → mem_name n ns ≡ true
          → (e : Option V) × (g : V → Result V) × (lookup encoded n ≡ some e)
            × (lookup schema n ≡ some g)
            × (decode_value g e ≡ ok (value_of row n)))
      → select_cols encoded ns ≡ ok out
      → decode_row out schema ≡ ok (map (λ n. (n, value_of row n)) ns)
  unfolding select_cols get_key each decode_row mem_name
  decode_selected schema encoded row [] out each_one h = let e : [] ≡ out = cc in rw (← e) refl
  decode_selected schema encoded row (n ∷ ns) out each_one h =
      let (e, g, a, b, c) = each_one n (rw (same_name_self n) refl) in
      elim (Result-cases (select_cols encoded ns)) [
        | inr (x, fails) ↦ absurd (ground (arith, h, a, fails))
        | inl (rest, others) ↦
            let split : (n, e) ∷ rest ≡ out = ground (arith, h, a, others) in
            let ih =
              decode_selected schema encoded row ns rest (λ m i. each_one m (ground (arith, i)))
                others in
            rw (← split) (decode_row_step schema n g e (value_of row n) rest _ b c ih)
      ]
