-- ===== src/Hdfs/Resolver.antt =====
-- `HdfsNamenodeResolver`, from its configuration: a dictionary of texts, as a list of its entries.
-- `netloc` is `urlparse(url).netloc`. A key that is present has a text.
use Prim.Native.Char.{code}
use Prim.Native.String as Str
use Prim.Native.String.{String}
use petastorm.Prelude.{
  ◌≡◌, refl, Option, none, some, List, [], ◌∷◌, map, ◌==◌, if◌then◌else◌, Result, ok, raise,
  runtime_error, io_error, ◌>>=◌, arith,
}
use petastorm.NGram.Keys.{same_name}

abbrev pub Configuration : Type 0
Configuration = List (String × String)

unfoldable pub get : Configuration → String → Option String
get [] key = none
get (e ∷ es) key = if same_name key e.0 then some e.1 else get es key

on_first : (String → String) → List String → List String
on_first f [] = f Str.[] ∷ []
on_first f (s ∷ ss) = f s ∷ ss

-- `text.split(',')`
unfoldable pub split : String → List String
unfolding on_first
split Str.[] = Str.[] ∷ []
split (Str.◌∷◌ c s) =
    let rest = split s in if code c == 44 then Str.[] ∷ rest else on_first (Str.◌∷◌ c) rest

-- A value that is set and not empty.
unfoldable pub get_set : Configuration → String → Option String
get_set config key = elim (get config key) [
  | none ↦ none
  | some Str.[] ↦ none
  | some (Str.◌∷◌ c s) ↦ some (Str.◌∷◌ c s)
]

unfoldable pub rpc_address : String → String → String
rpc_address namespace nn =
    Str.◌++◌ "dfs.namenode.rpc-address." (Str.◌++◌ namespace (Str.◌++◌ "." nn))

-- The loop over the namenodes.
unfoldable pub addresses : Configuration → String → List String → Result (List String)
addresses config namespace [] = ok []
addresses config namespace (nn ∷ nns) = elim (get_set config (rpc_address namespace nn)) [
  | none ↦ raise runtime_error
  | some url ↦ (do rest ← addresses config namespace nns; ok (url ∷ rest))
]

unfoldable pub resolve_hdfs_name_service : Configuration → String → Result (Option (List String))
resolve_hdfs_name_service config namespace =
    elim (get_set config (Str.◌++◌ "dfs.ha.namenodes." namespace)) [
      | none ↦ ok none
      | some namenodes ↦ (do urls ← addresses config namespace (split namenodes); ok (some urls))
    ]

unfoldable pub resolve_default_hdfs_service :
    (String → String) → Configuration → Result (String × List String)
resolve_default_hdfs_service netloc config = elim (get_set config "fs.defaultFS") [
  | none ↦ raise runtime_error
  | some default_fs ↦ (do
    found ← resolve_hdfs_name_service config (netloc default_fs)
    (elim found [ none ↦ raise io_error | some urls ↦ ok (netloc default_fs, urls) ]))
]

-- All entries are there.
abbrev pub all_set : {A : Type 0} → List (Option A) → Option (List A)
all_set [] = some []
all_set (none ∷ os) = none
all_set (some a ∷ os) = elim (all_set os) [ none ↦ none | some xs ↦ some (a ∷ xs) ]

addresses-all_set :
    (config : Configuration) (namespace : String) (nns : List String)
    → addresses config namespace nns
      ≡ elim (all_set (map (λ nn. get_set config (rpc_address namespace nn)) nns)) [
        | none ↦ raise runtime_error
        | some urls ↦ ok urls
      ]
unfolding addresses
addresses-all_set config namespace [] = refl
addresses-all_set config namespace (nn ∷ nns) =
    ground (arith, addresses-all_set config namespace nns)

-- A name service that is configured with the names of its namenodes resolves to their addresses, in
-- order and each as often as it is named; a RuntimeError is raised exactly if some of the addresses
-- is missing or empty.
pub resolve_hdfs_name_service-all_set :
    (config : Configuration) (namespace namenodes : String)
    → get_set config (Str.◌++◌ "dfs.ha.namenodes." namespace) ≡ some namenodes
    → resolve_hdfs_name_service config namespace
      ≡ elim (all_set (map (λ nn. get_set config (rpc_address namespace nn)) (split namenodes))) [
        | none ↦ raise runtime_error
        | some urls ↦ ok (some urls)
      ]
unfolding resolve_hdfs_name_service
resolve_hdfs_name_service-all_set config namespace namenodes named =
    ground (arith, named, addresses-all_set config namespace (split namenodes))
