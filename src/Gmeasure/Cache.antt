-- ===== src/Gmeasure/Cache.antt =====
-- gmeasure/cache.go: the cache of experiments on a disk. A file is the list of the JSON values in it; MD5,
-- JSON and the refusals of the system are arguments. Versions are not negative.
pub mod Files
pub mod Refines
mod Examples
use gomega.Base.{
  ℕ, zero, suc, ◌+◌, ◌≡◌, Bool, true, false, not, ◌&&◌, ◌==◌, ltb, Option, none, some, List, [],
  ◌∷◌, ◌++◌, if◌then◌else◌,
}
use gomega.Format.{Text, equal_text}

-- CACHE_EXT, which is .gmeasure-cache.
abbrev pub cache_ext : Text
cache_ext = 46 ∷ 103 ∷ 109 ∷ 101 ∷ 97 ∷ 115 ∷ 117 ∷ 114 ∷ 101 ∷ 45 ∷ 99 ∷ 97 ∷ 99 ∷ 104 ∷ 101 ∷ []

pub record CachedExperimentHeader : Type 0 where
  pub name : Text
  pub version : ℕ

abbrev no_header : CachedExperimentHeader
no_header = record { name = []; version = 0 }

-- MD5 in hexadecimal, and JSON: what Decode leaves in a header and whether it has an error, and the
-- experiment that it reads.
pub record Codec (E J : Type 0) : Type 0 where
  pub md5 : Text → Text
  pub encode_header : CachedExperimentHeader → J
  pub decode_header : J → CachedExperimentHeader × Bool
  pub encode_experiment : E → Option J
  pub decode_experiment : J → Option E

-- Files that the system refuses, and whether it lists the directory.
pub record System : Type 0 where
  pub denied : Text → Bool
  pub readable : Bool

abbrev pub Disk : Type 0 → Type 0
Disk J = List (Text × List J)

module _ {J : Type 0} where
  abbrev pub file_of : Text → Disk J → Option (List J)
  file_of path [] = none
  file_of path ((name, content) ∷ disk) =
      let rest = file_of path disk in if equal_text name path then some content else rest

  -- os.Remove of a file that is there.
  abbrev pub remove_file : Text → Disk J → Disk J
  remove_file path [] = []
  remove_file path ((name, content) ∷ disk) =
      let rest = remove_file path disk in
      if equal_text name path then rest else (name, content) ∷ rest

  -- os.Create and what is written to the file.
  abbrev pub write_file : Text → List J → Disk J → Disk J
  write_file path content disk = (path, content) ∷ remove_file path disk

-- filepath.Ext, where `ext` is that of what has been read so far.
abbrev pub ext_from : Text → Text → Text
ext_from ext [] = ext
ext_from ext (c ∷ s) = if c == 46 then ext_from (46 ∷ []) s else ext_from (extended ext c) s
  where
    extended : Text → ℕ → Text
    extended [] c = []
    extended (d ∷ ext) c = d ∷ (ext ++ c ∷ [])

abbrev pub is_cache : Text → Bool
is_cache name = equal_text (ext_from [] name) cache_ext

module _ {E J : Type 0} (c : Codec E J) (sys : System) where
  -- The file of a name, by hashOf.
  abbrev pub path_of : Text → Text
  path_of name = c.md5 name ++ cache_ext

  -- readHeader of a file: the header, and whether there is an error; Decode of no value is one.
  abbrev pub header_in : List J → CachedExperimentHeader × Bool
  header_in [] = (no_header, true)
  header_in (j ∷ js) = c.decode_header j

  abbrev pub read_header : Text → List J → CachedExperimentHeader × Bool
  read_header name content = if sys.denied name then (no_header, true) else header_in content

  abbrev put_header :
      CachedExperimentHeader
      → List CachedExperimentHeader × Bool
      → List CachedExperimentHeader × Bool
  put_header h (hs, failed) = (h ∷ hs, failed)

  -- The loop of List: the headers so far, and whether there is an error.
  abbrev list_loop : Disk J → List CachedExperimentHeader × Bool
  list_loop [] = ([], false)
  list_loop ((name, content) ∷ disk) =
      let rest = list_loop disk in
      if not (is_cache name)
      then rest
      else if (read_header name content).1
      then ([], true)
      else put_header (read_header name content).0 rest

  -- List.
  unfoldable pub list : Disk J → List CachedExperimentHeader × Bool
  list disk = if sys.readable then list_loop disk else ([], true)

  abbrev pub names_of : Disk J → List Text
  names_of [] = []
  names_of ((name, content) ∷ disk) = name ∷ names_of disk

  -- The loop of Clear: the disk, and whether there is an error. A file that is listed is there.
  abbrev pub clear_loop : List Text → Disk J → Disk J × Bool
  clear_loop [] disk = (disk, false)
  clear_loop (name ∷ names) disk =
      let rest = clear_loop names disk in
      let rest_without = clear_loop names (remove_file name disk) in
      if not (is_cache name) then rest else if sys.denied name then (disk, true) else rest_without

  -- Clear.
  unfoldable pub clear : Disk J → Disk J × Bool
  clear disk = if sys.readable then clear_loop (names_of disk) disk else (disk, true)

  -- What Load reads in a file: the error of the first Decode is passed over.
  abbrev pub load_from : ℕ → List J → Option E
  load_from version [] = none
  load_from version (j ∷ []) = none
  load_from version (j ∷ k ∷ js) =
      if ltb (c.decode_header j).0.version version then none else c.decode_experiment k

  abbrev pub opened : ℕ → Option (List J) → Option E
  opened version none = none
  opened version (some content) = load_from version content

  -- Load.
  unfoldable pub load : Text → ℕ → Disk J → Option E
  load name version disk =
      if sys.denied (path_of name) then none else opened version (file_of (path_of name) disk)

  abbrev pub contents : J → Option J → List J
  contents h none = h ∷ []
  contents h (some e) = h ∷ e ∷ []

  abbrev is_missing : Option (List J) → Bool
  is_missing none = true
  is_missing (some content) = false

  abbrev failed_to_encode : Option J → Bool
  failed_to_encode none = true
  failed_to_encode (some j) = false

  -- Save: the disk, and whether there is an error.
  unfoldable pub save : Text → ℕ → E → Disk J → Disk J × Bool
  save name version experiment disk = if sys.denied (path_of name) then (disk, true) else (
    write_file (path_of name)
        (contents (c.encode_header (record { name = name; version = version }))
          (c.encode_experiment experiment))
        disk,
    failed_to_encode (c.encode_experiment experiment),
  )

  -- Delete.
  unfoldable pub delete : Text → Disk J → Disk J × Bool
  delete name disk =
      if sys.denied (path_of name)
      then (disk, true)
      else (remove_file (path_of name) disk, is_missing (file_of (path_of name) disk))

-- Calls that change a cache.
pub data CacheCall (E : Type 0) : Type 0 where
  saves : Text → ℕ → E → CacheCall E
  deletes : Text → CacheCall E
  clears : CacheCall E

module _ {E J : Type 0} (c : Codec E J) (sys : System) where
  abbrev pub cache_call : CacheCall E → Disk J → Disk J
  cache_call (saves name version experiment) disk = (save c sys name version experiment disk).0
  cache_call (deletes name) disk = (delete c sys name disk).0
  cache_call clears disk = (clear c sys disk).0

  abbrev pub cache_calls : List (CacheCall E) → Disk J → Disk J
  cache_calls [] disk = disk
  cache_calls (call ∷ calls) disk = cache_calls calls (cache_call call disk)
