-- ===== src/Files.antt =====
-- What the program takes of the packages os, path/filepath and encoding/json where it keeps a
-- document in a file: an interface that the readers and writers of files take as a parameter.
use go_mamacord.Base.{
  ℕ, ◌≡◌, Bool, true, Option, some, List, [], ◌∷◌, ◌++◌, GoString, str_eq, str_eq_refl,
  if◌then◌else◌,
}

pub data ReadOutcome : Type 0 where
  contents : List ℕ → ReadOutcome
  not_exist read_failed : ReadOutcome

-- `mkdir_all` and `write_file` return the new state of the disk, and whether they succeeded. A
-- successful write leaves the file's contents at its path.
pub record FileSystem : Type 1 where
  pub Disk : Type 0
  pub dir : GoString → GoString
  pub read_file : Disk → GoString → ReadOutcome
  pub mkdir_all : Disk → GoString → Disk × Bool
  pub write_file : Disk → GoString → List ℕ → Disk × Bool
  pub read-write :
      (d : Disk) (path : GoString) (bytes : List ℕ)
      → (write_file d path bytes).1 ≡ true
      → read_file (write_file d path bytes).0 path ≡ contents bytes

-- A document type with its JSON form. Reading back what was written, with white space behind it,
-- gives a document that says the same.
pub record Codec (A : Type 0) (Same : A → A → Type 0) : Type 0 where
  pub marshal : A → Option (List ℕ)
  pub unmarshal : List ℕ → Option A
  pub unmarshal-marshal :
      (a : A) (bytes : List ℕ)
      → marshal a ≡ some bytes
      → (b : A) × (unmarshal (bytes ++ 10 ∷ []) ≡ some b) × Same a b

abbrev written : (GoString → ReadOutcome) → GoString → List ℕ → GoString → ReadOutcome
written d path bytes other = if str_eq other path then contents bytes else d other

pub written_self :
    (d : GoString → ReadOutcome) (path : GoString) (bytes : List ℕ)
    → written d path bytes path ≡ contents bytes
written_self d path bytes = rw (str_eq_refl path)

-- A disk on which every write succeeds: the files as a function of the path.
abbrev pub memory : FileSystem
memory = record {
  Disk = GoString → ReadOutcome;
  dir = λ path. path;
  read_file = λ d path. d path;
  mkdir_all = λ d path. (d, true);
  write_file = λ d path bytes. (written d path bytes, true);
  read-write = λ d path bytes h. written_self d path bytes;
}
