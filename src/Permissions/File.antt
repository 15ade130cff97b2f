-- ===== src/Permissions/File.antt =====
-- `LoadPolicyFile` and `WritePolicyFile` of internal/permissions/policy.go. The disk and the JSON
-- codec are parameters.
use go_mamacord.Base.{
  ℕ, ◌≡◌, refl, false, Option, none, some, List, [], ◌∷◌, ◌++◌, arith, if◌then◌else◌, GoString,
  codes, str_eq, str_eq_iff, trim_space, lookup, entries, is_nil, Bool-cases, inl, inr,
}
use go_mamacord.Files.{FileSystem, Codec, ReadOutcome, contents, not_exist, read_failed}
use go_mamacord.Permissions.{Policy, Permissions, granted}

abbrev pub schema_url : GoString
schema_url =
    codes
      "https://raw.githubusercontent.com/xsyetopz/go-mamacord/refs/heads/main/schemas/permissions.schema.json"

pub data Loaded : Type 0 where
  loaded : Policy → Loaded
  unreadable unparsable wrong_schema : Loaded

pub data Written : Type 0 where
  saved path_required not_marshalled no_directory not_written : Written

abbrev pub no_permissions : Permissions
no_permissions = record {
  storage = record {
    kv = false;
    user_settings = false;
    check_ins = false;
    reminders = false;
    warnings = false;
    audit = false;
  };
  discord = record {
    identity = record { users = false; guilds = false; members = false; roles = false };
    content = record { channels = false; messages = false; reactions = false; threads = false };
    integration = record { invites = false; webhooks = false; emojis = false; stickers = false };
  };
  network = record { http = false };
  resources = record { read = false };
  automation = record {
    jobs = false;
    events = record { member_join_leave = false; moderation = false };
  };
}

-- `Policy{}`
abbrev pub empty_policy : Policy
empty_policy = record { schema = []; defaults = no_permissions; plugins = none }

-- The same policy, but for the order of the entries and a nil map for an empty one.
pub record SamePolicy (p q : Policy) : Type 0 where
  pub schema : q.schema ≡ p.schema
  pub defaults : q.defaults ≡ p.defaults
  pub plugins : (id : GoString) → lookup id (entries q.plugins) ≡ lookup id (entries p.plugins)

granted-SamePolicy : (p q : Policy) (id : GoString) → SamePolicy p q → granted q id ≡ granted p id
unfolding granted
granted-SamePolicy p q id same = rw (same.defaults, same.plugins id)

-- `if p.Plugins == nil { p.Plugins = map[string]Permissions{} }`
abbrev pub non_nil : Policy → Policy
non_nil p = record p { plugins = some (entries p.plugins) }

module _ (fs : FileSystem) (json : Codec Policy SamePolicy) where
  open fs use {Disk, dir, read_file, mkdir_all, write_file, read-write}
  open json use {marshal, unmarshal, unmarshal-marshal}

  unfoldable pub check_policy : Option Policy → Loaded
  check_policy none = unparsable
  check_policy (some p) = if str_eq p.schema schema_url then loaded (non_nil p) else wrong_schema

  unfoldable pub parse_policy : ReadOutcome → Loaded
  unfolding check_policy
  parse_policy not_exist = loaded empty_policy
  parse_policy read_failed = unreadable
  parse_policy (contents bytes) = check_policy (unmarshal bytes)

  unfoldable pub load_policy_file : Disk → GoString → Loaded
  unfolding parse_policy
  load_policy_file d path =
      if is_nil (trim_space path)
      then loaded empty_policy
      else parse_policy (read_file d (trim_space path))

  -- The policy as it is written.
  unfoldable pub stamped : Policy → Policy
  stamped p = record (non_nil p) { schema = schema_url }

  unfoldable pub write_bytes : Disk → GoString → List ℕ → Disk × Written
  write_bytes d path bytes =
      let (made, there) = mkdir_all d (dir path) in
      let (done, ok) = write_file made path bytes in
      if there then (done, if ok then saved else not_written) else (made, no_directory)

  unfoldable pub write_marshalled : Disk → GoString → Option (List ℕ) → Disk × Written
  unfolding write_bytes
  write_marshalled d path none = (d, not_marshalled)
  write_marshalled d path (some bytes) = write_bytes d path (bytes ++ 10 ∷ [])

  unfoldable pub write_policy_file : Disk → GoString → Policy → Disk × Written
  unfolding write_marshalled stamped
  write_policy_file d path p =
      if is_nil (trim_space path)
      then (d, path_required)
      else write_marshalled d (trim_space path) (marshal (stamped p))

  write_bytes_read :
      (d : Disk) (path : GoString) (bytes : List ℕ)
      → (write_bytes d path bytes).1 ≡ saved
      → read_file (write_bytes d path bytes).0 path ≡ contents bytes
  unfolding write_bytes
  write_bytes_read d path bytes h = ground (arith, read-write (mkdir_all d (dir path)).0 path bytes)

  check_policy-stamped :
      (p q : Policy)
      → SamePolicy (stamped p) q
      → (r : Policy) × (check_policy (some q) ≡ loaded r)
        × (r.schema ≡ schema_url)
        × ((id : GoString) → granted r id ≡ granted p id)
  unfolding check_policy stamped granted
  check_policy-stamped p q same = (
    non_nil q,
    rw ((str_eq_iff q.schema schema_url).1 same.schema) refl,
    same.schema,
    λ id. granted-SamePolicy (record p { schema = q.schema }) (non_nil q) id same',
  )
    where
      same' : SamePolicy (record p { schema = q.schema }) (non_nil q)
      same' = record { schema = refl; defaults = same.defaults; plugins = same.plugins }

  load_written :
      (d : Disk) (path : GoString) (p : Policy) (m : Option (List ℕ))
      → marshal (stamped p) ≡ m
      → (write_marshalled d path m).1 ≡ saved
      → (q : Policy) × (parse_policy (read_file (write_marshalled d path m).0 path) ≡ loaded q)
        × (q.schema ≡ schema_url)
        × ((id : GoString) → granted q id ≡ granted p id)
  unfolding parse_policy write_marshalled
  load_written d path p none e h = cc
  load_written d path p (some bytes) e h =
      let (q, parsed, same) = unmarshal-marshal (stamped p) bytes e in
      let (r, ok, s, g) = check_policy-stamped p q same in
      (r, rw (write_bytes_read d path (bytes ++ 10 ∷ []) h, parse_policy, parsed) ok, s, g)

  -- A policy that was written is loaded again with the schema set, and grants every plugin what it
  -- granted before.
  pub load_policy_file-write_policy_file :
      (d : Disk) (path : GoString) (p : Policy)
      → (write_policy_file d path p).1 ≡ saved
      → (q : Policy) × (load_policy_file (write_policy_file d path p).0 path ≡ loaded q)
        × (q.schema ≡ schema_url)
        × ((id : GoString) → granted q id ≡ granted p id)
  unfolding load_policy_file write_policy_file
  load_policy_file-write_policy_file d path p h = elim (Bool-cases (is_nil (trim_space path))) [
    | inl blank ↦ absurd (ground (arith, blank))
    | inr named ↦
        rw named
          (load_written d (trim_space path) p (marshal (stamped p)) refl (ground (arith, named)))
  ]
