-- ===== src/Permissions/Tests.antt =====
-- Tests of the permission modules, and the theorems at concrete inputs.
use go_mamacord.Base.{
  ℕ, zero, suc, ◌≡◌, refl, ◌↔◌, ◌⊎◌, inl, inr, Bool, true, false, ◌&&◌, Option, none, some, List,
  [], ◌∷◌, ◌++◌, arith, if◌then◌else◌, ◌==◌, GoString, codes, str_eq, str_eq_iff, trim_space,
  is_nil, lookup, entries, Bool-cases, and-true,
}
use go_mamacord.Files.{Codec, ReadOutcome, not_exist, memory}
use go_mamacord.Permissions.{Permissions, Policy, effective, merge, granted}
use go_mamacord.Permissions.Flags.{
  Flag, kv, user_settings, check_ins, reminders, warnings, audit, users, guilds, members, roles,
  channels, messages, reactions, threads, invites, webhooks, emojis, stickers, http, read, jobs,
  member_join_leave, moderation, allows, ◌⊑◌, allows_ext, of_flags,
}
use go_mamacord.Permissions.Laws.{
  Overridden, effective_greatest, merge_least, effective-granted_iff,
}
use go_mamacord.Permissions.File.{
  SamePolicy, loaded, schema_url, load_policy_file, write_policy_file,
  load_policy_file-write_policy_file,
}

abbrev is_kv : Flag → Bool
is_kv kv = true
is_kv _ = false

abbrev is_http : Flag → Bool
is_http http = true
is_http _ = false

abbrev fun_policy : Policy
fun_policy = record {
  schema = schema_url;
  defaults = of_flags is_kv;
  plugins = some ((codes "fun", of_flags is_http) ∷ []);
}

abbrev all_on : Permissions
all_on = of_flags (λ f. true)

granted_tests :
    (allows (granted fun_policy (codes "fun")) http ≡ true)
    × (allows (granted fun_policy (codes "info")) http ≡ false)
    × (allows (granted fun_policy (codes " ")) kv ≡ true)
    × (allows (granted fun_policy (codes "fun")) jobs ≡ false)
unfolding granted merge trim_space
granted_tests = (refl, refl, refl, refl)

effective-granted_iff_example :
    (allows (effective all_on (granted fun_policy (codes "fun"))) http ≡ true) ↔ (
      (allows all_on http ≡ true)
      × ((allows fun_policy.defaults http ≡ true) ⊎ Overridden fun_policy (codes "fun") http))
effective-granted_iff_example = effective-granted_iff all_on fun_policy (codes "fun") http

effective_greatest_example :
    (effective all_on (of_flags is_kv) ⊑ all_on)
    × (effective all_on (of_flags is_kv) ⊑ of_flags is_kv)
    × ((p : Permissions) → p ⊑ all_on → p ⊑ of_flags is_kv → p ⊑ effective all_on (of_flags is_kv))
effective_greatest_example = effective_greatest all_on (of_flags is_kv)

merge_least_example :
    (of_flags is_kv ⊑ merge (of_flags is_kv) (of_flags is_http))
    × (of_flags is_http ⊑ merge (of_flags is_kv) (of_flags is_http))
    × ((p : Permissions)
        → of_flags is_kv ⊑ p
        → of_flags is_http ⊑ p
        → merge (of_flags is_kv) (of_flags is_http) ⊑ p)
merge_least_example = merge_least (of_flags is_kv) (of_flags is_http)

-- A codec for policies with no entries, as an example of what the JSON package does: a byte for
-- each switch.
abbrev index : Flag → ℕ
index kv = 0
index user_settings = 1
index check_ins = 2
index reminders = 3
index warnings = 4
index audit = 5
index users = 6
index guilds = 7
index members = 8
index roles = 9
index channels = 10
index messages = 11
index reactions = 12
index threads = 13
index invites = 14
index webhooks = 15
index emojis = 16
index stickers = 17
index http = 18
index read = 19
index jobs = 20
index member_join_leave = 21
index moderation = 22

abbrev get_or : List ℕ → ℕ → ℕ
get_or [] i = 0
get_or (x ∷ xs) zero = x
get_or (x ∷ xs) (suc i) = get_or xs i

abbrev bit : Bool → ℕ
bit true = 1
bit false = 0

bit_lem : (b : Bool) → (bit b == 1) ≡ b
bit_lem true = refl
bit_lem false = refl

abbrev bits : Permissions → List ℕ
bits p =
    bit (allows p kv)
    ∷ bit (allows p user_settings)
    ∷ bit (allows p check_ins)
    ∷ bit (allows p reminders)
    ∷ bit (allows p warnings)
    ∷ bit (allows p audit)
    ∷ bit (allows p users)
    ∷ bit (allows p guilds)
    ∷ bit (allows p members)
    ∷ bit (allows p roles)
    ∷ bit (allows p channels)
    ∷ bit (allows p messages)
    ∷ bit (allows p reactions)
    ∷ bit (allows p threads)
    ∷ bit (allows p invites)
    ∷ bit (allows p webhooks)
    ∷ bit (allows p emojis)
    ∷ bit (allows p stickers)
    ∷ bit (allows p http)
    ∷ bit (allows p read)
    ∷ bit (allows p jobs)
    ∷ bit (allows p member_join_leave)
    ∷ bit (allows p moderation)
    ∷ []

abbrev of_bits : List ℕ → Permissions
of_bits l = of_flags (λ f. get_or l (index f) == 1)

of_bits-bits : (p : Permissions) (f : Flag) → allows (of_bits (bits p ++ 10 ∷ [])) f ≡ allows p f
of_bits-bits p kv = bit_lem _
of_bits-bits p _ = bit_lem _

abbrev encode_policy : Policy → Option (List ℕ)
encode_policy p =
    if str_eq p.schema schema_url && is_nil (entries p.plugins)
    then some (bits p.defaults)
    else none

abbrev decode_policy : List ℕ → Option Policy
decode_policy l = some (record { schema = schema_url; defaults = of_bits l; plugins = none })

nil_entries :
    (m : List (GoString × Permissions)) (id : GoString) → is_nil m ≡ true → none ≡ lookup id m
nil_entries [] id h = refl
nil_entries ((k, v) ∷ m) id h = cc

decode-encode :
    (p : Policy) (bytes : List ℕ)
    → encode_policy p ≡ some bytes
    → (q : Policy) × (decode_policy (bytes ++ 10 ∷ []) ≡ some q) × SamePolicy p q
decode-encode p bytes h =
    elim (Bool-cases (str_eq p.schema schema_url && is_nil (entries p.plugins))) [
      | inr bad ↦ absurd (ground (arith, bad))
      | inl good ↦
          let parts = and-true (str_eq p.schema schema_url) (is_nil (entries p.plugins)) good in
          let same : bits p.defaults ≡ bytes = ground (arith, good) in
          (
            record {
              schema = schema_url;
              defaults = of_bits (bits p.defaults ++ 10 ∷ []);
              plugins = none;
            },
            rw (← same) refl,
            record {
              schema = ground (arith, str_eq_iff p.schema schema_url, parts.0);
              defaults = allows_ext _ _ (of_bits-bits p.defaults);
              plugins = λ id. nil_entries (entries p.plugins) id parts.1;
            },
          )
    ]

abbrev policy_json : Codec Policy SamePolicy
policy_json = record {
  marshal = encode_policy;
  unmarshal = decode_policy;
  unmarshal-marshal = decode-encode;
}

abbrev kv_policy : Policy
kv_policy = record { schema = []; defaults = of_flags is_kv; plugins = none }

abbrev blank_disk : GoString → ReadOutcome
blank_disk path = not_exist

load_policy_file-write_policy_file_example :
    (q : Policy) × (load_policy_file memory policy_json
        (write_policy_file memory policy_json blank_disk (codes "p.json") kv_policy).0
        (codes "p.json")
      ≡ loaded q)
    × (q.schema ≡ schema_url)
    × ((id : GoString) → granted q id ≡ granted kv_policy id)
unfolding write_policy_file trim_space
load_policy_file-write_policy_file_example =
    load_policy_file-write_policy_file memory policy_json blank_disk (codes "p.json") kv_policy refl
