-- ===== src/GuildConfig/Memory.antt =====
-- A key-value store and an encoding of configurations in memory: instances of the interfaces of
-- GuildConfig/Store. A text is a list of numbers, and the keys of the map of commands end with 0.
use go_mamacord.Base.{
  ℕ, zero, suc, ◌≡◌, refl, Bool, true, false, ◌&&◌, Option, none, some, List, [], ◌∷◌, is_nil,
  if◌then◌else◌, ◌==◌, GoString, str_eq, str_eq_refl, Map, lookup, ℤ, pos, negsuc, ==_refl,
}
use go_mamacord.GuildConfig.Store.{Payload, PayloadCodec, Found, found, KvStore}
use go_mamacord.Base.{◌&&◌}

abbrev encode_key : GoString → List ℕ → List ℕ
encode_key [] rest = 0 ∷ rest
encode_key (c ∷ k) rest = suc c ∷ encode_key k rest

abbrev encode_map : Map Bool → List ℕ
encode_map [] = 0 ∷ []
encode_map ((k, v) ∷ m) = (if v then 2 else 1) ∷ encode_key k (encode_map m)

abbrev add_entry : Bool → GoString × Map Bool → Map Bool
add_entry v (k, m) = (k, v) ∷ m

abbrev add_char : ℕ → GoString × Map Bool → GoString × Map Bool
add_char c (k, m) = (c ∷ k, m)

abbrev entry_of : Bool → Option (GoString × Map Bool) → Option (Map Bool)
entry_of v none = none
entry_of v (some r) = some (add_entry v r)

abbrev key_end : Option (Map Bool) → Option (GoString × Map Bool)
key_end none = none
key_end (some m) = some ([], m)

abbrev key_char : ℕ → Option (GoString × Map Bool) → Option (GoString × Map Bool)
key_char c none = none
key_char c (some r) = some (add_char c r)

mutual
  pub decode_map : List ℕ → Option (Map Bool)
  decode_map [] = none
  decode_map (zero ∷ t) = some []
  decode_map (suc zero ∷ t) = entry_of false (decode_key t)
  decode_map (suc (suc n) ∷ t) = entry_of true (decode_key t)

  decode_key : List ℕ → Option (GoString × Map Bool)
  decode_key [] = none
  decode_key (zero ∷ t) = key_end (decode_map t)
  decode_key (suc c ∷ t) = key_char c (decode_key t)

decode_key-encode_key :
    (k : GoString) (rest : List ℕ) (m : Map Bool)
    → decode_map rest ≡ some m
    → decode_key (encode_key k rest) ≡ some (k, m)
unfolding decode_key
decode_key-encode_key [] rest m h = rw h refl
decode_key-encode_key (c ∷ k) rest m h = rw (decode_key-encode_key k rest m h) refl

decode_map-encode_map : (m : Map Bool) → decode_map (encode_map m) ≡ some m
unfolding decode_map
decode_map-encode_map [] = refl
decode_map-encode_map ((k, true) ∷ m) =
    rw (decode_key-encode_key k (encode_map m) m (decode_map-encode_map m)) refl
decode_map-encode_map ((k, false) ∷ m) =
    rw (decode_key-encode_key k (encode_map m) m (decode_map-encode_map m)) refl

abbrev encode_bool : Option Bool → ℕ
encode_bool none = 0
encode_bool (some false) = 1
encode_bool (some true) = 2

abbrev decode_bool : ℕ → Option Bool
decode_bool zero = none
decode_bool (suc zero) = some false
decode_bool (suc (suc n)) = some true

bool_back : (b : Option Bool) → decode_bool (encode_bool b) ≡ b
bool_back none = refl
bool_back (some false) = refl
bool_back (some true) = refl

abbrev encode_int : Option ℤ → ℕ × ℕ
encode_int none = (0, 0)
encode_int (some (pos n)) = (1, n)
encode_int (some (negsuc n)) = (2, n)

abbrev decode_int : ℕ → ℕ → Option ℤ
decode_int zero n = none
decode_int (suc zero) n = some (pos n)
decode_int (suc (suc k)) n = some (negsuc n)

int_back : (i : Option ℤ) → decode_int (encode_int i).0 (encode_int i).1 ≡ i
int_back none = refl
int_back (some (pos n)) = refl
int_back (some (negsuc n)) = refl

abbrev encode_id : Option ℕ → ℕ
encode_id none = 0
encode_id (some n) = suc n

abbrev decode_id : ℕ → Option ℕ
decode_id zero = none
decode_id (suc n) = some n

id_back : (i : Option ℕ) → decode_id (encode_id i) ≡ i
id_back none = refl
id_back (some n) = refl

abbrev text_of : Payload → Map Bool → GoString
text_of p m =
    let (w, x) = encode_int p.warning_limit in
    let (t, u) = encode_int p.timeout_threshold in
    let (k, l) = encode_int p.timeout_minutes in
    encode_bool p.enabled
    ∷ w
    ∷ x
    ∷ t
    ∷ u
    ∷ k
    ∷ l
    ∷ encode_bool p.allow_channel_reminders
    ∷ encode_id p.default_reminder_channel_id
    ∷ encode_map m

abbrev encode_payload : Payload → Option (Map Bool) → Option GoString
encode_payload p none = none
encode_payload p (some m) = some (text_of p m)

abbrev with_map : (Map Bool → Payload) → Option (Map Bool) → Option Payload
with_map f none = none
with_map f (some m) = some (f m)

abbrev decode_payload : GoString → Option Payload
decode_payload (e ∷ w ∷ x ∷ t ∷ u ∷ k ∷ l ∷ a ∷ c ∷ rest) =
    with_map
      (λ m. record {
        enabled = decode_bool e;
        commands = some m;
        warning_limit = decode_int w x;
        timeout_threshold = decode_int t u;
        timeout_minutes = decode_int k l;
        allow_channel_reminders = decode_bool a;
        default_reminder_channel_id = decode_id c;
      })
      (decode_map rest)
decode_payload _ = none

text_back :
    (p : Payload) (m : Map Bool)
    → decode_payload (text_of p m) ≡ some (record p { commands = some m })
text_back p m =
    rw
      (
        decode_map-encode_map m,
        bool_back p.enabled,
        bool_back p.allow_channel_reminders,
        int_back p.warning_limit,
        int_back p.timeout_threshold,
        int_back p.timeout_minutes,
        id_back p.default_reminder_channel_id,
      )
      refl

pub payload_back :
    (p : Payload) (m : Map Bool) (text : GoString)
    → p.commands ≡ some m
    → encode_payload p p.commands ≡ some text
    → (is_nil text ≡ false)
      × (n : Map Bool) × (decode_payload text ≡ some (record p { commands = some n }))
      × ((j : GoString) → lookup j n ≡ lookup j m)
payload_back p m text h e =
    let e' = rw h at e in
    let same : text ≡ text_of p m = cc in rw same (refl, m, text_back p m, λ j. refl)

abbrev pub list_codec : PayloadCodec
list_codec = record {
  marshal = λ p. encode_payload p p.commands;
  unmarshal = decode_payload;
  unmarshal-marshal = payload_back;
}

abbrev put_in : (ℕ → GoString → Found) → ℕ → GoString → GoString → ℕ → GoString → Found
put_in s guild p text g q = if g == guild && str_eq q p then found text else s g q

pub put_in_self :
    (s : ℕ → GoString → Found) (guild : ℕ) (p text : GoString)
    → put_in s guild p text guild p ≡ found text
put_in_self s guild p text = rw (==_refl guild, str_eq_refl p) refl

abbrev pub memory_store : KvStore
memory_store = record {
  Store = ℕ → GoString → Found;
  get = λ s guild p. s guild p;
  put = λ s guild p text. (put_in s guild p text, true);
  get-put = λ s guild p text h. put_in_self s guild p text;
}
