-- ===== src/CustomId/RoundTrip.antt =====
-- What goes into a custom id and what comes out (internal/runtime/plugins/customid/codec.go).
use go_mamacord.Base.{
  ◌+◌, ◌≤◌, ◌≡◌, refl, ap, ◌↔◌, true, some, List, [], ◌∷◌, arith, length, GoString, trim_space,
  byte_len, byte_len-trim_space-le, parts_len, parts_len-split_on, has_prefix, has_prefix_elim,
  trim_prefix, split_on,
}
use go_mamacord.Manifest.Ids.{
  valid_id, valid_local_id, valid_id-IsPlain, valid_local_id-IsPlain, IsPlain-byte_len,
}
use go_mamacord.CustomId.{built, custom_id_prefix, join_ids, build, check_ids, parse_parts, parse}
use go_mamacord.CustomId.Laws.{build_valid, parse-join_ids}

build_inv :
    (p l out : GoString) → build p l ≡ built out → (valid_id p ≡ true) × (valid_local_id l ≡ true)
unfolding build
build_inv p l out h = ground arith

-- Building succeeds exactly when both ids match their patterns and the whole has at most 100 bytes,
-- and then gives the prefix, the plugin's id, a colon and the local id.
pub build_iff :
    (p l out : GoString)
    → (build p l ≡ built out) ↔ (
        (valid_id p ≡ true)
        × (valid_local_id l ≡ true)
        × (13 + length p + length l ≤ 100)
        × (out ≡ join_ids p l))
build_iff p l out = (
  λ h. let (a, b) = build_inv p l out h in ground (arith, build_valid p l a b),
  λ h. ground (arith, build_valid p l h.0 h.1),
)

-- What was built is parsed to the ids that it was built from.
pub parse-build : (p l out : GoString) → build p l ≡ built out → parse out ≡ some (p, l)
parse-build p l out h =
    let (a, b, short, e) = (build_iff p l out).0 h in rw e (parse-join_ids p l a b short)

check_ids_inv :
    (a b : GoString) {p l : GoString}
    → check_ids a b ≡ some (p, l)
    → (valid_id p ≡ true) × (valid_local_id l ≡ true) × (p ≡ a) × (l ≡ b)
unfolding check_ids
check_ids_inv a b h = ground arith

parse_parts_inv :
    (parts : List GoString) (p l : GoString)
    → parse_parts parts ≡ some (p, l)
    → (valid_id p ≡ true)
      × (valid_local_id l ≡ true)
      × (byte_len p + byte_len l + 2 ≤ parts_len parts)
unfolding parse_parts
parse_parts_inv [] p l h = cc
parse_parts_inv (a ∷ []) p l h = cc
parse_parts_inv (a ∷ b ∷ []) p l h =
    let (u, v, e, f) = check_ids_inv (trim_space a) (trim_space b) h in
    (
      u,
      v,
      omega
          (arith, ap byte_len e, ap byte_len f, byte_len-trim_space-le a, byte_len-trim_space-le b),
    )
parse_parts_inv (a ∷ b ∷ c ∷ r) p l h = cc

parse_inv :
    (s p l : GoString)
    → parse s ≡ some (p, l)
    → (byte_len s ≤ 100)
      × (has_prefix s custom_id_prefix ≡ true)
      × (parse_parts (split_on b':' (trim_prefix s custom_id_prefix)) ≡ some (p, l))
unfolding parse
parse_inv s p l h = ground arith

trim_prefix-byte_len :
    (s : GoString)
    → has_prefix s custom_id_prefix ≡ true
    → byte_len (trim_prefix s custom_id_prefix) + 12 ≡ byte_len s
unfolding trim_prefix byte_len
trim_prefix-byte_len s h = rw h (omega (arith, ap byte_len (has_prefix_elim s custom_id_prefix h)))

-- Whatever text is parsed, the two ids that come out match their patterns and can be built again.
pub build-parse : (s p l : GoString) → parse s ≡ some (p, l) → build p l ≡ built (join_ids p l)
build-parse s p l h =
    let (short, prefixed, parts) = parse_inv s p l h in
    let (u, v, fits) = parse_parts_inv _ p l parts in
    (build_iff p l (join_ids p l)).1 (
      u,
      v,
      omega (
        arith,
        fits,
        short,
        parts_len-split_on b':' (trim_prefix s custom_id_prefix) refl,
        trim_prefix-byte_len s prefixed,
        IsPlain-byte_len p (valid_id-IsPlain p u),
        IsPlain-byte_len l (valid_local_id-IsPlain l v),
      ),
      refl,
    )
