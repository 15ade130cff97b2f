-- ===== src/CustomId/Laws.antt =====
-- Building and parsing of internal/runtime/plugins/customid/codec.go, at two ids that are valid.
use go_mamacord.Base.{
  ◌+◌, ◌≤◌, ◌≡◌, refl, ap, ◌∙◌, true, false, some, [], ◌∷◌, ◌++◌, arith, ltb, if◌then◌else◌, length,
  All-append, GoString, str_eq_refl, trim_space, trim_space_of_NoSpace, NoSpace, is_space, byte_len,
  byte_len-append, has_prefix-append, trim_prefix, has_rune, split_on, split_on-none,
  split_on-append,
}
use go_mamacord.Manifest.Ids.{
  valid_id, valid_local_id, valid_id-IsPlain, valid_local_id-IsPlain, IsPlain-NoSpace,
  IsPlain-no_colon, IsPlain-byte_len, valid_id-is_nil, valid_local_id-is_nil,
}
use go_mamacord.CustomId.{
  built, refused, too_long, custom_id_prefix, join_ids, build, check_ids, parse_parts, parse,
}

custom_id_prefix-NoSpace : NoSpace custom_id_prefix
unfolding is_space
custom_id_prefix-NoSpace = (
  refl,
  (refl, (refl, (refl, (refl, (refl, (refl, (refl, (refl, (refl, (refl, (refl, tt))))))))))),
)

module _ (p l : GoString) (plugin_ok : valid_id p ≡ true) (local_ok : valid_local_id l ≡ true) where
  trim_plugin : trim_space p ≡ p
  trim_plugin = trim_space_of_NoSpace p (IsPlain-NoSpace p (valid_id-IsPlain p plugin_ok))

  trim_local : trim_space l ≡ l
  trim_local = trim_space_of_NoSpace l (IsPlain-NoSpace l (valid_local_id-IsPlain l local_ok))

  no_colon_plugin : has_rune b':' p ≡ false
  no_colon_plugin = IsPlain-no_colon p (valid_id-IsPlain p plugin_ok)

  no_colon_local : has_rune b':' l ≡ false
  no_colon_local = IsPlain-no_colon l (valid_local_id-IsPlain l local_ok)

  byte_len-join_ids : byte_len (join_ids p l) ≡ 13 + length p + length l
  unfolding byte_len
  byte_len-join_ids = omega (
    arith,
    byte_len-append p (b':' ∷ l),
    IsPlain-byte_len p (valid_id-IsPlain p plugin_ok),
    IsPlain-byte_len l (valid_local_id-IsPlain l local_ok),
  )

  pub join_ids-NoSpace : NoSpace (join_ids p l)
  unfolding is_space
  join_ids-NoSpace =
      All-append (λ c. is_space c ≡ false) custom_id_prefix (p ++ b':' ∷ l) custom_id_prefix-NoSpace
        (All-append (λ c. is_space c ≡ false) p (b':' ∷ l)
          (IsPlain-NoSpace p (valid_id-IsPlain p plugin_ok))
          (refl, IsPlain-NoSpace l (valid_local_id-IsPlain l local_ok)))

  -- Two valid ids are refused only for their length.
  pub build_valid :
      build p l
      ≡ (if ltb 100 (13 + length p + length l) then refused too_long else built (join_ids p l))
  unfolding build
  build_valid = simp (
    trim_plugin,
    trim_local,
    str_eq_refl p,
    str_eq_refl l,
    plugin_ok,
    local_ok,
    valid_id-is_nil p plugin_ok,
    valid_local_id-is_nil l local_ok,
    no_colon_plugin,
    no_colon_local,
    byte_len-join_ids,
  )

  split-join_ids : split_on b':' (p ++ b':' ∷ l) ≡ p ∷ l ∷ []
  split-join_ids =
      split_on-append b':' p l no_colon_plugin ∙ ap (◌∷◌ p) (split_on-none b':' l no_colon_local)

  check_ids_valid : check_ids p l ≡ some (p, l)
  unfolding check_ids
  check_ids_valid = simp (plugin_ok, local_ok, no_colon_plugin, no_colon_local)

  parse_parts_valid : parse_parts (p ∷ l ∷ []) ≡ some (p, l)
  unfolding parse_parts
  parse_parts_valid = rw (trim_plugin, trim_local) check_ids_valid

  trim_prefix-join_ids : trim_prefix (join_ids p l) custom_id_prefix ≡ p ++ b':' ∷ l
  unfolding trim_prefix
  trim_prefix-join_ids = refl

  pub parse-join_ids : 13 + length p + length l ≤ 100 → parse (join_ids p l) ≡ some (p, l)
  unfolding parse
  parse-join_ids h =
      simp
        (
          trim_space_of_NoSpace (join_ids p l) join_ids-NoSpace,
          str_eq_refl (join_ids p l),
          byte_len-join_ids,
          has_prefix-append custom_id_prefix (p ++ b':' ∷ l),
          trim_prefix-join_ids,
          split-join_ids,
          parse_parts_valid,
        )
        (ground arith)
