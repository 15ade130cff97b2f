-- ===== src/Contract/Refs.antt =====
-- invocation.go and definition.go: what an invocation carries of Discord's objects, and the member
-- permissions and channel kinds in them. A field that no code of the contract reads is kept too.
use go_mamacord.Base.{
  ℕ, Bool, true, false, not, Option, none, some, List, [], ◌∷◌, ◌==◌, any, is_nil, GoString,
  trim_space, ℤ,
}
use go_mamacord.Contract.Verdict.{Verdict, valid, invalid, ◌>>◌, refuse_if}
use go_mamacord.Contract.View.{ChannelKind}

-- `unknown_permission` is any other text, and so for the unknown values of the other kinds.
pub data MemberPermission : Type 0 where
  administrator manage_guild manage_roles manage_expressions create_expressions : MemberPermission
  manage_messages manage_nicknames manage_channels kick_members ban_members : MemberPermission
  moderate_members unknown_permission : MemberPermission

abbrev pub permission_code : MemberPermission → ℕ
permission_code administrator = 0
permission_code manage_guild = 1
permission_code manage_roles = 2
permission_code manage_expressions = 3
permission_code create_expressions = 4
permission_code manage_messages = 5
permission_code manage_nicknames = 6
permission_code manage_channels = 7
permission_code kick_members = 8
permission_code ban_members = 9
permission_code moderate_members = 10
permission_code unknown_permission = 11

abbrev pub valid_member_permission : MemberPermission → Bool
valid_member_permission unknown_permission = false
valid_member_permission _ = true

-- The loop over permissions, with those seen: each is known and none repeats. The texts leave out
-- whose the permissions are.
unfoldable pub validate_permissions : List MemberPermission → List MemberPermission → Verdict
validate_permissions seen [] = valid
validate_permissions seen (p ∷ ps) =
    refuse_if (not (valid_member_permission p)) "unsupported permission"
    >> (refuse_if (any (λ q. permission_code q == permission_code p) seen) "duplicate permission"
        >> validate_permissions (p ∷ seen) ps)

pub record UserRef : Type 0 where
  pub id : GoString
  pub username : GoString
  pub name : GoString
  pub avatar_url : GoString
  pub bot : Bool
  pub system : Bool

pub record RuntimeRef : Type 0 where
  pub version : GoString
  pub description : GoString
  pub repository : GoString
  pub mascot_image_url : GoString

pub record GuildRef : Type 0 where
  pub id : GoString
  pub name : GoString

pub record ChannelRef : Type 0 where
  pub id : GoString
  pub guild_id : GoString
  pub name : GoString
  pub kind : ChannelKind
  pub parent_id : GoString
  pub mention : GoString
  pub permission_bits : ℕ
  pub created_at : ℤ

pub record RoleRef : Type 0 where
  pub id : GoString
  pub guild_id : GoString
  pub name : GoString
  pub position : ℤ
  pub permissions : List MemberPermission
  pub mention : GoString
  pub color : ℤ
  pub hoist : Bool
  pub mentionable : Bool
  pub managed : Bool
  pub permission_bits : ℕ
  pub created_at : ℤ

pub record MemberRef : Type 0 where
  pub guild_id : GoString
  pub user : UserRef
  pub display_name : GoString
  pub role_ids : List GoString
  pub permissions : List MemberPermission

pub data MentionableKind : Type 0 where
  mentionable_user mentionable_role unknown_mentionable : MentionableKind

pub record MentionableRef : Type 0 where
  pub kind : MentionableKind
  pub user : Option UserRef
  pub role : Option RoleRef

pub record AttachmentRef : Type 0 where
  pub id : GoString
  pub filename : GoString
  pub content_type : GoString
  pub url : GoString
  pub size : ℤ
  pub width : ℤ
  pub height : ℤ

pub record MessageRef : Type 0 where
  pub id : GoString
  pub guild_id : GoString
  pub channel_id : GoString
  pub author : UserRef
  pub content : GoString

unfoldable pub validate_role_ref : RoleRef → Verdict
unfolding validate_permissions
validate_role_ref r =
    refuse_if (is_nil (trim_space r.id)) "role id is required"
    >> validate_permissions [] r.permissions

abbrev pub blank_user : UserRef → Bool
blank_user u = is_nil (trim_space u.id)

abbrev pub validate_user_mentionable : Option UserRef → Option RoleRef → Verdict
validate_user_mentionable (some u) none =
    refuse_if (blank_user u) "user mentionable requires only a user"
validate_user_mentionable _ _ = invalid "user mentionable requires only a user"

abbrev pub validate_role_mentionable : Option UserRef → Option RoleRef → Verdict
validate_role_mentionable none (some r) = validate_role_ref r
validate_role_mentionable _ _ = invalid "role mentionable requires only a role"

abbrev pub validate_mentionable_kind : MentionableKind → Option UserRef → Option RoleRef → Verdict
validate_mentionable_kind mentionable_user u r = validate_user_mentionable u r
validate_mentionable_kind mentionable_role u r = validate_role_mentionable u r
validate_mentionable_kind unknown_mentionable u r = invalid "unsupported mentionable kind"

unfoldable pub validate_mentionable : MentionableRef → Verdict
unfolding validate_role_ref
validate_mentionable m = validate_mentionable_kind m.kind m.user m.role
