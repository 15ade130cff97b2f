-- ===== src/Permissions/Laws.antt =====
-- The laws of the permission algebra of internal/permissions/policy.go.
use go_mamacord.Base.{
  true, false, ◌≡◌, refl, ◌≢◌, ◌↔◌, ◌⊎◌, inl, inr, Option, none, some, [], ◌∷◌, arith, GoString,
  trim_space, lookup, entries, is_nil, Bool-cases, or-true,
}
use go_mamacord.Permissions.{Permissions, Policy, effective, merge, granted, merge_override}
use go_mamacord.Permissions.Flags.{Flag, allows, ◌⊑◌, allows-effective, allows-merge}

-- What a plugin gets is the greatest permission set that is both within the requested and within
-- the granted one: it is within both, and whatever is within both is within it.
pub effective_greatest :
    (r g : Permissions)
    → (effective r g ⊑ r)
      × (effective r g ⊑ g)
      × ((p : Permissions) → p ⊑ r → p ⊑ g → p ⊑ effective r g)
effective_greatest r g = (
  λ f h. ground (arith, allows-effective r g f),
  λ f h. ground (arith, allows-effective r g f),
  λ p a b f h. ground (arith, allows-effective r g f, a f h, b f h),
)

-- Merging an override into the defaults gives the least permission set above both: it allows whatever
-- one of them allows, and whatever is above both is above it.
pub merge_least :
    (b o : Permissions)
    → (b ⊑ merge b o) × (o ⊑ merge b o) × ((p : Permissions) → b ⊑ p → o ⊑ p → merge b o ⊑ p)
merge_least b o = (
  λ f h. ground (arith, allows-merge b o f),
  λ f h. ground (arith, allows-merge b o f),
  λ p k l f h. either p f k l (ground (arith, allows-merge b o f)),
)
  where
    either :
        (p : Permissions) (f : Flag)
        → b ⊑ p
        → o ⊑ p
        → (allows b f ≡ true) ⊎ (allows o f ≡ true)
        → allows p f ≡ true
    either p f k l (inl e) = k f e
    either p f k l (inr e) = l f e

-- The policy has an entry for the plugin that allows the switch.
abbrev pub Overridden : Policy → GoString → Flag → Type 0
Overridden p id f =
    (trim_space id ≢ [])
    × ((o : Permissions) × (lookup id (entries p.plugins) ≡ some o) × (allows o f ≡ true))

merge_override-allows :
    (d : Permissions) (e : Option Permissions) (f : Flag)
    → (allows (merge_override d e) f ≡ true)
      ↔ ((allows d f ≡ true) ⊎ ((o : Permissions) × (e ≡ some o) × (allows o f ≡ true)))
merge_override-allows d none f = (λ h. inl h, λ h. elim h [ inl e ↦ e | inr (o, e, a) ↦ cc ])
merge_override-allows d (some o) f = (
  λ h. elim (or-true (allows d f) (allows o f) (rw (← allows-merge d o f) h)) [
    | inl e ↦ inl e
    | inr e ↦ inr (o, refl, e)
  ],
  λ h. elim h [
    | inl e ↦ ground (arith, allows-merge d o f)
    | inr (o', e, a) ↦ ground (arith, allows-merge d o f)
  ],
)

is_nil-ne : (s : GoString) → is_nil s ≡ false → s ≢ []
is_nil-ne [] h e = cc
is_nil-ne (c ∷ s) h e = cc

is_nil-eq : (s : GoString) → is_nil s ≡ true → s ≡ []
is_nil-eq [] h = refl
is_nil-eq (c ∷ s) h = cc

-- The policy grants a switch to a plugin exactly when the defaults allow it, or the plugin's name
-- is not blank and its own entry allows it.
pub granted_iff :
    (p : Policy) (id : GoString) (f : Flag)
    → (allows (granted p id) f ≡ true) ↔ ((allows p.defaults f ≡ true) ⊎ Overridden p id f)
unfolding granted
granted_iff p id f = elim (Bool-cases (is_nil (trim_space id))) [
  | inl blank ↦
      rw blank
        (λ h. inl h, λ h. elim h [ inl e ↦ e | inr (ne, _) ↦ absurd (ne (is_nil-eq _ blank)) ])
  | inr named ↦ rw named (
    λ h. elim ((merge_override-allows p.defaults (lookup id (entries p.plugins)) f).0 h) [
      | inl e ↦ inl e
      | inr w ↦ inr (is_nil-ne _ named, w)
    ],
    λ h.
        (merge_override-allows p.defaults (lookup id (entries p.plugins)) f).1
          (elim h [ inl e ↦ inl e | inr (_, w) ↦ inr w ]),
  )
]

-- A plugin gets a switch exactly when it requests it and the host's policy allows it, by its
-- defaults or by the plugin's own entry.
pub effective-granted_iff :
    (requested : Permissions) (p : Policy) (id : GoString) (f : Flag)
    → (allows (effective requested (granted p id)) f ≡ true)
      ↔ ((allows requested f ≡ true) × ((allows p.defaults f ≡ true) ⊎ Overridden p id f))
effective-granted_iff requested p id f = (
  λ h. (
    ground (arith, allows-effective requested (granted p id) f),
    (granted_iff p id f).0 (ground (arith, allows-effective requested (granted p id) f)),
  ),
  λ h.
      let g = (granted_iff p id f).1 h.1 in
      ground (arith, allows-effective requested (granted p id) f, g, h.0),
)
