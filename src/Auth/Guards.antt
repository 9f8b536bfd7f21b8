-- ===== src/Auth/Guards.antt =====
-- The guard on the last administrator does its work.
use payops_intelligence.Prelude.{
  ℕ, ◌≡◌, refl, sym, subst, inl, inr, true, false, false≢true, Bool-cases, Option, none, some,
  String, str_eq, eq_of_str_eq, arith, is_id, if_both,
}
use payops_intelligence.Auth.Store.{AuthUser, Tables, first, update, is_user}
use payops_intelligence.Auth.Rows.{first_passes}
use payops_intelligence.Auth.Accounts.{is_admin, count_active_admins}
use payops_intelligence.Auth.Admin.{
  Role, set_status, set_role, is_last_admin, suspend_found, suspend_user, activate_found,
  activate_user, change_found, change_role, user_role, admin_role,
}
use payops_intelligence.Auth.Users.{update-IsKeyed, others_stay, not_admin_stays}
use payops_intelligence.Auth.Upkeep.{IsManaged, Leaves, updated}

id_given : (id : String) → is_id id ≡ true → str_eq id "" ≡ false
unfolding is_id
id_given id h = elim (Bool-cases (str_eq id "")) [
  | inl empty ↦ absurd (false≢true (subst (λ s. is_id s ≡ true) (eq_of_str_eq id "" empty) h))
  | inr given ↦ given
]

-- The guard of `suspend_user` and `change_role`.
guarded_update :
    (f : AuthUser → AuthUser) (t : Tables) (user : AuthUser)
    → ((u : AuthUser) → (f u).user_id ≡ u.user_id)
    → str_eq user.user_id "" ≡ false
    → first (is_user user.user_id) t.users ≡ some user
    → is_last_admin t user ≡ false
    → IsManaged t.users
    → IsManaged (update (is_user user.user_id) f t.users)
unfolding is_last_admin count_active_admins
guarded_update f t user same given found guard h = (
  update-IsKeyed (is_user user.user_id) f t.users same h.0,
  elim (Bool-cases (is_admin user)) [
    | inl admin ↦ others_stay user.user_id f t.users (rw admin at guard) given
    | inr plain ↦ not_admin_stays user.user_id f t.users user h.0 found plain h.1
  ],
)

-- A user that is found by an identifier, and may be updated under it.
abbrev IsFound : Tables → Option AuthUser → Type 0
IsFound t none = Unit
IsFound t (some user) =
    (str_eq user.user_id "" ≡ false) × (first (is_user user.user_id) t.users ≡ some user)

looked_up_user :
    (id : String) (t : Tables) (found : Option AuthUser)
    → is_id id ≡ true
    → first (is_user id) t.users ≡ found
    → IsFound t found
looked_up_user id t none valid e = tt
looked_up_user id t (some user) valid e =
    let same = eq_of_str_eq user.user_id id (first_passes (is_user id) t.users user e) in
    (
      subst (λ k. str_eq k "" ≡ false) (sym same) (id_given id valid),
      subst (λ k. first (is_user k) t.users ≡ some user) (sym same) e,
    )

module _ (actor : AuthUser) where
  pub suspend_found-Leaves :
      (now : ℕ) (found : Option AuthUser) (t : Tables)
      → IsFound t found
      → IsManaged t.users
      → Leaves (suspend_found actor now found t)
  unfolding suspend_found
  suspend_found-Leaves now none t e h = h
  suspend_found-Leaves now (some user) t e h = elim (Bool-cases (is_last_admin t user)) [
    | inl last ↦ rw last h
    | inr other ↦
        rw other (guarded_update (set_status "suspended") t user (λ u. refl) e.0 e.1 other h)
  ]

  pub change_found-Leaves :
      (role : Role) (found : Option AuthUser) (t : Tables)
      → IsFound t found
      → IsManaged t.users
      → Leaves (change_found actor role found t)
  unfolding change_found
  change_found-Leaves role none t e h = h
  change_found-Leaves admin_role (some user) t e h =
      updated (is_user user.user_id) (set_role "admin") t.users ((λ u. refl), (λ u a. ground arith))
        h
  change_found-Leaves user_role (some user) t e h = elim (Bool-cases (is_last_admin t user)) [
    | inl last ↦ rw last h
    | inr other ↦ rw other (guarded_update (set_role "user") t user (λ u. refl) e.0 e.1 other h)
  ]

  pub activate_found-Leaves :
      (found : Option AuthUser) (t : Tables)
      → IsManaged t.users
      → Leaves (activate_found actor found t)
  unfolding activate_found
  activate_found-Leaves none t h = h
  activate_found-Leaves (some user) t h =
      updated (is_user user.user_id) (set_status "active") t.users
        ((λ u. refl), (λ u a. ground arith)) h

  pub activate_user-Leaves :
      (id : String) (t : Tables) → IsManaged t.users → Leaves (activate_user actor id t)
  unfolding activate_user
  activate_user-Leaves id t h = if_both Leaves (is_id id) (activate_found-Leaves _ t h) h

  pub suspend_user-Leaves :
      (now : ℕ) (id : String) (t : Tables)
      → IsManaged t.users
      → Leaves (suspend_user actor now id t)
  unfolding suspend_user
  suspend_user-Leaves now id t h = elim (Bool-cases (is_id id)) [
    | inl valid ↦ rw valid (suspend_found-Leaves now _ t (looked_up_user id t _ valid refl) h)
    | inr bad ↦ rw bad h
  ]

  pub change_role-Leaves :
      (id : String) (role : Role) (t : Tables)
      → IsManaged t.users
      → Leaves (change_role actor id role t)
  unfolding change_role
  change_role-Leaves id role t h = elim (Bool-cases (is_id id)) [
    | inl valid ↦ rw valid (change_found-Leaves role _ t (looked_up_user id t _ valid refl) h)
    | inr bad ↦ rw bad h
  ]
