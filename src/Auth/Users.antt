-- ===== src/Auth/Users.antt =====
-- What the changes of a user row leave true of all users: their keys differ, and one of them is an
-- active administrator.
use payops_intelligence.Prelude.{
  ◌≡◌, refl, ap, subst, ◌∙◌, inl, inr, Bool, true, false, not, ◌&&◌, ◌||◌, Bool-cases, some, List,
  [], ◌∷◌, String, str_eq, eq_of_str_eq, any, filter, length, ◌==◌, arith, if◌then◌else◌,
}
use payops_intelligence.Auth.Store.{AuthUser, first, update, is_user}
use payops_intelligence.Auth.Rows.{some_injective}
use payops_intelligence.Auth.Accounts.{is_admin, is_active_admin, is_excluded}

-- No two users have one identifier.
abbrev pub IsKeyed : List AuthUser → Type 0
IsKeyed [] = Unit
IsKeyed (u ∷ users) = (any (is_user u.user_id) users ≡ false) × IsKeyed users

abbrev pub HasAdmin : List AuthUser → Type 0
HasAdmin users = any is_active_admin users ≡ true

-- A change that leaves the identifiers alone.
any_id-update :
    (k : String) (pick : AuthUser → Bool) (change : AuthUser → AuthUser) (users : List AuthUser)
    → ((u : AuthUser) → (change u).user_id ≡ u.user_id)
    → any (is_user k) (update pick change users) ≡ any (is_user k) users
any_id-update k pick change [] same = refl
any_id-update k pick change (u ∷ users) same = elim (Bool-cases (pick u)) [
  | inl chosen ↦
      rw chosen (rw (same u) (ap (λ b. is_user k u || b) (any_id-update k pick change users same)))
  | inr left ↦ rw left (ap (λ b. is_user k u || b) (any_id-update k pick change users same))
]

changed_id :
    (pick : AuthUser → Bool) (change : AuthUser → AuthUser) (u : AuthUser)
    → ((u : AuthUser) → (change u).user_id ≡ u.user_id)
    → (if pick u then change u else u).user_id ≡ u.user_id
changed_id pick change u same = elim (Bool-cases (pick u)) [
  | inl chosen ↦ rw chosen (same u)
  | inr left ↦ rw left refl
]

pub update-IsKeyed :
    (pick : AuthUser → Bool) (change : AuthUser → AuthUser) (users : List AuthUser)
    → ((u : AuthUser) → (change u).user_id ≡ u.user_id)
    → IsKeyed users
    → IsKeyed (update pick change users)
update-IsKeyed pick change [] same h = tt
update-IsKeyed pick change (u ∷ users) same h = (
  rw (changed_id pick change u same) (any_id-update u.user_id pick change users same ∙ h.0),
  update-IsKeyed pick change users same h.1,
)

-- A change that leaves active administrators so.
pub update-HasAdmin :
    (pick : AuthUser → Bool) (change : AuthUser → AuthUser) (users : List AuthUser)
    → ((u : AuthUser) → is_active_admin u ≡ true → is_active_admin (change u) ≡ true)
    → HasAdmin users
    → HasAdmin (update pick change users)
update-HasAdmin pick change [] keeps h = h
update-HasAdmin pick change (u ∷ users) keeps h =
    ground (arith, keeps u, update-HasAdmin pick change users keeps)

-- Rows that the update does not pick.
update_away :
    (id : String) (change : AuthUser → AuthUser) (users : List AuthUser)
    → any (is_user id) users ≡ false
    → update (is_user id) change users ≡ users
update_away id change [] away = refl
update_away id change (u ∷ users) away = elim (Bool-cases (is_user id u)) [
  | inl here ↦ absurd (ground arith)
  | inr there ↦ rw there (ap (λ rest. u ∷ rest) (update_away id change users (rw there at away)))
]

pub or_right : (a b : Bool) → b ≡ true → a || b ≡ true
or_right true b h = refl
or_right false b h = h

rest_admin :
    (u : AuthUser) (users : List AuthUser)
    → is_admin u ≡ false
    → HasAdmin (u ∷ users)
    → HasAdmin users
rest_admin u users plain h = rw plain at h

-- Another active administrator stays, whatever becomes of the user.
pub others_stay :
    (id : String) (change : AuthUser → AuthUser) (users : List AuthUser)
    → (length (filter (λ u. is_active_admin u && not (is_excluded (some id) u)) users) == 0) ≡ false
    → str_eq id "" ≡ false
    → HasAdmin (update (is_user id) change users)
others_stay id change [] other given = absurd cc
others_stay id change (u ∷ users) other given = ground (arith, others_stay id change users)

-- A change of a user who is no administrator leaves those who are.
pub not_admin_stays :
    (id : String) (change : AuthUser → AuthUser) (users : List AuthUser) (user : AuthUser)
    → IsKeyed users
    → first (is_user id) users ≡ some user
    → is_admin user ≡ false
    → HasAdmin users
    → HasAdmin (update (is_user id) change users)
not_admin_stays id change [] user keyed found plain h = h
not_admin_stays id change (u ∷ users) user keyed found plain h = elim (Bool-cases (is_user id u)) [
  | inl here ↦
      let plain' = ap is_admin (some_injective u user (rw here at found)) ∙ plain in
      let away =
        subst (λ k. any (is_user k) users ≡ false) (eq_of_str_eq u.user_id id here) keyed.0 in
      or_right (is_active_admin (if is_user id u then change u else u)) _
        (rw (update_away id change users away) (rest_admin u users plain' h))
  | inr there ↦ ground (arith, not_admin_stays id change users user)
]
