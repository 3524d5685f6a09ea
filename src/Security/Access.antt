-- ===== src/Security/Access.antt =====
-- Who can become whom by src/kernel/security.c.
use asas_os.Common.{
  ℕ, ◌≡◌, ◌↔◌, ◌⊎◌, refl, sym, ◌∙◌, ap, true, false, List, [], ◌∷◌, arith, Bool-cases, inl, inr,
}
use mathlib.Core.Bool.{false≢true}
use asas_os.Common.Texts.{codes}
use asas_os.Security.{
  User, root, guest, strings_equal, can_read, can_write, can_execute, can_admin, switch_among,
  switch_user_authenticated, switch_user, self_test, initial,
}

strings_equal→eq : (left right : List ℕ) → strings_equal left right ≡ true → left ≡ right
unfolding strings_equal
strings_equal→eq [] [] h = refl
strings_equal→eq [] (y ∷ right) h = cc
strings_equal→eq (x ∷ left) [] h = cc
strings_equal→eq (x ∷ left) (y ∷ right) h = ground (arith, strings_equal→eq left right)

strings_equal_self : (left : List ℕ) → strings_equal left left ≡ true
unfolding strings_equal
strings_equal_self [] = refl
strings_equal_self (x ∷ left) = ground (arith, strings_equal_self left)

-- `strings_equal` decides equality.
pub strings_equal_iff : (left right : List ℕ) → (strings_equal left right ≡ true) ↔ (left ≡ right)
strings_equal_iff left right =
    (strings_equal→eq left right, λ e. ap (strings_equal left) (sym e) ∙ strings_equal_self left)

-- A switch that is refused changes no user. One that is granted makes the caller `root`, by name and
-- with the password of `root`, or `guest`, by name and with any password.
pub switch_user_authenticated_lem :
    (current : User) (name password : List ℕ)
    → ((switch_user_authenticated current name password ≡ (false, current))
        ⊎ ((switch_user_authenticated current name password ≡ (true, root))
            × (name ≡ codes "root")
            × (password ≡ codes "asas-root")))
      ⊎ ((switch_user_authenticated current name password ≡ (true, guest)) × (name ≡ codes "guest"))
unfolding switch_user_authenticated switch_among
switch_user_authenticated_lem current name password =
    elim (Bool-cases (strings_equal root.name name)) [
      | inl r ↦ elim (Bool-cases (strings_equal root.password password)) [
        | inl p ↦ inl (
            inr (
              rw (r, p),
              sym (strings_equal→eq root.name name r),
              sym (strings_equal→eq root.password password p),
            ))
        | inr p ↦ inl (inl (rw (r, p)))
      ]
      | inr r ↦ elim (Bool-cases (strings_equal guest.name name)) [
        | inl g ↦ inr (rw (r, g), sym (strings_equal→eq guest.name name g))
        | inr g ↦ inl (inl (rw (r, g)))
      ]
    ]

no_gain :
    (current : User) (name : List ℕ)
    → can_admin (switch_user_authenticated current name []).1 ≡ true
    → can_admin current ≡ true
unfolding can_admin
no_gain current name h = elim (switch_user_authenticated_lem current name []) [
  | inl (inl q) ↦ rw q at h
  | inl (inr (_, _, p)) ↦ cc
  | inr (q, _) ↦ absurd (false≢true (rw q at h))
]

-- `security_switch_user`, which gives no password, never makes the caller an administrator: it is
-- refused for the name `root`, and whoever is an administrator afterwards was one before.
pub switch_user_lem :
    (current : User) (name : List ℕ)
    → ((switch_user current (codes "root")) ≡ (false, current))
      × (can_admin (switch_user current name).1 ≡ true → can_admin current ≡ true)
unfolding switch_user can_admin switch_user_authenticated switch_among strings_equal
switch_user_lem current name = (refl, λ h. no_gain current name h)

-- The self test passes for the initial user, and leaves that user.
pub self_test_lem : self_test initial ≡ (true, initial)
unfolding self_test switch_user switch_user_authenticated switch_among strings_equal can_read
    can_write can_execute can_admin
self_test_lem = refl
