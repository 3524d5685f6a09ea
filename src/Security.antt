-- ===== src/Security.antt =====
-- The users of src/kernel/security.c. A C string is the list of its characters before the NUL;
-- `current_user` is the record that it points to. The log lines are left out.
pub mod Access
mod Tests
use Prim.Native.Nat.{bit_and}
use Prim.Native.String.{String}
use asas_os.Common.{ℕ, ◌+◌, Bool, true, false, not, ◌&&◌, ◌||◌, List, [], ◌∷◌, ◌==◌, if◌then◌else◌}
use asas_os.Common.Texts.{codes}

abbrev pub permission_read : ℕ
permission_read = 1

abbrev pub permission_write : ℕ
permission_write = 2

abbrev pub permission_execute : ℕ
permission_execute = 4

abbrev pub permission_admin : ℕ
permission_admin = 8

-- `ASAS_SECURITY_USER`
pub record User : Type 0 where
  pub uid : ℕ
  pub name : List ℕ
  pub password : List ℕ
  pub permissions : ℕ

abbrev pub root : User
root = record { uid = 0; name = codes "root"; password = codes "asas-root"; permissions = 15 }

abbrev pub guest : User
guest = record { uid = 1000; name = codes "guest"; password = []; permissions = 5 }

abbrev pub users : List User
users = root ∷ guest ∷ []

-- The loop over two strings; past an end the NUL is compared.
pub strings_equal : List ℕ → List ℕ → Bool
strings_equal [] [] = true
strings_equal [] (_ ∷ _) = false
strings_equal (_ ∷ _) [] = false
strings_equal (x ∷ left) (y ∷ right) = if x == y then strings_equal left right else false

-- What `security_initialize` sets.
abbrev pub initial : User
initial = root

abbrev pub allows : ℕ → User → Bool
allows permission u = not (bit_and u.permissions permission == 0)

pub can_read : User → Bool
can_read u = allows permission_read u

pub can_write : User → Bool
can_write u = allows permission_write u

pub can_execute : User → Bool
can_execute u = allows permission_execute u

pub can_admin : User → Bool
can_admin u = allows permission_admin u

-- The loop of `security_switch_user_authenticated`, over the users from an index on.
pub switch_among : List User → User → List ℕ → List ℕ → Bool × User
switch_among [] current name password = (false, current)
switch_among (u ∷ rest) current name password =
    if strings_equal u.name name
    then if allows permission_admin u && not (strings_equal u.password password)
      then (false, current)
      else (true, u)
    else switch_among rest current name password

pub switch_user_authenticated : User → List ℕ → List ℕ → Bool × User
switch_user_authenticated current name password = switch_among users current name password

pub switch_user : User → List ℕ → Bool × User
switch_user current name = switch_user_authenticated current name []

-- `security_self_test`: the result, and the user that it leaves.
pub self_test : User → Bool × User
self_test current =
    if ((not (strings_equal current.name (codes "root")) || not (current.uid == 0))
        || (not (can_read current) || not (can_write current)))
      || (not (can_execute current) || not (can_admin current))
    then (false, current)
    else let (switched, as_guest) = switch_user current (codes "guest") in
      if ((not switched || not (as_guest.uid == 1000))
          || (not (can_read as_guest) || can_write as_guest))
        || (not (can_execute as_guest) || can_admin as_guest)
      then (false, (switch_user as_guest (codes "root")).1)
      else let (unchecked, as_unchecked) = switch_user as_guest (codes "root") in
        if unchecked
        then (false, as_unchecked)
        else let (checked, as_root) =
            switch_user_authenticated as_unchecked (codes "root") (codes "asas-root") in
          if checked then (true, root) else (false, as_root)
