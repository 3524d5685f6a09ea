-- ===== src/Security/Tests.antt =====
-- Switches of user of src/kernel/security.c.
use asas_os.Common.{◌≡◌, ◌⊎◌, true, false}
use asas_os.Common.Texts.{codes}
use asas_os.Security.{guest, root, switch_user_authenticated}
use asas_os.Security.Access.{switch_user_authenticated_lem}

switch_user_authenticated_lem_example :
    ((switch_user_authenticated guest (codes "root") (codes "asas-root") ≡ (false, guest))
      ⊎ ((switch_user_authenticated guest (codes "root") (codes "asas-root") ≡ (true, root))
          × (codes "root" ≡ codes "root")
          × (codes "asas-root" ≡ codes "asas-root")))
    ⊎ ((switch_user_authenticated guest (codes "root") (codes "asas-root") ≡ (true, guest))
        × (codes "root" ≡ codes "guest"))
switch_user_authenticated_lem_example =
    switch_user_authenticated_lem guest (codes "root") (codes "asas-root")
