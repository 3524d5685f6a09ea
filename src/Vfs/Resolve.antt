-- ===== src/Vfs/Resolve.antt =====
-- Which volume a path leads to, in src/kernel/vfs.c: the longest mount point that is a prefix of it.
use asas_os.Common.{
  ℕ, zero, suc, ◌+◌, ◌≤◌, ◌<◌, ◌≡◌, ◌⊎◌, ◌↔◌, inl, inr, refl, ◌∙◌, ap, Bool, true, false, ◌&&◌,
  Option, none, some, List, [], ◌∷◌, ◌++◌, ltb, arith, Bool-cases, Option-cases, get_or, take,
  length, ℕ_discrete, ==_iff,
}
use asas_os.Vfs.Paths.{
  is_end, path_has_prefix, Volume, no_volume, relative_to, best_from, disk_alias,
}
use asas_os.Vfs.Disks.{Names, Names-unique, disk_alias-Names, disk_alias-some}
use asas_os.Vfs.State.{Vfs, volume_at, vfs_select_volume_for_path}

-- A path has a prefix exactly where it is the prefix, alone or with a separator behind it.
pub path_has_prefix_iff :
    (path prefix : List ℕ)
    → (path_has_prefix path prefix ≡ true)
      ↔ ((rest : List ℕ) × (path ≡ prefix ++ rest) × (is_end rest ≡ true))
unfolding path_has_prefix
path_has_prefix_iff path [] = (λ q. (path, refl, q), λ p. let (_, e, q) = p in rw e q)
path_has_prefix_iff [] (p ∷ prefix) =
    (λ q. absurd (ground (arith, q)), λ r. let (_, e, _) = r in absurd (cc e))
path_has_prefix_iff (c ∷ path) (p ∷ prefix) = elim (ℕ_discrete c p) [
  | yes e ↦
      let (there, back) = path_has_prefix_iff path prefix in
      rw ((==_iff c p).1 e) (
        (λ q. let (rest, same, end) = there q in (rest, cc, end)),
        (λ r. let (rest, same, end) = r in back (rest, cc, end)),
      )
  | no ne ↦ ((λ q. absurd (ground (arith, q, ne))), (λ r. let (_, same, _) = r in absurd (ne cc)))
]

-- A volume is in use, its mount point is not empty, and the path lies below it.
abbrev pub fits : List ℕ → Volume → Bool
fits path v = v.valid && (ltb 0 (length v.mount_point) && path_has_prefix path v.mount_point)

-- No volume of the list that fits has a longer mount point.
abbrev pub Within : List ℕ → List Volume → ℕ → Type 0
Within path l bound =
    (j : ℕ)
    → fits path (get_or l j no_volume) ≡ true
    → length (get_or l j no_volume).mount_point ≤ bound

-- The first of the longest.
pub record IsLongest (path : List ℕ) (l : List Volume) (i : ℕ) : Type 0 where
  pub bound : i < length l
  pub fitting : fits path (get_or l i no_volume) ≡ true
  pub longest : Within path l (length (get_or l i no_volume).mount_point)
  pub first :
      (j : ℕ)
      → j < i
      → fits path (get_or l j no_volume) ≡ true
      → length (get_or l j no_volume).mount_point < length (get_or l i no_volume).mount_point

Within-cons :
    (path : List ℕ) (v : Volume) (l : List Volume) (bound : ℕ)
    → (fits path v ≡ true → length v.mount_point ≤ bound)
    → Within path l bound
    → Within path (v ∷ l) bound
Within-cons path v l bound here there zero q = here q
Within-cons path v l bound here there (suc j) q = there j q

first-cons :
    (path : List ℕ) (v : Volume) (l : List Volume) (i bound : ℕ)
    → (fits path v ≡ true → length v.mount_point < bound)
    → ((j : ℕ)
        → j < i
        → fits path (get_or l j no_volume) ≡ true
        → length (get_or l j no_volume).mount_point < bound)
    → (j : ℕ) → j < suc i
    → fits path (get_or (v ∷ l) j no_volume) ≡ true
    → length (get_or (v ∷ l) j no_volume).mount_point < bound
first-cons path v l i bound here there zero b q = here q
first-cons path v l i bound here there (suc j) b q = there j (omega arith) q

-- The loop keeps the best so far, or finds one that is longer.
best_from_lem :
    (path : List ℕ) (index : ℕ) (l : List Volume) (best : Option ℕ) (best_length : ℕ)
    → ((best_from path index l best best_length ≡ (best, best_length)) × Within path l best_length)
      ⊎ ((k : ℕ) × (best_from path index l best best_length
            ≡ (some (index + k), length (get_or l k no_volume).mount_point))
          × (best_length < length (get_or l k no_volume).mount_point)
          × IsLongest path l k)
unfolding best_from
best_from_lem path index [] best best_length = inl (refl, λ j q. absurd (ground (arith, q)))
best_from_lem path index (v ∷ l) best best_length =
    elim (Bool-cases
      (v.valid && (ltb best_length (length v.mount_point) && path_has_prefix path v.mount_point))) [
        | inl z ↦ elim (best_from_lem path (index + 1) l (some index) (length v.mount_point)) [
          | inl (q, w) ↦ inr (
            0,
            rw (z, best_from) (q ∙ ap (λ n. (some n, length v.mount_point)) (omega arith)),
            ground arith,
            record {
              bound = omega arith;
              fitting = ground arith;
              longest = Within-cons path v l _ (λ f. omega arith) w;
              first = λ j b. absurd (omega arith);
            },
          )
          | inr (k, q, more, i) ↦ inr (
            suc k,
            rw (z, best_from)
                (q ∙ ap (λ n. (some n, length (get_or l k no_volume).mount_point)) (omega arith)),
            ground arith,
            record {
              bound = omega (arith, i.bound);
              fitting = i.fitting;
              longest = Within-cons path v l _ (λ f. omega arith) i.longest;
              first = first-cons path v l k _ (λ f. omega arith) i.first;
            },
          )
        ]
        | inr z ↦ elim (best_from_lem path (index + 1) l best best_length) [
          | inl (q, w) ↦ inl (rw (z, best_from) q, Within-cons path v l _ (λ f. ground arith) w)
          | inr (k, q, more, i) ↦ inr (
            suc k,
            rw (z, best_from)
                (q ∙ ap (λ n. (some n, length (get_or l k no_volume).mount_point)) (omega arith)),
            more,
            record {
              bound = omega (arith, i.bound);
              fitting = i.fitting;
              longest = Within-cons path v l _ (λ f. ground arith) i.longest;
              first = first-cons path v l k _ (λ f. ground arith) i.first;
            },
          )
        ]
      ]

-- The mount point that a path leads to is the longest in use that the path lies below, and of several
-- the first; what is left is the rest of the path, or the root. Where there is none, a path that is
-- `/disk0` to `/disk7`, or lies below it, leads to the volume of that number, if that is in use, and
-- any other path to none.
pub vfs_select_volume_for_path_lem :
    {W : Type 0} (path : List ℕ) (v : Vfs W)
    → let volumes = take v.volume_count v.volumes in
      let found = vfs_select_volume_for_path path v in
      ((i : ℕ) × IsLongest path volumes i
        × (found ≡ some (i, relative_to (length (get_or volumes i no_volume).mount_point) path)))
      ⊎ (((j : ℕ) → fits path (get_or volumes j no_volume) ≡ false)
          × (((i : ℕ) × Names path i
                × ((ltb i v.volume_count && (volume_at v i).valid) ≡ true)
                × (found ≡ some (i, relative_to 6 path)))
              ⊎ ((found ≡ none)
                  × ((i : ℕ)
                      → (¬ Names path i)
                        ⊎ ((ltb i v.volume_count && (volume_at v i).valid) ≡ false)))))
unfolding vfs_select_volume_for_path
vfs_select_volume_for_path_lem path v =
    let volumes = take v.volume_count v.volumes in
    elim (best_from_lem path 0 volumes none 0) [
      | inr (k, q, _, i) ↦
          let e : 0 + k ≡ k = omega arith in
          let q' = q ∙ ap (λ n. (some n, length (get_or volumes k no_volume).mount_point)) e in
          inl (
            k,
            i,
            rw (q', vfs_select_volume_for_path)
                (ap (λ n. some (k, relative_to n path)) (ap (λ p. p.1) q')),
          )
      | inl (q, w) ↦ inr (
        λ j. elim (Bool-cases (fits path (get_or volumes j no_volume))) [
          | inl f ↦ absurd (ground (arith, w j f))
          | inr f ↦ f
        ],
        elim (Option-cases (disk_alias path)) [
          | inl z ↦ inr (
            rw (q, z, vfs_select_volume_for_path) refl,
            λ i. inl (λ names. absurd (cc (disk_alias-Names path i names))),
          )
          | inr (found, z) ↦
              let names = disk_alias-some path found.0 found.1 z in
              let z' = disk_alias-Names path found.0 names in
              elim (Bool-cases (ltb found.0 v.volume_count && (volume_at v found.0).valid)) [
                | inl y ↦ inl (found.0, names, y, rw (q, z', y, vfs_select_volume_for_path) refl)
                | inr y ↦ inr (
                  rw (q, z', y, vfs_select_volume_for_path) refl,
                  λ i. elim (ℕ_discrete i found.0) [
                    | yes e ↦ inr (ap (λ n. ltb n v.volume_count && (volume_at v n).valid) e ∙ y)
                    | no ne ↦ inl (λ other. absurd (ne (Names-unique path i found.0 other names)))
                  ],
                )
              ]
        ],
      )
    ]
