-- ===== src/Limits/Store.antt =====
-- vlimits.c: `vget_limits`, `vset_limits` and `vdel_limits`, the limits of a domain by its name.
-- `vget_assign`, which finds the directory of a domain, is a parameter: it answers with the text that
-- it leaves in the caller's buffer. So is the file system's answer whether a file can be opened for
-- writing; the other calls on a file that is there succeed. Ownership and mode are left out.
use vpopmail.Common.{
  ℕ, ◌-◌, ◌≡◌, ◌≢◌, refl, Bool, true, ◌++◌, Option, none, some, Bytes, codes, take, length, equal,
  equal_iff, if◌then◌else◌, Bool-cases, inl, inr,
}
use mathlib.Core.Option.{some-injective}
use vpopmail.Limits.{Vlimits, default_limits, write_limits_file}
use vpopmail.Limits.Reader.{read_limits_file}
use vpopmail.Limits.Written.{forgotten}
use vpopmail.Limits.RoundTrip.{IsWritable, read-write}

-- The files by their paths.
abbrev pub Files : Type 0
Files = Bytes → Option Bytes

abbrev pub max_buff : ℕ
max_buff = 300

-- `snprintf(mydomain, sizeof(mydomain), "%s", domain)`
abbrev pub copied : Bytes → Bytes
copied s = take (max_buff - 1) s

-- `strncat(dir, "/.qmailadmin-limits", sizeof(dir) - strlen(dir) - 1)`
abbrev pub limits_path : Bytes → Bytes
limits_path dir = dir ++ take (max_buff - length dir - 1) (codes "/.qmailadmin-limits")

-- `fopen(path, "w+")` and what is written, or `unlink(path)`.
abbrev pub put_file : Bytes → Option Bytes → Files → Files
put_file path text files p = if equal path p then text else files p

module _ (vget_assign : Bytes → Option Bytes) (default_file : Bytes)
    (can_write : Bytes → Bool) where
  -- The attempt on the default file, once that on the domain's own has failed.
  or_default : Files → Option Vlimits → Option Vlimits
  or_default files (some l) = some l
  or_default files none = read_limits_file (files default_file) default_limits

  get_in : Files → Option Bytes → Option Vlimits
  unfolding or_default
  get_in files none = none
  get_in files (some dir) =
      or_default files (read_limits_file (files (limits_path dir)) default_limits)

  unfoldable pub get_limits : Bytes → Files → Option Vlimits
  unfolding get_in
  get_limits domain files = get_in files (vget_assign (copied domain))

  set_in : Vlimits → Files → Option Bytes → Option Files
  set_in l files none = none
  set_in l files (some dir) =
      if can_write (limits_path dir)
      then some (put_file (limits_path dir) (some (write_limits_file l)) files)
      else none

  unfoldable pub set_limits : Bytes → Vlimits → Files → Option Files
  unfolding set_in
  set_limits domain l files = set_in l files (vget_assign (copied domain))

  -- `unlink` fails on a file that is not there.
  unlink : Bytes → Files → Option Bytes → Option Files
  unlink path files none = none
  unlink path files (some text) = some (put_file path none files)

  del_in : Files → Option Bytes → Option Files
  unfolding unlink
  del_in files none = none
  del_in files (some dir) = unlink (limits_path dir) files (files (limits_path dir))

  unfoldable pub del_limits : Bytes → Files → Option Files
  unfolding del_in
  del_limits domain files = del_in files (vget_assign (copied domain))

  equal_refl : (s : Bytes) → equal s s ≡ true
  equal_refl s = (equal_iff s s).1 refl

  get_put :
      (l : Vlimits) (files : Files) (dir : Bytes)
      → IsWritable l
      → get_in (put_file (limits_path dir) (some (write_limits_file l)) files) (some dir)
        ≡ some (forgotten l)
  unfolding get_in
  get_put l files dir w = rw (equal_refl (limits_path dir), read-write l w)

  get-set_in :
      (d : Option Bytes) (l : Vlimits) (files after : Files)
      → IsWritable l
      → set_in l files d ≡ some after
      → get_in after d ≡ some (forgotten l)
  unfolding set_in
  get-set_in none l files after w e = cc
  get-set_in (some dir) l files after w e = elim (Bool-cases (can_write (limits_path dir))) [
    | inl yes_we_can ↦
        let same : put_file (limits_path dir) (some (write_limits_file l)) files ≡ after =
          some-injective _ _ (rw yes_we_can at e) in
        rw (← same) (get_put l files dir w)
    | inr denied ↦ let never : ◌≡◌ {A = Option Files} none (some after) = rw denied at e in cc
  ]

  -- If `vset_limits` succeeds on limits whose permissions have at most three bits and that fit the C
  -- type `int`, `vget_limits` finds them again, whatever files there were before, but for the
  -- permissions of the lists' users and moderators.
  pub get-set :
      (domain : Bytes) (l : Vlimits) (files : Files) {after : Files}
      → IsWritable l
      → set_limits domain l files ≡ some after
      → get_limits domain after ≡ some (forgotten l)
  unfolding set_limits get_limits
  get-set domain l files w e = get-set_in (vget_assign (copied domain)) l files _ w e

  gone :
      (files : Files) (dir : Bytes)
      → limits_path dir ≢ default_file
      → get_in (put_file (limits_path dir) none files) (some dir)
        ≡ read_limits_file (files default_file) default_limits
  unfolding get_in or_default read_limits_file
  gone files dir ne = elim (Bool-cases (equal (limits_path dir) default_file)) [
    | inl same ↦ absurd (ne ((equal_iff (limits_path dir) default_file).0 same))
    | inr other ↦ rw (equal_refl (limits_path dir), other)
  ]

  get-unlink :
      (files after : Files) (dir : Bytes) (old : Option Bytes)
      → limits_path dir ≢ default_file
      → unlink (limits_path dir) files old ≡ some after
      → get_in after (some dir) ≡ read_limits_file (files default_file) default_limits
  unfolding unlink
  get-unlink files after dir none ne e = cc
  get-unlink files after dir (some text) ne e =
      let same : put_file (limits_path dir) none files ≡ after = some-injective _ _ e in
      rw (← same) (gone files dir ne)

  -- After `vdel_limits` has succeeded on a domain that `vget_assign` knows, `vget_limits` gives the
  -- limits of the default file, if that is not the file that was deleted.
  pub get-del :
      (domain dir : Bytes) (files : Files) {after : Files}
      → vget_assign (copied domain) ≡ some dir
      → limits_path dir ≢ default_file
      → del_limits domain files ≡ some after
      → get_limits domain after ≡ read_limits_file (files default_file) default_limits
  unfolding del_limits get_limits
  get-del domain dir files a ne e =
      rw a (get-unlink files _ dir (files (limits_path dir)) ne (rw a at e))
